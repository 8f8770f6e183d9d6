-- ===== src/Webhooks/Address.antt =====
-- api/service/webhook_url.go: the addresses that a webhook may be sent to. net/url, the methods of
-- net.IP, net.ParseIP and the DNS resolver are parameters; an address is its bytes.
use semrel_registry.Prelude.{Bool, Option, none, some, List, [], ◌∷◌, all, not, ◌&&◌}
use semrel_registry.Text.{Text, text, equal_fold, is_empty}
use semrel_registry.Naming.{UrlParser}
use semrel_registry.Result.{Result, err, validation, check, both_ok}

pub record Network : Type 0 where
  pub parse_ip : Text → Option Text
  -- LookupIPAddr; `none` is its error
  pub lookup_addresses : Text → Option (List Text)
  pub is_loopback : Text → Bool
  pub is_private : Text → Bool
  pub is_link_local_unicast : Text → Bool
  pub is_link_local_multicast : Text → Bool
  pub is_unspecified : Text → Bool
  pub is_multicast : Text → Bool

-- publiclyRoutable
unfoldable pub publicly_routable : Network → Text → Bool
publicly_routable net ip =
    not (net.is_loopback ip)
    && not (net.is_private ip)
    && not (net.is_link_local_unicast ip)
    && not (net.is_link_local_multicast ip)
    && not (net.is_unspecified ip)
    && not (net.is_multicast ip)

-- the addresses that the host resolves to
abbrev check_addresses : Network → Option (List Text) → Result (Unit {0})
unfolding publicly_routable
check_addresses net none = err (validation "url")
check_addresses net (some []) = err (validation "url")
check_addresses net (some (ip ∷ ips)) =
    check (not (all (publicly_routable net) (ip ∷ ips))) (validation "url")

unfoldable pub check_host : Network → Text → Result (Unit {0})
unfolding publicly_routable
check_host net host = elim (net.parse_ip host) [
  | some ip ↦ check (not (publicly_routable net ip)) (validation "url")
  | none ↦ check_addresses net (net.lookup_addresses host)
]

-- ValidateWebhookURL
unfoldable pub validate_webhook_url : UrlParser → Network → Text → Result (Unit {0})
unfolding check_host
validate_webhook_url urls net raw = elim (urls.parse raw) [
  | none ↦ err (validation "url")
  | some u ↦ both_ok (check (is_empty u.host) (validation "url")) (
      both_ok (check (not (equal_fold u.scheme (text "https"))) (validation "url")) (
        both_ok (check u.has_user (validation "url"))
          (both_ok (check (is_empty u.hostname) (validation "url")) (check_host net u.hostname))))
]
