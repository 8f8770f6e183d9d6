-- ===== src/Webhooks/Delivery.antt =====
-- The deliveries of api/handlers/webhooks.go. The goroutines of an event run one after the other;
-- the HTTP client and HMAC-SHA256 are parameters.
use semrel_registry.Prelude.{
  ℕ, ◌/◌, ◌%◌, Bool, true, false, Option, none, some, List, [], ◌∷◌, ◌++◌, ◌&&◌, ◌+◌, if◌then◌else◌,
  ltb,
}
use semrel_registry.Prelude.Int.{ℤ, pos, leb_ℤ, ltb_ℤ}
use semrel_registry.Text.{Text, text}
use semrel_registry.Naming.{UrlParser}
use semrel_registry.Models.{Time}
use semrel_registry.Result.{Result, ok, err, Exec, pure, ◌>>=◌, ◌>>◌}
use semrel_registry.Webhooks.{WebhookDisk, Subscription, list_active_for_event, record_delivery}
use semrel_registry.Webhooks.Address.{Network, validate_webhook_url}

-- a POST of JSON with the header X-Hub-Signature-256
pub record Request : Type 0 where
  pub url : Text
  pub body : Text
  pub signature : Text

pub record Sender : Type 0 where
  pub urls : UrlParser
  pub network : Network
  -- whether http.NewRequest takes the URL
  pub accepts : Text → Bool
  -- the status of the response, or `none` where the client gives an error
  pub post : Request → Option ℤ
  -- the bytes of the HMAC-SHA256 of a body under a key
  pub hmac : Text → Text → Text

abbrev hex_digit : ℕ → ℕ
hex_digit n = if ltb n 10 then n + b'0' else n + 87

-- hex.EncodeToString
unfoldable pub hex : Text → Text
hex [] = []
hex (c ∷ s) = hex_digit (c / 16) ∷ hex_digit (c % 16) ∷ hex s

unfoldable pub sign : Sender → Text → Text → Text
unfolding hex
sign sender secret body = text "sha256=" ++ hex (sender.hmac secret body)

abbrev status_or_zero : Option ℤ → ℤ
status_or_zero none = pos 0
status_or_zero (some status) = status

abbrev is_success : Option ℤ → Bool
is_success none = false
is_success (some status) = leb_ℤ (pos 200) status && ltb_ℤ status (pos 300)

-- an action whose error nobody reads
unfoldable pub ignoring : {S : Type 0} → Exec S (Unit {0}) → Exec S (Unit {0})
ignoring m s = (ok tt, (m s).1)

unfoldable pub request_for : Sender → Subscription → Text → Request
unfolding sign
request_for sender sub body = record {
  url = sub.url;
  body = body;
  signature = sign sender sub.secret body;
}

-- deliverWebhook behind the validation, whose outcome it takes, and `accepted` by http.NewRequest;
-- it gives the requests that are made
unfoldable pub deliver_checked :
    Sender → Time → Subscription → Text → Result (Unit {0}) → Bool → Exec WebhookDisk (List Request)
unfolding record_delivery ignoring request_for
deliver_checked sender now sub body (err e) accepted = do
  ignoring (record_delivery now sub.id (pos 0) false)
  pure []
deliver_checked sender now sub body (ok _) false = pure []
deliver_checked sender now sub body (ok _) true =
    let request = request_for sender sub body in
    let response = sender.post request in
    do
      ignoring (record_delivery now sub.id (status_or_zero response) (is_success response))
      pure (request ∷ [])

-- deliverWebhook
unfoldable pub deliver_webhook :
    Sender → Time → Subscription → Text → Exec WebhookDisk (List Request)
unfolding record_delivery ignoring validate_webhook_url deliver_checked
deliver_webhook sender now sub body =
    deliver_checked sender now sub body (validate_webhook_url sender.urls sender.network sub.url)
      (sender.accepts sub.url)

unfoldable pub deliver_all :
    Sender → Time → Text → List Subscription → Exec WebhookDisk (List Request)
unfolding deliver_webhook
deliver_all sender now body [] = pure []
deliver_all sender now body (sub ∷ subs) = do
  sent ← deliver_webhook sender now sub body
  rest ← deliver_all sender now body subs
  pure (sent ++ rest)

-- DeliverWebhookEvent for a payload that is marshalled to `body`
unfoldable pub deliver_webhook_event :
    Sender → Time → Text → Text → Text → Exec WebhookDisk (List Request)
unfolding list_active_for_event deliver_all
deliver_webhook_event sender now plugin_ref event body = do
  subs ← list_active_for_event plugin_ref event
  deliver_all sender now body subs
