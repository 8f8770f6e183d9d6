-- ===== src/Webhooks/Subscriptions.antt =====
-- The handlers of api/handlers/webhooks.go. The caller's login is empty where the context has none.
-- `plugin` is the outcome of GetPlugin, `secret` what generateWebhookSecret gives, `none` where the
-- system has no random bytes.
use semrel_registry.Prelude.{
  ℕ, Bool, true, false, Option, none, some, List, [], ◌∷◌, any, all, not, length, leb,
}
use semrel_registry.Prelude.Int.{ℤ, pos}
use semrel_registry.Text.{Text, text_eq, trim_space, is_empty}
use semrel_registry.Naming.{UrlParser}
use semrel_registry.Models.{Plugin}
use semrel_registry.Result.{Result}
use semrel_registry.Handlers.{Handler, serve, reply, stop, stop_if, ◌>>=◌, ◌>>◌}
use semrel_registry.Webhooks.{
  WebhookDisk, Subscription, webhook_events, create_webhook, list_by_owner, delete_webhook,
}
use semrel_registry.Webhooks.Address.{Network, validate_webhook_url}

-- maxWebhookSubscriptionsPerOwner
abbrev pub max_subscriptions_per_owner : ℕ
max_subscriptions_per_owner = 20

-- WebhookSubscriptionRequest
pub record SubscriptionRequest : Type 0 where
  pub url : Text
  pub plugin_ref : Text
  pub events : List Text

-- validWebhookEvents
abbrev pub is_webhook_event : Text → Bool
is_webhook_event e = any (text_eq e) webhook_events

abbrev pub new_subscription : SubscriptionRequest → Text → Text → Subscription
new_subscription body login secret = record {
  id = pos 0;
  created_by = login;
  url = body.url;
  secret = secret;
  plugin_ref = body.plugin_ref;
  events = body.events;
  active = false;
  created_at = 0;
  last_delivery_at = none;
  last_status_code = pos 0;
  consecutive_failures = pos 0;
}

-- the checks of CreateSubscription in front of its reads of the store
unfoldable pub check_request :
    UrlParser
    → Network
    → Result Plugin
    → Text
    → SubscriptionRequest
    → Handler WebhookDisk (Unit {0})
unfolding serve stop_if ◌>>=◌ validate_webhook_url
check_request urls network plugin login body = do
  serve (λ s. (validate_webhook_url urls network body.url, s))
  stop_if (is_empty (trim_space body.plugin_ref)) 400
  serve (λ s. (plugin, s))
  stop_if (is_empty' body.events) 400
  stop_if (not (all is_webhook_event body.events)) 400
  stop_if (is_empty login) 401
  where
    is_empty' : List Text → Bool
    is_empty' [] = true
    is_empty' (e ∷ es) = false

unfoldable pub or_internal_error : Option Text → Handler WebhookDisk Text
unfolding reply stop
or_internal_error none = stop 500
or_internal_error (some secret) = reply secret

-- CreateSubscription of a body that binds; it answers 201 with the number and the secret
unfoldable pub create_subscription :
    UrlParser
    → Network
    → Result Plugin
    → Option Text
    → Text
    → SubscriptionRequest
    → Handler WebhookDisk (ℤ × Text)
unfolding serve reply stop_if ◌>>=◌ check_request list_by_owner create_webhook or_internal_error
create_subscription urls network plugin random login body = do
  check_request urls network plugin login body
  existing ← serve (list_by_owner login)
  stop_if (leb max_subscriptions_per_owner (length existing)) 422
  secret ← or_internal_error random
  id ← serve (create_webhook (new_subscription body login secret))
  reply (id, secret)

-- ListSubscriptions
unfoldable pub list_subscriptions : Text → Handler WebhookDisk (List Subscription)
unfolding serve list_by_owner
list_subscriptions login = serve (list_by_owner login)

-- DeleteSubscription; `none` is an :id that is no integer
unfoldable pub delete_subscription : Option ℤ → Text → Bool → Handler WebhookDisk (Unit {0})
unfolding serve stop delete_webhook
delete_subscription none login is_admin = stop 400
delete_subscription (some id) login is_admin = serve (delete_webhook id login is_admin)
