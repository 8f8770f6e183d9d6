-- ===== src/Webhooks.antt =====
-- Webhook subscriptions: api/models/webhook.go, and the one file in which
-- api/repository/webhook_file_repo.go keeps them, webhook-subscriptions.json. As in the plugins'
-- directory, each access to the file takes one entry of `faults`, and a write that fails leaves the
-- old content. The pointer that Create gets is not nil: its one caller makes the record.
pub mod Updates
pub mod Invariant
pub mod Failures
pub mod Disabling
pub mod Address
pub mod Delivery
pub mod Secrets
pub mod Subscriptions
mod Tests
use semrel_registry.Prelude.{
  ℕ, Bool, true, false, Option, none, some, List, [], ◌∷◌, ◌++◌, any, keep_if, not, ◌&&◌, ◌||◌, map,
  if◌then◌else◌,
}
use semrel_registry.Prelude.Int.{ℤ, pos, eq_ℤ, leb_ℤ, add64}
use semrel_registry.Text.{Text, text, text_eq}
use semrel_registry.Models.{Time}
use semrel_registry.Repository.Disk.{outcome, later}
use semrel_registry.Result.{
  Result, ok, err, plugin_not_found, Exec, pure, lift, gets, modify, ◌>>=◌, ◌>>◌,
}

-- WebhookEvents
abbrev pub webhook_events : List Text
webhook_events =
    text "version.published"
    ∷ text "version.yanked"
    ∷ text "version.unyanked"
    ∷ text "advisory.published"
    ∷ []

-- WebhookSubscription
pub record Subscription : Type 0 where
  pub id : ℤ
  pub created_by : Text
  pub url : Text
  pub secret : Text
  pub plugin_ref : Text
  pub events : List Text
  pub active : Bool
  pub created_at : Time
  pub last_delivery_at : Option Time
  pub last_status_code : ℤ
  pub consecutive_failures : ℤ

-- webhookFile
pub record WebhookFile : Type 0 where
  pub next_id : ℤ
  pub subscriptions : List Subscription

pub record WebhookDisk : Type 0 where
  pub file : Option WebhookFile
  pub faults : List Bool

-- maxConsecutiveWebhookFailures
abbrev pub max_consecutive_failures : ℤ
max_consecutive_failures = pos 10

unfoldable pub access_webhooks : Exec WebhookDisk (Unit {0})
access_webhooks s = (outcome s.faults, record s { faults = later s.faults })

abbrev pub or_first_file : Option WebhookFile → WebhookFile
or_first_file none = record { next_id = pos 1; subscriptions = [] }
or_first_file (some f) = if eq_ℤ f.next_id (pos 0) then record f { next_id = pos 1 } else f

-- load
unfoldable pub load_webhooks : Exec WebhookDisk WebhookFile
unfolding access_webhooks
load_webhooks = do access_webhooks; found ← gets (λ s. s.file); pure (or_first_file found)

-- What the JSON of a subscription stands for: its secret has the tag "-", which leaves it out.
unfoldable pub without_secret : Subscription → Subscription
without_secret s = record s { secret = [] }

abbrev pub stored_file : WebhookFile → WebhookFile
stored_file f = record f { subscriptions = map without_secret f.subscriptions }

-- save
unfoldable pub save_webhooks : WebhookFile → Exec WebhookDisk (Unit {0})
unfolding access_webhooks without_secret
save_webhooks f = do access_webhooks; modify (λ s. record s { file = some (stored_file f) })

abbrev pub with_number : WebhookFile → Subscription → Subscription
with_number f sub = record sub { id = f.next_id; active = true }

unfoldable pub add_subscription : Subscription → WebhookFile → WebhookFile
add_subscription sub f = record {
  next_id = add64 f.next_id (pos 1);
  subscriptions = f.subscriptions ++ (with_number f sub ∷ []);
}

-- Create
unfoldable pub create_webhook : Subscription → Exec WebhookDisk ℤ
unfolding load_webhooks save_webhooks add_subscription
create_webhook sub = do f ← load_webhooks; save_webhooks (add_subscription sub f); pure f.next_id

-- ListByOwner
unfoldable pub list_by_owner : Text → Exec WebhookDisk (List Subscription)
unfolding load_webhooks without_secret
list_by_owner owner = do
  f ← load_webhooks
  pure (map without_secret (keep_if (λ s. text_eq s.created_by owner) f.subscriptions))

-- the test of ListActiveForEvent
abbrev pub is_due : Text → Text → Subscription → Bool
is_due plugin_ref event s =
    if not s.active || not (text_eq s.plugin_ref plugin_ref)
    then false
    else any (λ e. text_eq e event) s.events

-- ListActiveForEvent
unfoldable pub list_active_for_event : Text → Text → Exec WebhookDisk (List Subscription)
unfolding load_webhooks
list_active_for_event plugin_ref event = do
  f ← load_webhooks
  pure (keep_if (is_due plugin_ref event) f.subscriptions)

abbrev pub prepend : Subscription → Result (List Subscription) → Result (List Subscription)
prepend s (ok ss) = ok (s ∷ ss)
prepend s (err e) = err e

-- the loop of Delete
unfoldable pub remove_first : ℤ → Text → Bool → List Subscription → Result (List Subscription)
remove_first id owner is_admin [] = err plugin_not_found
remove_first id owner is_admin (s ∷ ss) =
    let rest = remove_first id owner is_admin ss in
    if not (eq_ℤ s.id id)
    then prepend s rest
    else if not is_admin && not (text_eq s.created_by owner)
    then err plugin_not_found
    else ok ss

-- Delete
unfoldable pub delete_webhook : ℤ → Text → Bool → Exec WebhookDisk (Unit {0})
unfolding load_webhooks save_webhooks remove_first
delete_webhook id owner is_admin = do
  f ← load_webhooks
  rest ← lift (remove_first id owner is_admin f.subscriptions)
  save_webhooks (record f { subscriptions = rest })

-- what RecordDelivery writes into the subscription
unfoldable pub record_outcome : Time → ℤ → Bool → Subscription → Subscription
record_outcome now status_code success s =
    let failures = if success then pos 0 else add64 s.consecutive_failures (pos 1) in
    record s {
      last_delivery_at = some now;
      last_status_code = status_code;
      consecutive_failures = failures;
      active =
          if success
          then s.active
          else if leb_ℤ max_consecutive_failures failures
          then false
          else s.active;
    }

-- the loop of RecordDelivery
unfoldable pub record_first : Time → ℤ → ℤ → Bool → List Subscription → Result (List Subscription)
unfolding record_outcome
record_first now id status_code success [] = err plugin_not_found
record_first now id status_code success (s ∷ ss) =
    let rest = record_first now id status_code success ss in
    if not (eq_ℤ s.id id)
    then prepend s rest
    else ok (record_outcome now status_code success s ∷ ss)

-- RecordDelivery
unfoldable pub record_delivery : Time → ℤ → ℤ → Bool → Exec WebhookDisk (Unit {0})
unfolding load_webhooks save_webhooks record_first
record_delivery now id status_code success = do
  f ← load_webhooks
  rest ← lift (record_first now id status_code success f.subscriptions)
  save_webhooks (record f { subscriptions = rest })
