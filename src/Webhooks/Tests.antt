-- ===== src/Webhooks/Tests.antt =====
-- The theorems on webhooks at a store with one subscription.
use semrel_registry.Prelude.{
  ℕ, zero, suc, ◌≡◌, ◌≢◌, refl, ◌+◌, true, false, none, some, List, [], ◌∷◌, ◌++◌, All, arith,
}
use semrel_registry.Prelude.Int.{pos}
use semrel_registry.Text.{text}
use semrel_registry.Result.{ok}
use semrel_registry.Result.Triple.{Ends}
use semrel_registry.Webhooks.{
  WebhookDisk, WebhookFile, Subscription, list_active_for_event, or_first_file,
}
use semrel_registry.Webhooks.Updates.{
  WebhookCall, creates, delivers, after_calls, content, sound_disk,
}
use semrel_registry.Webhooks.Invariant.{Healthy, Ascending, IsReady, after_calls-Healthy}
use semrel_registry.Webhooks.Disabling.{after_calls-disabled}
use semrel_registry.Webhooks.Delivery.{Sender, deliver_webhook_event}
use semrel_registry.Webhooks.Secrets.{Always, IsKeyless, deliver_webhook_event-IsKeyless}

abbrev watch : Subscription
watch = record {
  id = pos 0;
  created_by = text "ada";
  url = text "https://example.org/hook";
  secret = text "s3cret";
  plugin_ref = text "@semrel/alpha";
  events = text "version.published" ∷ [];
  active = false;
  created_at = 0;
  last_delivery_at = none;
  last_status_code = pos 0;
  consecutive_failures = pos 0;
}

abbrev failure : WebhookCall
failure = delivers 7 (pos 1) (pos 500) false

abbrev failures : ℕ → List WebhookCall
failures zero = []
failures (suc n) = failure ∷ failures n

ready : (n : ℕ) → All IsReady (failures n)
ready zero = tt
ready (suc n) = (tt, ready n)

abbrev no_store : WebhookDisk
no_store = record { file = none; faults = true ∷ [] }

empty-Healthy : Healthy 1 (or_first_file none)
unfolding Ascending
empty-Healthy = record { bounded = omega arith; ascending = omega arith }

after_calls-Healthy_example :
    Healthy (3 + 1) (content (after_calls (creates watch ∷ creates watch ∷ failure ∷ []) no_store))
after_calls-Healthy_example =
    after_calls-Healthy (creates watch ∷ creates watch ∷ failure ∷ []) 1 no_store (omega arith)
      ((omega arith, omega arith), ((omega arith, omega arith), (tt, tt))) empty-Healthy

abbrev one_file : WebhookFile
one_file = record {
  next_id = pos 2;
  subscriptions = record watch { id = pos 1; active = true } ∷ [];
}

one_file-Healthy : Healthy 2 (or_first_file (some one_file))
unfolding Ascending
one_file-Healthy = record {
  bounded = omega arith;
  ascending = (omega arith, (λ _. (omega arith, omega arith)), omega arith);
}

after_calls-disabled_example :
    (due : List Subscription) × ((list_active_for_event
        (text "@semrel/alpha")
        (text "version.published")
        (after_calls (failures 10) (sound_disk (some one_file)))).0
      ≡ ok due)
    × All (λ s. s.id ≢ pos 1) due
after_calls-disabled_example =
    after_calls-disabled (failures 10) 2 (pos 1) (some one_file) (text "@semrel/alpha")
      (text "version.published") one_file-Healthy (omega arith) (ready 10) (omega arith) refl
      (omega arith)

abbrev sender : Sender
sender = record {
  urls = record {
    parse = λ s. some (record {
      scheme = text "https";
      host = text "example.org";
      hostname = text "example.org";
      has_user = false;
      raw_query = [];
      force_query = false;
      fragment = [];
      raw_path = [];
      escaped_path = text "/hook";
    });
    path_unescape = some;
  };
  network = record {
    parse_ip = λ s. none;
    lookup_addresses = λ s. some ((93 ∷ 184 ∷ 215 ∷ 14 ∷ []) ∷ []);
    is_loopback = λ ip. false;
    is_private = λ ip. false;
    is_link_local_unicast = λ ip. false;
    is_link_local_multicast = λ ip. false;
    is_unspecified = λ ip. false;
    is_multicast = λ ip. false;
  };
  accepts = λ s. true;
  post = λ r. some (pos 200);
  hmac = λ key body. key ++ body;
}

abbrev after_one : WebhookDisk
after_one = after_calls (creates watch ∷ []) (record no_store { faults = [] })

deliver_webhook_event-IsKeyless_example :
    Ends Always
      (λ sent _. All (IsKeyless sender) sent)
      (deliver_webhook_event sender 9
        (text "@semrel/alpha")
        (text "version.published")
        (text "{}")
        after_one).0
      (deliver_webhook_event sender 9
        (text "@semrel/alpha")
        (text "version.published")
        (text "{}")
        after_one).1
deliver_webhook_event-IsKeyless_example =
    deliver_webhook_event-IsKeyless sender 9 (text "@semrel/alpha") (text "version.published")
      (text "{}") (creates watch ∷ []) (record no_store { faults = [] }) tt
