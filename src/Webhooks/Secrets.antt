-- ===== src/Webhooks/Secrets.antt =====
-- The key with which the deliveries of api/handlers/webhooks.go are signed where the subscriptions
-- are kept by api/repository/webhook_file_repo.go.
use semrel_registry.Prelude.{
  ◌≡◌, refl, Bool, true, false, Option, some, List, [], ◌∷◌, map, inl, inr, All, All-append,
  All-keep_if, sym, ap, ◌++◌, if◌then◌else◌,
}
use mathlib.Core.Path.{subst}
use semrel_registry.Prelude.Int.{eq_ℤ, pos}
use semrel_registry.Text.{Text}
use semrel_registry.Models.{Time}
use semrel_registry.Result.{Result, ok, err, Exec, pure, gets, ◌>>=◌}
use semrel_registry.Result.Triple.{Triple, Ends, Triple-bind}
use semrel_registry.Webhooks.{
  WebhookDisk, WebhookFile, Subscription, or_first_file, without_secret, stored_file,
  list_active_for_event, load_webhooks, access_webhooks, is_due,
}
use semrel_registry.Webhooks.Updates.{
  WebhookCall, after_call, after_calls, after_call-cases, changed, saved, content,
}
use semrel_registry.Webhooks.Delivery.{
  Request, Sender, sign, ignoring, deliver_webhook, deliver_checked, request_for, deliver_all,
  deliver_webhook_event,
}

abbrev pub IsBlank : Subscription → Type 0
IsBlank s = s.secret ≡ []

-- Every subscription of the file has an empty secret, as in a file that is not there.
abbrev pub AreBlank : WebhookDisk → Type 0
AreBlank s = All IsBlank (content s).subscriptions

without_secrets-IsBlank : (ss : List Subscription) → All IsBlank (map without_secret ss)
unfolding without_secret
without_secrets-IsBlank [] = tt
without_secrets-IsBlank (s ∷ ss) = (refl, without_secrets-IsBlank ss)

or_first_file-IsBlank :
    (f : WebhookFile) → All IsBlank (or_first_file (some (stored_file f))).subscriptions
or_first_file-IsBlank f = go (eq_ℤ f.next_id (pos 0))
  where
    go :
        (b : Bool)
        → All IsBlank
            (if b then record (stored_file f) { next_id = pos 1 } else stored_file f).subscriptions
    go true = without_secrets-IsBlank f.subscriptions
    go false = without_secrets-IsBlank f.subscriptions

saved-IsBlank :
    (file : Option WebhookFile) (r : Result WebhookFile)
    → All IsBlank (or_first_file file).subscriptions
    → All IsBlank (or_first_file (saved file r)).subscriptions
saved-IsBlank file (ok f) h = or_first_file-IsBlank f
saved-IsBlank file (err e) h = h

after_calls-AreBlank :
    (cs : List WebhookCall) (s : WebhookDisk) → AreBlank s → AreBlank (after_calls cs s)
unfolding after_calls
after_calls-AreBlank [] s h = h
after_calls-AreBlank (c ∷ cs) s h =
    after_calls-AreBlank cs (after_call c s) (elim (after_call-cases c s) [
      | inl same ↦ subst (λ o. All IsBlank (or_first_file o).subscriptions) (sym same) h
      | inr new ↦
          subst (λ o. All IsBlank (or_first_file o).subscriptions) (sym new)
            (saved-IsBlank s.file (changed c (content s)) h)
    ])

-- A request that is signed with the empty key.
abbrev pub IsKeyless : Sender → Request → Type 0
IsKeyless sender r = r.signature ≡ sign sender [] r.body

abbrev pub Always : WebhookDisk → Type 0
Always _ = Unit

-- An action after which whatever it gives satisfies a predicate.
abbrev Gives : {A : Type 0} → Exec WebhookDisk A → (A → Type 0) → Type 0
Gives m Q = Triple Always Always m (λ a _. Q a)

signed-blank :
    (sender : Sender) (sub : Subscription) (body : Text)
    → IsBlank sub
    → IsKeyless sender (request_for sender sub body)
unfolding request_for
signed-blank sender sub body blank = ap (λ secret. sign sender secret body) blank

deliver_checked-IsKeyless :
    (sender : Sender) (now : Time) (sub : Subscription) (body : Text) (valid : Result (Unit {0}))
    (accepted : Bool)
    → IsBlank sub
    → Gives (deliver_checked sender now sub body valid accepted) (All (IsKeyless sender))
unfolding pure ◌>>=◌ ignoring deliver_checked
deliver_checked-IsKeyless sender now sub body (err e) accepted blank = record { at = λ s _. tt }
deliver_checked-IsKeyless sender now sub body (ok _) false blank = record { at = λ s _. tt }
deliver_checked-IsKeyless sender now sub body (ok _) true blank = record {
  at = λ s _. (signed-blank sender sub body blank, tt);
}

deliver_all-IsKeyless :
    (sender : Sender) (now : Time) (body : Text) (subs : List Subscription)
    → All IsBlank subs
    → Gives (deliver_all sender now body subs) (All (IsKeyless sender))
unfolding deliver_all deliver_webhook pure
deliver_all-IsKeyless sender now body [] h = record { at = λ s _. tt }
deliver_all-IsKeyless sender now body (sub ∷ subs) (b, h) =
    Triple-bind _ _ (λ sent _. All (IsKeyless sender) sent) _ _
      (deliver_checked-IsKeyless sender now sub body _ _ b)
      λ sent. record {
        at = λ s one. (more (deliver_all-IsKeyless sender now body subs h) sent one).at s tt;
      }
  where
    more :
        Gives (deliver_all sender now body subs) (All (IsKeyless sender))
        → (sent : List Request) → All (IsKeyless sender) sent
        → Gives
            (do rest ← deliver_all sender now body subs; pure (sent ++ rest))
            (All (IsKeyless sender))
    more rest_keyless sent one =
        Triple-bind _ _ (λ rest _. All (IsKeyless sender) rest) _ _ rest_keyless
          λ rest. record { at = λ t two. All-append (IsKeyless sender) sent rest one two }

list_active_for_event-IsBlank :
    (plugin_ref event : Text)
    → Triple Always AreBlank (list_active_for_event plugin_ref event) (λ due _. All IsBlank due)
unfolding list_active_for_event load_webhooks access_webhooks ◌>>=◌ gets pure
list_active_for_event-IsBlank plugin_ref event = record { at = λ s h. go s.file s.faults h }
  where
    go :
        (file : Option WebhookFile) (fs : List Bool)
        → All IsBlank (or_first_file file).subscriptions
        → Ends Always
            (λ due _. All IsBlank due)
            (list_active_for_event plugin_ref event (record { file = file; faults = fs })).0
            (list_active_for_event plugin_ref event (record { file = file; faults = fs })).1
    go file [] h = All-keep_if IsBlank (is_due plugin_ref event) _ h
    go file (false ∷ fs) h = All-keep_if IsBlank (is_due plugin_ref event) _ h
    go file (true ∷ fs) h = tt

-- Whatever subscriptions are created, deleted and delivered to, with any failures of the disk, each
-- request that an event then sends is signed with the empty key, if the secrets in the file were
-- empty before, as they are where there is no file.
pub deliver_webhook_event-IsKeyless :
    (sender : Sender) (now : Time) (plugin_ref event body : Text) (cs : List WebhookCall)
    (s : WebhookDisk)
    → AreBlank s
    → Ends Always
        (λ sent _. All (IsKeyless sender) sent)
        (deliver_webhook_event sender now plugin_ref event body (after_calls cs s)).0
        (deliver_webhook_event sender now plugin_ref event body (after_calls cs s)).1
unfolding deliver_webhook_event
deliver_webhook_event-IsKeyless sender now plugin_ref event body cs s h =
    (Triple-bind _ _ (λ due _. All IsBlank due) _ _ (list_active_for_event-IsBlank plugin_ref event)
        λ due. record { at = λ t b. (deliver_all-IsKeyless sender now body due b).at t tt }).at
      (after_calls cs s) (after_calls-AreBlank cs s h)
