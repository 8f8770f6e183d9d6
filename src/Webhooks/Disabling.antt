-- ===== src/Webhooks/Disabling.antt =====
-- Histories of calls of api/repository/webhook_file_repo.go on a disk without faults, and whom
-- ListActiveForEvent gives after one.
use semrel_registry.Prelude.{
  ℕ, suc, ◌+◌, ◌<◌, ◌≤◌, ◌^◌, ◌≡◌, ◌≢◌, refl, Bool, true, false, Option, some, List, [], ◌∷◌,
  keep_if, length, All, arith, sym, ◌∙◌, if◌then◌else◌,
}
use mathlib.Core.Path.{subst, ap}
use semrel_registry.Prelude.Int.{ℤ, pos, eq_ℤ, eq_ℤ_iff, ◌<ℤ◌, ◌≤ℤ◌, add64_one_parts, neg_part_zero}
use semrel_registry.Text.{Text}
use semrel_registry.Result.{Result, ok, err, ◌>>=◌}
use semrel_registry.Webhooks.{
  WebhookFile, Subscription, stored_file, or_first_file, add_subscription, is_due,
  list_active_for_event, load_webhooks,
}
use semrel_registry.Webhooks.Updates.{
  WebhookCall, creates, deletes, delivers, after_call, after_calls, after_call-sound_disk, changed,
  saved, sound_disk, content, with_subscriptions,
}
use semrel_registry.Webhooks.Invariant.{
  Ascending, Healthy, Counted, IsReady, after_call-Healthy, low_below,
}
use semrel_registry.Webhooks.Failures.{
  is_delivery, one_more_if, count_deliveries, Failed, after_call-Failed,
}

or_first_file-next_id : (f : WebhookFile) → f.next_id ≤ℤ (or_first_file (some f)).next_id
or_first_file-next_id f = go (eq_ℤ f.next_id (pos 0)) refl
  where
    go :
        (b : Bool)
        → eq_ℤ f.next_id (pos 0) ≡ b
        → f.next_id ≤ℤ (if b then record f { next_id = pos 1 } else f).next_id
    go true e = subst (λ i. i ≤ℤ pos 1) (sym ((eq_ℤ_iff f.next_id (pos 0)).0 e)) (omega arith)
    go false e = omega arith

written :
    (file : Option WebhookFile) (r : Result (List Subscription))
    → (or_first_file file).next_id
      ≤ℤ (or_first_file (saved file (with_subscriptions (or_first_file file) r))).next_id
written file (ok ss) =
    or_first_file-next_id (stored_file (record (or_first_file file) { subscriptions = ss }))
written file (err e) = omega arith

-- The next number does not go down.
saved-next_id :
    (b : ℕ) (c : WebhookCall) (file : Option WebhookFile)
    → Healthy b (or_first_file file)
    → suc b < 2 ^ 63
    → (or_first_file file).next_id
      ≤ℤ (or_first_file (saved file (changed c (or_first_file file)))).next_id
unfolding changed add_subscription
saved-next_id b (creates sub) file h room =
    let low = low_below _ _ _ h.ascending in
    let small = neg_part_zero (or_first_file file).next_id (omega arith) in
    let parts =
      add64_one_parts (or_first_file file).next_id (omega (arith, h.bounded, small))
        (omega arith) in
    let step = or_first_file-next_id (stored_file (add_subscription sub (or_first_file file))) in
    omega (arith, parts.0, parts.1, small, step)
saved-next_id b (deletes j owner is_admin) file h room = written file _
saved-next_id b (delivers now j code success) file h room = written file _

one_more_if-zero : (b : Bool) (n : ℕ) → one_more_if b n ≡ 0 → (b ≡ false) × (n ≡ 0)
one_more_if-zero true n h = absurd (omega (arith, h))
one_more_if-zero false n h = (refl, h)

one_more_if-swap : (b : Bool) (m n k : ℕ) → m ≤ one_more_if b n + k → m ≤ n + one_more_if b k
one_more_if-swap true m n k h = omega arith
one_more_if-swap false m n k h = omega arith

both :
    (k m : ℕ) (id high : ℤ)
    → m ≤ k
    → (low : ℤ) (ss : List Subscription) → All (Failed k id) ss
    → Ascending high low ss
    → All (λ s. Failed m id s × Counted s) ss
unfolding Ascending
both k m id high h low [] f a = tt
both k m id high h low (s ∷ ss) (f, fs) (l, c, a) =
    (((λ e active. omega (arith, h, f e active)), c), both k m id high h s.id ss fs a)

Failed-after_calls :
    (cs : List WebhookCall) (b k m : ℕ) (id : ℤ) (file : Option WebhookFile)
    → Healthy b (or_first_file file)
    → length cs + b < 2 ^ 63
    → All IsReady cs
    → id <ℤ (or_first_file file).next_id
    → count_deliveries id true cs ≡ 0
    → m ≤ count_deliveries id false cs + k
    → All (Failed k id) (or_first_file file).subscriptions
    → All
        (λ s. Failed m id s × Counted s)
        (content (after_calls cs (sound_disk file))).subscriptions
unfolding after_calls
Failed-after_calls [] b k m id file h room ready low never enough f =
    both k m id _ (omega arith) _ _ f h.ascending
Failed-after_calls (c ∷ cs) b k m id file h room (r, ready) low never enough f =
    let (now_never, later_never) = one_more_if-zero (is_delivery id true c) _ never in
    let file' = saved file (changed c (or_first_file file)) in
    let same : after_call c (sound_disk file) ≡ sound_disk file' = after_call-sound_disk c file in
    subst (λ d. All (λ s. Failed m id s × Counted s) (content (after_calls cs d)).subscriptions)
      (sym same)
      (Failed-after_calls cs (suc b) _ m id file'
        (subst (λ d. Healthy (suc b) (content d)) same
          (after_call-Healthy b c (sound_disk file) (omega arith) r h))
        (omega arith) ready (omega (arith, saved-next_id b c file h (omega arith))) later_never
        (one_more_if-swap (is_delivery id false c) m _ k enough)
        (after_call-Failed k b id c file h low now_never f))

is_due-active :
    (plugin_ref event : Text) (s : Subscription)
    → is_due plugin_ref event s ≡ true
    → s.active ≡ true
is_due-active plugin_ref event s h = ground (arith, h)

All-due :
    (id : ℤ) (plugin_ref event : Text) (ss : List Subscription)
    → All (λ s. Failed 10 id s × Counted s) ss
    → All (λ s. s.id ≢ id) (keep_if (is_due plugin_ref event) ss)
All-due id plugin_ref event [] h = tt
All-due id plugin_ref event (s ∷ ss) ((f, c), h) =
    go (is_due plugin_ref event s) refl (All-due id plugin_ref event ss h)
  where
    go :
        (due : Bool)
        → is_due plugin_ref event s ≡ due
        → All (λ x. x.id ≢ id) (keep_if (is_due plugin_ref event) ss)
        → All
            (λ x. x.id ≢ id)
            (let rest = keep_if (is_due plugin_ref event) ss in if due then s ∷ rest else rest)
    go true e rest =
        let active = is_due-active plugin_ref event s e in
        (λ same. omega (arith, f same active, (c active).1), rest)
    go false e rest = rest

at_first : (id high low : ℤ) (ss : List Subscription) → Ascending high low ss → All (Failed 0 id) ss
unfolding Ascending
at_first id high low [] a = tt
at_first id high low (s ∷ ss) (l, c, a) = ((λ _ active. (c active).0), at_first id high s.id ss a)

after_calls-sound_disk :
    (cs : List WebhookCall) (file : Option WebhookFile)
    → (file' : Option WebhookFile) × (after_calls cs (sound_disk file) ≡ sound_disk file')
unfolding after_calls
after_calls-sound_disk [] file = (file, refl)
after_calls-sound_disk (c ∷ cs) file =
    let (file', e) = after_calls-sound_disk cs (saved file (changed c (or_first_file file))) in
    (file', ap (after_calls cs) (after_call-sound_disk c file) ∙ e)

-- On a disk without faults, a subscription with a number that was handed out is not among those that
-- ListActiveForEvent gives, for any plugin and event, after a history of calls in which ten
-- deliveries to it fail and none succeeds, whatever else is called in between; the file was healthy
-- before and the numbers stay within an int64.
pub after_calls-disabled :
    (cs : List WebhookCall) (b : ℕ) (id : ℤ) (file : Option WebhookFile) (plugin_ref event : Text)
    → Healthy b (or_first_file file)
    → length cs + b < 2 ^ 63
    → All IsReady cs
    → id <ℤ (or_first_file file).next_id
    → count_deliveries id true cs ≡ 0
    → 10 ≤ count_deliveries id false cs
    → (due : List Subscription) × ((list_active_for_event plugin_ref event
          (after_calls cs (sound_disk file))).0
        ≡ ok due)
      × All (λ s. s.id ≢ id) due
unfolding list_active_for_event load_webhooks ◌>>=◌
after_calls-disabled cs b id file plugin_ref event h room ready low never enough =
    let (file', same) = after_calls-sound_disk cs file in
    let failed =
      subst (λ d. All (λ s. Failed 10 id s × Counted s) (content d).subscriptions) same
        (Failed-after_calls cs b 0 10 id file h room ready low never (omega (arith, enough))
          (at_first id _ _ _ h.ascending)) in
    subst
      (λ d.
        (due : List Subscription) × ((list_active_for_event plugin_ref event d).0 ≡ ok due)
        × All (λ s. s.id ≢ id) due)
      (sym same)
      (
        keep_if (is_due plugin_ref event) (or_first_file file').subscriptions,
        refl,
        All-due id plugin_ref event _ failed,
      )
