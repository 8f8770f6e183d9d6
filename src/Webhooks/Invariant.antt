-- ===== src/Webhooks/Invariant.antt =====
-- The invariant of the file of subscriptions: numbers in increasing order below the next one, and
-- fewer than ten failures in a row for each subscription that is active. `bound` bounds the next
-- number, which grows by one with each call at most.
use semrel_registry.Prelude.{
  ℕ, suc, ◌+◌, ◌<◌, ◌^◌, ◌≡◌, refl, Bool, true, false, Option, some, List, [], ◌∷◌, ◌++◌, map, inl,
  inr, length, All, arith, sym, ap, Bool-cases, if◌then◌else◌, not, ◌&&◌,
}
use mathlib.Core.Path.{subst}
use mathlib.Core.Bool.{false≢true}
use semrel_registry.Prelude.Int.{
  ℤ, pos, pos_part, eq_ℤ, ◌<ℤ◌, ◌≤ℤ◌, leb_ℤ, add64, add64_one_parts, eq_ℤ_iff, neg_part_zero,
}
use semrel_registry.Text.{Text, text_eq}
use semrel_registry.Models.{Time}
use semrel_registry.Result.{Result, ok, err, plugin_not_found}
use semrel_registry.Webhooks.{
  WebhookDisk, WebhookFile, Subscription, stored_file, without_secret, or_first_file,
  add_subscription, remove_first, record_first, record_outcome, max_consecutive_failures, prepend,
}
use semrel_registry.Webhooks.Updates.{
  WebhookCall, creates, deletes, delivers, after_call, after_calls, after_call-cases, changed,
  saved, with_subscriptions, content,
}

-- An active subscription has fewer than ten failures in a row.
abbrev pub Counted : Subscription → Type 0
Counted s =
    s.active ≡ true
    → (pos 0 ≤ℤ s.consecutive_failures) × (s.consecutive_failures <ℤ max_consecutive_failures)

-- The numbers increase from above `low` to below `high`.
unfoldable pub Ascending : ℤ → ℤ → List Subscription → Type 0
Ascending high low [] = low <ℤ high
Ascending high low (s ∷ ss) = (low <ℤ s.id) × Counted s × Ascending high s.id ss

pub record Healthy (bound : ℕ) (f : WebhookFile) : Type 0 where
  pub bounded : f.next_id ≤ℤ pos bound
  pub ascending : Ascending f.next_id (pos 0) f.subscriptions

pub low_below : (high low : ℤ) (ss : List Subscription) → Ascending high low ss → low <ℤ high
unfolding Ascending
low_below high low [] h = h
low_below high low (s ∷ ss) (h, c, a) = omega (arith, low_below high s.id ss a)

start_lower :
    (high low low' : ℤ) (ss : List Subscription)
    → low' <ℤ low
    → Ascending high low ss
    → Ascending high low' ss
unfolding Ascending
start_lower high low low' [] h k = omega arith
start_lower high low low' (s ∷ ss) h (k, c, a) = (omega arith, c, a)

append_one :
    (high low top : ℤ) (ss : List Subscription) (sub : Subscription)
    → high <ℤ top
    → sub.id ≡ high
    → Counted sub
    → Ascending high low ss
    → Ascending top low (ss ++ (sub ∷ []))
unfolding Ascending
append_one high low top [] sub k e c h =
    (subst (λ i. low <ℤ i) (sym e) h, c, subst (λ i. i <ℤ top) (sym e) k)
append_one high low top (s ∷ ss) sub k e c (h, d, a) =
    (h, d, append_one high s.id top ss sub k e c a)

without_secrets :
    (high low : ℤ) (ss : List Subscription)
    → Ascending high low ss
    → Ascending high low (map without_secret ss)
unfolding Ascending without_secret
without_secrets high low [] h = h
without_secrets high low (s ∷ ss) (h, c, a) = (h, c, without_secrets high s.id ss a)

-- The subscriptions that a loop gives back, where it gives some.
abbrev OkAscending : ℤ → ℤ → Result (List Subscription) → Type 0
OkAscending high low (ok ss) = Ascending high low ss
OkAscending high low (err e) = Unit

prepend-OkAscending :
    (high low : ℤ) (s : Subscription) (r : Result (List Subscription))
    → low <ℤ s.id
    → Counted s
    → OkAscending high s.id r
    → OkAscending high low (prepend s r)
unfolding Ascending
prepend-OkAscending high low s (ok ss) h c a = (h, c, a)
prepend-OkAscending high low s (err e) h c a = tt

remove_first-OkAscending :
    (high low id : ℤ) (owner : Text) (is_admin : Bool) (ss : List Subscription)
    → Ascending high low ss
    → OkAscending high low (remove_first id owner is_admin ss)
unfolding Ascending remove_first
remove_first-OkAscending high low id owner is_admin [] h = tt
remove_first-OkAscending high low id owner is_admin (s ∷ ss) (h, c, a) =
    elim (Bool-cases (eq_ℤ s.id id)) [
      | inl here ↦ elim (Bool-cases (not is_admin && not (text_eq s.created_by owner))) [
        | inl refused ↦ rw (here, refused) tt
        | inr allowed ↦ rw (here, allowed) (start_lower high s.id low ss h a)
      ]
      | inr other ↦ rw other (
          prepend-OkAscending high low s _ h c
            (remove_first-OkAscending high s.id id owner is_admin ss a))
    ]

record_outcome-Counted :
    (now : Time) (code : ℤ) (success : Bool) (s : Subscription)
    → Counted s
    → Counted (record_outcome now code success s)
unfolding record_outcome
record_outcome-Counted now code true s c = λ _. (omega arith, omega arith)
record_outcome-Counted now code false s c = below (leb_ℤ max_consecutive_failures one_more) refl
  where
    one_more : ℤ
    one_more = add64 s.consecutive_failures (pos 1)

    below :
        (b : Bool)
        → leb_ℤ max_consecutive_failures one_more ≡ b
        → (if b then false else s.active) ≡ true
        → (pos 0 ≤ℤ one_more) × (one_more <ℤ max_consecutive_failures)
    below true e a = absurd (false≢true a)
    below false e a =
        let (low, high) = c a in
        let parts = add64_one_parts s.consecutive_failures (omega arith) low in
        ground (arith, parts.0, parts.1, e, low, high)

record_first-OkAscending :
    (high low : ℤ) (now : Time) (id code : ℤ) (success : Bool) (ss : List Subscription)
    → Ascending high low ss
    → OkAscending high low (record_first now id code success ss)
unfolding Ascending record_first
record_first-OkAscending high low now id code success [] h = tt
record_first-OkAscending high low now id code success (s ∷ ss) (h, c, a) =
    elim (Bool-cases (eq_ℤ s.id id)) [
      | inl here ↦ rw here (h, record_outcome-Counted now code success s c, a)
      | inr other ↦ rw other (
          prepend-OkAscending high low s _ h c
            (record_first-OkAscending high s.id now id code success ss a))
    ]

pub or_first_file-saved :
    (f : WebhookFile) → pos 0 <ℤ f.next_id → or_first_file (some (stored_file f)) ≡ stored_file f
or_first_file-saved f h = elim (Bool-cases (eq_ℤ f.next_id (pos 0))) [
  | inl first ↦ absurd (
      omega (
        arith,
        h,
        ap pos_part ((eq_ℤ_iff f.next_id (pos 0)).0 first),
        neg_part_zero f.next_id (omega arith),
      ))
  | inr other ↦ rw other refl
]

stored_file-Healthy :
    (b : ℕ) (f : WebhookFile) → Healthy b f → Healthy b (or_first_file (some (stored_file f)))
stored_file-Healthy b f h =
    subst (Healthy b) (sym (or_first_file-saved f (low_below _ _ _ h.ascending)))
      (record { bounded = h.bounded; ascending = without_secrets _ _ _ h.ascending })

-- A subscription that is created comes with a count below ten.
abbrev pub IsReady : WebhookCall → Type 0
IsReady (creates sub) =
    (pos 0 ≤ℤ sub.consecutive_failures) × (sub.consecutive_failures <ℤ max_consecutive_failures)
IsReady _ = Unit

abbrev OkHealthy : ℕ → Result WebhookFile → Type 0
OkHealthy b (ok f) = Healthy b f
OkHealthy b (err e) = Unit

with_subscriptions-OkHealthy :
    (b : ℕ) (f : WebhookFile) (r : Result (List Subscription))
    → Healthy b f
    → OkAscending f.next_id (pos 0) r
    → OkHealthy (suc b) (with_subscriptions f r)
with_subscriptions-OkHealthy b f (ok ss) h k = record {
  bounded = omega (arith, h.bounded);
  ascending = k;
}
with_subscriptions-OkHealthy b f (err e) h k = tt

changed-OkHealthy :
    (b : ℕ) (c : WebhookCall) (f : WebhookFile)
    → suc b < 2 ^ 63
    → IsReady c
    → Healthy b f
    → OkHealthy (suc b) (changed c f)
unfolding changed add_subscription
changed-OkHealthy b (creates sub) f room ready h =
    let low = low_below _ _ _ h.ascending in
    let small = neg_part_zero f.next_id (omega arith) in
    let parts = add64_one_parts f.next_id (omega (arith, h.bounded, small)) (omega arith) in
    record {
      bounded = omega (arith, h.bounded, parts.0, parts.1, small);
      ascending =
          append_one f.next_id (pos 0) _ f.subscriptions _ (omega (arith, parts.0, parts.1, small))
            refl (λ _. ready) h.ascending;
    }
changed-OkHealthy b (deletes id owner is_admin) f room ready h =
    with_subscriptions-OkHealthy b f _ h
      (remove_first-OkAscending _ _ id owner is_admin _ h.ascending)
changed-OkHealthy b (delivers now id code success) f room ready h =
    with_subscriptions-OkHealthy b f _ h
      (record_first-OkAscending _ _ now id code success _ h.ascending)

saved-Healthy :
    (b : ℕ) (file : Option WebhookFile) (r : Result WebhookFile)
    → Healthy b (or_first_file file)
    → OkHealthy (suc b) r
    → Healthy (suc b) (or_first_file (saved file r))
saved-Healthy b file (ok f) h k = stored_file-Healthy (suc b) f k
saved-Healthy b file (err e) h k = record {
  bounded = omega (arith, h.bounded);
  ascending = h.ascending;
}

pub after_call-Healthy :
    (b : ℕ) (c : WebhookCall) (s : WebhookDisk)
    → suc b < 2 ^ 63
    → IsReady c
    → Healthy b (content s)
    → Healthy (suc b) (content (after_call c s))
after_call-Healthy b c s room ready h = elim (after_call-cases c s) [
  | inl same ↦
      subst (λ o. Healthy (suc b) (or_first_file o)) (sym same)
        (saved-Healthy b s.file (err plugin_not_found) h tt)
  | inr new ↦
      subst (λ o. Healthy (suc b) (or_first_file o)) (sym new)
        (saved-Healthy b s.file _ h (changed-OkHealthy b c _ room ready h))
]

-- The numbers of the subscriptions increase and are below the next one, and an active subscription
-- has fewer than ten failures in a row: any calls, with any failures of the disk, keep this, if the
-- next number stays within an int64.
pub after_calls-Healthy :
    (cs : List WebhookCall) (b : ℕ) (s : WebhookDisk)
    → length cs + b < 2 ^ 63
    → All IsReady cs
    → Healthy b (content s)
    → Healthy (length cs + b) (content (after_calls cs s))
unfolding after_calls
after_calls-Healthy [] b s room ready h = subst (λ n. Healthy n (content s)) (omega arith) h
after_calls-Healthy (c ∷ cs) b s room (r, ready) h =
    subst (λ n. Healthy n (content (after_calls cs (after_call c s)))) (omega arith)
      (after_calls-Healthy cs (suc b) (after_call c s) (omega arith) ready
        (after_call-Healthy b c s (omega arith) r h))
