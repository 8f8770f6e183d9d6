-- ===== src/Webhooks/Failures.antt =====
-- What each call of api/repository/webhook_file_repo.go does to the failures in a row of one
-- subscription, on a disk without faults.
use semrel_registry.Prelude.{
  ℕ, suc, ◌≡◌, ◌≢◌, refl, Bool, true, false, Option, some, List, [], ◌∷◌, map, All, All-append,
  All-imp, arith, sym, ◌∙◌, if◌then◌else◌, not, ◌&&◌,
}
use mathlib.Core.Path.{subst}
use mathlib.Core.Bool.{false≢true}
use semrel_registry.Prelude.Int.{ℤ, pos, eq_ℤ, eq_ℤ_iff, leb_ℤ, add64, ◌<ℤ◌, ◌≤ℤ◌, add64_one_parts}
use semrel_registry.Text.{Text, text_eq}
use semrel_registry.Models.{Time}
use semrel_registry.Result.{Result, ok, err, plugin_not_found}
use semrel_registry.Webhooks.{
  WebhookFile, Subscription, stored_file, without_secret, or_first_file, add_subscription,
  remove_first, record_first, record_outcome, max_consecutive_failures, prepend,
}
use semrel_registry.Webhooks.Updates.{
  WebhookCall, creates, deletes, delivers, changed, saved, with_subscriptions,
}
use semrel_registry.Webhooks.Invariant.{Ascending, Healthy, Counted}

-- The deliveries to one subscription that a history records as failed, and that it records as
-- successful.
abbrev pub is_delivery : ℤ → Bool → WebhookCall → Bool
is_delivery id success (delivers now j code outcome) =
    eq_ℤ j id && (if success then outcome else not outcome)
is_delivery id success _ = false

abbrev pub one_more_if : Bool → ℕ → ℕ
one_more_if true n = suc n
one_more_if false n = n

abbrev pub count_deliveries : ℤ → Bool → List WebhookCall → ℕ
count_deliveries id success [] = 0
count_deliveries id success (c ∷ cs) =
    one_more_if (is_delivery id success c) (count_deliveries id success cs)

-- While it is active, the subscription has failed `k` times in a row at least.
abbrev pub Failed : ℕ → ℤ → Subscription → Type 0
Failed k id s = s.id ≡ id → s.active ≡ true → pos k ≤ℤ s.consecutive_failures

-- The list behind a loop, which leaves it as it was where it ends with an error.
abbrev settled : Result (List Subscription) → List Subscription → List Subscription
settled (ok ss) old = ss
settled (err e) old = old

settled-prepend :
    (P : Subscription → Type 0) (s : Subscription) (r : Result (List Subscription))
    (ss : List Subscription)
    → P s
    → All P (settled r ss)
    → All P (settled (prepend s r) (s ∷ ss))
settled-prepend P s (ok rest) ss p h = (p, h)
settled-prepend P s (err e) ss p h = (p, h)

All-remove_first :
    (P : Subscription → Type 0) (id : ℤ) (owner : Text) (is_admin : Bool) (ss : List Subscription)
    → All P ss
    → All P (settled (remove_first id owner is_admin ss) ss)
unfolding remove_first
All-remove_first P id owner is_admin [] h = h
All-remove_first P id owner is_admin (s ∷ ss) (p, h) =
    go (eq_ℤ s.id id) (not is_admin && not (text_eq s.created_by owner))
      (All-remove_first P id owner is_admin ss h)
  where
    go :
        (here refused : Bool)
        → All P (settled (remove_first id owner is_admin ss) ss)
        → All P (
            settled
              (if not here
                then prepend s (remove_first id owner is_admin ss)
                else if refused
                then err plugin_not_found
                else ok ss)
              (s ∷ ss))
    go true true rest = (p, h)
    go true false rest = h
    go false refused rest = settled-prepend P s _ ss p rest

-- Behind a number the list has greater ones only.
above :
    (high low id : ℤ) (ss : List Subscription)
    → Ascending high low ss
    → id ≤ℤ low
    → All (λ s. s.id ≢ id) ss
unfolding Ascending
above high low id [] h k = tt
above high low id (s ∷ ss) (h, c, a) k =
    (λ e. omega (arith, k, subst (λ i. low <ℤ i) e h), above high s.id id ss a (omega arith))

record_outcome-Failed :
    (k : ℕ) (id : ℤ) (now : Time) (code : ℤ) (s : Subscription)
    → Counted s
    → Failed k id s
    → Failed (suc k) id (record_outcome now code false s)
unfolding record_outcome
record_outcome-Failed k id now code s c f e =
    go (leb_ℤ max_consecutive_failures (add64 s.consecutive_failures (pos 1)))
  where
    go :
        (b : Bool)
        → (if b then false else s.active) ≡ true
        → pos (suc k) ≤ℤ add64 s.consecutive_failures (pos 1)
    go true a = absurd (false≢true a)
    go false a =
        let (low, high) = c a in
        let parts = add64_one_parts s.consecutive_failures (omega arith) low in
        omega (arith, parts.0, parts.1, f e a)

record_first-Failed :
    (k : ℕ) (high low id : ℤ) (now : Time) (code : ℤ) (ss : List Subscription)
    → Ascending high low ss
    → All (Failed k id) ss
    → All (Failed (suc k) id) (settled (record_first now id code false ss) ss)
unfolding Ascending record_first
record_first-Failed k high low id now code [] a h = tt
record_first-Failed k high low id now code (s ∷ ss) (l, c, a) (f, h) =
    go (eq_ℤ s.id id) refl (record_first-Failed k high s.id id now code ss a h)
  where
    go :
        (here : Bool)
        → eq_ℤ s.id id ≡ here
        → All (Failed (suc k) id) (settled (record_first now id code false ss) ss)
        → All (Failed (suc k) id) (
            settled
              (if not here
                then prepend s (record_first now id code false ss)
                else ok (record_outcome now code false s ∷ ss))
              (s ∷ ss))
    go true e rest = (
      record_outcome-Failed k id now code s c f,
      All-imp (λ x other same. absurd (other same)) ss
          (above high s.id id ss a (subst (λ i. i ≤ℤ s.id) ((eq_ℤ_iff s.id id).0 e) (omega arith))),
    )
    go false e rest =
        settled-prepend (Failed (suc k) id) s _ ss
          (λ same. absurd (false≢true (sym e ∙ (eq_ℤ_iff s.id id).1 same))) rest

-- A delivery to another subscription.
record_first-other :
    (k : ℕ) (id : ℤ) (now : Time) (j code : ℤ) (success : Bool) (ss : List Subscription)
    → eq_ℤ j id ≡ false
    → All (Failed k id) ss
    → All (Failed k id) (settled (record_first now j code success ss) ss)
unfolding record_first record_outcome
record_first-other k id now j code success [] other h = tt
record_first-other k id now j code success (s ∷ ss) other (f, h) =
    go (eq_ℤ s.id j) refl (record_first-other k id now j code success ss other h)
  where
    go :
        (here : Bool)
        → eq_ℤ s.id j ≡ here
        → All (Failed k id) (settled (record_first now j code success ss) ss)
        → All (Failed k id) (
            settled
              (if not here
                then prepend s (record_first now j code success ss)
                else ok (record_outcome now code success s ∷ ss))
              (s ∷ ss))
    go true e rest = (
      λ same. absurd (
          false≢true (
            sym other
            ∙ subst (λ i. eq_ℤ i id ≡ true) ((eq_ℤ_iff s.id j).0 e) ((eq_ℤ_iff s.id id).1 same))),
      h,
    )
    go false e rest = settled-prepend (Failed k id) s _ ss f rest

without_secrets-Failed :
    (k : ℕ) (id : ℤ) (ss : List Subscription)
    → All (Failed k id) ss
    → All (Failed k id) (map without_secret ss)
unfolding without_secret
without_secrets-Failed k id [] h = tt
without_secrets-Failed k id (s ∷ ss) (f, h) = (f, without_secrets-Failed k id ss h)

or_first_file-subscriptions :
    (f : WebhookFile) → (or_first_file (some f)).subscriptions ≡ f.subscriptions
or_first_file-subscriptions f = go (eq_ℤ f.next_id (pos 0))
  where
    go :
        (b : Bool) → (if b then record f { next_id = pos 1 } else f).subscriptions ≡ f.subscriptions
    go true = refl
    go false = refl

or_first_file-Failed :
    (k : ℕ) (id : ℤ) (f : WebhookFile)
    → All (Failed k id) f.subscriptions
    → All (Failed k id) (or_first_file (some (stored_file f))).subscriptions
or_first_file-Failed k id f h =
    subst (All (Failed k id)) (sym (or_first_file-subscriptions (stored_file f)))
      (without_secrets-Failed k id f.subscriptions h)

saved-Failed :
    (k : ℕ) (id : ℤ) (file : Option WebhookFile) (r : Result (List Subscription))
    → All (Failed k id) (settled r (or_first_file file).subscriptions)
    → All
        (Failed k id)
        (or_first_file (saved file (with_subscriptions (or_first_file file) r))).subscriptions
saved-Failed k id file (ok ss) h =
    or_first_file-Failed k id (record (or_first_file file) { subscriptions = ss }) h
saved-Failed k id file (err e) h = h

record_first-counted :
    (k : ℕ) (high low id : ℤ) (now : Time) (j code : ℤ) (ss : List Subscription)
    → Ascending high low ss
    → All (Failed k id) ss
    → All
        (Failed (one_more_if (eq_ℤ j id && true) k) id)
        (settled (record_first now j code false ss) ss)
record_first-counted k high low id now j code ss a h = go (eq_ℤ j id) refl
  where
    go :
        (here : Bool)
        → eq_ℤ j id ≡ here
        → All
            (Failed (one_more_if (here && true) k) id)
            (settled (record_first now j code false ss) ss)
    go true e =
        subst (λ i. All (Failed (suc k) id) (settled (record_first now i code false ss) ss))
          (sym ((eq_ℤ_iff j id).0 e)) (record_first-Failed k high low id now code ss a h)
    go false e = record_first-other k id now j code false ss e h

one_more_if-never : (b : Bool) (k : ℕ) → one_more_if (b && false) k ≡ k
one_more_if-never true k = refl
one_more_if-never false k = refl

and-false : (b : Bool) → (b && true) ≡ false → b ≡ false
and-false true h = h
and-false false h = refl

-- One call adds the failure that it records.
pub after_call-Failed :
    (k b : ℕ) (id : ℤ) (c : WebhookCall) (file : Option WebhookFile)
    → Healthy b (or_first_file file)
    → id <ℤ (or_first_file file).next_id
    → is_delivery id true c ≡ false
    → All (Failed k id) (or_first_file file).subscriptions
    → All
        (Failed (one_more_if (is_delivery id false c) k) id)
        (or_first_file (saved file (changed c (or_first_file file)))).subscriptions
unfolding changed add_subscription
after_call-Failed k b id (creates sub) file h low n f =
    or_first_file-Failed k id (add_subscription sub (or_first_file file)) (
      All-append (Failed k id) _ (_ ∷ []) f
        (λ same _. absurd (omega (arith, subst (λ i. id <ℤ i) same low)), tt))
after_call-Failed k b id (deletes j owner is_admin) file h low n f =
    saved-Failed k id file _ (All-remove_first (Failed k id) j owner is_admin _ f)
after_call-Failed k b id (delivers now j code true) file h low n f =
    rw (one_more_if-never (eq_ℤ j id) k) (
      saved-Failed k id file (record_first now j code true (or_first_file file).subscriptions)
        (record_first-other k id now j code true _ (and-false _ n) f))
after_call-Failed k b id (delivers now j code false) file h low n f =
    saved-Failed (one_more_if (eq_ℤ j id && true) k) id file
      (record_first now j code false (or_first_file file).subscriptions)
      (record_first-counted k _ _ id now j code _ h.ascending f)
