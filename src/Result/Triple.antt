-- ===== src/Result/Triple.antt =====
-- Pre- and postconditions of actions. An action that fails leaves the invariant `Inv`.
use semrel_registry.Prelude.{Bool, true, false, ◌≡◌, refl}
use semrel_registry.Result.{
  AppError, Result, ok, err, Exec, pure, raise, lift, gets, modify, ◌>>=◌, continue, reject_if,
}

abbrev pub Ends : {S A : Type 0} → (S → Type 0) → (A → S → Type 0) → Result A → S → Type 0
Ends Inv Q (ok a) s = Q a s
Ends Inv Q (err e) s = Inv s

pub record Triple {S A : Type 0} (Inv P : S → Type 0) (m : Exec S A) (Q : A → S → Type 0)
    : Type 0 where
  pub at : (s : S) → P s → Ends Inv Q (m s).0 (m s).1

module _ {S A : Type 0} {Inv : S → Type 0} where
  pub Triple-pure : (a : A) (Q : A → S → Type 0) → Triple Inv (Q a) (pure a) Q
  unfolding pure
  Triple-pure a Q = record { at = λ s h. h }

  pub Triple-raise : (e : AppError) (Q : A → S → Type 0) → Triple Inv Inv (raise e) Q
  unfolding raise
  Triple-raise e Q = record { at = λ s h. h }

  pub Triple-gets : (f : S → A) (Q : A → S → Type 0) → Triple Inv (λ s. Q (f s) s) (gets f) Q
  unfolding gets
  Triple-gets f Q = record { at = λ s h. h }

  -- A result computed without the state may be inspected.
  pub Triple-lift :
      (r : Result A) (P : S → Type 0) (Q : A → S → Type 0)
      → ((s : S) → P s → Inv s)
      → ((a : A) → r ≡ ok a → (s : S) → P s → Q a s)
      → Triple Inv P (lift r) Q
  unfolding lift
  Triple-lift (ok a) P Q h k = record { at = k a refl }
  Triple-lift (err e) P Q h k = record { at = h }

  pub Triple-weaken :
      (P P' : S → Type 0) (m : Exec S A) (Q : A → S → Type 0)
      → ((s : S) → P s → P' s)
      → Triple Inv P' m Q
      → Triple Inv P m Q
  Triple-weaken P P' m Q h t = record { at = λ s p. t.at s (h s p) }

module _ {S : Type 0} {Inv : S → Type 0} where
  pub Triple-modify : (f : S → S) (Q : S → Type 0) → Triple Inv (λ s. Q (f s)) (modify f) (λ _. Q)
  unfolding modify
  Triple-modify f Q = record { at = λ s h. h }

  pub Triple-reject_if :
      (b : Bool) (e : AppError) (P Q : S → Type 0)
      → ((s : S) → P s → Inv s)
      → ((s : S) → P s → b ≡ false → Q s)
      → Triple Inv P (reject_if b e) (λ _. Q)
  unfolding raise pure
  Triple-reject_if true e P Q h k = record { at = h }
  Triple-reject_if false e P Q h k = record { at = λ s p. k s p refl }

module _ {S A B : Type 0} {Inv : S → Type 0} where
  Ends-continue :
      (r : Result A) (s : S) (f : A → Exec S B) (Q : A → S → Type 0) (R : B → S → Type 0)
      → Ends Inv Q r s
      → ((a : A) → Triple Inv (Q a) (f a) R)
      → Ends Inv R (continue r f s).0 (continue r f s).1
  Ends-continue (ok a) s f Q R h k = (k a).at s h
  Ends-continue (err e) s f Q R h k = h

  pub Triple-bind :
      (P : S → Type 0) (m : Exec S A) (Q : A → S → Type 0) (f : A → Exec S B) (R : B → S → Type 0)
      → Triple Inv P m Q
      → ((a : A) → Triple Inv (Q a) (f a) R)
      → Triple Inv P (m >>= f) R
  unfolding ◌>>=◌
  Triple-bind P m Q f R t k = record {
    at = λ s p. Ends-continue (m s).0 (m s).1 f Q R (t.at s p) k;
  }

Ends-Inv :
    {S A : Type 0} (Inv : S → Type 0) (r : Result A) (s : S) → Ends Inv (λ _. Inv) r s → Inv s
Ends-Inv Inv (ok a) s h = h
Ends-Inv Inv (err e) s h = h

-- The invariant after a run.
pub Triple-Inv :
    {S A : Type 0} {Inv P : S → Type 0} (m : Exec S A)
    → Triple Inv P m (λ _. Inv)
    → (s : S) → P s
    → Inv (m s).1
Triple-Inv {Inv} m t s h = Ends-Inv Inv (m s).0 (m s).1 (t.at s h)
