-- ===== src/Result/Keeping.antt =====
-- Actions that keep a property of the state, and actions that keep it where they fail.
use semrel_registry.Prelude.{Bool, true, false, if◌then◌else◌}
use semrel_registry.Result.{
  AppError, Result, ok, err, Exec, pure, raise, lift, gets, ◌>>=◌, reject_if,
}
use semrel_registry.Result.Triple.{Triple, Triple-bind, Ends}

abbrev pub Keeps : {S A : Type 0} → (S → Type 0) → Exec S A → Type 0
Keeps K m = Triple K K m (λ _. K)

abbrev pub Atomic : {S A : Type 0} → (S → Type 0) → Exec S A → Type 0
Atomic K m = Triple K K m (λ _ _. Unit)

module _ {S : Type 0} {K : S → Type 0} where
  module _ {A B : Type 0} where
    pub Keeps-bind :
        {m : Exec S A} {f : A → Exec S B}
        → Keeps K m
        → ((a : A) → Keeps K (f a))
        → Keeps K (m >>= f)
    Keeps-bind {m} {f} h k = Triple-bind K m (λ _. K) f (λ _. K) h k

    pub Atomic-bind :
        {m : Exec S A} {f : A → Exec S B}
        → Keeps K m
        → ((a : A) → Atomic K (f a))
        → Atomic K (m >>= f)
    Atomic-bind {m} {f} h k = Triple-bind K m (λ _. K) f (λ _ _. Unit) h k

  module _ {A : Type 0} where
    pub Keeps-pure : (a : A) → Keeps K (pure a)
    unfolding pure
    Keeps-pure a = record { at = λ s h. h }

    pub Keeps-raise : (e : AppError) → Keeps K (raise {A = A} e)
    unfolding raise
    Keeps-raise e = record { at = λ s h. h }

    pub Keeps-lift : (r : Result A) → Keeps K (lift r)
    unfolding lift
    Keeps-lift (ok a) = record { at = λ s h. h }
    Keeps-lift (err e) = record { at = λ s h. h }

    pub Keeps-gets : (f : S → A) → Keeps K (gets f)
    unfolding gets
    Keeps-gets f = record { at = λ s h. h }

    -- Behind the change only what cannot fail is left.
    pub Atomic-then :
        {B : Type 0} {m : Exec S A} (b : B) → Atomic K m → Atomic K (m >>= λ _. pure b)
    unfolding pure
    Atomic-then {m} b h = Triple-bind K m (λ _ _. Unit) _ _ h λ _. record { at = λ s u. tt }

    pub Atomic-raise : (e : AppError) → Atomic K (raise {A = A} e)
    unfolding raise
    Atomic-raise e = record { at = λ s h. h }

  pub Keeps-if :
      {A : Type 0} (b : Bool) (m n : Exec S A)
      → Keeps K m
      → Keeps K n
      → Keeps K (if b then m else n)
  Keeps-if true m n h k = h
  Keeps-if false m n h k = k

  pub Keeps-reject_if : (b : Bool) (e : AppError) → Keeps K (reject_if b e)
  unfolding raise pure
  Keeps-reject_if true e = record { at = λ s h. h }
  Keeps-reject_if false e = record { at = λ s h. h }

module _ {S A : Type 0} {K : S → Type 0} where
  pub Atomic-Keeps : (m : Exec S A) → Keeps K m → Atomic K m
  Atomic-Keeps m h = record { at = λ s k. forget_end (m s).0 (m s).1 (h.at s k) }
    where
      forget_end : (r : Result A) (s : S) → Ends K (λ _. K) r s → Ends K (λ _ _. Unit) r s
      forget_end (ok a) s h = tt
      forget_end (err e) s h = h
