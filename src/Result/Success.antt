-- ===== src/Result/Success.antt =====
-- What a run that succeeds has passed.
use semrel_registry.Prelude.{◌≡◌, refl, Bool, true, false}
use semrel_registry.Result.{
  Result, ok, err, AppError, Exec, lift, raise, pure, ◌>>=◌, continue, reject_if, check, both_ok,
}

-- A step that succeeded gave a value with which the rest went on.
module _ {S A B : Type 0} where
  continue-ok :
      (r : Result A) (f : A → Exec S B) (s : S) (b : B)
      → (continue r f s).0 ≡ ok b
      → (a : A) × (r ≡ ok a) × ((f a s).0 ≡ ok b)
  continue-ok (ok a) f s b h = (a, refl, h)
  continue-ok (err e) f s b h = cc

  pub bind-ok :
      (m : Exec S A) (f : A → Exec S B) (s : S) (b : B)
      → ((m >>= f) s).0 ≡ ok b
      → (a : A) × ((m s).0 ≡ ok a) × ((f a (m s).1).0 ≡ ok b)
  unfolding ◌>>=◌
  bind-ok m f s b h = continue-ok (m s).0 f (m s).1 b h

module _ {S B : Type 0} where
  pub lift-ok :
      (r : Result (Unit {0})) (f : Unit {0} → Exec S B) (s : S) (b : B)
      → ((lift r >>= f) s).0 ≡ ok b
      → (r ≡ ok tt) × ((f tt s).0 ≡ ok b)
  unfolding ◌>>=◌ lift
  lift-ok (ok u) f s b h = (refl, h)
  lift-ok (err e) f s b h = cc

  pub reject_if-ok :
      (c : Bool) (e : AppError) (f : Unit {0} → Exec S B) (s : S) (b : B)
      → ((reject_if c e >>= f) s).0 ≡ ok b
      → (c ≡ false) × ((f tt s).0 ≡ ok b)
  unfolding ◌>>=◌ raise pure
  reject_if-ok true e f s b h = cc
  reject_if-ok false e f s b h = (refl, h)

pub both_ok-ok : (r t : Result (Unit {0})) → both_ok r t ≡ ok tt → (r ≡ ok tt) × (t ≡ ok tt)
both_ok-ok (ok u) t h = (refl, h)
both_ok-ok (err e) t h = cc

pub check-ok : (b : Bool) (e : AppError) → check b e ≡ ok tt → b ≡ false
check-ok true e h = cc
check-ok false e h = refl
