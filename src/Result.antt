-- ===== src/Result.antt =====
-- The errors of api/internal/errors.go, and the shape of every method that takes a context and may
-- fail: it gives a result or an error and leaves a state, also where it fails.
pub mod Triple
pub mod Keeping
pub mod Success
use semrel_registry.Prelude.{String, Bool, true, false, ◌≡◌, refl, List, [], ◌∷◌, if◌then◌else◌}

-- `validation f` is a ValidationError whose field is f; its issue, a message for people, is left
-- out. `io_failure` is any error of the operating system or of the JSON decoder. `panicked` is no error
-- value: the goroutine panics, which the HTTP server turns into a 500.
pub data AppError : Type 0 where
  plugin_not_found duplicate_plugin forbidden unsupported_storage io_failure panicked : AppError
  validation : String → AppError

pub data Result {ℓ} (A : Type ℓ) : Type ℓ where
  ok : A → Result A
  err : AppError → Result A

abbrev pub Exec : Type 0 → Type 0 → Type 0
Exec S A = S → Result A × S

module _ {S A : Type 0} where
  unfoldable pub pure : A → Exec S A
  pure a s = (ok a, s)

  unfoldable pub raise : AppError → Exec S A
  raise e s = (err e, s)

  -- a step that reads no state
  unfoldable pub lift : Result A → Exec S A
  lift r s = (r, s)

  unfoldable pub gets : (S → A) → Exec S A
  gets f s = (ok (f s), s)

module _ {S : Type 0} where
  unfoldable pub modify : (S → S) → Exec S (Unit {0})
  modify f s = (ok tt, f s)

module _ {S A B : Type 0} where
  abbrev pub continue : Result A → (A → Exec S B) → Exec S B
  continue (ok a) f s = f a s
  continue (err e) f s = (err e, s)

  infixl 5 ◌>>=◌ ◌>>◌
  unfoldable pub ◌>>=◌ : Exec S A → (A → Exec S B) → Exec S B
  unfolding pure raise lift gets modify
  ◌>>=◌ m f s = let (r, s') = m s in continue r f s'

  abbrev pub ◌>>◌ : Exec S A → Exec S B → Exec S B
  m >> n = m >>= λ _. n

module _ {S : Type 0} where
  -- an early return of an error
  abbrev pub reject_if : Bool → AppError → Exec S (Unit {0})
  reject_if b e = if b then raise e else pure tt

-- a chain of checks that read no state
abbrev pub both_ok : Result (Unit {0}) → Result (Unit {0}) → Result (Unit {0})
both_ok (ok _) r = r
both_ok (err e) r = err e

abbrev pub check : Bool → AppError → Result (Unit {0})
check b e = if b then err e else ok tt

-- a sequence of checks, which ends at the first error
abbrev pub first_error : List (Result (Unit {0})) → Result (Unit {0})
first_error [] = ok tt
first_error (r ∷ rs) = both_ok r (first_error rs)
