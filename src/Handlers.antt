-- ===== src/Handlers.antt =====
-- The answers of the HTTP handlers, api/handlers/errors.go: a handler passes on a value or refuses
-- with a status. Bodies of refusals and log lines, which are messages for people, are left out.
pub mod Identity
pub mod Ownership
pub mod Bypass
pub mod Search
pub mod Strangers
mod Tests
pub mod Versions
pub mod Plugins
use semrel_registry.Prelude.{ℕ, Bool, true, false, Option, none, some, if◌then◌else◌}
use semrel_registry.Text.{Text}
use semrel_registry.Result.{
  AppError, plugin_not_found, duplicate_plugin, forbidden, unsupported_storage, io_failure,
  panicked, validation, Result, ok, err, Exec,
}

pub data Reply {ℓ} (A : Type ℓ) : Type ℓ where
  proceed : A → Reply A
  refuse : ℕ → Reply A

abbrev pub Handler : Type 0 → Type 0 → Type 0
Handler S A = S → Reply A × S

-- HandleError; a panic is turned into a 500 by ErrorHandler.
unfoldable pub status_of : AppError → ℕ
status_of (validation field) = 400
status_of plugin_not_found = 404
status_of duplicate_plugin = 409
status_of forbidden = 403
status_of unsupported_storage = 501
status_of io_failure = 500
status_of panicked = 500

abbrev pub or_refuse : {A : Type 0} → Result A → Reply A
unfolding status_of
or_refuse (ok a) = proceed a
or_refuse (err e) = refuse (status_of e)

module _ {S A : Type 0} where
  -- a call whose error is handed to HandleError
  unfoldable pub serve : Exec S A → Handler S A
  unfolding status_of
  serve m s = let (r, s') = m s in (or_refuse r, s')

  unfoldable pub reply : A → Handler S A
  reply a s = (proceed a, s)

  unfoldable pub stop : ℕ → Handler S A
  stop status s = (refuse status, s)

module _ {S : Type 0} where
  -- an early return with a status
  unfoldable pub stop_if : Bool → ℕ → Handler S (Unit {0})
  stop_if b status s = (if b then refuse status else proceed tt, s)

module _ {S A B : Type 0} where
  abbrev pub go_on : Reply A → (A → Handler S B) → Handler S B
  go_on (proceed a) f s = f a s
  go_on (refuse status) f s = (refuse status, s)

  infixl 5 ◌>>=◌ ◌>>◌
  unfoldable pub ◌>>=◌ : Handler S A → (A → Handler S B) → Handler S B
  unfolding serve reply stop
  ◌>>=◌ m f s = let (r, s') = m s in go_on r f s'

  abbrev pub ◌>>◌ : Handler S A → Handler S B → Handler S B
  m >> n = m >>= λ _. n
