-- ===== src/Auth/Revocation.antt =====
-- The revocation list of api/handlers/session.go: the expiry of each session that was ended.
use semrel_registry.Prelude.{
  ◌*◌, ◌+◌, Bool, true, false, Option, none, some, List, [], ◌∷◌, keep_if, not, if◌then◌else◌, ltb,
}
use semrel_registry.Text.{Text, text_eq, is_empty}
use semrel_registry.Models.{Time}
use semrel_registry.Auth.{second}

pub record RevocationList : Type 0 where
  pub revoked : List (Text × Time)
  pub last : Time

unfoldable pub expiry_of : Text → List (Text × Time) → Option Time
expiry_of jti [] = none
expiry_of jti ((j, expiry) ∷ m) = if text_eq j jti then some expiry else expiry_of jti m

-- delete(r.revoked, jti)
unfoldable pub delete_entry : Text → List (Text × Time) → List (Text × Time)
delete_entry jti m = keep_if (λ e. not (text_eq e.0 jti)) m

-- sweepLocked
unfoldable pub sweep : Time → RevocationList → RevocationList
sweep now r =
    if ltb now (r.last + 60 * second)
    then r
    else record { revoked = keep_if (λ e. not (ltb e.1 now)) r.revoked; last = now }

-- Revoke
unfoldable pub revoke : Time → Text → Time → RevocationList → RevocationList
unfolding sweep delete_entry
revoke now jti expires_at r =
    if is_empty jti
    then r
    else sweep now (record r { revoked = (jti, expires_at) ∷ delete_entry jti r.revoked })

unfoldable pub is_revoked_by : Time → Text → Option Time → RevocationList → Bool × RevocationList
unfolding delete_entry
is_revoked_by now jti none r = (false, r)
is_revoked_by now jti (some expiry) r =
    if ltb expiry now then (false, record r { revoked = delete_entry jti r.revoked }) else (true, r)

-- IsRevoked
unfoldable pub is_revoked : Time → Text → RevocationList → Bool × RevocationList
unfolding expiry_of is_revoked_by
is_revoked now jti r =
    if is_empty jti then (false, r) else is_revoked_by now jti (expiry_of jti r.revoked) r
