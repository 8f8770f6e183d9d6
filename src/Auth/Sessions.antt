-- ===== src/Auth/Sessions.antt =====
-- The sessions of api/handlers/auth.go: ValidateJWT, sign-in, sign-out, and the proof of a recent
-- sign-in.
use semrel_registry.Prelude.{◌+◌, ◌/◌, Bool, true, false, Option, none, some, if◌then◌else◌}
use semrel_registry.Text.{Text, text, text_eq, trim_space, equal_fold, is_empty}
use semrel_registry.Models.{Time}
use semrel_registry.Auth.{
  Claims, JwtParser, AuthHandler, is_static_admin_token, freshly_authenticated, second,
}
use semrel_registry.Auth.Revocation.{RevocationList, is_revoked, revoke}

abbrev unless_revoked : Claims → Bool × RevocationList → Option Claims × RevocationList
unless_revoked c (revoked, r) = (if revoked then none else some c, r)

unfoldable pub validate_claims :
    Time → Option Claims → RevocationList → Option Claims × RevocationList
unfolding is_revoked
validate_claims now none r = (none, r)
validate_claims now (some c) r = unless_revoked c (is_revoked now c.id r)

-- ValidateJWT
unfoldable pub validate_jwt :
    JwtParser → AuthHandler → Time → Text → RevocationList → Option Claims × RevocationList
unfolding validate_claims
validate_jwt parse h now token r = validate_claims now (parse h.jwt_secret now token) r

-- the claims that issueJWT signs, with a new session number `id`
unfoldable pub issued_claims : AuthHandler → Time → Text → Text → Text → Text → Text → Claims
issued_claims h now id login name avatar_url role = record {
  login = login;
  name = name;
  avatar_url = avatar_url;
  role = role;
  is_admin = text_eq role (text "admin");
  auth_time = now / second;
  id = id;
  expires_at = some (now + h.session_ttl);
}

abbrev expiry_or : Time → Option Time → Time
expiry_or fallback none = fallback
expiry_or fallback (some t) = t

-- Logout of a caller with these claims, if any
unfoldable pub logout : AuthHandler → Time → Option Claims → RevocationList → RevocationList
unfolding revoke
logout h now none r = r
logout h now (some c) r =
    if is_empty c.id then r else revoke now c.id (expiry_or (now + h.session_ttl) c.expires_at) r

unfoldable pub is_fresh : Time → Option Claims → Bool
unfolding freshly_authenticated
is_fresh now none = false
is_fresh now (some c) = freshly_authenticated now c

abbrev has_claims : Option Claims → Bool
has_claims none = false
has_claims (some c) = true

unfoldable pub is_recent_login : Time → Text → Option Claims → Bool
unfolding freshly_authenticated
is_recent_login now login none = false
is_recent_login now login (some c) =
    if equal_fold c.login login then freshly_authenticated now c else false

-- requireRecentAuth of a caller with these claims; `true` where it gives no error
unfoldable pub require_recent_auth :
    JwtParser
    → AuthHandler
    → Time
    → Option Claims
    → Text
    → Text
    → RevocationList
    → Bool × RevocationList
unfolding is_fresh is_static_admin_token validate_jwt is_recent_login
require_recent_auth parse h now claims login reauth_token r =
    let token = trim_space reauth_token in
    let (found, r') = validate_jwt parse h now token r in
    if is_fresh now claims
    then (true, r)
    else if is_empty token
    then (false, r)
    else if is_static_admin_token h token
    then (true, r)
    else (is_recent_login now login found, r')
