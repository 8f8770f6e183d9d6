-- ===== src/Auth.antt =====
-- Authentication: api/config/security.go, api/handlers/auth.go, api/handlers/session.go and
-- api/middleware/auth.go. The JWT library is a parameter: it gives the claims of a token that is
-- signed with the secret by HS256, carries an expiry and is within its time, or nothing.
pub mod Config
pub mod Revocation
pub mod Sessions
pub mod Middleware
pub mod Production
pub mod Admission
pub mod SignedOut
pub mod Links
pub mod RoundTrip
mod Tests
use semrel_registry.Prelude.{
  ℕ, ◌+◌, ◌-◌, ◌*◌, ◌^◌, ◌/◌, Bool, true, false, Option, none, some, List, [], ◌∷◌, not, ◌&&◌, ◌||◌,
  if◌then◌else◌, leb, any, ◌==◌,
}
use semrel_registry.Prelude.Int.{ℤ, pos, eq_ℤ, leb_ℤ}
use semrel_registry.Text.{Text, text, text_eq, trim_space, equal_fold, cut, is_empty}
use semrel_registry.Models.{Time}

-- Claims, with the ID and the ExpiresAt of the registered claims
pub record Claims : Type 0 where
  pub login : Text
  pub name : Text
  pub avatar_url : Text
  pub role : Text
  pub is_admin : Bool
  pub auth_time : ℕ
  pub id : Text
  pub expires_at : Option Time

-- what a token is checked against: the secret, the instant, the token
abbrev pub JwtParser : Type 0
JwtParser = Text → Time → Text → Option Claims

abbrev pub second : ℕ
second = 10 ^ 9

-- reauthWindow
abbrev pub reauth_window : ℕ
reauth_window = 300 * second

-- FreshlyAuthenticated; a sign-in in the future is fresh too, since its age is negative
unfoldable pub freshly_authenticated : Time → Claims → Bool
freshly_authenticated now c =
    if c.auth_time == 0 then false else leb (now - c.auth_time * second) reauth_window

-- AuthHandler, with the fields that decide who is let in
pub record AuthHandler : Type 0 where
  pub jwt_secret : Text
  pub admin_token : Text
  pub allowed_orgs : List Text
  pub admin_users : List Text
  pub frontend_url : Text
  pub session_ttl : ℕ
  pub cookie_name : Text
  pub cookie_domain : Text
  pub cookie_secure : Bool

-- IsStaticAdminToken
unfoldable pub is_static_admin_token : AuthHandler → Text → Bool
is_static_admin_token h tok =
    if is_empty h.admin_token || is_empty tok then false else text_eq h.admin_token tok

-- the parts of a request that carry a token: the header Authorization, empty where there is none,
-- and the session cookie
pub record Credentials : Type 0 where
  pub authorization : Text
  pub cookie : Option Text

abbrev or_empty : Option Text → Text
or_empty none = []
or_empty (some cookie) = trim_space cookie

-- the token of a header that holds one after `bearer`
abbrev bearer_token : Text → Text
bearer_token header =
    let (scheme, token, found) = cut b' ' header in
    if found && equal_fold scheme (text "bearer") then trim_space token else []

-- TokenFromRequest
unfoldable pub token_from_request : Credentials → Text
token_from_request c =
    let token = bearer_token (trim_space c.authorization) in
    if is_empty token then or_empty c.cookie else token

-- resolveRole; `owner_of` says of an organisation whether GitHub reports the login as its active
-- administrator
unfoldable pub resolve_role : AuthHandler → (Text → Bool) → Text → Text
resolve_role h owner_of login =
    if any (λ u. equal_fold u login) h.admin_users
    then text "admin"
    else if any owner_of h.allowed_orgs
    then text "admin"
    else text "user"
