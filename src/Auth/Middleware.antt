-- ===== src/Auth/Middleware.antt =====
-- api/middleware/auth.go: who is let in, and as whom. The identity is what setIdentity puts into the
-- context; a caller who is let in without one is `none`.
use semrel_registry.Prelude.{Bool, true, Option, none, some, if◌then◌else◌}
use semrel_registry.Text.{Text, text, is_empty}
use semrel_registry.Models.{Time}
use semrel_registry.Handlers.{Reply, proceed, refuse, Handler}
use semrel_registry.Auth.{
  Claims, JwtParser, AuthHandler, Credentials, is_static_admin_token, token_from_request,
}
use semrel_registry.Auth.Revocation.{RevocationList}
use semrel_registry.Auth.Sessions.{validate_jwt}

pub record Identity : Type 0 where
  pub claims : Option Claims
  pub login : Text
  pub is_admin : Bool

abbrev pub by_claims : Claims → Identity
by_claims c = record { claims = some c; login = c.login; is_admin = c.is_admin }

abbrev pub by_admin_token : Identity
by_admin_token = record { claims = none; login = text "admin-token"; is_admin = true }

-- behind ValidateJWT, whose claims RequireAdmin looks at before the static token
unfoldable pub admit_admin : Bool → Option Claims → Reply Identity
admit_admin is_static (some c) = if c.is_admin then proceed (by_claims c) else refuse 403
admit_admin is_static none = if is_static then proceed by_admin_token else refuse 401

unfoldable pub admit_any : Bool → Option Claims → Reply Identity
admit_any is_static (some c) = proceed (by_claims c)
admit_any is_static none = if is_static then proceed by_admin_token else refuse 401

module _ (parse : JwtParser) (h : AuthHandler) (now : Time) (c : Credentials) where
  -- RequireAdmin
  unfoldable pub require_admin : Handler RevocationList Identity
  unfolding token_from_request validate_jwt is_static_admin_token admit_admin
  require_admin r =
      let bearer = token_from_request c in
      let (claims, r') = validate_jwt parse h now bearer r in
      if is_empty bearer
      then (refuse 401, r)
      else (admit_admin (is_static_admin_token h bearer) claims, r')

  -- RequireAuth
  unfoldable pub require_auth : Handler RevocationList Identity
  unfolding token_from_request validate_jwt is_static_admin_token admit_any
  require_auth r =
      let bearer = token_from_request c in
      let (claims, r') = validate_jwt parse h now bearer r in
      if is_empty bearer
      then (refuse 401, r)
      else (admit_any (is_static_admin_token h bearer) claims, r')

-- the identity that OptionalAuth attaches, if any
unfoldable pub attach : Bool → Option Claims → Option Identity
attach is_static (some c) = some (by_claims c)
attach is_static none = if is_static then some by_admin_token else none

-- OptionalAuth
unfoldable pub optional_auth :
    JwtParser → AuthHandler → Time → Credentials → RevocationList → Option Identity × RevocationList
unfolding token_from_request validate_jwt is_static_admin_token attach
optional_auth parse h now c r =
    let bearer = token_from_request c in
    let (claims, r') = validate_jwt parse h now bearer r in
    if is_empty bearer then (none, r) else (attach (is_static_admin_token h bearer) claims, r')
