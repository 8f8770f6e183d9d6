-- ===== src/Auth/Production.antt =====
-- The static token in production: Config.Validate of api/config/security.go, firstNonEmpty of
-- api/handlers/auth.go, and RequireAdmin of api/middleware/auth.go.
use semrel_registry.Prelude.{
  ◌≡◌, refl, sym, ap, ◌∙◌, Bool, true, false, Option, none, some, [], if◌then◌else◌, ◌&&◌,
}
use mathlib.Core.Bool.{false≢true}
use mathlib.Core.Option.{some-injective}
use semrel_registry.Text.{Text, text, trim_space, is_empty}
use semrel_registry.Text.Equality.{text_eq_refl}
use semrel_registry.Models.{Time}
use semrel_registry.Handlers.{proceed}
use semrel_registry.Auth.{
  AuthHandler, JwtParser, Credentials, is_static_admin_token, token_from_request,
}
use semrel_registry.Auth.Config.{
  Config, Environment, is_production, validate, start_auth, new_auth_handler, router_options,
  first_non_empty,
}
use semrel_registry.Auth.Revocation.{RevocationList}
use semrel_registry.Auth.Sessions.{validate_jwt, validate_claims}
use semrel_registry.Auth.Middleware.{require_admin, by_admin_token, admit_admin}

validate-admin_token :
    (c checked : Config)
    → is_production c ≡ true
    → validate c ≡ some checked
    → checked.admin_token ≡ []
unfolding validate
validate-admin_token c checked production valid = go (is_production c) _ production valid
  where
    go :
        (p bad : Bool)
        → p ≡ true
        → (if p && bad
            then none
            else some (record c { admin_token = if p then [] else c.admin_token }))
          ≡ some checked
        → checked.admin_token ≡ []
    go true true e v = cc
    go true false e v = ap (λ x. x.admin_token) (sym (some-injective _ _ v))
    go false bad e v = absurd (false≢true e)

start_auth-admin_token :
    (env : Environment) (c : Config) (h : AuthHandler)
    → is_production c ≡ true
    → start_auth env c ≡ some h
    → is_empty (trim_space (env (text "ADMIN_TOKEN"))) ≡ false
    → h.admin_token ≡ trim_space (env (text "ADMIN_TOKEN"))
unfolding start_auth new_auth_handler router_options first_non_empty trim_space
start_auth-admin_token env c h production started set = go (validate c) refl started
  where
    made : Config → AuthHandler
    made checked = new_auth_handler env (router_options checked)

    fallback :
        (token : Text)
        → token ≡ []
        → first_non_empty env token "ADMIN_TOKEN" [] ≡ trim_space (env (text "ADMIN_TOKEN"))
    fallback token e = rw (e, set) refl

    go :
        (o : Option Config)
        → validate c ≡ o
        → (elim o [ none ↦ none | some checked ↦ some (made checked) ]) ≡ some h
        → h.admin_token ≡ trim_space (env (text "ADMIN_TOKEN"))
    go none e v = cc
    go (some checked) e v =
        ap (λ x. x.admin_token) (sym (some-injective _ _ v))
        ∙ fallback checked.admin_token (validate-admin_token c checked production e)

-- On a production server that starts while ADMIN_TOKEN is set in the environment to more than white
-- space, RequireAdmin lets in, as an administrator, a caller who presents that token and whom the
-- parser of JWTs gives no claims for.
pub require_admin-production :
    (parse : JwtParser) (env : Environment) (c : Config) (h : AuthHandler) (now : Time)
    (cr : Credentials) (r : RevocationList)
    → is_production c ≡ true
    → start_auth env c ≡ some h
    → is_empty (trim_space (env (text "ADMIN_TOKEN"))) ≡ false
    → token_from_request cr ≡ trim_space (env (text "ADMIN_TOKEN"))
    → parse h.jwt_secret now (trim_space (env (text "ADMIN_TOKEN"))) ≡ none
    → (require_admin parse h now cr r).0 ≡ proceed by_admin_token
unfolding require_admin validate_jwt validate_claims is_static_admin_token admit_admin
require_admin-production parse env c h now cr r production started set presented no_jwt =
    let token = start_auth-admin_token env c h production started set in
    rw (presented, no_jwt, token, set, text_eq_refl (trim_space (env (text "ADMIN_TOKEN")))) refl
