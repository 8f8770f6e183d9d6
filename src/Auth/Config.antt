-- ===== src/Auth/Config.antt =====
-- The settings of api/config/security.go, and the handler that api/main.go makes of them through
-- api/handlers/auth.go. The environment is a function from names to values, empty where unset.
-- Warnings, which are messages for people, are left out.
use semrel_registry.Prelude.{
  ℕ, ◌*◌, Bool, Option, none, some, List, [], ◌∷◌, length, any, keep_if, map, not, ◌&&◌, ◌||◌,
  if◌then◌else◌, ltb, String, ◌==◌,
}
use semrel_registry.Text.{Text, text, text_eq, trim_space, to_lower, is_empty, split}
use semrel_registry.Auth.{AuthHandler, second}

abbrev pub Environment : Type 0
Environment = Text → Text

-- the fields of Config that Validate and the authentication read; `session_ttl` is 0 where the
-- duration is not positive
pub record Config : Type 0 where
  pub environment : Text
  pub jwt_secret : Text
  pub admin_token : Text
  pub webhook_secret : Text
  pub allowed_origins : List Text
  pub frontend_url : Text
  pub session_ttl : ℕ
  pub cookie_name : Text
  pub cookie_domain : Text
  pub cookie_secure : Bool

-- DevJWTSecret
abbrev pub dev_jwt_secret : Text
dev_jwt_secret = text "dev-jwt-secret-change-in-production"

-- minSecretLength
abbrev pub min_secret_length : ℕ
min_secret_length = 32

-- Config.IsProduction
unfoldable pub is_production : Config → Bool
is_production c =
    let environment = to_lower (trim_space c.environment) in
    text_eq environment (text "prod") || text_eq environment (text "production")

abbrev pub is_weak_jwt_secret : Text → Bool
is_weak_jwt_secret secret =
    is_empty secret || text_eq secret dev_jwt_secret || ltb (length secret) min_secret_length

abbrev pub is_weak_webhook_secret : Text → Bool
is_weak_webhook_secret secret = is_empty secret || ltb (length secret) min_secret_length

-- Config.Validate, with the settings that it leaves, or `none` for an error
unfoldable pub validate : Config → Option Config
unfolding is_production
validate c =
    let production = is_production c in
    let checked = record c { admin_token = if production then [] else c.admin_token } in
    if production
      && (is_weak_jwt_secret c.jwt_secret
          || is_weak_webhook_secret c.webhook_secret
          || any (λ origin. text_eq origin (text "*")) c.allowed_origins)
    then none
    else some checked

-- AuthOptions
pub record AuthOptions : Type 0 where
  pub jwt_secret : Text
  pub admin_token : Text
  pub allowed_orgs : List Text
  pub admin_users : List Text
  pub frontend_url : Text
  pub session_ttl : ℕ
  pub cookie_name : Text
  pub cookie_domain : Text
  pub cookie_secure : Bool

-- firstNonEmpty
unfoldable pub first_non_empty : Environment → Text → String → Text → Text
first_non_empty env value key fallback =
    if is_empty (trim_space value)
    then (if is_empty (trim_space (env (text key))) then fallback else trim_space (env (text key)))
    else trim_space value

-- splitEnv
unfoldable pub split_env : Environment → String → List Text
split_env env key =
    if is_empty (env (text key))
    then []
    else keep_if (λ s. not (is_empty s)) (map trim_space (split b',' (env (text key))))

unfoldable pub or_split_env : Environment → List Text → String → List Text
unfolding split_env
or_split_env env [] key = split_env env key
or_split_env env (v ∷ vs) key = v ∷ vs

-- NewAuthHandlerWithOptions
unfoldable pub new_auth_handler : Environment → AuthOptions → AuthHandler
unfolding first_non_empty or_split_env
new_auth_handler env opts = record {
  jwt_secret = first_non_empty env opts.jwt_secret "JWT_SECRET" dev_jwt_secret;
  admin_token = first_non_empty env opts.admin_token "ADMIN_TOKEN" [];
  allowed_orgs = or_split_env env opts.allowed_orgs "ALLOWED_GITHUB_ORGS";
  admin_users = or_split_env env opts.admin_users "ADMIN_GITHUB_USERS";
  frontend_url =
      first_non_empty env opts.frontend_url "FRONTEND_URL" (text "http://localhost:5173");
  session_ttl = if opts.session_ttl == 0 then 86400 * second else opts.session_ttl;
  cookie_name = first_non_empty env opts.cookie_name "SESSION_COOKIE_NAME" (text "semrel_session");
  cookie_domain = first_non_empty env opts.cookie_domain "COOKIE_DOMAIN" [];
  cookie_secure = opts.cookie_secure;
}

-- the options that newRouter makes of the settings
unfoldable pub router_options : Config → AuthOptions
router_options c = record {
  jwt_secret = c.jwt_secret;
  admin_token = c.admin_token;
  allowed_orgs = [];
  admin_users = [];
  frontend_url = c.frontend_url;
  session_ttl = c.session_ttl;
  cookie_name = c.cookie_name;
  cookie_domain = c.cookie_domain;
  cookie_secure = c.cookie_secure;
}

-- the authentication of a server that starts: main validates the settings first
unfoldable pub start_auth : Environment → Config → Option AuthHandler
unfolding validate new_auth_handler router_options
start_auth env c = elim (validate c) [
  | none ↦ none
  | some checked ↦ some (new_auth_handler env (router_options checked))
]
