-- ===== src/Auth/Tests.antt =====
-- The theorems on authentication at a production server.
use semrel_registry.Text.{equal_fold}
use semrel_registry.Text.{cut}
use semrel_registry.Text.{to_lower}
use semrel_registry.Auth.Config.{is_production}
use semrel_registry.Prelude.{
  ◌≡◌, ◌⊎◌, refl, true, false, none, some, [], ◌∷◌, ◌++◌, ◌*◌, ◌+◌, ◌-◌, ℕ, map, ap, length, arith,
  if◌then◌else◌,
}
use semrel_registry.Text.{Text, text, text_eq, trim_space, is_empty}
use semrel_registry.Text.Split.{Without}
use semrel_registry.Handlers.{proceed}
use semrel_registry.Auth.{AuthHandler, Claims, JwtParser, Credentials, token_from_request, second}
use semrel_registry.Auth.Config.{Config, Environment, start_auth}
use semrel_registry.Auth.Revocation.{RevocationList}
use semrel_registry.Auth.Sessions.{validate_jwt, logout}
use semrel_registry.Auth.Middleware.{require_admin, by_admin_token, by_claims}
use semrel_registry.Auth.Production.{require_admin-production}
use semrel_registry.Auth.Admission.{IsAdminSession, IsStatic, require_admin-IsAdmin}
use semrel_registry.Auth.SignedOut.{revokes, asks, after_lookups, validate_jwt-signed_out}
use semrel_registry.Auth.Links.{Signer, redirect_state, verify_signed_state, safe_return_path}
use semrel_registry.Auth.RoundTrip.{verify_signed_state-redirect_state}

abbrev environment : Environment
environment name = if text_eq name (text "ADMIN_TOKEN") then text "hunter2" else []

abbrev settings : Config
settings = record {
  environment = text "production";
  jwt_secret = text "0123456789abcdef0123456789abcdef";
  admin_token = text "hunter2";
  webhook_secret = text "0123456789abcdef0123456789abcdef";
  allowed_origins = [];
  frontend_url = text "https://registry.example.org";
  session_ttl = 0;
  cookie_name = [];
  cookie_domain = [];
  cookie_secure = true;
}

abbrev server : AuthHandler
server = record {
  jwt_secret = text "0123456789abcdef0123456789abcdef";
  admin_token = text "hunter2";
  allowed_orgs = [];
  admin_users = [];
  frontend_url = text "https://registry.example.org";
  session_ttl = 86400 * second;
  cookie_name = text "semrel_session";
  cookie_domain = [];
  cookie_secure = true;
}

abbrev ada : Claims
ada = record {
  login = text "ada";
  name = text "Ada";
  avatar_url = [];
  role = text "admin";
  is_admin = true;
  auth_time = 1;
  id = text "a";
  expires_at = some 100;
}

-- a parser that knows one token
abbrev parser : JwtParser
parser secret now token = if text_eq token (text "jwt") then some ada else none

abbrev bearer : Text → Credentials
bearer token = record { authorization = text "Bearer " ++ token; cookie = none }

abbrev no_revocations : RevocationList
no_revocations = record { revoked = []; last = 0 }

require_admin-production_example :
    (require_admin parser server 5 (bearer (text "hunter2")) no_revocations).0
    ≡ proceed by_admin_token
unfolding is_production text_eq to_lower trim_space start_auth token_from_request cut equal_fold
require_admin-production_example =
    require_admin-production parser environment settings server 5 (bearer (text "hunter2"))
      no_revocations refl refl refl refl refl

require_admin-IsAdmin_example :
    IsAdminSession parser server 5
      (token_from_request (bearer (text "jwt")))
      no_revocations
      (by_claims ada)
    ⊎ IsStatic parser server 5
        (token_from_request (bearer (text "jwt")))
        no_revocations
        (by_claims ada)
unfolding require_admin cut trim_space equal_fold
require_admin-IsAdmin_example =
    require_admin-IsAdmin parser server 5 (bearer (text "jwt")) no_revocations (by_claims ada) refl

validate_jwt-signed_out_example :
    (validate_jwt parser server 90 (text "jwt") (
      after_lookups
        (asks 40 (text "a") ∷ revokes 50 (text "bb") 60 ∷ [])
        (logout server 20 (some ada) no_revocations))).0
    ≡ none
unfolding text_eq
validate_jwt-signed_out_example =
    validate_jwt-signed_out parser server 20 90 ada ada (text "jwt") 100
      (asks 40 (text "a") ∷ revokes 50 (text "bb") 60 ∷ []) no_revocations refl refl (omega arith)
      (omega arith) (omega arith, ((omega arith, λ e. absurd (omega (arith, ap length e))), tt))
      refl refl

-- a coding that moves each byte past the dot
abbrev signer : Signer
signer = record {
  signature = λ key payload. key ++ payload;
  encode = map (λ c. c + 47);
  decode = λ s. some (map (λ c. c - 47) s);
}

decodes : (t : Text) → map (λ c. c - 47) (map (λ c. c + 47) t) ≡ t
decodes [] = refl
decodes (c ∷ t) = cc (decodes t, back c)
  where
    back : (c : ℕ) → c + 47 - 47 ≡ c
    back c = omega arith

no_dot : (t : Text) → Without b'.' (signer.encode t)
no_dot [] = tt
no_dot (c ∷ t) = (ground arith, no_dot t)

not_empty : (t : Text) → is_empty t ≡ false → is_empty (signer.encode t) ≡ false
not_empty [] e = e
not_empty (c ∷ t) e = refl

verify_signed_state-redirect_state_example :
    verify_signed_state signer server
      (redirect_state signer server (text "6e") (text "/admin/account"))
    ≡ some (safe_return_path (text "/admin/account"))
verify_signed_state-redirect_state_example =
    verify_signed_state-redirect_state signer server (text "6e") (text "/admin/account")
      (λ t. ap some (decodes t)) no_dot not_empty (refl, (refl, tt))
