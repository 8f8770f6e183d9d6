-- ===== src/Auth/Admission.antt =====
-- Whom RequireAdmin of api/middleware/auth.go lets in.
use semrel_registry.Prelude.{
  ◌≡◌, refl, Bool, true, false, Option, none, some, [], ◌∷◌, inl, inr, ◌⊎◌, ◌≢◌, Bool-cases,
  if◌then◌else◌, ◌||◌,
}
use semrel_registry.Text.{Text, text_eq, is_empty}
use semrel_registry.Text.Equality.{text_eq_sound}
use semrel_registry.Models.{Time}
use semrel_registry.Handlers.{Reply, proceed, refuse}
use semrel_registry.Auth.{
  Claims, AuthHandler, JwtParser, Credentials, is_static_admin_token, token_from_request,
}
use semrel_registry.Auth.Revocation.{RevocationList, is_revoked}
use semrel_registry.Auth.Sessions.{validate_jwt, validate_claims}
use semrel_registry.Auth.Middleware.{
  Identity, require_admin, by_admin_token, by_claims, admit_admin,
}

-- The token is a JWT of an administrator whose session was not ended, or the static token.
module _ (parse : JwtParser) (h : AuthHandler) (now : Time) (token : Text)
    (r : RevocationList) where
  abbrev pub IsAdminSession : Identity → Type 0
  IsAdminSession who =
      (c : Claims) × (parse h.jwt_secret now token ≡ some c)
      × (c.is_admin ≡ true)
      × ((is_revoked now c.id r).0 ≡ false)
      × (who ≡ by_claims c)

  abbrev pub IsStatic : Identity → Type 0
  IsStatic who = (h.admin_token ≡ token) × (token ≢ []) × (who ≡ by_admin_token)

  IsStatic-cases :
      (who : Identity)
      → admit_admin (is_static_admin_token h token) none ≡ proceed who
      → IsStatic who
  unfolding is_static_admin_token admit_admin
  IsStatic-cases who e = go h.admin_token token e
    where
      go :
          (known given : Text)
          → (if (if is_empty known || is_empty given then false else text_eq known given)
              then proceed by_admin_token
              else refuse 401)
            ≡ proceed who
          → (known ≡ given) × (given ≢ []) × (who ≡ by_admin_token)
      go [] given v = cc
      go (k ∷ known) [] v = cc
      go (k ∷ known) (g ∷ given) v = elim (Bool-cases (text_eq (k ∷ known) (g ∷ given))) [
        | inl same ↦ (text_eq_sound _ _ same, (λ e. cc), cc (rw same at v))
        | inr other ↦ cc (rw other at v)
      ]

  IsAdminSession-cases :
      (who : Identity) (o : Option Claims)
      → parse h.jwt_secret now token ≡ o
      → admit_admin (is_static_admin_token h token) (validate_claims now o r).0 ≡ proceed who
      → IsAdminSession who ⊎ IsStatic who
  unfolding validate_claims admit_admin
  IsAdminSession-cases who none e v = inr (IsStatic-cases who v)
  IsAdminSession-cases who (some c) e v = go (is_revoked now c.id r).0 refl v
    where
      admin :
          (b : Bool)
          → c.is_admin ≡ b
          → (is_revoked now c.id r).0 ≡ false
          → (if b then proceed (by_claims c) else refuse 403) ≡ proceed who
          → IsAdminSession who
      admin true a f v = (c, e, a, f, cc)
      admin false a f v = cc

      go :
          (revoked : Bool)
          → (is_revoked now c.id r).0 ≡ revoked
          → admit_admin (is_static_admin_token h token) (if revoked then none else some c)
            ≡ proceed who
          → IsAdminSession who ⊎ IsStatic who
      go true f v = inr (IsStatic-cases who v)
      go false f v = inl (admin c.is_admin refl f v)

-- Whom RequireAdmin lets in has presented a token for which the parser of JWTs gives the claims of an
-- administrator whose session was not ended, and is let in by these claims; or the static token,
-- which is not empty, and is let in as the holder of that token.
pub require_admin-IsAdmin :
    (parse : JwtParser) (h : AuthHandler) (now : Time) (cr : Credentials) (r : RevocationList)
    (who : Identity)
    → (require_admin parse h now cr r).0 ≡ proceed who
    → IsAdminSession parse h now (token_from_request cr) r who
      ⊎ IsStatic parse h now (token_from_request cr) r who
unfolding require_admin validate_jwt
require_admin-IsAdmin parse h now cr r who e =
    IsAdminSession-cases parse h now (token_from_request cr) r who _ refl
      (admitted (is_empty (token_from_request cr)) _ _ e)
  where
    admitted :
        (b : Bool) (a : Reply Identity) (r' : RevocationList)
        → (if◌then◌else◌ {A = Reply Identity × RevocationList} b (refuse 401, r) (a, r')).0
          ≡ proceed who
        → a ≡ proceed who
    admitted true a r' e = cc
    admitted false a r' e = e
