-- ===== src/Auth/RoundTrip.antt =====
-- The state that Redirect of api/handlers/auth.go sends along, as Callback reads it.
use semrel_registry.Prelude.{
  ◌≡◌, refl, Bool, true, false, some, [], ◌∷◌, ◌++◌, ap, ◌∙◌, if◌then◌else◌,
}
use semrel_registry.Text.{Text, is_empty, trim_space}
use semrel_registry.Text.Equality.{text_eq_refl}
use semrel_registry.Text.Trim.{trim_space_idem}
use semrel_registry.Text.Split.{Without, cut-append}
use semrel_registry.Auth.{AuthHandler}
use semrel_registry.Auth.Links.{
  Signer, is_safe_path, safe_return_path, signed_state, redirect_state, path_of,
  verify_signed_state,
}

-- A path that was found safe is found safe again, unchanged.
safe_return_path_idem : (s : Text) → safe_return_path (safe_return_path s) ≡ safe_return_path s
unfolding safe_return_path trim_space
safe_return_path_idem s = go (is_safe_path (trim_space s)) refl
  where
    go :
        (b : Bool)
        → is_safe_path (trim_space s) ≡ b
        → safe_return_path (if b then trim_space s else []) ≡ (if b then trim_space s else [])
    go true e = rw (trim_space_idem s, e) refl
    go false e = refl

verify-payload :
    (signer : Signer) (h : AuthHandler) (p : Text)
    → Without b'.' p
    → is_empty p ≡ false
    → verify_signed_state signer h (p ++ (b'.' ∷ signer.signature h.jwt_secret p))
      ≡ path_of (signer.decode p)
unfolding verify_signed_state
verify-payload signer h p no_dot filled =
    rw
      (
        cut-append b'.' p (signer.signature h.jwt_secret p) no_dot,
        filled,
        text_eq_refl (signer.signature h.jwt_secret p),
      )
      refl

path_of-some :
    (nonce next : Text)
    → Without b':' nonce
    → path_of (some (nonce ++ (b':' ∷ next))) ≡ some (safe_return_path next)
unfolding path_of
path_of-some nonce next no_colon = rw (cut-append b':' nonce next no_colon) refl

filled : (nonce next : Text) → is_empty (nonce ++ (b':' ∷ next)) ≡ false
filled [] next = refl
filled (c ∷ nonce) next = refl

-- Where decoding undoes encoding, an encoded text is not empty and holds no dot, and the nonce holds
-- no colon, Callback reads from the state that Redirect sends along the return path that Redirect
-- found safe.
pub verify_signed_state-redirect_state :
    (signer : Signer) (h : AuthHandler) (nonce next : Text)
    → ((t : Text) → signer.decode (signer.encode t) ≡ some t)
    → ((t : Text) → Without b'.' (signer.encode t))
    → ((t : Text) → is_empty t ≡ false → is_empty (signer.encode t) ≡ false)
    → Without b':' nonce
    → verify_signed_state signer h (redirect_state signer h nonce next)
      ≡ some (safe_return_path next)
unfolding redirect_state signed_state
verify_signed_state-redirect_state signer h nonce next decodes no_dot not_empty no_colon =
    let t = nonce ++ (b':' ∷ safe_return_path next) in
    verify-payload signer h (signer.encode t) (no_dot t)
      (not_empty t (filled nonce (safe_return_path next)))
    ∙ ap path_of (decodes t)
    ∙ path_of-some nonce (safe_return_path next) no_colon
    ∙ ap some (safe_return_path_idem next)
