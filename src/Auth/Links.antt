-- ===== src/Auth/Links.antt =====
-- The return path that a sign-in carries through GitHub, in api/handlers/auth.go. HMAC-SHA256 and
-- base64.RawURLEncoding are parameters; `nonce` is the random text of signedState.
use semrel_registry.Prelude.{
  Bool, Option, none, some, [], ◌∷◌, ◌++◌, length, not, ◌||◌, if◌then◌else◌, ltb,
}
use semrel_registry.Text.{
  Text, text, text_eq, trim_space, has_prefix, contains, cut, trim_suffix, is_empty,
}
use semrel_registry.Auth.{AuthHandler}

pub record Signer : Type 0 where
  -- the hexadecimal HMAC-SHA256 of a payload under a key
  pub signature : Text → Text → Text
  pub encode : Text → Text
  pub decode : Text → Option Text

-- the tests of safeReturnPath on a trimmed path
unfoldable pub is_safe_path : Text → Bool
is_safe_path next = not (
    is_empty next
    || not (has_prefix next (text "/"))
    || has_prefix next (text "//")
    || contains next (text "\\")
    || contains next (text "..")
    || ltb 512 (length next))

-- safeReturnPath
unfoldable pub safe_return_path : Text → Text
unfolding is_safe_path
safe_return_path next = let path = trim_space next in if is_safe_path path then path else []

-- returnTarget
unfoldable pub return_target : AuthHandler → Text → Text
return_target h next =
    if is_empty next then h.frontend_url else trim_suffix h.frontend_url (text "/") ++ next

-- signedState
unfoldable pub signed_state : Signer → AuthHandler → Text → Text → Text
signed_state signer h nonce next =
    let payload = signer.encode (nonce ++ (b':' ∷ next)) in
    payload ++ (b'.' ∷ signer.signature h.jwt_secret payload)

-- the state that Redirect sends along
unfoldable pub redirect_state : Signer → AuthHandler → Text → Text → Text
unfolding signed_state safe_return_path
redirect_state signer h nonce next = signed_state signer h nonce (safe_return_path next)

unfoldable pub path_of : Option Text → Option Text
unfolding safe_return_path
path_of none = none
path_of (some decoded) = let (nonce, next, found) = cut b':' decoded in some (safe_return_path next)

-- verifySignedState; `none` is a state that it refuses
unfoldable pub verify_signed_state : Signer → AuthHandler → Text → Option Text
unfolding path_of
verify_signed_state signer h state =
    let (payload, sig, found) = cut b'.' state in
    if not found || is_empty payload
    then none
    else if text_eq (signer.signature h.jwt_secret payload) sig
    then path_of (signer.decode payload)
    else none
