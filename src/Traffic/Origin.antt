-- ===== src/Traffic/Origin.antt =====
-- api/middleware/origin.go: which state-changing requests the Origin header keeps out.
use semrel_registry.Prelude.{
  Bool, false, Option, none, some, List, [], ◌∷◌, ◌++◌, any, not, ◌||◌, ◌&&◌, if◌then◌else◌,
}
use semrel_registry.Text.{Text, text, text_eq, trim_space, trim_suffix, equal_fold, is_empty}
use semrel_registry.Naming.{Url, UrlParser}

-- the parts of a request that VerifyOrigin reads; the header is empty where there is none
pub record OriginRequest : Type 0 where
  pub method : Text
  pub origin : Text
  pub host : Text

abbrev pub is_read : Text → Bool
is_read m = text_eq m (text "GET") || text_eq m (text "HEAD") || text_eq m (text "OPTIONS")

-- sameOrigin
unfoldable pub same_origin : UrlParser → Text → Text → Bool
same_origin urls origin host = elim (urls.parse origin) [
  | none ↦ false
  | some u ↦ if is_empty u.host then false else equal_fold u.host host
]

-- originAllowed
unfoldable pub origin_allowed : Text → List Text → Bool
origin_allowed origin allowed = any (λ candidate. equal_fold candidate origin) allowed

abbrev pub normal_origin : Text → Option Url → Text
normal_origin origin none = trim_suffix origin (text "/")
normal_origin origin (some u) =
    if not (is_empty u.scheme) && not (is_empty u.host)
    then u.scheme ++ (text "://" ++ u.host)
    else trim_suffix origin (text "/")

-- normalizeOrigins
unfoldable pub normalize_origins : UrlParser → List Text → List Text
normalize_origins urls [] = []
normalize_origins urls (raw ∷ origins) =
    let origin = trim_space raw in
    let rest = normalize_origins urls origins in
    if is_empty origin || text_eq origin (text "*")
    then rest
    else normal_origin origin (urls.parse origin) ∷ rest

-- VerifyOrigin: whether the request goes on to the handler
unfoldable pub verify_origin : UrlParser → List Text → OriginRequest → Bool
unfolding same_origin origin_allowed normalize_origins
verify_origin urls allowed_origins r =
    let origin = trim_space r.origin in
    is_read r.method
    || is_empty origin
    || text_eq origin (text "null")
    || origin_allowed origin (normalize_origins urls allowed_origins)
    || same_origin urls origin r.host
