-- ===== src/Service/Artifacts.antt =====
-- api/service/artifact_url.go: the URLs and the checksums that a version may carry. The list of the
-- allowed hosts, which is set at start-up, is an argument.
use semrel_registry.Prelude.{String, Bool, none, some, List, [], ◌∷◌, map, any, not, ◌||◌, keep_if}
use semrel_registry.Text.{
  Text, text, text_eq, equal_fold, to_lower, trim_space, is_empty, has_suffix, trim_prefix,
}
use semrel_registry.Result.{Result, err, validation, check, first_error}
use semrel_registry.Naming.{Url, UrlParser}
use semrel_registry.Service.Patterns.{matches_sha256}

abbrev pub default_hosts : List Text
default_hosts =
    map text
      ("github.com" ∷ "objects.githubusercontent.com" ∷ "release-assets.githubusercontent.com" ∷ [])

-- SetAllowedArtifactHosts: the new list
unfoldable pub set_allowed_artifact_hosts : List Text → List Text → List Text
set_allowed_artifact_hosts hosts current =
    elim (keep_if (λ h. not (is_empty h)) (map (λ h. to_lower (trim_space h)) hosts)) [
      | [] ↦ current
      | h ∷ hs ↦ h ∷ hs
    ]

-- hostAllowed
unfoldable pub host_allowed : List Text → Text → Bool
host_allowed allowed host = any (λ a. text_eq host a || has_suffix host (b'.' ∷ a)) allowed

-- the tests of validateArtifactURL on the parsed URL
unfoldable pub check_url : List Text → String → Url → Result (Unit {0})
unfolding host_allowed
check_url allowed field u =
    let host = to_lower u.hostname in
    first_error (
      check (not (equal_fold u.scheme (text "https"))) (validation field)
      ∷ check u.has_user (validation field)
      ∷ check (is_empty host) (validation field)
      ∷ check (not (host_allowed allowed host)) (validation field)
      ∷ [])

-- validateArtifactURL
unfoldable pub validate_artifact_url : UrlParser → List Text → String → Text → Result (Unit {0})
unfolding check_url
validate_artifact_url urls allowed field raw = elim (urls.parse raw) [
  | none ↦ err (validation field)
  | some u ↦ check_url allowed field u
]

-- validateChecksum
unfoldable pub validate_checksum : Text → Result (Unit {0})
unfolding matches_sha256
validate_checksum value =
    check (not (matches_sha256 (trim_prefix (trim_prefix value (text "sha256:")) (text "SHA256:"))))
      (validation "checksums")
