-- ===== src/Service/Validation.antt =====
-- The validation of requests in plugin_service.go.
use semrel_registry.Prelude.{
  ℕ, String, Bool, true, false, Option, none, some, List, [], ◌∷◌, ◌++◌, map, not, ◌&&◌, ltb,
  length, if◌then◌else◌,
}
use semrel_registry.Text.{Text, text, trim_space, equal_fold, is_empty, cut, has_prefix}
use semrel_registry.Models.{
  Plugin, PluginVersion, PluginPatch, PluginDeletionRequest, VersionDeletionRequest,
  AccountDeletionRequest, DeleteActor, blank_plugin,
}
use semrel_registry.Result.{Result, ok, validation, forbidden, check, both_ok, first_error}
use semrel_registry.Naming.{UrlParser}
use semrel_registry.Service.Patterns.{matches_name, matches_namespace, matches_email}
use semrel_registry.Service.Artifacts.{validate_artifact_url, validate_checksum}

-- a limit on the length of a text
abbrev pub at_most : ℕ → String → Text → Result (Unit {0})
at_most n field t = check (ltb n (length t)) (validation field)

abbrev pub required : String → Text → Result (Unit {0})
required field t = check (is_empty t) (validation field)

-- the body of the loop of validateVersion over the checksums
unfoldable pub validate_entry : Text × Text → Result (Unit {0})
validate_entry e = first_error (
    required "checksums" (trim_space e.0)
    ∷ required "checksums" e.1
    ∷ at_most 255 "checksums" e.1
    ∷ validate_checksum e.1
    ∷ [])

abbrev has_none : {A : Type 0} → List A → Bool
has_none [] = true
has_none (x ∷ xs) = false

-- validateVersion
unfoldable pub validate_version : UrlParser → List Text → PluginVersion → Result (Unit {0})
unfolding validate_entry
validate_version urls hosts v = first_error (
    required "version" v.version
    ∷ at_most 50 "version" v.version
    ∷ required "downloadUrl" v.download_url
    ∷ validate_artifact_url urls hosts "downloadUrl" v.download_url
    ∷ at_most 20000 "changelog" v.changelog
    ∷ check (has_none v.checksums) (validation "checksums")
    ∷ map validate_entry v.checksums)

-- the second condition on an alias in validatePlugin
unfoldable pub alias_allowed : Text → Bool
alias_allowed a =
    let parts = cut b'/' a in
    if has_prefix a (text "@")
    then parts.2 && matches_namespace parts.0 && matches_name parts.1
    else matches_name a

abbrev validate_alias : Text → Result (Unit {0})
validate_alias a =
    both_ok (at_most 356 "aliases" a) (check (not (alias_allowed a)) (validation "aliases"))

-- the checks of validatePlugin on a namespace and on a name that are not empty
unfoldable pub validate_namespace : Text → Result (Unit {0})
validate_namespace ns =
    if is_empty ns
    then ok tt
    else both_ok (at_most 100 "namespace" ns)
        (check (not (matches_namespace ns)) (validation "namespace"))

unfoldable pub validate_name : List Text → Text → Result (Unit {0})
unfolding alias_allowed
validate_name aliases name =
    if is_empty name
    then ok tt
    else first_error (
        at_most 255 "name" name
        ∷ first_error (map validate_alias aliases)
        ∷ check (not (matches_name name)) (validation "name")
        ∷ [])

-- validatePlugin
unfoldable pub validate_plugin : UrlParser → List Text → Bool → Plugin → Result (Unit {0})
unfolding validate_namespace validate_name validate_version
validate_plugin urls hosts require_name p = first_error (
    validate_namespace p.namespace
    ∷ check (require_name && is_empty p.name) (validation "name")
    ∷ validate_name p.aliases p.name
    ∷ required "category" p.category
    ∷ at_most 4000 "description" p.description
    ∷ at_most 255 "author" p.author
    ∷ at_most 50 "category" p.category
    ∷ check (not (matches_name p.category)) (validation "category")
    ∷ at_most 2048 "repository" p.repository
    ∷ at_most 50 "license" p.license
    ∷ first_error (map (at_most 100 "tags") p.tags)
    ∷ map (validate_version urls hosts) p.versions)

abbrev if_given : {A : Type 0} → Option A → (A → Result (Unit {0})) → Result (Unit {0})
if_given none f = ok tt
if_given (some a) f = f a

-- validatePatch
unfoldable pub validate_patch : UrlParser → List Text → PluginPatch → Result (Unit {0})
unfolding validate_plugin
validate_patch urls hosts p = first_error (
    if_given p.namespace validate_namespace
    ∷ if_given p.name (λ n.
      validate_plugin urls hosts true (record blank_plugin { name = n; category = text "patched" }))
    ∷ if_given p.aliases (λ as'.
      validate_plugin urls hosts true
        (record blank_plugin { name = text "patched"; category = text "patched"; aliases = as' }))
    ∷ if_given p.description (at_most 4000 "description")
    ∷ if_given p.author (at_most 255 "author")
    ∷ if_given p.category (λ c. first_error (
        required "category" c
        ∷ at_most 50 "category" c
        ∷ check (not (matches_name c)) (validation "category")
        ∷ []))
    ∷ if_given p.repository (at_most 2048 "repository")
    ∷ if_given p.license (at_most 50 "license")
    ∷ if_given p.tags (λ ts. first_error (map (at_most 100 "tags") ts))
    ∷ [])

-- validatePluginRef
unfoldable pub validate_plugin_ref : Text → Result (Unit {0})
validate_plugin_ref ref = required "id" (trim_space ref)

-- validateDeleteActor
unfoldable pub validate_delete_actor : DeleteActor → Result (Unit {0})
validate_delete_actor actor = check (is_empty (trim_space actor.login)) forbidden

-- ensureDeleteOwnership
unfoldable pub ensure_delete_ownership : Plugin → DeleteActor → Result (Unit {0})
ensure_delete_ownership p actor =
    if actor.is_admin then ok tt else check (not (equal_fold p.author actor.login)) forbidden

-- validatePluginDeletionRequest, validateVersionDeletionRequest
unfoldable pub validate_plugin_deletion : PluginDeletionRequest → Result (Unit {0})
validate_plugin_deletion r =
    both_ok (required "confirmation" r.confirmation) (at_most 1000 "reason" r.reason)

unfoldable pub validate_version_deletion : VersionDeletionRequest → Result (Unit {0})
validate_version_deletion r =
    both_ok (required "confirmation" r.confirmation) (at_most 1000 "reason" r.reason)

-- validateAccountDeletionRequest
unfoldable pub validate_account_deletion : AccountDeletionRequest → Text → Result (Unit {0})
validate_account_deletion r login = first_error (
    required "confirmation" r.confirmation
    ∷ check (not (equal_fold r.confirmation (text "DELETE " ++ trim_space login)))
        (validation "confirmation")
    ∷ required "reauthToken" r.reauth_token
    ∷ at_most 1000 "reason" r.reason
    ∷ [])

-- ValidateNotifyEmail of notify.go
unfoldable pub validate_notify_email : Text → Result (Unit {0})
unfolding matches_email
validate_notify_email address =
    let a = trim_space address in
    if is_empty a
    then ok tt
    else both_ok (at_most 254 "notifyEmail" a)
        (check (not (matches_email a)) (validation "notifyEmail"))
