-- ===== src/Service/Removal.antt =====
-- The operations of PluginService that remove: DeletePlugin, DeletePluginWithRequest,
-- DeleteVersion, DeleteVersionWithRequest, HardDeleteVersion and DeleteAccount.
pub mod Ownership
pub mod Refusal
use semrel_registry.Prelude.{
  true, false, Option, none, some, List, [], ◌∷◌, ◌++◌, ◌&&◌, not, ◌+◌, suc, if◌then◌else◌, is_some,
  length, ltb,
}
use semrel_registry.Prelude.Int.{ℤ, pos}
use semrel_registry.Text.{Text, text, is_empty, equal_fold}
use semrel_registry.Models.{
  Time, Plugin, PluginVersion, ref, DeleteActor, PluginDeletionRequest, VersionDeletionRequest,
  AccountDeletionRequest, AccountDeletionResult,
}
use semrel_registry.Result.{
  Exec, pure, raise, lift, validation, forbidden, plugin_not_found, ◌>>=◌, ◌>>◌, reject_if,
}
use semrel_registry.Naming.{UrlParser, first_party_namespace, first_party_by_repository_url}
use semrel_registry.Repository.Filters.{Filter}
use semrel_registry.Repository.Interface.{PluginRepository}
use semrel_registry.Service.Normal.{
  normalize_plugin_deletion, normalize_version_deletion, normalize_account_deletion,
}
use semrel_registry.Service.Validation.{
  validate_plugin_ref, validate_delete_actor, validate_plugin_deletion, validate_version_deletion,
  validate_account_deletion, ensure_delete_ownership,
}
use semrel_registry.Service.Lookup.{lookup_plugin, version_with}

-- the confirmation that the removal of a version asks for
unfoldable pub version_ref : Plugin → PluginVersion → Text
version_ref p v = ref p ++ (b'@' ∷ v.version)

-- the reason that DeleteAccount gives for each plugin
abbrev account_reason : Text → Text
account_reason reason =
    if is_empty reason then text "account deletion" else text "account deletion: " ++ reason

module _ {S : Type 0} (repo : PluginRepository S) where
  -- DeletePlugin
  unfoldable pub delete_plugin : Text → Exec S (Unit {0})
  delete_plugin name = do
    lift (validate_plugin_ref name)
    p ← lookup_plugin repo name
    repo.delete (record {
      plugin_id = p.id;
      deleted_by = [];
      reason = [];
      confirmation = [];
      cascade_versions = false;
      anonymize_author = false;
    })

  -- what DeletePluginWithRequest does with the plugin that it has found
  unfoldable pub remove_plugin : PluginDeletionRequest → DeleteActor → Plugin → Exec S (Unit {0})
  remove_plugin request actor p = do
    lift (ensure_delete_ownership p actor)
    reject_if (not (equal_fold request.confirmation (ref p))) (validation "confirmation")
    reject_if (ltb 0 (length p.versions) && not request.delete_versions)
        (validation "deleteVersions")
    repo.delete (record {
      plugin_id = p.id;
      deleted_by = actor.login;
      reason = request.reason;
      confirmation = request.confirmation;
      cascade_versions = true;
      anonymize_author = false;
    })

  -- DeletePluginWithRequest
  unfoldable pub delete_plugin_with_request :
      Text → PluginDeletionRequest → DeleteActor → Exec S (Unit {0})
  unfolding remove_plugin
  delete_plugin_with_request name raw actor = do
    lift (validate_plugin_ref name)
    let request = normalize_plugin_deletion raw
    lift (validate_delete_actor actor)
    lift (validate_plugin_deletion request)
    p ← lookup_plugin repo name
    remove_plugin request actor p

  -- DeleteVersion
  unfoldable pub delete_version : ℤ → ℤ → Exec S (Unit {0})
  delete_version plugin_id version_id = repo.delete_version (record {
    plugin_id = plugin_id;
    version_id = version_id;
    deleted_by = [];
    reason = [];
    confirmation = [];
  })

  -- the body of the loop of DeleteVersionWithRequest at the version with the number
  unfoldable pub remove_version :
      VersionDeletionRequest → DeleteActor → Plugin → ℤ → Option PluginVersion → Exec S (Unit {0})
  remove_version request actor p version_id none = raise plugin_not_found
  remove_version request actor p version_id (some v) = do
    reject_if (not (equal_fold request.confirmation (version_ref p v))) (validation "confirmation")
    repo.delete_version (record {
      plugin_id = p.id;
      version_id = version_id;
      deleted_by = actor.login;
      reason = request.reason;
      confirmation = request.confirmation;
    })

  -- DeleteVersionWithRequest
  unfoldable pub delete_version_with_request :
      Text → ℤ → VersionDeletionRequest → DeleteActor → Exec S (Unit {0})
  unfolding remove_version
  delete_version_with_request name version_id raw actor = do
    lift (validate_plugin_ref name)
    let request = normalize_version_deletion raw
    lift (validate_delete_actor actor)
    lift (validate_version_deletion request)
    p ← lookup_plugin repo name
    lift (ensure_delete_ownership p actor)
    versions ← repo.get_versions p.id
    remove_version request actor p version_id (version_with repo version_id versions)

  -- the body of the loop of HardDeleteVersion at the version with the number
  unfoldable pub purge_version :
      VersionDeletionRequest → DeleteActor → Plugin → ℤ → Option PluginVersion → Exec S (Unit {0})
  purge_version request actor p version_id none = raise plugin_not_found
  purge_version request actor p version_id (some v) = do
    reject_if (not (equal_fold request.confirmation (version_ref p v))) (validation "confirmation")
    repo.hard_delete_version (record {
      plugin_id = p.id;
      version_id = version_id;
      plugin_ref = ref p;
      deleted_by = actor.login;
      reason = request.reason;
      confirmation = request.confirmation;
    })

  -- HardDeleteVersion
  unfoldable pub hard_delete_version :
      UrlParser → Text → ℤ → VersionDeletionRequest → DeleteActor → Exec S (Unit {0})
  unfolding purge_version
  hard_delete_version urls name version_id raw actor = do
    lift (validate_plugin_ref name)
    reject_if (not actor.is_admin) forbidden
    let request = normalize_version_deletion raw
    lift (validate_delete_actor actor)
    lift (validate_version_deletion request)
    reject_if (is_empty request.reason) (validation "reason")
    p ← lookup_plugin repo name
    reject_if (equal_fold p.namespace first_party_namespace) forbidden
    reject_if (is_some (first_party_by_repository_url urls p.repository)) forbidden
    purge_version request actor p version_id (version_with repo version_id p.versions)

  -- the loop of DeleteAccount
  unfoldable pub delete_owned :
      AccountDeletionRequest
      → DeleteActor
      → AccountDeletionResult
      → List Plugin
      → Exec S AccountDeletionResult
  delete_owned request actor result [] = pure result
  delete_owned request actor result (p ∷ ps) = do
    repo.set_notify_email p.id []
    repo.delete (record {
      plugin_id = p.id;
      deleted_by = actor.login;
      reason = account_reason request.reason;
      confirmation = request.confirmation;
      cascade_versions = true;
      anonymize_author = true;
    })
    delete_owned request actor
        (record {
          plugins_deleted = suc result.plugins_deleted;
          versions_deleted = result.versions_deleted + length p.versions;
        })
        ps

  -- DeleteAccount
  unfoldable pub delete_account :
      Time → AccountDeletionRequest → DeleteActor → Exec S AccountDeletionResult
  unfolding delete_owned
  delete_account now raw actor = do
    let request = normalize_account_deletion raw
    lift (validate_delete_actor actor)
    lift (validate_account_deletion request actor.login)
    plugins ← repo.get_all (pos 0) (pos 0) (Filter.author_filter actor.login ∷ [])
    reject_if (ltb 0 (length plugins) && not request.delete_owned_plugins)
        (validation "deleteOwnedPlugins")
    result ←
        delete_owned request actor (record { plugins_deleted = 0; versions_deleted = 0 }) plugins
    repo.record_account_deletion (record {
      login = actor.login;
      deleted_by = actor.login;
      reason = request.reason;
      confirmation = request.confirmation;
      plugins_deleted = result.plugins_deleted;
      versions_deleted = result.versions_deleted;
      created_at = now;
    })
    pure result
