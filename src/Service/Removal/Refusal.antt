-- ===== src/Service/Removal/Refusal.antt =====
-- What a removal that is refused or that fails leaves in the data directory.
use semrel_registry.Prelude.{◌≡◌, refl, ◌⊎◌, inl, inr, Option, none, some}
use semrel_registry.Prelude.Int.{ℤ}
use semrel_registry.Text.{Text}
use semrel_registry.Models.{
  Time, Plugin, PluginVersion, DeleteActor, PluginDeletionRequest, VersionDeletionRequest,
}
use semrel_registry.Result.{Result, ok, err, AppError}
use semrel_registry.Result.Triple.{Ends}
use semrel_registry.Result.Keeping.{Atomic, Atomic-bind, Keeps-lift, Keeps-reject_if, Atomic-raise}
use semrel_registry.Repository.Disk.{Disk, Files}
use semrel_registry.Repository.Interface.{file_repository}
use semrel_registry.Repository.Atomicity.{
  HasFiles, get_versions-Keeps, delete-Atomic, delete_version-Atomic,
}
use semrel_registry.Service.Lookup.{lookup_plugin}
use semrel_registry.Service.Lookup.Files.{lookup_plugin-Keeps}
use semrel_registry.Service.Removal.{
  delete_plugin_with_request, remove_plugin, delete_version_with_request, remove_version,
}
use semrel_registry.Service.Removal.Ownership.{
  MayRemove, MayRemoveVersion, delete_plugin_with_request-ok, delete_version_with_request-ok,
}

-- On the file-backed repository a refused or failed removal leaves the files.
module _ (now : Time) {files : Files} where
  remove_plugin-Atomic :
      (request : PluginDeletionRequest) (actor : DeleteActor) (p : Plugin)
      → Atomic (HasFiles files) (remove_plugin (file_repository now) request actor p)
  unfolding remove_plugin
  remove_plugin-Atomic request actor p = Atomic-bind (Keeps-lift _) λ _.
      Atomic-bind (Keeps-reject_if _ _)
        λ _. Atomic-bind (Keeps-reject_if _ _) λ _. delete-Atomic now _

  remove_version-Atomic :
      (request : VersionDeletionRequest) (actor : DeleteActor) (p : Plugin) (id : ℤ)
      (o : Option PluginVersion)
      → Atomic (HasFiles files) (remove_version (file_repository now) request actor p id o)
  unfolding remove_version
  remove_version-Atomic request actor p id none = Atomic-raise AppError.plugin_not_found
  remove_version-Atomic request actor p id (some v) =
      Atomic-bind (Keeps-reject_if _ _) λ _. delete_version-Atomic now _

  delete_plugin_with_request-Atomic :
      (name : Text) (request : PluginDeletionRequest) (actor : DeleteActor)
      → Atomic
          (HasFiles files)
          (delete_plugin_with_request (file_repository now) name request actor)
  unfolding delete_plugin_with_request
  delete_plugin_with_request-Atomic name request actor = Atomic-bind (Keeps-lift _) λ _.
      Atomic-bind (Keeps-lift _) λ _.
        Atomic-bind (Keeps-lift _)
          λ _. Atomic-bind (lookup_plugin-Keeps now name) λ p. remove_plugin-Atomic _ actor p

  delete_version_with_request-Atomic :
      (name : Text) (id : ℤ) (request : VersionDeletionRequest) (actor : DeleteActor)
      → Atomic
          (HasFiles files)
          (delete_version_with_request (file_repository now) name id request actor)
  unfolding delete_version_with_request
  delete_version_with_request-Atomic name id request actor = Atomic-bind (Keeps-lift _) λ _.
      Atomic-bind (Keeps-lift _) λ _. Atomic-bind (Keeps-lift _) λ _.
        Atomic-bind (lookup_plugin-Keeps now name) λ p.
          Atomic-bind (Keeps-lift _)
            λ _. Atomic-bind (get_versions-Keeps p.id) λ vs. remove_version-Atomic _ actor p id _

unchanged_or :
    {A : Type 0} (r : Result (Unit {0})) (s t : Disk)
    → Ends (HasFiles s.plugins) (λ _ _. Unit) r t
    → (r ≡ ok tt → A)
    → (t.plugins ≡ s.plugins) ⊎ A
unchanged_or (ok u) s t h f = inr (f refl)
unchanged_or (err e) s t h f = inl h

-- After DeletePluginWithRequest on the file-backed repository, whatever accesses to files fail, the
-- plugin files are as before, or the request named a plugin, the actor is an administrator or the
-- plugin's author up to case, the confirmation is the plugin's reference up to case and white
-- space, and the plugin has no versions or the request asked to delete them.
pub delete_plugin_with_request-MayRemove :
    (now : Time) (name : Text) (request : PluginDeletionRequest) (actor : DeleteActor) (s : Disk)
    → ((delete_plugin_with_request (file_repository now) name request actor s).1.plugins
        ≡ s.plugins)
      ⊎ ((p : Plugin) × ((lookup_plugin (file_repository now) name s).0 ≡ ok p)
          × MayRemove p request actor)
delete_plugin_with_request-MayRemove now name request actor s =
    unchanged_or _ s _ ((delete_plugin_with_request-Atomic now name request actor).at s refl)
      (delete_plugin_with_request-ok _ name request actor s)

-- After DeleteVersionWithRequest on the file-backed repository, whatever accesses to files fail, the
-- plugin files are as before, or the request named a plugin and one of its versions that are not
-- deleted, the actor is an administrator or the plugin's author up to case, and the confirmation is
-- the plugin's reference, an @ and the version, up to case and white space.
pub delete_version_with_request-MayRemove :
    (now : Time) (name : Text) (id : ℤ) (request : VersionDeletionRequest) (actor : DeleteActor)
    (s : Disk)
    → ((delete_version_with_request (file_repository now) name id request actor s).1.plugins
        ≡ s.plugins)
      ⊎ MayRemoveVersion (file_repository now) name id request actor s
delete_version_with_request-MayRemove now name id request actor s =
    unchanged_or _ s _ ((delete_version_with_request-Atomic now name id request actor).at s refl)
      (delete_version_with_request-ok _ name id request actor s)
