-- ===== src/Service/Removal/Ownership.antt =====
-- Who may remove a plugin or a version, and what a refused request leaves.
use semrel_registry.Prelude.{
  ◌≡◌, refl, ◌⊎◌, inl, inr, Bool, true, false, not, List, [], ◌∷◌, Option, none, some, ltb, length,
  ◌&&◌, arith, Bool-cases,
}
use semrel_registry.Prelude.Int.{ℤ}
use semrel_registry.Text.{Text, trim_space, equal_fold}
use semrel_registry.Models.{
  Plugin, PluginVersion, ref, DeleteActor, PluginDeletionRequest, VersionDeletionRequest,
}
use semrel_registry.Result.{ok, raise}
use semrel_registry.Result.Success.{bind-ok, lift-ok, reject_if-ok}
use semrel_registry.Repository.Interface.{PluginRepository}
use semrel_registry.Service.Normal.{normalize_plugin_deletion, normalize_version_deletion}
use semrel_registry.Service.Validation.{ensure_delete_ownership}
use semrel_registry.Service.Lookup.{lookup_plugin, version_with}
use semrel_registry.Service.Removal.{
  delete_plugin_with_request, remove_plugin, delete_version_with_request, remove_version,
  version_ref,
}

-- The actor is an administrator or the author.
abbrev pub Owns : DeleteActor → Plugin → Type 0
Owns actor p = (actor.is_admin ≡ true) ⊎ (equal_fold p.author actor.login ≡ true)

ensure_delete_ownership-Owns :
    (p : Plugin) (actor : DeleteActor) → ensure_delete_ownership p actor ≡ ok tt → Owns actor p
unfolding ensure_delete_ownership
ensure_delete_ownership-Owns p actor h = elim (Bool-cases actor.is_admin) [
  | inl admin ↦ inl admin
  | inr other ↦ inr (ground (arith, other))
]

-- What a removal asks of the plugin that the request names.
pub record MayRemove (p : Plugin) (request : PluginDeletionRequest) (actor : DeleteActor)
    : Type 0 where
  pub owned : Owns actor p
  pub confirmed : equal_fold (trim_space request.confirmation) (ref p) ≡ true
  pub versions : (p.versions ≡ []) ⊎ (request.delete_versions ≡ true)

no_versions :
    (p : Plugin) (b : Bool)
    → (ltb 0 (length p.versions) && not b) ≡ false
    → (p.versions ≡ []) ⊎ (b ≡ true)
no_versions p true h = inr refl
no_versions p false h = elim (list_cases p.versions) [
  | inl e ↦ inl e
  | inr more ↦ absurd (ground (arith, more, h))
]
  where
    list_cases : (vs : List PluginVersion) → (vs ≡ []) ⊎ (ltb 0 (length vs) ≡ true)
    list_cases [] = inl refl
    list_cases (v ∷ vs) = inr (ground arith)

module _ {S : Type 0} (repo : PluginRepository S) where
  remove_plugin-ok :
      (request : PluginDeletionRequest) (actor : DeleteActor) (p : Plugin) (s : S)
      → (remove_plugin repo (normalize_plugin_deletion request) actor p s).0 ≡ ok tt
      → MayRemove p request actor
  unfolding remove_plugin normalize_plugin_deletion
  remove_plugin-ok request actor p s h =
      let (owned, h1) = lift-ok _ _ s tt h in
      let (confirmed, h2) = reject_if-ok _ _ _ s tt h1 in
      let (versions, h3) = reject_if-ok _ _ _ s tt h2 in
      record {
        owned = ensure_delete_ownership-Owns p actor owned;
        confirmed = ground (arith, confirmed);
        versions = no_versions p request.delete_versions versions;
      }

  pub delete_plugin_with_request-ok :
      (name : Text) (request : PluginDeletionRequest) (actor : DeleteActor) (s : S)
      → (delete_plugin_with_request repo name request actor s).0 ≡ ok tt
      → (p : Plugin) × ((lookup_plugin repo name s).0 ≡ ok p) × MayRemove p request actor
  unfolding delete_plugin_with_request
  delete_plugin_with_request-ok name request actor s h =
      let (named, h1) = lift-ok _ _ s tt h in
      let (known, h2) = lift-ok _ _ s tt h1 in
      let (valid, h3) = lift-ok _ _ s tt h2 in
      let (p, found, h4) = bind-ok _ _ s tt h3 in (p, found, remove_plugin-ok request actor p _ h4)

  -- The same for a version: it is one of those of the plugin that are not deleted.
  pub record MayRemoveVersion (name : Text) (id : ℤ) (request : VersionDeletionRequest)
      (actor : DeleteActor) (s : S) : Type 0 where
    pub plugin : Plugin
    pub found : (lookup_plugin repo name s).0 ≡ ok plugin
    pub owned : Owns actor plugin
    pub version : PluginVersion
    pub listed : List PluginVersion
    pub read : (repo.get_versions plugin.id (lookup_plugin repo name s).1).0 ≡ ok listed
    pub chosen : version_with repo id listed ≡ some version
    pub confirmed : equal_fold (trim_space request.confirmation) (version_ref plugin version) ≡ true

  remove_version-ok :
      (request : VersionDeletionRequest) (actor : DeleteActor) (p : Plugin) (id : ℤ)
      (o : Option PluginVersion) (s : S)
      → (remove_version repo (normalize_version_deletion request) actor p id o s).0 ≡ ok tt
      → (v : PluginVersion) × (o ≡ some v)
        × (equal_fold (trim_space request.confirmation) (version_ref p v) ≡ true)
  unfolding remove_version normalize_version_deletion raise
  remove_version-ok request actor p id none s h = cc
  remove_version-ok request actor p id (some v) s h =
      let (confirmed, h1) = reject_if-ok _ _ _ s tt h in (v, refl, ground (arith, confirmed))

  pub delete_version_with_request-ok :
      (name : Text) (id : ℤ) (request : VersionDeletionRequest) (actor : DeleteActor) (s : S)
      → (delete_version_with_request repo name id request actor s).0 ≡ ok tt
      → MayRemoveVersion name id request actor s
  unfolding delete_version_with_request
  delete_version_with_request-ok name id request actor s h =
      let (named, h1) = lift-ok _ _ s tt h in
      let (known, h2) = lift-ok _ _ s tt h1 in
      let (valid, h3) = lift-ok _ _ s tt h2 in
      let (p, found, h4) = bind-ok _ _ s tt h3 in
      let (owned, h5) = lift-ok _ _ _ tt h4 in
      let (vs, read, h6) = bind-ok _ _ _ tt h5 in
      let (v, chosen, confirmed) = remove_version-ok request actor p id _ _ h6 in
      record {
        plugin = p;
        found = found;
        owned = ensure_delete_ownership-Owns p actor owned;
        version = v;
        listed = vs;
        read = read;
        chosen = chosen;
        confirmed = confirmed;
      }
