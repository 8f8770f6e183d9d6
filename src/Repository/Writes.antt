-- ===== src/Repository/Writes.antt =====
-- The methods of file_repo.go that change a plugin. Each holds the write lock from its first read to
-- its last write, and is one step of the model. `now` is what time.Now gives in it.
use semrel_registry.Prelude.{
  Option, none, some, List, [], ◌∷◌, ◌++◌, map, any, not, ◌||◌, is_some, if◌then◌else◌,
}
use semrel_registry.Prelude.Int.{ℤ, pos, eq_ℤ, ltb_ℤ, add64}
use semrel_registry.Text.{Text, text_eq}
use semrel_registry.Models.{
  Time, Plugin, PluginVersion, SecurityAdvisory, PluginDeletionSpec, VersionDeletionSpec,
  VersionPurgeSpec, VersionYankSpec, ReviewOutcomeSpec, AccountDeletionAudit,
}
use semrel_registry.Result.{
  Exec, pure, raise, lift, gets, modify, plugin_not_found, duplicate_plugin, unsupported_storage,
  ◌>>=◌, ◌>>◌, reject_if,
}
use semrel_registry.Repository.Versions.{sort_added}
use semrel_registry.Repository.Identity.{normalize_aliases, ensure_unique_identity}
use semrel_registry.Repository.Disk.{Disk, access, load_meta, save_meta, save_plugin}
use semrel_registry.Repository.Reads.{load_all, load_live}

-- Create; the caller's plugin comes back with its new fields
unfoldable pub create : Time → Plugin → Exec Disk ℤ
create now plugin = do
  plugins ← load_all
  let candidate = record plugin { aliases = normalize_aliases plugin.aliases }
  lift (ensure_unique_identity plugins candidate (pos 0))
  meta ← load_meta
  save_meta (record meta { next_plugin_id = add64 meta.next_plugin_id (pos 1) })
  save_plugin (record candidate { id = meta.next_plugin_id; created_at = now; updated_at = now })
  pure meta.next_plugin_id

-- the fields that Update takes over from its argument
abbrev pub updated : Plugin → Plugin → Time → Plugin
updated existing plugin now = record existing {
  namespace = plugin.namespace;
  name = plugin.name;
  aliases = plugin.aliases;
  description = plugin.description;
  author = plugin.author;
  category = plugin.category;
  repository = plugin.repository;
  license = plugin.license;
  tags = plugin.tags;
  updated_at = now;
}

-- Update
unfoldable pub update : Time → Plugin → Exec Disk (Unit {0})
update now plugin = do
  existing ← load_live plugin.id
  plugins ← load_all
  let candidate = record plugin { aliases = normalize_aliases plugin.aliases }
  lift (ensure_unique_identity plugins candidate candidate.id)
  save_plugin (updated existing candidate now)

-- UpdateStatus
unfoldable pub update_status : Time → ℤ → Text → Exec Disk (Unit {0})
update_status now id status = do
  p ← load_live id
  save_plugin (record p { status = status; updated_at = now })

-- UpdateValidationChecks; the checks are JSON that the callers have marshalled, so that the encoder
-- of savePlugin takes them.
unfoldable pub update_validation_checks : Time → ℤ → Text → Exec Disk (Unit {0})
update_validation_checks now id checks = do
  p ← load_live id
  save_plugin (record p { validation_checks = checks; validated_at = some now; updated_at = now })

abbrev pub or_empty : Option (List SecurityAdvisory) → List SecurityAdvisory
or_empty none = []
or_empty (some as') = as'

-- SetSecurityAdvisories
unfoldable pub set_security_advisories :
    Time → ℤ → Option (List SecurityAdvisory) → Exec Disk (Unit {0})
set_security_advisories now id advisories = do
  p ← load_live id
  save_plugin (record p {
    security_advisories = some (or_empty advisories);
    advisories_checked_at = some now;
  })

-- the deletion marks on a version
abbrev pub mark_deleted : Time → Text → Text → PluginVersion → PluginVersion
mark_deleted now by reason v = record v {
  deleted_at = some now;
  deleted_by = by;
  deletion_reason = reason;
}

abbrev pub cascade : Time → Text → Text → PluginVersion → PluginVersion
cascade now by reason v = if is_some v.deleted_at then v else mark_deleted now by reason v

-- Delete, which marks the plugin and, if asked to, its versions
unfoldable pub delete : Time → PluginDeletionSpec → Exec Disk (Unit {0})
delete now spec = do
  p ← load_live spec.plugin_id
  save_plugin (record p {
    author = if spec.anonymize_author then [] else p.author;
    versions =
        if spec.cascade_versions
        then map (cascade now spec.deleted_by spec.reason) p.versions
        else p.versions;
    updated_at = now;
    deleted_at = some now;
    deleted_by = spec.deleted_by;
    deletion_reason = spec.reason;
  })

-- the loop of DeleteVersion, which ends at the first version with the number: `none` if there is
-- none, or if that one is deleted
unfoldable pub delete_first :
    Time → VersionDeletionSpec → List PluginVersion → Option (List PluginVersion)
delete_first now spec [] = none
delete_first now spec (v ∷ vs) =
    let later = delete_first now spec vs in
    if eq_ℤ v.id spec.version_id
    then if is_some v.deleted_at
      then none
      else some (mark_deleted now spec.deleted_by spec.reason v ∷ vs)
    else elim later [ none ↦ none | some ws ↦ some (v ∷ ws) ]

abbrev pub or_absent : {A : Type 0} → Option A → Exec Disk A
or_absent none = raise plugin_not_found
or_absent (some a) = pure a

-- DeleteVersion
unfoldable pub delete_version : Time → VersionDeletionSpec → Exec Disk (Unit {0})
unfolding delete_first
delete_version now spec = do
  p ← load_live spec.plugin_id
  vs ← or_absent (delete_first now spec p.versions)
  save_plugin (record p { versions = vs; updated_at = now })

-- HardDeleteVersion
unfoldable pub hard_delete_version : VersionPurgeSpec → Exec Disk (Unit {0})
hard_delete_version spec = raise unsupported_storage

-- RecordAccountDeletion
unfoldable pub record_account_deletion : AccountDeletionAudit → Exec Disk (Unit {0})
unfolding access
record_account_deletion audit = do
  access
  events ← gets (λ s. s.audits)
  access
  modify (λ s. record s { audits = events ++ audit ∷ [] })

-- the loop of IncrCounters over the versions
unfoldable pub count_version : ℤ → ℤ → ℤ → List PluginVersion → List PluginVersion
count_version id views downloads [] = []
count_version id views downloads (v ∷ vs) =
    let later = count_version id views downloads vs in
    if eq_ℤ v.id id
    then record v { views = add64 v.views views; downloads = add64 v.downloads downloads } ∷ vs
    else v ∷ later

-- IncrCounters
unfoldable pub incr_counters : Time → ℤ → ℤ → ℤ → ℤ → Exec Disk (Unit {0})
unfolding count_version
incr_counters now id version_id views downloads = do
  p ← load_live id
  save_plugin (record p {
    versions =
        if ltb_ℤ (pos 0) version_id
        then count_version version_id views downloads p.versions
        else p.versions;
    views = add64 p.views views;
    downloads = add64 p.downloads downloads;
    updated_at = now;
  })

-- AddVersion
unfoldable pub add_version : Time → PluginVersion → Exec Disk ℤ
add_version now version = do
  p ← load_live version.plugin_id
  reject_if (any (λ v. text_eq v.version version.version) p.versions) duplicate_plugin
  meta ← load_meta
  save_meta (record meta { next_version_id = add64 meta.next_version_id (pos 1) })
  let added = record version { id = meta.next_version_id; created_at = now }
  save_plugin (record p { versions = sort_added (p.versions ++ added ∷ []) })
  pure meta.next_version_id

-- the marks that SetVersionYank sets, or clears, on a version
abbrev pub first_yank : Option Time → Time → Option Time
first_yank none now = some now
first_yank (some t) now = some t

abbrev pub yank_marks : Time → VersionYankSpec → PluginVersion → PluginVersion
yank_marks now spec v =
    if spec.yanked
    then record v {
      yanked_at = first_yank v.yanked_at now;
      yanked_by = spec.actor;
      yanked_reason = spec.reason;
    }
    else record v { yanked_at = none; yanked_by = []; yanked_reason = [] }

-- the loop of SetVersionYank: it passes over versions that are deleted
unfoldable pub yank_first :
    Time → VersionYankSpec → List PluginVersion → Option (List PluginVersion)
yank_first now spec [] = none
yank_first now spec (v ∷ vs) =
    let later = yank_first now spec vs in
    if not (eq_ℤ v.id spec.version_id) || is_some v.deleted_at
    then elim later [ none ↦ none | some ws ↦ some (v ∷ ws) ]
    else some (yank_marks now spec v ∷ vs)

-- SetVersionYank
unfoldable pub set_version_yank : Time → VersionYankSpec → Exec Disk (Unit {0})
unfolding yank_first
set_version_yank now spec = do
  p ← load_live spec.plugin_id
  vs ← or_absent (yank_first now spec p.versions)
  save_plugin (record p { versions = vs; updated_at = now })

-- SetReviewOutcome
unfoldable pub set_review_outcome : Time → ReviewOutcomeSpec → Exec Disk (Unit {0})
set_review_outcome now spec = do
  p ← load_live spec.plugin_id
  save_plugin (record p {
    status = spec.status;
    updated_at = now;
    rejection_reason = spec.reason;
    reviewed_at = some now;
    reviewed_by = spec.reviewer;
  })
