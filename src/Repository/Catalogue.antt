-- ===== src/Repository/Catalogue.antt =====
-- An abstract view of the file-backed repository of api/repository/file_repo.go, a function from
-- numbers to plugins, and what the methods that change one plugin by its number mean there.
pub mod Refinement
use semrel_registry.Prelude.{
  Bool, true, false, Option, none, some, List, [], ◌∷◌, map, is_some, if◌then◌else◌,
}
use semrel_registry.Prelude.Int.{ℤ, pos, eq_ℤ, ltb_ℤ, add64}
use semrel_registry.Text.{Text}
use semrel_registry.Models.{
  Time, Plugin, PluginVersion, SecurityAdvisory, PluginDeletionSpec, VersionDeletionSpec,
  VersionYankSpec, ReviewOutcomeSpec,
}
use semrel_registry.Result.{Result, ok, err, plugin_not_found, Exec}
use semrel_registry.Repository.Versions.{refresh_latest}
use semrel_registry.Repository.Disk.{Disk, lookup, to_json}
use semrel_registry.Repository.Writes.{
  update_status, update_validation_checks, set_security_advisories, delete, delete_version,
  incr_counters, set_version_yank, set_review_outcome, cascade, delete_first, count_version,
  yank_first, or_empty,
}

abbrev pub Catalogue : Type 0
Catalogue = ℤ → Option Plugin

-- the view of a data directory, which forgets the order of the files, the other files and the faults
abbrev pub catalogue_of : Disk → Catalogue
catalogue_of s k = lookup k s.plugins

-- A change of one plugin by its number.
pub data Edit : Type 0 where
  sets_status : ℤ → Text → Edit
  sets_checks : ℤ → Text → Edit
  sets_advisories : ℤ → Option (List SecurityAdvisory) → Edit
  deletes : PluginDeletionSpec → Edit
  deletes_version : VersionDeletionSpec → Edit
  counts : ℤ → ℤ → ℤ → ℤ → Edit
  yanks : VersionYankSpec → Edit
  reviews : ReviewOutcomeSpec → Edit

-- the method that makes the change
unfoldable pub perform : Time → Edit → Exec Disk (Unit {0})
perform now (sets_status id status) = update_status now id status
perform now (sets_checks id checks) = update_validation_checks now id checks
perform now (sets_advisories id as') = set_security_advisories now id as'
perform now (deletes spec) = delete now spec
perform now (deletes_version spec) = delete_version now spec
perform now (counts id version views downloads) = incr_counters now id version views downloads
perform now (yanks spec) = set_version_yank now spec
perform now (reviews spec) = set_review_outcome now spec

-- the number of the plugin that is meant
abbrev pub target : Edit → ℤ
target (sets_status id status) = id
target (sets_checks id checks) = id
target (sets_advisories id as') = id
target (deletes spec) = spec.plugin_id
target (deletes_version spec) = spec.plugin_id
target (counts id version views downloads) = id
target (yanks spec) = spec.plugin_id
target (reviews spec) = spec.plugin_id

abbrev pub or_not_there : Option Plugin → Result Plugin
or_not_there none = err plugin_not_found
or_not_there (some p) = ok p

abbrev pub with_versions : Plugin → Time → Option (List PluginVersion) → Option Plugin
with_versions p now none = none
with_versions p now (some vs) = some (record p { versions = vs; updated_at = now })

-- The plugin that takes the place of a live one.
unfoldable pub edited : Time → Edit → Plugin → Result Plugin
unfolding delete_first yank_first count_version
edited now (sets_status id status) p = ok (record p { status = status; updated_at = now })
edited now (sets_checks id checks) p =
    ok (record p { validation_checks = checks; validated_at = some now; updated_at = now })
edited now (sets_advisories id as') p =
    ok (record p { security_advisories = some (or_empty as'); advisories_checked_at = some now })
edited now (deletes spec) p = ok (record p {
  author = if spec.anonymize_author then [] else p.author;
  versions =
      if spec.cascade_versions
      then map (cascade now spec.deleted_by spec.reason) p.versions
      else p.versions;
  updated_at = now;
  deleted_at = some now;
  deleted_by = spec.deleted_by;
  deletion_reason = spec.reason;
})
edited now (deletes_version spec) p =
    or_not_there (with_versions p now (delete_first now spec p.versions))
edited now (counts id version views downloads) p = ok (record p {
  versions =
      if ltb_ℤ (pos 0) version
      then count_version version views downloads p.versions
      else p.versions;
  views = add64 p.views views;
  downloads = add64 p.downloads downloads;
  updated_at = now;
})
edited now (yanks spec) p = or_not_there (with_versions p now (yank_first now spec p.versions))
edited now (reviews spec) p = ok (record p {
  status = spec.status;
  updated_at = now;
  rejection_reason = spec.reason;
  reviewed_at = some now;
  reviewed_by = spec.reviewer;
})

abbrev pub put : ℤ → Plugin → Catalogue → Catalogue
put k p cat j = if eq_ℤ k j then some p else cat j

abbrev pub store : ℤ → Catalogue → Result Plugin → Result (Unit {0}) × Catalogue
store k cat (ok p) = (ok tt, put k p cat)
store k cat (err e) = (err e, cat)

abbrev pub readable : Option Plugin → Result Plugin
readable none = err plugin_not_found
readable (some p) = if is_some p.deleted_at then err plugin_not_found else ok (refresh_latest p)

abbrev pub then_edit : Result Plugin → (Plugin → Result Plugin) → Result Plugin
then_edit (ok p) f = f p
then_edit (err e) f = err e

abbrev pub as_stored : Result Plugin → Result Plugin
as_stored (ok p) = ok (to_json p)
as_stored (err e) = err e

-- What a change means on the catalogue: the plugin of the number, if it is live, is replaced.
unfoldable pub specified : Time → Edit → Catalogue → Result (Unit {0}) × Catalogue
unfolding edited
specified now e cat =
    store (target e) cat (as_stored (then_edit (readable (cat (target e))) (edited now e)))
