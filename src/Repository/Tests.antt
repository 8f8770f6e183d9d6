-- ===== src/Repository/Tests.antt =====
-- The theorems on the data directory at a directory with one and two plugins.
use semrel_registry.Repository.Disk.{has_key}
use semrel_registry.Prelude.{
  ◌≡◌, refl, true, false, Option, some, none, List, [], ◌∷◌, arith, ◌⊎◌, any, All,
}
use semrel_registry.Prelude.Int.{ℤ, pos}
use semrel_registry.Text.{Text, text, text_eq, to_lower}
use semrel_registry.Models.{Time, Plugin, PluginVersion}
use semrel_registry.Repository.Disk.{Disk, empty_disk}
use semrel_registry.Repository.Catalogue.{sets_status, perform, specified, catalogue_of}
use semrel_registry.Repository.Catalogue.Refinement.{Refines, perform-Refines}
use semrel_registry.Sort.{sort_slice}
use semrel_registry.Repository.Versions.{
  sort_plugin_versions, is_installable, refresh_latest, latest_stable,
}
use semrel_registry.Repository.Versions.Latest.{
  IsLatest, refresh_latest-IsLatest, sort_plugin_versions-tie,
}
use semrel_registry.Repository.Identity.{ensure_unique_identity, clashes, mem}
use semrel_registry.Repository.Identity.Claims.{Apart, ensure_unique_identity-Apart}
use semrel_registry.Repository.Soundness.{IsSound}
use semrel_registry.Repository.Soundness.Uniqueness.{
  creates, after, call, here, next, Reach-IsSound, empty_disk-IsSound,
}

abbrev pub release_of : ℤ → Text → Option Time → PluginVersion
release_of id version date = record {
  id = id;
  plugin_id = pos 1;
  version = version;
  release_date = date;
  changelog = [];
  download_url = text "https://github.com/o/r/releases/a";
  checksums = [];
  semrel_core = [];
  prerelease = false;
  views = pos 0;
  downloads = pos 0;
  created_at = 0;
  deleted_at = none;
  deleted_by = [];
  deletion_reason = [];
  provenance = none;
  provenance_checked_at = none;
  yanked_at = none;
  yanked_by = [];
  yanked_reason = [];
}

abbrev pub plugin_of : Text → List PluginVersion → Plugin
plugin_of name versions = record {
  id = pos 0;
  namespace = [];
  name = name;
  aliases = [];
  description = [];
  author = text "ada";
  category = text "hook";
  repository = [];
  license = [];
  status = text "active";
  tags = [];
  versions = versions;
  latest_version = [];
  latest_semrel_core = [];
  views = pos 0;
  downloads = pos 0;
  validation_checks = [];
  validated_at = none;
  security_advisories = none;
  advisories_checked_at = none;
  created_at = 0;
  updated_at = 0;
  deleted_at = none;
  deleted_by = [];
  deletion_reason = [];
  rejection_reason = [];
  reviewed_at = none;
  reviewed_by = [];
}

abbrev pub old_release : PluginVersion
old_release = release_of (pos 1) (text "1.0.0") (some 5)

abbrev pub new_release : PluginVersion
new_release = release_of (pos 2) (text "1.1.0") (some 9)

abbrev pub alpha : Plugin
alpha = plugin_of (text "alpha") (old_release ∷ new_release ∷ [])

Reach-IsSound_example :
    IsSound (after 3 (creates alpha) (record empty_disk { faults = false ∷ true ∷ [] }))
Reach-IsSound_example =
    Reach-IsSound empty_disk-IsSound
      (next here (call 3 (creates alpha) (false ∷ true ∷ []) empty_disk (omega arith)))

refresh_latest-IsLatest_example :
    ((any is_installable alpha.versions ≡ false) × ((refresh_latest alpha).latest_version ≡ []))
    ⊎ ((v : PluginVersion) × IsLatest alpha.versions v
        × ((refresh_latest alpha).latest_version ≡ v.version)
        × ((refresh_latest alpha).latest_semrel_core ≡ v.semrel_core))
refresh_latest-IsLatest_example = refresh_latest-IsLatest alpha

latest_of_alpha : (refresh_latest alpha).latest_version ≡ text "1.1.0"
unfolding refresh_latest latest_stable sort_plugin_versions sort_slice
latest_of_alpha = refl

sort_plugin_versions-tie_example :
    sort_plugin_versions (old_release ∷ release_of (pos 3) (text "1.0.1") (some 5) ∷ [])
    ≡ release_of (pos 3) (text "1.0.1") (some 5) ∷ old_release ∷ []
sort_plugin_versions-tie_example =
    sort_plugin_versions-tie old_release (release_of (pos 3) (text "1.0.1") (some 5)) 5 refl refl

ensure_unique_identity-Apart_example :
    All (Apart (plugin_of (text "beta") []) (pos 0)) (record alpha { id = pos 1 } ∷ [])
unfolding ensure_unique_identity clashes mem text_eq to_lower
ensure_unique_identity-Apart_example =
    ensure_unique_identity-Apart (record alpha { id = pos 1 } ∷ []) (plugin_of (text "beta") [])
      (pos 0) refl

abbrev with_gamma : Disk
with_gamma = record empty_disk {
  plugins = (pos 1, record (plugin_of (text "gamma") []) { id = pos 1 }) ∷ [];
  faults = false ∷ [];
}

perform-Refines_example :
    Refines
      (perform 7 (sets_status (pos 1) (text "rejected")) with_gamma)
      (specified 7 (sets_status (pos 1) (text "rejected")) (catalogue_of with_gamma))
      with_gamma
unfolding has_key
perform-Refines_example =
    perform-Refines 7 (sets_status (pos 1) (text "rejected")) with_gamma (refl, refl, tt)
