-- ===== src/Repository/Versions.antt =====
-- The order of a plugin's versions in file_repo.go, and its latest release.
pub mod Latest
use semrel_registry.Prelude.{
  Bool, true, false, Option, none, some, List, [], ◌∷◌, if◌then◌else◌, is_some, ◌||◌, ◌&&◌, not,
  ltb, ◌==◌, find,
}
use semrel_registry.Text.{Text, text_lt}
use semrel_registry.Sort.{sort_slice}
use semrel_registry.Models.{Time, PluginVersion, Plugin}

-- the last two tests of the comparison in sortPluginVersions, where neither has a release date
abbrev newer_entry : PluginVersion → PluginVersion → Bool
newer_entry l r =
    if l.created_at == r.created_at
    then text_lt r.version l.version
    else ltb r.created_at l.created_at

-- its tests on the release dates; `rest` is what follows them
abbrev newer_date : Option Time → Option Time → Bool → Bool
newer_date (some a) (some b) rest = if a == b then true else ltb b a
newer_date (some a) none rest = true
newer_date none (some b) rest = false
newer_date none none rest = rest

-- the comparison of sortPluginVersions
abbrev pub goes_first : PluginVersion → PluginVersion → Bool
goes_first l r = newer_date l.release_date r.release_date (newer_entry l r)

unfoldable pub sort_plugin_versions : List PluginVersion → List PluginVersion
sort_plugin_versions = sort_slice goes_first

-- the comparison of the sort in AddVersion
abbrev added_date : Option Time → Option Time → Bool → Bool
added_date (some a) (some b) rest = if a == b then rest else ltb b a
added_date (some a) none rest = true
added_date none (some b) rest = false
added_date none none rest = rest

unfoldable pub sort_added : List PluginVersion → List PluginVersion
sort_added =
    sort_slice (λ l r. added_date l.release_date r.release_date (ltb r.created_at l.created_at))

-- a version that latestStable does not skip
abbrev pub is_installable : PluginVersion → Bool
is_installable v = not (v.prerelease || is_some v.deleted_at || is_some v.yanked_at)

-- latestStable of the repository, and LatestInstallableVersion of the service
unfoldable pub latest_stable : List PluginVersion → Option PluginVersion
latest_stable = find is_installable

abbrev pub version_of : Option PluginVersion → Text
version_of none = []
version_of (some v) = v.version

abbrev pub core_of : Option PluginVersion → Text
core_of none = []
core_of (some v) = v.semrel_core

-- refreshLatest
unfoldable pub refresh_latest : Plugin → Plugin
refresh_latest p =
    let sorted = sort_plugin_versions p.versions in
    let latest = latest_stable sorted in
    record p {
      versions = sorted;
      latest_version = version_of latest;
      latest_semrel_core = core_of latest;
    }
