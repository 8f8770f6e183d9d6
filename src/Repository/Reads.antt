-- ===== src/Repository/Reads.antt =====
-- The loading and the lookups of file_repo.go.
use semrel_registry.Prelude.{
  Option, none, some, List, [], ◌∷◌, ◌++◌, map, find, keep_if, not, ◌&&◌, is_some,
}
use semrel_registry.Prelude.Int.{ℤ}
use semrel_registry.Text.{Text, equal_fold, is_empty}
use semrel_registry.Models.{Plugin, PluginVersion, is_live}
use semrel_registry.Result.{Exec, pure, gets, plugin_not_found, ◌>>=◌, ◌>>◌, reject_if}
use semrel_registry.Repository.Versions.{refresh_latest}
use semrel_registry.Repository.Identity.{contains_fold}
use semrel_registry.Repository.Disk.{Disk, access, lookup, values, or_not_found}

-- fileStore.loadPlugin
unfoldable pub load_plugin : ℤ → Exec Disk Plugin
unfolding access lookup refresh_latest
load_plugin id = do
  access
  found ← gets (λ s. lookup id s.plugins)
  p ← or_not_found found
  pure (refresh_latest p)

-- fileStore.loadAll
unfoldable pub load_all : Exec Disk (List Plugin)
unfolding access refresh_latest
load_all = do access; gets (λ s. map refresh_latest (values s.plugins))

-- the load of a plugin and the test of DeletedAt behind it, with which most methods begin
unfoldable pub load_live : ℤ → Exec Disk Plugin
unfolding load_plugin
load_live id = do p ← load_plugin id; reject_if (is_some p.deleted_at) plugin_not_found; pure p

-- GetByID
unfoldable pub get_by_id : ℤ → Exec Disk Plugin
unfolding load_live
get_by_id id = load_live id

abbrev pub or_else : Option Plugin → Option Plugin → Option Plugin
or_else none o = o
or_else (some p) o = some p

-- the two loops of GetByName
unfoldable pub find_by_name : Text → List Plugin → Option Plugin
find_by_name name plugins =
    or_else (find (λ p. is_live p && is_empty p.namespace && equal_fold p.name name) plugins)
      (find (λ p. is_live p && contains_fold p.aliases name) plugins)

-- GetByName
unfoldable pub get_by_name : Text → Exec Disk Plugin
unfolding load_all find_by_name
get_by_name name = do plugins ← load_all; or_not_found (find_by_name name plugins)

-- the two loops of GetByNamespacedName
unfoldable pub find_by_namespaced_name : Text → Text → List Plugin → Option Plugin
find_by_namespaced_name namespace name plugins =
    or_else
      (find (λ p. is_live p && equal_fold p.namespace namespace && equal_fold p.name name) plugins)
      (find (λ p. is_live p && contains_fold p.aliases (namespace ++ (b'/' ∷ name))) plugins)

-- GetByNamespacedName
unfoldable pub get_by_namespaced_name : Text → Text → Exec Disk Plugin
unfolding load_all find_by_namespaced_name
get_by_namespaced_name namespace name = do
  plugins ← load_all
  or_not_found (find_by_namespaced_name namespace name plugins)

-- GetVersions; it does not ask whether the plugin is deleted
unfoldable pub get_versions : ℤ → Exec Disk (List PluginVersion)
unfolding load_plugin
get_versions id = do p ← load_plugin id; pure (keep_if (λ v. not (is_some v.deleted_at)) p.versions)

-- loadNotifyEmails, and NotifyEmail: a missing key reads as ""
abbrev pub or_blank : Option Text → Text
or_blank none = []
or_blank (some address) = address

unfoldable pub notify_email : ℤ → Exec Disk Text
unfolding access lookup
notify_email id = do access; gets (λ s. or_blank (lookup id s.emails))
