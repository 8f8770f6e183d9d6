-- ===== src/Service/Lookup.antt =====
-- The reading operations of PluginService on one plugin.
pub mod Files
pub mod References
use semrel_registry.Prelude.{
  Option, none, some, List, [], ◌&&◌, ◌||◌, not, if◌then◌else◌, find, take, drop, length, leb,
}
use semrel_registry.Prelude.Int.{ℤ, pos, eq_ℤ, ltb_ℤ, pos_part}
use semrel_registry.Text.{Text, text, trim_space, has_prefix, cut, is_empty}
use semrel_registry.Text.Number.{atoi}
use semrel_registry.Models.{Plugin, PluginVersion}
use semrel_registry.Result.{
  Exec, pure, raise, lift, validation, plugin_not_found, ◌>>=◌, ◌>>◌, reject_if,
}
use semrel_registry.Repository.Interface.{PluginRepository}
use semrel_registry.Service.Validation.{validate_plugin_ref}

module _ {S : Type 0} (repo : PluginRepository S) where
  -- a reference that is not a number
  unfoldable pub lookup_reference : Text → Exec S Plugin
  lookup_reference r =
      let parts = cut b'/' r in
      if has_prefix r (text "@") && parts.2 && not (is_empty parts.1)
      then repo.get_by_namespaced_name parts.0 parts.1
      else repo.get_by_name r

  -- a reference, and the number that it spells if it spells one
  unfoldable pub resolve : Option ℤ → Text → Exec S Plugin
  unfolding lookup_reference
  resolve (some id) r = repo.get_by_id id
  resolve none r = lookup_reference r

  -- lookupPlugin
  unfoldable pub lookup_plugin : Text → Exec S Plugin
  unfolding resolve
  lookup_plugin ref = resolve (atoi (trim_space ref)) (trim_space ref)

  -- GetPlugin
  unfoldable pub get_plugin : Text → Exec S Plugin
  unfolding lookup_plugin
  get_plugin ref = do lift (validate_plugin_ref ref); lookup_plugin ref

  abbrev or_default : ℤ → ℤ
  or_default limit = if eq_ℤ limit (pos 0) then pos 20 else limit

  -- ListVersions; the slice lies in the list by the tests before it
  unfoldable pub list_versions : Text → ℤ → ℤ → Exec S (List PluginVersion)
  unfolding lookup_plugin
  list_versions ref limit offset = do
    lift (validate_plugin_ref ref)
    reject_if (ltb_ℤ (or_default limit) (pos 1) || ltb_ℤ (pos 100) (or_default limit))
        (validation "limit")
    reject_if (ltb_ℤ offset (pos 0)) (validation "offset")
    p ← lookup_plugin ref
    versions ← repo.get_versions p.id
    pure (
        if leb (length versions) (pos_part offset)
        then []
        else take (pos_part (or_default limit)) (drop (pos_part offset) versions))

  abbrev pub or_missing : Option PluginVersion → Exec S PluginVersion
  or_missing none = raise plugin_not_found
  or_missing (some v) = pure v

  -- the search for a version by its number, which ends CreateVersion and YankVersion
  unfoldable pub version_with : ℤ → List PluginVersion → Option PluginVersion
  version_with id versions = find (λ v. eq_ℤ v.id id) versions
