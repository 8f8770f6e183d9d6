-- ===== src/Service/Lookup/Files.antt =====
-- lookupPlugin on the data directory.
use semrel_registry.Prelude.{Option, none, some, ◌&&◌, not}
use semrel_registry.Prelude.Int.{ℤ}
use semrel_registry.Text.{Text, text, trim_space, has_prefix, cut, is_empty}
use semrel_registry.Text.Number.{atoi}
use semrel_registry.Models.{Time}
use semrel_registry.Result.Keeping.{Keeps, Keeps-if}
use semrel_registry.Repository.Disk.{Files}
use semrel_registry.Repository.Interface.{file_repository}
use semrel_registry.Repository.Atomicity.{
  HasFiles, get_by_id-Keeps, get_by_name-Keeps, get_by_namespaced_name-Keeps,
}
use semrel_registry.Service.Lookup.{lookup_plugin, lookup_reference, resolve}

module _ (now : Time) {files : Files} where
  lookup_reference-Keeps :
      (r : Text) → Keeps (HasFiles files) (lookup_reference (file_repository now) r)
  unfolding lookup_reference
  lookup_reference-Keeps r =
      Keeps-if (has_prefix r (text "@") && (cut b'/' r).2 && not (is_empty (cut b'/' r).1)) _ _
        (get_by_namespaced_name-Keeps _ _) (get_by_name-Keeps r)

  resolve-Keeps :
      (o : Option ℤ) (r : Text) → Keeps (HasFiles files) (resolve (file_repository now) o r)
  unfolding resolve
  resolve-Keeps (some id) r = get_by_id-Keeps id
  resolve-Keeps none r = lookup_reference-Keeps r

  pub lookup_plugin-Keeps :
      (name : Text) → Keeps (HasFiles files) (lookup_plugin (file_repository now) name)
  unfolding lookup_plugin
  lookup_plugin-Keeps name = resolve-Keeps (atoi (trim_space name)) (trim_space name)
