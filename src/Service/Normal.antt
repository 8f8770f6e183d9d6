-- ===== src/Service/Normal.antt =====
-- The normalisation of requests in plugin_service.go, and the rule for first-party plugins.
use semrel_registry.Prelude.{
  Bool, true, false, Option, none, some, List, [], ◌∷◌, ◌++◌, map, if◌then◌else◌,
}
use semrel_registry.Text.{Text, text_eq, trim_space, is_empty}
use semrel_registry.Models.{
  Plugin, PluginVersion, PluginPatch, PluginDeletionRequest, VersionDeletionRequest,
  AccountDeletionRequest,
}
use semrel_registry.Repository.Identity.{mem, normalize_aliases}
use semrel_registry.Naming.{
  UrlParser, FirstPartyPlugin, first_party_namespace, first_party_by_repository_url,
}

-- the loop of normalizeTags
unfoldable pub distinct_tags : List Text → List Text → List Text
distinct_tags seen [] = []
distinct_tags seen (t ∷ ts) =
    let tag = trim_space t in
    let skipped = distinct_tags seen ts in
    let kept = tag ∷ distinct_tags (tag ∷ seen) ts in
    if is_empty tag then skipped else if mem tag seen then skipped else kept

-- normalizeTags
unfoldable pub normalize_tags : List Text → List Text
unfolding distinct_tags
normalize_tags ts = distinct_tags [] ts

-- an assignment to a map of strings, held as a list with one entry for each key
unfoldable pub put_entry : Text → Text → List (Text × Text) → List (Text × Text)
put_entry k v [] = (k, v) ∷ []
put_entry k v (e ∷ es) =
    let rest = put_entry k v es in if text_eq e.0 k then (k, v) ∷ es else e ∷ rest

-- the loop of normalizeVersion over the checksums
unfoldable pub trim_entries : List (Text × Text) → List (Text × Text) → List (Text × Text)
unfolding put_entry
trim_entries done [] = done
trim_entries done (e ∷ es) = trim_entries (put_entry (trim_space e.0) (trim_space e.1) done) es

-- normalizeVersion
unfoldable pub normalize_version : PluginVersion → PluginVersion
unfolding trim_entries
normalize_version v = record v {
  version = trim_space v.version;
  changelog = trim_space v.changelog;
  download_url = trim_space v.download_url;
  checksums = trim_entries [] v.checksums;
}

-- normalizePlugin
unfoldable pub normalize_plugin : Plugin → Plugin
unfolding normalize_tags normalize_version normalize_aliases
normalize_plugin p = record p {
  namespace = trim_space p.namespace;
  name = trim_space p.name;
  aliases = normalize_aliases p.aliases;
  description = trim_space p.description;
  author = trim_space p.author;
  category = trim_space p.category;
  repository = trim_space p.repository;
  license = trim_space p.license;
  tags = normalize_tags p.tags;
  versions = map normalize_version p.versions;
}

abbrev over : {A : Type 0} → (A → A) → Option A → Option A
over f none = none
over f (some a) = some (f a)

-- normalizePatch, and trimPointer in it
unfoldable pub normalize_patch : PluginPatch → PluginPatch
unfolding normalize_tags normalize_aliases
normalize_patch p = record {
  namespace = over trim_space p.namespace;
  name = over trim_space p.name;
  aliases = over normalize_aliases p.aliases;
  description = over trim_space p.description;
  author = over trim_space p.author;
  category = over trim_space p.category;
  repository = over trim_space p.repository;
  license = over trim_space p.license;
  tags = over normalize_tags p.tags;
}

abbrev or_old : {A : Type 0} → Option A → A → A
or_old none a = a
or_old (some b) a = b

-- applyPatch
unfoldable pub apply_patch : Plugin → PluginPatch → Plugin
apply_patch p patch = record p {
  namespace = or_old patch.namespace p.namespace;
  name = or_old patch.name p.name;
  aliases = or_old patch.aliases p.aliases;
  description = or_old patch.description p.description;
  author = or_old patch.author p.author;
  category = or_old patch.category p.category;
  repository = or_old patch.repository p.repository;
  license = or_old patch.license p.license;
  tags = or_old patch.tags p.tags;
}

-- normalizeFirstPartyPlugin, once it is known whether the plugin is one: the plugin, and the answer
abbrev pub as_first_party : Option FirstPartyPlugin → Plugin → Plugin × Bool
as_first_party none p = (p, false)
as_first_party (some c) p = (
  record p {
    namespace = first_party_namespace;
    name = c.name;
    category = c.category;
    aliases = normalize_aliases (c.aliases ++ p.aliases);
  },
  true,
)

unfoldable pub normalize_first_party : UrlParser → Plugin → Plugin × Bool
normalize_first_party urls p = as_first_party (first_party_by_repository_url urls p.repository) p

-- normalizePluginDeletionRequest, normalizeVersionDeletionRequest, normalizeAccountDeletionRequest
unfoldable pub normalize_plugin_deletion : PluginDeletionRequest → PluginDeletionRequest
normalize_plugin_deletion r = record r {
  confirmation = trim_space r.confirmation;
  reason = trim_space r.reason;
}

unfoldable pub normalize_version_deletion : VersionDeletionRequest → VersionDeletionRequest
normalize_version_deletion r = record r {
  confirmation = trim_space r.confirmation;
  reason = trim_space r.reason;
}

unfoldable pub normalize_account_deletion : AccountDeletionRequest → AccountDeletionRequest
normalize_account_deletion r = record r {
  confirmation = trim_space r.confirmation;
  reason = trim_space r.reason;
  reauth_token = trim_space r.reauth_token;
}
