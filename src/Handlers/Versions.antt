-- ===== src/Handlers/Versions.antt =====
-- The downloads of api/handlers/plugins.go and api/handlers/download_urls.go. A map is a list of its
-- entries, in an order of its own.
use semrel_registry.Prelude.{
  ℕ, zero, suc, Bool, true, false, Option, none, some, List, [], ◌∷◌, ◌++◌, find, length, ltb, ◌||◌,
  if◌then◌else◌,
}
use semrel_registry.Prelude.Int.{ℤ, pos, add64}
use semrel_registry.Text.{Text, text, text_eq, trim_space, trim_suffix, has_prefix, cut, is_empty}
use semrel_registry.Models.{PluginVersion}
use semrel_registry.Result.{Exec, pure, ◌>>=◌}
use semrel_registry.Repository.Interface.{PluginRepository}
use semrel_registry.Service.Lookup.{list_versions}

-- the result of findVersion, or none because the fuel does not last for its loop
pub data Search : Type 0 where
  found : PluginVersion → Search
  absent : Search
  out_of_fuel : Search

module _ {S : Type 0} (repo : PluginRepository S) (ref tag : Text) where
  abbrev pub is_tagged : PluginVersion → Bool
  is_tagged v = text_eq v.version tag

  -- what the loop does with a batch, and with the rest of the loop
  abbrev pub judge : Option PluginVersion → Bool → Exec S Search → Exec S Search
  judge (some v) last rest = pure (found v)
  judge none true rest = pure absent
  judge none false rest = rest

  -- the loop of findVersion from an offset
  unfoldable pub find_version_from : ℕ → ℤ → Exec S Search
  unfolding list_versions
  find_version_from zero offset = pure out_of_fuel
  find_version_from (suc fuel) offset = do
    batch ← list_versions repo ref (pos 100) offset
    judge (find is_tagged batch) (ltb (length batch) 100)
        (find_version_from fuel (add64 offset (pos 100)))

  -- findVersion
  unfoldable pub find_version : ℕ → Exec S Search
  unfolding find_version_from
  find_version fuel = find_version_from fuel (pos 0)

-- what stands before the last occurrence of a text: strings.LastIndex
unfoldable pub before_last : Text → Text → Option Text
before_last sub [] = if is_empty sub then some [] else none
before_last sub (c ∷ s) = elim (before_last sub s) [
  | some before ↦ some (c ∷ before)
  | none ↦ if has_prefix (c ∷ s) sub then some [] else none
]

abbrev pub known_platforms : List (Text × Text)
known_platforms =
    (text "linux", text "amd64")
    ∷ (text "linux", text "arm64")
    ∷ (text "darwin", text "amd64")
    ∷ (text "darwin", text "arm64")
    ∷ (text "windows", text "amd64")
    ∷ (text "windows", text "arm64")
    ∷ []

abbrev pub asset_stem : Text → Text → Text
asset_stem goos goarch = text "plugin-" ++ goos ++ (b'-' ∷ goarch)

-- the prefix in front of the first platform that the URL names, empty where it names none
unfoldable pub url_prefix : List (Text × Text) → Text → Text
unfolding before_last
url_prefix [] base = []
url_prefix ((goos, goarch) ∷ ps) base = elim (before_last (asset_stem goos goarch) base) [
  | some before ↦ before
  | none ↦ url_prefix ps base
]

abbrev pub asset_name : Text → Text → Text
asset_name goos goarch =
    asset_stem goos goarch ++ (if text_eq goos (text "windows") then text ".exe" else [])

unfoldable pub asset_urls : Text → List (Text × Text) → List (Text × Text)
asset_urls prefix [] = []
asset_urls prefix ((key, hash) ∷ checksums) =
    let (goos, goarch, both) = cut b'_' key in
    let rest = asset_urls prefix checksums in
    if both then (key, prefix ++ asset_name goos goarch) ∷ rest else rest

-- deriveDownloadURLs; nil is the empty list
unfoldable pub derive_download_urls : Text → List (Text × Text) → List (Text × Text)
unfolding url_prefix asset_urls
derive_download_urls base_url checksums =
    let prefix = url_prefix known_platforms (trim_suffix base_url (text ".exe")) in
    if is_empty base_url || is_empty prefix then [] else asset_urls prefix checksums

abbrev entry_of : Text → List (Text × Text) → Option Text
entry_of key [] = none
entry_of key ((k, v) ∷ m) = if text_eq k key then some v else entry_of key m

abbrev or_base : Text → Option Text → Text
or_base base none = base
or_base base (some url) = url

-- the target to which downloadVersionByRef redirects a request with this `platform`
unfoldable pub download_target : PluginVersion → Text → Text
unfolding derive_download_urls
download_target v raw =
    let platform = trim_space raw in
    if is_empty platform
    then v.download_url
    else or_base v.download_url
        (entry_of platform (derive_download_urls v.download_url v.checksums))
