-- ===== src/Sync.antt =====
-- The releases that are taken over from GitHub, api/handlers/github_sync.go: the choice of the
-- assets, the version made of a release, and the pass over the releases of a plugin. The requests
-- to GitHub are I/O. Left out is what starts behind a new version or a pass: the check of the
-- provenance, the refresh of the advisories and the deliveries of webhooks. `parse_time` is
-- time.Parse at RFC 3339.
pub mod Drafts
mod Tests
use semrel_registry.Prelude.{
  ℕ, suc, Bool, true, false, Option, none, some, List, [], ◌∷◌, ◌++◌, ◌&&◌, ◌||◌, not, any,
  if◌then◌else◌,
}
use semrel_registry.Prelude.Int.{pos}
use semrel_registry.Text.{
  Text, text, text_eq, is_empty, has_suffix, trim_suffix, trim_prefix, contains, cut,
}
use semrel_registry.Naming.{UrlParser}
use semrel_registry.Models.{Time, Plugin, PluginVersion, ref}
use semrel_registry.Result.{AppError, Result, ok, err, Exec, pure, ◌>>=◌}
use semrel_registry.Repository.Interface.{PluginRepository}
use semrel_registry.Service.Lookup.{list_versions}
use semrel_registry.Service.Normal.{put_entry}
use semrel_registry.Service.Publishing.{create_version}
use semrel_registry.Handlers.Versions.{is_tagged}

pub record GhAsset : Type 0 where
  pub name : Text
  pub browser_download_url : Text
  pub digest : Text

pub record GhRelease : Type 0 where
  pub tag_name : Text
  pub body : Text
  pub prerelease : Bool
  pub draft : Bool
  pub published_at : Text
  pub assets : List GhAsset

-- the names that both choices pass over
unfoldable pub is_no_binary : Text → Bool
unfolding has_suffix
is_no_binary name = has_suffix name (text ".sha256") || has_suffix name (text ".txt")

-- what one asset with a platform in its name adds; the key is there only if the name has a dash
abbrev pub add_platform : Text → Text × Text × Bool → List (Text × Text) → List (Text × Text)
add_platform hash parts checksums =
    if parts.2 then put_entry (parts.0 ++ b'_' ∷ parts.1) hash checksums else checksums

-- the loop of pickChecksums
unfoldable pub pick_checksums_from : List (Text × Text) → List GhAsset → List (Text × Text)
unfolding is_no_binary put_entry trim_suffix trim_prefix cut
pick_checksums_from checksums [] = checksums
pick_checksums_from checksums (a ∷ as') =
    let base = trim_suffix (trim_prefix a.name (text "plugin-")) (text ".exe") in
    let added = add_platform (trim_prefix a.digest (text "sha256:")) (cut b'-' base) checksums in
    pick_checksums_from (if is_no_binary a.name || is_empty a.digest then checksums else added) as'

unfoldable pub pick_checksums : List GhAsset → List (Text × Text)
unfolding pick_checksums_from
pick_checksums as' = pick_checksums_from [] as'

unfoldable pub is_linux_amd64 : Text → Bool
unfolding contains
is_linux_amd64 name = contains name (text "linux") && contains name (text "amd64")

-- the two loops of pickDownloadURL; the second is reached where the first finds nothing
unfoldable pub first_binary : List GhAsset → Text
unfolding is_no_binary
first_binary [] = []
first_binary (a ∷ as') =
    let rest = first_binary as' in if is_no_binary a.name then rest else a.browser_download_url

unfoldable pub first_linux : Text → List GhAsset → Text
unfolding is_no_binary is_linux_amd64
first_linux otherwise [] = otherwise
first_linux otherwise (a ∷ as') =
    let rest = first_linux otherwise as' in
    if not (is_no_binary a.name) && is_linux_amd64 a.name then a.browser_download_url else rest

unfoldable pub pick_download_url : List GhAsset → Text
unfolding first_linux first_binary
pick_download_url as' = first_linux (first_binary as') as'

-- the version that upsertVersion makes of a release
unfoldable pub version_of : (Text → Option Time) → Plugin → GhRelease → PluginVersion
unfolding pick_download_url pick_checksums trim_prefix
version_of parse_time p rel = record {
  id = pos 0;
  plugin_id = p.id;
  version = trim_prefix rel.tag_name (text "v");
  release_date = if is_empty rel.published_at then none else parse_time rel.published_at;
  changelog = rel.body;
  download_url = pick_download_url rel.assets;
  checksums = pick_checksums rel.assets;
  semrel_core = [];
  prerelease = rel.prerelease;
  views = pos 0;
  downloads = pos 0;
  created_at = 0;
  deleted_at = none;
  deleted_by = [];
  deletion_reason = [];
  provenance = none;
  provenance_checked_at = none;
  yanked_at = none;
  yanked_by = [];
  yanked_reason = [];
}

-- what a pass over releases has counted, and its first error
pub record Outcome : Type 0 where
  pub created : ℕ
  pub skipped : ℕ
  pub first_error : Option AppError

-- what the answer for one release adds in front of the rest
abbrev pub count_release : Result Bool → Outcome → Outcome
count_release (ok true) o = record o { created = suc o.created }
count_release (ok false) o = record o { skipped = suc o.skipped }
count_release (err e) o = record o { skipped = suc o.skipped; first_error = some e }

module _ {S : Type 0} (urls : UrlParser) (hosts : List Text) (repo : PluginRepository S)
    (parse_time : Text → Option Time) (now : Time) (p : Plugin) where
  -- upsertVersion behind the look-up of the versions
  abbrev pub publish_release : GhRelease → List PluginVersion → Exec S Bool
  publish_release rel existing =
      if any (is_tagged repo (ref p) (trim_prefix rel.tag_name (text "v"))) existing
      then pure false
      else if is_empty (pick_download_url rel.assets)
      then pure false
      else do
        version ← create_version urls hosts repo now (ref p) (version_of parse_time p rel)
        pure true

  -- upsertVersion
  unfoldable pub upsert_version : GhRelease → Exec S Bool
  unfolding list_versions create_version version_of pick_download_url
  upsert_version rel = do
    existing ← list_versions repo (ref p) (pos 100) (pos 0)
    publish_release rel existing

  -- one round of the loop; a draft is skipped without a look at the store
  unfoldable pub offer_release : GhRelease → Exec S Bool
  unfolding upsert_version
  offer_release rel s = if rel.draft then (ok false, s) else upsert_version rel s

  -- the loop of syncPluginReleasesWithOptions
  unfoldable pub sync_releases : List GhRelease → S → Outcome × S
  unfolding offer_release
  sync_releases [] s = (record { created = 0; skipped = 0; first_error = none }, s)
  sync_releases (rel ∷ rels) s =
      let (r, s') = offer_release rel s in
      let (o, t) = sync_releases rels s' in (count_release r o, t)
