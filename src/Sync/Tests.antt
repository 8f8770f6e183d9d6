-- ===== src/Sync/Tests.antt =====
-- The pass over releases at a data directory with one plugin, a draft, and a release that fails.
use semrel_registry.Prelude.{
  ◌≡◌, ◌+◌, refl, true, false, none, [], ◌∷◌, Bool, List, keep_if, length,
}
use semrel_registry.Prelude.Int.{pos}
use semrel_registry.Text.{text}
use semrel_registry.Naming.{UrlParser}
use semrel_registry.Models.{Plugin}
use semrel_registry.Repository.Disk.{Disk, empty_disk}
use semrel_registry.Repository.Interface.{file_repository}
use semrel_registry.Repository.Tests.{alpha}
use semrel_registry.Sync.{GhAsset, GhRelease, pick_download_url, pick_checksums, sync_releases}
use semrel_registry.Sync.Drafts.{is_published, Agrees, sync_releases-keep_if}

abbrev no_urls : UrlParser
no_urls = record { parse = λ s. none; path_unescape = λ s. none }

abbrev hashes_file : GhAsset
hashes_file = record { name = text "checksums.txt"; browser_download_url = text "c"; digest = [] }

abbrev windows_file : GhAsset
windows_file = record {
  name = text "plugin-windows-amd64.exe";
  browser_download_url = text "w";
  digest = text "sha256:ab";
}

abbrev linux_file : GhAsset
linux_file = record {
  name = text "plugin-linux-amd64";
  browser_download_url = text "l";
  digest = text "sha256:cd";
}

abbrev assets_of_three : List GhAsset
assets_of_three = hashes_file ∷ windows_file ∷ linux_file ∷ []

linux_goes_first : pick_download_url assets_of_three ≡ text "l"
unfolding pick_download_url
linux_goes_first = refl

keys_of_platforms :
    pick_checksums assets_of_three
    ≡ (text "windows_amd64", text "ab") ∷ (text "linux_amd64", text "cd") ∷ []
unfolding pick_checksums
keys_of_platforms = refl

abbrev release_tagged : Bool → GhRelease
release_tagged draft = record {
  tag_name = text "v2.0.0";
  body = [];
  prerelease = false;
  draft = draft;
  published_at = [];
  assets = assets_of_three;
}

abbrev registered : Plugin
registered = record alpha { id = pos 1 }

abbrev with_registered : Disk
with_registered = record empty_disk { plugins = (pos 1, registered) ∷ [] }

abbrev offered : List GhRelease
offered = release_tagged true ∷ release_tagged false ∷ []

sync_releases-keep_if_example :
    ((sync_releases no_urls []
        (file_repository 5)
        (λ t. none)
        5
        registered
        offered
        with_registered).1
      ≡ (sync_releases no_urls []
          (file_repository 5)
          (λ t. none)
          5
          registered
          (keep_if is_published offered)
          with_registered).1)
    × Agrees
        (sync_releases no_urls []
          (file_repository 5)
          (λ t. none)
          5
          registered
          offered
          with_registered).0
        (sync_releases no_urls []
          (file_repository 5)
          (λ t. none)
          5
          registered
          (keep_if is_published offered)
          with_registered).0
    × ((sync_releases no_urls []
            (file_repository 5)
            (λ t. none)
            5
            registered
            offered
            with_registered).0.created
          + (sync_releases no_urls []
              (file_repository 5)
              (λ t. none)
              5
              registered
              offered
              with_registered).0.skipped
        ≡ length offered)
sync_releases-keep_if_example =
    sync_releases-keep_if no_urls [] (file_repository 5) (λ t. none) 5 registered offered
      with_registered
