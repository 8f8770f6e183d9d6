-- ===== src/Handlers/Tests.antt =====
-- The theorems on the handlers at a data directory with one plugin.
use semrel_registry.Repository.Versions.{sort_plugin_versions}
use semrel_registry.Repository.Reads.{get_versions}
use semrel_registry.Service.Lookup.{lookup_plugin}
use semrel_registry.Text.{trim_suffix}
use semrel_registry.Text.{equal_fold}
use semrel_registry.Repository.Disk.{save_plugin}
use semrel_registry.Repository.Disk.{save_meta}
use semrel_registry.Repository.Disk.{load_meta}
use semrel_registry.Sort.{sort_slice}
use semrel_registry.Repository.Identity.{normalize_aliases}
use semrel_registry.Repository.Identity.{ensure_unique_identity}
use semrel_registry.Repository.Reads.{load_all}
use semrel_registry.Repository.Writes.{create}
use semrel_registry.Repository.Reads.{get_by_id}
use semrel_registry.Text.Number.{atoi}
use semrel_registry.Text.{trim_space}
use semrel_registry.Service.Validation.{validate_plugin_ref}
use semrel_registry.Result.{◌>>=◌}
use semrel_registry.Prelude.{◌≡◌, refl, true, false, none, [], ◌∷◌, ◌/◌, ◌+◌, length, find, arith}
use semrel_registry.Prelude.Int.{pos}
use semrel_registry.Text.{text}
use semrel_registry.Models.{Plugin, VersionYankRequest}
use semrel_registry.Naming.{UrlParser}
use semrel_registry.Result.{ok}
use semrel_registry.Repository.Disk.{Disk, empty_disk}
use semrel_registry.Repository.Interface.{file_repository}
use semrel_registry.Repository.Soundness.Uniqueness.{after, creates}
use semrel_registry.Repository.Tests.{alpha, old_release}
use semrel_registry.Repository.Versions.{refresh_latest}
use semrel_registry.Service.Lookup.{get_plugin}
use semrel_registry.Handlers.Identity.{Context}
use semrel_registry.Handlers.Ownership.{GitHub, ClaimAnswer, lacks_proof}
use semrel_registry.Handlers.Bypass.{ending_in, lacks_proof-ending_in}
use semrel_registry.Handlers.Strangers.{yanks, answer_change, refused_after, answer_change-refused}
use semrel_registry.Handlers.Versions.{find_version, is_tagged}
use semrel_registry.Handlers.Search.{search_of, find_version-search}

abbrev no_urls : UrlParser
no_urls = record { parse = λ s. none; path_unescape = λ s. none }

abbrev mallory : Context
mallory = record { login = text "mallory"; is_admin = false; role = text "user" }

abbrev with_alpha : Disk
with_alpha = after 3 (creates alpha) empty_disk

abbrev yank_request : VersionYankRequest
yank_request = record { reason = text "broken" }

answer_change-refused_example :
    answer_change no_urls []
      (file_repository 5)
      5
      (yanks (pos 1) true yank_request)
      mallory
      (text "1")
      with_alpha
    ≡ refused_after no_urls []
        (file_repository 5)
        5
        (get_plugin (file_repository 5) (text "1") with_alpha)
unfolding get_plugin ◌>>=◌ validate_plugin_ref trim_space atoi get_by_id after create load_all
    ensure_unique_identity normalize_aliases sort_slice load_meta save_meta save_plugin equal_fold
answer_change-refused_example =
    answer_change-refused no_urls [] (file_repository 5) 5 (yanks (pos 1) true yank_request) mallory
      (text "1") with_alpha refl refl

abbrev offline : GitHub
offline = record {
  public_member = λ org login. false;
  claim_file = λ owner repo. ClaimAnswer.failed;
  decode_base64 = λ s. none;
}

lacks_proof-ending_in_example :
    lacks_proof offline mallory
      (ending_in (text "https://github.com/SemRels/alpha?tab=") (text "mallory") (text "x"))
    ≡ false
unfolding trim_suffix trim_space
lacks_proof-ending_in_example =
    lacks_proof-ending_in offline mallory (text "https://github.com/SemRels/alpha?tab=") (text "x")
      refl (refl, (refl, (refl, (refl, (refl, (refl, (refl, tt))))))) (refl, tt) refl refl

abbrev beta : Plugin
beta = record alpha { id = pos 1; versions = old_release ∷ [] }

abbrev with_beta : Disk
with_beta = record empty_disk { plugins = (pos 1, beta) ∷ [] }

find_version-search_example :
    find_version
      (file_repository 5)
      (text "1")
      (text "1.0.0")
      (length (old_release ∷ []) / 100 + 1)
      with_beta
    ≡ (
      ok (
          search_of
            (find (is_tagged (file_repository 5) (text "1") (text "1.0.0")) (old_release ∷ []))),
      with_beta,
    )
unfolding validate_plugin_ref trim_space lookup_plugin atoi get_by_id ◌>>=◌ get_versions
    sort_plugin_versions sort_slice
find_version-search_example =
    find_version-search (file_repository 5) (text "1") (text "1.0.0") (refresh_latest beta)
      (old_release ∷ []) with_beta (refl, refl, refl) (omega arith)
