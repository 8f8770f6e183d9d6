-- ===== src/Service/Tests.antt =====
-- The theorems on the service at a data directory with one plugin.
use semrel_registry.Repository.Filters.{get_all}
use semrel_registry.Text.{cut}
use semrel_registry.Text.{split}
use semrel_registry.Semver.{parse_version}
use semrel_registry.Repository.Reads.{notify_email}
use semrel_registry.Repository.Versions.{latest_stable}
use semrel_registry.Repository.Versions.{sort_plugin_versions}
use semrel_registry.Repository.Reads.{get_by_id}
use semrel_registry.Naming.{first_party_by_repository_url}
use semrel_registry.Service.Validation.{validate_plugin}
use semrel_registry.Repository.Disk.{save_plugin}
use semrel_registry.Repository.Disk.{save_meta}
use semrel_registry.Repository.Disk.{load_meta}
use semrel_registry.Sort.{sort_slice}
use semrel_registry.Repository.Identity.{normalize_aliases}
use semrel_registry.Repository.Identity.{ensure_unique_identity}
use semrel_registry.Repository.Reads.{load_all}
use semrel_registry.Result.{◌>>=◌}
use semrel_registry.Repository.Writes.{create}
use semrel_registry.Prelude.{
  ◌≡◌, ◌≤◌, refl, ◌≢◌, ◌⊎◌, All, suc, true, false, some, none, [], ◌∷◌, ◌+◌, ◌^◌, arith, length,
}
use semrel_registry.Prelude.Int.{pos}
use semrel_registry.Text.{text, trim_space, has_prefix, equal_fold}
use semrel_registry.Text.Number.{decimal, atoi}
use semrel_registry.Repository.Reads.{get_by_name}
use semrel_registry.Repository.Writes.{set_review_outcome}
use semrel_registry.Semver.{release}
use semrel_registry.Models.{
  Plugin, PluginDeletionRequest, VersionDeletionRequest, DeleteActor, status_pending, ref,
}
use semrel_registry.Result.{ok, err, panicked, io_failure}
use semrel_registry.Naming.{UrlParser}
use semrel_registry.Repository.Disk.{Disk, empty_disk}
use semrel_registry.Repository.Interface.{file_repository}
use semrel_registry.Repository.Atomicity.{answer, answer-err}
use semrel_registry.Repository.Soundness.{IsSound}
use semrel_registry.Repository.Soundness.Uniqueness.{
  after, creates, call, here, next, Reach-IsSound, empty_disk-IsSound,
}
use semrel_registry.Repository.Tests.{alpha, plugin_of, old_release, new_release}
use semrel_registry.Service.Dedup.{Deduplicator, should_count, max_dedup_entries}
use semrel_registry.Service.Dedup.Once.{answers_for, length-should_count, answers_for-counted}
use semrel_registry.Service.Patterns.{matches_name, matches_namespace}
use semrel_registry.Service.Lookup.{lookup_plugin}
use semrel_registry.Service.Lookup.References.{lookup_plugin-numeral, lookup_plugin-ref}
use semrel_registry.Service.Removal.{delete_plugin_with_request, delete_version_with_request}
use semrel_registry.Service.Removal.Ownership.{MayRemove, MayRemoveVersion}
use semrel_registry.Service.Removal.Refusal.{
  delete_plugin_with_request-MayRemove, delete_version_with_request-MayRemove,
}
use semrel_registry.Service.Publishing.{submit_plugin, create_plugin}
use semrel_registry.Service.Publishing.Outcome.{submit_plugin-pending, create_plugin-versions}
use semrel_registry.Service.Review.{review_plugin}
use semrel_registry.Service.Review.Decision.{IsDecision, IsDecided, review_plugin-IsDecided}
use semrel_registry.Service.Listing.{ListPluginsParams, list_compatible, pages_of}
use semrel_registry.Service.Listing.Overflow.{list_compatible-panics}
use semrel_registry.Service.Listing.Pages.{pages_from, pages_from-pages_of}

-- a parser that refuses every URL
abbrev no_urls : UrlParser
no_urls = record { parse = λ s. none; path_unescape = λ s. none }

abbrev ada : DeleteActor
ada = record { login = text "ada"; role = text "user"; is_admin = false }

abbrev with_alpha : Disk
with_alpha = after 3 (creates alpha) empty_disk

with_alpha-IsSound : IsSound with_alpha
with_alpha-IsSound =
    Reach-IsSound empty_disk-IsSound
      (next here (call 3 (creates alpha) [] empty_disk (omega arith)))

answer-err_example :
    (after 3
      (creates alpha)
      (record empty_disk { faults = false ∷ false ∷ false ∷ true ∷ [] })).plugins
    ≡ []
unfolding answer create ◌>>=◌ load_all ensure_unique_identity normalize_aliases sort_slice load_meta
    save_meta save_plugin
answer-err_example =
    answer-err 3 (creates alpha) (record empty_disk { faults = false ∷ false ∷ false ∷ true ∷ [] })
      io_failure fails
  where
    fails :
        answer 3 (creates alpha) (record empty_disk { faults = false ∷ false ∷ false ∷ true ∷ [] })
        ≡ err io_failure
    fails = refl

abbrev removal : PluginDeletionRequest
removal = record { confirmation = text "alpha"; reason = []; delete_versions = true }

delete_plugin_with_request-MayRemove_example :
    ((delete_plugin_with_request
        (file_repository 4)
        (text "alpha")
        removal
        ada
        with_alpha).1.plugins
      ≡ with_alpha.plugins)
    ⊎ ((p : Plugin) × ((lookup_plugin (file_repository 4) (text "alpha") with_alpha).0 ≡ ok p)
        × MayRemove p removal ada)
delete_plugin_with_request-MayRemove_example =
    delete_plugin_with_request-MayRemove 4 (text "alpha") removal ada with_alpha

abbrev version_removal : VersionDeletionRequest
version_removal = record { confirmation = text "alpha@1.0.0"; reason = [] }

delete_version_with_request-MayRemove_example :
    ((delete_version_with_request
        (file_repository 4)
        (text "alpha")
        (pos 1)
        version_removal
        ada
        with_alpha).1.plugins
      ≡ with_alpha.plugins)
    ⊎ MayRemoveVersion (file_repository 4) (text "alpha") (pos 1) version_removal ada with_alpha
delete_version_with_request-MayRemove_example =
    delete_version_with_request-MayRemove 4 (text "alpha") (pos 1) version_removal ada with_alpha

create_plugin-versions_example :
    (create_plugin no_urls [] (file_repository 4) alpha empty_disk).0 ≢ ok alpha
create_plugin-versions_example =
    create_plugin-versions no_urls [] 4 alpha alpha old_release (new_release ∷ []) empty_disk refl

lookup_plugin-numeral_example :
    (matches_name (decimal 7) ≡ true)
    × (lookup_plugin (file_repository 4) (decimal 7) ≡ (file_repository 4).get_by_id (pos 7))
lookup_plugin-numeral_example = lookup_plugin-numeral (file_repository 4) 7 (omega arith)

abbrev scoped : Plugin
scoped = record (plugin_of (text "alpha") []) { namespace = text "@ada" }

lookup_plugin-ref_example :
    lookup_plugin (file_repository 4) (ref scoped)
    ≡ (file_repository 4).get_by_namespaced_name (text "@ada") (text "alpha")
unfolding matches_namespace matches_name
lookup_plugin-ref_example = lookup_plugin-ref (file_repository 4) scoped refl refl

pages_from-pages_of_example :
    pages_from 1 (pages_of (length (alpha ∷ scoped ∷ [])) 1) 0 (alpha ∷ scoped ∷ [])
    ≡ alpha ∷ scoped ∷ []
pages_from-pages_of_example = pages_from-pages_of 1 (alpha ∷ scoped ∷ []) (omega arith)

abbrev beta : Plugin
beta = plugin_of (text "beta") []

abbrev pending_beta : Plugin
pending_beta = record beta { id = pos 1; status = text "pending"; created_at = 4; updated_at = 4 }

submit_plugin-pending_example : pending_beta.status ≡ status_pending
unfolding submit_plugin ◌>>=◌ validate_plugin first_party_by_repository_url trim_space sort_slice
    matches_name create load_all ensure_unique_identity load_meta save_meta save_plugin get_by_id
    sort_plugin_versions latest_stable
submit_plugin-pending_example =
    submit_plugin-pending no_urls [] 4 beta pending_beta empty_disk submitted
  where
    submitted : (submit_plugin no_urls [] (file_repository 4) beta empty_disk).0 ≡ ok pending_beta
    submitted = refl

abbrev rejected_alpha : Plugin
rejected_alpha = record alpha {
  id = pos 1;
  status = text "rejected";
  created_at = 3;
  updated_at = 4;
  rejection_reason = text "no licence";
  reviewed_at = some 4;
  reviewed_by = text "eve";
  versions = new_release ∷ old_release ∷ [];
  latest_version = text "1.1.0";
}

review_plugin-IsDecided_example :
    IsDecision (text "rejected") (trim_space (text " no licence"))
    × IsDecided (text "rejected") (trim_space (text " no licence")) (text "eve") rejected_alpha
unfolding review_plugin ◌>>=◌ trim_space lookup_plugin atoi has_prefix get_by_name after create
    ensure_unique_identity normalize_aliases sort_slice load_meta save_meta save_plugin equal_fold
    set_review_outcome get_by_id sort_plugin_versions latest_stable notify_email
review_plugin-IsDecided_example =
    review_plugin-IsDecided 4 (text "alpha") (text "rejected")
      (record { reason = text " no licence" }) (text "eve") with_alpha rejected_alpha none
      with_alpha-IsSound reviewed
  where
    reviewed :
        (review_plugin
          (file_repository 4)
          (text "alpha")
          (text "rejected")
          (record { reason = text " no licence" })
          (text "eve")
          with_alpha).0
        ≡ ok (rejected_alpha, none)
    reviewed = refl

abbrev far_page : ListPluginsParams
far_page = record {
  page = pos (2 ^ 62 + 1);
  limit = pos 2;
  category = [];
  search = [];
  sort = [];
  sort_dir = [];
  namespace = [];
  author = [];
  statuses = [];
  compatible_with = text "1.0.0";
}

list_compatible-panics_example :
    (list_compatible (file_repository 4) far_page [] empty_disk).0 ≡ err panicked
unfolding parse_version trim_space split cut atoi get_all ◌>>=◌ load_all sort_slice
list_compatible-panics_example =
    list_compatible-panics (file_repository 4) far_page [] (2 ^ 62) 2 (release (pos 1) (pos 0))
      empty_disk [] refl refl (omega arith) (omega arith) (omega arith) refl refl

abbrev hourly : Deduplicator
hourly = record { seen = []; window = 100; last_gc = 0 }

length-should_count_example :
    length (should_count 5 (text "a") hourly).1.seen ≤ suc max_dedup_entries
length-should_count_example = length-should_count 5 (text "a") hourly

answers_for-counted_example :
    All
      (λ b. b ≡ false)
      (answers_for
        (text "a")
        ((9, text "b") ∷ (99, text "a") ∷ [])
        (should_count 5 (text "a") hourly).1)
unfolding should_count
answers_for-counted_example =
    answers_for-counted 5 (text "a") hourly ((9, text "b") ∷ (99, text "a") ∷ []) refl
      (omega arith, (omega arith, tt)) (omega arith)
