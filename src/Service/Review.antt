-- ===== src/Service/Review.antt =====
-- The decisions on submissions and the retraction of versions: review.go, ApprovePlugin and
-- RejectPlugin of plugin_service.go, and notifyReviewOutcome of submission.go. Delivering mail is
-- I/O: a review gives, beside its result, the notification that is handed to the notifier.
pub mod Decision
use semrel_registry.Prelude.{
  Bool, Option, none, some, ◌∷◌, [], ◌&&◌, not, ltb, length, if◌then◌else◌,
}
use semrel_registry.Prelude.Int.{ℤ}
use semrel_registry.Text.{Text, trim_space, is_empty, text_eq}
use semrel_registry.Models.{
  Plugin, PluginVersion, ref, ReviewDecision, VersionYankRequest, DeleteActor, ReviewNotification,
  status_active, status_rejected,
}
use semrel_registry.Result.{
  Result, ok, err, Exec, pure, lift, validation, check, ◌>>=◌, ◌>>◌, first_error,
}
use semrel_registry.Repository.Interface.{PluginRepository}
use semrel_registry.Service.Lookup.{lookup_plugin, or_missing, version_with}

-- the checks with which ReviewPlugin begins, at the reason without the white space around it
unfoldable pub validate_review : Text → Text → Result (Unit {0})
unfolding text_eq
validate_review status reason = first_error (
    check (not (text_eq status status_active) && not (text_eq status status_rejected))
      (validation "status")
    ∷ check (text_eq status status_rejected && is_empty reason) (validation "reason")
    ∷ check (ltb 1000 (length reason)) (validation "reason")
    ∷ [])

-- the checks with which YankVersion begins
unfoldable pub validate_yank : Bool → Text → Result (Unit {0})
validate_yank yanked reason = first_error (
    check (yanked && is_empty reason) (validation "reason")
    ∷ check (ltb 1000 (length reason)) (validation "reason")
    ∷ [])

abbrev addressed : Plugin → Bool → Text → Text → Result Text → Option ReviewNotification
addressed p approved reason reviewer (err e) = none
addressed p approved reason reviewer (ok recipient) =
    if is_empty recipient
    then none
    else some (record {
      recipient = recipient;
      plugin_ref = ref p;
      repository = p.repository;
      approved = approved;
      reason = reason;
      reviewer = reviewer;
    })

module _ {S : Type 0} (repo : PluginRepository S) where
  -- notifyReviewOutcome: what is handed to the notifier, if anything
  unfoldable pub notify_review_outcome :
      Plugin → Bool → Text → Text → Exec S (Option ReviewNotification)
  notify_review_outcome p approved reason reviewer s =
      let r = repo.notify_email p.id s in (ok (addressed p approved reason reviewer r.0), r.1)

  -- ReviewPlugin
  unfoldable pub review_plugin :
      Text → Text → ReviewDecision → Text → Exec S (Plugin × Option ReviewNotification)
  unfolding notify_review_outcome validate_review
  review_plugin name status decision reviewer = do
    let reason = trim_space decision.reason
    lift (validate_review status reason)
    p ← lookup_plugin repo name
    repo.set_review_outcome
        (record { plugin_id = p.id; status = status; reviewer = reviewer; reason = reason })
    updated ← repo.get_by_id p.id
    notification ← notify_review_outcome updated (text_eq status status_active) reason reviewer
    pure (updated, notification)

  -- ApprovePlugin and RejectPlugin
  unfoldable pub set_status : Text → Text → Exec S Plugin
  set_status status name = do
    p ← lookup_plugin repo name
    repo.update_status p.id status
    repo.get_by_id p.id

  unfoldable pub approve_plugin : Text → Exec S Plugin
  unfolding set_status
  approve_plugin = set_status status_active

  unfoldable pub reject_plugin : Text → Exec S Plugin
  unfolding set_status
  reject_plugin = set_status status_rejected

  -- YankVersion
  unfoldable pub yank_version :
      Text → ℤ → Bool → VersionYankRequest → DeleteActor → Exec S PluginVersion
  unfolding validate_yank
  yank_version name version_id yanked request actor = do
    let reason = trim_space request.reason
    lift (validate_yank yanked reason)
    p ← lookup_plugin repo name
    repo.set_version_yank (record {
      plugin_id = p.id;
      version_id = version_id;
      yanked = yanked;
      actor = actor.login;
      reason = reason;
    })
    versions ← repo.get_versions p.id
    or_missing repo (version_with repo version_id versions)
