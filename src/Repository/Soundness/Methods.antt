-- ===== src/Repository/Soundness/Methods.antt =====
-- The methods that keep the numbers and the keys of all plugins.
use semrel_registry.Prelude.{refl, Option, List}
use semrel_registry.Prelude.Int.{ℤ}
use semrel_registry.Text.{Text}
use semrel_registry.Models.{
  Time, Plugin, PluginVersion, SecurityAdvisory, PluginDeletionSpec, VersionDeletionSpec,
  VersionYankSpec, ReviewOutcomeSpec, AccountDeletionAudit,
}
use semrel_registry.Result.{◌>>=◌}
use semrel_registry.Result.Triple.{Triple, Triple-bind, Triple-gets, Triple-modify}
use semrel_registry.Repository.Identity.{claims}
use semrel_registry.Repository.Disk.{access, save_plugin}
use semrel_registry.Repository.Reads.{load_live}
use semrel_registry.Repository.Writes.{
  update_status, update_validation_checks, set_security_advisories, delete, delete_first,
  delete_version, record_account_deletion, incr_counters, yank_first, set_version_yank,
  set_review_outcome, or_absent,
}
use semrel_registry.Repository.Soundness.{IsSound, Same, Triple-access}
use semrel_registry.Repository.Soundness.Saving.{
  Triple-change, Triple-or_absent, Triple-load_live, Triple-save_plugin, Holds, HoldsLive,
}

pub update_status-IsSound :
    (now : Time) (id : ℤ) (status : Text)
    → Triple IsSound IsSound (update_status now id status) (λ _. IsSound)
unfolding update_status claims
update_status-IsSound now id status =
    Triple-change id _ (λ p. record { id = refl; claims = refl; live = λ h. h })

pub update_validation_checks-IsSound :
    (now : Time) (id : ℤ) (checks : Text)
    → Triple IsSound IsSound (update_validation_checks now id checks) (λ _. IsSound)
unfolding update_validation_checks claims
update_validation_checks-IsSound now id checks =
    Triple-change id _ (λ p. record { id = refl; claims = refl; live = λ h. h })

pub set_security_advisories-IsSound :
    (now : Time) (id : ℤ) (advisories : Option (List SecurityAdvisory))
    → Triple IsSound IsSound (set_security_advisories now id advisories) (λ _. IsSound)
unfolding set_security_advisories claims
set_security_advisories-IsSound now id advisories =
    Triple-change id _ (λ p. record { id = refl; claims = refl; live = λ h. h })

pub delete-IsSound :
    (now : Time) (spec : PluginDeletionSpec)
    → Triple IsSound IsSound (delete now spec) (λ _. IsSound)
unfolding delete claims
delete-IsSound now spec =
    Triple-change spec.plugin_id _ (λ p. record { id = refl; claims = refl; live = λ h. cc })

pub incr_counters-IsSound :
    (now : Time) (id version_id views downloads : ℤ)
    → Triple IsSound IsSound (incr_counters now id version_id views downloads) (λ _. IsSound)
unfolding incr_counters claims
incr_counters-IsSound now id version_id views downloads =
    Triple-change id _ (λ p. record { id = refl; claims = refl; live = λ h. h })

pub set_review_outcome-IsSound :
    (now : Time) (spec : ReviewOutcomeSpec)
    → Triple IsSound IsSound (set_review_outcome now spec) (λ _. IsSound)
unfolding set_review_outcome claims
set_review_outcome-IsSound now spec =
    Triple-change spec.plugin_id _ (λ p. record { id = refl; claims = refl; live = λ h. h })

-- The same where the change may not be found.
change_found :
    (id : ℤ) (find_change : Plugin → Option (List PluginVersion))
    (f : Plugin → List PluginVersion → Plugin)
    → ((p : Plugin) (vs : List PluginVersion) → Same p (f p vs))
    → Triple IsSound IsSound
        (load_live id >>= λ p. or_absent (find_change p) >>= λ vs. save_plugin (f p vs))
        (λ _. IsSound)
change_found id find_change f same =
    Triple-bind IsSound (load_live id) (HoldsLive id) _ _ (Triple-load_live id) λ p.
      Triple-bind (HoldsLive id p) (or_absent (find_change p)) (λ vs. Holds id p) _ _
        (Triple-or_absent (find_change p) (HoldsLive id p) (λ vs. Holds id p) (λ s h. h.0)
          (λ vs e s h. (h.0, h.1)))
        λ vs. Triple-save_plugin id p (f p vs) (same p vs)

pub delete_version-IsSound :
    (now : Time) (spec : VersionDeletionSpec)
    → Triple IsSound IsSound (delete_version now spec) (λ _. IsSound)
unfolding delete_version claims
delete_version-IsSound now spec =
    change_found spec.plugin_id (λ p. delete_first now spec p.versions) _
      (λ p vs. record { id = refl; claims = refl; live = λ h. h })

pub set_version_yank-IsSound :
    (now : Time) (spec : VersionYankSpec)
    → Triple IsSound IsSound (set_version_yank now spec) (λ _. IsSound)
unfolding set_version_yank claims
set_version_yank-IsSound now spec =
    change_found spec.plugin_id (λ p. yank_first now spec p.versions) _
      (λ p vs. record { id = refl; claims = refl; live = λ h. h })

-- The files beside the plugins.
pub record_account_deletion-IsSound :
    (audit : AccountDeletionAudit)
    → Triple IsSound IsSound (record_account_deletion audit) (λ _. IsSound)
unfolding record_account_deletion
record_account_deletion-IsSound audit =
    Triple-bind IsSound access (λ _. IsSound) _ _ (Triple-access IsSound (λ s h. h) (λ s fs h. h))
      λ _.
        Triple-bind IsSound _ (λ _. IsSound) _ _ (Triple-gets (λ s. s.audits) (λ _. IsSound))
          λ events.
            Triple-bind IsSound access (λ _. IsSound) _ _
              (Triple-access IsSound (λ s h. h) (λ s fs h. h)) λ _. Triple-modify _ IsSound
