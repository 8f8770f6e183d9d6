-- ===== src/Repository/Soundness/Uniqueness.antt =====
-- Any sequence of calls of the repository, with any failures of the disk, and what the invariant
-- says of the lookups.
use semrel_registry.Prelude.{◌≡◌, Bool, Option, some, List, [], arith}
use semrel_registry.Prelude.Int.{ℤ, ◌<ℤ◌, max_int64}
use semrel_registry.Text.{Text}
use semrel_registry.Models.{
  Time, Plugin, PluginVersion, Provenance, SecurityAdvisory, PluginDeletionSpec,
  VersionDeletionSpec, VersionYankSpec, ReviewOutcomeSpec, AccountDeletionAudit,
}
use semrel_registry.Result.Triple.{Triple-Inv}
use semrel_registry.Repository.Disk.{Disk, lookup, empty_disk}
use semrel_registry.Repository.Writes.{
  create, update, update_status, update_validation_checks, set_security_advisories, delete,
  delete_version, record_account_deletion, incr_counters, add_version, set_version_yank,
  set_review_outcome,
}
use semrel_registry.Repository.Contacts.{set_provenance, set_notify_email}
use semrel_registry.Repository.Soundness.{IsSound, next_id}
use semrel_registry.Repository.Soundness.Methods.{
  update_status-IsSound, update_validation_checks-IsSound, set_security_advisories-IsSound,
  delete-IsSound, delete_version-IsSound, record_account_deletion-IsSound, incr_counters-IsSound,
  set_version_yank-IsSound, set_review_outcome-IsSound,
}
use semrel_registry.Repository.Soundness.Creating.{create-IsSound}
use semrel_registry.Repository.Soundness.Updating.{
  update-IsSound, add_version-IsSound, set_provenance-IsSound, set_notify_email-IsSound,
}

-- A call of a method that writes, at some time.
pub data Call : Type 0 where
  creates updates : Plugin → Call
  sets_status : ℤ → Text → Call
  sets_checks : ℤ → Text → Call
  sets_advisories : ℤ → Option (List SecurityAdvisory) → Call
  deletes : PluginDeletionSpec → Call
  deletes_version : VersionDeletionSpec → Call
  records_account : AccountDeletionAudit → Call
  counts : ℤ → ℤ → ℤ → ℤ → Call
  adds_version : PluginVersion → Call
  yanks : VersionYankSpec → Call
  reviews : ReviewOutcomeSpec → Call
  proves : ℤ → Option Provenance → Call
  sets_email : ℤ → Text → Call

-- The state in which a call leaves the directory, whether it succeeds or fails.
unfoldable pub after : Time → Call → Disk → Disk
after now (creates p) s = (create now p s).1
after now (updates p) s = (update now p s).1
after now (sets_status id status) s = (update_status now id status s).1
after now (sets_checks id checks) s = (update_validation_checks now id checks s).1
after now (sets_advisories id as') s = (set_security_advisories now id as' s).1
after now (deletes spec) s = (delete now spec s).1
after now (deletes_version spec) s = (delete_version now spec s).1
after now (records_account audit) s = (record_account_deletion audit s).1
after now (counts id version views downloads) s = (incr_counters now id version views downloads s).1
after now (adds_version v) s = (add_version now v s).1
after now (yanks spec) s = (set_version_yank now spec s).1
after now (reviews spec) s = (set_review_outcome now spec s).1
after now (proves id provenance) s = (set_provenance now id provenance s).1
after now (sets_email id address) s = (set_notify_email id address s).1

-- One call, after which the disk may have any faults ahead. While it is made, another plugin number
-- fits an int64.
pub data Step : Disk → Disk → Type 0 where
  call :
      (now : Time) (c : Call) (fs : List Bool) (s : Disk)
      → next_id s.meta <ℤ max_int64
      → Step s (after now c (record s { faults = fs }))

pub data Reach (s : Disk) : Disk → Type 0 where
  here : Reach s s
  next : {t u : Disk} → Reach s t → Step t u → Reach s u

after-IsSound :
    (now : Time) (c : Call) (s : Disk)
    → IsSound s
    → next_id s.meta <ℤ max_int64
    → IsSound (after now c s)
unfolding after
after-IsSound now (creates p) s h room = Triple-Inv _ (create-IsSound now p) s (h, room)
after-IsSound now (updates p) s h room = Triple-Inv _ (update-IsSound now p) s h
after-IsSound now (sets_status id status) s h room =
    Triple-Inv _ (update_status-IsSound now id status) s h
after-IsSound now (sets_checks id checks) s h room =
    Triple-Inv _ (update_validation_checks-IsSound now id checks) s h
after-IsSound now (sets_advisories id as') s h room =
    Triple-Inv _ (set_security_advisories-IsSound now id as') s h
after-IsSound now (deletes spec) s h room = Triple-Inv _ (delete-IsSound now spec) s h
after-IsSound now (deletes_version spec) s h room =
    Triple-Inv _ (delete_version-IsSound now spec) s h
after-IsSound now (records_account audit) s h room =
    Triple-Inv _ (record_account_deletion-IsSound audit) s h
after-IsSound now (counts id version views downloads) s h room =
    Triple-Inv _ (incr_counters-IsSound now id version views downloads) s h
after-IsSound now (adds_version v) s h room = Triple-Inv _ (add_version-IsSound now v) s h
after-IsSound now (yanks spec) s h room = Triple-Inv _ (set_version_yank-IsSound now spec) s h
after-IsSound now (reviews spec) s h room = Triple-Inv _ (set_review_outcome-IsSound now spec) s h
after-IsSound now (proves id provenance) s h room =
    Triple-Inv _ (set_provenance-IsSound now id provenance) s h
after-IsSound now (sets_email id address) s h room =
    Triple-Inv _ (set_notify_email-IsSound id address) s h

Step-IsSound : {s t : Disk} → Step s t → IsSound s → IsSound t
Step-IsSound (call now c fs s room) h = after-IsSound now c (record s { faults = fs }) h room

-- From a sound directory only sound ones are reached, by any calls at any times and with any
-- failures of the disk.
pub Reach-IsSound : {s t : Disk} → IsSound s → Reach s t → IsSound t
Reach-IsSound h here = h
Reach-IsSound h (next r st) = Step-IsSound st (Reach-IsSound h r)

pub empty_disk-IsSound : IsSound empty_disk
empty_disk-IsSound = record {
  keys = tt;
  positive = omega arith;
  below = λ k p e. absurd (nothing k p e);
  unique = λ k j p q ep eq lp lq r cp cq. absurd (nothing k p ep);
}
  where
    nothing : (k : ℤ) (p : Plugin) → lookup {V = Plugin} k [] ≡ some p → ⊥
    nothing k p e = unfold lookup in cc
