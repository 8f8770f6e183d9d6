-- ===== src/Repository/Atomicity.antt =====
-- What the methods of file_repo.go do to the plugin files where they fail.
use semrel_registry.Prelude.{◌≡◌, refl, ap, Option, none, some, List}
use semrel_registry.Prelude.Int.{ℤ}
use semrel_registry.Text.{Text}
use mathlib.Core.Path.{subst}
use semrel_registry.Models.{
  Time, Plugin, PluginVersion, PluginDeletionSpec, VersionDeletionSpec, AccountDeletionAudit,
}
use semrel_registry.Result.{Result, ok, err, Exec, AppError, modify, ◌>>=◌}
use semrel_registry.Result.Triple.{Ends}
use semrel_registry.Result.Keeping.{
  Keeps, Atomic, Keeps-bind, Atomic-bind, Keeps-pure, Keeps-raise, Keeps-lift, Keeps-gets,
  Keeps-reject_if, Atomic-then, Atomic-Keeps,
}
use semrel_registry.Repository.Disk.{
  Disk, FileMeta, Files, access, load_meta, save_meta, save_plugin, or_not_found,
}
use semrel_registry.Repository.Reads.{
  load_plugin, load_all, load_live, get_by_id, get_by_name, get_by_namespaced_name, get_versions,
}
use semrel_registry.Repository.Writes.{
  create, update, update_status, update_validation_checks, set_security_advisories, delete,
  delete_version, record_account_deletion, incr_counters, add_version, set_version_yank,
  set_review_outcome, or_absent, delete_first, yank_first,
}
use semrel_registry.Repository.Contacts.{set_provenance, set_notify_email}
use semrel_registry.Repository.Soundness.{Triple-access}
use semrel_registry.Repository.Soundness.Uniqueness.{
  Call, creates, updates, sets_status, sets_checks, sets_advisories, deletes, deletes_version,
  records_account, counts, adds_version, yanks, reviews, proves, sets_email, after,
}

-- The directory holds the plugin files `files`.
abbrev pub HasFiles : Files → Disk → Type 0
HasFiles files s = s.plugins ≡ files

module _ {files : Files} where
  access-Keeps : Keeps (HasFiles files) access
  access-Keeps = Triple-access (HasFiles files) (λ s h. h) (λ s fs h. h)

  or_not_found-Keeps : {A : Type 0} (o : Option A) → Keeps (HasFiles files) (or_not_found o)
  or_not_found-Keeps none = Keeps-raise AppError.plugin_not_found
  or_not_found-Keeps (some a) = Keeps-pure a

  or_absent-Keeps : {A : Type 0} (o : Option A) → Keeps (HasFiles files) (or_absent o)
  or_absent-Keeps none = Keeps-raise AppError.plugin_not_found
  or_absent-Keeps (some a) = Keeps-pure a

  load_plugin-Keeps : (id : ℤ) → Keeps (HasFiles files) (load_plugin id)
  unfolding load_plugin
  load_plugin-Keeps id =
      Keeps-bind access-Keeps
        λ _. Keeps-bind (Keeps-gets _) λ o. Keeps-bind (or_not_found-Keeps o) λ p. Keeps-pure _

  load_all-Keeps : Keeps (HasFiles files) load_all
  unfolding load_all
  load_all-Keeps = Keeps-bind access-Keeps λ _. Keeps-gets _

  pub load_live-Keeps : (id : ℤ) → Keeps (HasFiles files) (load_live id)
  unfolding load_live
  load_live-Keeps id =
      Keeps-bind (load_plugin-Keeps id) λ p. Keeps-bind (Keeps-reject_if _ _) λ _. Keeps-pure p

  load_meta-Keeps : Keeps (HasFiles files) load_meta
  unfolding load_meta
  load_meta-Keeps = Keeps-bind access-Keeps λ _. Keeps-bind (Keeps-gets _) λ found. Keeps-pure _

  save_meta-Keeps : (m : FileMeta) → Keeps (HasFiles files) (save_meta m)
  unfolding save_meta modify
  save_meta-Keeps m = Keeps-bind access-Keeps λ _. record { at = λ s h. h }

  save_plugin-Atomic : (p : Plugin) → Atomic (HasFiles files) (save_plugin p)
  unfolding save_plugin modify
  save_plugin-Atomic p = Atomic-bind access-Keeps λ _. record { at = λ s h. tt }

  -- the methods that read
  pub get_by_id-Keeps : (id : ℤ) → Keeps (HasFiles files) (get_by_id id)
  unfolding get_by_id
  get_by_id-Keeps id = load_live-Keeps id

  pub get_by_name-Keeps : (name : Text) → Keeps (HasFiles files) (get_by_name name)
  unfolding get_by_name
  get_by_name-Keeps name = Keeps-bind load_all-Keeps λ ps. or_not_found-Keeps _

  pub get_by_namespaced_name-Keeps :
      (namespace name : Text) → Keeps (HasFiles files) (get_by_namespaced_name namespace name)
  unfolding get_by_namespaced_name
  get_by_namespaced_name-Keeps namespace name = Keeps-bind load_all-Keeps λ ps. or_not_found-Keeps _

  pub get_versions-Keeps : (id : ℤ) → Keeps (HasFiles files) (get_versions id)
  unfolding get_versions
  get_versions-Keeps id = Keeps-bind (load_plugin-Keeps id) λ p. Keeps-pure _

  -- the methods that load a live plugin, look for a change in it and save it
  change-Atomic :
      (id : ℤ) (f : Plugin → Plugin)
      → Atomic (HasFiles files) (load_live id >>= λ p. save_plugin (f p))
  change-Atomic id f = Atomic-bind (load_live-Keeps id) λ p. save_plugin-Atomic (f p)

  change_found-Atomic :
      (id : ℤ) (find_change : Plugin → Option (List PluginVersion))
      (f : Plugin → List PluginVersion → Plugin)
      → Atomic
          (HasFiles files)
          (load_live id >>= λ p. or_absent (find_change p) >>= λ vs. save_plugin (f p vs))
  change_found-Atomic id find_change f =
      Atomic-bind (load_live-Keeps id)
        λ p. Atomic-bind (or_absent-Keeps _) λ vs. save_plugin-Atomic (f p vs)

-- The answer of a call, without the value that it gives.
abbrev forget : {A : Type 0} → Result A → Result (Unit {0})
forget (ok a) = ok tt
forget (err e) = err e

-- What a call answers.
unfoldable pub answer : Time → Call → Disk → Result (Unit {0})
answer now (creates p) s = forget (create now p s).0
answer now (updates p) s = (update now p s).0
answer now (sets_status id status) s = (update_status now id status s).0
answer now (sets_checks id checks) s = (update_validation_checks now id checks s).0
answer now (sets_advisories id as') s = (set_security_advisories now id as' s).0
answer now (deletes spec) s = (delete now spec s).0
answer now (deletes_version spec) s = (delete_version now spec s).0
answer now (records_account audit) s = (record_account_deletion audit s).0
answer now (counts id version views downloads) s =
    (incr_counters now id version views downloads s).0
answer now (adds_version v) s = forget (add_version now v s).0
answer now (yanks spec) s = (set_version_yank now spec s).0
answer now (reviews spec) s = (set_review_outcome now spec s).0
answer now (proves id provenance) s = (set_provenance now id provenance s).0
answer now (sets_email id address) s = (set_notify_email id address s).0

module _ {files : Files} where
  create-Atomic : (now : Time) (p : Plugin) → Atomic (HasFiles files) (create now p)
  unfolding create
  create-Atomic now p = Atomic-bind load_all-Keeps λ ps. Atomic-bind (Keeps-lift _) λ _.
      Atomic-bind load_meta-Keeps
        λ m. Atomic-bind (save_meta-Keeps _) λ _. Atomic-then _ (save_plugin-Atomic _)

  update-Atomic : (now : Time) (p : Plugin) → Atomic (HasFiles files) (update now p)
  unfolding update
  update-Atomic now p =
      Atomic-bind (load_live-Keeps _)
        λ q. Atomic-bind load_all-Keeps λ ps. Atomic-bind (Keeps-lift _) λ _. save_plugin-Atomic _

  add_version-Atomic :
      (now : Time) (v : PluginVersion) → Atomic (HasFiles files) (add_version now v)
  unfolding add_version
  add_version-Atomic now v = Atomic-bind (load_live-Keeps _) λ p.
      Atomic-bind (Keeps-reject_if _ _) λ _.
        Atomic-bind load_meta-Keeps
          λ m. Atomic-bind (save_meta-Keeps _) λ _. Atomic-then _ (save_plugin-Atomic _)

  pub delete-Atomic :
      (now : Time) (spec : PluginDeletionSpec) → Atomic (HasFiles files) (delete now spec)
  unfolding delete
  delete-Atomic now spec = change-Atomic spec.plugin_id _

  pub delete_version-Atomic :
      (now : Time) (spec : VersionDeletionSpec) → Atomic (HasFiles files) (delete_version now spec)
  unfolding delete_version
  delete_version-Atomic now spec =
      change_found-Atomic spec.plugin_id (λ p. delete_first now spec p.versions) _

  record_account_deletion-Keeps :
      (audit : AccountDeletionAudit) → Keeps (HasFiles files) (record_account_deletion audit)
  unfolding record_account_deletion modify
  record_account_deletion-Keeps audit =
      Keeps-bind access-Keeps λ _.
        Keeps-bind (Keeps-gets _) λ events. Keeps-bind access-Keeps λ _. record { at = λ s h. h }

  set_notify_email-Keeps : (id : ℤ) (a : Text) → Keeps (HasFiles files) (set_notify_email id a)
  unfolding set_notify_email modify
  set_notify_email-Keeps id a = Keeps-bind (load_plugin-Keeps id) λ p.
      Keeps-bind access-Keeps λ _.
        Keeps-bind (Keeps-gets _) λ emails. Keeps-bind access-Keeps λ _. record { at = λ s h. h }

  -- the state after an action that failed
  module _ {A : Type 0} where
    Atomic-err :
        (m : Exec Disk A) (e : AppError) (s : Disk)
        → Atomic (HasFiles files) m
        → (m s).0 ≡ err e
        → HasFiles files s
        → HasFiles files (m s).1
    Atomic-err m e s h k held =
        subst (λ r. Ends (HasFiles files) (λ _ _. Unit) r (m s).1) k (h.at s held)

fails-forget : {A : Type 0} (r : Result A) (e : AppError) → forget r ≡ err e → r ≡ err e
fails-forget (ok a) e h = cc
fails-forget (err f) e h = let same : f ≡ e = cc in ap err same

-- A call of a method that writes changes no plugin file if it answers with an error, whatever
-- accesses to files fail.
pub answer-err :
    (now : Time) (c : Call) (s : Disk) (e : AppError)
    → answer now c s ≡ err e
    → (after now c s).plugins ≡ s.plugins
unfolding answer after
answer-err now (creates p) s e h =
    Atomic-err (create now p) e s (create-Atomic now p) (fails-forget _ e h) refl
answer-err now (updates p) s e h = Atomic-err (update now p) e s (update-Atomic now p) h refl
answer-err now (sets_status id status) s e h =
    Atomic-err (update_status now id status) e s (unfold update_status in change-Atomic id _) h refl
answer-err now (sets_checks id checks) s e h =
    Atomic-err (update_validation_checks now id checks) e s
      (unfold update_validation_checks in change-Atomic id _) h refl
answer-err now (sets_advisories id as') s e h =
    Atomic-err (set_security_advisories now id as') e s
      (unfold set_security_advisories in change-Atomic id _) h refl
answer-err now (deletes spec) s e h =
    Atomic-err (delete now spec) e s (delete-Atomic now spec) h refl
answer-err now (deletes_version spec) s e h =
    Atomic-err (delete_version now spec) e s (delete_version-Atomic now spec) h refl
answer-err now (records_account audit) s e h =
    Atomic-err (record_account_deletion audit) e s
      (Atomic-Keeps _ (record_account_deletion-Keeps audit)) h refl
answer-err now (counts id version views downloads) s e h =
    Atomic-err (incr_counters now id version views downloads) e s
      (unfold incr_counters in change-Atomic id _) h refl
answer-err now (adds_version v) s e h =
    Atomic-err (add_version now v) e s (add_version-Atomic now v) (fails-forget _ e h) refl
answer-err now (yanks spec) s e h =
    Atomic-err (set_version_yank now spec) e s
      (unfold set_version_yank in
        change_found-Atomic spec.plugin_id (λ p. yank_first now spec p.versions) _)
      h refl
answer-err now (reviews spec) s e h =
    Atomic-err (set_review_outcome now spec) e s
      (unfold set_review_outcome in change-Atomic spec.plugin_id _) h refl
answer-err now (proves id provenance) s e h =
    Atomic-err (set_provenance now id provenance) e s
      (unfold set_provenance in
        Atomic-bind load_all-Keeps λ ps. Atomic-bind (or_absent-Keeps _) λ p. save_plugin-Atomic p)
      h refl
answer-err now (sets_email id address) s e h =
    Atomic-err (set_notify_email id address) e s
      (Atomic-Keeps _ (set_notify_email-Keeps id address)) h refl
