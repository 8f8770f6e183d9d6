-- ===== src/Service/Review/Decision.antt =====
-- What a review records on the file-backed repository.
use semrel_registry.Prelude.{
  ◌≡◌, refl, ◌≢◌, ◌⊎◌, inl, inr, Bool, true, false, Option, some, [], arith, not, ◌&&◌, Bool-cases,
  ◌≤◌, length, ltb,
}
use mathlib.Core.Path.{subst}
use semrel_registry.Prelude.Int.{ℤ}
use semrel_registry.Text.{Text, text_eq, trim_space, is_empty}
use semrel_registry.Text.Equality.{text_eq_iff}
use semrel_registry.Models.{
  Time, Plugin, ReviewDecision, ReviewNotification, status_active, status_rejected,
}
use semrel_registry.Result.{Result, ok, err, Exec, pure, ◌>>=◌}
use semrel_registry.Result.Success.{lift-ok, both_ok-ok, check-ok}
use semrel_registry.Result.Triple.{Triple, Ends, Triple-bind, Triple-lift, Triple-weaken}
use semrel_registry.Result.Keeping.{Keeps}
use semrel_registry.Repository.Disk.{Disk, Files, lookup, to_json, save_plugin}
use semrel_registry.Repository.Disk.Files.{AreKeys, lookup-id}
use semrel_registry.Repository.Atomicity.{HasFiles}
use semrel_registry.Repository.Versions.{refresh_latest}
use semrel_registry.Repository.Reads.{load_live, get_by_id}
use semrel_registry.Repository.Writes.{set_review_outcome}
use semrel_registry.Repository.Interface.{file_repository}
use semrel_registry.Repository.Storing.{
  result_of, Anything, Stores, IsSteady, Triple-Stores, Triple-load_stored,
}
use semrel_registry.Service.Review.{review_plugin, validate_review, notify_review_outcome}
use semrel_registry.Service.Lookup.Files.{lookup_plugin-Keeps}
use semrel_registry.Repository.Soundness.{IsSound}

-- What the plugin carries after a decision.
pub record IsDecided (st why who : Text) (p : Plugin) : Type 0 where
  pub status : p.status ≡ st
  pub reason : p.rejection_reason ≡ why
  pub reviewer : p.reviewed_by ≡ who

-- A decision that may be recorded.
pub record IsDecision (st why : Text) : Type 0 where
  pub status : (st ≡ status_active) ⊎ (st ≡ status_rejected)
  pub explained : st ≡ status_rejected → why ≢ []
  pub short : length why ≤ 1000

known_status :
    (st : Text)
    → (not (text_eq st status_active) && not (text_eq st status_rejected)) ≡ false
    → (st ≡ status_active) ⊎ (st ≡ status_rejected)
known_status st h = elim (Bool-cases (text_eq st status_active)) [
  | inl active ↦ inl ((text_eq_iff st status_active).0 active)
  | inr other ↦ inr ((text_eq_iff st status_rejected).0 (ground (arith, other, h)))
]

explained_by :
    (st why : Text)
    → (text_eq st status_rejected && is_empty why) ≡ false
    → st ≡ status_rejected
    → why ≢ []
explained_by st why h rejected none_given =
    let same : text_eq st status_rejected ≡ true = (text_eq_iff st status_rejected).1 rejected in
    let both : is_empty [] ≡ false = rw (same, none_given) at h in cc

validate_review-IsDecision : (st why : Text) → validate_review st why ≡ ok tt → IsDecision st why
unfolding validate_review
validate_review-IsDecision st why h =
    let (known, h1) = both_ok-ok _ _ h in
    let (explained, h2) = both_ok-ok _ _ h1 in
    let (short, h3) = both_ok-ok _ _ h2 in
    record {
      status = known_status st (check-ok _ _ known);
      explained = explained_by st why (check-ok _ _ explained);
      short = let fits : ltb 1000 (length why) ≡ false = check-ok _ _ short in ground arith;
    }

IsDecided-IsSteady : (st why who : Text) → IsSteady (IsDecided st why who)
unfolding to_json refresh_latest
IsDecided-IsSteady st why who = record {
  written = λ p h. record { status = h.status; reason = h.reason; reviewer = h.reviewer };
  read = λ p h. record { status = h.status; reason = h.reason; reviewer = h.reviewer };
}

HasId-IsSteady : (id : ℤ) → IsSteady (λ p. p.id ≡ id)
unfolding to_json refresh_latest
HasId-IsSteady id = record { written = λ p h. h; read = λ p h. h }

-- An action that keeps the files has them afterwards, if it succeeds.
Triple-Keeps :
    {A : Type 0} {files : Files} (m : Exec Disk A)
    → Keeps (HasFiles files) m
    → Triple Anything (HasFiles files) m (λ _. HasFiles files)
Triple-Keeps {files} m h = record { at = λ s k. forget_end (m s).0 (m s).1 (h.at s k) }
  where
    forget_end :
        {A : Type 0} (r : Result A) (s : Disk)
        → Ends (HasFiles files) (λ _. HasFiles files) r s
        → Ends Anything (λ _. HasFiles files) r s
    forget_end (ok a) s k = k
    forget_end (err e) s k = tt

module _ (now : Time) (st why who : Text) {files : Files} (keys : AreKeys files) where
  Triple-set_review_outcome :
      (id : ℤ)
      → Triple Anything
          (HasFiles files)
          (set_review_outcome now
            (record { plugin_id = id; status = st; reviewer = who; reason = why }))
          (λ _. Stores (IsDecided st why who) id)
  unfolding set_review_outcome
  Triple-set_review_outcome id =
      Triple-bind (HasFiles files) (load_live id) (λ p s. p.id ≡ id) _ _
        (Triple-weaken _ _ _ _
          (λ s h. record {
            holds = λ q e. lookup-id id q files keys (subst (λ m. lookup id m ≡ some q) h e);
          })
          (Triple-load_stored (λ p. p.id ≡ id) (HasId-IsSteady id) id))
        λ p. record { at = λ s e. saved p e s }
    where
      decided : Plugin → Plugin
      decided p = record p {
        status = st;
        updated_at = now;
        rejection_reason = why;
        reviewed_at = some now;
        reviewed_by = who;
      }

      saved :
          (p : Plugin)
          → p.id ≡ id
          → (s : Disk)
          → Ends Anything
              (λ _. Stores (IsDecided st why who) id)
              (save_plugin (decided p) s).0
              (save_plugin (decided p) s).1
      saved p e s =
          subst
            (λ i.
              Ends Anything (λ _. Stores (IsDecided st why who) i) (save_plugin (decided p) s).0
                (save_plugin (decided p) s).1)
            e
            ((Triple-Stores (IsDecided st why who) (IsDecided-IsSteady st why who) (decided p)
                (record { status = refl; reason = refl; reviewer = refl })).at
              s tt)

Decided : (st why who : Text) → Plugin × Option ReviewNotification → Type 0
Decided st why who r = IsDecided st why who r.0

-- Telling the author changes nothing in what is given back.
told :
    (now : Time) (q : Plugin) (approved : Bool) (why who : Text) (R : Plugin → Type 0)
    → Triple Anything
        (λ s. R q)
        (notify_review_outcome (file_repository now) q approved why who >>= λ n.
          pure {A = Plugin × Option ReviewNotification} (q, n))
        (λ r s. R r.0)
unfolding notify_review_outcome pure ◌>>=◌
told now q approved why who R = record { at = λ s h. h }

review_plugin-Triple :
    (now : Time) (name st : Text) (decision : ReviewDecision) (who : Text) {files : Files}
    → AreKeys files
    → Triple Anything
        (HasFiles files)
        (review_plugin (file_repository now) name st decision who)
        (λ r s. Decided st (trim_space decision.reason) who r)
unfolding review_plugin Decided get_by_id
review_plugin-Triple now name st decision who {files} keys =
    Triple-bind (HasFiles files) _ (λ _. HasFiles files) _ _
      (Triple-lift (validate_review st why) (HasFiles files) (λ _. HasFiles files) (λ s h. tt)
        (λ u e s h. h))
      λ _.
        Triple-bind (HasFiles files) _ (λ _. HasFiles files) _ _
          (Triple-Keeps _ (lookup_plugin-Keeps now name))
          λ p.
            Triple-bind (HasFiles files) _ (λ _. Stores R p.id) _ _
              (Triple-set_review_outcome now st why who keys p.id)
              λ _.
                Triple-bind (Stores R p.id) _ (λ q s. R q) _ _
                  (Triple-load_stored R (IsDecided-IsSteady st why who) p.id)
                  λ q. told now q (text_eq st status_active) why who R
  where
    why : Text
    why = trim_space decision.reason

    R : Plugin → Type 0
    R = IsDecided st why who

-- A review that succeeds on the file-backed repository with a sound data directory approves or
-- rejects, gives a reason if it rejects, of at most 1000 bytes, and the plugin that it gives back
-- carries the status, the reason without the white space around it, and the reviewer.
pub review_plugin-IsDecided :
    (now : Time) (name st : Text) (decision : ReviewDecision) (who : Text) (s : Disk) (p : Plugin)
    (n : Option ReviewNotification)
    → IsSound s
    → (review_plugin (file_repository now) name st decision who s).0 ≡ ok (p, n)
    → IsDecision st (trim_space decision.reason) × IsDecided st (trim_space decision.reason) who p
unfolding review_plugin Decided
review_plugin-IsDecided now name st decision who s p n sound h = (
  validate_review-IsDecision st (trim_space decision.reason) (lift-ok _ _ s (p, n) h).0,
  result_of (Decided st (trim_space decision.reason) who) _ _ (p, n)
      ((review_plugin-Triple now name st decision who sound.keys).at s refl) h,
)
