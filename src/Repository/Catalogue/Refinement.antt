-- ===== src/Repository/Catalogue/Refinement.antt =====
-- The methods of api/repository/file_repo.go that change one plugin, against their meaning on the
-- catalogue.
use semrel_registry.Prelude.{
  ◌≡◌, refl, sym, ap, ◌∙◌, ◌⊎◌, inl, inr, Bool, true, false, Option, none, some, List, [], ◌∷◌,
  is_some, if◌then◌else◌,
}
use mathlib.Core.Path.{subst}
use semrel_registry.Prelude.Int.{ℤ, eq_ℤ}
use semrel_registry.Models.{Time, Plugin, PluginVersion}
use semrel_registry.Result.{
  Result, ok, err, io_failure, Exec, pure, raise, gets, modify, ◌>>=◌, ◌>>◌, plugin_not_found,
  continue, reject_if,
}
use semrel_registry.Repository.Disk.{
  Disk, access, lookup, save_plugin, to_json, put_file, or_not_found,
}
use semrel_registry.Repository.Disk.Files.{AreKeys, lookup-put_file, lookup-id}
use semrel_registry.Repository.Versions.{refresh_latest}
use semrel_registry.Repository.Reads.{load_plugin, load_live}
use semrel_registry.Repository.Writes.{
  update_status, update_validation_checks, set_security_advisories, delete, delete_version,
  incr_counters, set_version_yank, set_review_outcome, or_absent, delete_first, yank_first,
}
use semrel_registry.Repository.Catalogue.{
  Catalogue, catalogue_of, Edit, sets_status, sets_checks, sets_advisories, deletes,
  deletes_version, counts, yanks, reviews, perform, target, edited, specified, store, put, readable,
  then_edit, as_stored, or_not_there, with_versions,
}

-- The run ends as the catalogue's operation does, in a state whose view is the operation's.
pub record Agrees (run : Result (Unit {0}) × Disk) (spec : Result (Unit {0}) × Catalogue)
    : Type 0 where
  pub answer : run.0 ≡ spec.0
  pub view : (k : ℤ) → catalogue_of run.1 k ≡ spec.1 k

pub record Failed (run : Result (Unit {0}) × Disk) (s : Disk) : Type 0 where
  pub answer : run.0 ≡ err io_failure
  pub view : (k : ℤ) → catalogue_of run.1 k ≡ catalogue_of s k

-- The run fails at the disk and changes no plugin, or it is the catalogue's operation.
abbrev pub Refines : Result (Unit {0}) × Disk → Result (Unit {0}) × Catalogue → Disk → Type 0
Refines run spec s = Failed run s ⊎ Agrees run spec

abbrev with_faults : Disk → List Bool → Disk
with_faults s fs = record s { faults = fs }

put-view :
    (s : Disk) (k : ℤ) (p : Plugin)
    → p.id ≡ k
    → (j : ℤ)
    → lookup j (put_file p.id (to_json p) s.plugins) ≡ put k (to_json p) (catalogue_of s) j
put-view s k p e j =
    lookup-put_file p.id j (to_json p) s.plugins
    ∙ ap (λ i. if eq_ℤ i j then some (to_json p) else lookup j s.plugins) e

save_plugin-Refines :
    (s : Disk) (fs : List Bool) (k : ℤ) (p : Plugin)
    → p.id ≡ k
    → Refines (save_plugin p (with_faults s fs)) (store k (catalogue_of s) (ok (to_json p))) s
unfolding save_plugin access ◌>>=◌ modify
save_plugin-Refines s [] k p e = inr (record { answer = refl; view = put-view s k p e })
save_plugin-Refines s (true ∷ fs) k p e = inl (record { answer = refl; view = λ j. refl })
save_plugin-Refines s (false ∷ fs) k p e = inr (record { answer = refl; view = put-view s k p e })

-- A change that keeps the number of the plugin.
record KeepsId (f : Plugin → Result Plugin) : Type 0 where
  pub same : (p q : Plugin) → f p ≡ ok q → q.id ≡ p.id

written-Refines :
    (s : Disk) (fs : List Bool) (k : ℤ) (r : Result Plugin)
    → ((q : Plugin) → r ≡ ok q → q.id ≡ k)
    → Refines (continue r save_plugin (with_faults s fs)) (store k (catalogue_of s) (as_stored r)) s
written-Refines s fs k (ok q) same = save_plugin-Refines s fs k q (same q refl)
written-Refines s fs k (err e) same = inr (record { answer = refl; view = λ j. refl })

module _ (id : ℤ) (f : Plugin → Result Plugin) (keeps : KeepsId f)
    (next : Plugin → Exec Disk (Unit {0}))
    (is_next : (p : Plugin) (s : Disk) → next p s ≡ continue (f p) save_plugin s) where
  -- load_live behind its access to the file
  abbrev found_live : Option Plugin → Exec Disk Plugin
  found_live o = do
    p ← do q ← or_not_found o; pure (refresh_latest q)
    reject_if (is_some p.deleted_at) plugin_not_found
    pure p

  found_live-Refines :
      (s : Disk) (fs : List Bool) (o : Option Plugin)
      → ((p : Plugin) → o ≡ some p → p.id ≡ id)
      → Refines
          ((found_live o >>= next) (with_faults s fs))
          (store id (catalogue_of s) (as_stored (then_edit (readable o) f)))
          s
  unfolding ◌>>=◌ pure raise refresh_latest
  found_live-Refines s fs none same = inr (record { answer = refl; view = λ j. refl })
  found_live-Refines s fs (some p) same = go (is_some p.deleted_at)
    where
      go :
          (b : Bool)
          → Refines
              (((reject_if b plugin_not_found >> pure (refresh_latest p)) >>= next)
                (with_faults s fs))
              (store id (catalogue_of s) (
                as_stored
                  (then_edit (if b then err plugin_not_found else ok (refresh_latest p)) f)))
              s
      go true = inr (record { answer = refl; view = λ j. refl })
      go false =
          subst
            (λ run. Refines run (store id (catalogue_of s) (as_stored (f (refresh_latest p)))) s)
            (sym (is_next (refresh_latest p) (with_faults s fs)))
            (written-Refines s fs id (f (refresh_latest p))
              (λ q e. keeps.same (refresh_latest p) q e ∙ same p refl))

  edit-Refines :
      (s : Disk)
      → AreKeys s.plugins
      → Refines
          ((load_live id >>= next) s)
          (store id (catalogue_of s) (as_stored (then_edit (readable (catalogue_of s id)) f)))
          s
  unfolding load_live load_plugin access ◌>>=◌ gets
  edit-Refines s keys = go s.faults
    where
      known : (p : Plugin) → lookup id s.plugins ≡ some p → p.id ≡ id
      known p e = lookup-id id p s.plugins keys e

      go :
          (fs : List Bool)
          → Refines
              ((load_live id >>= next) (with_faults s fs))
              (store id (catalogue_of s) (as_stored (then_edit (readable (catalogue_of s id)) f)))
              s
      go [] = found_live-Refines s [] (lookup id s.plugins) known
      go (true ∷ fs) = inl (record { answer = refl; view = λ j. refl })
      go (false ∷ fs) = found_live-Refines s fs (lookup id s.plugins) known

ok-id : (r q : Plugin) → ok r ≡ ok q → q.id ≡ r.id
ok-id r q e = let same : r ≡ q = cc in ap (λ y. y.id) (sym same)

or_not_there-id :
    (p q : Plugin) (now : Time) (o : Option (List PluginVersion))
    → or_not_there (with_versions p now o) ≡ ok q
    → q.id ≡ p.id
or_not_there-id p q now none e = cc
or_not_there-id p q now (some vs) e = ok-id _ q e

edited-KeepsId : (now : Time) (e : Edit) → KeepsId (edited now e)
unfolding edited
edited-KeepsId now (sets_status id status) = record { same = λ p q e. ok-id _ q e }
edited-KeepsId now (sets_checks id checks) = record { same = λ p q e. ok-id _ q e }
edited-KeepsId now (sets_advisories id as') = record { same = λ p q e. ok-id _ q e }
edited-KeepsId now (deletes spec) = record { same = λ p q e. ok-id _ q e }
edited-KeepsId now (deletes_version spec) = record { same = λ p q e. or_not_there-id p q now _ e }
edited-KeepsId now (counts id version views downloads) = record { same = λ p q e. ok-id _ q e }
edited-KeepsId now (yanks spec) = record { same = λ p q e. or_not_there-id p q now _ e }
edited-KeepsId now (reviews spec) = record { same = λ p q e. ok-id _ q e }

absent_versions :
    (p : Plugin) (now : Time) (o : Option (List PluginVersion)) (s : Disk)
    → (do vs ← or_absent o; save_plugin (record p { versions = vs; updated_at = now })) s
      ≡ continue (or_not_there (with_versions p now o)) save_plugin s
unfolding ◌>>=◌ raise pure
absent_versions p now none s = refl
absent_versions p now (some vs) s = refl

by_edit :
    (now : Time) (e : Edit) (next : Plugin → Exec Disk (Unit {0}))
    → ((p : Plugin) (s : Disk) → next p s ≡ continue (edited now e p) save_plugin s)
    → (s : Disk) → AreKeys s.plugins
    → Refines ((load_live (target e) >>= next) s) (specified now e (catalogue_of s)) s
unfolding specified
by_edit now e next is_next s keys =
    edit-Refines (target e) (edited now e) (edited-KeepsId now e) next is_next s keys

-- Setting the status, the checks or the advisories of a plugin, deleting it or one of its versions,
-- counting, yanking and reviewing refine the operation on the catalogue, in a directory with one file
-- for each number: such a call fails at the disk and leaves every plugin as it was, or it answers as
-- the operation does and leaves the operation's catalogue, in which the plugin of the number, if it
-- is live, is replaced and no other one is touched.
pub perform-Refines :
    (now : Time) (e : Edit) (s : Disk)
    → AreKeys s.plugins
    → Refines (perform now e s) (specified now e (catalogue_of s)) s
unfolding perform edited update_status update_validation_checks set_security_advisories delete
    delete_version incr_counters set_version_yank set_review_outcome
perform-Refines now (sets_status id status) s keys =
    by_edit now (sets_status id status) _ (λ p t. refl) s keys
perform-Refines now (sets_checks id checks) s keys =
    by_edit now (sets_checks id checks) _ (λ p t. refl) s keys
perform-Refines now (sets_advisories id as') s keys =
    by_edit now (sets_advisories id as') _ (λ p t. refl) s keys
perform-Refines now (deletes spec) s keys = by_edit now (deletes spec) _ (λ p t. refl) s keys
perform-Refines now (deletes_version spec) s keys =
    by_edit now (deletes_version spec) _
      (λ p t. absent_versions p now (delete_first now spec p.versions) t) s keys
perform-Refines now (counts id version views downloads) s keys =
    by_edit now (counts id version views downloads) _ (λ p t. refl) s keys
perform-Refines now (yanks spec) s keys =
    by_edit now (yanks spec) _ (λ p t. absent_versions p now (yank_first now spec p.versions) t) s
      keys
perform-Refines now (reviews spec) s keys = by_edit now (reviews spec) _ (λ p t. refl) s keys
