-- ===== src/Repository/Storing.antt =====
-- What a plugin is read back with after it was stored: a property of plugins that neither the JSON
-- nor the order of the versions changes.
use semrel_registry.Prelude.{◌≡◌, some, List, Bool, is_some}
use mathlib.Core.Path.{subst}
use mathlib.Core.Option.{some-injective}
use semrel_registry.Prelude.Int.{ℤ, pos, eq_ℤ_refl}
use semrel_registry.Models.{Time, Plugin}
use semrel_registry.Result.{Exec, Result, ok, err, lift, plugin_not_found}
use semrel_registry.Result.Triple.{
  Triple, Ends, Triple-bind, Triple-gets, Triple-modify, Triple-weaken, Triple-pure,
  Triple-reject_if,
}
use semrel_registry.Repository.Disk.{
  Disk, lookup, access, load_meta, save_meta, save_plugin, put_file, to_json, or_not_found,
}
use semrel_registry.Repository.Disk.Files.{lookup-put_file}
use semrel_registry.Repository.Versions.{refresh_latest}
use semrel_registry.Repository.Identity.{normalize_aliases, ensure_unique_identity}
use semrel_registry.Repository.Reads.{load_plugin, load_all, load_live}
use semrel_registry.Repository.Writes.{create}
use semrel_registry.Repository.Soundness.{Triple-access}
use semrel_registry.Repository.Soundness.Saving.{Triple-or_not_found}

abbrev pub Anything : Disk → Type 0
Anything s = Unit

-- The file of number `id`, if it is there, has the property.
pub record Stores (R : Plugin → Type 0) (id : ℤ) (s : Disk) : Type 0 where
  pub holds : (q : Plugin) → lookup id s.plugins ≡ some q → R q

pub record IsSteady (R : Plugin → Type 0) : Type 0 where
  pub written : (p : Plugin) → R p → R (to_json p)
  pub read : (p : Plugin) → R p → R (refresh_latest p)

Ends-anywhere : {A : Type 0} (r : Result A) (s : Disk) → Ends Anything (λ _. Anything) r s
Ends-anywhere (ok a) s = tt
Ends-anywhere (err e) s = tt

pub any_state : {A : Type 0} (m : Exec Disk A) → Triple Anything Anything m (λ _. Anything)
any_state m = record { at = λ s h. Ends-anywhere (m s).0 (m s).1 }

-- The postcondition of a run that succeeds.
pub result_of :
    {A : Type 0} (Q : A → Type 0) (r : Result A) (s : Disk) (a : A)
    → Ends Anything (λ b t. Q b) r s
    → r ≡ ok a
    → Q a
result_of Q (ok b) s a h e = let same : b ≡ a = cc in subst Q same h
result_of Q (err f) s a h e = absurd cc

module _ (R : Plugin → Type 0) (steady : IsSteady R) where
  accessed :
      (P : Disk → Type 0)
      → ((s : Disk) (fs : List Bool) → P s → P (record s { faults = fs }))
      → Triple Anything P access (λ _. P)
  accessed P k = Triple-access P (λ s h. tt) k

  pub Triple-Stores :
      (p : Plugin) → R p → Triple Anything Anything (save_plugin p) (λ _. Stores R p.id)
  unfolding save_plugin
  Triple-Stores p h =
      Triple-bind Anything access (λ _. Anything) _ _ (accessed Anything (λ s fs a. a))
        λ _. Triple-weaken _ _ _ _ puts (Triple-modify _ (Stores R p.id))
    where
      puts :
          (s : Disk)
          → Unit {0}
          → Stores R p.id (record s { plugins = put_file p.id (to_json p) s.plugins })
      puts s u = record {
        holds = λ q e.
            let now_q : to_json p ≡ q =
              some-injective _ q
                (rw (lookup-put_file p.id p.id (to_json p) s.plugins, eq_ℤ_refl p.id) at e) in
            subst R now_q (steady.written p h);
      }

  pub Triple-load_stored : (id : ℤ) → Triple Anything (Stores R id) (load_live id) (λ p s. R p)
  unfolding load_live load_plugin
  Triple-load_stored id =
      Triple-bind (Stores R id) (load_plugin id) (λ p s. R p) _ _ loads
        λ p.
          Triple-bind (λ s. R p) _ (λ _ s. R p) _ _
            (Triple-reject_if (is_some p.deleted_at) plugin_not_found (λ s. R p) (λ s. R p)
              (λ s h. tt) (λ s h e. h))
            λ _. Triple-pure p (λ p s. R p)
    where
      loads : Triple Anything (Stores R id) (load_plugin id) (λ p s. R p)
      loads =
          Triple-bind (Stores R id) access (λ _. Stores R id) _ _
            (accessed (Stores R id) (λ s fs h. record { holds = h.holds }))
            λ _.
              Triple-bind (Stores R id) _ (λ o s. (q : Plugin) → o ≡ some q → R q) _ _
                (Triple-weaken _ _ _ _ (λ s h. h.holds)
                  (Triple-gets (λ s. lookup id s.plugins) (λ o s. (q : Plugin) → o ≡ some q → R q)))
                λ o.
                  Triple-bind _ (or_not_found o) (λ q s. R q) _ _
                    (Triple-or_not_found o _ (λ q s. R q) (λ s h. tt) (λ q e s h. h q e))
                    λ q.
                      Triple-weaken _ _ _ _ (λ s h. steady.read q h)
                        (Triple-pure (refresh_latest q) (λ p s. R p))

  pub Triple-create_stored :
      (now : Time) (plugin : Plugin)
      → ((id : ℤ)
          → R (record plugin {
            id = id;
            aliases = normalize_aliases plugin.aliases;
            created_at = now;
            updated_at = now;
          }))
      → Triple Anything Anything (create now plugin) (λ id. Stores R id)
  unfolding create
  Triple-create_stored now plugin h =
      Triple-bind Anything load_all (λ _. Anything) _ _ (any_state load_all)
        λ ps.
          Triple-bind Anything (lift (ensure_unique_identity ps _ (pos 0))) (λ _. Anything) _ _
            (any_state _)
            λ _.
              Triple-bind Anything load_meta (λ _. Anything) _ _ (any_state _)
                λ m.
                  Triple-bind Anything (save_meta _) (λ _. Anything) _ _ (any_state _)
                    λ _.
                      Triple-bind Anything (save_plugin _) (λ _. Stores R m.next_plugin_id) _ _
                        (Triple-Stores _ (h m.next_plugin_id))
                        λ _. Triple-pure m.next_plugin_id (λ id. Stores R id)
