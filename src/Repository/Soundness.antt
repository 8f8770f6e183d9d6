-- ===== src/Repository/Soundness.antt =====
-- The invariant of the data directory, and the rules by which each method keeps it: one file for
-- each number, numbers that were handed out and are not handed out again, and no key under which
-- two plugins that are not deleted are found.
pub mod Saving
pub mod Creating
pub mod Methods
pub mod Updating
pub mod Uniqueness
use semrel_registry.Prelude.{◌≡◌, refl, Bool, true, false, Option, none, some, List, [], ◌∷◌}
use semrel_registry.Prelude.Int.{ℤ, pos, ◌<ℤ◌}
use semrel_registry.Text.{Text}
use semrel_registry.Models.{Plugin, is_live}
use semrel_registry.Result.{Result, ok, err}
use semrel_registry.Result.Triple.{Triple, Ends}
use semrel_registry.Repository.Identity.{claims}
use semrel_registry.Repository.Identity.Claims.{Claims}
use semrel_registry.Repository.Versions.{refresh_latest}
use semrel_registry.Repository.Disk.{Disk, FileMeta, Files, lookup, access, outcome, later}
use semrel_registry.Repository.Disk.Files.{AreKeys}

-- the number that the next plugin gets
abbrev pub next_id : Option FileMeta → ℤ
next_id none = pos 1
next_id (some m) = m.next_plugin_id

pub record Sound (files : Files) (meta : Option FileMeta) : Type 0 where
  pub keys : AreKeys files
  pub positive : pos 0 <ℤ next_id meta
  pub below : (k : ℤ) (p : Plugin) → lookup k files ≡ some p → (pos 0 <ℤ k) × (k <ℤ next_id meta)
  pub unique :
      (k j : ℤ) (p q : Plugin)
      → lookup k files ≡ some p
      → lookup j files ≡ some q
      → is_live p ≡ true
      → is_live q ≡ true
      → (r : Text) → Claims p r
      → Claims q r
      → k ≡ j

abbrev pub IsSound : Disk → Type 0
IsSound s = Sound s.plugins s.meta

-- `p` has the number and the keys of `q`, and is not live where `q` is not.
pub record Same (q p : Plugin) : Type 0 where
  pub id : p.id ≡ q.id
  pub claims : claims p ≡ claims q
  pub live : is_live p ≡ true → is_live q ≡ true

-- `p` comes from the file of number `id`.
pub record Loaded (id : ℤ) (p : Plugin) (s : Disk) : Type 0 where
  pub stored : Plugin
  pub found : lookup id s.plugins ≡ some stored
  pub same : Same stored p

pub refresh_latest-Same : (p : Plugin) → Same p (refresh_latest p)
unfolding refresh_latest claims
refresh_latest-Same p = record { id = refl; claims = refl; live = λ h. h }

-- An access to a file changes nothing but the schedule of faults.
pub Triple-access :
    {Inv : Disk → Type 0} (P : Disk → Type 0)
    → ((s : Disk) → P s → Inv s)
    → ((s : Disk) (fs : List Bool) → P s → P (record s { faults = fs }))
    → Triple Inv P access (λ _. P)
unfolding access
Triple-access {Inv} P h k = record { at = λ s p. go s (outcome s.faults) (k s (later s.faults) p) }
  where
    go :
        (s : Disk) (r : Result (Unit {0}))
        → P (record s { faults = later s.faults })
        → Ends Inv (λ _. P) r (record s { faults = later s.faults })
    go s (ok u) p = p
    go s (err e) p = h _ p
