-- ===== src/Repository/Soundness/Creating.antt =====
-- The methods that give a plugin its number or its keys, and those that read all plugins.
use semrel_registry.Prelude.{
  ◌≡◌, refl, ◌≢◌, Bool, true, Option, none, some, List, [], ◌∷◌, arith, ap, sym, ◌∙◌, map, All,
  Bool-cases, inl, inr,
}
use mathlib.Core.Path.{subst}
use mathlib.Core.Option.{some-injective}
use mathlib.Core.Bool.{false≢true}
use mathlib.Core.Logic.{◌⊎◌}
use semrel_registry.Prelude.Int.{
  ℤ, pos, eq_ℤ, eq_ℤ_iff, ◌<ℤ◌, ◌≤ℤ◌, max_int64, add64, add64_one_parts,
}
use semrel_registry.Text.{Text}
use semrel_registry.Models.{Time, Plugin, is_live}
use semrel_registry.Result.{ok, lift, gets}
use semrel_registry.Result.Triple.{
  Triple, Triple-bind, Triple-gets, Triple-modify, Triple-weaken, Triple-lift, Triple-pure,
}
use semrel_registry.Repository.Identity.{claims, ensure_unique_identity, normalize_aliases}
use semrel_registry.Repository.Identity.Claims.{Claims, Apart, ensure_unique_identity-Apart}
use semrel_registry.Repository.Versions.{refresh_latest}
use semrel_registry.Repository.Disk.{
  Disk, FileMeta, Files, access, save_plugin, lookup, values, load_meta, save_meta, put_file,
  to_json, or_first,
}
use semrel_registry.Repository.Disk.Files.{lookup-put_file, AreKeys-put_file, lookup-id, All-lookup}
use semrel_registry.Repository.Reads.{load_all}
use semrel_registry.Repository.Writes.{create}
use semrel_registry.Repository.Soundness.{IsSound, Sound, Triple-access, next_id}

-- The candidate shares no key with a live plugin of the directory, but for the excluded number.
abbrev pub IsFree : Plugin → ℤ → Files → Type 0
IsFree p exclude files = (k : ℤ) (q : Plugin) → lookup k files ≡ some q → Apart p exclude q

All-map-refresh :
    (P : Plugin → Type 0) (files : Files)
    → ((q : Plugin) → P (refresh_latest q) → P q)
    → All P (map refresh_latest (values files))
    → All P (values files)
All-map-refresh P [] back h = tt
All-map-refresh P ((k, q) ∷ m) back (h, hs) = (back q h, All-map-refresh P m back hs)

Apart-refresh :
    (p : Plugin) (exclude : ℤ) (q : Plugin) → Apart p exclude (refresh_latest q) → Apart p exclude q
unfolding refresh_latest claims
Apart-refresh p exclude q h = h

pub IsFree-ensure_unique_identity :
    (files : Files) (p : Plugin) (exclude : ℤ)
    → ensure_unique_identity (map refresh_latest (values files)) p exclude ≡ ok tt
    → IsFree p exclude files
IsFree-ensure_unique_identity files p exclude h k q e =
    All-lookup (Apart p exclude) k q files
      (All-map-refresh (Apart p exclude) files (Apart-refresh p exclude)
        (ensure_unique_identity-Apart _ p exclude h))
      e

-- A candidate with free keys takes a new or its own place in a sound directory.
module _ {files : Files} {meta : Option FileMeta} (h : Sound files meta) where
  module _ (id : ℤ) (p : Plugin) (exclude : ℤ) (same_id : p.id ≡ id) (positive : pos 0 <ℤ id)
      (low : id <ℤ next_id meta) (free : IsFree p exclude files)
      (excluded : (k : ℤ) (q : Plugin) → lookup k files ≡ some q → q.id ≡ exclude → k ≡ id) where
    file_cases :
        (k : ℤ) (x : Plugin)
        → lookup k (put_file id p files) ≡ some x
        → ((id ≡ k) × (p ≡ x)) ⊎ ((id ≢ k) × (lookup k files ≡ some x))
    file_cases k x e = elim (Bool-cases (eq_ℤ id k)) [
      | inl here ↦ inl (
        (eq_ℤ_iff id k).0 here,
        some-injective p x (sym (rw here at (lookup-put_file id k p files)) ∙ e),
      )
      | inr other ↦ inr (
        λ same. false≢true (sym other ∙ (eq_ℤ_iff id k).1 same),
        sym (rw other at (lookup-put_file id k p files)) ∙ e,
      )
    ]

    -- No other live plugin has one of its keys.
    no_other :
        (k : ℤ) (q : Plugin) (r : Text)
        → id ≢ k
        → lookup k files ≡ some q
        → is_live q ≡ true
        → Claims p r
        → Claims q r
        → ⊥
    no_other k q r other e live cp cq =
        free k q e live (λ same. other (sym (excluded k q e same))) r cp cq

    pub put_free-Sound : Sound (put_file id p files) meta
    put_free-Sound = record {
      keys = AreKeys-put_file id p files h.keys same_id;
      positive = h.positive;
      below = λ k x e. elim (file_cases k x e) [
        | inl (here, _) ↦ subst (λ i. (pos 0 <ℤ i) × (i <ℤ next_id meta)) here (positive, low)
        | inr (_, was) ↦ h.below k x was
      ];
      unique = λ k j x y ek ej lx ly r cx cy. elim (file_cases k x ek) [
        | inl (at_k, is_x) ↦ elim (file_cases j y ej) [
          | inl (at_j, _) ↦ sym at_k ∙ at_j
          | inr (not_j, was) ↦
              absurd (no_other j y r not_j was ly (subst (λ z. Claims z r) (sym is_x) cx) cy)
        ]
        | inr (not_k, was_x) ↦ elim (file_cases j y ej) [
          | inl (_, is_y) ↦
              absurd (no_other k x r not_k was_x lx (subst (λ z. Claims z r) (sym is_y) cy) cx)
          | inr (not_j, was_y) ↦ h.unique k j x y was_x was_y lx ly r cx cy
        ]
      ];
    }

-- A condition that does not look at the faults.
abbrev pub Steady : (Disk → Type 0) → Type 0
Steady P = (s : Disk) (fs : List Bool) → P s → P (record s { faults = fs })

module _ {Inv : Disk → Type 0} (P : Disk → Type 0) (inv : (s : Disk) → P s → Inv s)
    (steady : Steady P) where
  pub Triple-load_all :
      Triple Inv P load_all (λ ps s. P s × (ps ≡ map refresh_latest (values s.plugins)))
  unfolding load_all
  Triple-load_all =
      Triple-bind P access (λ _. P) _ _ (Triple-access P inv steady)
        λ _.
          Triple-weaken _ _ _ _ (λ s h. (h, refl))
            (Triple-gets _ (λ ps s. P s × (ps ≡ map refresh_latest (values s.plugins))))

  pub Triple-load_meta : Triple Inv P load_meta (λ m s. P s × (m.next_plugin_id ≡ next_id s.meta))
  unfolding load_meta
  Triple-load_meta =
      Triple-bind P access (λ _. P) _ _ (Triple-access P inv steady)
        λ _.
          Triple-bind P (gets (λ s. s.meta)) (λ o s. P s × (o ≡ s.meta)) _ _
            (Triple-weaken _ _ _ _ (λ s h. (h, refl))
              (Triple-gets (λ s. s.meta) (λ o s. P s × (o ≡ s.meta))))
            λ o.
              Triple-weaken _ _ _ _ (λ s h. (h.0, next_of o ∙ ap next_id h.1))
                (Triple-pure _ (λ m s. P s × (m.next_plugin_id ≡ next_id s.meta)))
    where
      next_of : (o : Option FileMeta) → (or_first o).next_plugin_id ≡ next_id o
      next_of none = refl
      next_of (some m) = refl

  pub Triple-save_meta :
      (m : FileMeta) (Q : Disk → Type 0)
      → ((s : Disk) → P s → Q (record s { meta = some m }))
      → Triple Inv P (save_meta m) (λ _. Q)
  unfolding save_meta
  Triple-save_meta m Q k =
      Triple-bind P access (λ _. P) _ _ (Triple-access P inv steady)
        λ _. Triple-weaken _ _ _ _ k (Triple-modify (λ s. record s { meta = some m }) Q)

  pub Triple-save_as :
      (p : Plugin) (Q : Disk → Type 0)
      → ((s : Disk) → P s → Q (record s { plugins = put_file p.id (to_json p) s.plugins }))
      → Triple Inv P (save_plugin p) (λ _. Q)
  unfolding save_plugin
  Triple-save_as p Q k =
      Triple-bind P access (λ _. P) _ _ (Triple-access P inv steady)
        λ _.
          Triple-weaken _ _ _ _ k
            (Triple-modify (λ s. record s { plugins = put_file p.id (to_json p) s.plugins }) Q)

-- The number `id` is given out, and stands for no file.
abbrev Reserved : ℤ → Plugin → Disk → Type 0
Reserved id p s =
    Sound s.plugins s.meta × (pos 0 <ℤ id) × (id <ℤ next_id s.meta) × IsFree p (pos 0) s.plugins

pub Sound-grow :
    {files : Files} (meta meta' : Option FileMeta)
    → Sound files meta
    → next_id meta ≤ℤ next_id meta'
    → Sound files meta'
Sound-grow meta meta' h le = record {
  keys = h.keys;
  positive = let p : pos 0 <ℤ next_id meta = h.positive in omega arith;
  below = λ k p e. let (above, low) = h.below k p e in (above, omega arith);
  unique = h.unique;
}

-- The next number is one more, while numbers fit an int64.
next_number : (n : ℤ) → pos 0 <ℤ n → n <ℤ max_int64 → n <ℤ add64 n (pos 1)
next_number n positive room = let (p, q) = add64_one_parts n room (omega arith) in omega arith

module _ (now : Time) (plugin : Plugin) where
  abbrev candidate : Plugin
  candidate = record plugin { aliases = normalize_aliases plugin.aliases }

  abbrev numbered : ℤ → Plugin
  numbered id = record candidate { id = id; created_at = now; updated_at = now }

  -- The directory is sound and another number can be given out.
  abbrev pub HasRoom : Disk → Type 0
  HasRoom s = IsSound s × (next_id s.meta <ℤ max_int64)

  abbrev Checked : Disk → Type 0
  Checked s = IsSound s × (next_id s.meta <ℤ max_int64) × IsFree candidate (pos 0) s.plugins

  reserves :
      (m : FileMeta) (s : Disk)
      → Checked s × (m.next_plugin_id ≡ next_id s.meta)
      → Reserved m.next_plugin_id candidate
          (record s { meta = some (record m { next_plugin_id = add64 m.next_plugin_id (pos 1) }) })
  reserves m s ((h, room, free), e) =
      let up : next_id s.meta <ℤ add64 m.next_plugin_id (pos 1) =
        subst (λ n. next_id s.meta <ℤ add64 n (pos 1)) (sym e)
          (next_number (next_id s.meta) h.positive room) in
      (
        Sound-grow s.meta _ h (omega arith),
        subst (λ n. pos 0 <ℤ n) (sym e) h.positive,
        subst (λ n. n <ℤ add64 m.next_plugin_id (pos 1)) (sym e) up,
        free,
      )

  installs :
      (id : ℤ) (s : Disk)
      → Reserved id candidate s
      → Sound (put_file id (to_json (numbered id)) s.plugins) s.meta
  unfolding to_json claims
  installs id s (h, positive, low, free) =
      put_free-Sound h id (to_json (numbered id)) (pos 0) refl positive low free λ k q e zero_id.
        let (above, _) = h.below k q e in
        let is_k : q.id ≡ k = lookup-id k q s.plugins h.keys e in
        let none_there : pos 0 <ℤ pos 0 = subst (λ n. pos 0 <ℤ n) (sym is_k ∙ zero_id) above in
        absurd (omega arith)

  -- Create keeps a sound directory sound, on every path and whatever accesses to files fail, as long
  -- as the number after the next one fits an int64.
  pub create-IsSound : Triple IsSound HasRoom (create now plugin) (λ _. IsSound)
  unfolding create
  create-IsSound =
      Triple-bind HasRoom load_all _ _ _ (Triple-load_all HasRoom (λ s h. h.0) (λ s fs h. h)) λ ps.
        Triple-bind _ (lift (ensure_unique_identity ps candidate (pos 0))) (λ _. Checked) _ _
          (Triple-lift _ _ (λ _. Checked) (λ s h. h.0.0)
            (λ u passed s h. (h.0.0, h.0.1, is_free ps u passed s h.1)))
          λ _.
            Triple-bind Checked load_meta _ _ _
              (Triple-load_meta Checked (λ s h. h.0) (λ s fs h. h))
              λ m.
                Triple-bind _ (save_meta _) (λ _. Reserved m.next_plugin_id candidate) _ _
                  (Triple-save_meta _ (λ s h. h.0.0) (λ s fs h. h) _
                    (Reserved m.next_plugin_id candidate) (reserves m))
                  λ _.
                    Triple-bind _ (save_plugin (numbered m.next_plugin_id)) (λ _. IsSound) _ _
                      (Triple-save_as (Reserved m.next_plugin_id candidate) (λ s h. h.0)
                        (λ s fs h. h) (numbered m.next_plugin_id) IsSound
                        (installs m.next_plugin_id))
                      λ _. Triple-pure m.next_plugin_id (λ _. IsSound)
    where
      is_free :
          (ps : List Plugin) (u : Unit {0})
          → ensure_unique_identity ps candidate (pos 0) ≡ ok u
          → (s : Disk) → ps ≡ map refresh_latest (values s.plugins)
          → IsFree candidate (pos 0) s.plugins
      is_free ps u passed s e =
          IsFree-ensure_unique_identity s.plugins candidate (pos 0)
            (subst (λ qs. ensure_unique_identity qs candidate (pos 0) ≡ ok u) e passed)
