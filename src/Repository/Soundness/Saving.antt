-- ===== src/Repository/Soundness/Saving.antt =====
-- Loading a plugin and saving it again with the same number and keys.
use semrel_registry.Prelude.{
  ◌≡◌, refl, true, Option, none, some, is_some, Bool-cases, inl, inr, sym, ◌∙◌, ap, not,
}
use mathlib.Core.Path.{subst}
use mathlib.Core.Option.{some-injective}
use semrel_registry.Prelude.Int.{ℤ, eq_ℤ, eq_ℤ_iff}
use semrel_registry.Text.{Text}
use semrel_registry.Models.{Plugin, is_live}
use semrel_registry.Result.{pure, raise, ◌>>=◌, plugin_not_found}
use semrel_registry.Result.Triple.{
  Triple, Triple-bind, Triple-pure, Triple-gets, Triple-modify, Triple-weaken, Triple-reject_if,
}
use semrel_registry.Repository.Identity.{claims, mem}
use semrel_registry.Repository.Identity.Claims.{Claims}
use semrel_registry.Repository.Versions.{refresh_latest}
use semrel_registry.Repository.Disk.{
  Disk, FileMeta, Files, lookup, access, to_json, put_file, save_plugin, or_not_found,
}
use semrel_registry.Repository.Disk.Files.{lookup-put_file, AreKeys-put_file, lookup-id}
use semrel_registry.Repository.Reads.{load_plugin, load_live}
use semrel_registry.Repository.Writes.{or_absent}
use semrel_registry.Repository.Soundness.{
  Sound, IsSound, Same, Loaded, refresh_latest-Same, Triple-access,
}

pub Same-trans : {p q r : Plugin} → Same p q → Same q r → Same p r
Same-trans h k = record {
  id = k.id ∙ h.id;
  claims = k.claims ∙ h.claims;
  live = λ e. h.live (k.live e);
}

pub to_json-Same : (p : Plugin) → Same p (to_json p)
unfolding to_json claims
to_json-Same p = record { id = refl; claims = refl; live = λ h. h }

pub Claims-Same : {q p : Plugin} → Same q p → (r : Text) → Claims p r → Claims q r
Claims-Same h r c = subst (λ cs. mem r cs ≡ true) h.claims c

-- A plugin in the place of one with the same keys leaves a sound directory sound.
module _ {files : Files} {meta : Option FileMeta} (h : Sound files meta) where
  module _ (id : ℤ) (q p : Plugin) (found : lookup id files ≡ some q) (same : Same q p) where
    -- Each file of the new directory stands for one of the old, with the same keys.
    old_file :
        (k : ℤ) (x : Plugin)
        → lookup k (put_file id p files) ≡ some x
        → (y : Plugin) × (lookup k files ≡ some y) × Same y x
    old_file k x e = elim (Bool-cases (eq_ℤ id k)) [
      | inl here ↦
          let now_p : p ≡ x =
            some-injective p x (sym (rw here at (lookup-put_file id k p files)) ∙ e) in
          (
            q,
            subst (λ i. lookup i files ≡ some q) ((eq_ℤ_iff id k).0 here) found,
            subst (Same q) now_p same,
          )
      | inr other ↦ (
        x,
        sym (rw other at (lookup-put_file id k p files)) ∙ e,
        record { id = refl; claims = refl; live = λ l. l },
      )
    ]

    put_file-Sound : Sound (put_file id p files) meta
    put_file-Sound = record {
      keys = AreKeys-put_file id p files h.keys (same.id ∙ lookup-id id q files h.keys found);
      positive = h.positive;
      below = λ k x e. let (y, was, _) = old_file k x e in h.below k y was;
      unique = λ k j x y ek ej lx ly r cx cy.
          let (x', wasx, sx) = old_file k x ek in
          let (y', wasy, sy) = old_file j y ej in
          h.unique k j x' y' wasx wasy (sx.live lx) (sy.live ly) r (Claims-Same sx r cx)
            (Claims-Same sy r cy);
    }

module _ {A : Type 0} {Inv : Disk → Type 0} where
  pub Triple-or_not_found :
      (o : Option A) (P : Disk → Type 0) (Q : A → Disk → Type 0)
      → ((s : Disk) → P s → Inv s)
      → ((a : A) → o ≡ some a → (s : Disk) → P s → Q a s)
      → Triple Inv P (or_not_found o) Q
  unfolding raise pure
  Triple-or_not_found none P Q h k = record { at = h }
  Triple-or_not_found (some a) P Q h k = record { at = k a refl }

  pub Triple-or_absent :
      (o : Option A) (P : Disk → Type 0) (Q : A → Disk → Type 0)
      → ((s : Disk) → P s → Inv s)
      → ((a : A) → o ≡ some a → (s : Disk) → P s → Q a s)
      → Triple Inv P (or_absent o) Q
  unfolding raise pure
  Triple-or_absent none P Q h k = record { at = h }
  Triple-or_absent (some a) P Q h k = record { at = k a refl }

-- The directory is sound, and `p` was read from the file of number `id`.
abbrev pub Holds : ℤ → Plugin → Disk → Type 0
Holds id p s = IsSound s × Loaded id p s

pub Triple-load_plugin : (id : ℤ) → Triple IsSound IsSound (load_plugin id) (Holds id)
unfolding load_plugin
Triple-load_plugin id =
    Triple-bind IsSound access (λ _. IsSound) _ _ (Triple-access IsSound (λ s h. h) (λ s fs h. h))
      λ _.
        Triple-bind IsSound _ (λ o s. IsSound s × (lookup id s.plugins ≡ o)) _ _
          (Triple-weaken _ _ _ _ (λ s h. (h, refl))
            (Triple-gets (λ s. lookup id s.plugins) (λ o s. IsSound s × (lookup id s.plugins ≡ o))))
          λ o.
            Triple-bind _ (or_not_found o) (λ p s. IsSound s × (lookup id s.plugins ≡ some p)) _ _
              (Triple-or_not_found o _ _ (λ s h. h.0) (λ a e s h. (h.0, h.1 ∙ e)))
              λ p.
                Triple-weaken _ _ _ _
                  (λ s h. (h.0, record { stored = p; found = h.1; same = refresh_latest-Same p }))
                  (Triple-pure (refresh_latest p) (Holds id))

-- It is live, too.
abbrev pub HoldsLive : ℤ → Plugin → Disk → Type 0
HoldsLive id p s = IsSound s × Loaded id p s × (is_live p ≡ true)

pub Triple-load_live : (id : ℤ) → Triple IsSound IsSound (load_live id) (HoldsLive id)
unfolding load_live
Triple-load_live id =
    Triple-bind IsSound (load_plugin id) (Holds id) _ _ (Triple-load_plugin id) λ p.
      Triple-bind (Holds id p) _ (λ _. HoldsLive id p) _ _
        (Triple-reject_if (is_some p.deleted_at) plugin_not_found (Holds id p) (HoldsLive id p)
          (λ s h. h.0) (λ s h e. (h.0, h.1, ap not e)))
        λ _. Triple-pure p (HoldsLive id)

-- Saving a plugin with the number and the keys of one that was read.
pub Triple-save_plugin :
    (id : ℤ) (p p' : Plugin)
    → Same p p'
    → Triple IsSound (Holds id p) (save_plugin p') (λ _. IsSound)
unfolding save_plugin
Triple-save_plugin id p p' same =
    Triple-bind (Holds id p) access (λ _. Holds id p) _ _
      (Triple-access (Holds id p) (λ s h. h.0)
        (λ s fs h. (h.0, record { stored = h.1.stored; found = h.1.found; same = h.1.same })))
      λ _.
        Triple-weaken _ _ _ _ saves (
          Triple-modify (λ s. record s { plugins = put_file p'.id (to_json p') s.plugins }) IsSound)
  where
    saves : (s : Disk) → Holds id p s → Sound (put_file p'.id (to_json p') s.plugins) s.meta
    saves s (h, l) =
        let step : Same l.stored (to_json p') =
          Same-trans l.same (Same-trans same (to_json-Same p')) in
        subst (λ i. Sound (put_file i (to_json p') s.plugins) s.meta)
          (sym (same.id ∙ (l.same.id ∙ lookup-id id l.stored s.plugins h.keys l.found)))
          (put_file-Sound h id l.stored (to_json p') l.found step)

-- A method that reads a live plugin, computes a change or finds none to make, and saves it.
pub Triple-change :
    (id : ℤ) (f : Plugin → Plugin)
    → ((p : Plugin) → Same p (f p))
    → Triple IsSound IsSound (load_live id >>= λ p. save_plugin (f p)) (λ _. IsSound)
Triple-change id f same =
    Triple-bind IsSound (load_live id) (HoldsLive id) _ _ (Triple-load_live id) λ p.
      Triple-weaken _ (Holds id p) _ _ (λ s h. (h.0, h.1)) (Triple-save_plugin id p (f p) (same p))
