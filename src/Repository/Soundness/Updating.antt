-- ===== src/Repository/Soundness/Updating.antt =====
-- Update, AddVersion, SetProvenance and SetNotifyEmail keep a sound directory sound.
use semrel_registry.Prelude.{
  ◌≡◌, refl, Bool, Option, some, List, [], ◌∷◌, arith, sym, ◌∙◌, map, Option-cases, inl, inr, any,
}
use mathlib.Core.Path.{subst}
use mathlib.Core.Option.{some-injective}
use semrel_registry.Prelude.Int.{ℤ, eq_ℤ_iff, eq_ℤ_refl}
use semrel_registry.Text.{Text, text_eq}
use semrel_registry.Models.{Time, Plugin, PluginVersion, Provenance}
use semrel_registry.Result.{ok, lift, duplicate_plugin}
use semrel_registry.Result.Triple.{
  Triple, Triple-bind, Triple-gets, Triple-modify, Triple-weaken, Triple-lift, Triple-pure,
  Triple-reject_if,
}
use semrel_registry.Repository.Identity.{claims, ensure_unique_identity, normalize_aliases}
use semrel_registry.Repository.Versions.{refresh_latest}
use semrel_registry.Repository.Disk.{
  Disk, FileMeta, Files, access, save_plugin, lookup, has_key, values, load_meta, save_meta,
  put_file, to_json,
}
use semrel_registry.Repository.Disk.Files.{AreKeys, lookup-id, has_key_of_lookup}
use semrel_registry.Repository.Reads.{load_plugin, load_live, load_all}
use semrel_registry.Repository.Writes.{update, updated, add_version, or_absent}
use semrel_registry.Repository.Contacts.{set_provenance, set_notify_email, prove_in, prove_first}
use semrel_registry.Repository.Soundness.{IsSound, Sound, Same, Triple-access, next_id}
use semrel_registry.Repository.Soundness.Saving.{
  Triple-load_live, Triple-load_plugin, Triple-or_absent, Triple-save_plugin, Holds, HoldsLive,
}
use semrel_registry.Repository.Soundness.Creating.{
  IsFree, IsFree-ensure_unique_identity, put_free-Sound, Triple-load_all, Triple-load_meta,
  Triple-save_meta, Triple-save_as, Sound-grow,
}

module _ (now : Time) (plugin : Plugin) where
  abbrev candidate : Plugin
  candidate = record plugin { aliases = normalize_aliases plugin.aliases }

  abbrev Found : Plugin → Disk → Type 0
  Found existing s = Holds plugin.id existing s

  abbrev Free : Plugin → Disk → Type 0
  Free existing s = Holds plugin.id existing s × IsFree candidate plugin.id s.plugins

  installs :
      (existing : Plugin) (s : Disk)
      → Free existing s
      → Sound (put_file existing.id (to_json (updated existing candidate now)) s.plugins) s.meta
  unfolding to_json claims
  installs existing s ((h, l), free) =
      let stored_id : l.stored.id ≡ plugin.id =
        lookup-id plugin.id l.stored s.plugins h.keys l.found in
      let id_eq : existing.id ≡ plugin.id = l.same.id ∙ stored_id in
      let (above, low) = h.below plugin.id l.stored l.found in
      subst (λ i. Sound (put_file i (to_json (updated existing candidate now)) s.plugins) s.meta)
        (sym id_eq)
        (put_free-Sound h plugin.id (to_json (updated existing candidate now)) plugin.id id_eq above
          low free (λ k q e same. sym (lookup-id k q s.plugins h.keys e) ∙ same))

  pub update-IsSound : Triple IsSound IsSound (update now plugin) (λ _. IsSound)
  unfolding update
  update-IsSound =
      Triple-bind IsSound (load_live plugin.id) (HoldsLive plugin.id) _ _
        (Triple-load_live plugin.id)
        λ existing.
          Triple-weaken _ (Found existing) _ _ (λ s h. (h.0, h.1))
            (Triple-bind (Found existing) load_all _ _ _
              (Triple-load_all (Found existing) (λ s h. h.0)
                (λ s fs h.
                  (h.0, record { stored = h.1.stored; found = h.1.found; same = h.1.same })))
              λ ps.
                Triple-bind _ (lift (ensure_unique_identity ps candidate plugin.id))
                  (λ _. Free existing) _ _
                  (Triple-lift _ _ (λ _. Free existing) (λ s h. h.0.0)
                    (λ u passed s h. (h.0, is_free ps u passed s h.1)))
                  λ _.
                    Triple-save_as (Free existing) (λ s h. h.0.0)
                      (λ s fs h. (
                        (
                          h.0.0,
                          record { stored = h.0.1.stored; found = h.0.1.found; same = h.0.1.same },
                        ),
                        h.1,
                      ))
                      (updated existing candidate now) IsSound (installs existing))
    where
      is_free :
          (ps : List Plugin) (u : Unit {0})
          → ensure_unique_identity ps candidate plugin.id ≡ ok u
          → (s : Disk) → ps ≡ map refresh_latest (values s.plugins)
          → IsFree candidate plugin.id s.plugins
      is_free ps u passed s e =
          IsFree-ensure_unique_identity s.plugins candidate plugin.id
            (subst (λ qs. ensure_unique_identity qs candidate plugin.id ≡ ok u) e passed)

Holds-steady :
    (id : ℤ) (p : Plugin) (s : Disk) (fs : List Bool)
    → Holds id p s
    → Holds id p (record s { faults = fs })
Holds-steady id p s fs (h, l) = (h, record { stored = l.stored; found = l.found; same = l.same })

-- A new meta.json with the same next plugin number changes nothing for the plugins.
keeps_numbers :
    (id : ℤ) (p : Plugin) (m : FileMeta) (n : ℤ) (s : Disk)
    → Holds id p s × (m.next_plugin_id ≡ next_id s.meta)
    → Holds id p (record s { meta = some (record m { next_version_id = n }) })
keeps_numbers id p m n s ((h, l), e) = (
  Sound-grow s.meta _ h (rw e (omega arith)),
  record { stored = l.stored; found = l.found; same = l.same },
)

pub add_version-IsSound :
    (now : Time) (version : PluginVersion)
    → Triple IsSound IsSound (add_version now version) (λ _. IsSound)
unfolding add_version claims
add_version-IsSound now version =
    Triple-bind IsSound (load_live id) (HoldsLive id) _ _ (Triple-load_live id) λ p.
      Triple-weaken _ (Holds id p) _ _ (λ s h. (h.0, h.1))
        (Triple-bind (Holds id p) _ (λ _. Holds id p) _ _
          (Triple-reject_if (any (λ v. text_eq v.version version.version) p.versions)
            duplicate_plugin (Holds id p) (Holds id p) (λ s h. h.0) (λ s h e. h))
          λ _.
            Triple-bind (Holds id p) load_meta _ _ _
              (Triple-load_meta (Holds id p) (λ s h. h.0) (Holds-steady id p))
              λ m.
                Triple-bind _ (save_meta _) (λ _. Holds id p) _ _
                  (Triple-save_meta _ (λ s h. h.0.0) (λ s fs h. (Holds-steady id p s fs h.0, h.1)) _
                    (Holds id p) (keeps_numbers id p m _))
                  λ _.
                    Triple-bind (Holds id p) (save_plugin _) (λ _. IsSound) _ _
                      (Triple-save_plugin id p _
                        (record { id = refl; claims = refl; live = λ h. h }))
                      λ _. Triple-pure m.next_version_id (λ _. IsSound))
  where
    id : ℤ
    id = version.plugin_id

-- The plugin that SetProvenance saves is one of those that it has read, with other versions.
saved_by_prove_in :
    (now : Time) (id : ℤ) (provenance : Option Provenance) (m : Files) (p : Plugin)
    → AreKeys m
    → prove_in now id provenance (map refresh_latest (values m)) ≡ some p
    → (q : Plugin) × (lookup p.id m ≡ some q) × Same q p
unfolding prove_in lookup has_key claims refresh_latest
saved_by_prove_in now id provenance [] p h e = cc
saved_by_prove_in now id provenance ((i, q) ∷ m) p (fresh, same, h) e =
    elim (Option-cases (prove_first now id provenance (refresh_latest q).versions)) [
      | inl nothing ↦
          let (x, found, sx) =
            saved_by_prove_in now id provenance m p h (rw (nothing, prove_in) at e) in
          (x, ground (arith, has_key_of_lookup p.id x m found, eq_ℤ_iff i p.id), sx)
      | inr (vs, changed) ↦
          let here : record (refresh_latest q) { versions = vs } ≡ p =
            some-injective _ p (rw (changed, prove_in) at e) in
          subst (λ y. (x : Plugin) × (lookup y.id ((i, q) ∷ m) ≡ some x) × Same x y) here
            (
              q,
              rw same (ground (arith, eq_ℤ_refl i)),
              record { id = refl; claims = refl; live = λ l. l },
            )
    ]

pub set_provenance-IsSound :
    (now : Time) (id : ℤ) (provenance : Option Provenance)
    → Triple IsSound IsSound (set_provenance now id provenance) (λ _. IsSound)
unfolding set_provenance
set_provenance-IsSound now id provenance =
    Triple-bind IsSound load_all _ _ _ (Triple-load_all IsSound (λ s h. h) (λ s fs h. h)) λ ps.
      Triple-bind _ (or_absent (prove_in now id provenance ps)) (λ p. Holds p.id p) _ _
        (Triple-or_absent _ _ (λ p. Holds p.id p) (λ s h. h.0) (λ p e s h. holds ps p e s h))
        λ p. Triple-save_plugin p.id p p (record { id = refl; claims = refl; live = λ l. l })
  where
    holds :
        (ps : List Plugin) (p : Plugin)
        → prove_in now id provenance ps ≡ some p
        → (s : Disk) → IsSound s × (ps ≡ map refresh_latest (values s.plugins))
        → Holds p.id p s
    holds ps p e s (h, listed) =
        let (q, found, same) =
          saved_by_prove_in now id provenance s.plugins p h.keys
            (subst (λ qs. prove_in now id provenance qs ≡ some p) listed e) in
        (h, record { stored = q; found = found; same = same })

pub set_notify_email-IsSound :
    (id : ℤ) (address : Text) → Triple IsSound IsSound (set_notify_email id address) (λ _. IsSound)
unfolding set_notify_email
set_notify_email-IsSound id address =
    Triple-bind IsSound (load_plugin id) (Holds id) _ _ (Triple-load_plugin id) λ p.
      Triple-weaken _ IsSound _ _ (λ s h. h.0)
        (Triple-bind IsSound access (λ _. IsSound) _ _ accessed
          λ _.
            Triple-bind IsSound _ (λ _. IsSound) _ _ (Triple-gets (λ s. s.emails) (λ _. IsSound))
              λ emails.
                Triple-bind IsSound access (λ _. IsSound) _ _ accessed λ _. Triple-modify _ IsSound)
  where
    accessed : Triple IsSound IsSound access (λ _. IsSound)
    accessed = Triple-access IsSound (λ s h. h) (λ s fs h. h)
