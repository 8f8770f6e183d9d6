-- ===== src/Repository/Versions/Latest.antt =====
-- Which release refreshLatest advertises.
use semrel_registry.Prelude.{
  ◌≤◌, ◌≡◌, refl, ◌⊎◌, inl, inr, Bool, true, false, Option, none, some, List, [], ◌∷◌, All, arith,
  any, find, Bool-cases, ltb, ◌&&◌, Option-cases, sym, ap, ◌∙◌,
}
use mathlib.Core.Path.{subst}
use mathlib.Core.Option.{some-injective}
use semrel_registry.Sort.{sort_slice, sort_slice-IsOrdered, IsOrdered, any-sort_slice}
use semrel_registry.Models.{Time, PluginVersion, Plugin}
use semrel_registry.Repository.Versions.{
  goes_first, sort_plugin_versions, is_installable, latest_stable, refresh_latest, version_of,
  core_of, newer_date,
}

-- A release date is not before another one, and any date comes before none.
abbrev NotOlder : Option Time → Option Time → Type 0
NotOlder (some a) (some b) = b ≤ a
NotOlder (some a) none = Unit
NotOlder none (some b) = ⊥
NotOlder none none = Unit

abbrev pub Newest : PluginVersion → PluginVersion → Type 0
Newest v w = NotOlder v.release_date w.release_date

newer_date-NotOlder :
    (o p : Option Time) (rest : Bool)
    → (newer_date o p rest ≡ true → NotOlder o p) × (newer_date o p rest ≡ false → NotOlder p o)
newer_date-NotOlder (some a) (some b) rest = (λ h. ground arith, λ h. ground arith)
newer_date-NotOlder (some a) none rest = (λ h. tt, λ h. cc)
newer_date-NotOlder none (some b) rest = (λ h. cc, λ h. tt)
newer_date-NotOlder none none rest = (λ h. tt, λ h. tt)

NotOlder-trans : (a b c : Option Time) → NotOlder a b → NotOlder b c → NotOlder a c
NotOlder-trans (some a) (some b) (some c) h k = omega arith
NotOlder-trans (some a) (some b) none h k = tt
NotOlder-trans (some a) none (some c) h k = absurd k
NotOlder-trans (some a) none none h k = tt
NotOlder-trans none (some b) c h k = absurd h
NotOlder-trans none none c h k = k

-- The sorted versions have their release dates in descending order, those without one last.
pub sort_plugin_versions-IsOrdered :
    (vs : List PluginVersion) → IsOrdered Newest (sort_plugin_versions vs)
unfolding sort_plugin_versions
sort_plugin_versions-IsOrdered =
    sort_slice-IsOrdered goes_first Newest
      (λ v w. (newer_date-NotOlder v.release_date w.release_date _).0)
      (λ v w. (newer_date-NotOlder v.release_date w.release_date _).1)
      (λ u v w. NotOlder-trans u.release_date v.release_date w.release_date)

module _ {A : Type 0} (test : A → Bool) where
  find-none : (xs : List A) → find test xs ≡ none → any test xs ≡ false
  find-none [] h = refl
  find-none (x ∷ xs) h = ground (arith, find-none xs)

  find-some : (xs : List A) (a : A) → find test xs ≡ some a → test a ≡ true
  find-some [] a h = cc
  find-some (x ∷ xs) a h = ground (arith, find-some xs a)

  any-find :
      (xs : List A) (a : A) (found : A → Bool)
      → find test xs ≡ some a
      → found a ≡ true
      → any found xs ≡ true
  any-find [] a found h k = cc
  any-find (x ∷ xs) a found h k = ground (arith, any-find xs a found)

-- `w` was released after `v`: at a later date, or at some date where `v` has none.
abbrev pub is_newer : Option Time → Option Time → Bool
is_newer (some b) (some a) = ltb a b
is_newer (some b) none = true
is_newer none o = false

abbrev pub rivals : PluginVersion → PluginVersion → Bool
rivals v w = is_installable w && is_newer w.release_date v.release_date

NotOlder-is_newer : (o p : Option Time) → NotOlder o p → is_newer p o ≡ false
NotOlder-is_newer (some a) (some b) h = ground arith
NotOlder-is_newer (some a) none h = refl
NotOlder-is_newer none (some b) h = absurd h
NotOlder-is_newer none none h = refl

is_newer_irrefl : (o : Option Time) → is_newer o o ≡ false
is_newer_irrefl none = refl
is_newer_irrefl (some a) = ground arith

no_rivals :
    (v : PluginVersion) (ws : List PluginVersion) → All (Newest v) ws → any (rivals v) ws ≡ false
no_rivals v [] h = refl
no_rivals v (w ∷ ws) (h, hs) =
    ground (arith, no_rivals v ws hs, NotOlder-is_newer v.release_date w.release_date h)

rivals_of_first :
    (u : PluginVersion) (us : List PluginVersion)
    → All (Newest u) us
    → any (rivals u) (u ∷ us) ≡ false
rivals_of_first u us h = ground (arith, no_rivals u us h, is_newer_irrefl u.release_date)

first_has_no_rivals :
    (vs : List PluginVersion) (v : PluginVersion)
    → IsOrdered Newest vs
    → find is_installable vs ≡ some v
    → any (rivals v) vs ≡ false
first_has_no_rivals [] v h e = cc
first_has_no_rivals (u ∷ us) v (h, hs) e = elim (Bool-cases (is_installable u)) [
  | inl yes_u ↦
      let same : u ≡ v = some-injective u v (rw yes_u at e) in
      subst (λ x. any (rivals x) (u ∷ us) ≡ false) same (rivals_of_first u us h)
  | inr no_u ↦ ground (arith, first_has_no_rivals us v hs)
]

-- What the fields of the latest release say of a plugin whose versions are `vs`.
pub record IsLatest (vs : List PluginVersion) (v : PluginVersion) : Type 0 where
  pub listed : (test : PluginVersion → Bool) → test v ≡ true → any test vs ≡ true
  pub installable : is_installable v ≡ true
  pub newest : any (rivals v) vs ≡ false

latest_stable-IsLatest :
    (vs : List PluginVersion) (v : PluginVersion)
    → latest_stable (sort_plugin_versions vs) ≡ some v
    → IsLatest vs v
unfolding latest_stable sort_plugin_versions
latest_stable-IsLatest vs v e = record {
  listed = λ test h.
      sym (any-sort_slice goes_first test vs)
      ∙ any-find is_installable (sort_plugin_versions vs) v test e h;
  installable = find-some is_installable (sort_plugin_versions vs) v e;
  newest =
      sym (any-sort_slice goes_first (rivals v) vs)
      ∙ first_has_no_rivals (sort_plugin_versions vs) v (sort_plugin_versions-IsOrdered vs) e;
}

-- After refreshLatest either the plugin has no version that is stable, live and not yanked, and its
-- latest fields are empty; or they are those of such a version of the plugin, and no other such
-- version was released after it.
pub refresh_latest-IsLatest :
    (p : Plugin)
    → ((any is_installable p.versions ≡ false) × ((refresh_latest p).latest_version ≡ []))
      ⊎ ((v : PluginVersion) × IsLatest p.versions v
          × ((refresh_latest p).latest_version ≡ v.version)
          × ((refresh_latest p).latest_semrel_core ≡ v.semrel_core))
unfolding refresh_latest latest_stable sort_plugin_versions
refresh_latest-IsLatest p = elim (Option-cases (latest_stable (sort_plugin_versions p.versions))) [
  | inl e ↦ inl (nothing e, ap version_of e)
  | inr (v, e) ↦ inr (v, latest_stable-IsLatest p.versions v e, ap version_of e, ap core_of e)
]
  where
    nothing :
        latest_stable (sort_plugin_versions p.versions) ≡ none
        → any is_installable p.versions ≡ false
    nothing e =
        sym (any-sort_slice goes_first is_installable p.versions)
        ∙ find-none is_installable (sort_plugin_versions p.versions) e

-- Two versions with one release date change places whenever they are sorted.
pub sort_plugin_versions-tie :
    (v w : PluginVersion) (t : Time)
    → v.release_date ≡ some t
    → w.release_date ≡ some t
    → sort_plugin_versions (v ∷ w ∷ []) ≡ w ∷ v ∷ []
unfolding sort_plugin_versions sort_slice
sort_plugin_versions-tie v w t h k = rw (h, k) (ground arith)
