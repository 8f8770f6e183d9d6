-- ===== src/Service/Lookup/References.antt =====
-- Which plugin a reference names.
use semrel_registry.Prelude.{
  ◌≡◌, refl, ◌≢◌, Bool, true, false, none, [], ◌∷◌, ◌++◌, arith, All, All-append, all, ap, sym, ◌<◌,
  ◌^◌, ℕ, if◌then◌else◌,
}
use mathlib.Core.Path.{subst}
use semrel_registry.Prelude.Int.{pos}
use semrel_registry.Text.{Text, is_space, trim_space, trim_left, trim_right, has_prefix, is_empty}
use semrel_registry.Text.Trim.{ends_dark, trim_space-cons}
use semrel_registry.Text.Split.{Without, cut-append}
use semrel_registry.Text.Number.{atoi, decimal, digits_value}
use semrel_registry.Text.Number.Laws.{AreDigits, atoi-decimal, decimal-ne-nil, decimal-AreDigits}
use semrel_registry.Models.{Plugin, ref}
use semrel_registry.Repository.Interface.{PluginRepository}
use semrel_registry.Service.Patterns.{matches_name, matches_namespace, namespace_tail, is_name_byte}
use semrel_registry.Service.Lookup.{lookup_plugin, lookup_reference, resolve}

-- A namespace that is allowed is an @ and bytes without a slash and without white space.
abbrev IsDark : Text → Type 0
IsDark s = All (λ c. is_space c ≡ false) s

namespace_tail-Without : (b : Bool) (s : Text) → namespace_tail b s ≡ true → Without b'/' s
unfolding namespace_tail
namespace_tail-Without b [] h = tt
namespace_tail-Without b (c ∷ s) h =
    ground (arith, namespace_tail-Without true s, namespace_tail-Without false s)

namespace_tail-IsDark : (b : Bool) (s : Text) → namespace_tail b s ≡ true → IsDark s
unfolding namespace_tail
namespace_tail-IsDark b [] h = tt
namespace_tail-IsDark b (c ∷ s) h =
    ground (arith, namespace_tail-IsDark true s, namespace_tail-IsDark false s)

names-IsDark : (s : Text) → all is_name_byte s ≡ true → IsDark s
names-IsDark [] h = tt
names-IsDark (c ∷ s) h = ground (arith, names-IsDark s)

ends_dark-IsDark : (c : ℕ) (s : Text) → is_space c ≡ false → IsDark s → ends_dark c s ≡ true
ends_dark-IsDark c [] h k = ground (arith, h)
ends_dark-IsDark c (d ∷ s) h (k, ks) = ends_dark-IsDark d s k ks

trim_space-IsDark : (s : Text) → IsDark s → trim_space s ≡ s
trim_space-IsDark [] h = unfold trim_space trim_left trim_right in refl
trim_space-IsDark (c ∷ s) (h, hs) = trim_space-cons c s h (ends_dark-IsDark c s h hs)

digits-IsDark : (s : Text) → AreDigits s → IsDark s
digits-IsDark [] h = tt
digits-IsDark (c ∷ s) (h, hs) = (ground arith, digits-IsDark s hs)

digits-names : (s : Text) → AreDigits s → all is_name_byte s ≡ true
digits-names [] h = refl
digits-names (c ∷ s) (h, hs) = ground (arith, digits-names s hs)

digits-matches_name : (s : Text) → s ≢ [] → AreDigits s → matches_name s ≡ true
unfolding matches_name
digits-matches_name [] n h = absurd (n refl)
digits-matches_name (c ∷ s) n (h, hs) = ground (arith, digits-names s hs)

at_sign-atoi : (s : Text) → atoi (b'@' ∷ s) ≡ none
unfolding atoi digits_value
at_sign-atoi s = refl

matches_name-IsDark : (s : Text) → matches_name s ≡ true → IsDark s
unfolding matches_name
matches_name-IsDark [] h = tt
matches_name-IsDark (c ∷ s) h = (ground arith, names-IsDark s (ground arith))

-- An allowed namespace begins with an @ and has no slash and no white space behind it.
record IsScope (ns : Text) : Type 0 where
  rest : Text
  at : ns ≡ b'@' ∷ rest
  dark : IsDark rest
  without : Without b'/' rest

matches_namespace-IsScope : (ns : Text) → matches_namespace ns ≡ true → IsScope ns
unfolding matches_namespace
matches_namespace-IsScope [] h = cc
matches_namespace-IsScope (a ∷ []) h = cc
matches_namespace-IsScope (a ∷ c ∷ s) h =
    let tail : namespace_tail true s ≡ true = ground arith in
    let first : a ≡ b'@' = ground arith in
    record {
      rest = c ∷ s;
      at = ap (λ d. d ∷ c ∷ s) first;
      dark = (ground arith, namespace_tail-IsDark true s tail);
      without = (ground arith, namespace_tail-Without true s tail);
    }

module _ {S : Type 0} (repo : PluginRepository S) where
  -- A numeral that fits an int64 matches the pattern of names, but as a reference it names the plugin
  -- with that number.
  pub lookup_plugin-numeral :
      (n : ℕ)
      → n < 2 ^ 63
      → (matches_name (decimal n) ≡ true)
        × (lookup_plugin repo (decimal n) ≡ repo.get_by_id (pos n))
  unfolding lookup_plugin resolve
  lookup_plugin-numeral n h = (
    digits-matches_name (decimal n) (decimal-ne-nil n) (decimal-AreDigits n),
    rw
        (
          trim_space-IsDark (decimal n) (digits-IsDark _ (decimal-AreDigits n)),
          atoi-decimal n h,
          resolve,
        )
        refl,
  )

  scoped_reference :
      (s name : Text)
      → Without b'/' s
      → name ≢ []
      → lookup_reference repo ((b'@' ∷ s) ++ (b'/' ∷ name))
        ≡ repo.get_by_namespaced_name (b'@' ∷ s) name
  unfolding has_prefix lookup_reference
  scoped_reference s [] w n = absurd (n refl)
  scoped_reference s (d ∷ name) w n =
      rw (lookup_reference, cut-append b'/' (b'@' ∷ s) (d ∷ name) (refl, w)) refl

  scoped_plugin :
      (s name : Text)
      → Without b'/' s
      → IsDark s
      → matches_name name ≡ true
      → lookup_plugin repo ((b'@' ∷ s) ++ (b'/' ∷ name))
        ≡ repo.get_by_namespaced_name (b'@' ∷ s) name
  unfolding lookup_plugin
  scoped_plugin s name w dark k =
      rw
        (
          trim_space-IsDark ((b'@' ∷ s) ++ (b'/' ∷ name)) all_dark,
          at_sign-atoi (s ++ (b'/' ∷ name)),
          resolve,
        )
        (scoped_reference s name w
          (λ e. let empty : matches_name [] ≡ true = rw e at k in unfold matches_name in cc))
    where
      all_dark : IsDark ((b'@' ∷ s) ++ (b'/' ∷ name))
      all_dark =
          (refl, All-append (λ c. is_space c ≡ false) s _ dark (refl, matches_name-IsDark name k))

  -- The reference of a plugin whose namespace and name match their patterns is looked up under that
  -- namespace and that name.
  pub lookup_plugin-ref :
      (p : Plugin)
      → matches_namespace p.namespace ≡ true
      → matches_name p.name ≡ true
      → lookup_plugin repo (ref p) ≡ repo.get_by_namespaced_name p.namespace p.name
  lookup_plugin-ref p h k = by_scope p.namespace p.name (matches_namespace-IsScope p.namespace h) k
    where
      by_scope :
          (ns name : Text)
          → IsScope ns
          → matches_name name ≡ true
          → lookup_plugin repo (if is_empty ns then name else ns ++ (b'/' ∷ name))
            ≡ repo.get_by_namespaced_name ns name
      by_scope ns name sc k =
          subst
            (λ m.
              lookup_plugin repo (if is_empty m then name else m ++ (b'/' ∷ name))
              ≡ repo.get_by_namespaced_name m name)
            (sym sc.at) (scoped_plugin sc.rest name sc.without sc.dark k)
