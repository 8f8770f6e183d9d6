-- ===== src/Semver/Precedence.antt =====
-- CompareVersions is an order: reflexive on versions that are equal, and only there, reversed when
-- its arguments change places, and transitive.
use semrel_registry.Prelude.{◌≡◌, refl, ◌↔◌, true, [], ◌∷◌, All, arith, ap}
use semrel_registry.Prelude.Int.{ℤ, eq_ℤ_iff}
use semrel_registry.Text.{Text, is_empty, split}
use semrel_registry.Text.Split.{split-injective}
use semrel_registry.Semver.{
  Version, Comparison, less, same, flip, compare_versions, compare_then, compare_tags,
  compare_prerelease,
}
use semrel_registry.Semver.Identifiers.{
  IsCanonical, compare_identifiers-flip, compare_identifiers-same, compare_identifiers_trans,
}

-- A version whose prerelease identifiers are canonical.
abbrev pub IsCanonicalVersion : Version → Type 0
IsCanonicalVersion v = All IsCanonical (split b'.' v.prerelease)

pub compare_then-flip :
    (m n : ℤ) (c d : Comparison) → d ≡ flip c → compare_then n m d ≡ flip (compare_then m n c)
compare_then-flip m n c d h = ground (arith, eq_ℤ_iff m n, eq_ℤ_iff n m)

compare_tags-flip :
    (a b : Text)
    → All IsCanonical (split b'.' a)
    → All IsCanonical (split b'.' b)
    → compare_tags b a ≡ flip (compare_tags a b)
unfolding compare_tags compare_prerelease
compare_tags-flip a b h k =
    ground (arith, compare_identifiers-flip (split b'.' a) (split b'.' b) h k)

-- For versions whose numeric prerelease identifiers are written as they are printed, comparing in
-- the other order gives the opposite verdict.
pub compare_versions-flip :
    (a b : Version)
    → IsCanonicalVersion a
    → IsCanonicalVersion b
    → compare_versions b a ≡ flip (compare_versions a b)
unfolding compare_versions
compare_versions-flip a b h k = compare_then-flip a.major b.major _ _ (
    compare_then-flip a.minor b.minor _ _
      (compare_then-flip a.patch b.patch _ _ (compare_tags-flip a.prerelease b.prerelease h k)))

is_empty-eq : (s : Text) → is_empty s ≡ true → s ≡ []
is_empty-eq [] h = refl
is_empty-eq (c ∷ s) h = cc

compare_tags-same : (a b : Text) → (compare_tags a b ≡ same) ↔ (a ≡ b)
unfolding compare_tags compare_prerelease
compare_tags-same [] [] = (λ _. refl, λ _. refl)
compare_tags-same [] (d ∷ b) = (λ e. cc, λ e. cc)
compare_tags-same (c ∷ a) [] = (λ e. cc, λ e. cc)
compare_tags-same (c ∷ a) (d ∷ b) = (
  λ e. split-injective b'.' (c ∷ a) (d ∷ b) ((compare_identifiers-same _ _).0 e),
  λ e. (compare_identifiers-same _ _).1 (ap (split b'.') e),
)

compare_then-same :
    (m n : ℤ) (c : Comparison) → (compare_then m n c ≡ same) ↔ ((m ≡ n) × (c ≡ same))
compare_then-same m n c = ground (arith, eq_ℤ_iff m n)

-- Two versions compare as the same exactly when all their parts are equal.
pub compare_versions-same : (a b : Version) → (compare_versions a b ≡ same) ↔ (a ≡ b)
unfolding compare_versions
compare_versions-same a b = ground (
  arith,
  compare_then-same a.major b.major _,
  compare_then-same a.minor b.minor _,
  compare_then-same a.patch b.patch (compare_tags a.prerelease b.prerelease),
  compare_tags-same a.prerelease b.prerelease,
)

compare_tags_trans :
    (a b c : Text) → compare_tags a b ≡ less → compare_tags b c ≡ less → compare_tags a c ≡ less
unfolding compare_tags compare_prerelease
compare_tags_trans a b c h k =
    ground (arith, compare_identifiers_trans (split b'.' a) (split b'.' b) (split b'.' c))

compare_then_trans :
    (l m n : ℤ) (c d e : Comparison)
    → (c ≡ less → d ≡ less → e ≡ less)
    → compare_then l m c ≡ less
    → compare_then m n d ≡ less
    → compare_then l n e ≡ less
compare_then_trans l m n c d e f h k = ground (arith, eq_ℤ_iff l m, eq_ℤ_iff m n, eq_ℤ_iff l n)

-- Precedence is transitive: a version below a second one, which is below a third, is below the third.
pub compare_versions_trans :
    (a b c : Version)
    → compare_versions a b ≡ less
    → compare_versions b c ≡ less
    → compare_versions a c ≡ less
unfolding compare_versions
compare_versions_trans a b c = compare_then_trans a.major b.major c.major _ _ _ (
    compare_then_trans a.minor b.minor c.minor _ _ _ (
      compare_then_trans a.patch b.patch c.patch _ _ _
        (compare_tags_trans a.prerelease b.prerelease c.prerelease)))
