-- ===== src/Semver/Ties.antt =====
-- Versions whose prereleases differ in an identifier that reads as the same number, "1" and "01".
use semrel_registry.Prelude.{
  ℕ, ◌≡◌, refl, sym, ◌∙◌, ◌≢◌, true, false, some, List, [], ◌∷◌, ◌++◌, arith,
}
use semrel_registry.Prelude.Int.{ℤ}
use semrel_registry.Text.{Text, is_empty, split}
use semrel_registry.Text.Equality.{text_eq_iff, text_eq_refl}
use semrel_registry.Text.Number.{atoi}
use semrel_registry.Semver.{
  print, compare_identifiers, compare_prerelease, compare_tags, compare_versions, greater, expand,
  allows, all_allow, satisfies_range,
}
use semrel_registry.Semver.Printing.{numbered}
use semrel_registry.Semver.Terms.{IsPrintable, satisfies_range-print}

module _ (s t : Text) (n : ℤ) (ss ts : List Text) (d : s ≢ t) (h : atoi s ≡ some n)
    (k : atoi t ≡ some n) where
  compare_identifiers-tie :
      (front : List Text) → compare_identifiers (front ++ s ∷ ss) (front ++ t ∷ ts) ≡ greater
  unfolding compare_identifiers
  compare_identifiers-tie [] = rw (h, k) (ground (arith, text_eq_iff s t))
  compare_identifiers-tie (x ∷ front) = rw (text_eq_refl x) (compare_identifiers-tie front)

append-cons-ne-nil : {A : Type 0} (xs : List A) (y : A) (ys : List A) → xs ++ y ∷ ys ≢ []
append-cons-ne-nil [] y ys e = cc
append-cons-ne-nil (x ∷ xs) y ys e = cc

-- A prerelease with a numeral among its identifiers is not empty.
is_empty-numeral :
    (pre : Text) (front : List Text) (s : Text) (ss : List Text) (n : ℤ)
    → split b'.' pre ≡ front ++ s ∷ ss
    → atoi s ≡ some n
    → is_empty pre ≡ false
unfolding split atoi
is_empty-numeral (c ∷ pre) front s ss n e h = refl
is_empty-numeral [] [] s ss n e h = cc
is_empty-numeral [] (x ∷ front) s ss n e h = absurd (append-cons-ne-nil front s ss (cc))

module _ (a b c : ℕ) (pre tag : Text) (front : List Text) (s t : Text) (ss ts : List Text)
    (n : ℤ) where
  compare_versions-tie :
      s ≢ t
      → atoi s ≡ some n
      → atoi t ≡ some n
      → split b'.' pre ≡ front ++ s ∷ ss
      → split b'.' tag ≡ front ++ t ∷ ts
      → compare_versions (numbered a b c pre) (numbered a b c tag) ≡ greater
  unfolding compare_versions compare_tags compare_prerelease
  compare_versions-tie d h k p q =
      let full = is_empty-numeral pre front s ss n p h in
      let full' = is_empty-numeral tag front t ts n q k in
      rw (p, q) (ground (arith, compare_identifiers-tie s t n ss ts d h k front))

  -- The verdict on `>w` at v, for versions with one set of numbers and tied prereleases.
  satisfies_range-tie :
      IsPrintable a b c pre
      → IsPrintable a b c tag
      → s ≢ t
      → atoi s ≡ some n
      → atoi t ≡ some n
      → split b'.' pre ≡ front ++ s ∷ ss
      → split b'.' tag ≡ front ++ t ∷ ts
      → satisfies_range (print (numbered a b c pre)) (b'>' ∷ print (numbered a b c tag)) ≡ some true
  unfolding expand allows all_allow
  satisfies_range-tie ok ok' d h k p q =
      satisfies_range-print b'>' a b c tag a b c pre refl ok' ok
      ∙ rw (compare_versions-tie d h k p q) refl

-- Two versions with the same numbers, whose prereleases have the same identifiers up to two that
-- are written differently but read as one number, such as 1.0.0-rc.1 and 1.0.0-rc.01: each of them
-- satisfies the range that asks for a version above the other, if String prints both so that they
-- are read back.
pub satisfies_range_both_ways :
    (a b c : ℕ) (pre tag : Text) (front : List Text) (s t : Text) (ss ts : List Text) (n : ℤ)
    → IsPrintable a b c pre
    → IsPrintable a b c tag
    → s ≢ t
    → atoi s ≡ some n
    → atoi t ≡ some n
    → split b'.' pre ≡ front ++ s ∷ ss
    → split b'.' tag ≡ front ++ t ∷ ts
    → (satisfies_range (print (numbered a b c pre)) (b'>' ∷ print (numbered a b c tag)) ≡ some true)
      × (satisfies_range (print (numbered a b c tag)) (b'>' ∷ print (numbered a b c pre))
          ≡ some true)
satisfies_range_both_ways a b c pre tag front s t ss ts n ok ok' d h k p q = (
  satisfies_range-tie a b c pre tag front s t ss ts n ok ok' d h k p q,
  satisfies_range-tie a b c tag pre front t s ts ss n ok' ok (λ e. d (sym e)) k h q p,
)
