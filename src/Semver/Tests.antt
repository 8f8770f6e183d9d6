-- ===== src/Semver/Tests.antt =====
-- Runs of the code of semver.go at literals, and its theorems at concrete versions.
use semrel_registry.Prelude.{
  ◌≡◌, refl, ◌↔◌, ◌⊎◌, true, false, some, none, [], ◌∷◌, ◌++◌, ◌<◌, ◌≤◌, arith, ℕ, ◌^◌,
}
use mathlib.Core.Path.{subst}
use mathlib.Core.Option.{some-injective}
use semrel_registry.Prelude.Int.{pos, add64}
use semrel_registry.Text.{text, text_eq, trim_space, cut, split, fields}
use semrel_registry.Text.Number.{atoi, decimal}
use semrel_registry.Semver.{
  Version, parse_version, compare_versions, compare_tags, compare_prerelease, less, same, flip,
  satisfies_range, allows, print, print_int,
}
use semrel_registry.Semver.Identifiers.{IsCanonical}
use semrel_registry.Semver.Precedence.{
  IsCanonicalVersion, compare_versions-flip, compare_versions-same, compare_versions_trans,
}
use semrel_registry.Semver.Printing.{numbered, parse_version-print}
use semrel_registry.Semver.Ranges.{satisfies_range-append, and_option}
use semrel_registry.Semver.Terms.{IsPrintable}
use semrel_registry.Semver.Ties.{satisfies_range_both_ways}
use semrel_registry.Semver.Shorthands.{tilde, caret, caret_wraps}

parse_tagged :
    parse_version (text " v1.2.3-rc.1+b ")
    ≡ some (record { major = pos 1; minor = pos 2; patch = pos 3; prerelease = text "rc.1" })
unfolding parse_version trim_space cut split atoi
parse_tagged = refl

parse_short : parse_version (text "1.2") ≡ none
unfolding parse_version trim_space cut split atoi
parse_short = refl

caret_below_one : satisfies_range (text "0.27.1") (text "^0.27.0 <1.0.0") ≡ some true
unfolding satisfies_range parse_version trim_space cut split atoi fields allows compare_versions
    compare_tags add64
caret_below_one = refl

caret_next_minor : satisfies_range (text "0.28.0") (text "^0.27.0") ≡ some false
unfolding satisfies_range parse_version trim_space cut split atoi fields allows compare_versions
    compare_tags add64
caret_next_minor = refl

abbrev candidate_one : Version
candidate_one = numbered 1 0 0 (text "rc.1")

abbrev candidate_two : Version
candidate_two = numbered 1 0 0 (text "rc.2")

abbrev final : Version
final = numbered 1 0 0 []

IsCanonical-word : IsCanonical (text "rc")
IsCanonical-word n e = unfold atoi in cc

IsCanonical-one : IsCanonical (text "1")
unfolding atoi decimal
IsCanonical-one n e = subst (λ m. text "1" ≡ print_int m) (some-injective (pos 1) n e) refl

IsCanonical-two : IsCanonical (text "2")
unfolding atoi decimal
IsCanonical-two n e = subst (λ m. text "2" ≡ print_int m) (some-injective (pos 2) n e) refl

candidate_one-IsCanonical : IsCanonicalVersion candidate_one
unfolding split
candidate_one-IsCanonical = (IsCanonical-word, (IsCanonical-one, tt))

candidate_two-IsCanonical : IsCanonicalVersion candidate_two
unfolding split
candidate_two-IsCanonical = (IsCanonical-word, (IsCanonical-two, tt))

compare_versions-flip_example :
    compare_versions candidate_two candidate_one
    ≡ flip (compare_versions candidate_one candidate_two)
compare_versions-flip_example =
    compare_versions-flip candidate_one candidate_two candidate_one-IsCanonical
      candidate_two-IsCanonical

compare_versions-same_example :
    (compare_versions candidate_one final ≡ same) ↔ (candidate_one ≡ final)
compare_versions-same_example = compare_versions-same candidate_one final

one_below_two : compare_versions candidate_one candidate_two ≡ less
unfolding compare_versions compare_tags compare_prerelease split text_eq atoi
one_below_two = refl

two_below_final : compare_versions candidate_two final ≡ less
unfolding compare_versions compare_tags
two_below_final = refl

compare_versions_trans_example : compare_versions candidate_one final ≡ less
compare_versions_trans_example =
    compare_versions_trans candidate_one candidate_two final one_below_two two_below_final

parse_version-print_example : parse_version (print candidate_one) ≡ some candidate_one
parse_version-print_example =
    parse_version-print 1 0 0 (text "rc.1") (omega arith) (omega arith) (omega arith)
      (refl, (refl, (refl, (refl, tt)))) refl

satisfies_range-append_example :
    satisfies_range (text "0.27.1") (text ">=0.25.0" ++ b' ' ∷ text "<1.0.0")
    ≡ and_option
        (satisfies_range (text "0.27.1") (text ">=0.25.0"))
        (satisfies_range (text "0.27.1") (text "<1.0.0"))
unfolding parse_version trim_space cut split atoi
satisfies_range-append_example =
    satisfies_range-append (text "0.27.1") (numbered 0 27 1 []) (text ">=0.25.0") (text "<1.0.0")
      b' ' refl refl

printable : (a b c : ℕ) → a < 2 ^ 63 → b < 2 ^ 63 → c < 2 ^ 63 → IsPrintable a b c []
printable a b c h k l = record {
  major_fits = h;
  minor_fits = k;
  patch_fits = l;
  no_plus = tt;
  no_space = tt;
  ends = refl;
}

tilde_example :
    (satisfies_range (print (numbered 1 2 9 [])) (b'~' ∷ print (numbered 1 2 3 [])) ≡ some true)
    ↔ ((◌≡◌ {A = ℕ} 1 1) × (◌≡◌ {A = ℕ} 2 2) × (3 ≤ 9))
tilde_example =
    tilde 1 2 3 [] 1 2 9 (printable 1 2 3 (omega arith) (omega arith) (omega arith)) (omega arith)
      (omega arith) (omega arith) (omega arith)

caret_example :
    (satisfies_range (print (numbered 1 4 0 [])) (b'^' ∷ print (numbered 1 2 3 [])) ≡ some true)
    ↔ ((◌≡◌ {A = ℕ} 1 1) × ((2 < 4) ⊎ ((◌≡◌ {A = ℕ} 4 2) × (3 ≤ 0))))
caret_example =
    caret 1 2 3 [] 1 4 0 (printable 1 2 3 (omega arith) (omega arith) (omega arith)) (omega arith)
      (omega arith) (omega arith) (omega arith) (omega arith)

caret_wraps_example :
    satisfies_range
      (print (numbered 9223372036854775807 0 0 []))
      (b'^' ∷ print (numbered 9223372036854775807 0 0 []))
    ≡ some false
caret_wraps_example =
    caret_wraps 9223372036854775807 0 0 [] 9223372036854775807 0 0
      (printable 9223372036854775807 0 0 (omega arith) (omega arith) (omega arith)) (omega arith)
      (omega arith) (omega arith) refl

satisfies_range_both_ways_example :
    (satisfies_range
        (print (numbered 1 0 0 (text "rc.01")))
        (b'>' ∷ print (numbered 1 0 0 (text "rc.1")))
      ≡ some true)
    × (satisfies_range
          (print (numbered 1 0 0 (text "rc.1")))
          (b'>' ∷ print (numbered 1 0 0 (text "rc.01")))
        ≡ some true)
unfolding atoi split
satisfies_range_both_ways_example =
    satisfies_range_both_ways 1 0 0 (text "rc.01") (text "rc.1") (text "rc" ∷ []) (text "01")
      (text "1") [] [] (pos 1)
      (record {
        major_fits = omega arith;
        minor_fits = omega arith;
        patch_fits = omega arith;
        no_plus = (refl, (refl, (refl, (refl, (refl, tt)))));
        no_space = (refl, (refl, (refl, (refl, (refl, tt)))));
        ends = refl;
      })
      (record {
        major_fits = omega arith;
        minor_fits = omega arith;
        patch_fits = omega arith;
        no_plus = (refl, (refl, (refl, (refl, tt))));
        no_space = (refl, (refl, (refl, (refl, tt))));
        ends = refl;
      })
      (λ e. cc) refl refl refl refl
