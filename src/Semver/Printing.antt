-- ===== src/Semver/Printing.antt =====
-- ParseVersion reads what Version.String prints.
use semrel_registry.Prelude.{
  ℕ, ◌<◌, ◌^◌, ◌≡◌, refl, ◌≢◌, true, false, [], ◌∷◌, ◌++◌, All-append, arith, some, ◌∙◌, ◌==◌,
}
use mathlib.Core.List.{append_assoc}
use semrel_registry.Prelude.Int.{pos}
use semrel_registry.Text.{Text, is_empty, trim_space, cut, split, is_space}
use semrel_registry.Text.Trim.{ends_dark, trim_space-cons}
use semrel_registry.Text.Split.{Without, cut-append, cut-Without, split-append, split-Without}
use semrel_registry.Text.Number.{decimal, is_digit}
use semrel_registry.Text.Number.Laws.{AreDigits, decimal-AreDigits, decimal-ne-nil, atoi-decimal}
use semrel_registry.Semver.{Version, print, parse_version, parse_core, component, trim_v}

Without-AreDigits : (c : ℕ) (s : Text) → is_digit c ≡ false → AreDigits s → Without c s
Without-AreDigits c [] h k = tt
Without-AreDigits c (d ∷ s) h (k, ks) = (ground arith, Without-AreDigits c s h ks)

ends_dark_of_AreDigits :
    (c : ℕ) (s : Text) → is_space c ≡ false → AreDigits s → ends_dark c s ≡ true
ends_dark_of_AreDigits c [] h k = ground arith
ends_dark_of_AreDigits c (d ∷ s) h (k, ks) = ends_dark_of_AreDigits d s (ground arith) ks

ends_dark-append : (c d : ℕ) (s t : Text) → ends_dark c (s ++ d ∷ t) ≡ ends_dark d t
ends_dark-append c d [] t = refl
ends_dark-append c d (e ∷ s) t = ends_dark-append e d s t

-- major.minor.patch
abbrev core : Text → Text → Text → Text
core x y z = x ++ (b'.' ∷ (y ++ (b'.' ∷ z)))

core-Without :
    (c : ℕ) (x y z : Text)
    → is_digit c ≡ false
    → (b'.' == c) ≡ false
    → AreDigits x
    → AreDigits y
    → AreDigits z
    → Without c (core x y z)
core-Without c x y z h k dx dy dz =
    All-append (λ d. (d == c) ≡ false) x _ (Without-AreDigits c x h dx)
      (
        k,
        All-append (λ d. (d == c) ≡ false) y _ (Without-AreDigits c y h dy)
            (k, Without-AreDigits c z h dz),
      )

split-core :
    (x y z : Text)
    → AreDigits x
    → AreDigits y
    → AreDigits z
    → split b'.' (core x y z) ≡ x ∷ y ∷ z ∷ []
split-core x y z dx dy dz =
    rw (split-append b'.' x (y ++ (b'.' ∷ z)) (Without-AreDigits b'.' x refl dx)) (
      rw (split-append b'.' y z (Without-AreDigits b'.' y refl dy))
        (rw (split-Without b'.' z (Without-AreDigits b'.' z refl dz))))

component-decimal : (n : ℕ) → n < 2 ^ 63 → component (decimal n) ≡ some (pos n)
component-decimal n h = rw (atoi-decimal n h, component) (ground arith)

-- A text that begins with a digit and does not end in white space is read whole.
trims :
    (s : Text) (c : ℕ) (t : Text)
    → s ≢ []
    → AreDigits s
    → ends_dark c t ≡ true
    → trim_v (trim_space (s ++ c ∷ t)) ≡ s ++ c ∷ t
trims [] c t n h k = absurd (n refl)
trims (d ∷ s) c t n (h, hs) k =
    rw (trim_space-cons d (s ++ c ∷ t) (ground arith) (ends_dark-append d c s t ∙ k)) (ground arith)

is_empty-append : (s : Text) (c : ℕ) (t : Text) → is_empty (s ++ c ∷ t) ≡ false
is_empty-append [] c t = refl
is_empty-append (d ∷ s) c t = refl

-- The version with these numbers and this prerelease.
abbrev pub numbered : ℕ → ℕ → ℕ → Text → Version
numbered a b c pre = record { major = pos a; minor = pos b; patch = pos c; prerelease = pre }

abbrev digits_core : ℕ → ℕ → ℕ → Text
digits_core a b c = core (decimal a) (decimal b) (decimal c)

parse_core-decimal :
    (a b c : ℕ) (pre : Text)
    → a < 2 ^ 63
    → b < 2 ^ 63
    → c < 2 ^ 63
    → parse_core (decimal a ∷ decimal b ∷ decimal c ∷ []) pre ≡ some (numbered a b c pre)
unfolding parse_core
parse_core-decimal a b c pre h k l =
    rw (component-decimal a h) (rw (component-decimal b k) (rw (component-decimal c l)))

module _ (a b c : ℕ) (pre : Text) (h : a < 2 ^ 63) (k : b < 2 ^ 63) (l : c < 2 ^ 63) where
  -- What is left to show of a text `t` when its pieces are known.
  parse_version_of_pieces :
      (t : Text) (dashed : _)
      → trim_v (trim_space t) ≡ t
      → is_empty t ≡ false
      → cut b'+' t ≡ (t, [], false)
      → cut b'-' t ≡ (digits_core a b c, pre, dashed)
      → parse_version t ≡ some (numbered a b c pre)
  unfolding parse_version
  parse_version_of_pieces t dashed trimmed full plus dash = rw trimmed (
      rw (full, plus, dash)
        (rw (split-core _ _ _ (decimal-AreDigits a) (decimal-AreDigits b) (decimal-AreDigits c))
          (parse_core-decimal a b c pre h k l)))

digits_core-Without :
    (d a b c : ℕ) → is_digit d ≡ false → (b'.' == d) ≡ false → Without d (digits_core a b c)
digits_core-Without d a b c h k =
    core-Without d _ _ _ h k (decimal-AreDigits a) (decimal-AreDigits b) (decimal-AreDigits c)

digits_core-ends : (b c : ℕ) → ends_dark b'.' (decimal b ++ (b'.' ∷ decimal c)) ≡ true
digits_core-ends b c =
    ends_dark-append b'.' b'.' (decimal b) (decimal c)
    ∙ ends_dark_of_AreDigits b'.' (decimal c) refl (decimal-AreDigits c)

-- A version printed by String is parsed back to itself, if its numbers fit an int and its
-- prerelease holds no '+' and does not end in white space.
pub parse_version-print :
    (a b c : ℕ) (pre : Text)
    → a < 2 ^ 63
    → b < 2 ^ 63
    → c < 2 ^ 63
    → Without b'+' pre
    → ends_dark b'-' pre ≡ true
    → parse_version (print (numbered a b c pre)) ≡ some (numbered a b c pre)
unfolding print
parse_version-print a b c [] h k l plus ends =
    parse_version_of_pieces a b c [] h k l (digits_core a b c) false
      (trims (decimal a) b'.' _ (decimal-ne-nil a) (decimal-AreDigits a) (digits_core-ends b c))
      (is_empty-append (decimal a) b'.' _)
      (cut-Without b'+' _ (digits_core-Without b'+' a b c refl refl))
      (cut-Without b'-' _ (digits_core-Without b'-' a b c refl refl))
parse_version-print a b c (d ∷ pre) h k l plus ends =
    parse_version_of_pieces a b c (d ∷ pre) h k l (digits_core a b c ++ b'-' ∷ (d ∷ pre)) true
      (rw (append_assoc (decimal a) _ _) (
        trims (decimal a) b'.' _ (decimal-ne-nil a) (decimal-AreDigits a) (
          rw (append_assoc (decimal b) _ _) (
            ends_dark-append b'.' b'.' (decimal b) _
            ∙ (ends_dark-append b'.' b'-' (decimal c) _ ∙ ends)))))
      (is_empty-append (digits_core a b c) b'-' _)
      (cut-Without b'+' _ (
        All-append (λ e. (e == b'+') ≡ false) (digits_core a b c) _
          (digits_core-Without b'+' a b c refl refl) (refl, plus)))
      (cut-append b'-' _ _ (digits_core-Without b'-' a b c refl refl))
