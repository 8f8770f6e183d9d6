-- ===== src/Text/Trim.antt =====
-- Trimming.
use semrel_registry.Prelude.{
  ℕ, ◌≡◌, refl, Bool, true, false, not, [], ◌∷◌, arith, Bool-cases, inl, inr,
}
use semrel_registry.Text.{Text, is_space, trim_left, trim_right, trim_space}

-- The text `c ∷ s` does not end in white space.
abbrev pub ends_dark : ℕ → Text → Bool
ends_dark c [] = not (is_space c)
ends_dark c (d ∷ s) = ends_dark d s

trim_right-cons : (c : ℕ) (s : Text) → ends_dark c s ≡ true → trim_right (c ∷ s) ≡ c ∷ s
unfolding trim_right
trim_right-cons c [] h = ground arith
trim_right-cons c (d ∷ s) h = ground (arith, trim_right-cons d s h)

-- A text that begins and ends with a byte other than white space is left as it is.
pub trim_space-cons :
    (c : ℕ) (s : Text) → is_space c ≡ false → ends_dark c s ≡ true → trim_space (c ∷ s) ≡ c ∷ s
unfolding trim_space trim_left
trim_space-cons c s h k = ground (arith, trim_right-cons c s k)

trim_right_idem : (s : Text) → trim_right (trim_right s) ≡ trim_right s
unfolding trim_right
trim_right_idem [] = refl
trim_right_idem (c ∷ s) = ground (arith, trim_right_idem s)

-- What trimming on the left leaves does not begin with white space.
trim_left-trim_right-trim_left :
    (s : Text) → trim_left (trim_right (trim_left s)) ≡ trim_right (trim_left s)
unfolding trim_left
trim_left-trim_right-trim_left [] = unfold trim_right in refl
trim_left-trim_right-trim_left (c ∷ s) = elim (Bool-cases (is_space c)) [
  | inl h ↦ ground (arith, trim_left-trim_right-trim_left s)
  | inr h ↦ unfold trim_right in ground arith
]

pub trim_space_idem : (s : Text) → trim_space (trim_space s) ≡ trim_space s
unfolding trim_space
trim_space_idem s = ground (arith, trim_left-trim_right-trim_left s, trim_right_idem (trim_left s))
