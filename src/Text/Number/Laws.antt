-- ===== src/Text/Number/Laws.antt =====
-- Reading back the decimal numerals.
use semrel_registry.Prelude.{
  ℕ, zero, suc, ◌+◌, ◌-◌, ◌*◌, ◌/◌, ◌%◌, ◌^◌, ◌<◌, ◌≡◌, refl, some, [], ◌∷◌, ◌++◌, arith,
  Bool-cases, inl, inr, ltb, All, All-append, ◌≢◌, true,
}
use semrel_registry.Prelude.Int.{pos}
use native.Mathlib.Nat.{pow-suc}
use semrel_registry.Text.{Text}
use semrel_registry.Text.Number.{digits_value, atoi, decimal_from, decimal, to_positive, is_digit}

digits_value-snoc :
    (m d : ℕ) (s : Text) (n : ℕ)
    → digits_value m s ≡ some n
    → d < 10
    → digits_value m (s ++ (b'0' + d) ∷ []) ≡ some (n * 10 + d)
unfolding digits_value
digits_value-snoc m d [] n h k = ground arith
digits_value-snoc m d (c ∷ s) n h k = ground (arith, digits_value-snoc (m * 10 + (c - b'0')) d s n)

-- With enough rounds for the digits of `n`.
digits_value-decimal_from :
    (fuel n : ℕ) → n < 10 ^ fuel → digits_value 0 (decimal_from fuel n) ≡ some n
unfolding decimal_from
digits_value-decimal_from zero n h =
    let e : n ≡ 0 = omega arith in rw e (unfold digits_value in refl)
digits_value-decimal_from (suc fuel) n h = elim (Bool-cases (ltb n 10)) [
  | inl small ↦ rw small (unfold digits_value in ground arith)
  | inr large ↦ rw large (
      ground (
        arith,
        digits_value-decimal_from fuel (n / 10),
        pow-suc 10 fuel,
        digits_value-snoc 0 (n % 10) (decimal_from fuel (n / 10)) (n / 10),
      ))
]

abbrev pub AreDigits : Text → Type 0
AreDigits s = All (λ c. is_digit c ≡ true) s

decimal_from-AreDigits : (fuel n : ℕ) → AreDigits (decimal_from fuel n)
unfolding decimal_from
decimal_from-AreDigits zero n = tt
decimal_from-AreDigits (suc fuel) n = elim (Bool-cases (ltb n 10)) [
  | inl small ↦ rw small (ground arith, tt)
  | inr large ↦ rw large (
      All-append (λ c. is_digit c ≡ true) _ _ (decimal_from-AreDigits fuel (n / 10))
        (ground arith, tt))
]

pub decimal-AreDigits : (n : ℕ) → AreDigits (decimal n)
unfolding decimal
decimal-AreDigits n = unfold decimal in decimal_from-AreDigits 20 n

append-ne-nil : (s : Text) (c : ℕ) → s ++ c ∷ [] ≢ []
append-ne-nil [] c e = cc
append-ne-nil (d ∷ s) c e = cc

decimal_from-ne-nil : (fuel n : ℕ) → decimal_from (suc fuel) n ≢ []
unfolding decimal_from
decimal_from-ne-nil fuel n = elim (Bool-cases (ltb n 10)) [
  | inl small ↦ rw small (λ e. cc)
  | inr large ↦ rw large (append-ne-nil _ _)
]

pub decimal-ne-nil : (n : ℕ) → decimal n ≢ []
unfolding decimal
decimal-ne-nil n = decimal_from-ne-nil 19 n

atoi-digits : (s : Text) → s ≢ [] → AreDigits s → atoi s ≡ to_positive (digits_value 0 s)
unfolding atoi
atoi-digits [] n h = absurd (n refl)
atoi-digits (c ∷ s) n (h, _) = ground arith

-- Reading what was printed gives the number back, for each number that an int holds.
pub atoi-decimal : (n : ℕ) → n < 2 ^ 63 → atoi (decimal n) ≡ some (pos n)
atoi-decimal n h =
    rw (atoi-digits (decimal n) (decimal-ne-nil n) (decimal-AreDigits n))
      (unfold decimal in rw (digits_value-decimal_from 20 n (omega arith)) (ground arith))
