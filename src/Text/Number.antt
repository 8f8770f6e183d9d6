-- ===== src/Text/Number.antt =====
-- strconv.Atoi, and the decimal numerals that fmt prints.
pub mod Laws
use semrel_registry.Prelude.{
  ℕ, zero, suc, ◌+◌, ◌-◌, ◌*◌, ◌/◌, ◌%◌, ◌^◌, Bool, Option, none, some, [], ◌∷◌, ◌++◌, leb, ltb,
  ◌==◌, ◌&&◌, if◌then◌else◌,
}
use semrel_registry.Prelude.Int.{ℤ, pos, negsuc}
use semrel_registry.Text.{Text}

abbrev pub is_digit : ℕ → Bool
is_digit c = leb b'0' c && leb c b'9'

-- The value of a run of digits, `n` being that of the digits before it.
unfoldable pub digits_value : ℕ → Text → Option ℕ
digits_value n [] = some n
digits_value n (c ∷ s) =
    let rest = digits_value (n * 10 + (c - b'0')) s in if is_digit c then rest else none

-- An unsigned numeral has at least one digit.
abbrev pub numeral : Text → Option ℕ
numeral [] = none
numeral (c ∷ s) = digits_value 0 (c ∷ s)

-- The numbers of a signed 64-bit integer; anything else is out of range.
abbrev pub to_positive : Option ℕ → Option ℤ
to_positive none = none
to_positive (some n) = if ltb n (2 ^ 63) then some (pos n) else none

abbrev pub to_negative : Option ℕ → Option ℤ
to_negative none = none
to_negative (some zero) = some (pos 0)
to_negative (some (suc n)) = if ltb n (2 ^ 63) then some (negsuc n) else none

-- strconv.Atoi and strconv.ParseInt at base 10: a sign is read, and `none` is the error
unfoldable pub atoi : Text → Option ℤ
unfolding digits_value
atoi [] = none
atoi (c ∷ s) =
    if c == b'+'
    then to_positive (numeral s)
    else if c == b'-'
    then to_negative (numeral s)
    else to_positive (numeral (c ∷ s))

-- %d at a number that is not negative; twenty digits hold every 64-bit number.
unfoldable pub decimal_from : ℕ → ℕ → Text
decimal_from zero n = []
decimal_from (suc fuel) n =
    let rest = decimal_from fuel (n / 10) in
    if ltb n 10 then (b'0' + n) ∷ [] else rest ++ (b'0' + n % 10) ∷ []

unfoldable pub decimal : ℕ → Text
unfolding decimal_from
decimal n = decimal_from 20 n
