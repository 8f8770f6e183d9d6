-- ===== src/Semver.antt =====
-- api/service/semver.go: versions, their precedence, and the ranges that plugins declare.
-- A failed parse is `none`; the message that Go builds for it is left out. Numbers are Go ints.
pub mod Identifiers
pub mod Precedence
pub mod Printing
pub mod Ranges
pub mod Terms
pub mod Shorthands
pub mod Ties
mod Tests
use semrel_registry.Prelude.{
  ℕ, String, Bool, true, false, ◌&&◌, ◌||◌, Option, none, some, List, [], ◌∷◌, ◌++◌, ◌==◌,
  if◌then◌else◌, any,
}
use semrel_registry.Prelude.Int.{ℤ, pos, eq_ℤ, ltb_ℤ, add64}
use semrel_registry.Text.{
  Text, text, text_eq, text_lt, is_empty, trim_space, cut, split, fields, has_prefix,
}
use semrel_registry.Text.Number.{atoi, decimal}

pub record Version : Type 0 where
  pub major : ℤ
  pub minor : ℤ
  pub patch : ℤ
  pub prerelease : Text

-- %d at an int
abbrev pub print_int : ℤ → Text
print_int (pos n) = decimal n
print_int (ℤ.negsuc n) = b'-' ∷ decimal (ℕ.suc n)

-- Version.String
unfoldable pub print : Version → Text
print v =
    let core = print_int v.major ++ (b'.' ∷ (print_int v.minor ++ (b'.' ∷ print_int v.patch))) in
    if is_empty v.prerelease then core else core ++ (b'-' ∷ v.prerelease)

-- one number of the loop over the parts: an error, or a number that is not negative
abbrev pub component : Text → Option ℤ
component part = elim (atoi part) [
  | none ↦ none
  | some n ↦ if ltb_ℤ n (pos 0) then none else some n
]

infixl 5 ◌>>=◌
abbrev pub ◌>>=◌ {ℓ κ} : {A : Type ℓ} {B : Type κ} → Option A → (A → Option B) → Option B
none >>= k = none
some a >>= k = k a

-- the parts of `core`, which are three or an error
unfoldable pub parse_core : List Text → Text → Option Version
parse_core (a ∷ b ∷ c ∷ []) pre = do
  x ← component a
  y ← component b
  z ← component c
  some (record { major = x; minor = y; patch = z; prerelease = pre })
parse_core _ pre = none

-- strings.TrimPrefix(text, "v")
abbrev pub trim_v : Text → Text
trim_v [] = []
trim_v (c ∷ s) = if c == b'v' then s else c ∷ s

-- ParseVersion
unfoldable pub parse_version : Text → Option Version
unfolding parse_core
parse_version raw =
    let whole = trim_v (trim_space raw) in
    let t = (cut b'+' whole).0 in
    let parts = cut b'-' t in
    if is_empty whole then none else parse_core (split b'.' parts.0) parts.1

-- The ints -1, 0 and 1 that a comparison returns.
pub data Comparison : Type 0 where
  less same greater : Comparison

abbrev pub flip : Comparison → Comparison
flip less = greater
flip same = same
flip greater = less

-- one round of the loop of comparePrerelease, at identifiers that differ
unfoldable pub compare_parsed : Option ℤ → Option ℤ → Text → Text → Comparison
compare_parsed (some m) (some n) s t = if ltb_ℤ m n then less else greater
compare_parsed (some m) none s t = less
compare_parsed none (some n) s t = greater
compare_parsed none none s t = if text_lt s t then less else greater

unfoldable pub compare_identifiers : List Text → List Text → Comparison
unfolding compare_parsed
compare_identifiers [] [] = same
compare_identifiers [] (t ∷ ts) = less
compare_identifiers (s ∷ ss) [] = greater
compare_identifiers (s ∷ ss) (t ∷ ts) =
    if text_eq s t then compare_identifiers ss ts else compare_parsed (atoi s) (atoi t) s t

unfoldable pub compare_prerelease : Text → Text → Comparison
unfolding compare_identifiers
compare_prerelease a b = compare_identifiers (split b'.' a) (split b'.' b)

-- the switch of CompareVersions on prereleases
unfoldable pub compare_tags : Text → Text → Comparison
compare_tags a b =
    if is_empty a && is_empty b
    then same
    else if is_empty a
    then greater
    else if is_empty b
    then less
    else compare_prerelease a b

-- one pair of numbers; `rest` is the verdict of the later ones
abbrev pub compare_then : ℤ → ℤ → Comparison → Comparison
compare_then m n rest = if eq_ℤ m n then rest else if ltb_ℤ m n then less else greater

-- CompareVersions
unfoldable pub compare_versions : Version → Version → Comparison
compare_versions a b = compare_then a.major b.major (
    compare_then a.minor b.minor
      (compare_then a.patch b.patch (compare_tags a.prerelease b.prerelease)))

pub record Constraint : Type 0 where
  pub operator : Text
  pub version : Version

abbrev pub is_same : Comparison → Bool
is_same same = true
is_same _ = false

abbrev pub is_less : Comparison → Bool
is_less less = true
is_less _ = false

abbrev pub is_greater : Comparison → Bool
is_greater greater = true
is_greater _ = false

abbrev pub one_of : Text → List String → Bool
one_of s [] = false
one_of s (x ∷ xs) = text_eq s (text x) || one_of s xs

-- constraint.allows
unfoldable pub allows : Constraint → Version → Bool
unfolding text_eq
allows c v =
    let cmp = compare_versions v c.version in
    if one_of c.operator ("" ∷ "=" ∷ "==" ∷ [])
    then is_same cmp
    else if text_eq c.operator (text ">")
    then is_greater cmp
    else if text_eq c.operator (text ">=")
    then is_greater cmp || is_same cmp
    else if text_eq c.operator (text "<")
    then is_less cmp
    else if text_eq c.operator (text "<=")
    then is_less cmp || is_same cmp
    else false

abbrev pub is_operator_byte : ℕ → Bool
is_operator_byte c = c == b'<' || c == b'>' || c == b'=' || c == b'~' || c == b'^'

-- the two slices of splitOperator, before the second is trimmed
unfoldable pub operator_prefix : Text → Text × Text
operator_prefix [] = ([], [])
operator_prefix (c ∷ s) =
    let rest = operator_prefix s in if is_operator_byte c then (c ∷ rest.0, rest.1) else ([], c ∷ s)

-- splitOperator
unfoldable pub split_operator : Text → Text × Text
unfolding operator_prefix
split_operator term = let p = operator_prefix term in (p.0, trim_space p.1)

abbrev pub release : ℤ → ℤ → Version
release x y = record { major = x; minor = y; patch = pos 0; prerelease = [] }

abbrev pub at_least : Version → Constraint
at_least v = record { operator = text ">="; version = v }

abbrev pub below : Version → Constraint
below v = record { operator = text "<"; version = v }

-- the upper bound of `^`
abbrev pub caret_bound : Version → Version
caret_bound v =
    if eq_ℤ v.major (pos 0)
    then release (pos 0) (add64 v.minor (pos 1))
    else release (add64 v.major (pos 1)) (pos 0)

-- the switch of ParseRange on the operator
unfoldable pub expand : Text → Version → Option (List Constraint)
unfolding text_eq
expand operator v =
    if text_eq operator (text "~")
    then some (at_least v ∷ below (release v.major (add64 v.minor (pos 1))) ∷ [])
    else if text_eq operator (text "^")
    then some (at_least v ∷ below (caret_bound v) ∷ [])
    else if one_of operator ("" ∷ "=" ∷ "==" ∷ ">" ∷ ">=" ∷ "<" ∷ "<=" ∷ [])
    then some (record { operator = operator; version = v } ∷ [])
    else none

-- one term of a range
unfoldable pub parse_term : Text → Option (List Constraint)
unfolding split_operator expand
parse_term term =
    let (operator, rest) = split_operator term in do v ← parse_version rest; expand operator v

-- the loop of ParseRange
unfoldable pub parse_terms : List Text → Option (List Constraint)
unfolding parse_term
parse_terms [] = some []
parse_terms (term ∷ terms) = do cs ← parse_term term; ds ← parse_terms terms; some (cs ++ ds)

-- ParseRange
unfoldable pub parse_range : Text → Option (List Constraint)
unfolding parse_terms
parse_range raw = parse_terms (fields raw)

-- the loop of SatisfiesRange
unfoldable pub all_allow : List Constraint → Version → Bool
all_allow [] v = true
all_allow (c ∷ cs) v = allows c v && all_allow cs v

-- SatisfiesRange
unfoldable pub satisfies_range : Text → Text → Option Bool
unfolding parse_range all_allow
satisfies_range version expr =
    let checked = (do v ← parse_version version; cs ← parse_range expr; some (all_allow cs v)) in
    if is_empty (trim_space expr) then some true else checked
