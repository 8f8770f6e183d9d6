-- ===== src/Text.antt =====
-- Go's strings as lists of bytes, and the functions of the packages strings and strconv that the
-- registry calls. Letters and white space are those of ASCII, on which Go's Unicode tables and
-- these agree; other bytes are carried along unchanged.
pub mod Equality
pub mod Trim
pub mod Number
pub mod Fields
pub mod Split
use Prim.Native.Char.{code}
use Prim.Native.String.{String}
use semrel_registry.Prelude.{
  ℕ, zero, suc, ◌+◌, ◌-◌, Bool, true, false, ◌&&◌, ◌||◌, List, [], ◌∷◌, ◌++◌, map, leb, ltb, ◌==◌,
  if◌then◌else◌, any,
}
use mathlib.Core.List.{reverse}

abbrev pub Text : Type 0
Text = List ℕ

-- The bytes of an ASCII literal.
abbrev pub text : String → Text
text String.[] = []
text (String.◌∷◌ c s) = code c ∷ text s

-- ==
unfoldable pub text_eq : Text → Text → Bool
text_eq [] [] = true
text_eq (a ∷ s) (b ∷ t) = a == b && text_eq s t
text_eq _ _ = false

abbrev pub is_empty : Text → Bool
is_empty [] = true
is_empty (c ∷ s) = false

-- <, byte by byte
unfoldable pub text_lt : Text → Text → Bool
text_lt [] [] = false
text_lt [] (b ∷ t) = true
text_lt (a ∷ s) [] = false
text_lt (a ∷ s) (b ∷ t) = if a == b then text_lt s t else ltb a b

abbrev pub is_space : ℕ → Bool
is_space c = c == 32 || (leb 9 c && leb c 13)

-- strings.TrimLeft and strings.TrimRight over white space, and strings.TrimSpace
unfoldable pub trim_left : Text → Text
trim_left [] = []
trim_left (c ∷ s) = if is_space c then trim_left s else c ∷ s

unfoldable pub trim_right : Text → Text
trim_right [] = []
trim_right (c ∷ s) = let rest = trim_right s in if is_space c && is_empty rest then [] else c ∷ rest

unfoldable pub trim_space : Text → Text
unfolding trim_left trim_right
trim_space s = trim_right (trim_left s)

-- strings.ToLower, and strings.EqualFold
abbrev pub lower : ℕ → ℕ
lower c = if leb b'A' c && leb c b'Z' then c + 32 else c

unfoldable pub to_lower : Text → Text
to_lower s = map lower s

abbrev pub upper : ℕ → ℕ
upper c = if leb b'a' c && leb c b'z' then c - 32 else c

unfoldable pub to_upper : Text → Text
to_upper s = map upper s

unfoldable pub equal_fold : Text → Text → Bool
unfolding text_eq to_lower
equal_fold s t = text_eq (to_lower s) (to_lower t)

-- strings.Cut at one byte: what stands before it, what stands behind it, and whether it is there
unfoldable pub cut : ℕ → Text → Text × Text × Bool
cut sep [] = ([], [], false)
cut sep (c ∷ s) =
    let rest = cut sep s in if c == sep then ([], s, true) else (c ∷ rest.0, rest.1, rest.2)

abbrev push_first : ℕ → List Text → List Text
push_first c [] = (c ∷ []) ∷ []
push_first c (part ∷ parts) = (c ∷ part) ∷ parts

-- strings.Split at one byte
unfoldable pub split : ℕ → Text → List Text
split sep [] = [] ∷ []
split sep (c ∷ s) = let rest = split sep s in if c == sep then [] ∷ rest else push_first c rest

abbrev close : Text → List Text → List Text
close [] parts = parts
close (c ∷ part) parts = (c ∷ part) ∷ parts

-- strings.Fields: `cur` is the field that is being read
unfoldable pub fields_from : Text → Text → List Text
fields_from cur [] = close cur []
fields_from cur (c ∷ s) =
    let ended = fields_from [] s in
    let longer = fields_from (cur ++ c ∷ []) s in if is_space c then close cur ended else longer

unfoldable pub fields : Text → List Text
unfolding fields_from
fields s = fields_from [] s

unfoldable pub has_prefix : Text → Text → Bool
has_prefix s [] = true
has_prefix [] (p ∷ ps) = false
has_prefix (c ∷ s) (p ∷ ps) = c == p && has_prefix s ps

-- strings.HasSuffix
unfoldable pub has_suffix : Text → Text → Bool
unfolding text_eq
has_suffix [] suffix = is_empty suffix
has_suffix (c ∷ s) suffix = text_eq (c ∷ s) suffix || has_suffix s suffix

-- strings.TrimSuffix and strings.TrimPrefix
unfoldable pub trim_suffix : Text → Text → Text
unfolding text_eq
trim_suffix [] suffix = []
trim_suffix (c ∷ s) suffix =
    let rest = trim_suffix s suffix in if text_eq (c ∷ s) suffix then [] else c ∷ rest

abbrev skip : Text → Text → Text
skip s [] = s
skip [] (p ∷ ps) = []
skip (c ∷ s) (p ∷ ps) = skip s ps

unfoldable pub trim_prefix : Text → Text → Text
unfolding has_prefix
trim_prefix s prefix = if has_prefix s prefix then skip s prefix else s

-- strings.Trim at one byte
unfoldable pub trim_byte_left : ℕ → Text → Text
trim_byte_left b [] = []
trim_byte_left b (c ∷ s) = if c == b then trim_byte_left b s else c ∷ s

unfoldable pub trim_byte_right : ℕ → Text → Text
trim_byte_right b [] = []
trim_byte_right b (c ∷ s) =
    let rest = trim_byte_right b s in if c == b && is_empty rest then [] else c ∷ rest

unfoldable pub trim_byte : ℕ → Text → Text
unfolding trim_byte_left trim_byte_right
trim_byte b s = trim_byte_right b (trim_byte_left b s)

-- strings.Contains
unfoldable pub contains : Text → Text → Bool
unfolding has_prefix
contains [] sub = has_prefix [] sub
contains (c ∷ s) sub = has_prefix (c ∷ s) sub || contains s sub

-- strings.Join
unfoldable pub join : List Text → Text → Text
join [] sep = []
join (part ∷ []) sep = part
join (part ∷ next ∷ parts) sep = part ++ (sep ++ join (next ∷ parts) sep)
