-- ===== src/Text/Fields.antt =====
-- Splitting at white space.
use mathlib.Core.List.{append-nil, append_assoc}
use semrel_registry.Prelude.{
  ℕ, ◌≡◌, refl, true, false, List, [], ◌∷◌, ◌++◌, arith, Bool-cases, inl, inr, ap, ◌∙◌, All,
  All-append, all, ◌&&◌,
}
use semrel_registry.Text.{
  Text, is_space, is_empty, close, fields_from, fields, trim_left, trim_right, trim_space,
}

close-append : (cur : Text) (xs ys : List Text) → close cur (xs ++ ys) ≡ close cur xs ++ ys
close-append [] xs ys = refl
close-append (c ∷ cur) xs ys = refl

fields_from-append :
    (cur s t : Text) (w : ℕ)
    → is_space w ≡ true
    → fields_from cur (s ++ w ∷ t) ≡ fields_from cur s ++ fields_from [] t
unfolding fields_from
fields_from-append cur [] t w h = rw h (close-append cur [] (fields_from [] t))
fields_from-append cur (c ∷ s) t w h = elim (Bool-cases (is_space c)) [
  | inl e ↦ rw e (rw (fields_from-append [] s t w h) (close-append cur _ _))
  | inr e ↦ rw e (fields_from-append (cur ++ c ∷ []) s t w h)
]

-- The fields of two texts with white space between them are those of the one, then of the other.
pub fields-append :
    (s t : Text) (w : ℕ) → is_space w ≡ true → fields (s ++ w ∷ t) ≡ fields s ++ fields t
unfolding fields
fields-append s t w h = fields_from-append [] s t w h

abbrev pub IsBlank : Text → Type 0
IsBlank s = all is_space s ≡ true

is_empty-trim_right : (s : Text) → is_empty (trim_right s) ≡ all is_space s
unfolding trim_right
is_empty-trim_right [] = refl
is_empty-trim_right (c ∷ s) = ground (arith, is_empty-trim_right s)

-- Trimming leaves nothing exactly of a text of white space.
pub is_empty-trim_space : (s : Text) → is_empty (trim_space s) ≡ all is_space s
unfolding trim_space trim_left
is_empty-trim_space [] = is_empty-trim_right []
is_empty-trim_space (c ∷ s) = elim (Bool-cases (is_space c)) [
  | inl h ↦ ground (arith, is_empty-trim_space s)
  | inr h ↦ ground (arith, is_empty-trim_right (c ∷ s))
]

pub all-append-space :
    (s t : Text) (w : ℕ)
    → is_space w ≡ true
    → all is_space (s ++ w ∷ t) ≡ (all is_space s && all is_space t)
all-append-space [] t w h = ground arith
all-append-space (c ∷ s) t w h = ground (arith, all-append-space s t w h)

pub fields-blank : (s : Text) → IsBlank s → fields s ≡ []
unfolding fields fields_from
fields-blank [] h = refl
fields-blank (c ∷ s) h = ground (arith, fields-blank s)

abbrev pub NoSpace : Text → Type 0
NoSpace s = All (λ c. is_space c ≡ false) s

fields_from-NoSpace : (cur s : Text) → NoSpace s → fields_from cur s ≡ close (cur ++ s) []
unfolding fields_from
fields_from-NoSpace cur [] h = rw append-nil
fields_from-NoSpace cur (c ∷ s) (h, hs) =
    rw h (
      fields_from-NoSpace (cur ++ c ∷ []) s hs ∙ ap (λ r. close r []) (append_assoc cur (c ∷ []) s))

-- A text with no white space is one field.
pub fields-NoSpace : (c : ℕ) (s : Text) → NoSpace (c ∷ s) → fields (c ∷ s) ≡ (c ∷ s) ∷ []
unfolding fields
fields-NoSpace c s h = fields_from-NoSpace [] (c ∷ s) h

close-NoSpace :
    (cur : Text) (parts : List Text)
    → NoSpace cur
    → All NoSpace parts
    → All NoSpace (close cur parts)
close-NoSpace [] parts h hs = hs
close-NoSpace (c ∷ cur) parts h hs = (h, hs)

fields_from-NoSpaces : (cur s : Text) → NoSpace cur → All NoSpace (fields_from cur s)
unfolding fields_from
fields_from-NoSpaces cur [] h = close-NoSpace cur [] h tt
fields_from-NoSpaces cur (c ∷ s) h = elim (Bool-cases (is_space c)) [
  | inl e ↦ rw e (close-NoSpace cur _ h (fields_from-NoSpaces [] s tt))
  | inr e ↦ rw e (
      fields_from-NoSpaces (cur ++ c ∷ []) s
        (All-append (λ c. is_space c ≡ false) cur (c ∷ []) h (e, tt)))
]

-- No field holds white space.
pub fields-NoSpaces : (s : Text) → All NoSpace (fields s)
unfolding fields
fields-NoSpaces s = fields_from-NoSpaces [] s tt
