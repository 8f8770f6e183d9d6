-- ===== src/Semver/Identifiers.antt =====
-- The order that comparePrerelease gives to lists of identifiers.
use semrel_registry.Prelude.{
  ◌≡◌, refl, ◌≢◌, ◌↔◌, Option, none, some, List, [], ◌∷◌, All, arith, Bool-cases, inl, inr,
  if◌then◌else◌, ◌∙◌, ap, sym,
}
use semrel_registry.Prelude.Int.{ℤ, eq_ℤ_iff, eq_ℤ}
use semrel_registry.Text.{Text, text_eq}
use semrel_registry.Text.Equality.{
  text_eq_iff, text_lt_asymm, text_lt_connex, text_lt_trans, text_lt_irrefl,
}
use semrel_registry.Text.Number.{atoi}
use semrel_registry.Semver.{
  Comparison, less, same, flip, compare_parsed, compare_identifiers, print_int,
}

-- An identifier that reads as a number is written as that number is printed: "7", but not "07"
-- and not "+7".
abbrev pub IsCanonical : Text → Type 0
IsCanonical s = (n : ℤ) → atoi s ≡ some n → s ≡ print_int n

-- Two identifiers that read as one number are one.
abbrev Agree : Option ℤ → Option ℤ → Text → Text → Type 0
Agree o p s t = (n : ℤ) → o ≡ some n → p ≡ some n → s ≡ t

Agree-IsCanonical : (s t : Text) → IsCanonical s → IsCanonical t → Agree (atoi s) (atoi t) s t
Agree-IsCanonical s t h k n p q = h n p ∙ sym (k n q)

-- The verdict on two identifiers.
abbrev step : Text → Text → Comparison
step s t = if text_eq s t then same else compare_parsed (atoi s) (atoi t) s t

compare_parsed-flip :
    (o p : Option ℤ) (s t : Text)
    → s ≢ t
    → Agree o p s t
    → compare_parsed p o t s ≡ flip (compare_parsed o p s t)
unfolding compare_parsed
compare_parsed-flip none none s t d a = ground (arith, text_lt_asymm s t, text_lt_connex s t d)
compare_parsed-flip none (some n) s t d a = refl
compare_parsed-flip (some m) none s t d a = refl
compare_parsed-flip (some m) (some n) s t d a = elim (Bool-cases (eq_ℤ m n)) [
  | inl e ↦ absurd (d (a m refl (ap some (sym ((eq_ℤ_iff m n).0 e)))))
  | inr e ↦ ground arith
]

compare_parsed-ne-same : (o p : Option ℤ) (s t : Text) → compare_parsed o p s t ≢ same
unfolding compare_parsed
compare_parsed-ne-same none none s t = ground arith
compare_parsed-ne-same none (some n) s t = ground arith
compare_parsed-ne-same (some m) none s t = ground arith
compare_parsed-ne-same (some m) (some n) s t = ground arith

step-flip : (s t : Text) → IsCanonical s → IsCanonical t → step t s ≡ flip (step s t)
step-flip s t h k = elim (Bool-cases (text_eq s t)) [
  | inl e ↦ ground (arith, text_eq_iff s t, text_eq_iff t s)
  | inr e ↦ ground (
    arith,
    text_eq_iff s t,
    text_eq_iff t s,
    compare_parsed-flip (atoi s) (atoi t) s t (λ q. ground (arith, text_eq_iff s t))
        (Agree-IsCanonical s t h k),
  )
]

pub compare_identifiers-flip :
    (ss ts : List Text)
    → All IsCanonical ss
    → All IsCanonical ts
    → compare_identifiers ts ss ≡ flip (compare_identifiers ss ts)
unfolding compare_identifiers
compare_identifiers-flip [] [] _ _ = refl
compare_identifiers-flip [] (t ∷ ts) _ _ = refl
compare_identifiers-flip (s ∷ ss) [] _ _ = refl
compare_identifiers-flip (s ∷ ss) (t ∷ ts) (h, hs) (k, ks) = ground (
  arith,
  step-flip s t h k,
  compare_identifiers-flip ss ts hs ks,
  text_eq_iff s t,
  text_eq_iff t s,
)

-- The verdict is `same` for equal lists only.
pub compare_identifiers-same : (ss ts : List Text) → (compare_identifiers ss ts ≡ same) ↔ (ss ≡ ts)
unfolding compare_identifiers
compare_identifiers-same [] [] = (λ _. refl, λ _. refl)
compare_identifiers-same [] (t ∷ ts) = (λ e. cc, λ e. cc)
compare_identifiers-same (s ∷ ss) [] = (λ e. cc, λ e. cc)
compare_identifiers-same (s ∷ ss) (t ∷ ts) = ground (
  arith,
  compare_identifiers-same ss ts,
  text_eq_iff s t,
  compare_parsed-ne-same (atoi s) (atoi t) s t,
)

compare_parsed_trans :
    (o p q : Option ℤ) (s t u : Text)
    → compare_parsed o p s t ≡ less
    → compare_parsed p q t u ≡ less
    → compare_parsed o q s u ≡ less
unfolding compare_parsed
compare_parsed_trans none none none s t u h k = ground (arith, text_lt_trans s t u)
compare_parsed_trans none none (some n) s t u h k = ground arith
compare_parsed_trans none (some m) q s t u h k = ground arith
compare_parsed_trans (some l) none none s t u h k = refl
compare_parsed_trans (some l) none (some n) s t u h k = ground arith
compare_parsed_trans (some l) (some m) none s t u h k = refl
compare_parsed_trans (some l) (some m) (some n) s t u h k = ground arith

compare_parsed_irrefl : (o : Option ℤ) (s : Text) → compare_parsed o o s s ≢ less
unfolding compare_parsed
compare_parsed_irrefl none s = ground (arith, text_lt_irrefl s)
compare_parsed_irrefl (some n) s = ground arith

step_trans : (s t u : Text) → step s t ≡ less → step t u ≡ less → step s u ≡ less
step_trans s t u h k = elim (Bool-cases (text_eq s u)) [
  | inl e ↦
      let same_text : s ≡ u = (text_eq_iff s u).0 e in
      absurd (
        compare_parsed_irrefl (atoi u) u (
          compare_parsed_trans (atoi u) (atoi t) (atoi u) u t u (ground (arith, text_eq_iff s t))
            (ground (arith, text_eq_iff t u))))
  | inr e ↦ ground (arith, compare_parsed_trans (atoi s) (atoi t) (atoi u) s t u)
]

-- The order is transitive on all identifiers, canonical or not.
pub compare_identifiers_trans :
    (ss ts us : List Text)
    → compare_identifiers ss ts ≡ less
    → compare_identifiers ts us ≡ less
    → compare_identifiers ss us ≡ less
unfolding compare_identifiers
compare_identifiers_trans [] [] us h k = k
compare_identifiers_trans [] (t ∷ ts) [] h k = cc
compare_identifiers_trans [] (t ∷ ts) (u ∷ us) h k = refl
compare_identifiers_trans (s ∷ ss) [] us h k = cc
compare_identifiers_trans (s ∷ ss) (t ∷ ts) [] h k = cc
compare_identifiers_trans (s ∷ ss) (t ∷ ts) (u ∷ us) h k = ground (
  arith,
  compare_identifiers_trans ss ts us,
  step_trans s t u,
  text_eq_iff s t,
  text_eq_iff t u,
  text_eq_iff s u,
)
