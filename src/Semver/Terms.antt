-- ===== src/Semver/Terms.antt =====
-- The verdict of SatisfiesRange on one term, an operator before a version that String prints.
use semrel_registry.Prelude.{
  ℕ, ◌<◌, ◌^◌, ◌≡◌, refl, ◌≢◌, inl, inr, true, false, [], ◌∷◌, ◌++◌, All-append, arith,
  Option-cases, ◌∙◌, ap,
}
use mathlib.Core.List.{append_assoc, append-nil}
use semrel_registry.Text.{Text, is_space, trim_space}
use semrel_registry.Text.Trim.{trim_space_idem, ends_dark}
use semrel_registry.Text.Fields.{NoSpace, fields-NoSpace}
use semrel_registry.Text.Split.{Without}
use semrel_registry.Text.Number.{decimal}
use semrel_registry.Text.Number.Laws.{AreDigits, decimal-AreDigits, decimal-ne-nil}
use semrel_registry.Semver.{
  Version, print, parse_version, parse_term, parse_terms, expand, satisfies_range, is_operator_byte,
  operator_prefix,
}
use semrel_registry.Semver.Printing.{numbered, parse_version-print}
use semrel_registry.Semver.Ranges.{satisfies_range-verdict, verdict, parse_range_lem}

NoSpace-AreDigits : (s : Text) → AreDigits s → NoSpace s
NoSpace-AreDigits [] h = tt
NoSpace-AreDigits (c ∷ s) (h, hs) = (ground arith, NoSpace-AreDigits s hs)

dot_after : (s t : Text) → AreDigits s → NoSpace t → NoSpace (s ++ (b'.' ∷ t))
dot_after s t h k = All-append (λ c. is_space c ≡ false) s _ (NoSpace-AreDigits s h) (refl, k)

print-NoSpace : (a b c : ℕ) (pre : Text) → NoSpace pre → NoSpace (print (numbered a b c pre))
unfolding print
print-NoSpace a b c [] h =
    dot_after _ _ (decimal-AreDigits a)
      (dot_after _ _ (decimal-AreDigits b) (NoSpace-AreDigits _ (decimal-AreDigits c)))
print-NoSpace a b c (d ∷ pre) h =
    All-append (λ e. is_space e ≡ false) _ _
      (dot_after _ _ (decimal-AreDigits a)
        (dot_after _ _ (decimal-AreDigits b) (NoSpace-AreDigits _ (decimal-AreDigits c))))
      (refl, h)

-- An operator byte before a text that begins with a digit is the whole operator.
operator_prefix-digit :
    (op : ℕ) (s : Text) (c : ℕ) (t : Text)
    → is_operator_byte op ≡ true
    → s ≢ []
    → AreDigits s
    → operator_prefix (op ∷ s ++ c ∷ t) ≡ (op ∷ [], s ++ c ∷ t)
unfolding operator_prefix
operator_prefix-digit op [] c t h n k = absurd (n refl)
operator_prefix-digit op (d ∷ s) c t h n (k, ks) = ground arith

operator_prefix-print :
    (op a b c : ℕ) (pre : Text)
    → is_operator_byte op ≡ true
    → operator_prefix (op ∷ print (numbered a b c pre)) ≡ (op ∷ [], print (numbered a b c pre))
unfolding print
operator_prefix-print op a b c [] h =
    operator_prefix-digit op (decimal a) b'.' _ h (decimal-ne-nil a) (decimal-AreDigits a)
operator_prefix-print op a b c (d ∷ pre) h =
    rw (append_assoc (decimal a) _ _)
      (operator_prefix-digit op (decimal a) b'.' _ h (decimal-ne-nil a) (decimal-AreDigits a))

-- The parts of a version that String prints so that ParseVersion reads them back.
pub record IsPrintable (a b c : ℕ) (pre : Text) : Type 0 where
  pub major_fits : a < 2 ^ 63
  pub minor_fits : b < 2 ^ 63
  pub patch_fits : c < 2 ^ 63
  pub no_plus : Without b'+' pre
  pub no_space : NoSpace pre
  pub ends : ends_dark b'-' pre ≡ true

module _ (op a b c : ℕ) (pre : Text) (h : is_operator_byte op ≡ true)
    (ok : IsPrintable a b c pre) where
  parse_term-print :
      parse_term (op ∷ print (numbered a b c pre)) ≡ expand (op ∷ []) (numbered a b c pre)
  unfolding parse_term
  parse_term-print = rw (operator_prefix-print op a b c pre h) (
      rw (parse_version-trim (print (numbered a b c pre))) (
        rw (
          parse_version-print a b c pre ok.major_fits ok.minor_fits ok.patch_fits ok.no_plus
            ok.ends)))
    where
      parse_version-trim : (s : Text) → parse_version (trim_space s) ≡ parse_version s
      parse_version-trim s = unfold parse_version in rw (trim_space_idem s)

parse_terms-single :
    (t : Text) (v : Version) → verdict v (parse_terms (t ∷ [])) ≡ verdict v (parse_term t)
unfolding parse_terms
parse_terms-single t v = elim (Option-cases (parse_term t)) [
  | inl e ↦ rw e
  | inr (cs, e) ↦ rw e (rw append-nil)
]

-- The verdict on one printed term with an operator.
pub satisfies_range-print :
    (op a b c : ℕ) (pre : Text) (x y z : ℕ) (tag : Text)
    → is_operator_byte op ≡ true
    → IsPrintable a b c pre
    → IsPrintable x y z tag
    → satisfies_range (print (numbered x y z tag)) (op ∷ print (numbered a b c pre))
      ≡ verdict (numbered x y z tag) (expand (op ∷ []) (numbered a b c pre))
satisfies_range-print op a b c pre x y z tag h ok ok' =
    let v = numbered x y z tag in
    satisfies_range-verdict _ v _ (
      parse_version-print x y z tag ok'.major_fits ok'.minor_fits ok'.patch_fits ok'.no_plus
        ok'.ends)
    ∙ (ap (verdict v) (
          parse_range_lem _
          ∙ ap parse_terms
              (fields-NoSpace op _ (ground arith, print-NoSpace a b c pre ok.no_space)))
        ∙ (parse_terms-single _ _ ∙ ap (verdict v) (parse_term-print op a b c pre h ok)))
