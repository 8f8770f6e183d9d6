-- ===== src/Semver/Ranges.antt =====
-- What a range admits.
use semrel_registry.Prelude.{
  ℕ, ◌≡◌, refl, inl, inr, Bool, true, ◌&&◌, List, [], ◌∷◌, ◌++◌, arith, some, none, Option,
  Bool-cases, ◌∙◌, all, ap, sym,
}
use mathlib.Core.List.{append_assoc}
use semrel_registry.Text.{Text, fields, is_space}
use semrel_registry.Text.Fields.{fields-append, fields-blank, is_empty-trim_space}
use semrel_registry.Semver.{
  Version, Constraint, parse_term, parse_terms, parse_range, all_allow, satisfies_range,
  parse_version, ◌>>=◌,
}

abbrev both : Option (List Constraint) → Option (List Constraint) → Option (List Constraint)
both o p = do cs ← o; ds ← p; some (cs ++ ds)

both_assoc : (o p q : Option (List Constraint)) → both o (both p q) ≡ both (both o p) q
both_assoc none p q = refl
both_assoc (some cs) none q = refl
both_assoc (some cs) (some ds) none = refl
both_assoc (some cs) (some ds) (some es) = ap some (sym (append_assoc cs ds es))

both-nil : (p : Option (List Constraint)) → both (some []) p ≡ p
both-nil none = refl
both-nil (some ds) = refl

pub parse_terms-append :
    (xs ys : List Text) → parse_terms (xs ++ ys) ≡ both (parse_terms xs) (parse_terms ys)
unfolding parse_terms
parse_terms-append [] ys = sym (both-nil (parse_terms ys))
parse_terms-append (x ∷ xs) ys =
    ap (both (parse_term x)) (parse_terms-append xs ys)
    ∙ both_assoc (parse_term x) (parse_terms xs) (parse_terms ys)

all_allow-append :
    (cs ds : List Constraint) (v : Version)
    → all_allow (cs ++ ds) v ≡ (all_allow cs v && all_allow ds v)
unfolding all_allow
all_allow-append [] ds v = refl
all_allow-append (c ∷ cs) ds v = ground (arith, all_allow-append cs ds v)

-- Whether a parsed version satisfies a list of terms, or the error.
abbrev pub verdict : Version → Option (List Constraint) → Option Bool
verdict v o = do cs ← o; some (all_allow cs v)

abbrev pub and_option : Option Bool → Option Bool → Option Bool
and_option o p = do a ← o; b ← p; some (a && b)

pub verdict-both :
    (v : Version) (o p : Option (List Constraint))
    → verdict v (both o p) ≡ and_option (verdict v o) (verdict v p)
verdict-both v none p = refl
verdict-both v (some cs) none = refl
verdict-both v (some cs) (some ds) = ap some (all_allow-append cs ds v)

-- At a version that parses, a blank range gives what its empty list of terms gives.
pub satisfies_range-verdict :
    (version : Text) (v : Version) (expr : Text)
    → parse_version version ≡ some v
    → satisfies_range version expr ≡ verdict v (parse_range expr)
unfolding satisfies_range
satisfies_range-verdict version v expr h = elim (Bool-cases (all is_space expr)) [
  | inl blank ↦
      rw (is_empty-trim_space expr ∙ blank)
        (rw (fields-blank expr blank, parse_range) (unfold parse_terms all_allow in refl))
  | inr dark ↦ rw (is_empty-trim_space expr ∙ dark) (rw h refl)
]

-- Terms are combined with AND: for a version that parses, the verdict on two ranges written one
-- after the other with white space between them is that both verdicts hold, and it is an error as
-- soon as one of the two is.
pub satisfies_range-append :
    (version : Text) (v : Version) (s t : Text) (w : ℕ)
    → parse_version version ≡ some v
    → is_space w ≡ true
    → satisfies_range version (s ++ w ∷ t)
      ≡ and_option (satisfies_range version s) (satisfies_range version t)
satisfies_range-append version v s t w h k = rw (satisfies_range-verdict version v (s ++ w ∷ t) h) (
    rw (satisfies_range-verdict version v s h) (
      rw (satisfies_range-verdict version v t h) (
        unfold parse_range in
        rw (fields-append s t w k)
          (rw (parse_terms-append (fields s) (fields t)) (verdict-both v _ _)))))

pub parse_range_lem : (s : Text) → parse_range s ≡ parse_terms (fields s)
unfolding parse_range
parse_range_lem s = refl
