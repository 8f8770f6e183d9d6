-- ===== src/Advisories/Ranges.antt =====
-- What an imported range admits, by the parts between the commas of GitHub's text.
use semrel_registry.Prelude.{
  ◌≡◌, refl, sym, ap, ◌∙◌, Bool, true, false, Option, none, some, List, [], ◌∷◌, All, All-append,
  Bool-cases, inl, inr, not, ◌&&◌, if◌then◌else◌,
}
use semrel_registry.Text.{
  Text, text, is_space, is_empty, fields, fields_from, split, join, trim_space,
}
use semrel_registry.Text.Fields.{NoSpace, fields-append, fields-NoSpace, fields-NoSpaces}
use semrel_registry.Models.{Time}
use semrel_registry.Semver.{
  Version, parse_terms, parse_range, satisfies_range, parse_version, all_allow,
}
use semrel_registry.Semver.Ranges.{
  verdict, and_option, satisfies_range-verdict, parse_terms-append, verdict-both, parse_range_lem,
}
use semrel_registry.Advisories.{
  Vulnerability, GhSecurityAdvisory, squeeze, terms_of, convert_ghsa_range, to_model, first_range,
  advisory_affects, reported, is_there,
}

join-NoSpace : (parts : List Text) → All NoSpace parts → NoSpace (join parts [])
unfolding join
join-NoSpace [] h = tt
join-NoSpace (part ∷ []) (h, hs) = h
join-NoSpace (part ∷ next ∷ parts) (h, hs) =
    All-append (λ c. is_space c ≡ false) part (join (next ∷ parts) []) h
      (join-NoSpace (next ∷ parts) hs)

squeeze-NoSpace : (p : Text) → NoSpace (squeeze p)
unfolding squeeze
squeeze-NoSpace p = join-NoSpace (fields p) (fields-NoSpaces p)

abbrev IsTerm : Text → Type 0
IsTerm t = NoSpace t × is_empty t ≡ false

terms_of-IsTerm : (parts : List Text) → All IsTerm (terms_of parts)
unfolding terms_of
terms_of-IsTerm [] = tt
terms_of-IsTerm (p ∷ ps) = elim (Bool-cases (is_empty (squeeze p))) [
  | inl e ↦ rw e (terms_of-IsTerm ps)
  | inr e ↦ rw e ((squeeze-NoSpace p, e), terms_of-IsTerm ps)
]

fields-term : (t : Text) → IsTerm t → fields t ≡ t ∷ []
fields-term [] (h, e) = cc
fields-term (c ∷ t) (h, e) = fields-NoSpace c t h

-- Terms written with a space between them are the fields of what is written.
fields-join : (ts : List Text) → All IsTerm ts → fields (join ts (text " ")) ≡ ts
unfolding join
fields-join [] h = unfold fields fields_from in refl
fields-join (t ∷ []) (h, hs) = fields-term t h
fields-join (t ∷ u ∷ ts) (h, hs) =
    fields-append t (join (u ∷ ts) (text " ")) 32 refl
    ∙ rw (fields-term t h) (ap (λ r. t ∷ r) (fields-join (u ∷ ts) hs))

parse_range-convert :
    (raw : Text) → parse_range (convert_ghsa_range raw) ≡ parse_terms (terms_of (split b',' raw))
unfolding convert_ghsa_range
parse_range-convert raw =
    parse_range_lem _ ∙ ap parse_terms (fields-join _ (terms_of-IsTerm (split b',' raw)))

-- the verdicts on all parts, combined with AND, or an error
abbrev pub every : (Text → Option Bool) → List Text → Option Bool
every f [] = some true
every f (p ∷ ps) = and_option (f p) (every f ps)

and_option-true : (o : Option Bool) → and_option (some true) o ≡ o
and_option-true none = refl
and_option-true (some b) = refl

is_empty-true : (t : Text) → is_empty t ≡ true → t ≡ []
is_empty-true [] e = refl
is_empty-true (c ∷ t) e = cc

satisfies_range-nil : (version : Text) → satisfies_range version [] ≡ some true
unfolding satisfies_range trim_space
satisfies_range-nil version = refl

satisfies_range-term :
    (version : Text) (v : Version) (t : Text)
    → parse_version version ≡ some v
    → IsTerm t
    → satisfies_range version t ≡ verdict v (parse_terms (t ∷ []))
satisfies_range-term version v t h k =
    satisfies_range-verdict version v t h
    ∙ ap (verdict v) (parse_range_lem t ∙ ap parse_terms (fields-term t k))

verdict-terms_of :
    (version : Text) (v : Version) (parts : List Text)
    → parse_version version ≡ some v
    → verdict v (parse_terms (terms_of parts))
      ≡ every (λ p. satisfies_range version (squeeze p)) parts
unfolding terms_of
verdict-terms_of version v [] h = unfold parse_terms all_allow in refl
verdict-terms_of version v (p ∷ ps) h = elim (Bool-cases (is_empty (squeeze p))) [
  | inl e ↦ rw e (
      verdict-terms_of version v ps h
      ∙ sym (
          ap (λ o. and_option o (every (λ q. satisfies_range version (squeeze q)) ps))
            (ap (satisfies_range version) (is_empty-true (squeeze p) e)
              ∙ satisfies_range-nil version)
          ∙ and_option-true _))
  | inr e ↦ rw e (
      ap (verdict v) (parse_terms-append (squeeze p ∷ []) (terms_of ps))
      ∙ (verdict-both v _ _
          ∙ (ap (λ o. and_option o (verdict v (parse_terms (terms_of ps))))
                (sym (satisfies_range-term version v (squeeze p) h (squeeze-NoSpace p, e)))
              ∙ ap (and_option _) (verdict-terms_of version v ps h))))
]

reported-convert :
    (version : Text) (v : Version) (raw : Text)
    → parse_version version ≡ some v
    → (if is_empty (convert_ghsa_range raw)
        then true
        else reported (satisfies_range version (convert_ghsa_range raw)))
      ≡ reported (every (λ p. satisfies_range version (squeeze p)) (split b',' raw))
reported-convert version v raw h =
    let total =
      (satisfies_range-verdict version v (convert_ghsa_range raw) h
        ∙ (ap (verdict v) (parse_range-convert raw)
            ∙ verdict-terms_of version v (split b',' raw) h)) in
    elim (Bool-cases (is_empty (convert_ghsa_range raw))) [
      | inl e ↦ rw e (
          ap reported (
            sym (
              ap (satisfies_range version) (is_empty-true (convert_ghsa_range raw) e)
              ∙ satisfies_range-nil version))
          ∙ ap reported total)
      | inr e ↦ rw e (ap reported total)
    ]

-- An advisory that is imported from GitHub affects a version that parses exactly when it is not
-- withdrawn and the version does not fail a part of its first range: the parts are what stands
-- between the commas, read without their white space, they are combined with AND, a blank part
-- admits everything, and if one of them cannot be read the version is affected.
pub advisory_affects-parts :
    (parse_time : Text → Option Time) (a : GhSecurityAdvisory) (first : Vulnerability)
    (rest : List Vulnerability) (version : Text) (v : Version)
    → parse_version version ≡ some v
    → a.vulnerabilities ≡ first ∷ rest
    → advisory_affects (to_model parse_time a) version ≡ (
        not (is_there (parse_time a.withdrawn_at))
        && reported (
            every
              (λ p. satisfies_range version (squeeze p))
              (split b',' first.vulnerable_version_range)))
unfolding advisory_affects to_model first_range
advisory_affects-parts parse_time a first rest version v h k =
    rw k (elim (Bool-cases (is_there (parse_time a.withdrawn_at))) [
      | inl e ↦ rw e refl
      | inr e ↦ rw e (reported-convert version v first.vulnerable_version_range h)
    ])
