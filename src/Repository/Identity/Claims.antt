-- ===== src/Repository/Identity/Claims.antt =====
-- What a passed check says: the candidate shares no key with another plugin that is not deleted.
use semrel_registry.Prelude.{
  ◌≡◌, refl, ◌≢◌, Bool, true, false, Option, none, some, List, [], ◌∷◌, map, any, arith, ◌||◌,
  Bool-cases, inl, inr, ◌∙◌, sym, All, All-imp,
}
use semrel_registry.Prelude.Int.{ℤ, eq_ℤ_iff}
use semrel_registry.Text.{Text, text_eq, to_lower}
use semrel_registry.Text.Equality.{text_eq_sound}
use semrel_registry.Models.{Plugin, ref, is_live}
use mathlib.Core.Bool.{false≢true}
use semrel_registry.Result.{AppError, ok, err, check}
use semrel_registry.Repository.Identity.{
  mem, claims, alias_refs, alias_key, clashes, ensure_unique_identity,
}

-- The plugin is found under the key.
abbrev pub Claims : Plugin → Text → Type 0
Claims p r = mem r (claims p) ≡ true

any_of_mem :
    (test : Text → Bool) (r : Text) (rs : List Text)
    → mem r rs ≡ true
    → any test rs ≡ false
    → test r ≡ false
unfolding mem
any_of_mem test r [] h k = cc
any_of_mem test r (s ∷ rs) h k = elim (Bool-cases (text_eq r s)) [
  | inl e ↦ let same : r ≡ s = text_eq_sound r s e in rw same (ground arith)
  | inr e ↦ any_of_mem test r rs (ground arith) (ground arith)
]

mem-alias_refs :
    (r : Text) (refs as' out : List Text)
    → alias_refs refs as' ≡ some out
    → mem r out ≡ (mem r refs || mem r (map alias_key as'))
unfolding alias_refs mem
mem-alias_refs r refs [] out h = ground arith
mem-alias_refs r refs (a ∷ as') out h =
    ground (arith, mem-alias_refs r (alias_key a ∷ refs) as' out)

any_of_All :
    {A : Type 0} (test : A → Bool) (xs : List A)
    → any test xs ≡ false
    → All (λ x. test x ≡ false) xs
any_of_All test [] h = tt
any_of_All test (x ∷ xs) h = (ground arith, any_of_All test xs (ground arith))

-- `q` shares no key with `p`, or is not asked about.
abbrev pub Apart : Plugin → ℤ → Plugin → Type 0
Apart p exclude q = is_live q ≡ true → q.id ≢ exclude → (r : Text) → Claims p r → Claims q r → ⊥

mem_candidate :
    (r : Text) (p : Plugin) (out : List Text)
    → alias_refs (to_lower (ref p) ∷ []) p.aliases ≡ some out
    → mem r out ≡ mem r (claims p)
unfolding claims mem
mem_candidate r p out h = ground (arith, mem-alias_refs r (to_lower (ref p) ∷ []) p.aliases out h)

clashes-Apart :
    (p q : Plugin) (exclude : ℤ) (out : List Text)
    → alias_refs (to_lower (ref p) ∷ []) p.aliases ≡ some out
    → clashes out exclude q ≡ false
    → Apart p exclude q
unfolding clashes
clashes-Apart p q exclude out h k live other r cp cq = false≢true (
    sym (any_of_mem (λ s. mem s out) r (claims q) cq (ground (arith, eq_ℤ_iff q.id exclude)))
    ∙ (mem_candidate r p out h ∙ cp))

-- A candidate that passes ensureUniqueIdentity has no key in common with any live plugin whose
-- number is not the excluded one.
pub ensure_unique_identity-Apart :
    (plugins : List Plugin) (p : Plugin) (exclude : ℤ)
    → ensure_unique_identity plugins p exclude ≡ ok tt
    → All (Apart p exclude) plugins
unfolding ensure_unique_identity
ensure_unique_identity-Apart plugins p exclude h =
    go (alias_refs (to_lower (ref p) ∷ []) p.aliases) refl h
  where
    go :
        (o : Option (List Text))
        → alias_refs (to_lower (ref p) ∷ []) p.aliases ≡ o
        → (elim o [
          | none ↦ err AppError.duplicate_plugin
          | some refs ↦ check (any (clashes refs exclude) plugins) AppError.duplicate_plugin
        ])
          ≡ ok tt
        → All (Apart p exclude) plugins
    go none e k = cc
    go (some out) e k =
        All-imp (λ q c. clashes-Apart p q exclude out e c) plugins
          (any_of_All (clashes out exclude) plugins (ground arith))
