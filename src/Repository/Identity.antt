-- ===== src/Repository/Identity.antt =====
-- The names by which file_repo.go finds a plugin, and the check that no two plugins share one.
pub mod Claims
use semrel_registry.Prelude.{
  Bool, true, false, Option, none, some, List, [], ◌∷◌, map, any, not, ◌&&◌, ◌||◌, if◌then◌else◌,
  is_some,
}
use semrel_registry.Prelude.Int.{ℤ, eq_ℤ}
use semrel_registry.Text.{Text, text_eq, text_lt, trim_space, to_lower, equal_fold, is_empty}
use semrel_registry.Sort.{sort_slice}
use semrel_registry.Models.{Plugin, ref}
use semrel_registry.Result.{Result, ok, err, duplicate_plugin, check}

unfoldable pub mem : Text → List Text → Bool
mem r rs = any (text_eq r) rs

-- the loop of normalizeAliases; `seen` holds the keys of the aliases kept so far
unfoldable pub distinct_aliases : List Text → List Text → List Text
distinct_aliases seen [] = []
distinct_aliases seen (a ∷ as') =
    let alias = trim_space a in
    let key = to_lower alias in
    let skipped = distinct_aliases seen as' in
    let kept = alias ∷ distinct_aliases (key ∷ seen) as' in
    if is_empty alias then skipped else if mem key seen then skipped else kept

-- normalizeAliases, of the repository and of the service
unfoldable pub normalize_aliases : List Text → List Text
unfolding distinct_aliases
normalize_aliases as' = sort_slice text_lt (distinct_aliases [] as')

-- containsFold
unfoldable pub contains_fold : List Text → Text → Bool
contains_fold values value =
    any (λ candidate. equal_fold (trim_space candidate) (trim_space value)) values

abbrev pub alias_key : Text → Text
alias_key a = to_lower (trim_space a)

-- the keys under which a plugin is found: its reference and its aliases
unfoldable pub claims : Plugin → List Text
claims p = to_lower (ref p) ∷ map alias_key p.aliases

-- the first loop of ensureUniqueIdentity: the set `refs`, or `none` for a key that is in it twice
unfoldable pub alias_refs : List Text → List Text → Option (List Text)
alias_refs refs [] = some refs
alias_refs refs (a ∷ as') =
    let key = alias_key a in
    let rest = alias_refs (key ∷ refs) as' in if mem key refs then none else rest

-- the body of its second loop
unfoldable pub clashes : List Text → ℤ → Plugin → Bool
unfolding claims
clashes refs exclude q =
    if is_some q.deleted_at || eq_ℤ q.id exclude then false else any (λ r. mem r refs) (claims q)

-- ensureUniqueIdentity
unfoldable pub ensure_unique_identity : List Plugin → Plugin → ℤ → Result (Unit {0})
unfolding alias_refs
ensure_unique_identity plugins candidate exclude =
    elim (alias_refs (to_lower (ref candidate) ∷ []) candidate.aliases) [
      | none ↦ err duplicate_plugin
      | some refs ↦ check (any (clashes refs exclude) plugins) duplicate_plugin
    ]
