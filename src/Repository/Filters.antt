-- ===== src/Repository/Filters.antt =====
-- api/repository/filters.go and the listing of file_repo.go: the filters of a listing, applied in
-- memory, the sort, and the page.
use semrel_registry.Prelude.{
  ℕ, Bool, true, false, Option, none, some, List, [], ◌∷◌, ◌++◌, all, any, not, ◌&&◌, ◌||◌, keep_if,
  if◌then◌else◌, ltb, leb, take, drop, length, is_some,
}
use semrel_registry.Prelude.Int.{ltb_ℤ}
use semrel_registry.Text.{
  Text, text, text_eq, text_lt, trim_space, to_lower, to_upper, equal_fold, is_empty, contains,
  join,
}
use semrel_registry.Semver.{one_of}
use semrel_registry.Sort.{sort_slice}
use semrel_registry.Models.{Plugin}
use semrel_registry.Result.{Exec, pure, ◌>>=◌}
use semrel_registry.Repository.Disk.{Disk}
use semrel_registry.Repository.Reads.{load_all}

pub data Filter : Type 0 where
  category_filter search_filter author_filter namespace_filter : Text → Filter
  status_filter : List Text → Filter
  sort_filter : Text → Text → Filter

-- a filter whose text is trimmed, and that passes everything if nothing is left
abbrev pub blank_or : Text → Bool → Bool
blank_or t test = is_empty t || test

abbrev pub haystack : Plugin → Text
haystack p = to_lower (
    p.name
    ++ (b' '
        ∷ (join p.aliases (text " ")
            ++ (b' ' ∷ (p.description ++ (b' ' ∷ (p.author ++ (b' ' ∷ p.repository))))))))

-- the body of the loop in matchesFilters
unfoldable pub matches : Plugin → Filter → Bool
matches p (Filter.category_filter c) =
    let cat = trim_space c in blank_or cat (equal_fold p.category cat)
matches p (Filter.search_filter s) =
    let q = to_lower (trim_space s) in blank_or q (contains (haystack p) q)
matches p (Filter.author_filter s) = let a = trim_space s in blank_or a (equal_fold p.author a)
matches p (Filter.namespace_filter s) =
    let ns = trim_space s in blank_or ns (equal_fold p.namespace ns)
matches p (Filter.status_filter []) = true
matches p (Filter.status_filter (s ∷ ss)) = any (equal_fold p.status) (s ∷ ss)
matches p (Filter.sort_filter field direction) = true

-- matchesFilters
unfoldable pub matches_filters : Plugin → List Filter → Bool
unfolding matches
matches_filters p fs = all (matches p) fs

pub data SortField : Type 0 where
  by_name by_category by_created_at by_updated_at by_downloads by_views : SortField

-- normalizeSortField; `none` is ""
unfoldable pub normalize_sort_field : Text → Option SortField
unfolding text_eq
normalize_sort_field s =
    let f = to_lower (trim_space s) in
    if text_eq f (text "name")
    then some by_name
    else if text_eq f (text "category")
    then some by_category
    else if one_of f ("created_at" ∷ "createdat" ∷ [])
    then some by_created_at
    else if one_of f ("updated_at" ∷ "updatedat" ∷ [])
    then some by_updated_at
    else if text_eq f (text "downloads")
    then some by_downloads
    else if text_eq f (text "views")
    then some by_views
    else none

-- the switch of sortPlugins
abbrev pub less_by : SortField → Plugin → Plugin → Bool
less_by by_category p q = text_lt p.category q.category
less_by by_created_at p q = ltb p.created_at q.created_at
less_by by_updated_at p q = ltb p.updated_at q.updated_at
less_by by_downloads p q = ltb_ℤ p.downloads q.downloads
less_by by_views p q = ltb_ℤ p.views q.views
less_by by_name p q = text_lt (to_lower p.name) (to_lower q.name)

-- sortPlugins
unfoldable pub sort_plugins : SortField → Bool → List Plugin → List Plugin
sort_plugins field desc ps =
    sort_slice (λ p q. let less = less_by field p q in if desc then not less else less) ps

-- the loop over the filters that looks for the first sort filter
unfoldable pub sort_order : List Filter → SortField × Bool
unfolding normalize_sort_field
sort_order [] = (by_name, false)
sort_order (Filter.sort_filter field direction ∷ fs) = (
  elim (normalize_sort_field field) [ none ↦ by_name | some f ↦ f ],
  text_eq (to_upper (trim_space direction)) (text "DESC"),
)
sort_order (_ ∷ fs) = sort_order fs

-- the cut of GetAll; limit and offset are not negative, and a limit of 0 is none
unfoldable pub page : ℕ → ℕ → List Plugin → List Plugin
page limit offset ps =
    let rest = drop offset ps in
    if ltb 0 offset && leb (length ps) offset
    then []
    else if ltb 0 limit && ltb limit (length rest)
    then take limit rest
    else rest

-- the plugins that GetAll lists before it cuts out a page
unfoldable pub listing : List Filter → List Plugin → List Plugin
unfolding sort_order sort_plugins
listing fs ps =
    let order = sort_order fs in
    sort_plugins order.0 order.1
      (keep_if (λ p. not (is_some p.deleted_at) && matches_filters p fs) ps)

-- GetAll
unfoldable pub get_all : ℕ → ℕ → List Filter → Exec Disk (List Plugin)
unfolding page listing
get_all limit offset fs = do plugins ← load_all; pure (page limit offset (listing fs plugins))
