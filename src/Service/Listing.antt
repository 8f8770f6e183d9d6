-- ===== src/Service/Listing.antt =====
-- ListPlugins of plugin_service.go and compatibility.go: the listing of plugins, with its page.

pub mod Pages
pub mod Overflow
use semrel_registry.Prelude.{
  ℕ, Bool, true, false, Option, none, some, List, [], ◌∷◌, ◌++◌, ◌+◌, ◌-◌, ◌/◌, ◌&&◌, ◌||◌, not,
  ltb, leb, length, take, drop, keep_if, if◌then◌else◌,
}
use semrel_registry.Prelude.Int.{ℤ, pos, negsuc, pos_part, ltb_ℤ, eq_ℤ, add64, mul64}
use semrel_registry.Text.{Text, text, trim_space, equal_fold, is_empty}
use semrel_registry.Semver.{parse_version, satisfies_range, one_of}
use semrel_registry.Models.{Plugin}
use semrel_registry.Result.{
  Result, Exec, pure, raise, lift, validation, panicked, check, ◌>>=◌, ◌>>◌, reject_if, first_error,
}
use semrel_registry.Repository.Filters.{Filter}
use semrel_registry.Repository.Interface.{PluginRepository}
use semrel_registry.Service.Patterns.{matches_name, matches_namespace}

pub record ListPluginsParams : Type 0 where
  pub page : ℤ
  pub limit : ℤ
  pub category : Text
  pub search : Text
  pub sort : Text
  pub sort_dir : Text
  pub namespace : Text
  pub author : Text
  pub statuses : List Text
  pub compatible_with : Text

pub record Pagination : Type 0 where
  pub page : ℤ
  pub limit : ℤ
  pub total : ℕ
  pub pages : ℕ

-- `listed` is the field Data.
pub record PluginListResult : Type 0 where
  pub listed : List Plugin
  pub pagination : Pagination

-- normalizeListParams
unfoldable pub normalize_list_params : ListPluginsParams → ListPluginsParams
normalize_list_params q = record q {
  page = if eq_ℤ q.page (pos 0) then pos 1 else q.page;
  limit = if eq_ℤ q.limit (pos 0) then pos 20 else q.limit;
  category = trim_space q.category;
  search = trim_space q.search;
  sort = trim_space q.sort;
  namespace = trim_space q.namespace;
  author = trim_space q.author;
  compatible_with = trim_space q.compatible_with;
}

-- validateListParams
unfoldable pub validate_list_params : ListPluginsParams → Result (Unit {0})
validate_list_params q = first_error (
    check (ltb_ℤ q.page (pos 1)) (validation "page")
    ∷ check (ltb_ℤ q.limit (pos 1) || ltb_ℤ (pos 100) q.limit) (validation "limit")
    ∷ check (ltb 50 (length q.category)) (validation "category")
    ∷ check (not (is_empty q.category) && not (matches_name q.category)) (validation "category")
    ∷ check (not (is_empty q.namespace) && not (matches_namespace q.namespace))
        (validation "namespace")
    ∷ check (ltb 255 (length q.search)) (validation "search")
    ∷ check
        (not (
          one_of q.sort
            ("" ∷ "name" ∷ "category" ∷ "created_at" ∷ "updated_at" ∷ "downloads" ∷ "views" ∷ [])))
        (validation "sort")
    ∷ [])

abbrev unless_empty : Text → (Text → Filter) → List Filter
unless_empty t f = if is_empty t then [] else f t ∷ []

abbrev status_filters : List Text → List Filter
status_filters [] = []
status_filters (s ∷ ss) = Filter.status_filter (s ∷ ss) ∷ []

-- countFilters
unfoldable pub count_filters : ListPluginsParams → List Filter
count_filters q =
    unless_empty q.category Filter.category_filter
    ++ (unless_empty q.search Filter.search_filter
        ++ (unless_empty q.namespace Filter.namespace_filter
            ++ (unless_empty q.author Filter.author_filter ++ status_filters q.statuses)))

-- the filters that ListPlugins builds
unfoldable pub list_filters : ListPluginsParams → List Filter
unfolding count_filters
list_filters q =
    let dir = if equal_fold q.sort_dir (text "desc") then text "DESC" else text "ASC" in
    count_filters q ++ unless_empty q.sort (λ s. Filter.sort_filter s dir)

-- (params.Page - 1) * params.Limit, on Go's int
unfoldable pub offset_of : ListPluginsParams → ℤ
unfolding mul64 add64
offset_of q = mul64 (add64 q.page (negsuc 0)) q.limit

-- int(math.Ceil(float64(total) / float64(params.Limit))), which is exact for numbers of plugins that
-- a float64 holds without a rounding to the next integer
unfoldable pub pages_of : ℕ → ℕ → ℕ
pages_of total limit = if ltb 0 total then (total + (limit - 1)) / limit else 0

-- a Go slice expression xs[from:to], which panics out of range
unfoldable pub slice : {A : Type 0} → ℤ → ℤ → List A → Option (List A)
slice (pos from) (pos to) xs =
    if leb from to && leb to (length xs) then some (take (to - from) (drop from xs)) else none
slice _ _ xs = none

abbrev min_ℤ : ℤ → ℤ → ℤ
min_ℤ a b = if ltb_ℤ b a then b else a

-- the page that listCompatible cuts out; `none` is a panic
unfoldable pub cut_page : {A : Type 0} → ℤ → ℤ → List A → Option (List A)
unfolding slice
cut_page offset limit xs =
    if ltb_ℤ offset (pos (length xs))
    then slice offset (min_ℤ (add64 offset limit) (pos (length xs))) xs
    else some []

-- the condition on a plugin in the loop of listCompatible
unfoldable pub is_compatible : Text → Plugin → Bool
is_compatible core p = elim (satisfies_range core p.latest_semrel_core) [
  | none ↦ false
  | some b ↦ b
]

abbrev page_info : ListPluginsParams → ℕ → Pagination
page_info q total = record {
  page = q.page;
  limit = q.limit;
  total = total;
  pages = pages_of total (pos_part q.limit);
}

abbrev or_panic : {S A : Type 0} → Option A → Exec S A
or_panic none = raise panicked
or_panic (some a) = pure a

abbrev missing : {A : Type 0} → Option A → Bool
missing none = true
missing (some a) = false

module _ {S : Type 0} (repo : PluginRepository S) where
  -- listCompatible, which examines at most 2000 plugins
  unfoldable pub list_compatible : ListPluginsParams → List Filter → Exec S PluginListResult
  unfolding is_compatible cut_page offset_of pages_of
  list_compatible q filters = do
    reject_if (missing (parse_version q.compatible_with)) (validation "compatibleWith")
    candidates ← repo.get_all (pos 2000) (pos 0) filters
    let matched = keep_if (is_compatible q.compatible_with) candidates
    listed ← or_panic (cut_page (offset_of q) q.limit matched)
    pure (record { listed = listed; pagination = page_info q (length matched) })

  -- the listing without a compatibility filter, and countPlugins
  unfoldable pub list_all : ListPluginsParams → Exec S PluginListResult
  unfolding list_filters count_filters offset_of pages_of
  list_all q = do
    plugins ← repo.get_all q.limit (offset_of q) (list_filters q)
    counted ← repo.get_all (pos 0) (pos 0) (count_filters q)
    pure (record { listed = plugins; pagination = page_info q (length counted) })

  -- ListPlugins
  unfoldable pub list_plugins : ListPluginsParams → Exec S PluginListResult
  unfolding list_compatible list_all normalize_list_params
  list_plugins raw = do
    let q = normalize_list_params raw
    lift (validate_list_params q)
    if is_empty q.compatible_with then list_all q else list_compatible q (list_filters q)
