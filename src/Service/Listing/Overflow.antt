-- ===== src/Service/Listing/Overflow.antt =====
-- The page of a compatibility listing where (page - 1) * limit leaves the range of an int.
use semrel_registry.Prelude.{
  ◌≡◌, refl, ℕ, suc, ◌*◌, ◌^◌, ◌<◌, ◌≤◌, ◌+◌, ◌-◌, some, none, List, arith, ap, keep_if,
}
use semrel_registry.Prelude.Int.{ℤ, pos, negsuc, add64, mul64, wrap64, sub_ℕ}
use semrel_registry.Semver.{Version, parse_version}
use semrel_registry.Models.{Plugin}
use semrel_registry.Result.{ok, err, panicked, pure, raise, ◌>>=◌}
use semrel_registry.Repository.Filters.{Filter}
use semrel_registry.Repository.Interface.{PluginRepository}
use semrel_registry.Service.Listing.{
  ListPluginsParams, list_compatible, cut_page, slice, offset_of, is_compatible,
}

cut_page-negative :
    {A : Type 0} (n : ℕ) (limit : ℤ) (xs : List A) → cut_page (negsuc n) limit xs ≡ none
unfolding cut_page slice
cut_page-negative n limit xs = ground arith

wrapped : (m : ℕ) → 2 ^ 63 ≤ m → m < 2 ^ 64 → (n : ℕ) × (wrap64 (pos m) ≡ negsuc n)
unfolding wrap64
wrapped m h k = (2 ^ 64 - 1 - m, ground arith)

before : (page : ℕ) → page < 2 ^ 63 → add64 (pos (suc page)) (negsuc 0) ≡ pos page
unfolding add64 wrap64
before page h = ground arith

product : (page limit : ℕ) → mul64 (pos page) (pos limit) ≡ wrap64 (pos (page * limit))
unfolding mul64
product page limit =
    let plain : sub_ℕ (page * limit + 0) (page * 0 + 0 * limit) ≡ pos (page * limit) =
      ground arith in
    ap wrap64 plain

offset_of-wraps :
    (q : ListPluginsParams) (page limit : ℕ)
    → q.page ≡ pos (suc page)
    → q.limit ≡ pos limit
    → page < 2 ^ 63
    → 2 ^ 63 ≤ page * limit
    → page * limit < 2 ^ 64
    → (n : ℕ) × (offset_of q ≡ negsuc n)
unfolding offset_of wrapped
offset_of-wraps q page limit ep el small low high =
    let (n, w) = wrapped (page * limit) low high in
    (n, rw (ep, el, before page small, product page limit) w)

module _ {S : Type 0} (repo : PluginRepository S) where
  -- Where (page - 1) * limit is between 2^63 and 2^64, a compatibility listing for a version that
  -- parses panics as soon as the plugins have been read.
  pub list_compatible-panics :
      (q : ListPluginsParams) (fs : List Filter) (page limit : ℕ) (core : Version) (s : S)
      (ps : List Plugin)
      → q.page ≡ pos (suc page)
      → q.limit ≡ pos limit
      → page < 2 ^ 63
      → 2 ^ 63 ≤ page * limit
      → page * limit < 2 ^ 64
      → parse_version q.compatible_with ≡ some core
      → (repo.get_all (pos 2000) (pos 0) fs s).0 ≡ ok ps
      → (list_compatible repo q fs s).0 ≡ err panicked
  unfolding list_compatible ◌>>=◌ raise pure
  list_compatible-panics q fs page limit core s ps ep el small low high parsed read =
      let (n, wraps) = offset_of-wraps q page limit ep el small low high in
      rw
        (
          parsed,
          read,
          wraps,
          cut_page-negative n q.limit (keep_if (is_compatible q.compatible_with) ps),
        )
        refl
