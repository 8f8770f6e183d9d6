-- ===== src/Service/Listing/Pages.antt =====
-- The pages of a listing of ListPlugins, one after the other.
use semrel_registry.Prelude.{
  ◌≡◌, refl, sym, ◌∙◌, ap, ℕ, zero, suc, ◌+◌, ◌*◌, ◌<◌, ◌≤◌, List, [], ◌∷◌, ◌++◌, arith, length,
  take, drop,
}
use native.Mathlib.Numerals.{unary_clauses}
use native.Mathlib.Omega.{div_fact, mod_fact}
use semrel_registry.Models.{Plugin}
use semrel_registry.Repository.Filters.{page}
use semrel_registry.Service.Listing.{pages_of}

-- `n` pages from an offset on, one after the other.
unfoldable pub pages_from : ℕ → ℕ → ℕ → List Plugin → List Plugin
pages_from limit zero offset ps = []
pages_from limit (suc n) offset ps = page limit offset ps ++ pages_from limit n (offset + limit) ps

module _ {A : Type 0} where
  take-drop : (a b : ℕ) (xs : List A) → take a xs ++ take b (drop a xs) ≡ take (a + b) xs
  take-drop zero b xs = let same : b ≡ 0 + b = omega arith in ap (λ n. take n xs) same
  take-drop (suc a) zero [] = simp unary_clauses refl
  take-drop (suc a) (suc b) [] = simp unary_clauses refl
  take-drop (suc a) b (x ∷ xs) =
      let up : suc (a + b) ≡ suc a + b = omega arith in
      ap (λ ys. x ∷ ys) (take-drop a b xs) ∙ ap (λ n. take n (x ∷ xs)) up

  drop-drop : (a b : ℕ) (xs : List A) → drop b (drop a xs) ≡ drop (a + b) xs
  drop-drop zero b xs = let same : b ≡ 0 + b = omega arith in ap (λ n. drop n xs) same
  drop-drop (suc a) zero [] = simp unary_clauses refl
  drop-drop (suc a) (suc b) [] = simp unary_clauses refl
  drop-drop (suc a) b (x ∷ xs) =
      let up : suc (a + b) ≡ suc a + b = omega arith in
      drop-drop a b xs ∙ ap (λ n. drop n (x ∷ xs)) up

  take-all : (n : ℕ) (xs : List A) → length xs ≤ n → take n xs ≡ xs
  take-all zero [] h = refl
  take-all zero (x ∷ xs) h = absurd (omega (arith, h))
  take-all (suc n) [] h = refl
  take-all (suc n) (x ∷ xs) h = ap (λ ys. x ∷ ys) (take-all n xs (omega (arith, h)))

  drop-all : (n : ℕ) (xs : List A) → length xs ≤ n → drop n xs ≡ []
  drop-all zero [] h = refl
  drop-all zero (x ∷ xs) h = absurd (omega (arith, h))
  drop-all (suc n) [] h = refl
  drop-all (suc n) (x ∷ xs) h = drop-all n xs (omega (arith, h))

take-nil : (n : ℕ) → take {A = Plugin} n [] ≡ []
take-nil zero = refl
take-nil (suc n) = refl

-- A page is a stretch of the list.
page_lem :
    (limit offset : ℕ) (ps : List Plugin)
    → 0 < limit
    → page limit offset ps ≡ take limit (drop offset ps)
unfolding page
page_lem limit offset ps h =
    ground (arith, drop-all offset ps, take-all limit (drop offset ps), take-nil limit)

pages_from_lem :
    (limit n offset : ℕ) (ps : List Plugin)
    → 0 < limit
    → pages_from limit n offset ps ≡ take (n * limit) (drop offset ps)
unfolding pages_from
pages_from_lem limit zero offset ps h =
    let nothing : 0 ≡ 0 * limit = omega arith in ap (λ n. take n (drop offset ps)) nothing
pages_from_lem limit (suc n) offset ps h =
    let up : limit + n * limit ≡ suc n * limit = omega arith in
    rw (page_lem limit offset ps h, pages_from_lem limit n (offset + limit) ps h)
      (rw (sym (drop-drop offset limit ps))
        (take-drop limit (n * limit) (drop offset ps) ∙ ap (λ m. take m (drop offset ps)) up))

-- There are enough pages for all.
pages_of-enough : (total limit : ℕ) → 0 < limit → total ≤ pages_of total limit * limit
unfolding pages_of
pages_of-enough total zero h = absurd (omega (arith, h))
pages_of-enough total (suc k) h = ground (arith, div_fact (total + k) k, mod_fact (total + k) k)

-- For a limit that is not 0, as many pages as a listing announces, one after the other from offset
-- 0 on, are the whole list in its order.
pub pages_from-pages_of :
    (limit : ℕ) (ps : List Plugin)
    → 0 < limit
    → pages_from limit (pages_of (length ps) limit) 0 ps ≡ ps
pages_from-pages_of limit ps h =
    pages_from_lem limit _ 0 ps h ∙ take-all _ ps (pages_of-enough (length ps) limit h)
