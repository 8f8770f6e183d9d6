-- ===== src/Sort.antt =====
-- Go's sort.SliceStable and sort.Slice as the insertion sort that they run on a short slice (up to
-- 20 and up to 12 elements). On a longer slice SliceStable gives the same result if the comparison
-- is a strict weak order, and Slice may order elements that compare as equal in another way.
use semrel_registry.Prelude.{
  ◌≡◌, refl, inl, inr, Bool, true, false, List, [], ◌∷◌, All, arith, Bool-cases, if◌then◌else◌, any,
  All-imp, ◌||◌, length, suc, ◌+◌,
}
use mathlib.Core.List.{reverse, reverse_aux}

-- One round: `x` moves to the left, past each neighbour that it is less than. The sorted part of
-- the slice stands in reverse order, so that its last element comes first.
unfoldable pub insert_back {ℓ} : {A : Type ℓ} → (A → A → Bool) → A → List A → List A
insert_back less x [] = x ∷ []
insert_back less x (y ∷ ys) =
    let moved = y ∷ insert_back less x ys in if less x y then moved else x ∷ y ∷ ys

unfoldable pub sort_onto {ℓ} : {A : Type ℓ} → (A → A → Bool) → List A → List A → List A
sort_onto less done [] = done
sort_onto less done (x ∷ xs) = sort_onto less (insert_back less x done) xs

unfoldable pub sort_slice {ℓ} : {A : Type ℓ} → (A → A → Bool) → List A → List A
unfolding sort_onto insert_back
sort_slice less xs = reverse (sort_onto less [] xs)

-- The elements stay the same: what holds of all stays so, and a search finds as much.
module _ {ℓ κ} {A : Type ℓ} (less : A → A → Bool) (P : A → Type κ) where
  All-insert_back : (x : A) (ys : List A) → P x → All P ys → All P (insert_back less x ys)
  unfolding insert_back
  All-insert_back x [] p _ = (p, tt)
  All-insert_back x (y ∷ ys) p (q, h) = ground (arith, All-insert_back x ys p h)

  All-sort_onto : (done xs : List A) → All P done → All P xs → All P (sort_onto less done xs)
  unfolding sort_onto
  All-sort_onto done [] h _ = h
  All-sort_onto done (x ∷ xs) h (p, k) =
      All-sort_onto (insert_back less x done) xs (All-insert_back x done p h) k

  All-reverse_aux : (xs ys : List A) → All P xs → All P ys → All P (reverse_aux xs ys)
  All-reverse_aux [] ys _ k = k
  All-reverse_aux (x ∷ xs) ys (p, h) k = All-reverse_aux xs (x ∷ ys) h (p, k)

  pub All-sort_slice : (xs : List A) → All P xs → All P (sort_slice less xs)
  unfolding sort_slice
  All-sort_slice xs h = All-reverse_aux (sort_onto less [] xs) [] (All-sort_onto [] xs tt h) tt

module _ {ℓ} {A : Type ℓ} (less : A → A → Bool) (test : A → Bool) where
  any-insert_back :
      (x : A) (ys : List A) → any test (insert_back less x ys) ≡ (test x || any test ys)
  unfolding insert_back
  any-insert_back x [] = refl
  any-insert_back x (y ∷ ys) = ground (arith, any-insert_back x ys)

  any-sort_onto :
      (done xs : List A) → any test (sort_onto less done xs) ≡ (any test done || any test xs)
  unfolding sort_onto
  any-sort_onto done [] = ground arith
  any-sort_onto done (x ∷ xs) =
      ground (arith, any-sort_onto (insert_back less x done) xs, any-insert_back x done)

  any-reverse_aux : (xs ys : List A) → any test (reverse_aux xs ys) ≡ (any test xs || any test ys)
  any-reverse_aux [] ys = refl
  any-reverse_aux (x ∷ xs) ys = ground (arith, any-reverse_aux xs (x ∷ ys))

  pub any-sort_slice : (xs : List A) → any test (sort_slice less xs) ≡ any test xs
  unfolding sort_slice
  any-sort_slice xs = ground (arith, any-reverse_aux (sort_onto less [] xs) [], any-sort_onto [] xs)

module _ {ℓ} {A : Type ℓ} (less : A → A → Bool) where
  length-insert_back : (x : A) (ys : List A) → length (insert_back less x ys) ≡ suc (length ys)
  unfolding insert_back
  length-insert_back x [] = refl
  length-insert_back x (y ∷ ys) = ground (arith, length-insert_back x ys)

  length-sort_onto : (done xs : List A) → length (sort_onto less done xs) ≡ length done + length xs
  unfolding sort_onto
  length-sort_onto done [] = ground arith
  length-sort_onto done (x ∷ xs) =
      ground (arith, length-sort_onto (insert_back less x done) xs, length-insert_back x done)

  length-reverse_aux : (xs ys : List A) → length (reverse_aux xs ys) ≡ length xs + length ys
  length-reverse_aux [] ys = ground arith
  length-reverse_aux (x ∷ xs) ys = ground (arith, length-reverse_aux xs (x ∷ ys))

  pub length-sort_slice : (xs : List A) → length (sort_slice less xs) ≡ length xs
  unfolding sort_slice
  length-sort_slice xs =
      ground (arith, length-reverse_aux (sort_onto less [] xs) [], length-sort_onto [] xs)

-- Each element may stand before all that follow it.
abbrev pub IsOrdered {ℓ κ} : {A : Type ℓ} → (A → A → Type κ) → List A → Type κ
IsOrdered Before [] = Unit
IsOrdered Before (x ∷ xs) = All (λ y. Before x y) xs × IsOrdered Before xs

abbrev Descending {ℓ κ} : {A : Type ℓ} → (A → A → Type κ) → List A → Type κ
Descending Before [] = Unit
Descending Before (x ∷ xs) = All (λ y. Before y x) xs × Descending Before xs

-- With a comparison that is total and agrees with a transitive relation, nothing stands behind an
-- element that it may not stand behind.
module _ {ℓ κ} {A : Type ℓ} (less : A → A → Bool) (Before : A → A → Type κ)
    (first : (x y : A) → less x y ≡ true → Before x y)
    (later : (x y : A) → less x y ≡ false → Before y x)
    (before_trans : (x y z : A) → Before x y → Before y z → Before x z) where
  insert_back-Descending :
      (x : A) (ys : List A) → Descending Before ys → Descending Before (insert_back less x ys)
  unfolding insert_back
  insert_back-Descending x [] _ = (tt, tt)
  insert_back-Descending x (y ∷ ys) (h, hs) = elim (Bool-cases (less x y)) [
    | inl e ↦ rw e (
      All-insert_back less (λ z. Before z y) x ys (first x y e) h,
      insert_back-Descending x ys hs,
    )
    | inr e ↦
        rw e ((later x y e, All-imp (λ z b. before_trans z y x b (later x y e)) ys h), (h, hs))
  ]

  sort_onto-Descending :
      (done xs : List A) → Descending Before done → Descending Before (sort_onto less done xs)
  unfolding sort_onto
  sort_onto-Descending done [] h = h
  sort_onto-Descending done (x ∷ xs) h =
      sort_onto-Descending (insert_back less x done) xs (insert_back-Descending x done h)

  reverse_aux-IsOrdered :
      (xs ys : List A)
      → Descending Before xs
      → IsOrdered Before ys
      → All (λ y. All (λ x. Before x y) xs) ys
      → IsOrdered Before (reverse_aux xs ys)
  reverse_aux-IsOrdered [] ys _ k _ = k
  reverse_aux-IsOrdered (x ∷ xs) ys (h, hs) k m =
      reverse_aux-IsOrdered xs (x ∷ ys) hs (All-imp (λ y b. b.0) ys m, k)
        (h, All-imp (λ y b. b.1) ys m)

  pub sort_slice-IsOrdered : (xs : List A) → IsOrdered Before (sort_slice less xs)
  unfolding sort_slice
  sort_slice-IsOrdered xs =
      reverse_aux-IsOrdered (sort_onto less [] xs) [] (sort_onto-Descending [] xs tt) tt tt
