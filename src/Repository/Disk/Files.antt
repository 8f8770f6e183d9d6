-- ===== src/Repository/Disk/Files.antt =====
-- The files of a directory by their numbers.
use semrel_registry.Prelude.{
  ◌≡◌, refl, Bool, true, false, none, some, [], ◌∷◌, All, arith, ◌||◌, if◌then◌else◌, Bool-cases,
  inl, inr, sym, ◌∙◌, find,
}
use mathlib.Core.Path.{subst}
use mathlib.Core.Option.{some-injective}
use semrel_registry.Prelude.Int.{ℤ, eq_ℤ, eq_ℤ_iff, eq_ℤ_refl}
use semrel_registry.Models.{Plugin}
use semrel_registry.Repository.Disk.{Files, lookup, has_key, replace, insert_file, put_file, values}

-- Each number has one file, which holds the plugin of that number.
abbrev pub AreKeys : Files → Type 0
AreKeys [] = Unit
AreKeys ((k, p) ∷ m) = (has_key k m ≡ false) × (p.id ≡ k) × AreKeys m

lookup-replace :
    (k j : ℤ) (p : Plugin) (m : Files)
    → has_key k m ≡ true
    → lookup j (replace k p m) ≡ (if eq_ℤ k j then some p else lookup j m)
unfolding lookup replace has_key
lookup-replace k j p [] h = cc
lookup-replace k j p ((i, q) ∷ m) h =
    ground (arith, lookup-replace k j p m, eq_ℤ_iff i k, eq_ℤ_iff k j, eq_ℤ_iff i j)

lookup-insert_file :
    (k j : ℤ) (p : Plugin) (m : Files)
    → has_key k m ≡ false
    → lookup j (insert_file k p m) ≡ (if eq_ℤ k j then some p else lookup j m)
unfolding lookup insert_file has_key
lookup-insert_file k j p [] h = refl
lookup-insert_file k j p ((i, q) ∷ m) h =
    ground (arith, lookup-insert_file k j p m, eq_ℤ_iff i k, eq_ℤ_iff k j, eq_ℤ_iff i j)

-- A saved plugin is read back under its number, and the others as before.
pub lookup-put_file :
    (k j : ℤ) (p : Plugin) (m : Files)
    → lookup j (put_file k p m) ≡ (if eq_ℤ k j then some p else lookup j m)
unfolding put_file
lookup-put_file k j p m = elim (Bool-cases (has_key k m)) [
  | inl h ↦ rw h (lookup-replace k j p m h)
  | inr h ↦ rw h (lookup-insert_file k j p m h)
]

has_key-replace : (k j : ℤ) (p : Plugin) (m : Files) → has_key j (replace k p m) ≡ has_key j m
unfolding replace has_key
has_key-replace k j p [] = refl
has_key-replace k j p ((i, q) ∷ m) =
    ground (arith, has_key-replace k j p m, eq_ℤ_iff i k, eq_ℤ_iff k j, eq_ℤ_iff i j)

has_key-insert_file :
    (k j : ℤ) (p : Plugin) (m : Files) → has_key j (insert_file k p m) ≡ (eq_ℤ k j || has_key j m)
unfolding insert_file has_key
has_key-insert_file k j p [] = ground arith
has_key-insert_file k j p ((i, q) ∷ m) = ground (arith, has_key-insert_file k j p m)

AreKeys-replace : (k : ℤ) (p : Plugin) (m : Files) → AreKeys m → p.id ≡ k → AreKeys (replace k p m)
unfolding replace
AreKeys-replace k p [] h e = tt
AreKeys-replace k p ((i, q) ∷ m) (fresh, same, h) e = elim (Bool-cases (eq_ℤ i k)) [
  | inl at_k ↦ rw at_k (rw (← (eq_ℤ_iff i k).0 at_k) (fresh, e ∙ sym ((eq_ℤ_iff i k).0 at_k), h))
  | inr other ↦ rw other (has_key-replace k i p m ∙ fresh, same, AreKeys-replace k p m h e)
]

AreKeys-insert_file :
    (k : ℤ) (p : Plugin) (m : Files)
    → AreKeys m
    → has_key k m ≡ false
    → p.id ≡ k
    → AreKeys (insert_file k p m)
unfolding insert_file has_key
AreKeys-insert_file k p [] h n e = (refl, e, tt)
AreKeys-insert_file k p ((i, q) ∷ m) (fresh, same, h) n e =
    ground
      (arith, AreKeys-insert_file k p m h, has_key-insert_file k i p m, eq_ℤ_iff k i, eq_ℤ_iff i k)

pub AreKeys-put_file :
    (k : ℤ) (p : Plugin) (m : Files) → AreKeys m → p.id ≡ k → AreKeys (put_file k p m)
unfolding put_file
AreKeys-put_file k p m h e = elim (Bool-cases (has_key k m)) [
  | inl old ↦ rw old (AreKeys-replace k p m h e)
  | inr new ↦ rw new (AreKeys-insert_file k p m h new e)
]

-- A file that is read under a number holds the plugin of that number.
pub lookup-id : (k : ℤ) (p : Plugin) (m : Files) → AreKeys m → lookup k m ≡ some p → p.id ≡ k
unfolding lookup
lookup-id k p [] h e = cc
lookup-id k p ((i, q) ∷ m) (fresh, same, h) e = ground (arith, lookup-id k p m h, eq_ℤ_iff i k)

-- What holds of all plugins in a directory holds of those that are read.
pub All-lookup :
    (P : Plugin → Type 0) (k : ℤ) (p : Plugin) (m : Files)
    → All P (values m)
    → lookup k m ≡ some p
    → P p
unfolding lookup
All-lookup P k p [] h e = cc
All-lookup P k p ((i, q) ∷ m) (h, hs) e = elim (Bool-cases (eq_ℤ i k)) [
  | inl here ↦ subst P (some-injective q p (rw here at e)) h
  | inr later ↦ All-lookup P k p m hs (rw later at e)
]

pub has_key_of_lookup : (k : ℤ) (p : Plugin) (m : Files) → lookup k m ≡ some p → has_key k m ≡ true
unfolding lookup has_key
has_key_of_lookup k p [] e = cc
has_key_of_lookup k p ((i, q) ∷ m) e = ground (arith, has_key_of_lookup k p m)

-- What the loops over all plugins find can be read under its number.
pub lookup_of_find :
    (test : Plugin → Bool) (p : Plugin) (m : Files)
    → AreKeys m
    → find test (values m) ≡ some p
    → (lookup p.id m ≡ some p) × (test p ≡ true)
unfolding lookup has_key
lookup_of_find test p [] h e = cc
lookup_of_find test p ((i, q) ∷ m) (fresh, same, h) e = elim (Bool-cases (test q)) [
  | inl here ↦
      let found : q ≡ p = some-injective q p (rw here at e) in
      subst (λ x. (lookup x.id ((i, q) ∷ m) ≡ some x) × (test x ≡ true)) found
        (unfold lookup in rw same (ground (arith, eq_ℤ_refl i)), here)
  | inr later ↦
      let (found, passed) = lookup_of_find test p m h (rw later at e) in
      (ground (arith, has_key_of_lookup p.id p m found, eq_ℤ_iff i p.id), passed)
]

-- The absence of a file.
pub lookup-none : (k : ℤ) (m : Files) → has_key k m ≡ false → lookup k m ≡ none
unfolding lookup has_key
lookup-none k [] h = refl
lookup-none k ((i, q) ∷ m) h = ground (arith, lookup-none k m)
