-- ===== src/Handlers/Search.antt =====
-- The loop of findVersion, api/handlers/plugins.go, against a search of the whole list of versions.
use semrel_registry.Prelude.{
  ℕ, zero, suc, ◌+◌, ◌-◌, ◌*◌, ◌/◌, ◌<◌, ◌≤◌, ◌^◌, ◌≡◌, refl, sym, ap, ◌∙◌, Bool, true, false,
  Option, none, some, List, [], ◌∷◌, find, take, drop, length, length-take, length-drop, ltb, leb,
  leb→le, ltb→lt, ltb-false, arith, if◌then◌else◌,
}
use Prim.Native.Nat.{min}
use semrel_registry.Prelude.Int.{pos, ltb_ℤ, add64, wrap64}
use semrel_registry.Text.{Text}
use semrel_registry.Models.{Plugin, PluginVersion}
use semrel_registry.Result.{Result, ok, Exec, pure, ◌>>=◌, continue}
use semrel_registry.Repository.Interface.{PluginRepository}
use semrel_registry.Service.Lookup.{lookup_plugin, list_versions}
use semrel_registry.Service.Validation.{validate_plugin_ref}
use semrel_registry.Handlers.Versions.{
  Search, found, absent, find_version, find_version_from, judge, is_tagged,
}

find-take :
    {A : Type 0} (p : A → Bool) (n : ℕ) (xs : List A) (x : A)
    → find p (take n xs) ≡ some x
    → find p xs ≡ some x
find-take p zero xs x e = cc
find-take p (suc n) [] x e = e
find-take p (suc n) (y ∷ xs) x e = ground (arith, find-take p n xs x)

find-drop :
    {A : Type 0} (p : A → Bool) (n : ℕ) (xs : List A)
    → find p (take n xs) ≡ none
    → find p xs ≡ find p (drop n xs)
find-drop p zero xs e = refl
find-drop p (suc n) [] e = refl
find-drop p (suc n) (y ∷ xs) e = ground (arith, find-drop p n xs)

drop-nil : {A : Type 0} (n : ℕ) → drop {A = A} n [] ≡ []
drop-nil zero = refl
drop-nil (suc n) = refl

drop-drop : {A : Type 0} (m n k : ℕ) (xs : List A) → m + n ≡ k → drop n (drop m xs) ≡ drop k xs
drop-drop zero n k xs e = ap (λ i. drop i xs) (omega (arith, e))
drop-drop (suc m) n k [] e = drop-nil n ∙ sym (drop-nil k)
drop-drop (suc m) n zero (x ∷ xs) e = absurd (omega (arith, e))
drop-drop (suc m) n (suc k) (x ∷ xs) e = drop-drop m n k xs (omega (arith, e))

drop-length : {A : Type 0} (n : ℕ) (xs : List A) → length xs ≤ n → drop n xs ≡ []
drop-length zero [] h = refl
drop-length zero (x ∷ xs) h = absurd (omega (arith, h))
drop-length (suc n) [] h = refl
drop-length (suc n) (x ∷ xs) h = drop-length n xs (omega (arith, h))

-- the answer of a search of the whole list
abbrev pub search_of : Option PluginVersion → Search
search_of none = absent
search_of (some v) = found v

after_batch :
    {S A B : Type 0} (m : Exec S A) (f : A → Exec S B) (s : S) (a : A) (r : Result B × S)
    → m s ≡ (ok a, s)
    → f a s ≡ r
    → (m >>= f) s ≡ r
unfolding ◌>>=◌
after_batch m f s a r e k = ap (λ z. continue z.0 f z.1) e ∙ k

module _ {S : Type 0} (repo : PluginRepository S) (ref tag : Text) (p : Plugin)
    (vs : List PluginVersion) where
  -- The plugin is found, and it has these versions.
  abbrev pub IsStored : S → Type 0
  IsStored s =
      (validate_plugin_ref ref ≡ ok tt)
      × (lookup_plugin repo ref s ≡ (ok p, s))
      × (repo.get_versions p.id s ≡ (ok vs, s))

  list_versions-slice :
      (s : S) (o : ℕ)
      → IsStored s
      → list_versions repo ref (pos 100) (pos o) s ≡ (ok (take 100 (drop o vs)), s)
  unfolding list_versions ◌>>=◌
  list_versions-slice s o (valid, known, versions) =
      rw (valid, not_negative o, known, versions)
        (ap (λ b. (ok b, s)) (cut_out (leb (length vs) o) refl))
    where
      not_negative : (n : ℕ) → ltb_ℤ (pos n) (pos 0) ≡ false
      not_negative n = ground arith

      cut_out :
          (b : Bool)
          → leb (length vs) o ≡ b
          → (if b then [] else take 100 (drop o vs)) ≡ take 100 (drop o vs)
      cut_out true e = ap (take 100) (sym (drop-length o vs (leb→le (length vs) o e)))
      cut_out false e = refl

  -- one round of the loop
  module _ (s : S) (o : ℕ) (known : IsStored s) (rest : Exec S Search) where
    abbrev batch : List PluginVersion
    batch = take 100 (drop o vs)

    batch-length : length batch ≡ min 100 (length vs - o)
    batch-length = length-take 100 (drop o vs) ∙ ap (min 100) (length-drop o vs)

    abbrev Ended : Exec S Search → Type 0
    Ended m = m s ≡ (ok (search_of (find (is_tagged repo ref tag) (drop o vs))), s)

    judge-Ended :
        (o + 100 ≤ length vs
          → rest s ≡ (ok (search_of (find (is_tagged repo ref tag) (drop (o + 100) vs))), s))
        → Ended
            (judge repo ref tag (find (is_tagged repo ref tag) batch) (ltb (length batch) 100) rest)
    unfolding pure
    judge-Ended later = go (find (is_tagged repo ref tag) batch) refl (ltb (length batch) 100) refl
      where
        go :
            (r : Option PluginVersion)
            → find (is_tagged repo ref tag) batch ≡ r
            → (last : Bool) → ltb (length batch) 100 ≡ last
            → Ended (judge repo ref tag r last rest)
        go (some v) e last f = rw (find-take _ 100 (drop o vs) v e) refl
        go none e true f =
            let short : length vs - o ≤ 100 =
              omega (arith, batch-length, ltb→lt (length batch) 100 f) in
            ap (λ r. (ok (search_of r), s))
              (sym (
                find-drop _ 100 (drop o vs) e
                ∙ ap (find (is_tagged repo ref tag))
                    (drop-length 100 (drop o vs) (omega (arith, length-drop o vs, short)))))
        go none e false f =
            later (omega (arith, batch-length, ltb-false (length batch) 100 f))
            ∙ ap (λ r. (ok (search_of r), s))
                (ap (find (is_tagged repo ref tag))
                    (sym (drop-drop o 100 (o + 100) vs (omega arith)))
                  ∙ sym (find-drop _ 100 (drop o vs) e))

  add64-hundred : (o : ℕ) → o + 100 < 2 ^ 63 → add64 (pos o) (pos 100) ≡ pos (o + 100)
  unfolding add64 wrap64
  add64-hundred o h = ground arith

  find_version_from-search :
      (fuel o : ℕ) (s : S)
      → IsStored s
      → o ≤ length vs
      → length vs < o + 100 * fuel
      → length vs + 100 < 2 ^ 63
      → find_version_from repo ref tag fuel (pos o) s
        ≡ (ok (search_of (find (is_tagged repo ref tag) (drop o vs))), s)
  unfolding find_version_from ◌>>=◌
  find_version_from-search zero o s known low enough room = absurd (omega arith)
  find_version_from-search (suc fuel) o s known low enough room =
      after_batch (list_versions repo ref (pos 100) (pos o)) _ s (take 100 (drop o vs)) _
        (list_versions-slice s o known)
        (judge-Ended s o known (find_version_from repo ref tag fuel (add64 (pos o) (pos 100)))
          λ more.
            ap (λ n. find_version_from repo ref tag fuel n s)
              (add64-hundred o (omega (arith, more, room)))
            ∙ find_version_from-search fuel (o + 100) s known more (omega (arith, enough)) room)

  -- findVersion, with a round for each hundred versions and one more, finds the first version of the
  -- whole list that has the tag, or reports that there is none, if the plugin is found, its versions
  -- are read, and their number is far below the greatest int.
  pub find_version-search :
      (s : S)
      → IsStored s
      → length vs + 100 < 2 ^ 63
      → find_version repo ref tag (length vs / 100 + 1) s
        ≡ (ok (search_of (find (is_tagged repo ref tag) vs)), s)
  unfolding find_version
  find_version-search s known room =
      find_version_from-search (length vs / 100 + 1) 0 s known (omega arith) (omega arith) room
