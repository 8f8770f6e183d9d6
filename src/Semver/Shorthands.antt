-- ===== src/Semver/Shorthands.antt =====
-- The shorthands `~` and `^` of ParseRange, from the text of a range to the releases it admits.
use semrel_registry.Prelude.{
  ℕ, ◌+◌, ◌<◌, ◌≤◌, ◌^◌, ◌≡◌, refl, ◌↔◌, ◌⊎◌, true, false, [], ◌∷◌, arith, some, ◌∙◌,
}
use semrel_registry.Prelude.Int.{pos, add64}
use semrel_registry.Text.{Text}
use semrel_registry.Semver.{
  print, expand, allows, all_allow, satisfies_range, is_operator_byte, compare_versions,
  compare_tags, at_least, below, release,
}
use semrel_registry.Semver.Printing.{numbered}
use semrel_registry.Semver.Ranges.{verdict}
use semrel_registry.Semver.Terms.{IsPrintable, satisfies_range-print}

shorthand :
    (op a b c : ℕ) (pre : Text) (x y z : ℕ)
    → is_operator_byte op ≡ true
    → IsPrintable a b c pre
    → x < 2 ^ 63
    → y < 2 ^ 63
    → z < 2 ^ 63
    → satisfies_range (print (numbered x y z [])) (op ∷ print (numbered a b c pre))
      ≡ verdict (numbered x y z []) (expand (op ∷ []) (numbered a b c pre))
shorthand op a b c pre x y z h ok hx hy hz =
    satisfies_range-print op a b c pre x y z [] h ok (record {
      major_fits = hx;
      minor_fits = hy;
      patch_fits = hz;
      no_plus = tt;
      no_space = tt;
      ends = refl;
    })

-- Which releases the two constraints of a shorthand admit, when the upper bound is a release x.y.0.
admits_least :
    (a b c : ℕ) (pre : Text) (x y z : ℕ)
    → (allows (at_least (numbered a b c pre)) (numbered x y z []) ≡ true)
      ↔ ((a < x) ⊎ ((a ≡ x) × (b < y)) ⊎ ((a ≡ x) × (b ≡ y) × (c ≤ z)))
unfolding allows compare_versions compare_tags
admits_least a b c [] x y z = ground arith
admits_least a b c (d ∷ pre) x y z = ground arith

admits_below :
    (a b x y z : ℕ)
    → (allows (below (release (pos a) (pos b))) (numbered x y z []) ≡ true)
      ↔ ((x < a) ⊎ ((a ≡ x) × (y < b)))
unfolding allows compare_versions compare_tags
admits_below a b x y z = ground arith

add64_one : (n : ℕ) → n + 1 < 2 ^ 63 → add64 (pos n) (pos 1) ≡ pos (n + 1)
unfolding add64
add64_one n h = ground arith

module _ (a b c : ℕ) (pre : Text) (x y z : ℕ) where
  tilde_admits :
      b + 1 < 2 ^ 63
      → (verdict (numbered x y z []) (expand (b'~' ∷ []) (numbered a b c pre)) ≡ some true)
        ↔ ((x ≡ a) × (y ≡ b) × (c ≤ z))
  unfolding expand all_allow
  tilde_admits room =
      rw (add64_one b room)
        (ground (arith, admits_least a b c pre x y z, admits_below a (b + 1) x y z))

  caret_admits :
      0 < a
      → a + 1 < 2 ^ 63
      → (verdict (numbered x y z []) (expand (b'^' ∷ []) (numbered a b c pre)) ≡ some true)
        ↔ ((x ≡ a) × ((b < y) ⊎ ((y ≡ b) × (c ≤ z))))
  unfolding expand all_allow
  caret_admits positive room =
      rw (add64_one a room)
        (ground (arith, admits_least a b c pre x y z, admits_below (a + 1) 0 x y z))

  caret_admits_zero :
      a ≡ 0
      → b + 1 < 2 ^ 63
      → (verdict (numbered x y z []) (expand (b'^' ∷ []) (numbered a b c pre)) ≡ some true)
        ↔ ((x ≡ a) × (y ≡ b) × (c ≤ z))
  unfolding expand all_allow
  caret_admits_zero e room =
      rw (add64_one b room)
        (ground (arith, admits_least a b c pre x y z, admits_below 0 (b + 1) x y z))

  -- The next major number of the greatest int is negative, and nothing is below it.
  caret_admits_nothing :
      a + 1 ≡ 2 ^ 63
      → verdict (numbered x y z []) (expand (b'^' ∷ []) (numbered a b c pre)) ≡ some false
  unfolding expand all_allow allows compare_versions add64
  caret_admits_nothing e = ground arith

module _ (a b c : ℕ) (pre : Text) (x y z : ℕ) (ok : IsPrintable a b c pre) (hx : x < 2 ^ 63)
    (hy : y < 2 ^ 63) (hz : z < 2 ^ 63) where
  -- `~a.b.c`, with a prerelease or not, admits the release x.y.z exactly when x.y is a.b and z is at
  -- least c, if the minor number can grow by one within an int.
  pub tilde :
      b + 1 < 2 ^ 63
      → (satisfies_range (print (numbered x y z [])) (b'~' ∷ print (numbered a b c pre))
          ≡ some true)
        ↔ ((x ≡ a) × (y ≡ b) × (c ≤ z))
  tilde room =
      rw (shorthand b'~' a b c pre x y z refl ok hx hy hz) (tilde_admits a b c pre x y z room)

  -- `^a.b.c` with a positive major number admits the release x.y.z exactly when x is a and y.z is at
  -- least b.c, if the major number can grow by one within an int.
  pub caret :
      0 < a
      → a + 1 < 2 ^ 63
      → (satisfies_range (print (numbered x y z [])) (b'^' ∷ print (numbered a b c pre))
          ≡ some true)
        ↔ ((x ≡ a) × ((b < y) ⊎ ((y ≡ b) × (c ≤ z))))
  caret positive room =
      rw (shorthand b'^' a b c pre x y z refl ok hx hy hz)
        (caret_admits a b c pre x y z positive room)

  -- `^0.b.c` admits the release x.y.z exactly when x.y is 0.b and z is at least c, if the minor
  -- number can grow by one within an int.
  caret_zero :
      a ≡ 0
      → b + 1 < 2 ^ 63
      → (satisfies_range (print (numbered x y z [])) (b'^' ∷ print (numbered a b c pre))
          ≡ some true)
        ↔ ((x ≡ a) × (y ≡ b) × (c ≤ z))
  caret_zero e room =
      rw (shorthand b'^' a b c pre x y z refl ok hx hy hz)
        (caret_admits_zero a b c pre x y z e room)

  -- Where the major number of `^a.b.c` is the greatest int, the upper bound wraps round, and no
  -- release is admitted, not even a.b.c itself.
  pub caret_wraps :
      a + 1 ≡ 2 ^ 63
      → satisfies_range (print (numbered x y z [])) (b'^' ∷ print (numbered a b c pre)) ≡ some false
  caret_wraps e =
      shorthand b'^' a b c pre x y z refl ok hx hy hz ∙ caret_admits_nothing a b c pre x y z e
