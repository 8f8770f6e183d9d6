-- ===== src/Text/Split.antt =====
-- Splitting and cutting at one byte.
use semrel_registry.Prelude.{ℕ, ◌≡◌, refl, ◌≢◌, true, false, List, [], ◌∷◌, ◌++◌, arith, All, ◌==◌}
use semrel_registry.Text.{Text, cut, split, push_first, join}

-- The text does not hold the byte.
abbrev pub Without : ℕ → Text → Type 0
Without c s = All (λ d. (d == c) ≡ false) s

pub cut-append : (sep : ℕ) (s t : Text) → Without sep s → cut sep (s ++ sep ∷ t) ≡ (s, t, true)
unfolding cut
cut-append sep [] t h = ground arith
cut-append sep (c ∷ s) t h = ground (arith, cut-append sep s t)

pub cut-Without : (sep : ℕ) (s : Text) → Without sep s → cut sep s ≡ (s, [], false)
unfolding cut
cut-Without sep [] h = refl
cut-Without sep (c ∷ s) h = ground (arith, cut-Without sep s)

pub split-append :
    (sep : ℕ) (s t : Text) → Without sep s → split sep (s ++ sep ∷ t) ≡ s ∷ split sep t
unfolding split
split-append sep [] t h = ground arith
split-append sep (c ∷ s) t h = ground (arith, split-append sep s t)

pub split-Without : (sep : ℕ) (s : Text) → Without sep s → split sep s ≡ s ∷ []
unfolding split
split-Without sep [] h = refl
split-Without sep (c ∷ s) h = ground (arith, split-Without sep s)

push_first-ne-nil : (c : ℕ) (parts : List Text) → push_first c parts ≢ []
push_first-ne-nil c [] e = cc
push_first-ne-nil c (p ∷ parts) e = cc

split-ne-nil : (sep : ℕ) (s : Text) → split sep s ≢ []
unfolding split
split-ne-nil sep [] = λ e. cc
split-ne-nil sep (c ∷ s) = ground (arith, push_first-ne-nil c (split sep s))

join-nil :
    (sep : ℕ) (parts : List Text)
    → parts ≢ []
    → join ([] ∷ parts) (sep ∷ []) ≡ sep ∷ join parts (sep ∷ [])
unfolding join
join-nil sep [] n = absurd (n refl)
join-nil sep (p ∷ parts) n = refl

join-push_first :
    (c sep : ℕ) (parts : List Text)
    → parts ≢ []
    → join (push_first c parts) (sep ∷ []) ≡ c ∷ join parts (sep ∷ [])
unfolding join
join-push_first c sep [] n = absurd (n refl)
join-push_first c sep (p ∷ []) n = refl
join-push_first c sep (p ∷ q ∷ parts) n = refl

-- Joining the parts with the byte at which they were split gives the text back.
pub join-split : (sep : ℕ) (s : Text) → join (split sep s) (sep ∷ []) ≡ s
unfolding split
join-split sep [] = unfold join in refl
join-split sep (c ∷ s) = ground (
  arith,
  join-split sep s,
  join-nil sep (split sep s) (split-ne-nil sep s),
  join-push_first c sep (split sep s) (split-ne-nil sep s),
)

pub split-injective : (sep : ℕ) (s t : Text) → split sep s ≡ split sep t → s ≡ t
split-injective sep s t e = cc (join-split sep s, join-split sep t)

push_first-append :
    (c : ℕ) (parts more : List Text)
    → parts ≢ []
    → push_first c (parts ++ more) ≡ push_first c parts ++ more
push_first-append c [] more filled = absurd (filled refl)
push_first-append c (p ∷ parts) more filled = refl

-- Splitting two texts with a separator between them splits both.
pub split-between : (sep : ℕ) (s t : Text) → split sep (s ++ sep ∷ t) ≡ split sep s ++ split sep t
unfolding split
split-between sep [] t = ground arith
split-between sep (c ∷ s) t = ground (
  arith,
  split-between sep s t,
  push_first-append c (split sep s) (split sep t) (split-ne-nil sep s),
)
