-- ===== src/Service/Dedup/Table.antt =====
-- The table of the deduplicator: what is found in it after it changes, and its length.
use semrel_registry.Prelude.{
  ℕ, suc, ◌+◌, ◌/◌, ◌<◌, ◌≤◌, ◌≡◌, refl, ap, Bool, true, false, some, List, [], ◌∷◌, length,
  keep_if, length-keep_if, arith, ltb, leb, Bool-cases, inl, inr,
}
use semrel_registry.Text.{Text, text_eq}
use mathlib.Core.Option.{some-injective}
use semrel_registry.Text.Equality.{text_eq_sound, text_eq_refl}
use semrel_registry.Service.Dedup.{
  Deduplicator, entry, put_time, expire, shed, collect_locked, max_dedup_entries,
}

pub length-put_time :
    (k : Text) (t : ℕ) (m : List (Text × ℕ)) → length (put_time k t m) ≤ suc (length m)
unfolding put_time
length-put_time k t [] = omega arith
length-put_time k t (e ∷ es) = ground (arith, length-put_time k t es)

pub length-shed : (now : ℕ) (d : Deduplicator) → length (shed now d).seen ≤ max_dedup_entries
unfolding shed
length-shed now d = ground arith

pub entry-keep_if :
    (f : ℕ → Bool) (k : Text) (t : ℕ) (m : List (Text × ℕ))
    → f t ≡ true
    → entry k m ≡ some t
    → entry k (keep_if (λ e. f e.1) m) ≡ some t
unfolding entry
entry-keep_if f k t [] h e = e
entry-keep_if f k t ((j, u) ∷ m) h e = elim (Bool-cases (text_eq j k)) [
  | inl here ↦
      let same : u ≡ t = some-injective u t (rw (here, entry) at e) in
      let kept : f u ≡ true = rw same h in rw (kept, here) (ap some same)
  | inr other ↦ ground (arith, other, entry-keep_if f k t m h)
]

pub entry-put_time :
    (k j : Text) (t u : ℕ) (m : List (Text × ℕ))
    → text_eq j k ≡ false
    → entry k m ≡ some t
    → entry k (put_time j u m) ≡ some t
unfolding entry put_time
entry-put_time k j t u [] h e = cc
entry-put_time k j t u ((i, w) ∷ m) h e = elim (Bool-cases (text_eq i j)) [
  | inl here ↦
      let other : text_eq i k ≡ false = rw (text_eq_sound i j here) h in
      ground (arith, here, h, other)
  | inr elsewhere ↦ ground (arith, elsewhere, entry-put_time k j t u m h)
]

pub entry-put_time-same :
    (k : Text) (t : ℕ) (m : List (Text × ℕ)) → entry k (put_time k t m) ≡ some t
unfolding entry put_time
entry-put_time-same k t [] = rw (text_eq_refl k) refl
entry-put_time-same k t ((i, w) ∷ m) = elim (Bool-cases (text_eq i k)) [
  | inl here ↦ rw (here, text_eq_refl k) refl
  | inr elsewhere ↦ rw (elsewhere, elsewhere) (entry-put_time-same k t m)
]

-- The key was counted at `t`, and the table has the window `w`.
pub record IsCounted (key : Text) (t w : ℕ) (d : Deduplicator) : Type 0 where
  pub found : entry key d.seen ≡ some t
  pub window : d.window ≡ w

pub expire-IsCounted :
    (key : Text) (t w now : ℕ) (d : Deduplicator)
    → now < t + w
    → IsCounted key t w d
    → IsCounted key t w (expire now d)
unfolding expire
expire-IsCounted key t w now d fresh h = elim (Bool-cases (leb (d.last_gc + d.window / 2) now)) [
  | inl due ↦ rw due (record {
    found =
        entry-keep_if (λ u. ltb now (u + d.window)) key t d.seen (rw h.window (ground arith))
          h.found;
    window = h.window;
  })
  | inr later ↦ rw later h
]

pub shed-IsCounted :
    (key : Text) (t w now : ℕ) (d : Deduplicator)
    → length d.seen ≤ max_dedup_entries
    → IsCounted key t w d
    → IsCounted key t w (shed now d)
unfolding shed
shed-IsCounted key t w now d few h =
    let fits : leb (length d.seen) max_dedup_entries ≡ true = ground arith in rw fits h

pub length-expire : (now : ℕ) (d : Deduplicator) → length (expire now d).seen ≤ length d.seen
unfolding expire
length-expire now d = ground (arith, length-keep_if (λ e. ltb now (e.1 + d.window)) d.seen)

pub collect_locked-IsCounted :
    (key : Text) (t w now : ℕ) (d : Deduplicator)
    → now < t + w
    → length d.seen ≤ max_dedup_entries
    → IsCounted key t w d
    → IsCounted key t w (collect_locked now d)
unfolding collect_locked
collect_locked-IsCounted key t w now d fresh few h =
    shed-IsCounted key t w now (expire now d) (omega (arith, length-expire now d, few))
      (expire-IsCounted key t w now d fresh h)

pub length-collect_locked :
    (now : ℕ) (d : Deduplicator) → length (collect_locked now d).seen ≤ length d.seen
unfolding collect_locked shed
length-collect_locked now d = ground (
  arith,
  length-expire now d,
  length-keep_if (λ e. leb now (e.1 + (expire now d).window / 2)) (expire now d).seen,
)
