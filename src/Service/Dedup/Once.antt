-- ===== src/Service/Dedup/Once.antt =====
-- How often a key is counted, and how large the table grows.
use semrel_registry.Prelude.{
  ℕ, suc, ◌+◌, ◌<◌, ◌≤◌, ◌≡◌, refl, ◌∙◌, sym, Bool, true, false, some, List, [], ◌∷◌, length, arith,
  ltb, if◌then◌else◌, All, Bool-cases, inl, inr,
}
use semrel_registry.Text.{Text, text_eq}
use mathlib.Core.Bool.{false≢true}
use mathlib.Core.Path.{subst}
use semrel_registry.Text.Equality.{text_eq_sound}
use semrel_registry.Service.Dedup.{
  Deduplicator, entry, expire, shed, collect_locked, should_count, max_dedup_entries, is_recent,
}
use semrel_registry.Service.Dedup.Table.{
  IsCounted, collect_locked-IsCounted, entry-put_time, entry-put_time-same, length-collect_locked,
  length-put_time, length-shed,
}

-- After a call of ShouldCount the table has at most 200001 entries, whatever was in it before.
pub length-should_count :
    (now : ℕ) (key : Text) (d : Deduplicator)
    → length (should_count now key d).1.seen ≤ suc max_dedup_entries
unfolding should_count collect_locked
length-should_count now key d =
    ground (
      arith,
      length-shed now (expire now d),
      length-put_time key now (shed now (expire now d)).seen,
    )

-- One more call, for any key.
record Step (key : Text) (t w now : ℕ) (j : Text) (d : Deduplicator) : Type 0 where
  counted : IsCounted key t w (should_count now j d).1
  refused : text_eq j key ≡ true → (should_count now j d).0 ≡ false
  grows : length (should_count now j d).1.seen ≤ suc (length d.seen)

length-should_count-grows :
    (now : ℕ) (j : Text) (d : Deduplicator)
    → length (should_count now j d).1.seen ≤ suc (length d.seen)
unfolding should_count
length-should_count-grows now j d =
    ground (arith, length-collect_locked now d, length-put_time j now (collect_locked now d).seen)

should_count-Step :
    (key : Text) (t w now : ℕ) (j : Text) (d : Deduplicator)
    → now < t + w
    → length d.seen ≤ max_dedup_entries
    → IsCounted key t w d
    → Step key t w now j d
unfolding should_count
should_count-Step key t w now j d fresh few h =
    let c : IsCounted key t w (collect_locked now d) =
      collect_locked-IsCounted key t w now d fresh few h in
    elim (Bool-cases (text_eq j key)) [
      | inl same ↦
          let j_found : entry j (collect_locked now d).seen ≡ some t =
            rw (text_eq_sound j key same) c.found in
          let recent : ltb now (t + (collect_locked now d).window) ≡ true =
            rw c.window (ground arith) in
          record {
            counted = rw (j_found, recent) c;
            refused = λ e. rw (j_found, recent) refl;
            grows = length-should_count-grows now j d;
          }
      | inr other ↦ record {
        counted =
            elim (Bool-cases
              (is_recent now (collect_locked now d).window (entry j (collect_locked now d).seen))) [
                | inl recent ↦ rw recent c
                | inr old ↦ rw old (record {
                  found = entry-put_time key j t now (collect_locked now d).seen other c.found;
                  window = c.window;
                })
              ];
        refused = λ e. absurd (false≢true (sym other ∙ e));
        grows = length-should_count-grows now j d;
      }
    ]

-- The answers that a sequence of calls gives for one key.
unfoldable pub answers_for : Text → List (ℕ × Text) → Deduplicator → List Bool
answers_for key [] d = []
answers_for key ((now, j) ∷ calls) d =
    let r = should_count now j d in
    let rest = answers_for key calls r.1 in if text_eq j key then r.0 ∷ rest else rest

All-refused :
    (key : Text) (t w : ℕ) (calls : List (ℕ × Text)) (d : Deduplicator)
    → IsCounted key t w d
    → All (λ c. c.0 < t + w) calls
    → length d.seen + length calls ≤ max_dedup_entries
    → All (λ b. b ≡ false) (answers_for key calls d)
unfolding answers_for
All-refused key t w [] d h fresh few = tt
All-refused key t w ((now, j) ∷ calls) d h (now_fresh, fresh) few =
    let st : Step key t w now j d =
      should_count-Step key t w now j d now_fresh (omega (arith, few)) h in
    let later : All (λ b. b ≡ false) (answers_for key calls (should_count now j d).1) =
      All-refused key t w calls (should_count now j d).1 st.counted fresh
        (omega (arith, few, st.grows)) in
    elim (Bool-cases (text_eq j key)) [
      | inl same ↦ rw same (st.refused same, later)
      | inr other ↦ rw other later
    ]

IsCounted-now :
    (t : ℕ) (key : Text) (d : Deduplicator)
    → (should_count t key d).0 ≡ true
    → IsCounted key t (collect_locked t d).window (should_count t key d).1
unfolding should_count
IsCounted-now t key d h =
    elim (Bool-cases
      (is_recent t (collect_locked t d).window (entry key (collect_locked t d).seen))) [
        | inl recent ↦ absurd (false≢true (rw recent at h))
        | inr old ↦
            rw old (record {
              found = entry-put_time-same key t (collect_locked t d).seen;
              window = refl;
            })
      ]

window-collect_locked : (now : ℕ) (d : Deduplicator) → (collect_locked now d).window ≡ d.window
unfolding collect_locked expire shed
window-collect_locked now d = ground arith

-- A download that was counted is not counted again by calls, for any keys, at instants before the
-- end of the window that follows it, as long as the entries of the table and the calls are at most
-- 200000 together.
pub answers_for-counted :
    (t : ℕ) (key : Text) (d : Deduplicator) (calls : List (ℕ × Text))
    → (should_count t key d).0 ≡ true
    → All (λ c. c.0 < t + d.window) calls
    → length (should_count t key d).1.seen + length calls ≤ max_dedup_entries
    → All (λ b. b ≡ false) (answers_for key calls (should_count t key d).1)
answers_for-counted t key d calls h fresh few =
    All-refused key t d.window calls (should_count t key d).1
      (subst (λ w. IsCounted key t w (should_count t key d).1) (window-collect_locked t d)
        (IsCounted-now t key d h))
      fresh few
