-- ===== src/Service/Dedup.antt =====
-- api/service/download_dedup.go: the table of the downloads that were counted lately. Its lock makes
-- each call one step. SHA-256 is a parameter; an instant is a number of nanoseconds, and a
-- difference of instants is compared by moving it to the other side.
pub mod Table
pub mod Once
use semrel_registry.Prelude.{
  ℕ, ◌+◌, ◌-◌, ◌/◌, ◌%◌, Bool, true, false, not, Option, none, some, List, [], ◌∷◌, ◌++◌, length,
  ltb, leb, take, keep_if, if◌then◌else◌,
}
use semrel_registry.Prelude.Int.{ℤ}
use semrel_registry.Text.{Text, text_eq}
use semrel_registry.Semver.{print_int}

abbrev pub max_dedup_entries : ℕ
max_dedup_entries = 200000

-- the fields of DownloadDeduplicator; `seen` has one entry for each key
pub record Deduplicator : Type 0 where
  pub seen : List (Text × ℕ)
  pub window : ℕ
  pub last_gc : ℕ

-- NewDownloadDeduplicator, for a window that is 0 where it is not positive
unfoldable pub new_deduplicator : ℕ → ℕ → Deduplicator
new_deduplicator now window = record {
  seen = [];
  window = if ltb 0 window then window else 3600000000000;
  last_gc = now;
}

unfoldable pub entry : Text → List (Text × ℕ) → Option ℕ
entry k [] = none
entry k (e ∷ es) = if text_eq e.0 k then some e.1 else entry k es

unfoldable pub put_time : Text → ℕ → List (Text × ℕ) → List (Text × ℕ)
put_time k t [] = (k, t) ∷ []
put_time k t (e ∷ es) =
    let rest = put_time k t es in if text_eq e.0 k then (k, t) ∷ es else e ∷ rest

-- the first part of collectLocked, which drops the entries that are older than the window
unfoldable pub expire : ℕ → Deduplicator → Deduplicator
expire now d =
    if leb (d.last_gc + d.window / 2) now
    then record d { seen = keep_if (λ e. ltb now (e.1 + d.window)) d.seen; last_gc = now }
    else d

-- its second part, which sheds entries where there are too many
unfoldable pub shed : ℕ → Deduplicator → Deduplicator
shed now d =
    let recent = keep_if (λ e. leb now (e.1 + d.window / 2)) d.seen in
    if leb (length d.seen) max_dedup_entries
    then d
    else record d { seen = if ltb max_dedup_entries (length recent) then [] else recent }

-- collectLocked
unfoldable pub collect_locked : ℕ → Deduplicator → Deduplicator
unfolding expire shed
collect_locked now d = shed now (expire now d)

-- the test at the end of ShouldCount
abbrev pub is_recent : ℕ → ℕ → Option ℕ → Bool
is_recent now window none = false
is_recent now window (some last) = ltb now (last + window)

-- ShouldCount at a key, on a deduplicator that is not nil
unfoldable pub should_count : ℕ → Text → Deduplicator → Bool × Deduplicator
unfolding collect_locked entry put_time
should_count now key d =
    let c = collect_locked now d in
    if is_recent now c.window (entry key c.seen)
    then (false, c)
    else (true, record c { seen = put_time key now c.seen })

abbrev hex_digit : ℕ → ℕ
hex_digit n = if ltb n 10 then b'0' + n else b'a' + (n - 10)

abbrev hex : Text → Text
hex [] = []
hex (c ∷ s) = hex_digit (c / 16) ∷ hex_digit (c % 16) ∷ hex s

-- dedupKey
unfoldable pub dedup_key : (Text → Text) → Text → Text → ℤ → Text
dedup_key sha256 client_ip user_agent version_id =
    hex (take 16 (sha256 (client_ip ++ (0 ∷ (user_agent ++ (0 ∷ print_int version_id))))))
