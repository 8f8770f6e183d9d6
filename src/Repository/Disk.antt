-- ===== src/Repository/Disk.antt =====
-- The data directory of the file-backed repository: plugins/{id}.json, meta.json,
-- notify-emails.json and account_deletions.json, as the values that the JSON in them stands for.
-- Each access to a file takes one entry of `faults`, by which the environment says whether it
-- fails; with no entries left none fails. A write goes to a temporary file that is then renamed, so
-- that one which fails leaves the old content.
pub mod Files
use semrel_registry.Prelude.{
  ℕ, suc, Bool, true, false, Option, none, some, List, [], ◌∷◌, ◌++◌, map, if◌then◌else◌, length,
  ◌≡◌, refl,
}
use semrel_registry.Prelude.Int.{ℤ, pos, eq_ℤ}
use semrel_registry.Text.{Text, text, text_lt}
use semrel_registry.Semver.{print_int}
use semrel_registry.Models.{Plugin, AccountDeletionAudit, SecurityAdvisory}
use semrel_registry.Result.{
  Result, ok, err, AppError, io_failure, Exec, pure, raise, gets, modify, ◌>>=◌, ◌>>◌,
}

-- fileMeta
pub record FileMeta : Type 0 where
  pub next_plugin_id : ℤ
  pub next_version_id : ℤ

abbrev pub Files : Type 0
Files = List (ℤ × Plugin)

pub record Disk : Type 0 where
  pub plugins : Files
  pub meta : Option FileMeta
  pub emails : List (ℤ × Text)
  pub audits : List AccountDeletionAudit
  pub faults : List Bool

abbrev pub empty_disk : Disk
empty_disk = record { plugins = []; meta = none; emails = []; audits = []; faults = [] }

abbrev pub outcome : List Bool → Result (Unit {0})
outcome [] = ok tt
outcome (fails ∷ rest) = if fails then err io_failure else ok tt

abbrev pub later : List Bool → List Bool
later [] = []
later (fails ∷ rest) = rest

-- one access to a file
unfoldable pub access : Exec Disk (Unit {0})
access s = (outcome s.faults, record s { faults = later s.faults })

module _ {V : Type 0} where
  unfoldable pub lookup : ℤ → List (ℤ × V) → Option V
  lookup k [] = none
  lookup k ((j, v) ∷ m) = if eq_ℤ j k then some v else lookup k m

  unfoldable pub has_key : ℤ → List (ℤ × V) → Bool
  has_key k [] = false
  has_key k ((j, v) ∷ m) = if eq_ℤ j k then true else has_key k m

  unfoldable pub replace : ℤ → V → List (ℤ × V) → List (ℤ × V)
  replace k v [] = []
  replace k v ((j, w) ∷ m) =
      let rest = replace k v m in if eq_ℤ j k then (k, v) ∷ m else (j, w) ∷ rest

  unfoldable pub remove : ℤ → List (ℤ × V) → List (ℤ × V)
  remove k [] = []
  remove k ((j, v) ∷ m) = let rest = remove k m in if eq_ℤ j k then rest else (j, v) ∷ rest

  abbrev pub values : List (ℤ × V) → List V
  values [] = []
  values ((j, v) ∷ m) = v ∷ values m

abbrev file_name : ℤ → Text
file_name id = print_int id ++ text ".json"

-- A directory is listed in the order of the file names.
unfoldable pub insert_file : ℤ → Plugin → Files → Files
insert_file k p [] = (k, p) ∷ []
insert_file k p ((j, q) ∷ m) =
    let rest = insert_file k p m in
    if text_lt (file_name k) (file_name j) then (k, p) ∷ (j, q) ∷ m else (j, q) ∷ rest

unfoldable pub put_file : ℤ → Plugin → Files → Files
unfolding has_key replace insert_file
put_file k p m = if has_key k m then replace k p m else insert_file k p m

-- a file that is not there reads as the first numbers
abbrev pub or_first : Option FileMeta → FileMeta
or_first none = record { next_plugin_id = pos 1; next_version_id = pos 1 }
or_first (some m) = m

-- fileStore.loadMeta
unfoldable pub load_meta : Exec Disk FileMeta
unfolding access
load_meta = do access; found ← gets (λ s. s.meta); pure (or_first found)

-- fileStore.saveMeta
unfoldable pub save_meta : FileMeta → Exec Disk (Unit {0})
unfolding access
save_meta m = do access; modify (λ s. record s { meta = some m })

-- An advisory list that is empty is left out of the JSON (omitempty), and reads back as nil.
abbrev pub omit_empty : Option (List SecurityAdvisory) → Option (List SecurityAdvisory)
omit_empty none = none
omit_empty (some []) = none
omit_empty (some (a ∷ as')) = some (a ∷ as')

-- What a plugin's JSON stands for.
unfoldable pub to_json : Plugin → Plugin
to_json p = record p { security_advisories = omit_empty p.security_advisories }

-- fileStore.savePlugin
unfoldable pub save_plugin : Plugin → Exec Disk (Unit {0})
unfolding access to_json put_file
save_plugin p = do access; modify (λ s. record s { plugins = put_file p.id (to_json p) s.plugins })

-- the read of one plugin file by loadPlugin
abbrev pub or_not_found : {A : Type 0} → Option A → Exec Disk A
or_not_found none = raise AppError.plugin_not_found
or_not_found (some a) = pure a
