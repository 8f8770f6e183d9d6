-- ===== src/Repository/Contacts.antt =====
-- SetProvenance and SetNotifyEmail of file_repo.go.
use semrel_registry.Prelude.{Option, none, some, List, [], ◌∷◌, not, ◌||◌, is_some, if◌then◌else◌}
use semrel_registry.Prelude.Int.{ℤ, eq_ℤ}
use semrel_registry.Text.{Text, trim_space, is_empty}
use semrel_registry.Models.{Time, Plugin, PluginVersion, Provenance}
use semrel_registry.Result.{Exec, gets, modify, ◌>>=◌, ◌>>◌}
use semrel_registry.Repository.Disk.{Disk, access, save_plugin, remove}
use semrel_registry.Repository.Reads.{load_plugin, load_all}
use semrel_registry.Repository.Writes.{or_absent}

-- the inner loop of SetProvenance
unfoldable pub prove_first :
    Time → ℤ → Option Provenance → List PluginVersion → Option (List PluginVersion)
prove_first now id provenance [] = none
prove_first now id provenance (v ∷ vs) =
    let later = prove_first now id provenance vs in
    if not (eq_ℤ v.id id) || is_some v.deleted_at
    then elim later [ none ↦ none | some ws ↦ some (v ∷ ws) ]
    else some (record v { provenance = provenance; provenance_checked_at = some now } ∷ vs)

-- its outer loop: the plugin that is saved
unfoldable pub prove_in : Time → ℤ → Option Provenance → List Plugin → Option Plugin
unfolding prove_first
prove_in now id provenance [] = none
prove_in now id provenance (p ∷ ps) =
    let later = prove_in now id provenance ps in
    elim (prove_first now id provenance p.versions) [
      | none ↦ later
      | some vs ↦ some (record p { versions = vs })
    ]

-- SetProvenance
unfoldable pub set_provenance : Time → ℤ → Option Provenance → Exec Disk (Unit {0})
unfolding prove_in
set_provenance now version_id provenance = do
  plugins ← load_all
  p ← or_absent (prove_in now version_id provenance plugins)
  save_plugin p

-- the assignment or the delete on the map of SetNotifyEmail
unfoldable pub put_email : ℤ → Text → List (ℤ × Text) → List (ℤ × Text)
unfolding remove
put_email id address emails =
    if is_empty address then remove id emails else (id, address) ∷ remove id emails

-- SetNotifyEmail
unfoldable pub set_notify_email : ℤ → Text → Exec Disk (Unit {0})
unfolding access put_email
set_notify_email id address = do
  load_plugin id
  access
  emails ← gets (λ s. s.emails)
  access
  modify (λ s. record s { emails = put_email id (trim_space address) emails })
