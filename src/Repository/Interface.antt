-- ===== src/Repository/Interface.antt =====
-- The interface PluginRepository of api/repository/plugin_repo.go, which the services use, and the
-- file-backed repository as one of its implementations. An instant of time is what time.Now gives
-- in the methods of the implementation that read the clock.
use semrel_registry.Prelude.{Option, List}
use semrel_registry.Prelude.Int.{ℤ, pos_part}
use semrel_registry.Text.{Text}
use semrel_registry.Models.{
  Time, Plugin, PluginVersion, Provenance, SecurityAdvisory, PluginDeletionSpec,
  VersionDeletionSpec, VersionPurgeSpec, VersionYankSpec, ReviewOutcomeSpec, AccountDeletionAudit,
}
use semrel_registry.Result.{Exec}
use semrel_registry.Repository.Disk.{Disk}
use semrel_registry.Repository.Filters.{Filter, get_all}
use semrel_registry.Repository.Reads.{
  get_by_id, get_by_name, get_by_namespaced_name, get_versions, notify_email,
}
use semrel_registry.Repository.Writes.{
  create, update, update_status, update_validation_checks, set_security_advisories, delete,
  delete_version, hard_delete_version, record_account_deletion, incr_counters, add_version,
  set_version_yank, set_review_outcome,
}
use semrel_registry.Repository.Contacts.{set_provenance, set_notify_email}

pub record PluginRepository (S : Type 0) : Type 0 where
  pub get_all : ℤ → ℤ → List Filter → Exec S (List Plugin)
  pub get_by_id : ℤ → Exec S Plugin
  pub get_by_name : Text → Exec S Plugin
  pub get_by_namespaced_name : Text → Text → Exec S Plugin
  pub create : Plugin → Exec S ℤ
  pub update : Plugin → Exec S (Unit {0})
  pub update_status : ℤ → Text → Exec S (Unit {0})
  pub update_validation_checks : ℤ → Text → Exec S (Unit {0})
  pub set_security_advisories : ℤ → Option (List SecurityAdvisory) → Exec S (Unit {0})
  pub delete : PluginDeletionSpec → Exec S (Unit {0})
  pub delete_version : VersionDeletionSpec → Exec S (Unit {0})
  pub hard_delete_version : VersionPurgeSpec → Exec S (Unit {0})
  pub record_account_deletion : AccountDeletionAudit → Exec S (Unit {0})
  pub incr_counters : ℤ → ℤ → ℤ → ℤ → Exec S (Unit {0})
  pub get_versions : ℤ → Exec S (List PluginVersion)
  pub add_version : PluginVersion → Exec S ℤ
  pub set_version_yank : VersionYankSpec → Exec S (Unit {0})
  pub set_provenance : ℤ → Option Provenance → Exec S (Unit {0})
  pub set_review_outcome : ReviewOutcomeSpec → Exec S (Unit {0})
  pub set_notify_email : ℤ → Text → Exec S (Unit {0})
  pub notify_email : ℤ → Exec S Text

-- NewFileRepository. GetAll cuts out a page only where its limit and its offset are positive.
abbrev pub file_repository : Time → PluginRepository Disk
file_repository now = record {
  get_all = λ limit offset fs. get_all (pos_part limit) (pos_part offset) fs;
  get_by_id = get_by_id;
  get_by_name = get_by_name;
  get_by_namespaced_name = get_by_namespaced_name;
  create = create now;
  update = update now;
  update_status = update_status now;
  update_validation_checks = update_validation_checks now;
  set_security_advisories = set_security_advisories now;
  delete = delete now;
  delete_version = delete_version now;
  hard_delete_version = hard_delete_version;
  record_account_deletion = record_account_deletion;
  incr_counters = incr_counters now;
  get_versions = get_versions;
  add_version = add_version now;
  set_version_yank = set_version_yank now;
  set_provenance = set_provenance now;
  set_review_outcome = set_review_outcome now;
  set_notify_email = set_notify_email;
  notify_email = notify_email;
}
