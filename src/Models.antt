-- ===== src/Models.antt =====
-- api/models/plugin.go: the records that the registry stores and passes round. Pointers that may be
-- nil are options; an instant of time.Time is its number of nanoseconds; int64 is ℤ.
use semrel_registry.Prelude.{
  ℕ, Bool, Option, none, List, [], ◌∷◌, ◌++◌, if◌then◌else◌, is_some, ◌&&◌, not,
}
use semrel_registry.Prelude.Int.{ℤ, pos}
use semrel_registry.Text.{Text, text, is_empty}

abbrev pub Time : Type 0
Time = ℕ

abbrev pub status_active : Text
status_active = text "active"

abbrev pub status_pending : Text
status_pending = text "pending"

abbrev pub status_rejected : Text
status_rejected = text "rejected"

pub record Provenance : Type 0 where
  pub verified : Bool
  pub source_repository : Text
  pub workflow : Text
  pub digest : Text
  pub predicate_type : Text
  pub issue : Text

pub record SecurityAdvisory : Type 0 where
  pub ghsa_id : Text
  pub cve_id : Text
  pub summary : Text
  pub severity : Text
  pub url : Text
  pub vulnerable_range : Text
  pub patched_version : Text
  pub published_at : Option Time
  pub withdrawn_at : Option Time

pub record PluginVersion : Type 0 where
  pub id : ℤ
  pub plugin_id : ℤ
  pub version : Text
  pub release_date : Option Time
  pub changelog : Text
  pub download_url : Text
  pub checksums : List (Text × Text)
  pub semrel_core : Text
  pub prerelease : Bool
  pub views : ℤ
  pub downloads : ℤ
  pub created_at : Time
  pub deleted_at : Option Time
  pub deleted_by : Text
  pub deletion_reason : Text
  pub provenance : Option Provenance
  pub provenance_checked_at : Option Time
  pub yanked_at : Option Time
  pub yanked_by : Text
  pub yanked_reason : Text

-- PluginVersion.Yanked
abbrev pub yanked : PluginVersion → Bool
yanked v = is_some v.yanked_at

pub record Plugin : Type 0 where
  pub id : ℤ
  pub namespace : Text
  pub name : Text
  pub aliases : List Text
  pub description : Text
  pub author : Text
  pub category : Text
  pub repository : Text
  pub license : Text
  pub status : Text
  pub tags : List Text
  pub versions : List PluginVersion
  pub latest_version : Text
  pub latest_semrel_core : Text
  pub views : ℤ
  pub downloads : ℤ
  pub validation_checks : Text
  pub validated_at : Option Time
  pub security_advisories : Option (List SecurityAdvisory)
  pub advisories_checked_at : Option Time
  pub created_at : Time
  pub updated_at : Time
  pub deleted_at : Option Time
  pub deleted_by : Text
  pub deletion_reason : Text
  pub rejection_reason : Text
  pub reviewed_at : Option Time
  pub reviewed_by : Text

-- models.Plugin{}
abbrev pub blank_plugin : Plugin
blank_plugin = record {
  id = pos 0;
  namespace = [];
  name = [];
  aliases = [];
  description = [];
  author = [];
  category = [];
  repository = [];
  license = [];
  status = [];
  tags = [];
  versions = [];
  latest_version = [];
  latest_semrel_core = [];
  views = pos 0;
  downloads = pos 0;
  validation_checks = [];
  validated_at = none;
  security_advisories = none;
  advisories_checked_at = none;
  created_at = 0;
  updated_at = 0;
  deleted_at = none;
  deleted_by = [];
  deletion_reason = [];
  rejection_reason = [];
  reviewed_at = none;
  reviewed_by = [];
}

-- Plugin.Ref
abbrev pub ref : Plugin → Text
ref p = if is_empty p.namespace then p.name else p.namespace ++ (b'/' ∷ p.name)

abbrev pub is_live : Plugin → Bool
is_live p = not (is_some p.deleted_at)

pub record PluginPatch : Type 0 where
  pub namespace : Option Text
  pub name : Option Text
  pub aliases : Option (List Text)
  pub description : Option Text
  pub author : Option Text
  pub category : Option Text
  pub repository : Option Text
  pub license : Option Text
  pub tags : Option (List Text)

-- PluginPatch.Empty
unfoldable pub patch_is_empty : PluginPatch → Bool
patch_is_empty p =
    not (is_some p.namespace)
    && not (is_some p.name)
    && not (is_some p.aliases)
    && not (is_some p.description)
    && not (is_some p.author)
    && not (is_some p.category)
    && not (is_some p.repository)
    && not (is_some p.license)
    && not (is_some p.tags)

pub record DeleteActor : Type 0 where
  pub login : Text
  pub role : Text
  pub is_admin : Bool

pub record PluginDeletionRequest : Type 0 where
  pub confirmation : Text
  pub reason : Text
  pub delete_versions : Bool

pub record PluginDeletionSpec : Type 0 where
  pub plugin_id : ℤ
  pub deleted_by : Text
  pub reason : Text
  pub confirmation : Text
  pub cascade_versions : Bool
  pub anonymize_author : Bool

pub record VersionDeletionRequest : Type 0 where
  pub confirmation : Text
  pub reason : Text

pub record VersionDeletionSpec : Type 0 where
  pub plugin_id : ℤ
  pub version_id : ℤ
  pub deleted_by : Text
  pub reason : Text
  pub confirmation : Text

pub record VersionPurgeSpec : Type 0 where
  pub plugin_id : ℤ
  pub version_id : ℤ
  pub plugin_ref : Text
  pub deleted_by : Text
  pub reason : Text
  pub confirmation : Text

pub record AccountDeletionRequest : Type 0 where
  pub confirmation : Text
  pub reason : Text
  pub reauth_token : Text
  pub delete_owned_plugins : Bool

pub record AccountDeletionResult : Type 0 where
  pub plugins_deleted : ℕ
  pub versions_deleted : ℕ

pub record AccountDeletionAudit : Type 0 where
  pub login : Text
  pub deleted_by : Text
  pub reason : Text
  pub confirmation : Text
  pub plugins_deleted : ℕ
  pub versions_deleted : ℕ
  pub created_at : Time

pub record VersionYankSpec : Type 0 where
  pub plugin_id : ℤ
  pub version_id : ℤ
  pub yanked : Bool
  pub actor : Text
  pub reason : Text

pub record ReviewOutcomeSpec : Type 0 where
  pub plugin_id : ℤ
  pub status : Text
  pub reviewer : Text
  pub reason : Text

pub record ReviewNotification : Type 0 where
  pub recipient : Text
  pub plugin_ref : Text
  pub repository : Text
  pub approved : Bool
  pub reason : Text
  pub reviewer : Text

-- the field Reason of ReviewDecision and of VersionYankRequest
pub record ReviewDecision : Type 0 where
  pub reason : Text

pub record VersionYankRequest : Type 0 where
  pub reason : Text

-- the embedded plugin is a field of its own
pub record PluginSubmission : Type 0 where
  pub plugin : Plugin
  pub notify_email : Text
