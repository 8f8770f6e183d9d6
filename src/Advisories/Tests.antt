-- ===== src/Advisories/Tests.antt =====
-- The theorems on advisories at one advisory of GitHub and at a data directory with one plugin.
use mathlib.Core.List.{Memᴰ}
use semrel_registry.Semver.{compare_versions}
use semrel_registry.Semver.{allows}
use semrel_registry.Repository.Reads.{get_by_id}
use semrel_registry.Service.Validation.{validate_plugin_ref}
use semrel_registry.Result.{◌>>=◌}
use semrel_registry.Service.Lookup.{get_plugin}
use semrel_registry.Text.Number.{atoi}
use semrel_registry.Text.{cut}
use semrel_registry.Text.{trim_space}
use semrel_registry.Semver.{parse_version}
use semrel_registry.Prelude.{◌≡◌, refl, not, ◌&&◌, none, some, [], ◌∷◌, List, arith}
use semrel_registry.Prelude.Int.{pos}
use semrel_registry.Text.{text, split}
use semrel_registry.Models.{Plugin, SecurityAdvisory}
use semrel_registry.Semver.{Version, satisfies_range}
use semrel_registry.Repository.Disk.{Disk, empty_disk}
use semrel_registry.Repository.Interface.{file_repository}
use semrel_registry.Repository.Tests.{alpha, old_release}
use semrel_registry.Repository.Versions.{refresh_latest}
use semrel_registry.Handlers.{proceed}
use semrel_registry.Advisories.{
  Vulnerability, GhSecurityAdvisory, Entry, Finding, squeeze, to_model, is_there, reported,
  advisory_affects, audit_plugins,
}
use semrel_registry.Advisories.Ranges.{every, advisory_affects-parts}
use semrel_registry.Advisories.Audit.{Reports, audit_plugins-Reports}

abbrev old_range : Vulnerability
old_range = record {
  vulnerable_version_range = text ">= 0.9.0, < 2.0.3";
  patched_versions = text "2.0.3";
}

abbrev published : GhSecurityAdvisory
published = record {
  ghsa_id = text "GHSA-1";
  cve_id = [];
  summary = text "leak";
  severity = text "high";
  html_url = [];
  published_at = [];
  withdrawn_at = [];
  vulnerabilities = old_range ∷ [];
}

abbrev first_major : Version
first_major = record { major = pos 1; minor = pos 0; patch = pos 0; prerelease = [] }

advisory_affects-parts_example :
    advisory_affects (to_model (λ t. none) published) (text "1.0.0") ≡ (
      not (is_there none)
      && reported (
          every
            (λ p. satisfies_range (text "1.0.0") (squeeze p))
            (split b',' (text ">= 0.9.0, < 2.0.3"))))
unfolding parse_version trim_space split cut atoi
advisory_affects-parts_example =
    advisory_affects-parts (λ t. none) published old_range [] (text "1.0.0") first_major refl refl

abbrev leak : SecurityAdvisory
leak = to_model (λ t. none) published

abbrev leaky : Plugin
leaky = record alpha {
  id = pos 1;
  versions = old_release ∷ [];
  security_advisories = some (leak ∷ []);
}

abbrev with_leaky : Disk
with_leaky = record empty_disk { plugins = (pos 1, leaky) ∷ [] }

abbrev installed : Entry
installed = record { ref = text "1"; version = text "1.0.0" }

audit_plugins-Reports_example :
    (fs : List Finding) × (audit_plugins (file_repository 5) (installed ∷ []) with_leaky).0
      ≡ proceed fs
    × Reports installed leak fs
unfolding get_plugin ◌>>=◌ validate_plugin_ref trim_space atoi get_by_id advisory_affects to_model
    parse_version cut allows compare_versions
audit_plugins-Reports_example =
    audit_plugins-Reports (file_repository 5) with_leaky (installed ∷ []) installed
      (refresh_latest leaky) leak (omega arith) (refl, tt) (Memᴰ.head refl) refl (Memᴰ.head refl)
      refl
