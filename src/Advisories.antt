-- ===== src/Advisories.antt =====
-- Security advisories, api/handlers/advisories.go: what is taken over from an advisory of GitHub,
-- whether it affects a version, which advisories are announced, and the audit of installed
-- plugins. The request to GitHub is I/O, and `parse_time` is time.Parse at RFC 3339.
pub mod Ranges
pub mod Audit
mod Tests
use semrel_registry.Prelude.{
  ℕ, Bool, true, false, Option, none, some, List, [], ◌∷◌, ◌||◌, not, any, keep_if, length, ltb,
  if◌then◌else◌,
}
use semrel_registry.Text.{Text, text, text_eq, is_empty, fields, split, join}
use semrel_registry.Models.{Time, Plugin, SecurityAdvisory}
use semrel_registry.Semver.{satisfies_range}
use semrel_registry.Result.{Result, ok, err}
use semrel_registry.Repository.Interface.{PluginRepository}
use semrel_registry.Repository.Writes.{or_empty}
use semrel_registry.Service.Lookup.{get_plugin}
use semrel_registry.Handlers.{Reply, refuse, proceed, Handler}

pub record Vulnerability : Type 0 where
  pub vulnerable_version_range : Text
  pub patched_versions : Text

pub record GhSecurityAdvisory : Type 0 where
  pub ghsa_id : Text
  pub cve_id : Text
  pub summary : Text
  pub severity : Text
  pub html_url : Text
  pub published_at : Text
  pub withdrawn_at : Text
  pub vulnerabilities : List Vulnerability

-- strings.Join(strings.Fields(p), "")
unfoldable pub squeeze : Text → Text
unfolding fields join
squeeze p = join (fields p) []

-- the loop of convertGHSARange
unfoldable pub terms_of : List Text → List Text
unfolding squeeze
terms_of [] = []
terms_of (p ∷ ps) =
    let rest = terms_of ps in if is_empty (squeeze p) then rest else squeeze p ∷ rest

unfoldable pub convert_ghsa_range : Text → Text
unfolding terms_of split join
convert_ghsa_range raw = join (terms_of (split b',' raw)) (text " ")

unfoldable pub first_range : List Vulnerability → Text
unfolding convert_ghsa_range
first_range [] = []
first_range (v ∷ vs) = convert_ghsa_range v.vulnerable_version_range

abbrev pub first_patched : List Vulnerability → Text
first_patched [] = []
first_patched (v ∷ vs) = v.patched_versions

-- toModel
unfoldable pub to_model : (Text → Option Time) → GhSecurityAdvisory → SecurityAdvisory
unfolding first_range
to_model parse_time a = record {
  ghsa_id = a.ghsa_id;
  cve_id = a.cve_id;
  summary = a.summary;
  severity = a.severity;
  url = a.html_url;
  vulnerable_range = first_range a.vulnerabilities;
  patched_version = first_patched a.vulnerabilities;
  published_at = parse_time a.published_at;
  withdrawn_at = parse_time a.withdrawn_at;
}

abbrev pub is_there : Option Time → Bool
is_there none = false
is_there (some t) = true

-- Withdrawn
abbrev pub withdrawn : SecurityAdvisory → Bool
withdrawn a = is_there a.withdrawn_at

-- the answer on an error is that the version is affected
abbrev pub reported : Option Bool → Bool
reported none = true
reported (some b) = b

unfoldable pub advisory_affects : SecurityAdvisory → Text → Bool
unfolding satisfies_range
advisory_affects a version =
    if withdrawn a
    then false
    else if is_empty a.vulnerable_range
    then true
    else reported (satisfies_range version a.vulnerable_range)

-- the advisories that notifyNewAdvisories delivers
unfoldable pub notify_new_advisories :
    List SecurityAdvisory → List SecurityAdvisory → List SecurityAdvisory
unfolding text_eq
notify_new_advisories before after =
    keep_if (λ a. not (any (λ b. text_eq b.ghsa_id a.ghsa_id) before)) after

pub record Entry : Type 0 where
  pub ref : Text
  pub version : Text

pub record Finding : Type 0 where
  pub ref : Text
  pub version : Text
  pub advisories : List SecurityAdvisory

-- the advisories of a plugin that affect a version
unfoldable pub affecting : Plugin → Text → List SecurityAdvisory
unfolding advisory_affects
affecting p version = keep_if (λ a. advisory_affects a version) (or_empty p.security_advisories)

abbrev pub add_finding : Entry → List SecurityAdvisory → List Finding → List Finding
add_finding e [] rest = rest
add_finding e (a ∷ as') rest =
    record { ref = e.ref; version = e.version; advisories = a ∷ as' } ∷ rest

-- what the answer of GetPlugin adds for one entry
unfoldable pub judge_entry : Entry → Result Plugin → List Finding → List Finding
unfolding affecting
judge_entry e (err x) rest = rest
judge_entry e (ok p) rest = add_finding e (affecting p e.version) rest

module _ {S : Type 0} (repo : PluginRepository S) where
  -- the loop of AuditPlugins
  unfoldable pub audit_entries : List Entry → S → List Finding × S
  unfolding get_plugin judge_entry
  audit_entries [] s = ([], s)
  audit_entries (e ∷ es) s =
      let (r, s') = get_plugin repo e.ref s in
      let (rest, s'') = audit_entries es s' in (judge_entry e r rest, s'')

  -- AuditPlugins
  unfoldable pub audit_plugins : List Entry → Handler S (List Finding)
  unfolding audit_entries
  audit_plugins es s =
      let (findings, s') = audit_entries es s in
      if ltb 200 (length es) then (refuse 400, s) else (proceed findings, s')
