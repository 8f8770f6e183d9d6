-- ===== src/Naming.antt =====
-- api/naming/firstparty.go: the plugins of the registry's own namespace, and how a repository's URL
-- or a reference names one of them. net/url is a parameter, of which the code uses Parse and
-- PathUnescape.
use semrel_registry.Prelude.{
  String, Bool, Option, none, some, List, [], ◌∷◌, ◌++◌, map, find, any, not, ◌&&◌, if◌then◌else◌,
}
use semrel_registry.Text.{
  Text, text, text_eq, trim_space, to_lower, equal_fold, cut, split, contains, trim_suffix,
  trim_byte, is_empty,
}

-- the parts of net/url.URL that the registry reads
pub record Url : Type 0 where
  pub scheme : Text
  pub host : Text
  pub hostname : Text
  pub has_user : Bool
  pub raw_query : Text
  pub force_query : Bool
  pub fragment : Text
  pub raw_path : Text
  pub escaped_path : Text

pub record UrlParser : Type 0 where
  pub parse : Text → Option Url
  pub path_unescape : Text → Option Text

abbrev pub first_party_namespace : Text
first_party_namespace = text "@semrel"

pub record FirstPartyPlugin : Type 0 where
  pub repository : Text
  pub category : Text
  pub name : Text
  pub aliases : List Text

abbrev pub first_party_repositories : List String
first_party_repositories =
    "analyzer-conventional" ∷ "analyzer-default" ∷ "condition-bitbucket-pipelines"
    ∷ "condition-circleci" ∷ "condition-generic" ∷ "condition-gitea-actions"
    ∷ "condition-github-actions" ∷ "condition-gitlab-ci" ∷ "generator-changelog-html"
    ∷ "generator-changelog-md" ∷ "generator-release-notes" ∷ "hook-discord" ∷ "hook-email"
    ∷ "hook-exec" ∷ "hook-gitplugin" ∷ "hook-jira" ∷ "hook-matrix" ∷ "hook-slack" ∷ "hook-teams"
    ∷ "packager-nfpm" ∷ "provider-bitbucket" ∷ "provider-git" ∷ "provider-gitea" ∷ "provider-github"
    ∷ "provider-gitlab" ∷ "publisher-crates" ∷ "publisher-docker" ∷ "publisher-generic-http"
    ∷ "publisher-npm" ∷ "publisher-oci" ∷ "publisher-pypi" ∷ "updater-cargo" ∷ "updater-composer"
    ∷ "updater-docker" ∷ "updater-go" ∷ "updater-gradle" ∷ "updater-helm" ∷ "updater-homebrew"
    ∷ "updater-maven" ∷ "updater-npm" ∷ "updater-nuget" ∷ "updater-pubspec" ∷ "updater-python"
    ∷ "updater-replace" ∷ "updater-terraform" ∷ []

abbrev pub legacy_short_targets : List (String × String)
legacy_short_targets =
    ("conventional", "analyzer-conventional")
    ∷ ("default", "analyzer-default")
    ∷ ("bitbucket-pipelines", "condition-bitbucket-pipelines")
    ∷ ("circleci", "condition-circleci")
    ∷ ("generic", "condition-generic")
    ∷ ("gitea-actions", "condition-gitea-actions")
    ∷ ("github-actions", "condition-github-actions")
    ∷ ("gitlab-ci", "condition-gitlab-ci")
    ∷ ("changelog-html", "generator-changelog-html")
    ∷ ("changelog-md", "generator-changelog-md")
    ∷ ("release-notes", "generator-release-notes")
    ∷ ("discord", "hook-discord")
    ∷ ("email", "hook-email")
    ∷ ("exec", "hook-exec")
    ∷ ("gitplugin", "hook-gitplugin")
    ∷ ("jira", "hook-jira")
    ∷ ("matrix", "hook-matrix")
    ∷ ("slack", "hook-slack")
    ∷ ("teams", "hook-teams")
    ∷ ("nfpm", "packager-nfpm")
    ∷ ("bitbucket", "provider-bitbucket")
    ∷ ("git", "provider-git")
    ∷ ("gitea", "provider-gitea")
    ∷ ("github", "provider-github")
    ∷ ("gitlab", "provider-gitlab")
    ∷ ("crates", "publisher-crates")
    ∷ ("generic-http", "publisher-generic-http")
    ∷ ("oci", "publisher-oci")
    ∷ ("pypi", "publisher-pypi")
    ∷ ("cargo", "updater-cargo")
    ∷ ("composer", "updater-composer")
    ∷ ("docker", "updater-docker")
    ∷ ("go", "updater-go")
    ∷ ("gradle", "updater-gradle")
    ∷ ("helm", "updater-helm")
    ∷ ("homebrew", "updater-homebrew")
    ∷ ("maven", "updater-maven")
    ∷ ("npm", "updater-npm")
    ∷ ("nuget", "updater-nuget")
    ∷ ("pubspec", "updater-pubspec")
    ∷ ("python", "updater-python")
    ∷ ("replace", "updater-replace")
    ∷ ("terraform", "updater-terraform")
    ∷ []

-- legacyShortTargets[short] == repository
abbrev is_target : Text → Text → List (String × String) → Bool
is_target short repository targets =
    any (λ e. text_eq (text e.0) short && text_eq (text e.1) repository) targets

-- the entry of one repository in buildFirstPartyIndex
unfoldable pub first_party : Text → FirstPartyPlugin
first_party repository =
    let parts = cut b'-' repository in
    let short = parts.1 in
    let targeted = is_target short repository legacy_short_targets in
    record {
      repository = repository;
      category = parts.0;
      name = repository;
      aliases =
          repository
          ∷ (if targeted then (first_party_namespace ++ (b'/' ∷ short)) ∷ short ∷ [] else []);
    }

-- firstPartyByName
unfoldable pub first_party_by_name : Text → Option FirstPartyPlugin
unfolding first_party
first_party_by_name name =
    if any (λ r. text_eq (text r) name) first_party_repositories
    then some (first_party name)
    else none

-- the tests of FirstPartyByRepositoryURL on the parsed URL
unfoldable pub is_exact : Url → Bool
is_exact u =
    equal_fold u.scheme (text "https")
    && equal_fold u.host (text "github.com")
    && not u.has_user
    && is_empty u.raw_query
    && not u.force_query
    && is_empty u.fragment
    && is_empty u.raw_path
    && not (contains u.escaped_path (text "%"))

abbrev by_segment : Option Text → Option FirstPartyPlugin
by_segment none = none
by_segment (some name) =
    if contains name (text "/")
    then none
    else first_party_by_name (trim_suffix (to_lower name) (text ".git"))

abbrev by_path : UrlParser → List Text → Option FirstPartyPlugin
by_path urls (owner ∷ repo ∷ []) =
    if equal_fold owner (text "SemRels") then by_segment (urls.path_unescape repo) else none
by_path urls _ = none

-- FirstPartyByRepositoryURL
unfoldable pub first_party_by_repository_url : UrlParser → Text → Option FirstPartyPlugin
unfolding first_party_by_name is_exact
first_party_by_repository_url urls repository = elim (urls.parse (trim_space repository)) [
  | none ↦ none
  | some u ↦ if is_exact u then by_path urls (split b'/' (trim_byte b'/' u.escaped_path)) else none
]

-- the keys of one plugin in buildFirstPartyRefIndex
unfoldable pub first_party_refs : FirstPartyPlugin → List Text
first_party_refs p = map to_lower ((first_party_namespace ++ (b'/' ∷ p.name)) ∷ p.aliases)

-- ResolveFirstPartyRef
unfoldable pub resolve_first_party_ref : Text → Option FirstPartyPlugin
unfolding first_party_refs first_party
resolve_first_party_ref ref =
    let key = to_lower (trim_space ref) in
    find (λ p. any (text_eq key) (first_party_refs p))
      (map (λ r. first_party (text r)) first_party_repositories)

-- IsFirstPartyCategory
unfoldable pub is_first_party_category : Text → Bool
is_first_party_category category =
    let key = to_lower (trim_space category) in
    any (λ r. text_eq (cut b'-' (text r)).0 key) first_party_repositories
