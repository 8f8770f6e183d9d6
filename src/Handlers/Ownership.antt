-- ===== src/Handlers/Ownership.antt =====
-- The proof that a submitter controls a repository, api/handlers/ownership.go. GitHub and the base64
-- decoder are parameters. The texts that explain an outcome are left out.
use semrel_registry.Prelude.{
  ℕ, Bool, true, false, Option, none, some, any, keep_if, not, ◌||◌, ◌&&◌, ◌==◌, ltb, if◌then◌else◌,
}
use semrel_registry.Text.{Text, text, text_eq, trim_space, split, equal_fold, is_empty}
use semrel_registry.Handlers.Identity.{Context, owner_repo_from_url}

-- the answer of the contents API for the claim file: its size, content and encoding
pub record ClaimFile : Type 0 where
  pub size : ℕ
  pub content : Text
  pub encoding : Text

pub data ClaimAnswer : Type 0 where
  failed : ClaimAnswer
  status : ℕ → Option ClaimFile → ClaimAnswer

pub record GitHub : Type 0 where
  -- whether GitHub answers 204 for a public member of an organisation
  pub public_member : Text → Text → Bool
  -- what GitHub answers for the claim file of an owner's repository
  pub claim_file : Text → Text → ClaimAnswer
  pub decode_base64 : Text → Option Text

-- the method by which a claim is verified, or how it fails
pub data OwnershipResult : Type 0 where
  account_owner public_org_member claim_in_file : OwnershipResult
  incomplete unreadable unproven : OwnershipResult

-- OwnershipResult.Verified
abbrev pub is_verified : OwnershipResult → Bool
is_verified OwnershipResult.account_owner = true
is_verified OwnershipResult.public_org_member = true
is_verified OwnershipResult.claim_in_file = true
is_verified _ = false

-- decodeGitHubContent
unfoldable pub decode_github_content : GitHub → Text → Text → Option Text
decode_github_content gh content encoding =
    if not (is_empty encoding) && not (text_eq encoding (text "base64"))
    then none
    else gh.decode_base64 (keep_if (λ c. not (c == 10 || c == 13)) content)

abbrev pub names_login : Text → Option Text → Option Bool
names_login login none = none
names_login login (some contents) =
    some (any (λ line. equal_fold (trim_space line) login) (split 10 contents))

unfoldable pub read_claim : GitHub → Text → Option ClaimFile → Option Bool
unfolding decode_github_content
read_claim gh login none = none
read_claim gh login (some f) =
    if ltb 4096 f.size
    then none
    else names_login login (decode_github_content gh f.content f.encoding)

unfoldable pub claim_of : GitHub → Text → ClaimAnswer → Option Bool
unfolding read_claim
claim_of gh login ClaimAnswer.failed = none
claim_of gh login (ClaimAnswer.status code file) =
    if code == 404 then some false else if code == 200 then read_claim gh login file else none

-- claimFileNames; `none` is an error
unfoldable pub claim_file_names : GitHub → Text → Text → Text → Option Bool
unfolding claim_of
claim_file_names gh owner repo login = claim_of gh login (gh.claim_file owner repo)

abbrev pub by_claim : Option Bool → OwnershipResult
by_claim none = OwnershipResult.unreadable
by_claim (some true) = OwnershipResult.claim_in_file
by_claim (some false) = OwnershipResult.unproven

-- VerifyRepositoryOwnership
unfoldable pub verify_repository_ownership : GitHub → Text → Text → Text → OwnershipResult
unfolding claim_file_names
verify_repository_ownership gh raw_login raw_owner raw_repo =
    let login = trim_space raw_login in
    let owner = trim_space raw_owner in
    let repo = trim_space raw_repo in
    if is_empty login || is_empty owner || is_empty repo
    then OwnershipResult.incomplete
    else if equal_fold login owner
    then OwnershipResult.account_owner
    else if gh.public_member owner login
    then OwnershipResult.public_org_member
    else by_claim (claim_file_names gh owner repo login)

unfoldable pub unproven_owner : GitHub → Context → Text × Text → Bool
unfolding verify_repository_ownership
unproven_owner gh c (owner, repo) =
    if c.is_admin
    then false
    else not (is_verified (verify_repository_ownership gh c.login owner repo))

-- the condition under which SubmitPlugin refuses
unfoldable pub lacks_proof : GitHub → Context → Text → Bool
unfolding owner_repo_from_url unproven_owner
lacks_proof gh c repository = unproven_owner gh c (owner_repo_from_url repository)
