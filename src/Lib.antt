-- ===== src/Lib.antt =====
-- The plugin registry of semrel: an HTTP service that keeps a catalogue of plugins and their
-- released versions. This library models the core of its Go code under api/ and proves what makes
-- it correct.
--
-- Parts and files
--   Prelude      names shared by all modules: tests on numbers, lists, Go's int and int64 (wrap64)
--   Text         Go's strings as lists of bytes, and the functions of the packages strings and
--                strconv that the code calls; letters and white space are those of ASCII
--   Sort         sort.SliceStable and sort.Slice as the insertion sort that they run on short slices
--   Semver       api/service/semver.go: ParseVersion is parse_version, CompareVersions is
--                compare_versions, ParseRange is parse_range, SatisfiesRange is satisfies_range
--   Models       api/models/plugin.go: the records that are stored and passed round
--   Result       api/internal/errors.go, and the form of a method that may fail: it gives a result
--                or an error, and in both cases the state that it leaves
--   Naming       api/naming/firstparty.go: the plugins of the registry's own namespace
--   Repository   api/repository: Disk is the data directory of the file-backed repository, Reads,
--                Writes, Contacts and Filters are the methods of file_repo.go (GetByID is get_by_id,
--                and so on), Versions and Identity the order of the versions and the check of
--                names; Interface is PluginRepository; Soundness is the invariant of the directory,
--                Atomicity is about failures, Storing about what is read back
--   Service      api/service: Patterns, Artifacts, Normal and Validation are the regular expressions,
--                the normalisation and the checks of requests; Lookup, Publishing, Removal, Review
--                and Listing the operations of PluginService over any PluginRepository; Dedup is the
--                table of download_dedup.go
--   Webhooks     api/models/webhook.go and api/repository/webhook_file_repo.go, the store of webhook
--                subscriptions; Address is api/service/webhook_url.go, Subscriptions and Delivery
--                are api/handlers/webhooks.go
--   Auth         api/handlers/auth.go, api/handlers/session.go and api/middleware/auth.go: Config is
--                api/config/security.go and what api/main.go makes of it, Revocation the list of
--                sessions that were ended, Sessions ValidateJWT and sign-out, Middleware the guards
--                RequireAdmin, RequireAuth and OptionalAuth, Links the path that a sign-in returns to
--   Handlers     api/handlers/errors.go, and in Plugins the handlers of api/handlers/plugins.go and
--                api/handlers/yank.go, each named answer_ and its operation; Ownership is
--                api/handlers/ownership.go, Versions the search and the downloads of versions
--   Traffic      api/middleware/ratelimit.go and api/middleware/origin.go
--   Advisories   api/handlers/advisories.go: Ranges the ranges of GitHub, Audit the audit
--   Sync         api/handlers/github_sync.go: the assets and the versions made of releases, Drafts
--
-- How the parts interact: the repository sorts the versions of each plugin that it reads and takes
-- the latest release from them; each of its methods is one step, since it holds the lock of the
-- store from the first read to the last write. The service validates a request, finds the plugin
-- that it names and calls the repository, of which the file-backed one is an instance; a request is
-- a sequence of such steps. The semantic versions decide which plugins a core version can use. The
-- middleware turns a token into the login and the role of the caller, by which the handlers decide
-- what they pass on to the service, and the answer is a value or a status.
--
-- Bounds and fuel: a decimal is printed with twenty rounds, enough for every 64-bit number (the
-- lemma atoi-decimal). The loop of findVersion has fuel for a round per hundred versions and one
-- more, enough by the theorem find_version-search. Everything else recurs on lists. Numbers of
-- plugins and versions are int64 and wrap; the invariant asks that the next plugin number is below
-- the greatest one. Instants of time are numbers of nanoseconds.
--
-- Failures of the disk: each access to a file takes one entry of a schedule in the state, by which
-- the environment decides whether it fails. JSON is not modelled byte by byte: a file is the value
-- that it stands for, without what `omitempty` leaves out. The encoder itself does not fail: the one
-- field that is raw JSON, the validation checks, comes from json.Marshal in every caller. One access stands for all the reads of a
-- directory listing, and one for the temporary file and its rename.
--
-- Parameters: url.Parse and url.PathUnescape of net/url are the record UrlParser; SHA-256 is an
-- argument of dedup_key; the clock is an argument `now`; the hosts from which artifacts may come are
-- an argument `hosts`. The JWT library, HMAC-SHA256, base64, DNS and the methods of net.IP, the HTTP
-- client of the deliveries, GitHub's answers in the proof of ownership and the arithmetic of float64
-- in the rate limiter are arguments too, with no laws but those that a theorem states. A regular
-- expression is the automaton that decides it.
--
-- Not modelled: the PostgreSQL repository (SQL over a third-party driver), routing and JSON, the OAuth
-- exchange, the GitHub API, the front end, texts of error messages and logs.
pub mod Prelude
pub mod Text
pub mod Sort
pub mod Semver
pub mod Naming
pub mod Models
pub mod Result
pub mod Repository
pub mod Service
pub mod Webhooks
pub mod Auth
pub mod Handlers
pub mod Traffic
pub mod Advisories
pub mod Sync
