-- ===== src/Handlers/Identity.antt =====
-- What the handlers read of a request's context: who calls, numbers in the query, and the owner and
-- the name that a repository's URL spells (api/handlers/plugins.go, api/handlers/github_sync.go).
use semrel_registry.Prelude.{Bool, false, Option, none, some, List, [], ◌∷◌, not, if◌then◌else◌}
use semrel_registry.Prelude.Int.{ℤ}
use semrel_registry.Text.{Text, text, trim_space, trim_suffix, split, equal_fold, is_empty}
use semrel_registry.Text.Number.{atoi}
use semrel_registry.Models.{Plugin, DeleteActor}
use semrel_registry.Handlers.{Handler, reply, stop}

-- the context that the middleware fills: the login, empty where there is none, whether the caller is
-- an administrator, and the role in the claims, empty where there are none
pub record Context : Type 0 where
  pub login : Text
  pub is_admin : Bool
  pub role : Text

-- currentDeleteActor
unfoldable pub current_delete_actor : Context → DeleteActor
current_delete_actor c = record {
  login = c.login;
  role = if is_empty c.role then text "user" else c.role;
  is_admin = c.is_admin;
}

-- the test of the handlers that only the author and administrators may pass
abbrev pub is_stranger : Context → Plugin → Bool
is_stranger c p = if c.is_admin then false else not (equal_fold p.author c.login)

module _ {S : Type 0} where
  unfoldable pub or_bad_request : Option ℤ → Handler S ℤ
  unfolding reply stop
  or_bad_request none = stop 400
  or_bad_request (some n) = reply n

  -- parseQueryInt, of the value that the query has, empty where it has none
  unfoldable pub parse_query_int : Text → ℤ → Handler S ℤ
  unfolding or_bad_request reply
  parse_query_int raw default_value =
      if is_empty (trim_space raw)
      then reply default_value
      else or_bad_request (atoi (trim_space raw))

abbrev pub last_two : List Text → Text × Text
last_two [] = ([], [])
last_two (a ∷ []) = ([], [])
last_two (a ∷ b ∷ []) = (a, b)
last_two (a ∷ b ∷ c ∷ parts) = last_two (b ∷ c ∷ parts)

-- ownerRepoFromURL
unfoldable pub owner_repo_from_url : Text → Text × Text
owner_repo_from_url url =
    last_two (split b'/' (trim_suffix (trim_suffix (trim_space url) (text "/")) (text ".git")))
