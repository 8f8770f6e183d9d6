-- ===== src/Handlers/Bypass.antt =====
-- Which URLs pass the proof of ownership of api/handlers/ownership.go, whose owner and name
-- ownerRepoFromURL of api/handlers/github_sync.go reads off the end of the URL.
use semrel_registry.Prelude.{
  ◌≡◌, refl, ap, ◌∙◌, Bool, true, false, List, [], ◌∷◌, ◌++◌, if◌then◌else◌,
}
use semrel_registry.Text.{Text, text, split, trim_space, trim_suffix, is_empty}
use semrel_registry.Text.Equality.{equal_fold_refl}
use semrel_registry.Text.Split.{Without, split-append, split-Without, split-between}
use semrel_registry.Handlers.Identity.{Context, last_two, owner_repo_from_url}
use semrel_registry.Handlers.Ownership.{
  GitHub, lacks_proof, unproven_owner, verify_repository_ownership,
}

last_two-append : (xs : List Text) (a b : Text) → last_two (xs ++ (a ∷ b ∷ [])) ≡ (a, b)
last_two-append [] a b = refl
last_two-append (x ∷ []) a b = refl
last_two-append (x ∷ y ∷ []) a b = refl
last_two-append (x ∷ y ∷ z ∷ xs) a b = last_two-append (y ∷ z ∷ xs) a b

-- the URL `prefix/login/name`
abbrev pub ending_in : Text → Text → Text → Text
ending_in prefix login name = prefix ++ (b'/' ∷ login ++ (b'/' ∷ name))

-- The URL has no white space around it, no slash and no .git at its end.
abbrev pub IsTidy : Text → Type 0
IsTidy url = trim_suffix (trim_suffix (trim_space url) (text "/")) (text ".git") ≡ url

owner_repo_from_url-ending_in :
    (prefix login name : Text)
    → IsTidy (ending_in prefix login name)
    → Without b'/' login
    → Without b'/' name
    → owner_repo_from_url (ending_in prefix login name) ≡ (login, name)
unfolding owner_repo_from_url
owner_repo_from_url-ending_in prefix login name tidy l n =
    ap (λ u. last_two (split b'/' u)) tidy
    ∙ ap last_two (
        split-between b'/' prefix (login ++ (b'/' ∷ name))
        ∙ ap (λ parts. split b'/' prefix ++ parts)
            (split-append b'/' login name l
              ∙ ap (λ parts. login ∷ parts) (split-Without b'/' name n)))
    ∙ last_two-append (split b'/' prefix) login name

own_account :
    (gh : GitHub) (c : Context) (name : Text)
    → is_empty (trim_space c.login) ≡ false
    → is_empty (trim_space name) ≡ false
    → unproven_owner gh c (c.login, name) ≡ false
unfolding unproven_owner verify_repository_ownership
own_account gh c name some_login some_name =
    rw (some_login, some_name, equal_fold_refl (trim_space c.login)) (go c.is_admin)
  where
    go : (b : Bool) → (if b then false else false) ≡ false
    go true = refl
    go false = refl

-- Whatever stands in front, SubmitPlugin takes the ownership of a repository as proved if its URL
-- ends in a slash, the submitter's own login, a slash and any name, where the URL has no white space
-- around it and no slash or .git at its end, and login and name hold no slash and are not blank.
pub lacks_proof-ending_in :
    (gh : GitHub) (c : Context) (prefix name : Text)
    → IsTidy (ending_in prefix c.login name)
    → Without b'/' c.login
    → Without b'/' name
    → is_empty (trim_space c.login) ≡ false
    → is_empty (trim_space name) ≡ false
    → lacks_proof gh c (ending_in prefix c.login name) ≡ false
unfolding lacks_proof
lacks_proof-ending_in gh c prefix name tidy l n some_login some_name =
    ap (unproven_owner gh c) (owner_repo_from_url-ending_in prefix c.login name tidy l n)
    ∙ own_account gh c name some_login some_name
