-- ===== src/Service/Patterns.antt =====
-- The regular expressions of plugin_service.go, artifact_url.go and notify.go, each as the automaton
-- that decides it.
use semrel_registry.Prelude.{
  ℕ, Bool, true, false, [], ◌∷◌, ◌&&◌, ◌||◌, not, leb, ◌==◌, if◌then◌else◌, all, any, length,
}
use semrel_registry.Text.{Text, text}

abbrev pub is_lower_alnum : ℕ → Bool
is_lower_alnum c = (leb b'a' c && leb c b'z') || (leb b'0' c && leb c b'9')

abbrev pub is_alnum : ℕ → Bool
is_alnum c = is_lower_alnum c || (leb b'A' c && leb c b'Z')

abbrev pub is_name_byte : ℕ → Bool
is_name_byte c = is_alnum c || c == b'.' || c == b'_' || c == b'-'

-- pluginNamePattern: ^[A-Za-z0-9][A-Za-z0-9._-]*$
unfoldable pub matches_name : Text → Bool
matches_name [] = false
matches_name (c ∷ s) = is_alnum c && all is_name_byte s

-- what namespacePattern asks behind the @ and one character; `ended` says that the last one read is
-- a letter or a digit
unfoldable pub namespace_tail : Bool → Text → Bool
namespace_tail ended [] = ended
namespace_tail ended (c ∷ s) =
    let word = namespace_tail true s in
    let dash = namespace_tail false s in
    if is_lower_alnum c then word else if c == b'-' then dash else false

-- namespacePattern: ^@[a-z0-9]+(?:[a-z0-9-]*[a-z0-9])?$
unfoldable pub matches_namespace : Text → Bool
unfolding namespace_tail
matches_namespace (a ∷ c ∷ s) = a == b'@' && is_lower_alnum c && namespace_tail true s
matches_namespace _ = false

abbrev is_hex : ℕ → Bool
is_hex c = (leb b'a' c && leb c b'f') || (leb b'A' c && leb c b'F') || (leb b'0' c && leb c b'9')

-- sha256Pattern: ^[a-fA-F0-9]{64}$
unfoldable pub matches_sha256 : Text → Bool
matches_sha256 s = length s == 64 && all is_hex s

-- the class [^\s@<>,;:"\\] of emailPattern
abbrev is_plain : ℕ → Bool
is_plain c = not (any (λ d. c == d) (9 ∷ 10 ∷ 12 ∷ 13 ∷ 32 ∷ text "@<>,;:\"\\"))

abbrev is_letter : ℕ → Bool
is_letter c = (leb b'a' c && leb c b'z') || (leb b'A' c && leb c b'Z')

-- its part behind the @: plain characters, a dot, and at least two letters; `started` says that a
-- plain character stands before
unfoldable pub matches_domain : Bool → Text → Bool
matches_domain started [] = false
matches_domain started (c ∷ s) =
    let longer = matches_domain true s in
    (started && c == b'.' && leb 2 (length s) && all is_letter s) || (is_plain c && longer)

-- its part before the @, of which `started` says that a character stands before
unfoldable pub matches_local : Bool → Text → Bool
unfolding matches_domain
matches_local started [] = false
matches_local started (c ∷ s) =
    let longer = matches_local true s in
    if c == b'@' then started && matches_domain false s else is_plain c && longer

-- emailPattern: ^[^\s@<>,;:"\\]+@[^\s@<>,;:"\\]+\.[A-Za-z]{2,}$
unfoldable pub matches_email : Text → Bool
unfolding matches_local
matches_email s = matches_local false s
