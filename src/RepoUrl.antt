-- ===== src/RepoUrl.antt =====
-- src/services/git/github-provider.ts: `parseRepoUrl`; src/services/design-mgmt-service.ts:
-- `repoIdentity` and `repoNameFromUrl`, on the spellings of a git repository's address. A regular
-- expression is the scan that matches what it matches; an error thrown is `none`.
pub mod Spellings
pub mod Identity
mod Tests
use couch_companion_ui.Prelude.{
  ℕ, Bool, true, false, not, ◌&&◌, ◌||◌, Option, none, some, List, [], ◌∷◌, ◌++◌, map, Text, codes,
  if◌then◌else◌, ◌===◌, nat_eq, text_eq, is_nil, contains, filter, lower, is_space, trim,
  strip_prefix?, split_at, within,
}

pub record RepoUrl : Type 0 where
  pub host : Text
  pub owner : Text
  pub repo : Text

-- A host as it is spelled and the path behind it.
pub record Located : Type 0 where
  pub raw_host : Text
  pub path : Text

-- The longest prefix whose code units pass a test, and what follows it.
abbrev pub take_while : (ℕ → Bool) → Text → Text
take_while p [] = []
take_while p (c ∷ s) = if p c then c ∷ take_while p s else []

abbrev pub drop_while : (ℕ → Bool) → Text → Text
drop_while p [] = []
drop_while p (c ∷ s) = if p c then drop_while p s else c ∷ s

abbrev pub behind : ℕ → Text → Option Text
behind c [] = none
behind c (d ∷ s) = if d === c then some s else none

abbrev pub is_not : ℕ → ℕ → Bool
is_not c d = not (d === c)

-- `split(/[?#]/)[0]`
abbrev pub cut_query : Text → Text
cut_query s = take_while (λ c. is_not b'?' c && is_not b'#' c) s

abbrev pub is_line_end : ℕ → Bool
is_line_end c = contains c (10 ∷ 13 ∷ 0x2028 ∷ 0x2029 ∷ [])

abbrev pub has_line_end : Text → Bool
has_line_end [] = false
has_line_end (c ∷ s) = is_line_end c || has_line_end s

-- `[^@\s/]`
abbrev pub is_user : ℕ → Bool
is_user c = is_not b'@' c && not (is_space c) && is_not b'/' c

-- `[^:/]`
abbrev pub is_scp_host : ℕ → Bool
is_scp_host c = is_not b':' c && is_not b'/' c

abbrev pub is_scheme_char : ℕ → Bool
is_scheme_char c = within b'a' b'z' (lower c)

abbrev pub scp_path : Text → Option Text → Option Located
scp_path host none = none
scp_path host (some path) =
    if is_nil path || has_line_end path
    then none
    else some (record { raw_host = host; path = path })

abbrev pub scp_host : Option Text → Option Located
scp_host none = none
scp_host (some s) =
    if is_nil (take_while is_scp_host s)
    then none
    else scp_path (take_while is_scp_host s) (behind b':' (drop_while is_scp_host s))

-- `/^[^@\s/]+@([^:/]+):(.+)$/`
abbrev pub scp_match : Text → Option Located
scp_match s =
    if is_nil (take_while is_user s) then none else scp_host (behind b'@' (drop_while is_user s))

abbrev pub scheme_path : Text → Option Text → Option Located
scheme_path host none = none
scheme_path host (some path) = some (record { raw_host = host; path = path })

abbrev pub scheme_host : Option Text → Option Located
scheme_host none = none
scheme_host (some s) =
    if is_nil (take_while (is_not b'/') s)
    then none
    else scheme_path (take_while (is_not b'/') s) (behind b'/' (drop_while (is_not b'/') s))

-- `/^[a-z]+:\/\/([^/]+)\//i` and what it leaves
abbrev pub scheme_match : Text → Option Located
scheme_match s =
    if is_nil (take_while is_scheme_char s)
    then none
    else scheme_host (strip_prefix? (codes "://") (drop_while is_scheme_char s))

-- `replace(/\/+$/, '')`
abbrev pub strip_slashes : Text → Text
strip_slashes [] = []
strip_slashes (c ∷ s) =
    let rest = strip_slashes s in if is_nil rest && c === b'/' then [] else c ∷ rest

-- `replace(/\.git$/, '')`
abbrev pub strip_git : Text → Text
strip_git [] = []
strip_git (c ∷ s) = let rest = strip_git s in if c ∷ s === codes ".git" then [] else c ∷ rest

abbrev pub parts_of : Text → List Text
parts_of path = filter (λ part. not (is_nil part)) (split_at b'/' path)

-- `replace(/^[^@]+@/, '')`
abbrev pub strip_user : Text → Text
strip_user s =
    if is_nil (take_while (is_not b'@') s)
    then s
    else elim (behind b'@' (drop_while (is_not b'@') s)) [ none ↦ s | some host ↦ host ]

abbrev pub locate : Text → Option Located → Option Located → Located
locate s (some scp) o = scp
locate s none (some url) = url
locate s none none = record { raw_host = []; path = s }

abbrev pub named : Text → List Text → Option RepoUrl
named host (owner ∷ repo ∷ more) = some (record { host = host; owner = owner; repo = repo })
named host _ = none

abbrev pub read_located : Located → Option RepoUrl
read_located l =
    named (map lower (strip_user l.raw_host)) (parts_of (strip_git (strip_slashes l.path)))

unfoldable pub parse_repo_url : Text → Option RepoUrl
parse_repo_url repo_url =
    let s = cut_query repo_url in read_located (locate s (scp_match s) (scheme_match s))

abbrev pub identity_of : Text → Option RepoUrl → Text
identity_of url none = map lower (trim url)
identity_of url (some u) = map lower (u.host ++ b'/' ∷ (u.owner ++ b'/' ∷ u.repo))

unfoldable pub repo_identity : Text → Text
repo_identity url = identity_of url (parse_repo_url url)

-- `parts.slice(-2).join('/') || url`
abbrev pub last_two : Text → List Text → Text
last_two url [] = url
last_two url (a ∷ []) = a
last_two url (a ∷ b ∷ []) = a ++ b'/' ∷ b
last_two url (a ∷ b ∷ c ∷ parts) = last_two url (b ∷ c ∷ parts)

unfoldable pub repo_name_from_url : Text → Text
repo_name_from_url url = last_two url (parts_of (strip_git (strip_slashes (cut_query url))))
