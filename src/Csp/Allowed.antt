-- ===== src/Csp/Allowed.antt =====
-- src/services/csp-policy.ts: which origins a policy allows, and which the accounts need.
--
-- `new URL` is the parameter `Platform`, `JSON.stringify` the parameter of the command. A source
-- holds no line terminator, which `.` of a pattern does not match. Letters are ASCII.
pub mod Origins
use couch_companion_ui.Prelude.{
  ◌≡◌, ℕ, Bool, true, false, not, ◌&&◌, ◌||◌, Option, none, some, List, [], ◌∷◌, ◌++◌, map, reverse,
  Text, codes, if◌then◌else◌, ◌===◌, nat_eq, text_eq, is_nil, is_some, contains, add, filter,
  within, lower, strip_prefix?, split_at, trim, option_beq, drop,
}
use couch_companion_ui.SingleServer.{Platform, Url}
use couch_companion_ui.Csp.Edit.{connect_sources}

abbrev pub is_letter : ℕ → Bool
is_letter c = within b'a' b'z' c || within b'A' b'Z' c

-- `[a-z0-9+.-]` without regard to case
unfoldable pub in_scheme : ℕ → Bool
in_scheme c = is_letter c || within b'0' b'9' c || contains c (codes "+.-")

abbrev pub scheme_run : Text → Text
scheme_run [] = []
scheme_run (c ∷ s) = let rest = scheme_run s in if in_scheme c then c ∷ rest else []

abbrev pub behind_scheme : Text → Text
behind_scheme [] = []
behind_scheme (c ∷ s) = let rest = behind_scheme s in if in_scheme c then rest else c ∷ s

-- `/^([a-z][a-z0-9+.-]*)/i`, and what stands behind it
abbrev pub read_scheme : Text → Option (Text × Text)
read_scheme [] = none
read_scheme (c ∷ s) = if is_letter c then some (c ∷ scheme_run s, behind_scheme s) else none

-- `.replace(/\/.*$/, '')`
abbrev pub before_path : Text → Text
before_path [] = []
before_path (c ∷ s) = let rest = before_path s in if c === b'/' then [] else c ∷ rest

abbrev pub ends_with : Text → Text → Bool
ends_with suffix s = is_some (strip_prefix? (reverse suffix) (reverse s))

abbrev pub port_allows : List Text → Url → Bool
port_allows [] target = true
port_allows (port ∷ ports) target = port === codes "*" || port === target.port

abbrev pub host_allows : Text → Url → Bool
host_allows host target =
    if host === codes "*"
    then true
    else if is_some (strip_prefix? (codes "*.") host)
    then ends_with (drop 1 host) (map lower target.hostname)
    else host === map lower target.hostname

-- The pieces of `split(':')`.
abbrev pub pieces_allow : List Text → Url → Bool
pieces_allow [] target = false
pieces_allow (host ∷ ports) target = port_allows ports target && host_allows (map lower host) target

abbrev pub rest_allows : Text → Url → Bool
rest_allows without_scheme target = pieces_allow (split_at b':' (before_path without_scheme)) target

abbrev pub scheme_matches : Text → Url → Option (Text × Text) → Bool
scheme_matches source target none = rest_allows source target
scheme_matches source target (some (scheme, rest)) =
    if rest === codes ":"
    then map lower source === target.protocol
    else elim (strip_prefix? (codes "://") rest) [
      | none ↦ rest_allows source target
      | some without_scheme ↦
          (map lower scheme ++ b':' ∷ []) === target.protocol && rest_allows without_scheme target
    ]

unfoldable pub host_source_matches : Text → Url → Bool
host_source_matches source target = scheme_matches source target (read_scheme source)

abbrev pub source_allows : Option Text → Url → Text → Bool
source_allows self_origin target source =
    if source === codes "*"
    then true
    else if source === codes "'self'"
    then option_beq self_origin (some target.origin)
    else if is_some (strip_prefix? (codes "'") source)
    then false
    else host_source_matches source target

abbrev pub any_allows : Option Text → Url → List Text → Bool
any_allows self_origin target [] = false
any_allows self_origin target (source ∷ sources) =
    source_allows self_origin target source || any_allows self_origin target sources

module _ (p : Platform) where
  unfoldable pub is_origin_allowed : Option (List Text) → Text → Option Text → Bool
  is_origin_allowed none origin self_origin = true
  is_origin_allowed (some sources) origin self_origin = elim (p.parse_url origin) [
    | none ↦ false
    | some target ↦ any_allows self_origin target sources
  ]

  unfoldable pub missing_origins : Text → List Text → Option Text → List Text
  missing_origins header origins self_origin =
      filter (λ origin. not (is_origin_allowed (connect_sources header) origin self_origin)) origins

  abbrev pub github_api_origin : Text
  github_api_origin = codes "https://api.github.com"

  -- The origin of one account's `base_url`; `none` where it is skipped.
  abbrev pub account_origin : Option Text → Option Text
  account_origin none = some github_api_origin
  account_origin (some base_url) =
      if is_nil (trim base_url)
      then some github_api_origin
      else elim (p.parse_url (trim base_url)) [ none ↦ none | some u ↦ some u.origin ]

  -- The loop over the accounts, each the `base_url` that it has.
  abbrev pub collect_origins : List (Option Text) → List Text → List Text
  collect_origins [] origins = origins
  collect_origins (account ∷ accounts) origins = elim (account_origin account) [
    | none ↦ collect_origins accounts origins
    | some origin ↦ collect_origins accounts (add origin origins)
  ]

  unfoldable pub required_git_origins : List (Option Text) → List Text
  required_git_origins accounts = collect_origins accounts []

-- `replace(/\/+$/, '')`
abbrev pub trim_slashes : Text → Text
trim_slashes [] = []
trim_slashes (c ∷ s) =
    let rest = trim_slashes s in if c === b'/' && is_nil rest then [] else c ∷ rest

unfoldable pub build_csp_curl : (Text → Text) → Text → Text → Text
build_csp_curl stringify base_url header =
    let trimmed = trim_slashes base_url in
    let root = if is_nil trimmed then codes "http://localhost:5984" else trimmed in
    codes "curl -u admin:password -X PUT \\\n  "
    ++ root
    ++ codes
        "/_node/_local/_config/csp/utils_header_value \\\n  -H 'Content-Type: application/json' \\\n  --data-binary @- <<'JSON'\n"
    ++ stringify header
    ++ codes "\nJSON"
