-- ===== src/PageRouter/Paths.antt =====
-- src/router.ts: the functions on paths and hashes.
use couch_companion_ui.Prelude.{
  ℕ, ◌+◌, ◌*◌, Bool, false, not, Option, none, some, List, [], ◌∷◌, Text, if◌then◌else◌, ◌===◌,
  nat_eq, text_eq, nat_beq, filter, length, is_nil, split_at, drop, Dict, set,
}

-- `split('/').filter(Boolean)`
unfoldable pub segments : Text → List Text
segments path = filter (λ part. not (is_nil part)) (split_at b'/' path)

abbrev pub is_param : Text → Bool
is_param [] = false
is_param (c ∷ s) = c === b':'

unfoldable pub static_count : Text → ℕ
static_count path = length (filter (λ part. not (is_param part)) (segments path))

unfoldable pub specificity : Text → ℕ
specificity path = static_count path * 1000 + length (segments path)

-- `startsWith('#') ? slice(1) : …`
abbrev pub strip_hash : Text → Text
strip_hash [] = []
strip_hash (c ∷ s) = if c === b'#' then s else c ∷ s

-- What stands before the first question mark, and what stands behind it.
abbrev pub before_query : Text → Text
before_query [] = []
before_query (c ∷ s) = let rest = before_query s in if c === b'?' then [] else c ∷ rest

abbrev pub behind_query : Text → Text
behind_query [] = []
behind_query (c ∷ s) = let rest = behind_query s in if c === b'?' then s else rest

abbrev pub root_path : Text → Text
root_path [] = b'/' ∷ []
root_path (c ∷ s) = c ∷ s

-- The two parts of `parseHash`.
abbrev pub hash_path : Text → Text
hash_path hash = root_path (before_query (strip_hash hash))

abbrev pub hash_query : Text → Text
hash_query hash = behind_query (strip_hash hash)

-- The loop over the segments; the two lists are equally long.
abbrev pub match_segments : List Text → List Text → Dict Text Text → Option (Dict Text Text)
match_segments [] parts params = some params
match_segments (p ∷ ps) [] params = none
match_segments (p ∷ ps) (part ∷ parts) params =
    if is_param p
    then match_segments ps parts (set (drop 1 p) part params)
    else if p === part
    then match_segments ps parts params
    else none

unfoldable pub match_path : Text → Text → Option (Dict Text Text)
match_path pattern path =
    if nat_beq (length (segments pattern)) (length (segments path))
    then match_segments (segments pattern) (segments path) []
    else none
