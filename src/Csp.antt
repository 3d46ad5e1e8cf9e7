-- ===== src/Csp.antt =====
-- src/services/csp-policy.ts: reading and editing a Content-Security-Policy header.
--
-- `\s` is the white space of `trim`. Directive names are compared with three ASCII names only, so
-- `toLowerCase` is written for ASCII. A directive object is its place in the list.
pub mod Scan
mod Attach
mod Chunks
pub mod Parse
pub mod Edit
pub mod Values
mod Reparse
pub mod Allowed
mod Tests
use couch_companion_ui.Prelude.{
  ℕ, Bool, true, false, not, ◌&&◌, ◌||◌, Option, none, some, List, [], ◌∷◌, ◌++◌, map, Text, codes,
  if◌then◌else◌, ◌===◌, nat_eq, text_eq, is_nil, contains, is_space, lower, split_at, push_head,
  flat_map,
}

pub record CspDirective : Type 0 where
  pub name : Text
  pub name_raw : Text
  pub raw : Text
  pub sep : Text

pub record CspPolicy : Type 0 where
  pub lead : Text
  pub directives : List CspDirective

-- `/^\s*/`, and what stands behind it
abbrev pub leading_space : Text → Text
leading_space [] = []
leading_space (c ∷ s) = let rest = leading_space s in if is_space c then c ∷ rest else []

abbrev pub skip_space : Text → Text
skip_space [] = []
skip_space (c ∷ s) = let rest = skip_space s in if is_space c then rest else c ∷ s

-- `replace(/\s+$/, '')`, and what it takes away
abbrev pub trim_end : Text → Text
trim_end [] = []
trim_end (c ∷ s) = let rest = trim_end s in if is_space c && is_nil rest then [] else c ∷ rest

abbrev pub trailing_space : Text → Text
trailing_space [] = []
trailing_space (c ∷ s) =
    let rest = trailing_space s in if is_space c && is_nil (trim_end s) then c ∷ rest else rest

abbrev pub starts_with_space : Text → Bool
starts_with_space [] = false
starts_with_space (c ∷ s) = is_space c

-- `split(/\s+/)`: a run of white space is one separator.
abbrev pub split_space : Text → List Text
split_space [] = [] ∷ []
split_space (c ∷ s) =
    let rest = split_space s in
    if is_space c then if starts_with_space s then rest else [] ∷ rest else push_head c rest

abbrev pub first_of : List Text → Text
first_of [] = []
first_of (t ∷ ts) = t

abbrev pub rest_of : List Text → List Text
rest_of [] = []
rest_of (t ∷ ts) = ts

unfoldable pub make_directive : Text → Text → CspDirective
make_directive raw sep =
    let name_raw = first_of (split_space raw) in
    record { name = map lower name_raw; name_raw = name_raw; raw = raw; sep = sep }

-- `directives[directives.length - 1].sep += sep`
abbrev pub extend_last : Text → List CspDirective → List CspDirective
extend_last sep [] = []
extend_last sep (d ∷ []) = record d { sep = d.sep ++ sep } ∷ []
extend_last sep (d ∷ e ∷ ds) = d ∷ extend_last sep (e ∷ ds)

-- The end of one round: the chunk's body and the separator behind it.
abbrev pub add_chunk : Text → Text → CspPolicy → CspPolicy
add_chunk body sep p =
    if is_nil body
    then if is_nil p.directives
      then record p { lead = p.lead ++ sep }
      else record p { directives = extend_last sep p.directives }
    else record p { directives = p.directives ++ make_directive body sep ∷ [] }

-- The rounds of the loop: `chunk` reaches up to the next semicolon, and `chunks` are those behind
-- it. The white space in front of a chunk belongs to the separator before it.
abbrev pub parse_chunks : Text → List Text → CspPolicy → CspPolicy
parse_chunks chunk [] p = add_chunk (trim_end chunk) (trailing_space chunk) p
parse_chunks chunk (next ∷ chunks) p =
    parse_chunks (skip_space next) chunks
      (add_chunk (trim_end chunk) (trailing_space chunk ++ b';' ∷ leading_space next) p)

abbrev pub parse_split : List Text → CspPolicy → CspPolicy
parse_split [] p = p
parse_split (chunk ∷ chunks) p = parse_chunks chunk chunks p

unfoldable pub parse_csp : Text → CspPolicy
parse_csp header =
    parse_split (split_at b';' (skip_space header))
      (record { lead = leading_space header; directives = [] })

unfoldable pub serialise_csp : CspPolicy → Text
serialise_csp policy = policy.lead ++ flat_map (λ d. d.raw ++ d.sep) policy.directives

abbrev pub directive_values : CspDirective → List Text
directive_values d = rest_of (split_space d.raw)

abbrev pub find_directive : Text → List CspDirective → Option CspDirective
find_directive name [] = none
find_directive name (d ∷ ds) =
    let rest = find_directive name ds in if d.name === name then some d else rest
