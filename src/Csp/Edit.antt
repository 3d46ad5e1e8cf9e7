-- ===== src/Csp/Edit.antt =====
-- src/services/csp-policy.ts: the edits of a policy.
--
-- A directive that the source holds by reference is its index here. A value that is dropped is not
-- empty and does not begin with white space.
pub mod Adding
pub mod Words
pub mod Sources
mod Seeding
pub mod Origins
pub mod Others
use couch_companion_ui.Prelude.{
  ℕ, zero, suc, ◌+◌, Bool, true, false, not, ◌&&◌, ◌||◌, Option, none, some, List, [], ◌∷◌, ◌++◌,
  map, Text, codes, if◌then◌else◌, ◌===◌, nat_eq, nat_beq, text_eq, is_nil, contains, is_space,
  length, all, strip_prefix?, text_ltb, get_last?,
}
use couch_companion_ui.Csp.{
  CspDirective, CspPolicy, leading_space, skip_space, starts_with_space, make_directive, parse_csp,
  serialise_csp, directive_values, find_directive,
}

abbrev pub connect_src : Text
connect_src = codes "connect-src"

abbrev pub default_src : Text
default_src = codes "default-src"

abbrev pub script_src : Text
script_src = codes "script-src"

abbrev pub unsafe_eval : Text
unsafe_eval = codes "'unsafe-eval'"

abbrev pub find_index : Text → List CspDirective → Option ℕ
find_index name [] = none
find_index name (d ∷ ds) =
    let rest : Option ℕ = elim (find_index name ds) [ none ↦ none | some i ↦ some (suc i) ] in
    if d.name === name then some 0 else rest

abbrev pub get_elem? {ℓ} : {A : Type ℓ} → List A → ℕ → Option A
get_elem? [] i = none
get_elem? (x ∷ xs) zero = some x
get_elem? (x ∷ xs) (suc i) = get_elem? xs i

abbrev pub update_at : ℕ → (CspDirective → CspDirective) → List CspDirective → List CspDirective
update_at i f [] = []
update_at zero f (d ∷ ds) = f d ∷ ds
update_at (suc i) f (d ∷ ds) = d ∷ update_at i f ds

abbrev pub separator_style : List CspDirective → Text
separator_style [] = codes "; "
separator_style (d ∷ []) = codes "; "
separator_style (d ∷ e ∷ ds) = if is_nil d.sep then separator_style (e ∷ ds) else d.sep

-- The new directive takes over the separator of the last one.
abbrev pub append_behind : Text → CspDirective → List CspDirective → List CspDirective
append_behind style directive [] = directive ∷ []
append_behind style directive (d ∷ []) =
    record d { sep = style } ∷ record directive { sep = d.sep } ∷ []
append_behind style directive (d ∷ e ∷ ds) = d ∷ append_behind style directive (e ∷ ds)

abbrev pub append_directive : CspDirective → List CspDirective → List CspDirective
append_directive directive ds = append_behind (separator_style ds) directive ds

-- The one before it inherits the separator.
abbrev pub remove_directive : ℕ → List CspDirective → List CspDirective
remove_directive i [] = []
remove_directive zero (d ∷ ds) = ds
remove_directive (suc i) (d ∷ []) = d ∷ []
remove_directive (suc zero) (d ∷ e ∷ ds) = record d { sep = e.sep } ∷ ds
remove_directive (suc (suc i)) (d ∷ e ∷ ds) = d ∷ remove_directive (suc i) (e ∷ ds)

-- `value(?=\s|$)` at the beginning of a text
abbrev pub stands_first : Text → Text → Bool
stands_first value s = elim (strip_prefix? value s) [
  | none ↦ false
  | some rest ↦ is_nil rest || starts_with_space rest
]

-- The text behind the first `n` units, where every `\s+value(?=\s|$)` is left out.
abbrev pub drop_matches : Text → ℕ → Text → Text
drop_matches value n [] = []
drop_matches value (suc n) (c ∷ s) = drop_matches value n s
drop_matches value zero (c ∷ s) =
    let hit = is_space c && stands_first value (skip_space s) in
    let rest = drop_matches value (if hit then length (leading_space s) + length value else 0) s in
    if hit then rest else c ∷ rest

unfoldable pub drop_value : Text → CspDirective → CspDirective
drop_value value d = record d { raw = drop_matches value 0 d.raw }

abbrev insert_text : Text → List Text → List Text
insert_text t [] = t ∷ []
insert_text t (u ∷ us) =
    let rest = insert_text t us in if text_ltb u t then u ∷ rest else t ∷ u ∷ us

abbrev sort_texts : List Text → List Text
sort_texts [] = []
sort_texts (t ∷ ts) = insert_text t (sort_texts ts)

abbrev all_same : List Text → List Text → Bool
all_same [] ts = true
all_same (s ∷ ss) [] = false
all_same (s ∷ ss) (t ∷ ts) = s === t && all_same ss ts

abbrev same_values : List Text → List Text → Bool
same_values a b = nat_beq (length a) (length b) && all_same (sort_texts a) (sort_texts b)

abbrev redundant : List Text → Option CspDirective → Bool
redundant remaining none = is_nil remaining
redundant remaining (some fallback) = same_values remaining (directive_values fallback)

abbrev drop_if_synthetic : ℕ → List CspDirective → List CspDirective
drop_if_synthetic i ds = elim (get_elem? ds i) [
  | none ↦ ds
  | some d ↦
      if nat_beq (suc i) (length ds)
        && redundant (directive_values d) (find_directive default_src ds)
      then remove_directive i ds
      else ds
]

-- `findDirective(policy, name) ?? findDirective(policy, DEFAULT_SRC)`
abbrev pub governing : Text → List CspDirective → Option CspDirective
governing name ds = elim (find_directive name ds) [
  | none ↦ find_directive default_src ds
  | some d ↦ some d
]

abbrev pub values_of : Option CspDirective → Option (List Text)
values_of none = none
values_of (some d) = some (directive_values d)

unfoldable pub connect_sources : Text → Option (List Text)
connect_sources header = values_of (governing connect_src (parse_csp header).directives)

unfoldable pub connect_src_values : Text → Option (List Text)
connect_src_values header = values_of (find_directive connect_src (parse_csp header).directives)

-- `join(' ')`
abbrev pub join_spaced : List Text → Text
join_spaced [] = []
join_spaced (t ∷ []) = t
join_spaced (t ∷ u ∷ ts) = t ++ b' ' ∷ join_spaced (u ∷ ts)

abbrev pub seeded_values : List CspDirective → List Text
seeded_values ds = elim (find_directive default_src ds) [ none ↦ [] | some d ↦ directive_values d ]

abbrev pub seeded : Text → List CspDirective → CspDirective
seeded name ds = record {
  name = name;
  name_raw = name;
  raw = join_spaced (name ∷ seeded_values ds);
  sep = [];
}

-- The directive `name`, appended first where it is absent.
abbrev pub with_directive : Text → List CspDirective → List CspDirective
with_directive name ds = elim (find_directive name ds) [
  | none ↦ append_directive (seeded name ds) ds
  | some d ↦ ds
]

abbrev pub edit_first : Text → (CspDirective → CspDirective) → List CspDirective → List CspDirective
edit_first name f [] = []
edit_first name f (d ∷ ds) =
    let rest = edit_first name f ds in if d.name === name then f d ∷ ds else d ∷ rest

-- The loop over the origins; `present` is the set.
abbrev pub add_values : List Text → List Text → Text → Text
add_values [] present raw = raw
add_values (origin ∷ origins) present raw =
    if contains origin present
    then add_values origins present raw
    else add_values origins (present ++ origin ∷ []) (raw ++ b' ' ∷ origin)

abbrev pub add_to : List Text → CspDirective → CspDirective
add_to origins d = record d { raw = add_values origins (directive_values d) d.raw }

unfoldable pub add_connect_src_origins : Text → List Text → Text
add_connect_src_origins header origins =
    let policy = parse_csp header in
    serialise_csp (record policy {
      directives =
          edit_first connect_src (add_to origins) (with_directive connect_src policy.directives);
    })

abbrev pub drop_values : List Text → CspDirective → CspDirective
drop_values [] d = d
drop_values (origin ∷ origins) d = drop_values origins (drop_value origin d)

unfoldable pub remove_connect_src_origins : Text → List Text → Text
remove_connect_src_origins header origins =
    let policy = parse_csp header in
    elim (find_index connect_src policy.directives) [
      | none ↦ header
      | some i ↦ serialise_csp (record policy {
        directives = drop_if_synthetic i (update_at i (drop_values origins) policy.directives);
      })
    ]

unfoldable pub script_src_allows_eval : Text → Bool
script_src_allows_eval header = elim (governing script_src (parse_csp header).directives) [
  | none ↦ true
  | some d ↦ contains unsafe_eval (directive_values d)
]

abbrev pub allow_eval : CspDirective → CspDirective
allow_eval d =
    if contains unsafe_eval (directive_values d)
    then d
    else record d { raw = d.raw ++ b' ' ∷ unsafe_eval }

abbrev forbid_eval : ℕ → CspDirective → List CspDirective → List CspDirective
forbid_eval i d ds =
    if contains unsafe_eval (directive_values d)
    then drop_if_synthetic i (update_at i (drop_value unsafe_eval) ds)
    else ds

unfoldable pub set_unsafe_eval : Text → Bool → Text
set_unsafe_eval header true =
    let policy = parse_csp header in
    serialise_csp (record policy {
      directives = edit_first script_src allow_eval (with_directive script_src policy.directives);
    })
set_unsafe_eval header false =
    let policy = parse_csp header in
    elim (find_index script_src policy.directives) [
      | none ↦ header
      | some i ↦ elim (get_elem? policy.directives i) [
        | none ↦ header
        | some d ↦ serialise_csp (record policy { directives = forbid_eval i d policy.directives })
      ]
    ]
