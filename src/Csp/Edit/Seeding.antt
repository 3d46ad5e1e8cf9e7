-- ===== src/Csp/Edit/Seeding.antt =====
-- src/services/csp-policy.ts: a `connect-src` that is seeded from `default-src`.
use mathlib.Core.Path.{subst}
use couch_companion_ui.Prelude.{
  ◌≡◌, refl, ap, sym, ◌∙◌, Option, none, some, List, [], map, Text, nat_eq, text_eq, is_space,
  lower, All, Option-cases, inl, inr,
}
use couch_companion_ui.Csp.{
  CspDirective, make_directive, parse_csp, find_directive, directive_values, first_of,
}
use couch_companion_ui.Csp.Reparse.{IsDirective, AreDirectives, parse-serialise, parse-IsPolicy}
use couch_companion_ui.Csp.Values.{IsWord, values-AreWords}
use couch_companion_ui.Csp.Edit.{
  connect_src, default_src, separator_style, edit_first, add_to, with_directive, seeded,
  seeded_values, add_connect_src_origins,
}
use couch_companion_ui.Csp.Edit.Words.{HasWords, join_spaced-HasWords}
use couch_companion_ui.Csp.Edit.Sources.{
  source_of, raw_of, or_else, find-source, source-append, edit-AreDirectives, style-IsSeparator,
  append-AreDirectives, IsFound, find-IsFound,
}

found-AreWords :
    (o : Option CspDirective)
    → IsFound o
    → All IsWord (elim o [ none ↦ [] | some d ↦ directive_values d ])
found-AreWords none h = tt
found-AreWords (some d) (m, b, g) = values-AreWords d.raw b

connect_src-IsWord : IsWord connect_src
unfolding is_space
connect_src-IsWord = (refl, refl, refl)

pub seeded-HasWords :
    (ds : List CspDirective)
    → AreDirectives ds
    → HasWords (seeded connect_src ds).raw connect_src (seeded_values ds)
seeded-HasWords ds h =
    join_spaced-HasWords connect_src (seeded_values ds) connect_src-IsWord
      (found-AreWords (find_directive default_src ds) (find-IsFound default_src ds h))

seeded-IsDirective :
    (ds : List CspDirective) → AreDirectives ds → IsDirective (seeded connect_src ds)
unfolding make_directive
seeded-IsDirective ds h = (
  ap (λ n. record { name = map lower n; name_raw = n; raw = (seeded connect_src ds).raw; sep = [] })
      (sym (ap first_of (seeded-HasWords ds h).1)),
  (seeded-HasWords ds h).0,
  refl,
)

with-AreDirectives :
    (ds : List CspDirective) → AreDirectives ds → AreDirectives (with_directive connect_src ds)
with-AreDirectives ds h = elim (Option-cases (find_directive connect_src ds)) [
  | inl e ↦
      rw (e, with_directive)
        (append-AreDirectives (separator_style ds) (seeded connect_src ds) ds
          (style-IsSeparator ds h).0 (style-IsSeparator ds h).1 (seeded-IsDirective ds h) h)
  | inr (d, e) ↦ rw (e, with_directive) h
]

pub source-with_same :
    (ds : List CspDirective)
    → source_of connect_src (with_directive connect_src ds)
      ≡ or_else (source_of connect_src ds) (some (seeded connect_src ds).raw)
source-with_same ds = elim (Option-cases (find_directive connect_src ds)) [
  | inl e ↦
      rw (e, with_directive)
        (source-append connect_src (separator_style ds) (seeded connect_src ds) ds)
  | inr (d, e) ↦
      rw (e, with_directive)
        (subst (λ o. o ≡ or_else o (some (seeded connect_src ds).raw)) (there d e) refl)
]
  where
    there :
        (d : CspDirective)
        → find_directive connect_src ds ≡ some d
        → some d.raw ≡ source_of connect_src ds
    there d e = sym (ap raw_of e) ∙ find-source connect_src ds

-- The directives after the edit.
abbrev pub added_to : List Text → List CspDirective → List CspDirective
added_to origins ds = edit_first connect_src (add_to origins) (with_directive connect_src ds)

pub reparsed :
    (header : Text) (origins : List Text)
    → All IsWord origins
    → parse_csp (add_connect_src_origins header origins)
      ≡ record (parse_csp header) { directives = added_to origins (parse_csp header).directives }
unfolding add_connect_src_origins
reparsed header origins k = parse-serialise _ (
  (parse-IsPolicy header).0,
  edit-AreDirectives connect_src origins _ k (with-AreDirectives _ (parse-IsPolicy header).1),
)
