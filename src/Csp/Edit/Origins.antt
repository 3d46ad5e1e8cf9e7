-- ===== src/Csp/Edit/Origins.antt =====
-- src/services/csp-policy.ts: what `addConnectSrcOrigins` allows, and what it leaves as it was.
use mathlib.Core.Path.{subst}
use couch_companion_ui.Prelude.{
  ◌≡◌, refl, ap, sym, ◌∙◌, Option, none, some, List, [], option_or, Text, nat_eq, text_eq, All,
  Option-cases, inl, inr,
}
use couch_companion_ui.Csp.{
  CspDirective, CspPolicy, parse_csp, find_directive, directive_values, rest_of,
}
use couch_companion_ui.Csp.Reparse.{AreDirectives, parse-IsPolicy}
use couch_companion_ui.Csp.Values.{IsWord, IsBody}
use couch_companion_ui.Csp.Edit.{
  connect_src, default_src, with_directive, seeded, values_of, governing, connect_sources,
  add_connect_src_origins,
}
use couch_companion_ui.Csp.Edit.Seeding.{seeded-HasWords, source-with_same, added_to, reparsed}
use couch_companion_ui.Csp.Edit.Words.{values_in, add_all, add_values-HasWords, words_of}
use couch_companion_ui.Csp.Edit.Sources.{
  source_of, raw_of, or_else, edited, find-source, source-edit, source-IsBody, IsBodyIn,
}

abbrev words_in : Option Text → Option (List Text)
words_in none = none
words_in (some raw) = some (values_in raw)

abbrev first_list : Option (List Text) → Option (List Text) → Option (List Text)
first_list none p = p
first_list (some ws) p = some ws

values_of-find :
    (name : Text) (ds : List CspDirective)
    → values_of (find_directive name ds) ≡ words_in (source_of name ds)
values_of-find name ds = go (find_directive name ds) ∙ ap words_in (find-source name ds)
  where
    go : (o : Option CspDirective) → values_of o ≡ words_in (raw_of o)
    go none = refl
    go (some d) = refl

values_of-governing :
    (ds : List CspDirective)
    → values_of (governing connect_src ds)
      ≡ first_list (words_in (source_of connect_src ds)) (values_of (find_directive default_src ds))
values_of-governing ds =
    go (find_directive connect_src ds)
    ∙ ap (λ o. first_list o (values_of (find_directive default_src ds)))
        (values_of-find connect_src ds)
  where
    go :
        (o : Option CspDirective)
        → values_of (elim o [ none ↦ find_directive default_src ds | some d ↦ some d ])
          ≡ first_list (values_of o) (values_of (find_directive default_src ds))
    go none = refl
    go (some d) = refl

option_or-seeded :
    (o : Option CspDirective)
    → option_or (values_of o) [] ≡ elim o [ none ↦ [] | some d ↦ directive_values d ]
option_or-seeded none = refl
option_or-seeded (some d) = refl

-- The directive's text before the origins are added, and its values.
abbrev IsStart : List CspDirective → Text → Type 0
IsStart ds raw =
    IsBody raw
    × (or_else (source_of connect_src ds) (some (seeded connect_src ds).raw) ≡ some raw)
    × (values_in raw ≡ option_or (values_of (governing connect_src ds)) [])

before :
    (ds : List CspDirective) (o : Option Text)
    → source_of connect_src ds ≡ o
    → option_or (values_of (governing connect_src ds)) []
      ≡ option_or (first_list (words_in o) (values_of (find_directive default_src ds))) []
before ds o e =
    ap (λ p. option_or p [])
      (values_of-governing ds
        ∙ ap (λ q. first_list (words_in q) (values_of (find_directive default_src ds))) e)

start : (ds : List CspDirective) → AreDirectives ds → (raw : Text) × IsStart ds raw
start ds h = elim (Option-cases (source_of connect_src ds)) [
  | inl e ↦ (
    (seeded connect_src ds).raw,
    (
      (seeded-HasWords ds h).0,
      ap (λ o. or_else o (some (seeded connect_src ds).raw)) e,
      ap rest_of (seeded-HasWords ds h).1
          ∙ sym (option_or-seeded (find_directive default_src ds))
          ∙ sym (before ds none e),
    ),
  )
  | inr (raw, e) ↦ (
    raw,
    (
      subst IsBodyIn e (source-IsBody connect_src ds h),
      ap (λ o. or_else o (some (seeded connect_src ds).raw)) e,
      sym (before ds (some raw) e),
    ),
  )
]

governing-added :
    (origins : List Text) (ds : List CspDirective) (raw : Text)
    → All IsWord origins
    → IsStart ds raw
    → values_of (governing connect_src (added_to origins ds))
      ≡ some (add_all origins (option_or (values_of (governing connect_src ds)) []))
governing-added origins ds raw k (b, e, v) =
    values_of-governing (added_to origins ds)
    ∙ ap
        (λ o.
          first_list (words_in o) (values_of (find_directive default_src (added_to origins ds))))
        (source-edit connect_src origins (with_directive connect_src ds)
          ∙ ap (edited origins) (source-with_same ds ∙ e))
    ∙ ap (λ ps. some (rest_of ps))
        (add_values-HasWords origins (values_in raw) raw _ (words_of raw b) k).1
    ∙ ap (λ vs. some (add_all origins vs)) v

pub connect_sources-add_from :
    (header : Text) (origins : List Text)
    → All IsWord origins
    → connect_sources (add_connect_src_origins header origins)
      ≡ some (add_all origins (option_or (connect_sources header) []))
unfolding connect_sources
connect_sources-add_from header origins k =
    let (raw, h) = start (parse_csp header).directives (parse-IsPolicy header).1 in
    ap (λ (p : CspPolicy). values_of (governing connect_src p.directives))
      (reparsed header origins k)
    ∙ governing-added origins (parse_csp header).directives raw k h

-- If a list governs `connect-src`, its own or that of `default-src`, then after the edit that list
-- governs it, with each origin behind it that was not in it, once. If none governs it, so that every
-- connection was allowed, then after the edit just the added origins are listed, each once: the edit
-- takes the others away. The origins are words.
pub connect_sources-add :
    (header : Text) (origins : List Text)
    → All IsWord origins
    → ((values : List Text)
        → connect_sources header ≡ some values
        → connect_sources (add_connect_src_origins header origins) ≡ some (add_all origins values))
      × (connect_sources header ≡ none
          → connect_sources (add_connect_src_origins header origins) ≡ some (add_all origins []))
connect_sources-add header origins k = (
  λ values e.
      connect_sources-add_from header origins k
      ∙ ap (λ o. some (add_all origins (option_or o []))) e,
  λ e.
      connect_sources-add_from header origins k
      ∙ ap (λ o. some (add_all origins (option_or o []))) e,
)
