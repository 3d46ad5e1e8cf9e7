-- ===== src/Csp/Edit/Others.antt =====
-- src/services/csp-policy.ts: the directives that `addConnectSrcOrigins` does not touch.
use couch_companion_ui.Prelude.{
  ◌≡◌, refl, ap, ◌∙◌, true, List, [], ◌∷◌, Text, ◌===◌, text_eq, if◌then◌else◌, All, Bool-cases,
  Option-cases, inl, inr,
}
use couch_companion_ui.Csp.{CspDirective, CspPolicy, parse_csp, find_directive}
use couch_companion_ui.Csp.Values.{IsWord}
use couch_companion_ui.Csp.Edit.{
  connect_src, append_behind, separator_style, edit_first, add_to, with_directive, seeded,
  add_connect_src_origins,
}
use couch_companion_ui.Csp.Edit.Seeding.{reparsed}

-- The directives that are no `connect-src`, in order, each by its name and text.
abbrev pub others : List CspDirective → List (Text × Text)
others [] = []
others (d ∷ ds) =
    let rest = others ds in if d.name === connect_src then rest else (d.name, d.raw) ∷ rest

others-edit :
    (origins : List Text) (ds : List CspDirective)
    → others (edit_first connect_src (add_to origins) ds) ≡ others ds
others-edit origins [] = refl
others-edit origins (d ∷ ds) = elim (Bool-cases (d.name === connect_src)) [
  | inl same ↦ rw same (rw same refl)
  | inr other ↦ rw other (rw other (ap (λ l. (d.name, d.raw) ∷ l) (others-edit origins ds)))
]

-- An appended `connect-src` stands behind them.
others-append :
    (style : Text) (x : CspDirective) (ds : List CspDirective)
    → (x.name === connect_src) ≡ true
    → others (append_behind style x ds) ≡ others ds
others-append style x [] h = rw h refl
others-append style x (d ∷ []) h = rw h refl
others-append style x (d ∷ e ∷ ds) h =
    ap (λ l. if d.name === connect_src then l else (d.name, d.raw) ∷ l)
      (others-append style x (e ∷ ds) h)

others-with : (ds : List CspDirective) → others (with_directive connect_src ds) ≡ others ds
others-with ds = elim (Option-cases (find_directive connect_src ds)) [
  | inl e ↦
      rw (e, with_directive) (others-append (separator_style ds) (seeded connect_src ds) ds refl)
  | inr (d, e) ↦ rw (e, with_directive) refl
]

-- Every directive of the header that is no `connect-src` is still there, in the same order and with the
-- text that it had, and no other such directive has come; this holds for directives of one name too.
-- The origins are words.
pub others-add_origins :
    (header : Text) (origins : List Text)
    → All IsWord origins
    → others (parse_csp (add_connect_src_origins header origins)).directives
      ≡ others (parse_csp header).directives
others-add_origins header origins k =
    ap (λ (p : CspPolicy). others p.directives) (reparsed header origins k)
    ∙ others-edit origins (with_directive connect_src (parse_csp header).directives)
    ∙ others-with (parse_csp header).directives
