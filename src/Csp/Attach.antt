-- ===== src/Csp/Attach.antt =====
-- What a round of the parser does, as putting one policy behind another.
use couch_companion_ui.Prelude.{
  ◌≡◌, refl, ap, sym, ◌∙◌, false, List, [], ◌∷◌, ◌++◌, append-nil, append_assoc, Text,
  if◌then◌else◌, nat_eq, is_nil,
}
use couch_companion_ui.Csp.{CspDirective, CspPolicy, make_directive, extend_last, add_chunk}

pub make_directive-raw : (raw sep : Text) → (make_directive raw sep).raw ≡ raw
unfolding make_directive
make_directive-raw raw sep = refl

pub make_directive-sep : (raw sep : Text) → (make_directive raw sep).sep ≡ sep
unfolding make_directive
make_directive-sep raw sep = refl

-- A policy behind another: its lead is appended to the last separator.
abbrev pub attach_to : Text → List CspDirective → CspPolicy → CspPolicy
attach_to lead [] q = record { lead = lead ++ q.lead; directives = q.directives }
attach_to lead (d ∷ ds) q = record {
  lead = lead;
  directives = extend_last q.lead (d ∷ ds) ++ q.directives;
}

abbrev pub attach : CspPolicy → CspPolicy → CspPolicy
attach p q = attach_to p.lead p.directives q

abbrev pub chunk_policy : Text → Text → CspPolicy
chunk_policy body sep =
    if is_nil body
    then record { lead = sep; directives = [] }
    else record { lead = []; directives = make_directive body sep ∷ [] }

extend_last-nil : (ds : List CspDirective) → extend_last [] ds ≡ ds
extend_last-nil [] = refl
extend_last-nil (d ∷ []) = ap (λ s. record d { sep = s } ∷ []) (append-nil d.sep)
extend_last-nil (d ∷ e ∷ ds) = ap (λ es. d ∷ es) (extend_last-nil (e ∷ ds))

attach_to-some :
    (lead : Text) (ds : List CspDirective) (q : CspPolicy)
    → is_nil ds ≡ false
    → attach_to lead ds q
      ≡ record { lead = lead; directives = extend_last q.lead ds ++ q.directives }
attach_to-some lead [] q h = cc
attach_to-some lead (d ∷ ds) q h = refl

is_nil-extend : (s : Text) (ds : List CspDirective) → is_nil (extend_last s ds) ≡ is_nil ds
is_nil-extend s [] = refl
is_nil-extend s (d ∷ []) = refl
is_nil-extend s (d ∷ e ∷ ds) = refl

extend_last-twice :
    (s t : Text) (ds : List CspDirective)
    → extend_last t (extend_last s ds) ≡ extend_last (s ++ t) ds
extend_last-twice s t [] = refl
extend_last-twice s t (d ∷ []) = ap (λ u. record d { sep = u } ∷ []) (append_assoc d.sep s t)
extend_last-twice s t (d ∷ e ∷ []) =
    ap (λ u. d ∷ record e { sep = u } ∷ []) (append_assoc e.sep s t)
extend_last-twice s t (d ∷ e ∷ f ∷ ds) = ap (λ es. d ∷ es) (extend_last-twice s t (e ∷ f ∷ ds))

extend_last-append_one :
    (s : Text) (ds : List CspDirective) (m : CspDirective)
    → extend_last s (ds ++ m ∷ []) ≡ ds ++ extend_last s (m ∷ [])
extend_last-append_one s [] m = refl
extend_last-append_one s (d ∷ []) m = refl
extend_last-append_one s (d ∷ e ∷ ds) m = ap (λ es. d ∷ es) (extend_last-append_one s (e ∷ ds) m)

is_nil-append_one : (ds : List CspDirective) (m : CspDirective) → is_nil (ds ++ m ∷ []) ≡ false
is_nil-append_one [] m = refl
is_nil-append_one (d ∷ ds) m = refl

pub add_chunk_to :
    (body sep lead : Text) (ds : List CspDirective) (q : CspPolicy)
    → attach (add_chunk body sep (record { lead = lead; directives = ds })) q
      ≡ attach_to lead ds (attach (chunk_policy body sep) q)
add_chunk_to [] sep lead [] q =
    ap (λ l. record { lead = l; directives = q.directives }) (append_assoc lead sep q.lead)
add_chunk_to [] sep lead (d ∷ ds) q =
    attach_to-some lead (extend_last sep (d ∷ ds)) q (is_nil-extend sep (d ∷ ds))
    ∙ ap (λ es. record { lead = lead; directives = es ++ q.directives })
        (extend_last-twice sep q.lead (d ∷ ds))
add_chunk_to (c ∷ body) sep lead [] q =
    ap
      (λ l. record {
        lead = l;
        directives = extend_last q.lead (make_directive (c ∷ body) sep ∷ []) ++ q.directives;
      })
      (sym (append-nil lead))
add_chunk_to (c ∷ body) sep lead (d ∷ ds) q =
    ap (λ es. record { lead = lead; directives = es ++ q.directives })
      (extend_last-append_one q.lead (d ∷ ds) (make_directive (c ∷ body) sep))
    ∙ ap (λ es. record { lead = lead; directives = es })
        (append_assoc (d ∷ ds) (extend_last q.lead (make_directive (c ∷ body) sep ∷ []))
          q.directives)
    ∙ ap
        (λ es. record {
          lead = lead;
          directives =
              es ++ (extend_last q.lead (make_directive (c ∷ body) sep ∷ []) ++ q.directives);
        })
        (sym (extend_last-nil (d ∷ ds)))

pub attach-empty :
    (lead : Text) (ds : List CspDirective)
    → attach_to lead ds (record { lead = []; directives = [] })
      ≡ record { lead = lead; directives = ds }
attach-empty lead [] = ap (λ l. record { lead = l; directives = [] }) (append-nil lead)
attach-empty lead (d ∷ ds) =
    ap (λ es. record { lead = lead; directives = es })
      (append-nil (extend_last [] (d ∷ ds)) ∙ extend_last-nil (d ∷ ds))

pub record_sep : (raw s t : Text) → record (make_directive raw s) { sep = t } ≡ make_directive raw t
unfolding make_directive
record_sep raw s t = refl
