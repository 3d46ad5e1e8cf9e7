-- ===== src/Csp/Reparse.antt =====
-- src/services/csp-policy.ts: what is printed is read back as it was.
use couch_companion_ui.Prelude.{
  ◌≡◌, refl, ap, ap₂, sym, ◌∙◌, ℕ, true, false, ◌||◌, List, [], ◌∷◌, ◌++◌, append-nil, append_assoc,
  Text, if_rule, nat_eq, is_nil, contains, contains-append, flat_map, all, Bool-cases, inl, inr,
  arith,
}
use couch_companion_ui.Csp.{
  CspDirective, CspPolicy, leading_space, skip_space, trailing_space, make_directive, parse_csp,
  serialise_csp,
}
use couch_companion_ui.Csp.Scan.{is_gap, open_directive, scan_csp}
use couch_companion_ui.Csp.Chunks.{scan-chunk, scan-gap, leading-skip, behind, behind_body}
use couch_companion_ui.Csp.Parse.{parse_csp-scan}
use couch_companion_ui.Csp.Values.{IsBody, word-IsBody, trim_end-append, trailing-nil}

-- A directive as the parser makes it.
abbrev pub IsDirective : CspDirective → Type 0
IsDirective d = (d ≡ make_directive d.raw d.sep) × IsBody d.raw × (all is_gap d.sep ≡ true)

-- A semicolon stands between two directives.
abbrev pub AreDirectives : List CspDirective → Type 0
AreDirectives [] = Unit
AreDirectives (d ∷ ds) =
    IsDirective d × ((is_nil ds || contains b';' d.sep) ≡ true) × AreDirectives ds

abbrev pub IsPolicy : CspPolicy → Type 0
IsPolicy p = (all is_gap p.lead ≡ true) × AreDirectives p.directives

skip-body : (s : Text) → leading_space s ≡ [] → skip_space s ≡ s
skip-body s h = ap (λ l. l ++ skip_space s) (sym h) ∙ leading-skip s

behind-body :
    (s : Text) (p : CspPolicy)
    → IsBody s
    → behind s p ≡ record { lead = []; directives = make_directive s p.lead ∷ p.directives }
behind-body s p (n, l, t, h) =
    behind_body s p (ap is_nil t ∙ n)
    ∙ ap
        (λ b. record {
          lead = leading_space s;
          directives = make_directive b (trailing_space s ++ p.lead) ∷ p.directives;
        })
        (ap skip_space t ∙ skip-body s l)
    ∙ ap₂ (λ l u. record { lead = l; directives = make_directive s (u ++ p.lead) ∷ p.directives }) l
        (trailing-nil s t)

scan-directives :
    (ds : List CspDirective)
    → AreDirectives ds
    → scan_csp (flat_map (λ d. d.raw ++ d.sep) ds) ≡ record { lead = []; directives = ds }
unfolding scan_csp
scan-directives [] h = refl
scan-directives (d ∷ ds) ((e, b, g), c, h) = one (scan-directives ds h)
  where
    one :
        scan_csp (flat_map (λ d. d.raw ++ d.sep) ds) ≡ record { lead = []; directives = ds }
        → scan_csp (flat_map (λ d. d.raw ++ d.sep) (d ∷ ds))
          ≡ record { lead = []; directives = d ∷ ds }
    one rest =
        let after : scan_csp (d.sep ++ flat_map (λ d. d.raw ++ d.sep) ds)
            ≡ record { lead = d.sep; directives = ds } =
          scan-gap d.sep (flat_map (λ d. d.raw ++ d.sep) ds) g
          ∙ ap (λ (p : CspPolicy). record { lead = d.sep ++ p.lead; directives = p.directives })
              rest
          ∙ ap (λ l. record { lead = l; directives = ds }) (append-nil d.sep) in
        ap scan_csp (append_assoc d.raw d.sep (flat_map (λ d. d.raw ++ d.sep) ds))
        ∙ scan-chunk d.raw (d.sep ++ flat_map (λ d. d.raw ++ d.sep) ds) b.3
            (ap (λ (p : CspPolicy). is_nil p.directives || contains b';' p.lead) after ∙ c)
        ∙ ap (behind d.raw) after
        ∙ behind-body d.raw (record { lead = d.sep; directives = ds }) b
        ∙ ap (λ x. record { lead = []; directives = x ∷ ds }) (sym e)

-- Printing a policy and reading it gives the policy back.
pub parse-serialise : (p : CspPolicy) → IsPolicy p → parse_csp (serialise_csp p) ≡ p
unfolding serialise_csp
parse-serialise p (g, h) =
    parse_csp-scan (p.lead ++ flat_map (λ d. d.raw ++ d.sep) p.directives)
    ∙ scan-gap p.lead (flat_map (λ d. d.raw ++ d.sep) p.directives) g
    ∙ ap (λ (q : CspPolicy). record { lead = p.lead ++ q.lead; directives = q.directives })
        (scan-directives p.directives h)
    ∙ ap (λ l. record { lead = l; directives = p.directives }) (append-nil p.lead)

unit-IsBody : (c : ℕ) → is_gap c ≡ false → IsBody (c ∷ [])
unit-IsBody c h = word-IsBody (c ∷ []) (refl, ground (arith, h), ground (arith, h))

joined-IsBody :
    (c : ℕ) (lead raw : Text)
    → is_gap c ≡ false
    → contains b';' lead ≡ false
    → IsBody raw
    → IsBody (c ∷ lead ++ raw)
joined-IsBody c lead raw g h (n, l, t, m) = (
  refl,
  ground (arith, g),
  trim_end-append (c ∷ lead) raw n t,
  ground (arith, g, contains-append b';' lead raw, h, m),
)

open-IsPolicy :
    (c : ℕ) (lead : Text) (ds : List CspDirective)
    → is_gap c ≡ false
    → all is_gap lead ≡ true
    → AreDirectives ds
    → IsPolicy (open_directive c lead ds)
unfolding make_directive
open-IsPolicy c lead [] g h w = (refl, ((refl, unit-IsBody c g, h), refl, tt))
open-IsPolicy c lead (d ∷ ds) g h ((e, b, k), o, w) = elim (Bool-cases (contains b';' lead)) [
  | inl s ↦ rw s (refl, ((refl, unit-IsBody c g, h), s, ((e, b, k), o, w)))
  | inr s ↦ rw s (refl, ((refl, joined-IsBody c lead d.raw g s b, k), o, w))
]

scan-IsPolicy : (s : Text) → IsPolicy (scan_csp s)
unfolding scan_csp
scan-IsPolicy [] = (refl, tt)
scan-IsPolicy (c ∷ s) =
    if_rule IsPolicy (is_gap c) (λ g. (ground (arith, g, (scan-IsPolicy s).0), (scan-IsPolicy s).1))
      (λ g.
        open-IsPolicy c (scan_csp s).lead (scan_csp s).directives g (scan-IsPolicy s).0
          (scan-IsPolicy s).1)

-- What the parser gives is a policy.
pub parse-IsPolicy : (header : Text) → IsPolicy (parse_csp header)
parse-IsPolicy header = rw (parse_csp-scan header) (scan-IsPolicy header)
