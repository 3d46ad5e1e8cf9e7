-- ===== src/Csp/Chunks.antt =====
-- What the pass from the right makes of one chunk.
use couch_companion_ui.Prelude.{
  ◌≡◌, refl, ap, ap₂, sym, ◌∙◌, inl, inr, ℕ, true, false, ◌||◌, List, [], ◌∷◌, ◌++◌, append_assoc,
  Text, if◌then◌else◌, nat_eq, nat_beq_iff, is_nil, contains, contains-append, is_space, all,
  Bool-cases, arith,
}
use couch_companion_ui.Csp.{
  CspDirective, CspPolicy, leading_space, skip_space, trim_end, trailing_space, make_directive,
}
use couch_companion_ui.Csp.Scan.{is_gap, open_directive, scan_unit, scan_csp}
use couch_companion_ui.Csp.Attach.{
  make_directive-raw, make_directive-sep, attach, chunk_policy, record_sep,
}

is_space_semicolon : is_space b';' ≡ false
unfolding is_space
is_space_semicolon = refl

pub contains_leading : (s : Text) → contains b';' (leading_space s) ≡ false
contains_leading [] = refl
contains_leading (c ∷ s) = ground (
  arith,
  contains_leading s,
  is_space_semicolon,
  nat_beq_iff c b';',
  ap is_space {x = c} {y = b';'},
)

pub leading-skip : (s : Text) → leading_space s ++ skip_space s ≡ s
leading-skip [] = refl
leading-skip (c ∷ s) = ground (arith, leading-skip s)

pub leading_of_skip : (s : Text) → leading_space (skip_space s) ≡ []
leading_of_skip [] = refl
leading_of_skip (c ∷ s) = ground (arith, leading_of_skip s)

-- A text with a body: its leading white space and the body without it.
leading-trim :
    (s : Text)
    → is_nil (trim_end s) ≡ false
    → leading_space s ++ skip_space (trim_end s) ≡ trim_end s
leading-trim [] h = cc
leading-trim (c ∷ s) h = ground (arith, leading-trim s)

trailing_of_blank : (s : Text) → is_nil (trim_end s) ≡ true → trailing_space s ≡ s
trailing_of_blank [] h = refl
trailing_of_blank (c ∷ s) h = ground (arith, trailing_of_blank s)

-- The pass from the right, where a chunk ends.
abbrev pub IsClosed : CspPolicy → Type 0
IsClosed p = (is_nil p.directives || contains b';' p.lead) ≡ true

abbrev pub behind : Text → CspPolicy → CspPolicy
behind chunk p = if is_nil (trim_end chunk) then record p { lead = chunk ++ p.lead } else record {
  lead = leading_space chunk;
  directives =
      make_directive (skip_space (trim_end chunk)) (trailing_space chunk ++ p.lead) ∷ p.directives;
}

pub open_directive-closed :
    (c : ℕ) (lead : Text) (ds : List CspDirective)
    → (is_nil ds || contains b';' lead) ≡ true
    → open_directive c lead ds
      ≡ record { lead = []; directives = make_directive (c ∷ []) lead ∷ ds }
open_directive-closed c lead [] h = refl
open_directive-closed c lead (d ∷ ds) h = rw h refl

pub open_directive-open :
    (c : ℕ) (lead raw sep : Text) (ds : List CspDirective)
    → contains b';' lead ≡ false
    → open_directive c lead (make_directive raw sep ∷ ds)
      ≡ record { lead = []; directives = make_directive (c ∷ lead ++ raw) sep ∷ ds }
open_directive-open c lead raw sep ds h = rw h (
    ap₂ (λ r t. record { lead = []; directives = make_directive (c ∷ lead ++ r) t ∷ ds })
      (make_directive-raw raw sep) (make_directive-sep raw sep))

-- One code unit before a chunk, white space or not, the chunk blank or not.
space-behind :
    (c : ℕ) (s : Text) (p : CspPolicy)
    → is_space c ≡ true
    → scan_unit c (behind s p) ≡ behind (c ∷ s) p
space-behind c s p h = elim (Bool-cases (is_nil (trim_end s))) [
  | inl blank ↦ rw (h, behind, scan_unit) (rw blank refl)
  | inr body ↦ rw (h, behind, scan_unit) (rw body (rw h refl))
]

behind_unit :
    (c : ℕ) (s : Text) (p : CspPolicy)
    → is_space c ≡ false
    → behind (c ∷ s) p ≡ record {
      lead = [];
      directives = make_directive (c ∷ trim_end s) (trailing_space s ++ p.lead) ∷ p.directives;
    }
behind_unit c s p h = rw (h, behind) (rw h refl)

behind_blank :
    (s : Text) (p : CspPolicy)
    → is_nil (trim_end s) ≡ true
    → behind s p ≡ record { lead = s ++ p.lead; directives = p.directives }
behind_blank s p h = rw (h, behind) refl

pub behind_body :
    (s : Text) (p : CspPolicy)
    → is_nil (trim_end s) ≡ false
    → behind s p ≡ record {
      lead = leading_space s;
      directives =
          make_directive (skip_space (trim_end s)) (trailing_space s ++ p.lead) ∷ p.directives;
    }
behind_body s p h = rw (h, behind) refl

pub is_nil-eq-nil {ℓ} : {A : Type ℓ} (xs : List A) → is_nil xs ≡ true → xs ≡ []
is_nil-eq-nil [] h = refl
is_nil-eq-nil (x ∷ xs) h = cc

pub scan_unit-open :
    (c : ℕ) (p : CspPolicy)
    → is_gap c ≡ false
    → scan_unit c p ≡ open_directive c p.lead p.directives
scan_unit-open c p h = rw (h, scan_unit) refl

unit-behind :
    (c : ℕ) (s : Text) (p : CspPolicy)
    → is_gap c ≡ false
    → is_space c ≡ false
    → contains b';' s ≡ false
    → IsClosed p
    → scan_unit c (behind s p) ≡ behind (c ∷ s) p
unit-behind c s p g h n closed = elim (Bool-cases (is_nil (trim_end s))) [
  | inl blank ↦
      ap (scan_unit c) (behind_blank s p blank)
      ∙ scan_unit-open c _ g
      ∙ open_directive-closed c (s ++ p.lead) p.directives
          (ground (arith, contains-append b';' s p.lead))
      ∙ ap₂
          (λ r t. record {
            lead = [];
            directives = make_directive (c ∷ r) (t ++ p.lead) ∷ p.directives;
          })
          (sym (is_nil-eq-nil (trim_end s) blank)) (sym (trailing_of_blank s blank))
      ∙ sym (behind_unit c s p h)
  | inr body ↦
      ap (scan_unit c) (behind_body s p body)
      ∙ scan_unit-open c _ g
      ∙ open_directive-open c (leading_space s) (skip_space (trim_end s))
          (trailing_space s ++ p.lead) p.directives (contains_leading s)
      ∙ ap
          (λ r. record {
            lead = [];
            directives = make_directive (c ∷ r) (trailing_space s ++ p.lead) ∷ p.directives;
          })
          (leading-trim s body)
      ∙ sym (behind_unit c s p h)
]

-- Before a closed policy, a chunk is what the loop makes of it.
pub scan-chunk :
    (s t : Text)
    → contains b';' s ≡ false
    → IsClosed (scan_csp t)
    → scan_csp (s ++ t) ≡ behind s (scan_csp t)
unfolding scan_csp
scan-chunk [] t h closed = refl
scan-chunk (c ∷ s) t h closed = ap (scan_unit c) (scan-chunk s t (ground arith) closed) ∙ step
  where
    step : scan_unit c (behind s (scan_csp t)) ≡ behind (c ∷ s) (scan_csp t)
    step = elim (Bool-cases (is_space c)) [
      | inl space ↦ space-behind c s (scan_csp t) space
      | inr unit ↦ unit-behind c s (scan_csp t) (ground arith) unit (ground arith) closed
    ]

scan_unit-gap :
    (c : ℕ) (p : CspPolicy)
    → is_gap c ≡ true
    → scan_unit c p ≡ record { lead = c ∷ p.lead; directives = p.directives }
scan_unit-gap c p h = rw (h, scan_unit) refl

pub scan-gap :
    (s t : Text)
    → all is_gap s ≡ true
    → scan_csp (s ++ t)
      ≡ record { lead = s ++ (scan_csp t).lead; directives = (scan_csp t).directives }
unfolding scan_csp
scan-gap [] t h = refl
scan-gap (c ∷ s) t h =
    ap (scan_unit c) (scan-gap s t (ground (arith, h))) ∙ scan_unit-gap c _ (ground (arith, h))

pub leading-gap : (s : Text) → all is_gap (leading_space s) ≡ true
leading-gap [] = refl
leading-gap (c ∷ s) = ground (arith, leading-gap s)

pub chunk-behind :
    (s u : Text) (q : CspPolicy)
    → leading_space s ≡ []
    → attach (chunk_policy (trim_end s) (trailing_space s ++ u)) q
      ≡ behind s (record { lead = u ++ q.lead; directives = q.directives })
chunk-behind s u q h = go (trim_end s) refl
  where
    trimmed : {c : ℕ} {b : Text} → trim_end s ≡ c ∷ b → skip_space (trim_end s) ≡ trim_end s
    trimmed e = ap (λ l. l ++ skip_space (trim_end s)) (sym h) ∙ leading-trim s (ap is_nil e)

    go :
        (b : Text)
        → trim_end s ≡ b
        → attach (chunk_policy b (trailing_space s ++ u)) q
          ≡ behind s (record { lead = u ++ q.lead; directives = q.directives })
    go [] e =
        ap (λ l. record { lead = l; directives = q.directives })
          (append_assoc (trailing_space s) u q.lead
            ∙ ap (λ t. t ++ (u ++ q.lead)) (trailing_of_blank s (ap is_nil e)))
        ∙ sym (behind_blank s _ (ap is_nil e))
    go (c ∷ b) e =
        ap (λ d. record { lead = []; directives = d ∷ q.directives })
          (record_sep (c ∷ b) (trailing_space s ++ u) _
            ∙ ap (make_directive (c ∷ b)) (
                ap (λ t. t ++ q.lead) (make_directive-sep (c ∷ b) (trailing_space s ++ u))
                ∙ append_assoc (trailing_space s) u q.lead))
        ∙ ap₂
            (λ l r. record {
              lead = l;
              directives = make_directive r (trailing_space s ++ (u ++ q.lead)) ∷ q.directives;
            })
            (sym h) (sym e ∙ sym (trimmed e))
        ∙ sym (behind_body s _ (ap is_nil e))
