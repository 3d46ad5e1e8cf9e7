-- ===== src/Csp/Parse.antt =====
-- The parser's loop over chunks gives what the pass from the right gives.
use couch_companion_ui.Prelude.{
  ◌≡◌, refl, ap, sym, ◌∙◌, ℕ, false, ◌||◌, List, [], ◌∷◌, ◌++◌, append-nil, append_assoc, Text,
  ◌===◌, nat_eq, nat_beq_iff, is_nil, if_rule, contains, split_at, push_head, All, arith,
}
use couch_companion_ui.Csp.{
  CspDirective, CspPolicy, leading_space, skip_space, trim_end, trailing_space, make_directive,
  parse_chunks, parse_split, parse_csp, serialise_csp,
}
use couch_companion_ui.Csp.Scan.{is_gap, open_directive, scan_csp}
use couch_companion_ui.Csp.Attach.{attach, chunk_policy, add_chunk_to, attach-empty}
use couch_companion_ui.Csp.Chunks.{
  leading-skip, leading_of_skip, behind, scan-chunk, scan-gap, leading-gap, chunk-behind,
}

-- The text that is left to the loop.
abbrev rejoin : List Text → Text
rejoin [] = []
rejoin (s ∷ ss) = b';' ∷ s ++ rejoin ss

abbrev HasNoSemicolon : Text → Type 0
HasNoSemicolon s = contains b';' s ≡ false

skip-no_semicolon : (s : Text) → HasNoSemicolon s → HasNoSemicolon (skip_space s)
skip-no_semicolon [] h = refl
skip-no_semicolon (c ∷ s) h = ground (arith, skip-no_semicolon s)

-- The pass over what is left to the loop: the white space of the next chunk goes to the lead.
rejoined :
    (next : Text) (chunks : List Text)
    → scan_csp (rejoin (next ∷ chunks)) ≡ record {
      lead = b';' ∷ leading_space next ++ (scan_csp (skip_space next ++ rejoin chunks)).lead;
      directives = (scan_csp (skip_space next ++ rejoin chunks)).directives;
    }
unfolding scan_csp
rejoined next chunks =
    ap scan_csp (
      ap (λ s. b';' ∷ s ++ rejoin chunks) (sym (leading-skip next))
      ∙ ap (λ s. b';' ∷ s) (append_assoc (leading_space next) (skip_space next) (rejoin chunks)))
    ∙ scan-gap (b';' ∷ leading_space next) (skip_space next ++ rejoin chunks)
        (ground (arith, leading-gap next))

-- The loop before the chunk `chunk`, where `p` is read already.
parse_chunks-scan :
    (chunk : Text) (chunks : List Text) (p : CspPolicy)
    → leading_space chunk ≡ []
    → HasNoSemicolon chunk
    → All HasNoSemicolon chunks
    → parse_chunks chunk chunks p ≡ attach p (scan_csp (chunk ++ rejoin chunks))
unfolding scan_csp
parse_chunks-scan chunk [] p h n ns =
    sym (attach-empty _ _)
    ∙ add_chunk_to (trim_end chunk) (trailing_space chunk) p.lead p.directives
        (record { lead = []; directives = [] })
    ∙ ap (attach p) (
        ap (λ t. attach (chunk_policy (trim_end chunk) t) (record { lead = []; directives = [] }))
          (sym (append-nil (trailing_space chunk)))
        ∙ chunk-behind chunk [] (record { lead = []; directives = [] }) h
        ∙ sym (scan-chunk chunk [] n refl))
parse_chunks-scan chunk (next ∷ chunks) p h n (m, ns) =
    parse_chunks-scan (skip_space next) chunks _ (leading_of_skip next) (skip-no_semicolon next m)
      ns
    ∙ add_chunk_to (trim_end chunk) (trailing_space chunk ++ b';' ∷ leading_space next) p.lead
        p.directives (scan_csp (skip_space next ++ rejoin chunks))
    ∙ ap (attach p) (
        chunk-behind chunk (b';' ∷ leading_space next) (scan_csp (skip_space next ++ rejoin chunks))
          h
        ∙ ap (behind chunk) (sym (rejoined next chunks))
        ∙ sym (
            scan-chunk chunk (rejoin (next ∷ chunks)) n (
              ap (λ p. is_nil p.directives || contains b';' p.lead) (rejoined next chunks)
              ∙ ground arith)))

abbrev IsSplit : List Text → Text → Type 0
IsSplit [] s = ⊥
IsSplit (chunk ∷ chunks) s =
    (chunk ++ rejoin chunks ≡ s)
    × HasNoSemicolon chunk
    × All HasNoSemicolon chunks
    × (leading_space s ≡ [] → leading_space chunk ≡ [])

push_head-IsSplit :
    (c : ℕ) (ss : List Text) (s : Text)
    → (c === b';') ≡ false
    → IsSplit ss s
    → IsSplit (push_head c ss) (c ∷ s)
push_head-IsSplit c [] s h k = absurd k
push_head-IsSplit c (t ∷ ts) s h (e, n, ns, l) =
    (ap (λ u. c ∷ u) e, ground (arith, n), ns, λ m. ground arith)

IsSplit-semicolon :
    (c : ℕ) (ss : List Text) (s : Text) → c ≡ b';' → IsSplit ss s → IsSplit ([] ∷ ss) (c ∷ s)
IsSplit-semicolon c [] s e k = absurd k
IsSplit-semicolon c (t ∷ ts) s e (f, n, ns, l) = (cc (e, f), refl, (n, ns), λ h. refl)

split_at-IsSplit : (s : Text) → IsSplit (split_at b';' s) s
split_at-IsSplit [] = (refl, refl, tt, λ h. refl)
split_at-IsSplit (c ∷ s) =
    if_rule (λ ss. IsSplit ss (c ∷ s)) (c === b';')
      (λ h. IsSplit-semicolon c (split_at b';' s) s ((nat_beq_iff c b';').0 h) (split_at-IsSplit s))
      (λ h. push_head-IsSplit c (split_at b';' s) s h (split_at-IsSplit s))

-- `parseCsp` gives what one pass from the right over the code units gives, in which a semicolon or
-- white space goes to the separator in front of what follows it, and any other code unit opens a
-- directive where a semicolon or nothing stands between it and the next one, and else joins that.
pub parse_csp-scan : (header : Text) → parse_csp header ≡ scan_csp header
unfolding parse_csp
parse_csp-scan header =
    go (split_at b';' (skip_space header)) (split_at-IsSplit (skip_space header))
    ∙ sym (scan-gap (leading_space header) (skip_space header) (leading-gap header))
    ∙ ap scan_csp (leading-skip header)
  where
    go :
        (ss : List Text)
        → IsSplit ss (skip_space header)
        → parse_split ss (record { lead = leading_space header; directives = [] }) ≡ record {
          lead = leading_space header ++ (scan_csp (skip_space header)).lead;
          directives = (scan_csp (skip_space header)).directives;
        }
    go [] k = absurd k
    go (chunk ∷ chunks) (e, n, ns, l) =
        parse_chunks-scan chunk chunks _ (l (leading_of_skip header)) n ns
        ∙ ap (λ s. attach (record { lead = leading_space header; directives = [] }) (scan_csp s)) e

serialise-open :
    (c : ℕ) (lead : Text) (ds : List CspDirective)
    → serialise_csp (open_directive c lead ds)
      ≡ c ∷ serialise_csp (record { lead = lead; directives = ds })
unfolding serialise_csp make_directive
serialise-open c lead [] = refl
serialise-open c lead (d ∷ ds) =
    if_rule
      (λ (p : CspPolicy).
        serialise_csp p ≡ c ∷ serialise_csp (record { lead = lead; directives = d ∷ ds }))
      (contains b';' lead) (λ _. append_assoc (c ∷ []) lead _) (λ _. simp append_assoc)

serialise-scan : (s : Text) → serialise_csp (scan_csp s) ≡ s
unfolding serialise_csp scan_csp
serialise-scan [] = refl
serialise-scan (c ∷ s) =
    if_rule (λ (p : CspPolicy). serialise_csp p ≡ c ∷ s) (is_gap c)
      (λ _. ap (λ t. c ∷ t) (serialise-scan s))
      (λ _.
        serialise-open c (scan_csp s).lead (scan_csp s).directives
        ∙ ap (λ t. c ∷ t) (serialise-scan s))

-- Parsing a header and printing the policy gives the header back, byte for byte.
pub serialise-parse : (header : Text) → serialise_csp (parse_csp header) ≡ header
serialise-parse header = ap serialise_csp (parse_csp-scan header) ∙ serialise-scan header
