-- ===== src/Csp/Scan.antt =====
-- The parser as one pass from the right over the code units: an independent reading of a header.
use couch_companion_ui.Prelude.{
  ℕ, Bool, ◌||◌, List, [], ◌∷◌, ◌++◌, Text, if◌then◌else◌, ◌===◌, nat_eq, contains, is_space,
}
use couch_companion_ui.Csp.{CspDirective, CspPolicy, make_directive}

abbrev pub is_gap : ℕ → Bool
is_gap c = is_space c || c === b';'

-- A code unit of a directive: it opens a directive if a semicolon or nothing follows it.
abbrev pub open_directive : ℕ → Text → List CspDirective → CspPolicy
open_directive c lead [] = record { lead = []; directives = make_directive (c ∷ []) lead ∷ [] }
open_directive c lead (d ∷ ds) =
    if contains b';' lead
    then record { lead = []; directives = make_directive (c ∷ []) lead ∷ d ∷ ds }
    else record { lead = []; directives = make_directive (c ∷ lead ++ d.raw) d.sep ∷ ds }

abbrev pub scan_unit : ℕ → CspPolicy → CspPolicy
scan_unit c p =
    if is_gap c then record p { lead = c ∷ p.lead } else open_directive c p.lead p.directives

unfoldable pub scan_csp : Text → CspPolicy
scan_csp [] = record { lead = []; directives = [] }
scan_csp (c ∷ s) = scan_unit c (scan_csp s)
