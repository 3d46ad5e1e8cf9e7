-- ===== src/Csp/Edit/Adding.antt =====
-- src/services/csp-policy.ts: a directive that is appended can be taken away again.
use couch_companion_ui.Prelude.{◌≡◌, refl, ap, List, [], ◌∷◌, Text, length}
use couch_companion_ui.Csp.{CspDirective}
use couch_companion_ui.Csp.Edit.{append_behind, append_directive, remove_directive, separator_style}

remove-append_behind :
    (style : Text) (d : CspDirective) (ds : List CspDirective)
    → remove_directive (length ds) (append_behind style d ds) ≡ ds
remove-append_behind style d [] = refl
remove-append_behind style d (e ∷ []) = refl
remove-append_behind style d (e ∷ f ∷ []) = refl
remove-append_behind style d (e ∷ f ∷ g ∷ ds) =
    ap (λ es. e ∷ es) (remove-append_behind style d (f ∷ g ∷ ds))

-- `removeDirective` of the directive that `appendDirective` put at the end gives back the directives
-- that were there before, each with the separator that it had.
pub remove-append_directive :
    (directive : CspDirective) (ds : List CspDirective)
    → remove_directive (length ds) (append_directive directive ds) ≡ ds
remove-append_directive directive ds = remove-append_behind (separator_style ds) directive ds
