-- ===== src/PageRouter/Matching.antt =====
-- src/router.ts: which route a path gets, whatever the order of registration.
use couch_companion_ui.Prelude.{
  ◌≡◌, refl, ap, sym, ◌∙◌, Bool, true, Option, none, some, List, [], ◌∷◌, Text, if◌then◌else◌,
  if_rule, leb, length, Dict, is_some, Bool-cases, Option-cases, inl, inr, arith,
}
use couch_companion_ui.PageRouter.Paths.{segments, specificity, static_count, match_path}
use couch_companion_ui.PageRouter.{Route, Router, add_routes, match_in, match_route, spread}
use couch_companion_ui.PageRouter.Sorting.{first_route, most_specific, first-added, pick}

abbrev matches : Text → Route → Bool
matches path r = is_some (match_path r.path path)

-- Of two routes that match, the one with more static segments, and else the earlier one.
abbrev prefer : Route → Option Route → Option Route
prefer r none = some r
prefer r (some q) = if leb (static_count q.path) (static_count r.path) then some r else some q

-- The routes in the order of registration.
abbrev pub best_route : Text → List Route → Option Route
best_route path [] = none
best_route path (r ∷ rs) =
    let rest = best_route path rs in if matches path r then prefer r rest else rest

abbrev pub matched : Text → Option Route → Option (Route × Dict Text Text)
matched path none = none
matched path (some r) = elim (match_path r.path path) [
  | none ↦ none
  | some params ↦ some (r, spread r.params params)
]

match_in-first :
    (path : Text) (rs : List Route)
    → match_in rs path ≡ matched path (first_route (matches path) rs)
match_in-first path [] = refl
match_in-first path (r ∷ rs) = elim (Option-cases (match_path r.path path)) [
  | inl h ↦ rw (h, match_in) (match_in-first path rs)
  | inr (params, h) ↦ rw (h, match_in) (rw (h, matched) refl)
]

matches-length :
    (path : Text) (r : Route)
    → matches path r ≡ true
    → length (segments r.path) ≡ length (segments path)
unfolding match_path
matches-length path r h = ground (arith, h)

abbrev Fits : Text → Option Route → Type 0
Fits path none = Unit
Fits path (some q) = length (segments q.path) ≡ length (segments path)

specificity-le :
    (q r : Route)
    → length (segments q.path) ≡ length (segments r.path)
    → leb (specificity q.path) (specificity r.path)
      ≡ leb (static_count q.path) (static_count r.path)
unfolding specificity
specificity-le q r h = ground (arith, h)

best_route-Fits : (path : Text) (rs : List Route) → Fits path (best_route path rs)
best_route-Fits path [] = tt
best_route-Fits path (r ∷ rs) =
    if_rule (Fits path) (matches path r)
      (λ h. prefer-Fits (best_route path rs) (best_route-Fits path rs) (matches-length path r h))
      (λ h. best_route-Fits path rs)
  where
    prefer-Fits :
        (o : Option Route)
        → Fits path o
        → length (segments r.path) ≡ length (segments path)
        → Fits path (prefer r o)
    prefer-Fits none f h = h
    prefer-Fits (some q) f h =
        if_rule (Fits path) (leb (static_count q.path) (static_count r.path)) (λ _. h) (λ _. f)

prefer-pick :
    (path : Text) (r : Route) (o : Option Route)
    → length (segments r.path) ≡ length (segments path)
    → Fits path o
    → prefer r o ≡ pick (some r) o
prefer-pick path r none h f = refl
prefer-pick path r (some q) h f =
    ap (λ b. if b then some r else some q) (sym (specificity-le q r (f ∙ sym h)))

-- Of the routes that match one path, the most specific is the one with the most static segments.
best-most_specific :
    (path : Text) (rs : List Route) → best_route path rs ≡ most_specific (matches path) rs
best-most_specific path [] = refl
best-most_specific path (r ∷ rs) = elim (Bool-cases (matches path r)) [
  | inl h ↦ rw h (
      prefer-pick path r (best_route path rs) (matches-length path r h) (best_route-Fits path rs)
      ∙ ap (pick (some r)) (best-most_specific path rs))
  | inr h ↦ rw h (best-most_specific path rs)
]

-- The match of a path is the one of the route that has the most static segments among the routes
-- which match it, and of those with as many the one registered first. The router has no routes
-- before `routes` are added.
pub match_route-best :
    (path : Text) (routes : List Route) (s : Router)
    → s.routes ≡ []
    → match_route path (add_routes routes s) ≡ matched path (best_route path routes)
unfolding match_route
match_route-best path routes s h =
    match_in-first path (add_routes routes s).routes
    ∙ ap (matched path)
        (first-added (matches path) routes s h ∙ sym (best-most_specific path routes))
