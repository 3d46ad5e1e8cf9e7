-- ===== src/PageRouter/Sorting.antt =====
-- src/router.ts: `sort` by specificity, and the first of the routes that pass a test.
use couch_companion_ui.Prelude.{
  ◌≡◌, refl, ap, sym, ◌∙◌, ◌≤◌, Bool, false, Option, none, some, List, [], ◌∷◌, ◌++◌, if◌then◌else◌,
  if_rule, leb, leb→le, All, All-mono, Bool-cases, inl, inr, arith,
}
use couch_companion_ui.PageRouter.Paths.{specificity}
use couch_companion_ui.PageRouter.{Route, Router, insert_route, sort_routes, add_route, add_routes}

abbrev IsBelow : Route → Route → Type 0
IsBelow r q = specificity q.path ≤ specificity r.path

-- Most specific first.
abbrev pub IsSorted : List Route → Type 0
IsSorted [] = Unit
IsSorted (r ∷ rs) = All (IsBelow r) rs × IsSorted rs

All-insert :
    (P : Route → Type 0) (r : Route) (rs : List Route) → P r → All P rs → All P (insert_route r rs)
All-insert P r [] p h = (p, tt)
All-insert P r (q ∷ qs) p (x, h) =
    if_rule (All P) (leb (specificity q.path) (specificity r.path)) (λ _. (p, (x, h)))
      (λ _. (x, All-insert P r qs p h))

insert-IsSorted : (r : Route) (rs : List Route) → IsSorted rs → IsSorted (insert_route r rs)
insert-IsSorted r [] s = (tt, tt)
insert-IsSorted r (q ∷ qs) (a, s) =
    if_rule IsSorted (leb (specificity q.path) (specificity r.path))
      (λ h. (
        (
          leb→le (specificity q.path) (specificity r.path) h,
          All-mono (λ g k. omega (arith, k, leb→le (specificity q.path) (specificity r.path) h)) qs
              a,
        ),
        (a, s),
      ))
      (λ h. (All-insert (IsBelow q) r qs (ground (arith, h)) a, insert-IsSorted r qs s))

pub sort_routes-IsSorted : (rs : List Route) → IsSorted (sort_routes rs)
unfolding sort_routes
sort_routes-IsSorted [] = tt
sort_routes-IsSorted (r ∷ rs) = insert-IsSorted r (sort_routes rs) (sort_routes-IsSorted rs)

-- The first of two routes, unless the second is more specific.
abbrev pub pick : Option Route → Option Route → Option Route
pick none o = o
pick (some a) none = some a
pick (some a) (some b) = if leb (specificity b.path) (specificity a.path) then some a else some b

pick_assoc : (o p q : Option Route) → pick (pick o p) q ≡ pick o (pick p q)
pick_assoc none p q = refl
pick_assoc (some a) none q = refl
pick_assoc (some a) (some b) none = ground arith
pick_assoc (some a) (some b) (some c) = ground arith

pick-none : (o : Option Route) → pick o none ≡ o
pick-none none = refl
pick-none (some a) = refl

module _ (passes : Route → Bool) where
  abbrev pub first_route : List Route → Option Route
  first_route [] = none
  first_route (r ∷ rs) = let rest = first_route rs in if passes r then some r else rest

  abbrev only : Route → Option Route
  only r = if passes r then some r else none

  -- The first of the most specific.
  abbrev pub most_specific : List Route → Option Route
  most_specific [] = none
  most_specific (r ∷ rs) = pick (only r) (most_specific rs)

  most_specific-append :
      (rs qs : List Route) → most_specific (rs ++ qs) ≡ pick (most_specific rs) (most_specific qs)
  most_specific-append [] qs = refl
  most_specific-append (r ∷ rs) qs =
      ap (pick (only r)) (most_specific-append rs qs)
      ∙ sym (pick_assoc (only r) (most_specific rs) (most_specific qs))

  pick_swap :
      (r q : Route) (o : Option Route)
      → leb (specificity q.path) (specificity r.path) ≡ false
      → pick (only q) (pick (only r) o) ≡ pick (only r) (pick (only q) o)
  pick_swap r q none h = ground arith
  pick_swap r q (some b) h = ground arith

  most_specific-insert :
      (r : Route) (rs : List Route)
      → most_specific (insert_route r rs) ≡ pick (only r) (most_specific rs)
  most_specific-insert r [] = refl
  most_specific-insert r (q ∷ qs) =
      elim (Bool-cases (leb (specificity q.path) (specificity r.path))) [
        | inl h ↦ rw h refl
        | inr h ↦
            rw h
              (ap (pick (only q)) (most_specific-insert r qs) ∙ pick_swap r q (most_specific qs) h)
      ]

  most_specific-sort : (rs : List Route) → most_specific (sort_routes rs) ≡ most_specific rs
  unfolding sort_routes
  most_specific-sort [] = refl
  most_specific-sort (r ∷ rs) =
      most_specific-insert r (sort_routes rs) ∙ ap (pick (only r)) (most_specific-sort rs)

  pick-below :
      (r : Route) (rs : List Route) → All (IsBelow r) rs → pick (some r) (most_specific rs) ≡ some r
  pick-below r [] h = refl
  pick-below r (q ∷ qs) (k, h) =
      sym (pick_assoc (some r) (only q) (most_specific qs))
      ∙ ap (λ o. pick o (most_specific qs)) here
      ∙ pick-below r qs h
    where
      here : pick (some r) (only q) ≡ some r
      here = ground (arith, k)

  -- In a sorted list the first is the most specific.
  first-most_specific : (rs : List Route) → IsSorted rs → first_route rs ≡ most_specific rs
  first-most_specific [] s = refl
  first-most_specific (r ∷ rs) (a, s) = elim (Bool-cases (passes r)) [
    | inl h ↦ rw h (sym (pick-below r rs a))
    | inr h ↦ rw h (first-most_specific rs s)
  ]

  first-add_routes :
      (rs : List Route) (s : Router)
      → IsSorted s.routes
      → first_route (add_routes rs s).routes ≡ pick (most_specific s.routes) (most_specific rs)
  unfolding add_route
  first-add_routes [] s h =
      first-most_specific s.routes h ∙ sym (pick-none (most_specific s.routes))
  first-add_routes (r ∷ rs) s h =
      first-add_routes rs (add_route r s) (sort_routes-IsSorted (s.routes ++ r ∷ []))
      ∙ ap (λ o. pick o (most_specific rs))
          (most_specific-sort (s.routes ++ r ∷ [])
            ∙ most_specific-append s.routes (r ∷ [])
            ∙ ap (pick (most_specific s.routes)) (pick-none (only r)))
      ∙ pick_assoc (most_specific s.routes) (only r) (most_specific rs)

  -- The routes are sorted whenever one is added, and the first that passes is the most specific.
  pub first-added :
      (rs : List Route) (s : Router)
      → s.routes ≡ []
      → first_route (add_routes rs s).routes ≡ most_specific rs
  first-added rs s h =
      first-add_routes rs s (rw h tt) ∙ ap (λ qs. pick (most_specific qs) (most_specific rs)) h
