-- ===== src/PageRouter.antt =====
-- src/router.ts: the client-side router, its routes and redirects and its count of navigations.
--
-- A listener is its identity; what it does when it is called is outside, and it does not call the
-- router while it is notified. The browser's part is the value that `location.hash` reads back after
-- a text is written to it, the parameter `fragment`; the list of hash changes whose event has not
-- arrived is kept in Events.
mod Paths
mod Sorting
pub mod Matching
pub mod Resolving
pub mod Events
mod Tests
unfoldable pub use Paths.*
use couch_companion_ui.Prelude.{
  ◌≡◌, ℕ, zero, suc, ◌+◌, ◌-◌, Bool, true, false, not, ◌&&◌, Option, none, some, List, [], ◌∷◌,
  ◌++◌, map, Text, if◌then◌else◌, ◌===◌, nat_eq, text_eq, leb, ltb, is_nil, is_some, drop, Dict,
  set, add, remove,
}

pub record Route : Type 0 where
  pub path : Text
  pub component : Text
  pub label : Option Text
  pub allows_all_servers : Option Bool
  pub params : Dict Text Text

pub record Redirect : Type 0 where
  pub from : Text
  pub to : Text

-- `hash` is what `location.hash` reads.
pub record Router : Type 0 where
  pub routes : List Route
  pub redirects : List Redirect
  pub listeners : List ℕ
  pub depth : ℕ
  pub pending : ℕ
  pub hash : Text

pub data Effect : Type 0 where
  notified : ℕ → Option Route → Dict Text Text → Effect
  went_back : Effect

abbrev pub Run : Type 0
Run = Option (Router × List Effect)

-- The comparison of `sort`, which is stable.
abbrev pub insert_route : Route → List Route → List Route
insert_route r [] = r ∷ []
insert_route r (q ∷ qs) =
    if leb (specificity q.path) (specificity r.path) then r ∷ q ∷ qs else q ∷ insert_route r qs

unfoldable pub sort_routes : List Route → List Route
sort_routes [] = []
sort_routes (r ∷ rs) = insert_route r (sort_routes rs)

unfoldable pub add_route : Route → Router → Router
add_route route s = record s { routes = sort_routes (s.routes ++ route ∷ []) }

abbrev pub add_routes : List Route → Router → Router
add_routes [] s = s
add_routes (route ∷ routes) s = add_routes routes (add_route route s)

abbrev pub add_redirect : Text → Text → Router → Router
add_redirect from to s = record s {
  redirects = s.redirects ++ record { from = from; to = to } ∷ [];
}

abbrev pub subscribe : ℕ → Router → Router
subscribe listener s = record s { listeners = add listener s.listeners }

abbrev pub unsubscribe : ℕ → Router → Router
unsubscribe listener s = record s { listeners = remove listener s.listeners }

-- `{ ...constant, ...params }`
abbrev pub spread : Dict Text Text → Dict Text Text → Dict Text Text
spread constant [] = constant
spread constant ((k, v) ∷ params) = spread (set k v constant) params

abbrev pub match_in : List Route → Text → Option (Route × Dict Text Text)
match_in [] path = none
match_in (route ∷ routes) path =
    let rest = match_in routes path in
    elim (match_path route.path path) [
      | none ↦ rest
      | some params ↦ some (route, spread route.params params)
    ]

unfoldable pub match_route : Text → Router → Option (Route × Dict Text Text)
match_route path s = match_in s.routes path

abbrev pub notify : Option Route → Dict Text Text → Router → List Effect
notify route params s = map (λ l. notified l route params) s.listeners

unfoldable pub notify_for : Text → Router → List Effect
notify_for path s = elim (match_route path s) [
  | none ↦ notify none [] s
  | some (route, params) ↦ notify (some route) params s
]

abbrev pub target_in : List Redirect → Text → Option Text
target_in [] path = none
target_in (r ∷ rs) path =
    let rest = target_in rs path in
    if not (r.to === path) && is_some (match_path r.from path) then some r.to else rest

unfoldable pub redirect_target : Text → Router → Option Text
redirect_target path s = target_in s.redirects path

unfoldable pub current_path : Router → Text
current_path s = hash_path s.hash

abbrev pub current_query : Router → Text
current_query s = hash_query s.hash

-- The listener of `hashchange`, before it resolves.
abbrev pub count_change : Router → Router
count_change s =
    if ltb 0 s.pending
    then record s { pending = s.pending - 1 }
    else record s { depth = s.depth - 1 }

module _ (fragment : Text → Text) where
  -- `resolve` is the method as far as its fuel reaches; the flag tells whether the hash changed.
  abbrev pub set_hash : (Router → Run) → Text → Router → Option (Router × List Effect × Bool)
  set_hash resolve path s =
      let target = strip_hash path in
      if drop 1 s.hash === target
      then elim (resolve s) [ none ↦ none | some (t, effects) ↦ some (t, effects, false) ]
      else some (record s { pending = suc s.pending; hash = fragment target }, [], true)

  abbrev pub resolve_to : (Router → Run) → Option Text → Router → Run
  resolve_to resolve none s = some (s, notify_for (current_path s) s)
  resolve_to resolve (some target) s = elim (set_hash resolve target s) [
    | none ↦ none
    | some (t, effects, changed) ↦ some (t, effects ++ notify_for target t)
  ]

  unfoldable pub resolve : ℕ → Router → Run
  resolve zero s = none
  resolve (suc n) s = resolve_to (resolve n) (redirect_target (current_path s) s) s

  unfoldable pub navigate : ℕ → Text → Router → Run
  navigate n path s = elim (set_hash (resolve n) path s) [
    | none ↦ none
    | some (t, effects, true) ↦ some (record t { depth = suc t.depth }, effects)
    | some (t, effects, false) ↦ some (t, effects)
  ]

  unfoldable pub back : ℕ → Text → Router → Run
  back n fallback s =
      let away = navigate n fallback s in if ltb 0 s.depth then some (s, went_back ∷ []) else away

  unfoldable pub hash_change : ℕ → Router → Run
  hash_change n s = resolve n (count_change s)
