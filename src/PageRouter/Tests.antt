-- ===== src/PageRouter/Tests.antt =====
-- Tests of the router, with the shell's redirects and routes that compete.
use couch_companion_ui.Prelude.{
  ◌≡◌, refl, ◌≤◌, none, some, List, [], ◌∷◌, flat_map, Text, codes, if◌then◌else◌, ◌===◌, nat_eq,
}
use couch_companion_ui.PageRouter.Paths.{segments, specificity, static_count, match_path}
use couch_companion_ui.PageRouter.{
  Route, Router, notified, add_route, add_routes, add_redirect, redirect_target, current_path,
  notify_for, match_route, sort_routes, resolve, navigate, hash_change,
}
use couch_companion_ui.PageRouter.Matching.{best_route, matched, match_route-best}
use couch_companion_ui.PageRouter.Resolving.{
  writes_nothing, resolved, resolve_lem, redirect_settles,
}
use couch_companion_ui.PageRouter.Events.{navigated, arrived, moved, listened, here, next}
use couch_companion_ui.PageRouter.Events.Counting.{Reach-pending}

-- A browser that keeps every text, and one that writes a blank as `%20`.
abbrev as_written : Text → Text
as_written t = b'#' ∷ t

abbrev percent : Text → Text
percent t = b'#' ∷ flat_map (λ c. if c === b' ' then codes "%20" else c ∷ []) t

abbrev page : Text → Text → Route
page path component = record {
  path = path;
  component = component;
  label = none;
  allows_all_servers = none;
  params = [];
}

abbrev empty_router : Text → Router
empty_router hash = record {
  routes = [];
  redirects = [];
  listeners = 7 ∷ [];
  depth = 0;
  pending = 0;
  hash = hash;
}

abbrev user_pages : List Route
user_pages =
    page (codes "/users/:id") (codes "list")
    ∷ page (codes "/users/new") (codes "create")
    ∷ page (codes "/:area/:id") (codes "any")
    ∷ page (codes "/") (codes "home")
    ∷ []

abbrev shell : Text → Router
shell hash = add_redirect (codes "/servers") (codes "/") (
    add_redirect (codes "/servers/:serverId") (codes "/")
      (add_routes user_pages (empty_router hash)))

match_new :
    match_route (codes "/users/new") (shell [])
    ≡ some (page (codes "/users/new") (codes "create"), [])
unfolding match_route add_route sort_routes specificity static_count segments match_path
match_new = refl

match_id :
    match_route (codes "/users/ann/") (shell [])
    ≡ some (page (codes "/users/:id") (codes "list"), (codes "id", codes "ann") ∷ [])
unfolding match_route add_route sort_routes specificity static_count segments match_path
match_id = refl

match_route-best_example :
    match_route (codes "/users/new") (add_routes user_pages (empty_router []))
    ≡ matched (codes "/users/new") (best_route (codes "/users/new") user_pages)
match_route-best_example = match_route-best (codes "/users/new") user_pages (empty_router []) refl

-- A redirect whose target has a query, on the page that it leads to.
abbrev looping : Router
looping = add_redirect (codes "/old") (codes "/old?tab=1") (empty_router (codes "#/old?tab=1"))

resolve_loop : resolve as_written 5 looping ≡ none
unfolding resolve redirect_target current_path match_path segments
resolve_loop = refl

resolve_lem_example : resolve as_written 5 looping ≡ (
    if writes_nothing (redirect_target (current_path looping) looping) looping
    then none
    else some (resolved as_written (redirect_target (current_path looping) looping) looping))
resolve_lem_example = resolve_lem as_written 4 looping

redirect_settles_example :
    (t : Router) × (resolve as_written 1 (shell (codes "#/servers/a"))
      ≡ some (t, notify_for (codes "/") (shell (codes "#/servers/a"))))
    × (hash_change as_written 1 t
        ≡ some (
          record (shell (codes "#/servers/a")) { hash = codes "#/" },
          notify_for (codes "/") (shell (codes "#/servers/a")),
        ))
unfolding redirect_target current_path match_path segments add_route
redirect_settles_example =
    redirect_settles as_written 0 (shell (codes "#/servers/a")) (codes "/") refl
      ((refl, refl), ((refl, refl), tt)) refl refl refl

-- The event of its own change has arrived, the user's move has not.
arrived_first : 0 ≤ 1
unfolding navigate hash_change resolve redirect_target current_path notify_for match_route
    match_path segments
arrived_first =
    Reach-pending as_written {hash = codes "#/a"}
      {t = record {
        router = record {
          routes = [];
          redirects = [];
          listeners = 7 ∷ [];
          depth = 1;
          pending = 0;
          hash = codes "#/c";
        };
        queued = 1;
      }}
      (next
        (next (next (next here (listened 7)) (navigated 0 (codes "/b") [] refl refl))
          (moved (codes "#/c") refl))
        (arrived 1 (notified 7 none [] ∷ []) refl))

-- The browser writes a blank as `%20`: going to the same path again changes no hash and so queues no
-- event, but it is counted.
navigate_twice :
    navigate percent 1 (codes "/a b") (record (empty_router (codes "#/a%20b")) { depth = 1 })
    ≡ some (record (empty_router (codes "#/a%20b")) { depth = 2; pending = 1 }, [])
unfolding navigate
navigate_twice = refl
