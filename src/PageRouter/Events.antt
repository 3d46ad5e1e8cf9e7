-- ===== src/PageRouter/Events.antt =====
-- src/router.ts: the router in a tab whose `hashchange` events arrive later.
--
-- `queued` counts the events that have not arrived; the browser queues one for each change of the
-- hash. A method writes the hash at most once.
pub mod Counting
use couch_companion_ui.Prelude.{
  ◌≡◌, ◌≢◌, refl, ap, sym, ◌∙◌, ℕ, zero, suc, ◌+◌, ◌-◌, ◌≤◌, Bool, true, false, not, Option, none,
  some, List, [], ◌∷◌, ◌++◌, Text, if◌then◌else◌, if_rule, ◌===◌, nat_eq, text_eq, ltb, drop,
  ===_ne, ===_refl, ne_of_===, All, All-append, Bool-cases, is_some, ◌&&◌, inl, inr, ◌⊎◌, arith,
}
use couch_companion_ui.PageRouter.Paths.{strip_hash, match_path}
use couch_companion_ui.PageRouter.{
  Route, Redirect, Router, Effect, went_back, Run, add_route, add_redirect, subscribe, unsubscribe,
  target_in, redirect_target, current_path, notify_for, set_hash, resolve_to, resolve, navigate,
  back, count_change, hash_change,
}

pub record Tab : Type 0 where
  pub router : Router
  pub queued : ℕ

-- The event that a change of the hash queues.
abbrev pub changed : Router → Router → ℕ
changed s t = if s.hash === t.hash then 0 else 1

module _ (fragment : Text → Text) where
  -- The browser keeps the text as it is written.
  abbrev pub IsKept : Text → Type 0
  IsKept path = drop 1 (fragment (strip_hash path)) ≡ strip_hash path

  -- The methods with the fuel they need, the user's moves in the history, and the arrival of events.
  pub data Step : Tab → Tab → Type 0 where
    navigated :
        (n : ℕ) (path : Text) (effects : List Effect) {s t : Router} {q : ℕ}
        → IsKept path
        → navigate fragment n path s ≡ some (t, effects)
        → Step (record { router = s; queued = q }) (record { router = t; queued = changed s t + q })
    went :
        (n : ℕ) (fallback : Text) (effects : List Effect) {s t : Router} {q : ℕ}
        → IsKept fallback
        → back fragment n fallback s ≡ some (t, effects)
        → Step (record { router = s; queued = q }) (record { router = t; queued = changed s t + q })
    moved :
        (hash : Text) {s : Router} {q : ℕ}
        → (s.hash === hash) ≡ false
        → Step
            (record { router = s; queued = q })
            (record { router = record s { hash = hash }; queued = suc q })
    arrived :
        (n : ℕ) (effects : List Effect) {s t : Router} {q : ℕ}
        → hash_change fragment n s ≡ some (t, effects)
        → Step
            (record { router = s; queued = suc q })
            (record { router = t; queued = changed s t + q })
    registered :
        (route : Route) {s : Router} {q : ℕ}
        → Step
            (record { router = s; queued = q })
            (record { router = add_route route s; queued = q })
    redirected :
        (from to : Text) {s : Router} {q : ℕ}
        → IsKept to
        → Step
            (record { router = s; queued = q })
            (record { router = add_redirect from to s; queued = q })
    listened :
        (listener : ℕ) {s : Router} {q : ℕ}
        → Step
            (record { router = s; queued = q })
            (record { router = subscribe listener s; queued = q })
    left :
        (listener : ℕ) {s : Router} {q : ℕ}
        → Step
            (record { router = s; queued = q })
            (record { router = unsubscribe listener s; queued = q })

  -- What a page starts with: any hash, nothing registered and no event on its way.
  abbrev pub opened : Text → Tab
  opened hash = record {
    router = record {
      routes = [];
      redirects = [];
      listeners = [];
      depth = 0;
      pending = 0;
      hash = hash;
    };
    queued = 0;
  }

  pub data Reach (hash : Text) : Tab → Type 0 where
    here : Reach hash (opened hash)
    next : {s t : Tab} → Reach hash s → Step s t → Reach hash t
