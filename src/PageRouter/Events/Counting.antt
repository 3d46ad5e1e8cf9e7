-- ===== src/PageRouter/Events/Counting.antt =====
-- src/router.ts: how the count of the router's own changes and the events that are still to arrive
-- go together.
use mathlib.Core.Path.{subst}
use couch_companion_ui.Prelude.{
  ◌≡◌, refl, ap, sym, ◌∙◌, ℕ, zero, suc, ◌+◌, ◌-◌, ◌≤◌, Bool, true, false, not, Option, none, some,
  List, [], ◌∷◌, ◌++◌, Text, if◌then◌else◌, if_rule, ◌===◌, nat_eq, text_eq, ltb, drop, ===_ne,
  ===_refl, ne_of_===, All, All-append, is_some, ◌&&◌, arith,
}
use couch_companion_ui.PageRouter.Paths.{strip_hash, match_path}
use couch_companion_ui.PageRouter.{
  Redirect, Router, Effect, Run, add_route, target_in, redirect_target, current_path, notify_for,
  set_hash, resolve_to, resolve, navigate, back, count_change, hash_change,
}
use couch_companion_ui.PageRouter.Events.{
  Tab, changed, IsKept, Step, navigated, went, moved, arrived, registered, redirected, listened,
  left, Reach, here, next,
}

module _ (fragment : Text → Text) where
  -- The hash is written once or not at all, and each write is counted.
  abbrev Wrote : Router → Router → Type 0
  Wrote s t = (t.pending ≡ changed s t + s.pending) × (t.redirects ≡ s.redirects)

  abbrev OnRun : (Router → Type 0) → Run → Type 0
  OnRun P none = Unit
  OnRun P (some (t, effects)) = P t

  abbrev OnWrite : (Router → Type 0) → Option (Router × List Effect × Bool) → Type 0
  OnWrite P none = Unit
  OnWrite P (some (t, effects, b)) = P t

  abbrev KeptRedirects : Router → Type 0
  KeptRedirects s = All (λ r. IsKept fragment r.to) s.redirects

  Wrote-refl : (s : Router) → Wrote s s
  Wrote-refl s = (rw (===_refl s.hash) (omega arith), refl)

  written-Wrote :
      (path : Text) (s : Router)
      → IsKept fragment path
      → (drop 1 s.hash === strip_hash path) ≡ false
      → Wrote s (record s { pending = suc s.pending; hash = fragment (strip_hash path) })
  written-Wrote path s k h =
      let other =
        ===_ne {a = s.hash} {b = fragment (strip_hash path)}
          (λ e. ne_of_=== h (ap (drop 1) e ∙ k)) in
      (rw other (omega arith), refl)

  set_hash-Wrote :
      (f : Router → Run) (path : Text) (s : Router)
      → IsKept fragment path
      → OnRun (Wrote s) (f s)
      → OnWrite (Wrote s) (set_hash fragment f path s)
  set_hash-Wrote f path s k w =
      if_rule (OnWrite (Wrote s)) (drop 1 s.hash === strip_hash path) (λ _. passed (f s) w)
        (λ h. written-Wrote path s k h)
    where
      passed :
          (o : Run)
          → OnRun (Wrote s) o
          → OnWrite
              (Wrote s)
              (elim o [ none ↦ none | some (t, effects) ↦ some (t, effects, false) ])
      passed none w = tt
      passed (some (t, effects)) w = w

  abbrev IsKeptTarget : Option Text → Type 0
  IsKeptTarget none = Unit
  IsKeptTarget (some target) = IsKept fragment target

  target_in-IsKept :
      (rs : List Redirect) (path : Text)
      → All (λ r. IsKept fragment r.to) rs
      → IsKeptTarget (target_in rs path)
  target_in-IsKept [] path h = tt
  target_in-IsKept (r ∷ rs) path (k, h) =
      if_rule IsKeptTarget (not (r.to === path) && is_some (match_path r.from path)) (λ _. k)
        (λ _. target_in-IsKept rs path h)

  resolve_to-Wrote :
      (f : Router → Run) (o : Option Text) (s : Router)
      → IsKeptTarget o
      → OnRun (Wrote s) (f s)
      → OnRun (Wrote s) (resolve_to fragment f o s)
  resolve_to-Wrote f none s k w = Wrote-refl s
  resolve_to-Wrote f (some target) s k w =
      go (set_hash fragment f target s) (set_hash-Wrote f target s k w)
    where
      go :
          (o : Option (Router × List Effect × Bool))
          → OnWrite (Wrote s) o
          → OnRun (Wrote s) (elim o [
            | none ↦ none
            | some (t, effects, changed) ↦ some (t, effects ++ notify_for target t)
          ])
      go none w = tt
      go (some (t, effects, b)) w = w

  resolve-Wrote : (n : ℕ) (s : Router) → KeptRedirects s → OnRun (Wrote s) (resolve fragment n s)
  unfolding resolve redirect_target
  resolve-Wrote zero s k = tt
  resolve-Wrote (suc n) s k =
      resolve_to-Wrote (resolve fragment n) (target_in s.redirects (current_path s)) s
        (target_in-IsKept s.redirects (current_path s) k) (resolve-Wrote n s k)

  navigate-Wrote :
      (n : ℕ) (path : Text) (s : Router)
      → KeptRedirects s
      → IsKept fragment path
      → OnRun (Wrote s) (navigate fragment n path s)
  unfolding navigate
  navigate-Wrote n path s r k =
      go (set_hash fragment (resolve fragment n) path s)
        (set_hash-Wrote (resolve fragment n) path s k (resolve-Wrote n s r))
    where
      go :
          (o : Option (Router × List Effect × Bool))
          → OnWrite (Wrote s) o
          → OnRun (Wrote s) (elim o [
            | none ↦ none
            | some (t, effects, true) ↦ some (record t { depth = suc t.depth }, effects)
            | some (t, effects, false) ↦ some (t, effects)
          ])
      go none w = tt
      go (some (t, effects, true)) w = w
      go (some (t, effects, false)) w = w

  back-Wrote :
      (n : ℕ) (fallback : Text) (s : Router)
      → KeptRedirects s
      → IsKept fragment fallback
      → OnRun (Wrote s) (back fragment n fallback s)
  unfolding back
  back-Wrote n fallback s r k =
      if_rule (OnRun (Wrote s)) (ltb 0 s.depth) (λ _. Wrote-refl s)
        (λ _. navigate-Wrote n fallback s r k)

  abbrev Counted : Router → Router → Type 0
  Counted s t = (t.pending ≡ s.pending - 1) × (t.hash ≡ s.hash) × (t.redirects ≡ s.redirects)

  counted : (s : Router) → Counted s (count_change s)
  counted s =
      if_rule (Counted s) (ltb 0 s.pending) (λ _. (refl, refl, refl))
        (λ h. (ground (arith, h), refl, refl))

  abbrev InStep : Tab → Type 0
  InStep t = KeptRedirects t.router × (t.router.pending ≤ t.queued)

  Wrote-InStep :
      (s t : Router) (q : ℕ)
      → InStep (record { router = s; queued = q })
      → Wrote s t
      → InStep (record { router = t; queued = changed s t + q })
  Wrote-InStep s t q (k, l) (p, r) =
      (subst (All (λ r. IsKept fragment r.to)) (sym r) k, omega (arith, l, p))

  arrived-InStep :
      (n : ℕ) (effects : List Effect) (s t : Router) (q : ℕ)
      → hash_change fragment n s ≡ some (t, effects)
      → InStep (record { router = s; queued = suc q })
      → InStep (record { router = t; queued = changed s t + q })
  unfolding hash_change
  arrived-InStep n effects s t q e (k, l) =
      let (fewer, same, still) = counted s in
      let kept : KeptRedirects (count_change s) =
        subst (All (λ r. IsKept fragment r.to)) (sym still) k in
      let (k', l') =
        Wrote-InStep (count_change s) t q (kept, omega (arith, fewer, l))
          (subst (OnRun (Wrote (count_change s))) e (resolve-Wrote n (count_change s) kept)) in
      (k', subst (λ h. t.pending ≤ (if h === t.hash then 0 else 1) + q) same l')

  Step-InStep : {s t : Tab} → Step fragment s t → InStep s → InStep t
  unfolding add_route
  Step-InStep (navigated n path effects {s} {t} {q} kept e) (k, l) =
      Wrote-InStep s t q (k, l) (subst (OnRun (Wrote s)) e (navigate-Wrote n path s k kept))
  Step-InStep (went n fallback effects {s} {t} {q} kept e) (k, l) =
      Wrote-InStep s t q (k, l) (subst (OnRun (Wrote s)) e (back-Wrote n fallback s k kept))
  Step-InStep (moved hash other) (k, l) = (k, omega (arith, l))
  Step-InStep (arrived n effects {s} {t} {q} e) h = arrived-InStep n effects s t q e h
  Step-InStep (registered route) h = h
  Step-InStep (redirected from to {s} kept) (k, l) = (All-append _ s.redirects _ k (kept, tt), l)
  Step-InStep (listened listener) h = h
  Step-InStep (left listener) h = h

  -- Whatever the order in which the user and the router change the hash and the events arrive, the
  -- router never counts on more events of its own changes than are still to arrive: when none is, a
  -- change that the user makes is taken for one. The browser keeps the paths that are written.
  pub Reach-pending : {hash : Text} {t : Tab} → Reach fragment hash t → t.router.pending ≤ t.queued
  Reach-pending r = (invariant r).1
    where
      invariant : {hash : Text} {t : Tab} → Reach fragment hash t → InStep t
      invariant here = (tt, omega arith)
      invariant (next r st) = Step-InStep st (invariant r)
