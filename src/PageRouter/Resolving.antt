-- ===== src/PageRouter/Resolving.antt =====
-- src/router.ts: when `resolve` returns, and what a redirect does.
use mathlib.Core.Path.{subst}
use couch_companion_ui.Prelude.{
  ◌≡◌, refl, ap, sym, ◌∙◌, ℕ, zero, suc, Bool, true, false, not, ◌&&◌, Option, none, some, List, [],
  ◌∷◌, Text, if◌then◌else◌, if_rule, ◌===◌, nat_eq, text_eq, ===_ne, ne_of_===, is_some, drop,
  contains, All, Bool-cases, inl, inr, arith,
}
use couch_companion_ui.PageRouter.Paths.{strip_hash, before_query, root_path, hash_path, match_path}
use couch_companion_ui.PageRouter.{
  Redirect, Router, Effect, Run, target_in, redirect_target, current_path, notify_for, match_route,
  set_hash, resolve_to, resolve, count_change, hash_change,
}

-- What `location.hash` can read.
abbrev pub IsHash : Text → Type 0
IsHash [] = Unit
IsHash (c ∷ s) = c ≡ b'#'

-- A target that is a path: not empty, without a `#` in front and without a query.
abbrev pub IsPlain : Text → Type 0
IsPlain [] = ⊥
IsPlain (c ∷ s) = ((c === b'#') ≡ false) × (contains b'?' (c ∷ s) ≡ false)

abbrev pub IsPlainRedirect : Redirect → Type 0
IsPlainRedirect r = IsPlain r.to

-- The hash is the redirect's target already, so that writing it resolves again.
abbrev pub writes_nothing : Option Text → Router → Bool
writes_nothing none s = false
writes_nothing (some target) s = drop 1 s.hash === strip_hash target

-- What one pass does when it is not left for another one.
abbrev pub resolved : (Text → Text) → Option Text → Router → Router × List Effect
resolved fragment none s = (s, notify_for (current_path s) s)
resolved fragment (some target) s =
    (record s { pending = suc s.pending; hash = fragment (strip_hash target) }, notify_for target s)

module _ (fragment : Text → Text) where
  resolve_to-returns :
      (f : Router → Run) (o : Option Text) (s : Router)
      → writes_nothing o s ≡ false
      → resolve_to fragment f o s ≡ some (resolved fragment o s)
  unfolding notify_for match_route
  resolve_to-returns f none s h = refl
  resolve_to-returns f (some target) s h = rw (h, resolve_to, set_hash) refl

  resolve_to-loops :
      (f : Router → Run) (o : Option Text) (s : Router)
      → writes_nothing o s ≡ true
      → f s ≡ none
      → resolve_to fragment f o s ≡ none
  resolve_to-loops f none s h k = cc
  resolve_to-loops f (some target) s h k = rw (h, resolve_to, set_hash) (rw k refl)

  resolve-loops :
      (n : ℕ) (s : Router)
      → writes_nothing (redirect_target (current_path s) s) s ≡ true
      → resolve fragment n s ≡ none
  unfolding resolve
  resolve-loops zero s h = refl
  resolve-loops (suc n) s h =
      resolve_to-loops (resolve fragment n) (redirect_target (current_path s) s) s h
        (resolve-loops n s h)

  -- With any fuel but none, `resolve` gives no result where the path has a redirect whose target is
  -- what the hash holds already, as it does when the target has a query: there it calls itself
  -- without end. Everywhere else one pass gives the result.
  pub resolve_lem :
      (n : ℕ) (s : Router)
      → resolve fragment (suc n) s ≡ (
          if writes_nothing (redirect_target (current_path s) s) s
          then none
          else some (resolved fragment (redirect_target (current_path s) s) s))
  unfolding resolve
  resolve_lem n s = elim (Bool-cases (writes_nothing (redirect_target (current_path s) s) s)) [
    | inl k ↦ resolve-loops (suc n) s k ∙ sym (rw k refl)
    | inr k ↦
        resolve_to-returns (resolve fragment n) (redirect_target (current_path s) s) s k
        ∙ sym (rw k refl)
  ]

before_query-plain : (s : Text) → contains b'?' s ≡ false → before_query s ≡ s
before_query-plain [] h = refl
before_query-plain (c ∷ s) h = ground (arith, before_query-plain s)

strip_hash-plain : (t : Text) → IsPlain t → strip_hash t ≡ t
strip_hash-plain [] h = absurd h
strip_hash-plain (c ∷ s) (h, k) = rw h refl

root_path-plain : (t : Text) → IsPlain t → root_path t ≡ t
root_path-plain [] h = absurd h
root_path-plain (c ∷ s) h = refl

plain-contains : (t : Text) → IsPlain t → contains b'?' t ≡ false
plain-contains [] h = absurd h
plain-contains (c ∷ s) h = h.1

strip-drop : (h : Text) → IsHash h → strip_hash h ≡ drop 1 h
strip-drop [] k = refl
strip-drop (c ∷ s) k = rw k refl

hash_path-plain : (h t : Text) → IsHash h → IsPlain t → drop 1 h ≡ t → hash_path h ≡ t
hash_path-plain h t k p e =
    ap (λ u. root_path (before_query u)) (strip-drop h k ∙ e)
    ∙ ap root_path (before_query-plain t (plain-contains t p))
    ∙ root_path-plain t p

abbrev IsAway : Text → Option Text → Type 0
IsAway path none = Unit
IsAway path (some target) = IsPlain target × ((target === path) ≡ false)

target_in-IsAway :
    (rs : List Redirect) (path : Text) → All IsPlainRedirect rs → IsAway path (target_in rs path)
target_in-IsAway [] path h = tt
target_in-IsAway (r ∷ rs) path (p, h) =
    if_rule (IsAway path) (not (r.to === path) && is_some (match_path r.from path))
      (λ e. (p, ground (arith, e))) (λ _. target_in-IsAway rs path h)

plain-writes :
    (s : Router) (o : Option Text)
    → IsHash s.hash
    → IsAway (current_path s) o
    → writes_nothing o s ≡ false
unfolding current_path
plain-writes s none h a = refl
plain-writes s (some target) h (p, a) =
    ===_ne
      (λ e. ne_of_=== a (sym (hash_path-plain s.hash target h p (e ∙ strip_hash-plain target p))))

pub plain-returns :
    (fragment : Text → Text) (n : ℕ) (s : Router)
    → IsHash s.hash
    → All IsPlainRedirect s.redirects
    → resolve fragment (suc n) s ≡ some (resolved fragment (redirect_target (current_path s) s) s)
unfolding redirect_target
plain-returns fragment n s h a =
    resolve_lem fragment n s
    ∙ ap (λ b. if b then none else some (resolved fragment (redirect_target (current_path s) s) s))
        (plain-writes s (target_in s.redirects (current_path s)) h
          (target_in-IsAway s.redirects (current_path s) a))

pub target-IsPlain :
    (s : Router) (target : Text)
    → All IsPlainRedirect s.redirects
    → redirect_target (current_path s) s ≡ some target
    → IsPlain target
unfolding redirect_target
target-IsPlain s target a e =
    (subst (IsAway (current_path s)) e (target_in-IsAway s.redirects (current_path s) a)).0

pub path_of_target :
    (s : Router) (target : Text) → IsPlain target → s.hash ≡ b'#' ∷ target → current_path s ≡ target
unfolding current_path
path_of_target s target p e = hash_path-plain s.hash target (rw e refl) p (ap (drop 1) e)

counted :
    (s : Router) (h : Text)
    → count_change (record s { pending = suc s.pending; hash = h }) ≡ record s { hash = h }
counted s h = ground arith

-- Where the redirects go to plain paths, a redirect is not a step of the user: once the event of its
-- own hash change has arrived, the counts are what they were, the hash holds the target and each of
-- the two rounds told every listener of the target's route. The target has no redirect of its own,
-- and the browser keeps its text.
pub redirect_settles :
    (fragment : Text → Text) (n : ℕ) (s : Router) (target : Text)
    → IsHash s.hash
    → All IsPlainRedirect s.redirects
    → redirect_target (current_path s) s ≡ some target
    → redirect_target target s ≡ none
    → fragment target ≡ b'#' ∷ target
    → (t : Router) × (resolve fragment (suc n) s ≡ some (t, notify_for target s))
      × (hash_change fragment (suc n) t
          ≡ some (record s { hash = b'#' ∷ target }, notify_for target s))
unfolding hash_change redirect_target notify_for match_route
redirect_settles fragment n s target h a e stays kept =
    (record s { pending = suc s.pending; hash = fragment target }, first, second)
  where
    plain : IsPlain target
    plain = target-IsPlain s target a e

    there : current_path (record s { hash = b'#' ∷ target }) ≡ target
    there = path_of_target (record s { hash = b'#' ∷ target }) target plain refl

    first :
        resolve fragment (suc n) s
        ≡ some (record s { pending = suc s.pending; hash = fragment target }, notify_for target s)
    first =
        plain-returns fragment n s h a
        ∙ ap (λ o. some (resolved fragment o s)) e
        ∙ ap
            (λ u.
              some (record s { pending = suc s.pending; hash = fragment u }, notify_for target s))
            (strip_hash-plain target plain)

    second :
        hash_change fragment (suc n) (record s { pending = suc s.pending; hash = fragment target })
        ≡ some (record s { hash = b'#' ∷ target }, notify_for target s)
    second =
        ap (resolve fragment (suc n))
          (counted s (fragment target) ∙ ap (λ u. record s { hash = u }) kept)
        ∙ plain-returns fragment n (record s { hash = b'#' ∷ target }) refl a
        ∙ ap
            (λ path.
              some (
                resolved fragment (target_in s.redirects path) (record s { hash = b'#' ∷ target })))
            there
        ∙ ap (λ o. some (resolved fragment o (record s { hash = b'#' ∷ target }))) stays
        ∙ ap (λ path. some (record s { hash = b'#' ∷ target }, notify_for path s)) there
