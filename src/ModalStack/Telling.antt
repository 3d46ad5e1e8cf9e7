-- ===== src/ModalStack/Telling.antt =====
-- What the listeners are told, and a message that is not sent.
use couch_companion_ui.Prelude.{
  ℕ, true, false, Option, none, some, List, [], ◌∷◌, ◌++◌, map, if◌then◌else◌, contains, nat_eq,
  option_beq, get_last?, ◌≡◌, refl, arith, option_beq_iff, get_last?-append_one, ap, ◌∙◌, All,
}
use couch_companion_ui.ModalStack.{
  Overlays, Document, splice_first, is_modal_overlay, prune, topmost_modal, notify, on_show,
  on_hide, observe_topmost_modal, add_listeners, wire,
}

-- Every listener is told, in the order in which they began to observe.
abbrev pub tell_all : Option ℕ → Overlays → List (ℕ × Option ℕ)
tell_all current s = map (λ listener. (listener, current)) s.listeners

module _ (d : Document) where
  prune-append_one :
      (xs : List ℕ) (x : ℕ)
      → d.is_connected x ≡ true
      → prune d (xs ++ x ∷ []) ≡ prune d xs ++ x ∷ []
  unfolding prune
  prune-append_one [] x h = ground arith
  prune-append_one (y ∷ xs) x h = ground (arith, prune-append_one xs x h)

  prune_twice : (xs : List ℕ) → prune d (prune d xs) ≡ prune d xs
  unfolding prune
  prune_twice [] = refl
  prune_twice (y ∷ xs) = ground (arith, prune_twice xs)

  prune-All : (xs : List ℕ) → All (λ x. d.is_connected x ≡ true) (prune d xs)
  unfolding prune
  prune-All [] = tt
  prune-All (y ∷ xs) = ground (arith, prune-All xs)

module _ (d : Document) (s : Overlays) where
  -- Hiding an overlay drops the detached ones too; the new topmost overlay is
  -- remembered, and told to every listener unless it is the one they were told last.
  pub on_hide_lem :
      (x : ℕ)
      → let t = on_hide d (some x) s in
        All (λ y. d.is_connected y ≡ true) t.state.open_overlays
        × (t.state.last_reported ≡ get_last? t.state.open_overlays)
        × (t.calls ≡ (
            if option_beq (get_last? t.state.open_overlays) s.last_reported
            then []
            else tell_all (get_last? t.state.open_overlays) s))
  unfolding on_hide notify topmost_modal
  on_hide_lem x = ground (
    arith,
    prune-All d (splice_first x s.open_overlays),
    option_beq_iff (get_last? (prune d (splice_first x s.open_overlays))) s.last_reported,
  )

  module _ (x : ℕ) (modal : is_modal_overlay d x ≡ true) (connected : d.is_connected x ≡ true)
      (fresh : contains x s.open_overlays ≡ false) where
    -- A modal overlay that opens on top of the others becomes the topmost one: it is remembered, and
    -- every listener is told it unless it is what they were told last.
    pub on_show_lem :
        let t = on_show d (some x) s in
        (t.state.open_overlays ≡ prune d s.open_overlays ++ x ∷ [])
        × ((topmost_modal d t.state).1 ≡ some x)
        × (t.state.last_reported ≡ some x)
        × (t.calls ≡ (if option_beq (some x) s.last_reported then [] else tell_all (some x) s))
    unfolding on_show notify topmost_modal
    on_show_lem = ground (
      arith,
      prune-append_one d s.open_overlays x connected,
      prune_twice d (s.open_overlays ++ x ∷ []),
      get_last?-append_one (prune d s.open_overlays) x,
      option_beq_iff (some x) s.last_reported,
    )

-- What a new observer is told, and what its call leaves.
observing_keeps :
    (d : Document) (s : Overlays) (listener : ℕ)
    → let observed = observe_topmost_modal d listener s in
      (observed.state.open_overlays ≡ prune d s.open_overlays)
      × (observed.state.last_reported ≡ s.last_reported)
      × (observed.calls ≡ (listener, get_last? (prune d s.open_overlays)) ∷ [])
unfolding observe_topmost_modal topmost_modal wire add_listeners
observing_keeps d s listener = ground arith

-- A listener can miss the topmost overlay. Let an overlay be the last one reported, and let every open
-- overlay be detached when a new listener begins to observe, so that it is told `null`. When that
-- overlay is attached again and `onShow` hears that it is shown, it is topmost, and no listener is
-- told: it is still the one reported last.
pub missed_show :
    (gone back : Document) (s : Overlays) (x listener : ℕ)
    → s.last_reported ≡ some x
    → prune gone s.open_overlays ≡ []
    → back.is_connected x ≡ true
    → is_modal_overlay back x ≡ true
    → let observed = observe_topmost_modal gone listener s in
      let shown = on_show back (some x) observed.state in
      (observed.calls ≡ (listener, none) ∷ [])
      × (shown.calls ≡ [])
      × ((topmost_modal back shown.state).1 ≡ some x)
missed_show gone back s x listener reported detached connected modal =
    let observed = observe_topmost_modal gone listener s in
    let kept = observing_keeps gone s listener in
    let fresh : contains x observed.state.open_overlays ≡ false =
      ap (contains x) (kept.0 ∙ detached) in
    let shown = on_show_lem back observed.state x modal connected fresh in
    (
      kept.2 ∙ ap (λ xs. (listener, get_last? xs) ∷ []) detached,
      shown.3
          ∙ ap (λ o. if option_beq (some x) o then [] else tell_all (some x) observed.state)
              (kept.1 ∙ reported)
          ∙ ground (arith, option_beq_iff (some x) (some x)),
      shown.1,
    )
