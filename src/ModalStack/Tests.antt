-- ===== src/ModalStack/Tests.antt =====
-- Runs of the overlay stack, and its theorems at concrete states.
use couch_companion_ui.Prelude.{true, false, none, some, [], ◌∷◌, nat_eq, ◌≡◌, refl}
use couch_companion_ui.ModalStack.{
  Overlays, Document, matches, initial, is_modal_overlay, prune, topmost_modal, notify, on_show,
  show_event, observe_topmost_modal, stop_observing, add_listeners, wire,
}
use couch_companion_ui.ModalStack.Laws.{
  IsTidy, here, next, showing, observing, stopping, Reach-IsTidy,
}
use couch_companion_ui.ModalStack.Telling.{missed_show}

-- Every element is a modal dialog; in the first document all are attached, in the second none is.
abbrev attached : Document
attached = record { is_connected = λ x. true; native_dialog = λ x. some matches }

abbrev detached : Document
detached = record { is_connected = λ x. false; native_dialog = λ x. some matches }

-- Listener 8 observes, and overlay 1 opens.
abbrev one_open : Overlays
one_open = (show_event attached (some 1) (observe_topmost_modal attached 8 initial).state).state

one_open_runs :
    (one_open.open_overlays ≡ 1 ∷ []) × (one_open.last_reported ≡ some 1) × (one_open.wired ≡ true)
unfolding show_event on_show observe_topmost_modal wire add_listeners notify topmost_modal prune
    is_modal_overlay
one_open_runs = (refl, refl, refl)

modal_one : is_modal_overlay attached 1 ≡ true
unfolding is_modal_overlay
modal_one = refl

pruned_empty : prune detached one_open.open_overlays ≡ []
unfolding show_event on_show observe_topmost_modal wire add_listeners notify topmost_modal prune
    is_modal_overlay
pruned_empty = refl

Reach-IsTidy_example : IsTidy (stop_observing 8 one_open)
Reach-IsTidy_example =
    Reach-IsTidy
      (next (next (next here (observing attached 8)) (showing attached (some 1))) (stopping 8))

missed_show_example :
    let observed = observe_topmost_modal detached 9 one_open in
    let shown = on_show attached (some 1) observed.state in
    (observed.calls ≡ (9, none) ∷ [])
    × (shown.calls ≡ [])
    × ((topmost_modal attached shown.state).1 ≡ some 1)
missed_show_example =
    missed_show detached attached one_open 1 9 one_open_runs.1 pruned_empty refl modal_one
