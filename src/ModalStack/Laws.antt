-- ===== src/ModalStack/Laws.antt =====
-- The invariant of the overlay stack, what its listeners are told, and a message that is not sent.
use couch_companion_ui.Prelude.{
  ℕ, Bool, true, false, not, Option, none, some, List, [], ◌∷◌, is_nil, add, remove, contains,
  filter, nat_eq, ◌≡◌, refl, sym, ◌∙◌, inl, inr, arith, IsDistinct, remove_of_absent,
  add-IsDistinct, remove-IsDistinct, Bool-cases, nat_beq_iff, if_rule,
}
use couch_companion_ui.ModalStack.{
  Overlays, Document, Told, initial, splice_first, is_modal_overlay, prune, topmost_modal, notify,
  on_show, on_hide, show_event, hide_event, observe_topmost_modal, stop_observing, add_listeners,
  wire, remove_listeners,
}

-- No overlay and no listener is held twice; the module is wired exactly while someone observes, and
-- the document has each of its two listeners exactly while it is wired; and nothing is remembered while
-- nobody observes.
pub record IsTidy (s : Overlays) : Type 0 where
  pub overlays_distinct : IsDistinct s.open_overlays
  pub listeners_distinct : IsDistinct s.listeners
  pub wired_eq : s.wired ≡ not (is_nil s.listeners)
  pub hears_show_eq : s.hears_show ≡ s.wired
  pub hears_hide_eq : s.hears_hide ≡ s.wired
  pub nothing_open : s.wired ≡ false → s.open_overlays ≡ []
  pub nothing_reported : s.wired ≡ false → s.last_reported ≡ none

pub initial-IsTidy : IsTidy initial
initial-IsTidy = record {
  overlays_distinct = tt;
  listeners_distinct = tt;
  wired_eq = refl;
  hears_show_eq = refl;
  hears_hide_eq = refl;
  nothing_open = λ h. refl;
  nothing_reported = λ h. refl;
}

with_overlays :
    (s : Overlays)
    → IsTidy s
    → (xs : List ℕ) → s.wired ≡ true
    → IsDistinct xs
    → IsTidy (record s { open_overlays = xs })
with_overlays s v xs on h = record {
  overlays_distinct = h;
  listeners_distinct = v.listeners_distinct;
  wired_eq = v.wired_eq;
  hears_show_eq = v.hears_show_eq;
  hears_hide_eq = v.hears_hide_eq;
  nothing_open = λ off. cc;
  nothing_reported = v.nothing_reported;
}

add-is_nil : (a : ℕ) (xs : List ℕ) → true ≡ not (is_nil (add a xs))
add-is_nil a [] = ground arith
add-is_nil a (x ∷ xs) = ground arith

-- If listeners are left, there were some.
wired_of_left :
    (a : ℕ) (xs : List ℕ) {b : Bool} → is_nil (remove a xs) ≡ false → b ≡ not (is_nil xs) → b ≡ true
wired_of_left a [] h e = cc
wired_of_left a (x ∷ xs) h e = e

splice_first-eq-remove : (a : ℕ) (xs : List ℕ) → IsDistinct xs → splice_first a xs ≡ remove a xs
unfolding splice_first
splice_first-eq-remove a [] h = refl
splice_first-eq-remove a (x ∷ xs) (h, k) =
    ground (arith, splice_first-eq-remove a xs k, nat_beq_iff x a, remove_of_absent a xs)

-- Wiring leaves what is remembered, and then both events are heard.
pub wire-open : (s : Overlays) → (wire s).open_overlays ≡ s.open_overlays
unfolding wire add_listeners
wire-open s = ground arith

wire-listeners : (s : Overlays) → (wire s).listeners ≡ s.listeners
unfolding wire add_listeners
wire-listeners s = ground arith

wired-by :
    (s : Overlays)
    → IsTidy s
    → ((wire s).wired ≡ true) × ((wire s).hears_show ≡ true) × ((wire s).hears_hide ≡ true)
unfolding wire add_listeners
wired-by s v = ground (arith, v.hears_show_eq, v.hears_hide_eq)

abbrev IsKept : Told → Type 0
IsKept t = IsTidy t.state

module _ (d : Document) where
  pub prune-eq-filter : (xs : List ℕ) → prune d xs ≡ filter d.is_connected xs
  unfolding prune
  prune-eq-filter [] = refl
  prune-eq-filter (x ∷ xs) = ground (arith, prune-eq-filter xs)

  contains-prune : (a : ℕ) (xs : List ℕ) → contains a xs ≡ false → contains a (prune d xs) ≡ false
  unfolding prune
  contains-prune a [] h = refl
  contains-prune a (x ∷ xs) h = ground (arith, contains-prune a xs)

  prune-IsDistinct : (xs : List ℕ) → IsDistinct xs → IsDistinct (prune d xs)
  unfolding prune
  prune-IsDistinct [] h = tt
  prune-IsDistinct (x ∷ xs) (h, k) = ground (arith, prune-IsDistinct xs k, contains-prune x xs)

  notify-IsTidy : (s : Overlays) → s.wired ≡ true → IsTidy s → IsTidy (notify d s).state
  unfolding notify topmost_modal
  notify-IsTidy s w v = record {
    overlays_distinct = ground (arith, prune-IsDistinct s.open_overlays v.overlays_distinct);
    listeners_distinct = ground (arith, v.listeners_distinct);
    wired_eq = ground (arith, v.wired_eq);
    hears_show_eq = ground (arith, v.hears_show_eq);
    hears_hide_eq = ground (arith, v.hears_hide_eq);
    nothing_open = ground arith;
    nothing_reported = ground arith;
  }

  show_event-IsTidy :
      (emitter : Option ℕ) (s : Overlays) → IsTidy s → IsTidy (show_event d emitter s).state
  unfolding show_event on_show
  show_event-IsTidy none s v = ground arith
  show_event-IsTidy (some x) s v =
      if_rule IsKept s.hears_show
        (λ heard.
          let on = sym v.hears_show_eq ∙ heard in
          if_rule IsKept (not (is_modal_overlay d x)) (λ other. v)
            (λ modal.
              notify-IsTidy _ on (with_overlays s v _ on (add-IsDistinct x _ v.overlays_distinct))))
        (λ off. v)

  hide_event-IsTidy :
      (emitter : Option ℕ) (s : Overlays) → IsTidy s → IsTidy (hide_event d emitter s).state
  unfolding hide_event on_hide
  hide_event-IsTidy none s v = ground arith
  hide_event-IsTidy (some x) s v =
      if_rule IsKept s.hears_hide
        (λ heard.
          let on = sym v.hears_hide_eq ∙ heard in
          notify-IsTidy _ on (
            with_overlays s v _ on (
              rw (splice_first-eq-remove x _ v.overlays_distinct)
                (remove-IsDistinct x _ v.overlays_distinct))))
        (λ off. v)

  observe-IsTidy :
      (listener : ℕ) (s : Overlays) → IsTidy s → IsTidy (observe_topmost_modal d listener s).state
  unfolding observe_topmost_modal topmost_modal
  observe-IsTidy listener s v =
      let w = wired-by s v in
      record {
        overlays_distinct =
            prune-IsDistinct (wire s).open_overlays (rw (wire-open s) v.overlays_distinct);
        listeners_distinct =
            add-IsDistinct listener (wire s).listeners (rw (wire-listeners s) v.listeners_distinct);
        wired_eq = w.0 ∙ add-is_nil listener (wire s).listeners;
        hears_show_eq = w.1 ∙ sym w.0;
        hears_hide_eq = w.2 ∙ sym w.0;
        nothing_open = λ off. absurd (cc (w.0, off));
        nothing_reported = λ off. absurd (cc (w.0, off));
      }

stop_observing-IsTidy :
    (listener : ℕ) (s : Overlays) → IsTidy s → IsTidy (stop_observing listener s)
unfolding stop_observing remove_listeners
stop_observing-IsTidy listener s v = elim (Bool-cases (is_nil (remove listener s.listeners))) [
  | inl last ↦ rw last (record {
    overlays_distinct = tt;
    listeners_distinct = remove-IsDistinct listener s.listeners v.listeners_distinct;
    wired_eq = rw last refl;
    hears_show_eq = refl;
    hears_hide_eq = refl;
    nothing_open = λ off. refl;
    nothing_reported = λ off. refl;
  })
  | inr more ↦ rw more (record {
    overlays_distinct = v.overlays_distinct;
    listeners_distinct = remove-IsDistinct listener s.listeners v.listeners_distinct;
    wired_eq = rw (more, wired_of_left listener s.listeners more v.wired_eq);
    hears_show_eq = v.hears_show_eq;
    hears_hide_eq = v.hears_hide_eq;
    nothing_open = v.nothing_open;
    nothing_reported = v.nothing_reported;
  })
]

-- Everything that can happen to the module; the document may answer differently each time.
pub data Step (s : Overlays) : Overlays → Type 0 where
  showing : (d : Document) (emitter : Option ℕ) → Step s (show_event d emitter s).state
  hiding : (d : Document) (emitter : Option ℕ) → Step s (hide_event d emitter s).state
  observing : (d : Document) (listener : ℕ) → Step s (observe_topmost_modal d listener s).state
  stopping : (listener : ℕ) → Step s (stop_observing listener s)

pub data Reach : Overlays → Type 0 where
  here : Reach initial
  next : {s t : Overlays} → Reach s → Step s t → Reach t

Step-IsTidy : {s t : Overlays} → Step s t → IsTidy s → IsTidy t
Step-IsTidy {s} (showing d emitter) v = show_event-IsTidy d emitter s v
Step-IsTidy {s} (hiding d emitter) v = hide_event-IsTidy d emitter s v
Step-IsTidy {s} (observing d listener) v = observe-IsTidy d listener s v
Step-IsTidy {s} (stopping listener) v = stop_observing-IsTidy listener s v

-- Whatever events come, with whatever the document answers, no overlay and no listener is held twice,
-- the document has `onShow` and `onHide` among its listeners exactly while someone observes, and a
-- module that nobody observes holds no overlay and remembers no report.
pub Reach-IsTidy : {s : Overlays} → Reach s → IsTidy s
Reach-IsTidy here = initial-IsTidy
Reach-IsTidy (next r st) = Step-IsTidy st (Reach-IsTidy r)
