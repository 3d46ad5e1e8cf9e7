-- ===== src/EventRouter/Listeners.antt =====
-- The window's listeners: exactly one for each event that has subscribers.
use couch_companion_ui.Prelude.{
  ℕ, false, not, ◌&&◌, Option, none, some, [], ◌∷◌, ◌++◌, Text, ◌≡◌, refl, inl, inr, arith, ◌===◌,
  get, has, set, delete, add, remove, text_eq, nat_eq, nat_beq_iff, text_beq_iff, get-set,
  get-delete, Bool-cases, Option-cases, Dict, IsDistinct, keys, contains-keys, set-IsDistinct,
  delete-IsDistinct, set_of_absent, delete_of_absent, ap, sym, ◌∙◌,
}
use couch_companion_ui.EventRouter.{
  Router, create_window_listener, remove_window_listener, forget_event, forget_subscriber,
  unsubscribe_event, enter_event, enter_subscriber, detach,
}

-- An event has a window listener exactly when it has a set of subscribers, and what the window
-- holds is what `windowListeners` remembers.
pub record IsListening (s : Router) : Type 0 where
  pub listening : (name : Text) → has name s.window_listeners ≡ has name s.event_registry
  pub attached_eq : s.attached ≡ s.window_listeners
  pub names_distinct : IsDistinct (keys s.window_listeners)

detach_of_absent : (name : Text) (l : ℕ) (d : Dict Text ℕ) → get name d ≡ none → detach name l d ≡ d
unfolding detach
detach_of_absent name l [] h = refl
detach_of_absent name l ((n, k) ∷ d) h = ground (arith, detach_of_absent name l d)

-- Taking the remembered function off the window is what `delete` does to the record of it.
detach-eq-delete :
    (name : Text) (l : ℕ) (d : Dict Text ℕ)
    → get name d ≡ some l
    → IsDistinct (keys d)
    → detach name l d ≡ delete name d
unfolding detach
detach-eq-delete name l [] h k = refl
detach-eq-delete name l ((n, i) ∷ d) h (fresh, k) = ground (
  arith,
  text_beq_iff n name,
  nat_beq_iff i l,
  contains-keys n d,
  detach_of_absent name l d,
  delete_of_absent name d,
  detach-eq-delete name l d,
)

module _ (s : Router) (v : IsListening s) (name : Text) where
  remove_window_listener-attached :
      (remove_window_listener name s).attached ≡ (remove_window_listener name s).window_listeners
  unfolding remove_window_listener
  remove_window_listener-attached = elim (Option-cases (get name s.window_listeners)) [
    | inl missing ↦ rw (missing, remove_window_listener) v.attached_eq
    | inr (l, found) ↦
        rw (found, remove_window_listener)
          (rw v.attached_eq (detach-eq-delete name l s.window_listeners found v.names_distinct))
  ]

  remove_window_listener-keys : IsDistinct (keys (remove_window_listener name s).window_listeners)
  unfolding remove_window_listener
  remove_window_listener-keys =
      ground (arith, v.names_distinct, delete-IsDistinct name s.window_listeners)

  remove_window_listener-has :
      (n : Text)
      → has n (remove_window_listener name s).window_listeners
        ≡ (not (name === n) && has n s.window_listeners)
  unfolding remove_window_listener
  remove_window_listener-has n =
      ground (arith, get-delete name n s.window_listeners, text_beq_iff name n)

  remove_window_listener-registry :
      (remove_window_listener name s).event_registry ≡ s.event_registry
  unfolding remove_window_listener
  remove_window_listener-registry = ground arith

  forget_subscriber-listening :
      (sub : ℕ) (n : Text)
      → has n (forget_subscriber sub name s).window_listeners
        ≡ has n (forget_subscriber sub name s).event_registry
  unfolding forget_subscriber
  forget_subscriber-listening sub n = elim (Option-cases (get name s.event_registry)) [
    | inl missing ↦ rw (missing, forget_subscriber) (v.listening n)
    | inr (xs, found) ↦ ground (
      arith,
      v.listening n,
      remove_window_listener-has n,
      remove_window_listener-registry,
      text_beq_iff name n,
      get-delete name n s.event_registry,
      get-set name n (remove sub xs) s.event_registry,
    )
  ]

  pub forget_subscriber-IsListening : (sub : ℕ) → IsListening (forget_subscriber sub name s)
  unfolding forget_subscriber
  forget_subscriber-IsListening sub = record {
    listening = forget_subscriber-listening sub;
    attached_eq = ground (arith, v.attached_eq, remove_window_listener-attached);
    names_distinct = ground (arith, v.names_distinct, remove_window_listener-keys);
  }

  absent_listener : has name s.event_registry ≡ false → get name s.window_listeners ≡ none
  absent_listener h = ground (arith, v.listening name)

  enter_subscriber-attached :
      (sub : ℕ)
      → (enter_subscriber sub name s).attached ≡ (enter_subscriber sub name s).window_listeners
  unfolding enter_subscriber create_window_listener
  enter_subscriber-attached sub = elim (Bool-cases (has name s.event_registry)) [
    | inl held ↦ rw held v.attached_eq
    | inr free ↦ rw free (
        ap (λ d. d ++ (name, s.next_listener) ∷ []) v.attached_eq
        ∙ sym (set_of_absent name s.next_listener s.window_listeners (absent_listener free)))
  ]

  enter_subscriber-listening :
      (sub : ℕ) (n : Text)
      → has n (enter_subscriber sub name s).window_listeners
        ≡ has n (enter_subscriber sub name s).event_registry
  unfolding enter_subscriber create_window_listener
  enter_subscriber-listening sub n = elim (Option-cases (get name s.event_registry)) [
    | inl missing ↦ ground (
      arith,
      v.listening n,
      text_beq_iff name n,
      get-set name n s.next_listener s.window_listeners,
      get-set name n [] s.event_registry,
      get-set name name [] s.event_registry,
      get-set name n (add sub []) (set name [] s.event_registry),
    )
    | inr (xs, found) ↦
        ground
          (arith, v.listening n, text_beq_iff name n, get-set name n (add sub xs) s.event_registry)
  ]

  pub enter_subscriber-IsListening : (sub : ℕ) → IsListening (enter_subscriber sub name s)
  unfolding enter_subscriber create_window_listener
  enter_subscriber-IsListening sub = record {
    listening = enter_subscriber-listening sub;
    attached_eq = enter_subscriber-attached sub;
    names_distinct =
        ground (arith, v.names_distinct, set-IsDistinct name s.next_listener s.window_listeners);
  }

  forget_event-IsListening :
      (sub : ℕ) (m : Dict Text (Option ℕ)) → IsListening (forget_event sub name m s)
  unfolding forget_event
  forget_event-IsListening sub m = record {
    listening = v.listening;
    attached_eq = v.attached_eq;
    names_distinct = v.names_distinct;
  }

  pub enter_event-IsListening :
      (sub : ℕ) (callback : Option ℕ) → IsListening (enter_event sub name callback s)
  unfolding enter_event
  enter_event-IsListening sub callback = record {
    listening = v.listening;
    attached_eq = v.attached_eq;
    names_distinct = v.names_distinct;
  }

pub unsubscribe_event-IsListening :
    (s : Router)
    → IsListening s
    → (sub : ℕ) (name : Text) → IsListening (unsubscribe_event sub name s).0
unfolding unsubscribe_event
unsubscribe_event-IsListening s v sub name = elim (Option-cases (get sub s.subscriptions)) [
  | inl missing ↦ rw (missing, unsubscribe_event) v
  | inr (m, found) ↦
      rw (found, unsubscribe_event)
        (elim (Bool-cases (has name m)) [
          | inl held ↦ rw held (
              forget_subscriber-IsListening (forget_event sub name m s)
                (forget_event-IsListening s v name sub m) name sub)
          | inr free ↦ rw free v
        ])
]
