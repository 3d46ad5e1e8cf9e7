-- ===== src/EventRouter/Subscribing.antt =====
-- `subscribe` on one name: it keeps the indexes, and what it changes in them.
use couch_companion_ui.Prelude.{
  ℕ, ◌&&◌, Option, some, List, [], ◌∷◌, ◌++◌, Text, ◌≡◌, ◌≢◌, inl, inr, arith, if◌then◌else◌, ◌===◌,
  get, has, set, add, remove, contains, text_eq, nat_eq, text_beq_iff, get-set, get-delete,
  Bool-cases, Option-cases, Dict, IsDistinct, contains-add, contains-remove, add-IsDistinct,
  remove_of_absent,
}
use couch_companion_ui.EventRouter.{
  Router, sub_map, subscribers_of, create_window_listener, unsubscribe_event, enter_event,
  enter_subscriber, subscribe_name,
}
use couch_companion_ui.EventRouter.Views.{
  sub_map-unsubscribe_event, subscribers_of-unsubscribe_event, get-enter_event,
  enter_subscriber-subscriptions, subscribers_of-enter_subscriber,
}
use couch_companion_ui.EventRouter.Indexes.{HasIndexes, unsubscribe_event-HasIndexes}
use couch_companion_ui.EventRouter.Listeners.{
  IsListening, unsubscribe_event-IsListening, enter_subscriber-IsListening, enter_event-IsListening,
}

-- `add` never leaves an empty set.
add-ne-nil : (a : ℕ) (xs : List ℕ) → add a xs ≢ []
add-ne-nil a [] = ground arith
add-ne-nil a (x ∷ xs) = ground arith

set-ne-nil :
    (name : Text) (callback : Option ℕ) (m : Dict Text (Option ℕ)) → set name callback m ≢ []
set-ne-nil name callback [] = ground arith
set-ne-nil name callback ((n, c) ∷ m) = ground arith

abbrev enter : ℕ → Text → Option ℕ → Router → Router
enter sub name callback s = enter_subscriber sub name (enter_event sub name callback s)

module _ (sub : ℕ) (name : Text) (callback : Option ℕ) (s : Router) where
  get-enter :
      (t : ℕ) (n : Text)
      → get n (sub_map t (enter sub name callback s))
        ≡ (if sub === t && name === n then some callback else get n (sub_map t s))
  get-enter t n =
      rw (enter_subscriber-subscriptions sub name (enter_event sub name callback s))
        (get-enter_event sub t name n callback s)

  subscribers_of-enter :
      (n : Text)
      → subscribers_of n (enter sub name callback s)
        ≡ (if name === n then add sub (subscribers_of n s) else subscribers_of n s)
  unfolding enter_event
  subscribers_of-enter n =
      subscribers_of-enter_subscriber sub name n (enter_event sub name callback s)

  no_empty_set-enter :
      (n : Text)
      → get n s.event_registry ≢ some []
      → get n (enter sub name callback s).event_registry ≢ some []
  unfolding enter_subscriber enter_event create_window_listener
  no_empty_set-enter n h = elim (Option-cases (get name s.event_registry)) [
    | inl missing ↦ ground (
      arith,
      get-set name n [] s.event_registry,
      get-set name name [] s.event_registry,
      get-set name n (add sub []) (set name [] s.event_registry),
      text_beq_iff name n,
      text_beq_iff name name,
    )
    | inr (xs, found) ↦
        ground (arith, get-set name n (add sub xs) s.event_registry, add-ne-nil sub xs)
  ]

  no_empty_map-enter :
      (t : ℕ)
      → get t s.subscriptions ≢ some []
      → get t (enter sub name callback s).subscriptions ≢ some []
  no_empty_map-enter t h =
      rw (enter_subscriber-subscriptions sub name (enter_event sub name callback s)) (
        unfold enter_event in
        ground (
          arith,
          get-set sub t (set name callback (sub_map sub s)) s.subscriptions,
          set-ne-nil name callback (sub_map sub s),
        ))

  module _ (v : HasIndexes s) where
    mirrored-enter :
        (t : ℕ) (n : Text)
        → contains t (subscribers_of n (enter sub name callback s))
          ≡ has n (sub_map t (enter sub name callback s))
    mirrored-enter t n = ground (
      arith,
      subscribers_of-enter n,
      get-enter t n,
      contains-add sub t (subscribers_of n s),
      v.mirrored t n,
    )

    IsDistinct-enter : (n : Text) → IsDistinct (subscribers_of n (enter sub name callback s))
    IsDistinct-enter n = rw (subscribers_of-enter n) (elim (Bool-cases (name === n)) [
      | inl same ↦ rw same (add-IsDistinct sub (subscribers_of n s) (v.distinct n))
      | inr other ↦ rw other (v.distinct n)
    ])

    enter-HasIndexes : HasIndexes (enter sub name callback s)
    enter-HasIndexes = record {
      mirrored = mirrored-enter;
      distinct = IsDistinct-enter;
      no_empty_set = λ n. no_empty_set-enter n (v.no_empty_set n);
      no_empty_map = λ t. no_empty_map-enter t (v.no_empty_map t);
    }

module _ (sub : ℕ) (name : Text) (callback : Option ℕ) (s : Router) where
  pub subscribe_name-HasIndexes : HasIndexes s → HasIndexes (subscribe_name sub callback name s)
  unfolding subscribe_name
  subscribe_name-HasIndexes v = elim (Bool-cases (has name (sub_map sub s))) [
    | inl held ↦
        rw held (enter-HasIndexes sub name callback _ (unsubscribe_event-HasIndexes s v sub name))
    | inr free ↦ rw free (enter-HasIndexes sub name callback s v)
  ]

  pub subscribe_name-IsListening : IsListening s → IsListening (subscribe_name sub callback name s)
  unfolding subscribe_name
  subscribe_name-IsListening v = elim (Bool-cases (has name (sub_map sub s))) [
    | inl held ↦ rw held (
        enter_subscriber-IsListening _
          (enter_event-IsListening _ (unsubscribe_event-IsListening s v sub name) name sub callback)
          name sub)
    | inr free ↦
        rw free
          (enter_subscriber-IsListening _ (enter_event-IsListening s v name sub callback) name sub)
  ]

  -- Afterwards the pair has the new callback, and no other pair has changed.
  pub get-subscribe_name :
      (t : ℕ) (n : Text)
      → get n (sub_map t (subscribe_name sub callback name s))
        ≡ (if sub === t && name === n then some callback else get n (sub_map t s))
  unfolding subscribe_name
  get-subscribe_name t n = elim (Bool-cases (has name (sub_map sub s))) [
    | inl held ↦ ground (
      arith,
      get-enter sub name callback (unsubscribe_event sub name s).0 t n,
      sub_map-unsubscribe_event sub t name s,
      get-delete name n (sub_map t s),
    )
    | inr free ↦ rw free (get-enter sub name callback s t n)
  ]

  -- The subscriber goes last among the event's subscribers, also where it was one before.
  pub subscribers_of-subscribe_name :
      HasIndexes s
      → (n : Text)
      → subscribers_of n (subscribe_name sub callback name s)
        ≡ (if name === n then remove sub (subscribers_of n s) ++ sub ∷ [] else subscribers_of n s)
  unfolding subscribe_name
  subscribers_of-subscribe_name v n = elim (Bool-cases (has name (sub_map sub s))) [
    | inl held ↦ ground (
      arith,
      subscribers_of-enter sub name callback (unsubscribe_event sub name s).0 n,
      subscribers_of-unsubscribe_event sub name n s held,
      contains-remove sub sub (subscribers_of n s),
    )
    | inr free ↦ ground (
      arith,
      subscribers_of-enter sub name callback s n,
      remove_of_absent sub (subscribers_of n s),
      text_beq_iff name n,
      v.mirrored sub n,
    )
  ]
