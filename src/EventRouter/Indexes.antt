-- ===== src/EventRouter/Indexes.antt =====
-- The two indexes of the router, kept equal by `subscribe` and `unsubscribeEvent`.
use couch_companion_ui.Prelude.{
  ℕ, some, [], Text, ◌≡◌, ◌≢◌, inl, inr, arith, ◌===◌, get, has, delete, remove, contains, text_eq,
  nat_eq, nat_beq_iff, text_beq_iff, get-set, get-delete, Bool-cases, Option-cases, IsDistinct,
  contains-remove, remove-IsDistinct,
}
use couch_companion_ui.EventRouter.{
  Router, sub_map, subscribers_of, remove_window_listener, forget_event, forget_subscriber,
  unsubscribe_event,
}
use couch_companion_ui.EventRouter.Views.{
  sub_map-unsubscribe_event, subscribers_of-unsubscribe_event, unsubscribe_event_of_absent,
}

-- A subscriber is in an event's set exactly when its own map has the event; no set names a
-- subscriber twice; no empty set or map is kept.
pub record HasIndexes (s : Router) : Type 0 where
  pub mirrored :
      (sub : ℕ) (name : Text) → contains sub (subscribers_of name s) ≡ has name (sub_map sub s)
  pub distinct : (name : Text) → IsDistinct (subscribers_of name s)
  pub no_empty_set : (name : Text) → get name s.event_registry ≢ some []
  pub no_empty_map : (sub : ℕ) → get sub s.subscriptions ≢ some []

module _ (s : Router) (v : HasIndexes s) (sub : ℕ) (name : Text) where
  mirrored-unsubscribe_event :
      (t : ℕ) (n : Text)
      → contains t (subscribers_of n (unsubscribe_event sub name s).0)
        ≡ has n (sub_map t (unsubscribe_event sub name s).0)
  mirrored-unsubscribe_event t n = elim (Bool-cases (has name (sub_map sub s))) [
    | inl held ↦ ground (
      arith,
      subscribers_of-unsubscribe_event sub name n s held,
      sub_map-unsubscribe_event sub t name s,
      contains-remove sub t (subscribers_of n s),
      get-delete name n (sub_map t s),
      v.mirrored t n,
      nat_beq_iff sub t,
      text_beq_iff name n,
    )
    | inr free ↦ rw (unsubscribe_event_of_absent sub name s free) (v.mirrored t n)
  ]

  IsDistinct-unsubscribe_event :
      (n : Text) → IsDistinct (subscribers_of n (unsubscribe_event sub name s).0)
  IsDistinct-unsubscribe_event n = elim (Bool-cases (has name (sub_map sub s))) [
    | inl held ↦
        rw (subscribers_of-unsubscribe_event sub name n s held) (elim (Bool-cases (name === n)) [
          | inl same ↦ rw same (remove-IsDistinct sub _ (v.distinct n))
          | inr other ↦ rw other (v.distinct n)
        ])
    | inr free ↦ rw (unsubscribe_event_of_absent sub name s free) (v.distinct n)
  ]

no_empty_set-forget_subscriber :
    (sub : ℕ) (name n : Text) (s : Router)
    → get n s.event_registry ≢ some []
    → get n (forget_subscriber sub name s).event_registry ≢ some []
unfolding forget_subscriber remove_window_listener
no_empty_set-forget_subscriber sub name n s h = elim (Option-cases (get name s.event_registry)) [
  | inl missing ↦ ground arith
  | inr (xs, found) ↦
      ground
        (arith, get-set name n (remove sub xs) s.event_registry, get-delete name n s.event_registry)
]

module _ (s : Router) (v : HasIndexes s) (sub : ℕ) (name : Text) where
  no_empty_set-unsubscribe_event :
      (n : Text) → get n (unsubscribe_event sub name s).0.event_registry ≢ some []
  unfolding unsubscribe_event forget_event
  no_empty_set-unsubscribe_event n = elim (Option-cases (get sub s.subscriptions)) [
    | inl missing ↦ ground (arith, v.no_empty_set n)
    | inr (m, found) ↦ ground (
      arith,
      v.no_empty_set n,
      no_empty_set-forget_subscriber sub name n (forget_event sub name m s),
    )
  ]

  no_empty_map-unsubscribe_event :
      (t : ℕ) → get t (unsubscribe_event sub name s).0.subscriptions ≢ some []
  unfolding unsubscribe_event forget_event forget_subscriber remove_window_listener
  no_empty_map-unsubscribe_event t = elim (Option-cases (get sub s.subscriptions)) [
    | inl missing ↦ ground (arith, v.no_empty_map t)
    | inr (m, found) ↦ ground (
      arith,
      v.no_empty_map t,
      get-set sub t (delete name m) s.subscriptions,
      get-delete sub t s.subscriptions,
    )
  ]

  pub unsubscribe_event-HasIndexes : HasIndexes (unsubscribe_event sub name s).0
  unsubscribe_event-HasIndexes = record {
    mirrored = mirrored-unsubscribe_event s v sub name;
    distinct = IsDistinct-unsubscribe_event s v sub name;
    no_empty_set = no_empty_set-unsubscribe_event;
    no_empty_map = no_empty_map-unsubscribe_event;
  }
