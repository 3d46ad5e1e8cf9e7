-- ===== src/EventRouter/Unsubscribing.antt =====
-- `unsubscribe`: its loop takes the subscriber out of every event.
use couch_companion_ui.Prelude.{
  ℕ, ◌&&◌, none, some, List, [], ◌∷◌, Text, ◌≡◌, ◌≢◌, refl, inl, inr, arith, if◌then◌else◌, ◌===◌,
  get, has, remove, keys, contains, text_eq, nat_eq, nat_beq_iff, text_beq_iff, get-delete,
  Bool-cases, Option-cases, contains-remove, remove_of_absent, contains-keys, remove-IsDistinct,
}
use couch_companion_ui.EventRouter.{
  Router, sub_map, subscribers_of, unsubscribe_event, unsubscribe_events, unsubscribe,
}
use couch_companion_ui.EventRouter.Views.{
  sub_map-unsubscribe_event, subscribers_of-unsubscribe_event, unsubscribe_event_of_absent,
}
use couch_companion_ui.EventRouter.Indexes.{HasIndexes, unsubscribe_event-HasIndexes}
use couch_companion_ui.EventRouter.Listeners.{IsListening, unsubscribe_event-IsListening}

get-unsubscribe_events :
    (sub t : ℕ) (n : Text) (names : List Text) (s : Router)
    → get n (sub_map t (unsubscribe_events sub names s))
      ≡ (if sub === t && contains n names then none else get n (sub_map t s))
unfolding unsubscribe_events
get-unsubscribe_events sub t n [] s = ground arith
get-unsubscribe_events sub t n (name ∷ names) s = ground (
  arith,
  get-unsubscribe_events sub t n names (unsubscribe_event sub name s).0,
  sub_map-unsubscribe_event sub t name s,
  get-delete name n (sub_map t s),
)

unsubscribe_events-HasIndexes :
    (sub : ℕ) (names : List Text) (s : Router)
    → HasIndexes s
    → HasIndexes (unsubscribe_events sub names s)
unfolding unsubscribe_events
unsubscribe_events-HasIndexes sub [] s v = v
unsubscribe_events-HasIndexes sub (name ∷ names) s v =
    unsubscribe_events-HasIndexes sub names _ (unsubscribe_event-HasIndexes s v sub name)

unsubscribe_events-IsListening :
    (sub : ℕ) (names : List Text) (s : Router)
    → IsListening s
    → IsListening (unsubscribe_events sub names s)
unfolding unsubscribe_events
unsubscribe_events-IsListening sub [] s v = v
unsubscribe_events-IsListening sub (name ∷ names) s v =
    unsubscribe_events-IsListening sub names _ (unsubscribe_event-IsListening s v sub name)

-- Under the invariant the set always loses the subscriber, held or not.
pub subscribers_of-unsubscribe_event_all :
    (sub : ℕ) (name n : Text) (s : Router)
    → HasIndexes s
    → subscribers_of n (unsubscribe_event sub name s).0
      ≡ (if name === n then remove sub (subscribers_of n s) else subscribers_of n s)
subscribers_of-unsubscribe_event_all sub name n s v = elim (Bool-cases (has name (sub_map sub s))) [
  | inl held ↦ subscribers_of-unsubscribe_event sub name n s held
  | inr free ↦ rw (unsubscribe_event_of_absent sub name s free) (
      ground
        (arith, text_beq_iff name n, v.mirrored sub n, remove_of_absent sub (subscribers_of n s)))
]

subscribers_of-unsubscribe_events :
    (sub : ℕ) (n : Text) (names : List Text) (s : Router)
    → HasIndexes s
    → subscribers_of n (unsubscribe_events sub names s)
      ≡ (if contains n names then remove sub (subscribers_of n s) else subscribers_of n s)
unfolding unsubscribe_events
subscribers_of-unsubscribe_events sub n [] s v = refl
subscribers_of-unsubscribe_events sub n (name ∷ names) s v = ground (
  arith,
  subscribers_of-unsubscribe_events sub n names (unsubscribe_event sub name s).0
      (unsubscribe_event-HasIndexes s v sub name),
  subscribers_of-unsubscribe_event_all sub name n s v,
  contains-remove sub sub (subscribers_of n s),
  remove_of_absent sub (remove sub (subscribers_of n s)),
  nat_beq_iff sub sub,
)

-- No other subscriber's map changes, and the subscriber's own is empty.
pub get-unsubscribe :
    (sub t : ℕ) (n : Text) (s : Router)
    → get n (sub_map t (unsubscribe sub s)) ≡ (if sub === t then none else get n (sub_map t s))
unfolding unsubscribe
get-unsubscribe sub t n s = elim (Option-cases (get sub s.subscriptions)) [
  | inl missing ↦ ground (arith, nat_beq_iff sub t)
  | inr (m, found) ↦ ground (
    arith,
    get-delete sub t (unsubscribe_events sub (keys m) s).subscriptions,
    get-unsubscribe_events sub t n (keys m) s,
  )
]

pub subscribers_of-unsubscribe :
    (sub : ℕ) (n : Text) (s : Router)
    → HasIndexes s
    → subscribers_of n (unsubscribe sub s) ≡ remove sub (subscribers_of n s)
unfolding unsubscribe
subscribers_of-unsubscribe sub n s v = elim (Option-cases (get sub s.subscriptions)) [
  | inl missing ↦ ground (arith, v.mirrored sub n, remove_of_absent sub (subscribers_of n s))
  | inr (m, found) ↦ ground (
    arith,
    subscribers_of-unsubscribe_events sub n (keys m) s v,
    contains-keys n m,
    v.mirrored sub n,
    remove_of_absent sub (subscribers_of n s),
  )
]

pub unsubscribe-IsListening :
    (sub : ℕ) (s : Router) → IsListening s → IsListening (unsubscribe sub s)
unfolding unsubscribe
unsubscribe-IsListening sub s v = elim (Option-cases (get sub s.subscriptions)) [
  | inl missing ↦ rw (missing, unsubscribe) v
  | inr (m, found) ↦
      rw (found, unsubscribe)
        (let w = unsubscribe_events-IsListening sub (keys m) s v in
          record {
            listening = w.listening;
            attached_eq = w.attached_eq;
            names_distinct = w.names_distinct;
          })
]

module _ (sub : ℕ) (s : Router) (v : HasIndexes s) where
  no_empty_set-unsubscribe : (n : Text) → get n (unsubscribe sub s).event_registry ≢ some []
  unfolding unsubscribe
  no_empty_set-unsubscribe n = elim (Option-cases (get sub s.subscriptions)) [
    | inl missing ↦ rw (missing, unsubscribe) (v.no_empty_set n)
    | inr (m, found) ↦
        rw (found, unsubscribe) ((unsubscribe_events-HasIndexes sub (keys m) s v).no_empty_set n)
  ]

  no_empty_map-unsubscribe : (t : ℕ) → get t (unsubscribe sub s).subscriptions ≢ some []
  unfolding unsubscribe
  no_empty_map-unsubscribe t = elim (Option-cases (get sub s.subscriptions)) [
    | inl missing ↦ rw (missing, unsubscribe) (v.no_empty_map t)
    | inr (m, found) ↦ ground (
      arith,
      get-delete sub t (unsubscribe_events sub (keys m) s).subscriptions,
      (unsubscribe_events-HasIndexes sub (keys m) s v).no_empty_map t,
    )
  ]

  mirrored-unsubscribe :
      (t : ℕ) (n : Text)
      → contains t (subscribers_of n (unsubscribe sub s)) ≡ has n (sub_map t (unsubscribe sub s))
  mirrored-unsubscribe t n = ground (
    arith,
    subscribers_of-unsubscribe sub n s v,
    contains-remove sub t (subscribers_of n s),
    get-unsubscribe sub t n s,
    v.mirrored t n,
  )

  pub unsubscribe-HasIndexes : HasIndexes (unsubscribe sub s)
  unsubscribe-HasIndexes = record {
    mirrored = mirrored-unsubscribe;
    distinct = λ n.
        rw (subscribers_of-unsubscribe sub n s v)
          (remove-IsDistinct sub (subscribers_of n s) (v.distinct n));
    no_empty_set = no_empty_set-unsubscribe;
    no_empty_map = no_empty_map-unsubscribe;
  }
