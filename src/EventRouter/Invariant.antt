-- ===== src/EventRouter/Invariant.antt =====
-- The invariant of the router, kept by every method, and so by every run of them.
use couch_companion_ui.Prelude.{
  ℕ, Bool, true, false, Option, none, some, List, [], ◌∷◌, Text, ◌≡◌, refl, inl, inr, arith,
  if◌then◌else◌, ◌===◌, ◌&&◌, get, is_nil, remove, ◌++◌, text_eq, nat_eq, Bool-cases, Option-cases,
  ◌≢◌, ◌∙◌, keys,
}
use couch_companion_ui.EventRouter.{
  Router, initial, sub_map, subscribers_of, unsubscribe_event, unsubscribe, subscribe_name,
  subscribe, forget_event, forget_subscriber, remove_window_listener, enter_event, enter_subscriber,
  create_window_listener, unsubscribe_events, Behaviour, publish, publish_to, receive,
  add_transport, remove_transport,
}
use couch_companion_ui.EventRouter.Indexes.{HasIndexes, unsubscribe_event-HasIndexes}
use couch_companion_ui.EventRouter.Listeners.{IsListening, unsubscribe_event-IsListening}
use couch_companion_ui.EventRouter.Subscribing.{
  subscribe_name-HasIndexes, subscribe_name-IsListening, get-subscribe_name,
  subscribers_of-subscribe_name,
}
use couch_companion_ui.EventRouter.Unsubscribing.{
  unsubscribe-HasIndexes, unsubscribe-IsListening, get-unsubscribe, subscribers_of-unsubscribe,
}

pub record WellFormed (s : Router) : Type 0 where
  pub indexes : HasIndexes s
  pub window : IsListening s

pub initial-WellFormed : WellFormed initial
initial-WellFormed = record {
  indexes = record {
    mirrored = λ sub name. refl;
    distinct = λ name. tt;
    no_empty_set = λ name. ground arith;
    no_empty_map = λ sub. ground arith;
  };
  window = record { listening = λ name. refl; attached_eq = refl; names_distinct = tt };
}

pub unsubscribe_event-WellFormed :
    (sub : ℕ) (name : Text) (s : Router)
    → WellFormed s
    → WellFormed (unsubscribe_event sub name s).0
unsubscribe_event-WellFormed sub name s v = record {
  indexes = unsubscribe_event-HasIndexes s v.indexes sub name;
  window = unsubscribe_event-IsListening s v.window sub name;
}

-- In a state that has the invariant, `unsubscribe` keeps it, empties the subscriber's map, keeps every
-- other subscriber's callbacks, and takes the subscriber out of each event's set, the order of the others unchanged.
pub unsubscribe_lem :
    (sub : ℕ) (s : Router)
    → WellFormed s
    → WellFormed (unsubscribe sub s)
      × ((t : ℕ) (n : Text)
          → get n (sub_map t (unsubscribe sub s))
            ≡ (if sub === t then none else get n (sub_map t s)))
      × ((n : Text) → subscribers_of n (unsubscribe sub s) ≡ remove sub (subscribers_of n s))
unsubscribe_lem sub s v = (
  record {
    indexes = unsubscribe-HasIndexes sub s v.indexes;
    window = unsubscribe-IsListening sub s v.window;
  },
  λ t n. get-unsubscribe sub t n s,
  λ n. subscribers_of-unsubscribe sub n s v.indexes,
)

pub subscribe_name-WellFormed :
    (sub : ℕ) (callback : Option ℕ) (name : Text) (s : Router)
    → WellFormed s
    → WellFormed (subscribe_name sub callback name s)
subscribe_name-WellFormed sub callback name s v = record {
  indexes = subscribe_name-HasIndexes sub name callback s v.indexes;
  window = subscribe_name-IsListening sub name callback s v.window;
}

-- `subscribe` keeps the invariant, for any list of names, also where an empty name makes it throw
-- half way.
pub subscribe-WellFormed :
    (sub : ℕ) (names : List Text) (callback : Option ℕ) (s : Router)
    → WellFormed s
    → WellFormed (subscribe sub names callback s).router
unfolding subscribe
subscribe-WellFormed sub [] callback s v = v
subscribe-WellFormed sub (name ∷ names) callback s v = elim (Bool-cases (is_nil name)) [
  | inl empty ↦ rw empty v
  | inr named ↦
      rw named (
        subscribe-WellFormed sub names callback _ (subscribe_name-WellFormed sub callback name s v))
]

-- In a state that has the invariant, subscribing to one event whose name is not empty sets this
-- callback for the pair of subscriber and event and changes no other pair; the subscriber goes last
-- among the event's subscribers, once, also where it was one before, and the other events'
-- subscribers stay.
pub subscribe_one :
    (sub : ℕ) (name : Text) (callback : Option ℕ) (s : Router)
    → WellFormed s
    → name ≢ []
    → ((t : ℕ) (n : Text)
        → get n (sub_map t (subscribe sub (name ∷ []) callback s).router)
          ≡ (if sub === t && name === n then some callback else get n (sub_map t s)))
      × ((n : Text)
          → subscribers_of n (subscribe sub (name ∷ []) callback s).router ≡ (
              if name === n
              then remove sub (subscribers_of n s) ++ sub ∷ []
              else subscribers_of n s))
unfolding subscribe
subscribe_one sub [] callback s v h = absurd (h refl)
subscribe_one sub (c ∷ name) callback s v h = (
  get-subscribe_name sub (c ∷ name) callback s,
  subscribers_of-subscribe_name sub (c ∷ name) callback s v.indexes,
)

-- Two states with the same indexes and the same window.
same_state-WellFormed :
    (s t : Router)
    → t.subscriptions ≡ s.subscriptions
    → t.event_registry ≡ s.event_registry
    → t.window_listeners ≡ s.window_listeners
    → t.attached ≡ s.attached
    → WellFormed s
    → WellFormed t
same_state-WellFormed s t p q r a v = record {
  indexes = record {
    mirrored = λ sub name. rw (p, q) (v.indexes.mirrored sub name);
    distinct = λ name. rw q (v.indexes.distinct name);
    no_empty_set = λ name. rw q (v.indexes.no_empty_set name);
    no_empty_map = λ sub. rw p (v.indexes.no_empty_map sub);
  };
  window = record {
    listening = λ name. rw (r, q) (v.window.listening name);
    attached_eq = rw (a, r) v.window.attached_eq;
    names_distinct = rw r v.window.names_distinct;
  };
}

-- The methods of one router, and the messages of its transports, in any order.
pub data Step (b : Behaviour) (s : Router) : Router → Type 0 where
  subscribing :
      (sub : ℕ) (names : List Text) (callback : Option ℕ)
      → Step b s (subscribe sub names callback s).router
  unsubscribing : (sub : ℕ) → Step b s (unsubscribe sub s)
  unsubscribing_event : (sub : ℕ) (name : Text) → Step b s (unsubscribe_event sub name s).0
  publishing :
      (name : Text) (detail : ℕ) (is_local : Bool)
      → Step b s (publish b name detail is_local s).router
  publishing_to :
      (selector : Text) (matches : ℕ → Bool) (name : Text) (detail : ℕ)
      → Step b s (publish_to b selector matches name detail s).router
  receiving_one : (name : Text) (detail : ℕ) → Step b s (receive b name detail s).router
  adding : (id : Text) (transport : ℕ) → Step b s (add_transport id transport s).router
  removing : (id : Text) (transport : ℕ) → Step b s (remove_transport id transport s).router

pub data Reach (b : Behaviour) : Router → Type 0 where
  here : Reach b initial
  next : {s t : Router} → Reach b s → Step b s t → Reach b t

pub publish-router :
    (b : Behaviour) (name : Text) (detail : ℕ) (is_local : Bool) (s : Router)
    → (publish b name detail is_local s).router ≡ s
unfolding publish
publish-router b name detail is_local s = ground arith

Step-WellFormed : {b : Behaviour} {s t : Router} → Step b s t → WellFormed s → WellFormed t
unfolding receive add_transport remove_transport publish_to
Step-WellFormed {s} (subscribing sub names callback) v = subscribe-WellFormed sub names callback s v
Step-WellFormed {s} (unsubscribing sub) v = (unsubscribe_lem sub s v).0
Step-WellFormed {s} (unsubscribing_event sub name) v = unsubscribe_event-WellFormed sub name s v
Step-WellFormed {b} {s} (publishing name detail is_local) v =
    rw (publish-router b name detail is_local s) v
Step-WellFormed {s} (publishing_to selector matches name detail) v =
    same_state-WellFormed s _ (ground arith) (ground arith) (ground arith) (ground arith) v
Step-WellFormed {b} {s} (receiving_one name detail) v =
    rw (publish-router b name detail true (record s { receiving = true }))
      (same_state-WellFormed s _ refl refl refl refl v)
Step-WellFormed {s} (adding id transport) v =
    same_state-WellFormed s _ (ground arith) (ground arith) (ground arith) (ground arith) v
Step-WellFormed {s} (removing id transport) v =
    same_state-WellFormed s _ (ground arith) (ground arith) (ground arith) (ground arith) v

receiving-unsubscribe_event :
    (sub : ℕ) (name : Text) (s : Router) → (unsubscribe_event sub name s).0.receiving ≡ s.receiving
unfolding unsubscribe_event forget_event forget_subscriber remove_window_listener
receiving-unsubscribe_event sub name s = ground arith

receiving-unsubscribe_events :
    (sub : ℕ) (names : List Text) (s : Router)
    → (unsubscribe_events sub names s).receiving ≡ s.receiving
unfolding unsubscribe_events
receiving-unsubscribe_events sub [] s = refl
receiving-unsubscribe_events sub (name ∷ names) s =
    receiving-unsubscribe_events sub names _ ∙ receiving-unsubscribe_event sub name s

receiving-subscribe_name :
    (sub : ℕ) (callback : Option ℕ) (name : Text) (s : Router)
    → (subscribe_name sub callback name s).receiving ≡ s.receiving
unfolding subscribe_name enter_subscriber enter_event create_window_listener
receiving-subscribe_name sub callback name s =
    ground (arith, receiving-unsubscribe_event sub name s)

receiving-subscribe :
    (sub : ℕ) (names : List Text) (callback : Option ℕ) (s : Router)
    → (subscribe sub names callback s).router.receiving ≡ s.receiving
unfolding subscribe
receiving-subscribe sub [] callback s = refl
receiving-subscribe sub (name ∷ names) callback s = ground (
  arith,
  receiving-subscribe sub names callback (subscribe_name sub callback name s),
  receiving-subscribe_name sub callback name s,
)

Step-receiving :
    {b : Behaviour} {s t : Router} → Step b s t → s.receiving ≡ false → t.receiving ≡ false
unfolding receive add_transport remove_transport publish_to unsubscribe
Step-receiving {s} (subscribing sub names callback) h = receiving-subscribe sub names callback s ∙ h
Step-receiving {s} (unsubscribing sub) h = elim (Option-cases (get sub s.subscriptions)) [
  | inl missing ↦ ground arith
  | inr (m, found) ↦ ground (arith, receiving-unsubscribe_events sub (keys m) s)
]
Step-receiving {s} (unsubscribing_event sub name) h = receiving-unsubscribe_event sub name s ∙ h
Step-receiving {b} {s} (publishing name detail is_local) h =
    rw (publish-router b name detail is_local s) h
Step-receiving (publishing_to selector matches name detail) h = ground arith
Step-receiving (receiving_one name detail) h = refl
Step-receiving (adding id transport) h = ground arith
Step-receiving (removing id transport) h = ground arith

-- Every state that a new router reaches by its methods and its transports' messages keeps the two
-- indexes equal, has one window listener for each event with subscribers, and is not left marked as
-- receiving.
pub Reach-WellFormed :
    {b : Behaviour} {s : Router} → Reach b s → WellFormed s × (s.receiving ≡ false)
Reach-WellFormed here = (initial-WellFormed, refl)
Reach-WellFormed (next r st) =
    let (v, idle) = Reach-WellFormed r in (Step-WellFormed st v, Step-receiving st idle)
