-- ===== src/EventRouter.antt =====
-- src/customEventRouter.ts: the state of `CustomEventRouter` and its methods.
--
-- Objects, functions, transports and payloads are numbers, compared by identity as the source
-- compares them. `attached` is the part of the browser's window that the router touches: the
-- listeners that it has added, each with the event it was added for; `next_listener` makes each new
-- closure a new function. A method returns the new state with what it did outside the router, in
-- order. Callbacks do not call the router back, and they return: a callback that throws would end its
-- listener's `forEach` before the later subscribers are called, which is not modelled.
mod Views
mod Indexes
mod Listeners
mod Subscribing
mod Unsubscribing
pub mod Invariant
pub mod Delivery
mod Tests
use couch_companion_ui.Prelude.{
  ℕ, ◌+◌, Bool, true, false, not, ◌&&◌, ◌||◌, Option, none, some, List, [], ◌∷◌, ◌++◌, map, Text,
  if◌then◌else◌, ◌===◌, Dict, get, has, set, delete, keys, option_or, is_nil, add, remove, filter,
  flat_map, values, text_eq, nat_eq,
}

pub record Router : Type 0 where
  pub subscriptions : Dict ℕ (Dict Text (Option ℕ))
  pub event_registry : Dict Text (List ℕ)
  pub window_listeners : Dict Text ℕ
  pub attached : List (Text × ℕ)
  pub next_listener : ℕ
  pub transports : Dict Text ℕ
  pub receiving : Bool

pub record Event : Type 0 where
  pub name : Text
  pub detail : ℕ

pub data Effect : Type 0 where
  -- callback, subscriber, event
  call : ℕ → ℕ → Event → Effect
  -- subscriber, the result handed to its `fromSubscription`
  from_subscription : ℕ → ℕ → Effect
  -- transport, event name, payload
  send : ℕ → Text → ℕ → Effect
  on_receive destroy : ℕ → Effect

-- How a method ends: `throw new Error(...)` keeps what was done before it.
pub data Outcome : Type 0 where
  returned threw : Outcome

pub record Result : Type 0 where
  pub router : Router
  pub effects : List Effect
  pub outcome : Outcome

abbrev pub initial : Router
initial = record {
  subscriptions = [];
  event_registry = [];
  window_listeners = [];
  attached = [];
  next_listener = 0;
  transports = [];
  receiving = false;
}

abbrev pub silently : Router → Result
silently s = record { router = s; effects = []; outcome = returned }

abbrev pub throwing : Router → Result
throwing s = record { router = s; effects = []; outcome = threw }

-- The subscriber's map, empty where there is none, and the event's set likewise.
abbrev pub sub_map : ℕ → Router → Dict Text (Option ℕ)
sub_map sub s = option_or (get sub s.subscriptions) []

abbrev pub subscribers_of : Text → Router → List ℕ
subscribers_of name s = option_or (get name s.event_registry) []

-- `window.addEventListener(eventName, windowListener, true)` with a new closure.
pub create_window_listener : Text → Router → Router
create_window_listener name s = record s {
  attached = s.attached ++ (name, s.next_listener) ∷ [];
  window_listeners = set name s.next_listener s.window_listeners;
  next_listener = s.next_listener + 1;
}

-- `window.removeEventListener` takes away the function that it is given, for that event.
pub detach : Text → ℕ → List (Text × ℕ) → List (Text × ℕ)
detach name listener [] = []
detach name listener ((n, l) ∷ rest) =
    if n === name && l === listener
    then detach name listener rest
    else (n, l) ∷ detach name listener rest

pub remove_window_listener : Text → Router → Router
remove_window_listener name s = elim (get name s.window_listeners) [
  | none ↦ s
  | some listener ↦ record s {
    attached = detach name listener s.attached;
    window_listeners = delete name s.window_listeners;
  }
]

-- `subMap.delete(eventName)`, and the map itself once it is empty.
pub forget_event : ℕ → Text → Dict Text (Option ℕ) → Router → Router
forget_event sub name m s =
    let left = delete name m in
    record s {
      subscriptions =
          if is_nil left then delete sub s.subscriptions else set sub left s.subscriptions;
    }

-- `eventSet.delete(subscriber)`, and the set and its window listener once it is empty.
pub forget_subscriber : ℕ → Text → Router → Router
forget_subscriber sub name s = elim (get name s.event_registry) [
  | none ↦ s
  | some event_set ↦
      let left = remove sub event_set in
      let quiet = remove_window_listener name s in
      if is_nil left
      then record quiet { event_registry = delete name quiet.event_registry }
      else record s { event_registry = set name left s.event_registry }
]

pub unsubscribe_event : ℕ → Text → Router → Router × Bool
unsubscribe_event sub name s = elim (get sub s.subscriptions) [
  | none ↦ (s, false)
  | some m ↦
      if has name m
      then (forget_subscriber sub name (forget_event sub name m s), true)
      else (s, false)
]

-- The loop of `unsubscribe` over a snapshot of the keys.
pub unsubscribe_events : ℕ → List Text → Router → Router
unsubscribe_events sub [] s = s
unsubscribe_events sub (name ∷ names) s =
    unsubscribe_events sub names (unsubscribe_event sub name s).0

pub unsubscribe : ℕ → Router → Router
unsubscribe sub s = elim (get sub s.subscriptions) [
  | none ↦ s
  | some m ↦
      let s' = unsubscribe_events sub (keys m) s in
      record s' { subscriptions = delete sub s'.subscriptions }
]

pub enter_event : ℕ → Text → Option ℕ → Router → Router
enter_event sub name callback s = record s {
  subscriptions = set sub (set name callback (sub_map sub s)) s.subscriptions;
}

pub enter_subscriber : ℕ → Text → Router → Router
enter_subscriber sub name s =
    let s' =
      if has name s.event_registry
      then s
      else create_window_listener name
          (record s { event_registry = set name [] s.event_registry }) in
    record s' { event_registry = set name (add sub (subscribers_of name s')) s'.event_registry }

-- One round of `subscribe`, on a name that is not empty.
pub subscribe_name : ℕ → Option ℕ → Text → Router → Router
subscribe_name sub callback name s =
    let cleared = if has name (sub_map sub s) then (unsubscribe_event sub name s).0 else s in
    enter_subscriber sub name (enter_event sub name callback cleared)

pub subscribe : ℕ → List Text → Option ℕ → Router → Result
subscribe sub [] callback s = silently s
subscribe sub (name ∷ names) callback s =
    let later = subscribe sub names callback (subscribe_name sub callback name s) in
    if is_nil name then throwing s else later

pub subscriptions_of : ℕ → Router → List Text
subscriptions_of sub s = keys (sub_map sub s)

-- `subscribers(eventName)`: `none` where it throws
pub subscribers : Text → Router → Option (List ℕ)
subscribers name s = if is_nil name then none else some (subscribers_of name s)

-- What the callbacks return (`none` is `undefined`), and which subscribers have a
-- `fromSubscription` method. A callback that throws is outside the model.
pub record Behaviour : Type 0 where
  pub answer : ℕ → ℕ → Event → Option ℕ
  pub takes_results : ℕ → Bool

module _ (b : Behaviour) where
  -- One subscriber's share of a window listener's work, and of `publishTo`.
  pub notify : Router → Event → ℕ → List Effect
  notify s event sub = elim (get event.name (sub_map sub s)) [
    | none ↦ []
    | some none ↦ []
    | some (some callback) ↦ call callback sub event ∷ elim (b.answer callback sub event) [
      | none ↦ []
      | some result ↦ if b.takes_results sub then from_subscription sub result ∷ [] else []
    ]
  ]

  -- A window listener that the router made for `eventName`.
  pub window_listener : Text → Router → Event → List Effect
  window_listener name s event = flat_map (notify s event) (subscribers_of name s)

  -- `window.dispatchEvent`: each attached listener of that event, in order.
  pub dispatch_event : Router → Event → List (Text × ℕ) → List Effect
  dispatch_event s event [] = []
  dispatch_event s event ((name, l) ∷ rest) =
      if name === event.name
      then window_listener name s event ++ dispatch_event s event rest
      else dispatch_event s event rest

  pub forward_to_transports : Router → Text → ℕ → List Effect
  forward_to_transports s name detail = map (λ t. send t name detail) (values s.transports)

  pub publish : Text → ℕ → Bool → Router → Result
  publish name detail is_local s =
      let relayed =
        if not is_local && not s.receiving then forward_to_transports s name detail else [] in
      let delivered = dispatch_event s (record { name = name; detail = detail }) s.attached in
      if is_nil name
      then throwing s
      else if is_nil (subscribers_of name s)
      then record { router = s; effects = relayed; outcome = returned }
      else record { router = s; effects = delivered ++ relayed; outcome = returned }

  -- The handler that `addTransport` gives to the transport, with its `try ... finally`.
  pub receive : Text → ℕ → Router → Result
  receive name detail s =
      let done = publish name detail true (record s { receiving = true }) in
      record done { router = record (done.router) { receiving = false } }

  -- `publishTo`: `matches` says which subscribers are elements that match the selector.
  pub publish_to : Text → (ℕ → Bool) → Text → ℕ → Router → Result
  publish_to selector matches name detail s =
      let snapshot = filter matches (subscribers_of name s) in
      let event : Event = record { name = name; detail = detail } in
      if is_nil selector || is_nil name
      then throwing s
      else record { router = s; effects = flat_map (notify s event) snapshot; outcome = returned }

pub add_transport : Text → ℕ → Router → Result
add_transport id transport s = if has id s.transports then silently s else record {
  router = record s { transports = set id transport s.transports };
  effects = on_receive transport ∷ [];
  outcome = returned;
}

pub remove_transport : Text → ℕ → Router → Result
remove_transport id transport s = if not (has id s.transports) then silently s else record {
  router = record s { transports = delete id s.transports };
  effects = destroy transport ∷ [];
  outcome = returned;
}
