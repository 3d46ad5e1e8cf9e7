-- ===== src/EventRouter/Delivery.antt =====
-- What `publish` and the transports' messages do outside the router.
use couch_companion_ui.Prelude.{
  ℕ, Bool, true, false, not, Option, none, some, List, [], ◌∷◌, ◌++◌, map, Text, ◌≡◌, ◌≢◌, refl,
  inl, inr, arith, if◌then◌else◌, ◌===◌, ◌&&◌, get, has, is_nil, keys, flat_map, contains, text_eq,
  nat_eq, nat_beq_iff, text_beq_iff, Bool-cases, IsDistinct, contains-keys, append-nil, values, ap,
  ◌∙◌, is_some,
}
use couch_companion_ui.EventRouter.{
  Router, Event, Effect, call, from_subscription, send, Behaviour, sub_map, subscribers_of, notify,
  window_listener, dispatch_event, forward_to_transports, publish,
}
use couch_companion_ui.EventRouter.Invariant.{WellFormed, publish-router}

-- The calls to one subscriber, each with the callback and the event that it is given, and what goes to
-- the transports, in order.
pub calls_to : ℕ → List Effect → List (ℕ × Event)
calls_to sub [] = []
calls_to sub (call c t event ∷ es) =
    let rest = calls_to sub es in if t === sub then (c, event) ∷ rest else rest
calls_to sub (_ ∷ es) = calls_to sub es

pub sends : List Effect → List (ℕ × Text × ℕ)
sends [] = []
sends (send t name detail ∷ es) = (t, name, detail) ∷ sends es
sends (_ ∷ es) = sends es

calls_to-append :
    (sub : ℕ) (es fs : List Effect) → calls_to sub (es ++ fs) ≡ calls_to sub es ++ calls_to sub fs
unfolding calls_to
calls_to-append sub [] fs = refl
calls_to-append sub (call c t event ∷ es) fs = ground (arith, calls_to-append sub es fs)
calls_to-append sub (_ ∷ es) fs = calls_to-append sub es fs

sends-append : (es fs : List Effect) → sends (es ++ fs) ≡ sends es ++ sends fs
unfolding sends
sends-append [] fs = refl
sends-append (send t name detail ∷ es) fs = ap (λ l. (t, name, detail) ∷ l) (sends-append es fs)
sends-append (_ ∷ es) fs = sends-append es fs

-- The call that a subscription with a callback makes.
abbrev pub callbacks : Event → Option (Option ℕ) → List (ℕ × Event)
callbacks event none = []
callbacks event (some none) = []
callbacks event (some (some c)) = (c, event) ∷ []

-- What a subscriber's callback does: it is called once, and its result goes to the subscriber if that
-- takes results.
abbrev pub answered : Behaviour → ℕ → Option ℕ → List Effect
answered b sub none = []
answered b sub (some result) = if b.takes_results sub then from_subscription sub result ∷ [] else []

abbrev pub served : Behaviour → Event → ℕ → Option (Option ℕ) → List Effect
served b event sub none = []
served b event sub (some none) = []
served b event sub (some (some c)) = call c sub event ∷ answered b sub (b.answer c sub event)

module _ (b : Behaviour) (s : Router) (event : Event) where
  calls_to-notify :
      (sub t : ℕ)
      → calls_to sub (notify b s event t)
        ≡ (if t === sub then callbacks event (get event.name (sub_map t s)) else [])
  unfolding notify calls_to
  calls_to-notify sub t = ground arith

  sends-notify : (t : ℕ) → sends (notify b s event t) ≡ []
  unfolding notify sends
  sends-notify t = ground arith

  calls_to-flat_map :
      (sub : ℕ) (ts : List ℕ)
      → IsDistinct ts
      → calls_to sub (flat_map (notify b s event) ts)
        ≡ (if contains sub ts then callbacks event (get event.name (sub_map sub s)) else [])
  unfolding calls_to
  calls_to-flat_map sub [] d = refl
  calls_to-flat_map sub (t ∷ ts) (fresh, d) = ground (
    arith,
    calls_to-append sub (notify b s event t) (flat_map (notify b s event) ts),
    calls_to-notify sub t,
    calls_to-flat_map sub ts d,
    nat_beq_iff t sub,
  )

  sends-flat_map : (ts : List ℕ) → sends (flat_map (notify b s event) ts) ≡ []
  unfolding sends
  sends-flat_map [] = refl
  sends-flat_map (t ∷ ts) =
      sends-append (notify b s event t) (flat_map (notify b s event) ts)
      ∙ ap (λ l. l ++ sends (flat_map (notify b s event) ts)) (sends-notify t)
      ∙ sends-flat_map ts

  dispatch_event_of_absent :
      (d : List (Text × ℕ)) → has event.name d ≡ false → dispatch_event b s event d ≡ []
  unfolding dispatch_event
  dispatch_event_of_absent [] h = refl
  dispatch_event_of_absent ((n, l) ∷ d) h = ground (arith, dispatch_event_of_absent d)

  -- With one listener at most for each event, the event reaches the subscribers once.
  dispatch_event_once :
      (d : List (Text × ℕ))
      → IsDistinct (keys d)
      → has event.name d ≡ true
      → dispatch_event b s event d ≡ window_listener b event.name s event
  unfolding dispatch_event
  dispatch_event_once [] k h = cc
  dispatch_event_once ((n, l) ∷ d) (fresh, k) h = elim (Bool-cases (n === event.name)) [
    | inl same ↦
        let e = (text_beq_iff n event.name).0 same in
        rw (same, dispatch_event)
          (rw (dispatch_event_of_absent d (ground (arith, contains-keys n d)))
            (rw append-nil (rw e refl)))
    | inr other ↦ rw (other, dispatch_event) (dispatch_event_once d k (ground arith))
  ]

abbrev pub relayed : Behaviour → Text → ℕ → Bool → Router → List Effect
relayed b name detail is_local s =
    if not is_local && not s.receiving then forward_to_transports b s name detail else []

abbrev pub event_of : Text → ℕ → Event
event_of name detail = record { name = name; detail = detail }

sends-map :
    (name : Text) (detail : ℕ) (ts : List ℕ)
    → sends (map (λ t. send t name detail) ts) ≡ map (λ t. (t, name, detail)) ts
unfolding sends
sends-map name detail [] = refl
sends-map name detail (t ∷ ts) = ap (λ l. (t, name, detail) ∷ l) (sends-map name detail ts)

calls_to-map :
    (sub : ℕ) (name : Text) (detail : ℕ) (ts : List ℕ)
    → calls_to sub (map (λ t. send t name detail) ts) ≡ []
unfolding calls_to
calls_to-map sub name detail [] = refl
calls_to-map sub name detail (t ∷ ts) = calls_to-map sub name detail ts

notify-served :
    (b : Behaviour) (s : Router) (event : Event) (sub : ℕ)
    → notify b s event sub ≡ served b event sub (get event.name (sub_map sub s))
unfolding notify
notify-served b s event sub = ground arith

flat_map-served :
    (b : Behaviour) (s : Router) (event : Event) (ts : List ℕ)
    → flat_map (notify b s event) ts
      ≡ flat_map (λ sub. served b event sub (get event.name (sub_map sub s))) ts
flat_map-served b s event [] = refl
flat_map-served b s event (t ∷ ts) =
    ap (λ l. l ++ flat_map (notify b s event) ts) (notify-served b s event t)
    ∙ ap (λ l. served b event t (get event.name (sub_map t s)) ++ l) (flat_map-served b s event ts)

module _ (b : Behaviour) (s : Router) (v : WellFormed s) (name : Text) (detail : ℕ) where
  -- The window's part of a publication: each of the event's subscribers, in the set's order.
  dispatch_event-attached :
      is_nil (subscribers_of name s) ≡ false
      → dispatch_event b s (event_of name detail) s.attached
        ≡ flat_map (notify b s (event_of name detail)) (subscribers_of name s)
  unfolding window_listener
  dispatch_event-attached h =
      ap (dispatch_event b s (event_of name detail)) v.window.attached_eq
      ∙ dispatch_event_once b s (event_of name detail) s.window_listeners v.window.names_distinct
          (ground (arith, v.window.listening name))

  published :
      (is_local : Bool)
      → name ≢ []
      → (publish b name detail is_local s).effects
        ≡ flat_map (notify b s (event_of name detail)) (subscribers_of name s)
          ++ relayed b name detail is_local s
  published is_local h = elim (Bool-cases (is_nil (subscribers_of name s))) [
    | inl quiet ↦ unfold publish in ground arith
    | inr heard ↦ unfold publish in ground (arith, dispatch_event-attached heard)
  ]

  -- Publishing under a name that is not empty leaves the router as it is, and does this: for each
  -- subscriber of the event, in order, its callback for the event is called once with the event, and
  -- what the callback answers goes to a subscriber that takes results; then each transport, in order,
  -- is sent the message, unless the event is local or came from a transport. The callbacks return.
  pub publish_lem :
      (is_local : Bool)
      → name ≢ []
      → ((publish b name detail is_local s).router ≡ s)
        × ((publish b name detail is_local s).effects
            ≡ flat_map
                (λ sub. served b (event_of name detail) sub (get name (sub_map sub s)))
                (subscribers_of name s)
              ++ (if not is_local && not s.receiving
                  then map (λ t. send t name detail) (values s.transports)
                  else []))
  unfolding forward_to_transports
  publish_lem is_local h = (
    publish-router b name detail is_local s,
    published is_local h
        ∙ ap (λ l. l ++ relayed b name detail is_local s)
            (flat_map-served b s (event_of name detail) (subscribers_of name s)),
  )

  calls_to-relayed :
      (sub : ℕ) (is_local : Bool) → calls_to sub (relayed b name detail is_local s) ≡ []
  unfolding calls_to forward_to_transports
  calls_to-relayed sub is_local = ground (arith, calls_to-map sub name detail (values s.transports))

  sends-relayed :
      (is_local : Bool)
      → sends (relayed b name detail is_local s) ≡ (
          if not is_local && not s.receiving
          then map (λ t. (t, name, detail)) (values s.transports)
          else [])
  unfolding sends forward_to_transports
  sends-relayed is_local = ground (arith, sends-map name detail (values s.transports))

  -- A publication calls a subscriber exactly once where its map has a callback for the event, with
  -- that callback and the event, and not at all where it has none; it sends the message once to each
  -- transport, and to none where it is local or the router is passing on a transport's message. The
  -- callbacks return.
  pub publish_once :
      (is_local : Bool)
      → name ≢ []
      → ((sub : ℕ)
          → calls_to sub (publish b name detail is_local s).effects
            ≡ callbacks (event_of name detail) (get name (sub_map sub s)))
        × (sends (publish b name detail is_local s).effects ≡ (
            if not is_local && not s.receiving
            then map (λ t. (t, name, detail)) (values s.transports)
            else []))
  publish_once is_local h = (
    λ sub.
        ap (calls_to sub) (published is_local h)
        ∙ calls_to-append sub (flat_map (notify b s (event_of name detail)) (subscribers_of name s))
            (relayed b name detail is_local s)
        ∙ ap
            (λ l.
              calls_to sub (flat_map (notify b s (event_of name detail)) (subscribers_of name s))
              ++ l)
            (calls_to-relayed sub is_local)
        ∙ append-nil _
        ∙ calls_to-flat_map b s (event_of name detail) sub (subscribers_of name s)
            (v.indexes.distinct name)
        ∙ heard sub (get name (sub_map sub s)) (v.indexes.mirrored sub name),
    ap sends (published is_local h)
        ∙ sends-append (flat_map (notify b s (event_of name detail)) (subscribers_of name s))
            (relayed b name detail is_local s)
        ∙ ap (λ l. l ++ sends (relayed b name detail is_local s))
            (sends-flat_map b s (event_of name detail) (subscribers_of name s))
        ∙ sends-relayed is_local,
  )
    where
      heard :
          (sub : ℕ) (o : Option (Option ℕ))
          → contains sub (subscribers_of name s) ≡ is_some o
          → (if contains sub (subscribers_of name s)
              then callbacks (event_of name detail) o
              else [])
            ≡ callbacks (event_of name detail) o
      heard sub none e = rw e refl
      heard sub (some c) e = rw e refl
