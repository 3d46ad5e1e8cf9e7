-- ===== src/EventRouter/Tests.antt =====
-- Runs of the router, and its theorems at concrete states.
use couch_companion_ui.Prelude.{
  ℕ, Bool, false, none, some, [], ◌∷◌, ◌++◌, Text, ◌≡◌, refl, arith, if◌then◌else◌, ◌===◌, ◌&&◌,
  not, map, get, remove, flat_map, values, text_eq, nat_eq, codes,
}
use couch_companion_ui.EventRouter.{
  Router, call, from_subscription, send, Behaviour, initial, sub_map, subscribers_of, subscribe,
  unsubscribe, publish, add_transport, notify, subscribe_name, enter_subscriber, enter_event,
  create_window_listener, dispatch_event, window_listener, forward_to_transports,
}
use couch_companion_ui.EventRouter.Invariant.{
  WellFormed, subscribe_one, unsubscribe_lem, here, next, subscribing, unsubscribing, adding,
  Reach-WellFormed,
}
use couch_companion_ui.EventRouter.Delivery.{
  calls_to, sends, callbacks, served, event_of, publish_lem, publish_once,
}

-- Callback 70 answers 9, and subscriber 1 has `fromSubscription`.
abbrev behaviour : Behaviour
behaviour = record {
  answer = λ callback sub event. if callback === 70 then some 9 else none;
  takes_results = λ sub. sub === 1;
}

abbrev two_subscribers : Router
two_subscribers =
    (subscribe 2 (codes "b" ∷ codes "a" ∷ []) (some 71)
      (subscribe 1 (codes "a" ∷ []) (some 70)
        (add_transport (codes "t") 5 initial).router).router).router

two_subscribers-WellFormed : WellFormed two_subscribers
two_subscribers-WellFormed =
    (Reach-WellFormed {b = behaviour} (
      next (next (next here (adding (codes "t") 5)) (subscribing 1 (codes "a" ∷ []) (some 70)))
        (subscribing 2 (codes "b" ∷ codes "a" ∷ []) (some 71)))).0

publish_effects :
    (publish behaviour (codes "a") 3 false two_subscribers).effects
    ≡ call 70 1 (event_of (codes "a") 3)
      ∷ from_subscription 1 9
      ∷ call 71 2 (event_of (codes "a") 3)
      ∷ send 5 (codes "a") 3
      ∷ []
unfolding publish subscribe add_transport subscribe_name enter_subscriber enter_event
    create_window_listener dispatch_event window_listener notify forward_to_transports
publish_effects = refl

two_subscribers_order : remove 1 (subscribers_of (codes "a") two_subscribers) ++ 1 ∷ [] ≡ 2 ∷ 1 ∷ []
unfolding subscribe add_transport subscribe_name enter_subscriber enter_event create_window_listener
two_subscribers_order = refl

abbrev is_item : ℕ → Bool
is_item t = t === 2

abbrev two_subscribers_name : Text
two_subscribers_name = codes "a"

two_subscribers_idle : two_subscribers.receiving ≡ false
unfolding subscribe add_transport subscribe_name enter_subscriber enter_event create_window_listener
two_subscribers_idle = refl

Reach-WellFormed_example :
    WellFormed (unsubscribe 3 two_subscribers) × ((unsubscribe 3 two_subscribers).receiving ≡ false)
Reach-WellFormed_example = Reach-WellFormed {b = behaviour} {s = unsubscribe 3 two_subscribers} (
    next
      (next (next (next here (adding (codes "t") 5)) (subscribing 1 (codes "a" ∷ []) (some 70)))
        (subscribing 2 (codes "b" ∷ codes "a" ∷ []) (some 71)))
      (unsubscribing 3))

unsubscribe_lem_example :
    WellFormed (unsubscribe 1 two_subscribers)
    × ((t : ℕ) (n : Text)
        → get n (sub_map t (unsubscribe 1 two_subscribers))
          ≡ (if 1 === t then none else get n (sub_map t two_subscribers)))
    × ((n : Text)
        → subscribers_of n (unsubscribe 1 two_subscribers)
          ≡ remove 1 (subscribers_of n two_subscribers))
unsubscribe_lem_example = unsubscribe_lem 1 two_subscribers two_subscribers-WellFormed

subscribe_one_example :
    ((t : ℕ) (n : Text)
      → get n (sub_map t (subscribe 1 (codes "a" ∷ []) none two_subscribers).router)
        ≡ (if 1 === t && codes "a" === n then some none else get n (sub_map t two_subscribers)))
    × ((n : Text)
        → subscribers_of n (subscribe 1 (codes "a" ∷ []) none two_subscribers).router ≡ (
            if codes "a" === n
            then remove 1 (subscribers_of n two_subscribers) ++ 1 ∷ []
            else subscribers_of n two_subscribers))
subscribe_one_example =
    subscribe_one 1 (codes "a") none two_subscribers two_subscribers-WellFormed (ground arith)

publish_lem_example :
    ((publish behaviour (codes "a") 3 false two_subscribers).router ≡ two_subscribers)
    × ((publish behaviour (codes "a") 3 false two_subscribers).effects
        ≡ flat_map
            (λ sub.
              served behaviour
                (event_of (codes "a") 3)
                sub
                (get (codes "a") (sub_map sub two_subscribers)))
            (subscribers_of (codes "a") two_subscribers)
          ++ (if not false && not two_subscribers.receiving
              then map (λ t. send t (codes "a") 3) (values two_subscribers.transports)
              else []))
publish_lem_example =
    publish_lem behaviour two_subscribers two_subscribers-WellFormed (codes "a") 3 false
      (ground arith)

publish_once_example :
    ((sub : ℕ)
      → calls_to sub (publish behaviour (codes "a") 3 false two_subscribers).effects
        ≡ callbacks (event_of (codes "a") 3) (get (codes "a") (sub_map sub two_subscribers)))
    × (sends (publish behaviour (codes "a") 3 false two_subscribers).effects ≡ (
        if not false && not two_subscribers.receiving
        then map (λ t. (t, codes "a", 3)) (values two_subscribers.transports)
        else []))
publish_once_example =
    publish_once behaviour two_subscribers two_subscribers-WellFormed (codes "a") 3 false
      (ground arith)
