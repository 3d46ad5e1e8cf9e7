-- ===== src/EventRouter/Views.antt =====
-- What each step leaves in the two indexes of the router, read through `sub_map` and
-- `subscribers_of`.
use couch_companion_ui.Prelude.{
  ℕ, true, false, ◌&&◌, Option, some, [], Text, ◌≡◌, inl, inr, arith, if◌then◌else◌, ◌===◌, get,
  has, set, delete, add, remove, text_eq, nat_eq, nat_beq_iff, text_beq_iff, get-set, get-delete,
  delete_of_absent, Option-cases, Dict,
}
use couch_companion_ui.EventRouter.{
  Router, sub_map, subscribers_of, create_window_listener, remove_window_listener, forget_event,
  forget_subscriber, unsubscribe_event, enter_event, enter_subscriber,
}

sub_map-forget_subscriber :
    (sub : ℕ) (name : Text) (s : Router)
    → (forget_subscriber sub name s).subscriptions ≡ s.subscriptions
unfolding forget_subscriber remove_window_listener
sub_map-forget_subscriber sub name s = ground arith

sub_map-forget_event :
    (sub : ℕ) (name : Text) (t : ℕ) (m : Dict Text (Option ℕ)) (s : Router)
    → sub_map t (forget_event sub name m s) ≡ (if sub === t then delete name m else sub_map t s)
unfolding forget_event
sub_map-forget_event sub name t m s =
    ground (arith, get-set sub t (delete name m) s.subscriptions, get-delete sub t s.subscriptions)

pub sub_map-unsubscribe_event :
    (sub t : ℕ) (name : Text) (s : Router)
    → sub_map t (unsubscribe_event sub name s).0
      ≡ (if sub === t then delete name (sub_map t s) else sub_map t s)
unfolding unsubscribe_event
sub_map-unsubscribe_event sub t name s = elim (Option-cases (get sub s.subscriptions)) [
  | inl missing ↦ ground (arith, nat_beq_iff sub t)
  | inr (m, found) ↦ ground (
    arith,
    nat_beq_iff sub t,
    delete_of_absent name m,
    sub_map-forget_event sub name t m s,
    sub_map-forget_subscriber sub name (forget_event sub name m s),
  )
]

pub subscribers_of-forget_subscriber :
    (sub : ℕ) (name n : Text) (s : Router)
    → subscribers_of n (forget_subscriber sub name s)
      ≡ (if name === n then remove sub (subscribers_of n s) else subscribers_of n s)
unfolding forget_subscriber remove_window_listener
subscribers_of-forget_subscriber sub name n s = elim (Option-cases (get name s.event_registry)) [
  | inl missing ↦ ground (arith, text_beq_iff name n)
  | inr (xs, found) ↦ ground (
    arith,
    text_beq_iff name n,
    get-set name n (remove sub xs) s.event_registry,
    get-delete name n s.event_registry,
    Option-cases (get name s.window_listeners),
  )
]

pub subscribers_of-unsubscribe_event :
    (sub : ℕ) (name n : Text) (s : Router)
    → has name (sub_map sub s) ≡ true
    → subscribers_of n (unsubscribe_event sub name s).0
      ≡ (if name === n then remove sub (subscribers_of n s) else subscribers_of n s)
unfolding unsubscribe_event forget_event
subscribers_of-unsubscribe_event sub name n s h = elim (Option-cases (get sub s.subscriptions)) [
  | inl missing ↦ ground arith
  | inr (m, found) ↦
      ground (arith, subscribers_of-forget_subscriber sub name n (forget_event sub name m s))
]

pub unsubscribe_event_of_absent :
    (sub : ℕ) (name : Text) (s : Router)
    → has name (sub_map sub s) ≡ false
    → unsubscribe_event sub name s ≡ (s, false)
unfolding unsubscribe_event
unsubscribe_event_of_absent sub name s h = ground arith

pub get-enter_event :
    (sub t : ℕ) (name n : Text) (callback : Option ℕ) (s : Router)
    → get n (sub_map t (enter_event sub name callback s))
      ≡ (if sub === t && name === n then some callback else get n (sub_map t s))
unfolding enter_event
get-enter_event sub t name n callback s = ground (
  arith,
  nat_beq_iff sub t,
  get-set sub t (set name callback (sub_map sub s)) s.subscriptions,
  get-set name n callback (sub_map sub s),
)

pub enter_subscriber-subscriptions :
    (sub : ℕ) (name : Text) (s : Router)
    → (enter_subscriber sub name s).subscriptions ≡ s.subscriptions
unfolding enter_subscriber create_window_listener
enter_subscriber-subscriptions sub name s = ground arith

pub subscribers_of-enter_subscriber :
    (sub : ℕ) (name n : Text) (s : Router)
    → subscribers_of n (enter_subscriber sub name s)
      ≡ (if name === n then add sub (subscribers_of n s) else subscribers_of n s)
unfolding enter_subscriber create_window_listener
subscribers_of-enter_subscriber sub name n s = elim (Option-cases (get name s.event_registry)) [
  | inl missing ↦ ground (
    arith,
    text_beq_iff name n,
    text_beq_iff name name,
    get-set name n [] s.event_registry,
    get-set name name [] s.event_registry,
    get-set name n (add sub []) (set name [] s.event_registry),
  )
  | inr (xs, found) ↦
      ground (arith, text_beq_iff name n, get-set name n (add sub xs) s.event_registry)
]
