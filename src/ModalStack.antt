-- ===== src/ModalStack.antt =====
-- src/components/modal-overlay-stack.ts: which modal overlay is topmost.
--
-- Elements and listeners are numbers, compared by identity. What the document answers changes from
-- one call to the next, so each call takes it: which elements are connected, and what an element's
-- native dialog answers. The state is that of the module's variables and of the part of the document
-- that the module touches, its two event listeners. A call returns the new state with what it told
-- which listener, in order. Listeners do not call the module back, and they return.
pub mod Laws
pub mod Telling
mod Tests
use couch_companion_ui.Prelude.{
  ℕ, Bool, true, false, not, ◌&&◌, Option, none, some, List, [], ◌∷◌, ◌++◌, map, if◌then◌else◌,
  ◌===◌, is_nil, add, remove, contains, filter, nat_eq, option_beq, get_last?,
}

pub record Overlays : Type 0 where
  pub open_overlays : List ℕ
  pub listeners : List ℕ
  pub last_reported : Option ℕ
  pub wired : Bool
  -- whether `onShow` and `onHide` are among the document's listeners for their events
  pub hears_show : Bool
  pub hears_hide : Bool

-- What `nativeDialog.matches(':modal')` does.
pub data Matching : Type 0 where
  matches differs raises : Matching

pub record Document : Type 0 where
  pub is_connected : ℕ → Bool
  -- `element.shadowRoot?.querySelector('dialog')`, asked whether it matches `:modal`
  pub native_dialog : ℕ → Option Matching

-- The new state, and each listener that was called with what it was called with.
pub record Told : Type 0 where
  pub state : Overlays
  pub calls : List (ℕ × Option ℕ)

abbrev pub initial : Overlays
initial = record {
  open_overlays = [];
  listeners = [];
  last_reported = none;
  wired = false;
  hears_show = false;
  hears_hide = false;
}

abbrev pub quietly : Overlays → Told
quietly s = record { state = s; calls = [] }

-- `indexOf`, and `splice` where it finds an index
pub splice_first : ℕ → List ℕ → List ℕ
splice_first a [] = []
splice_first a (x ∷ xs) = if x === a then xs else x ∷ splice_first a xs

-- `document.addEventListener` for the two events
pub add_listeners : Overlays → Overlays
add_listeners s = record s { hears_show = true; hears_hide = true }

-- The first observer has the document's events heard.
pub wire : Overlays → Overlays
wire s = if not s.wired then record (add_listeners s) { wired = true } else s

-- `document.removeEventListener` for the two events
pub remove_listeners : Overlays → Overlays
remove_listeners s = record s { hears_show = false; hears_hide = false }

module _ (d : Document) where
  pub is_modal_overlay : ℕ → Bool
  is_modal_overlay element = elim (d.native_dialog element) [
    | none ↦ false
    | some answer ↦ elim answer [ matches ↦ true | differs ↦ false | raises ↦ false ]
  ]

  -- `topmostModal` splices the detached overlays out of the stack, from the top down.
  pub prune : List ℕ → List ℕ
  prune [] = []
  prune (x ∷ xs) = let rest = prune xs in if d.is_connected x then x ∷ rest else rest

  pub topmost_modal : Overlays → Overlays × Option ℕ
  topmost_modal s =
      let left = prune s.open_overlays in (record s { open_overlays = left }, get_last? left)

  pub notify : Overlays → Told
  notify s =
      let (pruned, current) = topmost_modal s in
      if option_beq current s.last_reported then quietly pruned else record {
        state = record pruned { last_reported = current };
        calls = map (λ listener. (listener, current)) pruned.listeners;
      }

  -- The emitter is `none` where the event's innermost target is no element.
  pub on_show : Option ℕ → Overlays → Told
  on_show none s = quietly s
  on_show (some emitter) s =
      if not (is_modal_overlay emitter)
      then quietly s
      else notify (record s { open_overlays = add emitter s.open_overlays })

  pub on_hide : Option ℕ → Overlays → Told
  on_hide none s = quietly s
  on_hide (some emitter) s =
      notify (record s { open_overlays = splice_first emitter s.open_overlays })

  -- An event of the document runs the handler if that is among the document's listeners.
  pub show_event : Option ℕ → Overlays → Told
  show_event emitter s = if s.hears_show then on_show emitter s else quietly s

  pub hide_event : Option ℕ → Overlays → Told
  hide_event emitter s = if s.hears_hide then on_hide emitter s else quietly s

  pub observe_topmost_modal : ℕ → Overlays → Told
  observe_topmost_modal on_change s =
      let awake = wire s in
      let listening = record awake { listeners = add on_change awake.listeners } in
      let (pruned, current) = topmost_modal listening in
      record { state = pruned; calls = (on_change, current) ∷ [] }

-- The function that `observeTopmostModal` returns.
pub stop_observing : ℕ → Overlays → Overlays
stop_observing on_change s =
    let left = remove on_change s.listeners in
    if not (is_nil left) then record s { listeners = left } else record (remove_listeners s) {
      listeners = left;
      wired = false;
      open_overlays = [];
      last_reported = none;
    }
