-- ===== src/DesignSync/Contents.antt =====
-- What a JSON value holds, place by place: a description of the contents of a design document that
-- does not sort, print or compare whole values.
use couch_companion_ui.Prelude.{
  ◌≡◌, refl, ap, sym, ◌∙◌, ℕ, zero, suc, false, Option, none, some, List, [], ◌∷◌, Text, ◌++◌,
  text_eq, if◌then◌else◌, Bool-cases, inl, inr,
}
use mathlib.Core.Option
use couch_companion_ui.DesignSync.{
  Json, null, bool, number, string, array, object, Items, no_items, item, Fields, no_fields, field,
  is_metadata, serialize_ddoc, sort_keys, sort_items, sort_fields,
}
use couch_companion_ui.DesignSync.Canonical.{get_field, get_field-sort}

-- One step into a value.
pub data Step : Type 0 where
  key : Text → Step
  index : ℕ → Step

abbrev pub get_item : ℕ → Items → Option Json
get_item i no_items = none
get_item zero (item v vs) = some v
get_item (suc i) (item v vs) = get_item i vs

-- A value without what is inside it.
abbrev pub shape : Json → Json
shape (array vs) = array no_items
shape (object fs) = object no_fields
shape v = v

-- The shape of what stands at a path, `none` if nothing stands there. The metadata of an object is not
-- looked at.
abbrev pub observe : List Step → Json → Option Json
observe [] v = some (shape v)
observe (key k ∷ path) (object fs) =
    if is_metadata k then none else elim (get_field k fs) [ none ↦ none | some v ↦ observe path v ]
observe (index i ∷ path) (array vs) = elim (get_item i vs) [ none ↦ none | some v ↦ observe path v ]
observe _ _ = none

-- Two values hold the same at every path.
abbrev pub HoldSame : Json → Json → Type 0
HoldSame v w = (path : List Step) → observe path v ≡ observe path w

abbrev pub under : List Step → Option Json → Option Json
under path none = none
under path (some v) = observe path v

pub under-observe :
    (path : List Step) (o : Option Json)
    → ◌≡◌ {A = Option Json} (elim o [ none ↦ none | some v ↦ observe path v ]) (under path o)
under-observe path none = refl
under-observe path (some v) = refl

-- Sorting the keys changes nothing that is looked at.
module _ (path : List Step)
    (deeper : (v : Json) → observe path (sort_keys v) ≡ observe path v) where
  under-sort : (o : Option Json) → under path (Option.map sort_keys o) ≡ under path o
  under-sort none = refl
  under-sort (some v) = deeper v

  under-item :
      (i : ℕ) (vs : Items) → under path (get_item i (sort_items vs)) ≡ under path (get_item i vs)
  unfolding sort_keys
  under-item i no_items = refl
  under-item zero (item v vs) = deeper v
  under-item (suc i) (item v vs) = under-item i vs

  under-field :
      (k : Text) (fs : Fields)
      → is_metadata k ≡ false
      → under path (get_field k (sort_fields fs)) ≡ under path (get_field k fs)
  under-field k fs kept =
      ap (under path) (get_field-sort k fs ∙ rw kept refl) ∙ under-sort (get_field k fs)

pub observe-sort_keys : (path : List Step) (v : Json) → observe path (sort_keys v) ≡ observe path v
unfolding sort_keys
observe-sort_keys [] (array vs) = refl
observe-sort_keys [] (object fs) = refl
observe-sort_keys [] null = refl
observe-sort_keys [] (bool b) = refl
observe-sort_keys [] (number n) = refl
observe-sort_keys [] (string s) = refl
observe-sort_keys (key k ∷ path) (object fs) = elim (Bool-cases (is_metadata k)) [
  | inl dropped ↦ rw dropped refl
  | inr kept ↦ rw kept (
      under-observe path (get_field k (sort_fields fs))
      ∙ under-field path (observe-sort_keys path) k fs kept
      ∙ sym (under-observe path (get_field k fs)))
]
observe-sort_keys (index i ∷ path) (array vs) =
    under-observe path (get_item i (sort_items vs))
    ∙ under-item path (observe-sort_keys path) i vs
    ∙ sym (under-observe path (get_item i vs))
observe-sort_keys (key k ∷ path) (array vs) = refl
observe-sort_keys (index i ∷ path) (object fs) = refl
observe-sort_keys (s ∷ path) null = refl
observe-sort_keys (s ∷ path) (bool b) = refl
observe-sort_keys (s ∷ path) (number n) = refl
observe-sort_keys (s ∷ path) (string t) = refl

-- Every object inside a value has each key once.
unfoldable mutual
  pub IsProper : Json → Type 0
  IsProper (array vs) = AreProper vs
  IsProper (object fs) = IsProperObject fs
  IsProper v = Unit

  pub AreProper : Items → Type 0
  AreProper no_items = Unit
  AreProper (item v vs) = IsProper v × AreProper vs

  pub IsProperObject : Fields → Type 0
  IsProperObject no_fields = Unit
  IsProperObject (field k v fs) = (get_field k fs ≡ none) × (IsProper v × IsProperObject fs)

-- If the parser inverts `JSON.stringify` on the canonical form of a document, then it reads, from the
-- text that a sync writes for that document, a document that holds the same at every path.
pub observe-serialize :
    (stringify : Json → Text) (parse : Text → Option Json) (fs : Fields)
    → parse (stringify (sort_keys (object fs)) ++ 10 ∷ []) ≡ some (sort_keys (object fs))
    → (doc : Json) × ((parse (serialize_ddoc stringify (object fs)) ≡ some doc)
        × HoldSame doc (object fs))
unfolding serialize_ddoc
observe-serialize stringify parse fs inverse =
    (sort_keys (object fs), (inverse, λ path. observe-sort_keys path (object fs)))
