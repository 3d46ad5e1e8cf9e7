-- ===== src/DesignSync/SameForm.antt =====
-- `sameContent` decides whether two design documents hold the same.
use couch_companion_ui.Prelude.{
  ◌≡◌, refl, ap, sym, ◌∙◌, ℕ, suc, true, false, Option, none, some, List, [], ◌∷◌, Text, Bool, ap₂,
  ◌↔◌, ◌++◌, append_one_injective, text_beq_iff, text_eq, ◌===◌, Bool-cases, inl, inr,
}
use mathlib.Core.Option
use couch_companion_ui.DesignSync.{
  Json, null, bool, number, string, array, object, Items, no_items, item, Fields, no_fields, field,
  is_metadata, same_content, serialize_ddoc, sort_keys, sort_items,
}
use couch_companion_ui.DesignSync.Canonical.{get_field, IsObject, sort_fields-Agree}
use mathlib.Core.Path.{subst}
use couch_companion_ui.DesignSync.Contents.{
  Step, key, index, get_item, shape, observe, HoldSame, under, under-observe, observe-sort_keys,
  IsProper, AreProper, IsProperObject,
}

pub IsProperObject-IsObject : (fs : Fields) → IsProperObject fs → IsObject fs
unfolding IsProper
IsProperObject-IsObject no_fields h = tt
IsProperObject-IsObject (field k v fs) (n, (p, h)) = (n, IsProperObject-IsObject fs h)

get_field-IsProper :
    (k : Text) (fs : Fields) (v : Json) → IsProperObject fs → get_field k fs ≡ some v → IsProper v
unfolding IsProper
get_field-IsProper k no_fields v h e = absurd (cc e)
get_field-IsProper k (field l w fs) v (n, (p, h)) e = elim (Bool-cases (l === k)) [
  | inl same ↦ subst IsProper (cc (rw same at e)) p
  | inr other ↦ get_field-IsProper k fs v h (rw other at e)
]

-- A value whose shape is one with nothing inside is that shape.
abbrev is_leaf : Json → Bool
is_leaf (array vs) = false
is_leaf (object fs) = false
is_leaf _ = true

of_shape : (w v : Json) → is_leaf v ≡ true → shape w ≡ v → w ≡ v
of_shape (array vs) v h e = absurd (cc (ap is_leaf e, h))
of_shape (object fs) v h e = absurd (cc (ap is_leaf e, h))
of_shape null v h e = e
of_shape (bool b) v h e = e
of_shape (number n) v h e = e
of_shape (string s) v h e = e

same_shape : {v w : Json} → HoldSame v w → shape w ≡ shape v
same_shape h = cc (sym (h []))

SameUnder : Option Json → Option Json → Type 0
SameUnder o p = (path : List Step) → under path o ≡ under path p

fields_under :
    (fs gs : Fields) (k : Text)
    → HoldSame (object fs) (object gs)
    → is_metadata k ≡ false
    → (path : List Step) → under path (get_field k fs) ≡ under path (get_field k gs)
fields_under fs gs k h kept path = sym (at fs) ∙ h (key k ∷ path) ∙ at gs
  where
    at : (hs : Fields) → observe (key k ∷ path) (object hs) ≡ under path (get_field k hs)
    at hs = rw kept (under-observe path (get_field k hs))

items_under :
    (vs ws : Items) (i : ℕ)
    → HoldSame (array vs) (array ws)
    → (path : List Step) → under path (get_item i vs) ≡ under path (get_item i ws)
items_under vs ws i h path =
    sym (under-observe path (get_item i vs))
    ∙ h (index i ∷ path)
    ∙ under-observe path (get_item i ws)

found_sort :
    (v : Json)
    → ((w : Json) → IsProper w → HoldSame v w → sort_keys v ≡ sort_keys w)
    → (o : Option Json) → ((w : Json) → o ≡ some w → IsProper w)
    → ((path : List Step) → observe path v ≡ under path o)
    → some (sort_keys v) ≡ Option.map sort_keys o
found_sort v same none q h = absurd (cc (h []))
found_sort v same (some w) q h = ap some (same w (q w refl) h)

mutual
  unfolding sort_keys IsProper

  -- Values that hold the same have one sorted form.
  pub HoldSame-sort :
      (v w : Json) → IsProper v → IsProper w → HoldSame v w → sort_keys v ≡ sort_keys w
  HoldSame-sort null w p q h = sym (ap sort_keys (of_shape w null refl (same_shape h)))
  HoldSame-sort (bool b) w p q h = sym (ap sort_keys (of_shape w (bool b) refl (same_shape h)))
  HoldSame-sort (number n) w p q h = sym (ap sort_keys (of_shape w (number n) refl (same_shape h)))
  HoldSame-sort (string s) w p q h = sym (ap sort_keys (of_shape w (string s) refl (same_shape h)))
  HoldSame-sort (array vs) (array ws) p q h =
      ap array (items_sort vs ws p q (λ i path. items_under vs ws i h path))
  HoldSame-sort (object fs) (object gs) p q h = ap object (
      (sort_fields-Agree fs gs (IsProperObject-IsObject fs p) (IsProperObject-IsObject gs q)).1
        (λ k kept.
          field_sort k fs p (get_field k gs) (λ w e. get_field-IsProper k gs w q e)
            (fields_under fs gs k h kept)))
  HoldSame-sort (array vs) null p q h = absurd (cc (same_shape h))
  HoldSame-sort (array vs) (bool b) p q h = absurd (cc (same_shape h))
  HoldSame-sort (array vs) (number n) p q h = absurd (cc (same_shape h))
  HoldSame-sort (array vs) (string s) p q h = absurd (cc (same_shape h))
  HoldSame-sort (array vs) (object gs) p q h = absurd (cc (same_shape h))
  HoldSame-sort (object fs) null p q h = absurd (cc (same_shape h))
  HoldSame-sort (object fs) (bool b) p q h = absurd (cc (same_shape h))
  HoldSame-sort (object fs) (number n) p q h = absurd (cc (same_shape h))
  HoldSame-sort (object fs) (string s) p q h = absurd (cc (same_shape h))
  HoldSame-sort (object fs) (array ws) p q h = absurd (cc (same_shape h))

  items_sort :
      (vs ws : Items)
      → AreProper vs
      → AreProper ws
      → ((i : ℕ) (path : List Step) → under path (get_item i vs) ≡ under path (get_item i ws))
      → sort_items vs ≡ sort_items ws
  items_sort no_items no_items p q h = refl
  items_sort no_items (item w ws) p q h = absurd (cc (h 0 []))
  items_sort (item v vs) no_items p q h = absurd (cc (h 0 []))
  items_sort (item v vs) (item w ws) (p, p') (q, q') h =
      ap₂ item (HoldSame-sort v w p q (h 0)) (items_sort vs ws p' q' (λ i. h (suc i)))

  field_sort :
      (k : Text) (fs : Fields)
      → IsProperObject fs
      → (o : Option Json) → ((w : Json) → o ≡ some w → IsProper w)
      → ((path : List Step) → under path (get_field k fs) ≡ under path o)
      → Option.map sort_keys (get_field k fs) ≡ Option.map sort_keys o
  field_sort k no_fields p none q h = refl
  field_sort k no_fields p (some w) q h = absurd (cc (h []))
  field_sort k (field l v fs) (n, (p, p')) o q h = elim (Bool-cases (l === k)) [
    | inl same ↦ rw same (found_sort v (λ w. HoldSame-sort v w p) o q (λ path. rw same at (h path)))
    | inr other ↦ rw other (field_sort k fs p' o q (λ path. rw other at (h path)))
  ]

-- If `JSON.stringify` gives different values different texts, two design documents have the same
-- content exactly if they hold the same at every path: the same keys of each object, in whatever order
-- and apart from the keys `_id`, `_rev` and `_revisions`, the same items of each array, in the same
-- order, and the same values at the ends. No object holds a key twice.
pub same_content_iff :
    (stringify : Json → Text)
    → ((a b : Json) → stringify a ≡ stringify b → a ≡ b)
    → (fs gs : Fields) → IsProper (object fs)
    → IsProper (object gs)
    → (same_content stringify (object fs) (object gs) ≡ true) ↔ HoldSame (object fs) (object gs)
unfolding same_content serialize_ddoc
same_content_iff stringify injective fs gs p q = (
  λ h path.
      let same = injective (sort_keys (object fs)) (sort_keys (object gs)) (
        append_one_injective (stringify (sort_keys (object fs))) (stringify (sort_keys (object gs)))
          10 ((text_beq_iff _ _).0 h)) in
      sym (observe-sort_keys path (object fs))
      ∙ ap (observe path) same
      ∙ observe-sort_keys path (object gs),
  λ h.
      (text_beq_iff _ _).1
        (ap (λ v. stringify v ++ 10 ∷ []) (HoldSame-sort (object fs) (object gs) p q h)),
)
