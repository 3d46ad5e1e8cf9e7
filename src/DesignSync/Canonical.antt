-- ===== src/DesignSync/Canonical.antt =====
-- The canonical form of a design document: what two documents with equal bytes have in common.
use couch_companion_ui.Prelude.{
  ◌≡◌, ◌↔◌, inl, inr, refl, sym, ap, ◌∙◌, Bool, true, false, Option, none, some, Text, text_eq,
  text_beq_iff, arith, Bool-cases, if◌then◌else◌, ◌===◌, if_rule, text_ltb, text_ltb_total,
  text_ltb_trans, text_ltb_irrefl,
}
use mathlib.Core.Option
use couch_companion_ui.DesignSync.{
  Json, Fields, no_fields, field, is_metadata, insert_field, sort_keys, sort_fields,
}

-- The value under a key.
abbrev pub get_field : Text → Fields → Option Json
get_field k no_fields = none
get_field k (field l w fs) = let rest = get_field k fs in if l === k then some w else rest

-- An object has each key once.
abbrev pub IsObject : Fields → Type 0
IsObject no_fields = Unit
IsObject (field k v fs) = (get_field k fs ≡ none) × IsObject fs

-- Apart from the metadata, both have the same keys, with values of one canonical form.
abbrev pub Agree : Fields → Fields → Type 0
Agree fs gs =
    (k : Text)
    → is_metadata k ≡ false
    → Option.map sort_keys (get_field k fs) ≡ Option.map sort_keys (get_field k gs)

abbrev IsAbove : Text → Fields → Type 0
IsAbove k no_fields = Unit
IsAbove k (field l w fs) = (text_ltb k l ≡ true) × IsAbove k fs

abbrev IsSorted : Fields → Type 0
IsSorted no_fields = Unit
IsSorted (field k v fs) = IsAbove k fs × IsSorted fs

IsAbove-mono : (k l : Text) (fs : Fields) → text_ltb k l ≡ true → IsAbove l fs → IsAbove k fs
IsAbove-mono k l no_fields h a = tt
IsAbove-mono k l (field m w fs) h (p, a) = (text_ltb_trans k l m h p, IsAbove-mono k l fs h a)

IsAbove-insert :
    (k l : Text) (v : Json) (fs : Fields)
    → text_ltb k l ≡ true
    → IsAbove k fs
    → IsAbove k (insert_field l v fs)
IsAbove-insert k l v no_fields h a = (h, tt)
IsAbove-insert k l v (field m w fs) h (p, a) = ground (arith, IsAbove-insert k l v fs h a)

get_field-above : (k : Text) (fs : Fields) → IsAbove k fs → get_field k fs ≡ none
get_field-above k no_fields a = refl
get_field-above k (field l w fs) (p, a) =
    ground (arith, get_field-above k fs a, text_beq_iff l k, text_ltb_irrefl k)

get_field-insert :
    (k l : Text) (v : Json) (fs : Fields)
    → get_field k (insert_field l v fs) ≡ (if l === k then some v else get_field k fs)
get_field-insert k l v no_fields = refl
get_field-insert k l v (field m w fs) =
    ground (arith, get_field-insert k l v fs, text_beq_iff m k, text_beq_iff l k, text_ltb_irrefl k)

insert_field-IsSorted :
    (k : Text) (v : Json) (fs : Fields)
    → get_field k fs ≡ none
    → IsSorted fs
    → IsSorted (insert_field k v fs)
insert_field-IsSorted k v no_fields h s = (tt, tt)
insert_field-IsSorted k v (field l w fs) h (a, s) = elim (Bool-cases (text_ltb l k)) [
  | inl lt ↦
      if_rule IsSorted (text_ltb l k)
        (λ _. (IsAbove-insert l k v fs lt a, insert_field-IsSorted k v fs (ground arith) s))
        (λ e. absurd (cc (lt, e)))
  | inr ge ↦
      ground (arith, text_ltb_total l k, text_beq_iff l k, IsAbove-mono k l fs, text_ltb_total k l)
]

pub is_metadata_of_same : (l k : Text) → (l === k) ≡ true → is_metadata k ≡ is_metadata l
is_metadata_of_same l k h = ap is_metadata (sym ((text_beq_iff l k).0 h))

kept_entry :
    (f : Json → Json) (here dropped : Bool) (v : Json) (rest : Option Json)
    → (here ≡ true → dropped ≡ false)
    → (if here then some (f v) else if dropped then none else Option.map f rest)
      ≡ (if dropped then none else Option.map f (if here then some v else rest))
kept_entry f true true v rest h = absurd (cc (h refl))
kept_entry f true false v rest h = refl
kept_entry f false dropped v rest h = refl

pub get_field-sort :
    (k : Text) (fs : Fields)
    → get_field k (sort_fields fs)
      ≡ (if is_metadata k then none else Option.map sort_keys (get_field k fs))
unfolding sort_keys
get_field-sort k no_fields = ground arith
get_field-sort k (field l v fs) = elim (Bool-cases (is_metadata l)) [
  | inl dropped ↦ rw dropped (get_field-sort k fs ∙ ground (arith, is_metadata_of_same l k))
  | inr kept ↦ rw kept (
      get_field-insert k l (sort_keys v) (sort_fields fs)
      ∙ ap (λ rest. if l === k then some (sort_keys v) else rest) (get_field-sort k fs)
      ∙ kept_entry sort_keys (l === k) (is_metadata k) v (get_field k fs)
          (λ e. is_metadata_of_same l k e ∙ kept))
]

sort_fields-IsSorted : (fs : Fields) → IsObject fs → IsSorted (sort_fields fs)
unfolding sort_keys
sort_fields-IsSorted no_fields h = tt
sort_fields-IsSorted (field k v fs) (h, o) =
    if_rule IsSorted (is_metadata k) (λ _. sort_fields-IsSorted fs o)
      (λ _.
        insert_field-IsSorted k (sort_keys v) (sort_fields fs) (ground (arith, get_field-sort k fs))
          (sort_fields-IsSorted fs o))

tail_agrees :
    (k l : Text) (v w : Json) (fs gs : Fields)
    → k ≡ l
    → IsAbove k fs
    → IsAbove l gs
    → ((m : Text) → get_field m (field k v fs) ≡ get_field m (field l w gs))
    → (m : Text) → get_field m fs ≡ get_field m gs
tail_agrees k l v w fs gs e a b h m = elim (Bool-cases (k === m)) [
  | inl same ↦
      ground (arith, get_field-above m fs, get_field-above m gs, e, (text_beq_iff k m).0 same, a, b)
  | inr other ↦ ground (arith, h m)
]

-- Sorted entries are determined by what they hold under each key.
sorted_ext :
    (fs gs : Fields)
    → IsSorted fs
    → IsSorted gs
    → ((k : Text) → get_field k fs ≡ get_field k gs)
    → fs ≡ gs
sorted_ext no_fields no_fields s t h = refl
sorted_ext no_fields (field l w gs) s t h = ground (arith, h l, text_beq_iff l l)
sorted_ext (field k v fs) no_fields s t h = ground (arith, h k, text_beq_iff k k)
sorted_ext (field k v fs) (field l w gs) (a, s) (b, t) h = elim (Bool-cases (text_ltb k l)) [
  | inl below ↦ ground (
    arith,
    h k,
    text_beq_iff k k,
    text_beq_iff l k,
    text_ltb_irrefl k,
    get_field-above k gs (IsAbove-mono k l gs below b),
  )
  | inr not_below ↦ elim (Bool-cases (text_ltb l k)) [
    | inl above ↦ ground (
      arith,
      h l,
      text_beq_iff l l,
      text_beq_iff k l,
      text_ltb_irrefl l,
      get_field-above l fs (IsAbove-mono l k fs above a),
    )
    | inr not_above ↦ ground (
      arith,
      text_ltb_total k l not_below not_above,
      text_beq_iff k k,
      text_beq_iff l k,
      h k,
      sorted_ext fs gs s t
          (tail_agrees k l v w fs gs (text_ltb_total k l not_below not_above) a b h),
    )
  ]
]

pub sort_fields-Agree :
    (fs gs : Fields) → IsObject fs → IsObject gs → (sort_fields fs ≡ sort_fields gs) ↔ Agree fs gs
sort_fields-Agree fs gs o p = (
  λ e k kept. sym (entry k fs kept) ∙ ap (get_field k) e ∙ entry k gs kept,
  λ agree.
      sorted_ext (sort_fields fs) (sort_fields gs) (sort_fields-IsSorted fs o)
        (sort_fields-IsSorted gs p)
        (λ k. elim (Bool-cases (is_metadata k)) [
          | inl dropped ↦ gone k fs dropped ∙ sym (gone k gs dropped)
          | inr kept ↦ entry k fs kept ∙ agree k kept ∙ sym (entry k gs kept)
        ]),
)
  where
    entry :
        (k : Text) (hs : Fields)
        → is_metadata k ≡ false
        → get_field k (sort_fields hs) ≡ Option.map sort_keys (get_field k hs)
    entry k hs kept = get_field-sort k hs ∙ rw kept refl

    gone : (k : Text) (hs : Fields) → is_metadata k ≡ true → get_field k (sort_fields hs) ≡ none
    gone k hs dropped = get_field-sort k hs ∙ rw dropped refl
