-- ===== src/Prelude/Maps.antt =====
-- `Map` and `WeakMap` as association lists in insertion order. A key that is set again keeps its
-- place, a new one goes last; the laws say what `get` answers after each operation.
use mathlib.Core.Path.{◌≡◌, refl}
use mathlib.Core.Bool.{Bool, true, false}
use mathlib.Core.Logic.{inl, inr}
use mathlib.Core.Option.{Option, none, some}
use mathlib.Core.List.{List, [], ◌∷◌, ◌++◌}
use native.Mathlib.Omega.{arith}
use couch_companion_ui.Prelude.Tests.{Comparable, ◌===◌, if◌then◌else◌, Bool-cases}
use couch_companion_ui.Prelude.Lists.{contains, IsDistinct, All}

abbrev pub Dict {ℓ κ} : Type ℓ → Type κ → Type (ℓ ⊔ κ)
Dict K V = List (K × V)

abbrev pub is_some {ℓ} : {A : Type ℓ} → Option A → Bool
is_some none = false
is_some (some a) = true

abbrev pub option_or {ℓ} : {A : Type ℓ} → Option A → A → A
option_or none d = d
option_or (some a) d = a

abbrev pub keys {ℓ κ} : {K : Type ℓ} {V : Type κ} → Dict K V → List K
keys [] = []
keys ((k, v) ∷ d) = k ∷ keys d

abbrev pub values {ℓ κ} : {K : Type ℓ} {V : Type κ} → Dict K V → List V
values [] = []
values ((k, v) ∷ d) = v ∷ values d

module _ {ℓ κ} {K : Type ℓ} {V : Type κ} ⦃e : Comparable K⦄ where
  abbrev pub get : K → Dict K V → Option V
  get k [] = none
  get k ((j, v) ∷ d) = if j === k then some v else get k d

  abbrev pub has : K → Dict K V → Bool
  has k d = is_some (get k d)

  abbrev pub set : K → V → Dict K V → Dict K V
  set k v [] = (k, v) ∷ []
  set k v ((j, w) ∷ d) = if j === k then (j, v) ∷ d else (j, w) ∷ set k v d

  abbrev pub delete : K → Dict K V → Dict K V
  delete k [] = []
  delete k ((j, v) ∷ d) = if j === k then delete k d else (j, v) ∷ delete k d

  pub get-set :
      (k j : K) (v : V) (d : Dict K V) → get j (set k v d) ≡ (if k === j then some v else get j d)
  get-set k j v [] = refl
  get-set k j v ((i, w) ∷ d) =
      ground (arith, get-set k j v d, e.same_iff i k, e.same_iff k j, e.same_iff i j)

  pub get-delete :
      (k j : K) (d : Dict K V) → get j (delete k d) ≡ (if k === j then none else get j d)
  get-delete k j [] = ground arith
  get-delete k j ((i, w) ∷ d) =
      ground (arith, get-delete k j d, e.same_iff i k, e.same_iff k j, e.same_iff i j)

  pub contains-keys : (k : K) (d : Dict K V) → contains k (keys d) ≡ has k d
  contains-keys k [] = refl
  contains-keys k ((j, v) ∷ d) = ground (arith, contains-keys k d)

  pub set_of_absent : (k : K) (v : V) (d : Dict K V) → get k d ≡ none → set k v d ≡ d ++ (k, v) ∷ []
  set_of_absent k v [] h = refl
  set_of_absent k v ((j, w) ∷ d) h = ground (arith, set_of_absent k v d)

  pub delete_of_absent : (k : K) (d : Dict K V) → get k d ≡ none → delete k d ≡ d
  delete_of_absent k [] h = refl
  delete_of_absent k ((j, w) ∷ d) h = ground (arith, delete_of_absent k d)

  pub set-IsDistinct :
      (k : K) (v : V) (d : Dict K V) → IsDistinct (keys d) → IsDistinct (keys (set k v d))
  set-IsDistinct k v [] h = (refl, tt)
  set-IsDistinct k v ((j, w) ∷ d) (h, t) = ground (
    arith,
    set-IsDistinct k v d t,
    contains-keys j d,
    contains-keys j (set k v d),
    get-set k j v d,
    e.same_iff j k,
    e.same_iff k j,
  )

  pub delete-IsDistinct :
      (k : K) (d : Dict K V) → IsDistinct (keys d) → IsDistinct (keys (delete k d))
  delete-IsDistinct k [] h = tt
  delete-IsDistinct k ((j, w) ∷ d) (h, t) = ground (
    arith,
    delete-IsDistinct k d t,
    contains-keys j d,
    contains-keys j (delete k d),
    get-delete k j d,
  )

module _ {ℓ κ κ'} {K : Type ℓ} {V : Type κ} ⦃e : Comparable K⦄ (P : (K × V) → Type κ') where
  -- What holds of each entry still holds after a write, if it holds of the written entry.
  pub All-set : (k : K) (v : V) (d : Dict K V) → P (k, v) → All P d → All P (set k v d)
  All-set k v [] p h = (p, tt)
  All-set k v ((j, w) ∷ d) p (q, h) = elim (Bool-cases (j === k)) [
    | inl same ↦ rw same (rw ((e.same_iff j k).0 same) p, h)
    | inr other ↦ rw other (q, All-set k v d p h)
  ]

  pub All-get : (k : K) (d : Dict K V) {v : V} → get k d ≡ some v → All P d → P (k, v)
  All-get k [] g h = cc
  All-get k ((j, w) ∷ d) {v} g (q, h) = elim (Bool-cases (j === k)) [
    | inl same ↦ let here : w ≡ v = ground arith in rw (← here, ← (e.same_iff j k).0 same) q
    | inr other ↦ All-get k d (rw other at g) h
  ]
