-- ===== src/Prelude/Lists.antt =====
-- Lists as the source's arrays and sets, over the native numbers and Boolean tests.
use Prim.Native.Nat.{ℕ, zero, suc, ◌+◌, ◌≤◌}
use mathlib.Core.Path.{◌≡◌, refl}
use mathlib.Core.Bool.{Bool, true, false, not, ◌&&◌, ◌||◌}
use mathlib.Core.Option.{Option, none, some}
use mathlib.Core.List.{List, [], ◌∷◌, ◌++◌}
use native.Mathlib.Omega.{arith}
use mathlib.Core.Logic.{inl, inr, ◌↔◌}
use couch_companion_ui.Prelude.Tests.{Comparable, ◌===◌, if◌then◌else◌, Bool-cases, ===_refl}

module _ {ℓ} {A : Type ℓ} where
  abbrev pub length : List A → ℕ
  length [] = 0
  length (x ∷ xs) = suc (length xs)

  abbrev pub take : ℕ → List A → List A
  take zero xs = []
  take (suc n) [] = []
  take (suc n) (x ∷ xs) = x ∷ take n xs

  abbrev pub drop : ℕ → List A → List A
  drop zero xs = xs
  drop (suc n) [] = []
  drop (suc n) (x ∷ xs) = drop n xs

  abbrev pub is_nil : List A → Bool
  is_nil [] = true
  is_nil (x ∷ xs) = false

  abbrev pub all : (A → Bool) → List A → Bool
  all p [] = true
  all p (x ∷ xs) = p x && all p xs

  abbrev pub get_last? : List A → Option A
  get_last? [] = none
  get_last? (x ∷ xs) = elim (get_last? xs) [ none ↦ some x | some y ↦ some y ]

  pub get_last?-append_one : (xs : List A) (a : A) → get_last? (xs ++ a ∷ []) ≡ some a
  get_last?-append_one [] a = refl
  get_last?-append_one (x ∷ xs) a = rw (get_last?-append_one xs a)

  -- `Array.prototype.filter`
  abbrev pub filter : (A → Bool) → List A → List A
  filter p [] = []
  filter p (x ∷ xs) = if p x then x ∷ filter p xs else filter p xs

  pub length-append : (xs ys : List A) → length (xs ++ ys) ≡ length xs + length ys
  length-append [] ys = omega arith
  length-append (x ∷ xs) ys = omega (arith, length-append xs ys)

  pub length-take-le : (n : ℕ) (xs : List A) → length (take n xs) ≤ n
  length-take-le zero xs = omega arith
  length-take-le (suc n) [] = omega arith
  length-take-le (suc n) (x ∷ xs) = omega (arith, length-take-le n xs)

module _ {ℓ κ} {A : Type ℓ} {B : Type κ} where
  -- `forEach` with the effects of each round, in order
  abbrev pub flat_map : (A → List B) → List A → List B
  flat_map f [] = []
  flat_map f (x ∷ xs) = f x ++ flat_map f xs

module _ {ℓ κ} {A : Type ℓ} (P : A → Type κ) where
  abbrev pub All : List A → Type κ
  All [] = Unit
  All (x ∷ xs) = P x × All xs

  pub All-append : (xs ys : List A) → All xs → All ys → All (xs ++ ys)
  All-append [] ys h k = k
  All-append (x ∷ xs) ys (p, h) k = (p, All-append xs ys h k)

module _ {ℓ κ κ'} {A : Type ℓ} {P : A → Type κ} {Q : A → Type κ'} where
  pub All-mono : ((a : A) → P a → Q a) → (xs : List A) → All P xs → All Q xs
  All-mono f [] h = tt
  All-mono f (x ∷ xs) (p, h) = (f x p, All-mono f xs h)

module _ {ℓ} {A : Type ℓ} ⦃e : Comparable A⦄ where
  -- `===` where a value may be `null`
  abbrev pub option_beq : Option A → Option A → Bool
  option_beq none none = true
  option_beq (some a) (some b) = a === b
  option_beq _ _ = false

  pub option_beq_iff : (o p : Option A) → (option_beq o p ≡ true) ↔ (o ≡ p)
  option_beq_iff none none = ground arith
  option_beq_iff (some a) (some b) = ground (arith, e.same_iff a b)
  option_beq_iff _ _ = ground arith

  -- `Array.prototype.includes`, `Set.prototype.has`
  abbrev pub contains : A → List A → Bool
  contains a [] = false
  contains a (x ∷ xs) = x === a || contains a xs

  -- `Set.prototype.add`: a new element goes last
  abbrev pub add : A → List A → List A
  add a xs = if contains a xs then xs else xs ++ a ∷ []

  -- `Set.prototype.delete`
  abbrev pub remove : A → List A → List A
  remove a xs = filter (λ x. not (x === a)) xs

  -- No element occurs twice.
  abbrev pub IsDistinct : List A → Type 0
  IsDistinct [] = Unit
  IsDistinct (x ∷ xs) = (contains x xs ≡ false) × IsDistinct xs

  pub contains-append :
      (a : A) (xs ys : List A) → contains a (xs ++ ys) ≡ (contains a xs || contains a ys)
  contains-append a [] ys = refl
  contains-append a (x ∷ xs) ys = ground (arith, contains-append a xs ys)

  pub contains-add : (a b : A) (xs : List A) → contains b (add a xs) ≡ (a === b || contains b xs)
  contains-add a b xs = ground (arith, contains-append b xs (a ∷ []), e.same_iff a b)

  pub contains-remove :
      (a b : A) (xs : List A) → contains b (remove a xs) ≡ (not (a === b) && contains b xs)
  contains-remove a b [] = ground arith
  contains-remove a b (x ∷ xs) =
      ground (arith, contains-remove a b xs, e.same_iff x a, e.same_iff a b, e.same_iff x b)

  pub remove-IsDistinct : (a : A) (xs : List A) → IsDistinct xs → IsDistinct (remove a xs)
  remove-IsDistinct a [] h = tt
  remove-IsDistinct a (x ∷ xs) (h, k) =
      ground (arith, remove-IsDistinct a xs k, contains-remove a x xs)

  pub IsDistinct-append_one :
      (a : A) (xs : List A) → contains a xs ≡ false → IsDistinct xs → IsDistinct (xs ++ a ∷ [])
  IsDistinct-append_one a [] h k = (refl, tt)
  IsDistinct-append_one a (x ∷ xs) h (k, l) = ground (
    arith,
    contains-append x xs (a ∷ []),
    e.same_iff x a,
    e.same_iff a x,
    IsDistinct-append_one a xs,
  )

  pub add-IsDistinct : (a : A) (xs : List A) → IsDistinct xs → IsDistinct (add a xs)
  add-IsDistinct a xs h = ground (arith, IsDistinct-append_one a xs)

  pub remove_of_absent : (a : A) (xs : List A) → contains a xs ≡ false → remove a xs ≡ xs
  remove_of_absent a [] h = refl
  remove_of_absent a (x ∷ xs) h = ground (arith, remove_of_absent a xs)

  pub is_nil-contains : (a : A) (xs : List A) → contains a xs ≡ true → is_nil xs ≡ false
  is_nil-contains a [] h = cc
  is_nil-contains a (x ∷ xs) h = refl

  pub contains-filter :
      (p : A → Bool) (a : A) (xs : List A) → contains a (filter p xs) ≡ (p a && contains a xs)
  contains-filter p a [] = ground arith
  contains-filter p a (x ∷ xs) = elim (Bool-cases (x === a)) [
    | inl same ↦ rw ((e.same_iff x a).0 same) (ground (arith, contains-filter p a xs, ===_refl a))
    | inr other ↦ ground (arith, contains-filter p a xs)
  ]

  pub filter-IsDistinct : (p : A → Bool) (xs : List A) → IsDistinct xs → IsDistinct (filter p xs)
  filter-IsDistinct p [] h = tt
  filter-IsDistinct p (x ∷ xs) (h, k) =
      ground (arith, filter-IsDistinct p xs k, contains-filter p x xs)
