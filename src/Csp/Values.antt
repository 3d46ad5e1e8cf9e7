-- ===== src/Csp/Values.antt =====
-- src/services/csp-policy.ts: the words of a directive.
use couch_companion_ui.Prelude.{
  ◌≡◌, refl, ap, sym, ◌∙◌, ℕ, Bool, true, false, not, ◌||◌, List, [], ◌∷◌, ◌++◌, append_assoc, Text,
  if◌then◌else◌, if_rule, ◌===◌, nat_eq, is_nil, contains, contains-append, is_space, push_head,
  All, all, Bool-cases, inl, inr, arith,
}
use couch_companion_ui.Csp.{
  leading_space, trim_end, trailing_space, starts_with_space, split_space, rest_of,
}

-- A word of a header: not empty, and without white space and semicolons.
abbrev pub IsWord : Text → Type 0
IsWord w = (is_nil w ≡ false) × (all (λ c. not (is_space c)) w ≡ true) × (contains b';' w ≡ false)

-- The text of a directive.
abbrev pub IsBody : Text → Type 0
IsBody s =
    (is_nil s ≡ false) × (leading_space s ≡ []) × (trim_end s ≡ s) × (contains b';' s ≡ false)

blank_space : is_space b' ' ≡ true
unfolding is_space
blank_space = refl

leading-nil : (s : Text) → starts_with_space s ≡ false → leading_space s ≡ []
leading-nil [] h = refl
leading-nil (c ∷ s) h = ground (arith, h)

pub starts-leading : (s : Text) → leading_space s ≡ [] → starts_with_space s ≡ false
starts-leading [] h = refl
starts-leading (c ∷ s) h = ground (arith, h)

pub trim_end-append : (s t : Text) → is_nil t ≡ false → trim_end t ≡ t → trim_end (s ++ t) ≡ s ++ t
trim_end-append [] t n h = h
trim_end-append (c ∷ s) t n h = ground (arith, trim_end-append s t n h, is_nil-append s t n)
  where
    is_nil-append : (s t : Text) → is_nil t ≡ false → is_nil (s ++ t) ≡ false
    is_nil-append [] t n = n
    is_nil-append (c ∷ s) t n = refl

pub trailing-nil : (s : Text) → trim_end s ≡ s → trailing_space s ≡ []
trailing-nil [] h = refl
trailing-nil (c ∷ s) h = ground (arith, trailing-nil s)

pub word-starts : (w : Text) → IsWord w → starts_with_space w ≡ false
word-starts [] (n, s, h) = cc
word-starts (c ∷ w) (n, s, h) = ground (arith, s)

word-trim : (w : Text) → all (λ c. not (is_space c)) w ≡ true → trim_end w ≡ w
word-trim [] s = refl
word-trim (c ∷ w) s = ground (arith, word-trim w)

pub word-IsBody : (w : Text) → IsWord w → IsBody w
word-IsBody w h = (h.0, leading-nil w (word-starts w h), word-trim w h.1, h.2)

-- A body behind another.
pub IsBody-append : (s t : Text) → IsBody s → IsBody t → IsBody (s ++ b' ' ∷ t)
IsBody-append [] t (n, l, e, h) k = cc
IsBody-append (c ∷ s) t (n, l, e, h) (m, i, f, k) = (
  refl,
  ground (arith, l),
  ap trim_end (sym (append_assoc (c ∷ s) (b' ' ∷ []) t))
      ∙ trim_end-append (c ∷ s ++ b' ' ∷ []) t m f
      ∙ append_assoc (c ∷ s) (b' ' ∷ []) t,
  ground (arith, contains-append b';' (c ∷ s) (b' ' ∷ t), h, k),
)

trim_end-tail : (c d : ℕ) (s : Text) → trim_end (c ∷ d ∷ s) ≡ c ∷ d ∷ s → trim_end (d ∷ s) ≡ d ∷ s
trim_end-tail c d s h = ground (arith, h)

abbrev split_unit : ℕ → Bool → List Text → List Text
split_unit c first ps = if is_space c then if first then ps else [] ∷ ps else push_head c ps

split_unit-append :
    (c : ℕ) (b : Bool) (ps qs : List Text)
    → is_nil ps ≡ false
    → split_unit c b (ps ++ qs) ≡ split_unit c b ps ++ qs
split_unit-append c b [] qs h = cc
split_unit-append c true (p ∷ ps) qs h =
    if_rule (λ (u : List Text). split_unit c true (p ∷ ps ++ qs) ≡ u ++ qs) (is_space c)
      (λ e. rw e refl) (λ e. rw e refl)
split_unit-append c false (p ∷ ps) qs h =
    if_rule (λ (u : List Text). split_unit c false (p ∷ ps ++ qs) ≡ u ++ qs) (is_space c)
      (λ e. rw e refl) (λ e. rw e refl)

is_nil-split_unit :
    (c : ℕ) (b : Bool) (ps : List Text) → is_nil ps ≡ false → is_nil (split_unit c b ps) ≡ false
is_nil-split_unit c b [] h = cc
is_nil-split_unit c b (p ∷ ps) h = ground arith

pub is_nil-split_space : (s : Text) → is_nil (split_space s) ≡ false
is_nil-split_space [] = refl
is_nil-split_space (c ∷ s) =
    is_nil-split_unit c (starts_with_space s) (split_space s) (is_nil-split_space s)

-- The words of a text that a blank and another text follow.
pub split_space-append :
    (s t : Text)
    → trim_end s ≡ s
    → starts_with_space t ≡ false
    → is_nil s ≡ false
    → split_space (s ++ b' ' ∷ t) ≡ split_space s ++ split_space t
split_space-append [] t h k n = cc
split_space-append (c ∷ []) t h k n = rw (blank_space, k) (rw one refl)
  where
    one : is_space c ≡ false
    one = ground (arith, h)
split_space-append (c ∷ d ∷ s) t h k n =
    ap (split_unit c (is_space d)) (split_space-append (d ∷ s) t (trim_end-tail c d s h) k refl)
    ∙ split_unit-append c (is_space d) (split_space (d ∷ s)) (split_space t)
        (is_nil-split_space (d ∷ s))

pub split_space-spaceless :
    (w : Text) → all (λ c. not (is_space c)) w ≡ true → split_space w ≡ w ∷ []
split_space-spaceless [] h = refl
split_space-spaceless (c ∷ w) h =
    ap (split_unit c (starts_with_space w)) (split_space-spaceless w (ground (arith, h)))
    ∙ rw one refl
  where
    one : is_space c ≡ false
    one = ground (arith, h)

pub split_space-append_word :
    (s w : Text) → IsBody s → IsWord w → split_space (s ++ b' ' ∷ w) ≡ split_space s ++ w ∷ []
split_space-append_word s w h k =
    split_space-append s w h.2 (word-starts w k) h.0
    ∙ ap (λ ps. split_space s ++ ps) (split_space-spaceless w k.1)

-- What `split_space` gives: pieces without white space, and only the first may be empty.
abbrev ArePieces : Bool → List Text → Type 0
ArePieces b [] = ⊥
ArePieces b (p ∷ ps) =
    ((b || not (is_nil p)) ≡ true)
    × (all (λ c. not (is_space c)) p ≡ true)
    × (contains b';' p ≡ false)
    × All IsWord ps

split_unit-ArePieces :
    (c : ℕ) (b : Bool) (ps : List Text)
    → (c === b';') ≡ false
    → ArePieces b ps
    → ArePieces (is_space c) (split_unit c b ps)
split_unit-ArePieces c b [] h k = absurd k
split_unit-ArePieces c true (p ∷ ps) h (n, s, m, ws) = elim (Bool-cases (is_space c)) [
  | inl e ↦ rw e (refl, s, m, ws)
  | inr e ↦ rw e (refl, ground (arith, s, e), ground (arith, m, h), ws)
]
split_unit-ArePieces c false (p ∷ ps) h (n, s, m, ws) = elim (Bool-cases (is_space c)) [
  | inl e ↦ rw e (refl, refl, refl, ((ground (arith, n), s, m), ws))
  | inr e ↦ rw e (refl, ground (arith, s, e), ground (arith, m, h), ws)
]

split_space-ArePieces :
    (c : ℕ) (s : Text)
    → trim_end (c ∷ s) ≡ c ∷ s
    → contains b';' (c ∷ s) ≡ false
    → ArePieces (is_space c) (split_space (c ∷ s))
split_space-ArePieces c [] h k = rw one (refl, rw one refl, k, tt)
  where
    one : is_space c ≡ false
    one = ground (arith, h)
split_space-ArePieces c (d ∷ s) h k =
    split_unit-ArePieces c (is_space d) (split_space (d ∷ s)) (ground (arith, k))
      (split_space-ArePieces d s (trim_end-tail c d s h) (ground (arith, k)))

pub values-AreWords : (s : Text) → IsBody s → All IsWord (rest_of (split_space s))
values-AreWords [] h = tt
values-AreWords (c ∷ s) h =
    go (is_space c) (split_space (c ∷ s)) (split_space-ArePieces c s h.2 h.3)
  where
    go : (b : Bool) (ps : List Text) → ArePieces b ps → All IsWord (rest_of ps)
    go b [] k = absurd k
    go b (p ∷ ps) k = k.3
