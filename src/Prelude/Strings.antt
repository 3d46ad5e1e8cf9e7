-- ===== src/Prelude/Strings.antt =====
-- String operations of the language, on texts as lists of code units.
use mathlib.Core.Path.{◌≡◌, refl}
use mathlib.Core.Bool.{Bool, true, false, ◌&&◌, ◌||◌}
use mathlib.Core.Option.{Option, none, some}
use mathlib.Core.List.{List, [], ◌∷◌, ◌++◌, reverse}
use Prim.Native.Nat.{ℕ, zero, suc, ◌+◌, ◌/◌, ◌%◌, compare, Ordering}
use native.Mathlib.Omega.{arith}
use couch_companion_ui.Prelude.Tests.{
  Text, ltb, leb, nat_beq_iff, if◌then◌else◌, ◌===◌, nat_eq, text_eq,
}
use couch_companion_ui.Prelude.Lists.{contains}

abbrev pub within : ℕ → ℕ → ℕ → Bool
within lo hi c = leb lo c && leb c hi

-- `toLowerCase`, on ASCII letters
abbrev pub lower : ℕ → ℕ
lower c = if within b'A' b'Z' c then c + 32 else c

-- White space and line terminators, as `trim` takes them.
unfoldable pub is_space : ℕ → Bool
is_space c =
    within 9 13 c
    || contains c (32 ∷ 160 ∷ 0x1680 ∷ 0x2028 ∷ 0x2029 ∷ 0x202f ∷ 0x205f ∷ 0x3000 ∷ 0xfeff ∷ [])
    || within 0x2000 0x200a c

abbrev pub trim_start : Text → Text
trim_start [] = []
trim_start (c ∷ s) = let rest = trim_start s in if is_space c then rest else c ∷ s

-- `String.prototype.trim`
unfoldable pub trim : Text → Text
trim s = reverse (trim_start (reverse (trim_start s)))

-- `startsWith` and `slice` of what stands behind the prefix
abbrev pub strip_prefix? : Text → Text → Option Text
strip_prefix? [] s = some s
strip_prefix? (c ∷ p) [] = none
strip_prefix? (c ∷ p) (d ∷ s) = if c === d then strip_prefix? p s else none

pub strip_prefix?-append : (p s : Text) → strip_prefix? p (p ++ s) ≡ some s
strip_prefix?-append [] s = refl
strip_prefix?-append (c ∷ p) s = ground (arith, strip_prefix?-append p s)

pub strip_prefix?-eq-some : (p s r : Text) → strip_prefix? p s ≡ some r → s ≡ p ++ r
strip_prefix?-eq-some [] s r h = ground arith
strip_prefix?-eq-some (c ∷ p) [] r h = ground arith
strip_prefix?-eq-some (c ∷ p) (d ∷ s) r h =
    ground (arith, nat_beq_iff c d, strip_prefix?-eq-some p s r)

-- `<` on strings: the order of the code units
abbrev pub text_ltb : Text → Text → Bool
text_ltb [] [] = false
text_ltb [] (d ∷ t) = true
text_ltb (c ∷ s) [] = false
text_ltb (c ∷ s) (d ∷ t) = elim (compare c d) [
  | Ordering.lt ↦ true
  | Ordering.eq ↦ text_ltb s t
  | Ordering.gt ↦ false
]

pub text_ltb_asymm : (s t : Text) → text_ltb s t ≡ true → text_ltb t s ≡ false
text_ltb_asymm [] [] h = refl
text_ltb_asymm [] (d ∷ t) h = refl
text_ltb_asymm (c ∷ s) [] h = ground arith
text_ltb_asymm (c ∷ s) (d ∷ t) h = ground (arith, text_ltb_asymm s t)

pub text_ltb_total : (s t : Text) → text_ltb s t ≡ false → text_ltb t s ≡ false → s ≡ t
text_ltb_total [] [] h k = refl
text_ltb_total [] (d ∷ t) h k = ground arith
text_ltb_total (c ∷ s) [] h k = ground arith
text_ltb_total (c ∷ s) (d ∷ t) h k = ground (arith, text_ltb_total s t)

pub text_ltb_irrefl : (s : Text) → text_ltb s s ≡ false
text_ltb_irrefl [] = refl
text_ltb_irrefl (c ∷ s) = ground (arith, text_ltb_irrefl s)

pub text_ltb_trans :
    (s t u : Text) → text_ltb s t ≡ true → text_ltb t u ≡ true → text_ltb s u ≡ true
text_ltb_trans [] [] u h k = ground arith
text_ltb_trans [] (d ∷ t) [] h k = ground arith
text_ltb_trans [] (d ∷ t) (e ∷ u) h k = refl
text_ltb_trans (c ∷ s) [] u h k = ground arith
text_ltb_trans (c ∷ s) (d ∷ t) [] h k = ground arith
text_ltb_trans (c ∷ s) (d ∷ t) (e ∷ u) h k = ground (arith, text_ltb_trans s t u)

pub append_one_injective : (s t : Text) (c : ℕ) → s ++ c ∷ [] ≡ t ++ c ∷ [] → s ≡ t
append_one_injective [] [] c h = refl
append_one_injective [] (d ∷ []) c h = ground arith
append_one_injective [] (d ∷ e ∷ t) c h = ground arith
append_one_injective (d ∷ []) [] c h = ground arith
append_one_injective (d ∷ e ∷ s) [] c h = ground arith
append_one_injective (d ∷ s) (e ∷ t) c h = ground (arith, append_one_injective s t c)

-- `split` at one code unit: at least one piece, none of which holds it
abbrev pub push_head : ℕ → List Text → List Text
push_head c [] = (c ∷ []) ∷ []
push_head c (p ∷ ps) = (c ∷ p) ∷ ps

abbrev pub split_at : ℕ → Text → List Text
split_at sep [] = [] ∷ []
split_at sep (c ∷ s) =
    let rest = split_at sep s in if c === sep then [] ∷ rest else push_head c rest

-- The decimal digits of a number below `fuel`, in front of `rest`.
abbrev pub digits : ℕ → ℕ → Text → Text
digits zero n rest = rest
digits (suc fuel) n rest =
    let head = (b'0' + n % 10) ∷ rest in
    let more = digits fuel (n / 10) head in if ltb n 10 then head else more
