-- ===== src/PageSize/Laws.antt =====
-- src/services/page-size-preference.ts: which sizes and offsets come out.
use mathlib.Core.List.{reverse-cons, reverse-reverse}
use couch_companion_ui.Prelude.{
  ◌≡◌, refl, ap, ◌∙◌, ℕ, zero, suc, ◌+◌, ◌/◌, ◌%◌, ◌<◌, true, false, Option, none, some, [], ◌∷◌,
  ◌++◌, Text, if◌then◌else◌, if_rule, nat_eq, contains, is_nil, all, leb, ltb, trim, trim_start,
  reverse, is_space, digits, Bool-cases, inl, inr, arith,
}
use couch_companion_ui.PageSize.{
  page_size_options, print_nat, stored_number, offered, get_page_size, set_page_size, is_digit,
  decimal, max_safe_integer, parse_digits, parse_skip,
}

decimal-digits :
    (fuel n : ℕ) (rest : Text) → n < fuel → decimal 0 (digits fuel n rest) ≡ decimal n rest
decimal-digits zero n rest h = omega (arith, h)
decimal-digits (suc fuel) n rest h = elim (Bool-cases (ltb n 10)) [
  | inl e ↦ rw e (ap (λ m. decimal m rest) (ground (arith, e)))
  | inr e ↦ rw e (
      decimal-digits fuel (n / 10) ((b'0' + n % 10) ∷ rest) (ground (arith, h, e))
      ∙ ap (λ m. decimal m rest) (omega arith))
]

all-digits :
    (fuel n : ℕ) (rest : Text) → all is_digit rest ≡ true → all is_digit (digits fuel n rest) ≡ true
all-digits zero n rest h = h
all-digits (suc fuel) n rest h =
    if_rule (λ (s : Text). all is_digit s ≡ true) (ltb n 10) (λ _. ground (arith, h))
      (λ _. all-digits fuel (n / 10) ((b'0' + n % 10) ∷ rest) (ground (arith, h)))

is_nil-digits :
    (fuel n : ℕ) (rest : Text) → is_nil rest ≡ false → is_nil (digits fuel n rest) ≡ false
is_nil-digits zero n rest h = h
is_nil-digits (suc fuel) n rest h =
    if_rule (λ (s : Text). is_nil s ≡ false) (ltb n 10) (λ _. refl)
      (λ _. is_nil-digits fuel (n / 10) ((b'0' + n % 10) ∷ rest) refl)

is_nil-print : (fuel n : ℕ) → is_nil (digits (suc fuel) n []) ≡ false
is_nil-print fuel n =
    if_rule (λ (s : Text). is_nil s ≡ false) (ltb n 10) (λ _. refl)
      (λ _. is_nil-digits fuel (n / 10) ((b'0' + n % 10) ∷ []) refl)

digit-space : (c : ℕ) → is_digit c ≡ true → is_space c ≡ false
unfolding is_space
digit-space c h = ground (arith, h)

trim_start-digits : (s : Text) → all is_digit s ≡ true → trim_start s ≡ s
trim_start-digits [] h = refl
trim_start-digits (c ∷ s) h = rw (digit-space c (ground (arith, h))) refl

all-append_one :
    (s : Text) (c : ℕ)
    → all is_digit s ≡ true
    → is_digit c ≡ true
    → all is_digit (s ++ c ∷ []) ≡ true
all-append_one [] c h k = ground (arith, k)
all-append_one (d ∷ s) c h k = ground (arith, all-append_one s c)

all-reverse : (s : Text) → all is_digit s ≡ true → all is_digit (reverse s) ≡ true
all-reverse [] h = refl
all-reverse (c ∷ s) h =
    ap (all is_digit) (reverse-cons c s)
    ∙ all-append_one (reverse s) c (all-reverse s (ground (arith, h))) (ground (arith, h))

trim-digits : (s : Text) → all is_digit s ≡ true → trim s ≡ s
unfolding trim
trim-digits s h =
    ap (λ t. reverse (trim_start (reverse t))) (trim_start-digits s h)
    ∙ ap reverse (trim_start-digits (reverse s) (all-reverse s h))
    ∙ reverse-reverse s

parse_digits-print :
    (fuel n : ℕ)
    → n < suc fuel
    → parse_digits (digits (suc fuel) n []) ≡ (if leb n max_safe_integer then some n else none)
parse_digits-print fuel n h =
    rw (is_nil-print fuel n, parse_digits)
      (rw (all-digits (suc fuel) n [] refl) (rw (decimal-digits (suc fuel) n [] h) refl))

-- The offset that stands for a number is that number up to `Number.MAX_SAFE_INTEGER`, and refused
-- above it.
pub parse_skip-print :
    (n : ℕ) → parse_skip (print_nat n) ≡ (if leb n max_safe_integer then some n else none)
unfolding parse_skip
parse_skip-print n =
    ap parse_digits (trim-digits (print_nat n) (all-digits (n + 1) n [] refl))
    ∙ ap (λ fuel. parse_digits (digits fuel n [])) one_more
    ∙ parse_digits-print n n (omega arith)
  where
    one_more : n + 1 ≡ suc n
    one_more = omega arith

contains-offered : (o : Option ℕ) → contains (offered o) page_size_options ≡ true
contains-offered none = refl
contains-offered (some n) =
    if_rule (λ (m : ℕ). contains m page_size_options ≡ true) (contains n page_size_options) (λ e. e)
      (λ _. refl)

-- The page size is always one of those offered, and the one that was set last if it is offered.
-- `Number` reads what `String` prints.
pub get_page_size-set :
    (number : Text → Option ℕ) (size : ℕ) (stored : Option Text)
    → number (print_nat size) ≡ some size
    → (get_page_size number (set_page_size size stored)
        ≡ (if contains size page_size_options then size else get_page_size number stored))
      × (contains (get_page_size number stored) page_size_options ≡ true)
unfolding get_page_size set_page_size
get_page_size-set number size stored h = (
  elim (Bool-cases (contains size page_size_options)) [
    | inl e ↦ rw (e, set_page_size) (ap offered h ∙ rw e refl)
    | inr e ↦ rw (e, set_page_size) refl
  ],
  contains-offered (stored_number number stored),
)
