-- ===== src/PageSize.antt =====
-- src/services/page-size-preference.ts: the page size and the offset of a list screen.
--
-- What `localStorage` holds under the key is an argument. `Number` of it is a parameter, `none` where
-- it gives no natural number; on digits it is their value: above `Number.MAX_SAFE_INTEGER` it may be
-- rounded, but not to a safe integer.
pub mod Laws
mod Tests
use couch_companion_ui.Prelude.{
  ℕ, ◌+◌, ◌-◌, ◌*◌, Bool, true, false, Option, none, some, List, [], ◌∷◌, Text, if◌then◌else◌,
  nat_eq, contains, is_nil, all, leb, within, trim, digits,
}

abbrev pub page_size_options : List ℕ
page_size_options = 5 ∷ 10 ∷ 25 ∷ 50 ∷ 100 ∷ []

abbrev pub default_page_size : ℕ
default_page_size = 25

-- A number as `String` prints it.
abbrev pub print_nat : ℕ → Text
print_nat n = digits (n + 1) n []

-- `Number(null)` is 0.
abbrev pub stored_number : (Text → Option ℕ) → Option Text → Option ℕ
stored_number number none = some 0
stored_number number (some s) = number s

abbrev pub offered : Option ℕ → ℕ
offered none = default_page_size
offered (some n) = if contains n page_size_options then n else default_page_size

unfoldable pub get_page_size : (Text → Option ℕ) → Option Text → ℕ
get_page_size number stored = offered (stored_number number stored)

unfoldable pub set_page_size : ℕ → Option Text → Option Text
set_page_size size stored =
    if contains size page_size_options then some (print_nat size) else stored

abbrev pub is_digit : ℕ → Bool
is_digit c = within b'0' b'9' c

-- The number that the digits behind `n` make.
abbrev pub decimal : ℕ → Text → ℕ
decimal n [] = n
decimal n (c ∷ s) = decimal (n * 10 + (c - b'0')) s

abbrev pub max_safe_integer : ℕ
max_safe_integer = 9007199254740991

abbrev pub parse_digits : Text → Option ℕ
parse_digits trimmed =
    if is_nil trimmed
    then some 0
    else if all is_digit trimmed
    then if leb (decimal 0 trimmed) max_safe_integer then some (decimal 0 trimmed) else none
    else none

unfoldable pub parse_skip : Text → Option ℕ
parse_skip raw = parse_digits (trim raw)
