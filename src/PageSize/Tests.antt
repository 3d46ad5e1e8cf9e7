-- ===== src/PageSize/Tests.antt =====
-- Tests of the page size and of the offset.
use couch_companion_ui.Prelude.{
  ◌≡◌, refl, ◌+◌, ℕ, Option, none, some, Text, codes, if◌then◌else◌, ◌===◌, text_eq, nat_eq, trim,
  is_space,
}
use couch_companion_ui.PageSize.{
  print_nat, max_safe_integer, get_page_size, set_page_size, parse_skip,
}
use couch_companion_ui.PageSize.Laws.{parse_skip-print}

refused : parse_skip (codes "1e3") ≡ none
unfolding parse_skip trim is_space
refused = refl

empty_skip : parse_skip (codes "  ") ≡ some 0
unfolding parse_skip trim is_space
empty_skip = refl

parse_skip-print_example : parse_skip (print_nat 1234) ≡ some 1234
parse_skip-print_example = parse_skip-print 1234

too_large : parse_skip (print_nat (max_safe_integer + 1)) ≡ none
too_large = parse_skip-print (max_safe_integer + 1)

abbrev number : Text → Option ℕ
number t = if t === codes "50" then some 50 else none

stored_size : get_page_size number (set_page_size 50 none) ≡ 50
unfolding get_page_size set_page_size
stored_size = refl

not_offered : get_page_size number (set_page_size 7 none) ≡ 25
unfolding get_page_size set_page_size
not_offered = refl
