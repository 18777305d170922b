-- ===== src/Names.antt =====
-- tasks/deps/_parse.py: `normalize`, `safe_extra` and `name_as_regex` on package names. The names
-- are ASCII, as the grammar `idre` of that file has it, so `str.lower` is the ASCII one.
pub mod Canonical
use cdbx.Base.{
  ℕ, ◌-◌, ◌≡◌, refl, Bool, true, false, not, ◌&&◌, ◌||◌, List, [], ◌∷◌, ◌++◌, map, Text, codes,
  ◌==◌, if◌then◌else◌, is_lower, is_upper, is_digit, lower_char,
}

abbrev pub dash : ℕ
dash = b'-'

-- `[-_.]`
unfoldable pub is_separator : ℕ → Bool
is_separator c = c == dash || c == b'_' || c == b'.'

-- `[class+].sub(with)`: each longest run of characters of the class becomes one character. The
-- flag says that the character before was in the class.
unfoldable pub sub_runs : (ℕ → Bool) → ℕ → Bool → Text → Text
sub_runs class with inside [] = []
sub_runs class with inside (c ∷ s) =
    let rest = sub_runs class with (class c) s in
    if class c then (if inside then rest else with ∷ rest) else c ∷ rest

-- `str.lower`
unfoldable pub lower : Text → Text
unfolding lower_char
lower = map lower_char

unfoldable pub normalize : Text → Text
unfolding sub_runs is_separator lower
normalize name = lower (sub_runs is_separator dash false name)

-- `[^A-Za-z0-9.-]`
unfoldable pub is_unsafe : ℕ → Bool
unfolding is_lower is_upper is_digit
is_unsafe c = not (is_upper c || is_lower c || is_digit c || c == b'.' || c == dash)

unfoldable pub safe_extra : Text → Text
unfolding sub_runs is_unsafe lower
safe_extra value = lower (sub_runs is_unsafe b'_' false value)

normalize_test : normalize (codes "Foo__Bar.-baz") ≡ codes "foo-bar-baz"
unfolding normalize
normalize_test = refl

safe_extra_test : safe_extra (codes "Dev & Test") ≡ codes "dev_test"
unfolding safe_extra
safe_extra_test = refl
