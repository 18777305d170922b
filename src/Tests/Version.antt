-- ===== src/Tests/Version.antt =====
-- Version numbers of tasks/deps/_suggest/_requirement.py on concrete inputs.
use cdbx.Base.{
  ◌≡◌, ◌↔◌, refl, List, [], ◌∷◌, suc, some, Text, codes, false, true, length, is_digit, join,
}
use cdbx.Version.{Release, from_start, match_release, plus_1, bump_index}
use cdbx.Version.Decimal.{to_int}
use cdbx.Version.Bump.{release_lt, Agree}
use cdbx.Version.Match.{spell_release, match_release-spell_release, match_release-IsRelease}
use cdbx.Version.Adjust.{numbers_of, plus_1-limit}

abbrev release : Text → List Text → Release
release before numbers = record { before = before; numbers = numbers }

abbrev old : Release
old = release [] (codes "1" ∷ codes "9" ∷ codes "3" ∷ [])

abbrev new : Release
new = release (codes "v2!") (codes "4" ∷ codes "0" ∷ [])

match_old : match_release (codes "1.9.3") ≡ some old
unfolding match_release is_digit
match_old = refl

match_new : match_release (codes "v2!4.0") ≡ some new
unfolding match_release is_digit
match_new = refl

match_release-spell_release_example : match_release (spell_release new) ≡ some new
match_release-spell_release_example =
    match_release-spell_release new (match_release-IsRelease (codes "v2!4.0") match_new)

plus_1_old : plus_1 (codes "1.9.3") (from_start 0) ≡ some (codes "2")
unfolding plus_1 is_digit join
plus_1_old = refl

not_below_old : release_lt (1 ∷ 10 ∷ []) (numbers_of (codes "1.9.3")) ≡ false
unfolding release_lt numbers_of match_release is_digit to_int
not_below_old = refl

plus_1-limit_example :
    (release_lt (1 ∷ 10 ∷ []) (numbers_of (codes "2")) ≡ true)
    ↔ Agree
        (suc (bump_index (from_start 0) (length (numbers_of (codes "1.9.3")))))
        (numbers_of (codes "1.9.3"))
        (1 ∷ 10 ∷ [])
plus_1-limit_example =
    plus_1-limit (codes "1.9.3") (from_start 0) match_old plus_1_old (1 ∷ 10 ∷ []) not_below_old
