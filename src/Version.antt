-- ===== src/Version.antt =====
-- Version numbers: the regular expression `version_release` of tasks/deps/_parse.py, and `digits`
-- and `plus_1` of tasks/deps/_suggest/_requirement.py.
pub mod Decimal
pub mod Bump
pub mod Items
pub mod Match
pub mod Adjust
use cdbx.Version.Decimal.{to_int, to_text}
use cdbx.Base.{
  ℕ, zero, suc, ◌+◌, ◌-◌, ◌≡◌, refl, Bool, true, false, not, ◌&&◌, ◌||◌, List, [], ◌∷◌, ◌++◌, map,
  Option, none, some, Text, codes, ◌==◌, ltb, if◌then◌else◌, is_digit, join, length, take,
  replicate,
}

abbrev pub dot : ℕ
dot = b'.'

-- `[0-9]+`, as far as it goes, and what follows.
unfoldable pub digit_run : Text → Text
digit_run [] = []
digit_run (c ∷ s) = if is_digit c then c ∷ digit_run s else []

unfoldable pub after_digits : Text → Text
after_digits [] = []
after_digits (c ∷ s) = if is_digit c then after_digits s else c ∷ s

abbrev pub add_digit : ℕ → List Text → List Text
add_digit c [] = (c ∷ []) ∷ []
add_digit c (p ∷ ps) = (c ∷ p) ∷ ps

-- `[0-9]+(?:\.[0-9]+)*`, split at its dots: the second group of `version_release`, as both callers
-- use it. A dot counts only in front of a digit. No item: there is no match.
unfoldable pub items : Text → List Text
items [] = []
items (c ∷ []) = if is_digit c then (c ∷ []) ∷ [] else []
items (c ∷ d ∷ s) =
    let rest = items (d ∷ s) in
    if is_digit c
    then (if is_digit d
        then add_digit c rest
        else if d == dot
        then (c ∷ []) ∷ items s
        else (c ∷ []) ∷ [])
    else []

-- The optional epoch, `(?:[0-9]+!)?`, of a run of digits and what follows them: it is taken only
-- if a digit follows the mark.
unfoldable pub pick_epoch : Text → Text → Text
pick_epoch (c ∷ run) (d ∷ e ∷ rest) = if d == b'!' && is_digit e then c ∷ (run ++ d ∷ []) else []
pick_epoch _ _ = []

unfoldable pub epoch : Text → Text
unfolding digit_run after_digits pick_epoch
epoch s = pick_epoch (digit_run s) (after_digits s)

unfoldable pub drop_prefix : Text → Text → Text
drop_prefix [] s = s
drop_prefix (p ∷ ps) [] = []
drop_prefix (p ∷ ps) (c ∷ s) = drop_prefix ps s

-- The two groups of `version_release`: the text in front of the numbers, and the number items.
pub record Release : Type 0 where
  pub before : Text
  pub numbers : List Text

abbrev pub with_items : Text → List Text → Option Release
with_items b [] = none
with_items b (n ∷ ns) = some (record { before = b; numbers = n ∷ ns })

-- The match behind the optional `v`.
unfoldable pub match_numbers : Text → Text → Option Release
unfolding epoch items drop_prefix
match_numbers v s = with_items (v ++ epoch s) (items (drop_prefix (epoch s) s))

-- `re.match(version_release, s)`
unfoldable pub match_release : Text → Option Release
unfolding match_numbers
match_release [] = none
match_release (c ∷ s) =
    if c == b'v' || c == b'V' then match_numbers (c ∷ []) s else match_numbers [] (c ∷ s)

abbrev pub or_later : Option Release → Option Release → Option Release
or_later none later = later
or_later (some r) later = some r

-- `re.search`: the first place where it matches.
unfoldable pub search_release : Text → Option Release
unfolding match_release
search_release [] = none
search_release (c ∷ s) = or_later (match_release (c ∷ s)) (search_release s)

-- The body of `digits`, on the matches of its arguments.
unfoldable pub adjust : Option Release → Option Release → Text → Text
adjust none target target_version = target_version
adjust (some ref) none target_version = target_version
adjust (some ref) (some target) target_version =
    let no_digits = length ref.numbers in
    target.before ++ join dot (take no_digits (target.numbers ++ replicate no_digits (b'0' ∷ [])))

-- `digits(ref_version, target_version)`
unfoldable pub digits : Text → Text → Text
unfolding search_release adjust
digits ref_version target_version =
    adjust (search_release ref_version) (search_release target_version) target_version

-- The argument `which` of `plus_1`: an index from the end (`from_end 2` is -2) or the start.
pub data Which : Type 0 where
  from_end : ℕ → Which
  from_start : ℕ → Which

-- The index that is changed, in a list of `n` numbers.
unfoldable pub bump_index : Which → ℕ → ℕ
bump_index (from_end k) n = if k == 0 then 0 else if ltb n k then n - 1 else n - k
bump_index (from_start i) n = if ltb i n then i else n - 1

-- `numbers[index] += 1`, then `numbers[: index + 1]`
unfoldable pub bump_at : ℕ → List ℕ → List ℕ
bump_at i [] = []
bump_at zero (n ∷ ns) = (n + 1) ∷ []
bump_at (suc i) (n ∷ ns) = n ∷ bump_at i ns

unfoldable pub bump : Which → List ℕ → List ℕ
unfolding bump_index bump_at
bump which numbers = bump_at (bump_index which (length numbers)) numbers

-- The body of `plus_1`, on the match of its argument; `none` is the failed assertion.
unfoldable pub increase : Option Release → Which → Option Text
unfolding bump to_int to_text
increase none which = none
increase (some release) which =
    some (release.before ++ join dot (map to_text (bump which (map to_int release.numbers))))

-- `plus_1(version, which)`
unfoldable pub plus_1 : Text → Which → Option Text
unfolding match_release increase
plus_1 version which = increase (match_release version) which

digits_test :
    (digits (codes "1.2") (codes "v3.4.5rc1") ≡ codes "v3.4")
    × (digits (codes "1.2.3") (codes "1!3") ≡ codes "1!3.0.0")
unfolding digits is_digit join
digits_test = (refl, refl)

plus_1_test :
    (plus_1 (codes "1.9.3") (from_end 2) ≡ some (codes "1.10"))
    × (plus_1 (codes "7") (from_end 2) ≡ some (codes "8"))
    × (plus_1 (codes "x") (from_end 2) ≡ none)
unfolding plus_1 is_digit join
plus_1_test = (refl, refl, refl)
