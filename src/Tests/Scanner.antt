-- ===== src/Tests/Scanner.antt =====
-- The package scanner of tasks/deps/_inspect/_index.py with numbers as versions.
use native.Mathlib.Omega.{arith}
use cdbx.Base.{ℕ, ◌≡◌, refl, true, false, List, [], ◌∷◌, Option, some, none, codes, ltb, ◌==◌}
use cdbx.Version.Decimal.{to_text}
use cdbx.Scanner.{
  Versions, Requirement, Spec, latest, Scanner, Index, equal, less, scanner, get, inspect_all,
  result,
}
use cdbx.Scanner.Bounds.{IsSound, Rise, inspect_all-IsSound}
use cdbx.Scanner.Choice.{Spells, desired, desired_compatible, desired-result}

pub same_number_trans : (a b c : ℕ) → (a == b) ≡ true → (b == c) ≡ true → (a == c) ≡ true
same_number_trans a b c h k = ground arith

pub same_number_refl : (a : ℕ) → (a == a) ≡ true
same_number_refl a = ground arith

pub below_irrefl : (a : ℕ) → ltb a a ≡ false
below_irrefl a = ground arith

pub not_below_trans : (a b c : ℕ) → ltb a b ≡ false → ltb b c ≡ false → ltb a c ≡ false
not_below_trans a b c h k = ground arith

pub not_below_of_above : (a b : ℕ) → ltb a b ≡ true → ltb b a ≡ false
not_below_of_above a b h = ground arith

-- 100 is a prerelease.
abbrev pub numbers : Versions
numbers = record {
  V = ℕ;
  lt = ltb;
  same = λ a b. a == b;
  is_prerelease = λ a. a == 100;
  show = to_text;
  same_trans = same_number_trans;
  same_refl = same_number_refl;
  lt_irrefl = below_irrefl;
  ge_trans = not_below_trans;
  ge_of_gt = not_below_of_above;
}

-- An index that offers 7 where nothing is asked for, 5 for an exact version, 9 below another, and
-- 100 otherwise.
abbrev answer : List Spec → Option ℕ
answer [] = some 7
answer (s ∷ []) = elim s.operator [ equal ↦ some 5 | less ↦ some 9 | _ ↦ some 100 ]
answer (s ∷ t ∷ ss) = some 9

abbrev pub index : Index numbers
index = record { lookup = λ q. answer q.specifier; valid = λ specs. true }

abbrev pub pinned : Requirement
pinned = record {
  name = codes "six";
  specifier = record { operator = equal; version = codes "5" } ∷ [];
}

abbrev pub free : Requirement
free = record { name = codes "six"; specifier = [] }

found :
    get numbers (inspect_all numbers index (pinned ∷ []) (scanner numbers (some 4))) latest ≡ some 9
unfolding get inspect_all scanner
found = refl

inspect_all-IsSound_example :
    let s = inspect_all numbers index (pinned ∷ []) (scanner numbers (some 4)) in
    IsSound numbers index s
    × IsSound numbers index (inspect_all numbers index (free ∷ []) s)
    × Rise numbers index s (inspect_all numbers index (free ∷ []) s)
inspect_all-IsSound_example = inspect_all-IsSound numbers index (some 4) (pinned ∷ []) (free ∷ [])

abbrev seen : Scanner numbers
seen = record { installed = none; unchanged = some 5; compatible = some 5; latest = some 9 }

desired-result_example :
    Spells numbers (desired (result numbers seen)) (desired (get numbers seen))
    × Spells numbers
        (desired_compatible (result numbers seen))
        (desired_compatible (get numbers seen))
desired-result_example = desired-result numbers seen
