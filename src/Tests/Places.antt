-- ===== src/Tests/Places.antt =====
-- Places of tasks/deps/_inspect/_inspect.py with the versions and the index of the scanner's tests.
use cdbx.Base.{◌≡◌, refl, inl, false, List, [], ◌∷◌, map, some, none, Text, codes, text_eq}
use cdbx.Names.{safe_extra}
use cdbx.Version.Decimal.{to_int}
use cdbx.Scanner.{scanner, inspect_all, result}
use cdbx.Tests.Scanner.{numbers, index, pinned, free}
use cdbx.Places.{Markers, Place, parsed, or_nothing, inspect_package}
use cdbx.Places.Passes.{
  Selects, keep, skip, nothing, location_of, requirement_of, inspect_package_lem,
}

-- Markers that ask for one extra.
abbrev one_extra : Markers
one_extra = record {
  Marker = Text;
  evaluate = λ wanted given. elim given [ none ↦ false | some e ↦ text_eq e wanted ];
}

abbrev places : List (Place one_extra)
places =
    record {
      requirement = pinned;
      marker = some (codes "dev");
      extras = codes "Dev" ∷ [];
      line = none;
    }
    ∷ record { requirement = free; marker = some (codes "doc"); extras = []; line = none }
    ∷ []

-- The first place counts, whose extra is the one that its marker asks for.
one_place : Selects one_extra places (
    record {
      requirement = pinned;
      marker = some (codes "dev");
      extras = codes "Dev" ∷ [];
      line = none;
    }
    ∷ [])
unfolding text_eq safe_extra
one_place = keep (inl refl) (skip (λ h. cc h) nothing)

inspect_package_lem_example :
    (kept : List (Place one_extra)) × Selects one_extra places kept
    × (inspect_package one_extra numbers to_int index (some (codes "4")) places ≡ (record {
      installed = some (codes "4");
      locations = map (location_of one_extra) kept;
      updates = or_nothing (
          result numbers (
            inspect_all numbers index
              (map (requirement_of one_extra) kept)
              (scanner numbers (parsed numbers to_int (some (codes "4"))))));
    }))
inspect_package_lem_example =
    inspect_package_lem one_extra numbers to_int index (some (codes "4")) places
