-- ===== src/Places.antt =====
-- tasks/deps/_inspect/_inspect.py: `_place_evaluates`, `_inspect_place` and `_inspect_package`. Markers
-- and their evaluation come from another package and are parameters.
pub mod Passes
use cdbx.Base.{Bool, true, false, List, [], ◌∷◌, Option, none, some, Text, if◌then◌else◌, any}
use cdbx.Names.{safe_extra}
use cdbx.ReqFile.Files.{Line}
use cdbx.Scanner.{
  Versions, Requirement, Field, unchanged, compatible, latest, Scanner, Index, scanner, inspect,
  result,
}

-- The markers, with `evaluate` in an environment that names an extra or none.
pub record Markers : Type 1 where
  pub Marker : Type 0
  pub evaluate : Marker → Option Text → Bool

module _ (markers : Markers) where
  open markers use {Marker, evaluate}

  -- A place where a requirement was found: the keys `requirement`, with its marker, `extras` and
  -- `line`.
  pub record Place : Type 0 where
    pub requirement : Requirement
    pub marker : Option Marker
    pub extras : List Text
    pub line : Option Line

  abbrev pub evaluates_for : Marker → List Text → Bool
  evaluates_for mark [] = evaluate mark none
  evaluates_for mark (extra ∷ extras) =
      any (λ e. evaluate mark (some (safe_extra e))) (extra ∷ extras)

  abbrev pub holds : Option Marker → List Text → Bool
  holds none extras = true
  holds (some mark) extras = evaluates_for mark extras

  -- `_place_evaluates(place)`
  unfoldable pub place_evaluates : Place → Bool
  place_evaluates place = holds place.marker place.extras

-- The dictionary that `_inspect_place` returns.
pub record Location : Type 0 where
  pub requirement : Requirement
  pub file : Option Line

-- The dictionary that `_inspect_package` returns.
pub record Inspected : Type 0 where
  pub installed : Option Text
  pub locations : List Location
  pub updates : Option (Field → Option Text)

-- `result or None`, of the three keys
unfoldable pub or_nothing : (Field → Option Text) → Option (Field → Option Text)
or_nothing found = elim (found unchanged) [
  | some v ↦ some found
  | none ↦ elim (found compatible) [
    | some v ↦ some found
    | none ↦ elim (found latest) [ some v ↦ some found | none ↦ none ]
  ]
]

-- `package_version and _parse.version(package_version)`
abbrev pub parsed : (vs : Versions) → (Text → vs.V) → Option Text → Option vs.V
parsed vs parse none = none
parsed vs parse (some version) = some (parse version)

module _ (markers : Markers) (vs : Versions) (parse : Text → vs.V) (index : Index vs) where
  -- `_inspect_place(scanner, place)`, with the scanner that it changes.
  unfoldable pub inspect_place : Place markers → Scanner vs → Location × Scanner vs
  inspect_place place s = (
    record { requirement = place.requirement; file = place.line },
    inspect vs index place.requirement s,
  )

  -- The list comprehension, from any scanner on.
  unfoldable pub inspect_places : List (Place markers) → Scanner vs → List Location × Scanner vs
  unfolding place_evaluates inspect_place
  inspect_places [] s = ([], s)
  inspect_places (place ∷ places) s =
      if place_evaluates markers place
      then (let (location, t) = inspect_place place s in
          let (locations, u) = inspect_places places t in (location ∷ locations, u))
      else inspect_places places s

  -- `_inspect_package(index, name, version, places)`
  unfoldable pub inspect_package : Option Text → List (Place markers) → Inspected
  unfolding inspect_places or_nothing
  inspect_package version places =
      let (locations, s) = inspect_places places (scanner vs (parsed vs parse version)) in
      record { installed = version; locations = locations; updates = or_nothing (result vs s) }
