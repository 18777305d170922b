-- ===== src/Places/Passes.antt =====
-- The one pass over the places, which changes the scanner on the way, as separate passes.
use cdbx.Names.{safe_extra}
use cdbx.Base.{
  ◌≡◌, ◌⊎◌, ◌↔◌, refl, true, List, [], ◌∷◌, map, any, Option, none, some, Text, if◌then◌else◌,
  Bool-cases, inl, inr,
}
use cdbx.Scanner.{Versions, Requirement, Scanner, Index, scanner, inspect, inspect_all, result}
use cdbx.Places.{
  Markers, Place, holds, place_evaluates, Location, or_nothing, parsed, inspect_place,
  inspect_places, inspect_package,
}

module _ (markers : Markers) where
  open markers use {Marker, evaluate}

  -- The marker holds for one of the extras.
  abbrev pub HoldsForOne : Marker → List Text → Type 0
  HoldsForOne mark [] = ⊥
  HoldsForOne mark (e ∷ es) = (evaluate mark (some (safe_extra e)) ≡ true) ⊎ HoldsForOne mark es

  -- The place counts in this environment: it has no marker, or the marker holds, for one of the
  -- extras if there are any.
  abbrev pub Holds : Option Marker → List Text → Type 0
  Holds none extras = Unit
  Holds (some mark) [] = evaluate mark none ≡ true
  Holds (some mark) (e ∷ es) = HoldsForOne mark (e ∷ es)

  -- The second list has the places of the first one that count, in their order.
  pub data Selects : List (Place markers) → List (Place markers) → Type 0 where
    nothing : Selects [] []
    keep :
        {place : Place markers} {places kept : List (Place markers)}
        → Holds place.marker place.extras
        → Selects places kept
        → Selects (place ∷ places) (place ∷ kept)
    skip :
        {place : Place markers} {places kept : List (Place markers)}
        → ¬ Holds place.marker place.extras
        → Selects places kept
        → Selects (place ∷ places) kept

  any-HoldsForOne :
      (mark : Marker) (es : List Text)
      → (any (λ e. evaluate mark (some (safe_extra e))) es ≡ true) ↔ HoldsForOne mark es
  any-HoldsForOne mark [] = (λ h. absurd (cc h), λ h. absurd h)
  any-HoldsForOne mark (e ∷ es) = elim (Bool-cases (evaluate mark (some (safe_extra e)))) [
    | inl k ↦ (λ h. inl k, λ h. rw k refl)
    | inr k ↦ (
      λ h. inr ((any-HoldsForOne mark es).0 (rw k at h)),
      λ h. elim h [
        | inl y ↦ absurd (cc (rw k at y))
        | inr y ↦ rw k ((any-HoldsForOne mark es).1 y)
      ],
    )
  ]

  holds-Holds : (m : Option Marker) (es : List Text) → (holds markers m es ≡ true) ↔ Holds m es
  holds-Holds none es = (λ h. tt, λ h. refl)
  holds-Holds (some mark) [] = (λ h. h, λ h. h)
  holds-Holds (some mark) (e ∷ es) = any-HoldsForOne mark (e ∷ es)

  -- The places that count, computed.
  unfoldable pub evaluating : List (Place markers) → List (Place markers)
  unfolding place_evaluates
  evaluating [] = []
  evaluating (place ∷ places) =
      if place_evaluates markers place then place ∷ evaluating places else evaluating places

  evaluating-Selects : (places : List (Place markers)) → Selects places (evaluating places)
  unfolding evaluating place_evaluates
  evaluating-Selects [] = nothing
  evaluating-Selects (place ∷ places) =
      elim (Bool-cases (holds markers place.marker place.extras)) [
        | inl h ↦
            rw h (keep ((holds-Holds place.marker place.extras).0 h) (evaluating-Selects places))
        | inr h ↦ rw h (
            skip (λ k. let yes = (holds-Holds place.marker place.extras).1 k in cc (rw yes at h))
              (evaluating-Selects places))
      ]

  abbrev pub location_of : Place markers → Location
  location_of place = record { requirement = place.requirement; file = place.line }

  abbrev pub requirement_of : Place markers → Requirement
  requirement_of place = place.requirement

module _ (markers : Markers) (vs : Versions) (parse : Text → vs.V) (index : Index vs) where
  inspect_places-passes :
      (places : List (Place markers)) (s : Scanner vs)
      → inspect_places markers vs parse index places s ≡ (
        map (location_of markers) (evaluating markers places),
        inspect_all vs index (map (requirement_of markers) (evaluating markers places)) s,
      )
  unfolding inspect_places evaluating inspect_all inspect_place
  inspect_places-passes [] s = refl
  inspect_places-passes (place ∷ places) s = elim (Bool-cases (place_evaluates markers place)) [
    | inl h ↦ rw h (rw (inspect_places-passes places (inspect vs index place.requirement s)) refl)
    | inr h ↦ rw h (inspect_places-passes places s)
  ]

  -- Inspecting a package lists exactly the places whose markers hold, for one of the extras of the
  -- place if it has any, in their order, and asks the index for their requirements and no others, one
  -- after another, with one scanner.
  pub inspect_package_lem :
      (version : Option Text) (places : List (Place markers))
      → (kept : List (Place markers)) × Selects markers places kept
        × (inspect_package markers vs parse index version places ≡ (record {
          installed = version;
          locations = map (location_of markers) kept;
          updates = or_nothing (
              result vs (
                inspect_all vs index
                  (map (requirement_of markers) kept)
                  (scanner vs (parsed vs parse version))));
        }))
  unfolding inspect_package
  inspect_package_lem version places = (
    evaluating markers places,
    evaluating-Selects markers places,
    rw (inspect_places-passes places (scanner vs (parsed vs parse version))) refl,
  )
