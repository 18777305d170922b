-- ===== src/Inspection/Together.antt =====
-- Which places `inspect_dependencies` inspects together.
use cdbx.Base.{Bool, List, [], ◌∷◌, ◌++◌, Option, none, some, Text}
use cdbx.Shell.Format.{◌>>=◌}
use cdbx.Names.{normalize}
use cdbx.ReqFile.{
  Token, constraint, requirement, editable, index, Target, Outcome, done, raised, out_of_fuel,
}
use cdbx.ReqFile.Paths.{FilePath}
use cdbx.Scanner.{Versions, Index}
use cdbx.Places.{Markers, Place, Inspected, inspect_package}
use cdbx.Inspection.{Installed, dict_get, version_of, Parsed, find_editable_deps}

module _ (markers : Markers) (parse : Text → Option (Parsed markers)) (is_dir : FilePath → Bool)
    (requires : Text → Option (List Text)) where
  -- The places of the dependencies of an editable package, each with its normalized name.
  unfoldable pub dep_places : List Text → List (Parsed markers) → List (Text × Place markers)
  dep_places extras [] = []
  dep_places extras (p ∷ ps) =
      (
        normalize p.content.name,
        record { requirement = p.content; marker = p.marker; extras = extras; line = none },
      )
      ∷ dep_places extras ps

  -- The places of a token, none if it is no requirement.
  unfoldable pub token_places :
      List (Text × Installed) → Token (Parsed markers) → Option (List (Text × Place markers))
  unfolding dep_places
  token_places installed (requirement p line) = some (
      (
        normalize p.content.name,
        record { requirement = p.content; marker = p.marker; extras = []; line = some line },
      )
      ∷ [])
  token_places installed (editable value line) =
      find_editable_deps markers parse is_dir requires installed value line >>= λ (ps, extras).
      some (dep_places extras ps)
  token_places installed (constraint target line) = some []
  token_places installed (index value line) = some []

  unfoldable pub places_in :
      List (Text × Installed) → List (Token (Parsed markers)) → Option (List (Text × Place markers))
  unfolding token_places
  places_in installed [] = some []
  places_in installed (t ∷ ts) =
      token_places installed t >>= λ items. places_in installed ts >>= λ rest. some (items ++ rest)

  unfoldable with_target : Token (Parsed markers) → List Target → List Target
  with_target (requirement p line) con = con
  with_target (editable value line) con = con
  with_target (constraint target line) con = con ++ target ∷ []
  with_target (index value line) con = con

  unfoldable with_targets : List (Token (Parsed markers)) → List Target → List Target
  unfolding with_target
  with_targets [] con = con
  with_targets (t ∷ ts) con = with_targets ts (with_target t con)

  module _ (vs : Versions) (to_version : Text → vs.V) (packages : Index vs) where
    -- What stands under a name with the given places, or behind them.
    unfoldable pub inspected_or :
        List (Text × Installed)
        → Text
        → Option (List (Place markers))
        → Option Inspected
        → Option Inspected
    unfolding inspect_package version_of dict_get
    inspected_or installed name none other = other
    inspected_or installed name (some ps) other =
        some
          (inspect_package markers vs to_version packages (version_of (dict_get name installed)) ps)

    -- The tokens of the files; `none` if reading them fails.
    abbrev pub tokens_of : Outcome parse → Option (List (Token (Parsed markers)))
    tokens_of (done ts) = some ts
    tokens_of raised = none
    tokens_of out_of_fuel = none
