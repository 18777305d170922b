-- ===== src/Latest/Changed.antt =====
-- `LatestFile.as_changed` of tasks/deps/_suggest/_latest_file.py.
use cdbx.Base.{
  ◌≡◌, ◌≢◌, ◌⊎◌, Bool, true, false, ◌||◌, List, [], ◌∷◌, Option, none, some, Text, text_eq,
  if◌then◌else◌, All,
}
use cdbx.Names.{normalize}
use cdbx.Scanner.{Requirement, Operator, Spec}
use cdbx.Shell.Format.{◌>>=◌}
use cdbx.Replace.{ops_are}
use cdbx.Latest.{Parser, Config, Loaded, as_patch_info}

-- A dictionary from names to versions, the keys in the order of their first assignment.
abbrev pub Versions : Type 0
Versions = List (Text × Text)

-- `d.get(name)`
unfoldable pub get_version : Text → Versions → Option Text
get_version name [] = none
get_version name ((n, v) ∷ d) = if text_eq n name then some v else get_version name d

-- `d[name] = version`
unfoldable pub put_version : Text → Text → Versions → Versions
put_version name version [] = (name, version) ∷ []
put_version name version ((n, v) ∷ d) =
    let rest = put_version name version d in
    if text_eq n name then (n, version) ∷ d else (n, v) ∷ rest

abbrev first_of : List Spec → Option Text
first_of [] = none
first_of (s ∷ _) = some s.version

-- `versions[0]`, if `ops in ({"=="}, {"~="})`
unfoldable pub pinned_version : Requirement → Option Text
unfolding ops_are
pinned_version req =
    if ops_are Operator.equal req.specifier || ops_are Operator.compatible req.specifier
    then first_of req.specifier
    else none

-- The specifiers of a requirement are all `==`, or all `~=`, and the first one has this version.
pub record IsPin (req : Requirement) (v : Text) : Type 0 where
  pub first : Spec
  pub rest : List Spec
  pub specifiers : req.specifier ≡ first ∷ rest
  pub version : first.version ≡ v
  pub operators :
      All (λ s. s.operator ≡ Operator.equal) req.specifier
      ⊎ All (λ s. s.operator ≡ Operator.compatible) req.specifier

-- `removed.get(name) != version`
unfoldable pub differs : Option Text → Text → Bool
differs none version = true
differs (some v) version = if text_eq v version then false else true

-- The bodies of both loops; without versions that were removed before, everything is new.
abbrev pub note_pin : (Text → Text → Bool) → Option Text → Text → Versions → Versions
note_pin is_new none name d = d
note_pin is_new (some v) name d = if is_new name v then put_version name v d else d

-- `_parse.requirement` is a parameter; `none` is its exception.
module _ (parser : Parser) (config : Config) (requirement : Text → Option Requirement) where
  -- A loop over the lines.
  unfoldable pub pins : (Text → Text → Bool) → List Text → Versions → Option Versions
  unfolding normalize pinned_version
  pins is_new [] d = some d
  pins is_new (line ∷ lines) d = requirement line >>= λ req.
      pins is_new lines (note_pin is_new (pinned_version req) (normalize req.name) d)

  abbrev pub changed_of : Option (List Text × List Text) → Option Versions
  changed_of none = some []
  changed_of (some (add, remove)) = pins (λ _ _. true) remove [] >>= λ removed.
      pins (λ name v. differs (get_version name removed) v) add []

  -- `as_changed()`
  unfoldable pub as_changed : Loaded → Option Versions
  unfolding pins as_patch_info
  as_changed file = changed_of (as_patch_info parser config file)

  -- A line of the list requires exactly this version of the name, or one compatible with it.
  abbrev pub IsPinned : Text → Text → List Text → Type 0
  IsPinned name v [] = ⊥
  IsPinned name v (line ∷ lines) =
      ((req : Requirement) × (requirement line ≡ some req)
        × (normalize req.name ≡ name)
        × IsPin req v)
      ⊎ IsPinned name v lines

  -- An entry of the result: an added line pins the name to the version, and what was pinned by the
  -- removed lines is not that version.
  abbrev pub IsChange : List Text → Versions → Text × Text → Type 0
  IsChange add removed (name, v) = IsPinned name v add × (get_version name removed ≢ some v)
