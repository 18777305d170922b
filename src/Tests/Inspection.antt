-- ===== src/Tests/Inspection.antt =====
-- An installed package and an editable one, and the requirement files that name them.
use cdbx.Base.{
  ◌≡◌, refl, true, false, Bool, List, [], ◌∷◌, Option, some, none, Text, codes, text_eq,
  if◌then◌else◌,
}
use cdbx.Shell.Format.{◌>>=◌}
use cdbx.ReqFile.{Token, requirement, editable}
use cdbx.ReqFile.Paths.{FilePath}
use cdbx.ReqFile.Files.{Line}
use cdbx.Places.{Markers, Place}
use cdbx.Inspection.{Installed, Parsed, find_installed}
use cdbx.Inspection.Together.{places_in, tokens_of, tokens_of}

abbrev always : Markers
always = record { Marker = Text; evaluate = λ wanted given. true }

abbrev six : Parsed always
six = record { content = record { name = codes "Six"; specifier = [] }; marker = none; extras = [] }

abbrev app : Parsed always
app = record {
  content = record { name = codes "app"; specifier = [] };
  marker = none;
  extras = codes "dev" ∷ [];
}

-- A parser that knows these two, a folder of the editable package, and what that requires.
abbrev parse : Text → Option (Parsed always)
parse text = some (if text_eq text (codes "app[dev]") then app else six)

abbrev is_dir : FilePath → Bool
is_dir path = true

abbrev requires : Text → Option (List Text)
requires name = some (codes "six" ∷ [])

abbrev found : List Installed
found =
    record { name = codes "six"; version = codes "4"; editable = none }
    ∷ record { name = codes "app"; version = codes "1"; editable = some (codes "/srv/app/") }
    ∷ []

abbrev line : Line
line = record { file = codes "srv" ∷ codes "req.txt" ∷ []; lineno = 1; content = codes "six" }

abbrev tokens : List (Token (Parsed always))
tokens = requirement six line ∷ editable (codes "./app [dev]") line ∷ []

abbrev from_app : Place always
from_app = record {
  requirement = six.content;
  marker = none;
  extras = codes "dev" ∷ [];
  line = none;
}

abbrev from_line : Place always
from_line = record { requirement = six.content; marker = none; extras = []; line = some line }

two_places :
    (find_installed found >>= λ installed. places_in always parse is_dir requires installed tokens)
    ≡ some ((codes "six", from_line) ∷ (codes "six", from_app) ∷ [])
unfolding find_installed places_in cdbx.Inspection.find_editable_deps cdbx.Base.strip
    cdbx.Base.is_space
two_places = refl
