-- ===== src/Tests/Suggest.antt =====
-- Locations of tasks/deps/_suggest/_suggest.py.
use cdbx.Base.{◌≡◌, refl, true, false, List, some, Text, [], ◌∷◌, codes, All, text_eq}
use cdbx.Scanner.{Requirement}
use cdbx.Names.{normalize}
use cdbx.Suggest.{Config, Location, updatable}
use cdbx.Tests.Scanner.{numbers}
use cdbx.Tests.Replace.{one_requirement, updates}
use cdbx.Suggest.Updates.{Site, Info, Suggested, suggest}
use cdbx.Suggest.Updates.Changes.{AllChanges, IsSuggested, suggest-IsSuggested}
use cdbx.Suggest.Rules.{IsAllowed, updatable-IsAllowed}

abbrev config : Config
config = record {
  no_compat = [];
  no_upgrade = codes "Zope_Interface" ∷ [];
  keep_as_is = codes "old.txt" ∷ [];
  upgrade = codes "setup.py" ∷ [];
  compat = true;
}

abbrev in_setup : Location
in_setup = record {
  name = codes "six";
  applies = true;
  file_name = codes "setup.py";
  is_text = false;
}

abbrev never : Location
never = record {
  name = codes "zope.interface";
  applies = true;
  file_name = codes "setup.py";
  is_text = false;
}

abbrev as_is : Location
as_is = record { name = codes "six"; applies = true; file_name = codes "old.txt"; is_text = true }

choices :
    updatable config true (in_setup ∷ never ∷ as_is ∷ [])
    ≡ record { location = in_setup; upgrade = true; compat = false }
      ∷ record { location = never; upgrade = false; compat = true }
      ∷ []
unfolding updatable text_eq normalize
choices = refl

updatable-IsAllowed_example :
    All (IsAllowed config true) (updatable config true (in_setup ∷ never ∷ as_is ∷ []))
updatable-IsAllowed_example = updatable-IsAllowed config true (in_setup ∷ never ∷ as_is ∷ [])

abbrev site : Site
site = record { place = in_setup; content = codes "six == 3"; shown = codes "six==3" }

abbrev infos : List Info
infos = record { sites = site ∷ []; updates = updates } ∷ []

abbrev show : Requirement → Text
show req = codes "six==12"

abbrev suggested : Suggested
suggested = record {
  changes =
      (
        codes "setup.py",
        record { new_version = some (codes "12"); new = codes "six == 12"; old = codes "six == 3" }
            ∷ [],
      )
      ∷ [];
  latest = [];
  not_latest = codes "zope-interface" ∷ [];
}

one_change :
    suggest numbers one_requirement show config true (codes "zope.interface" ∷ []) infos
    ≡ some suggested
unfolding suggest cdbx.Version.Decimal.to_int cdbx.Base.is_space cdbx.Version.digits
    cdbx.Version.Decimal.to_text cdbx.Base.join
one_change = refl

suggest-IsSuggested_example :
    AllChanges (IsSuggested numbers one_requirement show config true infos) suggested.changes
suggest-IsSuggested_example =
    suggest-IsSuggested numbers one_requirement show config true infos (codes "zope.interface" ∷ [])
      suggested one_change
