-- ===== src/Suggest/Updates.antt =====
-- The loops of `suggest_updates` in tasks/deps/_suggest/_suggest.py, on candidates with their
-- locations.
pub mod Changes
use cdbx.Base.{
  Bool, true, false, not, ◌&&◌, ◌||◌, List, [], ◌∷◌, ◌++◌, Option, none, some, map, Text, codes,
  text_eq, mem_text, if◌then◌else◌,
}
use cdbx.Names.{normalize}
use cdbx.Scanner.{Versions, Requirement, Field}
use cdbx.Shell.Format.{◌>>=◌}
use cdbx.Replace.{Parsers, replace}
use cdbx.Suggest.{Config, Location, Choice, updatable}

-- A location with its text, and with its requirement as a text.
pub record Site : Type 0 where
  pub place : Location
  pub content : Text
  pub shown : Text

-- A candidate: its locations and its versions.
pub record Info : Type 0 where
  pub sites : List Site
  pub updates : Field → Option Text

-- An entry of `changes[file]`.
pub record Change : Type 0 where
  pub new_version : Option Text
  pub new : Text
  pub old : Text

-- The dicts and the set that the loop fills, by file and by name.
pub record Suggested : Type 0 where
  pub changes : List (Text × List Change)
  pub latest : List (Text × Text × Option Text)
  pub not_latest : List Text

-- `changes[file].append(change)`
unfoldable pub append_change : Text → Change → List (Text × List Change) → List (Text × List Change)
append_change file c [] = (file, c ∷ []) ∷ []
append_change file c ((f, cs) ∷ changes) =
    let rest = append_change file c changes in
    if text_eq f file then (f, cs ++ c ∷ []) ∷ changes else (f, cs) ∷ rest

-- `latest[key] = dict(new=..., new_version=...)`
unfoldable pub put_latest :
    Text → Text → Option Text → List (Text × Text × Option Text) → List (Text × Text × Option Text)
put_latest key new version [] = (key, new, version) ∷ []
put_latest key new version ((k, n, v) ∷ latest) =
    let rest = put_latest key new version latest in
    if text_eq k key then (k, new, version) ∷ latest else (k, n, v) ∷ rest

-- `show` is the text of a requirement, from another package.
module _ (vs : Versions) (parsers : Parsers vs) (show : Requirement → Text) where
  -- The end of the branch for the latest block.
  unfoldable pub settle_latest : Text → Text → Text → Option Text → Text → Suggested → Suggested
  unfolding put_latest mem_text text_eq
  settle_latest key shown lreq lversion plain st =
      if text_eq shown plain
      then record st { not_latest = key ∷ st.not_latest }
      else if mem_text key st.not_latest
      then st
      else record st { latest = put_latest key lreq lversion st.latest }

  -- The branch for the latest block, for a requirement that is still considered.
  unfoldable pub note_latest :
      Site → (Field → Option Text) → Bool → Requirement → Suggested → Option Suggested
  unfolding settle_latest replace
  note_latest site updates upgrade preq st =
      replace vs parsers (record { upgrade = upgrade; compat = false; latest = true }) site.content
        updates
      >>= λ (lreq, lversion). parsers.requirement lreq >>= λ plreq.
          some (settle_latest (normalize plreq.name) (show plreq) lreq lversion (show preq) st)

  unfoldable pub maybe_latest :
      Site → (Field → Option Text) → Choice → Requirement → Suggested → Option Suggested
  unfolding note_latest normalize mem_text
  maybe_latest site updates choice preq st =
      if choice.compat && not (mem_text (normalize preq.name) st.not_latest)
      then note_latest site updates choice.upgrade preq st
      else some st

  -- An unchanged requirement is passed over, another is recorded.
  unfoldable pub record_change : Site → Text → Option Text → Requirement → Suggested → Suggested
  unfolding append_change text_eq
  record_change site req version preq st =
      if text_eq (show preq) site.shown then st else record st {
        changes =
            append_change site.place.file_name
              (record { new_version = version; new = req; old = site.content }) st.changes;
      }

  -- The body of the inner loop.
  unfoldable pub suggest_one : Site → (Field → Option Text) → Choice → Suggested → Option Suggested
  unfolding maybe_latest record_change replace
  suggest_one site updates choice st =
      replace vs parsers
        (record { upgrade = choice.upgrade; compat = choice.compat; latest = false }) site.content
        updates
      >>= λ (req, version). parsers.requirement req >>= λ preq.
          maybe_latest site updates choice preq st >>= λ st1.
          some (record_change site req version preq st1)

  unfoldable pub suggest_choices :
      Site → (Field → Option Text) → List Choice → Suggested → Option Suggested
  unfolding suggest_one
  suggest_choices site updates [] st = some st
  suggest_choices site updates (c ∷ choices) st =
      suggest_one site updates c st >>= λ st1. suggest_choices site updates choices st1

  module _ (config : Config) (upgrade : Bool) where
    -- The inner loop; `_updatable` is a generator, so it gives its choices location by location.
    unfoldable pub suggest_sites : (Field → Option Text) → List Site → Suggested → Option Suggested
    unfolding suggest_choices updatable
    suggest_sites updates [] st = some st
    suggest_sites updates (site ∷ sites) st =
        suggest_choices site updates (updatable config upgrade (site.place ∷ [])) st >>= λ st1.
        suggest_sites updates sites st1

    unfoldable pub suggest_infos : List Info → Suggested → Option Suggested
    unfolding suggest_sites
    suggest_infos [] st = some st
    suggest_infos (info ∷ infos) st =
        suggest_sites info.updates info.sites st >>= λ st1. suggest_infos infos st1

    -- The loops of `suggest_updates`; `none` is an exception of a parser or of `replace`.
    unfoldable pub suggest : List Text → List Info → Option Suggested
    unfolding suggest_infos normalize
    suggest no_latest infos =
        suggest_infos infos
          (record { changes = []; latest = []; not_latest = map normalize no_latest })
