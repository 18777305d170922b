-- ===== src/Suggest.antt =====
-- tasks/deps/_suggest/_suggest.py: `_updatable`, which decides what may be done at each location.
pub mod Rules
pub mod Updates
use cdbx.Base.{
  Bool, true, false, not, ◌&&◌, ◌||◌, List, [], ◌∷◌, map, Text, if◌then◌else◌, text_eq, mem_text,
}
use cdbx.Names.{normalize}

-- The configuration of the dependencies, as far as it is read here.
pub record Config : Type 0 where
  pub no_compat : List Text
  pub no_upgrade : List Text
  pub keep_as_is : List Text
  pub upgrade : List Text
  pub compat : Bool

-- A location: the name of the requirement, whether its marker is missing or evaluates, and the name
-- of the file, and whether that is of type "text".
pub record Location : Type 0 where
  pub name : Text
  pub applies : Bool
  pub file_name : Text
  pub is_text : Bool

-- What `_updatable` yields.
pub record Choice : Type 0 where
  pub location : Location
  pub upgrade : Bool
  pub compat : Bool

-- `_parse.normalize(name) in set(_parse.normalize(item) for item in items)`
unfoldable pub is_named : Text → List Text → Bool
unfolding mem_text
is_named name items = mem_text (normalize name) (map normalize items)

module _ (config : Config) (want_upgrade : Bool) where
  -- The end of the loop body, by three tests: the name is in `no_upgrade`, the file in `upgrade`,
  -- and the name in `no_compat`.
  unfoldable pub choose_by : Bool → Bool → Bool → Location → Choice
  choose_by want_no_upgrade in_upgrade in_no_compat loc =
      let upgrade = if want_no_upgrade then false else want_upgrade in
      if not want_no_upgrade && in_upgrade
      then record { location = loc; upgrade = true; compat = false }
      else if in_no_compat
      then record { location = loc; upgrade = upgrade; compat = false }
      else record { location = loc; upgrade = upgrade; compat = not loc.is_text && config.compat }

  unfoldable pub choose : Location → Choice
  unfolding choose_by is_named
  choose loc =
      choose_by (is_named loc.name config.no_upgrade) (mem_text loc.file_name config.upgrade)
        (is_named loc.name config.no_compat) loc

  -- Both `continue` of the loop: the marker does not apply, the file is kept as it is.
  unfoldable pub yield_unless : Bool → Bool → Choice → List Choice → List Choice
  yield_unless applies kept choice rest =
      if not applies then rest else if kept then rest else choice ∷ rest

  -- `_updatable(config, want_upgrade, locations)`
  unfoldable pub updatable : List Location → List Choice
  unfolding choose yield_unless
  updatable [] = []
  updatable (loc ∷ locs) =
      yield_unless loc.applies (mem_text loc.file_name config.keep_as_is) (choose loc)
        (updatable locs)
