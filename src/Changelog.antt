-- ===== src/Changelog.antt =====
-- The changelog of `patch_updates` in tasks/deps/_patch.py. The files are patched and written by
-- FileModel.Patch; here they are given in their order, with their changes by name.
use cdbx.Base.{
  Bool, true, false, ◌||◌, List, [], ◌∷◌, map, Option, none, some, Text, text_eq, mem_text,
  if◌then◌else◌,
}
use cdbx.Names.{normalize}
use cdbx.Latest.Sorting.{sort_texts}
use cdbx.Inspection.{dict_put}

-- A file of `replace`: whether its type is `text`, and for each name the new versions.
pub record FileChange : Type 0 where
  pub is_text : Bool
  pub changes : List (Text × List Text)

-- The buckets, by name.
pub record Changelog : Type 0 where
  pub boilerplate : List (Text × List Text)
  pub update : List (Text × List Text)
  pub support : List (Text × List Text)

-- `set(...)`
unfoldable pub distinct : List Text → List Text
unfolding mem_text
distinct [] = []
distinct (t ∷ ts) = let rest = distinct ts in if mem_text t rest then rest else t ∷ rest

-- `changelog[bucket][name] = sorted(set(...))`
unfoldable pub log_name : Bool → Text → List Text → Changelog → Changelog
unfolding dict_put sort_texts distinct
log_name true name versions log = record log {
  boilerplate = dict_put name (sort_texts (distinct versions)) log.boilerplate;
}
log_name false name versions log = record log {
  update = dict_put name (sort_texts (distinct versions)) log.update;
}

unfoldable pub log_changes : List Text → Bool → List (Text × List Text) → Changelog → Changelog
unfolding log_name mem_text
log_changes boilerplate is_text [] log = log
log_changes boilerplate is_text ((name, versions) ∷ changes) log =
    log_changes boilerplate is_text changes
      (log_name (mem_text name boilerplate || is_text) name versions log)

unfoldable pub log_files : List Text → List FileChange → Changelog → Changelog
unfolding log_changes
log_files boilerplate [] log = log
log_files boilerplate (file ∷ files) log =
    log_files boilerplate files (log_changes boilerplate file.is_text file.changes log)

-- `changelog["update"].pop(name, None)`
unfoldable pub pop : Text → List (Text × List Text) → List (Text × List Text)
unfolding text_eq
pop name [] = []
pop name ((n, versions) ∷ log) =
    let rest = pop name log in if text_eq n name then log else (n, versions) ∷ rest

unfoldable pub pop_all : List (Text × List Text) → List (Text × List Text) → List (Text × List Text)
unfolding pop
pop_all [] log = log
pop_all ((name, versions) ∷ support) log = pop_all support (pop name log)

-- The branch for the latest block, of which the changes are given where there are some to write.
unfoldable pub log_latest : Option (List (Text × List Text)) → Changelog → Changelog
unfolding pop_all
log_latest none log = log
log_latest (some support) log = record log {
  support = support;
  update = pop_all support log.update;
}

-- `patch_updates(ctx, config)`; the buckets that are left out of its result are empty here.
unfoldable pub patch_updates :
    List Text → List FileChange → Option (List (Text × List Text)) → Changelog
unfolding log_files log_latest normalize
patch_updates boilerplate files latest = log_latest latest (
    log_files (map normalize boilerplate) files
      (record { boilerplate = []; update = []; support = [] }))
