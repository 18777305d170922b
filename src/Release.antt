-- ===== src/Release.antt =====
-- The files that tasks/_version.py brings to a new version: `_userdoc`, `_changes` and `_download`,
-- on the lines of the files.
pub mod Blocks
pub mod Again
use cdbx.Base.{
  ℕ, zero, suc, Bool, true, false, not, ◌&&◌, ◌||◌, List, [], ◌∷◌, ◌++◌, Option, none, some, map,
  any, Text, codes, starts_with, text_eq, concat, rstrip, ◌==◌, if◌then◌else◌,
}
use cdbx.Shell.Format.{◌>>=◌}
use cdbx.FileModel.{replace_from}

-- `text.replace(old, new)`
abbrev pub replace_all : Text → Text → Text → Text
replace_all old new s = replace_from old new 0 s

-- `word in text`
unfoldable pub has_word : Text → Text → Bool
unfolding starts_with
has_word word [] = starts_with word []
has_word word (c ∷ s) = starts_with word (c ∷ s) || has_word word s

-- `".".join(version.split(".")[:2])`: the text in front of the second dot.
unfoldable pub before_dots : ℕ → Text → Text
before_dots n [] = []
before_dots zero (c ∷ s) = let rest = before_dots zero s in if c == b'.' then [] else c ∷ rest
before_dots (suc n) (c ∷ s) = c ∷ before_dots (if c == b'.' then n else suc n) s

-- The body of the loop of `_userdoc`; `repr` is Python's.
unfoldable pub userdoc_line : (Text → Text) → Text → Text → Text
unfolding before_dots starts_with
userdoc_line repr version line =
    if starts_with (codes "version") line
    then codes "version = " ++ (repr (before_dots 1 version) ++ codes "\n")
    else if starts_with (codes "release") line
    then codes "release = " ++ (repr version ++ codes "\n")
    else line

abbrev pub is_release : Text → Bool
is_release line = not (starts_with (codes "version") line) && starts_with (codes "release") line

-- `_userdoc`: the new lines, unless the assertion behind the loop fails.
unfoldable pub userdoc : (Text → Text) → Text → List Text → Option (List Text)
unfolding userdoc_line starts_with
userdoc repr version lines =
    if any (starts_with (codes "version")) lines && any is_release lines
    then some (map (userdoc_line repr version) lines)
    else none

-- The body of the loop of `_changes`.
unfoldable pub changes_line : Text → Text → Text
unfolding rstrip text_eq
changes_line version line =
    if text_eq (rstrip line) (codes "Changes with version")
    then rstrip line ++ (codes " " ++ (version ++ codes "\n"))
    else line

-- `_changes`
unfoldable pub changes_file : Text → List Text → List Text
unfolding changes_line
changes_file version lines = map (changes_line version) lines

abbrev pub begin_stable : Text → Bool
begin_stable = starts_with (codes ".. begin stable")

abbrev pub end_stable : Text → Bool
end_stable = starts_with (codes ".. end stable")

abbrev pub begin_dev : Text → Bool
begin_dev = starts_with (codes ".. begin dev")

abbrev pub end_dev : Text → Bool
end_dev = starts_with (codes ".. end dev")

-- The lines of the development block in a template: what is collected so far, and the rest. `none` is
-- `ctx.fail`.
unfoldable pub new_dev : List Text → List Text → Option (List Text)
unfolding starts_with
new_dev newdev [] = none
new_dev [] (line ∷ lines) = new_dev (if begin_dev line then line ∷ [] else []) lines
new_dev (l ∷ newdev) (line ∷ lines) =
    let rest = new_dev (l ∷ newdev ++ line ∷ []) lines in
    if end_dev line then some (l ∷ newdev ++ line ∷ []) else rest

-- What the loop that writes the file needs to know.
pub record Job : Type 0 where
  pub version : Text
  pub isdev : Bool
  pub hasstable : Bool
  pub dlpath : Text
  pub newdev : List Text

-- The text that a closed stable block becomes.
unfoldable pub stable_text : Job → List Text → Text
unfolding replace_from concat
stable_text job instable =
    if job.isdev
    then (if job.hasstable then concat instable else [])
    else replace_all (codes "@@PATH@@") []
        (replace_all (codes "@@VERSION@@") job.version (concat instable))

abbrev pub last_of : Text → List Text → Text
last_of l [] = l
last_of l (line ∷ lines) = last_of line lines

-- `[indev[0], indev[-1]]`
abbrev pub ends_of : List Text → Text
ends_of [] = []
ends_of (l ∷ lines) = l ++ last_of l lines

-- `newdev or indev`
abbrev pub or_list : List Text → List Text → List Text
or_list [] other = other
or_list (l ∷ lines) other = l ∷ lines

-- The text that a closed development block becomes.
unfoldable pub dev_text : Job → List Text → Text
unfolding replace_from concat
dev_text job indev =
    if job.isdev
    then replace_all (codes "@@PATH@@") (codes "dev/")
        (replace_all (codes "@@DEVVERSION@@") job.version (concat (or_list job.newdev indev)))
    else ends_of indev

-- The text that a line outside of the blocks becomes.
unfoldable pub plain_text : Job → Text → Text
unfolding replace_from
plain_text job line =
    if job.isdev && job.hasstable
    then line
    else replace_all (codes "@@PATH@@") job.dlpath
        (replace_all (codes "@@VERSION@@") job.version line)

-- The loop that writes the file, with the lines of the block that it is in; a block that is not closed
-- is not written.
unfoldable pub write_lines : Job → List Text → List Text → List Text → Text
unfolding stable_text dev_text plain_text starts_with
write_lines job instable indev [] = []
write_lines job (l ∷ instable) indev (line ∷ lines) =
    let closed = stable_text job (l ∷ instable ++ line ∷ []) ++ write_lines job [] indev lines in
    let open_still = write_lines job (l ∷ instable ++ line ∷ []) indev lines in
    if end_stable line then closed else open_still
write_lines job [] (l ∷ indev) (line ∷ lines) =
    let closed = dev_text job (l ∷ indev ++ line ∷ []) ++ write_lines job [] [] lines in
    let open_still = write_lines job [] (l ∷ indev ++ line ∷ []) lines in
    if end_dev line then closed else open_still
write_lines job [] [] (line ∷ lines) =
    let in_stable = write_lines job (line ∷ []) [] lines in
    let in_dev = write_lines job [] (line ∷ []) lines in
    let plain = plain_text job line ++ write_lines job [] [] lines in
    if begin_stable line then in_stable else if begin_dev line then in_dev else plain

-- `_download`: the new text of the file, from its old lines, if there is such a file, and the lines of
-- its template; `none` is `ctx.fail`.
unfoldable pub download : Text → Option (List Text) → List Text → Option Text
unfolding has_word starts_with new_dev write_lines
download version none template =
    let isdev = has_word (codes "dev") version in
    some (
      write_lines
        (record {
          version = version;
          isdev = isdev;
          hasstable = false;
          dlpath = if isdev then codes "dev/" else [];
          newdev = [];
        })
        [] [] template)
download version (some old) template =
    let isdev = has_word (codes "dev") version in
    let hasstable = isdev && any begin_stable old in
    let fresh =
      write_lines
        (record {
          version = version;
          isdev = isdev;
          hasstable = false;
          dlpath = if isdev then codes "dev/" else [];
          newdev = [];
        })
        [] [] template in
    let kept = λ (newdev : List Text). some (
      write_lines
        (record {
          version = version;
          isdev = isdev;
          hasstable = true;
          dlpath = [];
          newdev = newdev;
        })
        [] [] old) in
    if hasstable then new_dev [] template >>= kept else some fresh
