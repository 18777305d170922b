-- ===== src/Wheels/Tags.antt =====
-- `_best_manylinux` of tasks/build_.py and the renaming of the wheels at the end of `_build_binary`.
-- Numbers in the tags of a file name are texts of digits.
use cdbx.Base.{
  ℕ, Bool, true, false, not, ◌&&◌, ◌||◌, List, [], ◌∷◌, ◌++◌, Option, none, some, Text, codes, ◌==◌,
  ltb, if◌then◌else◌, starts_with, drop, take, is_digit, all, text_eq,
}
use cdbx.Shell.Format.{◌>>=◌}
use cdbx.Version.Decimal.{to_int}
use cdbx.Latest.Sorting.{text_lt}

-- A text between dots, or behind a dash, that `manylinux[^.]+` matches.
unfoldable pub is_tag : Text → Bool
is_tag s = starts_with (codes "manylinux") s && not (text_eq (drop 9 s) [])

-- `text.split(sep)` for one character
abbrev first_part : ℕ → List Text → List Text
first_part c [] = (c ∷ []) ∷ []
first_part c (p ∷ ps) = (c ∷ p) ∷ ps

unfoldable pub split_on : ℕ → Text → List Text
split_on sep [] = [] ∷ []
split_on sep (c ∷ s) =
    let rest = split_on sep s in if c == sep then [] ∷ rest else first_part c rest

-- The first dash of a text between dots that a tag follows: what is in front of it, and the tag.
abbrev behind : ℕ → Option (Text × Text) → Option (Text × Text)
behind c none = none
behind c (some (before, tag)) = some (c ∷ before, tag)

unfoldable pub dash_tag : Text → Option (Text × Text)
unfolding is_tag
dash_tag [] = none
dash_tag (c ∷ s) =
    let rest = dash_tag s in if c == b'-' && is_tag s then some ([], s) else behind c rest

unfoldable pub take_tags : List Text → List Text
unfolding is_tag
take_tags [] = []
take_tags (p ∷ ps) = let rest = take_tags ps in if is_tag p then p ∷ rest else []

abbrev run_or : Option (Text × Text) → List Text → List Text → List Text
run_or none tags rest = rest
run_or (some (before, tag)) tags rest = tag ∷ tags

-- The first match of `(?:[.-]manylinux[^.]+)+`, split at its dots, in texts with dots in front.
unfoldable pub run_behind_dot : List Text → List Text
unfolding dash_tag take_tags is_tag
run_behind_dot [] = []
run_behind_dot (p ∷ ps) =
    let rest = run_behind_dot ps in
    if is_tag p then p ∷ take_tags ps else run_or (dash_tag p) (take_tags ps) rest

unfoldable pub first_run : List Text → List Text
unfolding run_behind_dot
first_run [] = []
first_run (p ∷ ps) = run_or (dash_tag p) (take_tags ps) (run_behind_dot ps)

-- The trailing dashes, which `strip("-.")` takes from the last of the tags.
unfoldable pub no_dashes : Text → Text
no_dashes [] = []
no_dashes (c ∷ s) = let rest = no_dashes s in if c == b'-' && text_eq rest [] then [] else c ∷ rest

unfoldable pub strip_last : List Text → List Text
unfolding no_dashes
strip_last [] = []
strip_last (t ∷ []) = no_dashes t ∷ []
strip_last (t ∷ u ∷ ts) = t ∷ strip_last (u ∷ ts)

unfoldable pub tags_of : Text → List Text
unfolding strip_last first_run split_on
tags_of name = strip_last (first_run (split_on b'.' name))

unfoldable pub read_int : Text → Option ℕ
unfolding to_int is_digit
read_int s = if not (text_eq s []) && all is_digit s then some (to_int s) else none

unfoldable pub read_ints : List Text → Option (List ℕ)
unfolding read_int
read_ints [] = some []
read_ints (s ∷ ss) = read_int s >>= λ n. read_ints ss >>= λ ns. some (n ∷ ns)

abbrev head_text : List Text → Text
head_text [] = []
head_text (t ∷ ts) = t

-- `assert ver[0] > 1`
unfoldable pub above_one : List ℕ → Option (List ℕ)
above_one [] = none
above_one (n ∷ ns) = if ltb 1 n then some (n ∷ ns) else none

-- The body of the loop of `_best_manylinux`, behind the tests for the old names.
unfoldable pub underscore_version : Text → Option (List ℕ)
unfolding read_ints split_on above_one
underscore_version [] = none
underscore_version (c ∷ ver) =
    if c == b'_' then read_ints (take 2 (split_on b'_' ver)) >>= above_one else none

unfoldable pub tag_version : Text → Option (List ℕ)
unfolding underscore_version read_int split_on
tag_version tag =
    let ver = drop 9 tag in
    if starts_with (codes "1_") ver
      || starts_with (codes "2010_") ver
      || starts_with (codes "2014_") ver
    then (read_int (head_text (split_on b'_' ver)) >>= λ n. some (1 ∷ n ∷ []))
    else underscore_version ver

unfoldable pub sortable : List Text → Option (List (List ℕ × Text))
unfolding tag_version
sortable [] = some []
sortable (tag ∷ tags) =
    if starts_with (codes "manylinux") tag
    then (tag_version tag >>= λ ver. sortable tags >>= λ rest. some ((ver, tag) ∷ rest))
    else none

-- Tuples in their order.
unfoldable pub version_lt : List ℕ → List ℕ → Bool
version_lt ms [] = false
version_lt [] (n ∷ ns) = true
version_lt (m ∷ ms) (n ∷ ns) = ltb m n || (m == n && version_lt ms ns)

unfoldable pub same_numbers : List ℕ → List ℕ → Bool
same_numbers [] [] = true
same_numbers (m ∷ ms) (n ∷ ns) = m == n && same_numbers ms ns
same_numbers _ _ = false

unfoldable pub entry_lt : List ℕ × Text → List ℕ × Text → Bool
unfolding version_lt same_numbers text_lt
entry_lt (v, s) (w, t) = version_lt v w || (same_numbers v w && text_lt s t)

-- `min`, from a first entry on
unfoldable pub min_entry : List ℕ × Text → List (List ℕ × Text) → List ℕ × Text
unfolding entry_lt
min_entry best [] = best
min_entry best (e ∷ entries) = min_entry (if entry_lt e best then e else best) entries

unfoldable pub pick_min : List (List ℕ × Text) → Option Text
unfolding min_entry
pick_min [] = none
pick_min (e ∷ entries) = some (min_entry e entries).1

-- `_best_manylinux(name)`; the outer `none` is an exception.
unfoldable pub best_manylinux : Text → Option (Option Text)
unfolding sortable tags_of pick_min
best_manylinux name = sortable (tags_of name) >>= λ entries. some (pick_min entries)

-- `multi_sub`, on texts with dots in front; the flag says that a match may go on.
abbrev sub_piece : Text → Option (Text × Text) → Text → Text → Text → Text
sub_piece pick none p inside outside = p ++ outside
sub_piece pick (some (before, tag)) p inside outside = before ++ b'-' ∷ (pick ++ inside)

unfoldable pub sub_behind_dot : Text → Bool → List Text → Text
unfolding dash_tag is_tag
sub_behind_dot pick going [] = []
sub_behind_dot pick going (p ∷ ps) =
    let inside = sub_behind_dot pick true ps in
    let outside = sub_behind_dot pick false ps in
    if is_tag p
    then (if going then inside else b'-' ∷ (pick ++ inside))
    else b'.' ∷ sub_piece pick (dash_tag p) p inside outside

unfoldable pub sub_pieces : Text → List Text → Text
unfolding sub_behind_dot dash_tag
sub_pieces pick [] = []
sub_pieces pick (p ∷ ps) =
    sub_piece pick (dash_tag p) p (sub_behind_dot pick true ps) (sub_behind_dot pick false ps)

unfoldable pub multi_sub : Text → Text → Text
unfolding sub_pieces split_on
multi_sub pick name = sub_pieces pick (split_on b'.' name)

-- `"manylinux" in name`
unfoldable pub has_text : Text → Text → Bool
has_text sub [] = text_eq sub []
has_text sub (c ∷ s) = starts_with sub (c ∷ s) || has_text sub s

unfoldable pub ends_with : Text → Text → Bool
unfolding text_eq
ends_with end [] = text_eq end []
ends_with end (c ∷ s) = text_eq end (c ∷ s) || ends_with end s

-- `if pick: tomove.append(...)`, then `if old == new: continue`
unfoldable pub move_to : Text → Option Text → List (Text × Text) → List (Text × Text)
unfolding multi_sub text_eq
move_to name none moves = moves
move_to name (some pick) moves =
    if text_eq name (multi_sub pick name) then moves else (name, multi_sub pick name) ∷ moves

-- The renamings at the end of `_build_binary`; no pick is an empty text.
unfoldable pub renames : List Text → Option (List (Text × Text))
unfolding best_manylinux move_to ends_with has_text
renames [] = some []
renames (name ∷ names) =
    let rest = renames names in
    if ends_with (codes ".whl") name && has_text (codes "manylinux") name
    then (best_manylinux name >>= λ pick. rest >>= λ moves. some (move_to name pick moves))
    else rest
