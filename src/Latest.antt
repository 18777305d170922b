-- ===== src/Latest.antt =====
-- tasks/deps/_suggest/_latest_file.py: `LatestFile`, which keeps a block of the latest versions in a
-- requirement file. The configured pattern, the expression `full_spec` and the requirement parser
-- are parameters.
pub mod Sorting
pub mod Splitting
pub mod Kept
pub mod Block
pub mod Changed
use mathlib.Core.List.{reverse}
use cdbx.Base.{
  ℕ, ◌≡◌, refl, Bool, true, false, not, ◌&&◌, ◌||◌, List, [], ◌∷◌, ◌++◌, map, Option, none, some,
  Text, codes, ◌==◌, if◌then◌else◌, text_eq, mem_text, strip, rstrip, concat,
}
use cdbx.FileModel.{add_char}
use cdbx.Latest.Sorting.{sort_texts}
use cdbx.Names.{normalize}

abbrev pub line_end : Text
line_end = b'\n' ∷ []

-- What ends a line for `str.splitlines`.
unfoldable pub is_line_break : ℕ → Bool
is_line_break c =
    c == b'\n'
    || c == b'\r'
    || c == 0xb
    || c == 0xc
    || c == 0x1c
    || c == 0x1d
    || c == 0x1e
    || c == 0x85
    || c == 0x2028
    || c == 0x2029

-- `str.splitlines(True)`; a `\r\n` is one line end.
unfoldable pub splitlines : Text → List Text
unfolding is_line_break
splitlines [] = []
splitlines (c ∷ []) = (c ∷ []) ∷ []
splitlines (c ∷ d ∷ s) =
    let rest = splitlines (d ∷ s) in
    if c == b'\r' && d == b'\n'
    then add_char c rest
    else if is_line_break c
    then (c ∷ []) ∷ rest
    else add_char c rest

-- A character that is read in front of a text that is cut already.
unfoldable pub cut_step : ℕ → Text × Text → Text × Text
cut_step c ([], cut) = if c == b'\n' then (c ∷ [], cut) else ([], c ∷ cut)
cut_step c (d ∷ kept, cut) = (c ∷ d ∷ kept, cut)

-- The text up to the last line break, and the text behind it: the loop over `cut`.
unfoldable pub cut_line : Text → Text × Text
unfolding cut_step
cut_line [] = ([], [])
cut_line (c ∷ s) = cut_step c (cut_line s)

-- `_latest` as its names with the new requirement of each, and `_not_latest`; prefix and suffix may
-- be missing.
pub record Config : Type 0 where
  pub prefix : Option Text
  pub suffix : Option Text
  pub latest : List (Text × Text)
  pub not_latest : List Text

-- `_pre`, `_post`, `_add` and `_remove`, after a load without an error.
pub record Loaded : Type 0 where
  pub pre : List Text
  pub post : Text
  pub add : List Text
  pub remove : List Text

-- `full_spec().match`, and `requirement(line).name`; `none` is the parser's exception.
pub record Parser : Type 0 where
  pub is_req : Text → Bool
  pub name_of : Text → Option Text

abbrev pub or_empty : Option Text → Text
or_empty none = []
or_empty (some t) = t

abbrev pub is_blank : Text → Bool
is_blank line = text_eq (strip line) []

-- `line.strip() == mark.strip()`
abbrev pub is_marked : Text → Text → Bool
is_marked mark line = text_eq (strip line) (strip mark)

abbrev pub is_suffix : Option Text → Text → Bool
is_suffix none line = false
is_suffix (some mark) line = is_marked mark line

-- The lines above the nearest one with this mark; the lines are held backwards. `none`: there is no
-- such line.
unfoldable pub above_mark : Text → List Text → Option (List Text)
above_mark mark [] = none
above_mark mark (l ∷ above) = if is_marked mark l then some above else above_mark mark above

-- `[...]` of a `while` that pops blank lines.
unfoldable pub skip_blank : List Text → List Text
skip_blank [] = []
skip_blank (l ∷ above) = if is_blank l then skip_blank above else l ∷ above

abbrev pub with_removed : Text → Option (List Text × List Text) → Option (List Text × List Text)
with_removed line none = none
with_removed line (some (pre, removed)) = some (pre, line ∷ removed)

-- Where the scan upwards stops at a line that is no requirement.
abbrev pub stop_at : List Text → Option (List Text) → List Text
stop_at here none = here
stop_at here (some above) = above

module _ (parser : Parser) (config : Config) where
  open parser use {is_req, name_of}

  unfoldable pub is_known : Text → Bool
  unfolding mem_text
  is_known key = mem_text key (map (λ p. p.0) config.latest) || mem_text key config.not_latest

  abbrev pub has_prefix : Bool
  has_prefix = elim (or_empty config.prefix) [ [] ↦ false | c ∷ s ↦ true ]

  -- A requirement that is not in the lists ends the scan, unless a prefix line is still above it.
  unfoldable pub keeps_scanning : Text → List Text → Bool
  unfolding is_known above_mark
  keeps_scanning key lines =
      is_known (normalize key)
      || (elim (above_mark (or_empty config.prefix) lines) [ none ↦ false | some above ↦ true ])

  -- The end of the loop body, at a requirement of this name; `more` is the rest of the loop.
  unfoldable pub pop_known :
      Option Text
      → Text
      → List Text
      → Option (List Text × List Text)
      → Option (List Text × List Text)
  unfolding keeps_scanning
  pop_known none l above more = none
  pop_known (some name) l above more =
      if keeps_scanning name (l ∷ above) then with_removed l more else some (l ∷ above, [])

  -- The loop of `_remove_previous` over the lines, the last first: what is left of them, and the
  -- removed lines.
  unfoldable pub remove_loop : List Text → Option (List Text × List Text)
  unfolding pop_known above_mark
  remove_loop [] = some ([], [])
  remove_loop (l ∷ above) =
      let more = remove_loop above in
      if is_blank l || is_suffix config.suffix l
      then more
      else if has_prefix && is_marked (or_empty config.prefix) l
      then some (above, [])
      else if not (is_req l)
      then (if has_prefix
          then some (stop_at (l ∷ above) (above_mark (or_empty config.prefix) (l ∷ above)), [])
          else some (l ∷ above, []))
      else pop_known (name_of l) l above more

  abbrev pub finish_removal : Option (List Text × List Text) → Option (List Text × List Text)
  finish_removal none = none
  finish_removal (some (lines, removed)) = some (reverse (skip_blank lines), removed)

  -- `_remove_previous()`: the lines that stay, and the removed ones.
  unfoldable pub remove_previous : List Text → Option (List Text × List Text)
  unfolding remove_loop skip_blank
  remove_previous pre = finish_removal (remove_loop (reverse pre))

  -- The lines to add: `item["new"].rstrip() + "\n"`, in order.
  unfoldable pub add_lines : List Text
  unfolding sort_texts
  add_lines = map (λ new. rstrip new ++ line_end) (sort_texts (map (λ p. p.1) config.latest))

  abbrev pub loaded_from : Text → Option (List Text × List Text) → Option Loaded
  loaded_from post none = none
  loaded_from post (some (pre, removed)) =
      some (record { pre = pre; post = post; add = add_lines; remove = removed })

  -- `load()` behind the search, on the texts before and from the place that was found. `none` is
  -- an exception of the requirement parser.
  unfoldable pub load_from : Text → Text → Option Loaded
  unfolding cut_line splitlines remove_previous
  load_from before from_match =
      let (kept, cut) = cut_line before in
      loaded_from (cut ++ from_match) (remove_previous (splitlines kept))

  -- `prefix + "\n"` if there is something to add and the mark is given.
  abbrev pub mark_text : Text → Option Text → Text
  mark_text [] mark = []
  mark_text (c ∷ s) none = []
  mark_text (c ∷ s) (some mark) = mark ++ line_end

  -- `__str__`, what `write` writes.
  unfoldable pub render : Loaded → Text
  render file =
      let add = concat file.add in
      concat file.pre
      ++ (line_end
          ++ (mark_text add config.prefix ++ (add ++ (mark_text add config.suffix ++ file.post))))

  abbrev includes : List Text → List Text → Bool
  includes us [] = true
  includes us (t ∷ ts) = mem_text t us && includes us ts

  -- `as_patch_info()`: `None` if both lists hold the same lines.
  unfoldable pub as_patch_info : Loaded → Option (List Text × List Text)
  unfolding mem_text
  as_patch_info file =
      if includes file.add file.remove && includes file.remove file.add
      then none
      else some (file.add, file.remove)
