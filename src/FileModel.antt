-- ===== src/FileModel.antt =====
-- tasks/deps/_suggest/_file_model.py: dependency files as lists of parts, and DepFile of
-- tasks/deps/_suggest/_dep_file.py, which renders and patches them.
pub mod Equality
pub mod Quotes
pub mod Lines
pub mod Python
pub mod Patch
use cdbx.Base.{
  ℕ, zero, suc, ◌+◌, ◌-◌, ◌≡◌, refl, Bool, true, false, not, ◌&&◌, ◌||◌, List, [], ◌∷◌, ◌++◌, map,
  Option, none, some, Text, codes, ◌==◌, if◌then◌else◌, leb, starts_with, strip, concat, length,
}

abbrev pub backslash : ℕ
backslash = b'\\'

abbrev pub double : ℕ
double = b'"'

abbrev pub single : ℕ
single = 0x27

-- `LiteralPart` and `StringPart`.
pub data Part : Type 0 where
  literal : Text → Part
  string : Bool → Text → Text → Part

-- `content.replace(old, new)` for an old text that is not empty; the number counts the characters
-- of an occurrence that are still to be passed over.
unfoldable pub replace_from : Text → Text → ℕ → Text → Text
replace_from old new skip [] = []
replace_from old new (suc skip) (c ∷ s) = replace_from old new skip s
replace_from old new zero (c ∷ s) =
    let hit = starts_with old (c ∷ s) in
    let rest = replace_from old new (if hit then length old - 1 else 0) s in
    if hit then new ++ rest else c ∷ rest

-- `StringPart.__str__` and `LiteralPart.__str__`
unfoldable pub render : Part → Text
unfolding replace_from
render (literal content) = content
render (string raw quote content) =
    quote ++ ((if raw then content else replace_from quote (backslash ∷ quote) 0 content) ++ quote)

-- `"".join(map(str, parts))`, `DepFile.__str__`
unfoldable pub render_all : List Part → Text
unfolding render
render_all parts = concat (map render parts)

abbrev pub is_quote : ℕ → Bool
is_quote c = c == single || c == double

-- `re.sub(r"(?s)\\(.)", …)`: a backslash in front of a quote is dropped, with any other character
-- it stays.
unfoldable pub drop_escapes : Text → Text
drop_escapes [] = []
drop_escapes (c ∷ []) = c ∷ []
drop_escapes (c ∷ d ∷ s) = elim (c == backslash) [
  | true ↦ if is_quote d then d ∷ drop_escapes s else c ∷ d ∷ drop_escapes s
  | false ↦ c ∷ drop_escapes (d ∷ s)
]

-- `content[:n]`, and `content[n:-n]`
unfoldable pub first_chars : ℕ → Text → Text
first_chars zero s = []
first_chars (suc n) [] = []
first_chars (suc n) (c ∷ s) = c ∷ first_chars n s

unfoldable pub without_last : ℕ → Text → Text
without_last n [] = []
without_last n (c ∷ s) = let rest = without_last n s in if leb n (length s) then c ∷ rest else []

unfoldable pub without_first : ℕ → Text → Text
without_first zero s = s
without_first (suc n) [] = []
without_first (suc n) (c ∷ s) = without_first n s

abbrev pub is_triple : Text → Bool
is_triple content =
    starts_with (double ∷ double ∷ double ∷ []) content
    || starts_with (single ∷ single ∷ single ∷ []) content

-- `StringPart.from_python`, and `from_toml`, which is the same.
unfoldable pub from_python : Bool → Text → Part
unfolding drop_escapes first_chars without_first without_last
from_python raw content =
    let n = if is_triple content then 3 else 1 in
    let body = without_last n (without_first n content) in
    string raw (first_chars n content) (if raw then body else drop_escapes body)

-- `StringPart.from_text`
unfoldable pub from_text : Text → Part
from_text content = string true [] content

abbrev pub add_char : ℕ → List Text → List Text
add_char c [] = (c ∷ []) ∷ []
add_char c (l ∷ ls) = (c ∷ l) ∷ ls

-- `for line in fp`: the lines with their line breaks.
unfoldable pub split_lines : Text → List Text
split_lines [] = []
split_lines (c ∷ s) =
    let rest = split_lines s in if c == b'\n' then (c ∷ []) ∷ rest else add_char c rest

-- The body of the loop of `ReqFile._parse_stream`: blank lines and comments are literal.
unfoldable pub line_part_of : Text → Text → Part
unfolding from_text
line_part_of line [] = literal line
line_part_of line (c ∷ s) = if c == b'#' then literal line else from_text line

unfoldable pub req_parts : Text → List Part
unfolding split_lines line_part_of
req_parts content = map (λ line. line_part_of line (strip line)) (split_lines content)
