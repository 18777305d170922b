-- ===== src/FileModel/Python.antt =====
-- `SetupFile._parse_stream`, and `find_py_str_or_comment` of tasks/deps/_parse.py as a scanner. At
-- each place its alternatives can match in one way only, so it needs no backtracking; the order of
-- the alternatives is that of the expression.
pub mod Parts
use cdbx.Base.{
  ℕ, zero, suc, ◌≡◌, refl, Bool, true, false, not, ◌&&◌, ◌||◌, List, [], ◌∷◌, ◌++◌, Option, none,
  some, Text, codes, ◌==◌, if◌then◌else◌, starts_with, length,
}
use cdbx.FileModel.{
  Part, literal, string, backslash, double, single, from_python, render_all, drop_escapes,
}

abbrev pub cons_match : ℕ → Option (Text × Text) → Option (Text × Text)
cons_match c none = none
cons_match c (some (m, r)) = some (c ∷ m, r)

abbrev pub is_break : ℕ → Bool
is_break c = c == b'\n' || c == b'\r'

-- `[#][^\r\n]*` behind the mark.
unfoldable pub comment_end : Text → Option (Text × Text)
comment_end [] = some ([], [])
comment_end (c ∷ s) =
    let rest = cons_match c (comment_end s) in if is_break c then some ([], c ∷ s) else rest

-- What the scanner of a triple quoted text has just read.
pub data Mode : Type 0 where
  plain after_backslash one_quote two_quotes : Mode

unfoldable pub mode_after : Mode → ℕ → ℕ → Mode
mode_after plain q c =
    if c == backslash then after_backslash else if c == q then one_quote else plain
mode_after after_backslash q c = plain
mode_after one_quote q c = if c == q then two_quotes else plain
mode_after two_quotes q c = plain

abbrev pub closes : Mode → ℕ → ℕ → Bool
closes two_quotes q c = c == q
closes _ q c = false

-- `[^"\\]*(?:(?:\\.|""?[^"])[^"\\]*)*"""` behind the opening quotes.
unfoldable pub triple_end : ℕ → Mode → Text → Option (Text × Text)
unfolding mode_after
triple_end q mode [] = none
triple_end q mode (c ∷ s) =
    let rest = cons_match c (triple_end q (mode_after mode q c) s) in
    if closes mode q c then some (c ∷ [], s) else rest

-- `[^"\\\r\n]*(?:\\(?:[^\r\n]|\r?\n|\r)[^"\\\r\n]*)*"` behind the opening quote. The flags: the last
-- character was an escaping backslash; it was an escaped `\r`, so that a `\n` belongs to it.
unfoldable pub string_end : ℕ → Bool → Bool → Text → Option (Text × Text)
string_end q escaped carriage [] = none
string_end q escaped carriage (c ∷ s) =
    let rest =
      cons_match c (string_end q (not escaped && c == backslash) (escaped && c == b'\r') s) in
    if escaped
    then rest
    else if c == q
    then some (c ∷ [], s)
    else if c == b'\r'
    then none
    else if c == b'\n'
    then (if carriage then rest else none)
    else rest

unfoldable pub or_short : Option (Text × Text) → Option (Text × Text) → Option (Text × Text)
or_short none short = short
or_short (some m) short = some m

-- A string that begins with the quote `q`: triple quoted if that matches, else on one line.
unfoldable pub match_string : ℕ → Text → Option (Text × Text)
match_string q (a ∷ b ∷ s) =
    let long = cons_match q (cons_match a (cons_match b (triple_end q plain s))) in
    let short = cons_match q (string_end q false false (a ∷ b ∷ s)) in
    if a == q && b == q then or_short long short else short
match_string q s = cons_match q (string_end q false false s)

-- The pieces of a file: the matches of the expression, and the characters between them.
pub data Piece : Type 0 where
  other : ℕ → Piece
  comment : Text → Piece
  quoted : Text → Piece

abbrev pub text_of : Piece → Text
text_of (other c) = c ∷ []
text_of (comment s) = s
text_of (quoted s) = s

unfoldable pub comment_piece : ℕ → Text → Option (Text × Text) → Piece × Text
comment_piece c s none = (other c, s)
comment_piece c s (some (m, r)) = (comment (c ∷ m), r)

unfoldable pub quoted_piece : ℕ → Text → Option (Text × Text) → Piece × Text
quoted_piece c s none = (other c, s)
quoted_piece c s (some (m, r)) = (quoted m, r)

-- The piece at the head of the text, and the rest.
unfoldable pub first_piece : ℕ → Text → Piece × Text
unfolding comment_end match_string comment_piece quoted_piece
first_piece c s =
    if c == b'#'
    then comment_piece c s (comment_end s)
    else if c == double || c == single
    then quoted_piece c s (match_string c s)
    else (other c, s)

-- `finditer`, with fuel for each character.
unfoldable pub pieces : ℕ → Text → List Piece
unfolding first_piece
pieces fuel [] = []
pieces zero (c ∷ s) = []
pieces (suc fuel) (c ∷ s) = let (p, r) = first_piece c s in p ∷ pieces fuel r

-- The character before the current place is an `r`.
unfoldable pub ends_in_r : Text → Bool
ends_in_r [] = false
ends_in_r (c ∷ []) = c == b'r'
ends_in_r (c ∷ d ∷ s) = ends_in_r (d ∷ s)

abbrev pub literal_part : Text → List Part → List Part
literal_part [] parts = parts
literal_part (c ∷ s) parts = literal (c ∷ s) ∷ parts

-- The loop of `_parse_stream`; the text is `file_content[last:]` up to the current place. Behind a
-- string the character before the next one is a quote, as an empty text says it.
unfoldable pub gather : Text → List Piece → List Part
unfolding ends_in_r
gather since [] = literal_part since []
gather since (quoted s ∷ ps) = literal_part since (from_python (ends_in_r since) s ∷ gather [] ps)
gather since (comment s ∷ ps) = gather (since ++ s) ps
gather since (other c ∷ ps) = gather (since ++ c ∷ []) ps

unfoldable pub setup_parts : Text → List Part
unfolding pieces gather
setup_parts content = gather [] (pieces (length content) content)

setup_parts_test :
    setup_parts (codes "a=r'x\\'y' # 'c'\nb=\"\"\"u\"v\"\"\"")
    ≡ literal (codes "a=r")
      ∷ string true (codes "'") (codes "x\\'y")
      ∷ literal (codes " # 'c'\nb=")
      ∷ string false (codes "\"\"\"") (codes "u\"v")
      ∷ []
unfolding setup_parts or_short triple_end string_end from_python starts_with
setup_parts_test = refl
