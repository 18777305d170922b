-- ===== src/FileModel/Python/Parts.antt =====
-- The parts of a Python file, put together again.
use cdbx.Base.{
  ℕ, zero, suc, ◌≤◌, ◌≡◌, refl, ap, ◌∙◌, Bool, true, false, not, ◌&&◌, ◌||◌, List, [], ◌∷◌, ◌++◌,
  Option, none, some, Text, ◌==◌, if◌then◌else◌, concat, length, length-append, append_assoc, arith,
  Bool-cases, inl, inr,
}
use cdbx.FileModel.{Part, literal, render, render_all, from_python, double, single}
use cdbx.FileModel.Lines.{render_literal}
use cdbx.FileModel.Python.{
  cons_match, is_break, comment_end, Mode, mode_after, closes, triple_end, string_end, match_string,
  or_short, plain, Piece, other, comment, quoted, text_of, comment_piece, quoted_piece, first_piece,
  pieces, ends_in_r, literal_part, gather, setup_parts,
}

-- A match and what follows it are the text that was scanned.
Splits : Text → Option (Text × Text) → Type 0
Splits s none = Unit {0}
Splits s (some (m, r)) = m ++ r ≡ s

cons_match-Splits :
    (c : ℕ) (s : Text) (o : Option (Text × Text)) → Splits s o → Splits (c ∷ s) (cons_match c o)
unfolding Splits
cons_match-Splits c s none h = h
cons_match-Splits c s (some (m, r)) h = ap (◌∷◌ c) h

comment_end-Splits : (s : Text) → Splits s (comment_end s)
unfolding comment_end Splits
comment_end-Splits [] = refl
comment_end-Splits (c ∷ s) = elim (Bool-cases (is_break c)) [
  | inl h ↦ rw h refl
  | inr h ↦ rw h (cons_match-Splits c s (comment_end s) (comment_end-Splits s))
]

triple_end-Splits : (q : ℕ) (mode : Mode) (s : Text) → Splits s (triple_end q mode s)
unfolding triple_end Splits
triple_end-Splits q mode [] = tt
triple_end-Splits q mode (c ∷ s) = elim (Bool-cases (closes mode q c)) [
  | inl h ↦ rw h refl
  | inr h ↦ rw h (cons_match-Splits c s _ (triple_end-Splits q (mode_after mode q c) s))
]

if-Splits :
    (b : Bool) (s : Text) (x y : Option (Text × Text))
    → Splits s x
    → Splits s y
    → Splits s (if b then x else y)
if-Splits true s x y h k = h
if-Splits false s x y h k = k

Splits-none : (s : Text) → Splits s none
unfolding Splits
Splits-none s = tt

Splits-one : (c : ℕ) (s : Text) → Splits (c ∷ s) (some (c ∷ [], s))
unfolding Splits
Splits-one c s = refl

string_end-Splits :
    (q : ℕ) (escaped carriage : Bool) (s : Text) → Splits s (string_end q escaped carriage s)
unfolding string_end
string_end-Splits q escaped carriage [] = Splits-none []
string_end-Splits q escaped carriage (c ∷ s) =
    let t = c ∷ s in
    let rest =
      cons_match-Splits c s _
        (string_end-Splits q (not escaped && c == b'\\') (escaped && c == b'\r') s) in
    if-Splits escaped t _ _ rest (
      if-Splits (c == q) t _ _ (Splits-one c s) (
        if-Splits (c == b'\r') t _ _ (Splits-none t)
          (if-Splits (c == b'\n') t _ _ (if-Splits carriage t _ _ rest (Splits-none t)) rest)))

-- The same for a match that takes the first character.
Match : ℕ → Text → Option (Text × Text) → Type 0
Match c s none = Unit {0}
Match c s (some (m, r)) = (m ++ r ≡ c ∷ s) × (length r ≤ length s)

cons_match-Match :
    (c : ℕ) (s : Text) (o : Option (Text × Text)) → Splits s o → Match c s (cons_match c o)
unfolding Splits Match
cons_match-Match c s none h = tt
cons_match-Match c s (some (m, r)) h =
    (ap (◌∷◌ c) h, omega (arith, ap (length {A = ℕ}) h, length-append m r))

if-Match :
    (b : Bool) (c : ℕ) (s : Text) (x y : Option (Text × Text))
    → Match c s x
    → Match c s y
    → Match c s (if b then x else y)
if-Match true c s x y h k = h
if-Match false c s x y h k = k

or_short-Match :
    (c : ℕ) (s : Text) (long short : Option (Text × Text))
    → Match c s long
    → Match c s short
    → Match c s (or_short long short)
unfolding or_short
or_short-Match c s none short h k = k
or_short-Match c s (some m) short h k = h

match_string-Match : (q : ℕ) (s : Text) → Match q s (match_string q s)
unfolding match_string
match_string-Match q [] = cons_match-Match q [] _ (string_end-Splits q false false [])
match_string-Match q (a ∷ []) = cons_match-Match q _ _ (string_end-Splits q false false (a ∷ []))
match_string-Match q (a ∷ b ∷ s) =
    let t = a ∷ b ∷ s in
    let long =
      cons_match-Match q _ _
        (cons_match-Splits a _ _ (cons_match-Splits b _ _ (triple_end-Splits q plain s))) in
    let short = cons_match-Match q _ _ (string_end-Splits q false false t) in
    if-Match (a == q && b == q) q t _ _ (or_short-Match q t _ _ long short) short

-- A piece and the rest are the text, and the piece takes a character at least.
Covers : ℕ → Text → Piece × Text → Type 0
Covers c s p = (text_of p.0 ++ p.1 ≡ c ∷ s) × (length p.1 ≤ length s)

other-Covers : (c : ℕ) (s : Text) → Covers c s (other c, s)
unfolding Covers
other-Covers c s = (refl, omega arith)

comment_piece-Covers :
    (c : ℕ) (s : Text) (o : Option (Text × Text)) → Splits s o → Covers c s (comment_piece c s o)
unfolding comment_piece Splits Covers
comment_piece-Covers c s none h = (refl, omega arith)
comment_piece-Covers c s (some (m, r)) h =
    (ap (◌∷◌ c) h, omega (arith, ap (length {A = ℕ}) h, length-append m r))

quoted_piece-Covers :
    (c : ℕ) (s : Text) (o : Option (Text × Text)) → Match c s o → Covers c s (quoted_piece c s o)
unfolding quoted_piece Match Covers
quoted_piece-Covers c s none h = (refl, omega arith)
quoted_piece-Covers c s (some (m, r)) h = h

first_piece-Covers : (c : ℕ) (s : Text) → Covers c s (first_piece c s)
unfolding first_piece
first_piece-Covers c s = elim (Bool-cases (c == b'#')) [
  | inl h ↦ rw h (comment_piece-Covers c s (comment_end s) (comment_end-Splits s))
  | inr h ↦ rw h (elim (Bool-cases (c == double || c == single)) [
    | inl k ↦ rw k (quoted_piece-Covers c s (match_string c s) (match_string-Match c s))
    | inr k ↦ rw k (other-Covers c s)
  ])
]

-- The texts of the pieces, in a row.
abbrev texts : List Piece → Text
texts [] = []
texts (p ∷ ps) = text_of p ++ texts ps

pieces-texts : (fuel : ℕ) (s : Text) → length s ≤ fuel → texts (pieces fuel s) ≡ s
unfolding pieces Covers
pieces-texts fuel [] h = unfold pieces in refl
pieces-texts zero (c ∷ s) h = absurd (omega arith)
pieces-texts (suc fuel) (c ∷ s) h =
    let covers = first_piece-Covers c s in
    ap (λ t. text_of (first_piece c s).0 ++ t)
      (pieces-texts fuel (first_piece c s).1 (omega (arith, covers.1)))
    ∙ covers.0

-- Each string of the file is rendered as it is written.
abbrev pub Faithful : Text → List Piece → Type 0
Faithful since [] = Unit {0}
Faithful since (quoted s ∷ ps) = (render (from_python (ends_in_r since) s) ≡ s) × Faithful [] ps
Faithful since (comment s ∷ ps) = Faithful (since ++ s) ps
Faithful since (other c ∷ ps) = Faithful (since ++ c ∷ []) ps

render_all-cons : (p : Part) (ps : List Part) → render_all (p ∷ ps) ≡ render p ++ render_all ps
unfolding render_all concat
render_all-cons p ps = refl

render_all-literal_part :
    (s : Text) (ps : List Part) → render_all (literal_part s ps) ≡ s ++ render_all ps
render_all-literal_part [] ps = refl
render_all-literal_part (c ∷ s) ps =
    render_all-cons (literal (c ∷ s)) ps ∙ ap (λ t. t ++ render_all ps) (render_literal (c ∷ s))

render_all-nil : render_all [] ≡ []
unfolding render_all concat
render_all-nil = refl

render_all-gather :
    (since : Text) (ps : List Piece)
    → Faithful since ps
    → render_all (gather since ps) ≡ since ++ texts ps
unfolding gather
render_all-gather since [] h =
    render_all-literal_part since [] ∙ ap (λ t. since ++ t) render_all-nil
render_all-gather since (quoted s ∷ ps) (hs, h) =
    render_all-literal_part since _
    ∙ ap (λ t. since ++ t)
        (render_all-cons (from_python (ends_in_r since) s) (gather [] ps)
          ∙ rw hs (ap (λ t. s ++ t) (render_all-gather [] ps h)))
render_all-gather since (comment s ∷ ps) h =
    render_all-gather (since ++ s) ps h ∙ append_assoc since s (texts ps)
render_all-gather since (other c ∷ ps) h =
    render_all-gather (since ++ c ∷ []) ps h ∙ append_assoc since (c ∷ []) (texts ps)

-- A Python file that is read and written back without a patch is unchanged, if each of its string
-- literals is rendered as it is written: everything between the strings, the comments and what is
-- quoted in them included, is kept.
pub render_all-setup_parts :
    (content : Text)
    → Faithful [] (pieces (length content) content)
    → render_all (setup_parts content) ≡ content
unfolding setup_parts
render_all-setup_parts content h =
    render_all-gather [] (pieces (length content) content) h
    ∙ pieces-texts (length content) content (omega arith)
