-- ===== src/FileModel/Lines.antt =====
-- Reading a requirement file and rendering it.
use mathlib.Core.List.{append-nil}
use cdbx.Base.{
  ℕ, ◌≡◌, refl, ap, ◌∙◌, List, [], ◌∷◌, ◌++◌, map, Text, ◌==◌, strip, concat, Bool-cases, inl, inr,
}
use cdbx.FileModel.{
  literal, render, render_all, from_text, split_lines, add_char, line_part_of, req_parts,
}

concat-add_char : (c : ℕ) (ls : List Text) → concat (add_char c ls) ≡ c ∷ concat ls
unfolding concat
concat-add_char c [] = refl
concat-add_char c (l ∷ ls) = refl

pub concat-cons : (l : Text) (ls : List Text) → concat (l ∷ ls) ≡ l ++ concat ls
unfolding concat
concat-cons l ls = refl

pub concat_nil : concat [] ≡ []
unfolding concat
concat_nil = refl

concat-split_lines : (s : Text) → concat (split_lines s) ≡ s
unfolding split_lines
concat-split_lines [] = concat_nil
concat-split_lines (c ∷ s) = elim (Bool-cases (c == b'\n')) [
  | inl h ↦ rw h (concat-cons (c ∷ []) (split_lines s) ∙ ap (◌∷◌ c) (concat-split_lines s))
  | inr h ↦ rw h (concat-add_char c (split_lines s) ∙ ap (◌∷◌ c) (concat-split_lines s))
]

render_text : (line : Text) → render (from_text line) ≡ line
unfolding render from_text
render_text line = append-nil line

pub render_literal : (line : Text) → render (literal line) ≡ line
unfolding render
render_literal line = refl

render-line_part_of : (line xline : Text) → render (line_part_of line xline) ≡ line
unfolding line_part_of
render-line_part_of line [] = render_literal line
render-line_part_of line (c ∷ s) = elim (Bool-cases (c == b'#')) [
  | inl h ↦ rw h (render_literal line)
  | inr h ↦ rw h (render_text line)
]

map-render : (ls : List Text) → map render (map (λ line. line_part_of line (strip line)) ls) ≡ ls
map-render [] = refl
map-render (l ∷ ls) = rw (render-line_part_of l (strip l)) (ap (◌∷◌ l) (map-render ls))

-- A requirement file that is read and written back without a patch is unchanged, whatever it
-- holds: comments, blank lines, odd line ends and a missing last line break are all kept.
pub render_all-req_parts : (content : Text) → render_all (req_parts content) ≡ content
unfolding render_all req_parts
render_all-req_parts content = rw (map-render (split_lines content)) (concat-split_lines content)
