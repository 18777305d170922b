-- ===== src/Latest/Splitting.antt =====
-- Lines, blanks and marks: what `splitlines`, `strip` and the cut do to complete lines.
use mathlib.Core.List.{reverse, reverse-append}
use cdbx.Base.{
  ℕ, ◌≡◌, ◌⊎◌, inl, inr, refl, sym, ap, ◌∙◌, true, false, List, [], ◌∷◌, ◌++◌, append_assoc, Text,
  is_space, lstrip, strip, concat, All, arith, Bool-cases,
}
use cdbx.FileModel.{add_char}
use cdbx.FileModel.Lines.{concat-cons, concat_nil}
use cdbx.Latest.{line_end, is_line_break, splitlines, cut_line, cut_step}

-- A complete line: characters that end no line, and a line feed.
abbrev pub IsLine : Text → Type 0
IsLine l = (body : Text) × (l ≡ body ++ line_end) × All (λ c. is_line_break c ≡ false) body

line_feed_breaks : is_line_break b'\n' ≡ true
unfolding is_line_break
line_feed_breaks = refl

splitlines_feed : (rest : Text) → splitlines (b'\n' ∷ rest) ≡ line_end ∷ splitlines rest
unfolding splitlines
splitlines_feed [] = refl
splitlines_feed (d ∷ rest) = ground (arith, line_feed_breaks)

splitlines_other :
    (c d : ℕ) (s : Text)
    → is_line_break c ≡ false
    → splitlines (c ∷ d ∷ s) ≡ add_char c (splitlines (d ∷ s))
unfolding splitlines is_line_break
splitlines_other c d s h = ground arith

splitlines-line :
    (body rest : Text)
    → All (λ c. is_line_break c ≡ false) body
    → splitlines (body ++ b'\n' ∷ rest) ≡ (body ++ line_end) ∷ splitlines rest
splitlines-line [] rest h = splitlines_feed rest
splitlines-line (c ∷ []) rest (hc, h) =
    splitlines_other c b'\n' rest hc ∙ ap (add_char c) (splitlines_feed rest)
splitlines-line (c ∷ d ∷ body) rest (hc, h) =
    splitlines_other c d (body ++ b'\n' ∷ rest) hc
    ∙ ap (add_char c) (splitlines-line (d ∷ body) rest h)

splitlines_nil : splitlines [] ≡ []
unfolding splitlines
splitlines_nil = refl

-- Complete lines are split as they were joined.
pub splitlines-concat : (ls : List Text) → All IsLine ls → splitlines (concat ls) ≡ ls
splitlines-concat [] h = ap splitlines concat_nil ∙ splitlines_nil
splitlines-concat (l ∷ ls) ((body, e, hb), h) =
    ap splitlines
      (concat-cons l ls ∙ ap (λ t. t ++ concat ls) e ∙ append_assoc body line_end (concat ls))
    ∙ splitlines-line body (concat ls) hb
    ∙ rw (← e) (ap (◌∷◌ l) (splitlines-concat ls h))

-- A text that ends in a line break is kept whole.
cut_line-append : (s : Text) → cut_line (s ++ line_end) ≡ (s ++ line_end, [])
unfolding cut_line cut_step
cut_line-append [] = refl
cut_line-append (c ∷ []) = refl
cut_line-append (c ∷ d ∷ s) = ap (cut_step c) (cut_line-append (d ∷ s))

feed_blank : is_space b'\n' ≡ true
unfolding is_space
feed_blank = refl

lstrip_feed :
    (s : Text)
    → (lstrip (s ++ line_end) ≡ lstrip s ++ line_end)
      ⊎ ((lstrip (s ++ line_end) ≡ []) × (lstrip s ≡ []))
unfolding lstrip
lstrip_feed [] = inr (rw feed_blank refl, refl)
lstrip_feed (c ∷ s) = elim (Bool-cases (is_space c)) [
  | inl h ↦ rw h (lstrip_feed s)
  | inr h ↦ rw h (inl refl)
]

lstrip_feed_first : (s : Text) → lstrip (b'\n' ∷ s) ≡ lstrip s
unfolding lstrip
lstrip_feed_first s = rw feed_blank refl

-- A line feed at the end does not change what `strip` leaves.
pub strip_feed : (s : Text) → strip (s ++ line_end) ≡ strip s
unfolding strip
strip_feed s = elim (lstrip_feed s) [
  | inl e ↦
      ap (λ t. reverse (lstrip (reverse t))) e
      ∙ ap (λ t. reverse (lstrip t)) (reverse-append (lstrip s) line_end)
      ∙ ap reverse (lstrip_feed_first (reverse (lstrip s)))
  | inr (e, f) ↦ ap (λ t. reverse (lstrip (reverse t))) (e ∙ sym f)
]
