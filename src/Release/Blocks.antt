-- ===== src/Release/Blocks.antt =====
-- The loop of `_download` on lines that fall into blocks and lines between them.
use cdbx.Base.{
  ◌≡◌, refl, sym, ap, ◌∙◌, true, false, List, [], ◌∷◌, ◌++◌, append_assoc, append-nil, Text, All,
}
use cdbx.Release.{
  Job, begin_stable, end_stable, begin_dev, end_dev, stable_text, dev_text, plain_text, write_lines,
}

-- A line between the blocks, or a block by its first line, the lines inside and its last line.
pub data Segment : Type 0 where
  plain : Text → Segment
  stable : Text → List Text → Text → Segment
  dev : Text → List Text → Text → Segment

abbrev pub block : Text → List Text → Text → List Text
block first inner last = first ∷ inner ++ last ∷ []

abbrev pub lines_of : List Segment → List Text
lines_of [] = []
lines_of (plain line ∷ segments) = line ∷ lines_of segments
lines_of (stable first inner last ∷ segments) = block first inner last ++ lines_of segments
lines_of (dev first inner last ∷ segments) = block first inner last ++ lines_of segments

-- The markers stand where they belong.
abbrev pub IsMarked : Segment → Type 0
IsMarked (plain line) = (begin_stable line ≡ false) × (begin_dev line ≡ false)
IsMarked (stable first inner last) =
    (begin_stable first ≡ true) × All (λ l. end_stable l ≡ false) inner × (end_stable last ≡ true)
IsMarked (dev first inner last) =
    (begin_stable first ≡ false)
    × (begin_dev first ≡ true)
    × All (λ l. end_dev l ≡ false) inner
    × (end_dev last ≡ true)

-- What becomes of a segment.
abbrev pub updated : Job → Segment → Text
updated job (plain line) = plain_text job line
updated job (stable first inner last) = stable_text job (block first inner last)
updated job (dev first inner last) = dev_text job (block first inner last)

abbrev pub all_updated : Job → List Segment → Text
all_updated job [] = []
all_updated job (s ∷ segments) = updated job s ++ all_updated job segments

module _ (job : Job) (last : Text) (rest : List Text) where
  in_stable :
      (l : Text) (seen inner : List Text)
      → All (λ l. end_stable l ≡ false) inner
      → end_stable last ≡ true
      → write_lines job (l ∷ seen) [] (inner ++ last ∷ rest)
        ≡ stable_text job (l ∷ (seen ++ inner) ++ last ∷ []) ++ write_lines job [] [] rest
  unfolding write_lines
  in_stable l seen [] h e = rw e (
      ap (λ s. stable_text job (l ∷ s ++ last ∷ []) ++ write_lines job [] [] rest)
        (sym (append-nil seen)))
  in_stable l seen (x ∷ inner) (hx, h) e = rw hx (
      in_stable l (seen ++ x ∷ []) inner h e
      ∙ ap (λ s. stable_text job (l ∷ s ++ last ∷ []) ++ write_lines job [] [] rest)
          (append_assoc seen (x ∷ []) inner))

  in_dev :
      (l : Text) (seen inner : List Text)
      → All (λ l. end_dev l ≡ false) inner
      → end_dev last ≡ true
      → write_lines job [] (l ∷ seen) (inner ++ last ∷ rest)
        ≡ dev_text job (l ∷ (seen ++ inner) ++ last ∷ []) ++ write_lines job [] [] rest
  unfolding write_lines
  in_dev l seen [] h e = rw e (
      ap (λ s. dev_text job (l ∷ s ++ last ∷ []) ++ write_lines job [] [] rest)
        (sym (append-nil seen)))
  in_dev l seen (x ∷ inner) (hx, h) e = rw hx (
      in_dev l (seen ++ x ∷ []) inner h e
      ∙ ap (λ s. dev_text job (l ∷ s ++ last ∷ []) ++ write_lines job [] [] rest)
          (append_assoc seen (x ∷ []) inner))

-- On lines that fall into closed blocks and lines between them, the loop writes the text of each of
-- them, in their order.
pub write_lines-lines_of :
    (job : Job) (segments : List Segment)
    → All IsMarked segments
    → write_lines job [] [] (lines_of segments) ≡ all_updated job segments
unfolding write_lines
write_lines-lines_of job [] h = refl
write_lines-lines_of job (plain line ∷ segments) ((s, d), h) =
    rw (s, d) (ap (λ t. plain_text job line ++ t) (write_lines-lines_of job segments h))
write_lines-lines_of job (stable first inner last ∷ segments) ((b, i, e), h) = rw b (
    ap (write_lines job (first ∷ []) []) (append_assoc inner (last ∷ []) (lines_of segments))
    ∙ in_stable job last (lines_of segments) first [] inner i e
    ∙ ap (λ t. stable_text job (block first inner last) ++ t) (write_lines-lines_of job segments h))
write_lines-lines_of job (dev first inner last ∷ segments) ((s, b, i, e), h) =
    rw (s, b)
      (ap (write_lines job [] (first ∷ [])) (append_assoc inner (last ∷ []) (lines_of segments))
        ∙ in_dev job last (lines_of segments) first [] inner i e
        ∙ ap (λ t. dev_text job (block first inner last) ++ t)
            (write_lines-lines_of job segments h))
