-- ===== src/Latest/Sorting.antt =====
-- `sorted` on texts, by code points; equal texts keep their order.
use cdbx.Base.{Bool, true, false, ◌&&◌, ◌||◌, List, [], ◌∷◌, Text, ◌==◌, ltb, if◌then◌else◌}

unfoldable pub text_lt : Text → Text → Bool
text_lt s [] = false
text_lt [] (d ∷ t) = true
text_lt (c ∷ s) (d ∷ t) = ltb c d || (c == d && text_lt s t)

unfoldable pub insert_text : Text → List Text → List Text
insert_text t [] = t ∷ []
insert_text t (u ∷ us) = if text_lt u t then u ∷ insert_text t us else t ∷ u ∷ us

unfoldable pub sort_texts : List Text → List Text
unfolding insert_text text_lt
sort_texts [] = []
sort_texts (t ∷ ts) = insert_text t (sort_texts ts)
