-- ===== src/FileModel/Quotes.antt =====
-- Which Python string literals are rendered as they were written.
use cdbx.Base.{
  ℕ, ◌≡◌, refl, ap, ◌∙◌, true, false, List, [], ◌∷◌, ◌++◌, Text, codes, ◌==◌, starts_with, All,
  arith, length-append,
}
use cdbx.FileModel.{
  string, backslash, is_quote, is_triple, replace_from, render, drop_escapes, first_chars,
  without_last, without_first, from_python,
}

-- An item of a literal in quotes `q`: a character, an escape of a character that is no quote, or
-- an escaped `q`.
pub data Item : Type 0 where
  char : ℕ → Item
  escape : ℕ → Item
  own : Item

unfoldable pub spell : ℕ → List Item → Text
spell q [] = []
spell q (char c ∷ is) = c ∷ spell q is
spell q (escape d ∷ is) = backslash ∷ d ∷ spell q is
spell q (own ∷ is) = backslash ∷ q ∷ spell q is

abbrev pub IsItem : ℕ → Item → Type 0
IsItem q (char c) = ((c == q) ≡ false) × ((c == backslash) ≡ false)
IsItem q (escape d) = is_quote d ≡ false
IsItem q own = Unit {0}

content : ℕ → List Item → Text
content q [] = []
content q (char c ∷ is) = c ∷ content q is
content q (escape d ∷ is) = backslash ∷ d ∷ content q is
content q (own ∷ is) = q ∷ content q is

drop_escapes_char :
    (c : ℕ) (s : Text) → (c == backslash) ≡ false → drop_escapes (c ∷ s) ≡ c ∷ drop_escapes s
unfolding drop_escapes
drop_escapes_char c [] h = refl
drop_escapes_char c (d ∷ s) h = ground arith

drop_escapes_other :
    (d : ℕ) (s : Text)
    → is_quote d ≡ false
    → drop_escapes (backslash ∷ d ∷ s) ≡ backslash ∷ d ∷ drop_escapes s
unfolding drop_escapes
drop_escapes_other d s h = rw h refl

drop_escapes_quote :
    (d : ℕ) (s : Text) → is_quote d ≡ true → drop_escapes (backslash ∷ d ∷ s) ≡ d ∷ drop_escapes s
unfolding drop_escapes
drop_escapes_quote d s h = rw h refl

drop_escapes-spell :
    (q : ℕ) (is : List Item)
    → is_quote q ≡ true
    → All (IsItem q) is
    → drop_escapes (spell q is) ≡ content q is
unfolding spell content
drop_escapes-spell q [] hq h = unfold drop_escapes in refl
drop_escapes-spell q (char c ∷ is) hq ((_, hc), h) =
    drop_escapes_char c (spell q is) hc ∙ ap (◌∷◌ c) (drop_escapes-spell q is hq h)
drop_escapes-spell q (escape d ∷ is) hq (hd, h) =
    drop_escapes_other d (spell q is) hd
    ∙ ap (λ s. backslash ∷ d ∷ s) (drop_escapes-spell q is hq h)
drop_escapes-spell q (own ∷ is) hq (_, h) =
    drop_escapes_quote q (spell q is) hq ∙ ap (◌∷◌ q) (drop_escapes-spell q is hq h)

replace_hit :
    (q : ℕ) (s : Text)
    → replace_from (q ∷ []) (backslash ∷ q ∷ []) 0 (q ∷ s)
      ≡ backslash ∷ q ∷ replace_from (q ∷ []) (backslash ∷ q ∷ []) 0 s
unfolding replace_from starts_with
replace_hit q s = ground arith

replace_miss :
    (q c : ℕ) (s : Text)
    → (c == q) ≡ false
    → replace_from (q ∷ []) (backslash ∷ q ∷ []) 0 (c ∷ s)
      ≡ c ∷ replace_from (q ∷ []) (backslash ∷ q ∷ []) 0 s
unfolding replace_from starts_with
replace_miss q c s h = ground arith

replace-content :
    (q : ℕ) (is : List Item)
    → is_quote q ≡ true
    → All (IsItem q) is
    → replace_from (q ∷ []) (backslash ∷ q ∷ []) 0 (content q is) ≡ spell q is
unfolding spell content
replace-content q [] hq h = unfold replace_from in refl
replace-content q (char c ∷ is) hq ((hc, _), h) =
    replace_miss q c (content q is) hc ∙ ap (◌∷◌ c) (replace-content q is hq h)
replace-content q (escape d ∷ is) hq (hd, h) =
    replace_miss q backslash (d ∷ content q is) (ground arith)
    ∙ ap (◌∷◌ backslash) (replace_miss q d (content q is) (ground arith))
    ∙ ap (λ s. backslash ∷ d ∷ s) (replace-content q is hq h)
replace-content q (own ∷ is) hq (_, h) =
    replace_hit q (content q is) ∙ ap (λ s. backslash ∷ q ∷ s) (replace-content q is hq h)

without_last-append : (s : Text) (c : ℕ) → without_last 1 (s ++ c ∷ []) ≡ s
unfolding without_last
without_last-append [] c = refl
without_last-append (d ∷ s) c = ground (arith, length-append s (c ∷ []), without_last-append s c)

not_triple :
    (q c : ℕ) (s : Text) → is_quote q ≡ true → (c == q) ≡ false → is_triple (q ∷ c ∷ s) ≡ false
unfolding starts_with
not_triple q c s hq hc = ground arith

not_triple_empty : (q : ℕ) → is_triple (q ∷ q ∷ []) ≡ false
unfolding starts_with
not_triple_empty q = ground arith

spell-not_triple :
    (q : ℕ) (is : List Item)
    → is_quote q ≡ true
    → All (IsItem q) is
    → is_triple (q ∷ (spell q is ++ q ∷ [])) ≡ false
unfolding spell
spell-not_triple q [] hq h = not_triple_empty q
spell-not_triple q (char c ∷ is) hq ((hc, _), h) = not_triple q c _ hq hc
spell-not_triple q (escape d ∷ is) hq h = not_triple q backslash _ hq (ground arith)
spell-not_triple q (own ∷ is) hq h = not_triple q backslash _ hq (ground arith)

-- A literal on one line.
abbrev pub quoted_text : ℕ → Text → Text
quoted_text q body = q ∷ (body ++ q ∷ [])

from_python-quoted_text :
    (q : ℕ) (body : Text)
    → is_triple (quoted_text q body) ≡ false
    → (from_python false (quoted_text q body) ≡ string false (q ∷ []) (drop_escapes body))
      × (from_python true (quoted_text q body) ≡ string true (q ∷ []) body)
unfolding from_python first_chars without_first
from_python-quoted_text q body h = rw (h, without_last-append body q) (refl, refl)

render_string :
    (q : ℕ) (body : Text)
    → (render (string false (q ∷ []) body)
        ≡ q ∷ (replace_from (q ∷ []) (backslash ∷ q ∷ []) 0 body ++ q ∷ []))
      × (render (string true (q ∷ []) body) ≡ quoted_text q body)
unfolding render
render_string q body = (refl, refl)

-- Of the literals in single quotes, not triple ones: a plain one in which no quote is escaped but its
-- own is rendered as it was written, an escaped backslash and all other escapes being kept, and so is
-- every raw one.
pub render-from_python :
    (q : ℕ) (is : List Item) (raw_body : Text)
    → is_quote q ≡ true
    → All (IsItem q) is
    → is_triple (quoted_text q raw_body) ≡ false
    → (render (from_python false (quoted_text q (spell q is))) ≡ quoted_text q (spell q is))
      × (render (from_python true (quoted_text q raw_body)) ≡ quoted_text q raw_body)
render-from_python q is raw_body hq h ht = (
  ap render (from_python-quoted_text q (spell q is) (spell-not_triple q is hq h)).0
      ∙ ap (λ s. render (string false (q ∷ []) s)) (drop_escapes-spell q is hq h)
      ∙ (render_string q (content q is)).0
      ∙ ap (quoted_text q) (replace-content q is hq h),
  ap render (from_python-quoted_text q raw_body ht).1 ∙ (render_string q raw_body).1,
)

-- An escaped quote of the other kind loses its backslash.
other_quote : render (from_python false (codes "\"it\\'s\"")) ≡ codes "\"it's\""
unfolding render from_python starts_with
other_quote = refl

-- In triple quotes an escaped quote at the end loses its backslash too, and the literal no longer
-- ends where it did.
triple_quotes : render (from_python false (codes "\"\"\"a\\\"\"\"\"")) ≡ codes "\"\"\"a\"\"\"\""
unfolding render from_python starts_with
triple_quotes = refl
