-- ===== src/Shell/Split/Scan.antt =====
-- How the scanner of one argument reads a spelled argument that is followed by a blank or the end.
use cdbx.Base.{
  ℕ, ◌≡◌, refl, ap, true, false, [], ◌∷◌, ◌++◌, some, Text, ◌==◌, is_space, if◌then◌else◌, All,
  arith, ◌||◌,
}
use cdbx.Shell.Split.{quote, backslash, word, after_word, quoted, strip_escapes, drop_last}

-- The escapes that the doc comment of `split_command` asks for inside quotes.
unfoldable pub escape : Text → Text
escape [] = []
escape (c ∷ s) = if c == backslash || c == quote then backslash ∷ c ∷ escape s else c ∷ escape s

-- A text that ends an argument: the end of the line or a blank.
abbrev pub Ends : Text → Type 0
Ends [] = Unit {0}
Ends (c ∷ s) = is_space c ≡ true

abbrev pub NonBlank : Text → Type 0
NonBlank = All (λ c. is_space c ≡ false)

pub word-append : (w rest : Text) → NonBlank w → Ends rest → word (w ++ rest) ≡ w
unfolding word
word-append [] [] h e = refl
word-append [] (c ∷ rest) h e = rw e
word-append (c ∷ w) rest (hc, hw) e = rw hc (ap (◌∷◌ c) (word-append w rest hw e))

pub after_word-append : (w rest : Text) → NonBlank w → Ends rest → after_word (w ++ rest) ≡ rest
unfolding after_word
after_word-append [] [] h e = refl
after_word-append [] (c ∷ rest) h e = rw e
after_word-append (c ∷ w) rest (hc, hw) e = rw hc (after_word-append w rest hw e)

pub quoted-escape :
    (s rest : Text) → quoted false (escape s ++ quote ∷ rest) ≡ some (escape s ++ quote ∷ [], rest)
unfolding quoted escape
quoted-escape [] rest = refl
quoted-escape (c ∷ s) rest = ground (arith, quoted-escape s rest)

strip_escapes-cons :
    (c : ℕ) (s : Text) → (c == backslash) ≡ false → strip_escapes (c ∷ s) ≡ c ∷ strip_escapes s
unfolding strip_escapes
strip_escapes-cons c [] h = refl
strip_escapes-cons c (d ∷ s) h = ground arith

pub strip_escapes-escape : (s : Text) → strip_escapes (escape s) ≡ s
unfolding strip_escapes escape
strip_escapes-escape [] = refl
strip_escapes-escape (c ∷ s) =
    ground (arith, strip_escapes-cons c (escape s), strip_escapes-escape s)

pub drop_last-append : (s : Text) (c : ℕ) → drop_last (s ++ c ∷ []) ≡ s
unfolding drop_last
drop_last-append [] c = refl
drop_last-append (d ∷ []) c = refl
drop_last-append (d ∷ e ∷ s) c = ap (◌∷◌ d) (drop_last-append (e ∷ s) c)
