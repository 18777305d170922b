-- ===== src/Shell/Format/Templates.antt =====
-- What the positional formatter does with templates of literal text and `%s` places.
use cdbx.Base.{
  ℕ, suc, ◌≡◌, refl, ap, ◌∙◌, false, List, [], ◌∷◌, ◌++◌, some, Text, ◌==◌, arith, length,
}
use cdbx.Shell.Format.{percent, positional, ◌>>=◌, count_pcents, pop_args, fill, format_tokens}

-- A piece of a token: one literal character, or a place for an argument.
pub data Piece : Type 0 where
  lit : ℕ → Piece
  place : Piece

unfoldable pub template : List Piece → Text
template [] = []
template (lit c ∷ ps) = c ∷ template ps
template (place ∷ ps) = percent ∷ b's' ∷ template ps

abbrev pub IsTemplate : List Piece → Type 0
IsTemplate [] = Unit {0}
IsTemplate (lit c ∷ ps) = ((c == percent) ≡ false) × IsTemplate ps
IsTemplate (place ∷ ps) = IsTemplate ps

unfoldable pub places : List Piece → ℕ
places [] = 0
places (lit c ∷ ps) = places ps
places (place ∷ ps) = suc (places ps)

-- The token with its places filled from the list, in order.
unfoldable pub instantiate : List Piece → List Text → Text
instantiate [] args = []
instantiate (lit c ∷ ps) args = c ∷ instantiate ps args
instantiate (place ∷ ps) [] = []
instantiate (place ∷ ps) (a ∷ args) = a ++ instantiate ps args

count_pcents_lit :
    (c : ℕ) (s : Text) → (c == percent) ≡ false → count_pcents (c ∷ s) ≡ count_pcents s
unfolding count_pcents
count_pcents_lit c [] h = refl
count_pcents_lit c (d ∷ s) h = ground arith

count_pcents_place : (s : Text) → count_pcents (percent ∷ b's' ∷ s) ≡ suc (count_pcents s)
unfolding count_pcents
count_pcents_place s = refl

count_pcents-template : (ps : List Piece) → IsTemplate ps → count_pcents (template ps) ≡ places ps
unfolding template places
count_pcents-template [] h = unfold count_pcents in refl
count_pcents-template (lit c ∷ ps) (hc, h) =
    count_pcents_lit c (template ps) hc ∙ count_pcents-template ps h
count_pcents-template (place ∷ ps) h =
    count_pcents_place (template ps) ∙ ap suc (count_pcents-template ps h)

pop_args-append : (xs ys : List Text) → pop_args (length xs) (xs ++ ys) ≡ some (xs, ys)
unfolding pop_args
pop_args-append [] ys = refl
pop_args-append (x ∷ xs) ys = rw (pop_args-append xs ys)

fill_lit :
    (c : ℕ) (s : Text) (args : List Text)
    → (c == percent) ≡ false
    → fill (c ∷ s) args ≡ (fill s args >>= λ r. some (c ∷ r))
unfolding fill
fill_lit c [] args h = ground arith
fill_lit c (d ∷ s) args h = ground arith

fill_place :
    (s a : Text) (args : List Text)
    → fill (percent ∷ b's' ∷ s) (a ∷ args) ≡ (fill s args >>= λ r. some (a ++ r))
unfolding fill
fill_place s a args = refl

fill-template :
    (ps : List Piece) (args : List Text)
    → IsTemplate ps
    → places ps ≡ length args
    → fill (template ps) args ≡ some (instantiate ps args)
unfolding template places instantiate
fill-template [] [] h e = unfold fill in refl
fill-template [] (a ∷ args) h e = absurd (omega arith)
fill-template (lit c ∷ ps) args (hc, h) e =
    fill_lit c (template ps) args hc ∙ rw (fill-template ps args h e)
fill-template (place ∷ ps) [] h e = absurd (omega arith)
fill-template (place ∷ ps) (a ∷ args) h e =
    fill_place (template ps) a args ∙ rw (fill-template ps args h (omega arith))

-- A token of literal characters and `%s` places takes as many arguments as it has places, puts
-- them in order into the places, and leaves the other arguments for the tokens behind it.
pub format_tokens-template :
    (ps : List Piece) (args more : List Text) (ts : List Text)
    → IsTemplate ps
    → places ps ≡ length args
    → format_tokens (positional (args ++ more)) (template ps ∷ ts)
      ≡ (format_tokens (positional more) ts >>= λ rest. some (instantiate ps args ∷ rest))
unfolding format_tokens
format_tokens-template ps args more ts h e =
    rw (count_pcents-template ps h, e, pop_args-append args more, fill-template ps args h e)
