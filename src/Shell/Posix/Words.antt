-- ===== src/Shell/Posix/Words.antt =====
-- The quoting rules of the POSIX shell (XCU 2.2.1 to 2.2.3), as far as `posix_command` relies on
-- them, and the theorem that a shell reads back the arguments that were quoted.
use mathlib.Core.List.{append_assoc, append-nil}
use cdbx.Base.{
  ℕ, ◌≡◌, refl, sym, ap, ◌∙◌, true, false, not, List, [], ◌∷◌, ◌++◌, map, Option, none, some, Text,
  ◌==◌, any, join, arith, is_lower, is_upper, is_digit, ◌||◌, Bool, Bool-cases, Option-cases, inl,
  inr,
}
use cdbx.Shell.Format.{Args, ◌>>=◌, format_tokens}
use cdbx.Shell.Posix.{apostrophe, backslash, is_plain, needq, escape, quote_token, posix_command}
use cdbx.Shell.Split.{Command, split_command}

pub data Quoting : Type 0 where
  outside inside after_backslash : Quoting

abbrev extend : Option Text → Text → Option Text
extend none w = some w
extend (some v) w = some (v ++ w)

abbrev finish : Option Text → List Text
finish none = []
finish (some w) = w ∷ []

abbrev prepend : List Text → Option (List Text) → Option (List Text)
prepend ws none = none
prepend ws (some vs) = some (ws ++ vs)

-- The characters that XCU 2.2 lists as special to the shell, always or in some places, and those of
-- brace and history expansion: ``| & ; < > ( ) $ ` \ " '``, the blanks and the line feed, and
-- `* ? [ # ~ = % ! { }`.
unfoldable pub is_special : ℕ → Bool
is_special c =
    c == b'|'
    || c == b'&'
    || c == b';'
    || c == b'<'
    || c == b'>'
    || c == b'('
    || c == b')'
    || c == b'$'
    || c == b'`'
    || c == backslash
    || c == b'"'
    || c == apostrophe
    || c == b' '
    || c == b'\t'
    || c == b'\n'
    || c == b'*'
    || c == b'?'
    || c == b'['
    || c == b'#'
    || c == b'~'
    || c == b'='
    || c == b'%'
    || c == b'!'
    || c == b'{'
    || c == b'}'

-- The words of a command line. Between apostrophes every character stands for itself, a backslash
-- outside makes the next one do so, a space ends a word. Any other special character is refused
-- outside of quotes, since there it may start an expansion, an operator or a comment; all other
-- characters stand for themselves.
unfoldable pub read_words : Quoting → Option Text → Text → Option (List Text)
unfolding is_special
read_words outside cur [] = some (finish cur)
read_words inside cur [] = none
read_words after_backslash cur [] = none
read_words outside cur (c ∷ s) = elim (c == b' ') [
  | true ↦ prepend (finish cur) (read_words outside none s)
  | false ↦ elim (c == apostrophe) [
    | true ↦ read_words inside (extend cur []) s
    | false ↦ elim (c == backslash) [
      | true ↦ read_words after_backslash (extend cur []) s
      | false ↦ elim (is_special c) [
        | true ↦ none
        | false ↦ read_words outside (extend cur (c ∷ [])) s
      ]
    ]
  ]
]
read_words inside cur (c ∷ s) = elim (c == apostrophe) [
  | true ↦ read_words outside cur s
  | false ↦ read_words inside (extend cur (c ∷ [])) s
]
read_words after_backslash cur (c ∷ s) = read_words outside (extend cur (c ∷ [])) s

unfoldable pub shell_words : Text → Option (List Text)
unfolding read_words
shell_words s = read_words outside none s

special_marks :
    (is_special b' ' ≡ true) × (is_special apostrophe ≡ true) × (is_special backslash ≡ true)
unfolding is_special
special_marks = (refl, refl, refl)

is_plain-is_special : (c : ℕ) → is_plain c ≡ true → is_special c ≡ false
unfolding is_plain is_special is_lower is_upper is_digit
is_plain-is_special c h = ground arith

read_words_ordinary :
    (c : ℕ) (s : Text) (cur : Option Text)
    → is_special c ≡ false
    → read_words outside cur (c ∷ s) ≡ read_words outside (extend cur (c ∷ [])) s
unfolding read_words
read_words_ordinary c s cur h = ground (arith, special_marks)

read_words_plain :
    (c : ℕ) (s : Text) (cur : Option Text)
    → is_plain c ≡ true
    → read_words outside cur (c ∷ s) ≡ read_words outside (extend cur (c ∷ [])) s
read_words_plain c s cur h = read_words_ordinary c s cur (is_plain-is_special c h)

extend-extend : (cur : Option Text) (v w : Text) → extend (extend cur v) w ≡ extend cur (v ++ w)
extend-extend none v w = refl
extend-extend (some u) v w = ap some (append_assoc u v w)

read_words-plain :
    (c : ℕ) (w rest : Text) (cur : Option Text)
    → any (λ d. not (is_plain d)) (c ∷ w) ≡ false
    → read_words outside cur ((c ∷ w) ++ rest) ≡ read_words outside (extend cur (c ∷ w)) rest
read_words-plain c [] rest cur h = read_words_plain c rest cur (ground arith)
read_words-plain c (d ∷ w) rest cur h =
    read_words_plain c (d ∷ (w ++ rest)) cur (ground arith)
    ∙ read_words-plain d w rest (extend cur (c ∷ [])) (ground arith)
    ∙ rw (extend-extend cur (c ∷ []) (d ∷ w))

read_words-apostrophe :
    (s : Text) (w : Text)
    → read_words inside (some w) (apostrophe ∷ backslash ∷ apostrophe ∷ apostrophe ∷ s)
      ≡ read_words inside (some (w ++ apostrophe ∷ [])) s
unfolding read_words
read_words-apostrophe s w = simp (append_assoc, append-nil)

read_words_inside :
    (c : ℕ) (s w : Text)
    → (c == apostrophe) ≡ false
    → read_words inside (some w) (c ∷ s) ≡ read_words inside (some (w ++ c ∷ [])) s
unfolding read_words
read_words_inside c s w h = ground arith

eq_of_test : (c d : ℕ) → (c == d) ≡ true → d ≡ c
eq_of_test c d h = ground arith

read_words_open :
    (s : Text) → read_words outside none (apostrophe ∷ s) ≡ read_words inside (some []) s
unfolding read_words
read_words_open s = refl

read_words-escape :
    (s rest w : Text)
    → read_words inside (some w) (escape s ++ apostrophe ∷ rest)
      ≡ read_words outside (some (w ++ s)) rest
unfolding escape
read_words-escape [] rest w = unfold read_words in rw append-nil
read_words-escape (c ∷ s) rest w = elim (Bool-cases (c == apostrophe)) [
  | inl mark ↦ rw mark (
      read_words-apostrophe (escape s ++ apostrophe ∷ rest) w
      ∙ read_words-escape s rest (w ++ apostrophe ∷ [])
      ∙ rw append_assoc
          (ap (λ d. read_words outside (some (w ++ d ∷ s)) rest) (eq_of_test _ _ mark)))
  | inr other ↦ rw other (
      read_words_inside c (escape s ++ apostrophe ∷ rest) w other
      ∙ read_words-escape s rest (w ++ c ∷ [])
      ∙ rw append_assoc)
]

read_words-quote_token :
    (t rest : Text)
    → read_words outside none (quote_token t ++ rest) ≡ read_words outside (some t) rest
unfolding quote_token needq
read_words-quote_token [] rest = read_words_open _ ∙ read_words-escape [] rest []
read_words-quote_token (c ∷ t) rest = elim (Bool-cases (any (λ d. not (is_plain d)) (c ∷ t))) [
  | inl quoted ↦ rw quoted (read_words_open _ ∙ rw append_assoc (read_words-escape (c ∷ t) rest []))
  | inr plain ↦ rw plain (read_words-plain c t rest none plain)
]

read_words_space :
    (s : Text) (w : Text)
    → read_words outside (some w) (b' ' ∷ s) ≡ prepend (w ∷ []) (read_words outside none s)
unfolding read_words
read_words_space s w = refl

read_words_end : (w : Text) → read_words outside (some w) [] ≡ some (w ∷ [])
unfolding read_words
read_words_end w = refl

read_words-join :
    (ts : List Text) → read_words outside none (join b' ' (map quote_token ts)) ≡ some ts
unfolding join
read_words-join [] = unfold read_words in refl
read_words-join (t ∷ []) =
    rw (sym (append-nil (quote_token t))) (read_words-quote_token t [] ∙ read_words_end t)
read_words-join (t ∷ u ∷ ts) =
    read_words-quote_token t _
    ∙ read_words_space _ t
    ∙ ap (prepend (t ∷ [])) (read_words-join (u ∷ ts))

posix_command_lem :
    (command : Command) (args : Args) (tokens : List Text)
    → (split_command command >>= format_tokens args) ≡ some tokens
    → posix_command command args ≡ some (join b' ' (map quote_token tokens))
unfolding posix_command
posix_command_lem command args tokens h = elim (Option-cases (split_command command)) [
  | inl e ↦ cc
  | inr (ts, e) ↦ rw e (rw (bind_lem e h))
]
  where
    bind_lem :
        {ts : List Text}
        → split_command command ≡ some ts
        → (split_command command >>= format_tokens args) ≡ some tokens
        → format_tokens args ts ≡ some tokens
    bind_lem e k = rw e at k

-- Whenever the command line splits and its substitutions fit, a POSIX shell that reads the result
-- sees exactly the substituted arguments, whatever characters they hold.
pub shell_words-posix_command :
    (command : Command) (args : Args) (tokens : List Text)
    → (split_command command >>= format_tokens args) ≡ some tokens
    → (out : Text) × (posix_command command args ≡ some out) × (shell_words out ≡ some tokens)
unfolding posix_command shell_words
shell_words-posix_command command args tokens h = (
  join b' ' (map quote_token tokens),
  posix_command_lem command args tokens h,
  read_words-join tokens,
)
