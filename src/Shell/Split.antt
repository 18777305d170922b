-- ===== src/Shell/Split.antt =====
-- tasks/_inv/shell.py, `_make_split_command`: the two regular expressions as scanners. An argument
-- is a run of non-blank characters or a double quoted text with `\\` and `\"` inside; neither
-- alternative can match in two ways, so the scanners need no backtracking.
pub mod Scan
pub mod Spelled
use cdbx.Base.{
  ℕ, zero, suc, ◌≡◌, refl, Bool, true, false, not, ◌&&◌, ◌||◌, List, [], ◌∷◌, ◌++◌, map, Option,
  none, some, Text, codes, ◌==◌, if◌then◌else◌, is_space, lstrip, length,
}

abbrev pub quote : ℕ
quote = b'"'

abbrev pub backslash : ℕ
backslash = b'\\'

abbrev pub space : ℕ
space = b' '

-- `\S*`: the run of non-blank characters, and what follows it.
unfoldable pub word : Text → Text
word [] = []
word (c ∷ s) = if is_space c then [] else c ∷ word s

unfoldable pub after_word : Text → Text
after_word [] = []
after_word (c ∷ s) = if is_space c then c ∷ s else after_word s

abbrev pub push : ℕ → Option (Text × Text) → Option (Text × Text)
push c none = none
push c (some (a, r)) = some (c ∷ a, r)

-- Behind an opening quote: the text up to the closing quote, with it, and what follows. The flag
-- says that the character before was a backslash.
unfoldable pub quoted : Bool → Text → Option (Text × Text)
quoted escaped [] = none
quoted escaped (c ∷ s) =
    let rest = push c (quoted (not escaped && c == backslash) s) in
    if escaped
    then (if c == backslash || c == quote then rest else none)
    else if c == quote
    then some (c ∷ [], s)
    else rest

-- `argre` at the head of the text.
unfoldable pub match_arg : Text → Option (Text × Text)
unfolding word after_word quoted
match_arg [] = none
match_arg (c ∷ s) =
    if c == quote
    then push c (quoted false s)
    else if is_space c
    then none
    else some (c ∷ word s, after_word s)

-- What may follow an argument: `(?:\s+(?:arg))*\s*$`. The fuel bounds the arguments.
unfoldable pub check_rest : ℕ → Text → Bool
unfolding match_arg lstrip
check_rest fuel [] = true
check_rest zero (c ∷ s) = false
check_rest (suc fuel) (c ∷ s) =
    if is_space c
    then (elim (lstrip (c ∷ s)) [
      | [] ↦ true
      | d ∷ r ↦ elim (match_arg (d ∷ r)) [ none ↦ false | some (a, t) ↦ check_rest fuel t ]
    ])
    else false

-- `check`: `\s*(?:arg)(?:\s+(?:arg))*\s*$`.
unfoldable pub check : Text → Bool
unfolding match_arg lstrip check_rest
check s = elim (match_arg (lstrip s)) [ none ↦ false | some (a, t) ↦ check_rest (length t) t ]

-- `split`: all matches of `argre`, from left to right.
unfoldable pub find_args : ℕ → Text → List Text
unfolding match_arg
find_args fuel [] = []
find_args zero (c ∷ s) = []
find_args (suc fuel) (c ∷ s) = elim (match_arg (c ∷ s)) [
  | none ↦ find_args fuel s
  | some (a, t) ↦ a ∷ find_args fuel t
]

-- `strip`: each `\\` or `\"` loses its backslash.
unfoldable pub strip_escapes : Text → Text
strip_escapes [] = []
strip_escapes (c ∷ []) = c ∷ []
strip_escapes (c ∷ d ∷ s) = elim (c == backslash && (d == backslash || d == quote)) [
  | true ↦ d ∷ strip_escapes s
  | false ↦ c ∷ strip_escapes (d ∷ s)
]

unfoldable pub drop_last : Text → Text
drop_last [] = []
drop_last (c ∷ []) = []
drop_last (c ∷ d ∷ s) = c ∷ drop_last (d ∷ s)

-- `strip(arg[1:-1]) if arg.startswith('"') else arg`
unfoldable pub unquote : Text → Text
unfolding strip_escapes drop_last
unquote [] = []
unquote (c ∷ s) = if c == quote then strip_escapes (drop_last s) else c ∷ s

-- The argument of `split_command`: a text, or any iterable of arguments.
pub data Command : Type 0 where
  line : Text → Command
  items : List Text → Command

-- `none` is the `ValueError`.
unfoldable pub split_command : Command → Option (List Text)
unfolding check find_args unquote
split_command (items args) = some args
split_command (line s) = if check s then some (map unquote (find_args (length s) s)) else none

three_arguments :
    split_command (line (codes " git  commit \"a \\\"b\\\" c\"\n"))
    ≡ some (codes "git" ∷ codes "commit" ∷ codes "a \"b\" c" ∷ [])
unfolding split_command is_space
three_arguments = refl

unclosed : split_command (line (codes "git \"commit")) ≡ none
unfolding split_command is_space
unclosed = refl
