-- ===== src/Shell/Format.antt =====
-- tasks/_inv/shell.py, `_make_formatter`: substitution into the tokens of a command line. Python's
-- `%` operator is modelled for the conversions `%s`, `%(name)s` and `%%`, which are all that the
-- repository uses; any other conversion counts as an exception here. `none` is an exception.
pub mod Templates
use cdbx.Base.{
  ℕ, zero, suc, ◌+◌, ◌≡◌, refl, Bool, true, false, not, ◌&&◌, List, [], ◌∷◌, ◌++◌, Option, none,
  some, Text, codes, ◌==◌, if◌then◌else◌, text_eq,
}

abbrev pub percent : ℕ
percent = b'%'

-- The substitutions of a call: none, the positional ones that are left, or the named ones.
pub data Args : Type 0 where
  no_args : Args
  positional : List Text → Args
  named : List (Text × Text) → Args

infixl 5 ◌>>=◌
abbrev pub ◌>>=◌ {ℓ κ} : {A : Type ℓ} {B : Type κ} → Option A → (A → Option B) → Option B
none >>= f = none
some a >>= f = f a

-- `len(pcents(value))`: the matches of `%[^%]`, from left to right.
unfoldable pub count_pcents : Text → ℕ
count_pcents [] = 0
count_pcents (c ∷ []) = 0
count_pcents (c ∷ d ∷ s) = elim (c == percent && not (d == percent)) [
  | true ↦ suc (count_pcents s)
  | false ↦ count_pcents (d ∷ s)
]

-- The loop of `args.pop()`: the arguments of this token, and those left for the next ones.
unfoldable pub pop_args : ℕ → List Text → Option (List Text × List Text)
pop_args zero args = some ([], args)
pop_args (suc n) [] = none
pop_args (suc n) (a ∷ args) = do (taken, left) ← pop_args n args; some (a ∷ taken, left)

-- `value % tuple(torepl)`: too few and too many arguments are errors.
unfoldable pub fill : Text → List Text → Option Text
fill [] [] = some []
fill [] (a ∷ args) = none
fill (c ∷ []) args = if c == percent then none else (do r ← fill [] args; some (c ∷ r))
fill (c ∷ d ∷ s) args = elim (c == percent) [
  | false ↦ (do r ← fill (d ∷ s) args; some (c ∷ r))
  | true ↦ elim (d == percent) [
    | true ↦ (do r ← fill s args; some (percent ∷ r))
    | false ↦ elim (d == b's') [
      | true ↦ (elim args [ [] ↦ none | a ∷ rest ↦ (do r ← fill s rest; some (a ++ r)) ])
      | false ↦ none
    ]
  ]
]

unfoldable pub find_named : Text → List (Text × Text) → Option Text
find_named k [] = none
find_named k ((j, v) ∷ args) = if text_eq j k then some v else find_named k args

-- The key of `%(key)s`, behind the bracket, and the text behind the closing one.
unfoldable pub read_key : Text → Option (Text × Text)
read_key [] = none
read_key (c ∷ s) =
    let rest = (do (k, r) ← read_key s; some (c ∷ k, r)) in if c == b')' then some ([], s) else rest

-- `x % kwargs`, with fuel for each character.
unfoldable pub fill_named : ℕ → Text → List (Text × Text) → Option Text
unfolding find_named read_key
fill_named fuel [] args = some []
fill_named zero (c ∷ s) args = none
fill_named (suc fuel) (c ∷ s) args = elim (c == percent) [
  | false ↦ (do r ← fill_named fuel s args; some (c ∷ r))
  | true ↦ elim s [
    | [] ↦ none
    | d ∷ t ↦ elim (d == percent) [
      | true ↦ (do r ← fill_named fuel t args; some (percent ∷ r))
      | false ↦ elim (d == b'(') [
        | false ↦ none
        | true ↦ (elim (read_key t) [
          | none ↦ none
          | some (k, u) ↦ elim u [
            | [] ↦ none
            | e ∷ v ↦ elim (e == b's') [
              | false ↦ none
              | true ↦ (do a ← find_named k args; r ← fill_named fuel v args; some (a ++ r))
            ]
          ]
        ])
      ]
    ]
  ]
]

length_of : Text → ℕ
length_of [] = 0
length_of (c ∷ s) = suc (length_of s)

-- The formatter on one token; positional arguments are used up from call to call.
unfoldable pub format_token : Args → Text → Option (Text × Args)
unfolding count_pcents pop_args fill fill_named length_of
format_token no_args value = some (value, no_args)
format_token (positional args) value = do
  (taken, left) ← pop_args (count_pcents value) args
  out ← fill value taken
  some (out, positional left)
format_token (named args) value = do
  out ← fill_named (length_of value) value args
  some (out, named args)

-- `map(formatter, tokens)`
unfoldable pub format_tokens : Args → List Text → Option (List Text)
unfolding format_token
format_tokens args [] = some []
format_tokens args (t ∷ ts) = do
  (out, left) ← format_token args t
  rest ← format_tokens left ts
  some (out ∷ rest)

abbrev pub two_tokens : List Text
two_tokens = codes "--x=%s" ∷ codes "%s-%s" ∷ []

two_tokens-positional :
    format_tokens (positional (codes "1" ∷ codes "2" ∷ codes "3" ∷ [])) two_tokens
    ≡ some (codes "--x=1" ∷ codes "2-3" ∷ [])
unfolding format_tokens
two_tokens-positional = refl

one_named :
    format_tokens (named ((codes "v", codes "7") ∷ [])) (codes "a%(v)s%%" ∷ [])
    ≡ some (codes "a7%" ∷ [])
unfolding format_tokens text_eq
one_named = refl
