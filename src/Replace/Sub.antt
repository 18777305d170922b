-- ===== src/Replace/Sub.antt =====
-- `_spec_sub` of tasks/deps/_suggest/_requirement.py: the substitution of an operator with its version.
-- At each place its alternatives can match in one way only.
use cdbx.Base.{
  ℕ, zero, suc, Bool, not, ◌&&◌, ◌||◌, [], ◌∷◌, ◌++◌, Option, none, some, Text, ◌==◌, is_space,
  is_lower, is_upper, is_digit, length, if◌then◌else◌,
}
use cdbx.Shell.Format.{◌>>=◌}

-- `[^\S\r\n]`
unfoldable pub is_blank : ℕ → Bool
is_blank c = is_space c && not (c == b'\n' || c == b'\r')

-- `[a-zA-Z0-9_.*+!-]`
unfoldable pub is_version_char : ℕ → Bool
unfolding is_lower is_upper is_digit
is_version_char c =
    is_lower c
    || is_upper c
    || is_digit c
    || c == b'_'
    || c == b'.'
    || c == b'*'
    || c == b'+'
    || c == b'!'
    || c == b'-'

-- The longest run of characters of a class, and what follows.
unfoldable pub span : (ℕ → Bool) → Text → Text × Text
span class [] = ([], [])
span class (c ∷ s) =
    let (run, rest) = span class s in if class c then (c ∷ run, rest) else ([], c ∷ s)

-- The groups of a match and the text behind it.
pub record SpecMatch : Type 0 where
  pub group : Text
  pub version : Text
  pub rest : Text

abbrev pub with_version : Text → Text × Text → Option SpecMatch
with_version group ([], rest) = none
with_version group (c ∷ v, rest) = some (record { group = group; version = c ∷ v; rest = rest })

-- `wsp* ) ( version_str )` behind an operator
unfoldable pub match_version : Text → Text → Option SpecMatch
unfolding span is_blank is_version_char
match_version op s =
    let (blanks, rest) = span is_blank s in with_version (op ++ blanks) (span is_version_char rest)

-- `(?:[^=]==|[<~]=|<)`, at the head of a text.
unfoldable pub match_two : Text → Option SpecMatch
unfolding match_version
match_two (c ∷ d ∷ s) =
    if (c == b'<' || c == b'~') && d == b'='
    then match_version (c ∷ d ∷ []) s
    else if c == b'<'
    then match_version (c ∷ []) (d ∷ s)
    else none
match_two _ = none

unfoldable pub match_spec : Text → Option SpecMatch
unfolding match_version match_two
match_spec (c ∷ d ∷ e ∷ s) =
    if not (c == b'=') && (d == b'=' && e == b'=')
    then match_version (c ∷ d ∷ e ∷ []) s
    else match_two (c ∷ d ∷ e ∷ s)
match_spec s = match_two s

module _ (f : Text → Text → Option Text) where
  abbrev pub cons_some : ℕ → Option Text → Option Text
  cons_some c none = none
  cons_some c (some s) = some (c ∷ s)

  -- One step at a character: without a match it is kept, else the match is replaced, and `go` reads
  -- what follows.
  unfoldable pub on_match : ℕ → Option Text → (Text → Option Text) → Option SpecMatch → Option Text
  on_match c skipped go none = cons_some c skipped
  on_match c skipped go (some m) = do
    new ← f m.group m.version
    after ← go m.rest
    some (new ++ after)

  -- The substitution with fuel for each character; `none` is an exception of the replacement.
  unfoldable pub sub_from : ℕ → Text → Option Text
  unfolding match_spec on_match
  sub_from fuel [] = some []
  sub_from zero (c ∷ s) = some (c ∷ s)
  sub_from (suc fuel) (c ∷ s) = on_match c (sub_from fuel s) (sub_from fuel) (match_spec (c ∷ s))

  -- `_spec_sub(f, text)`
  unfoldable pub spec_sub : Text → Option Text
  unfolding sub_from
  spec_sub text = sub_from (length text) text
