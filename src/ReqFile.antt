-- ===== src/ReqFile.antt =====
-- tasks/deps/_inspect/_req_file.py: the tokens of requirement files, which may refer to other
-- requirement files, in a circle too.
pub mod Paths
pub mod Files
pub mod Ends
pub mod Origin
use cdbx.Base.{
  ℕ, zero, suc, ◌+◌, ◌≡◌, refl, Bool, true, false, not, ◌&&◌, ◌||◌, List, [], ◌∷◌, ◌++◌, map,
  Option, none, some, Text, codes, ◌==◌, if◌then◌else◌, is_lower, is_upper, is_digit, is_space,
  lower_char, starts_with, lstrip, rstrip, strip, drop, length,
}
use cdbx.ReqFile.Paths.{FilePath, resolve, dirname}
use cdbx.ReqFile.Files.{FileSystem, Line, Walk, start, push_file, next}

-- Where a constraint file stands.
pub data Target : Type 0 where
  url : Text → Target
  local : FilePath → Target

-- `Token`, with the classmethods that make one. `R` is the parsed requirement.
pub data Token (R : Type 0) : Type 0 where
  constraint : Target → Line → Token R
  requirement : R → Line → Token R
  editable : Text → Line → Token R
  index : Text → Line → Token R

-- What one line of a file asks for.
pub data Action (R : Type 0) : Type 0 where
  skip : Action R
  include : FilePath → Action R
  emit : Token R → Action R
  fail : Action R

-- `^(?:NAME)\s+(\S.*)`: the text behind an option and its blanks. A line has no line break left.
unfoldable pub after_option : Text → Text → Option Text
after_option [] [] = none
after_option [] (c ∷ s) =
    if is_space c then (elim (lstrip s) [ [] ↦ none | d ∷ r ↦ some (d ∷ r) ]) else none
after_option (p ∷ ps) [] = none
after_option (p ∷ ps) (c ∷ s) = let rest = after_option ps s in if p == c then rest else none

-- `(?:SHORT|LONG)`
unfoldable pub option_value : Text → Text → Text → Option Text
unfolding after_option
option_value short long content = elim (after_option short content) [
  | none ↦ after_option long content
  | some v ↦ some v
]

-- `\S+`
unfoldable pub first_word : Text → Text
first_word [] = []
first_word (c ∷ s) = if is_space c then [] else c ∷ first_word s

unfoldable pub is_remote : Text → Bool
is_remote s = starts_with (codes "http://") s || starts_with (codes "https://") s

unfoldable pub lowered : Text → Text
lowered = map lower_char

-- `if x.lower().startswith("file://"): x = x[len("file://"):]`
unfoldable pub strip_scheme : Text → Text
unfolding lowered
strip_scheme s = if starts_with (codes "file://") (lowered s) then drop 7 s else s

-- `name_match`: the first character begins a name.
unfoldable pub begins_name : Text → Bool
begins_name [] = false
begins_name (c ∷ s) = is_lower c || is_upper c || is_digit c

module _ {R : Type 0} (parse : Text → Option R) where
  -- The branches of the loop for a line that is no option; `none` of `parse` is its exception.
  unfoldable pub plain_line : Text → Line → Action R
  unfolding begins_name
  plain_line content line =
      if begins_name content
      then (elim (parse content) [ none ↦ fail | some r ↦ emit (requirement r line) ])
      else skip

  unfoldable pub requirement_line : Text → Line → Action R
  unfolding is_remote strip_scheme lowered
  requirement_line req line =
      if is_remote (lowered req)
      then skip
      else include (resolve (dirname line.file) (strip_scheme req))

  unfoldable pub constraint_line : Text → Line → Action R
  unfolding is_remote strip_scheme
  constraint_line con line =
      let target = strip_scheme con in
      if is_remote target
      then emit (constraint (url target) line)
      else emit (constraint (local (resolve (dirname line.file) target)) line)

  -- `if match: …; continue`, and the rest of the loop body.
  unfoldable pub on_match : Option Text → (Text → Action R) → Action R → Action R
  on_match none act rest = rest
  on_match (some v) act rest = act v

  -- The body of the loop of `tokens`, on the stripped content.
  unfoldable pub classify_content : Text → Line → Action R
  unfolding plain_line requirement_line constraint_line option_value first_word on_match
  classify_content [] line = skip
  classify_content (c ∷ s) line =
      if c == b'#'
      then skip
      else (on_match (option_value (codes "-r") (codes "--requirement") (c ∷ s))
          (λ req. requirement_line req line)
          (on_match (option_value (codes "-c") (codes "--constraint") (c ∷ s))
            (λ con. constraint_line (first_word con) line)
            (on_match (option_value (codes "-e") (codes "--editable") (c ∷ s))
              (λ value. emit (editable (rstrip value) line))
              (on_match (option_value (codes "-i") (codes "--index") (c ∷ s))
                (λ value. emit (index (first_word value) line)) (plain_line (c ∷ s) line)))))

  unfoldable pub classify : Line → Action R
  unfolding classify_content
  classify line = classify_content (strip line.content) line

  -- The generator as a whole: all tokens, an exception, or no fuel left.
  pub data Outcome : Type 0 where
    done : List (Token R) → Outcome
    raised : Outcome
    out_of_fuel : Outcome

  unfoldable pub prepend : Token R → Outcome → Outcome
  prepend t (done ts) = done (t ∷ ts)
  prepend t raised = raised
  prepend t out_of_fuel = out_of_fuel

  module _ (base : FilePath) (fs : FileSystem) where
    -- The end of one round of the loop, `go` being the rounds that follow.
    unfoldable pub follow : (Walk → Outcome) → Action R → Walk → Outcome
    unfolding prepend
    follow go skip w = go w
    follow go (include p) w = go (push_file base fs p w)
    follow go (emit t) w = prepend t (go w)
    follow go fail w = raised

    unfoldable pub proceed : (Walk → Outcome) → Option (Line × List (List Line)) → Walk → Outcome
    unfolding follow
    proceed go none w = done []
    proceed go (some (line, rest)) w = follow go (classify line) (record w { stack = rest })

    -- `for line in stack`, with fuel for each line.
    unfoldable pub loop : ℕ → Walk → Outcome
    unfolding proceed
    loop zero w = out_of_fuel
    loop (suc fuel) w = proceed (loop fuel) (next w.stack) w

    -- `tokens(filenames, base)`
    unfoldable pub tokens : ℕ → List Text → Outcome
    unfolding loop start
    tokens fuel filenames = loop fuel (start base fs filenames)
