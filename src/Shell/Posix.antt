-- ===== src/Shell/Posix.antt =====
-- tasks/_inv/shell.py, `_make_posix_command`.
pub mod Words
use cdbx.Base.{
  ℕ, ◌≡◌, refl, Bool, true, false, not, ◌||◌, List, [], ◌∷◌, ◌++◌, map, Option, none, some, Text,
  codes, ◌==◌, if◌then◌else◌, is_lower, is_upper, is_digit, any, join,
}
use cdbx.Shell.Split.{Command, line, items, split_command}
use cdbx.Shell.Format.{Args, no_args, ◌>>=◌, format_tokens}

abbrev pub apostrophe : ℕ
apostrophe = 0x27

abbrev pub backslash : ℕ
backslash = b'\\'

-- The characters that need no quotes: `[a-zA-Z\d_./-]`. (`\d` has no digits but these below code
-- point 0x660.)
unfoldable pub is_plain : ℕ → Bool
unfolding is_lower is_upper is_digit
is_plain c =
    is_lower c || is_upper c || is_digit c || c == b'_' || c == b'.' || c == b'/' || c == b'-'

-- `needq`
unfoldable pub needq : Text → Bool
unfolding is_plain
needq [] = true
needq (c ∷ s) = any (λ d. not (is_plain d)) (c ∷ s)

-- `token.replace("'", "'\\''")`
unfoldable pub escape : Text → Text
escape [] = []
escape (c ∷ s) =
    if c == apostrophe
    then apostrophe ∷ backslash ∷ apostrophe ∷ apostrophe ∷ escape s
    else c ∷ escape s

unfoldable pub quote_token : Text → Text
unfolding needq escape
quote_token token = if needq token then apostrophe ∷ (escape token ++ apostrophe ∷ []) else token

-- `none` is an exception of the splitter or of the formatter.
unfoldable pub posix_command : Command → Args → Option Text
unfolding quote_token
posix_command command args = do
  tokens ← split_command command
  formatted ← format_tokens args tokens
  some (join b' ' (map quote_token formatted))

doc_example :
    posix_command (items (codes "command" ∷ codes "arg 2" ∷ [] ∷ codes "mal'x\"&" ∷ [])) no_args
    ≡ some (codes "command 'arg 2' '' 'mal'\\''x\"&'")
unfolding posix_command split_command format_tokens join
doc_example = refl
