-- ===== src/Shell/Win32.antt =====
-- tasks/_inv/shell.py, `_make_win32_command`: quoting for `cmd.exe`.
pub mod Argument
use cdbx.Base.{
  ℕ, zero, suc, ◌+◌, ◌≡◌, refl, Bool, true, false, ◌&&◌, ◌||◌, List, [], ◌∷◌, ◌++◌, map, Option,
  none, some, Text, codes, ◌==◌, any, join, replicate, if◌then◌else◌,
}
use cdbx.Shell.Split.{Command, items, split_command}
use cdbx.Shell.Format.{Args, no_args, format_tokens, ◌>>=◌}

abbrev pub backslash : ℕ
backslash = b'\\'

abbrev pub quote : ℕ
quote = b'"'

-- `wsp`: `\r\n\t\x0b\x0c\x08 `
unfoldable pub is_gap : ℕ → Bool
is_gap c = c == b'\r' || c == b'\n' || c == 9 || c == 0xb || c == 0xc || c == 8 || c == b' '

-- `[%s%s]` of `wsp` and `meta`
unfoldable pub is_meta : ℕ → Bool
unfolding is_gap
is_meta c =
    is_gap c
    || c == b'('
    || c == b')'
    || c == b'%'
    || c == b'!'
    || c == b'^'
    || c == quote
    || c == b'<'
    || c == b'>'
    || c == b'&'
    || c == b'|'

-- `metasub`
unfoldable pub metasub : Text → Text
unfolding is_meta
metasub [] = []
metasub (c ∷ s) = if is_meta c then b'^' ∷ c ∷ metasub s else c ∷ metasub s

abbrev pub is_last_break : ℕ → Text → Bool
is_last_break c [] = c == b'\n'
is_last_break c (d ∷ s) = false

-- `slashsub`, behind `n` backslashes: a run is doubled in front of a quote and where `$` matches, at
-- the end and in front of a line feed at the end.
unfoldable pub slashes : ℕ → Text → Text
slashes n [] = replicate (n + n) backslash
slashes n (c ∷ s) = elim (c == backslash) [
  | true ↦ slashes (suc n) s
  | false ↦
      let rest = slashes 0 s in
      if c == quote || is_last_break c s
      then replicate (n + n) backslash ++ c ∷ rest
      else replicate n backslash ++ c ∷ rest
]

-- `.replace('"', '\\"')`
unfoldable pub escape_quotes : Text → Text
escape_quotes [] = []
escape_quotes (c ∷ s) = if c == quote then backslash ∷ c ∷ escape_quotes s else c ∷ escape_quotes s

-- `needq`
unfoldable pub needq : Text → Bool
unfolding is_gap
needq [] = true
needq (c ∷ s) = any (λ d. is_gap d || d == quote) (c ∷ s)

-- `'"%s"' % (...) if needq(token) else token`
unfoldable pub quote_token : Text → Text
unfolding slashes escape_quotes needq
quote_token token =
    if needq token then quote ∷ (escape_quotes (slashes 0 token) ++ quote ∷ []) else token

-- `none` is an exception of the splitter or of the formatter.
unfoldable pub win32_command : Command → Args → Option Text
unfolding metasub quote_token
win32_command command args = do
  tokens ← split_command command
  formatted ← format_tokens args tokens
  some (join b' ' (map (λ token. metasub (quote_token token)) formatted))

doc_example :
    win32_command (items (codes "command" ∷ codes "arg 2" ∷ [] ∷ codes "arg %3" ∷ [])) no_args
    ≡ some (codes "command ^\"arg^ 2^\" ^\"^\" ^\"arg^ ^%3^\"")
unfolding win32_command split_command format_tokens join
doc_example = refl
