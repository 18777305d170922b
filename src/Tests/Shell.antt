-- ===== src/Tests/Shell.antt =====
-- Command lines of tasks/_inv/shell.py on concrete inputs.
use cdbx.Base.{◌≡◌, refl, List, [], ◌∷◌, some, Text, codes, is_space, join}
use cdbx.Shell.Split.{line, split_command}
use cdbx.Shell.Split.Spelled.{
  Spelling, bare, in_quotes, spell_line, value, split_command-spell_line,
}
use cdbx.Shell.Format.{positional, format_tokens, ◌>>=◌}
use cdbx.Shell.Format.Templates.{
  Piece, lit, place, template, places, instantiate, format_tokens-template,
}
use cdbx.Shell.Posix.{posix_command}
use cdbx.Shell.Posix.Words.{shell_words, shell_words-posix_command}

abbrev git : Spelling
git = bare b'g' (codes "it")

abbrev message : Spelling
message = in_quotes (codes "a \"b\" \\")

split_git :
    split_command (line (codes " git \"a \\\"b\\\" \\\\\" "))
    ≡ some (codes "git" ∷ codes "a \"b\" \\" ∷ [])
unfolding split_command is_space
split_git = refl

split_command-spell_line_example :
    split_command (line (spell_line ((codes " ", git) ∷ (codes "  ", message) ∷ []) []))
    ≡ some (value git ∷ value message ∷ [])
unfolding is_space
split_command-spell_line_example =
    split_command-spell_line (codes " ") git ((codes "  ", message) ∷ []) [] (refl, tt)
      (refl, (refl, (refl, (refl, tt)))) (((λ e. cc), (refl, (refl, tt)), tt), tt) tt

abbrev assignment : List Piece
assignment = lit b'a' ∷ lit b'=' ∷ place ∷ place ∷ []

format_tokens-template_example :
    format_tokens
      (positional (codes "x" ∷ codes "y" ∷ codes "z" ∷ []))
      (template assignment ∷ codes "%s" ∷ [])
    ≡ (format_tokens (positional (codes "z" ∷ [])) (codes "%s" ∷ []) >>= λ rest.
        some (instantiate assignment (codes "x" ∷ codes "y" ∷ []) ∷ rest))
unfolding places
format_tokens-template_example =
    format_tokens-template assignment (codes "x" ∷ codes "y" ∷ []) (codes "z" ∷ [])
      (codes "%s" ∷ []) (refl, (refl, tt)) refl

echo_tokens :
    (split_command (line (codes "echo %s")) >>= format_tokens (positional (codes "it's $x" ∷ [])))
    ≡ some (codes "echo" ∷ codes "it's $x" ∷ [])
unfolding split_command format_tokens is_space
echo_tokens = refl

echo_command :
    posix_command (line (codes "echo %s")) (positional (codes "it's $x" ∷ []))
    ≡ some (codes "echo 'it'\\''s $x'")
unfolding posix_command split_command format_tokens is_space join
echo_command = refl

shell_words-posix_command_example :
    (out : Text) × (posix_command (line (codes "echo %s")) (positional (codes "it's $x" ∷ []))
      ≡ some out)
    × (shell_words out ≡ some (codes "echo" ∷ codes "it's $x" ∷ []))
shell_words-posix_command_example =
    shell_words-posix_command (line (codes "echo %s")) (positional (codes "it's $x" ∷ []))
      (codes "echo" ∷ codes "it's $x" ∷ []) echo_tokens
