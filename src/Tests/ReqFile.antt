-- ===== src/Tests/ReqFile.antt =====
-- Requirement files of tasks/deps/_inspect/_req_file.py that refer to one another.
use native.Mathlib.Omega.{arith}
use cdbx.Base.{
  ◌≡◌, ◌<◌, refl, [], ◌∷◌, Option, some, Text, codes, text_eq, strip, is_space, starts_with,
  lower_char, is_lower,
}
use cdbx.ReqFile.Paths.{FilePath, path_eq, resolve, relpath, dirname}
use cdbx.ReqFile.Files.{FileSystem, next}
use cdbx.ReqFile.{requirement, done, classify, tokens}
use cdbx.ReqFile.Ends.{total_lines, Ended, tokens-Ended}
use cdbx.ReqFile.Origin.{FromFiles, tokens-FromFiles}

abbrev parse : Text → Option Text
parse s = some s

abbrev base : FilePath
base = codes "srv" ∷ []

abbrev first : FilePath
first = codes "srv" ∷ codes "a.txt" ∷ []

abbrev second : FilePath
second = codes "srv" ∷ codes "b.txt" ∷ []

-- Two files in a circle.
abbrev files : FileSystem
files =
    (first, codes "# all\n" ∷ codes "-r b.txt\n" ∷ codes "six\n" ∷ [])
    ∷ (second, codes "-r a.txt\n" ∷ codes "tox\n" ∷ [])
    ∷ []

enough : total_lines files < 6
unfolding total_lines
enough = omega arith

circle :
    tokens parse base files 6 (codes "a.txt" ∷ [])
    ≡ done (
        requirement (codes "tox") (record { file = second; lineno = 2; content = codes "tox\n" })
        ∷ requirement (codes "six") (record { file = first; lineno = 3; content = codes "six\n" })
        ∷ [])
unfolding tokens next path_eq resolve text_eq classify strip is_space starts_with lower_char relpath
    dirname is_lower
circle = refl

tokens-Ended_example : Ended parse base files (tokens parse base files 6 (codes "a.txt" ∷ []))
tokens-Ended_example = tokens-Ended parse base files (codes "a.txt" ∷ []) 6 enough

tokens-FromFiles_example :
    FromFiles parse base files (tokens parse base files 6 (codes "a.txt" ∷ []))
tokens-FromFiles_example = tokens-FromFiles parse base files (codes "a.txt" ∷ []) 6
