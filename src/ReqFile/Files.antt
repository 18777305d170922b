-- ===== src/ReqFile/Files.antt =====
-- `File`, `Line` and `FileIterator`: a stack of files that are being read.
use cdbx.Base.{ℕ, ◌+◌, Bool, false, ◌||◌, List, [], ◌∷◌, Option, none, some, Text, if◌then◌else◌}
use cdbx.ReqFile.Paths.{FilePath, resolve, relpath, path_eq}

-- The files that exist, with their lines. A path that is not listed is no file.
abbrev pub FileSystem : Type 0
FileSystem = List (FilePath × List Text)

unfoldable pub read_file : FileSystem → FilePath → Option (List Text)
read_file [] path = none
read_file ((p, ls) ∷ fs) path = if path_eq p path then some ls else read_file fs path

pub record Line : Type 0 where
  pub file : FilePath
  pub lineno : ℕ
  pub content : Text

-- `enumerate(fp, start=1)` of `File`, from any line on.
unfoldable pub number_lines : FilePath → ℕ → List Text → List Line
number_lines path n [] = []
number_lines path n (l ∷ ls) =
    record { file = path; lineno = n; content = l } ∷ number_lines path (n + 1) ls

-- `_stack`, the top first, and `_seen`.
pub record Walk : Type 0 where
  pub stack : List (List Line)
  pub seen : List FilePath

unfoldable pub mem_path : FilePath → List FilePath → Bool
mem_path key [] = false
mem_path key (k ∷ ks) = path_eq k key || mem_path key ks

-- The end of `push_file`: `isfile`, and the lines of the file.
unfoldable pub push_lines : FilePath → Option (List Text) → Walk → Walk
unfolding number_lines
push_lines path none w = w
push_lines path (some ls) w = record w { stack = number_lines path 1 ls ∷ w.stack }

-- `push_file` on a path that `resolve` has made absolute.
unfoldable pub push_file : FilePath → FileSystem → FilePath → Walk → Walk
unfolding read_file mem_path push_lines
push_file base fs path w =
    let key = relpath path base in
    if mem_path key w.seen
    then w
    else push_lines path (read_file fs path) (record w { seen = key ∷ w.seen })

-- `for filename in reversed(list(filenames))`
unfoldable pub push_all : FilePath → FileSystem → List Text → Walk → Walk
unfolding push_file
push_all base fs [] w = w
push_all base fs (f ∷ names) w = push_file base fs (resolve base f) (push_all base fs names w)

unfoldable pub start : FilePath → FileSystem → List Text → Walk
unfolding push_all
start base fs filenames = push_all base fs filenames (record { stack = []; seen = [] })

-- `__iter__`: the next line, and the stack behind it; files that are read are popped.
unfoldable pub next : List (List Line) → Option (Line × List (List Line))
next [] = none
next ([] ∷ stack) = next stack
next ((l ∷ ls) ∷ stack) = some (l, ls ∷ stack)
