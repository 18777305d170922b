-- ===== src/ReqFile/Paths.antt =====
-- The functions of `os.path` that the requirement files use, on POSIX. An absolute normalized path
-- is the list of its components, which `normpath` of a joined path is here: every base is absolute.
-- Two leading slashes, which POSIX keeps, are taken as one.
use cdbx.Base.{
  ℕ, ◌≡◌, refl, Bool, true, false, ◌&&◌, List, [], ◌∷◌, ◌++◌, Text, codes, ◌==◌, if◌then◌else◌,
  text_eq,
}
use mathlib.Core.List.{reverse}

abbrev pub FilePath : Type 0
FilePath = List Text

abbrev slash : ℕ
slash = b'/'

abbrev first_part : ℕ → List Text → List Text
first_part c [] = (c ∷ []) ∷ []
first_part c (p ∷ ps) = (c ∷ p) ∷ ps

-- `path.split("/")`
unfoldable pub components : Text → List Text
components [] = [] ∷ []
components (c ∷ s) = let rest = components s in if c == slash then [] ∷ rest else first_part c rest

abbrev drop_first : FilePath → FilePath
drop_first [] = []
drop_first (p ∷ ps) = ps

-- `normpath`, one component at a time; the path so far is held backwards.
unfoldable pub step : FilePath → List Text → FilePath
step done [] = done
step done (c ∷ cs) =
    step
      (if text_eq c []
        then done
        else if text_eq c (codes ".")
        then done
        else if text_eq c (codes "..")
        then drop_first done
        else c ∷ done)
      cs

-- `normpath(join(base, name))`
unfoldable pub resolve : FilePath → Text → FilePath
unfolding components step
resolve base [] = base
resolve base (c ∷ s) =
    if c == slash
    then reverse (step [] (components (c ∷ s)))
    else reverse (step (reverse base) (components (c ∷ s)))

unfoldable pub dirname : FilePath → FilePath
dirname [] = []
dirname (p ∷ []) = []
dirname (p ∷ q ∷ ps) = p ∷ dirname (q ∷ ps)

-- `relpath(path, base)`, as components; the empty list is `.`.
unfoldable pub relpath : FilePath → FilePath → FilePath
relpath path [] = path
relpath [] (b ∷ bs) = codes ".." ∷ relpath [] bs
relpath (p ∷ ps) (b ∷ bs) =
    let same = relpath ps bs in
    let up = relpath [] bs in if text_eq p b then same else codes ".." ∷ (up ++ p ∷ ps)

unfoldable pub path_eq : FilePath → FilePath → Bool
path_eq [] [] = true
path_eq (x ∷ xs) (y ∷ ys) = text_eq x y && path_eq xs ys
path_eq _ _ = false

resolve_up :
    resolve (codes "srv" ∷ codes "app" ∷ []) (codes "../lib/./x.txt")
    ≡ codes "srv" ∷ codes "lib" ∷ codes "x.txt" ∷ []
unfolding resolve text_eq
resolve_up = refl
