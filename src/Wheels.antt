-- ===== src/Wheels.antt =====
-- tasks/build_.py: which wheels `_build_binary` builds with which containers, and how it names the
-- wheels afterwards. The machine, the files and the current directory are parameters.
pub mod Tags
pub mod Best
use cdbx.Base.{
  ℕ, Bool, true, false, not, ◌&&◌, ◌||◌, List, [], ◌∷◌, ◌++◌, map, Option, none, some, Text, codes,
  ◌==◌, if◌then◌else◌, any, text_eq, is_space, join,
}
use cdbx.Shell.Format.{◌>>=◌}
use cdbx.Latest.Sorting.{text_lt, sort_texts}

-- `arch → python → libc → version`
abbrev pub PythonSpec : Type 0
PythonSpec = List (Text × List (Text × Text))

-- The arguments of a `docker run` of `_build_binary`, less the directory and the file.
pub record ContainerRun : Type 0 where
  pub libc : Text
  pub version : Text
  pub arch : Text
  pub prefix : Text
  pub pythons : Text

-- `text.split()`; the flag says that a word is open.
unfoldable pub open_word : Bool → ℕ → List Text → List Text
open_word true c [] = (c ∷ []) ∷ []
open_word true c (w ∷ ws) = (c ∷ w) ∷ ws
open_word false c ws = (c ∷ []) ∷ ws

abbrev begins_word : Text → Bool
begins_word [] = false
begins_word (c ∷ s) = not (is_space c)

unfoldable pub words : Text → List Text
unfolding is_space open_word
words [] = []
words (c ∷ s) = let rest = words s in if is_space c then rest else open_word (begins_word s) c rest

-- `arches`, or what stands for none
unfoldable pub arches_for : Text → Option Text → List Text
unfolding words text_eq
arches_for machine (some arches) = words arches
arches_for machine none =
    words (if text_eq machine (codes "x86_64") then codes "x86_64 i686 aarch64" else machine)

-- The loop that ends with the start of an emulator.
unfoldable pub needs_emulator : Text → List Text → Bool
unfolding text_eq
needs_emulator machine [] = false
needs_emulator machine (arch ∷ arches) =
    let rest = needs_emulator machine arches in
    if text_eq machine arch
    then rest
    else if text_eq machine (codes "x86_64") && text_eq arch (codes "i686")
    then rest
    else true

-- `d[key]`
unfoldable pub at_key : {A : Type 0} → Text → List (Text × A) → Option A
unfolding text_eq
at_key key [] = none
at_key key ((k, a) ∷ d) = let rest = at_key key d in if text_eq k key then some a else rest

-- The generator of `groups`: the version for the libc, and the python.
unfoldable pub with_libc : Text → PythonSpec → List (Text × Text)
unfolding at_key
with_libc libc [] = []
with_libc libc ((python, versions) ∷ spec) =
    let rest = with_libc libc spec in
    elim (at_key libc versions) [ some v ↦ (v, python) ∷ rest | none ↦ rest ]

unfoldable pub pair_lt : Text × Text → Text × Text → Bool
unfolding text_lt text_eq
pair_lt (v, p) (w, q) = text_lt v w || (text_eq v w && text_lt p q)

unfoldable pub insert_pair : Text × Text → List (Text × Text) → List (Text × Text)
unfolding pair_lt
insert_pair x [] = x ∷ []
insert_pair x (y ∷ ys) = let rest = insert_pair x ys in if pair_lt y x then y ∷ rest else x ∷ y ∷ ys

-- `sorted` by the version, then by the python
unfoldable pub sort_pairs : List (Text × Text) → List (Text × Text)
unfolding insert_pair
sort_pairs [] = []
sort_pairs (x ∷ xs) = insert_pair x (sort_pairs xs)

-- `groupby` the version
unfoldable pub join_group : Text × Text → List (Text × List Text) → List (Text × List Text)
unfolding text_eq
join_group (v, p) [] = (v, p ∷ []) ∷ []
join_group (v, p) ((w, ps) ∷ groups) =
    if text_eq v w then (w, p ∷ ps) ∷ groups else (v, p ∷ []) ∷ (w, ps) ∷ groups

unfoldable pub group_by : List (Text × Text) → List (Text × List Text)
unfolding join_group
group_by [] = []
group_by (x ∷ xs) = join_group x (group_by xs)

-- `if "_" in v: v = "_" + v`
unfoldable pub with_underscore : Text → Text
with_underscore v = if any (λ c. c == b'_') v then b'_' ∷ v else v

-- The commands for one architecture and libc.
unfoldable pub runs_of : Text → Text → PythonSpec → List ContainerRun
unfolding group_by sort_pairs with_libc with_underscore join sort_texts text_eq
runs_of arch libc spec =
    map
      (λ (v, pythons). record {
        libc = libc;
        version = with_underscore v;
        arch = arch;
        prefix = if text_eq arch (codes "i686") then codes "linux32" else [];
        pythons = join b' ' (sort_texts pythons);
      })
      (group_by (sort_pairs (with_libc libc spec)))

-- The commands for a package; `none` is the `KeyError` of an architecture with no specification.
unfoldable pub container_runs : List (Text × PythonSpec) → List Text → Option (List ContainerRun)
unfolding at_key runs_of
container_runs specs [] = some []
container_runs specs (arch ∷ arches) = at_key arch specs >>= λ spec.
    container_runs specs arches >>= λ rest.
    some (runs_of arch (codes "manylinux") spec ++ runs_of arch (codes "musllinux") spec ++ rest)
