-- ===== src/Setup.antt =====
-- setup.py: the macros and dependencies of the extension, the version that is read from the
-- package, the compiler flags and the list of packages. The commands that `setuptools` runs on them
-- are not modelled. A `none` is an exception.

use cdbx.Base.{
  Bool, false, not, ◌&&◌, List, [], ◌∷◌, ◌++◌, map, Option, none, some, Text, codes, ◌==◌,
  if◌then◌else◌, starts_with, strip, all, any, text_eq, mem_text, length, join,
}
use cdbx.Shell.Format.{◌>>=◌}
use cdbx.Wheels.{words}
use cdbx.Wheels.Tags.{split_on, has_text}

-- The attributes of an `Extension` that the code uses.
pub record Extension : Type 0 where
  pub name : Text
  pub define_macros : List (Text × Text)
  pub undef_macros : List Text
  pub include_dirs : List Text
  pub depends : List Text
  pub extra_compile_args : List Text
  pub libraries : List Text

unfoldable pub has_macro : Text → List (Text × Text) → Bool
has_macro key macros = any (λ m. text_eq m.0 key) macros

-- `dict(ext.undef_macros or ())` reads each name as a pair, so it wants two characters; none of its
-- keys then is `EXT_PACKAGE`.
unfoldable pub are_pairs : List Text → Bool
are_pairs names = all (λ n. length n == 2) names

-- `".".join(tup[:-1]), tup[-1]`
unfoldable pub init_of : List Text → List Text
init_of [] = []
init_of (t ∷ []) = []
init_of (t ∷ u ∷ ts) = t ∷ init_of (u ∷ ts)

unfoldable pub final_part : List Text → Text
final_part [] = []
final_part (t ∷ []) = t
final_part (t ∷ u ∷ ts) = final_part (u ∷ ts)

-- `pkg, mod`, of the parts of the name
unfoldable pub package_of : List Text → Option Text
unfolding init_of join
package_of [] = none
package_of (t ∷ []) = none
package_of (t ∷ u ∷ ts) = some (join b'.' (init_of (t ∷ u ∷ ts)))

unfoldable pub define : Text → Text → List (Text × Text) → List (Text × Text) → List (Text × Text)
unfolding has_macro text_eq
define key value known macros = if has_macro key known then macros else macros ++ (key, value) ∷ []

unfoldable pub undefine_package : Extension → Option Extension
unfolding are_pairs
undefine_package ext =
    if are_pairs ext.undef_macros
    then some (record ext { undef_macros = ext.undef_macros ++ codes "EXT_PACKAGE" ∷ [] })
    else none

unfoldable pub with_macros : Option Text → Text → Extension → Option Extension
unfolding define undefine_package
with_macros (some pkg) module_name ext = some (record ext {
  define_macros =
      define (codes "EXT_MODULE") module_name ext.define_macros
        (define (codes "EXT_PACKAGE") pkg ext.define_macros ext.define_macros);
})
with_macros none module_name ext = undefine_package (record ext {
  define_macros = define (codes "EXT_MODULE") module_name ext.define_macros ext.define_macros;
})

-- `build_extension(self, ext)`, before it hands the extension on
unfoldable pub name_macros : Extension → Option Extension
unfolding with_macros package_of final_part split_on
name_macros ext =
    let tup = split_on b'.' ext.name in with_macros (package_of tup) (final_part tup) ext

-- `posixpath.normpath`, on the components; the path so far is held backwards.
abbrev go_up : Bool → List Text → List Text
go_up absolute [] = if absolute then [] else codes ".." ∷ []
go_up absolute (d ∷ done) = if text_eq d (codes "..") then codes ".." ∷ d ∷ done else done

unfoldable pub norm_parts : Bool → List Text → List Text → List Text
unfolding text_eq
norm_parts absolute done [] = done
norm_parts absolute done (c ∷ cs) =
    norm_parts absolute
      (if text_eq c []
        then done
        else if text_eq c (codes ".")
        then done
        else if text_eq c (codes "..")
        then go_up absolute done
        else c ∷ done)
      cs

-- `normpath(item) == cext_h`, which is `cext.h`
unfoldable pub is_cext_h : Text → Bool
unfolding norm_parts split_on text_eq
is_cext_h item =
    let absolute = starts_with (codes "/") item in
    not absolute && elim (norm_parts absolute [] (split_on b'/' item)) [
      | [] ↦ false
      | p ∷ ps ↦ text_eq p (codes "cext.h") && text_eq (join b'/' ps) []
    ]

-- `Extension.__init__`, behind the one of `setuptools`
unfoldable pub init_extension : Text → Extension → Extension
unfolding is_cext_h mem_text
init_extension version ext = record ext {
  define_macros = ext.define_macros ++ (codes "EXT_VERSION", version) ∷ [];
  include_dirs =
      if mem_text (codes ".") ext.include_dirs
      then ext.include_dirs
      else ext.include_dirs ++ codes "." ∷ [];
  depends = if any is_cext_h ext.depends then ext.depends else ext.depends ++ codes "cext.h" ∷ [];
}

-- `line.split("=", 1)[1]`
unfoldable pub after_equals : Text → Option Text
after_equals [] = none
after_equals (c ∷ s) = let rest = after_equals s in if c == b'=' then some s else rest

unfoldable pub but_last : Text → Text
but_last [] = []
but_last (c ∷ []) = []
but_last (c ∷ d ∷ s) = c ∷ but_last (d ∷ s)

-- `if version.startswith(("'", '"')): version = version[1:-1].strip()`
unfoldable pub unquote_version : Text → Text
unfolding but_last strip
unquote_version [] = []
unquote_version (c ∷ s) =
    if c == 39 then strip (but_last s) else if c == 34 then strip (but_last s) else c ∷ s

-- The search for the version in `setup`; `none` is an exception, also where no line is found.
unfoldable pub find_version : List Text → Option Text
unfolding after_equals unquote_version strip
find_version [] = none
find_version (line ∷ lines) =
    let rest = find_version lines in
    if starts_with (codes "__version__") line
    then (after_equals line >>= λ value. some (unquote_version (strip value)))
    else rest

unfoldable pub flag_lines : List Text → List Text
unfolding strip text_eq
flag_lines [] = []
flag_lines (line ∷ lines) =
    let rest = flag_lines lines in
    let stripped = strip line in
    if not (text_eq stripped []) && not (starts_with (codes "#") stripped)
    then stripped ∷ rest
    else rest

-- `" ".join([...]).split()`
unfoldable pub read_cflags : List Text → List Text
unfolding flag_lines words join
read_cflags lines = words (join b' ' (flag_lines lines))

-- The loop over the extensions, `if cflags`.
unfoldable pub add_cflags : List Text → Extension → Extension
unfolding has_text join
add_cflags cflags ext = record ext {
  extra_compile_args = ext.extra_compile_args ++ cflags;
  libraries =
      if has_text (codes "coverage") (join b' ' cflags)
      then ext.libraries ++ codes "gcov" ∷ []
      else ext.libraries;
}

unfoldable pub with_cflags : List Text → List Extension → List Extension
unfolding add_cflags
with_cflags [] extensions = extensions
with_cflags (f ∷ cflags) extensions = map (add_cflags (f ∷ cflags)) extensions

-- `[package["top"]] + [...]`
unfoldable pub packages : Text → List Text → List Text
packages top found = top ∷ map (λ item. top ++ b'.' ∷ item) found
