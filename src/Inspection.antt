-- ===== src/Inspection.antt =====
-- `_find_installed`, `_find_editable`, `_find_editable_deps`, `_scan_toplevel` and
-- `inspect_dependencies` of tasks/deps/_inspect/_inspect.py. The output of `pip list`, the parser of
-- requirements, `isdir` and `importlib.metadata` are parameters; of the latter, an older Python's
-- substitutes are not modelled.
pub mod Gathered
pub mod Together
use cdbx.Base.{
  ℕ, ◌+◌, Bool, true, false, not, ◌&&◌, ◌||◌, List, [], ◌∷◌, ◌++◌, Option, none, some, Text, codes,
  ◌==◌, if◌then◌else◌, is_lower, is_upper, is_digit, text_eq, strip,
}
use cdbx.Shell.Format.{◌>>=◌}
use cdbx.Names.{normalize, is_separator}
use cdbx.Latest.Sorting.{sort_texts}
use cdbx.ReqFile.{
  Token, constraint, requirement, editable, index, Target, Outcome, done, raised, out_of_fuel,
}
use cdbx.ReqFile.Paths.{FilePath, resolve, dirname, path_eq}
use cdbx.ReqFile.Files.{Line}
use cdbx.Scanner.{Versions, Requirement, Index}
use cdbx.Places.{Markers, Place, Inspected, inspect_package}

-- An entry of `pip list`, and of the dict of installed packages.
pub record Installed : Type 0 where
  pub name : Text
  pub version : Text
  pub editable : Option Text

-- `^(?:NAME)$` behind a character of the name; the flag says that this is no separator. A line
-- break may follow, as `$` has it.
unfoldable pub name_rest : Bool → Text → Bool
unfolding is_lower is_upper is_digit is_separator
name_rest closed [] = closed
name_rest closed (c ∷ []) = is_lower c || is_upper c || is_digit c || (closed && c == 10)
name_rest closed (c ∷ d ∷ s) =
    let word = name_rest true (d ∷ s) in
    let gap = name_rest false (d ∷ s) in
    if is_lower c || is_upper c || is_digit c then word else if is_separator c then gap else false

unfoldable pub name_match : Text → Bool
unfolding name_rest
name_match [] = false
name_match (c ∷ s) = (is_lower c || is_upper c || is_digit c) && name_rest true s

-- `d[key] = value`
unfoldable pub dict_put {ℓ} : {A : Type ℓ} → Text → A → List (Text × A) → List (Text × A)
unfolding text_eq
dict_put key value [] = (key, value) ∷ []
dict_put key value ((k, v) ∷ d) =
    let rest = dict_put key value d in if text_eq k key then (k, value) ∷ d else (k, v) ∷ rest

-- `d.get(key)`
unfoldable pub dict_get {ℓ} : {A : Type ℓ} → Text → List (Text × A) → Option A
unfolding text_eq
dict_get key [] = none
dict_get key ((k, v) ∷ d) = let rest = dict_get key d in if text_eq k key then some v else rest

-- The loop of `_find_installed`; `none` is the failed `assert`.
unfoldable pub installed_from :
    List Installed → List (Text × Installed) → Option (List (Text × Installed))
unfolding name_match dict_put normalize
installed_from [] result = some result
installed_from (pkg ∷ found) result =
    let rest = installed_from found (dict_put (normalize pkg.name) pkg result) in
    if name_match pkg.name then rest else none

unfoldable pub find_installed : List Installed → Option (List (Text × Installed))
unfolding installed_from
find_installed found = installed_from found []

-- `value.split("[", 1)`
unfoldable pub before_bracket : Text → Text
before_bracket [] = []
before_bracket (c ∷ s) = let rest = before_bracket s in if c == b'[' then [] else c ∷ rest

unfoldable pub from_bracket : Text → Text
from_bracket [] = []
from_bracket (c ∷ s) = let rest = from_bracket s in if c == b'[' then c ∷ s else rest

-- `info["editable"]` points to the path.
unfoldable pub is_at : FilePath → Option Text → Bool
unfolding resolve path_eq
is_at path none = false
is_at path (some location) = path_eq (resolve [] location) path

-- The loop of `_find_editable`. The locations that `pip` gives are absolute.
unfoldable pub editable_at : FilePath → List (Text × Installed) → Option Text
unfolding is_at
editable_at path [] = none
editable_at path ((normname, info) ∷ installed) =
    let rest = editable_at path installed in
    if is_at path info.editable then some normname else rest

-- `installed.get(name, {}).get("version")`
unfoldable pub version_of : Option Installed → Option Text
version_of none = none
version_of (some info) = some info.version

-- The two keys of the dict that `_scan_toplevel` fills.
pub record Key : Type 0 where
  pub name : Text
  pub version : Option Text

unfoldable pub same_version : Option Text → Option Text → Bool
unfolding text_eq
same_version none none = true
same_version (some v) (some w) = text_eq v w
same_version none (some w) = false
same_version (some v) none = false

module _ (markers : Markers) where
  -- A parsed requirement, with its marker and its extras.
  pub record Parsed : Type 0 where
    pub content : Requirement
    pub marker : Option markers.Marker
    pub extras : List Text

  -- `req[key].append(place)`
  unfoldable pub add_place :
      Key → Place markers → List (Key × List (Place markers)) → List (Key × List (Place markers))
  unfolding same_version text_eq
  add_place key place [] = (key, place ∷ []) ∷ []
  add_place key place ((k, places) ∷ req) =
      let rest = add_place key place req in
      if text_eq k.name key.name && same_version k.version key.version
      then (k, places ++ place ∷ []) ∷ req
      else (k, places) ∷ rest

  -- `req` and `con`
  pub record Scan : Type 0 where
    pub req : List (Key × List (Place markers))
    pub con : List Target

  -- Of another package: `requirement`, `isdir`, and `requires(name) or ()`; `none` is an exception.
  module _ (parse : Text → Option Parsed) (is_dir : FilePath → Bool)
      (requires : Text → Option (List Text)) where
    -- `_find_editable(ctx, installed, spec)`
    unfoldable pub find_editable : List (Text × Installed) → Text → Line → Option Text
    unfolding editable_at before_bracket resolve dirname
    find_editable installed value line =
        let path = resolve (dirname line.file) (strip (before_bracket value)) in
        let found = editable_at path installed in if is_dir path then found else none

    unfoldable pub parse_all : List Text → Option (List Parsed)
    parse_all [] = some []
    parse_all (item ∷ items) = parse item >>= λ p. parse_all items >>= λ ps. some (p ∷ ps)

    -- `yield parsed, extras`
    unfoldable pub deps_of : Text → Text → Option (List Parsed × List Text)
    unfolding from_bracket parse_all sort_texts
    deps_of value pkg_name = parse (pkg_name ++ from_bracket value) >>= λ spec.
        requires pkg_name >>= λ items. parse_all items >>= λ ps. some (ps, sort_texts spec.extras)

    unfoldable pub deps_if : Text → Option Text → Option (List Parsed × List Text)
    unfolding deps_of
    deps_if value none = some ([], [])
    deps_if value (some pkg_name) = deps_of value pkg_name

    -- `_find_editable_deps(ctx, installed, spec)`
    unfoldable pub find_editable_deps :
        List (Text × Installed) → Text → Line → Option (List Parsed × List Text)
    unfolding deps_if find_editable
    find_editable_deps installed value line = deps_if value (find_editable installed value line)

    unfoldable pub key_of : List (Text × Installed) → Parsed → Key
    unfolding normalize version_of dict_get
    key_of installed p =
        let name = normalize p.content.name in
        record { name = name; version = version_of (dict_get name installed) }

    -- `for parsed, extras in _find_editable_deps(...)`
    unfoldable pub add_deps :
        List (Text × Installed)
        → List Text
        → List Parsed
        → List (Key × List (Place markers))
        → List (Key × List (Place markers))
    unfolding key_of add_place
    add_deps installed extras [] req = req
    add_deps installed extras (p ∷ ps) req = add_deps installed extras ps (
        add_place (key_of installed p)
          (record { requirement = p.content; marker = p.marker; extras = extras; line = none }) req)

    -- The body of the loop of `_scan_toplevel`.
    unfoldable pub scan_token : List (Text × Installed) → Token Parsed → Scan → Option Scan
    unfolding find_editable_deps add_deps key_of add_place
    scan_token installed (requirement p line) st = some (record st {
      req =
          add_place (key_of installed p)
            (record { requirement = p.content; marker = p.marker; extras = []; line = some line })
            st.req;
    })
    scan_token installed (editable value line) st =
        find_editable_deps installed value line >>= λ (ps, extras).
        some (record st { req = add_deps installed extras ps st.req })
    scan_token installed (constraint target line) st =
        some (record st { con = st.con ++ target ∷ [] })
    scan_token installed (index value line) st = some st

    unfoldable pub scan_tokens : List (Text × Installed) → List (Token Parsed) → Scan → Option Scan
    unfolding scan_token
    scan_tokens installed [] st = some st
    scan_tokens installed (t ∷ ts) st =
        scan_token installed t st >>= λ st1. scan_tokens installed ts st1

    -- `_scan_toplevel(ctx, req_files)` on the tokens of the files; `none` is an exception, or no fuel
    -- left for the files.
    unfoldable pub scan_outcome : List (Text × Installed) → Outcome parse → Option Scan
    unfolding scan_tokens
    scan_outcome installed (done ts) = scan_tokens installed ts (record { req = []; con = [] })
    scan_outcome installed raised = none
    scan_outcome installed out_of_fuel = none

    unfoldable pub scan_toplevel : List Installed → Outcome parse → Option Scan
    unfolding scan_outcome find_installed
    scan_toplevel found tokens = find_installed found >>= λ installed. scan_outcome installed tokens

    module _ (vs : Versions) (to_version : Text → vs.V) (packages : Index vs) where
      -- The dict comprehension of `inspect_dependencies`, from any dict on.
      unfoldable pub inspect_each :
          List (Key × List (Place markers)) → List (Text × Inspected) → List (Text × Inspected)
      unfolding inspect_package dict_put
      inspect_each [] deps = deps
      inspect_each ((key, places) ∷ req) deps = inspect_each req (
          dict_put key.name (inspect_package markers vs to_version packages key.version places)
            deps)

      -- `inspect_dependencies(ctx, config)`
      unfoldable pub inspect_dependencies :
          List Installed → Outcome parse → Option (List (Text × Inspected))
      unfolding scan_toplevel inspect_each
      inspect_dependencies found tokens =
          scan_toplevel found tokens >>= λ st. some (inspect_each st.req [])
