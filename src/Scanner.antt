-- ===== src/Scanner.antt =====
-- tasks/deps/_inspect/_index.py: `PackageScanner`. The versions and their order, and the answers
-- of the package index, come from other packages and are parameters.
pub mod Bounds
pub mod Choice
use cdbx.Base.{
  ℕ, ◌≡◌, Bool, true, false, not, ◌&&◌, ◌||◌, List, [], ◌∷◌, ◌++◌, map, Option, none, some, Text,
  if◌then◌else◌,
}

-- `packaging.version.Version`: `lt` is `<` and the other comparisons follow from it, `same` is
-- `==`, which different spellings of a version satisfy, `show` is `str`.
pub record Versions : Type 1 where
  pub V : Type 0
  pub lt : V → V → Bool
  pub same : V → V → Bool
  pub is_prerelease : V → Bool
  pub show : V → Text
  pub same_trans : (a b c : V) → same a b ≡ true → same b c ≡ true → same a c ≡ true
  pub same_refl : (a : V) → same a a ≡ true
  pub lt_irrefl : (a : V) → lt a a ≡ false
  pub ge_trans : (a b c : V) → lt a b ≡ false → lt b c ≡ false → lt a c ≡ false
  pub ge_of_gt : (a b : V) → lt a b ≡ true → lt b a ≡ false

pub data Operator : Type 0 where
  arbitrary equal not_equal compatible less less_equal greater greater_equal : Operator

pub record Spec : Type 0 where
  pub operator : Operator
  pub version : Text

-- What the scanner uses of a requirement.
pub record Requirement : Type 0 where
  pub name : Text
  pub specifier : List Spec

pub data Field : Type 0 where
  unchanged compatible latest : Field

module _ (vs : Versions) where
  open vs use {V, lt, same, is_prerelease, show}

  -- `_version`, and the keys of `_result`.
  pub record Scanner : Type 0 where
    pub installed : Option V
    pub unchanged : Option V
    pub compatible : Option V
    pub latest : Option V

  -- The package index: `best_match` as a version, and whether a specifier set can be parsed.
  pub record Index : Type 0 where
    pub lookup : Requirement → Option V
    pub valid : List Spec → Bool

-- `operator == "=="` becomes `"~="`.
unfoldable pub compat_spec : Spec → Spec
compat_spec s = elim s.operator [
  | Operator.equal ↦ record s { operator = Operator.compatible }
  | _ ↦ s
]

module _ (vs : Versions) where
  open vs use {V, lt, same, is_prerelease, show}

  unfoldable pub scanner : Option V → Scanner vs
  scanner version = record {
    installed = version;
    unchanged = none;
    compatible = none;
    latest = none;
  }

  unfoldable pub get : Scanner vs → Field → Option V
  get s unchanged = s.unchanged
  get s compatible = s.compatible
  get s latest = s.latest

  unfoldable pub put : Scanner vs → Field → V → Scanner vs
  put s unchanged v = record s { unchanged = some v }
  put s compatible v = record s { compatible = some v }
  put s latest v = record s { latest = some v }

  -- `self._version is None or dist_version >= self._version`
  unfoldable pub not_below : Option V → V → Bool
  not_below none v = true
  not_below (some w) v = not (lt v w)

  -- `self._result.get(field) is None or dist_version > self._result[field]`
  unfoldable pub above : Option V → V → Bool
  above none v = true
  above (some w) v = lt w v

  -- `_update_field` behind the lookup: the scanner, and the prerelease that it returns.
  unfoldable pub update_with : Field → Option V → Scanner vs → Scanner vs × Option V
  unfolding get put not_below above
  update_with field none s = (s, none)
  update_with field (some v) s =
      if is_prerelease v
      then (s, some v)
      else if not_below s.installed v && above (get s field) v
      then (put s field v, none)
      else (s, none)

  module _ (index : Index vs) where
    unfoldable pub update_field : Field → Requirement → Scanner vs → Scanner vs × Option V
    unfolding update_with
    update_field field req = update_with field (index.lookup req)

    unfoldable pub find_compat : Requirement → Scanner vs → Scanner vs
    unfolding update_field compat_spec
    find_compat req s =
        let specs = map compat_spec req.specifier in
        if index.valid specs
        then (update_field compatible (record req { specifier = specs }) s).0
        else s

    -- `">=%s" % (self._version,)`, or nothing
    unfoldable pub from_installed : Option V → List Spec
    from_installed none = []
    from_installed (some v) = record { operator = greater_equal; version = show v } ∷ []

    -- The second attempt below the prerelease that the first one found.
    unfoldable pub retry_latest : Requirement → Scanner vs × Option V → Scanner vs
    unfolding update_field from_installed
    retry_latest req (s, none) = s
    retry_latest req (s, some v) =
        (update_field latest
          (record req {
            specifier =
                from_installed s.installed ++ record { operator = less; version = show v } ∷ [];
          })
          s).0

    unfoldable pub find_latest : Requirement → Scanner vs → Scanner vs
    unfolding retry_latest
    find_latest req s =
        retry_latest req
          (update_field latest (record req { specifier = from_installed s.installed }) s)

    unfoldable pub inspect : Requirement → Scanner vs → Scanner vs
    unfolding find_compat find_latest
    inspect req s = find_latest req (find_compat req (update_field unchanged req s).0)

    -- The loop over the places of a package.
    unfoldable pub inspect_all : List Requirement → Scanner vs → Scanner vs
    unfolding inspect
    inspect_all [] s = s
    inspect_all (r ∷ rs) s = inspect_all rs (inspect r s)

  unfoldable pub equal_versions : Option V → Option V → Bool
  equal_versions (some a) (some b) = same a b
  equal_versions _ _ = false

  -- The fields that `result()` keeps: one that repeats the one before it is left out.
  unfoldable pub kept : Scanner vs → Field → Option V
  unfolding equal_versions
  kept s unchanged = s.unchanged
  kept s compatible = if equal_versions s.compatible s.unchanged then none else s.compatible
  kept s latest = if equal_versions s.latest s.compatible then none else s.latest

  unfoldable pub show_version : Option V → Option Text
  show_version none = none
  show_version (some v) = some (show v)

  -- `result()`
  unfoldable pub result : Scanner vs → Field → Option Text
  unfolding kept show_version
  result s field = show_version (kept s field)
