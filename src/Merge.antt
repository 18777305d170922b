-- ===== src/Merge.antt =====
-- tasks/_inv/util.py: `dictmerge`. Both kinds of dictionaries count as one here; `none` is the
-- exception of a nested dictionary that meets a value that is none.
pub mod Lookup
use cdbx.Base.{List, [], ◌∷◌, Option, none, some, Text, if◌then◌else◌, text_eq}
use cdbx.Shell.Format.{◌>>=◌}

-- A value of a settings dictionary: a dictionary, or anything else.
mutual
  pub data Value (A : Type 0) : Type 0 where
    leaf : A → Value A
    nested : Dict A → Value A

  -- The items in their order; the first one of a key counts.
  pub data Dict (A : Type 0) : Type 0 where
    empty : Dict A
    item : Text → Value A → Dict A → Dict A

module _ {A : Type 0} where
  -- `dict1.get(key)`
  unfoldable pub find_key : Text → Dict A → Option (Value A)
  find_key key empty = none
  find_key key (item k v d) = if text_eq k key then some v else find_key key d

  -- `dict1[key] = value`
  unfoldable pub set_key : Text → Value A → Dict A → Dict A
  set_key key value empty = item key value empty
  set_key key value (item k v d) =
      let rest = set_key key value d in if text_eq k key then item k value d else item k v rest

  abbrev pub as_nested : Option (Dict A) → Option (Value A)
  as_nested none = none
  as_nested (some d) = some (nested d)

  -- `dictmerge(dict1, dict2)`, and the value that a key of `dict2` gets.
  unfoldable mutual
    unfolding find_key set_key

    pub merge : Dict A → Dict A → Option (Dict A)
    merge d empty = some d
    merge d (item k v rest) =
        merge_value (find_key k d) v >>= λ value. merge (set_key k value d) rest

    pub merge_value : Option (Value A) → Value A → Option (Value A)
    merge_value old (leaf a) = some (leaf a)
    merge_value none (nested d) = as_nested (merge empty d)
    merge_value (some (leaf a)) (nested d) = none
    merge_value (some (nested old)) (nested d) = as_nested (merge old d)
