-- ===== src/Tests/Merge.antt =====
-- The dictionaries of tasks/_inv/util.py.
use cdbx.Base.{ℕ, ◌≡◌, refl, some, none, codes, text_eq}
use cdbx.Merge.{Dict, leaf, nested, empty, item, find_key, merge}
use cdbx.Merge.Lookup.{HasDistinctKeys, FindsMerged, merge-FindsMerged}

abbrev defaults : Dict ℕ
defaults =
    item (codes "a") (leaf 1) (item (codes "n") (nested (item (codes "x") (leaf 2) empty)) empty)

abbrev settings : Dict ℕ
settings = item (codes "n") (nested (item (codes "y") (leaf 3) empty)) empty

abbrev merged : Dict ℕ
merged =
    item (codes "a") (leaf 1) (
      item (codes "n") (nested (item (codes "x") (leaf 2) (item (codes "y") (leaf 3) empty))) empty)

merge-settings : merge defaults settings ≡ some merged
unfolding merge text_eq
merge-settings = refl

-- A dictionary does not merge into another value.
merge_fails : merge (item (codes "n") (leaf 1) empty) settings ≡ none
unfolding merge text_eq
merge_fails = refl

distinct : HasDistinctKeys settings
unfolding find_key
distinct = (refl, tt)

merge-FindsMerged_example :
    FindsMerged
      (find_key (codes "n") defaults)
      (find_key (codes "n") settings)
      (find_key (codes "n") merged)
merge-FindsMerged_example =
    merge-FindsMerged defaults settings merged distinct merge-settings (codes "n")
