-- ===== src/Wheels/Best.antt =====
-- Which tag `_best_manylinux` picks.
use cdbx.Base.{ℕ, ◌≡◌, false, List, [], ◌∷◌, some, Text, In, All}
use cdbx.Wheels.Tags.{tags_of, tag_version, version_lt}

-- The picked tag is no later than any other.
pub record IsBest (name tag : Text) : Type 0 where
  pub version : List ℕ
  pub in_tags : In tag (tags_of name)
  pub version_eq : tag_version tag ≡ some version
  pub least :
      All
        (λ t. (w : List ℕ) × (tag_version t ≡ some w) × (version_lt w version ≡ false))
        (tags_of name)

abbrev NoneBelow : List ℕ × Text → List (List ℕ × Text) → Type 0
NoneBelow m entries = All (λ e. version_lt e.0 m.0 ≡ false) entries

-- The entry of a tag.
pub record IsEntry (tag : Text) (e : List ℕ × Text) : Type 0 where
  pub tag_eq : e.1 ≡ tag
  pub version_eq : tag_version tag ≡ some e.0

abbrev Lists : List Text → List (List ℕ × Text) → Type 0
Lists [] [] = Unit
Lists [] (e ∷ entries) = ⊥
Lists (t ∷ tags) [] = ⊥
Lists (t ∷ tags) (e ∷ entries) = IsEntry t e × Lists tags entries
