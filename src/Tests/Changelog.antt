-- ===== src/Tests/Changelog.antt =====
-- A changelog of tasks/deps/_patch.py with all three buckets.
use cdbx.Base.{◌≡◌, refl, true, false, [], ◌∷◌, some, codes}
use cdbx.Changelog.{patch_updates}

three_buckets :
    patch_updates
      (codes "Pip" ∷ [])
      (record {
        is_text = false;
        changes =
            (codes "pip", codes "2" ∷ [])
            ∷ (codes "six", codes "2" ∷ codes "1" ∷ codes "2" ∷ [])
            ∷ [];
      }
        ∷ record { is_text = true; changes = (codes "tox", codes "4" ∷ []) ∷ [] }
        ∷ record { is_text = false; changes = (codes "foo", codes "9" ∷ []) ∷ [] }
        ∷ [])
      (some ((codes "foo", codes "9" ∷ []) ∷ []))
    ≡ record {
      boilerplate = (codes "pip", codes "2" ∷ []) ∷ (codes "tox", codes "4" ∷ []) ∷ [];
      update = (codes "six", codes "1" ∷ codes "2" ∷ []) ∷ [];
      support = (codes "foo", codes "9" ∷ []) ∷ [];
    }
unfolding patch_updates
three_buckets = refl
