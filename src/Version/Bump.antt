-- ===== src/Version/Bump.antt =====
-- The order of release numbers, and the versions that `plus_1` separates.
use cdbx.Base.{
  ℕ, zero, suc, ◌<◌, ◌≡◌, ◌↔◌, refl, Bool, true, false, ◌&&◌, ◌||◌, List, [], ◌∷◌, ◌==◌, ltb,
  length, arith,
}
use cdbx.Version.{Which, from_end, from_start, bump_index, bump_at, bump}

-- Release numbers are compared from the left; missing numbers are zeros (PEP 440).
unfoldable pub release_lt : List ℕ → List ℕ → Bool
release_lt [] [] = false
release_lt [] (m ∷ ms) = ltb 0 m || release_lt [] ms
release_lt (n ∷ ns) [] = false
release_lt (n ∷ ns) (m ∷ ms) = ltb n m || (n == m && release_lt ns ms)

-- The first `k` numbers of `ns` and `ms` agree.
abbrev pub Agree : ℕ → List ℕ → List ℕ → Type 0
Agree zero ns ms = Unit {0}
Agree (suc k) [] ms = Unit {0}
Agree (suc k) (n ∷ ns) [] = (n ≡ 0) × Agree k ns []
Agree (suc k) (n ∷ ns) (m ∷ ms) = (n ≡ m) × Agree k ns ms

release_lt-nil : (ns : List ℕ) → release_lt ns [] ≡ false
unfolding release_lt
release_lt-nil [] = refl
release_lt-nil (n ∷ ns) = refl

bump_at_below :
    (i : ℕ) (ns ms : List ℕ)
    → i < length ns
    → release_lt ms ns ≡ false
    → release_lt ms (bump_at i ns) ≡ true
    → Agree (suc i) ns ms
unfolding release_lt bump_at
bump_at_below i [] ms h ge lt = absurd (omega arith)
bump_at_below zero (n ∷ ns) [] h ge lt = ground arith
bump_at_below zero (n ∷ ns) (m ∷ ms) h ge lt = ground (arith, release_lt-nil ms)
bump_at_below (suc i) (n ∷ ns) [] h ge lt = ground (arith, bump_at_below i ns [])
bump_at_below (suc i) (n ∷ ns) (m ∷ ms) h ge lt = ground (arith, bump_at_below i ns ms)

bump_at_above :
    (i : ℕ) (ns ms : List ℕ)
    → i < length ns
    → Agree (suc i) ns ms
    → release_lt ms (bump_at i ns) ≡ true
unfolding release_lt bump_at
bump_at_above i [] ms h a = absurd (omega arith)
bump_at_above zero (n ∷ ns) [] h a = ground arith
bump_at_above zero (n ∷ ns) (m ∷ ms) h a = ground arith
bump_at_above (suc i) (n ∷ ns) [] h a = ground (arith, bump_at_above i ns [])
bump_at_above (suc i) (n ∷ ns) (m ∷ ms) h a = ground (arith, bump_at_above i ns ms)

bump_index-lt : (which : Which) (n : ℕ) → 0 < n → bump_index which n < n
unfolding bump_index
bump_index-lt (from_end k) n h = ground arith
bump_index-lt (from_start i) n h = ground arith

-- Of the versions that are not below `ns`, exactly those are below `bump which ns` that agree
-- with `ns` up to the changed number.
pub bump_limit :
    (which : Which) (ns ms : List ℕ)
    → 0 < length ns
    → release_lt ms ns ≡ false
    → (release_lt ms (bump which ns) ≡ true) ↔ Agree (suc (bump_index which (length ns))) ns ms
unfolding bump
bump_limit which ns ms h ge = (
  bump_at_below _ ns ms (bump_index-lt which _ h) ge,
  bump_at_above _ ns ms (bump_index-lt which _ h),
)
