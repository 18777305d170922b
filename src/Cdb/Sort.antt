-- ===== src/Cdb/Sort.antt =====
-- The distribution of all slots to their buckets in `cdbx_cdb32_maker_commit`.
pub mod Buckets
use cdbx.Base.{
  ℕ, zero, suc, ◌+◌, ◌-◌, ◌%◌, ◌≤◌, ◌<◌, ◌≡◌, ◌≢◌, ◌⊎◌, inl, inr, refl, sym, ap, ◌∙◌, Bool, true,
  false, List, [], ◌∷◌, ◌++◌, ◌==◌, leb, length, if◌then◌else◌, arith, Bool-cases,
}
use mathlib.Core.List.{reverse, reverse-cons, append_assoc, append-nil}
use cdbx.Cdb.Word.{u32}
use cdbx.Cdb.Arrays.{filter, filter-yes, filter-no, filter-append, filter-reverse}
use cdbx.Cdb.Slots.{Slot}

-- An array whose content matters only where it was written to.
module _ {ℓ} {A : Type ℓ} where
  -- `a[i] = x`
  unfoldable pub update : (ℕ → A) → ℕ → A → ℕ → A
  update a i x j = if j == i then x else a j

  -- `a[from], ..., a[from + k - 1]`
  unfoldable pub segment : (ℕ → A) → ℕ → ℕ → List A
  segment a from zero = []
  segment a from (suc k) = a from ∷ segment a (suc from) k

  pub update-same : (a : ℕ → A) (i : ℕ) (x : A) → update a i x i ≡ x
  unfolding update
  update-same a i x = let e : (i == i) ≡ true = ground arith in rw e refl

  pub update-other : (a : ℕ → A) (i j : ℕ) (x : A) → j ≢ i → update a i x j ≡ a j
  unfolding update
  update-other a i j x ne = let e : (j == i) ≡ false = ground arith in rw e refl

  pub segment-update_other :
      (a : ℕ → A) (i : ℕ) (x : A) (from k : ℕ)
      → (i < from) ⊎ (from + k ≤ i)
      → segment (update a i x) from k ≡ segment a from k
  unfolding segment
  segment-update_other a i x from zero h = refl
  segment-update_other a i x from (suc k) h =
      let ne : from ≢ i = ground arith in
      rw (update-other a i from x ne)
        (ap (◌∷◌ (a from)) (segment-update_other a i x (suc from) k (ground arith)))

  pub segment-update_first :
      (a : ℕ → A) (i : ℕ) (x : A) (k : ℕ)
      → segment (update a i x) i (suc k) ≡ x ∷ segment a (suc i) k
  unfolding segment
  segment-update_first a i x k =
      rw (update-same a i x) (ap (◌∷◌ x) (segment-update_other a i x (suc i) k (inl (omega arith))))

-- `hash & 0xFF`
abbrev pub bucket_of : Slot → ℕ
bucket_of s = s.hash % 256

abbrev pub in_bucket : ℕ → Slot → Bool
in_bucket j s = bucket_of s == j

-- The number of slots in the buckets below `j`, as the first loop adds it up.
unfoldable pub total : (ℕ → ℕ) → ℕ → ℕ
total counts zero = 0
total counts (suc j) = u32 (total counts j + counts j)

-- `starts[j] = count`
abbrev pub starts_of : (ℕ → ℕ) → ℕ → ℕ
starts_of counts j = total counts (suc j)

-- `sorted[--starts[hash & 0xFF]] = slot` for all slots, the latest first.
unfoldable pub distribute : List Slot → (ℕ → ℕ) → (ℕ → Slot) → ℕ → Slot
unfolding update
distribute [] starts sorted = sorted
distribute (s ∷ todo) starts sorted =
    let place = u32 (starts (bucket_of s) + 4294967295) in
    distribute todo (update starts (bucket_of s) place) (update sorted place s)

-- The buckets one behind the other, without wrap-around.
unfoldable pub plain_total : (ℕ → ℕ) → ℕ → ℕ
plain_total counts zero = 0
plain_total counts (suc j) = plain_total counts j + counts j

pub plain_total-le :
    (counts : ℕ → ℕ) (i j : ℕ) → i ≤ j → plain_total counts i ≤ plain_total counts j
unfolding plain_total
plain_total-le counts i zero h =
    let e : i ≡ 0 = omega arith in omega (arith, ap (plain_total counts) e)
plain_total-le counts i (suc j) h = elim (Bool-cases (i == suc j)) [
  | inl k ↦ let e : i ≡ suc j = ground arith in omega (arith, ap (plain_total counts) e)
  | inr k ↦ let l : i ≤ j = ground arith in omega (arith, plain_total-le counts i j l)
]

pub total-plain_total :
    (counts : ℕ → ℕ) (j k : ℕ)
    → j ≤ k
    → plain_total counts k < 4294967296
    → total counts j ≡ plain_total counts j
unfolding total plain_total
total-plain_total counts zero k h b = refl
total-plain_total counts (suc j) k h b =
    let ih = total-plain_total counts j k (omega (arith, h)) b in
    let le = plain_total-le counts (suc j) k h in omega (arith, ih, le, b)

abbrev pub count_in : ℕ → List Slot → ℕ
count_in j xs = length (filter (in_bucket j) xs)
