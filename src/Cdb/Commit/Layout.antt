-- ===== src/Cdb/Commit/Layout.antt =====
-- The layout of the file that `cdbx_cdb32_maker_commit` leaves.
use cdbx.Base.{
  ℕ, zero, suc, ◌+◌, ◌*◌, ◌<◌, ◌≡◌, inl, inr, refl, sym, ap, ◌∙◌, Bool, false, List, [], ◌∷◌, ◌++◌,
  ◌==◌, ltb, length, append_assoc, append-nil, if◌then◌else◌, arith, Bool-cases, All,
}
use mathlib.Core.List.{reverse, reverse-reverse}
use cdbx.Cdb.Word.{Bytes, u32, pack}
use cdbx.Cdb.Arrays.{filter, filter-yes, filter-no, filter-reverse}
use cdbx.Cdb.Slots.{Slot, is_free, slot_table}
use cdbx.Cdb.Slots.Order.{Placed, slot_table-Placed}
use cdbx.Cdb.Sort.{bucket_of, in_bucket, count_in, plain_total, total-plain_total, segment}
use cdbx.Cdb.Sort.Buckets.{distribute-buckets}
use cdbx.Cdb.Writer.{Writer, content, put, put-content}
use cdbx.Cdb.Maker.{Maker, fresh_block}
use cdbx.Cdb.Maker.Lists.{stored}
use cdbx.Cdb.Maker.Holds.{
  Rec, slots_of, data_size, max_size, Holds, length-filter_le, length-slots_of, length-reverse,
}
use cdbx.Cdb.Commit.{put_slots, sorted_slots}

-- Slots as bytes.
unfoldable pub bytes_of : List Slot → Bytes
unfolding pack
bytes_of [] = []
bytes_of (s ∷ slots) = (pack s.hash ++ pack s.offset) ++ bytes_of slots

pub put_slots-content :
    (slots : List Slot) (offset : ℕ) (w : Writer)
    → content (put_slots slots offset w).1 ≡ content w ++ bytes_of slots
unfolding put_slots bytes_of
put_slots-content [] offset w = sym (append-nil (content w))
put_slots-content (s ∷ slots) offset w =
    put_slots-content slots (u32 (offset + 8)) (put (pack s.hash ++ pack s.offset) w)
    ∙ ap (λ l. l ++ bytes_of slots) (put-content (pack s.hash ++ pack s.offset) w)
    ∙ append_assoc (content w) (pack s.hash ++ pack s.offset) (bytes_of slots)

pub put_slots-offset :
    (slots : List Slot) (offset : ℕ) (w : Writer)
    → (put_slots slots (u32 offset) w).0 ≡ u32 (offset + 8 * length slots)
unfolding put_slots
put_slots-offset [] offset w = ap u32 (omega arith)
put_slots-offset (s ∷ slots) offset w =
    let e : u32 (u32 offset + 8) ≡ u32 (offset + 8) = omega arith in
    ap (λ o. (put_slots slots o (put (pack s.hash ++ pack s.offset) w)).0) e
    ∙ put_slots-offset slots (offset + 8) (put (pack s.hash ++ pack s.offset) w)
    ∙ ap u32 (omega arith)

-- The buckets share out all slots.
one_if : ℕ → ℕ → ℕ
one_if b k = if ltb b k then 1 else 0

sum_cons :
    (s : Slot) (xs : List Slot) (k : ℕ)
    → plain_total (λ j. count_in j (s ∷ xs)) k
      ≡ plain_total (λ j. count_in j xs) k + one_if (bucket_of s) k
unfolding plain_total one_if
sum_cons s xs zero = ground arith
sum_cons s xs (suc k) = elim (Bool-cases (bucket_of s == k)) [
  | inl e ↦
      let yes = ap length (filter-yes (in_bucket k) s xs e) in ground (arith, sum_cons s xs k, yes)
  | inr e ↦
      let no = ap length (filter-no (in_bucket k) s xs e) in ground (arith, sum_cons s xs k, no)
]

sum_zero : (k : ℕ) → plain_total (λ j. count_in j []) k ≡ 0
unfolding plain_total filter
sum_zero zero = refl
sum_zero (suc k) = omega (arith, sum_zero k)

pub sum_counts : (xs : List Slot) → plain_total (λ j. count_in j xs) 256 ≡ length xs
sum_counts [] = sum_zero 256
sum_counts (s ∷ xs) =
    let one : one_if (bucket_of s) 256 ≡ 1 = unfold one_if in ground arith in
    omega (arith, sum_cons s xs 256, sum_counts xs, one)

-- What the file must hold: the slots of a bucket in the order of insertion, the length of its table,
-- its place and its content.
abbrev pub bucket : List Rec → ℕ → List Slot
bucket recs j = filter (in_bucket j) (slots_of 2048 recs)

abbrev pub count : List Rec → ℕ → ℕ
count recs j = length (bucket recs j)

abbrev pub place : List Rec → ℕ → ℕ
place recs j = 2048 + data_size recs + 16 * plain_total (count recs) j

abbrev pub table_of : List Rec → ℕ → List Slot
table_of recs j = slot_table (count recs j + count recs j) (bucket recs j)

-- The part of the main table for the buckets from `j` on, and their tables.
unfoldable pub entries : List Rec → ℕ → ℕ → Bytes
entries recs zero j = []
entries recs (suc left) j =
    (pack (u32 (place recs j)) ++ pack (count recs j + count recs j)) ++ entries recs left (suc j)

unfoldable pub tables : List Rec → ℕ → ℕ → Bytes
tables recs zero j = []
tables recs (suc left) j = bytes_of (table_of recs j) ++ tables recs left (suc j)

slots_of-used :
    (off : ℕ) (recs : List Rec) → 0 < off → All (λ s. is_free s ≡ false) (slots_of off recs)
unfolding slots_of
slots_of-used off [] h = tt
slots_of-used off ((k, v) ∷ recs) h =
    (ground arith, slots_of-used (off + (8 + length k + length v)) recs (omega (arith, h)))

pub All-filter :
    (P : Slot → Type 0) (p : Slot → Bool) (xs : List Slot) → All P xs → All P (filter p xs)
unfolding filter
All-filter P p [] h = tt
All-filter P p (x ∷ xs) (hx, h) = elim (Bool-cases (p x)) [
  | inl e ↦ rw e (hx, All-filter P p xs h)
  | inr e ↦ rw e (All-filter P p xs h)
]

pub table_of-Placed :
    (recs : List Rec) (j : ℕ)
    → Placed (count recs j + count recs j) (table_of recs j) (bucket recs j)
table_of-Placed recs j = slot_table-Placed (bucket recs j) (
    All-filter (λ s. is_free s ≡ false) (in_bucket j) (slots_of 2048 recs)
      (slots_of-used 2048 recs (omega arith)))

pub sum_count : (recs : List Rec) → plain_total (count recs) 256 ≡ length recs
sum_count recs = sum_counts (slots_of 2048 recs) ∙ length-slots_of 2048 recs

module _ (m : Maker) (recs : List Rec) (h : Holds m recs) where
  pub counts_eq : (j : ℕ) → m.slot_counts j ≡ count recs j
  counts_eq j =
      h.counts j
      ∙ ap (count_in j) h.slots
      ∙ ap length (filter-reverse (in_bucket j) (slots_of 2048 recs))
      ∙ length-reverse (bucket recs j)

  total_eq : (j : ℕ) → plain_total m.slot_counts j ≡ plain_total (count recs) j
  unfolding plain_total
  total_eq zero = refl
  total_eq (suc j) = omega (arith, total_eq j, counts_eq j)

  small : plain_total m.slot_counts 256 < 4294967296
  small = omega (arith, total_eq 256, sum_count recs, h.bounded)

  -- The loop takes the bucket's slots from the sorted ones.
  pub taken :
      (j : ℕ)
      → j < 256
      → segment (sorted_slots m) (plain_total (count recs) j) (m.slot_counts j) ≡ bucket recs j
  taken j l =
      ap (λ i. segment (sorted_slots m) i (m.slot_counts j))
        (sym (total_eq j) ∙ sym (total-plain_total m.slot_counts j 256 (omega (arith, l)) small))
      ∙ distribute-buckets m.slot_counts small (stored m.slot_lists m.slot_list_index) fresh_block
          (λ i _. h.counts i) j l
      ∙ ap (λ l. filter (in_bucket j) (reverse l)) h.slots
      ∙ ap (filter (in_bucket j)) (reverse-reverse (slots_of 2048 recs))

  pub count_small : (j : ℕ) → j < 256 → count recs j + count recs j < max_size
  count_small j l =
      let le = length-filter_le (in_bucket j) (slots_of 2048 recs) in
      omega (arith, le, length-slots_of 2048 recs, h.bounded)
