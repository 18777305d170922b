-- ===== src/Cdb/Maker/Holds.antt =====
-- What a maker holds after records were added: their bytes, their slots and the size of the file.
use cdbx.Base.{
  ℕ, suc, ◌+◌, ◌*◌, ◌≤◌, ◌<◌, ◌≡◌, inl, inr, refl, sym, ap, ◌∙◌, Bool, true, false, List, [], ◌∷◌,
  ◌++◌, length, length-append, append_assoc, append-nil, arith, Bool-cases,
}
use mathlib.Core.List.{reverse, reverse-cons}
use cdbx.Cdb.Word.{Bytes, u32, pack}
use cdbx.Cdb.Arrays.{filter}
use cdbx.Cdb.Hash.{hash_mem}
use cdbx.Cdb.Slots.{Slot}
use cdbx.Cdb.Sort.{count_in}
use cdbx.Cdb.Writer.{Fits, content}
use cdbx.Cdb.Maker.{Maker, max_off, create, lacks, block_size}
use cdbx.Cdb.Maker.Lists.{stored}

-- A key and a value, as bytes.
abbrev pub Rec : Type 0
Rec = Bytes × Bytes

abbrev pub rec_size : Rec → ℕ
rec_size (k, v) = 8 + length k + length v

-- A record in the file.
unfoldable pub encode : Rec → Bytes
unfolding pack
encode (k, v) = (pack (length k) ++ pack (length v)) ++ k ++ v

unfoldable pub data_of : List Rec → Bytes
unfolding encode
data_of [] = []
data_of (r ∷ recs) = encode r ++ data_of recs

-- The slots of records that stand from an offset on.
unfoldable pub slots_of : ℕ → List Rec → List Slot
unfolding hash_mem
slots_of off [] = []
slots_of off ((k, v) ∷ recs) =
    record { hash = hash_mem k; offset = off } ∷ slots_of (off + (8 + length k + length v)) recs

abbrev pub data_size : List Rec → ℕ
data_size [] = 0
data_size (r ∷ recs) = rec_size r + data_size recs

-- The size of the whole file: the main table, the records, and two slots for each.
abbrev pub file_size : List Rec → ℕ
file_size recs = 2048 + data_size recs + 16 * length recs

abbrev pub max_size : ℕ
max_size = 4294967296

pub record Holds (m : Maker) (recs : List Rec) : Type 0 where
  pub bytes_eq : content m.writer ≡ data_of recs
  pub fits : Fits m.writer
  pub offset_eq : m.offset ≡ 2048 + data_size recs
  pub size_eq : m.size ≡ u32 (file_size recs)
  pub bounded : file_size recs ≤ max_size
  pub slots : stored m.slot_lists m.slot_list_index ≡ reverse (slots_of 2048 recs)
  pub index_le : m.slot_list_index ≤ block_size
  pub counts : (j : ℕ) → m.slot_counts j ≡ count_in j (stored m.slot_lists m.slot_list_index)

pub create-Holds : Holds create []
unfolding data_of slots_of stored filter
create-Holds = record {
  bytes_eq = refl;
  fits = omega arith;
  offset_eq = refl;
  size_eq = refl;
  bounded = omega arith;
  slots = refl;
  index_le = omega arith;
  counts = λ j. refl;
}

-- The guard passes exactly as long as the file stays within 32 bit offsets.
pub lacks-no : (len n : ℕ) → 0 < n → n + len ≤ max_size → lacks len (u32 n) ≡ false
unfolding lacks
lacks-no len n h l = ground arith

pub lacks-yes :
    (len n : ℕ)
    → 0 < n
    → n ≤ max_size
    → len ≤ max_off
    → max_size < n + len
    → lacks len (u32 n) ≡ true
unfolding lacks
lacks-yes len n h hn hl l = ground arith

pub slots_of-snoc :
    (off : ℕ) (recs : List Rec) (k v : Bytes)
    → slots_of off (recs ++ (k, v) ∷ [])
      ≡ slots_of off recs ++ record { hash = hash_mem k; offset = off + data_size recs } ∷ []
unfolding slots_of
slots_of-snoc off [] k v = ap (λ i. record { hash = hash_mem k; offset = i } ∷ []) (omega arith)
slots_of-snoc off ((k', v') ∷ recs) k v = ap (◌∷◌ (record { hash = hash_mem k'; offset = off })) (
    slots_of-snoc (off + (8 + length k' + length v')) recs k v
    ∙ ap
        (λ i.
          slots_of (off + (8 + length k' + length v')) recs
          ++ record { hash = hash_mem k; offset = i } ∷ [])
        (omega arith))

pub data_size-snoc :
    (recs : List Rec) (r : Rec) → data_size (recs ++ r ∷ []) ≡ data_size recs + rec_size r
data_size-snoc [] r = omega arith
data_size-snoc (x ∷ recs) r = omega (arith, data_size-snoc recs r)

pub data_of-snoc : (recs : List Rec) (r : Rec) → data_of (recs ++ r ∷ []) ≡ data_of recs ++ encode r
unfolding data_of
data_of-snoc [] r = append-nil (encode r)
data_of-snoc (x ∷ recs) r =
    ap (λ l. encode x ++ l) (data_of-snoc recs r)
    ∙ sym (append_assoc (encode x) (data_of recs) (encode r))

pub length-filter_le : (p : Slot → Bool) (xs : List Slot) → length (filter p xs) ≤ length xs
unfolding filter
length-filter_le p [] = omega arith
length-filter_le p (x ∷ xs) = elim (Bool-cases (p x)) [
  | inl h ↦ rw h (omega (arith, length-filter_le p xs))
  | inr h ↦ rw h (omega (arith, length-filter_le p xs))
]

pub length-slots_of : (off : ℕ) (recs : List Rec) → length (slots_of off recs) ≡ length recs
unfolding slots_of
length-slots_of off [] = refl
length-slots_of off ((k, v) ∷ recs) =
    ap suc (length-slots_of (off + (8 + length k + length v)) recs)

pub length-reverse : (xs : List Slot) → length (reverse xs) ≡ length xs
length-reverse [] = refl
length-reverse (x ∷ xs) =
    let e = length-append (reverse xs) (x ∷ []) in
    omega (arith, ap length (reverse-cons x xs), e, length-reverse xs)
