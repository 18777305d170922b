-- ===== src/Cdb/Committed.antt =====
-- What can be read from a committed file: the main table, the records, the slots.
pub mod Lookup
pub mod Roundtrip
use cdbx.Base.{
  ℕ, zero, suc, ◌+◌, ◌-◌, ◌*◌, ◌%◌, ◌≤◌, ◌<◌, ◌≡◌, ◌⊎◌, inl, inr, refl, sym, ap, ◌∙◌, Bool, List,
  [], ◌∷◌, ◌++◌, length, length-append, append-nil, arith, All,
}
use mathlib.Core.Path.{subst}
use cdbx.Cdb.Word.{Bytes, u32, pack, length-pack}
use cdbx.Cdb.Hash.{hash_mem-lt}
use cdbx.Cdb.Slots.{Slot, empty_slot, is_free}
use cdbx.Cdb.Slots.Walk.{at}
use cdbx.Cdb.Slots.Members.{OrEmpty, slot_table-All, at-All}
use cdbx.Cdb.Sort.{plain_total, plain_total-le, in_bucket}
use cdbx.Cdb.Maker.{ok}
use cdbx.Cdb.Maker.Holds.{Rec, data_of, data_size, slots_of, file_size, max_size, encode}
use cdbx.Cdb.Commit.Layout.{
  bytes_of, bucket, count, place, table_of, entries, tables, table_of-Placed, sum_count, All-filter,
}
use cdbx.Cdb.Commit.Result.{offset-lt}
use cdbx.Cdb.File.{Database, read_pointer, read_slot}
use cdbx.Cdb.File.Reads.{At, At-left, At-right, read_pointer-At, read_slot-At}
use cdbx.Cdb.Find.Records.{encode-length, Described, slots_of-Described}
use cdbx.Cdb.Find.Walks.{Table}

length-bytes_of : (slots : List Slot) → length (bytes_of slots) ≡ 8 * length slots
unfolding bytes_of pack
length-bytes_of [] = refl
length-bytes_of (s ∷ slots) = omega (arith, length-bytes_of slots)

length-entries : (recs : List Rec) (left j : ℕ) → length (entries recs left j) ≡ 8 * left
unfolding entries pack
length-entries recs zero j = refl
length-entries recs (suc left) j = omega (arith, length-entries recs left (suc j))

length-data_of : (recs : List Rec) → length (data_of recs) ≡ data_size recs
unfolding data_of
length-data_of [] = refl
length-data_of ((k, v) ∷ recs) =
    omega
      (arith, length-append (encode (k, v)) (data_of recs), encode-length k v, length-data_of recs)

slot-At :
    (file : Bytes) (off : ℕ) (slots : List Slot) (pos : ℕ)
    → At file off (bytes_of slots)
    → pos < length slots
    → At file (off + 8 * pos) (pack (at slots pos).hash ++ pack (at slots pos).offset)
unfolding bytes_of
slot-At file off [] pos h l = absurd (omega (arith, l))
slot-At file off (s ∷ slots) zero h l =
    subst (λ o. At file o (pack s.hash ++ pack s.offset)) (omega arith)
      (At-left file off (pack s.hash ++ pack s.offset) (bytes_of slots) h)
slot-At file off (s ∷ slots) (suc pos) h l =
    let eight : length (pack s.hash ++ pack s.offset) ≡ 8 = unfold pack in refl in
    subst (λ o. At file o (pack (at slots pos).hash ++ pack (at slots pos).offset))
      (omega (arith, eight))
      (slot-At file (off + length (pack s.hash ++ pack s.offset)) slots pos
        (At-right file off (pack s.hash ++ pack s.offset) (bytes_of slots) h) (omega (arith, l)))

-- The entry of a bucket in the main table.
abbrev entry : List Rec → ℕ → Bytes
entry recs j = pack (u32 (place recs j)) ++ pack (count recs j + count recs j)

entry-At :
    (file : Bytes) (recs : List Rec) (left j off i : ℕ)
    → At file off (entries recs left j)
    → i < left
    → At file (off + 8 * i) (entry recs (i + j))
unfolding entries
entry-At file recs zero j off i h l = absurd (omega (arith, l))
entry-At file recs (suc left) j off zero h l =
    let e : j ≡ 0 + j = omega arith in
    let o : off ≡ off + 8 * 0 = omega arith in
    subst (λ i. At file i (entry recs (0 + j))) o
      (subst (λ i. At file off (entry recs i)) e
        (At-left file off (entry recs j) (entries recs left (suc j)) h))
entry-At file recs (suc left) j off (suc i) h l =
    let e : i + suc j ≡ suc i + j = omega arith in
    let eight : length (entry recs j) ≡ 8 = unfold pack in refl in
    let o : off + length (entry recs j) + 8 * i ≡ off + 8 * suc i = omega (arith, eight) in
    subst (λ k. At file k (entry recs (suc i + j))) o
      (subst (λ k. At file (off + length (entry recs j) + 8 * i) (entry recs k)) e
        (entry-At file recs left (suc j) (off + length (entry recs j)) i
          (At-right file off (entry recs j) (entries recs left (suc j)) h) (omega (arith, l))))

table-At :
    (file : Bytes) (recs : List Rec) (left j i : ℕ)
    → At file (place recs j) (tables recs left j)
    → i < left
    → At file (place recs (i + j)) (bytes_of (table_of recs (i + j)))
unfolding tables
table-At file recs zero j i h l = absurd (omega (arith, l))
table-At file recs (suc left) j zero h l =
    let e : j ≡ 0 + j = omega arith in
    subst (λ i. At file (place recs i) (bytes_of (table_of recs i))) e
      (At-left file (place recs j) (bytes_of (table_of recs j)) (tables recs left (suc j)) h)
table-At file recs (suc left) j (suc i) h l =
    let e : i + suc j ≡ suc i + j = omega arith in
    let size = (table_of-Placed recs j).size in
    let o : place recs j + length (bytes_of (table_of recs j)) ≡ place recs (suc j) =
      unfold plain_total in omega (arith, size, length-bytes_of (table_of recs j)) in
    subst (λ i. At file (place recs i) (bytes_of (table_of recs i))) e
      (table-At file recs left (suc j) i
        (subst (λ o. At file o (tables recs left (suc j))) o
          (At-right file (place recs j) (bytes_of (table_of recs j)) (tables recs left (suc j)) h))
        (omega (arith, l)))

-- A file with the layout of these records.
module _ (db : Database) (recs : List Rec) (small : file_size recs ≤ max_size)
    (layout : db.file ≡ entries recs 256 0 ++ (data_of recs ++ tables recs 256 0)) where
  pub whole : At db.file 0 (entries recs 256 0 ++ (data_of recs ++ tables recs 256 0))
  whole = (
    [],
    [],
    layout ∙ sym (append-nil (entries recs 256 0 ++ (data_of recs ++ tables recs 256 0))),
    refl,
  )

  pub behind : At db.file 2048 (data_of recs ++ tables recs 256 0)
  behind =
      subst (λ o. At db.file o (data_of recs ++ tables recs 256 0))
        (omega (arith, length-entries recs 256 0))
        (At-right db.file 0 (entries recs 256 0) (data_of recs ++ tables recs 256 0) whole)

  place-le : (j : ℕ) → j < 256 → place recs j + 16 * count recs j ≤ max_size
  place-le j l =
      let le = plain_total-le (count recs) (suc j) 256 l in
      unfold plain_total in omega (arith, le, sum_count recs, small)

  count-lt : (j : ℕ) → j < 256 → count recs j + count recs j < 4294967296
  count-lt j l = omega (arith, place-le j l)

  pub pointer :
      (j : ℕ)
      → j < 256
      → read_pointer db (j * 8) ≡ ok (u32 (place recs j), count recs j + count recs j)
  pointer j l =
      let e : j + 0 ≡ j = omega arith in
      let o : 0 + 8 * j ≡ j * 8 = omega arith in
      read_pointer-At db (j * 8) (u32 (place recs j)) (count recs j + count recs j) (omega arith)
        (count-lt j l)
        (subst (λ k. At db.file k (entry recs j)) o
          (subst (λ k. At db.file (0 + 8 * j) (entry recs k)) e
            (entry-At db.file recs 256 0 0 j
              (At-left db.file 0 (entries recs 256 0) (data_of recs ++ tables recs 256 0) whole)
              l)))

  described : All (Described db recs) (slots_of 2048 recs)
  described =
      slots_of-Described db [] recs (At-left db.file 2048 (data_of recs) (tables recs 256 0) behind)
        (omega (arith, offset-lt recs small))

  slot-OrEmpty : (j pos : ℕ) → OrEmpty (Described db recs) (at (table_of recs j) pos)
  slot-OrEmpty j pos = at-All (Described db recs) (table_of recs j) pos (
      slot_table-All (Described db recs) (count recs j + count recs j) (bucket recs j)
        (All-filter (Described db recs) (in_bucket j) (slots_of 2048 recs) described))

  slot_bounds :
      (j pos : ℕ)
      → ((at (table_of recs j) pos).hash < 4294967296)
        × ((at (table_of recs j) pos).offset < 4294967296)
  slot_bounds j pos = elim (slot-OrEmpty j pos) [
    | inl e ↦ rw e (omega arith, omega arith)
    | inr d ↦ (omega (arith, d.hash_eq, hash_mem-lt d.key), omega (arith, d.room))
  ]

  tables_here : (j : ℕ) → j < 256 → At db.file (place recs j) (bytes_of (table_of recs j))
  tables_here j l =
      let e : j + 0 ≡ j = omega arith in
      let start : 2048 + length (data_of recs) ≡ place recs 0 =
        unfold plain_total in omega (arith, length-data_of recs) in
      subst (λ k. At db.file (place recs k) (bytes_of (table_of recs k))) e
        (table-At db.file recs 256 0 j
          (subst (λ o. At db.file o (tables recs 256 0)) start
            (At-right db.file 2048 (data_of recs) (tables recs 256 0) behind))
          l)

  -- The table of a bucket can be read slot by slot.
  pub bucket-Table :
      (j : ℕ)
      → j < 256
      → Table db recs (place recs j) (count recs j + count recs j) (table_of recs j)
  bucket-Table j l = record {
    readable = λ pos h.
        read_slot-At db (place recs j + 8 * pos) (at (table_of recs j) pos).hash
          (at (table_of recs j) pos).offset (slot_bounds j pos).0 (slot_bounds j pos).1
          (slot-At db.file (place recs j) (table_of recs j) pos (tables_here j l)
            (omega (arith, h, (table_of-Placed recs j).size)));
    described = λ pos h. elim (slot-OrEmpty j pos) [ inl e ↦ inl (rw e refl) | inr d ↦ inr d ];
    room = omega (arith, place-le j l);
  }
