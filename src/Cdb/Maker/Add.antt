-- ===== src/Cdb/Maker/Add.antt =====
-- `cdbx_cdb32_maker_add`: it adds the record, as long as the file stays within 32 bit offsets.
use cdbx.Base.{
  ℕ, suc, ◌+◌, ◌≤◌, ◌<◌, ◌≡◌, ◌≢◌, inl, inr, refl, sym, ap, ◌∙◌, true, false, List, [], ◌∷◌, ◌++◌,
  ◌==◌, length, length-append, append_assoc, arith, Bool-cases,
}
use mathlib.Core.List.{reverse, reverse-append}
use cdbx.Cdb.Word.{Bytes, u32, pack}
use cdbx.Cdb.Arrays.{filter-yes, filter-no}
use cdbx.Cdb.Hash.{hash_mem}
use cdbx.Cdb.Slots.{Slot}
use cdbx.Cdb.Sort.{update, update-same, update-other, bucket_of, in_bucket, count_in}
use cdbx.Cdb.Writer.{Fits, content, put-content, put-Fits, write, write-Written, Written}
use cdbx.Cdb.Maker.{
  Maker, ok, max_off, lacks, put_lengths, written, buf_write, with_slot, add_slot, add_record,
  block_size,
}
use cdbx.Cdb.Maker.Lists.{stored, store-stored}
use cdbx.Cdb.Maker.Holds.{
  Rec, encode, data_of, slots_of, data_size, file_size, max_size, Holds, lacks-no, slots_of-snoc,
  data_size-snoc, data_of-snoc, length-filter_le, length-slots_of, length-reverse,
}

-- What is written behind the records arrives there.
write_all-Written :
    (m : Maker) (key : Bytes)
    → Fits m.writer
    → Written key 5381 m.writer (write (suc (length key)) key 5381 m.writer)
write_all-Written m key f = write-Written (suc (length key)) key 5381 m.writer f (inl (omega arith))

pub buf_write-ok :
    (m : Maker) (key : Bytes) (n : ℕ)
    → m.size ≡ u32 n
    → 0 < n
    → n + length key ≤ max_size
    → length key < max_off
    → buf_write m key ≡ ok (written m key, (write (suc (length key)) key 5381 m.writer).1)
unfolding buf_write
buf_write-ok m key n e h l s =
    let a : (length key == max_off) ≡ false = ground arith in
    let b : lacks (length key) m.size ≡ false = rw e (lacks-no (length key) n h l) in rw (a, b) refl

add_slot-ok :
    (m : Maker) (s : Slot) (n : ℕ)
    → m.size ≡ u32 n
    → 0 < n
    → n + 16 ≤ max_size
    → add_slot m s ≡ ok (with_slot m s)
unfolding add_slot
add_slot-ok m s n e h l = let b : lacks 16 m.size ≡ false = rw e (lacks-no 16 n h l) in rw b refl

-- The three steps of an addition, where nothing is refused.
abbrev pub after : Maker → Bytes → Bytes → Maker
after m k v =
    with_slot (written (written (put_lengths m k v) k) v)
      (record { hash = hash_mem k; offset = m.offset })

module _ (m : Maker) (recs : List Rec) (k v : Bytes) (h : Holds m recs) where
  after_put : Fits (put_lengths m k v).writer
  unfolding put_lengths
  after_put =
      put-Fits (pack (length k) ++ pack (length v)) m.writer (unfold pack in omega arith) h.fits

  pub after_key :
      Written k 5381
        (put_lengths m k v).writer
        (write (suc (length k)) k 5381 (put_lengths m k v).writer)
  after_key = write_all-Written (put_lengths m k v) k after_put

  after_value :
      Written v 5381
        (written (put_lengths m k v) k).writer
        (write (suc (length v)) v 5381 (written (put_lengths m k v) k).writer)
  after_value = write_all-Written (written (put_lengths m k v) k) v after_key.2

  after-content : content (after m k v).writer ≡ data_of (recs ++ (k, v) ∷ [])
  unfolding data_of
  after-content =
      after_value.0
      ∙ ap (λ l. l ++ v) (after_key.0 ∙ ap (λ l. l ++ k) put_content)
      ∙ ap (λ l. ((l ++ header) ++ k) ++ v) h.bytes_eq
      ∙ append_assoc (data_of recs ++ header) k v
      ∙ append_assoc (data_of recs) header (k ++ v)
      ∙ (unfold encode in ap (λ l. data_of recs ++ l) refl)
      ∙ sym (data_of-snoc recs (k, v))
    where
      header : Bytes
      header = pack (length k) ++ pack (length v)

      put_content : content (put_lengths m k v).writer ≡ content m.writer ++ header
      put_content = unfold put_lengths in put-content header m.writer

  abbrev latest : Slot
  latest = record { hash = hash_mem k; offset = m.offset }

  after-stored :
      (stored (after m k v).slot_lists (after m k v).slot_list_index
        ≡ record { hash = hash_mem k; offset = m.offset } ∷ stored m.slot_lists m.slot_list_index)
      × ((after m k v).slot_list_index ≤ block_size)
  unfolding put_lengths
  after-stored =
      store-stored m.slot_lists m.slot_list_index (record { hash = hash_mem k; offset = m.offset })
        h.index_le

  abbrev old : List Slot
  old = stored m.slot_lists m.slot_list_index

  stored_le : length (stored m.slot_lists m.slot_list_index) ≡ length recs
  stored_le = ap length h.slots ∙ length-reverse (slots_of 2048 recs) ∙ length-slots_of 2048 recs

  count_eq :
      (j : ℕ)
      → update m.slot_counts (bucket_of latest) (u32 (m.slot_counts (bucket_of latest) + 1)) j
        ≡ count_in j (latest ∷ stored m.slot_lists m.slot_list_index)
  count_eq j = elim (Bool-cases (j == bucket_of latest)) [
    | inl e ↦
        let same : j ≡ bucket_of latest = ground arith in
        let yes : in_bucket (bucket_of latest) latest ≡ true = ground arith in
        rw
          (
            same,
            update-same m.slot_counts (bucket_of latest)
                (u32 (m.slot_counts (bucket_of latest) + 1)),
            filter-yes (in_bucket (bucket_of latest)) latest old yes,
          )
          (omega (
            arith,
            h.counts (bucket_of latest),
            length-filter_le (in_bucket (bucket_of latest)) old,
            stored_le,
            h.bounded,
          ))
    | inr e ↦
        let ne : j ≢ bucket_of latest = ground arith in
        let no : in_bucket j latest ≡ false = ground arith in
        rw
          (
            update-other m.slot_counts (bucket_of latest) j
                (u32 (m.slot_counts (bucket_of latest) + 1)) ne,
            filter-no (in_bucket j) latest old no,
          )
          (h.counts j)
  ]

  after-count :
      (j : ℕ)
      → (after m k v).slot_counts j
        ≡ count_in j (stored (after m k v).slot_lists (after m k v).slot_list_index)
  unfolding put_lengths
  after-count j = count_eq j ∙ ap (count_in j) (sym after-stored.0)

  pub after-Holds :
      file_size recs + (24 + length k + length v) ≤ max_size
      → Holds (after m k v) (recs ++ (k, v) ∷ [])
  unfolding put_lengths
  after-Holds room = record {
    bytes_eq = after-content;
    fits = after_value.2;
    offset_eq = omega (arith, h.offset_eq, data_size-snoc recs (k, v), room);
    size_eq =
        omega (arith, h.size_eq, data_size-snoc recs (k, v), length-append recs ((k, v) ∷ []));
    bounded = omega (arith, data_size-snoc recs (k, v), length-append recs ((k, v) ∷ []), room);
    slots =
        after-stored.0
        ∙ ap (◌∷◌ (record { hash = hash_mem k; offset = m.offset })) h.slots
        ∙ ap (λ i. record { hash = hash_mem k; offset = i } ∷ reverse (slots_of 2048 recs))
            h.offset_eq
        ∙ sym (
            reverse-append (slots_of 2048 recs)
              (record { hash = hash_mem k; offset = 2048 + data_size recs } ∷ []))
        ∙ ap reverse (sym (slots_of-snoc 2048 recs k v));
    index_le = after-stored.1;
    counts = after-count;
  }

-- A record for which there is room is added.
pub add_record-ok :
    (m : Maker) (recs : List Rec) (k v : Bytes)
    → Holds m recs
    → file_size recs + (24 + length k + length v) ≤ max_size
    → add_record m k v ≡ ok (after m k v)
unfolding add_record put_lengths
add_record-ok m recs k v h room =
    let key_ok =
      buf_write-ok (put_lengths m k v) k (file_size recs + 8) (omega (arith, h.size_eq))
        (omega arith) (omega (arith, room)) (omega (arith, room)) in
    let value_ok =
      buf_write-ok (written (put_lengths m k v) k) v (file_size recs + 8 + length k)
        (omega (arith, h.size_eq)) (omega arith) (omega (arith, room)) (omega (arith, room)) in
    let (_, hash_eq, _) = after_key m recs k v h in
    let slot_ok =
      add_slot-ok (written (written (put_lengths m k v) k) v)
        (record { hash = hash_mem k; offset = m.offset }) (file_size recs + 8 + length k + length v)
        (omega (arith, h.size_eq)) (omega arith) (omega (arith, room)) in
    rw (key_ok, value_ok, hash_eq) (unfold hash_mem in slot_ok)
