-- ===== src/Cdb/Iter.antt =====
-- The iteration over the records of cdbx/cdb32.c: `cdb32_find` for a key in the file,
-- `cdbx_cdb32_iter_next`, `cdb32_count_records`, and the loop of `CDBIterType_iternext` of
-- cdbx/cdbiter.c. All offsets wrap around at 2^32; a key at offset 0, which stands for one in memory,
-- does not occur behind the main table.
pub mod Disk
pub mod Found
pub mod Keys
pub mod Whole
use cdbx.Base.{
  ℕ, zero, suc, ◌+◌, ◌-◌, ◌*◌, ◌/◌, ◌%◌, Bool, true, false, ◌||◌, List, [], ◌∷◌, Option, none, some,
  ◌==◌, ltb, length, if◌then◌else◌, text_eq,
}
use cdbx.Cdb.Word.{Bytes, u32, unpack}
use cdbx.Cdb.Hash.{hash_mem, hash_blocks}
use cdbx.Cdb.Slots.{Slot, is_free}
use cdbx.Cdb.Maker.{Outcome, ok, failed, io_error, bind}
use cdbx.Cdb.File.{Database, read_map, read, read_pointer, read_slot, read_dlength, cmp_key_map}
use cdbx.Cdb.Find.{slot_offset, next_offset}

-- `if ((buflen = sizeof buf) > len) buflen = len`
unfoldable pub block_length : ℕ → ℕ → ℕ
block_length size len = if ltb len size then len else size

-- The loop of `cdb32_cmp_key_disk`: in blocks of at most 64 bytes, with fuel.
unfoldable pub cmp_blocks : ℕ → Database → ℕ → ℕ → ℕ → Outcome Bool
unfolding read block_length text_eq
cmp_blocks fuel db offset key zero = ok true
cmp_blocks zero db offset key (suc len) = ok false
cmp_blocks (suc fuel) db offset key (suc len) =
    let n = block_length 64 (suc len) in
    let rest = cmp_blocks fuel db (u32 (offset + n)) (u32 (key + n)) (suc len - n) in
    bind (read db key n)
      (λ s. bind (read db offset n) (λ d. if text_eq d s then rest else ok false))

-- `cdb32_cmp_key_disk`
unfoldable pub cmp_key_disk : Database → ℕ → ℕ → ℕ → Outcome Bool
unfolding cmp_blocks
cmp_key_disk db offset key len = if offset == key then ok true else cmp_blocks len db offset key len

-- `cdb32_hash_disk`: the reads of its loop follow one another, so they are one read.
unfoldable pub hash_disk : Database → ℕ → ℕ → Outcome ℕ
unfolding read hash_blocks
hash_disk db offset len = bind (read db offset len) (λ key. ok (hash_blocks len 5381 key))

-- `cdb32_find_t` for a key in the file.
pub record FindDisk : Type 0 where
  pub key_disk : ℕ
  pub key_length : ℕ
  pub hash : ℕ
  pub table : ℕ × ℕ
  pub table_offset : ℕ

-- The hash of the key, and the comparison with it, in a map or in the file.
unfoldable pub key_hash : Database → ℕ → ℕ → Outcome ℕ
unfolding read_map hash_mem hash_disk
key_hash db offset len =
    if db.mapped
    then bind (read_map db offset len) (λ key. ok (hash_mem key))
    else hash_disk db offset len

unfoldable pub compare_disk : Database → ℕ → ℕ → ℕ → Outcome Bool
unfolding read_map cmp_key_map cmp_key_disk
compare_disk db offset key len =
    if db.mapped
    then bind (read_map db key len) (λ k. cmp_key_map db offset k)
    else cmp_key_disk db offset key len

-- A slot in use: where and how long the value is, if the key is the one that is looked for.
unfoldable pub visit_disk : Database → FindDisk → Slot → Outcome (Option (ℕ × ℕ))
unfolding read_dlength compare_disk
visit_disk db f slot =
    if slot.hash == f.hash
    then bind (read_dlength db slot.offset) (λ (klen, dlen).
      if klen == f.key_length
      then bind (compare_disk db (u32 (slot.offset + 8)) f.key_disk f.key_length)
          (λ same. if same then ok (some (u32 (slot.offset + 8 + f.key_length), dlen)) else ok none)
      else ok none)
    else ok none

abbrev pub found_or : Option (ℕ × ℕ) → Outcome (Option (ℕ × ℕ)) → Outcome (Option (ℕ × ℕ))
found_or (some value) rest = ok (some value)
found_or none rest = rest

-- The loop of `cdb32_find`, for so many slots that are left.
unfoldable pub search_disk : ℕ → Database → FindDisk → Outcome (Option (ℕ × ℕ))
unfolding read_slot next_offset visit_disk
search_disk zero db f = ok none
search_disk (suc left) db f =
    let rest =
      search_disk left db (record f { table_offset = next_offset f.table f.table_offset }) in
    bind (read_slot db f.table_offset) (λ slot.
      if is_free slot then ok none else bind (visit_disk db f slot) (λ found. found_or found rest))

abbrev pub start_disk : ℕ → ℕ → ℕ → ℕ × ℕ → FindDisk
start_disk offset len hash table = record {
  key_disk = offset;
  key_length = len;
  hash = hash;
  table = table;
  table_offset = slot_offset hash table;
}

-- `cdb32_find` on a fresh `cdb32_find_t` for a key in the file.
unfoldable pub find_disk : Database → ℕ → ℕ → Outcome (Option (ℕ × ℕ))
unfolding key_hash read_pointer search_disk
find_disk db offset len = bind (key_hash db offset len) (λ hash.
    bind (read_pointer db (hash % 256 * 8)) (λ table.
      if table.1 == 0 then ok none else search_disk table.1 db (start_disk offset len hash table)))

-- `CDB32_READ_SENTINEL`
unfoldable pub read_sentinel : Database → Outcome ℕ
unfolding read unpack
read_sentinel db = bind (read db 0 4) (λ b. ok (unpack b))

-- What `cdbx_cdb32_iter_next` gives: the pointers to key and value, and `first_`.
pub record Item : Type 0 where
  pub key : ℕ × ℕ
  pub value : ℕ × ℕ
  pub first : Bool

-- An offset of 0 is a format error.
abbrev pub item_at : ℕ → ℕ → ℕ → ℕ → Option (ℕ × ℕ) → Outcome (Option (Item × ℕ))
item_at kpos klen vpos dlen none = failed io_error
item_at kpos klen vpos dlen (some (offset, len)) =
    if offset == 0
    then failed io_error
    else ok (
        some (
          record { key = (kpos, klen); value = (vpos, dlen); first = offset == vpos },
          u32 (vpos + dlen),
        ))

-- `cdbx_cdb32_iter_next`: the next record and the position behind it, or none behind the last.
unfoldable pub iter_next : Database → ℕ → ℕ → Outcome (Option (Item × ℕ))
unfolding read_dlength find_disk
iter_next db sentinel pos =
    if ltb pos sentinel
    then bind (read_dlength db pos) (λ (klen, dlen).
      bind (find_disk db (u32 (pos + 8)) klen)
        (λ found. item_at (u32 (pos + 8)) klen (u32 (u32 (pos + 8) + klen)) dlen found))
    else ok none

-- `CDBIterType_iternext` until it is exhausted, with fuel; the flag is `FL_ALL`.
abbrev pub give : Database → Bool → Item → Outcome (List Bytes) → Outcome (List Bytes)
give db all item rest =
    if item.first || all
    then bind (read db item.key.0 item.key.1) (λ k. bind rest (λ ks. ok (k ∷ ks)))
    else rest

abbrev pub after_item :
    Database → Bool → Option (Item × ℕ) → (ℕ → Outcome (List Bytes)) → Outcome (List Bytes)
after_item db all none go = ok []
after_item db all (some (item, pos)) go = give db all item (go pos)

unfoldable pub keys_from : ℕ → Database → Bool → ℕ → ℕ → Outcome (List Bytes)
unfolding iter_next read
keys_from zero db all sentinel pos = ok []
keys_from (suc fuel) db all sentinel pos =
    bind (iter_next db sentinel pos)
      (λ next. after_item db all next (λ p. keys_from fuel db all sentinel p))

-- `cdbx_cdb32_iter_create`, and all keys that the iterator gives.
unfoldable pub iter_keys : ℕ → Database → Bool → Outcome (List Bytes)
unfolding keys_from read_sentinel
iter_keys fuel db all = bind (read_sentinel db) (λ sentinel. keys_from fuel db all sentinel 2048)

-- The loop of `cdb32_count_records`, with fuel: the numbers of keys and of records from a position on.
abbrev pub count_item : Option (Item × ℕ) → (ℕ → Outcome (ℕ × ℕ)) → Outcome (ℕ × ℕ)
count_item none go = ok (0, 0)
count_item (some (item, pos)) go =
    bind (go pos) (λ (keys, records). ok ((if item.first then suc keys else keys), suc records))

unfoldable pub count_from : ℕ → Database → ℕ → ℕ → Outcome (ℕ × ℕ)
unfolding iter_next
count_from zero db sentinel pos = ok (0, 0)
count_from (suc fuel) db sentinel pos =
    bind (iter_next db sentinel pos) (λ next. count_item next (λ p. count_from fuel db sentinel p))

-- `cdb32_count_records`
unfoldable pub count_records : ℕ → Database → Outcome (ℕ × ℕ)
unfolding count_from read_sentinel
count_records fuel db = bind (read_sentinel db) (λ sentinel. count_from fuel db sentinel 2048)
