-- ===== src/Cdb/Find.antt =====
-- The search for a key: `cdb32_find`, and what cdbx/cdb32.c builds on it.
pub mod Records
pub mod Hits
pub mod Walks
pub mod Values
use cdbx.Base.{
  ℕ, zero, suc, ◌+◌, ◌-◌, ◌*◌, ◌/◌, ◌%◌, Bool, true, false, not, List, [], ◌∷◌, Option, none, some,
  ◌==◌, length, if◌then◌else◌,
}
use cdbx.Cdb.Word.{Bytes, u32}
use cdbx.Cdb.Hash.{hash_mem}
use cdbx.Cdb.Slots.{Slot, is_free}
use cdbx.Cdb.Maker.{Outcome, ok, failed, bind, Object, cstring}
use cdbx.Cdb.File.{Database, read, read_pointer, read_slot, read_dlength, compare_key}

-- `cdb32_find_t`, for a key in memory.
pub record Find : Type 0 where
  pub key : Bytes
  pub hash : ℕ
  pub table : ℕ × ℕ
  pub table_offset : ℕ
  pub key_num : ℕ

-- A fresh state for a key.
abbrev pub start : Bytes → Find
start key = record { key = key; hash = 0; table = (0, 0); table_offset = 0; key_num = 0 }

-- `CDB32_PTR_SLOT`
abbrev pub slot_offset : ℕ → ℕ × ℕ → ℕ
slot_offset hash (offset, len) = u32 (offset + hash / 256 % len * 8)

-- A state whose table is known.
abbrev pub at_table : Find → ℕ × ℕ → Find
at_table f table = record f {
  hash = hash_mem f.key;
  table = table;
  table_offset = slot_offset (hash_mem f.key) table;
}

-- The offset of the next slot, around the end of the table.
unfoldable pub next_offset : ℕ × ℕ → ℕ → ℕ
next_offset (offset, len) pos =
    let next = u32 (pos + 8) in if next == u32 (offset + len * 8) then offset else next

abbrev pub advance : Find → Find
advance f = record f { table_offset = next_offset f.table f.table_offset; key_num = f.key_num + 1 }

-- A slot in use: where and how long the value is, if the key is the one that is looked for.
unfoldable pub visit : Database → Find → Slot → Outcome (Option (ℕ × ℕ))
unfolding read_dlength compare_key
visit db f slot =
    if slot.hash == f.hash
    then bind (read_dlength db slot.offset) (λ (klen, dlen).
      if klen == length f.key
      then bind (compare_key db (u32 (slot.offset + 8)) f.key)
          (λ same. if same then ok (some (u32 (slot.offset + 8 + length f.key), dlen)) else ok none)
      else ok none)
    else ok none

-- A hit ends the loop; otherwise it goes on.
abbrev pub resume :
    Option (ℕ × ℕ) → Find → Outcome (Option (ℕ × ℕ) × Find) → Outcome (Option (ℕ × ℕ) × Find)
resume (some value) f rest = ok (some value, f)
resume none f rest = rest

-- The loop of `cdb32_find`, for so many slots that are left.
unfoldable pub search : ℕ → Database → Find → Outcome (Option (ℕ × ℕ) × Find)
unfolding read_slot next_offset visit
search zero db f = ok (none, f)
search (suc left) db f =
    let rest = search left db (advance f) in
    bind (read_slot db f.table_offset) (λ slot.
      if is_free slot
      then ok (none, f)
      else bind (visit db f slot) (λ found. resume found (advance f) rest))

abbrev pub search_left : Database → Find → Outcome (Option (ℕ × ℕ) × Find)
search_left db f = search (f.table.1 - f.key_num) db f

-- `cdb32_find`
unfoldable pub find : Database → Find → Outcome (Option (ℕ × ℕ) × Find)
unfolding hash_mem read_pointer search
find db f =
    if f.key_num == 0
    then bind (read_pointer db (hash_mem f.key % 256 * 8)) (λ table.
      if table.1 == 0
      then ok (none, record f { hash = hash_mem f.key; table = table })
      else search_left db (at_table f table))
    else search_left db f

-- The value that was found is read; an offset of 0 stands for none.
abbrev pub fetch : Database → Option (ℕ × ℕ) → Outcome (Option Bytes)
fetch db none = ok none
fetch db (some (offset, len)) =
    if offset == 0 then ok none else bind (read db offset len) (λ value. ok (some value))

-- `cdbx_cdb32_get_iter_next`: the next value, and the state behind it.
unfoldable pub get_iter_next : Database → Find → Outcome (Option Bytes × Find)
unfolding find read
get_iter_next db f =
    bind (find db f) (λ (found, f1). bind (fetch db found) (λ value. ok (value, f1)))

abbrev pub collect : Option Bytes → Outcome (List Bytes) → Outcome (List Bytes)
collect none rest = ok []
collect (some v) rest = bind rest (λ vs. ok (v ∷ vs))

-- All that an iterator gives until it is exhausted, with fuel.
unfoldable pub values : ℕ → Database → Find → Outcome (List Bytes)
unfolding get_iter_next
values zero db f = ok []
values (suc fuel) db f =
    bind (get_iter_next db f) (λ (value, f1). collect value (values fuel db f1))

-- `!!value.offset`
abbrev pub is_found : Option (ℕ × ℕ) → Bool
is_found none = false
is_found (some (offset, _)) = not (offset == 0)

-- `cdbx_cdb32_contains`
unfoldable pub contains : Database → Object → Outcome Bool
unfolding cstring find
contains db key =
    bind (cstring key) (λ k. bind (find db (start k)) (λ (found, _). ok (is_found found)))
