-- ===== src/Cdb/Maker.antt =====
-- The constructor of a database: `cdb32_cstring` and `cdbx_cdb32_maker_add` of cdbx/cdb32.c.
pub mod Lists
pub mod Holds
pub mod Add
pub mod Outcomes
use cdbx.Base.{
  ℕ, zero, suc, ◌+◌, ◌-◌, ◌*◌, ◌/◌, ◌%◌, ◌≤◌, ◌<◌, ◌≡◌, refl, sym, ap, ◌∙◌, Bool, true, false, ◌||◌,
  List, [], ◌∷◌, ◌++◌, ◌==◌, ltb, length, if◌then◌else◌, arith, Bool-cases, all,
}
use cdbx.Cdb.Word.{Bytes, u32, pack}
use cdbx.Cdb.Slots.{Slot, empty_slot}
use cdbx.Cdb.Sort.{update, bucket_of}
use cdbx.Cdb.Writer.{Writer, flush, put, write}

-- The objects that a caller may hand over: bytes, a text by its code points, or something else.
pub data Object : Type 0 where
  byte_string : Bytes → Object
  unicode : List ℕ → Object
  other : Object

-- The exceptions: OverflowError, TypeError, UnicodeEncodeError, IOError, and that a maker is closed.
pub data Fault : Type 0 where
  overflow : Fault
  type_error : Fault
  encode_error : Fault
  io_error : Fault
  closed : Fault

pub data Outcome {ℓ} (A : Type ℓ) : Type ℓ where
  ok : A → Outcome A
  failed : Fault → Outcome A

abbrev pub bind {ℓ κ} : {A : Type ℓ} {B : Type κ} → Outcome A → (A → Outcome B) → Outcome B
bind (ok a) f = f a
bind (failed e) f = failed e

-- `CDB32_MAX_OFF`
abbrev pub max_off : ℕ
max_off = 4294967295

abbrev pub check_length : Bytes → Outcome Bytes
check_length key = if u32 (length key) == length key then ok key else failed overflow

-- `cdb32_cstring`
unfoldable pub cstring : Object → Outcome Bytes
cstring (byte_string key) = check_length key
cstring (unicode key) = if all (λ c. ltb c 256) key then check_length key else failed encode_error
cstring other = failed type_error

-- `cdbx_cdb32_maker_t`, with a block of `slot_lists` as an array.
pub record Maker : Type 0 where
  pub writer : Writer
  pub slot_counts : ℕ → ℕ
  pub slot_lists : List (ℕ → Slot)
  pub slot_list_index : ℕ
  pub offset : ℕ
  pub size : ℕ

-- `cdbx_cdb32_maker_create`
abbrev pub create : Maker
create = record {
  writer = record { disk = []; buf = [] };
  slot_counts = λ j. 0;
  slot_lists = [];
  slot_list_index = 0;
  offset = 2048;
  size = 2048;
}

-- `(CDB32_MAX_OFF - len) < self->size - 1`
unfoldable pub lacks : ℕ → ℕ → Bool
lacks len size = ltb (max_off - len) (u32 (size + max_off))

-- Both lengths are packed into the buffer.
unfoldable pub put_lengths : Maker → Bytes → Bytes → Maker
unfolding put pack
put_lengths m key value = record m {
  writer = put (pack (length key) ++ pack (length value)) m.writer;
  offset = u32 (m.offset + 8);
  size = u32 (m.size + 8);
}

-- The bytes are written, and counted in the offset and in the size.
abbrev pub written : Maker → Bytes → Maker
written m key = record m {
  writer = (write (suc (length key)) key 5381 m.writer).0;
  offset = u32 (m.offset + length key);
  size = u32 (m.size + length key);
}

-- `cdb32_maker_buf_write`, with the hash of what was written.
unfoldable pub buf_write : Maker → Bytes → Outcome (Maker × ℕ)
unfolding lacks write
buf_write m key =
    if (length key == max_off) || lacks (length key) m.size
    then failed overflow
    else ok (written m key, (write (suc (length key)) key 5381 m.writer).1)

-- `CDB32_SLOT_LIST_SIZE`
abbrev pub block_size : ℕ
block_size = 1024

-- A new block; what it holds is not read before it is written.
abbrev pub fresh_block : ℕ → Slot
fresh_block i = empty_slot

-- A slot is stored in the newest block, or in a new one.
unfoldable pub store : List (ℕ → Slot) → ℕ → Slot → List (ℕ → Slot) × ℕ
unfolding update
store [] index s = (update fresh_block 0 s ∷ [], 1)
store (block ∷ lists) index s =
    if ltb index block_size
    then (update block index s ∷ lists, suc index)
    else (update fresh_block 0 s ∷ block ∷ lists, 1)

abbrev pub with_slot : Maker → Slot → Maker
with_slot m s = record m {
  slot_counts = update m.slot_counts (bucket_of s) (u32 (m.slot_counts (bucket_of s) + 1));
  slot_lists = (store m.slot_lists m.slot_list_index s).0;
  slot_list_index = (store m.slot_lists m.slot_list_index s).1;
  size = u32 (m.size + 16);
}

-- The end of `cdbx_cdb32_maker_add`: the slot is stored and counted.
unfoldable pub add_slot : Maker → Slot → Outcome Maker
unfolding lacks
add_slot m s = if lacks 16 m.size then failed overflow else ok (with_slot m s)

-- A key and a value are written, and the slot of the key is stored.
unfoldable pub add_record : Maker → Bytes → Bytes → Outcome Maker
unfolding put_lengths buf_write add_slot
add_record m key value = bind (buf_write (put_lengths m key value) key) (λ (m1, hash).
    bind (buf_write m1 value) (λ (m2, _). add_slot m2 (record { hash = hash; offset = m.offset })))

-- `cdbx_cdb32_maker_add`
unfoldable pub add : Maker → Object → Object → Outcome Maker
unfolding lacks cstring add_record
add m key value =
    if lacks 8 m.size
    then failed overflow
    else bind (cstring key) (λ k. bind (cstring value) (λ v. add_record m k v))

-- Calls of `add`, one after the other.
unfoldable pub add_all : Maker → List (Object × Object) → Outcome Maker
unfolding add
add_all m [] = ok m
add_all m ((key, value) ∷ rest) = bind (add m key value) (λ m1. add_all m1 rest)
