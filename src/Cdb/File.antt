-- ===== src/Cdb/File.antt =====
-- Reading from a database: `cdb32_read`, `cdb32_read_map` and the macros and comparisons on them.
pub mod Reads
pub mod Compare
use cdbx.Base.{
  ℕ, zero, suc, ◌+◌, ◌-◌, ◌*◌, Bool, true, false, ◌||◌, List, [], ◌∷◌, ◌++◌, ◌==◌, ltb, length,
  take, drop, if◌then◌else◌, text_eq,
}
use cdbx.Cdb.Word.{Bytes, u32, unpack}
use cdbx.Cdb.Slots.{Slot}
use cdbx.Cdb.Maker.{Outcome, ok, failed, Fault, io_error, bind}

-- `cdbx_cdb32_t`: the file, and whether it is mapped as a whole; otherwise it is read piece by piece.
pub record Database : Type 0 where
  pub file : Bytes
  pub mapped : Bool

-- What stands at a place; less at the end of the file.
abbrev pub part : Database → ℕ → ℕ → Bytes
part db offset len = take len (drop offset db.file)

-- `cdb32_read_map`
unfoldable pub read_map : Database → ℕ → ℕ → Outcome Bytes
read_map db offset len =
    if ltb (length db.file) offset || ltb (length db.file - offset) len
    then failed io_error
    else ok (part db offset len)

-- `cdb32_read`: without a map, `read` is repeated until it has all the bytes or finds the end.
unfoldable pub read : Database → ℕ → ℕ → Outcome Bytes
unfolding read_map
read db offset len =
    if db.mapped
    then read_map db offset len
    else if ltb (length (part db offset len)) len
    then failed io_error
    else ok (part db offset len)

-- Two numbers of 32 bits, one behind the other.
abbrev pub two : Bytes → ℕ × ℕ
two b = (unpack b, unpack (drop 4 b))

-- `CDB32_READ_POINTER`: offset and length of a table.
unfoldable pub read_pointer : Database → ℕ → Outcome (ℕ × ℕ)
unfolding read unpack
read_pointer db offset = bind (read db offset 8) (λ b. ok (two b))

-- `CDB32_READ_SLOT`; the hash of a free slot is not looked at.
unfoldable pub read_slot : Database → ℕ → Outcome Slot
unfolding read unpack
read_slot db offset =
    bind (read db offset 8) (λ b. ok (record { hash = (two b).0; offset = (two b).1 }))

-- `CDB32_READ_DLENGTH`: the lengths of key and value.
unfoldable pub read_dlength : Database → ℕ → Outcome (ℕ × ℕ)
unfolding read unpack
read_dlength db offset = bind (read db offset 8) (λ b. ok (two b))

-- `cdb32_cmp_key_map`
unfoldable pub cmp_key_map : Database → ℕ → Bytes → Outcome Bool
unfolding read_map
cmp_key_map db offset [] = ok true
cmp_key_map db offset (c ∷ key) =
    bind (read_map db offset (length (c ∷ key))) (λ b. ok (text_eq b (c ∷ key)))

-- `cdb32_cmp_key_mem`: in blocks of at most 128 bytes, with fuel.
unfoldable pub cmp_key_mem : ℕ → Database → ℕ → Bytes → Outcome Bool
unfolding read
cmp_key_mem fuel db offset [] = ok true
cmp_key_mem zero db offset (c ∷ key) = ok false
cmp_key_mem (suc fuel) db offset (c ∷ key) =
    let block = take 128 (c ∷ key) in
    let rest = cmp_key_mem fuel db (u32 (offset + length block)) (drop 128 (c ∷ key)) in
    bind (read db offset (length block)) (λ b. if text_eq b block then rest else ok false)

-- The comparison that `cdb32_find` takes for a key in memory.
unfoldable pub compare_key : Database → ℕ → Bytes → Outcome Bool
unfolding cmp_key_map cmp_key_mem
compare_key db offset key =
    if db.mapped then cmp_key_map db offset key else cmp_key_mem (length key) db offset key
