-- ===== src/Cdb/Commit.antt =====
-- `cdbx_cdb32_maker_commit`: the slots are sorted into their buckets, and every bucket's table is
-- written behind the records, its place and its length into the main table.
pub mod Layout
pub mod Result
use cdbx.Base.{ℕ, zero, suc, ◌+◌, List, [], ◌∷◌, ◌++◌}
use cdbx.Cdb.Word.{Bytes, u32, pack}
use cdbx.Cdb.Slots.{Slot, slot_table}
use cdbx.Cdb.Sort.{segment, starts_of, distribute}
use cdbx.Cdb.Writer.{Writer, flush, put}
use cdbx.Cdb.Maker.{Maker, fresh_block}
use cdbx.Cdb.Maker.Lists.{stored}

-- The state of the loop over the buckets: the main table, the place in `sorted`, the offset of the
-- next table, and the writer.
pub record Tables : Type 0 where
  pub table : Bytes
  pub sp : ℕ
  pub offset : ℕ
  pub writer : Writer

-- The serialisation of the slots of a bucket, with the offset behind them.
unfoldable pub put_slots : List Slot → ℕ → Writer → ℕ × Writer
unfolding put pack
put_slots [] offset w = (offset, w)
put_slots (s ∷ slots) offset w =
    put_slots slots (u32 (offset + 8)) (put (pack s.hash ++ pack s.offset) w)

-- One round of the loop.
unfoldable pub put_bucket : (ℕ → Slot) → ℕ → Tables → Tables
unfolding segment slot_table put_slots pack
put_bucket sorted count t =
    let max_slots = u32 (count + count) in
    let done = put_slots (slot_table max_slots (segment sorted t.sp count)) t.offset t.writer in
    record {
      table = t.table ++ (pack t.offset ++ pack max_slots);
      sp = t.sp + count;
      offset = done.0;
      writer = done.1;
    }

-- The rounds for `left` buckets, from `j` on.
unfoldable pub put_buckets : (ℕ → Slot) → (ℕ → ℕ) → ℕ → ℕ → Tables → Tables
unfolding put_bucket
put_buckets sorted counts zero j t = t
put_buckets sorted counts (suc left) j t =
    put_buckets sorted counts left (suc j) (put_bucket sorted (counts j) t)

abbrev pub sorted_slots : Maker → ℕ → Slot
sorted_slots m =
    distribute (stored m.slot_lists m.slot_list_index) (starts_of m.slot_counts) fresh_block

abbrev pub all_tables : Maker → Tables
all_tables m =
    put_buckets (sorted_slots m) m.slot_counts 256 0
      (record { table = []; sp = 0; offset = m.offset; writer = m.writer })

-- The file that is left: the main table, and behind it all that was written.
unfoldable pub commit : Maker → Bytes
unfolding flush
commit m = let t = all_tables m in t.table ++ (flush t.writer).disk
