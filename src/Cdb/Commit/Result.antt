-- ===== src/Cdb/Commit/Result.antt =====
-- The file that `cdbx_cdb32_maker_commit` leaves: main table, records, tables of the buckets.
use cdbx.Base.{
  ℕ, zero, suc, ◌+◌, ◌*◌, ◌≤◌, ◌<◌, ◌≡◌, refl, sym, ap, ◌∙◌, List, [], ◌∷◌, ◌++◌, length,
  append_assoc, append-nil, arith,
}
use cdbx.Cdb.Word.{u32, pack}
use cdbx.Cdb.Sort.{plain_total, segment}
use cdbx.Cdb.Writer.{content, flush}
use cdbx.Cdb.Maker.{Maker}
use cdbx.Cdb.Maker.Holds.{Rec, data_of, data_size, file_size, max_size, Holds}
use cdbx.Cdb.Commit.{Tables, put_slots, put_bucket, put_buckets, sorted_slots, all_tables, commit}
use cdbx.Cdb.Commit.Layout.{
  bytes_of, put_slots-content, put_slots-offset, bucket, count, place, table_of, entries, tables,
  table_of-Placed, counts_eq, taken, count_small,
}

-- The records alone end below the last offset.
pub offset-lt : (recs : List Rec) → file_size recs ≤ max_size → 2048 + data_size recs < max_size
offset-lt [] h = omega arith
offset-lt (r ∷ recs) h = omega (arith, h)

module _ (m : Maker) (recs : List Rec) (h : Holds m recs) where
  -- A round with bucket `j` at its place.
  put_bucket-eq :
      (j : ℕ) (t : Tables)
      → j < 256
      → t.sp ≡ plain_total (count recs) j
      → put_bucket (sorted_slots m) (m.slot_counts j) t ≡ record {
        table = t.table ++ (pack t.offset ++ pack (count recs j + count recs j));
        sp = t.sp + count recs j;
        offset = (put_slots (table_of recs j) t.offset t.writer).0;
        writer = (put_slots (table_of recs j) t.offset t.writer).1;
      }
  unfolding put_bucket
  put_bucket-eq j t l e =
      let slots : segment (sorted_slots m) t.sp (m.slot_counts j) ≡ bucket recs j =
        ap (λ i. segment (sorted_slots m) i (m.slot_counts j)) e ∙ taken m recs h j l in
      let max : u32 (m.slot_counts j + m.slot_counts j) ≡ count recs j + count recs j =
        omega (arith, counts_eq m recs h j, count_small m recs h j l) in
      rw (slots, max, counts_eq m recs h j) refl

  put_buckets-layout :
      (left j : ℕ) (t : Tables)
      → j + left ≡ 256
      → t.sp ≡ plain_total (count recs) j
      → t.offset ≡ u32 (place recs j)
      → let t1 = put_buckets (sorted_slots m) m.slot_counts left j t in
        (t1.table ≡ t.table ++ entries recs left j)
        × (content t1.writer ≡ content t.writer ++ tables recs left j)
  unfolding put_buckets entries tables
  put_buckets-layout zero j t l e o =
      (sym (append-nil t.table), sym (append-nil (content t.writer)))
  put_buckets-layout (suc left) j t l e o =
      let slots = table_of recs j in
      let t1 : Tables = record {
        table = t.table ++ (pack t.offset ++ pack (count recs j + count recs j));
        sp = t.sp + count recs j;
        offset = (put_slots slots t.offset t.writer).0;
        writer = (put_slots slots t.offset t.writer).1;
      } in
      let sp_next : t1.sp ≡ plain_total (count recs) (suc j) =
        unfold plain_total in omega (arith, e) in
      let size = (table_of-Placed recs j).size in
      let place_next : place recs j + 8 * length slots ≡ place recs (suc j) =
        unfold plain_total in omega (arith, size) in
      let offset_next : t1.offset ≡ u32 (place recs (suc j)) =
        ap (λ i. (put_slots slots i t.writer).0) o
        ∙ put_slots-offset slots (place recs j) t.writer
        ∙ ap u32 place_next in
      let (et, ec) = put_buckets-layout left (suc j) t1 (omega (arith, l)) sp_next offset_next in
      let round =
        ap (put_buckets (sorted_slots m) m.slot_counts left (suc j))
          (put_bucket-eq j t (omega (arith, l)) e) in
      (
        ap (λ b. b.table) round
            ∙ et
            ∙ append_assoc t.table (pack t.offset ++ pack (count recs j + count recs j))
                (entries recs left (suc j))
            ∙ ap
                (λ i.
                  t.table
                  ++ ((pack i ++ pack (count recs j + count recs j)) ++ entries recs left (suc j)))
                o,
        ap (λ b. content b.writer) round
            ∙ ec
            ∙ ap (λ l. l ++ tables recs left (suc j)) (put_slots-content slots t.offset t.writer)
            ∙ append_assoc (content t.writer) (bytes_of slots) (tables recs left (suc j)),
      )

  -- If a maker holds these records, committing it leaves exactly the main table, the records, and the
  -- tables of the 256 buckets, in this order; nothing is left in the buffer.
  pub commit-layout : commit m ≡ entries recs 256 0 ++ (data_of recs ++ tables recs 256 0)
  unfolding commit
  commit-layout =
      let (et, ec) =
        put_buckets-layout 256 0
          (record { table = []; sp = 0; offset = m.offset; writer = m.writer }) refl
          (unfold plain_total in refl)
          (unfold plain_total in omega (arith, h.offset_eq, offset-lt recs h.bounded)) in
      ap (λ l. l ++ (flush (all_tables m).writer).disk) et
      ∙ ap (λ l. entries recs 256 0 ++ l) (disk ∙ ec ∙ ap (λ l. l ++ tables recs 256 0) h.bytes_eq)
    where
      disk : (flush (all_tables m).writer).disk ≡ content (all_tables m).writer
      disk = unfold flush in refl
