-- ===== src/Cdb/Iter/Found.antt =====
-- The search for a key in the file of a committed database.
use cdbx.Base.{
  ℕ, zero, suc, ◌+◌, ◌*◌, ◌%◌, ◌≤◌, ◌<◌, ◌≡◌, inl, inr, refl, sym, ap, ◌∙◌, true, false, List, ◌++◌,
  Option, none, some, ◌==◌, length, if◌then◌else◌, arith, Bool-cases,
}
use cdbx.Cdb.Word.{Bytes, u32}
use cdbx.Cdb.Hash.{hash_mem}
use cdbx.Cdb.Slots.{Slot, is_free}
use cdbx.Cdb.Slots.Walk.{at}
use cdbx.Cdb.Maker.{Outcome, ok, failed, bind}
use cdbx.Cdb.Maker.Holds.{Rec, file_size, max_size, data_of}
use cdbx.Cdb.Commit.Layout.{count, place, table_of, entries, tables}
use cdbx.Cdb.Committed.{pointer, bucket-Table}
use cdbx.Cdb.Committed.Lookup.{n, pos, started, find-empty, find-start}
use cdbx.Cdb.File.{Database, read_slot, read_pointer, compare_key}
use cdbx.Cdb.File.Reads.{At}
use cdbx.Cdb.Find.{Find, start, at_table, advance, visit, search, resume, find}
use cdbx.Cdb.Find.Records.{Described}
use cdbx.Cdb.Find.Walks.{Table, Searching, advance-Searching}
use cdbx.Cdb.Iter.{FindDisk, visit_disk, search_disk, found_or, find_disk, start_disk, compare_disk}
use cdbx.Cdb.Iter.Disk.{compare_disk-eq, key_hash-At}

-- The same search, for a key in the file.
abbrev disk_of : ℕ → Find → FindDisk
disk_of place f = record {
  key_disk = place;
  key_length = length f.key;
  hash = f.hash;
  table = f.table;
  table_offset = f.table_offset;
}

-- What was found, without the state behind it.
abbrev pub found_in : Outcome (Option (ℕ × ℕ) × Find) → Outcome (Option (ℕ × ℕ))
found_in r = bind r (λ (found, f). ok found)

module _ (db : Database) (recs : List Rec) (kpos : ℕ) (f : Find) (there : At db.file kpos f.key)
    (room : kpos + length f.key < 4294967296) (s : Slot) (d : Described db recs s) where
  visit_disk-visit : visit_disk db (disk_of kpos f) s ≡ visit db f s
  unfolding visit_disk visit
  visit_disk-visit = elim (Bool-cases (s.hash == f.hash)) [
    | inr e ↦ rw e refl
    | inl e ↦ elim (Bool-cases (length d.key == length f.key)) [
      | inr l ↦ rw (e, d.lengths, l) refl
      | inl l ↦
          let same : length d.key ≡ length f.key = ground arith in
          let here : u32 (s.offset + 8) ≡ s.offset + 8 = omega (arith, d.room) in
          let compared : compare_disk db (u32 (s.offset + 8)) kpos (length f.key)
              ≡ compare_key db (u32 (s.offset + 8)) f.key =
            ap (λ o. compare_disk db o kpos (length f.key)) here
            ∙ compare_disk-eq db (s.offset + 8) kpos d.key f.key d.key_at there same
                (omega (arith, d.room)) room
            ∙ ap (λ o. compare_key db o f.key) (sym here) in
          rw (e, d.lengths, l, compared) refl
    ]
  ]

module _ (db : Database) (recs : List Rec) (place n : ℕ) (table : List Slot)
    (t : Table db recs place n table) (key : Bytes) (kpos : ℕ) (there : At db.file kpos key)
    (room : kpos + length key < 4294967296) where
  -- The two searches find the same.
  search_disk-search :
      (left : ℕ) (f : Find) (pos : ℕ)
      → Searching key place n f pos left
      → search_disk left db (disk_of kpos f) ≡ found_in (search left db f)
  search_disk-search zero f pos s = unfold search_disk search in refl
  search_disk-search (suc left) f pos s =
      let got : read_slot db f.table_offset ≡ ok (at table pos) =
        ap (read_slot db) s.offset_eq ∙ t.readable pos s.pos_lt in
      let next =
        search_disk-search left (advance f) ((pos + 1) % n)
          (advance-Searching db recs place n table t key f pos left s) in
      elim (Bool-cases (is_free (at table pos))) [
        | inl e ↦ free left f (at table pos) got e
        | inr e ↦
            let d : Described db recs (at table pos) = elim (t.described pos s.pos_lt) [
              | inl k ↦ absurd (cc (sym k ∙ e))
              | inr d ↦ d
            ] in
            let here : At db.file kpos f.key = rw s.key_eq there in
            let fits : kpos + length f.key < 4294967296 = omega (arith, room, ap length s.key_eq) in
            used left f (at table pos) got e
              (visit_disk-visit db recs kpos f here fits (at table pos) d) next
      ]
    where
      free :
          (left : ℕ) (f : Find) (slot : Slot)
          → read_slot db f.table_offset ≡ ok slot
          → is_free slot ≡ true
          → search_disk (suc left) db (disk_of kpos f) ≡ found_in (search (suc left) db f)
      free left f slot got e = unfold search_disk search in rw (got, e) refl

      passed :
          (found : Option (ℕ × ℕ)) (f : Find) (rest : Outcome (Option (ℕ × ℕ) × Find))
          (rest' : Outcome (Option (ℕ × ℕ)))
          → rest' ≡ found_in rest
          → found_or found rest' ≡ found_in (resume found f rest)
      passed none f rest rest' h = h
      passed (some v) f rest rest' h = refl

      bound :
          (visited : Outcome (Option (ℕ × ℕ))) (f : Find) (rest : Outcome (Option (ℕ × ℕ) × Find))
          (rest' : Outcome (Option (ℕ × ℕ)))
          → rest' ≡ found_in rest
          → bind visited (λ found. found_or found rest')
            ≡ found_in (bind visited (λ found. resume found f rest))
      bound (ok found) f rest rest' h = passed found f rest rest' h
      bound (failed e) f rest rest' h = refl

      used :
          (left : ℕ) (f : Find) (slot : Slot)
          → read_slot db f.table_offset ≡ ok slot
          → is_free slot ≡ false
          → visit_disk db (disk_of kpos f) slot ≡ visit db f slot
          → search_disk left db (disk_of kpos (advance f)) ≡ found_in (search left db (advance f))
          → search_disk (suc left) db (disk_of kpos f) ≡ found_in (search (suc left) db f)
      used left f slot got e v next =
          unfold search_disk search in
          rw (got, e, v)
            (bound (visit db f slot) (advance f) (search left db (advance f))
              (search_disk left db (disk_of kpos (advance f))) next)

module _ (db : Database) (recs : List Rec) (small : file_size recs ≤ max_size)
    (layout : db.file ≡ entries recs 256 0 ++ (data_of recs ++ tables recs 256 0)) (key : Bytes)
    (kpos : ℕ) (there : At db.file kpos key) (room : kpos + length key < 4294967296) where
  behind_pointer :
      (t : ℕ × ℕ)
      → read_pointer db (hash_mem key % 256 * 8) ≡ ok t
      → find_disk db kpos (length key) ≡ (
          if t.1 == 0
          then ok none
          else search_disk t.1 db (start_disk kpos (length key) (hash_mem key) t))
  behind_pointer t e = unfold find_disk in rw (key_hash-At db kpos key there, e) refl

  -- The search for a key in the file finds what the one for the same key in memory finds.
  pub find_disk-find : find_disk db kpos (length key) ≡ found_in (find db (start key))
  find_disk-find =
      let table : ℕ × ℕ = (u32 (place recs (hash_mem key % 256)), n recs key) in
      let begun =
        behind_pointer table (pointer db recs small layout (hash_mem key % 256) (omega arith)) in
      elim (Bool-cases (n recs key == 0)) [
        | inl e ↦
            let zero_count : count recs (hash_mem key % 256) ≡ 0 = ground arith in
            let (f1, e1) = find-empty db recs small layout key zero_count in
            begun ∙ (rw e refl) ∙ sym (ap found_in e1)
        | inr e ↦
            let some_count : 0 < n recs key = ground arith in
            begun
            ∙ (rw e refl)
            ∙ search_disk-search db recs (place recs (hash_mem key % 256)) (n recs key)
                (table_of recs (hash_mem key % 256))
                (bucket-Table db recs small layout (hash_mem key % 256) (omega arith)) key kpos
                there room (n recs key) (at_table (start key) table) (pos recs key)
                (started db recs small layout key some_count)
            ∙ sym (ap found_in (find-start db recs small layout key some_count))
      ]
