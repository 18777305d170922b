-- ===== src/Cdb/Committed/Lookup.antt =====
-- What a search finds in a committed file.
use cdbx.Base.{
  ℕ, suc, ◌+◌, ◌-◌, ◌*◌, ◌/◌, ◌%◌, ◌≤◌, ◌<◌, ◌≡◌, inl, inr, refl, sym, ap, ◌∙◌, true, false, List,
  [], ◌∷◌, ◌++◌, map, none, ◌==◌, length, arith, Bool-cases,
}
use cdbx.Cdb.Word.{Bytes, u32}
use cdbx.Cdb.Arrays.{filter, filter-filter}
use cdbx.Cdb.Hash.{hash_mem}
use cdbx.Cdb.Slots.{Slot, is_free}
use cdbx.Cdb.Slots.Walk.{walk, run}
use cdbx.Cdb.Slots.Order.{starts_at}
use cdbx.Cdb.Sort.{in_bucket}
use cdbx.Cdb.Maker.{ok}
use cdbx.Cdb.Maker.Holds.{
  Rec, slots_of, file_size, max_size, length-filter_le, length-slots_of, data_of,
}
use cdbx.Cdb.Commit.Layout.{bucket, count, place, table_of, entries, tables, table_of-Placed}
use cdbx.Cdb.File.{Database, read_pointer}
use cdbx.Cdb.Find.{Find, start, at_table, find, search, values}
use cdbx.Cdb.Find.Records.{rec_at}
use cdbx.Cdb.Slots.Placed.{filter-nil}
use cdbx.Cdb.Find.Hits.{is_hit, has_key, value_at_slot, values_of, hit_values}
use cdbx.Cdb.Find.Walks.{Searching, hits}
use cdbx.Cdb.Find.Values.{values-none, values-Searching}
use cdbx.Cdb.Committed.{pointer, bucket-Table}

-- No record stands at offset 0.
rec_at-zero : (off : ℕ) (recs : List Rec) → 0 < off → rec_at off recs 0 ≡ none
unfolding rec_at
rec_at-zero off [] h = refl
rec_at-zero off ((k, v) ∷ recs) h =
    let e : (off == 0) ≡ false = ground arith in
    rw e (rec_at-zero (off + (8 + length k + length v)) recs (omega (arith, h)))

module _ (recs : List Rec) (key : Bytes) where
  -- The length of the table of the key's bucket, and the key's place in it.
  abbrev pub n : ℕ
  n = count recs (hash_mem key % 256) + count recs (hash_mem key % 256)

  abbrev pub pos : ℕ
  pos = hash_mem key / 256 % n

  hit_bucket : (s : Slot) → is_hit recs key s ≡ true → in_bucket (hash_mem key % 256) s ≡ true
  unfolding is_hit
  hit_bucket s h = let e : s.hash ≡ hash_mem key = ground arith in rw e (ground arith)

  pub hit_used : (s : Slot) → is_hit recs key s ≡ true → is_free s ≡ false
  unfolding is_hit
  hit_used s h = elim (Bool-cases (is_free s)) [
    | inr e ↦ e
    | inl e ↦
        let zero_offset : s.offset ≡ 0 = ground arith in
        let no : has_key key (rec_at 2048 recs s.offset) ≡ false =
          ap (λ o. has_key key (rec_at 2048 recs o)) zero_offset
          ∙ ap (has_key key) (rec_at-zero 2048 recs (omega arith)) in
        absurd (ground (arith, no))
  ]

  hit_starts : (s : Slot) → is_hit recs key s ≡ true → starts_at n pos s ≡ true
  unfolding starts_at
  hit_starts s h =
      let used = hit_used s h in
      let e : s.hash ≡ hash_mem key = unfold is_hit in ground arith in
      let same : (s.hash / 256 % n == hash_mem key / 256 % n) ≡ true = rw e (ground arith) in
      rw (used, same) refl

  -- The hits on the walk from the key's place are the hits among all slots, in the order of insertion.
  pub hits-walk :
      0 < n
      → hits recs key (walk n (table_of recs (hash_mem key % 256)) n pos)
        ≡ filter (is_hit recs key) (slots_of 2048 recs)
  hits-walk l =
      let pos_lt : pos < n = grind arith in
      let order = (table_of-Placed recs (hash_mem key % 256)).order pos pos_lt in
      sym (
        filter-filter (is_hit recs key) (starts_at n pos) hit_starts
          (run (walk n (table_of recs (hash_mem key % 256)) n pos)))
      ∙ ap (filter (is_hit recs key)) order.0
      ∙ filter-filter (is_hit recs key) (starts_at n pos) hit_starts
          (bucket recs (hash_mem key % 256))
      ∙ filter-filter (is_hit recs key) (in_bucket (hash_mem key % 256)) hit_bucket
          (slots_of 2048 recs)

  -- An empty bucket has no hit.
  pub no_hits :
      count recs (hash_mem key % 256) ≡ 0 → filter (is_hit recs key) (slots_of 2048 recs) ≡ []
  no_hits e =
      sym (
        filter-filter (is_hit recs key) (in_bucket (hash_mem key % 256)) hit_bucket
          (slots_of 2048 recs))
      ∙ ap (filter (is_hit recs key)) (length-nil (bucket recs (hash_mem key % 256)) e)
      ∙ filter-nil (is_hit recs key)
    where
      length-nil : (xs : List Slot) → length xs ≡ 0 → xs ≡ []
      length-nil [] h = refl
      length-nil (x ∷ xs) h = absurd (omega (arith, h))

module _ (db : Database) (recs : List Rec) (small : file_size recs ≤ max_size)
    (layout : db.file ≡ entries recs 256 0 ++ (data_of recs ++ tables recs 256 0))
    (key : Bytes) where
  read_key_pointer :
      read_pointer db (hash_mem key % 256 * 8)
      ≡ ok (
        u32 (place recs (hash_mem key % 256)),
        count recs (hash_mem key % 256) + count recs (hash_mem key % 256),
      )
  read_key_pointer = pointer db recs small layout (hash_mem key % 256) (omega arith)

  pub started :
      0 < n recs key
      → Searching key
          (place recs (hash_mem key % 256))
          (n recs key)
          (at_table (start key) (u32 (place recs (hash_mem key % 256)), n recs key))
          (pos recs key)
          (n recs key)
  started l =
      let room = (bucket-Table db recs small layout (hash_mem key % 256) (omega arith)).room in
      let here : u32 (place recs (hash_mem key % 256)) ≡ place recs (hash_mem key % 256) =
        omega (arith, room, l) in
      let pos_lt : pos recs key < n recs key = grind arith in
      record {
        key_eq = refl;
        hash_eq = refl;
        table_eq = ap (λ o. (o, n recs key)) here;
        num = omega arith;
        offset_eq = omega (arith, here, room, pos_lt);
        pos_lt = pos_lt;
      }

  pub find-empty :
      count recs (hash_mem key % 256) ≡ 0 → (f1 : Find) × (find db (start key) ≡ ok (none, f1))
  unfolding find
  find-empty e =
      let none_there : (count recs (hash_mem key % 256) + count recs (hash_mem key % 256) == 0)
          ≡ true =
        rw e refl in
      let f1 : Find = record (start key) {
        hash = hash_mem key;
        table = (u32 (place recs (hash_mem key % 256)), n recs key);
      } in
      (f1, rw (read_key_pointer, none_there) refl)

  pub find-start :
      0 < n recs key
      → find db (start key)
        ≡ search
            (n recs key)
            db
            (at_table (start key) (u32 (place recs (hash_mem key % 256)), n recs key))
  unfolding find
  find-start l =
      let some_there : (count recs (hash_mem key % 256) + count recs (hash_mem key % 256) == 0)
          ≡ false =
        ground arith in
      let all_left : n recs key - 0 ≡ n recs key = omega arith in
      rw (read_key_pointer, some_there)
        (ap
          (λ k.
            search k db (at_table (start key) (u32 (place recs (hash_mem key % 256)), n recs key)))
          all_left)

  -- The iterator gives the values of the key in the order of addition.
  pub values-layout :
      (fuel : ℕ) → length recs < fuel → values fuel db (start key) ≡ ok (values_of key recs)
  values-layout fuel l = elim (Bool-cases (count recs (hash_mem key % 256) == 0)) [
    | inl e ↦
        let zero_count : count recs (hash_mem key % 256) ≡ 0 = ground arith in
        let (f1, e1) = find-empty zero_count in
        let no_values : values_of key recs ≡ [] =
          sym (hit_values [] recs key)
          ∙ ap (map (value_at_slot recs)) (no_hits recs key zero_count) in
        let fuel_suc : suc (fuel - 1) ≡ fuel = omega (arith, l) in
        ap (λ k. values k db (start key)) (sym fuel_suc)
        ∙ values-none db (fuel - 1) (start key) f1 e1
        ∙ ap ok (sym no_values)
    | inr e ↦
        let some_count : 0 < n recs key = ground arith in
        let few : length (filter (is_hit recs key) (slots_of 2048 recs)) < fuel = omega (
          arith,
          length-filter_le (is_hit recs key) (slots_of 2048 recs),
          length-slots_of 2048 recs,
          l,
        ) in
        values-Searching db recs (place recs (hash_mem key % 256)) (n recs key)
          (table_of recs (hash_mem key % 256))
          (bucket-Table db recs small layout (hash_mem key % 256) (omega arith)) key fuel
          (start key) (at_table (start key) (u32 (place recs (hash_mem key % 256)), n recs key))
          (pos recs key) (n recs key) (filter (is_hit recs key) (slots_of 2048 recs))
          (find-start some_count) (started some_count) (hits-walk recs key some_count) few
        ∙ ap ok (hit_values [] recs key)
  ]
