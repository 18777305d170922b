-- ===== src/Cdb/Committed/Roundtrip.antt =====
-- The round trip: what was added under a key is what a search for it finds.
use cdbx.Base.{
  ℕ, ◌%◌, ◌≤◌, ◌<◌, ◌≡◌, inl, inr, refl, sym, ap, ◌∙◌, Bool, true, false, List, [], ◌∷◌, ◌++◌, map,
  ◌==◌, length, arith, Bool-cases, not, any, text_eq,
}
use cdbx.Cdb.Word.{Bytes, u32}
use cdbx.Cdb.Arrays.{filter}
use cdbx.Cdb.Hash.{hash_mem}
use cdbx.Cdb.Slots.{Slot}
use cdbx.Cdb.Maker.{Maker, Object, ok, create, add_all, cstring, bind}
use cdbx.Cdb.Maker.Holds.{Rec, slots_of, file_size, max_size, create-Holds, data_of}
use cdbx.Cdb.Maker.Outcomes.{Converted, add_all-Holds}
use cdbx.Cdb.Commit.{commit}
use cdbx.Cdb.Commit.Layout.{count, place, table_of, entries, tables}
use cdbx.Cdb.Commit.Result.{commit-layout}
use cdbx.Cdb.File.{Database}
use cdbx.Cdb.Find.{start, at_table, find, values, contains}
use cdbx.Cdb.Find.Hits.{is_hit, value_at_slot, values_of, hit_values}
use cdbx.Cdb.Committed.{bucket-Table}
use cdbx.Cdb.Find.{is_found}
use cdbx.Cdb.Find.Walks.{search-none, search-some}
use cdbx.Cdb.Committed.Lookup.{
  n, pos, hits-walk, no_hits, started, find-empty, find-start, values-layout,
}

abbrev not_nil : {A : Type 0} → List A → Bool
not_nil [] = false
not_nil (x ∷ xs) = true

any-values_of :
    (key : Bytes) (recs : List Rec) → any (λ r. text_eq r.0 key) recs ≡ not_nil (values_of key recs)
any-values_of key [] = refl
any-values_of key ((k, v) ∷ recs) = elim (Bool-cases (text_eq k key)) [
  | inl h ↦ rw h refl
  | inr h ↦ rw h (any-values_of key recs)
]

not_nil-map : {A B : Type 0} (f : A → B) (xs : List A) → not_nil (map f xs) ≡ not_nil xs
not_nil-map f [] = refl
not_nil-map f (x ∷ xs) = refl

hits-any :
    (recs : List Rec) (key : Bytes) (others : List Slot)
    → filter (is_hit recs key) (slots_of 2048 recs) ≡ others
    → not_nil others ≡ any (λ r. text_eq r.0 key) recs
hits-any recs key others h =
    ap not_nil (sym h)
    ∙ sym (not_nil-map (value_at_slot recs) (filter (is_hit recs key) (slots_of 2048 recs)))
    ∙ ap not_nil (hit_values [] recs key)
    ∙ sym (any-values_of key recs)

module _ (db : Database) (recs : List Rec) (small : file_size recs ≤ max_size)
    (layout : db.file ≡ entries recs 256 0 ++ (data_of recs ++ tables recs 256 0))
    (key : Bytes) where
  find-searched :
      (others : List Slot)
      → filter (is_hit recs key) (slots_of 2048 recs) ≡ others
      → 0 < n recs key
      → bind (find db (start key)) (λ (found, _). ok (is_found found)) ≡ ok (not_nil others)
  find-searched [] h l =
      let (f1, e1) =
        search-none db recs (place recs (hash_mem key % 256)) (n recs key)
          (table_of recs (hash_mem key % 256))
          (bucket-Table db recs small layout (hash_mem key % 256) (omega arith)) key (n recs key)
          (at_table (start key) (u32 (place recs (hash_mem key % 256)), n recs key)) (pos recs key)
          (started db recs small layout key l) (hits-walk recs key l ∙ h) in
      ap (λ r. bind r (λ (found, _). ok (is_found found)))
        (find-start db recs small layout key l ∙ e1)
  find-searched (s ∷ others) h l =
      let r =
        search-some db recs (place recs (hash_mem key % 256)) (n recs key)
          (table_of recs (hash_mem key % 256))
          (bucket-Table db recs small layout (hash_mem key % 256) (omega arith)) key (n recs key)
          (at_table (start key) (u32 (place recs (hash_mem key % 256)), n recs key)) (pos recs key)
          s others (started db recs small layout key l) (hits-walk recs key l ∙ h) in
      let there : (r.value.0 == 0) ≡ false = ground (arith, r.positive) in
      ap (λ r. bind r (λ (found, _). ok (is_found found)))
        (find-start db recs small layout key l ∙ r.found)
      ∙ ap (λ b. ok (not b)) there

  contains-layout :
      bind (find db (start key)) (λ (found, _). ok (is_found found))
      ≡ ok (any (λ r. text_eq r.0 key) recs)
  contains-layout = elim (Bool-cases (count recs (hash_mem key % 256) == 0)) [
    | inl e ↦
        let zero_count : count recs (hash_mem key % 256) ≡ 0 = ground arith in
        let (f1, e1) = find-empty db recs small layout key zero_count in
        ap (λ r. bind r (λ (found, _). ok (is_found found))) e1
        ∙ ap ok (hits-any recs key [] (no_hits recs key zero_count))
    | inr e ↦
        let some_count : 0 < n recs key = ground arith in
        find-searched (filter (is_hit recs key) (slots_of 2048 recs)) refl some_count
        ∙ ap ok (hits-any recs key (filter (is_hit recs key) (slots_of 2048 recs)) refl)
  ]

-- Keys and values that can be converted to bytes are added to a fresh maker. If the file, with two
-- slots for each record, stays within 2^32 bytes, all additions succeed, and in the committed file,
-- mapped or not, the iterator of a key that can be converted gives exactly the values that were added
-- under it, in the order of addition. Fuel for a round more than there are records is enough.
pub add-commit-values :
    (objects : List (Object × Object)) (recs : List Rec) (mapped : Bool) (key : Object) (k : Bytes)
    (fuel : ℕ)
    → Converted objects recs
    → file_size recs ≤ max_size
    → cstring key ≡ ok k
    → length recs < fuel
    → (m : Maker) × (add_all create objects ≡ ok m)
      × (bind
            (cstring key)
            (λ c. values fuel (record { file = commit m; mapped = mapped }) (start c))
          ≡ ok (values_of k recs))
add-commit-values objects recs mapped key k fuel c small e l =
    let (m, added, h) = add_all-Holds create [] recs objects create-Holds c small in
    (
      m,
      added,
      rw e (
          values-layout (record { file = commit m; mapped = mapped }) recs small
            (commit-layout m recs h) k fuel l),
    )

-- Keys and values that can be converted to bytes are added to a fresh maker. If the file, with two
-- slots for each record, stays within 2^32 bytes, all additions succeed, and on the committed file,
-- mapped or not, the membership test of a key that can be converted says yes exactly if a value was
-- added under it.
pub add-commit-contains :
    (objects : List (Object × Object)) (recs : List Rec) (mapped : Bool) (key : Object) (k : Bytes)
    → Converted objects recs
    → file_size recs ≤ max_size
    → cstring key ≡ ok k
    → (m : Maker) × (add_all create objects ≡ ok m)
      × (contains (record { file = commit m; mapped = mapped }) key
          ≡ ok (any (λ r. text_eq r.0 k) recs))
add-commit-contains objects recs mapped key k c small e =
    let (m, added, h) = add_all-Holds create [] recs objects create-Holds c small in
    (
      m,
      added,
      unfold contains in
          rw e (
            contains-layout (record { file = commit m; mapped = mapped }) recs small
              (commit-layout m recs h) k),
    )
