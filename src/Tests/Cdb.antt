-- ===== src/Tests/Cdb.antt =====
-- The constructor and the reader of a database on small inputs.
use cdbx.Base.{
  none, ℕ, ◌≡◌, refl, inl, true, false, List, [], ◌∷◌, ◌++◌, length, replicate, length-replicate,
  arith, text_eq,
}
use mathlib.Core.List.{reverse}
use cdbx.Cdb.Word.{Bytes, u32}
use cdbx.Cdb.Calls.{
  Call, add_call, commit_call, close_call, fileno_call, by_name, new_maker, run_calls,
}
use cdbx.Cdb.Calls.Phases.{working, promised, run_calls-promised}
use cdbx.Cdb.File.{compare_key}
use cdbx.Cdb.File.Compare.{compare_key-At}
use cdbx.Cdb.Arrays.{filter}
use cdbx.Cdb.Hash.{hash_blocks, hash_from, hash_mem, hash_blocks-hash_from}
use cdbx.Cdb.Slots.{Slot, slot_table}
use cdbx.Cdb.Slots.Order.{Placed, slot_table-Placed}
use cdbx.Cdb.Sort.{segment, distribute, starts_of, total, count_in, in_bucket}
use cdbx.Cdb.Sort.Buckets.{distribute-buckets}
use cdbx.Cdb.Writer.{Written, write, write-Written}
use cdbx.Cdb.Maker.{
  Maker, Object, byte_string, unicode, ok, failed, overflow, create, cstring, add, add_all, bind,
  fresh_block,
}
use cdbx.Cdb.Maker.Holds.{Rec, create-Holds, Holds, data_of}
use cdbx.Cdb.Maker.Add.{after, after-Holds}
use cdbx.Cdb.Maker.Outcomes.{add-fits, add-full}
use cdbx.Cdb.Commit.{commit}
use cdbx.Cdb.Commit.Layout.{entries, tables, sum_counts}
use cdbx.Cdb.Commit.Result.{commit-layout}
use cdbx.Cdb.Find.{start, values, contains}
use cdbx.Cdb.Iter.{iter_keys, count_records}
use cdbx.Cdb.Iter.Whole.{add-commit-iter_keys}
use cdbx.Cdb.Committed.Roundtrip.{add-commit-values, add-commit-contains}

-- Two values under the key `a`, one under `b`, which is given as a text.
abbrev objects : List (Object × Object)
objects =
    (byte_string (97 ∷ []), byte_string (49 ∷ []))
    ∷ (unicode (98 ∷ []), byte_string (50 ∷ []))
    ∷ (byte_string (97 ∷ []), unicode (51 ∷ []))
    ∷ []

abbrev recs : List Rec
recs = (97 ∷ [], 49 ∷ []) ∷ (98 ∷ [], 50 ∷ []) ∷ (97 ∷ [], 51 ∷ []) ∷ []

add-commit-values_example :
    (m : Maker) × (add_all create objects ≡ ok m)
    × (bind
          (cstring (byte_string (97 ∷ [])))
          (λ c. values 4 (record { file = commit m; mapped = true }) (start c))
        ≡ ok ((49 ∷ []) ∷ (51 ∷ []) ∷ []))
unfolding cstring text_eq
add-commit-values_example =
    add-commit-values objects recs true (byte_string (97 ∷ [])) (97 ∷ []) 4
      (refl, refl, (refl, refl, (refl, refl, tt))) (omega arith) refl (omega arith)

add-commit-contains_example :
    (m : Maker) × (add_all create objects ≡ ok m)
    × (contains (record { file = commit m; mapped = false }) (byte_string (99 ∷ [])) ≡ ok false)
unfolding cstring text_eq
add-commit-contains_example =
    add-commit-contains objects recs false (byte_string (99 ∷ [])) (99 ∷ [])
      (refl, refl, (refl, refl, (refl, refl, tt))) (omega arith) refl

add-commit-iter_keys_example :
    (m : Maker) × (add_all create objects ≡ ok m)
    × (iter_keys 4 (record { file = commit m; mapped = false }) false
        ≡ ok ((97 ∷ []) ∷ (98 ∷ []) ∷ []))
    × (count_records 4 (record { file = commit m; mapped = false }) ≡ ok (2, 3))
unfolding cstring text_eq
add-commit-iter_keys_example =
    add-commit-iter_keys objects recs false false 4 (refl, refl, (refl, refl, (refl, refl, tt)))
      (omega arith) (omega arith)

add-fits_example :
    (m1 : Maker) × (add create (byte_string (97 ∷ [])) (unicode (49 ∷ [])) ≡ ok m1)
    × Holds m1 ((97 ∷ [], 49 ∷ []) ∷ [])
unfolding cstring
add-fits_example =
    add-fits create [] (byte_string (97 ∷ [])) (unicode (49 ∷ [])) (97 ∷ []) (49 ∷ []) create-Holds
      refl refl (omega arith)

-- Bytes for which no file has room.
bytes_of_length : (n : ℕ) → (v : Bytes) × (length v ≡ n)
bytes_of_length n = (replicate n 0, length-replicate n 0)

long : (v : Bytes) × (length v ≡ 4294967290)
long = bytes_of_length 4294967290

cstring-long : cstring (byte_string long.0) ≡ ok long.0
unfolding cstring
cstring-long = rw long.1 refl

add-full_example : add create (byte_string (97 ∷ [])) (byte_string long.0) ≡ failed overflow
unfolding cstring
add-full_example =
    add-full create [] (byte_string (97 ∷ [])) (byte_string long.0) (97 ∷ []) long.0 create-Holds
      refl cstring-long (omega (arith, long.1))

-- A maker with one record.
abbrev one_record : Maker
one_record = after create (97 ∷ []) (49 ∷ [])

commit-layout_example :
    commit one_record
    ≡ entries ((97 ∷ [], 49 ∷ []) ∷ []) 256 0
      ++ (data_of ((97 ∷ [], 49 ∷ []) ∷ []) ++ tables ((97 ∷ [], 49 ∷ []) ∷ []) 256 0)
commit-layout_example =
    commit-layout one_record ((97 ∷ [], 49 ∷ []) ∷ [])
      (after-Holds create [] (97 ∷ []) (49 ∷ []) create-Holds (omega arith))

-- Slots of two buckets; two of them ask for the same place.
abbrev one_slot : Slot
one_slot = record { hash = 257; offset = 2048 }

abbrev other_slot : Slot
other_slot = record { hash = 1281; offset = 2060 }

abbrev third_slot : Slot
third_slot = record { hash = 7; offset = 2072 }

abbrev stored_slots : List Slot
stored_slots = third_slot ∷ other_slot ∷ one_slot ∷ []

distribute-buckets_example :
    segment
      (distribute stored_slots (starts_of (λ j. count_in j stored_slots)) fresh_block)
      (total (λ j. count_in j stored_slots) 1)
      (count_in 1 stored_slots)
    ≡ filter (in_bucket 1) (reverse stored_slots)
distribute-buckets_example =
    distribute-buckets (λ j. count_in j stored_slots) (omega (arith, sum_counts stored_slots))
      stored_slots fresh_block (λ j l. refl) 1 (omega arith)

slot_table-Placed_example :
    Placed 4 (slot_table 4 (one_slot ∷ other_slot ∷ [])) (one_slot ∷ other_slot ∷ [])
slot_table-Placed_example = slot_table-Placed (one_slot ∷ other_slot ∷ []) (refl, (refl, tt))

write-Written_example :
    Written
      (97 ∷ 98 ∷ [])
      5381
      (record { disk = []; buf = 99 ∷ [] })
      (write 3 (97 ∷ 98 ∷ []) 5381 (record { disk = []; buf = 99 ∷ [] }))
write-Written_example =
    write-Written 3 (97 ∷ 98 ∷ []) 5381 (record { disk = []; buf = 99 ∷ [] }) (omega arith)
      (inl (omega arith))

hash_blocks-hash_from_example : hash_blocks 2 5381 (97 ∷ 98 ∷ []) ≡ hash_from 5381 (97 ∷ 98 ∷ [])
hash_blocks-hash_from_example = hash_blocks-hash_from 2 5381 (97 ∷ 98 ∷ []) (omega arith)

-- The hash of `a`, as the tool cdb computes it.
hash_mem_a : hash_mem (97 ∷ []) ≡ 177604
unfolding hash_mem
hash_mem_a = refl

one_after_the_other :
    slot_table 4 (one_slot ∷ other_slot ∷ [])
    ≡ record { hash = 0; offset = 0 } ∷ one_slot ∷ other_slot ∷ record { hash = 0; offset = 0 } ∷ []
unfolding slot_table
one_after_the_other = refl

-- Calls behind a commit.
abbrev calls : List Call
calls =
    add_call (byte_string (97 ∷ [])) (byte_string (49 ∷ []))
    ∷ commit_call
    ∷ add_call (byte_string (98 ∷ [])) (byte_string (50 ∷ []))
    ∷ fileno_call
    ∷ close_call
    ∷ []

run_calls-promised_example :
    run_calls (new_maker by_name 3 false none) calls
    ≡ promised by_name 3 false none (working create) calls
run_calls-promised_example = run_calls-promised by_name 3 false none calls

-- A value that stands in the middle of a file, compared by blocks.
compare_key-At_example :
    compare_key (record { file = 1 ∷ 97 ∷ 98 ∷ 2 ∷ []; mapped = false }) (u32 1) (97 ∷ 99 ∷ [])
    ≡ ok false
unfolding text_eq
compare_key-At_example =
    compare_key-At (record { file = 1 ∷ 97 ∷ 98 ∷ 2 ∷ []; mapped = false }) 1 (97 ∷ 98 ∷ [])
      (97 ∷ 99 ∷ []) (1 ∷ [], 2 ∷ [], refl, refl) refl (omega arith)
