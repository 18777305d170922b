-- ===== src/Cdb/Iter/Whole.antt =====
-- The iterator and the count of the records, on the file of what was added.
use cdbx.Base.{
  ℕ, zero, suc, ◌+◌, ◌≤◌, ◌<◌, ◌≡◌, refl, sym, ap, ◌∙◌, Bool, true, false, ◌||◌, List, [], ◌∷◌,
  ◌++◌, append_assoc, append-nil, none, some, ltb, length, length-append, if◌then◌else◌, arith,
}
use mathlib.Core.Path.{subst}
use cdbx.Cdb.Word.{Bytes, u32, pack, unpack, unpack-pack}
use cdbx.Cdb.Sort.{plain_total}
use cdbx.Cdb.Maker.{Maker, Object, Outcome, ok, bind, create, add_all}
use cdbx.Cdb.Maker.Holds.{
  Rec, data_of, data_size, data_size-snoc, file_size, max_size, create-Holds,
}
use cdbx.Cdb.Maker.Outcomes.{Converted, add_all-Holds}
use cdbx.Cdb.Commit.{commit}
use cdbx.Cdb.Commit.Layout.{place, count, entries, tables}
use cdbx.Cdb.Commit.Result.{commit-layout}
use cdbx.Cdb.Committed.{whole, behind}
use cdbx.Cdb.File.{Database, read}
use cdbx.Cdb.File.Reads.{At, At-left, read-At}
use cdbx.Cdb.Iter.{
  Item, iter_next, give, keys_from, iter_keys, count_from, count_records, read_sentinel,
}
use cdbx.Cdb.Iter.Keys.{is_new, this_item, iter_next-this_item, read_key, behind_record}

-- The keys of records behind others: all of them, or those that are new.
abbrev pub keys_in : Bool → List Rec → List Rec → List Bytes
keys_in all seen [] = []
keys_in all seen ((k, v) ∷ recs) =
    if is_new seen k || all
    then k ∷ keys_in all (seen ++ (k, v) ∷ []) recs
    else keys_in all (seen ++ (k, v) ∷ []) recs

data_size-append :
    (front rest : List Rec) → data_size (front ++ rest) ≡ data_size front + data_size rest
data_size-append [] rest = omega arith
data_size-append (r ∷ front) rest = let more = data_size-append front rest in omega (arith, more)

module _ (db : Database) (recs : List Rec) (small : file_size recs ≤ max_size)
    (layout : db.file ≡ entries recs 256 0 ++ (data_of recs ++ tables recs 256 0)) where
  abbrev sentinel : ℕ
  sentinel = 2048 + data_size recs

  -- The rest of the records stands behind those in front.
  record Rest (front rest : List Rec) : Type 0 where
    parts : front ++ rest ≡ recs
    here : At db.file (2048 + data_size front) (data_of rest)

  at_end :
      (front : List Rec) → Rest front [] → iter_next db sentinel (2048 + data_size front) ≡ ok none
  unfolding iter_next
  at_end front r =
      let e = data_size-append front [] in
      let no : ltb (2048 + data_size front) sentinel ≡ false =
        ground (arith, e, ap data_size r.parts) in
      rw no refl

  module _ (front : List Rec) (k v : Bytes) (rest : List Rec) (r : Rest front ((k, v) ∷ rest)) where
    small' : file_size (front ++ (k, v) ∷ rest) ≤ max_size
    small' = subst (λ l. file_size l ≤ max_size) (sym r.parts) small

    layout' :
        db.file
        ≡ entries (front ++ (k, v) ∷ rest) 256 0
          ++ (data_of (front ++ (k, v) ∷ rest) ++ tables (front ++ (k, v) ∷ rest) 256 0)
    layout' =
        subst (λ l. db.file ≡ entries l 256 0 ++ (data_of l ++ tables l 256 0)) (sym r.parts) layout

    before : 2048 + data_size front < sentinel
    before = omega (arith, data_size-append front ((k, v) ∷ rest), ap data_size r.parts)

    room : 2048 + data_size front + (8 + length k + length v) < 4294967296
    room =
        omega (
          arith,
          data_size-append front ((k, v) ∷ rest),
          length-append front ((k, v) ∷ rest),
          small',
        )

    step :
        iter_next db sentinel (2048 + data_size front)
        ≡ ok (
            some (
              this_item db front k v rest small' layout' r.here sentinel before room,
              2048 + data_size front + (8 + length k + length v),
            ))
    step = iter_next-this_item db front k v rest small' layout' r.here sentinel before room

    snoc :
        2048 + data_size (front ++ (k, v) ∷ []) ≡ 2048 + data_size front + (8 + length k + length v)
    snoc = omega (arith, data_size-snoc front (k, v))

    next : Rest (front ++ (k, v) ∷ []) rest
    next = record {
      parts = append_assoc front ((k, v) ∷ []) rest ∙ r.parts;
      here =
          subst (λ o. At db.file o (data_of rest)) (sym snoc)
            (behind_record db front k v rest small' layout' r.here sentinel before room);
    }

  keys_from-keys_in :
      (fuel : ℕ) (all : Bool) (front rest : List Rec)
      → Rest front rest
      → length rest < fuel
      → keys_from fuel db all sentinel (2048 + data_size front) ≡ ok (keys_in all front rest)
  keys_from-keys_in zero all front rest r l = absurd (omega (arith, l))
  keys_from-keys_in (suc fuel) all front [] r l = unfold keys_from in rw (at_end front r) refl
  keys_from-keys_in (suc fuel) all front ((k, v) ∷ rest) r l =
      let ih : keys_from fuel db all sentinel (2048 + data_size front + (8 + length k + length v))
          ≡ ok (keys_in all (front ++ (k, v) ∷ []) rest) =
        ap (keys_from fuel db all sentinel) (sym (snoc front k v rest r))
        ∙ keys_from-keys_in fuel all (front ++ (k, v) ∷ []) rest (next front k v rest r)
            (omega (arith, l)) in
      let got =
        read_key db front k v rest (small' front k v rest r) (layout' front k v rest r) r.here
          sentinel (before front k v rest r) (room front k v rest r) in
      let it : Item =
        this_item db front k v rest (small' front k v rest r) (layout' front k v rest r) r.here
          sentinel (before front k v rest r) (room front k v rest r) in
      first_step fuel all front k v rest r
      ∙ ap (give db all it) ih
      ∙ given (2048 + data_size front + 8) (length k) k (is_new front k || all) got
          (keys_in all (front ++ (k, v) ∷ []) rest)
    where
      first_step :
          (fuel : ℕ) (all : Bool) (front : List Rec) (k v : Bytes) (rest : List Rec)
          (r : Rest front ((k, v) ∷ rest))
          → keys_from (suc fuel) db all sentinel (2048 + data_size front)
            ≡ give db all
                (this_item db front k v rest
                  (small' front k v rest r)
                  (layout' front k v rest r)
                  r.here
                  sentinel
                  (before front k v rest r)
                  (room front k v rest r))
                (keys_from fuel db all sentinel
                  (2048 + data_size front + (8 + length k + length v)))
      first_step fuel all front k v rest r = unfold keys_from in rw (step front k v rest r) refl

      given :
          (o l : ℕ) (key : Bytes) (b : Bool)
          → read db o l ≡ ok key
          → (keys : List Bytes)
          → (if b then bind (read db o l) (λ k. bind (ok keys) (λ ks. ok (k ∷ ks))) else ok keys)
            ≡ ok (if b then key ∷ keys else keys)
      given o l key true h keys = rw h refl
      given o l key false h keys = refl

  count_from-counts :
      (fuel : ℕ) (front rest : List Rec)
      → Rest front rest
      → length rest < fuel
      → count_from fuel db sentinel (2048 + data_size front)
        ≡ ok (length (keys_in false front rest), length rest)
  count_from-counts zero front rest r l = absurd (omega (arith, l))
  count_from-counts (suc fuel) front [] r l = unfold count_from in rw (at_end front r) refl
  count_from-counts (suc fuel) front ((k, v) ∷ rest) r l =
      let ih : count_from fuel db sentinel (2048 + data_size front + (8 + length k + length v))
          ≡ ok (length (keys_in false (front ++ (k, v) ∷ []) rest), length rest) =
        ap (count_from fuel db sentinel) (sym (snoc front k v rest r))
        ∙ count_from-counts fuel (front ++ (k, v) ∷ []) rest (next front k v rest r)
            (omega (arith, l)) in
      first_step fuel front k v rest r
      ∙ ap
          (λ c.
            bind c
              (λ (keys, records). ok ((if is_new front k then suc keys else keys), suc records)))
          ih
      ∙ counted (is_new front k) k (keys_in false (front ++ (k, v) ∷ []) rest) (length rest)
    where
      first_step :
          (fuel : ℕ) (front : List Rec) (k v : Bytes) (rest : List Rec)
          (r : Rest front ((k, v) ∷ rest))
          → count_from (suc fuel) db sentinel (2048 + data_size front)
            ≡ bind
                (count_from fuel db sentinel (2048 + data_size front + (8 + length k + length v)))
                (λ (keys, records). ok ((if is_new front k then suc keys else keys), suc records))
      first_step fuel front k v rest r = unfold count_from in rw (step front k v rest r) refl

      counted :
          (b : Bool) (k : Bytes) (keys : List Bytes) (records : ℕ)
          → ◌≡◌ {A = Outcome (ℕ × ℕ)}
              (ok ((if b then suc (length keys) else length keys), suc records))
              (ok (length (if b || false then k ∷ keys else keys), suc records))
      counted true k keys records = refl
      counted false k keys records = refl

  all_records : Rest [] recs
  all_records = record {
    parts = refl;
    here = At-left db.file 2048 (data_of recs) (tables recs 256 0) (behind db recs small layout);
  }

  data_lt : 2048 + data_size recs < 4294967296
  data_lt = few recs small
    where
      few : (recs : List Rec) → file_size recs ≤ max_size → 2048 + data_size recs < 4294967296
      few [] h = omega arith
      few (r ∷ recs) h = omega (arith, h)

  read_sentinel-eq : read_sentinel db ≡ ok sentinel
  unfolding read_sentinel
  read_sentinel-eq =
      let first = pack (u32 (place recs 0)) in
      let table : At db.file 0 (entries recs 256 0) =
        At-left db.file 0 (entries recs 256 0) (data_of recs ++ tables recs 256 0)
          (whole db recs small layout) in
      let got : read db 0 4 ≡ ok first =
        unfold pack in read-At db 0 (pack (u32 (place recs 0))) (in_front table) in
      let value : unpack first ≡ sentinel =
        unfold plain_total in
        ap unpack (sym (append-nil first))
        ∙ unpack-pack (u32 (place recs 0)) [] (omega arith)
        ∙ (omega (arith, data_lt)) in
      rw got (ap ok value)
    where
      in_front : At db.file 0 (entries recs 256 0) → At db.file 0 (pack (u32 (place recs 0)))
      in_front h =
          unfold entries in
          At-left db.file 0 (pack (u32 (place recs 0))) (pack (count recs 0 + count recs 0)) (
            At-left db.file 0 (pack (u32 (place recs 0)) ++ pack (count recs 0 + count recs 0))
              (entries recs 255 1) h)

  iter_keys-layout :
      (fuel : ℕ) (all : Bool)
      → length recs < fuel
      → iter_keys fuel db all ≡ ok (keys_in all [] recs)
  iter_keys-layout fuel all l =
      unfold iter_keys in
      ap (λ r. bind r (λ s. keys_from fuel db all s 2048)) read_sentinel-eq
      ∙ keys_from-keys_in fuel all [] recs all_records l

  count_records-layout :
      (fuel : ℕ)
      → length recs < fuel
      → count_records fuel db ≡ ok (length (keys_in false [] recs), length recs)
  count_records-layout fuel l =
      unfold count_records in
      ap (λ r. bind r (λ s. count_from fuel db s 2048)) read_sentinel-eq
      ∙ count_from-counts fuel [] recs all_records l

-- Keys and values that can be converted to bytes are added to a fresh maker. If the file, with two
-- slots for each record, stays within 2^32 bytes, all additions succeed, and on the committed file,
-- mapped or not, the iterator gives the keys in the order of addition, with the flag those of all
-- records and without it each key once, where it was added first; the count gives the number of
-- these keys and that of the records. Fuel for a round more than there are records is enough.
pub add-commit-iter_keys :
    (objects : List (Object × Object)) (recs : List Rec) (mapped all : Bool) (fuel : ℕ)
    → Converted objects recs
    → file_size recs ≤ max_size
    → length recs < fuel
    → (m : Maker) × (add_all create objects ≡ ok m)
      × (iter_keys fuel (record { file = commit m; mapped = mapped }) all
          ≡ ok (keys_in all [] recs))
      × (count_records fuel (record { file = commit m; mapped = mapped })
          ≡ ok (length (keys_in false [] recs), length recs))
add-commit-iter_keys objects recs mapped all fuel c small l =
    let (m, added, h) = add_all-Holds create [] recs objects create-Holds c small in
    let layout = commit-layout m recs h in
    (
      m,
      added,
      iter_keys-layout (record { file = commit m; mapped = mapped }) recs small layout fuel all l,
      count_records-layout (record { file = commit m; mapped = mapped }) recs small layout fuel l,
    )
