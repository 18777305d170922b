-- ===== src/Cdb/Iter/Keys.antt =====
-- Iterating over a committed file.
use cdbx.Base.{
  ℕ, ◌+◌, ◌%◌, ◌≤◌, ◌<◌, ◌≡◌, inl, inr, refl, sym, ap, ◌∙◌, Bool, true, false, not, List, [], ◌∷◌,
  ◌++◌, map, append_assoc, some, ◌==◌, ltb, length, if◌then◌else◌, any, arith, Bool-cases, text_eq,
}
use mathlib.Core.Path.{subst}
use cdbx.Merge.Lookup.{text_eq_refl}
use cdbx.Cdb.Word.{Bytes, u32, pack}
use cdbx.Cdb.Arrays.{filter, filter-yes, filter-no}
use cdbx.Cdb.Hash.{hash_mem}
use cdbx.Cdb.Slots.{Slot}
use cdbx.Cdb.Maker.{ok}
use cdbx.Cdb.Maker.Holds.{
  Rec, slots_of, data_of, data_size, data_size-snoc, file_size, max_size, encode,
}
use cdbx.Cdb.Commit.Layout.{count, place, table_of, entries, tables}
use cdbx.Cdb.Committed.{bucket-Table}
use cdbx.Cdb.Committed.Lookup.{n, pos, started, no_hits, hits-walk, find-start}
use cdbx.Cdb.File.{Database, read, read_dlength}
use cdbx.Cdb.File.Reads.{At, At-left, At-right, read-At, read_dlength-At}
use cdbx.Cdb.Find.{start, at_table, find}
use cdbx.Cdb.Find.Records.{rec_at-append, encode-length}
use cdbx.Cdb.Find.Hits.{is_hit, hit_own}
use cdbx.Cdb.Find.Walks.{search-some}
use cdbx.Cdb.Iter.{find_disk, Item, iter_next}
use cdbx.Cdb.Iter.Found.{found_in, find_disk-find}

-- The offsets of the records of a key.
abbrev offsets_of : ℕ → Bytes → List Rec → List ℕ
offsets_of off key [] = []
offsets_of off key ((k, v) ∷ recs) =
    if text_eq k key
    then off ∷ offsets_of (off + (8 + length k + length v)) key recs
    else offsets_of (off + (8 + length k + length v)) key recs

hit_offsets :
    (front recs : List Rec) (key : Bytes)
    → map
        (λ s. s.offset)
        (filter (is_hit (front ++ recs) key) (slots_of (2048 + data_size front) recs))
      ≡ offsets_of (2048 + data_size front) key recs
unfolding slots_of filter
hit_offsets front [] key = refl
hit_offsets front ((k, v) ∷ recs) key =
    let off = 2048 + data_size front in
    let all = front ++ (k, v) ∷ recs in
    let s : Slot = record { hash = hash_mem k; offset = off } in
    let others = slots_of (off + (8 + length k + length v)) recs in
    let own = hit_own all key k v off (rec_at-append 2048 front k v recs) in
    let next : 2048 + data_size (front ++ (k, v) ∷ []) ≡ off + (8 + length k + length v) =
      omega (arith, data_size-snoc front (k, v)) in
    let rest : map (λ s. s.offset) (filter (is_hit all key) others)
        ≡ offsets_of (off + (8 + length k + length v)) key recs =
      ap (λ o. map (λ s. s.offset) (filter (is_hit all key) (slots_of o recs))) (sym next)
      ∙ ap
          (λ l.
            map (λ s. s.offset)
              (filter (is_hit l key) (slots_of (2048 + data_size (front ++ (k, v) ∷ [])) recs)))
          (sym (append_assoc front ((k, v) ∷ []) recs))
      ∙ hit_offsets (front ++ (k, v) ∷ []) recs key
      ∙ ap (λ o. offsets_of o key recs) next in
    elim (Bool-cases (text_eq k key)) [
      | inl h ↦
          ap (map (λ s. s.offset)) (filter-yes (is_hit all key) s others (own ∙ h))
          ∙ rw h (ap (◌∷◌ off) rest)
      | inr h ↦ ap (map (λ s. s.offset)) (filter-no (is_hit all key) s others (own ∙ h)) ∙ rw h rest
    ]

-- The key of a record was not added before it.
abbrev pub is_new : List Rec → Bytes → Bool
is_new seen key = not (any (λ r. text_eq r.0 key) seen)

-- The first of the offsets, which is that of the given record just if its key is new.
record First (off : ℕ) (front : List Rec) (key : Bytes) (offsets : List ℕ) : Type 0 where
  head : ℕ
  tail : List ℕ
  offsets_eq : offsets ≡ head ∷ tail
  same : (head == off + data_size front) ≡ is_new front key
  least : off ≤ head

offsets_of-First :
    (off : ℕ) (front : List Rec) (k v : Bytes) (rest : List Rec)
    → First off front k (offsets_of off k (front ++ (k, v) ∷ rest))
offsets_of-First off [] k v rest = record {
  head = off;
  tail = offsets_of (off + (8 + length k + length v)) k rest;
  offsets_eq = rw (text_eq_refl k) refl;
  same = ground arith;
  least = omega arith;
}
offsets_of-First off ((k', v') ∷ front) k v rest = elim (Bool-cases (text_eq k' k)) [
  | inl h ↦ record {
    head = off;
    tail = offsets_of (off + (8 + length k' + length v')) k (front ++ (k, v) ∷ rest);
    offsets_eq = rw h refl;
    same =
        (let no : (off == off + (8 + length k' + length v' + data_size front)) ≡ false =
            ground arith in
          rw (h, no) refl);
    least = omega arith;
  }
  | inr h ↦
      let next = offsets_of-First (off + (8 + length k' + length v')) front k v rest in
      let sum : off + (8 + length k' + length v') + data_size front
          ≡ off + (8 + length k' + length v' + data_size front) =
        omega arith in
      record {
        head = next.head;
        tail = next.tail;
        offsets_eq = rw h next.offsets_eq;
        same = ap (λ m. next.head == m) (sym sum) ∙ next.same ∙ rw h refl;
        least = omega (arith, next.least);
      }
]

-- A slot whose offset is the first of those of a list.
head_of :
    (slots : List Slot) (o : ℕ) (os : List ℕ)
    → map (λ s. s.offset) slots ≡ o ∷ os
    → (s : Slot) × ((others : List Slot) × ((slots ≡ s ∷ others) × (s.offset ≡ o)))
head_of [] o os h = absurd (cc)
head_of (s ∷ others) o os h = (s, (others, (refl, cc)))

module _ (db : Database) (front : List Rec) (k v : Bytes) (rest : List Rec)
    (small : file_size (front ++ (k, v) ∷ rest) ≤ max_size)
    (layout : db.file
      ≡ entries (front ++ (k, v) ∷ rest) 256 0
        ++ (data_of (front ++ (k, v) ∷ rest) ++ tables (front ++ (k, v) ∷ rest) 256 0)) where
  abbrev recs : List Rec
  recs = front ++ (k, v) ∷ rest

  abbrev off : ℕ
  off = 2048 + data_size front

  -- What the search for the key of a record finds.
  record Pointed (o : ℕ) : Type 0 where
    pointer : ℕ × ℕ
    found : found_in (find db (start k)) ≡ ok (some pointer)
    positive : 0 < pointer.0
    offset_eq : pointer.0 ≡ o + 8 + length k

  pointed : (f : First 2048 front k (offsets_of 2048 k recs)) → Pointed f.head
  pointed f =
      let offsets = hit_offsets [] recs k ∙ f.offsets_eq in
      let (s, (others, (hits, at_head))) =
        head_of (filter (is_hit recs k) (slots_of 2048 recs)) f.head f.tail offsets in
      elim (Bool-cases (n recs k == 0)) [
        | inl e ↦
            let zero_count : count recs (hash_mem k % 256) ≡ 0 = ground arith in
            absurd (cc (sym (no_hits recs k zero_count) ∙ hits))
        | inr e ↦
            let l : 0 < n recs k = ground arith in
            let r =
              search-some db recs (place recs (hash_mem k % 256)) (n recs k)
                (table_of recs (hash_mem k % 256))
                (bucket-Table db recs small layout (hash_mem k % 256) (omega arith)) k (n recs k)
                (at_table (start k) (u32 (place recs (hash_mem k % 256)), n recs k)) (pos recs k) s
                others (started db recs small layout k l) (hits-walk recs k l ∙ hits) in
            record {
              pointer = r.value;
              found = ap found_in (find-start db recs small layout k l ∙ r.found);
              positive = r.positive;
              offset_eq = r.place_eq ∙ ap (λ o. o + 8 + length k) at_head;
            }
      ]

  module _ (here : At db.file off (data_of ((k, v) ∷ rest))) (sentinel : ℕ)
      (before : off < sentinel) (room : off + (8 + length k + length v) < 4294967296) where
    strings : At db.file (off + 8) (k ++ v)
    strings =
        let parts : At db.file off (encode (k, v)) =
          At-left db.file off (encode (k, v)) (data_of rest) (unfold data_of in here) in
        unfold encode pack in
        At-right db.file off (pack (length k) ++ pack (length v)) (k ++ v) parts

    header : At db.file off (pack (length k) ++ pack (length v))
    header =
        let parts : At db.file off (encode (k, v)) =
          At-left db.file off (encode (k, v)) (data_of rest) (unfold data_of in here) in
        unfold encode in At-left db.file off (pack (length k) ++ pack (length v)) (k ++ v) parts

    pub behind_record : At db.file (off + (8 + length k + length v)) (data_of rest)
    behind_record =
        subst (λ l. At db.file (off + l) (data_of rest)) (encode-length k v)
          (At-right db.file off (encode (k, v)) (data_of rest) (unfold data_of in here))

    pub read_key : read db (off + 8) (length k) ≡ ok k
    read_key = read-At db (off + 8) k (At-left db.file (off + 8) k v strings)

    abbrev pub this_item : Item
    this_item = record {
      key = (off + 8, length k);
      value = (off + 8 + length k, length v);
      first = is_new front k;
    }

    pub iter_next-this_item :
        iter_next db sentinel off ≡ ok (some (this_item, off + (8 + length k + length v)))
    iter_next-this_item =
        let f = offsets_of-First 2048 front k v rest in
        let p = pointed f in
        let lt : ltb off sentinel ≡ true = ground arith in
        let lengths : read_dlength db off ≡ ok (length k, length v) =
          read_dlength-At db off (length k) (length v) (omega (arith, room)) (omega (arith, room))
            header in
        let kpos : u32 (off + 8) ≡ off + 8 = omega (arith, room) in
        let vpos : u32 (off + 8 + length k) ≡ off + 8 + length k = omega (arith, room) in
        let next : u32 (off + 8 + length k + length v) ≡ off + (8 + length k + length v) =
          omega (arith, room) in
        let found : find_disk db (off + 8) (length k) ≡ ok (some p.pointer) =
          find_disk-find db recs small layout k (off + 8) (At-left db.file (off + 8) k v strings)
            (omega (arith, room))
          ∙ p.found in
        let used : (p.pointer.0 == 0) ≡ false = (let q = p.positive in ground (arith, q)) in
        let new : (p.pointer.0 == off + 8 + length k) ≡ is_new front k =
          ap (λ o. o == off + 8 + length k) p.offset_eq ∙ shifted f.head ∙ f.same in
        unfold iter_next in rw (lt, lengths, kpos, found, vpos, used, new, next) refl
      where
        shifted : (o : ℕ) → (o + 8 + length k == off + 8 + length k) ≡ (o == off)
        shifted o = elim (Bool-cases (o == off)) [
          | inl e ↦
              (let same : (o + 8 + length k == off + 8 + length k) ≡ true = ground arith in
                same ∙ sym e)
          | inr e ↦
              (let other : (o + 8 + length k == off + 8 + length k) ≡ false = ground arith in
                other ∙ sym e)
        ]
