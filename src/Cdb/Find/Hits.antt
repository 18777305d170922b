-- ===== src/Cdb/Find/Hits.antt =====
-- Which slots are hits for a key, and what `cdb32_find` makes of them.
use cdbx.Base.{
  ℕ, ◌+◌, ◌≡◌, inl, inr, refl, sym, ap, ◌∙◌, Bool, true, false, ◌&&◌, List, [], ◌∷◌, ◌++◌, map,
  append_assoc, Option, none, some, ◌==◌, length, if◌then◌else◌, arith, Bool-cases, text_eq,
  text_eq_iff,
}
use cdbx.Cdb.Word.{Bytes, u32}
use cdbx.Cdb.Arrays.{filter, filter-yes, filter-no}
use cdbx.Cdb.Hash.{hash_mem}
use cdbx.Cdb.Slots.{Slot}
use cdbx.Cdb.Maker.{ok}
use cdbx.Cdb.Maker.Holds.{Rec, slots_of, data_size, data_size-snoc}
use cdbx.Cdb.File.{Database}
use cdbx.Cdb.File.{read, compare_key}
use cdbx.Cdb.File.Reads.{read-At}
use cdbx.Cdb.File.Compare.{compare_key-At}
use cdbx.Cdb.Find.{Find, visit}
use cdbx.Cdb.Find.Records.{rec_at, rec_at-append, Described}

-- The values that were added under a key, in the order of addition.
abbrev pub values_of : Bytes → List Rec → List Bytes
values_of key [] = []
values_of key ((k, v) ∷ recs) = if text_eq k key then v ∷ values_of key recs else values_of key recs

abbrev pub has_key : Bytes → Option Rec → Bool
has_key key none = false
has_key key (some (k, v)) = text_eq k key

abbrev pub value_in : Option Rec → Bytes
value_in none = []
value_in (some (k, v)) = v

-- The slot's hash and the key of its record are those of the key.
unfoldable pub is_hit : List Rec → Bytes → Slot → Bool
unfolding hash_mem
is_hit recs key s = (s.hash == hash_mem key) && has_key key (rec_at 2048 recs s.offset)

unfoldable pub value_at_slot : List Rec → Slot → Bytes
value_at_slot recs s = value_in (rec_at 2048 recs s.offset)

pub hit_own :
    (recs : List Rec) (key k v : Bytes) (o : ℕ)
    → rec_at 2048 recs o ≡ some (k, v)
    → is_hit recs key (record { hash = hash_mem k; offset = o }) ≡ text_eq k key
unfolding is_hit
hit_own recs key k v o e = elim (Bool-cases (text_eq k key)) [
  | inl h ↦
      let same : k ≡ key = (text_eq_iff k key).0 h in
      let hash : (hash_mem k == hash_mem key) ≡ true = rw same (ground arith) in rw (e, hash) refl
  | inr h ↦ rw (e, h) (and_false (hash_mem k == hash_mem key))
]
  where
    and_false : (b : Bool) → (b && false) ≡ false
    and_false true = refl
    and_false false = refl

-- The values of the hits among the slots are those that were added under the key.
pub hit_values :
    (front recs : List Rec) (key : Bytes)
    → map
        (value_at_slot (front ++ recs))
        (filter (is_hit (front ++ recs) key) (slots_of (2048 + data_size front) recs))
      ≡ values_of key recs
unfolding slots_of filter
hit_values front [] key = refl
hit_values front ((k, v) ∷ recs) key =
    let off = 2048 + data_size front in
    let all = front ++ (k, v) ∷ recs in
    let s : Slot = record { hash = hash_mem k; offset = off } in
    let others = slots_of (off + (8 + length k + length v)) recs in
    let here = rec_at-append 2048 front k v recs in
    let own = hit_own all key k v off here in
    let value : value_at_slot all s ≡ v = unfold value_at_slot in ap value_in here in
    let behind : 2048 + data_size (front ++ (k, v) ∷ []) ≡ off + (8 + length k + length v) =
      omega (arith, data_size-snoc front (k, v)) in
    let rest : map (value_at_slot all) (filter (is_hit all key) others) ≡ values_of key recs =
      ap (λ o. map (value_at_slot all) (filter (is_hit all key) (slots_of o recs))) (sym behind)
      ∙ ap
          (λ l.
            map (value_at_slot l)
              (filter (is_hit l key) (slots_of (2048 + data_size (front ++ (k, v) ∷ [])) recs)))
          (sym (append_assoc front ((k, v) ∷ []) recs))
      ∙ hit_values (front ++ (k, v) ∷ []) recs key in
    elim (Bool-cases (text_eq k key)) [
      | inl h ↦
          ap (map (value_at_slot all)) (filter-yes (is_hit all key) s others (own ∙ h))
          ∙ rw (h, value) (ap (◌∷◌ v) rest)
      | inr h ↦
          ap (map (value_at_slot all)) (filter-no (is_hit all key) s others (own ∙ h)) ∙ rw h rest
    ]

module _ (db : Database) (recs : List Rec) (f : Find) (hash_eq : f.hash ≡ hash_mem f.key) (s : Slot)
    (d : Described db recs s) where
  hit_eq : is_hit recs f.key s ≡ ((s.hash == f.hash) && text_eq d.key f.key)
  unfolding is_hit
  hit_eq = rw (d.found, hash_eq) refl

  compared :
      length d.key ≡ length f.key
      → compare_key db (u32 (s.offset + 8)) f.key ≡ ok (text_eq d.key f.key)
  compared l = compare_key-At db (s.offset + 8) d.key f.key d.key_at l (omega (arith, d.room))

  -- A hit gives the place of the record's value.
  pub visit-hit :
      is_hit recs f.key s ≡ true
      → (visit db f s ≡ ok (some (s.offset + 8 + length f.key, length d.value)))
        × (read db (s.offset + 8 + length f.key) (length d.value) ≡ ok (value_at_slot recs s))
  unfolding visit value_at_slot
  visit-hit h =
      let both : ((s.hash == f.hash) && text_eq d.key f.key) ≡ true = sym hit_eq ∙ h in
      let a : (s.hash == f.hash) ≡ true = ground (arith, both) in
      let b : text_eq d.key f.key ≡ true = ground (arith, both) in
      let same : d.key ≡ f.key = (text_eq_iff d.key f.key).0 b in
      let l : (length d.key == length f.key) ≡ true = rw same (ground arith) in
      let place : u32 (s.offset + 8 + length f.key) ≡ s.offset + 8 + length f.key =
        omega (arith, d.room, ap length same) in
      let value : d.value ≡ value_in (rec_at 2048 recs s.offset) = ap value_in (sym d.found) in
      (
        rw (a, d.lengths, l, compared (ap length same), b, place) refl,
        ap (λ k. read db (s.offset + 8 + length k) (length d.value)) (sym same)
            ∙ read-At db (s.offset + 8 + length d.key) d.value d.value_at
            ∙ ap ok value,
      )

  -- Another slot is passed over.
  pub visit-miss : is_hit recs f.key s ≡ false → visit db f s ≡ ok none
  unfolding visit
  visit-miss h = elim (Bool-cases (s.hash == f.hash)) [
    | inr a ↦ rw a refl
    | inl a ↦ elim (Bool-cases (length d.key == length f.key)) [
      | inr l ↦ rw (a, d.lengths, l) refl
      | inl l ↦
          let same : length d.key ≡ length f.key = ground arith in
          let b : text_eq d.key f.key ≡ false = no a in rw (a, d.lengths, l, compared same, b) refl
    ]
  ]
    where
      no : (s.hash == f.hash) ≡ true → text_eq d.key f.key ≡ false
      no a = rw (hit_eq, a) at h
