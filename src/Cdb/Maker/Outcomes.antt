-- ===== src/Cdb/Maker/Outcomes.antt =====
-- Every outcome of `cdbx_cdb32_maker_add`, and of a sequence of its calls.
use cdbx.Base.{
  ℕ, ◌+◌, ◌≤◌, ◌<◌, ◌≡◌, inl, inr, refl, sym, ap, ◌∙◌, Bool, true, false, ◌||◌, List, [], ◌∷◌, ◌++◌,
  ◌==◌, ltb, leb, length, length-append, append_assoc, append-nil, if◌then◌else◌, arith, Bool-cases,
  all,
}
use cdbx.Cdb.Word.{Bytes, u32}
use cdbx.Cdb.Maker.{
  Maker, ok, failed, overflow, max_off, lacks, put_lengths, written, buf_write, add_slot,
  add_record, cstring, add, Object, add_all,
}
use cdbx.Cdb.Maker.Holds.{Rec, data_size, file_size, max_size, Holds, lacks-no, lacks-yes}
use cdbx.Cdb.Maker.{Object, check_length}
use cdbx.Cdb.Maker.Add.{after, after-Holds, add_record-ok, buf_write-ok}

or_true : (b : Bool) → (b || true) ≡ true
or_true true = refl
or_true false = refl

ok_injective : {A : Type 0} {a b : A} → ok a ≡ ok b → a ≡ b
ok_injective h = cc

check_length-lt : (key k : Bytes) → check_length key ≡ ok k → length k < max_size
check_length-lt key k h = elim (Bool-cases (u32 (length key) == length key)) [
  | inl e ↦
      let same : ok key ≡ ok k = sym (ap (λ b. if b then ok key else failed overflow) e) ∙ h in
      let l : length key < max_size = ground arith in rw (sym (ok_injective same)) l
  | inr e ↦
      let no : failed overflow ≡ ok k =
        sym (ap (λ b. if b then ok key else failed overflow) e) ∙ h in
      absurd cc
]

-- A string that was converted has a length of 32 bits.
pub cstring-lt : (object : Object) (k : Bytes) → cstring object ≡ ok k → length k < max_size
unfolding cstring
cstring-lt (Object.byte_string key) k h = check_length-lt key k h
cstring-lt (Object.unicode key) k h = elim (Bool-cases (all (λ c. ltb c 256) key)) [
  | inl e ↦ check_length-lt key k (rw e at h)
  | inr e ↦ absurd (cc (rw e at h))
]
cstring-lt Object.other k h = absurd cc

module _ (m : Maker) (recs : List Rec) (k v : Bytes) (h : Holds m recs) where
  buf_write-full :
      (m1 : Maker) (key : Bytes) (n : ℕ)
      → m1.size ≡ u32 n
      → 0 < n
      → n ≤ max_size
      → length key < max_size
      → max_size < n + length key
      → buf_write m1 key ≡ failed overflow
  unfolding buf_write
  buf_write-full m1 key n e p q l f =
      let b : lacks (length key) m1.size ≡ true =
        rw e (lacks-yes (length key) n p q (omega (arith, l)) f) in
      rw (b, or_true (length key == max_off)) refl

  -- A record for which there is no room is refused.
  add_record-full :
      length k < max_size
      → length v < max_size
      → file_size recs + 8 ≤ max_size
      → max_size < file_size recs + (24 + length k + length v)
      → add_record m k v ≡ failed overflow
  unfolding add_record put_lengths
  add_record-full lk lv room full =
      elim (Bool-cases (leb (file_size recs + 8 + length k) max_size)) [
        | inr e ↦
            let no =
              buf_write-full (put_lengths m k v) k (file_size recs + 8) (omega (arith, h.size_eq))
                (omega arith) room lk (ground arith) in
            rw no refl
        | inl e ↦ elim (Bool-cases (leb (file_size recs + 8 + length k + length v) max_size)) [
          | inr f ↦
              let yes =
                buf_write-ok (put_lengths m k v) k (file_size recs + 8) (omega (arith, h.size_eq))
                  (omega arith) (ground arith) (ground arith) in
              let no =
                buf_write-full (written (put_lengths m k v) k) v (file_size recs + 8 + length k)
                  (omega (arith, h.size_eq)) (omega arith) (ground arith) lv (ground arith) in
              rw (yes, no) refl
          | inl f ↦
              let yes =
                buf_write-ok (put_lengths m k v) k (file_size recs + 8) (omega (arith, h.size_eq))
                  (omega arith) (ground arith) (ground arith) in
              let also =
                buf_write-ok (written (put_lengths m k v) k) v (file_size recs + 8 + length k)
                  (omega (arith, h.size_eq)) (omega arith) (ground arith) (ground arith) in
              let no : lacks 16 (u32 (u32 (u32 (m.size + 8) + length k) + length v)) ≡ true =
                rw (e_size) (
                  lacks-yes 16 (file_size recs + 8 + length k + length v) (omega arith)
                    (ground arith) (omega arith) (omega (arith, full))) in
              rw (yes, also) (unfold add_slot in rw no refl)
        ]
      ]
    where
      e_size :
          u32 (u32 (u32 (m.size + 8) + length k) + length v)
          ≡ u32 (file_size recs + 8 + length k + length v)
      e_size = omega (arith, h.size_eq)

-- If a maker holds some records, and key and value can be converted to bytes, an addition for which
-- the file, with two slots for each record, stays within 2^32 bytes succeeds, and then the maker
-- holds the new record behind the others.
pub add-fits :
    (m : Maker) (recs : List Rec) (key value : Object) (k v : Bytes)
    → Holds m recs
    → cstring key ≡ ok k
    → cstring value ≡ ok v
    → file_size recs + (24 + length k + length v) ≤ max_size
    → (m1 : Maker) × (add m key value ≡ ok m1) × Holds m1 (recs ++ (k, v) ∷ [])
unfolding add
add-fits m recs key value k v h ek ev room =
    let guard : lacks 8 m.size ≡ false =
      rw (h.size_eq) (lacks-no 8 (file_size recs) (omega arith) (omega (arith, room))) in
    (
      after m k v,
      rw (guard, ek, ev) (add_record-ok m recs k v h room),
      after-Holds m recs k v h room,
    )

-- If a maker holds some records, and key and value can be converted to bytes, an addition for which
-- the file, with two slots for each record, would be larger than 2^32 bytes is refused, with an
-- OverflowError.
pub add-full :
    (m : Maker) (recs : List Rec) (key value : Object) (k v : Bytes)
    → Holds m recs
    → cstring key ≡ ok k
    → cstring value ≡ ok v
    → max_size < file_size recs + (24 + length k + length v)
    → add m key value ≡ failed overflow
unfolding add
add-full m recs key value k v h ek ev full = elim (Bool-cases (leb (file_size recs + 8) max_size)) [
  | inl e ↦
      let guard : lacks 8 m.size ≡ false =
        rw (h.size_eq) (lacks-no 8 (file_size recs) (omega arith) (ground arith)) in
      rw (guard, ek, ev)
        (add_record-full m recs k v h (cstring-lt key k ek) (cstring-lt value v ev) (ground arith)
          full)
  | inr e ↦
      let guard : lacks 8 m.size ≡ true =
        rw (h.size_eq)
          (lacks-yes 8 (file_size recs) (omega arith) h.bounded (omega arith) (ground arith)) in
      rw guard refl
]

-- The objects are converted to these records.
abbrev pub Converted : List (Object × Object) → List Rec → Type 0
Converted [] [] = Unit
Converted ((key, value) ∷ objects) ((k, v) ∷ recs) =
    (cstring key ≡ ok k) × (cstring value ≡ ok v) × Converted objects recs
Converted _ _ = ⊥

data_size-append : (recs new : List Rec) → data_size (recs ++ new) ≡ data_size recs + data_size new
data_size-append [] new = omega arith
data_size-append (r ∷ recs) new = omega (arith, data_size-append recs new)

-- All the records are added, if the whole file stays within 32 bit offsets.
pub add_all-Holds :
    (m : Maker) (recs new : List Rec) (objects : List (Object × Object))
    → Holds m recs
    → Converted objects new
    → file_size (recs ++ new) ≤ max_size
    → (m1 : Maker) × (add_all m objects ≡ ok m1) × Holds m1 (recs ++ new)
unfolding add_all
add_all-Holds m recs [] [] h c room = (m, refl, rw (append-nil recs) h)
add_all-Holds m recs [] (o ∷ objects) h c room = absurd c
add_all-Holds m recs (r ∷ new) [] h c room = absurd c
add_all-Holds m recs ((k, v) ∷ new) ((key, value) ∷ objects) h (ek, ev, c) room =
    let step = append_assoc recs ((k, v) ∷ []) new in
    let (m1, e1, h1) = add-fits m recs key value k v h ek ev (
      omega
        (arith, data_size-append recs ((k, v) ∷ new), length-append recs ((k, v) ∷ new), room)) in
    let (m2, e2, h2) = add_all-Holds m1 (recs ++ (k, v) ∷ []) new objects h1 c (rw step room) in
    (m2, rw e1 e2, rw (sym step) h2)
