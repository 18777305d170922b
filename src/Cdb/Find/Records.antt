-- ===== src/Cdb/Find/Records.antt =====
-- The slots and the records that they point to.
use cdbx.Base.{
  ℕ, ◌+◌, ◌<◌, ◌≡◌, refl, sym, ap, ◌∙◌, true, false, List, [], ◌∷◌, ◌++◌, append_assoc, Option,
  none, some, ◌==◌, length, length-append, if◌then◌else◌, arith, All,
}
use mathlib.Core.Path.{subst}
use cdbx.Cdb.Word.{Bytes, pack}
use cdbx.Cdb.Hash.{hash_mem}
use cdbx.Cdb.Slots.{Slot}
use cdbx.Cdb.Maker.{ok}
use cdbx.Cdb.Maker.Holds.{Rec, encode, data_of, slots_of, data_size, data_size-snoc, max_size}
use cdbx.Cdb.File.{Database, read_dlength}
use cdbx.Cdb.File.Reads.{At, At-left, At-right, read_dlength-At}

-- The record that stands at an offset, where the records start at `off`.
unfoldable pub rec_at : ℕ → List Rec → ℕ → Option Rec
rec_at off [] o = none
rec_at off ((k, v) ∷ recs) o =
    if off == o then some (k, v) else rec_at (off + (8 + length k + length v)) recs o

pub rec_at-append :
    (off : ℕ) (front : List Rec) (k v : Bytes) (behind : List Rec)
    → rec_at off (front ++ (k, v) ∷ behind) (off + data_size front) ≡ some (k, v)
unfolding rec_at
rec_at-append off [] k v behind = let e : (off == off + 0) ≡ true = ground arith in rw e refl
rec_at-append off ((k', v') ∷ front) k v behind =
    let e : (off == off + (8 + length k' + length v' + data_size front)) ≡ false = ground arith in
    let next : off + (8 + length k' + length v' + data_size front)
        ≡ off + (8 + length k' + length v') + data_size front =
      omega arith in
    rw e (
      ap (rec_at (off + (8 + length k' + length v')) (front ++ (k, v) ∷ behind)) next
      ∙ rec_at-append (off + (8 + length k' + length v')) front k v behind)

-- What can be read at a slot's offset.
pub record Described (db : Database) (recs : List Rec) (s : Slot) : Type 0 where
  pub key : Bytes
  pub value : Bytes
  pub found : rec_at 2048 recs s.offset ≡ some (key, value)
  pub hash_eq : s.hash ≡ hash_mem key
  pub lengths : read_dlength db s.offset ≡ ok (length key, length value)
  pub key_at : At db.file (s.offset + 8) key
  pub value_at : At db.file (s.offset + 8 + length key) value
  pub room : s.offset + 8 + length key + length value < max_size

length-lengths : (k v : Bytes) → length (pack (length k) ++ pack (length v)) ≡ 8
unfolding pack
length-lengths k v = refl

pub encode-length : (k v : Bytes) → length (encode (k, v)) ≡ 8 + length k + length v
unfolding encode
encode-length k v = omega (
  arith,
  length-append ((pack (length k) ++ pack (length v)) ++ k) v,
  length-append (pack (length k) ++ pack (length v)) k,
  length-lengths k v,
)

pub slots_of-Described :
    (db : Database) (front recs : List Rec)
    → At db.file (2048 + data_size front) (data_of recs)
    → 2048 + data_size front + data_size recs < max_size
    → All (Described db (front ++ recs)) (slots_of (2048 + data_size front) recs)
unfolding slots_of data_of
slots_of-Described db front [] here room = tt
slots_of-Described db front ((k, v) ∷ recs) here room =
    let off = 2048 + data_size front in
    let header = pack (length k) ++ pack (length v) in
    let this : At db.file off (encode (k, v)) =
      At-left db.file off (encode (k, v)) (data_of recs) here in
    let rest = At-right db.file off (encode (k, v)) (data_of recs) here in
    let parts : At db.file off (header ++ (k ++ v)) = unfold encode in this in
    let behind : 2048 + data_size (front ++ (k, v) ∷ []) ≡ off + (8 + length k + length v) =
      omega (arith, data_size-snoc front (k, v)) in
    let whole : off + length (encode (k, v)) ≡ off + (8 + length k + length v) =
      omega (arith, encode-length k v) in
    let strings = At-right db.file off header (k ++ v) parts in
    (
      record {
        key = k;
        value = v;
        found = rec_at-append 2048 front k v recs;
        hash_eq = refl;
        lengths =
            read_dlength-At db off (length k) (length v) (omega (arith, room)) (omega (arith, room))
              (At-left db.file off header (k ++ v) parts);
        key_at = At-left db.file (off + 8) k v strings;
        value_at = At-right db.file (off + 8) k v strings;
        room = omega (arith, room);
      },
      subst (λ l. All (Described db l) (slots_of (off + (8 + length k + length v)) recs))
          (append_assoc front ((k, v) ∷ []) recs)
          (subst (λ o. All (Described db ((front ++ (k, v) ∷ []) ++ recs)) (slots_of o recs)) behind
            (slots_of-Described db (front ++ (k, v) ∷ []) recs
              (subst (λ o. At db.file o (data_of recs)) (whole ∙ sym behind) rest)
              (omega (arith, behind, room)))),
    )
