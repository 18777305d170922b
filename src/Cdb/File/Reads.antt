-- ===== src/Cdb/File/Reads.antt =====
-- Reading what stands at a known place of a database, mapped or not.
use cdbx.Base.{
  ℕ, ◌+◌, ◌-◌, ◌≤◌, ◌<◌, ◌≡◌, inl, inr, refl, sym, ap, ◌∙◌, false, [], ◌∷◌, ◌++◌, append_assoc, ltb,
  length, length-append, take, drop, arith, Bool-cases,
}
use cdbx.Cdb.Word.{Bytes, pack, unpack, unpack-pack}
use cdbx.Cdb.Maker.{ok}
use cdbx.Cdb.File.{Database, part, read_map, read, two, read_pointer, read_slot, read_dlength}

-- These bytes stand at this place.
abbrev pub At : Bytes → ℕ → Bytes → Type 0
At file offset bytes =
    (before : Bytes) × (behind : Bytes) × (file ≡ before ++ (bytes ++ behind))
    × (length before ≡ offset)

drop-append : (a b : Bytes) → drop (length a) (a ++ b) ≡ b
drop-append [] b = refl
drop-append (c ∷ a) b = drop-append a b

take-append : (a b : Bytes) → take (length a) (a ++ b) ≡ a
take-append [] b = refl
take-append (c ∷ a) b = ap (◌∷◌ c) (take-append a b)

-- The parts of what stands at a place.
pub At-left : (file : Bytes) (offset : ℕ) (a b : Bytes) → At file offset (a ++ b) → At file offset a
At-left file offset a b (before, behind, e, l) =
    (before, b ++ behind, e ∙ ap (λ x. before ++ x) (append_assoc a b behind), l)

pub At-right :
    (file : Bytes) (offset : ℕ) (a b : Bytes)
    → At file offset (a ++ b)
    → At file (offset + length a) b
At-right file offset a b (before, behind, e, l) = (
  before ++ a,
  behind,
  e ∙ ap (λ x. before ++ x) (append_assoc a b behind) ∙ sym (append_assoc before a (b ++ behind)),
  omega (arith, length-append before a, l),
)

module _ (db : Database) (offset : ℕ) (bytes : Bytes) (here : At db.file offset bytes) where
  part-At : part db offset (length bytes) ≡ bytes
  part-At =
      let (before, behind, e, l) = here in
      ap (λ f. take (length bytes) (drop offset f)) e
      ∙ ap (λ o. take (length bytes) (drop o (before ++ (bytes ++ behind)))) (sym l)
      ∙ ap (take (length bytes)) (drop-append before (bytes ++ behind))
      ∙ take-append bytes behind

  inside : offset + length bytes ≤ length db.file
  inside =
      let (before, behind, e, l) = here in
      let all = length-append before (bytes ++ behind) in
      let rest = length-append bytes behind in omega (arith, ap length e, all, rest, l)

  pub read_map-At : read_map db offset (length bytes) ≡ ok bytes
  unfolding read_map
  read_map-At =
      let a : ltb (length db.file) offset ≡ false = ground (arith, inside) in
      let b : ltb (length db.file - offset) (length bytes) ≡ false = ground (arith, inside) in
      rw (a, b) (ap ok part-At)

  pub read-At : read db offset (length bytes) ≡ ok bytes
  unfolding read
  read-At = elim (Bool-cases db.mapped) [
    | inl h ↦ rw h read_map-At
    | inr h ↦
        let enough : ltb (length (part db offset (length bytes))) (length bytes) ≡ false =
          rw part-At (ground arith) in
        rw (h, enough) (ap ok part-At)
  ]

two-pack : (a b : ℕ) → a < 4294967296 → b < 4294967296 → two (pack a ++ pack b) ≡ (a, b)
unfolding pack
two-pack a b ha hb =
    let ea = unpack-pack a (pack b) ha in
    let eb : unpack (pack b) ≡ b = unpack-pack b [] hb in λ i. (ea i, eb i)

module _ (db : Database) (offset a b : ℕ) (ha : a < 4294967296) (hb : b < 4294967296)
    (here : At db.file offset (pack a ++ pack b)) where
  eight : read db offset 8 ≡ ok (pack a ++ pack b)
  unfolding pack
  eight = read-At db offset (pack a ++ pack b) here

  pub read_pointer-At : read_pointer db offset ≡ ok (a, b)
  unfolding read_pointer
  read_pointer-At = rw (eight) (ap ok (two-pack a b ha hb))

  pub read_slot-At : read_slot db offset ≡ ok (record { hash = a; offset = b })
  unfolding read_slot
  read_slot-At =
      rw (eight) (ap (λ t. ok (record { hash = t.0; offset = t.1 })) (two-pack a b ha hb))

  pub read_dlength-At : read_dlength db offset ≡ ok (a, b)
  unfolding read_dlength
  read_dlength-At = rw (eight) (ap ok (two-pack a b ha hb))
