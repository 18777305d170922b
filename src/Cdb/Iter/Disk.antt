-- ===== src/Cdb/Iter/Disk.antt =====
-- The search for a key in the file agrees with the search for the same key in memory.
use cdbx.Base.{
  ℕ, zero, suc, ◌+◌, ◌-◌, ◌≤◌, ◌<◌, ◌≡◌, inl, inr, refl, sym, ap, ◌∙◌, Bool, true, false, [], ◌∷◌,
  ◌++◌, ◌==◌, ltb, length, length-append, take, drop, take-append-drop, if◌then◌else◌, arith,
  Bool-cases, text_eq, text_eq_iff,
}
use mathlib.Core.Path.{subst}
use cdbx.Merge.Lookup.{text_eq_refl}
use cdbx.Cdb.Word.{Bytes, u32}
use cdbx.Cdb.Hash.{hash_mem, hash_blocks, hash_blocks-hash_from}
use cdbx.Cdb.Maker.{Outcome, ok, bind}
use cdbx.Cdb.File.{Database, read_map, read, compare_key, cmp_key_map, cmp_key_mem}
use cdbx.Cdb.File.Reads.{At, At-left, At-right, read_map-At, read-At}
use cdbx.Cdb.File.Compare.{
  compare_key-At, text_eq-append_same, text_eq-append_other, length-take_same,
}
use cdbx.Cdb.Iter.{block_length, cmp_blocks, cmp_key_disk, hash_disk, key_hash, compare_disk}

length-take_block : (k : Bytes) → length (take 64 k) ≡ block_length 64 (length k)
unfolding block_length
length-take_block k =
    let n = length-append (take 64 k) (drop 64 k) in
    let e = ap length (take-append-drop 64 k) in let both = length-take 64 k in ground (arith, both)
  where
    length-take :
        (n : ℕ) (k : Bytes) → length (take n k) ≡ (if ltb (length k) n then length k else n)
    length-take zero k = let no : ltb (length k) 0 ≡ false = ground arith in rw no refl
    length-take (suc n) [] = let yes : ltb 0 (suc n) ≡ true = ground arith in rw yes refl
    length-take (suc n) (x ∷ k) = let rest = length-take n k in ground (arith, rest)

module _ (db : Database) where
  cmp_blocks_step :
      (fuel offset key l : ℕ) (s d : Bytes)
      → read db key (block_length 64 (suc l)) ≡ ok s
      → read db offset (block_length 64 (suc l)) ≡ ok d
      → cmp_blocks (suc fuel) db offset key (suc l) ≡ (
          if text_eq d s
          then cmp_blocks fuel db
              (u32 (offset + block_length 64 (suc l)))
              (u32 (key + block_length 64 (suc l)))
              (suc l - block_length 64 (suc l))
          else ok false)
  unfolding cmp_blocks
  cmp_blocks_step fuel offset key l s d e k = rw (e, k) refl

  -- A comparison of blocks and one of the rest are one of the whole.
  joined :
      (a b a' b' : Bytes)
      → length a ≡ length a'
      → (if text_eq a a' then ok (text_eq b b') else ok false) ≡ ok (text_eq (a ++ b) (a' ++ b'))
  joined a b a' b' e = elim (Bool-cases (text_eq a a')) [
    | inl h ↦
        let eq : a ≡ a' = (text_eq_iff a a').0 h in
        rw h (
          ap ok
            (sym (text_eq-append_same a' b b') ∙ ap (λ t. text_eq (t ++ b) (a' ++ b')) (sym eq)))
    | inr h ↦ rw h (ap ok (sym (text_eq-append_other a a' b b' e h)))
  ]

  cmp_blocks-At :
      (fuel offset place : ℕ) (k key : Bytes)
      → At db.file offset k
      → At db.file place key
      → length k ≡ length key
      → offset + length k ≤ 4294967296
      → place + length key ≤ 4294967296
      → length key ≤ fuel
      → cmp_blocks fuel db (u32 offset) (u32 place) (length key) ≡ ok (text_eq k key)
  cmp_blocks-At fuel offset place [] [] here there l room room' enough =
      unfold cmp_blocks text_eq in refl
  cmp_blocks-At fuel offset place (x ∷ k) [] here there l room room' enough =
      absurd (omega (arith, l))
  cmp_blocks-At fuel offset place [] (c ∷ key) here there l room room' enough =
      absurd (omega (arith, l))
  cmp_blocks-At zero offset place (x ∷ k) (c ∷ key) here there l room room' enough =
      absurd (omega (arith, enough))
  cmp_blocks-At (suc fuel) offset place (x ∷ k) (c ∷ key) here there l room room' enough =
      let block = take 64 (c ∷ key) in
      let rest = drop 64 (c ∷ key) in
      let front = take 64 (x ∷ k) in
      let back = drop 64 (x ∷ k) in
      let whole : front ++ back ≡ x ∷ k = take-append-drop 64 (x ∷ k) in
      let whole' : block ++ rest ≡ c ∷ key = take-append-drop 64 (c ∷ key) in
      let same : length front ≡ length block = length-take_same 64 (x ∷ k) (c ∷ key) l in
      let n : length block ≡ block_length 64 (suc (length key)) = length-take_block (c ∷ key) in
      let o : u32 offset ≡ offset = omega (arith, room) in
      let p : u32 place ≡ place = omega (arith, room') in
      let parts : At db.file offset (front ++ back) = subst (At db.file offset) (sym whole) here in
      let parts' : At db.file place (block ++ rest) = subst (At db.file place) (sym whole') there in
      let n1 = length-append front back in
      let n2 = length-append block rest in
      let got : read db (u32 offset) (length block) ≡ ok front =
        ap (λ a. read db a (length block)) o
        ∙ ap (read db offset) (sym same)
        ∙ read-At db offset front (At-left db.file offset front back parts) in
      let got' : read db (u32 place) (length block) ≡ ok block =
        ap (λ a. read db a (length block)) p
        ∙ read-At db place block (At-left db.file place block rest parts') in
      let left : suc (length key) - length block ≡ length rest =
        omega (arith, n2, ap length whole') in
      let a : u32 (u32 offset + length block) ≡ u32 (offset + length front) = omega (arith, same) in
      let b : u32 (u32 place + length block) ≡ u32 (place + length block) = omega arith in
      cmp_blocks_step fuel (u32 offset) (u32 place) (length key) block front
        (subst (λ m. read db (u32 place) m ≡ ok block) n got')
        (subst (λ m. read db (u32 offset) m ≡ ok front) n got)
      ∙ ap
          (λ m.
            if text_eq front block
            then cmp_blocks fuel db (u32 (u32 offset + m)) (u32 (u32 place + m))
                (suc (length key) - m)
            else ok false)
          (sym n)
      ∙ ap (λ r. if text_eq front block then r else ok false)
          (ap
              (λ m.
                cmp_blocks fuel db (u32 (u32 offset + length block))
                  (u32 (u32 place + length block)) m)
              left
            ∙ ap (λ m. cmp_blocks fuel db m (u32 (u32 place + length block)) (length rest)) a
            ∙ ap (λ m. cmp_blocks fuel db (u32 (offset + length front)) m (length rest)) b
            ∙ cmp_blocks-At fuel (offset + length front) (place + length block) back rest
                (At-right db.file offset front back parts)
                (At-right db.file place block rest parts')
                (omega (arith, n1, n2, ap length whole, ap length whole', l, same))
                (omega (arith, n1, ap length whole, room))
                (omega (arith, n2, ap length whole', room'))
                (omega (arith, n2, ap length whole', enough, positive c key)))
      ∙ joined front back block rest same
      ∙ ap (λ t. ok (text_eq t (block ++ rest))) whole
      ∙ ap (λ t. ok (text_eq (x ∷ k) t)) whole'
    where
      positive : (c : ℕ) (key : Bytes) → 0 < length (take 64 (c ∷ key))
      positive c key = omega arith

  module _ (offset place : ℕ) (k key : Bytes) (here : At db.file offset k)
      (there : At db.file place key) (l : length k ≡ length key)
      (room : offset + length k < 4294967296) (room' : place + length key < 4294967296) where
    -- A key at its own place is equal to itself.
    own : offset ≡ place → text_eq k key ≡ true
    own e =
        let same : read db offset (length k) ≡ ok k = read-At db offset k here in
        let same' : read db place (length key) ≡ ok key = read-At db place key there in
        let all : ok k ≡ ok key =
          sym same ∙ ap (read db offset) l ∙ ap (λ o. read db o (length key)) e ∙ same' in
        let eq : k ≡ key = cc all in rw eq (text_eq_refl key)

    cmp_key_disk-At : cmp_key_disk db offset place (length key) ≡ ok (text_eq k key)
    unfolding cmp_key_disk
    cmp_key_disk-At = elim (Bool-cases (offset == place)) [
      | inl e ↦ let same : offset ≡ place = ground arith in rw e (ap ok (sym (own same)))
      | inr e ↦
          let o : u32 offset ≡ offset = omega (arith, room) in
          let p : u32 place ≡ place = omega (arith, room') in
          rw e (
            ap (λ m. cmp_blocks (length key) db m place (length key)) (sym o)
            ∙ ap (λ m. cmp_blocks (length key) db (u32 offset) m (length key)) (sym p)
            ∙ cmp_blocks-At (length key) offset place k key here there l (omega (arith, room))
                (omega (arith, room')) (omega arith))
    ]

    -- The comparison of two keys in the file is that with the key in memory.
    pub compare_disk-eq : compare_disk db offset place (length key) ≡ compare_key db offset key
    unfolding compare_disk
    compare_disk-eq =
        let o : u32 offset ≡ offset = omega (arith, room) in
        let whole : compare_key db offset key ≡ ok (text_eq k key) =
          ap (λ m. compare_key db m key) (sym o)
          ∙ compare_key-At db offset k key here l (omega (arith, room)) in
        let mapped : Outcome Bool =
          bind (read_map db place (length key)) (λ k. cmp_key_map db offset k) in
        let unmapped : Outcome Bool = cmp_key_disk db offset place (length key) in
        elim (Bool-cases db.mapped) [
          | inl h ↦
              ap (λ b. if b then mapped else unmapped) h
              ∙ ap (λ r. bind r (λ k. cmp_key_map db offset k)) (read_map-At db place key there)
              ∙ sym (chosen h)
          | inr h ↦ ap (λ b. if b then mapped else unmapped) h ∙ cmp_key_disk-At ∙ sym whole
        ]
      where
        chosen : db.mapped ≡ true → compare_key db offset key ≡ cmp_key_map db offset key
        chosen h =
            unfold compare_key in
            ap
              (λ b. if b then cmp_key_map db offset key else cmp_key_mem (length key) db offset key)
              h

  pub key_hash-At :
      (place : ℕ) (key : Bytes)
      → At db.file place key
      → key_hash db place (length key) ≡ ok (hash_mem key)
  unfolding key_hash hash_disk hash_mem
  key_hash-At place key there =
      let mapped : Outcome ℕ = bind (read_map db place (length key)) (λ k. ok (hash_mem k)) in
      let unmapped : Outcome ℕ = hash_disk db place (length key) in
      elim (Bool-cases db.mapped) [
        | inl h ↦
            ap (λ b. if b then mapped else unmapped) h
            ∙ ap (λ r. bind r (λ k. ok (hash_mem k))) (read_map-At db place key there)
        | inr h ↦
            ap (λ b. if b then mapped else unmapped) h
            ∙ ap (λ r. bind r (λ k. ok (hash_blocks (length key) 5381 k)))
                (read-At db place key there)
            ∙ ap ok (hash_blocks-hash_from (length key) 5381 key (omega arith))
      ]
