-- ===== src/Cdb/File/Compare.antt =====
-- The two comparisons of a key with one in the file: as a whole, or by blocks.
use cdbx.Base.{
  ℕ, zero, suc, ◌+◌, ◌≤◌, ◌≡◌, inl, inr, refl, sym, ap, ◌∙◌, Bool, true, false, [], ◌∷◌, ◌++◌, ◌==◌,
  length, length-append, take, drop, take-append-drop, if◌then◌else◌, arith, Bool-cases, text_eq,
  text_eq_iff,
}
use mathlib.Core.Path.{subst}
use cdbx.Cdb.Word.{Bytes, u32}
use cdbx.Cdb.Maker.{ok}
use cdbx.Cdb.File.{Database, read_map, read, cmp_key_map, cmp_key_mem, compare_key}
use cdbx.Cdb.File.Reads.{At, At-left, At-right, read_map-At, read-At}

pub text_eq-append_same : (a b c : Bytes) → text_eq (a ++ b) (a ++ c) ≡ text_eq b c
unfolding text_eq
text_eq-append_same [] b c = refl
text_eq-append_same (x ∷ a) b c =
    let e : (x == x) ≡ true = ground arith in rw e (text_eq-append_same a b c)

pub text_eq-append_other :
    (a a' b b' : Bytes)
    → length a ≡ length a'
    → text_eq a a' ≡ false
    → text_eq (a ++ b) (a' ++ b') ≡ false
unfolding text_eq
text_eq-append_other [] [] b b' l h = absurd (cc h)
text_eq-append_other [] (y ∷ a') b b' l h = absurd (omega (arith, l))
text_eq-append_other (x ∷ a) [] b b' l h = absurd (omega (arith, l))
text_eq-append_other (x ∷ a) (y ∷ a') b b' l h = elim (Bool-cases (x == y)) [
  | inl e ↦ rw e (text_eq-append_other a a' b b' (omega (arith, l)) (rw e at h))
  | inr e ↦ rw e refl
]

pub length-take_same :
    (n : ℕ) (a b : Bytes) → length a ≡ length b → length (take n a) ≡ length (take n b)
length-take_same zero a b h = refl
length-take_same (suc n) [] [] h = refl
length-take_same (suc n) [] (y ∷ b) h = absurd (omega (arith, h))
length-take_same (suc n) (x ∷ a) [] h = absurd (omega (arith, h))
length-take_same (suc n) (x ∷ a) (y ∷ b) h = ap suc (length-take_same n a b (omega (arith, h)))

module _ (db : Database) where
  cmp_step :
      (fuel offset c : ℕ) (key b : Bytes)
      → read db offset (length (take 128 (c ∷ key))) ≡ ok b
      → cmp_key_mem (suc fuel) db offset (c ∷ key) ≡ (
          if text_eq b (take 128 (c ∷ key))
          then cmp_key_mem fuel db (u32 (offset + length (take 128 (c ∷ key)))) (drop 128 (c ∷ key))
          else ok false)
  unfolding cmp_key_mem
  cmp_step fuel offset c key b e = rw e refl

  -- The comparison by blocks agrees with that of the whole keys.
  cmp_key_mem-At :
      (fuel offset : ℕ) (k key : Bytes)
      → At db.file offset k
      → length k ≡ length key
      → offset + length k ≤ 4294967296
      → length key ≤ fuel
      → cmp_key_mem fuel db (u32 offset) key ≡ ok (text_eq k key)
  cmp_key_mem-At fuel offset [] [] here l room enough = unfold cmp_key_mem text_eq in refl
  cmp_key_mem-At fuel offset (x ∷ k) [] here l room enough = absurd (omega (arith, l))
  cmp_key_mem-At fuel offset [] (c ∷ key) here l room enough = absurd (omega (arith, l))
  cmp_key_mem-At zero offset (x ∷ k) (c ∷ key) here l room enough = absurd (omega (arith, enough))
  cmp_key_mem-At (suc fuel) offset (x ∷ k) (c ∷ key) here l room enough =
      let block = take 128 (c ∷ key) in
      let rest = drop 128 (c ∷ key) in
      let front = take 128 (x ∷ k) in
      let back = drop 128 (x ∷ k) in
      let whole : front ++ back ≡ x ∷ k = take-append-drop 128 (x ∷ k) in
      let whole' : block ++ rest ≡ c ∷ key = take-append-drop 128 (c ∷ key) in
      let same : length front ≡ length block = length-take_same 128 (x ∷ k) (c ∷ key) l in
      let place : u32 offset ≡ offset = omega (arith, room) in
      let parts : At db.file offset (front ++ back) = subst (At db.file offset) (sym whole) here in
      let n1 = length-append front back in
      let n2 = length-append block rest in
      let got : read db (u32 offset) (length block) ≡ ok front =
        ap (λ o. read db o (length block)) place
        ∙ ap (read db offset) (sym same)
        ∙ read-At db offset front (At-left db.file offset front back parts) in
      let next : u32 (u32 offset + length block) ≡ u32 (offset + length front) =
        omega (arith, same) in
      cmp_step fuel (u32 offset) c key front got
      ∙ ap (λ o. if text_eq front block then cmp_key_mem fuel db o rest else ok false) next
      ∙ ap (λ r. if text_eq front block then r else ok false)
          (cmp_key_mem-At fuel (offset + length front) back rest
            (At-right db.file offset front back parts)
            (omega (arith, n1, n2, ap length whole, ap length whole', l, same))
            (omega (arith, n1, ap length whole, room))
            (omega (arith, n2, ap length whole', enough)))
      ∙ joined front back block rest same
      ∙ ap (λ t. ok (text_eq t (block ++ rest))) whole
      ∙ ap (λ t. ok (text_eq (x ∷ k) t)) whole'
    where
      joined :
          (a b a' b' : Bytes)
          → length a ≡ length a'
          → (if text_eq a a' then ok (text_eq b b') else ok false)
            ≡ ok (text_eq (a ++ b) (a' ++ b'))
      joined a b a' b' e = elim (Bool-cases (text_eq a a')) [
        | inl h ↦
            let eq : a ≡ a' = (text_eq_iff a a').0 h in
            rw h (
              ap ok (
                sym (text_eq-append_same a' b b') ∙ ap (λ t. text_eq (t ++ b) (a' ++ b')) (sym eq)))
        | inr h ↦ rw h (ap ok (sym (text_eq-append_other a a' b b' e h)))
      ]

  -- If a key of the same length stands at a place below 2^32 and ends there, the comparison, mapped or
  -- by blocks, succeeds and says whether the keys are equal.
  pub compare_key-At :
      (offset : ℕ) (k key : Bytes)
      → At db.file offset k
      → length k ≡ length key
      → offset + length k ≤ 4294967296
      → compare_key db (u32 offset) key ≡ ok (text_eq k key)
  unfolding compare_key
  compare_key-At offset k key here l room = elim (Bool-cases db.mapped) [
    | inl h ↦ chosen h ∙ mapped k key here l room
    | inr h ↦ chosen h ∙ (cmp_key_mem-At (length key) offset k key here l room (omega arith))
  ]
    where
      chosen :
          {b : Bool}
          → db.mapped ≡ b
          → compare_key db (u32 offset) key ≡ (
              if b
              then cmp_key_map db (u32 offset) key
              else cmp_key_mem (length key) db (u32 offset) key)
      chosen h =
          unfold compare_key in
          ap
            (λ b.
              if b
              then cmp_key_map db (u32 offset) key
              else cmp_key_mem (length key) db (u32 offset) key)
            h

      mapped :
          (k key : Bytes)
          → At db.file offset k
          → length k ≡ length key
          → offset + length k ≤ 4294967296
          → cmp_key_map db (u32 offset) key ≡ ok (text_eq k key)
      mapped [] [] here l room = unfold cmp_key_map text_eq in refl
      mapped (x ∷ k) [] here l room = absurd (omega (arith, l))
      mapped [] (c ∷ key) here l room = absurd (omega (arith, l))
      mapped (x ∷ k) (c ∷ key) here l room =
          let place : u32 offset ≡ offset = omega (arith, room) in
          let got : read_map db (u32 offset) (length (c ∷ key)) ≡ ok (x ∷ k) =
            ap (λ o. read_map db o (length (c ∷ key))) place
            ∙ ap (read_map db offset) (sym l)
            ∙ read_map-At db offset (x ∷ k) here in
          unfold cmp_key_map in rw got refl
