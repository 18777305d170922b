-- ===== src/Cdb/Hash.antt =====
-- The hash of a key: `cdb32_hash_mem`, and `cdb32_hash_disk`, which reads the key in blocks.
use Prim.Native.Nat.{bit_xor}
use cdbx.Base.{
  ℕ, zero, suc, ◌+◌, ◌*◌, ◌≤◌, ◌<◌, ◌≡◌, refl, ap, ◌∙◌, [], ◌∷◌, ◌++◌, length, take, drop,
  take-append-drop, arith, sym,
}
use cdbx.Cdb.Word.{Bytes, u32}

-- `(result + (result << 5)) ^ (*key++)`
unfoldable pub hash_step : ℕ → ℕ → ℕ
hash_step result c = u32 (bit_xor (u32 (result + result * 32)) c)

unfoldable pub hash_from : ℕ → Bytes → ℕ
unfolding hash_step
hash_from result [] = result
hash_from result (c ∷ key) = hash_from (hash_step result c) key

-- `cdb32_hash_mem(key, len)`
unfoldable pub hash_mem : Bytes → ℕ
unfolding hash_from
hash_mem key = hash_from 5381 key

-- The loop of `cdb32_hash_disk` over blocks of at most 256 bytes.
unfoldable pub hash_blocks : ℕ → ℕ → Bytes → ℕ
unfolding hash_from
hash_blocks fuel result [] = result
hash_blocks zero result (c ∷ key) = result
hash_blocks (suc fuel) result (c ∷ key) =
    hash_blocks fuel (hash_from result (take 256 (c ∷ key))) (drop 256 (c ∷ key))

pub hash_from-append :
    (result : ℕ) (a b : Bytes) → hash_from result (a ++ b) ≡ hash_from (hash_from result a) b
unfolding hash_from
hash_from-append result [] b = refl
hash_from-append result (c ∷ a) b = hash_from-append (hash_step result c) a b

length-drop-le : (n : ℕ) (s : Bytes) → length (drop n s) ≤ length s
length-drop-le zero s = omega arith
length-drop-le (suc n) [] = omega arith
length-drop-le (suc n) (c ∷ s) = omega (arith, length-drop-le n s)

-- With fuel for as many blocks as there are bytes, hashing in blocks of 256 bytes gives the hash of
-- the whole key.
pub hash_blocks-hash_from :
    (fuel result : ℕ) (key : Bytes)
    → length key ≤ fuel
    → hash_blocks fuel result key ≡ hash_from result key
unfolding hash_blocks hash_from
hash_blocks-hash_from fuel result [] h = refl
hash_blocks-hash_from zero result (c ∷ key) h = absurd (omega (arith, h))
hash_blocks-hash_from (suc fuel) result (c ∷ key) h =
    hash_blocks-hash_from fuel (hash_from result (take 256 (c ∷ key))) (drop 256 (c ∷ key))
      (omega (arith, h, length-drop-le 255 key))
    ∙ sym (hash_from-append result (take 256 (c ∷ key)) (drop 256 (c ∷ key)))
    ∙ ap (hash_from result) (take-append-drop 256 (c ∷ key))

hash_step-lt : (result c : ℕ) → hash_step result c < 4294967296
unfolding hash_step
hash_step-lt result c = omega arith

pub hash_from-lt :
    (result : ℕ) (key : Bytes) → result < 4294967296 → hash_from result key < 4294967296
unfolding hash_from
hash_from-lt result [] h = h
hash_from-lt result (c ∷ key) h = hash_from-lt (hash_step result c) key (hash_step-lt result c)

pub hash_mem-lt : (key : Bytes) → hash_mem key < 4294967296
unfolding hash_mem
hash_mem-lt key = hash_from-lt 5381 key (omega arith)
