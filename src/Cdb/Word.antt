-- ===== src/Cdb/Word.antt =====
-- The 32 bit integers of cdbx/cdb32.c and their four bytes in a file, the lowest first.
use cdbx.Base.{ℕ, ◌+◌, ◌*◌, ◌/◌, ◌%◌, ◌<◌, ◌≡◌, refl, List, [], ◌∷◌, ◌++◌, length, arith}

abbrev pub Bytes : Type 0
Bytes = List ℕ

abbrev pub u32 : ℕ → ℕ
u32 n = n % 4294967296

-- `CDB32_PACK`
unfoldable pub pack : ℕ → Bytes
pack n = n % 256 ∷ n / 256 % 256 ∷ n / 65536 % 256 ∷ n / 16777216 % 256 ∷ []

-- `CDB32_UNPACK`, cast to 32 bits.
unfoldable pub unpack : Bytes → ℕ
unpack (a ∷ b ∷ c ∷ d ∷ rest) = u32 (d * 16777216 + c * 65536 + b * 256 + a)
unpack _ = 0

pub length-pack : (n : ℕ) → length (pack n) ≡ 4
unfolding pack
length-pack n = refl

-- A number of 32 bits is read as it was written, whatever stands behind it.
pub unpack-pack : (n : ℕ) (rest : Bytes) → n < 4294967296 → unpack (pack n ++ rest) ≡ n
unfolding pack unpack
unpack-pack n rest h = omega arith
