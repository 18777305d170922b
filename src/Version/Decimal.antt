-- ===== src/Version/Decimal.antt =====
-- `int(item)` and `str(number)` on the items of a version.
use Prim.Native.Nat.{◌/◌, ◌%◌}
use cdbx.Base.{
  ℕ, zero, suc, ◌+◌, ◌-◌, ◌*◌, ◌<◌, ◌≡◌, refl, ap, ◌∙◌, true, false, ◌≢◌, [], ◌∷◌, Text, ltb,
  is_digit, All, arith, Bool-cases, inl, inr,
}

unfoldable pub value : ℕ → Text → ℕ
value n [] = n
value n (c ∷ s) = value (n * 10 + (c - b'0')) s

unfoldable pub to_int : Text → ℕ
unfolding value
to_int = value 0

-- The last digit is emitted first; fuel for each digit.
unfoldable pub emit : ℕ → ℕ → Text → Text
emit zero n out = out
emit (suc fuel) n out = elim (ltb n 10) [
  | true ↦ (b'0' + n) ∷ out
  | false ↦ emit fuel (n / 10) ((b'0' + n % 10) ∷ out)
]

unfoldable pub to_text : ℕ → Text
unfolding emit
to_text n = emit (suc n) n []

abbrev pub IsNumber : Text → Type 0
IsNumber s = (s ≢ []) × All (λ c. is_digit c ≡ true) s

emit_small : (fuel n : ℕ) (out : Text) → ltb n 10 ≡ true → emit (suc fuel) n out ≡ (b'0' + n) ∷ out
unfolding emit
emit_small fuel n out h = ground arith

emit_large :
    (fuel n : ℕ) (out : Text)
    → ltb n 10 ≡ false
    → emit (suc fuel) n out ≡ emit fuel (n / 10) ((b'0' + n % 10) ∷ out)
unfolding emit
emit_large fuel n out h = ground arith

value_last : (n : ℕ) (out : Text) → value (n / 10) ((b'0' + n % 10) ∷ out) ≡ value n out
unfolding value
value_last n out = ap (λ k. value k out) (omega arith)

value_first : (n : ℕ) (out : Text) → value 0 ((b'0' + n) ∷ out) ≡ value n out
unfolding value
value_first n out = ap (λ k. value k out) (omega arith)

value-emit : (fuel n : ℕ) (out : Text) → n < fuel → value 0 (emit fuel n out) ≡ value n out
value-emit zero n out h = absurd (omega arith)
value-emit (suc fuel) n out h = elim (Bool-cases (ltb n 10)) [
  | inl small ↦ rw (emit_small fuel n out small) (value_first n out)
  | inr large ↦
      rw (emit_large fuel n out large)
        (value-emit fuel (n / 10) ((b'0' + n % 10) ∷ out) (ground arith) ∙ value_last n out)
]

value_nil : (n : ℕ) → value n [] ≡ n
unfolding value
value_nil n = refl

-- Reading a printed number gives the number.
pub to_int-to_text : (n : ℕ) → to_int (to_text n) ≡ n
unfolding to_int to_text
to_int-to_text n = value-emit (suc n) n [] (omega arith) ∙ value_nil n

digit_char : (n : ℕ) → n < 10 → is_digit (b'0' + n) ≡ true
unfolding is_digit
digit_char n h = ground arith

emit-IsNumber :
    (fuel n : ℕ) (out : Text)
    → All (λ c. is_digit c ≡ true) out
    → n < fuel
    → IsNumber (emit fuel n out)
emit-IsNumber zero n out h k = absurd (omega arith)
emit-IsNumber (suc fuel) n out h k = elim (Bool-cases (ltb n 10)) [
  | inl small ↦ rw (emit_small fuel n out small) (cc, (digit_char n (ground arith), h))
  | inr large ↦ rw (emit_large fuel n out large) (
      emit-IsNumber fuel (n / 10) ((b'0' + n % 10) ∷ out) (digit_char (n % 10) (omega arith), h)
        (ground arith))
]

pub to_text-IsNumber : (n : ℕ) → IsNumber (to_text n)
unfolding to_text
to_text-IsNumber n = emit-IsNumber (suc n) n [] tt (omega arith)
