-- ===== src/Cdb/Writer.antt =====
-- The write buffer of a maker: `cdb32_maker_buf_flush` and `cdb32_maker_buf_write`.
use cdbx.Base.{
  ℕ, zero, suc, ◌+◌, ◌-◌, ◌≤◌, ◌<◌, ◌≡◌, ◌⊎◌, inl, inr, refl, sym, ap, ◌∙◌, [], ◌∷◌, ◌++◌,
  append_assoc, append-nil, ◌==◌, ltb, length, length-append, take, drop, take-append-drop,
  if◌then◌else◌, arith, Bool-cases,
}
use cdbx.Cdb.Word.{Bytes}
use cdbx.Cdb.Hash.{hash_from, hash_from-append}

-- `buf` is what the first `buf_index` bytes of the buffer hold, `disk` what was written behind the
-- main table.
pub record Writer : Type 0 where
  pub disk : Bytes
  pub buf : Bytes

-- `CDB32_WRITE_BUF_SIZE`
abbrev pub buf_size : ℕ
buf_size = 8192

-- `cdb32_maker_buf_flush`
unfoldable pub flush : Writer → Writer
flush w = record { disk = w.disk ++ w.buf; buf = [] }

-- The buffer is flushed where it has no room for eight bytes.
unfoldable pub reserve : Writer → Writer
unfolding flush
reserve w = if ltb (buf_size - length w.buf) 8 then flush w else w

-- Eight bytes are packed into the buffer.
unfoldable pub put : Bytes → Writer → Writer
unfolding reserve
put bytes w = let r = reserve w in record { disk = r.disk; buf = r.buf ++ bytes }

abbrev fill : Bytes → Writer → Writer
fill bytes w = record { disk = w.disk; buf = w.buf ++ bytes }

abbrev flush_full : Writer → Writer
unfolding flush
flush_full w = if length w.buf == buf_size then flush w else w

-- The loop of `cdb32_maker_buf_write`: as much as fits, hashed on the way, then a flush where the
-- buffer is full; with fuel.
unfoldable pub write : ℕ → Bytes → ℕ → Writer → Writer × ℕ
unfolding hash_from flush
write fuel [] result w = (w, result)
write zero (c ∷ key) result w = (w, result)
write (suc fuel) (c ∷ key) result w =
    let room = buf_size - length w.buf in
    write fuel (drop room (c ∷ key)) (hash_from result (take room (c ∷ key)))
      (flush_full (fill (take room (c ∷ key)) w))

-- All that was written so far.
abbrev pub content : Writer → Bytes
content w = w.disk ++ w.buf

-- The buffer is not overrun.
abbrev pub Fits : Writer → Type 0
Fits w = length w.buf ≤ buf_size

pub flush-content : (w : Writer) → content (flush w) ≡ content w
unfolding flush
flush-content w = append-nil (w.disk ++ w.buf)

reserve-content : (w : Writer) → content (reserve w) ≡ content w
unfolding reserve
reserve-content w = elim (Bool-cases (ltb (buf_size - length w.buf) 8)) [
  | inl h ↦ rw h (flush-content w)
  | inr h ↦ rw h refl
]

reserve-room : (w : Writer) → Fits w → length (reserve w).buf + 8 ≤ buf_size
unfolding reserve flush
reserve-room w f = elim (Bool-cases (ltb (buf_size - length w.buf) 8)) [
  | inl h ↦ rw h (omega arith)
  | inr h ↦ rw h (ground arith)
]

pub put-content : (bytes : Bytes) (w : Writer) → content (put bytes w) ≡ content w ++ bytes
unfolding put
put-content bytes w =
    sym (append_assoc (reserve w).disk (reserve w).buf bytes)
    ∙ ap (λ l. l ++ bytes) (reserve-content w)

pub put-Fits : (bytes : Bytes) (w : Writer) → length bytes ≤ 8 → Fits w → Fits (put bytes w)
unfolding put
put-Fits bytes w h f = omega (arith, length-append (reserve w).buf bytes, reserve-room w f, h)

flush_full-content : (w : Writer) → content (flush_full w) ≡ content w
unfolding flush_full
flush_full-content w = elim (Bool-cases (length w.buf == buf_size)) [
  | inl h ↦ rw h (flush-content w)
  | inr h ↦ rw h refl
]

flush_full-room : (w : Writer) → Fits w → length (flush_full w).buf < buf_size
unfolding flush flush_full
flush_full-room w f = elim (Bool-cases (length w.buf == buf_size)) [
  | inl h ↦ rw h (omega arith)
  | inr h ↦ rw h (ground arith)
]

length-drop : (n : ℕ) (xs : Bytes) → length (drop n xs) ≡ length xs - n
length-drop zero xs = omega arith
length-drop (suc n) [] = omega arith
length-drop (suc n) (x ∷ xs) = omega (arith, length-drop n xs)

length-take : (n : ℕ) (xs : Bytes) → length (take n xs) ≤ n
length-take zero xs = omega arith
length-take (suc n) [] = omega arith
length-take (suc n) (x ∷ xs) = omega (arith, length-take n xs)

-- A round less is needed where the buffer is not full.
abbrev pub Enough : ℕ → Bytes → Writer → Type 0
Enough fuel bytes w = (length bytes < fuel) ⊎ ((length bytes ≤ fuel) × (length w.buf < buf_size))

-- What a run of the loop leaves.
abbrev pub Written : Bytes → ℕ → Writer → Writer × ℕ → Type 0
Written bytes result w (w', result') =
    (content w' ≡ content w ++ bytes) × (result' ≡ hash_from result bytes) × Fits w'

step-Enough :
    (fuel c : ℕ) (bytes : Bytes) (w : Writer) (w' : Writer)
    → Fits w
    → length w'.buf < buf_size
    → Enough (suc fuel) (c ∷ bytes) w
    → Enough fuel (drop (buf_size - length w.buf) (c ∷ bytes)) w'
step-Enough fuel c bytes w w' f h e =
    let l = length-drop (buf_size - length w.buf) (c ∷ bytes) in inr (ground (arith, l), h)

-- If the buffer is not overrun and there is fuel for a round more than there are bytes (or for as
-- many, where the buffer is not full), all bytes arrive behind what was written, the hash is theirs,
-- and the buffer is not overrun.
pub write-Written :
    (fuel : ℕ) (bytes : Bytes) (result : ℕ) (w : Writer)
    → Fits w
    → Enough fuel bytes w
    → Written bytes result w (write fuel bytes result w)
unfolding write hash_from
write-Written fuel [] result w f e = (sym (append-nil (content w)), refl, f)
write-Written zero (c ∷ key) result w f e = absurd (ground arith)
write-Written (suc fuel) (c ∷ key) result w f e =
    let room = buf_size - length w.buf in
    let part = take room (c ∷ key) in
    let rest = drop room (c ∷ key) in
    let w' = flush_full (fill part w) in
    let small : length w'.buf < buf_size =
      flush_full-room (fill part w)
        (omega (arith, length-append w.buf part, length-take room (c ∷ key), f)) in
    let (ec, eh, ef) =
      write-Written fuel rest (hash_from result part) w' (omega (arith, small))
        (step-Enough fuel c key w w' f small e) in
    let whole = take-append-drop room (c ∷ key) in
    (
      ec
          ∙ ap (λ l. l ++ rest)
              (flush_full-content (fill part w) ∙ sym (append_assoc w.disk w.buf part))
          ∙ append_assoc (content w) part rest
          ∙ ap (λ l. content w ++ l) whole,
      eh ∙ sym (hash_from-append result part rest) ∙ ap (hash_from result) whole,
      ef,
    )
