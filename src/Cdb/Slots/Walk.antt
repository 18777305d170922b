-- ===== src/Cdb/Slots/Walk.antt =====
-- Walks around a table, as the search for a free slot and that for a key take them.
use cdbx.Base.{
  ℕ, zero, suc, ◌+◌, ◌-◌, ◌%◌, ◌≤◌, ◌<◌, ◌≡◌, ◌≢◌, ◌⊎◌, inl, inr, refl, ap, List, [], ◌∷◌, ◌==◌,
  leb, length, if◌then◌else◌, arith, Bool-cases,
}
use cdbx.Cdb.Arrays.{get_or, set}
use cdbx.Cdb.Slots.{Slot, empty_slot, is_free}

abbrev pub at : List Slot → ℕ → Slot
at slots pos = get_or empty_slot slots pos

-- The slots from a place on, around the end.
unfoldable pub walk : ℕ → List Slot → ℕ → ℕ → List Slot
walk zero slots n pos = []
walk (suc k) slots n pos = at slots pos ∷ walk k slots n ((pos + 1) % n)

-- The slots in front of the first free one.
unfoldable pub run : List Slot → List Slot
run [] = []
run (s ∷ v) = if is_free s then [] else s ∷ run v

-- `p` lies `d` steps behind `pos`.
abbrev pub Ahead : ℕ → ℕ → ℕ → ℕ → Type 0
Ahead n pos d p = (pos + d ≡ p) ⊎ (pos + d ≡ p + n)

pub next-lt : (n pos : ℕ) → pos < n → (pos + 1) % n < n
next-lt n pos h = omega arith

pub next-cases :
    (n pos : ℕ) → pos < n → ((pos + 1) % n ≡ pos + 1) ⊎ ((pos + 1 ≡ n) × ((pos + 1) % n ≡ 0))
next-cases n pos h = elim (Bool-cases (pos + 1 == n)) [
  | inl e ↦ inr (ground arith, last (ground arith))
  | inr e ↦ inl (inside (ground arith))
]
  where
    last : pos + 1 ≡ n → (pos + 1) % n ≡ 0
    last e = grind arith

    inside : pos + 1 < n → (pos + 1) % n ≡ pos + 1
    inside l = grind arith

pub Ahead-next :
    (n pos d p : ℕ) → pos < n → p < n → d < n → Ahead n pos (suc d) p → Ahead n ((pos + 1) % n) d p
Ahead-next n pos d p h hp hd a = elim (next-cases n pos h) [
  | inl e ↦ ground arith
  | inr (e, f) ↦ ground arith
]

-- The place before one's own lies `n - 1` steps ahead.
Ahead-last : (n p : ℕ) → p < n → Ahead n ((p + 1) % n) (n - 1) p
Ahead-last n p h = elim (next-cases n p h) [ inl e ↦ ground arith | inr (e, f) ↦ ground arith ]

pub Ahead-back :
    (n pos e q : ℕ) → pos < n → e < n → q < n → Ahead n ((pos + 1) % n) e q → Ahead n pos (suc e) q
Ahead-back n pos e q h he hq a = elim (next-cases n pos h) [
  | inl f ↦ ground arith
  | inr (f, g) ↦ ground arith
]

-- Every place lies ahead, in exactly one distance below `n`.
pub Ahead-exists : (n pos q : ℕ) → pos < n → q < n → (d : ℕ) × (d < n) × Ahead n pos d q
Ahead-exists n pos q h hq = elim (Bool-cases (leb pos q)) [
  | inl l ↦ (q - pos, ground arith, inl (ground arith))
  | inr l ↦ (q + n - pos, ground arith, inr (ground arith))
]

pub Ahead-unique :
    (n pos d e q : ℕ) → q < n → d < n → e < n → pos < n → Ahead n pos d q → Ahead n pos e q → d ≡ e
Ahead-unique n pos d e q hq hd he hp a b = ground arith

at-set_self : (slots : List Slot) (p : ℕ) (x : Slot) → p < length slots → at (set slots p x) p ≡ x
at-set_self [] p x h = absurd (omega (arith, h))
at-set_self (y ∷ slots) zero x h = refl
at-set_self (y ∷ slots) (suc p) x h = at-set_self slots p x (omega (arith, h))

at-set_other : (slots : List Slot) (p q : ℕ) (x : Slot) → q ≢ p → at (set slots p x) q ≡ at slots q
at-set_other [] p q x ne = refl
at-set_other (y ∷ slots) zero zero x ne = absurd (ne refl)
at-set_other (y ∷ slots) zero (suc q) x ne = refl
at-set_other (y ∷ slots) (suc p) zero x ne = refl
at-set_other (y ∷ slots) (suc p) (suc q) x ne = at-set_other slots p q x (λ e. ne (ap suc e))

pub length-walk : (k : ℕ) (slots : List Slot) (n pos : ℕ) → length (walk k slots n pos) ≡ k
unfolding walk
length-walk zero slots n pos = refl
length-walk (suc k) slots n pos = ap suc (length-walk k slots n ((pos + 1) % n))

module _ (slots : List Slot) (p : ℕ) (x : Slot) where
  -- A place that the walk does not reach.
  walk-set_miss :
      (k n pos d : ℕ)
      → pos < n
      → p < n
      → d < n
      → k ≤ d
      → Ahead n pos d p
      → walk k (set slots p x) n pos ≡ walk k slots n pos
  unfolding walk
  walk-set_miss zero n pos d h hp hd hk a = refl
  walk-set_miss (suc k) n pos zero h hp hd hk a = absurd (omega (arith, hk))
  walk-set_miss (suc k) n pos (suc d) h hp hd hk a =
      let ne : pos ≢ p = ground arith in
      rw (at-set_other slots p pos x ne) (
        ap (◌∷◌ (at slots pos)) (
          walk-set_miss k n ((pos + 1) % n) d (next-lt n pos h) hp (omega arith) (omega (arith, hk))
            (Ahead-next n pos d p h hp (omega arith) a)))

  -- A place that the walk reaches after `d` steps.
  pub walk-set :
      (k n pos d : ℕ)
      → p < length slots
      → pos < n
      → p < n
      → d < k
      → k ≤ n
      → Ahead n pos d p
      → walk k (set slots p x) n pos ≡ set (walk k slots n pos) d x
  unfolding walk
  walk-set zero n pos d hl h hp hd hk a = absurd (omega (arith, hd))
  walk-set (suc k) n pos zero hl h hp hd hk a =
      let e : pos ≡ p = ground arith in
      rw e (
        rw (at-set_self slots p x hl) (
          ap (◌∷◌ x) (
            walk-set_miss k n ((p + 1) % n) (n - 1) (next-lt n p hp) hp (omega arith)
              (omega (arith, hk)) (Ahead-last n p hp))))
  walk-set (suc k) n pos (suc d) hl h hp hd hk a =
      let ne : pos ≢ p = ground arith in
      rw (at-set_other slots p pos x ne) (
        ap (◌∷◌ (at slots pos)) (
          walk-set k n ((pos + 1) % n) d hl (next-lt n pos h) hp (omega (arith, hd))
            (omega (arith, hk)) (Ahead-next n pos d p h hp (omega arith) a)))

pub at-walk :
    (slots : List Slot) (k n pos d q : ℕ)
    → pos < n
    → q < n
    → d < k
    → k ≤ n
    → Ahead n pos d q
    → at (walk k slots n pos) d ≡ at slots q
unfolding walk
at-walk slots zero n pos d q h hq hd hk a = absurd (omega (arith, hd))
at-walk slots (suc k) n pos zero q h hq hd hk a = let e : pos ≡ q = ground arith in ap (at slots) e
at-walk slots (suc k) n pos (suc d) q h hq hd hk a =
    at-walk slots k n ((pos + 1) % n) d q (next-lt n pos h) hq (omega (arith, hd))
      (omega (arith, hk)) (Ahead-next n pos d q h hq (omega (arith, hd, hk)) a)
