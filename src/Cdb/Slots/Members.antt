-- ===== src/Cdb/Slots/Members.antt =====
-- A table holds nothing but the slots of its bucket and empty ones.
use cdbx.Base.{ℕ, zero, suc, ◌≡◌, ◌⊎◌, inl, inr, refl, List, [], ◌∷◌, replicate, All}
use cdbx.Cdb.Arrays.{set}
use cdbx.Cdb.Slots.{Slot, empty_slot, start_of, probe, insert_slot, insert_slots, slot_table}
use cdbx.Cdb.Slots.Walk.{at}

module _ (P : Slot → Type 0) where
  abbrev pub OrEmpty : Slot → Type 0
  OrEmpty s = (s ≡ empty_slot) ⊎ P s

  set-All :
      (slots : List Slot) (i : ℕ) (s : Slot) → All OrEmpty slots → P s → All OrEmpty (set slots i s)
  set-All [] i s h p = tt
  set-All (x ∷ slots) zero s (hx, h) p = (inr p, h)
  set-All (x ∷ slots) (suc i) s (hx, h) p = (hx, set-All slots i s h p)

  insert_slots-All :
      (n : ℕ) (rest slots : List Slot)
      → All OrEmpty slots
      → All P rest
      → All OrEmpty (insert_slots n slots rest)
  unfolding insert_slots insert_slot
  insert_slots-All n [] slots h p = h
  insert_slots-All n (s ∷ rest) slots h (p, ps) =
      insert_slots-All n rest (insert_slot n slots s)
        (set-All slots (probe n slots n (start_of n s)) s h p) ps

  replicate-All : (n : ℕ) → All OrEmpty (replicate n empty_slot)
  replicate-All zero = tt
  replicate-All (suc n) = (inl refl, replicate-All n)

  pub slot_table-All :
      (n : ℕ) (bucket : List Slot) → All P bucket → All OrEmpty (slot_table n bucket)
  unfolding slot_table
  slot_table-All n bucket h = insert_slots-All n bucket (replicate n empty_slot) (replicate-All n) h

  pub at-All : (slots : List Slot) (pos : ℕ) → All OrEmpty slots → OrEmpty (at slots pos)
  at-All [] pos h = inl refl
  at-All (x ∷ slots) zero (hx, h) = hx
  at-All (x ∷ slots) (suc pos) (hx, h) = at-All slots pos h
