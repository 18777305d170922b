-- ===== src/Cdb/Slots.antt =====
-- The slot tables that `cdbx_cdb32_maker_commit` fills, by linear probing.
pub mod Walk
pub mod Probe
pub mod Placed
pub mod Order
pub mod Members
use cdbx.Base.{
  ℕ, zero, suc, ◌+◌, ◌/◌, ◌%◌, Bool, true, false, List, [], ◌∷◌, ◌==◌, length, replicate,
}
use cdbx.Cdb.Arrays.{get_or, set}

-- `cdb32_slot_t`
pub record Slot : Type 0 where
  pub hash : ℕ
  pub offset : ℕ

abbrev pub empty_slot : Slot
empty_slot = record { hash = 0; offset = 0 }

-- `!slots[slot].offset`
abbrev pub is_free : Slot → Bool
is_free s = s.offset == 0

-- `(sp->hash >> 8) % max_slots`
abbrev pub start_of : ℕ → Slot → ℕ
start_of n s = s.hash / 256 % n

-- `while (slots[slot].offset) slot = (slot + 1) % max_slots;`, with fuel.
unfoldable pub probe : ℕ → List Slot → ℕ → ℕ → ℕ
probe zero slots n pos = pos
probe (suc fuel) slots n pos = elim (is_free (get_or empty_slot slots pos)) [
  | true ↦ pos
  | false ↦ probe fuel slots n ((pos + 1) % n)
]

unfoldable pub insert_slot : ℕ → List Slot → Slot → List Slot
unfolding probe
insert_slot n slots s = set slots (probe n slots n (start_of n s)) s

-- The loop over the slots of a bucket.
unfoldable pub insert_slots : ℕ → List Slot → List Slot → List Slot
unfolding insert_slot
insert_slots n slots [] = slots
insert_slots n slots (s ∷ rest) = insert_slots n (insert_slot n slots s) rest

-- The table of one bucket: all slots reset, then filled.
unfoldable pub slot_table : ℕ → List Slot → List Slot
unfolding insert_slots
slot_table max_slots bucket = insert_slots max_slots (replicate max_slots empty_slot) bucket
