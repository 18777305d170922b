-- ===== src/Cdb/Maker/Lists.antt =====
-- The stored slots, as the loop of `cdbx_cdb32_maker_commit` goes through the blocks.
use cdbx.Base.{
  ℕ, zero, suc, ◌≤◌, ◌≡◌, ◌≢◌, inl, inr, refl, sym, ap, ◌∙◌, List, [], ◌∷◌, ◌++◌, ltb, arith,
  Bool-cases,
}
use cdbx.Cdb.Slots.{Slot}
use cdbx.Cdb.Sort.{update, update-same, update-other}
use cdbx.Cdb.Maker.{block_size, fresh_block, store}

-- `while (index--)`
unfoldable pub countdown : (ℕ → Slot) → ℕ → List Slot
countdown block zero = []
countdown block (suc index) = block index ∷ countdown block index

-- All slots, the latest first: the newest block up to the index, the others whole.
unfoldable pub stored : List (ℕ → Slot) → ℕ → List Slot
unfolding countdown
stored [] index = []
stored (block ∷ lists) index = countdown block index ++ stored lists block_size

countdown-update :
    (block : ℕ → Slot) (i j : ℕ) (s : Slot)
    → i ≤ j
    → countdown (update block j s) i ≡ countdown block i
unfolding countdown
countdown-update block zero j s h = refl
countdown-update block (suc i) j s h =
    let ne : i ≢ j = ground arith in
    rw (update-other block j i s ne)
      (ap (◌∷◌ (block i)) (countdown-update block i j s (omega (arith, h))))

countdown-next :
    (block : ℕ → Slot) (i : ℕ) (s : Slot)
    → countdown (update block i s) (suc i) ≡ s ∷ countdown block i
unfolding countdown
countdown-next block i s =
    rw (update-same block i s) (ap (◌∷◌ s) (countdown-update block i i s (omega arith)))

-- A slot is stored in front of the others, and a block is not overrun.
pub store-stored :
    (lists : List (ℕ → Slot)) (index : ℕ) (s : Slot)
    → index ≤ block_size
    → (stored (store lists index s).0 (store lists index s).1 ≡ s ∷ stored lists index)
      × ((store lists index s).1 ≤ block_size)
unfolding store stored
store-stored [] index s h = (ap (λ l. l ++ []) (countdown-next fresh_block 0 s), omega arith)
store-stored (block ∷ lists) index s h = elim (Bool-cases (ltb index block_size)) [
  | inl l ↦
      rw l (ap (λ v. v ++ stored lists block_size) (countdown-next block index s), ground arith)
  | inr l ↦
      let e : index ≡ block_size = ground arith in
      rw l (
        ap (λ v. v ++ (countdown block block_size ++ stored lists block_size))
              (countdown-next fresh_block 0 s)
            ∙ ap (λ i. s ∷ countdown block i ++ stored lists block_size) (sym e),
        omega arith,
      )
]
