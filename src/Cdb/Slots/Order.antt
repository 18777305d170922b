-- ===== src/Cdb/Slots/Order.antt =====
-- The table of a bucket: a walk from a start meets the slots of that start in the order of insertion.
use cdbx.Base.{
  ℕ, zero, suc, ◌+◌, ◌%◌, ◌≤◌, ◌<◌, ◌≡◌, inl, inr, refl, sym, ap, ◌∙◌, Bool, true, false, not, ◌&&◌,
  List, [], ◌∷◌, ◌++◌, append_assoc, append-nil, ◌==◌, length, replicate, length-replicate, arith,
  Bool-cases, All,
}
use cdbx.Cdb.Arrays.{set, filter, filter-yes, filter-append, length-set}
use cdbx.Cdb.Slots.{
  Slot, empty_slot, is_free, start_of, probe, insert_slot, insert_slots, slot_table,
}
use cdbx.Cdb.Slots.Probe.{IsFirst, Finds, probe-Finds}
use cdbx.Cdb.Slots.Walk.{
  at, walk, run, Ahead, Ahead-exists, Ahead-unique, at-walk, length-walk, walk-set,
}
use cdbx.Cdb.Slots.Placed.{InRun, set-InRun}

abbrev pub is_used : Slot → Bool
is_used s = not (is_free s)

-- A slot in use that asks for this place.
unfoldable pub starts_at : ℕ → ℕ → Slot → Bool
starts_at n pos s = not (is_free s) && (start_of n s == pos)

pub starts_at-used : (n pos : ℕ) (s : Slot) → starts_at n pos s ≡ true → is_free s ≡ false
unfolding starts_at
starts_at-used n pos s h = ground arith

starts_at-start : (n pos : ℕ) (s : Slot) → starts_at n pos s ≡ true → start_of n s ≡ pos
unfolding starts_at
starts_at-start n pos s h = ground arith

exists_free :
    (slots : List Slot)
    → length (filter is_used slots) < length slots
    → (p : ℕ) × (p < length slots) × (is_free (at slots p) ≡ true)
unfolding filter
exists_free [] h = absurd (omega (arith, h))
exists_free (s ∷ slots) h = elim (Bool-cases (is_free s)) [
  | inl f ↦ (0, omega arith, f)
  | inr f ↦
      let no : is_used s ≡ true = ap not f in
      let (p, hp, e) =
        exists_free slots (omega (arith, h, ap length (filter-yes is_used s slots no))) in
      (suc p, omega (arith, hp), e)
]

count-set :
    (slots : List Slot) (p : ℕ) (x : Slot)
    → p < length slots
    → is_free (at slots p) ≡ true
    → is_free x ≡ false
    → length (filter is_used (set slots p x)) ≡ suc (length (filter is_used slots))
unfolding filter
count-set [] p x h f u = absurd (omega (arith, h))
count-set (s ∷ slots) zero x h f u = rw (u, f) refl
count-set (s ∷ slots) (suc p) x h f u = elim (Bool-cases (is_free s)) [
  | inl e ↦ rw e (count-set slots p x (omega (arith, h)) f u)
  | inr e ↦ rw e (ap suc (count-set slots p x (omega (arith, h)) f u))
]

-- The slots `xs`, in this order, stand in the table.
pub record Placed (n : ℕ) (slots xs : List Slot) : Type 0 where
  pub size : length slots ≡ n
  pub count : length (filter is_used slots) ≡ length xs
  pub order :
      (pos : ℕ)
      → pos < n
      → InRun
          (starts_at n pos)
          (starts_at-used n pos)
          (walk n slots n pos)
          (filter (starts_at n pos) xs)

start_of-lt : (n : ℕ) (s : Slot) → 0 < n → start_of n s < n
start_of-lt n s h = grind arith

-- After the insertion at the first free slot, every walk meets the slots in the right order.
insert-order :
    (n : ℕ) (slots xs : List Slot) (s : Slot) (q : ℕ)
    → Placed n slots xs
    → is_free s ≡ false
    → Finds n slots n (start_of n s) q
    → (pos : ℕ) → pos < n
    → InRun
        (starts_at n pos)
        (starts_at-used n pos)
        (walk n (set slots q s) n pos)
        (filter (starts_at n pos) (xs ++ s ∷ []))
insert-order n slots xs s q p u found pos hpos =
    let (d, hd, a) = Ahead-exists n pos q hpos found.inside in
    let walked =
      walk-set slots q s n n pos d (omega (arith, found.inside, p.size)) hpos found.inside hd
        (omega arith) a in
    let met = at-walk slots n n pos d q hpos found.inside hd (omega arith) a in
    let first : starts_at n pos s ≡ true → IsFirst d (walk n slots n pos) =
      λ k. is_first (starts_at-start n pos s k) d hd a in
    rw (walked, filter-append (starts_at n pos) xs (s ∷ []))
      (set-InRun (starts_at n pos) (starts_at-used n pos) (walk n slots n pos) d s
        (filter (starts_at n pos) xs) (omega (arith, hd, length-walk n slots n pos))
        (ap is_free met ∙ found.found_free) u first (p.order pos hpos))
  where
    is_first :
        start_of n s ≡ pos → (d : ℕ) → d < n → Ahead n pos d q → IsFirst d (walk n slots n pos)
    is_first e d hd a =
        let here : Ahead n (start_of n s) d q = rw e a in
        let same : found.steps ≡ d =
          Ahead-unique n (start_of n s) found.steps d q found.inside found.steps_lt hd
            (omega (arith, e, hpos)) found.ahead here in
        rw (sym e, sym same) found.first

length-snoc : (xs : List Slot) (s : Slot) → length (xs ++ s ∷ []) ≡ suc (length xs)
length-snoc [] s = refl
length-snoc (x ∷ xs) s = ap suc (length-snoc xs s)

insert-Placed :
    (n : ℕ) (slots xs : List Slot) (s : Slot)
    → Placed n slots xs
    → length xs < n
    → is_free s ≡ false
    → Placed n (insert_slot n slots s) (xs ++ s ∷ [])
unfolding insert_slot
insert-Placed n slots xs s p h u =
    let (q, hq, fq) = exists_free slots (omega (arith, p.size, p.count, h)) in
    let start_lt = start_of-lt n s (omega (arith, h)) in
    let (d, hd, a) = Ahead-exists n (start_of n s) q start_lt (omega (arith, hq, p.size)) in
    let found =
      probe-Finds n slots n (start_of n s) d q start_lt (omega (arith, hq, p.size)) hd (omega arith)
        a fq in
    let place = probe n slots n (start_of n s) in
    record {
      size = length-set slots place s ∙ p.size;
      count =
          count-set slots place s (omega (arith, found.inside, p.size)) found.found_free u
          ∙ ap suc p.count
          ∙ sym (length-snoc xs s);
      order = insert-order n slots xs s place p u found;
    }

insert_slots-Placed :
    (n : ℕ) (rest slots xs : List Slot)
    → Placed n slots xs
    → length xs + length rest ≤ n
    → All (λ s. is_free s ≡ false) rest
    → Placed n (insert_slots n slots rest) (xs ++ rest)
unfolding insert_slots
insert_slots-Placed n [] slots xs p h u = rw (append-nil xs) p
insert_slots-Placed n (s ∷ rest) slots xs p h (u, us) = rw (sym (append_assoc xs (s ∷ []) rest)) (
    insert_slots-Placed n rest (insert_slot n slots s) (xs ++ s ∷ [])
      (insert-Placed n slots xs s p (omega (arith, h)) u) (omega (arith, h, length-snoc xs s)) us)

count-replicate : (n : ℕ) → filter is_used (replicate n empty_slot) ≡ []
unfolding filter
count-replicate zero = refl
count-replicate (suc n) = count-replicate n

at-replicate : (n pos : ℕ) → at (replicate n empty_slot) pos ≡ empty_slot
at-replicate zero pos = refl
at-replicate (suc n) zero = refl
at-replicate (suc n) (suc pos) = at-replicate n pos

walk-replicate : (k m n pos : ℕ) → walk k (replicate m empty_slot) n pos ≡ replicate k empty_slot
unfolding walk
walk-replicate zero m n pos = refl
walk-replicate (suc k) m n pos =
    rw (at-replicate m pos) (ap (◌∷◌ empty_slot) (walk-replicate k m n ((pos + 1) % n)))

none_start : (n pos k : ℕ) → filter (starts_at n pos) (replicate k empty_slot) ≡ []
unfolding filter starts_at
none_start n pos zero = refl
none_start n pos (suc k) = none_start n pos k

none_run : (n pos k : ℕ) → filter (starts_at n pos) (run (replicate k empty_slot)) ≡ []
unfolding filter run
none_run n pos zero = refl
none_run n pos (suc k) = refl

empty-Placed : (n : ℕ) → Placed n (replicate n empty_slot) []
unfolding filter
empty-Placed n = record {
  size = length-replicate n empty_slot;
  count = ap length (count-replicate n);
  order = λ pos h. rw (walk-replicate n n n pos) (none_run n pos n, none_start n pos n);
}

-- If all slots of a bucket are in use, its table of twice as many places holds as many slots as the
-- bucket, and a walk from any start meets the slots of that start in the order of insertion, all of
-- them in front of the first free place.
pub slot_table-Placed :
    (bucket : List Slot)
    → All (λ s. is_free s ≡ false) bucket
    → Placed
        (length bucket + length bucket)
        (slot_table (length bucket + length bucket) bucket)
        bucket
unfolding slot_table
slot_table-Placed bucket u =
    let n = length bucket + length bucket in
    insert_slots-Placed n bucket (replicate n empty_slot) [] (empty-Placed n) (omega arith) u
