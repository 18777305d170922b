-- ===== src/Cdb/Slots/Probe.antt =====
-- The search for a free slot ends at the first one.
use cdbx.Base.{
  ℕ, zero, suc, ◌+◌, ◌%◌, ◌≤◌, ◌<◌, ◌≡◌, inl, inr, refl, ap, ◌∙◌, true, false, List, [], ◌∷◌, arith,
  Bool-cases,
}
use cdbx.Cdb.Slots.{Slot, is_free, probe}
use cdbx.Cdb.Slots.Walk.{at, walk, Ahead, next-lt, Ahead-next, Ahead-back}

-- The first free slot of a list has this index.
abbrev pub IsFirst : ℕ → List Slot → Type 0
IsFirst e [] = ⊥
IsFirst zero (s ∷ v) = is_free s ≡ true
IsFirst (suc e) (s ∷ v) = (is_free s ≡ false) × IsFirst e v

-- What the search for a free slot finds.
pub record Finds (k : ℕ) (slots : List Slot) (n pos q : ℕ) : Type 0 where
  pub steps : ℕ
  pub steps_lt : steps < k
  pub inside : q < n
  pub ahead : Ahead n pos steps q
  pub found_free : is_free (at slots q) ≡ true
  pub first : IsFirst steps (walk k slots n pos)

probe_free :
    (fuel : ℕ) (slots : List Slot) (n pos : ℕ)
    → is_free (at slots pos) ≡ true
    → probe (suc fuel) slots n pos ≡ pos
unfolding probe
probe_free fuel slots n pos h = rw (probe, h) refl

probe_used :
    (fuel : ℕ) (slots : List Slot) (n pos : ℕ)
    → is_free (at slots pos) ≡ false
    → probe (suc fuel) slots n pos ≡ probe fuel slots n ((pos + 1) % n)
unfolding probe
probe_used fuel slots n pos h = rw (probe, h) refl

-- One step further, the search finds the same slot.
Finds-next :
    (k : ℕ) (slots : List Slot) (n pos q : ℕ)
    → pos < n
    → suc k ≤ n
    → is_free (at slots pos) ≡ false
    → Finds k slots n ((pos + 1) % n) q
    → Finds (suc k) slots n pos q
unfolding walk
Finds-next k slots n pos q h hk u r = record {
  steps = suc r.steps;
  steps_lt = omega (arith, r.steps_lt);
  inside = r.inside;
  ahead = Ahead-back n pos r.steps q h (omega (arith, r.steps_lt, hk)) r.inside r.ahead;
  found_free = r.found_free;
  first = (u, r.first);
}

-- As long as a slot is free, the search ends at the first free one.
pub probe-Finds :
    (k : ℕ) (slots : List Slot) (n pos d q : ℕ)
    → pos < n
    → q < n
    → d < k
    → k ≤ n
    → Ahead n pos d q
    → is_free (at slots q) ≡ true
    → Finds k slots n pos (probe k slots n pos)
unfolding walk
probe-Finds zero slots n pos d q h hq hd hk a f = absurd (omega (arith, hd))
probe-Finds (suc k) slots n pos zero q h hq hd hk a f =
    let e : pos ≡ q = ground arith in
    let u : is_free (at slots pos) ≡ true = ap (λ i. is_free (at slots i)) e ∙ f in
    rw (probe_free k slots n pos u) (record {
      steps = 0;
      steps_lt = omega arith;
      inside = h;
      ahead = inl (omega arith);
      found_free = u;
      first = u;
    })
probe-Finds (suc k) slots n pos (suc d) q h hq hd hk a f =
    elim (Bool-cases (is_free (at slots pos))) [
      | inl u ↦ rw (probe_free k slots n pos u) (record {
        steps = 0;
        steps_lt = omega arith;
        inside = h;
        ahead = inl (omega arith);
        found_free = u;
        first = u;
      })
      | inr u ↦ rw (probe_used k slots n pos u) (
          Finds-next k slots n pos (probe k slots n ((pos + 1) % n)) h hk u (
            probe-Finds k slots n ((pos + 1) % n) d q (next-lt n pos h) hq (omega (arith, hd))
              (omega (arith, hk)) (Ahead-next n pos d q h hq (omega (arith, hd, hk)) a) f))
    ]
