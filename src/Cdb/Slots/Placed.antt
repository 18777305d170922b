-- ===== src/Cdb/Slots/Placed.antt =====
-- Linear probing keeps the slots of one start in the order in which they were inserted.
use cdbx.Base.{
  ℕ, zero, suc, ◌<◌, ◌≡◌, inl, inr, refl, sym, ap, ◌∙◌, Bool, true, false, List, [], ◌∷◌, ◌++◌,
  append_assoc, append-nil, length, arith, Bool-cases,
}
use cdbx.Cdb.Arrays.{set, filter, filter-yes, filter-no, filter-append}
use cdbx.Cdb.Slots.{Slot, is_free}
use cdbx.Cdb.Slots.Probe.{IsFirst}
use cdbx.Cdb.Slots.Walk.{at, run}

filter-run_none : (p : Slot → Bool) (v : List Slot) → filter p v ≡ [] → filter p (run v) ≡ []
unfolding filter run
filter-run_none p [] h = refl
filter-run_none p (s ∷ v) h = elim (Bool-cases (is_free s)) [
  | inl f ↦ rw f refl
  | inr f ↦ elim (Bool-cases (p s)) [
    | inl k ↦ absurd (cc (sym (filter-yes p s v k) ∙ h))
    | inr k ↦ rw f (rw k (filter-run_none p v (sym (filter-no p s v k) ∙ h)))
  ]
]

pub filter-nil : (p : Slot → Bool) → filter p [] ≡ []
unfolding filter
filter-nil p = refl

pub tail_eq : (s : Slot) {v w : List Slot} → s ∷ v ≡ s ∷ w → v ≡ w
tail_eq s h = cc

pub run_free : (s : Slot) (v : List Slot) → is_free s ≡ true → run (s ∷ v) ≡ []
unfolding run
run_free s v h = rw h refl

pub run_used : (s : Slot) (v : List Slot) → is_free s ≡ false → run (s ∷ v) ≡ s ∷ run v
unfolding run
run_used s v h = rw h refl

module _ (p : Slot → Bool) (p_used : (s : Slot) → p s ≡ true → is_free s ≡ false) where
  p_free : (s : Slot) → is_free s ≡ true → p s ≡ false
  p_free s h = elim (Bool-cases (p s)) [ inl k ↦ absurd (cc (p_used s k)) | inr k ↦ k ]

  -- A slot that the test refuses does not show in the selection.
  filter-set_other :
      (v : List Slot) (i : ℕ) (x : Slot)
      → is_free (at v i) ≡ true
      → p x ≡ false
      → filter p (set v i x) ≡ filter p v
  unfolding filter
  filter-set_other [] i x h k = refl
  filter-set_other (s ∷ v) zero x h k = rw (k, p_free s h) refl
  filter-set_other (s ∷ v) (suc i) x h k = rw (filter-set_other v i x h k) refl

  refused_by : (x : Slot) → (p x ≡ true → ⊥) → p x ≡ false
  refused_by x h = elim (Bool-cases (p x)) [ inl k ↦ absurd (h k) | inr k ↦ k ]

  filter_cancel :
      (s : Slot) (v w : List Slot) → filter p (s ∷ v) ≡ filter p (s ∷ w) → filter p v ≡ filter p w
  filter_cancel s v w h = elim (Bool-cases (p s)) [
    | inl k ↦ tail_eq s (sym (filter-yes p s v k) ∙ h ∙ filter-yes p s w k)
    | inr k ↦ sym (filter-no p s v k) ∙ h ∙ filter-no p s w k
  ]

  -- The selected slots all stand in front of the first free one.
  abbrev pub InRun : List Slot → List Slot → Type 0
  InRun v xs = (filter p (run v) ≡ xs) × (filter p v ≡ xs)

  pub set-InRun :
      (v : List Slot) (i : ℕ) (x : Slot) (xs : List Slot)
      → i < length v
      → is_free (at v i) ≡ true
      → is_free x ≡ false
      → (p x ≡ true → IsFirst i v)
      → InRun v xs
      → InRun (set v i x) (xs ++ filter p (x ∷ []))
  set-InRun [] i x xs hi hf hx first (hr, ha) = absurd (omega (arith, hi))
  set-InRun (s ∷ v) zero x xs hi hf hx first (hr, ha) =
      let none_yet : xs ≡ [] = sym hr ∙ ap (filter p) (run_free s v hf) ∙ filter-nil p in
      let none_behind : filter p v ≡ [] = sym (filter-no p s v (p_free s hf)) ∙ ha ∙ none_yet in
      rw none_yet (
        ap (filter p) (run_used x v hx)
            ∙ filter-append p (x ∷ []) (run v)
            ∙ ap (λ l. filter p (x ∷ []) ++ l) (filter-run_none p v none_behind)
            ∙ append-nil (filter p (x ∷ [])),
        filter-append p (x ∷ []) v
            ∙ ap (λ l. filter p (x ∷ []) ++ l) none_behind
            ∙ append-nil (filter p (x ∷ [])),
      )
  set-InRun (s ∷ v) (suc i) x xs hi hf hx first (hr, ha) = elim (Bool-cases (is_free s)) [
    | inl f ↦
        let none_yet : xs ≡ [] = sym hr ∙ ap (filter p) (run_free s v f) ∙ filter-nil p in
        let refused : p x ≡ false = refused_by x (λ k. cc (first k).0) in
        let none_new : filter p (x ∷ []) ≡ [] = filter-no p x [] refused ∙ filter-nil p in
        rw (none_yet, none_new)
          (
            ap (filter p) (run_free s (set v i x) f) ∙ filter-nil p,
            filter-no p s (set v i x) (p_free s f)
                ∙ filter-set_other v i x hf refused
                ∙ sym (filter-no p s v (p_free s f))
                ∙ ha
                ∙ none_yet,
          )
    | inr f ↦
        let same : filter p v ≡ filter p (run v) =
          filter_cancel s v (run v) (ha ∙ sym hr ∙ ap (filter p) (run_used s v f)) in
        let (ir, ia) =
          set-InRun v i x (filter p (run v)) (omega (arith, hi)) hf hx (λ k. (first k).1)
            (refl, same) in
        let before : filter p (s ∷ []) ++ filter p (run v) ≡ xs =
          sym (filter-append p (s ∷ []) (run v)) ∙ ap (filter p) (sym (run_used s v f)) ∙ hr in
        let joined =
          sym (append_assoc (filter p (s ∷ [])) (filter p (run v)) (filter p (x ∷ [])))
          ∙ ap (λ l. l ++ filter p (x ∷ [])) before in
        (
          ap (filter p) (run_used s (set v i x) f)
              ∙ filter-append p (s ∷ []) (run (set v i x))
              ∙ ap (λ l. filter p (s ∷ []) ++ l) ir
              ∙ joined,
          filter-append p (s ∷ []) (set v i x) ∙ ap (λ l. filter p (s ∷ []) ++ l) ia ∙ joined,
        )
  ]
