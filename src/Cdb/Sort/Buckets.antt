-- ===== src/Cdb/Sort/Buckets.antt =====
-- After the distribution every bucket holds its slots in the order of insertion.
use cdbx.Base.{
  ℕ, suc, ◌+◌, ◌-◌, ◌≤◌, ◌<◌, ◌≡◌, ◌≢◌, ◌⊎◌, inl, inr, refl, sym, ap, ◌∙◌, true, false, List, [],
  ◌∷◌, ◌++◌, ◌==◌, leb, length, arith, Bool-cases,
}
use mathlib.Core.List.{reverse, reverse-cons, append_assoc, append-nil}
use cdbx.Cdb.Word.{u32}
use cdbx.Cdb.Arrays.{filter, filter-yes, filter-no}
use cdbx.Cdb.Slots.{Slot}
use cdbx.Cdb.Sort.{
  update, segment, update-same, update-other, segment-update_other, segment-update_first, bucket_of,
  in_bucket, total, starts_of, distribute, plain_total, plain_total-le, total-plain_total, count_in,
}

-- `todo` is still to be placed, `done` stands at the ends of the buckets.
record Placing (counts : ℕ → ℕ) (starts : ℕ → ℕ) (sorted : ℕ → Slot) (todo done : List Slot)
    : Type 0 where
  start : (j : ℕ) → j < 256 → starts j + count_in j done ≡ plain_total counts (suc j)
  number : (j : ℕ) → j < 256 → count_in j todo + count_in j done ≡ counts j
  content :
      (j : ℕ) → j < 256 → segment sorted (starts j) (count_in j done) ≡ filter (in_bucket j) done

in_bucket_self : (s : Slot) → in_bucket (bucket_of s) s ≡ true
in_bucket_self s = ground arith

in_bucket_other : (s : Slot) (j : ℕ) → j ≢ bucket_of s → in_bucket j s ≡ false
in_bucket_other s j ne = ground arith

-- Two buckets do not overlap.
apart :
    (counts : ℕ → ℕ) (b j p from k : ℕ)
    → j ≢ b
    → plain_total counts b ≤ p
    → p < plain_total counts (suc b)
    → plain_total counts j ≤ from
    → from + k ≡ plain_total counts (suc j)
    → (p < from) ⊎ (from + k ≤ p)
apart counts b j p from k ne lo hi from_lo from_hi = elim (Bool-cases (leb j b)) [
  | inl l ↦
      let lt : suc j ≤ b = ground arith in
      inr (omega (arith, lo, from_hi, plain_total-le counts (suc j) b lt))
  | inr l ↦
      let lt : suc b ≤ j = ground arith in
      inl (omega (arith, hi, from_lo, plain_total-le counts (suc b) j lt))
]

module _ (counts : ℕ → ℕ) (small : plain_total counts 256 < 4294967296) where
  place-Placing :
      (starts : ℕ → ℕ) (sorted : ℕ → Slot) (s : Slot) (todo done : List Slot)
      → Placing counts starts sorted (s ∷ todo) done
      → let place = u32 (starts (bucket_of s) + 4294967295) in
        Placing counts (update starts (bucket_of s) place) (update sorted place s) todo (s ∷ done)
  place-Placing starts sorted s todo done p = record {
    start = start;
    number = number;
    content = content;
  }
    where
      b_lt : bucket_of s < 256
      b_lt = omega arith

      todo_self : count_in (bucket_of s) (s ∷ todo) ≡ suc (count_in (bucket_of s) todo)
      todo_self = ap length (filter-yes (in_bucket (bucket_of s)) s todo (in_bucket_self s))

      done_self : count_in (bucket_of s) (s ∷ done) ≡ suc (count_in (bucket_of s) done)
      done_self = ap length (filter-yes (in_bucket (bucket_of s)) s done (in_bucket_self s))

      todo_other : (j : ℕ) → j ≢ bucket_of s → count_in j (s ∷ todo) ≡ count_in j todo
      todo_other j ne = ap length (filter-no (in_bucket j) s todo (in_bucket_other s j ne))

      done_other : (j : ℕ) → j ≢ bucket_of s → count_in j (s ∷ done) ≡ count_in j done
      done_other j ne = ap length (filter-no (in_bucket j) s done (in_bucket_other s j ne))

      base :
          starts (bucket_of s) + count_in (bucket_of s) done
          ≡ plain_total counts (bucket_of s) + counts (bucket_of s)
      base = unfold plain_total in p.start (bucket_of s) b_lt

      small_end : plain_total counts (suc (bucket_of s)) ≤ plain_total counts 256
      small_end = plain_total-le counts (suc (bucket_of s)) 256 b_lt

      place_eq : u32 (starts (bucket_of s) + 4294967295) ≡ starts (bucket_of s) - 1
      place_eq = omega (
        arith,
        base,
        p.start (bucket_of s) b_lt,
        p.number (bucket_of s) b_lt,
        todo_self,
        small_end,
        small,
      )

      place_suc : suc (u32 (starts (bucket_of s) + 4294967295)) ≡ starts (bucket_of s)
      place_suc = omega (arith, place_eq, base, p.number (bucket_of s) b_lt, todo_self)

      start :
          (j : ℕ)
          → j < 256
          → update starts (bucket_of s) (u32 (starts (bucket_of s) + 4294967295)) j
              + count_in j (s ∷ done)
            ≡ plain_total counts (suc j)
      start j h = elim (Bool-cases (j == bucket_of s)) [
        | inl k ↦
            let e : j ≡ bucket_of s = ground arith in
            rw e (
              rw (update-same starts (bucket_of s) (u32 (starts (bucket_of s) + 4294967295)))
                (omega (arith, place_suc, done_self, p.start (bucket_of s) b_lt)))
        | inr k ↦
            let ne : j ≢ bucket_of s = ground arith in
            rw (update-other starts (bucket_of s) j (u32 (starts (bucket_of s) + 4294967295)) ne)
              (omega (arith, done_other j ne, p.start j h))
      ]

      number : (j : ℕ) → j < 256 → count_in j todo + count_in j (s ∷ done) ≡ counts j
      number j h = elim (Bool-cases (j == bucket_of s)) [
        | inl k ↦
            let e : j ≡ bucket_of s = ground arith in
            rw e (omega (arith, todo_self, done_self, p.number (bucket_of s) b_lt))
        | inr k ↦
            let ne : j ≢ bucket_of s = ground arith in
            omega (arith, todo_other j ne, done_other j ne, p.number j h)
      ]

      content_self :
          segment
            (update sorted (u32 (starts (bucket_of s) + 4294967295)) s)
            (u32 (starts (bucket_of s) + 4294967295))
            (count_in (bucket_of s) (s ∷ done))
          ≡ filter (in_bucket (bucket_of s)) (s ∷ done)
      content_self =
          ap
            (segment (update sorted (u32 (starts (bucket_of s) + 4294967295)) s)
              (u32 (starts (bucket_of s) + 4294967295)))
            done_self
          ∙ segment-update_first sorted (u32 (starts (bucket_of s) + 4294967295)) s
              (count_in (bucket_of s) done)
          ∙ ap (λ i. s ∷ segment sorted i (count_in (bucket_of s) done)) place_suc
          ∙ ap (◌∷◌ s) (p.content (bucket_of s) b_lt)
          ∙ sym (filter-yes (in_bucket (bucket_of s)) s done (in_bucket_self s))

      content_other :
          (j : ℕ)
          → j < 256
          → j ≢ bucket_of s
          → segment
              (update sorted (u32 (starts (bucket_of s) + 4294967295)) s)
              (starts j)
              (count_in j done)
            ≡ filter (in_bucket j) done
      content_other j h ne =
          segment-update_other sorted (u32 (starts (bucket_of s) + 4294967295)) s (starts j)
            (count_in j done)
            (apart counts (bucket_of s) j (u32 (starts (bucket_of s) + 4294967295)) (starts j)
              (count_in j done) ne
              (omega (arith, place_suc, base, p.number (bucket_of s) b_lt, todo_self))
              (omega (arith, place_suc, p.start (bucket_of s) b_lt))
              (unfold plain_total in omega (arith, p.start j h, p.number j h)) (p.start j h))
          ∙ p.content j h

      content :
          (j : ℕ)
          → j < 256
          → segment
              (update sorted (u32 (starts (bucket_of s) + 4294967295)) s)
              (update starts (bucket_of s) (u32 (starts (bucket_of s) + 4294967295)) j)
              (count_in j (s ∷ done))
            ≡ filter (in_bucket j) (s ∷ done)
      content j h = elim (Bool-cases (j == bucket_of s)) [
        | inl k ↦
            let e : j ≡ bucket_of s = ground arith in
            rw e (
              rw (update-same starts (bucket_of s) (u32 (starts (bucket_of s) + 4294967295)))
                content_self)
        | inr k ↦
            let ne : j ≢ bucket_of s = ground arith in
            rw
              (
                update-other starts (bucket_of s) j (u32 (starts (bucket_of s) + 4294967295)) ne,
                filter-no (in_bucket j) s done (in_bucket_other s j ne),
              )
              (content_other j h ne)
      ]

  distribute-Placing :
      (todo done : List Slot) (starts : ℕ → ℕ) (sorted : ℕ → Slot)
      → Placing counts starts sorted todo done
      → (j : ℕ) → j < 256
      → segment (distribute todo starts sorted) (plain_total counts j) (counts j)
        ≡ filter (in_bucket j) (reverse todo ++ done)
  unfolding distribute
  distribute-Placing [] done starts sorted p j h =
      let n : count_in j done ≡ counts j = unfold filter in omega (arith, p.number j h) in
      let st : starts j ≡ plain_total counts j =
        unfold plain_total in omega (arith, p.start j h, n) in
      ap (λ i. segment sorted i (counts j)) (sym st)
      ∙ ap (segment sorted (starts j)) (sym n)
      ∙ p.content j h
  distribute-Placing (s ∷ todo) done starts sorted p j h =
      distribute-Placing todo (s ∷ done)
        (update starts (bucket_of s) (u32 (starts (bucket_of s) + 4294967295)))
        (update sorted (u32 (starts (bucket_of s) + 4294967295)) s)
        (place-Placing starts sorted s todo done p) j h
      ∙ ap (filter (in_bucket j)) (
          sym
            (ap (λ l. l ++ done) (reverse-cons s todo) ∙ append_assoc (reverse todo) (s ∷ []) done))

  -- If the counts are those of the stored slots and add up to less than 2^32, then, whatever stood in
  -- the array before, every bucket's part of it holds the bucket's slots in the order of insertion.
  pub distribute-buckets :
      (latest : List Slot) (sorted : ℕ → Slot)
      → ((j : ℕ) → j < 256 → counts j ≡ count_in j latest)
      → (j : ℕ) → j < 256
      → segment (distribute latest (starts_of counts) sorted) (total counts j) (counts j)
        ≡ filter (in_bucket j) (reverse latest)
  distribute-buckets latest sorted c j h =
      ap (λ i. segment (distribute latest (starts_of counts) sorted) i (counts j))
        (total-plain_total counts j 256 (omega (arith, h)) small)
      ∙ distribute-Placing latest [] (starts_of counts) sorted first j h
      ∙ ap (filter (in_bucket j)) (append-nil (reverse latest))
    where
      first : Placing counts (starts_of counts) sorted latest []
      first =
          unfold filter in
          record {
            start = λ j h. let e = total-plain_total counts (suc j) 256 h small in omega (arith, e);
            number = λ j h. omega (arith, c j h);
            content = λ j h. unfold segment in refl;
          }
