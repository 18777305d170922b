-- ===== src/Cdb/Find/Walks.antt =====
-- The loop of `cdb32_find` on a table, as a walk around it.
use cdbx.Base.{
  ℕ, zero, suc, ◌+◌, ◌*◌, ◌%◌, ◌≤◌, ◌<◌, ◌≡◌, ◌⊎◌, inl, inr, refl, sym, ap, ◌∙◌, true, false, List,
  [], ◌∷◌, Option, none, some, ◌==◌, length, arith, Bool-cases,
}
use cdbx.Cdb.Word.{Bytes, u32}
use cdbx.Cdb.Arrays.{filter, filter-yes, filter-no}
use cdbx.Cdb.Hash.{hash_mem}
use cdbx.Cdb.Slots.{Slot, is_free}
use cdbx.Cdb.Slots.Walk.{at, walk, run, next-lt, next-cases}
use cdbx.Cdb.Slots.Placed.{run_free, run_used, filter-nil}
use cdbx.Cdb.Maker.{ok}
use cdbx.Cdb.Maker.Holds.{Rec, max_size}
use cdbx.Cdb.File.{Database, read, read_slot}
use cdbx.Cdb.Find.{Find, next_offset, advance, visit, search, resume}
use cdbx.Cdb.Find.Records.{Described}
use cdbx.Cdb.Find.Hits.{is_hit, value_at_slot, visit-hit, visit-miss}

next_offset-eq :
    (place n pos : ℕ)
    → pos < n
    → place + 8 * n ≤ max_size
    → next_offset (place, n) (place + 8 * pos) ≡ place + 8 * ((pos + 1) % n)
unfolding next_offset
next_offset-eq place n pos h room = elim (next-cases n pos h) [
  | inl e ↦
      let lt : pos + 1 < n = omega (arith, e, next-lt n pos h) in
      let other : (u32 (place + 8 * pos + 8) == u32 (place + n * 8)) ≡ false = ground arith in
      rw other (omega (arith, e))
  | inr (e, z) ↦
      let same : (u32 (place + 8 * pos + 8) == u32 (place + n * 8)) ≡ true =
        (let q : place + 8 * pos + 8 ≡ place + n * 8 = omega (arith, e) in rw q (ground arith)) in
      rw same (omega (arith, z))
]

-- The hits in front of the first free slot.
abbrev pub hits : List Rec → Bytes → List Slot → List Slot
hits recs key v = filter (is_hit recs key) (run v)

module _ (recs : List Rec) (key : Bytes) (s : Slot) (v : List Slot) where
  hits-free : is_free s ≡ true → hits recs key (s ∷ v) ≡ []
  hits-free h = ap (filter (is_hit recs key)) (run_free s v h) ∙ filter-nil (is_hit recs key)

  hits-yes :
      is_free s ≡ false → is_hit recs key s ≡ true → hits recs key (s ∷ v) ≡ s ∷ hits recs key v
  hits-yes h k =
      ap (filter (is_hit recs key)) (run_used s v h) ∙ filter-yes (is_hit recs key) s (run v) k

  hits-no : is_free s ≡ false → is_hit recs key s ≡ false → hits recs key (s ∷ v) ≡ hits recs key v
  hits-no h k =
      ap (filter (is_hit recs key)) (run_used s v h) ∙ filter-no (is_hit recs key) s (run v) k

nil_cons : {A : Type 0} {x : A} {xs : List A} → x ∷ xs ≡ [] → ⊥
nil_cons h = cc h

head_eq : {A : Type 0} {x y : A} {xs ys : List A} → x ∷ xs ≡ y ∷ ys → x ≡ y
head_eq h = cc

-- A table of `n` slots in the file.
pub record Table (db : Database) (recs : List Rec) (place n : ℕ) (table : List Slot) : Type 0 where
  pub readable : (pos : ℕ) → pos < n → read_slot db (place + 8 * pos) ≡ ok (at table pos)
  pub described :
      (pos : ℕ) → pos < n → (is_free (at table pos) ≡ true) ⊎ Described db recs (at table pos)
  pub room : place + 8 * n ≤ max_size

-- The search stands at slot `pos`, and `left` slots are left.
pub record Searching (key : Bytes) (place n : ℕ) (f : Find) (pos left : ℕ) : Type 0 where
  pub key_eq : f.key ≡ key
  pub hash_eq : f.hash ≡ hash_mem key
  pub table_eq : f.table ≡ (place, n)
  pub num : f.key_num + left ≡ n
  pub offset_eq : f.table_offset ≡ place + 8 * pos
  pub pos_lt : pos < n

module _ (db : Database) (recs : List Rec) (place n : ℕ) (table : List Slot)
    (t : Table db recs place n table) (key : Bytes) where
  pub advance-Searching :
      (f : Find) (pos left : ℕ)
      → Searching key place n f pos (suc left)
      → Searching key place n (advance f) ((pos + 1) % n) left
  advance-Searching f pos left s = record {
    key_eq = s.key_eq;
    hash_eq = s.hash_eq;
    table_eq = s.table_eq;
    num = omega (arith, s.num);
    offset_eq =
        ap (λ o. next_offset f.table o) s.offset_eq
        ∙ ap (λ b. next_offset b (place + 8 * pos)) s.table_eq
        ∙ next_offset-eq place n pos s.pos_lt t.room;
    pos_lt = next-lt n pos s.pos_lt;
  }

  module _ (f : Find) (pos left : ℕ) (s : Searching key place n f pos (suc left)) where
    got : read_slot db f.table_offset ≡ ok (at table pos)
    got = ap (read_slot db) s.offset_eq ∙ t.readable pos s.pos_lt

    search_free : is_free (at table pos) ≡ true → search (suc left) db f ≡ ok (none, f)
    unfolding search
    search_free h = rw (got, h) refl

    search_used :
        (found : Option (ℕ × ℕ))
        → is_free (at table pos) ≡ false
        → visit db f (at table pos) ≡ ok found
        → search (suc left) db f ≡ resume found (advance f) (search left db (advance f))
    unfolding search
    search_used found h v = rw (got, h, v) refl

    described : is_free (at table pos) ≡ false → Described db recs (at table pos)
    described h = elim (t.described pos s.pos_lt) [ inl e ↦ absurd (cc (sym e ∙ h)) | inr d ↦ d ]

    hash_own : f.hash ≡ hash_mem f.key
    hash_own = s.hash_eq ∙ ap hash_mem (sym s.key_eq)

    search_miss :
        is_free (at table pos) ≡ false
        → is_hit recs key (at table pos) ≡ false
        → search (suc left) db f ≡ search left db (advance f)
    search_miss h k = search_used none h (
        visit-miss db recs f hash_own (at table pos) (described h)
          (ap (λ q. is_hit recs q (at table pos)) s.key_eq ∙ k))

    -- The value of a hit, and the state behind it.
    search_hit :
        is_free (at table pos) ≡ false
        → is_hit recs key (at table pos) ≡ true
        → (value : ℕ × ℕ) × (search (suc left) db f ≡ ok (some value, advance f))
          × (read db value.0 value.1 ≡ ok (value_at_slot recs (at table pos)))
          × (0 < value.0)
          × (value.0 ≡ (at table pos).offset + 8 + length key)
    search_hit h k =
        let d = described h in
        let (found, value) =
          visit-hit db recs f hash_own (at table pos) d
            (ap (λ q. is_hit recs q (at table pos)) s.key_eq ∙ k) in
        (
          ((at table pos).offset + 8 + length f.key, length d.value),
          search_used (some ((at table pos).offset + 8 + length f.key, length d.value)) h found,
          value,
          omega arith,
          ap (λ q. (at table pos).offset + 8 + length q) s.key_eq,
        )

  -- Without a hit in front of the next free slot, nothing is found.
  pub search-none :
      (left : ℕ) (f : Find) (pos : ℕ)
      → Searching key place n f pos left
      → hits recs key (walk left table n pos) ≡ []
      → (f1 : Find) × (search left db f ≡ ok (none, f1))
  unfolding walk
  search-none zero f pos s h = (f, unfold search in refl)
  search-none (suc left) f pos s h = elim (Bool-cases (is_free (at table pos))) [
    | inl e ↦ (f, search_free f pos left s e)
    | inr e ↦ elim (Bool-cases (is_hit recs key (at table pos))) [
      | inl k ↦ absurd (
          nil_cons
            (sym (hits-yes recs key (at table pos) (walk left table n ((pos + 1) % n)) e k) ∙ h))
      | inr k ↦
          let (f1, e1) =
            search-none left (advance f) ((pos + 1) % n) (advance-Searching f pos left s)
              (sym (hits-no recs key (at table pos) (walk left table n ((pos + 1) % n)) e k) ∙ h) in
          (f1, search_miss f pos left s e k ∙ e1)
    ]
  ]

  -- What the search leaves at a hit.
  pub record Hit (f : Find) (left : ℕ) (slot : Slot) (others : List Slot) : Type 0 where
    pub value : ℕ × ℕ
    pub next : Find
    pub pos : ℕ
    pub rest : ℕ
    pub found : search left db f ≡ ok (some value, next)
    pub content : read db value.0 value.1 ≡ ok (value_at_slot recs slot)
    pub positive : 0 < value.0
    pub place_eq : value.0 ≡ slot.offset + 8 + length key
    pub searching : Searching key place n next pos rest
    pub begun : 0 < next.key_num
    pub remaining : hits recs key (walk rest table n pos) ≡ others

  -- The first hit is found, and the others are left.
  pub search-some :
      (left : ℕ) (f : Find) (pos : ℕ) (slot : Slot) (others : List Slot)
      → Searching key place n f pos left
      → hits recs key (walk left table n pos) ≡ slot ∷ others
      → Hit f left slot others
  unfolding walk
  search-some zero f pos slot others s h =
      absurd (nil_cons (sym h ∙ (unfold run in filter-nil (is_hit recs key))))
  search-some (suc left) f pos slot others s h = elim (Bool-cases (is_free (at table pos))) [
    | inl e ↦
        absurd (
          nil_cons
            (sym h ∙ hits-free recs key (at table pos) (walk left table n ((pos + 1) % n)) e))
    | inr e ↦ elim (Bool-cases (is_hit recs key (at table pos))) [
      | inl k ↦
          let both =
            sym (hits-yes recs key (at table pos) (walk left table n ((pos + 1) % n)) e k) ∙ h in
          let (value, found, content, positive, there) = search_hit f pos left s e k in
          record {
            value = value;
            next = advance f;
            pos = (pos + 1) % n;
            rest = left;
            found = found;
            content = content ∙ ap (λ b. ok (value_at_slot recs b)) (head_eq both);
            positive = positive;
            place_eq = there ∙ ap (λ b. b.offset + 8 + length key) (head_eq both);
            searching = advance-Searching f pos left s;
            begun = omega arith;
            remaining = tail_eq' both;
          }
      | inr k ↦
          let r =
            search-some left (advance f) ((pos + 1) % n) slot others
              (advance-Searching f pos left s)
              (sym (hits-no recs key (at table pos) (walk left table n ((pos + 1) % n)) e k) ∙ h) in
          record {
            value = r.value;
            next = r.next;
            pos = r.pos;
            rest = r.rest;
            found = search_miss f pos left s e k ∙ r.found;
            content = r.content;
            positive = r.positive;
            place_eq = r.place_eq;
            searching = r.searching;
            begun = r.begun;
            remaining = r.remaining;
          }
    ]
  ]
    where
      tail_eq' : {x : Slot} {xs : List Slot} → x ∷ xs ≡ slot ∷ others → xs ≡ others
      tail_eq' e = cc
