-- ===== src/Cdb/Find/Values.antt =====
-- All that the iterator of a key gives.
use cdbx.Base.{
  ℕ, zero, suc, ◌-◌, ◌<◌, ◌≡◌, refl, ap, ◌∙◌, false, List, [], ◌∷◌, map, none, some, ◌==◌, length,
  arith,
}
use cdbx.Cdb.Word.{Bytes}
use cdbx.Cdb.Slots.{Slot}
use cdbx.Cdb.Slots.Walk.{walk}
use cdbx.Cdb.Maker.{ok, bind}
use cdbx.Cdb.Maker.Holds.{Rec}
use cdbx.Cdb.File.{Database, read}
use cdbx.Cdb.Find.{Find, search, find, get_iter_next, values}
use cdbx.Cdb.Find.Hits.{value_at_slot}
use cdbx.Cdb.Find.Walks.{Table, Searching, hits, search-none, search-some}

module _ (db : Database) where
  pub values-none :
      (fuel : ℕ) (f f1 : Find) → find db f ≡ ok (none, f1) → values (suc fuel) db f ≡ ok []
  unfolding values get_iter_next
  values-none fuel f f1 e = rw e refl

  values-some :
      (fuel : ℕ) (f f1 : Find) (value : ℕ × ℕ) (v : Bytes)
      → find db f ≡ ok (some value, f1)
      → read db value.0 value.1 ≡ ok v
      → 0 < value.0
      → values (suc fuel) db f ≡ bind (values fuel db f1) (λ vs. ok (v ∷ vs))
  unfolding values get_iter_next
  values-some fuel f f1 value v e r p =
      let there : (value.0 == 0) ≡ false = ground arith in rw (e, there, r) refl

module _ (db : Database) (recs : List Rec) (place n : ℕ) (table : List Slot)
    (t : Table db recs place n table) (key : Bytes) where
  -- A search that has begun goes on.
  find-again :
      (f : Find) (pos left : ℕ)
      → Searching key place n f pos left
      → 0 < f.key_num
      → find db f ≡ search left db f
  unfolding find
  find-again f pos left s b =
      let later : (f.key_num == 0) ≡ false = ground arith in
      let size = ap (λ t. t.1) s.table_eq in
      let slots_left : f.table.1 - f.key_num ≡ left = omega (arith, s.num, size) in
      rw later (ap (λ l. search l db f) slots_left)

  -- From any place of the search on, all values of the remaining hits are given.
  pub values-Searching :
      (fuel : ℕ) (f f0 : Find) (pos left : ℕ) (others : List Slot)
      → find db f ≡ search left db f0
      → Searching key place n f0 pos left
      → hits recs key (walk left table n pos) ≡ others
      → length others < fuel
      → values fuel db f ≡ ok (map (value_at_slot recs) others)
  values-Searching zero f f0 pos left others e s h l = absurd (omega (arith, l))
  values-Searching (suc fuel) f f0 pos left [] e s h l =
      let (f1, e1) = search-none db recs place n table t key left f0 pos s h in
      values-none db fuel f f1 (e ∙ e1)
  values-Searching (suc fuel) f f0 pos left (slot ∷ others) e s h l =
      let r = search-some db recs place n table t key left f0 pos slot others s h in
      values-some db fuel f r.next r.value (value_at_slot recs slot) (e ∙ r.found) r.content
        r.positive
      ∙ ap (λ v. bind v (λ vs. ok (value_at_slot recs slot ∷ vs)))
          (values-Searching fuel r.next r.next r.pos r.rest others
            (find-again r.next r.pos r.rest r.searching r.begun) r.searching r.remaining
            (omega (arith, l)))
