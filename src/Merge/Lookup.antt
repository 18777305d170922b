-- ===== src/Merge/Lookup.antt =====
-- What is found in a merged dictionary.
use mathlib.Core.Path.{subst}
use cdbx.Base.{
  ◌≡◌, refl, sym, ap, ◌∙◌, true, false, Option, none, some, Text, if◌then◌else◌, text_eq,
  text_eq_iff, Bool-cases, inl, inr,
}
use cdbx.Shell.Format.{◌>>=◌}
use cdbx.Merge.{
  Value, Dict, empty, item, find_key, set_key, merge, merge_value, leaf, nested, as_nested,
}

pub text_eq_refl : (t : Text) → text_eq t t ≡ true
text_eq_refl t = (text_eq_iff t t).1 refl

module _ {A : Type 0} where
  -- No key stands twice, as in every dictionary.
  abbrev pub HasDistinctKeys : Dict A → Type 0
  HasDistinctKeys empty = Unit {0}
  HasDistinctKeys (item k v d) = (find_key k d ≡ none) × HasDistinctKeys d

  find_key-set_key_same :
      (k : Text) (value : Value A) (d : Dict A) → find_key k (set_key k value d) ≡ some value
  unfolding find_key set_key
  find_key-set_key_same k value empty = rw (text_eq_refl k) refl
  find_key-set_key_same k value (item j v d) = elim (Bool-cases (text_eq j k)) [
    | inl h ↦ rw h (rw h refl)
    | inr h ↦ rw h (rw h (find_key-set_key_same k value d))
  ]

  find_key-set_key_other :
      (k j : Text) (value : Value A) (d : Dict A)
      → text_eq j k ≡ false
      → find_key k (set_key j value d) ≡ find_key k d
  unfolding find_key set_key
  find_key-set_key_other k j value empty h = rw h refl
  find_key-set_key_other k j value (item i v d) h = elim (Bool-cases (text_eq i j)) [
    | inl e ↦
        let same : text_eq i k ≡ false = ap (λ t. text_eq t k) ((text_eq_iff i j).0 e) ∙ h in
        rw e (rw same refl)
    | inr e ↦
        rw e (ap (λ o. if text_eq i k then some v else o) (find_key-set_key_other k j value d h))
  ]

  -- The dictionary that comes of a second dictionary and what the first one has under the key, which
  -- is nothing or a dictionary.
  abbrev pub MergesInto : Option (Value A) → Dict A → Option (Value A) → Type 0
  MergesInto none d new = (r : Dict A) × (merge empty d ≡ some r) × (new ≡ some (nested r))
  MergesInto (some (leaf a)) d new = ⊥
  MergesInto (some (nested old)) d new =
      (r : Dict A) × (merge old d ≡ some r) × (new ≡ some (nested r))

  -- The value of a key in the merged dictionary.
  abbrev pub FindsMerged : Option (Value A) → Option (Value A) → Option (Value A) → Type 0
  FindsMerged old none new = new ≡ old
  FindsMerged old (some (leaf a)) new = new ≡ some (leaf a)
  FindsMerged old (some (nested d)) new = MergesInto old d new

  find_key_here : (k : Text) (v : Value A) (d : Dict A) → find_key k (item k v d) ≡ some v
  unfolding find_key
  find_key_here k v d = rw (text_eq_refl k) refl

  find_key_there :
      (k j : Text) (v : Value A) (d : Dict A)
      → text_eq j k ≡ false
      → find_key k (item j v d) ≡ find_key k d
  unfolding find_key
  find_key_there k j v d h = rw h refl

  merge_item_value :
      {r : Dict A} {go : Value A → Option (Dict A)} {o : Option (Value A)}
      → (p : Option (Value A)) → o ≡ p
      → (o >>= go) ≡ some r
      → (w : Value A) × (o ≡ some w) × (go w ≡ some r)
  merge_item_value none e h = cc
  merge_item_value {r} {go} (some w) e h = (w, e, ap (λ o. o >>= go) (sym e) ∙ h)

  merge_item :
      (d : Dict A) (j : Text) (v : Value A) (rest : Dict A) {r : Dict A}
      → merge d (item j v rest) ≡ some r
      → (w : Value A) × (merge_value (find_key j d) v ≡ some w)
        × (merge (set_key j w d) rest ≡ some r)
  unfolding merge
  merge_item d j v rest h = merge_item_value (merge_value (find_key j d) v) refl h

  not_merged :
      {old new : Option (Value A)}
      → (o : Option (Value A)) → o ≡ none
      → FindsMerged old o new
      → new ≡ old
  not_merged none e h = h
  not_merged (some v) e h = absurd (cc e)

  as_nested_lem :
      (o : Option (Dict A)) {w : Value A} {new : Option (Value A)}
      → as_nested o ≡ some w
      → new ≡ some w
      → (r : Dict A) × (o ≡ some r) × (new ≡ some (nested r))
  as_nested_lem none h e = absurd (cc h)
  as_nested_lem (some r) h e = (r, refl, cc)

  merge_value-FindsMerged :
      (old : Option (Value A)) (v w : Value A) (new : Option (Value A))
      → merge_value old v ≡ some w
      → new ≡ some w
      → FindsMerged old (some v) new
  unfolding merge_value
  merge_value-FindsMerged none (leaf a) w new h e = cc
  merge_value-FindsMerged (some v) (leaf a) w new h e = cc
  merge_value-FindsMerged none (nested d) w new h e = as_nested_lem (merge empty d) h e
  merge_value-FindsMerged (some (leaf a)) (nested d) w new h e = absurd (cc h)
  merge_value-FindsMerged (some (nested old)) (nested d) w new h e = as_nested_lem (merge old d) h e

  found_here :
      (k : Text) (v w : Value A) (rest d r : Dict A)
      → merge_value (find_key k d) v ≡ some w
      → find_key k rest ≡ none
      → FindsMerged (find_key k (set_key k w d)) (find_key k rest) (find_key k r)
      → FindsMerged (find_key k d) (find_key k (item k v rest)) (find_key k r)
  found_here k v w rest d r hw hn h = rw (find_key_here k v rest) (
      merge_value-FindsMerged (find_key k d) v w (find_key k r) hw
        (not_merged (find_key k rest) hn h ∙ find_key-set_key_same k w d))

  -- A merged dictionary has, for each key of the second one, the second one's value if that is a
  -- leaf, and if it is a dictionary the merge of it into the first one's dictionary or, with no such
  -- key there, into an empty one; for every other key what the first one has.
  pub merge-FindsMerged :
      (d e : Dict A) (r : Dict A)
      → HasDistinctKeys e
      → merge d e ≡ some r
      → (k : Text) → FindsMerged (find_key k d) (find_key k e) (find_key k r)
  merge-FindsMerged d empty r u h k = unfold merge find_key in cc
  merge-FindsMerged d (item j v rest) r u h k =
      let (w, hw, hr) = merge_item d j v rest h in
      let ih = merge-FindsMerged (set_key j w d) rest r u.1 hr k in
      elim (Bool-cases (text_eq j k)) [
        | inl e ↦
            subst (λ i. FindsMerged (find_key i d) (find_key i (item j v rest)) (find_key i r))
              ((text_eq_iff j k).0 e)
              (found_here j v w rest d r hw u.0 (merge-FindsMerged (set_key j w d) rest r u.1 hr j))
        | inr e ↦ rw (find_key_there k j v rest e) (rw (← find_key-set_key_other k j w d e) ih)
      ]
