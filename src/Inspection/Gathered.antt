-- ===== src/Inspection/Gathered.antt =====
-- The groups of places that `_scan_toplevel` makes, by name.
use cdbx.Base.{
  ◌≡◌, inl, inr, refl, sym, ap, ◌∙◌, true, false, ◌&&◌, List, [], ◌∷◌, ◌++◌, append_assoc,
  append-nil, Option, none, some, Text, text_eq, text_eq_iff, if◌then◌else◌, All, Bool-cases,
}
use cdbx.Merge.Lookup.{text_eq_refl}
use cdbx.Places.{Markers, Place}
use cdbx.Inspection.{Installed, dict_put, dict_get, version_of, Key, same_version, add_place}

same_version_refl : (v : Option Text) → same_version v v ≡ true
unfolding same_version
same_version_refl none = refl
same_version_refl (some v) = text_eq_refl v

-- A text equal to one of two different ones differs from the other.
pub differs_from :
    (k name other : Text)
    → text_eq k name ≡ true
    → text_eq k other ≡ false
    → text_eq other name ≡ false
differs_from k name other t e =
    let same : k ≡ name = (text_eq_iff k name).0 t in
    elim (Bool-cases (text_eq other name)) [
      | inl u ↦
          let to : other ≡ name = (text_eq_iff other name).0 u in
          absurd (cc (rw (to, sym same, text_eq_refl k) at e))
      | inr u ↦ u
    ]

pub dict_get-dict_put :
    {A : Type 0} (name key : Text) (a : A) (d : List (Text × A))
    → dict_get name (dict_put key a d) ≡ (if text_eq key name then some a else dict_get name d)
unfolding dict_get dict_put
dict_get-dict_put name key a [] = refl
dict_get-dict_put name key a ((k, v) ∷ d) = elim (Bool-cases (text_eq k key)) [
  | inl e ↦
      let same : k ≡ key = (text_eq_iff k key).0 e in
      elim (Bool-cases (text_eq key name)) [
        | inl t ↦ rw (e, same, t) refl
        | inr t ↦ rw (e, same, t) refl
      ]
  | inr e ↦ elim (Bool-cases (text_eq k name)) [
    | inl t ↦ rw (e, t, differs_from k name key t e) refl
    | inr t ↦ rw (e, t, dict_get-dict_put name key a d) refl
  ]
]

module _ (markers : Markers) where
  abbrev Places : Type 0
  Places = List (Place markers)

  abbrev pub Groups : Type 0
  Groups = List (Key × Places)

  -- The items of a name, in their order.
  unfoldable pub placed : Text → List (Text × Place markers) → List (Place markers)
  placed name [] = []
  placed name ((n, p) ∷ items) =
      let rest = placed name items in if text_eq n name then p ∷ rest else rest

  -- What one round of `add_place` makes of the places of a name.
  unfoldable appended : Option Places → Place markers → Option Places
  appended none p = some (p ∷ [])
  appended (some ps) p = some (ps ++ p ∷ [])

  unfoldable pub gathered : Text → List (Text × Place markers) → Option Places → Option Places
  unfolding appended
  gathered name [] acc = acc
  gathered name ((n, p) ∷ items) acc =
      gathered name items (if text_eq n name then appended acc p else acc)

  unfoldable pub or_missing : List (Place markers) → Option (List (Place markers))
  or_missing [] = none
  or_missing (p ∷ ps) = some (p ∷ ps)

  gathered-some :
      (name : Text) (items : List (Text × Place markers)) (ps : Places)
      → gathered name items (some ps) ≡ some (ps ++ placed name items)
  unfolding gathered placed appended
  gathered-some name [] ps = rw (append-nil ps) refl
  gathered-some name ((n, p) ∷ items) ps = elim (Bool-cases (text_eq n name)) [
    | inl e ↦
        rw
          (e, gathered-some name items (ps ++ p ∷ []), append_assoc ps (p ∷ []) (placed name items))
          refl
    | inr e ↦ rw (e, gathered-some name items ps) refl
  ]

  pub gathered-none :
      (name : Text) (items : List (Text × Place markers))
      → gathered name items none ≡ or_missing (placed name items)
  unfolding gathered placed appended or_missing
  gathered-none name [] = refl
  gathered-none name ((n, p) ∷ items) = elim (Bool-cases (text_eq n name)) [
    | inl e ↦ rw (e, gathered-some name items (p ∷ [])) refl
    | inr e ↦ rw (e, gathered-none name items) refl
  ]

  -- The places under a name, whatever the version.
  unfoldable pub under : Text → Groups → Option Places
  under name [] = none
  under name ((k, ps) ∷ req) =
      let rest = under name req in if text_eq k.name name then some ps else rest

  module _ (installed : List (Text × Installed)) where
    -- A key has the installed version of its name.
    abbrev pub IsKeyed : Groups → Type 0
    IsKeyed = All (λ g. g.0.version ≡ version_of (dict_get g.0.name installed))

    abbrev pub key_for : Text → Key
    key_for n = record { name = n; version = version_of (dict_get n installed) }

    unfoldable pub add_items : List (Text × Place markers) → Groups → Groups
    unfolding add_place
    add_items [] req = req
    add_items ((n, p) ∷ items) req = add_items items (add_place markers (key_for n) p req)

    -- A group of the same name has the same key.
    same_key :
        (k : Key) (n : Text)
        → k.version ≡ version_of (dict_get k.name installed)
        → (text_eq k.name n && same_version k.version (version_of (dict_get n installed)))
          ≡ text_eq k.name n
    same_key k n v = elim (Bool-cases (text_eq k.name n)) [
      | inl e ↦
          let same : k.name ≡ n = (text_eq_iff k.name n).0 e in
          rw (e, v, same, same_version_refl (version_of (dict_get n installed))) refl
      | inr e ↦ rw e refl
    ]

    add_place-IsKeyed :
        (n : Text) (p : Place markers) (req : Groups)
        → IsKeyed req
        → IsKeyed (add_place markers (key_for n) p req)
    unfolding add_place
    add_place-IsKeyed n p [] h = (refl, tt)
    add_place-IsKeyed n p ((k, ps) ∷ req) (v, h) = elim (Bool-cases (text_eq k.name n)) [
      | inl e ↦ rw (same_key k n v, e) (v, h)
      | inr e ↦ rw (same_key k n v, e) (v, add_place-IsKeyed n p req h)
    ]

    under-add_place :
        (name n : Text) (p : Place markers) (req : Groups)
        → IsKeyed req
        → under name (add_place markers (key_for n) p req)
          ≡ (if text_eq n name then appended (under name req) p else under name req)
    unfolding add_place under appended
    under-add_place name n p [] h = refl
    under-add_place name n p ((k, ps) ∷ req) (v, h) = elim (Bool-cases (text_eq k.name n)) [
      | inl e ↦
          let same : k.name ≡ n = (text_eq_iff k.name n).0 e in
          elim (Bool-cases (text_eq n name)) [
            | inl t ↦ rw (same_key k n v, e, same, t) refl
            | inr t ↦ rw (same_key k n v, e, same, t) refl
          ]
      | inr e ↦ elim (Bool-cases (text_eq k.name name)) [
        | inl t ↦ rw (same_key k n v, e, t, differs_from k.name name n t e) refl
        | inr t ↦ rw (same_key k n v, e, t, under-add_place name n p req h) refl
      ]
    ]

    -- No name has two groups.
    abbrev pub IsDistinct : Groups → Type 0
    IsDistinct [] = Unit
    IsDistinct ((k, ps) ∷ req) = (under k.name req ≡ none) × IsDistinct req

    add_place-IsDistinct :
        (n : Text) (p : Place markers) (req : Groups)
        → IsKeyed req
        → IsDistinct req
        → IsDistinct (add_place markers (key_for n) p req)
    unfolding add_place under
    add_place-IsDistinct n p [] h d = (refl, tt)
    add_place-IsDistinct n p ((k, ps) ∷ req) (v, h) (u, d) = elim (Bool-cases (text_eq k.name n)) [
      | inl e ↦ rw (same_key k n v, e) (u, d)
      | inr e ↦
          let still : under k.name (add_place markers (key_for n) p req) ≡ none =
            rw
              (
                under-add_place k.name n p req h,
                differs_from k.name k.name n (text_eq_refl k.name) e,
              )
              u in
          rw (same_key k n v, e) (still, add_place-IsDistinct n p req h d)
    ]

    pub add_items-IsKeyed :
        (items : List (Text × Place markers)) (req : Groups)
        → IsKeyed req
        → IsKeyed (add_items items req)
    unfolding add_items
    add_items-IsKeyed [] req h = h
    add_items-IsKeyed ((n, p) ∷ items) req h =
        add_items-IsKeyed items (add_place markers (key_for n) p req) (add_place-IsKeyed n p req h)

    pub add_items-IsDistinct :
        (items : List (Text × Place markers)) (req : Groups)
        → IsKeyed req
        → IsDistinct req
        → IsDistinct (add_items items req)
    unfolding add_items
    add_items-IsDistinct [] req h d = d
    add_items-IsDistinct ((n, p) ∷ items) req h d =
        add_items-IsDistinct items (add_place markers (key_for n) p req)
          (add_place-IsKeyed n p req h) (add_place-IsDistinct n p req h d)

    pub under-add_items :
        (name : Text) (items : List (Text × Place markers)) (req : Groups)
        → IsKeyed req
        → under name (add_items items req) ≡ gathered name items (under name req)
    unfolding add_items gathered
    under-add_items name [] req h = refl
    under-add_items name ((n, p) ∷ items) req h =
        under-add_items name items (add_place markers (key_for n) p req)
          (add_place-IsKeyed n p req h)
        ∙ ap (gathered name items) (under-add_place name n p req h)
