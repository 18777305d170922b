-- ===== src/Cdb/Arrays.antt =====
-- Arrays as lists with indices, selections by a Boolean test, and the first run of a list.
use Prim.Native.Nat.{ℕ, zero, suc}
use mathlib.Core.Bool.{Bool, true, false}
use mathlib.Core.Path.{◌≡◌, refl, ap, sym, ◌∙◌}
use mathlib.Core.Logic.{inl, inr}
use mathlib.Core.List.{List, [], ◌∷◌, ◌++◌, reverse, reverse-cons, append-nil}
use cdbx.Base.{if◌then◌else◌, Bool-cases, length}

module _ {ℓ} {A : Type ℓ} where
  abbrev pub get_or : A → List A → ℕ → A
  get_or d [] i = d
  get_or d (x ∷ xs) zero = x
  get_or d (x ∷ xs) (suc i) = get_or d xs i

  abbrev pub set : List A → ℕ → A → List A
  set [] i v = []
  set (x ∷ xs) zero v = v ∷ xs
  set (x ∷ xs) (suc i) v = x ∷ set xs i v

  -- The elements that pass a test, in their order.
  unfoldable pub filter : (A → Bool) → List A → List A
  filter p [] = []
  filter p (x ∷ xs) = if p x then x ∷ filter p xs else filter p xs

  pub length-set : (xs : List A) (i : ℕ) (v : A) → length (set xs i v) ≡ length xs
  length-set [] i v = refl
  length-set (x ∷ xs) zero v = refl
  length-set (x ∷ xs) (suc i) v = ap suc (length-set xs i v)

  pub filter-yes :
      (p : A → Bool) (x : A) (xs : List A) → p x ≡ true → filter p (x ∷ xs) ≡ x ∷ filter p xs
  unfolding filter
  filter-yes p x xs h = rw h refl

  pub filter-no :
      (p : A → Bool) (x : A) (xs : List A) → p x ≡ false → filter p (x ∷ xs) ≡ filter p xs
  unfolding filter
  filter-no p x xs h = rw h refl

  pub filter-append :
      (p : A → Bool) (xs ys : List A) → filter p (xs ++ ys) ≡ filter p xs ++ filter p ys
  unfolding filter
  filter-append p [] ys = refl
  filter-append p (x ∷ xs) ys = elim (Bool-cases (p x)) [
    | inl h ↦ rw h (ap (◌∷◌ x) (filter-append p xs ys))
    | inr h ↦ rw h (filter-append p xs ys)
  ]

  pub filter-reverse : (p : A → Bool) (xs : List A) → filter p (reverse xs) ≡ reverse (filter p xs)
  filter-reverse p [] = unfold filter in refl
  filter-reverse p (x ∷ xs) =
      ap (filter p) (reverse-cons x xs)
      ∙ filter-append p (reverse xs) (x ∷ [])
      ∙ ap (λ l. l ++ filter p (x ∷ [])) (filter-reverse p xs)
      ∙ elim (Bool-cases (p x)) [
        | inl h ↦ unfold filter in rw h (sym (reverse-cons x (filter p xs)))
        | inr h ↦ unfold filter in rw h (append-nil (reverse (filter p xs)))
      ]

  -- Where a test implies another one, it may be applied to the selection of that.
  pub filter-filter :
      (p q : A → Bool)
      → ((x : A) → p x ≡ true → q x ≡ true)
      → (xs : List A) → filter p (filter q xs) ≡ filter p xs
  filter-filter p q imp [] = unfold filter in refl
  filter-filter p q imp (x ∷ xs) = elim (Bool-cases (q x)) [
    | inl h ↦ ap (filter p) (filter-yes q x xs h) ∙ elim (Bool-cases (p x)) [
      | inl k ↦
          filter-yes p x (filter q xs) k
          ∙ ap (◌∷◌ x) (filter-filter p q imp xs)
          ∙ sym (filter-yes p x xs k)
      | inr k ↦ filter-no p x (filter q xs) k ∙ filter-filter p q imp xs ∙ sym (filter-no p x xs k)
    ]
    | inr h ↦
        ap (filter p) (filter-no q x xs h)
        ∙ filter-filter p q imp xs
        ∙ sym (filter-no p x xs (contra x h))
  ]
    where
      contra : (x : A) → q x ≡ false → p x ≡ false
      contra x h = elim (Bool-cases (p x)) [ inl k ↦ absurd (cc (imp x k)) | inr k ↦ k ]
