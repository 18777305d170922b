-- ===== src/Version/Items.antt =====
-- The scanner of the number items, and what it returns.

use cdbx.Base.{
  ℕ, ◌≡◌, inl, inr, refl, ap, ◌∙◌, true, false, List, [], ◌∷◌, ◌++◌, Text, ◌==◌, is_digit, join,
  All, Bool-cases,
}
use cdbx.Version.Decimal.{IsNumber}
use cdbx.Version.{dot, add_digit, items}

pub marks :
    (is_digit dot ≡ false)
    × (is_digit b'!' ≡ false)
    × (is_digit b'v' ≡ false)
    × (is_digit b'V' ≡ false)
    × (is_digit b'0' ≡ true)
unfolding is_digit
marks = (refl, refl, refl, refl, refl)

items_more :
    (c d : ℕ) (s : Text)
    → is_digit c ≡ true
    → is_digit d ≡ true
    → items (c ∷ d ∷ s) ≡ add_digit c (items (d ∷ s))
unfolding items
items_more c d s hc hd = rw hc (rw hd refl)

items-dot : (c : ℕ) (s : Text) → is_digit c ≡ true → items (c ∷ dot ∷ s) ≡ (c ∷ []) ∷ items s
unfolding items
items-dot c s hc = rw hc (rw marks.0 refl)

items-number : (w : Text) → IsNumber w → items w ≡ w ∷ []
items-number [] (ne, h) = absurd (ne refl)
items-number (c ∷ []) (ne, (hc, h)) = unfold items in rw hc
items-number (c ∷ d ∷ w) (ne, (hc, (hd, h))) =
    items_more c d w hc hd ∙ ap (add_digit c) (items-number (d ∷ w) (cc, (hd, h)))

items-number_dot : (w s : Text) → IsNumber w → items (w ++ dot ∷ s) ≡ w ∷ items s
items-number_dot [] s (ne, h) = absurd (ne refl)
items-number_dot (c ∷ []) s (ne, (hc, h)) = items-dot c s hc
items-number_dot (c ∷ d ∷ w) s (ne, (hc, (hd, h))) =
    items_more c d (w ++ dot ∷ s) hc hd
    ∙ ap (add_digit c) (items-number_dot (d ∷ w) s (cc, (hd, h)))

pub items-join :
    (n : Text) (ns : List Text) → All IsNumber (n ∷ ns) → items (join dot (n ∷ ns)) ≡ n ∷ ns
unfolding join
items-join n [] (hn, h) = items-number n hn
items-join n (m ∷ ns) (hn, h) =
    items-number_dot n (join dot (m ∷ ns)) hn ∙ ap (◌∷◌ n) (items-join m ns h)

add_digit-IsNumber :
    (c : ℕ) (ns : List Text) → is_digit c ≡ true → All IsNumber ns → All IsNumber (add_digit c ns)
add_digit-IsNumber c [] hc h = ((cc, (hc, tt)), tt)
add_digit-IsNumber c (n ∷ ns) hc ((ne, hn), h) = ((cc, (hc, hn)), h)

pub items-IsNumber : (s : Text) → All IsNumber (items s)
unfolding items
items-IsNumber [] = tt
items-IsNumber (c ∷ []) = elim (Bool-cases (is_digit c)) [
  | inl h ↦ rw h ((cc, (h, tt)), tt)
  | inr h ↦ rw h tt
]
items-IsNumber (c ∷ d ∷ s) = elim (Bool-cases (is_digit c)) [
  | inr h ↦ rw h tt
  | inl h ↦ rw h (elim (Bool-cases (is_digit d)) [
    | inl k ↦ rw k (add_digit-IsNumber c (items (d ∷ s)) h (items-IsNumber (d ∷ s)))
    | inr k ↦ rw k (elim (Bool-cases (d == dot)) [
      | inl e ↦ rw e ((cc, (h, tt)), items-IsNumber s)
      | inr e ↦ rw e ((cc, (h, tt)), tt)
    ])
  ])
]
