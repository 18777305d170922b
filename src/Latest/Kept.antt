-- ===== src/Latest/Kept.antt =====
-- The texts of lines that are split, cut and put together again, and tests on lines.
use mathlib.Core.List.{reverse, reverse-append, reverse-reverse}
use cdbx.Base.{
  ℕ, ◌≡◌, inl, inr, refl, sym, ap, ◌∙◌, Bool, true, false, not, ◌&&◌, ◌||◌, List, [], ◌∷◌, ◌++◌,
  Option, none, some, Text, text_eq, strip, ◌==◌, concat, concat-append, Bool-cases,
}
use cdbx.FileModel.{add_char}
use cdbx.Latest.{is_line_break, splitlines, cut_step, cut_line, is_suffix}

concat-add_char : (c : ℕ) (ls : List Text) → concat (add_char c ls) ≡ c ∷ concat ls
unfolding concat
concat-add_char c [] = refl
concat-add_char c (l ∷ ls) = refl

pub concat-splitlines : (s : Text) → concat (splitlines s) ≡ s
unfolding splitlines concat
concat-splitlines [] = refl
concat-splitlines (c ∷ []) = refl
concat-splitlines (c ∷ d ∷ s) = elim (Bool-cases (c == b'\r' && d == b'\n')) [
  | inl h ↦ rw h (concat-add_char c (splitlines (d ∷ s)) ∙ ap (◌∷◌ c) (concat-splitlines (d ∷ s)))
  | inr h ↦ elim (Bool-cases (is_line_break c)) [
    | inl k ↦ rw (h, k) (ap (◌∷◌ c) (concat-splitlines (d ∷ s)))
    | inr k ↦
        rw (h, k) (concat-add_char c (splitlines (d ∷ s)) ∙ ap (◌∷◌ c) (concat-splitlines (d ∷ s)))
  ]
]

cut_step_lem : (c : ℕ) (p : Text × Text) → (cut_step c p).0 ++ (cut_step c p).1 ≡ c ∷ (p.0 ++ p.1)
unfolding cut_step
cut_step_lem c ([], cut) = elim (Bool-cases (c == b'\n')) [ inl h ↦ rw h refl | inr h ↦ rw h refl ]
cut_step_lem c (d ∷ kept, cut) = refl

pub cut_line_lem : (s : Text) → (cut_line s).0 ++ (cut_line s).1 ≡ s
unfolding cut_line
cut_line_lem [] = refl
cut_line_lem (c ∷ s) = cut_step_lem c (cut_line s) ∙ ap (◌∷◌ c) (cut_line_lem s)

pub is_suffix_same :
    (o : Option Text) (x y : Text) → strip x ≡ strip y → is_suffix o x ≡ is_suffix o y
is_suffix_same none x y h = refl
is_suffix_same (some m) x y h = ap (λ t. text_eq t (strip m)) h

pub both_false : (b c : Bool) → b ≡ false → c ≡ false → (b || c) ≡ true → ⊥
both_false true c h k e = cc h
both_false false c h k e = cc

pub or_false : (b c : Bool) → (b || c) ≡ false → (b ≡ false) × (c ≡ false)
or_false true c h = absurd (cc h)
or_false false c h = (refl, h)

pub and_right : (b c : Bool) → (b && c) ≡ true → c ≡ true
and_right true c h = h
and_right false c h = absurd (cc h)

pub and_false : (b c : Bool) → b ≡ true → (b && c) ≡ false → c ≡ false
and_false true c k h = h
and_false false c k h = absurd (cc k)

pub negated_true : (b : Bool) → not b ≡ true → b ≡ false
negated_true true h = absurd (cc h)
negated_true false h = refl

pub negated_false : (b : Bool) → not b ≡ false → b ≡ true
negated_false true h = refl
negated_false false h = absurd (cc h)

pub concat-parts :
    (lines d a : List Text)
    → reverse lines ≡ d ++ a
    → concat lines ≡ concat (reverse a) ++ concat (reverse d)
concat-parts lines d a h =
    ap concat (sym (reverse-reverse lines) ∙ ap reverse h ∙ reverse-append d a)
    ∙ concat-append (reverse a) (reverse d)
