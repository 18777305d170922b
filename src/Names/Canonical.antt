-- ===== src/Names/Canonical.antt =====
-- The normal form of a package name (PEP 503).
use cdbx.Base.{
  ℕ, ◌≡◌, ◌≢◌, refl, ap, ◌∙◌, Bool, true, false, List, [], ◌∷◌, ◌++◌, map, Text, lower_char, All,
  join, arith, Bool-cases, inl, inr, append-nil, sym,
}
use cdbx.Names.{dash, is_separator, sub_runs, lower, normalize, is_unsafe, safe_extra}

module _ (class : ℕ → Bool) (with : ℕ) (with_in_class : class with ≡ true)
    (lower_with : lower_char with ≡ with) (keeps : (c : ℕ) → class (lower_char c) ≡ class c)
    (idem : (c : ℕ) → class c ≡ false → lower_char (lower_char c) ≡ lower_char c) where
  -- A pass behind the substitution and the lowering finds only single characters of the class,
  -- and all of them are the substitute.
  sub_runs-lower :
      (inside : Bool) (s : Text)
      → map lower_char (sub_runs class with inside (map lower_char (sub_runs class with inside s)))
        ≡ map lower_char (sub_runs class with inside s)
  unfolding sub_runs
  sub_runs-lower inside [] = refl
  sub_runs-lower true (c ∷ s) = elim (Bool-cases (class c)) [
    | inl h ↦ rw h (sub_runs-lower true s)
    | inr h ↦ rw h (ground (arith, keeps c, idem c h, sub_runs-lower false s))
  ]
  sub_runs-lower false (c ∷ s) = elim (Bool-cases (class c)) [
    | inl h ↦ rw h (ground (arith, lower_with, with_in_class, sub_runs-lower true s))
    | inr h ↦ rw h (ground (arith, keeps c, idem c h, sub_runs-lower false s))
  ]

lower_char_idem : (c : ℕ) → lower_char (lower_char c) ≡ lower_char c
unfolding lower_char
lower_char_idem c = ground arith

is_separator-lower_char : (c : ℕ) → is_separator (lower_char c) ≡ is_separator c
unfolding lower_char is_separator
is_separator-lower_char c = ground arith

is_unsafe-lower_char : (c : ℕ) → is_unsafe (lower_char c) ≡ is_unsafe c
unfolding lower_char is_unsafe
is_unsafe-lower_char c = ground arith

-- Normalizing a normalized package name, or sanitizing a sanitized extra, changes nothing.
pub normalize_idem :
    (s : Text)
    → (normalize (normalize s) ≡ normalize s) × (safe_extra (safe_extra s) ≡ safe_extra s)
unfolding normalize safe_extra
normalize_idem s = (
  sub_runs-lower is_separator dash refl refl is_separator-lower_char (λ c _. lower_char_idem c)
      false s,
  sub_runs-lower is_unsafe b'_' refl refl is_unsafe-lower_char (λ c _. lower_char_idem c) false s,
)

abbrev pub IsWord : Text → Type 0
IsWord w = (w ≢ []) × All (λ c. is_separator c ≡ false) w

abbrev pub IsSeparator : Text → Type 0
IsSeparator s = (s ≢ []) × All (λ c. is_separator c ≡ true) s

-- A name of words: the first, and each other one behind its separator.
abbrev pub spell_name : Text → List (Text × Text) → Text
spell_name w [] = w
spell_name w ((sep, v) ∷ rest) = w ++ (sep ++ spell_name v rest)

module _ (class : ℕ → Bool) (with : ℕ) where
  sub_runs-word :
      (inside : Bool) (w rest : Text)
      → w ≢ []
      → All (λ c. class c ≡ false) w
      → sub_runs class with inside (w ++ rest) ≡ w ++ sub_runs class with false rest
  unfolding sub_runs
  sub_runs-word inside [] rest ne h = absurd (ne refl)
  sub_runs-word inside (c ∷ []) rest ne (hc, h) = rw hc
  sub_runs-word inside (c ∷ d ∷ w) rest ne (hc, h) =
      rw hc (ap (◌∷◌ c) (sub_runs-word false (d ∷ w) rest (cc) h))

  sub_runs_inside :
      (s rest : Text)
      → All (λ c. class c ≡ true) s
      → sub_runs class with true (s ++ rest) ≡ sub_runs class with true rest
  unfolding sub_runs
  sub_runs_inside [] rest h = refl
  sub_runs_inside (c ∷ s) rest (hc, h) = rw hc (sub_runs_inside s rest h)

  sub_runs-run :
      (s rest : Text)
      → s ≢ []
      → All (λ c. class c ≡ true) s
      → sub_runs class with false (s ++ rest) ≡ with ∷ sub_runs class with true rest
  unfolding sub_runs
  sub_runs-run [] rest ne h = absurd (ne refl)
  sub_runs-run (c ∷ s) rest ne (hc, h) = rw hc (ap (◌∷◌ with) (sub_runs_inside s rest h))

unfoldable pub words_of : Text → List (Text × Text) → List Text
words_of w [] = w ∷ []
words_of w ((sep, v) ∷ rest) = w ∷ words_of v rest

join_words :
    (w v : Text) (rest : List (Text × Text))
    → join dash (w ∷ words_of v rest) ≡ w ++ dash ∷ join dash (words_of v rest)
unfolding join words_of
join_words w v [] = refl
join_words w v ((sep, u) ∷ rest) = refl

sub_runs_nil : (w : Text) → w ++ sub_runs is_separator dash false [] ≡ join dash ((w ++ []) ∷ [])
unfolding sub_runs join
sub_runs_nil w = refl

sub_runs-spell_name :
    (inside : Bool) (w : Text) (rest : List (Text × Text))
    → IsWord w
    → All (λ p. IsSeparator p.0 × IsWord p.1) rest
    → sub_runs is_separator dash inside (spell_name w rest) ≡ join dash (words_of w rest)
unfolding words_of
sub_runs-spell_name inside w [] (ne, h) hr =
    rw (sym (append-nil w)) (sub_runs-word is_separator dash inside w [] ne h ∙ sub_runs_nil w)
sub_runs-spell_name inside w ((sep, v) ∷ rest) (ne, h) (((nes, hs), hv), hr) =
    sub_runs-word is_separator dash inside w (sep ++ spell_name v rest) ne h
    ∙ rw (sub_runs-run is_separator dash sep (spell_name v rest) nes hs)
        (rw (join_words w v rest) (ap (λ x. w ++ dash ∷ x) (sub_runs-spell_name true v rest hv hr)))

-- The normal form of a name is its words in lower case with one dash between them: the case of
-- the letters and the kind and number of the separators do not matter.
pub normalize-spell_name :
    (w : Text) (rest : List (Text × Text))
    → IsWord w
    → All (λ p. IsSeparator p.0 × IsWord p.1) rest
    → normalize (spell_name w rest) ≡ lower (join dash (words_of w rest))
unfolding normalize
normalize-spell_name w rest hw hr = ap lower (sub_runs-spell_name false w rest hw hr)
