-- ===== src/Shell/Split/Spelled.antt =====
-- Command lines as people write them: bare words and quoted arguments, apart by blanks.
use mathlib.Core.List.{append_assoc}
use native.Mathlib.Nat.{le_refl}
use cdbx.Base.{
  ℕ, zero, suc, ◌+◌, ◌-◌, ◌≤◌, ◌≡◌, ◌≢◌, refl, ap, ◌∙◌, true, false, List, [], ◌∷◌, ◌++◌, map, none,
  some, Text, ◌==◌, is_space, lstrip, All, arith, length, length-append,
}
use cdbx.Shell.Split.{quote, match_arg, unquote, check_rest, check, find_args, line, split_command}
use cdbx.Shell.Split.Scan.{
  escape, Ends, NonBlank, word-append, after_word-append, quoted-escape, strip_escapes-escape,
  drop_last-append,
}

-- An argument as it is spelled: a word, or any text in quotes.
pub data Spelling : Type 0 where
  bare : ℕ → Text → Spelling
  in_quotes : Text → Spelling

unfoldable pub spell : Spelling → Text
unfolding escape
spell (bare c w) = c ∷ w
spell (in_quotes s) = quote ∷ (escape s ++ quote ∷ [])

unfoldable pub value : Spelling → Text
value (bare c w) = c ∷ w
value (in_quotes s) = s

-- A bare word has no blank and does not begin with a quote.
abbrev pub IsSpelling : Spelling → Type 0
IsSpelling (bare c w) = ((c == quote) ≡ false) × NonBlank (c ∷ w)
IsSpelling (in_quotes s) = Unit {0}

abbrev pub Blanks : Text → Type 0
Blanks = All (λ c. is_space c ≡ true)

-- A line: each argument behind its gap, and blanks at the end.
unfoldable pub spell_line : List (Text × Spelling) → Text → Text
unfolding spell
spell_line [] trail = trail
spell_line ((gap, a) ∷ args) trail = gap ++ (spell a ++ spell_line args trail)

-- The arguments behind the first have a blank before them.
abbrev pub IsLine : List (Text × Spelling) → Type 0
IsLine = All (λ p. (p.0 ≢ []) × Blanks p.0 × IsSpelling p.1)

match_arg-spell :
    (a : Spelling) (rest : Text)
    → IsSpelling a
    → Ends rest
    → match_arg (spell a ++ rest) ≡ some (spell a, rest)
unfolding match_arg spell
match_arg-spell (bare c w) rest (hq, (hc, hw)) e =
    ground (arith, word-append w rest hw e, after_word-append w rest hw e)
match_arg-spell (in_quotes s) rest h e = rw append_assoc (ground (arith, quoted-escape s rest))

unquote-spell : (a : Spelling) → IsSpelling a → unquote (spell a) ≡ value a
unfolding unquote spell value
unquote-spell (bare c w) (hq, _) = rw hq
unquote-spell (in_quotes s) h = rw drop_last-append (strip_escapes-escape s)

lstrip-append : (gap s : Text) → Blanks gap → lstrip (gap ++ s) ≡ lstrip s
unfolding lstrip
lstrip-append [] s h = refl
lstrip-append (c ∷ gap) s (hc, h) = rw hc (lstrip-append gap s h)

lstrip-spell :
    (a : Spelling) (rest : Text) → IsSpelling a → lstrip (spell a ++ rest) ≡ spell a ++ rest
unfolding lstrip spell is_space
lstrip-spell (bare c w) rest (hq, (hc, hw)) = ground arith
lstrip-spell (in_quotes s) rest h = refl

lstrip-Blanks : (s : Text) → Blanks s → lstrip s ≡ []
unfolding lstrip
lstrip-Blanks [] h = refl
lstrip-Blanks (c ∷ s) (hc, h) = rw hc (lstrip-Blanks s h)

spell_line-Ends :
    (args : List (Text × Spelling)) (trail : Text)
    → IsLine args
    → Blanks trail
    → Ends (spell_line args trail)
unfolding spell_line
spell_line-Ends [] [] h t = tt
spell_line-Ends [] (c ∷ trail) h (t, _) = t
spell_line-Ends (([], a) ∷ args) trail ((ne, _, _), _) t = absurd (ne refl)
spell_line-Ends ((c ∷ gap, a) ∷ args) trail ((_, (hc, _), _), _) t = hc

check_rest_arg :
    (fuel c : ℕ) (s : Text) {d : ℕ} {r a t : Text}
    → is_space c ≡ true
    → lstrip (c ∷ s) ≡ d ∷ r
    → match_arg (d ∷ r) ≡ some (a, t)
    → check_rest (suc fuel) (c ∷ s) ≡ check_rest fuel t
unfolding check_rest
check_rest_arg fuel c s hc hl hm = ground arith

check_rest_trail : (fuel : ℕ) (s : Text) → Blanks s → length s ≤ fuel → check_rest fuel s ≡ true
unfolding check_rest
check_rest_trail fuel [] h le = refl
check_rest_trail zero (c ∷ s) h le = absurd (omega arith)
check_rest_trail (suc fuel) (c ∷ s) (hc, h) le = ground (arith, lstrip-Blanks (c ∷ s) (hc, h))

spell-cons : (a : Spelling) → (c : ℕ) × (s : Text) × (spell a ≡ c ∷ s)
unfolding spell
spell-cons (bare c w) = (c, w, refl)
spell-cons (in_quotes s) = (quote, escape s ++ quote ∷ [], refl)

check_rest_gap :
    (fuel : ℕ) (gap : Text) (a : Spelling) (rest : Text)
    → gap ≢ []
    → Blanks gap
    → IsSpelling a
    → Ends rest
    → check_rest (suc fuel) (gap ++ (spell a ++ rest)) ≡ check_rest fuel rest
check_rest_gap fuel [] a rest ne hg ha e = absurd (ne refl)
check_rest_gap fuel (c ∷ gap) a rest ne hg ha e =
    let (d, s, eq) = spell-cons a in
    check_rest_arg fuel c (gap ++ (spell a ++ rest)) {d = d} {r = s ++ rest} {a = spell a} hg.0
      (lstrip-append (c ∷ gap) _ hg ∙ lstrip-spell a rest ha ∙ ap (λ x. x ++ rest) eq)
      (rw (← ap (λ x. x ++ rest) eq) (match_arg-spell a rest ha e))

length-gap :
    (gap : Text) (a : Spelling) (rest : Text)
    → length gap + length rest + 1 ≤ length (gap ++ (spell a ++ rest))
length-gap gap a rest =
    let (d, s, eq) = spell-cons a in
    omega (arith, length-append gap (spell a ++ rest), length-append (spell a) rest, ap length eq)

check_rest-spell_line :
    (fuel : ℕ) (args : List (Text × Spelling)) (trail : Text)
    → IsLine args
    → Blanks trail
    → length (spell_line args trail) ≤ fuel
    → check_rest fuel (spell_line args trail) ≡ true
unfolding spell_line
check_rest-spell_line fuel [] trail h t le = check_rest_trail fuel trail t le
check_rest-spell_line zero ((gap, a) ∷ args) trail h t le =
    absurd (omega (arith, length-gap gap a (spell_line args trail)))
check_rest-spell_line (suc fuel) ((gap, a) ∷ args) trail ((ne, hg, ha), h) t le =
    check_rest_gap fuel gap a (spell_line args trail) ne hg ha (spell_line-Ends args trail h t)
    ∙ check_rest-spell_line fuel args trail h t
        (omega (arith, length-gap gap a (spell_line args trail)))

quote_blank : is_space quote ≡ false
unfolding is_space
quote_blank = refl

match_arg_blank : (c : ℕ) (s : Text) → is_space c ≡ true → match_arg (c ∷ s) ≡ none
unfolding match_arg
match_arg_blank c s h = ground (arith, quote_blank)

find_args-none :
    (fuel c : ℕ) (s : Text)
    → match_arg (c ∷ s) ≡ none
    → find_args (suc fuel) (c ∷ s) ≡ find_args fuel s
unfolding find_args
find_args-none fuel c s h = ground arith

find_args-some :
    (fuel : ℕ) (s : Text) {a t : Text}
    → match_arg s ≡ some (a, t)
    → find_args (suc fuel) s ≡ a ∷ find_args fuel t
unfolding find_args match_arg
find_args-some fuel [] h = cc
find_args-some fuel (c ∷ s) h = ground arith

find_args_gap :
    (fuel : ℕ) (gap s : Text)
    → Blanks gap
    → find_args (length gap + fuel) (gap ++ s) ≡ find_args fuel s
find_args_gap fuel [] s h = ap (λ n. find_args n s) (omega arith)
find_args_gap fuel (c ∷ gap) s (hc, h) =
    ap (λ n. find_args n (c ∷ (gap ++ s))) (omega arith)
    ∙ find_args-none (length gap + fuel) c (gap ++ s) (match_arg_blank c _ hc)
    ∙ find_args_gap fuel gap s h

find_args_trail : (fuel : ℕ) (s : Text) → Blanks s → find_args fuel s ≡ []
unfolding find_args
find_args_trail fuel [] h = refl
find_args_trail zero (c ∷ s) h = refl
find_args_trail (suc fuel) (c ∷ s) (hc, h) =
    find_args-none fuel c s (match_arg_blank c s hc) ∙ find_args_trail fuel s h

find_args_arg :
    (fuel : ℕ) (gap : Text) (a : Spelling) (rest : Text)
    → Blanks gap
    → IsSpelling a
    → Ends rest
    → find_args (length gap + suc fuel) (gap ++ (spell a ++ rest)) ≡ spell a ∷ find_args fuel rest
find_args_arg fuel gap a rest hg ha e =
    find_args_gap (suc fuel) gap (spell a ++ rest) hg
    ∙ find_args-some fuel (spell a ++ rest) (match_arg-spell a rest ha e)

-- With fuel for each character every argument is found, in order.
find_args-spell_line :
    (fuel : ℕ) (args : List (Text × Spelling)) (trail : Text)
    → IsLine args
    → Blanks trail
    → length (spell_line args trail) ≤ fuel
    → find_args fuel (spell_line args trail) ≡ map (λ p. spell p.1) args
unfolding spell_line
find_args-spell_line fuel [] trail h t le = find_args_trail _ trail t
find_args-spell_line fuel ((gap, a) ∷ args) trail ((ne, hg, ha), h) t le =
    let rest = spell_line args trail in
    let enough = length-gap gap a rest in
    let left = fuel - length gap - 1 in
    ap (λ n. find_args n (gap ++ (spell a ++ rest))) (omega arith)
    ∙ find_args_arg left gap a rest hg ha (spell_line-Ends args trail h t)
    ∙ ap (◌∷◌ (spell a)) (find_args-spell_line left args trail h t (omega arith))

map-unquote-spell :
    (args : List (Text × Spelling))
    → All (λ p. IsSpelling p.1) args
    → map unquote (map (λ p. spell p.1) args) ≡ map (λ p. value p.1) args
map-unquote-spell [] h = refl
map-unquote-spell ((gap, a) ∷ args) (ha, h) =
    rw (unquote-spell a ha) (ap (◌∷◌ (value a)) (map-unquote-spell args h))

IsLine-IsSpelling : (args : List (Text × Spelling)) → IsLine args → All (λ p. IsSpelling p.1) args
IsLine-IsSpelling [] h = tt
IsLine-IsSpelling ((gap, a) ∷ args) ((ne, hg, ha), h) = (ha, IsLine-IsSpelling args h)

check-spell_line :
    (gap : Text) (a : Spelling) (args : List (Text × Spelling)) (trail : Text)
    → Blanks gap
    → IsSpelling a
    → IsLine args
    → Blanks trail
    → check (gap ++ (spell a ++ spell_line args trail)) ≡ true
unfolding check
check-spell_line gap a args trail hg ha h t =
    let rest = spell_line args trail in
    ground (
      arith,
      lstrip-append gap (spell a ++ rest) hg,
      lstrip-spell a rest ha,
      match_arg-spell a rest ha (spell_line-Ends args trail h t),
      check_rest-spell_line (length rest) args trail h t (le_refl (length rest)),
    )

-- A line of at least one argument, with any blanks around the arguments and at least one between
-- two of them, is split into exactly the arguments that were spelled.
pub split_command-spell_line :
    (gap : Text) (a : Spelling) (args : List (Text × Spelling)) (trail : Text)
    → Blanks gap
    → IsSpelling a
    → IsLine args
    → Blanks trail
    → split_command (line (spell_line ((gap, a) ∷ args) trail))
      ≡ some (value a ∷ map (λ p. value p.1) args)
unfolding split_command spell_line
split_command-spell_line gap a args trail hg ha h t =
    let rest = spell_line args trail in
    let enough = length-gap gap a rest in
    let left = length (gap ++ (spell a ++ rest)) - length gap - 1 in
    let all : ℕ = length (gap ++ (spell a ++ rest)) in
    let fuel : all ≡ length gap + suc left = omega arith in
    let found =
      ap (λ n. find_args n (gap ++ (spell a ++ rest))) fuel
      ∙ find_args_arg left gap a rest hg ha (spell_line-Ends args trail h t)
      ∙ ap (◌∷◌ (spell a)) (find_args-spell_line left args trail h t (omega arith)) in
    rw (check-spell_line gap a args trail hg ha h t, found)
      (rw (unquote-spell a ha)
        (ap (λ l. some (value a ∷ l)) (map-unquote-spell args (IsLine-IsSpelling args h))))
