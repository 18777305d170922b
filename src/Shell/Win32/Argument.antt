-- ===== src/Shell/Win32/Argument.antt =====
-- How a program on Windows reads what `win32_command` wrote: `cmd.exe` reads the carets, and the C
-- runtime reads the quotes and backslashes.
use mathlib.Core.List.{append_assoc, append-nil}
use cdbx.Base.{
  ℕ, zero, suc, ◌+◌, ◌≡◌, refl, sym, ap, ◌∙◌, Bool, true, false, [], ◌∷◌, ◌++◌, Option, none, some,
  Text, ◌==◌, ◌||◌, any, if◌then◌else◌, replicate, All, arith, Bool-cases, inl, inr,
}
use cdbx.Shell.Format.{◌>>=◌}
use cdbx.Shell.Win32.{
  backslash, quote, is_gap, is_meta, metasub, slashes, escape_quotes, needq, quote_token,
}

-- What `cmd.exe` gives a meaning to where no caret stands in front: grouping, expansion, redirection
-- and chaining of commands, the quote, in whose range a caret is no escape, blanks and line ends.
unfoldable pub is_operator : ℕ → Bool
is_operator c =
    c == b'('
    || c == b')'
    || c == b'%'
    || c == b'!'
    || c == b'"'
    || c == b'<'
    || c == b'>'
    || c == b'&'
    || c == b'|'
    || c == b' '
    || c == b'\t'
    || c == b'\r'
    || c == b'\n'

abbrev pub push_char : ℕ → Option Text → Option Text
push_char c none = none
push_char c (some t) = some (c ∷ t)

-- The text that `cmd.exe` passes on as one argument: a caret makes the next character an ordinary
-- one and is dropped; a character with a meaning and no caret is refused, and so is a caret at the
-- end.
unfoldable pub cmd_reads : Text → Option Text
unfolding is_operator
cmd_reads [] = some []
cmd_reads (c ∷ []) = if c == b'^' || is_operator c then none else some (c ∷ [])
cmd_reads (c ∷ d ∷ s) = elim (c == b'^') [
  | true ↦ push_char d (cmd_reads s)
  | false ↦ elim (is_operator c) [ true ↦ none | false ↦ push_char c (cmd_reads (d ∷ s)) ]
]

abbrev pub push : Text → Option (Text × Text) → Option (Text × Text)
push t none = none
push t (some (arg, rest)) = some (t ++ arg, rest)

-- The argument behind an opening quote, and the text behind the closing one. `half` pairs of
-- backslashes have been read, and one more if `odd`: in front of a quote each pair is a backslash,
-- and one more makes the quote a character; elsewhere each one is a backslash.
unfoldable pub argument : ℕ → Bool → Text → Option (Text × Text)
argument half odd [] = none
argument half true (c ∷ s) = elim (c == backslash) [
  | true ↦ argument (suc half) false s
  | false ↦ elim (c == quote) [
    | true ↦ push (replicate half backslash ++ c ∷ []) (argument 0 false s)
    | false ↦ push (replicate (suc (half + half)) backslash ++ c ∷ []) (argument 0 false s)
  ]
]
argument half false (c ∷ s) = elim (c == backslash) [
  | true ↦ argument half true s
  | false ↦ elim (c == quote) [
    | true ↦ some (replicate half backslash, s)
    | false ↦ push (replicate (half + half) backslash ++ c ∷ []) (argument 0 false s)
  ]
]

cmd_reads-cons :
    (c : ℕ) (s : Text)
    → (c == b'^') ≡ false
    → is_operator c ≡ false
    → cmd_reads (c ∷ s) ≡ push_char c (cmd_reads s)
unfolding cmd_reads
cmd_reads-cons c [] h k = rw (h, k) refl
cmd_reads-cons c (d ∷ s) h k = ground arith

cmd_reads_caret : (c : ℕ) (s : Text) → cmd_reads (b'^' ∷ c ∷ s) ≡ push_char c (cmd_reads s)
unfolding cmd_reads
cmd_reads_caret c s = refl

not_meta : (c : ℕ) → is_meta c ≡ false → ((c == b'^') ≡ false) × (is_operator c ≡ false)
unfolding is_meta is_gap is_operator
not_meta c h = (ground arith, ground arith)

cmd_reads-metasub : (s : Text) → cmd_reads (metasub s) ≡ some s
unfolding metasub
cmd_reads-metasub [] = unfold cmd_reads in refl
cmd_reads-metasub (c ∷ s) = elim (Bool-cases (is_meta c)) [
  | inl h ↦ rw h (cmd_reads_caret c (metasub s) ∙ ap (push_char c) (cmd_reads-metasub s))
  | inr h ↦ rw h (
      cmd_reads-cons c (metasub s) (not_meta c h).0 (not_meta c h).1
      ∙ ap (push_char c) (cmd_reads-metasub s))
]

argument_two :
    (half : ℕ) (t : Text)
    → argument half false (backslash ∷ backslash ∷ t) ≡ argument (suc half) false t
unfolding argument
argument_two half t = refl

argument-pairs :
    (n half : ℕ) (t : Text)
    → argument half false (replicate (n + n) backslash ++ t) ≡ argument (half + n) false t
argument-pairs zero half t = ap (λ k. argument k false t) (omega arith)
argument-pairs (suc n) half t =
    let two : suc n + suc n ≡ suc (suc (n + n)) = omega arith in
    ap (λ k. argument half false (replicate k backslash ++ t)) two
    ∙ argument_two half (replicate (n + n) backslash ++ t)
    ∙ argument-pairs n (suc half) t
    ∙ ap (λ k. argument k false t) (omega arith)

argument_even :
    (half c : ℕ) (t : Text)
    → (c == backslash) ≡ false
    → (c == quote) ≡ false
    → argument half false (c ∷ t)
      ≡ push (replicate (half + half) backslash ++ c ∷ []) (argument 0 false t)
unfolding argument
argument_even half c t hb hq = ground arith

argument_odd :
    (half c : ℕ) (t : Text)
    → (c == backslash) ≡ false
    → (c == quote) ≡ false
    → argument half false (backslash ∷ c ∷ t)
      ≡ push (replicate (suc (half + half)) backslash ++ c ∷ []) (argument 0 false t)
unfolding argument
argument_odd half c t hb hq = ground arith

argument_other :
    (n half c : ℕ) (t : Text)
    → (c == backslash) ≡ false
    → (c == quote) ≡ false
    → argument half false (replicate n backslash ++ c ∷ t)
      ≡ push (replicate (half + half + n) backslash ++ c ∷ []) (argument 0 false t)
argument_other zero half c t hb hq =
    argument_even half c t hb hq
    ∙ ap (λ k. push (replicate k backslash ++ c ∷ []) (argument 0 false t)) (omega arith)
argument_other (suc zero) half c t hb hq =
    let same : suc (half + half) ≡ half + half + suc zero = omega arith in
    argument_odd half c t hb hq
    ∙ ap (λ k. push (replicate k backslash ++ c ∷ []) (argument 0 false t)) same
argument_other (suc (suc n)) half c t hb hq =
    let same : suc half + suc half + n ≡ half + half + suc (suc n) = omega arith in
    argument_two half (replicate n backslash ++ c ∷ t)
    ∙ argument_other n (suc half) c t hb hq
    ∙ ap (λ k. push (replicate k backslash ++ c ∷ []) (argument 0 false t)) same

argument_escaped :
    (n c : ℕ) (t : Text)
    → (c == quote) ≡ true
    → argument n false (backslash ∷ c ∷ t)
      ≡ push (replicate n backslash ++ c ∷ []) (argument 0 false t)
unfolding argument
argument_escaped n c t hq = ground arith

argument_end : (n : ℕ) (t : Text) → argument n false (quote ∷ t) ≡ some (replicate n backslash, t)
unfolding argument
argument_end n t = refl

escape_quotes-replicate :
    (k : ℕ) (t : Text)
    → escape_quotes (replicate k backslash ++ t) ≡ replicate k backslash ++ escape_quotes t
unfolding escape_quotes
escape_quotes-replicate zero t = refl
escape_quotes-replicate (suc k) t = ap (◌∷◌ backslash) (escape_quotes-replicate k t)

replicate_more :
    (n : ℕ) (s : Text) → replicate (suc n) backslash ++ s ≡ replicate n backslash ++ backslash ∷ s
replicate_more zero s = refl
replicate_more (suc n) s = ap (◌∷◌ backslash) (replicate_more n s)

-- What `slashsub` does with one character behind `n` backslashes.
slashes-backslash : (n : ℕ) (s : Text) → slashes n (backslash ∷ s) ≡ slashes (suc n) s
unfolding slashes
slashes-backslash n s = refl

slashes-quote :
    (n c : ℕ) (s : Text)
    → (c == quote) ≡ true
    → slashes n (c ∷ s) ≡ replicate (n + n) backslash ++ c ∷ slashes 0 s
unfolding slashes
slashes-quote n c s hq = ground arith

slashes_other :
    (n c : ℕ) (s : Text)
    → (c == backslash) ≡ false
    → (c == quote) ≡ false
    → (c == b'\n') ≡ false
    → slashes n (c ∷ s) ≡ replicate n backslash ++ c ∷ slashes 0 s
unfolding slashes
slashes_other n c [] hb hq hn = ground arith
slashes_other n c (d ∷ s) hb hq hn = ground arith

-- The body of a quoted argument, with `n` backslashes that are still to be written.
abbrev body : ℕ → Text → Text
body n s = escape_quotes (slashes n s)

body-quote :
    (n c : ℕ) (s rest : Text)
    → (c == quote) ≡ true
    → body n (c ∷ s) ++ rest ≡ replicate (n + n) backslash ++ backslash ∷ c ∷ (body 0 s ++ rest)
body-quote n c s rest hq =
    ap (λ t. escape_quotes t ++ rest) (slashes-quote n c s hq)
    ∙ ap (λ t. t ++ rest) (escape_quotes-replicate (n + n) (c ∷ slashes 0 s))
    ∙ unfold escape_quotes in
      rw hq (append_assoc (replicate (n + n) backslash) (backslash ∷ c ∷ body 0 s) rest)

body_other :
    (n c : ℕ) (s rest : Text)
    → (c == backslash) ≡ false
    → (c == quote) ≡ false
    → (c == b'\n') ≡ false
    → body n (c ∷ s) ++ rest ≡ replicate n backslash ++ c ∷ (body 0 s ++ rest)
body_other n c s rest hb hq hn =
    ap (λ t. escape_quotes t ++ rest) (slashes_other n c s hb hq hn)
    ∙ ap (λ t. t ++ rest) (escape_quotes-replicate n (c ∷ slashes 0 s))
    ∙ unfold escape_quotes in rw hq (append_assoc (replicate n backslash) (c ∷ body 0 s) rest)

argument_start :
    (n : ℕ) (t : Text) → argument 0 false (replicate (n + n) backslash ++ t) ≡ argument n false t
argument_start n t =
    let same : 0 + n ≡ n = omega arith in argument-pairs n 0 t ∙ ap (λ k. argument k false t) same

argument_start_other :
    (n c : ℕ) (t : Text)
    → (c == backslash) ≡ false
    → (c == quote) ≡ false
    → argument 0 false (replicate n backslash ++ c ∷ t)
      ≡ push (replicate n backslash ++ c ∷ []) (argument 0 false t)
argument_start_other n c t hb hq =
    let same : 0 + 0 + n ≡ n = omega arith in
    argument_other n 0 c t hb hq
    ∙ ap (λ k. push (replicate k backslash ++ c ∷ []) (argument 0 false t)) same

escape_quotes_run : (k : ℕ) → escape_quotes (replicate k backslash) ≡ replicate k backslash
unfolding escape_quotes
escape_quotes_run zero = refl
escape_quotes_run (suc k) = ap (◌∷◌ backslash) (escape_quotes_run k)

body_nil : (n : ℕ) → body n [] ≡ replicate (n + n) backslash
body_nil n = unfold slashes in escape_quotes_run (n + n)

-- A quoted text without line feeds is read back, up to the closing quote.
argument-body :
    (n : ℕ) (s rest : Text)
    → All (λ c. (c == b'\n') ≡ false) s
    → argument 0 false (body n s ++ quote ∷ rest) ≡ some (replicate n backslash ++ s, rest)
argument-body n [] rest h =
    ap (λ t. argument 0 false (t ++ quote ∷ rest)) (body_nil n)
    ∙ argument_start n (quote ∷ rest)
    ∙ argument_end n rest
    ∙ ap (λ t. some (t, rest)) (sym (append-nil (replicate n backslash)))
argument-body n (c ∷ s) rest (hn, h) = elim (Bool-cases (c == backslash)) [
  | inl hb ↦
      let e : c ≡ backslash = ground arith in
      ap (λ d. argument 0 false (body n (d ∷ s) ++ quote ∷ rest)) e
      ∙ ap (λ t. argument 0 false (escape_quotes t ++ quote ∷ rest)) (slashes-backslash n s)
      ∙ argument-body (suc n) s rest h
      ∙ ap (λ t. some (t, rest)) (replicate_more n s)
      ∙ ap (λ d. some (replicate n backslash ++ d ∷ s, rest)) (sym e)
  | inr hb ↦ elim (Bool-cases (c == quote)) [
    | inl hq ↦
        ap (argument 0 false) (body-quote n c s (quote ∷ rest) hq)
        ∙ argument_start n (backslash ∷ c ∷ (body 0 s ++ quote ∷ rest))
        ∙ argument_escaped n c (body 0 s ++ quote ∷ rest) hq
        ∙ ap (push (replicate n backslash ++ c ∷ [])) (argument-body 0 s rest h)
        ∙ ap (λ t. some (t, rest)) (append_assoc (replicate n backslash) (c ∷ []) s)
    | inr hq ↦
        ap (argument 0 false) (body_other n c s (quote ∷ rest) hb hq hn)
        ∙ argument_start_other n c (body 0 s ++ quote ∷ rest) hb hq
        ∙ ap (push (replicate n backslash ++ c ∷ [])) (argument-body 0 s rest h)
        ∙ ap (λ t. some (t, rest)) (append_assoc (replicate n backslash) (c ∷ []) s)
  ]
]

-- Nothing may stand behind the closing quote.
abbrev pub only_argument : Option (Text × Text) → Option Text
only_argument none = none
only_argument (some (arg, [])) = some arg
only_argument (some (arg, c ∷ rest)) = none

-- What a program is given for one argument on its command line: the text in quotes, or the text as
-- it stands, in which a blank would end the argument and a quote change it.
unfoldable pub read_argument : Text → Option Text
unfolding argument
read_argument [] = none
read_argument (c ∷ s) = elim (c == quote) [
  | true ↦ only_argument (argument 0 false s)
  | false ↦ if any (λ d. d == b' ' || d == b'\t' || d == quote) (c ∷ s) then none else some (c ∷ s)
]

read_argument_quoted :
    (s arg : Text) → argument 0 false s ≡ some (arg, []) → read_argument (quote ∷ s) ≡ some arg
unfolding read_argument
read_argument_quoted s arg h = ap only_argument h

no_gap :
    (s : Text)
    → any (λ d. is_gap d || d == quote) s ≡ false
    → any (λ d. d == b' ' || d == b'\t' || d == quote) s ≡ false
unfolding is_gap
no_gap [] h = refl
no_gap (c ∷ s) h = ground (arith, no_gap s)

first_no_quote :
    (c : ℕ) (s : Text) → any (λ d. is_gap d || d == quote) (c ∷ s) ≡ false → (c == quote) ≡ false
unfolding is_gap
first_no_quote c s h = ground arith

read_argument_plain : (token : Text) → needq token ≡ false → read_argument token ≡ some token
unfolding needq read_argument
read_argument_plain [] h = absurd (cc h)
read_argument_plain (c ∷ s) h = rw (read_argument, first_no_quote c s h, no_gap (c ∷ s) h) refl

-- A token without line feeds reaches a program on Windows unchanged: `cmd.exe` finds no character
-- with a meaning that is not behind a caret, and from what is left without the carets the C
-- runtime's rules for quotes and backslashes give the token back.
pub read_argument-quote_token :
    (token : Text)
    → All (λ c. (c == b'\n') ≡ false) token
    → (cmd_reads (metasub (quote_token token)) >>= read_argument) ≡ some token
read_argument-quote_token token h =
    ap (λ o. o >>= read_argument) (cmd_reads-metasub (quote_token token))
    ∙ elim (Bool-cases (needq token)) [
      | inl q ↦
          unfold quote_token in rw q (read_argument_quoted _ token (argument-body 0 token [] h))
      | inr q ↦ unfold quote_token in rw q (read_argument_plain token q)
    ]
