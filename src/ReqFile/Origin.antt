-- ===== src/ReqFile/Origin.antt =====
-- Where the tokens come from.
use mathlib.Core.Path.{subst}
use cdbx.Base.{
  ℕ, zero, suc, ◌+◌, ◌-◌, ◌≤◌, ◌≡◌, refl, sym, ap, ◌∙◌, List, [], ◌∷◌, ◌++◌, append_assoc, Option,
  none, some, Text, get_elem?, length, length-append, All, arith, Bool-cases, Option-cases, codes,
  rstrip, strip, ◌==◌, inl, inr,
}
use cdbx.ReqFile.Paths.{FilePath, resolve, relpath}
use cdbx.ReqFile.Files.{
  FileSystem, read_file, Line, number_lines, Walk, mem_path, push_lines, push_file, push_all, start,
  next,
}
use cdbx.ReqFile.{
  Token, constraint, requirement, editable, index, Action, skip, include, emit, fail, classify,
  Outcome, done, raised, out_of_fuel, prepend, follow, proceed, loop, tokens, plain_line,
  requirement_line, constraint_line, on_match, classify_content, option_value, first_word,
}

-- The line stands in an existing file, under its number.
pub record IsLineOf (fs : FileSystem) (l : Line) : Type 0 where
  pub lines : List Text
  pub exists : read_file fs l.file ≡ some lines
  pub numbered : 1 ≤ l.lineno
  pub stands : get_elem? lines (l.lineno - 1) ≡ some l.content

abbrev pub line_of : {R : Type 0} → Token R → Line
line_of (constraint v l) = l
line_of (requirement v l) = l
line_of (editable v l) = l
line_of (index v l) = l

get_elem?-append {ℓ} :
    {A : Type ℓ} (xs ys : List A) (a : A) → get_elem? (xs ++ a ∷ ys) (length xs) ≡ some a
get_elem?-append [] ys a = refl
get_elem?-append (x ∷ xs) ys a = get_elem?-append xs ys a

number_lines-IsLineOf :
    (fs : FileSystem) (path : FilePath) (before ls : List Text) (n : ℕ)
    → read_file fs path ≡ some (before ++ ls)
    → n ≡ length before + 1
    → All (IsLineOf fs) (number_lines path n ls)
unfolding number_lines
number_lines-IsLineOf fs path before [] n h e = tt
number_lines-IsLineOf fs path before (l ∷ ls) n h e = (
  record {
    lines = before ++ l ∷ ls;
    exists = h;
    numbered = omega arith;
    stands = ap (get_elem? (before ++ l ∷ ls)) (omega arith) ∙ get_elem?-append before ls l;
  },
  number_lines-IsLineOf fs path (before ++ l ∷ []) ls (n + 1)
      (h ∙ ap some (sym (append_assoc before (l ∷ []) ls)))
      (omega (arith, length-append before (l ∷ []))),
)

abbrev AllLines : FileSystem → List (List Line) → Type 0
AllLines fs = All (All (IsLineOf fs))

push_file-AllLines :
    (base : FilePath) (fs : FileSystem) (path : FilePath) (w : Walk)
    → AllLines fs w.stack
    → AllLines fs (push_file base fs path w).stack
unfolding push_file push_lines
push_file-AllLines base fs path w h = elim (Bool-cases (mem_path (relpath path base) w.seen)) [
  | inl old ↦ rw old h
  | inr new ↦ rw new (elim (Option-cases (read_file fs path)) [
    | inl missing ↦ rw missing h
    | inr (ls, found) ↦ rw found (number_lines-IsLineOf fs path [] ls 1 found refl, h)
  ])
]

push_all-AllLines :
    (base : FilePath) (fs : FileSystem) (names : List Text) (w : Walk)
    → AllLines fs w.stack
    → AllLines fs (push_all base fs names w).stack
unfolding push_all
push_all-AllLines base fs [] w h = h
push_all-AllLines base fs (f ∷ names) w h =
    push_file-AllLines base fs (resolve base f) (push_all base fs names w)
      (push_all-AllLines base fs names w h)

next-AllLines :
    (fs : FileSystem) (stack : List (List Line)) {l : Line} {rest : List (List Line)}
    → AllLines fs stack
    → next stack ≡ some (l, rest)
    → IsLineOf fs l × AllLines fs rest
unfolding next
next-AllLines fs [] h e = cc
next-AllLines fs ([] ∷ stack) (_, h) e = next-AllLines fs stack h e
next-AllLines fs ((k ∷ ks) ∷ stack) {l} {rest} ((hk, hks), h) e =
    let first : k ≡ l = cc in
    let others : (ks ∷ stack) ≡ rest = cc in
    (subst (IsLineOf fs) first hk, subst (AllLines fs) others (hks, h))

module _ {R : Type 0} (parse : Text → Option R) where
  -- What a line emits is about that line.
  About : Line → Action R → Type 0
  About line (emit t) = line_of t ≡ line
  About line _ = Unit

  skip-About : (line : Line) → About line skip
  unfolding About
  skip-About line = tt

  emit-About : (t : Token R) (line : Line) → line_of t ≡ line → About line (emit t)
  unfolding About
  emit-About t line h = h

  plain_line-About : (content : Text) (line : Line) → About line (plain_line parse content line)
  unfolding plain_line About
  plain_line-About content line = ground arith

  requirement_line-About : (req : Text) (line : Line) → About line (requirement_line parse req line)
  unfolding requirement_line About
  requirement_line-About req line = ground arith

  constraint_line-About : (con : Text) (line : Line) → About line (constraint_line parse con line)
  unfolding constraint_line About
  constraint_line-About con line = ground arith

  on_match-About :
      (o : Option Text) (line : Line) (act : Text → Action R) (rest : Action R)
      → ((v : Text) → About line (act v))
      → About line rest
      → About line (on_match parse o act rest)
  unfolding on_match
  on_match-About none line act rest h k = k
  on_match-About (some v) line act rest h k = h v

  classify_content-About :
      (content : Text) (line : Line) → About line (classify_content parse content line)
  unfolding classify_content
  classify_content-About [] line = skip-About line
  classify_content-About (c ∷ s) line = elim (Bool-cases (c == b'#')) [
    | inl h ↦ rw h (skip-About line)
    | inr h ↦ rw h (
        on_match-About _ line _ _ (λ v. requirement_line-About v line)
          (on_match-About _ line _ _ (λ v. constraint_line-About (first_word v) line)
            (on_match-About (option_value (codes "-e") (codes "--editable") (c ∷ s)) line _ _
              (λ v. emit-About (editable (rstrip v) line) line refl)
              (on_match-About (option_value (codes "-i") (codes "--index") (c ∷ s)) line _ _
                (λ v. emit-About (index (first_word v) line) line refl)
                (plain_line-About (c ∷ s) line)))))
  ]

  module _ (base : FilePath) (fs : FileSystem) where
    -- Each token of the outcome carries a line of a file.
    abbrev pub FromFiles : Outcome parse → Type 0
    FromFiles (done ts) = All (λ t. IsLineOf fs (line_of t)) ts
    FromFiles _ = Unit

    prepend-FromFiles :
        (t : Token R) (o : Outcome parse)
        → IsLineOf fs (line_of t)
        → FromFiles o
        → FromFiles (prepend parse t o)
    unfolding prepend
    prepend-FromFiles t (done ts) h k = (h, k)
    prepend-FromFiles t raised h k = tt
    prepend-FromFiles t out_of_fuel h k = tt

    follow-FromFiles :
        (go : Walk → Outcome parse) (a : Action R) (line : Line) (w : Walk)
        → About line a
        → IsLineOf fs line
        → AllLines fs w.stack
        → ((v : Walk) → AllLines fs v.stack → FromFiles (go v))
        → FromFiles (follow parse base fs go a w)
    unfolding follow About
    follow-FromFiles go skip line w a l h k = k w h
    follow-FromFiles go (include p) line w a l h k =
        k (push_file base fs p w) (push_file-AllLines base fs p w h)
    follow-FromFiles go (emit t) line w a l h k = prepend-FromFiles t (go w) (rw a l) (k w h)
    follow-FromFiles go fail line w a l h k = tt

    proceed-FromFiles :
        (go : Walk → Outcome parse) (n : Option (Line × List (List Line))) (w : Walk)
        → next w.stack ≡ n
        → AllLines fs w.stack
        → ((v : Walk) → AllLines fs v.stack → FromFiles (go v))
        → FromFiles (proceed parse base fs go n w)
    unfolding proceed classify
    proceed-FromFiles go none w e h k = tt
    proceed-FromFiles go (some (line, rest)) w e h k =
        let (l, others) = next-AllLines fs w.stack h e in
        follow-FromFiles go _ line (record w { stack = rest })
          (classify_content-About (strip line.content) line) l others k

    loop-FromFiles :
        (fuel : ℕ) (w : Walk) → AllLines fs w.stack → FromFiles (loop parse base fs fuel w)
    unfolding loop
    loop-FromFiles zero w h = tt
    loop-FromFiles (suc fuel) w h =
        proceed-FromFiles (loop parse base fs fuel) (next w.stack) w refl h (loop-FromFiles fuel)

    -- Every token stands for a line of a file that exists, and carries that file, the line's
    -- number, counted from one, and its content.
    pub tokens-FromFiles :
        (filenames : List Text) (fuel : ℕ) → FromFiles (tokens parse base fs fuel filenames)
    unfolding tokens start
    tokens-FromFiles filenames fuel =
        loop-FromFiles fuel (start base fs filenames)
          (push_all-AllLines base fs filenames (record { stack = []; seen = [] }) tt)
