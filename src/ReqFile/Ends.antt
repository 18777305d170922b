-- ===== src/ReqFile/Ends.antt =====
-- Reading requirement files comes to an end, however they refer to one another.
use cdbx.Base.{
  ℕ, zero, suc, ◌+◌, ◌≤◌, ◌<◌, ◌≡◌, ◌⊎◌, inl, inr, refl, ap, true, false, List, [], ◌∷◌, Option,
  none, some, Text, if◌then◌else◌, text_eq_iff, length, arith, Bool-cases, Option-cases,
}
use cdbx.ReqFile.Paths.{FilePath, resolve, relpath, path_eq}
use cdbx.ReqFile.Files.{
  FileSystem, read_file, Line, number_lines, Walk, mem_path, push_lines, push_file, push_all, start,
  next,
}
use cdbx.ReqFile.{
  Token, Action, skip, include, emit, fail, classify, Outcome, done, raised, out_of_fuel, prepend,
  follow, proceed, loop, tokens,
}

pub path_eq_sound : (p q : FilePath) → path_eq p q ≡ true → p ≡ q
unfolding path_eq
path_eq_sound [] [] h = refl
path_eq_sound [] (y ∷ q) h = cc
path_eq_sound (x ∷ p) [] h = cc
path_eq_sound (x ∷ p) (y ∷ q) h = ground (arith, text_eq_iff x y, path_eq_sound p q)

pub path_eq_refl : (p : FilePath) → path_eq p p ≡ true
unfolding path_eq
path_eq_refl [] = refl
path_eq_refl (x ∷ p) = ground (arith, (text_eq_iff x x).1 refl, path_eq_refl p)

-- The lines that are on the stack, and those of the files that are not yet seen.
unfoldable pub pending : List (List Line) → ℕ
pending [] = 0
pending (ls ∷ stack) = length ls + pending stack

unfoldable pub unseen : FilePath → List FilePath → FileSystem → ℕ
unfolding mem_path
unseen base seen [] = 0
unseen base seen ((p, ls) ∷ fs) =
    (if mem_path (relpath p base) seen then 0 else length ls) + unseen base seen fs

unfoldable pub total_lines : FileSystem → ℕ
total_lines [] = 0
total_lines ((p, ls) ∷ fs) = length ls + total_lines fs

next-pending :
    (stack : List (List Line)) {l : Line} {rest : List (List Line)}
    → next stack ≡ some (l, rest)
    → pending stack ≡ suc (pending rest)
unfolding next pending
next-pending [] e = cc
next-pending ([] ∷ stack) e = omega (arith, next-pending stack e)
next-pending ((l ∷ ls) ∷ stack) e = ground arith

mem_path_cons :
    (key k : FilePath) (seen : List FilePath)
    → mem_path k seen ≡ true
    → mem_path k (key ∷ seen) ≡ true
unfolding mem_path
mem_path_cons key k seen h = ground arith

mem_path_head : (k : FilePath) (seen : List FilePath) → mem_path k (k ∷ seen) ≡ true
unfolding mem_path
mem_path_head k seen = rw (path_eq_refl k) refl

unseen-cons :
    (base key : FilePath) (seen : List FilePath) (fs : FileSystem)
    → unseen base (key ∷ seen) fs ≤ unseen base seen fs
unfolding unseen
unseen-cons base key seen [] = omega arith
unseen-cons base key seen ((p, ls) ∷ fs) =
    ground (arith, mem_path_cons key (relpath p base) seen, unseen-cons base key seen fs)

unseen-read_file :
    (base path : FilePath) (seen : List FilePath) (fs : FileSystem) {ls : List Text}
    → mem_path (relpath path base) seen ≡ false
    → read_file fs path ≡ some ls
    → unseen base (relpath path base ∷ seen) fs + length ls ≤ unseen base seen fs
unfolding unseen read_file
unseen-read_file base path seen [] h e = cc
unseen-read_file base path seen ((p, ks) ∷ fs) {ls} h e = elim (Bool-cases (path_eq p path)) [
  | inl same ↦ ground (
    arith,
    path_eq_sound p path same,
    path_eq_refl (relpath path base),
    unseen-cons base (relpath path base) seen fs,
  )
  | inr other ↦ ground (
    arith,
    unseen-read_file base path seen fs {ls = ls} h,
    mem_path_cons (relpath path base) (relpath p base) seen,
  )
]

length-number_lines :
    (path : FilePath) (n : ℕ) (ls : List Text) → length (number_lines path n ls) ≡ length ls
unfolding number_lines
length-number_lines path n [] = refl
length-number_lines path n (l ∷ ls) = ap suc (length-number_lines path (n + 1) ls)

-- The lines that a walk can still give.
abbrev pub left : FilePath → FileSystem → Walk → ℕ
left base fs w = pending w.stack + unseen base w.seen fs

push_file-left :
    (base : FilePath) (fs : FileSystem) (path : FilePath) (w : Walk)
    → left base fs (push_file base fs path w) ≤ left base fs w
unfolding push_file push_lines pending
push_file-left base fs path w = elim (Bool-cases (mem_path (relpath path base) w.seen)) [
  | inl old ↦ rw old (omega arith)
  | inr new ↦ rw new (elim (Option-cases (read_file fs path)) [
    | inl missing ↦ rw missing (omega (arith, unseen-cons base (relpath path base) w.seen fs))
    | inr (ls, found) ↦ rw found (
        omega
          (arith, unseen-read_file base path w.seen fs new found, length-number_lines path 1 ls))
  ])
]

push_all-left :
    (base : FilePath) (fs : FileSystem) (names : List Text) (w : Walk)
    → left base fs (push_all base fs names w) ≤ left base fs w
unfolding push_all
push_all-left base fs [] w = omega arith
push_all-left base fs (f ∷ names) w = omega (
  arith,
  push_file-left base fs (resolve base f) (push_all base fs names w),
  push_all-left base fs names w,
)

unseen-total_lines : (base : FilePath) (fs : FileSystem) → unseen base [] fs ≡ total_lines fs
unfolding unseen total_lines
unseen-total_lines base [] = refl
unseen-total_lines base ((p, ls) ∷ fs) = ap (λ n. length ls + n) (unseen-total_lines base fs)

start-left :
    (base : FilePath) (fs : FileSystem) (names : List Text)
    → left base fs (start base fs names) ≤ total_lines fs
unfolding start pending
start-left base fs names = omega (
  arith,
  push_all-left base fs names (record { stack = []; seen = [] }),
  unseen-total_lines base fs,
)

module _ {R : Type 0} (parse : Text → Option R) (base : FilePath) (fs : FileSystem) where
  abbrev pub Ended : Outcome parse → Type 0
  Ended o = (o ≡ raised) ⊎ ((ts : List (Token R)) × (o ≡ done ts))

  prepend-Ended : (t : Token R) (o : Outcome parse) → Ended o → Ended (prepend parse t o)
  unfolding prepend
  prepend-Ended t (done ts) h = inr (t ∷ ts, refl)
  prepend-Ended t raised h = inl refl
  prepend-Ended t out_of_fuel (inl e) = cc
  prepend-Ended t out_of_fuel (inr (ts, e)) = cc

  follow-Ended :
      (go : Walk → Outcome parse) (a : Action R) (w : Walk)
      → ((v : Walk) → left base fs v ≤ left base fs w → Ended (go v))
      → Ended (follow parse base fs go a w)
  unfolding follow
  follow-Ended go skip w h = h w (omega arith)
  follow-Ended go (include p) w h = h (push_file base fs p w) (push_file-left base fs p w)
  follow-Ended go (emit t) w h = prepend-Ended t (go w) (h w (omega arith))
  follow-Ended go fail w h = inl refl

  proceed-Ended :
      (go : Walk → Outcome parse) (n : Option (Line × List (List Line))) (w : Walk)
      → next w.stack ≡ n
      → ((v : Walk) → left base fs v < left base fs w → Ended (go v))
      → Ended (proceed parse base fs go n w)
  unfolding proceed
  proceed-Ended go none w e h = inr ([], refl)
  proceed-Ended go (some (line, rest)) w e h =
      follow-Ended go (classify parse line) (record w { stack = rest })
        (λ v le. h v (omega (arith, next-pending w.stack e)))

  loop-Ended : (fuel : ℕ) (w : Walk) → left base fs w < fuel → Ended (loop parse base fs fuel w)
  unfolding loop
  loop-Ended zero w h = absurd (omega arith)
  loop-Ended (suc fuel) w h =
      proceed-Ended (loop parse base fs fuel) (next w.stack) w refl
        (λ v lt. loop-Ended fuel v (omega arith))

  -- However the requirement files refer to one another, in a circle too: with one more unit of
  -- fuel than the files have lines, the walk over all lines ends, with all the tokens or with the
  -- exception of the requirement parser.
  pub tokens-Ended :
      (filenames : List Text) (fuel : ℕ)
      → total_lines fs < fuel
      → Ended (tokens parse base fs fuel filenames)
  unfolding tokens
  tokens-Ended filenames fuel h =
      loop-Ended fuel (start base fs filenames) (omega (arith, start-left base fs filenames))
