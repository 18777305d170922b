-- ===== src/Version/Match.antt =====
-- The scanner of version numbers on the texts that it returns.
use mathlib.Core.List.{append_assoc}
use cdbx.Base.{
  ℕ, ◌≡◌, ◌≢◌, ◌⊎◌, inl, inr, refl, sym, ap, ◌∙◌, true, false, ◌&&◌, List, [], ◌∷◌, ◌++◌, Option,
  none, some, Text, ◌==◌, is_digit, join, All, arith, Bool-cases,
}
use mathlib.Core.Path.{subst}
use cdbx.Version.Decimal.{IsNumber}
use cdbx.Version.Items.{marks, items-join, items-IsNumber}
use cdbx.Version.{
  dot, digit_run, after_digits, pick_epoch, epoch, drop_prefix, Release, with_items, or_later,
  match_numbers, match_release, search_release,
}

-- The optional `v`, and the optional epoch with its mark.
abbrev pub IsMark : Text → Type 0
IsMark v = (v ≡ []) ⊎ ((v ≡ b'v' ∷ []) ⊎ (v ≡ b'V' ∷ []))

abbrev pub IsEpoch : Text → Type 0
IsEpoch e = (e ≡ []) ⊎ ((w : Text) × IsNumber w × (e ≡ w ++ b'!' ∷ []))

-- What a match of `version_release` can consist of.
pub record IsRelease (r : Release) : Type 0 where
  pub mark : Text
  pub front : Text
  pub before_is : r.before ≡ mark ++ front
  pub mark_ok : IsMark mark
  pub epoch_ok : IsEpoch front
  pub some_numbers : r.numbers ≢ []
  pub numbers_ok : All IsNumber r.numbers

unfoldable pub spell_release : Release → Text
spell_release r = r.before ++ join dot r.numbers

digit_run-number :
    (w : Text) (c : ℕ) (s : Text)
    → All (λ d. is_digit d ≡ true) w
    → is_digit c ≡ false
    → (digit_run (w ++ c ∷ s) ≡ w) × (after_digits (w ++ c ∷ s) ≡ c ∷ s)
unfolding digit_run after_digits
digit_run-number [] c s h k = rw k (refl, refl)
digit_run-number (d ∷ w) c s (hd, h) k =
    rw hd (let (p, q) = digit_run-number w c s h k in (ap (◌∷◌ d) p, q))

digit_run-All :
    (w : Text) → All (λ d. is_digit d ≡ true) w → (digit_run w ≡ w) × (after_digits w ≡ [])
unfolding digit_run after_digits
digit_run-All [] h = (refl, refl)
digit_run-All (d ∷ w) (hd, h) = rw hd (let (p, q) = digit_run-All w h in (ap (◌∷◌ d) p, q))

pick_epoch_end : (w : Text) → pick_epoch w [] ≡ []
unfolding pick_epoch
pick_epoch_end [] = refl
pick_epoch_end (c ∷ w) = refl

pick_epoch_other : (w : Text) (c : ℕ) (r : Text) → (c == b'!') ≡ false → pick_epoch w (c ∷ r) ≡ []
unfolding pick_epoch
pick_epoch_other [] c r h = refl
pick_epoch_other (d ∷ w) c [] h = refl
pick_epoch_other (d ∷ w) c (e ∷ r) h = rw h

epoch_digits : (s : Text) → after_digits s ≡ [] → epoch s ≡ []
unfolding epoch
epoch_digits s h = rw h (pick_epoch_end (digit_run s))

epoch_other :
    (s : Text) (c : ℕ) (r : Text) → after_digits s ≡ c ∷ r → (c == b'!') ≡ false → epoch s ≡ []
unfolding epoch
epoch_other s c r h k = rw h (pick_epoch_other (digit_run s) c r k)

epoch_mark :
    (s : Text) (d e : ℕ) (w r : Text)
    → digit_run s ≡ d ∷ w
    → after_digits s ≡ b'!' ∷ e ∷ r
    → is_digit e ≡ true
    → epoch s ≡ d ∷ (w ++ b'!' ∷ [])
unfolding epoch
epoch_mark s d e w r h k l = rw (h, k) (rw l)

join-cons :
    (n : Text) (ns : List Text)
    → (join dot (n ∷ ns) ≡ n) ⊎ ((s : Text) × (join dot (n ∷ ns) ≡ n ++ dot ∷ s))
unfolding join
join-cons n [] = inl refl
join-cons n (m ∷ ns) = inr (join dot (m ∷ ns), refl)

epoch-join : (n : Text) (ns : List Text) → IsNumber n → epoch (join dot (n ∷ ns)) ≡ []
epoch-join n ns (ne, h) = elim (join-cons n ns) [
  | inl e ↦ rw e (epoch_digits n (digit_run-All n h).1)
  | inr (s, e) ↦ rw e (epoch_other (n ++ dot ∷ s) dot s (digit_run-number n dot s h marks.0).1 refl)
]

join_first :
    (n : Text) (ns : List Text)
    → IsNumber n
    → (c : ℕ) × (s : Text) × (join dot (n ∷ ns) ≡ c ∷ s) × (is_digit c ≡ true)
join_first [] ns (ne, h) = absurd (ne refl)
join_first (c ∷ n) ns (ne, (hc, h)) = elim (join-cons (c ∷ n) ns) [
  | inl e ↦ (c, n, e, hc)
  | inr (s, e) ↦ (c, n ++ dot ∷ s, e, hc)
]

epoch-front :
    (front : Text) (n : Text) (ns : List Text)
    → IsEpoch front
    → IsNumber n
    → epoch (front ++ join dot (n ∷ ns)) ≡ front
epoch-front front n ns (inl e) hn = rw e (epoch-join n ns hn)
epoch-front front n ns (inr ([], (ne, h), e)) hn = absurd (ne refl)
epoch-front front n ns (inr (d ∷ w, (ne, h), e)) hn =
    let (c, s, j, hc) = join_first n ns hn in
    let (run, after) = digit_run-number (d ∷ w) b'!' (c ∷ s) h marks.1 in
    rw (e, j) (rw append_assoc (epoch_mark (d ∷ (w ++ b'!' ∷ c ∷ s)) d c w s run after hc))

drop_prefix-append : (p s : Text) → drop_prefix p (p ++ s) ≡ s
unfolding drop_prefix
drop_prefix-append [] s = refl
drop_prefix-append (c ∷ p) s = drop_prefix-append p s

match_numbers-spelled :
    (v front n : Text) (ns : List Text)
    → IsEpoch front
    → All IsNumber (n ∷ ns)
    → match_numbers v (front ++ join dot (n ∷ ns))
      ≡ some (record { before = v ++ front; numbers = n ∷ ns })
unfolding match_numbers
match_numbers-spelled v front n ns he (hn, h) =
    rw
      (
        epoch-front front n ns he hn,
        drop_prefix-append front (join dot (n ∷ ns)),
        items-join n ns (hn, h),
      )
      refl

match_release_digit :
    (c : ℕ) (s : Text) → is_digit c ≡ true → match_release (c ∷ s) ≡ match_numbers [] (c ∷ s)
unfolding match_release
match_release_digit c s h = ground (arith, marks)

-- The front and the numbers begin with a digit.
front_first :
    (front n : Text) (ns : List Text)
    → IsEpoch front
    → IsNumber n
    → (c : ℕ) × (s : Text) × (front ++ join dot (n ∷ ns) ≡ c ∷ s) × (is_digit c ≡ true)
front_first front n ns (inl e) hn = let (c, s, j, h) = join_first n ns hn in (c, s, rw e j, h)
front_first front n ns (inr ([], (ne, h), e)) hn = absurd (ne refl)
front_first front n ns (inr (d ∷ w, (ne, (hd, h)), e)) hn =
    (d, (w ++ b'!' ∷ []) ++ join dot (n ∷ ns), ap (λ x. x ++ join dot (n ∷ ns)) e, hd)

match_release_mark :
    (v s : Text) → (v ≡ b'v' ∷ []) ⊎ (v ≡ b'V' ∷ []) → match_release (v ++ s) ≡ match_numbers v s
unfolding match_release
match_release_mark v s (inl e) = rw e refl
match_release_mark v s (inr e) = rw e refl

match_release-spelled :
    (v front n : Text) (ns : List Text)
    → IsMark v
    → IsEpoch front
    → All IsNumber (n ∷ ns)
    → match_release (v ++ (front ++ join dot (n ∷ ns)))
      ≡ some (record { before = v ++ front; numbers = n ∷ ns })
match_release-spelled v front n ns (inl e) he h =
    let (c, s, j, hc) = front_first front n ns he h.0 in
    rw e (
      ap match_release j
      ∙ match_release_digit c s hc
      ∙ sym (ap (match_numbers []) j)
      ∙ match_numbers-spelled [] front n ns he h)
match_release-spelled v front n ns (inr e) he h =
    match_release_mark v _ e ∙ match_numbers-spelled v front n ns he h

match_release_fields :
    (b v front : Text) (ns : List Text)
    → b ≡ v ++ front
    → IsMark v
    → IsEpoch front
    → ns ≢ []
    → All IsNumber ns
    → match_release (b ++ join dot ns) ≡ some (record { before = b; numbers = ns })
match_release_fields b v front [] e hv he ne h = absurd (ne refl)
match_release_fields b v front (n ∷ ns) e hv he ne h =
    rw e (rw append_assoc (match_release-spelled v front n ns hv he h))

-- A release that can be matched is matched again where it is spelled.
pub match_release-spell_release :
    (r : Release) → IsRelease r → match_release (spell_release r) ≡ some r
unfolding spell_release
match_release-spell_release r h =
    match_release_fields r.before h.mark h.front r.numbers h.before_is h.mark_ok h.epoch_ok
      h.some_numbers h.numbers_ok

digit_run-digits : (s : Text) → All (λ d. is_digit d ≡ true) (digit_run s)
unfolding digit_run
digit_run-digits [] = tt
digit_run-digits (c ∷ s) = elim (Bool-cases (is_digit c)) [
  | inl h ↦ rw h (h, digit_run-digits s)
  | inr h ↦ rw h tt
]

pick_epoch-IsEpoch : (w r : Text) → All (λ d. is_digit d ≡ true) w → IsEpoch (pick_epoch w r)
unfolding pick_epoch
pick_epoch-IsEpoch (c ∷ w) (d ∷ e ∷ r) h = elim (Bool-cases (d == b'!' && is_digit e)) [
  | inl k ↦ rw k (inr (c ∷ w, (cc, h), ap (λ x. c ∷ (w ++ x ∷ [])) (ground arith)))
  | inr k ↦ rw k (inl refl)
]
pick_epoch-IsEpoch [] r h = inl refl
pick_epoch-IsEpoch (c ∷ w) [] h = inl refl
pick_epoch-IsEpoch (c ∷ w) (d ∷ []) h = inl refl

release_eq : {q r : Release} → some q ≡ some r → q ≡ r
release_eq e = cc

with_items-IsRelease :
    (v front : Text) (ns : List Text) {r : Release}
    → IsMark v
    → IsEpoch front
    → All IsNumber ns
    → with_items (v ++ front) ns ≡ some r
    → IsRelease r
with_items-IsRelease v front [] hv he h e = cc
with_items-IsRelease v front (n ∷ ns) {r} hv he h e = subst IsRelease (release_eq e) (record {
  mark = v;
  front = front;
  before_is = refl;
  mark_ok = hv;
  epoch_ok = he;
  some_numbers = cc;
  numbers_ok = h;
})

match_numbers-IsRelease :
    (v s : Text) {r : Release} → IsMark v → match_numbers v s ≡ some r → IsRelease r
unfolding match_numbers epoch
match_numbers-IsRelease v s hv e =
    with_items-IsRelease v (pick_epoch (digit_run s) (after_digits s)) _ hv
      (pick_epoch-IsEpoch (digit_run s) (after_digits s) (digit_run-digits s)) (items-IsNumber _) e

pub match_release-IsRelease : (s : Text) {r : Release} → match_release s ≡ some r → IsRelease r
unfolding match_release
match_release-IsRelease [] e = cc
match_release-IsRelease (c ∷ s) e = elim (Bool-cases (c == b'v')) [
  | inl h ↦
      match_numbers-IsRelease (c ∷ []) s (inr (inl (ap (λ x. x ∷ []) (ground arith)))) (rw h at e)
  | inr h ↦ elim (Bool-cases (c == b'V')) [
    | inl k ↦
        match_numbers-IsRelease (c ∷ []) s (inr (inr (ap (λ x. x ∷ []) (ground arith))))
          (rw (h, k) at e)
    | inr k ↦ match_numbers-IsRelease [] (c ∷ s) (inl refl) (rw (h, k) at e)
  ]
]

or_later-cases :
    (m later : Option Release) {r : Release}
    → or_later m later ≡ some r
    → (m ≡ some r) ⊎ (later ≡ some r)
or_later-cases none later e = inr e
or_later-cases (some q) later e = inl e

-- Whatever the search finds is a release, and is found again where it is spelled.
pub search_release-IsRelease : (s : Text) {r : Release} → search_release s ≡ some r → IsRelease r
unfolding search_release
search_release-IsRelease [] e = cc
search_release-IsRelease (c ∷ s) e =
    elim (or_later-cases (match_release (c ∷ s)) (search_release s) e) [
      | inl h ↦ match_release-IsRelease (c ∷ s) h
      | inr h ↦ search_release-IsRelease s h
    ]

match_release-nil : match_release [] ≡ none
unfolding match_release
match_release-nil = refl

pub search_release-match :
    (s : Text) {r : Release} → match_release s ≡ some r → search_release s ≡ some r
unfolding search_release
search_release-match [] e = cc match_release-nil
search_release-match (c ∷ s) {r} e = ap (λ m. or_later m (search_release s)) e
