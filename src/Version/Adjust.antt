-- ===== src/Version/Adjust.antt =====
-- What `digits` and `plus_1` do to the numbers of a version.
use mathlib.Core.Option.{some-injective}
use cdbx.Base.{
  ℕ, zero, suc, ◌≤◌, ◌<◌, ◌≡◌, ◌≢◌, ◌↔◌, refl, sym, ap, ◌∙◌, inl, inr, true, false, List, [], ◌∷◌,
  ◌++◌, map, Option, none, some, Text, is_digit, length, take, replicate, All, All-append,
  length-append, length-replicate, arith, Option-cases,
}
use cdbx.Version.Bump.{release_lt, Agree, bump_limit}
use cdbx.Version.Decimal.{IsNumber, to_int, to_text, to_int-to_text, to_text-IsNumber}
use cdbx.Version.Match.{
  IsRelease, spell_release, match_release-spell_release, match_release-IsRelease,
  search_release-IsRelease, search_release-match,
}
use cdbx.Version.{
  Release, match_release, search_release, adjust, digits, increase, Which, bump_index, bump_at,
  bump, plus_1,
}

abbrev zeros : ℕ → List Text
zeros n = replicate n (b'0' ∷ [])

-- The items of `target`, cut or filled up with zeros to the number of items of `ref`.
abbrev pub adjusted : Release → Release → Release
adjusted ref target = record target {
  numbers = take (length ref.numbers) (target.numbers ++ zeros (length ref.numbers));
}

length-take_enough {ℓ} : {A : Type ℓ} (n : ℕ) (xs : List A) → n ≤ length xs → length (take n xs) ≡ n
length-take_enough zero xs h = refl
length-take_enough (suc n) [] h = absurd (omega arith)
length-take_enough (suc n) (x ∷ xs) h = ap suc (length-take_enough n xs (omega arith))

length-adjusted : (n : ℕ) (xs : List Text) → length (take n (xs ++ zeros n)) ≡ n
length-adjusted n xs =
    length-take_enough n (xs ++ zeros n)
      (omega (arith, length-append xs (zeros n), length-replicate {A = Text} n (b'0' ∷ [])))

zero-IsNumber : IsNumber (b'0' ∷ [])
unfolding is_digit
zero-IsNumber = (cc, (refl, tt))

replicate-IsNumber : (n : ℕ) → All IsNumber (zeros n)
replicate-IsNumber zero = tt
replicate-IsNumber (suc n) = (zero-IsNumber, replicate-IsNumber n)

take-IsNumber : (n : ℕ) (xs : List Text) → All IsNumber xs → All IsNumber (take n xs)
take-IsNumber zero xs h = tt
take-IsNumber (suc n) [] h = tt
take-IsNumber (suc n) (x ∷ xs) (hx, h) = (hx, take-IsNumber n xs h)

ne_of_length {ℓ} : {A : Type ℓ} (xs : List A) → 0 < length xs → xs ≢ []
ne_of_length [] h = absurd (omega arith)
ne_of_length (x ∷ xs) h = cc

length_of_ne {ℓ} : {A : Type ℓ} (xs : List A) → xs ≢ [] → 0 < length xs
length_of_ne [] h = absurd (h refl)
length_of_ne (x ∷ xs) h = omega arith

-- New items keep a release a release.
with_numbers-IsRelease :
    (r : Release) (ns : List Text)
    → IsRelease r
    → 0 < length ns
    → All IsNumber ns
    → IsRelease (record r { numbers = ns })
with_numbers-IsRelease r ns h pos hn = record {
  mark = h.mark;
  front = h.front;
  before_is = h.before_is;
  mark_ok = h.mark_ok;
  epoch_ok = h.epoch_ok;
  some_numbers = ne_of_length ns pos;
  numbers_ok = hn;
}

adjusted-IsRelease :
    (ref target : Release) → IsRelease ref → IsRelease target → IsRelease (adjusted ref target)
adjusted-IsRelease ref target hr ht =
    let n = length ref.numbers in
    with_numbers-IsRelease target _ ht
      (omega (arith, length-adjusted n target.numbers, length_of_ne ref.numbers hr.some_numbers))
      (take-IsNumber n _
        (All-append IsNumber target.numbers _ ht.numbers_ok (replicate-IsNumber n)))

digits-spell_release :
    (ref_version target_version : Text) {ref target : Release}
    → search_release ref_version ≡ some ref
    → search_release target_version ≡ some target
    → digits ref_version target_version ≡ spell_release (adjusted ref target)
unfolding digits spell_release
digits-spell_release ref_version target_version h k = rw (h, k)

pub digits_lem :
    (ref_version target_version : Text) {ref target : Release}
    → search_release ref_version ≡ some ref
    → search_release target_version ≡ some target
    → (search_release (digits ref_version target_version) ≡ some (adjusted ref target))
      × (length (adjusted ref target).numbers ≡ length ref.numbers)
digits_lem ref_version target_version {ref} {target} h k =
    let hr = search_release-IsRelease ref_version h in
    let ht = search_release-IsRelease target_version k in
    (
      rw (digits-spell_release ref_version target_version h k) (
          search_release-match _
            (match_release-spell_release _ (adjusted-IsRelease ref target hr ht))),
      length-adjusted (length ref.numbers) target.numbers,
    )

take_all {ℓ} : {A : Type ℓ} (xs ys : List A) → take (length xs) (xs ++ ys) ≡ xs
take_all [] ys = refl
take_all (x ∷ xs) ys = ap (◌∷◌ x) (take_all xs ys)

adjusted_idem : (ref target : Release) → adjusted ref (adjusted ref target) ≡ adjusted ref target
adjusted_idem ref target =
    let n = length ref.numbers in
    let xs = take n (target.numbers ++ zeros n) in
    ap (λ ns. record target { numbers = ns })
      (ap (λ k. take k (xs ++ zeros n)) (sym (length-adjusted n target.numbers))
        ∙ take_all xs (zeros n))

digits_no_ref : (r t : Text) → search_release r ≡ none → digits r t ≡ t
unfolding digits adjust
digits_no_ref r t h = rw h

adjust_no_target : (ref : Option Release) (s : Text) → adjust ref none s ≡ s
unfolding adjust
adjust_no_target none s = refl
adjust_no_target (some r) s = refl

digits_no_target : (r t : Text) → search_release t ≡ none → digits r t ≡ t
unfolding digits
digits_no_target r t h = rw h (adjust_no_target (search_release r) t)

-- Adjusting twice to one reference changes nothing more, for any two texts.
pub digits_idem :
    (ref_version target_version : Text)
    → digits ref_version (digits ref_version target_version) ≡ digits ref_version target_version
digits_idem ref_version target_version = elim (Option-cases (search_release ref_version)) [
  | inl h ↦ digits_no_ref ref_version (digits ref_version target_version) h
  | inr (ref, h) ↦ elim (Option-cases (search_release target_version)) [
    | inl k ↦ ap (digits ref_version) (digits_no_target ref_version target_version k)
    | inr (target, k) ↦
        digits-spell_release ref_version (digits ref_version target_version) h
          (digits_lem ref_version target_version h k).0
        ∙ ap spell_release (adjusted_idem ref target)
        ∙ sym (digits-spell_release ref_version target_version h k)
  ]
]

abbrev pub numbers_in : Option Release → List ℕ
numbers_in none = []
numbers_in (some r) = map to_int r.numbers

-- The numbers of a version, as `plus_1` reads them.
unfoldable pub numbers_of : Text → List ℕ
numbers_of s = numbers_in (match_release s)

map-to_text-IsNumber : (ns : List ℕ) → All IsNumber (map to_text ns)
map-to_text-IsNumber [] = tt
map-to_text-IsNumber (n ∷ ns) = (to_text-IsNumber n, map-to_text-IsNumber ns)

map-to_int-to_text : (ns : List ℕ) → map to_int (map to_text ns) ≡ ns
map-to_int-to_text [] = refl
map-to_int-to_text (n ∷ ns) = rw (to_int-to_text n) (ap (◌∷◌ n) (map-to_int-to_text ns))

length-map {ℓ κ} :
    {A : Type ℓ} {B : Type κ} (f : A → B) (xs : List A) → length (map f xs) ≡ length xs
length-map f [] = refl
length-map f (x ∷ xs) = ap suc (length-map f xs)

length-bump_at : (i : ℕ) (ns : List ℕ) → 0 < length ns → 0 < length (bump_at i ns)
unfolding bump_at
length-bump_at i [] h = h
length-bump_at zero (n ∷ ns) h = omega arith
length-bump_at (suc i) (n ∷ ns) h = omega arith

length-bump : (which : Which) (ns : List ℕ) → 0 < length ns → 0 < length (bump which ns)
unfolding bump
length-bump which ns h = length-bump_at _ ns h

increased : Which → Release → Release
increased which r = record r { numbers = map to_text (bump which (map to_int r.numbers)) }

increased-IsRelease : (which : Which) (r : Release) → IsRelease r → IsRelease (increased which r)
unfolding increased
increased-IsRelease which r h =
    with_numbers-IsRelease r _ h
      (rw length-map (
        length-bump which (map to_int r.numbers)
          (rw length-map (length_of_ne r.numbers h.some_numbers))))
      (map-to_text-IsNumber (bump which (map to_int r.numbers)))

numbers_of-release :
    (r : Release) → IsRelease r → numbers_of (spell_release r) ≡ map to_int r.numbers
unfolding numbers_of
numbers_of-release r h = ap numbers_in (match_release-spell_release r h)

plus_1_match :
    (version : Text) (which : Which) (r : Release)
    → match_release version ≡ some r
    → plus_1 version which ≡ some (spell_release (increased which r))
unfolding plus_1 increase spell_release increased
plus_1_match version which r h = rw h

numbers-increased :
    (which : Which) (r : Release)
    → map to_int (increased which r).numbers ≡ bump which (map to_int r.numbers)
unfolding increased
numbers-increased which r = map-to_int-to_text (bump which (map to_int r.numbers))

-- On a text that begins with a version number `plus_1` succeeds, and reading its result gives the
-- numbers of the version with one number increased and those behind it dropped.
pub plus_1_lem :
    (version : Text) (which : Which) {r : Release}
    → match_release version ≡ some r
    → (out : Text) × (plus_1 version which ≡ some out)
      × (numbers_of out ≡ bump which (numbers_of version))
unfolding numbers_of
plus_1_lem version which {r} h =
    let ok = match_release-IsRelease version h in
    (
      spell_release (increased which r),
      plus_1_match version which r h,
      numbers_of-release _ (increased-IsRelease which r ok)
          ∙ numbers-increased which r
          ∙ ap (λ m. bump which (numbers_in m)) (sym h),
    )

numbers_of-length :
    (version : Text) {r : Release}
    → match_release version ≡ some r
    → 0 < length (numbers_of version)
unfolding numbers_of
numbers_of-length version {r} h =
    let ok = match_release-IsRelease version h in
    rw h (rw length-map (length_of_ne r.numbers ok.some_numbers))

-- The result of `plus_1` is the limit that a `<` needs: of the versions that are not below the
-- given one, it lies above exactly those that agree with it up to the increased number.
pub plus_1-limit :
    (version : Text) (which : Which) {r : Release} {out : Text}
    → match_release version ≡ some r
    → plus_1 version which ≡ some out
    → (ms : List ℕ) → release_lt ms (numbers_of version) ≡ false
    → (release_lt ms (numbers_of out) ≡ true)
      ↔ Agree (suc (bump_index which (length (numbers_of version)))) (numbers_of version) ms
plus_1-limit version which {r} {out} h e ms ge =
    let (result, found, numbers) = plus_1_lem version which h in
    let same : result ≡ out = some-injective _ _ (sym found ∙ e) in
    rw (← same, numbers) (bump_limit which (numbers_of version) ms (numbers_of-length version h) ge)
