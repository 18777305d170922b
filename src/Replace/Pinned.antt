-- ===== src/Replace/Pinned.antt =====
-- What `replace` does to a requirement with one `==`.
use cdbx.Base.{
  ℕ, zero, suc, ◌<◌, ◌≡◌, refl, ap, ◌∙◌, Bool, true, false, List, [], ◌∷◌, ◌++◌, Option, none, some,
  Text, ◌==◌, is_space, is_lower, is_upper, is_digit, length, length-append, All, arith, append-nil,
}
use cdbx.Shell.Format.{◌>>=◌}
use cdbx.Replace.Sub.{
  is_blank, is_version_char, span, match_version, match_two, match_spec, cons_some, on_match,
  sub_from, spec_sub,
}
use cdbx.Scanner.{Versions, Spec, Operator, Requirement, Field}
use cdbx.Version.{digits}
use cdbx.Replace.{
  Parsers, is_op, is_range, is_left, desired_version, first_step, replace_upgrade, new_version,
  raise, raise_specs, replace_by, replace,
}

-- A character that begins no operator.
abbrev pub IsPlain : ℕ → Type 0
IsPlain c = ((c == b'=') ≡ false) × ((c == b'<') ≡ false) × ((c == b'~') ≡ false)

match_spec_plain :
    (c d : ℕ) (s : Text) → IsPlain c → (d == b'=') ≡ false → match_spec (c ∷ d ∷ s) ≡ none
unfolding match_spec match_two
match_spec_plain c d [] (he, hl, ht) hd = ground arith
match_spec_plain c d (e ∷ s) (he, hl, ht) hd = ground arith

match_spec_equal :
    (c : ℕ) (s : Text)
    → (c == b'=') ≡ false
    → match_spec (c ∷ b'=' ∷ b'=' ∷ s) ≡ match_version (c ∷ b'=' ∷ b'=' ∷ []) s
unfolding match_spec
match_spec_equal c s h = ground arith

span-append :
    (class : ℕ → Bool) (run : Text) (c : ℕ) (rest : Text)
    → All (λ d. class d ≡ true) run
    → class c ≡ false
    → span class (run ++ c ∷ rest) ≡ (run, c ∷ rest)
unfolding span
span-append class [] c rest h hc = rw hc refl
span-append class (d ∷ run) c rest (hd, h) hc = rw (span-append class run c rest h hc) (rw hd refl)

span-All :
    (class : ℕ → Bool) (run : Text) → All (λ d. class d ≡ true) run → span class run ≡ (run, [])
unfolding span
span-All class [] h = refl
span-All class (d ∷ run) (hd, h) = rw (span-All class run h) (rw hd refl)

not_blank : (c : ℕ) → is_version_char c ≡ true → is_blank c ≡ false
unfolding is_version_char is_blank is_space is_lower is_upper is_digit
not_blank c h = ground arith

match_version-append :
    (op blanks : Text) (c : ℕ) (v : Text)
    → All (λ d. is_blank d ≡ true) blanks
    → All (λ d. is_version_char d ≡ true) (c ∷ v)
    → match_version op (blanks ++ c ∷ v)
      ≡ some (record { group = op ++ blanks; version = c ∷ v; rest = [] })
unfolding match_version
match_version-append op blanks c v hb (hc, hv) =
    rw (span-append is_blank blanks c v hb (not_blank c hc))
      (rw (span-All is_version_char (c ∷ v) (hc, hv)) refl)

bind_nil :
    (o rest : Option Text)
    → rest ≡ some []
    → (o >>= λ new. rest >>= λ after. some (new ++ after)) ≡ (o >>= λ new. some new)
bind_nil none rest h = refl
bind_nil (some t) rest h = rw h (ap some (append-nil t))

module _ (f : Text → Text → Option Text) where
  cons_some-bind :
      (c : ℕ) (s : Text) (o : Option Text)
      → cons_some f c (o >>= λ new. some (s ++ new)) ≡ (o >>= λ new. some (c ∷ (s ++ new)))
  cons_some-bind c s none = refl
  cons_some-bind c s (some t) = refl

  sub_from-nil : (fuel : ℕ) → sub_from f fuel [] ≡ some []
  unfolding sub_from on_match
  sub_from-nil zero = refl
  sub_from-nil (suc fuel) = refl

  sub_from_skip :
      (fuel c d : ℕ) (s : Text)
      → IsPlain c
      → (d == b'=') ≡ false
      → sub_from f (suc fuel) (c ∷ d ∷ s) ≡ cons_some f c (sub_from f fuel (d ∷ s))
  unfolding sub_from on_match
  sub_from_skip fuel c d s hc hd = rw (match_spec_plain c d s hc hd) refl

  sub_from_match :
      (fuel c : ℕ) (blanks : Text) (d : ℕ) (v : Text)
      → IsPlain c
      → All (λ e. is_blank e ≡ true) blanks
      → All (λ e. is_version_char e ≡ true) (d ∷ v)
      → sub_from f (suc fuel) (c ∷ b'=' ∷ b'=' ∷ (blanks ++ d ∷ v))
        ≡ (f (c ∷ b'=' ∷ b'=' ∷ blanks) (d ∷ v) >>= λ new. some new)
  unfolding sub_from on_match
  sub_from_match fuel c blanks d v hc hb hv = rw (match_spec_equal c (blanks ++ d ∷ v) hc.0) (
      rw (match_version-append (c ∷ b'=' ∷ b'=' ∷ []) blanks d v hb hv)
        (bind_nil (f (c ∷ b'=' ∷ b'=' ∷ blanks) (d ∷ v)) (sub_from f fuel []) (sub_from-nil fuel)))

  -- Only the version behind the `==` is replaced.
  sub_from-front :
      (fuel : ℕ) (before : Text) (c : ℕ) (blanks : Text) (d : ℕ) (v : Text)
      → length before < fuel
      → All IsPlain before
      → IsPlain c
      → All (λ e. is_blank e ≡ true) blanks
      → All (λ e. is_version_char e ≡ true) (d ∷ v)
      → sub_from f fuel (before ++ c ∷ b'=' ∷ b'=' ∷ (blanks ++ d ∷ v))
        ≡ (f (c ∷ b'=' ∷ b'=' ∷ blanks) (d ∷ v) >>= λ new. some (before ++ new))
  sub_from-front zero before c blanks d v le hp hc hb hv = absurd (omega (arith, le))
  sub_from-front (suc fuel) [] c blanks d v le hp hc hb hv =
      sub_from_match fuel c blanks d v hc hb hv
  sub_from-front (suc fuel) (p ∷ []) c blanks d v le (h, hn) hc hb hv =
      sub_from_skip fuel p c (b'=' ∷ b'=' ∷ (blanks ++ d ∷ v)) h hc.0
      ∙ ap (cons_some f p) (sub_from-front fuel [] c blanks d v (omega (arith, le)) tt hc hb hv)
      ∙ cons_some-bind p [] (f (c ∷ b'=' ∷ b'=' ∷ blanks) (d ∷ v))
  sub_from-front (suc fuel) (p ∷ q ∷ before) c blanks d v le (h, (hq, hp)) hc hb hv =
      sub_from_skip fuel p q (before ++ c ∷ b'=' ∷ b'=' ∷ (blanks ++ d ∷ v)) h hq.0
      ∙ ap (cons_some f p)
          (sub_from-front fuel (q ∷ before) c blanks d v (omega (arith, le)) (hq, hp) hc hb hv)
      ∙ cons_some-bind p (q ∷ before) (f (c ∷ b'=' ∷ b'=' ∷ blanks) (d ∷ v))

-- A requirement with one exact version.
unfoldable pub pinned : Text → ℕ → Text → Text → Text
pinned before c blanks v = before ++ c ∷ b'=' ∷ b'=' ∷ (blanks ++ v)

spec_sub-pinned :
    (f : Text → Text → Option Text) (before : Text) (c : ℕ) (blanks : Text) (d : ℕ) (v : Text)
    → All IsPlain before
    → IsPlain c
    → All (λ e. is_blank e ≡ true) blanks
    → All (λ e. is_version_char e ≡ true) (d ∷ v)
    → spec_sub f (pinned before c blanks (d ∷ v))
      ≡ (f (c ∷ b'=' ∷ b'=' ∷ blanks) (d ∷ v) >>= λ new. some (before ++ new))
unfolding spec_sub pinned
spec_sub-pinned f before c blanks d v hp hc hb hv =
    sub_from-front f _ before c blanks d v
      (omega (arith, length-append before (c ∷ b'=' ∷ b'=' ∷ (blanks ++ d ∷ v)))) hp hc hb hv

module _ (vs : Versions) (parsers : Parsers vs) where
  open vs use {V, lt, show}
  open parsers use {requirement, version}

  abbrev equal_to : Text → List Spec
  equal_to v = record { operator = Operator.equal; version = v } ∷ []

  first_step-pinned :
      (upgrade : Bool) (text v : Text) (wanted : V) {req : Requirement}
      → requirement text ≡ some req
      → req.specifier ≡ equal_to v
      → first_step vs parsers
          (record { upgrade = upgrade; compat = false; latest = false })
          text
          wanted
        ≡ some text
  unfolding first_step replace_upgrade is_range is_op
  first_step-pinned false text v wanted hr hs = refl
  first_step-pinned true text v wanted hr hs = rw (hr, hs) refl

  raise_specs-pinned :
      (upgrade : Bool) (wanted old : V) (before : Text) (c : ℕ) (blanks : Text) (d : ℕ) (v : Text)
      → All IsPlain before
      → IsPlain c
      → All (λ e. is_blank e ≡ true) blanks
      → All (λ e. is_version_char e ≡ true) (d ∷ v)
      → version (d ∷ v) ≡ some old
      → lt old wanted ≡ true
      → raise_specs vs parsers
          (record { upgrade = upgrade; compat = false; latest = false })
          wanted
          (equal_to (d ∷ v))
          (pinned before c blanks (d ∷ v))
        ≡ some (pinned before c blanks (digits (d ∷ v) (show wanted)))
  unfolding raise_specs is_left raise new_version is_op
  raise_specs-pinned upgrade wanted old before c blanks d v hp hc hb hv ho hl =
      rw (ho, hl)
        (rw
          (spec_sub-pinned (λ group o. some (group ++ digits o (show wanted))) before c blanks d v
            hp hc hb hv)
          (unfold pinned in refl))

  -- Where neither a compatible range nor the latest file is asked for: a requirement that ends with
  -- one exact version, with any blanks behind `==`, no other operator character before it and nothing
  -- behind the version, is given the wanted version, if its own is below that, with as many numbers
  -- as the old one had; the text before the version is kept.
  pub replace-pinned :
      (upgrade : Bool) (before : Text) (c : ℕ) (blanks : Text) (d : ℕ) (v : Text)
      (updates : Field → Option Text) (name : Text) (wanted old : V) {req : Requirement}
      → All IsPlain before
      → IsPlain c
      → All (λ e. is_blank e ≡ true) blanks
      → All (λ e. is_version_char e ≡ true) (d ∷ v)
      → requirement (pinned before c blanks (d ∷ v)) ≡ some req
      → req.specifier ≡ equal_to (d ∷ v)
      → desired_version vs parsers
          (record { upgrade = upgrade; compat = false; latest = false })
          updates
        ≡ some name
      → version name ≡ some wanted
      → version (d ∷ v) ≡ some old
      → lt old wanted ≡ true
      → replace vs parsers
          (record { upgrade = upgrade; compat = false; latest = false })
          (pinned before c blanks (d ∷ v))
          updates
        ≡ some (pinned before c blanks (digits (d ∷ v) (show wanted)), some name)
  unfolding replace replace_by
  replace-pinned upgrade before c blanks d v updates name wanted old hp hc hb hv hr hs hd hn ho hl =
      rw (hd, hn)
        (rw (first_step-pinned upgrade (pinned before c blanks (d ∷ v)) (d ∷ v) wanted hr hs) (
          rw (hr, hs)
            (rw (raise_specs-pinned upgrade wanted old before c blanks d v hp hc hb hv ho hl)
              refl)))
