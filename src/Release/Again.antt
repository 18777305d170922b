-- ===== src/Release/Again.antt =====
-- A second run of `_userdoc` finds the lines that the first one wrote.
use cdbx.Base.{
  ◌≡◌, inl, inr, refl, sym, ap, ◌&&◌, List, [], ◌∷◌, some, map, any, Text, codes, starts_with,
  Bool-cases,
}
use cdbx.Release.{userdoc_line, is_release, userdoc}

module _ (repr : Text → Text) (version other : Text) where
  same_version :
      (line : Text)
      → starts_with (codes "version") (userdoc_line repr version line)
        ≡ starts_with (codes "version") line
  unfolding userdoc_line starts_with
  same_version line = elim (Bool-cases (starts_with (codes "version") line)) [
    | inl v ↦ rw v refl
    | inr v ↦ elim (Bool-cases (starts_with (codes "release") line)) [
      | inl r ↦ rw (v, r) refl
      | inr r ↦ rw (v, r) v
    ]
  ]

  same_release : (line : Text) → is_release (userdoc_line repr version line) ≡ is_release line
  unfolding userdoc_line starts_with
  same_release line = elim (Bool-cases (starts_with (codes "version") line)) [
    | inl v ↦ rw v refl
    | inr v ↦ elim (Bool-cases (starts_with (codes "release") line)) [
      | inl r ↦ rw (v, r) refl
      | inr r ↦ rw (v, r) (rw (v, r) refl)
    ]
  ]

  line_again :
      (line : Text)
      → userdoc_line repr other (userdoc_line repr version line) ≡ userdoc_line repr other line
  unfolding userdoc_line starts_with
  line_again line = elim (Bool-cases (starts_with (codes "version") line)) [
    | inl v ↦ rw v refl
    | inr v ↦ elim (Bool-cases (starts_with (codes "release") line)) [
      | inl r ↦ rw (v, r) refl
      | inr r ↦ rw (v, r) (rw (v, r) refl)
    ]
  ]

  any_version :
      (lines : List Text)
      → any (starts_with (codes "version")) (map (userdoc_line repr version) lines)
        ≡ any (starts_with (codes "version")) lines
  any_version [] = refl
  any_version (l ∷ lines) = rw (same_version l, any_version lines) refl

  any_release :
      (lines : List Text)
      → any is_release (map (userdoc_line repr version) lines) ≡ any is_release lines
  any_release [] = refl
  any_release (l ∷ lines) = rw (same_release l, any_release lines) refl

  map_again :
      (lines : List Text)
      → map (userdoc_line repr other) (map (userdoc_line repr version) lines)
        ≡ map (userdoc_line repr other) lines
  map_again [] = refl
  map_again (l ∷ lines) = λ i. line_again l i ∷ map_again lines i

  -- If a first run finds both lines, a second run, for another version, gives what it would have
  -- given without the first one.
  pub userdoc-again :
      (lines written : List Text)
      → userdoc repr version lines ≡ some written
      → userdoc repr other written ≡ userdoc repr other lines
  unfolding userdoc
  userdoc-again lines written h =
      elim (Bool-cases (any (starts_with (codes "version")) lines && any is_release lines)) [
        | inr e ↦ absurd (cc (rw e at h))
        | inl e ↦
            let same : map (userdoc_line repr version) lines ≡ written = cc (rw e at h) in
            rw (sym same)
              (rw (any_version lines, any_release lines) (rw e (ap some (map_again lines))))
      ]
