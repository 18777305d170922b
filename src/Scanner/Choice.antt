-- ===== src/Scanner/Choice.antt =====
-- What a caller of `result()` can still read off it.
use cdbx.Base.{
  ◌≡◌, refl, sym, ap, ◌∙◌, Text, true, Option, none, some, if◌then◌else◌, Bool-cases, inl, inr,
}
use mathlib.Core.Path.{subst}
use cdbx.Scanner.{
  Versions, Field, unchanged, compatible, latest, Scanner, get, equal_versions, kept, result,
  show_version,
}

-- `a or b` on optional texts that are not empty.
abbrev pub or_else {ℓ} : {A : Type ℓ} → Option A → Option A → Option A
or_else none b = b
or_else (some a) b = some a

-- `updates.get("latest") or updates.get("compatible") or updates.get("unchanged")`, and the chain
-- that begins at "compatible".
abbrev pub desired {ℓ} : {A : Type ℓ} → (Field → Option A) → Option A
desired f = or_else (f latest) (or_else (f compatible) (f unchanged))

abbrev pub desired_compatible {ℓ} : {A : Type ℓ} → (Field → Option A) → Option A
desired_compatible f = or_else (f compatible) (f unchanged)

module _ (vs : Versions) where
  open vs use {V, same, show, same_refl, same_trans}

  -- Two optional versions are both missing, or are equal in Python's sense.
  abbrev SameVersion : Option V → Option V → Type 0
  SameVersion none none = Unit
  SameVersion none (some w) = ⊥
  SameVersion (some v) none = ⊥
  SameVersion (some v) (some w) = same v w ≡ true

  -- A text spells a version that is equal to this one; or both are missing.
  abbrev pub Spells : Option Text → Option V → Type 0
  Spells none none = Unit
  Spells none (some w) = ⊥
  Spells (some t) none = ⊥
  Spells (some t) (some w) = (v : V) × (t ≡ show v) × (same w v ≡ true)

  SameVersion-refl : (a : Option V) → SameVersion a a
  SameVersion-refl none = tt
  SameVersion-refl (some v) = same_refl v

  SameVersion-trans : (a b c : Option V) → SameVersion a b → SameVersion b c → SameVersion a c
  SameVersion-trans none none c h k = k
  SameVersion-trans none (some w) c h k = absurd h
  SameVersion-trans (some v) none c h k = absurd h
  SameVersion-trans (some v) (some w) none h k = absurd k
  SameVersion-trans (some v) (some w) (some u) h k = same_trans v w u h k

  abbrev unless_repeated : Option V → Option V → Option V
  unless_repeated a b = if equal_versions vs a b then none else a

  -- Behind a repeated version comes an equal one.
  or_else-unless_repeated :
      (a b c d : Option V)
      → SameVersion (or_else b c) d
      → ((w : V) → b ≡ some w → SameVersion (some w) d)
      → SameVersion (or_else a (or_else b c)) (or_else (unless_repeated a b) d)
  unfolding equal_versions
  or_else-unless_repeated none none c d h k = h
  or_else-unless_repeated none (some w) c d h k = h
  or_else-unless_repeated (some v) none c d h k = same_refl v
  or_else-unless_repeated (some v) (some w) c d h k = elim (Bool-cases (same v w)) [
    | inl e ↦ rw e (SameVersion-trans (some v) (some w) d e (k w refl))
    | inr e ↦ rw e (same_refl v)
  ]

  or_else-some :
      (b c d : Option V)
      → SameVersion (or_else b c) d
      → (w : V) → b ≡ some w
      → SameVersion (some w) d
  or_else-some none c d h w e = absurd (cc e)
  or_else-some (some v) c d h w e = let same_one : v ≡ w = cc in rw (sym same_one) h

  or_else-none : (a : Option V) → or_else a none ≡ a
  or_else-none none = refl
  or_else-none (some v) = refl

  kept_compatible :
      (s : Scanner vs)
      → SameVersion (desired_compatible (get vs s)) (desired_compatible (kept vs s))
  unfolding kept get
  kept_compatible s =
      let here =
        subst (λ t. SameVersion t s.unchanged) (sym (or_else-none s.unchanged))
          (SameVersion-refl s.unchanged) in
      subst
        (λ t.
          SameVersion (or_else s.compatible t)
            (or_else (unless_repeated s.compatible s.unchanged) s.unchanged))
        (or_else-none s.unchanged)
        (or_else-unless_repeated s.compatible s.unchanged none s.unchanged here
          (or_else-some s.unchanged none s.unchanged here))

  kept_latest : (s : Scanner vs) → SameVersion (desired (get vs s)) (desired (kept vs s))
  unfolding kept get
  kept_latest s =
      or_else-unless_repeated s.latest s.compatible s.unchanged (desired_compatible (kept vs s))
        (kept_compatible s)
        (or_else-some s.compatible s.unchanged (desired_compatible (kept vs s)) (kept_compatible s))

  show_version-or_else :
      (a b : Option V)
      → or_else (show_version vs a) (show_version vs b) ≡ show_version vs (or_else a b)
  unfolding show_version
  show_version-or_else none b = refl
  show_version-or_else (some v) b = refl

  show_version-Spells : (a b : Option V) → SameVersion a b → Spells (show_version vs b) a
  unfolding show_version
  show_version-Spells none none h = tt
  show_version-Spells none (some w) h = absurd h
  show_version-Spells (some v) none h = absurd h
  show_version-Spells (some v) (some w) h = (w, refl, h)

  -- Leaving out the repeated versions loses nothing but their spelling: whether an upgrade is wanted
  -- or a compatible update, the text that the chain of lookups finds in `result()` is that of a
  -- version equal to the one that the chain finds in the fields of the scanner, and there is none
  -- just where the fields have none.
  pub desired-result :
      (s : Scanner vs)
      → Spells (desired (result vs s)) (desired (get vs s))
        × Spells (desired_compatible (result vs s)) (desired_compatible (get vs s))
  unfolding result
  desired-result s =
      let compat = show_version-or_else (kept vs s compatible) (kept vs s unchanged) in
      let all =
        ap (or_else (result vs s latest)) compat
        ∙ show_version-or_else (kept vs s latest) (desired_compatible (kept vs s)) in
      (
        subst (λ t. Spells t (desired (get vs s))) (sym all)
            (show_version-Spells (desired (get vs s)) (desired (kept vs s)) (kept_latest s)),
        subst (λ t. Spells t (desired_compatible (get vs s))) (sym compat)
            (show_version-Spells (desired_compatible (get vs s)) (desired_compatible (kept vs s))
              (kept_compatible s)),
      )
