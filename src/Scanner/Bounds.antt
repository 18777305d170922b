-- ===== src/Scanner/Bounds.antt =====
-- What the scanner can have found at any time, and that it never goes back.
use cdbx.Base.{
  ◌≡◌, refl, ◌∙◌, true, false, List, [], ◌∷◌, map, Option, none, some, Bool-cases, inl, inr,
}
use cdbx.Scanner.{
  Versions, Requirement, Field, unchanged, compatible, latest, Scanner, Index, compat_spec, scanner,
  get, put, not_below, above, update_with, update_field, find_compat, retry_latest, find_latest,
  inspect, inspect_all,
}

module _ (vs : Versions) (index : Index vs) where
  open vs use {V, lt, is_prerelease, ge_trans, ge_of_gt, lt_irrefl}

  -- The index gave this version in answer to some request.
  abbrev pub Offered : V → Type 0
  Offered v = (q : Requirement) × (index.lookup q ≡ some v)

  -- The installed version, if there is one, is not above this one.
  abbrev pub NotBelow : Option V → V → Type 0
  NotBelow none v = Unit {0}
  NotBelow (some w) v = lt v w ≡ false

  -- A version that may stand in a field: released, not below the installed one, and offered.
  abbrev pub Fits : Option V → Option V → Type 0
  Fits installed none = Unit {0}
  Fits installed (some v) = (is_prerelease v ≡ false) × NotBelow installed v × Offered v

  pub record IsSound (s : Scanner vs) : Type 0 where
    pub unchanged_fits : Fits s.installed s.unchanged
    pub compatible_fits : Fits s.installed s.compatible
    pub latest_fits : Fits s.installed s.latest

  -- A field keeps its version or gets a higher one.
  abbrev pub Rises : Option V → Option V → Type 0
  Rises none new = Unit {0}
  Rises (some v) none = ⊥
  Rises (some v) (some w) = lt w v ≡ false

  pub record Rise (s t : Scanner vs) : Type 0 where
    pub same_installed : t.installed ≡ s.installed
    pub unchanged_rises : Rises s.unchanged t.unchanged
    pub compatible_rises : Rises s.compatible t.compatible
    pub latest_rises : Rises s.latest t.latest

  Rises-refl : (o : Option V) → Rises o o
  Rises-refl none = tt
  Rises-refl (some v) = lt_irrefl v

  Rises-trans : (a b c : Option V) → Rises a b → Rises b c → Rises a c
  Rises-trans none b c h k = tt
  Rises-trans (some v) none c h k = absurd h
  Rises-trans (some v) (some w) none h k = absurd k
  Rises-trans (some v) (some w) (some u) h k = ge_trans u w v k h

  not_below-NotBelow : (o : Option V) (v : V) → not_below vs o v ≡ true → NotBelow o v
  unfolding not_below
  not_below-NotBelow none v h = tt
  not_below-NotBelow (some w) v h = elim (Bool-cases (lt v w)) [
    | inl e ↦ absurd (cc (rw e at h))
    | inr e ↦ e
  ]

  Rises-above : (o : Option V) (v : V) → above vs o v ≡ true → Rises o (some v)
  unfolding above
  Rises-above none v h = tt
  Rises-above (some w) v h = ge_of_gt w v h

  Rise-refl : (s : Scanner vs) → Rise s s
  Rise-refl s = record {
    same_installed = refl;
    unchanged_rises = Rises-refl s.unchanged;
    compatible_rises = Rises-refl s.compatible;
    latest_rises = Rises-refl s.latest;
  }

  Rise-trans : {s t u : Scanner vs} → Rise s t → Rise t u → Rise s u
  Rise-trans {s} {t} {u} h k = record {
    same_installed = k.same_installed ∙ h.same_installed;
    unchanged_rises =
        Rises-trans s.unchanged t.unchanged u.unchanged h.unchanged_rises k.unchanged_rises;
    compatible_rises =
        Rises-trans s.compatible t.compatible u.compatible h.compatible_rises k.compatible_rises;
    latest_rises = Rises-trans s.latest t.latest u.latest h.latest_rises k.latest_rises;
  }

  -- A step of the scanner keeps it sound and only raises its fields.
  abbrev pub Improves : Scanner vs → Scanner vs → Type 0
  Improves s t = (IsSound s → IsSound t) × Rise s t

  put-Improves :
      (field : Field) (v : V) (s : Scanner vs)
      → Fits s.installed (some v)
      → above vs (get vs s field) v ≡ true
      → Improves s (put vs s field v)
  unfolding put get
  put-Improves unchanged v s f a = (
    λ h. record {
      unchanged_fits = f;
      compatible_fits = h.compatible_fits;
      latest_fits = h.latest_fits;
    },
    record {
      same_installed = refl;
      unchanged_rises = Rises-above s.unchanged v a;
      compatible_rises = Rises-refl s.compatible;
      latest_rises = Rises-refl s.latest;
    },
  )
  put-Improves compatible v s f a = (
    λ h. record {
      unchanged_fits = h.unchanged_fits;
      compatible_fits = f;
      latest_fits = h.latest_fits;
    },
    record {
      same_installed = refl;
      unchanged_rises = Rises-refl s.unchanged;
      compatible_rises = Rises-above s.compatible v a;
      latest_rises = Rises-refl s.latest;
    },
  )
  put-Improves latest v s f a = (
    λ h. record {
      unchanged_fits = h.unchanged_fits;
      compatible_fits = h.compatible_fits;
      latest_fits = f;
    },
    record {
      same_installed = refl;
      unchanged_rises = Rises-refl s.unchanged;
      compatible_rises = Rises-refl s.compatible;
      latest_rises = Rises-above s.latest v a;
    },
  )

  Improves-refl : (s : Scanner vs) → Improves s s
  Improves-refl s = ((λ x. x), Rise-refl s)

  Improves-trans : {s t u : Scanner vs} → Improves s t → Improves t u → Improves s u
  Improves-trans (f, h) (g, k) = ((λ x. g (f x)), Rise-trans h k)

  update_with-Improves :
      (field : Field) (dist : Option V) (s : Scanner vs)
      → ((v : V) → dist ≡ some v → Offered v)
      → Improves s (update_with vs field dist s).0
  unfolding update_with
  update_with-Improves field none s h = Improves-refl s
  update_with-Improves field (some v) s h = elim (Bool-cases (is_prerelease v)) [
    | inl p ↦ rw p (Improves-refl s)
    | inr p ↦ rw p (elim (Bool-cases (not_below vs s.installed v)) [
      | inr q ↦ rw q (Improves-refl s)
      | inl q ↦ rw q (elim (Bool-cases (above vs (get vs s field) v)) [
        | inr a ↦ rw a (Improves-refl s)
        | inl a ↦ rw a (put-Improves field v s (p, not_below-NotBelow s.installed v q, h v refl) a)
      ])
    ])
  ]

  update_field-Improves :
      (field : Field) (req : Requirement) (s : Scanner vs)
      → Improves s (update_field vs index field req s).0
  unfolding update_field
  update_field-Improves field req s =
      update_with-Improves field (index.lookup req) s (λ v e. (req, e))

  find_compat-Improves :
      (req : Requirement) (s : Scanner vs) → Improves s (find_compat vs index req s)
  unfolding find_compat
  find_compat-Improves req s = elim (Bool-cases (index.valid (map compat_spec req.specifier))) [
    | inl h ↦ rw h (update_field-Improves compatible _ s)
    | inr h ↦ rw h (Improves-refl s)
  ]

  retry_latest-Improves :
      (req : Requirement) (p : Scanner vs × Option V) → Improves p.0 (retry_latest vs index req p)
  unfolding retry_latest
  retry_latest-Improves req (s, none) = Improves-refl s
  retry_latest-Improves req (s, some v) = update_field-Improves latest _ s

  inspect-Improves : (req : Requirement) (s : Scanner vs) → Improves s (inspect vs index req s)
  unfolding inspect find_latest
  inspect-Improves req s = Improves-trans (update_field-Improves unchanged req s) (
      Improves-trans (find_compat-Improves req _)
        (Improves-trans (update_field-Improves latest _ _) (retry_latest-Improves req _)))

  inspect_all-Improves :
      (reqs : List Requirement) (s : Scanner vs) → Improves s (inspect_all vs index reqs s)
  unfolding inspect_all
  inspect_all-Improves [] s = Improves-refl s
  inspect_all-Improves (r ∷ rs) s =
      Improves-trans (inspect-Improves r s) (inspect_all-Improves rs (inspect vs index r s))

  scanner-IsSound : (version : Option V) → IsSound (scanner vs version)
  unfolding scanner
  scanner-IsSound version = record { unchanged_fits = tt; compatible_fits = tt; latest_fits = tt }

  -- After any number of inspected places, each version in the result is a released one, is not
  -- below the installed version, and was offered by the index; inspecting more places only raises
  -- the versions that are there.
  pub inspect_all-IsSound :
      (version : Option V) (before more : List Requirement)
      → let s = inspect_all vs index before (scanner vs version) in
        IsSound s × IsSound (inspect_all vs index more s) × Rise s (inspect_all vs index more s)
  inspect_all-IsSound version before more =
      let s = inspect_all vs index before (scanner vs version) in
      let ok = (inspect_all-Improves before (scanner vs version)).0 (scanner-IsSound version) in
      let (keep, rise) = inspect_all-Improves more s in (ok, keep ok, rise)
