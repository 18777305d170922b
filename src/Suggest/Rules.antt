-- ===== src/Suggest/Rules.antt =====
-- The rules that each choice of `_updatable` keeps.
use cdbx.Names.{normalize}
use cdbx.Base.{
  mem_text, map, Text, text_eq, text_eq_iff, Bool-cases, ◌↔◌, ◌≡◌, ◌⊎◌, inl, inr, refl, Bool, true,
  false, not, ◌&&◌, List, [], ◌∷◌, All,
}
use cdbx.Suggest.{Config, Location, Choice, is_named, choose_by, choose, yield_unless, updatable}

-- One of the names is this one, in any spelling.
abbrev pub IsNamed : Text → List Text → Type 0
IsNamed name [] = ⊥
IsNamed name (n ∷ ns) = (normalize n ≡ normalize name) ⊎ IsNamed name ns

-- The text is one of these.
abbrev pub IsOneOf : Text → List Text → Type 0
IsOneOf t [] = ⊥
IsOneOf t (u ∷ us) = (u ≡ t) ⊎ IsOneOf t us

pub mem_text-IsOneOf : (t : Text) (us : List Text) → (mem_text t us ≡ true) ↔ IsOneOf t us
unfolding mem_text
mem_text-IsOneOf t [] = (λ h. absurd (cc h), λ h. absurd h)
mem_text-IsOneOf t (u ∷ us) = elim (Bool-cases (text_eq u t)) [
  | inl e ↦ (λ h. inl ((text_eq_iff u t).0 e), λ h. rw e refl)
  | inr e ↦ (
    λ h. inr ((mem_text-IsOneOf t us).0 (rw e at h)),
    λ h. elim h [
      | inl k ↦ let yes = (text_eq_iff u t).1 k in absurd (cc (rw yes at e))
      | inr k ↦ rw e ((mem_text-IsOneOf t us).1 k)
    ],
  )
]

IsNamed-IsOneOf :
    (name : Text) (ns : List Text) → IsNamed name ns → IsOneOf (normalize name) (map normalize ns)
IsNamed-IsOneOf name [] h = absurd h
IsNamed-IsOneOf name (n ∷ ns) (inl h) = inl h
IsNamed-IsOneOf name (n ∷ ns) (inr h) = inr (IsNamed-IsOneOf name ns h)

IsNamed-is_named : (name : Text) (ns : List Text) → IsNamed name ns → is_named name ns ≡ true
unfolding is_named
IsNamed-is_named name ns h =
    (mem_text-IsOneOf (normalize name) (map normalize ns)).1 (IsNamed-IsOneOf name ns h)

not_mem_text : (t : Text) (us : List Text) → mem_text t us ≡ false → IsOneOf t us → ⊥
not_mem_text t us h k = let yes = (mem_text-IsOneOf t us).1 k in cc (rw yes at h)

compat_of :
    (is_text compat : Bool) → (not is_text && compat) ≡ true → (compat ≡ true) × (is_text ≡ false)
compat_of true compat h = cc
compat_of false compat h = (h, refl)

module _ (config : Config) (want_upgrade : Bool) where
  -- What the configuration allows at a location.
  pub record IsAllowed (c : Choice) : Type 0 where
    pub applies : c.location.applies ≡ true
    pub not_kept : ¬ IsOneOf c.location.file_name config.keep_as_is
    pub not_upgraded : IsNamed c.location.name config.no_upgrade → c.upgrade ≡ false
    pub upgraded_on_demand :
        c.upgrade ≡ true → (want_upgrade ≡ true) ⊎ IsOneOf c.location.file_name config.upgrade
    pub no_compat : IsNamed c.location.name config.no_compat → c.compat ≡ false
    pub compat_where_wanted :
        c.compat ≡ true → (config.compat ≡ true) × (c.location.is_text ≡ false)

  choose_by-IsAllowed :
      (u f n : Bool) (loc : Location)
      → loc.applies ≡ true
      → mem_text loc.file_name config.keep_as_is ≡ false
      → is_named loc.name config.no_upgrade ≡ u
      → mem_text loc.file_name config.upgrade ≡ f
      → is_named loc.name config.no_compat ≡ n
      → IsAllowed (choose_by config want_upgrade u f n loc)
  unfolding choose_by
  choose_by-IsAllowed false true n loc ha hk hu hf hn = record {
    applies = ha;
    not_kept = not_mem_text loc.file_name config.keep_as_is hk;
    not_upgraded =
        λ h. let yes = IsNamed-is_named loc.name config.no_upgrade h in absurd (cc (rw yes at hu));
    upgraded_on_demand = λ h. inr ((mem_text-IsOneOf loc.file_name config.upgrade).0 hf);
    no_compat = λ h. refl;
    compat_where_wanted = λ h. cc;
  }
  choose_by-IsAllowed true f true loc ha hk hu hf hn = record {
    applies = ha;
    not_kept = not_mem_text loc.file_name config.keep_as_is hk;
    not_upgraded = λ h. refl;
    upgraded_on_demand = λ h. cc;
    no_compat = λ h. refl;
    compat_where_wanted = λ h. cc;
  }
  choose_by-IsAllowed true f false loc ha hk hu hf hn = record {
    applies = ha;
    not_kept = not_mem_text loc.file_name config.keep_as_is hk;
    not_upgraded = λ h. refl;
    upgraded_on_demand = λ h. cc;
    no_compat =
        λ h. let yes = IsNamed-is_named loc.name config.no_compat h in absurd (cc (rw yes at hn));
    compat_where_wanted = compat_of loc.is_text config.compat;
  }
  choose_by-IsAllowed false false true loc ha hk hu hf hn = record {
    applies = ha;
    not_kept = not_mem_text loc.file_name config.keep_as_is hk;
    not_upgraded =
        λ h. let yes = IsNamed-is_named loc.name config.no_upgrade h in absurd (cc (rw yes at hu));
    upgraded_on_demand = λ h. inl h;
    no_compat = λ h. refl;
    compat_where_wanted = λ h. cc;
  }
  choose_by-IsAllowed false false false loc ha hk hu hf hn = record {
    applies = ha;
    not_kept = not_mem_text loc.file_name config.keep_as_is hk;
    not_upgraded =
        λ h. let yes = IsNamed-is_named loc.name config.no_upgrade h in absurd (cc (rw yes at hu));
    upgraded_on_demand = λ h. inl h;
    no_compat =
        λ h. let yes = IsNamed-is_named loc.name config.no_compat h in absurd (cc (rw yes at hn));
    compat_where_wanted = compat_of loc.is_text config.compat;
  }

  choose-IsAllowed :
      (loc : Location)
      → loc.applies ≡ true
      → mem_text loc.file_name config.keep_as_is ≡ false
      → IsAllowed (choose config want_upgrade loc)
  unfolding choose
  choose-IsAllowed loc ha hk =
      choose_by-IsAllowed (is_named loc.name config.no_upgrade)
        (mem_text loc.file_name config.upgrade) (is_named loc.name config.no_compat) loc ha hk refl
        refl refl

  yield_unless-All :
      (applies kept : Bool) (c : Choice) (rest : List Choice)
      → (applies ≡ true → kept ≡ false → IsAllowed c)
      → All IsAllowed rest
      → All IsAllowed (yield_unless config want_upgrade applies kept c rest)
  unfolding yield_unless
  yield_unless-All false kept c rest h k = k
  yield_unless-All true true c rest h k = k
  yield_unless-All true false c rest h k = (h refl refl, k)

  -- Every choice is for a location whose marker applies and whose file is not kept as it is; names
  -- of `no_upgrade`, in any spelling, are never upgraded, and others only if that is asked for by
  -- the call or for the file; `~=` is never asked for in a requirement file, for a name of
  -- `no_compat`, or against the configuration.
  pub updatable-IsAllowed :
      (locs : List Location) → All IsAllowed (updatable config want_upgrade locs)
  unfolding updatable
  updatable-IsAllowed [] = tt
  updatable-IsAllowed (loc ∷ locs) =
      yield_unless-All loc.applies (mem_text loc.file_name config.keep_as_is)
        (choose config want_upgrade loc) (updatable config want_upgrade locs)
        (λ ha hk. choose-IsAllowed loc ha hk) (updatable-IsAllowed locs)
