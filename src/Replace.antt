-- ===== src/Replace.antt =====
-- tasks/deps/_suggest/_requirement.py: `replace` and its helpers. The parsers of requirements and
-- versions, and the matches of `full_spec`, are parameters. `none` is an exception of a parser or the
-- failed assertion of `plus_1`.
pub mod Sub
pub mod Pinned
use cdbx.Base.{
  Bool, true, false, not, ◌&&◌, ◌||◌, List, [], ◌∷◌, ◌++◌, Option, none, some, Text, codes, ◌==◌,
  text_eq, all, any, rstrip, drop, length, if◌then◌else◌,
}
use cdbx.Scanner.{Versions, Spec, Operator, Requirement, Field}
use cdbx.Scanner.Choice.{desired, desired_compatible}
use cdbx.Shell.Format.{◌>>=◌}
use cdbx.Version.{digits, plus_1, from_end}
use cdbx.Replace.Sub.{spec_sub}

-- One match of `full_spec(name)`: the text before it and its groups.
pub record FullMatch : Type 0 where
  pub before : Text
  pub space : Text
  pub name : Text
  pub extra : Text
  pub version : Text
  pub marker : Text

-- `_parse.requirement`, `_parse.version`, and the matches of `full_spec(name)` in a text with the
-- text behind the last one.
pub record Parsers (vs : Versions) : Type 0 where
  pub requirement : Text → Option Requirement
  pub version : Text → Option vs.V
  pub full_matches : Text → Text → List FullMatch × Text

-- The flags of a call.
pub record Flags : Type 0 where
  pub upgrade : Bool
  pub compat : Bool
  pub latest : Bool

unfoldable pub is_op : Operator → Operator → Bool
is_op Operator.arbitrary Operator.arbitrary = true
is_op Operator.equal Operator.equal = true
is_op Operator.not_equal Operator.not_equal = true
is_op Operator.compatible Operator.compatible = true
is_op Operator.less Operator.less = true
is_op Operator.less_equal Operator.less_equal = true
is_op Operator.greater Operator.greater = true
is_op Operator.greater_equal Operator.greater_equal = true
is_op _ _ = false

abbrev pub has_op : Operator → List Spec → Bool
has_op op = any (λ s. is_op op s.operator)

-- `ops == {op}`
unfoldable pub ops_are : Operator → List Spec → Bool
unfolding is_op
ops_are op specs = has_op op specs && all (λ s. is_op op s.operator) specs

-- `ops in ({">=", "<"}, {">=", "<="})`
unfoldable pub is_range : List Spec → Bool
unfolding is_op
is_range specs =
    has_op Operator.greater_equal specs
    && ((has_op Operator.less specs
          && all (λ s. is_op Operator.greater_equal s.operator || is_op Operator.less s.operator)
              specs)
        || (has_op Operator.less_equal specs
            && all
                (λ s.
                  is_op Operator.greater_equal s.operator || is_op Operator.less_equal s.operator)
                specs))

-- `vers[0]`
abbrev pub first_version : List Spec → Option Text
first_version [] = none
first_version (s ∷ specs) = some s.version

-- The version of the first `<` or `<=`.
unfoldable pub upper_version : List Spec → Option Text
unfolding is_op
upper_version [] = none
upper_version (s ∷ specs) =
    let rest = upper_version specs in
    if is_op Operator.less s.operator || is_op Operator.less_equal s.operator
    then some s.version
    else rest

-- `m.group(1)[0] if m.group(1)[0] not in "=<~> \t" else ""`
unfoldable pub leading : Text → Text
leading [] = []
leading (c ∷ s) =
    if c == b'=' || c == b'<' || c == b'~' || c == b'>' || c == b' ' || c == 9 then [] else c ∷ []

module _ (vs : Versions) (parsers : Parsers vs) where
  open vs use {V, lt, show}
  open parsers use {requirement, version, full_matches}

  abbrev pub upper_text : Bool → Text → Text → Option Text
  upper_text true upper wanted = some wanted
  upper_text false upper wanted = plus_1 (digits upper wanted) (from_end 2)

  abbrev pub raise_upper : List Spec → Text → Option V → V → Text → Option Text
  raise_upper specs upper none wanted text = none
  raise_upper specs upper (some v) wanted text =
      if lt wanted v
      then some text
      else spec_sub
          (λ op old. upper_text (has_op Operator.less_equal specs) upper (show wanted) >>= λ new.
            some (op ++ digits upper new))
          text

  -- `_replace_upgrade(requirement, version)`
  unfoldable pub replace_upgrade : Text → V → Option Text
  unfolding is_range upper_version is_op spec_sub
  replace_upgrade text wanted = do
    req ← requirement text
    elim (is_range req.specifier) [
      | false ↦ some text
      | true ↦ do
        upper ← upper_version req.specifier
        raise_upper req.specifier upper (version upper) wanted text
    ]

  -- The case of `==` in `_replace_compat`, and what follows.
  abbrev pub widen_pinned : List Spec → Text → V → Option Text
  widen_pinned specs text wanted = elim (ops_are Operator.equal specs) [
    | false ↦ replace_upgrade text wanted
    | true ↦ do
      old ← first_version specs
      new_next ← plus_1 (show wanted) (from_end 2)
      old_next ← plus_1 old (from_end 2)
      (if text_eq new_next old_next
          then replace_upgrade text wanted
          else spec_sub
              (λ op v. some (
                leading op
                ++ (codes " >= " ++ (old ++ (codes ", <= " ++ digits old (show wanted))))))
              text)
  ]

  abbrev pub compat_rest : List Spec → Text → V → Bool → Option Text
  compat_rest specs text wanted false = some text
  compat_rest specs text wanted true = widen_pinned specs text wanted

  -- `_replace_compat(requirement, version, upgrade)`
  unfoldable pub replace_compat : Text → V → Bool → Option Text
  unfolding ops_are replace_upgrade leading spec_sub
  replace_compat text wanted upgrade = do
    req ← requirement text
    elim (ops_are Operator.compatible req.specifier) [
      | false ↦ compat_rest req.specifier text wanted upgrade
      | true ↦ do
        old ← first_version req.specifier
        new_next ← plus_1 (digits old (show wanted)) (from_end 2)
        old_next ← plus_1 old (from_end 2)
        (if text_eq new_next old_next
            then compat_rest req.specifier text wanted upgrade
            else spec_sub
                (λ op v. some (codes ">= " ++ (old ++ (codes ", < " ++ digits old new_next)))) text)
    ]

  abbrev pub trailing : Text → Text
  trailing s = drop (length (rstrip s)) s

  -- The substitution of `_replace_latest`; the blanks in front of a match are dropped.
  unfoldable pub latest_sub : V → List FullMatch → Text → Text
  latest_sub wanted [] tail = tail
  latest_sub wanted (m ∷ ms) tail =
      m.before
      ++ (m.name
          ++ (m.extra
              ++ (codes " ~= "
                  ++ (digits m.version (show wanted)
                      ++ (trailing m.version ++ (m.marker ++ latest_sub wanted ms tail))))))

  -- `_replace_latest(requirement, version)`
  unfoldable pub replace_latest : Text → V → Option Text
  unfolding is_range latest_sub
  replace_latest text wanted = do
    req ← requirement text
    elim (is_range req.specifier) [
      | false ↦ some text
      | true ↦
          (let (found, tail) = full_matches req.name text in some (latest_sub wanted found tail))
    ]

  -- The version that is wanted, if any.
  unfoldable pub desired_version : Flags → (Field → Option Text) → Option Text
  desired_version flags updates =
      if flags.upgrade
      then desired updates
      else if not flags.compat
      then desired_compatible updates
      else none

  unfoldable pub first_step : Flags → Text → V → Option Text
  unfolding replace_compat replace_latest replace_upgrade
  first_step flags original wanted =
      if flags.compat
      then replace_compat original wanted flags.upgrade
      else if flags.latest
      then replace_latest original wanted
      else if flags.upgrade
      then replace_upgrade original wanted
      else some original

  -- The `continue` of the loop that only look at the operator.
  unfoldable pub is_left : Flags → Operator → Bool
  unfolding is_op
  is_left flags op =
      (is_op Operator.compatible op && flags.compat)
      || ((is_op Operator.equal op && (flags.latest || (flags.compat && not flags.upgrade)))
          || not (
              is_op Operator.equal op
              || (is_op Operator.compatible op
                  || (is_op Operator.less_equal op || is_op Operator.less op))))

  -- `plus_1(version) if spec.operator == "<" else version`
  unfoldable pub new_version : Operator → V → Option Text
  new_version Operator.less wanted = plus_1 (show wanted) (from_end 2)
  new_version _ wanted = some (show wanted)

  unfoldable pub raise : Operator → V → Text → Option Text
  unfolding new_version spec_sub
  raise op wanted text = do
    new ← new_version op wanted
    spec_sub (λ group old. some (group ++ digits old new)) text

  abbrev pub raise_below : Operator → Bool → V → Text → Option Text
  raise_below op true wanted text = raise op wanted text
  raise_below op false wanted text = some text

  abbrev pub raise_unless : Bool → Spec → V → Text → Option Text
  raise_unless true spec wanted text = some text
  raise_unless false spec wanted text = do
    old ← version spec.version
    raise_below spec.operator (lt old wanted) wanted text

  -- The loop over `req.specifier`.
  unfoldable pub raise_specs : Flags → V → List Spec → Text → Option Text
  unfolding is_left raise
  raise_specs flags wanted [] text = some text
  raise_specs flags wanted (spec ∷ specs) text =
      raise_unless (is_left flags spec.operator) spec wanted text >>= raise_specs flags wanted specs

  -- The body of `replace` behind the choice of a version.
  unfoldable pub replace_by : Flags → Text → Option Text → Option (Text × Option Text)
  unfolding first_step raise_specs
  replace_by flags original none = some (original, none)
  replace_by flags original (some name) = do
    wanted ← version name
    replacement ← first_step flags original wanted
    req ← requirement replacement
    result ← raise_specs flags wanted req.specifier replacement
    some (result, some name)

  -- `replace(original, updates, upgrade, compat, latest)`
  unfoldable pub replace : Flags → Text → (Field → Option Text) → Option (Text × Option Text)
  unfolding desired_version replace_by
  replace flags original updates = replace_by flags original (desired_version flags updates)
