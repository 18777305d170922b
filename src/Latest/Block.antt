-- ===== src/Latest/Block.antt =====
-- Which lines `load` cuts out of a file whose latest block begins with a prefix line.
use mathlib.Core.List.{reverse}
use cdbx.Base.{
  ◌≡◌, ◌⊎◌, true, false, List, [], ◌∷◌, ◌++◌, map, Option, none, some, Text, All, concat,
}
use cdbx.Names.{normalize}
use cdbx.Suggest.Rules.{IsOneOf}
use cdbx.Latest.{Config, Loaded, Parser, above_mark, is_blank, is_suffix, is_marked, or_empty}

-- Lines are held backwards here, the last one first.
module _ (parser : Parser) (config : Config) where
  open parser use {is_req, name_of}

  abbrev mark : Text
  mark = or_empty config.prefix

  -- A requirement of the names whose latest versions the block may hold.
  abbrev pub Known : Text → Type 0
  Known x =
      (is_req x ≡ true)
      × ((name : Text) × ((name_of x ≡ some name)
            × (IsOneOf (normalize name) (map (λ p. p.0) config.latest)
                ⊎ IsOneOf (normalize name) config.not_latest)))

  -- A line that may stand in a block: a blank one, the suffix, or a requirement of the lists.
  abbrev pub Plain : Text → Type 0
  Plain x = (is_blank x ≡ true) ⊎ ((is_suffix config.suffix x ≡ true) ⊎ Known x)

  abbrev pub Stops : List Text → Type 0
  Stops [] = Unit {0}
  Stops (x ∷ l) = ¬ Plain x

  abbrev pub Unmarked : List Text → Type 0
  Unmarked = All (λ y. is_marked mark y ≡ false)

  abbrev pub NotBlankFirst : List Text → Type 0
  NotBlankFirst [] = Unit {0}
  NotBlankFirst (x ∷ l) = is_blank x ≡ false

  -- The lines up to the nearest prefix line, which is the last of them.
  abbrev UpToMark : List Text → Type 0
  UpToMark d =
      (block : List Text) × ((m : Text) × ((d ≡ block ++ m ∷ [])
          × ((is_marked mark m ≡ true) × Unmarked block)))

  -- What the loop drops of the lines `l`, down to the lines `a`.
  abbrev Reason : List Text → List Text → List Text → Type 0
  Reason l d a = (All Plain d × (Stops a × (above_mark mark l ≡ none))) ⊎ UpToMark d

  Drops : List Text → Option (List Text × List Text) → Type 0
  Drops l none = Unit {0}
  Drops l (some (a, removed)) = (d : List Text) × (l ≡ d ++ a) × Reason l d a

  -- What is cut out, `d`, in front of which the lines `a` stay: blank lines, suffix lines and
  -- requirements of the lists, where there is no prefix line and the lines that stay do not end with
  -- such a line; or everything from the nearest prefix line on, and all blank lines in front of it.
  abbrev pub IsCut : List Text → List Text → Type 0
  IsCut d a =
      (All Plain d × (Stops a × (above_mark mark (d ++ a) ≡ none)))
      ⊎ ((block : List Text) × ((m : Text) × ((blanks : List Text) × ((d ≡ block ++ m ∷ blanks)
                × ((is_marked mark m ≡ true)
                    × (Unmarked block
                        × (All (λ y. is_blank y ≡ true) blanks × NotBlankFirst a)))))))

  -- The text is that of the lines that stay, of those that are cut out, and what is behind them.
  abbrev pub CutsBlock : Text → Option Loaded → Type 0
  CutsBlock text none = Unit {0}
  CutsBlock text (some file) =
      (d : List Text) × ((text ≡ concat file.pre ++ (concat (reverse d) ++ file.post))
        × IsCut d (reverse file.pre))

  abbrev CutsLines : Text → Option (List Text × List Text) → Type 0
  CutsLines text none = Unit {0}
  CutsLines text (some (pre, removed)) =
      (d : List Text) × ((text ≡ concat pre ++ concat (reverse d)) × IsCut d (reverse pre))
