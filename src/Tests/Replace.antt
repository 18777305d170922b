-- ===== src/Tests/Replace.antt =====
-- The replacement of requirements of tasks/deps/_suggest/_requirement.py.
use cdbx.Base.{◌≡◌, refl, true, false, [], ◌∷◌, Option, some, none, Text, codes, is_space}
use cdbx.Version.{digits}
use cdbx.Version.Decimal.{to_int}
use cdbx.Scanner.{Operator, Requirement, Field, unchanged, compatible, latest}
use cdbx.Tests.Scanner.{numbers}
use cdbx.Replace.{Parsers, desired_version, replace}
use cdbx.Replace.Sub.{is_blank, is_version_char, spec_sub}
use cdbx.Replace.Pinned.{pinned, replace-pinned}

abbrev pub six : Requirement
six = record {
  name = codes "six";
  specifier = record { operator = Operator.equal; version = codes "3" } ∷ [];
}

-- Parsers that know one requirement, and versions of one number.
abbrev pub one_requirement : Parsers numbers
one_requirement = record {
  requirement = λ text. some six;
  version = λ text. some (to_int text);
  full_matches = λ name text. ([], text);
}

abbrev pub updates : Field → Option Text
updates unchanged = some (codes "3")
updates compatible = none
updates latest = some (codes "12")

both_versions :
    spec_sub (λ op v. some (codes "@")) (codes "six>=1, <2; os=='x'")
    ≡ some (codes "six>=1, @; os=='x'")
unfolding spec_sub is_space
both_versions = refl

desired_latest :
    desired_version numbers one_requirement
      (record { upgrade = true; compat = false; latest = false })
      updates
    ≡ some (codes "12")
unfolding desired_version
desired_latest = refl

replace-pinned_example :
    replace numbers one_requirement
      (record { upgrade = true; compat = false; latest = false })
      (pinned (codes "six") b' ' (codes " ") (codes "3"))
      updates
    ≡ some (
      pinned (codes "six") b' ' (codes " ") (digits (codes "3") (numbers.show 12)),
      some (codes "12"),
    )
unfolding is_blank is_version_char is_space to_int
replace-pinned_example =
    replace-pinned numbers one_requirement true (codes "six") b' ' (codes " ") b'3' [] updates
      (codes "12") 12 3 ((refl, refl, refl), ((refl, refl, refl), ((refl, refl, refl), tt)))
      (refl, refl, refl) (refl, tt) (refl, tt) refl refl desired_latest refl refl refl
