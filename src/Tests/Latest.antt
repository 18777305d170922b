-- ===== src/Tests/Latest.antt =====
-- The latest block of tasks/deps/_suggest/_latest_file.py.
use cdbx.Base.{
  Option, ◌≡◌, refl, not, [], ◌∷◌, some, Text, codes, text_eq, is_space, starts_with, strip, rstrip,
}
use cdbx.Scanner.{Requirement, Operator}
use cdbx.Latest.{Loaded}
use cdbx.Names.{normalize}
use cdbx.Latest.{Config, Parser, load_from, add_lines}

-- Every line but a comment is a requirement, which is its name.
abbrev parser : Parser
parser = record {
  is_req = λ line. not (starts_with (codes "#") line);
  name_of = λ line. some (strip line);
}

abbrev config : Config
config = record {
  prefix = some (codes "# latest");
  suffix = some (codes "# end");
  latest = (codes "six", codes "six ~= 2") ∷ [];
  not_latest = codes "tox" ∷ [];
}

abbrev before : Text
before = codes "mock\n\n# latest\nsix\ntox\n# end\n"

loaded :
    load_from parser config before (codes "# EOF")
    ≡ some (record {
      pre = codes "mock\n" ∷ [];
      post = codes "# EOF";
      add = codes "six ~= 2\n" ∷ [];
      remove = codes "tox\n" ∷ codes "six\n" ∷ [];
    })
unfolding load_from text_eq strip is_space starts_with normalize add_lines rstrip
loaded = refl

-- Every line is a name, which is compatible with version 2.
abbrev requirement : Text → Option Requirement
requirement line = some (record {
  name = line;
  specifier = record { operator = Operator.compatible; version = codes "2" } ∷ [];
})

abbrev moved : Loaded
moved = record { pre = []; post = []; add = codes "six" ∷ []; remove = codes "tox" ∷ [] }
