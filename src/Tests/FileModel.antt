-- ===== src/Tests/FileModel.antt =====
-- Dependency files of tasks/deps/_suggest on concrete inputs.
use cdbx.Base.{
  ◌≡◌, refl, true, false, List, [], ◌∷◌, ◌++◌, ◌∙◌, Text, codes, append-nil, length, starts_with,
}
use cdbx.FileModel.{Part, literal, string, render, from_python, render_all, req_parts, single}
use cdbx.FileModel.Lines.{render_all-req_parts}
use cdbx.FileModel.Quotes.{Item, char, own, spell, quoted_text, render-from_python}
use cdbx.FileModel.Python.{setup_parts, pieces, string_end, ends_in_r}
use cdbx.FileModel.Python.Parts.{Faithful, render_all-setup_parts}
use cdbx.FileModel.Patch.{Specs, Patches, find, patch, patch-Inapplicable}

abbrev requirements : Text
requirements = codes "# all\nsix == 1 # pinned\n\ntox"

render_all-req_parts_example : render_all (req_parts requirements) ≡ requirements
render_all-req_parts_example = render_all-req_parts requirements

abbrev quoted : List Item
quoted = char b'a' ∷ own ∷ []

render-from_python_example :
    (render (from_python false (quoted_text single (spell single quoted)))
      ≡ quoted_text single (spell single quoted))
    × (render (from_python true (quoted_text single (codes "\\d+")))
        ≡ quoted_text single (codes "\\d+"))
unfolding starts_with
render-from_python_example =
    render-from_python single quoted (codes "\\d+") refl ((refl, refl), (tt, tt)) refl

abbrev setup : Text
setup = codes "x = ['six', r\"a\"] # 'n\n"

setup-Faithful : Faithful [] (pieces (length setup) setup)
unfolding pieces render from_python starts_with string_end ends_in_r
setup-Faithful = (refl, (refl, tt))

render_all-setup_parts_example : render_all (setup_parts setup) ≡ setup
render_all-setup_parts_example = render_all-setup_parts setup setup-Faithful

-- An expression that finds the whole text, and no marker that evaluates.
abbrev whole : Specs
whole = record {
  matches = λ required name s. record {
    found = record { before = []; space = []; spec = s } ∷ [];
    tail = [];
  };
  valid = λ spec. false;
  spells = λ required name s. append-nil (s ++ []) ∙ append-nil s;
}

abbrev parts : List Part
parts =
    literal (codes "x = ") ∷ string false (codes "'") (codes "six==1; python_version < '3'") ∷ []

abbrev patches : Patches
patches = (codes "six", codes "six==2" ∷ []) ∷ []

patch-Inapplicable_example : patch whole patches parts ≡ parts
unfolding find
patch-Inapplicable_example = patch-Inapplicable whole patches parts ((refl, tt), tt)
