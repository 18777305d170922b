-- ===== src/Tests/Names.antt =====
-- Package names of tasks/deps/_parse.py on concrete inputs.
use cdbx.Base.{◌≡◌, refl, [], ◌∷◌, Text, codes, join}
use cdbx.Names.{dash, normalize, lower, is_separator}
use cdbx.Names.Canonical.{words_of, spell_name, normalize-spell_name}

abbrev name : Text
name = codes "Zope.__Interface"

normalize-spell_name_example :
    normalize (spell_name (codes "Ab") ((codes "._", codes "C") ∷ []))
    ≡ lower (join dash (words_of (codes "Ab") ((codes "._", codes "C") ∷ [])))
unfolding is_separator
normalize-spell_name_example =
    normalize-spell_name (codes "Ab") ((codes "._", codes "C") ∷ []) ((λ e. cc), (refl, (refl, tt)))
      ((((λ e. cc), (refl, (refl, tt))), ((λ e. cc), (refl, tt))), tt)
