-- ===== src/FileModel/Patch.antt =====
-- tasks/deps/_suggest/_dep_file.py: `find`, `patch` and `_patch`. The expression `full_spec` and
-- the markers of requirements are parameters.
use cdbx.Base.{
  ◌≡◌, refl, ap, ◌∙◌, Bool, true, false, List, [], ◌∷◌, ◌++◌, map, Text, if◌then◌else◌, All,
}
use cdbx.FileModel.{Part, literal, string}

-- One match of `full_spec(name)`: the text between the match before and this one, and the groups
-- `space` and `spec`, which make up the match.
pub record Found : Type 0 where
  pub before : Text
  pub space : Text
  pub spec : Text

-- The matches in a text, and the text behind the last one.
pub record Matches : Type 0 where
  pub found : List Found
  pub tail : Text

abbrev pub spell_found : List Found → Text
spell_found [] = []
spell_found (f ∷ fs) = f.before ++ (f.space ++ (f.spec ++ spell_found fs))

-- What the expression and the requirement parser are asked for: the matches of `full_spec(name,
-- require_version)`, which with what lies between them spell the text, and whether a spec's marker
-- evaluates.
pub record Specs : Type 0 where
  pub matches : Bool → Text → Text → Matches
  pub valid : Text → Bool
  pub spells :
      (require_version : Bool) (name s : Text)
      → spell_found (matches require_version name s).found ++ (matches require_version name s).tail
        ≡ s

-- A changeset: for each name the new requirements, in the order in which they are applied.
abbrev pub Patches : Type 0
Patches = List (Text × List Text)

module _ (specs : Specs) where
  open specs use {matches, valid, spells}

  -- `re.sub` with the replacement of `_patch`.
  unfoldable pub substitute : Text → List Found → Text
  substitute new [] = []
  substitute new (f ∷ fs) =
      f.before ++ (f.space ++ ((if valid f.spec then new else f.spec) ++ substitute new fs))

  unfoldable pub patch_one : Text → Text → Text → Text
  unfolding substitute
  patch_one name new s = substitute new (matches true name s).found ++ (matches true name s).tail

  -- `for patch in patchlist`
  unfoldable pub patch_name : Text → List Text → Text → Text
  unfolding patch_one
  patch_name name [] s = s
  patch_name name (new ∷ news) s = patch_name name news (patch_one name new s)

  -- `_patch(string, patches)`
  unfoldable pub patch_text : Patches → Text → Text
  unfolding patch_name
  patch_text [] s = s
  patch_text ((name, news) ∷ patches) s = patch_text patches (patch_name name news s)

  unfoldable pub patch_part : Patches → Part → Part
  unfolding patch_text
  patch_part patches (literal s) = literal s
  patch_part patches (string raw quote s) = string raw quote (patch_text patches s)

  -- `patch(patches)`: the parts of the new file.
  unfoldable pub patch : Patches → List Part → List Part
  unfolding patch_part
  patch patches = map (patch_part patches)

  abbrev specs_of : List Found → List Text
  specs_of [] = []
  specs_of (f ∷ fs) = f.spec ∷ specs_of fs

  -- `find(name, require_version)`: the specs in the strings of the file.
  unfoldable pub find : Text → Bool → List Part → List Text
  find name require_version [] = []
  find name require_version (literal s ∷ parts) = find name require_version parts
  find name require_version (string raw quote s ∷ parts) =
      specs_of (matches require_version name s).found ++ find name require_version parts

  -- No versioned requirement that stands for the name in the file applies to this environment.
  abbrev pub Inapplicable : Text → List Part → Type 0
  Inapplicable name parts = All (λ spec. valid spec ≡ false) (find name true parts)

  substitute_none :
      (new : Text) (fs : List Found)
      → All (λ spec. valid spec ≡ false) (specs_of fs)
      → substitute new fs ≡ spell_found fs
  unfolding substitute
  substitute_none new [] h = refl
  substitute_none new (f ∷ fs) (hf, h) =
      rw hf (ap (λ t. f.before ++ (f.space ++ (f.spec ++ t))) (substitute_none new fs h))

  patch_one_none :
      (name new s : Text)
      → All (λ spec. valid spec ≡ false) (specs_of (matches true name s).found)
      → patch_one name new s ≡ s
  unfolding patch_one
  patch_one_none name new s h =
      ap (λ t. t ++ (matches true name s).tail) (substitute_none new (matches true name s).found h)
      ∙ spells true name s

  patch_name_none :
      (name : Text) (news : List Text) (s : Text)
      → All (λ spec. valid spec ≡ false) (specs_of (matches true name s).found)
      → patch_name name news s ≡ s
  unfolding patch_name
  patch_name_none name [] s h = refl
  patch_name_none name (new ∷ news) s h =
      ap (patch_name name news) (patch_one_none name new s h) ∙ patch_name_none name news s h

  -- All names of a changeset are inapplicable in this text.
  abbrev pub NoneIn : Patches → Text → Type 0
  NoneIn patches s =
      All (λ p. All (λ spec. valid spec ≡ false) (specs_of (matches true p.0 s).found)) patches

  patch_text_none : (patches : Patches) (s : Text) → NoneIn patches s → patch_text patches s ≡ s
  unfolding patch_text
  patch_text_none [] s h = refl
  patch_text_none ((name, news) ∷ patches) s (hn, h) =
      ap (patch_text patches) (patch_name_none name news s hn) ∙ patch_text_none patches s h

  All-split {ℓ κ} :
      {A : Type ℓ} (P : A → Type κ) (xs ys : List A) → All P (xs ++ ys) → All P xs × All P ys
  All-split P [] ys h = (tt, h)
  All-split P (x ∷ xs) ys (hx, h) = let (p, q) = All-split P xs ys h in ((hx, p), q)

  find_string :
      (patches : Patches) (raw : Bool) (quote s : Text) (parts : List Part)
      → All (λ p. Inapplicable p.0 (string raw quote s ∷ parts)) patches
      → NoneIn patches s × All (λ p. Inapplicable p.0 parts) patches
  unfolding find
  find_string [] raw quote s parts h = (tt, tt)
  find_string ((name, news) ∷ patches) raw quote s parts (hn, h) =
      let (here, there) =
        All-split _ (specs_of (matches true name s).found) (find name true parts) hn in
      let (p, q) = find_string patches raw quote s parts h in ((here, p), (there, q))

  find_literal :
      (patches : Patches) (s : Text) (parts : List Part)
      → All (λ p. Inapplicable p.0 (literal s ∷ parts)) patches
      → All (λ p. Inapplicable p.0 parts) patches
  unfolding find
  find_literal [] s parts h = tt
  find_literal ((name, news) ∷ patches) s parts (hn, h) = (hn, find_literal patches s parts h)

  -- If `find` sees no versioned requirement of the changeset's names that applies to the environment, the
  -- patched file has the parts of the old one.
  pub patch-Inapplicable :
      (patches : Patches) (parts : List Part)
      → All (λ p. Inapplicable p.0 parts) patches
      → patch patches parts ≡ parts
  unfolding patch
  patch-Inapplicable patches [] h = refl
  patch-Inapplicable patches (literal s ∷ parts) h =
      ap (◌∷◌ (literal s)) (patch-Inapplicable patches parts (find_literal patches s parts h))
  patch-Inapplicable patches (string raw quote s ∷ parts) h =
      let (here, there) = find_string patches raw quote s parts h in
      rw (patch_text_none patches s here)
        (ap (◌∷◌ (string raw quote s)) (patch-Inapplicable patches parts there))
