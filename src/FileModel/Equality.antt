-- ===== src/FileModel/Equality.antt =====
-- The comparison of parts of a file: `__eq__` of `StringPart` and `LiteralPart` in
-- tasks/deps/_suggest/_file_model.py.
use cdbx.Base.{◌≡◌, ◌↔◌, refl, ap, Bool, true, false, ◌&&◌, Text, text_eq, text_eq_iff}
use cdbx.FileModel.{Part, literal, string}

abbrev bool_eq : Bool → Bool → Bool
bool_eq true b = b
bool_eq false true = false
bool_eq false false = true

-- `LiteralPart.__eq__`
abbrev literal_eq : Text → Text → Bool
literal_eq content content2 = text_eq content content2

-- `__eq__` of both classes: two parts of one class with the same attributes.
unfoldable pub part_eq : Part → Part → Bool
unfolding text_eq
part_eq (string raw quote content) (string raw2 quote2 content2) =
    bool_eq raw raw2 && text_eq quote quote2 && text_eq content content2
part_eq (literal content) (literal content2) = literal_eq content content2
part_eq _ _ = false

bool_eq_iff : (a b : Bool) → (bool_eq a b ≡ true) ↔ (a ≡ b)
bool_eq_iff true true = (λ _. refl, λ _. refl)
bool_eq_iff true false = (λ h. absurd (cc h), λ h. absurd (cc h))
bool_eq_iff false true = (λ h. absurd (cc h), λ h. absurd (cc h))
bool_eq_iff false false = (λ _. refl, λ _. refl)

split : (a b : Bool) → (a && b) ≡ true → (a ≡ true) × (b ≡ true)
split true b h = (refl, h)
split false b h = absurd (cc h)

-- Parts compare equal exactly if they are equal.
pub part_eq_iff : (a b : Part) → (part_eq a b ≡ true) ↔ (a ≡ b)
unfolding part_eq
part_eq_iff (literal s) (literal t) =
    (λ h. ap literal ((text_eq_iff s t).0 h), λ h. (text_eq_iff s t).1 cc)
part_eq_iff (literal s) (string r q t) = (λ h. absurd (cc h), λ h. absurd (cc h))
part_eq_iff (string r q t) (literal s) = (λ h. absurd (cc h), λ h. absurd (cc h))
part_eq_iff (string r q s) (string r2 q2 s2) = (there, back)
  where
    there : (bool_eq r r2 && text_eq q q2 && text_eq s s2) ≡ true → string r q s ≡ string r2 q2 s2
    there h =
        let (ab, c) = split (bool_eq r r2 && text_eq q q2) (text_eq s s2) h in
        let (a, b) = split (bool_eq r r2) (text_eq q q2) ab in
        let er = (bool_eq_iff r r2).0 a in
        let eq = (text_eq_iff q q2).0 b in
        let es = (text_eq_iff s s2).0 c in λ i. string (er i) (eq i) (es i)

    back : string r q s ≡ string r2 q2 s2 → (bool_eq r r2 && text_eq q q2 && text_eq s s2) ≡ true
    back h =
        let er : r ≡ r2 = cc in
        let eq : q ≡ q2 = cc in
        let es : s ≡ s2 = cc in
        rw ((bool_eq_iff r r2).1 er, (text_eq_iff q q2).1 eq, (text_eq_iff s s2).1 es) refl
