-- ===== src/Suggest/Updates/Changes.antt =====
-- What `suggest_updates` records as a change.
use cdbx.Base.{
  ◌≡◌, inl, inr, refl, sym, ap, ◌∙◌, Bool, true, false, not, ◌&&◌, List, [], ◌∷◌, Option, some, map,
  Text, text_eq, text_eq_iff, mem_text, In, Within, Within-refl, All, All-append, Bool-cases,
  Option-cases,
}
use cdbx.Names.{normalize}
use cdbx.Scanner.{Versions, Requirement, Field}
use cdbx.Replace.{Parsers, replace}
use cdbx.Suggest.{Config, Location, Choice, is_named, choose_by, choose, yield_unless, updatable}
use cdbx.Suggest.Rules.{IsAllowed, updatable-IsAllowed}
use cdbx.Suggest.Updates.{
  Site, Info, Change, Suggested, append_change, settle_latest, note_latest, maybe_latest,
  record_change, suggest_one, suggest_choices, suggest_sites, suggest_infos, suggest,
}

-- All changes of all files.
abbrev pub AllChanges : (Text → Change → Type 0) → List (Text × List Change) → Type 0
AllChanges P [] = Unit
AllChanges P ((file, cs) ∷ changes) = All (P file) cs × AllChanges P changes

append_change-All :
    (P : Text → Change → Type 0) (file : Text) (c : Change) (changes : List (Text × List Change))
    → P file c
    → AllChanges P changes
    → AllChanges P (append_change file c changes)
unfolding append_change
append_change-All P file c [] p h = ((p, tt), tt)
append_change-All P file c ((f, cs) ∷ changes) p (hc, h) = elim (Bool-cases (text_eq f file)) [
  | inl e ↦
      let same : f ≡ file = (text_eq_iff f file).0 e in
      rw e (All-append (P f) cs (c ∷ []) hc (rw same p, tt), h)
  | inr e ↦ rw e (hc, append_change-All P file c changes p h)
]

choose_by-location :
    (config : Config) (want u f n : Bool) (loc : Location)
    → (choose_by config want u f n loc).location ≡ loc
unfolding choose_by
choose_by-location config want false true n loc = refl
choose_by-location config want false false true loc = refl
choose_by-location config want false false false loc = refl
choose_by-location config want true f true loc = refl
choose_by-location config want true f false loc = refl

choose-location :
    (config : Config) (want : Bool) (loc : Location) → (choose config want loc).location ≡ loc
unfolding choose
choose-location config want loc =
    choose_by-location config want (is_named loc.name config.no_upgrade)
      (mem_text loc.file_name config.upgrade) (is_named loc.name config.no_compat) loc

yield_unless-single :
    (config : Config) (want : Bool) (P : Choice → Type 0) (applies kept : Bool) (c : Choice)
    → P c
    → All P (yield_unless config want applies kept c [])
unfolding yield_unless
yield_unless-single config want P false kept c p = tt
yield_unless-single config want P true true c p = tt
yield_unless-single config want P true false c p = (p, tt)

-- A choice for one location.
updatable-location :
    (config : Config) (want : Bool) (loc : Location)
    → All (λ c. c.location ≡ loc) (updatable config want (loc ∷ []))
unfolding updatable
updatable-location config want loc =
    yield_unless-single config want (λ c. c.location ≡ loc) loc.applies
      (mem_text loc.file_name config.keep_as_is) (choose config want loc)
      (choose-location config want loc)

module _ (vs : Versions) (parsers : Parsers vs) (show : Requirement → Text) where
  settle_latest-changes :
      (key shown lreq : Text) (lversion : Option Text) (plain : Text) (st : Suggested)
      → (settle_latest vs parsers show key shown lreq lversion plain st).changes ≡ st.changes
  unfolding settle_latest
  settle_latest-changes key shown lreq lversion plain st = elim (Bool-cases (text_eq shown plain)) [
    | inl e ↦ rw e refl
    | inr e ↦ elim (Bool-cases (mem_text key st.not_latest)) [
      | inl k ↦ rw (e, k) refl
      | inr k ↦ rw (e, k) refl
    ]
  ]

  note_latest-changes :
      (site : Site) (updates : Field → Option Text) (upgrade : Bool) (preq : Requirement)
      (st st1 : Suggested)
      → note_latest vs parsers show site updates upgrade preq st ≡ some st1
      → st1.changes ≡ st.changes
  unfolding note_latest
  note_latest-changes site updates upgrade preq st st1 h =
      elim (Option-cases (
        replace vs parsers (record { upgrade = upgrade; compat = false; latest = true })
          site.content updates)) [
            | inl e ↦ absurd (cc (rw e at h))
            | inr ((lreq, lversion), e) ↦ elim (Option-cases (parsers.requirement lreq)) [
              | inl k ↦ absurd (cc (rw (e, k) at h))
              | inr (plreq, k) ↦
                  let same : settle_latest vs parsers show (normalize plreq.name) (show plreq) lreq
                        lversion (show preq) st
                      ≡ st1 =
                    cc (rw (e, k) at h) in
                  ap (λ t. t.changes) (sym same)
                  ∙ settle_latest-changes (normalize plreq.name) (show plreq) lreq lversion
                      (show preq) st
            ]
          ]

  maybe_latest-changes :
      (site : Site) (updates : Field → Option Text) (choice : Choice) (preq : Requirement)
      (st st1 : Suggested)
      → maybe_latest vs parsers show site updates choice preq st ≡ some st1
      → st1.changes ≡ st.changes
  unfolding maybe_latest
  maybe_latest-changes site updates choice preq st st1 h =
      elim (Bool-cases (choice.compat && not (mem_text (normalize preq.name) st.not_latest))) [
        | inl e ↦ note_latest-changes site updates choice.upgrade preq st st1 (rw e at h)
        | inr e ↦ let same : st ≡ st1 = cc (rw e at h) in ap (λ t. t.changes) (sym same)
      ]

  -- What a change of a file is: some site in this file, with what was chosen for it, was replaced by
  -- the new text, which stands for another requirement.
  pub record IsSuggested (config : Config) (want : Bool) (infos : List Info) (file : Text)
      (c : Change) : Type 0 where
    pub info : Info
    pub site : Site
    pub choice : Choice
    pub req : Requirement
    pub in_infos : In info infos
    pub in_sites : In site info.sites
    pub at_site : choice.location ≡ site.place
    pub allowed : IsAllowed config want choice
    pub file_eq : file ≡ site.place.file_name
    pub old_eq : c.old ≡ site.content
    pub replaced :
        replace vs parsers
          (record { upgrade = choice.upgrade; compat = choice.compat; latest = false })
          site.content
          info.updates
        ≡ some (c.new, c.new_version)
    pub parses : parsers.requirement c.new ≡ some req
    pub is_new : text_eq (show req) site.shown ≡ false

  module _ (config : Config) (want : Bool) (infos : List Info) where
    abbrev AllGood : Suggested → Type 0
    AllGood st = AllChanges (IsSuggested config want infos) st.changes

    suggest_one-AllGood :
        (info : Info) (site : Site) (choice : Choice) (st st1 : Suggested)
        → In info infos
        → In site info.sites
        → choice.location ≡ site.place
        → IsAllowed config want choice
        → AllGood st
        → suggest_one vs parsers show site info.updates choice st ≡ some st1
        → AllGood st1
    unfolding suggest_one record_change
    suggest_one-AllGood info site choice st st1 i s l a g h =
        elim (Option-cases (
          replace vs parsers
            (record { upgrade = choice.upgrade; compat = choice.compat; latest = false })
            site.content info.updates)) [
              | inl e ↦ absurd (cc (rw e at h))
              | inr ((req, version), e) ↦ elim (Option-cases (parsers.requirement req)) [
                | inl k ↦ absurd (cc (rw (e, k) at h))
                | inr (preq, k) ↦
                    elim (Option-cases
                      (maybe_latest vs parsers show site info.updates choice preq st)) [
                        | inl m ↦ absurd (cc (rw (e, k, m) at h))
                        | inr (st2, m) ↦
                            let same : record_change vs parsers show site req version preq st2
                                ≡ st1 =
                              cc (rw (e, k, m) at h) in
                            let kept : AllGood st2 =
                              rw (maybe_latest-changes site info.updates choice preq st st2 m) g in
                            rw (sym same) (recorded req version preq st2 e k kept)
                      ]
              ]
            ]
      where
        recorded :
            (req : Text) (version : Option Text) (preq : Requirement) (st2 : Suggested)
            → replace vs parsers
                (record { upgrade = choice.upgrade; compat = choice.compat; latest = false })
                site.content
                info.updates
              ≡ some (req, version)
            → parsers.requirement req ≡ some preq
            → AllChanges (IsSuggested config want infos) st2.changes
            → AllChanges
                (IsSuggested config want infos)
                (record_change vs parsers show site req version preq st2).changes
        recorded req version preq st2 e k kept =
            elim (Bool-cases (text_eq (show preq) site.shown)) [
              | inl t ↦ rw t kept
              | inr t ↦ rw t (
                  append_change-All (IsSuggested config want infos) site.place.file_name
                    (record { new_version = version; new = req; old = site.content }) st2.changes
                    (record {
                      info = info;
                      site = site;
                      choice = choice;
                      req = preq;
                      in_infos = i;
                      in_sites = s;
                      at_site = l;
                      allowed = a;
                      file_eq = refl;
                      old_eq = refl;
                      replaced = e;
                      parses = k;
                      is_new = t;
                    })
                    kept)
            ]

    suggest_choices-AllGood :
        (info : Info) (site : Site) (choices : List Choice) (st st1 : Suggested)
        → In info infos
        → In site info.sites
        → All (λ c. c.location ≡ site.place) choices
        → All (IsAllowed config want) choices
        → AllGood st
        → suggest_choices vs parsers show site info.updates choices st ≡ some st1
        → AllGood st1
    unfolding suggest_choices
    suggest_choices-AllGood info site [] st st1 i s l a g h =
        let same : st ≡ st1 = cc in rw (sym same) g
    suggest_choices-AllGood info site (c ∷ choices) st st1 i s (l, ls) (a, oks) g h =
        elim (Option-cases (suggest_one vs parsers show site info.updates c st)) [
          | inl e ↦ absurd (cc (rw e at h))
          | inr (st2, e) ↦
              suggest_choices-AllGood info site choices st2 st1 i s ls oks
                (suggest_one-AllGood info site c st st2 i s l a g e) (rw e at h)
        ]

    suggest_sites-AllGood :
        (info : Info) (sites : List Site) (st st1 : Suggested)
        → In info infos
        → Within sites info.sites
        → AllGood st
        → suggest_sites vs parsers show config want info.updates sites st ≡ some st1
        → AllGood st1
    unfolding suggest_sites
    suggest_sites-AllGood info [] st st1 i w g h = let same : st ≡ st1 = cc in rw (sym same) g
    suggest_sites-AllGood info (site ∷ sites) st st1 i (s, w) g h =
        elim (Option-cases (
          suggest_choices vs parsers show site info.updates
            (updatable config want (site.place ∷ [])) st)) [
              | inl e ↦ absurd (cc (rw e at h))
              | inr (st2, e) ↦
                  suggest_sites-AllGood info sites st2 st1 i w
                    (suggest_choices-AllGood info site (updatable config want (site.place ∷ [])) st
                      st2 i s (updatable-location config want site.place)
                      (updatable-IsAllowed config want (site.place ∷ [])) g e)
                    (rw e at h)
            ]

    suggest_infos-AllGood :
        (rest : List Info) (st st1 : Suggested)
        → Within rest infos
        → AllGood st
        → suggest_infos vs parsers show config want rest st ≡ some st1
        → AllGood st1
    unfolding suggest_infos
    suggest_infos-AllGood [] st st1 w g h = let same : st ≡ st1 = cc in rw (sym same) g
    suggest_infos-AllGood (info ∷ rest) st st1 (i, w) g h =
        elim (Option-cases (suggest_sites vs parsers show config want info.updates info.sites st)) [
          | inl e ↦ absurd (cc (rw e at h))
          | inr (st2, e) ↦
              suggest_infos-AllGood rest st2 st1 w
                (suggest_sites-AllGood info info.sites st st2 i (Within-refl info.sites) g e)
                (rw e at h)
        ]

    -- Every change that `suggest_updates` records, when it returns, is a change at one of its sites:
    -- it stands under the file of the site, its old text is that of the site and its new one is what
    -- `replace` makes of that with a choice that the configuration allows, and the requirement that
    -- the new text stands for differs from that of the site.
    pub suggest-IsSuggested :
        (no_latest : List Text) (st : Suggested)
        → suggest vs parsers show config want no_latest infos ≡ some st
        → AllChanges (IsSuggested config want infos) st.changes
    unfolding suggest
    suggest-IsSuggested no_latest st h =
        suggest_infos-AllGood infos
          (record { changes = []; latest = []; not_latest = map normalize no_latest }) st
          (Within-refl infos) tt h
