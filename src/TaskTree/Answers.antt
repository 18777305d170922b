-- ===== src/TaskTree/Answers.antt =====
-- What the repair at the end of `setup_tasks` makes of the entries of a task: the answers to them,
-- and how the repair of one task keeps those of the others.
use cdbx.Base.{
  ℕ, zero, suc, ◌≡◌, ◌⊎◌, inl, inr, refl, sym, ap, false, List, [], ◌∷◌, ◌++◌, none, some, Text,
  All, Option-cases, Bool-cases, ◌==◌, arith,
}
use cdbx.TaskTree.{
  Dep, by_text, task, Task, Space, rsplit_dot, task_at, find_task, resolve_deps, repair_task,
  repair_at, repair,
}

-- A member of a list.
abbrev pub In : {A : Type 0} → A → List A → Type 0
In x [] = ⊥
In x (y ∷ ys) = (y ≡ x) ⊎ In x ys

pub All-In : {A : Type 0} (P : A → Type 0) (xs : List A) → ((x : A) → In x xs → P x) → All P xs
All-In P [] f = tt
All-In P (x ∷ xs) f = (f x (inl refl), All-In P xs (λ y h. f y (inr h)))

abbrev pub HasNoDot : Text → Type 0
HasNoDot = All (λ c. (c == b'.') ≡ false)

rsplit_dot-none : (d : Text) → rsplit_dot d ≡ none → HasNoDot d
unfolding rsplit_dot
rsplit_dot-none [] h = tt
rsplit_dot-none (c ∷ s) h = elim (Option-cases (rsplit_dot s)) [
  | inl e ↦ elim (Bool-cases (c == b'.')) [
    | inl k ↦ absurd (cc (rw (e, k) at h))
    | inr k ↦ (k, rsplit_dot-none s e)
  ]
  | inr ((before, behind), e) ↦ absurd (cc (rw e at h))
]

-- A text that is split at its last dot.
abbrev pub IsSplit : Text → Text → Text → Type 0
IsSplit d before behind = (d ≡ before ++ b'.' ∷ behind) × HasNoDot behind

rsplit_dot-IsSplit :
    (d before behind : Text) → rsplit_dot d ≡ some (before, behind) → IsSplit d before behind
unfolding rsplit_dot
rsplit_dot-IsSplit [] before behind h = absurd (cc h)
rsplit_dot-IsSplit (c ∷ s) before behind h = elim (Option-cases (rsplit_dot s)) [
  | inl e ↦ elim (Bool-cases (c == b'.')) [
    | inl k ↦
        let first : [] ≡ before = cc (rw (e, k) at h) in
        let last : s ≡ behind = cc (rw (e, k) at h) in
        let dot : c ≡ b'.' = ground arith in
        rw (sym first, sym last, dot) (refl, rsplit_dot-none s e)
    | inr k ↦ absurd (cc (rw (e, k) at h))
  ]
  | inr ((b, l), e) ↦
      let first : c ∷ b ≡ before = cc (rw e at h) in
      let last : l ≡ behind = cc (rw e at h) in
      let (joined, no_dot) = rsplit_dot-IsSplit s b l e in
      rw (sym first, sym last) (ap (◌∷◌ c) joined, no_dot)
]

module _ (Registered : Text → Text → ℕ → Type 0) where
  -- What stands for a task before or after another one of the namespace `name`: a task object for
  -- itself; for a text with no dot the task with this name of the same namespace; for any other
  -- text the task of the namespace in front of the last dot whose name stands behind it.
  abbrev pub Answers : Text → Dep → Dep → Type 0
  Answers name (task t) e = e ≡ task t
  Answers name (by_text d) e =
      (u : ℕ) × (e ≡ task u)
      × ((HasNoDot d × Registered name d u)
          ⊎ ((s : Text) × ((l : Text) × (IsSplit d s l × Registered s l u))))

  abbrev pub AllAnswer : Text → List Dep → List Dep → Type 0
  AllAnswer name [] [] = Unit
  AllAnswer name [] (e ∷ es) = ⊥
  AllAnswer name (d ∷ ds) [] = ⊥
  AllAnswer name (d ∷ ds) (e ∷ es) = Answers name d e × AllAnswer name ds es

  -- A task whose names in `pre` and `post` are resolved, seen from one of its namespaces.
  pub record IsResolved (Owns : Text → Type 0) (a b : Task) : Type 0 where
    pub namespace : Text
    pub owned : Owns namespace
    pub name_eq : b.name ≡ a.name
    pub pre : AllAnswer namespace a.pre b.pre
    pub post : AllAnswer namespace a.post b.post

  -- The task at a place is resolved; `owns` says which namespaces have the task at a place.
  abbrev pub ResolvedAt : (ℕ → Text → Type 0) → ℕ → List Task → List Task → Type 0
  ResolvedAt owns t [] now = ⊥
  ResolvedAt owns t (a ∷ store) [] = ⊥
  ResolvedAt owns zero (a ∷ store) (b ∷ now) = IsResolved (owns 0) a b
  ResolvedAt owns (suc t) (a ∷ store) (b ∷ now) = ResolvedAt (λ n. owns (suc n)) t store now

  -- During the repair a task is as it was, or resolved.
  abbrev pub Stage : (ℕ → Text → Type 0) → List Task → List Task → Type 0
  Stage owns [] [] = Unit
  Stage owns [] (b ∷ now) = ⊥
  Stage owns (a ∷ store) [] = ⊥
  Stage owns (a ∷ store) (b ∷ now) =
      ((a ≡ b) ⊎ IsResolved (owns 0) a b) × Stage (λ n. owns (suc n)) store now

  pub Stage-refl : (owns : ℕ → Text → Type 0) (store : List Task) → Stage owns store store
  Stage-refl owns [] = tt
  Stage-refl owns (a ∷ store) = (inl refl, Stage-refl (λ n. owns (suc n)) store)

  -- One repair: the stage is kept, the task at the place is resolved, and what was stays so.
  record Repairs (owns : ℕ → Text → Type 0) (t : ℕ) (store now next : List Task) : Type 0 where
    stage : Stage owns store next
    resolved : ResolvedAt owns t store next
    kept : (u : ℕ) → ResolvedAt owns u store now → ResolvedAt owns u store next

module _ (Registered : Text → Text → ℕ → Type 0) (space : Space)
    (sound : (s l : Text) (u : ℕ) → task_at s l space ≡ some u → Registered s l u) where
  find_task-Answers :
      (name d : Text) (u : ℕ)
      → find_task name d (rsplit_dot d) space ≡ some u
      → Answers Registered name (by_text d) (task u)
  unfolding find_task
  find_task-Answers name d u h = elim (Option-cases (rsplit_dot d)) [
    | inl e ↦ (u, refl, inl (rsplit_dot-none d e, sound name d u (rw e at h)))
    | inr ((s, l), e) ↦
        (u, refl, inr (s, (l, (rsplit_dot-IsSplit d s l e, sound s l u (rw e at h)))))
  ]

  resolve_deps-AllAnswer :
      (name : Text) (ds es : List Dep)
      → resolve_deps name space ds ≡ some es
      → AllAnswer Registered name ds es
  unfolding resolve_deps
  resolve_deps-AllAnswer name [] [] h = tt
  resolve_deps-AllAnswer name [] (e ∷ es) h = absurd (cc)
  resolve_deps-AllAnswer name (task t ∷ ds) es h =
      elim (Option-cases (resolve_deps name space ds)) [
        | inl e ↦ absurd (cc (rw e at h))
        | inr (rest, e) ↦
            let same : task t ∷ rest ≡ es = cc (rw e at h) in
            rw (sym same) (refl, resolve_deps-AllAnswer name ds rest e)
      ]
  resolve_deps-AllAnswer name (by_text d ∷ ds) es h =
      elim (Option-cases (find_task name d (rsplit_dot d) space)) [
        | inl e ↦ absurd (cc (rw e at h))
        | inr (u, e) ↦ elim (Option-cases (resolve_deps name space ds)) [
          | inl k ↦ absurd (cc (rw (e, k) at h))
          | inr (rest, k) ↦
              let same : task u ∷ rest ≡ es = cc (rw (e, k) at h) in
              rw (sym same) (find_task-Answers name d u e, resolve_deps-AllAnswer name ds rest k)
        ]
      ]

  -- Answers are resolved already.
  resolve_deps-answers :
      (name other : Text) (ds es : List Dep)
      → AllAnswer Registered other ds es
      → resolve_deps name space es ≡ some es
  unfolding resolve_deps
  resolve_deps-answers name other [] [] h = refl
  resolve_deps-answers name other [] (e ∷ es) h = absurd h
  resolve_deps-answers name other (d ∷ ds) [] h = absurd h
  resolve_deps-answers name other (task t ∷ ds) (e ∷ es) (a, h) =
      rw (a, resolve_deps-answers name other ds es h) refl
  resolve_deps-answers name other (by_text d ∷ ds) (e ∷ es) ((u, a, found), h) =
      rw (a, resolve_deps-answers name other ds es h) refl

  repair_task-IsResolved :
      (Owns : Text → Type 0) (name : Text) (a b : Task)
      → Owns name
      → repair_task name space a ≡ some b
      → IsResolved Registered Owns a b
  unfolding repair_task
  repair_task-IsResolved Owns name a b o h = elim (Option-cases (resolve_deps name space a.pre)) [
    | inl e ↦ absurd (cc (rw e at h))
    | inr (before, e) ↦ elim (Option-cases (resolve_deps name space a.post)) [
      | inl k ↦ absurd (cc (rw (e, k) at h))
      | inr (after, k) ↦
          let same : record a { pre = before; post = after } ≡ b = cc (rw (e, k) at h) in
          rw (sym same) (record {
            namespace = name;
            owned = o;
            name_eq = refl;
            pre = resolve_deps-AllAnswer name a.pre before e;
            post = resolve_deps-AllAnswer name a.post after k;
          })
    ]
  ]

  repair_task-resolved :
      (Owns : Text → Type 0) (name : Text) (a b : Task)
      → IsResolved Registered Owns a b
      → repair_task name space b ≡ some b
  unfolding repair_task
  repair_task-resolved Owns name a b r =
      rw
        (
          resolve_deps-answers name r.namespace a.pre b.pre r.pre,
          resolve_deps-answers name r.namespace a.post b.post r.post,
        )
        refl

  repair_task-stage :
      (Owns : Text → Type 0) (name : Text) (a b c : Task)
      → Owns name
      → (a ≡ b) ⊎ IsResolved Registered Owns a b
      → repair_task name space b ≡ some c
      → IsResolved Registered Owns a c
  repair_task-stage Owns name a b c o (inl e) h = repair_task-IsResolved Owns name a c o (rw e h)
  repair_task-stage Owns name a b c o (inr r) h =
      let same : b ≡ c = cc (repair_task-resolved Owns name a b r) in rw (sym same) r

  repair_at-Repairs :
      (owns : ℕ → Text → Type 0) (name : Text) (t : ℕ) (store now next : List Task)
      → owns t name
      → Stage Registered owns store now
      → repair_at name space t now ≡ some next
      → Repairs Registered owns t store now next
  unfolding repair_at
  repair_at-Repairs owns name t [] [] next o s h = absurd (cc)
  repair_at-Repairs owns name t [] (b ∷ now) next o s h = absurd s
  repair_at-Repairs owns name t (a ∷ store) [] next o s h = absurd s
  repair_at-Repairs owns name zero (a ∷ store) (b ∷ now) next o (s, ss) h =
      elim (Option-cases (repair_task name space b)) [
        | inl e ↦ absurd (cc (rw e at h))
        | inr (c, e) ↦
            let same : c ∷ now ≡ next = cc (rw e at h) in
            let done = repair_task-stage (owns 0) name a b c o s e in
            rw (sym same) (record { stage = (inr done, ss); resolved = done; kept = keep c done })
      ]
    where
      keep :
          (c : Task)
          → IsResolved Registered (owns 0) a c
          → (u : ℕ) → ResolvedAt Registered owns u (a ∷ store) (b ∷ now)
          → ResolvedAt Registered owns u (a ∷ store) (c ∷ now)
      keep c done zero r = done
      keep c done (suc u) r = r
  repair_at-Repairs owns name (suc t) (a ∷ store) (b ∷ now) next o (s, ss) h =
      elim (Option-cases (repair_at name space t now)) [
        | inl e ↦ absurd (cc (rw e at h))
        | inr (rest, e) ↦
            let same : b ∷ rest ≡ next = cc (rw e at h) in
            let done = repair_at-Repairs (λ n. owns (suc n)) name t store now rest o ss e in
            rw (sym same) (record {
              stage = (s, done.stage);
              resolved = done.resolved;
              kept = keep rest done.kept;
            })
      ]
    where
      keep :
          (rest : List Task)
          → ((u : ℕ)
              → ResolvedAt Registered (λ n. owns (suc n)) u store now
              → ResolvedAt Registered (λ n. owns (suc n)) u store rest)
          → (u : ℕ) → ResolvedAt Registered owns u (a ∷ store) (b ∷ now)
          → ResolvedAt Registered owns u (a ∷ store) (b ∷ rest)
      keep rest k zero r = r
      keep rest k (suc u) r = k u r

  pub repair-All :
      (owns : ℕ → Text → Type 0) (torepair : List (Text × ℕ)) (store now final : List Task)
      → All (λ p. owns p.1 p.0) torepair
      → Stage Registered owns store now
      → repair space torepair now ≡ some final
      → All (λ p. ResolvedAt Registered owns p.1 store final) torepair
        × ((u : ℕ)
            → ResolvedAt Registered owns u store now
            → ResolvedAt Registered owns u store final)
  unfolding repair
  repair-All owns [] store now final o s h =
      let same : now ≡ final = cc in rw (sym same) (tt, λ u r. r)
  repair-All owns ((name, t) ∷ torepair) store now final (o, os) s h =
      elim (Option-cases (repair_at name space t now)) [
        | inl e ↦ absurd (cc (rw e at h))
        | inr (next, e) ↦
            let first = repair_at-Repairs owns name t store now next o s e in
            let (rest, kept) =
              repair-All owns torepair store next final os first.stage (rw e at h) in
            ((kept t first.resolved, rest), λ u r. kept u (first.kept u r))
      ]
