-- ===== src/TaskTree/Repaired.antt =====
-- What the repair at the end of `setup_tasks` makes of the tasks before and after others.
use mathlib.Core.Path.{subst}
use cdbx.Base.{
  ℕ, ◌≡◌, inl, inr, refl, sym, ap, List, [], ◌∷◌, ◌++◌, none, some, Text, All, Option-cases,
  Bool-cases, text_eq, text_eq_iff,
}
use cdbx.Inspection.{dict_put, dict_get}
use cdbx.TaskTree.{
  Task, Module, Space, space_name, Collected, collect_items, collect_modules, name_at, add_task,
  tasks_in, task_at, repair, Tree, build_tree,
}
use cdbx.TaskTree.Answers.{In, All-In, ResolvedAt, Stage-refl, repair-All}

dict_get-All :
    {A : Type 0} (P : Text → A → Type 0) (k : Text) (d : List (Text × A)) (v : A)
    → All (λ p. P p.0 p.1) d
    → dict_get k d ≡ some v
    → P k v
unfolding dict_get
dict_get-All P k [] v a h = absurd (cc h)
dict_get-All P k ((j, w) ∷ d) v (p, a) h = elim (Bool-cases (text_eq j k)) [
  | inl e ↦
      let same : j ≡ k = (text_eq_iff j k).0 e in
      let value : w ≡ v = cc (rw e at h) in rw (sym same, sym value) p
  | inr e ↦ dict_get-All P k d v a (rw e at h)
]

dict_put-All :
    {A : Type 0} (P : Text → A → Type 0) (k : Text) (v : A) (d : List (Text × A))
    → P k v
    → All (λ p. P p.0 p.1) d
    → All (λ p. P p.0 p.1) (dict_put k v d)
unfolding dict_put
dict_put-All P k v [] h a = (h, tt)
dict_put-All P k v ((j, w) ∷ d) h (p, a) = elim (Bool-cases (text_eq j k)) [
  | inl e ↦ let same : j ≡ k = (text_eq_iff j k).0 e in rw e (rw same h, a)
  | inr e ↦ rw e (p, dict_put-All P k v d h a)
]

All-append : {A : Type 0} (P : A → Type 0) (xs ys : List A) → All P xs → All P ys → All P (xs ++ ys)
All-append P [] ys h k = k
All-append P (x ∷ xs) ys (p, h) k = (p, All-append P xs ys h k)

All-split : {A : Type 0} (P : A → Type 0) (xs ys : List A) → All P (xs ++ ys) → All P xs × All P ys
All-split P [] ys h = (tt, h)
All-split P (x ∷ xs) ys (p, h) = let (hx, hy) = All-split P xs ys h in ((p, hx), hy)

module _ (P : ℕ → Type 0) (store : List Task) where
  abbrev Everything : Collected → Type 0
  Everything c = All (λ p. P p.1) c.torepair

  collect_items-All :
      (name : Text) (items : List ℕ) (c : Collected)
      → Everything (collect_items store name items c)
      → All P items × Everything c
  unfolding collect_items
  collect_items-All name [] c h = (tt, h)
  collect_items-All name (t ∷ items) c h =
      let (rest, here) =
        collect_items-All name items
          (record {
            torepair = c.torepair ++ (name, t) ∷ [];
            space = add_task name (name_at store t) t c.space;
          })
          h in
      let (before, one) = All-split (λ p. P p.1) c.torepair ((name, t) ∷ []) here in
      ((one.0, rest), before)

  collect_modules-All :
      (pkg_length : ℕ) (modules : List Module) (c : Collected)
      → Everything (collect_modules store pkg_length modules c)
      → All (λ m. All P m.items) modules × Everything c
  unfolding collect_modules
  collect_modules-All pkg_length [] c h = (tt, h)
  collect_modules-All pkg_length (m ∷ modules) c h =
      let (rest, here) =
        collect_modules-All pkg_length modules
          (collect_items store (space_name pkg_length m) m.items c) h in
      let (items, before) = collect_items-All (space_name pkg_length m) m.items c here in
      ((items, rest), before)

module _ (pkg_length : ℕ) (modules : List Module) (store : List Task) where
  -- A module of the namespace has the task.
  abbrev pub Listed : ℕ → Text → Type 0
  Listed t name = (m : Module) × (In m modules × (space_name pkg_length m ≡ name) × In t m.items)

  -- A module of the namespace has the task, whose name is this.
  abbrev pub Registered : Text → Text → ℕ → Type 0
  Registered s l u = Listed u s × (name_at store u ≡ l)

  abbrev IsGood : Collected → Type 0
  IsGood c =
      All (λ p. Listed p.1 p.0) c.torepair
      × All (λ p. All (λ q. Registered p.0 q.0 q.1) p.1) c.space

  tasks_in-All :
      (s : Text) (space : Space)
      → All (λ p. All (λ q. Registered p.0 q.0 q.1) p.1) space
      → All (λ q. Registered s q.0 q.1) (tasks_in s space)
  tasks_in-All s space h = elim (Option-cases (dict_get s space)) [
    | inl e ↦
        let same : tasks_in s space ≡ [] =
          unfold tasks_in in ap (λ o. elim o [ none ↦ [] | some ts ↦ ts ]) e in
        subst (All (λ q. Registered s q.0 q.1)) (sym same) tt
    | inr (tasks, e) ↦
        let same : tasks_in s space ≡ tasks =
          unfold tasks_in in ap (λ o. elim o [ none ↦ [] | some ts ↦ ts ]) e in
        subst (All (λ q. Registered s q.0 q.1)) (sym same)
          (dict_get-All (λ n ts. All (λ q. Registered n q.0 q.1) ts) s space tasks h e)
  ]

  task_at-Registered :
      (space : Space)
      → All (λ p. All (λ q. Registered p.0 q.0 q.1) p.1) space
      → (s l : Text) (u : ℕ) → task_at s l space ≡ some u
      → Registered s l u
  unfolding task_at
  task_at-Registered space h s l u e =
      dict_get-All (λ n t. Registered s n t) l (tasks_in s space) u (tasks_in-All s space h) e

  collect_items-IsGood :
      (name : Text) (items : List ℕ) (c : Collected)
      → All (λ t. Listed t name) items
      → IsGood c
      → IsGood (collect_items store name items c)
  unfolding collect_items add_task
  collect_items-IsGood name [] c a h = h
  collect_items-IsGood name (t ∷ items) c (o, a) (hr, hs) =
      collect_items-IsGood name items
        (record {
          torepair = c.torepair ++ (name, t) ∷ [];
          space = add_task name (name_at store t) t c.space;
        })
        a
        (
          All-append (λ p. Listed p.1 p.0) c.torepair ((name, t) ∷ []) hr (o, tt),
          dict_put-All (λ n ts. All (λ q. Registered n q.0 q.1) ts) name
              (dict_put (name_at store t) t (tasks_in name c.space)) c.space
              (dict_put-All (λ n u. Registered name n u) (name_at store t) t (tasks_in name c.space)
                (o, refl) (tasks_in-All name c.space hs))
              hs,
        )

  collect_modules-IsGood :
      (ms : List Module) (c : Collected)
      → All (λ m. All (λ t. Listed t (space_name pkg_length m)) m.items) ms
      → IsGood c
      → IsGood (collect_modules store pkg_length ms c)
  unfolding collect_modules
  collect_modules-IsGood [] c a h = h
  collect_modules-IsGood (m ∷ ms) c (o, a) h =
      collect_modules-IsGood ms (collect_items store (space_name pkg_length m) m.items c) a
        (collect_items-IsGood (space_name pkg_length m) m.items c o h)

  All-Listed : All (λ m. All (λ t. Listed t (space_name pkg_length m)) m.items) modules
  All-Listed =
      All-In (λ m. All (λ t. Listed t (space_name pkg_length m)) m.items) modules
        (λ m i. All-In (λ t. Listed t (space_name pkg_length m)) m.items (λ t j. (m, (i, refl, j))))

  -- If `setup_tasks` finds all names, then every task of every module keeps its name, and each entry
  -- of its `pre` and `post` is answered in its place: a task object by itself, a text with no dot by
  -- a task of this name that a module of the task's own namespace has, any other text by a task
  -- that a module of the namespace in front of the last dot has and whose name stands behind it. A
  -- task that several modules share is answered within the namespace of one of them.
  pub build_tree-ResolvedAt :
      (tree : Tree)
      → build_tree pkg_length modules store ≡ some tree
      → All (λ m. All (λ t. ResolvedAt Registered Listed t store tree.store) m.items) modules
  unfolding build_tree
  build_tree-ResolvedAt tree h =
      let start : Collected = record { torepair = []; space = [] } in
      let collected : Collected = collect_modules store pkg_length modules start in
      let (hr, hs) = collect_modules-IsGood modules start All-Listed (tt, tt) in
      elim (Option-cases (repair collected.space collected.torepair store)) [
        | inl e ↦ absurd (cc (rw e at h))
        | inr (final, e) ↦
            let built : Tree = record { space = collected.space; store = final } in
            let same : built ≡ tree = cc (rw e at h) in
            let (resolved, kept) =
              repair-All Registered collected.space (task_at-Registered collected.space hs) Listed
                collected.torepair store store final hr (Stage-refl Registered Listed store) e in
            let (all, earlier) =
              collect_modules-All (λ t. ResolvedAt Registered Listed t store final) store pkg_length
                modules start resolved in
            rw (sym same) all
      ]
