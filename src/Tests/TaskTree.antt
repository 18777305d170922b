-- ===== src/Tests/TaskTree.antt =====
-- Two modules with tasks of tasks/_inv/tasks.py, one task in both.
use cdbx.Base.{ℕ, ◌≡◌, refl, true, List, [], ◌∷◌, some, none, codes, All}
use cdbx.TaskTree.{
  Task, by_text, task, Module, Tree, build_tree, bare, execute, optional, module_name,
}
use cdbx.TaskTree.Answers.{ResolvedAt}
use cdbx.TaskTree.Repaired.{Registered, Listed, build_tree-ResolvedAt}

abbrev doc : Task
doc = record { name = codes "doc"; pre = []; post = [] }

abbrev store : List Task
store =
    doc
    ∷ record {
      name = codes "dist";
      pre = by_text (codes "doc.doc") ∷ [];
      post = by_text (codes "clean") ∷ task 0 ∷ [];
    }
    ∷ record { name = codes "clean"; pre = []; post = [] }
    ∷ []

abbrev modules : List Module
modules =
    record { namespace = none; qualified = codes "tasks.doc"; items = 0 ∷ [] }
    ∷ record {
      namespace = some (codes "build");
      qualified = codes "tasks.build_";
      items = 1 ∷ 2 ∷ 0 ∷ [];
    }
    ∷ []

abbrev tree : Tree
tree = record {
  space =
      (codes "doc", (codes "doc", 0) ∷ [])
      ∷ (codes "build", (codes "dist", 1) ∷ (codes "clean", 2) ∷ (codes "doc", 0) ∷ [])
      ∷ [];
  store =
      doc
      ∷ record { name = codes "dist"; pre = task 0 ∷ []; post = task 2 ∷ task 0 ∷ [] }
      ∷ record { name = codes "clean"; pre = []; post = [] }
      ∷ [];
}

built : build_tree 5 modules store ≡ some tree
unfolding build_tree
built = refl

one_call :
    execute {K = ℕ} (bare (codes "clean.so") ∷ []) (1 ∷ []) ≡ some ((codes "clean.so", 1 ∷ []) ∷ [])
unfolding execute
one_call = refl

collected : optional (some []) (some true) (codes "black") ≡ (true, some (codes "black" ∷ []))
unfolding optional
collected = refl

nested_module :
    module_name (λ dirs. true) (codes "deps" ∷ []) (codes "tasks.py") ≡ some (codes "deps.tasks")
unfolding module_name
nested_module = refl

build_tree-ResolvedAt_example :
    All
      (λ m.
        All
          (λ t. ResolvedAt (Registered 5 modules store) (Listed 5 modules store) t store tree.store)
          m.items)
      modules
build_tree-ResolvedAt_example = build_tree-ResolvedAt 5 modules store tree built
