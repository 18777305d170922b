-- ===== src/TaskTree.antt =====
-- tasks/_inv/tasks.py: the modules with tasks, their names, the
-- tasks that run before and after others, and how tasks are called. Modules are imported by Python,
-- and tasks and collections are of another package.
pub mod Answers
pub mod Repaired
use cdbx.Base.{
  ℕ, zero, suc, ◌+◌, ◌-◌, Bool, true, false, not, ◌&&◌, ◌||◌, List, [], ◌∷◌, ◌++◌, map, Option,
  none, some, Text, codes, ◌==◌, if◌then◌else◌, starts_with, is_lower, is_upper, is_digit, all, any,
  text_eq, drop, length, get_elem?, join,
}
use mathlib.Core.List.{reverse}
use cdbx.Shell.Format.{◌>>=◌}
use cdbx.Inspection.{dict_put, dict_get}
use cdbx.Setup.{but_last}
use cdbx.Wheels.Tags.{ends_with}

-- A task before or after another: a name, or a task object, by its place in the store.
pub data Dep : Type 0 where
  by_text : Text → Dep
  task : ℕ → Dep

-- The attributes of a task that the code uses.
pub record Task : Type 0 where
  pub name : Text
  pub pre : List Dep
  pub post : List Dep

-- A module: `NAMESPACE`, its name, and the tasks among its values; two modules may share a task.
pub record Module : Type 0 where
  pub namespace : Option Text
  pub qualified : Text
  pub items : List ℕ

-- `space`
abbrev pub Space : Type 0
Space = List (Text × List (Text × ℕ))

-- `name`, of which the package and a dot are cut off
unfoldable pub space_name : ℕ → Module → Text
space_name pkg_length m = elim m.namespace [
  | none ↦ drop (pkg_length + 1) m.qualified
  | some n ↦ if text_eq n [] then drop (pkg_length + 1) m.qualified else n
]

-- `space[name]`, of a `defaultdict`
unfoldable pub tasks_in : Text → Space → List (Text × ℕ)
unfolding dict_get
tasks_in name space = elim (dict_get name space) [ none ↦ [] | some tasks ↦ tasks ]

-- `space[name][item.name] = item`
unfoldable pub add_task : Text → Text → ℕ → Space → Space
unfolding dict_put tasks_in
add_task name task_name t space = dict_put name (dict_put task_name t (tasks_in name space)) space

-- `torepair` and `space`
pub record Collected : Type 0 where
  pub torepair : List (Text × ℕ)
  pub space : Space

unfoldable pub name_at : List Task → ℕ → Text
name_at store t = elim (get_elem? store t) [ none ↦ [] | some a ↦ a.name ]

unfoldable pub collect_items : List Task → Text → List ℕ → Collected → Collected
unfolding add_task name_at
collect_items store name [] c = c
collect_items store name (t ∷ items) c = collect_items store name items (record {
  torepair = c.torepair ++ (name, t) ∷ [];
  space = add_task name (name_at store t) t c.space;
})

unfoldable pub collect_modules : List Task → ℕ → List Module → Collected → Collected
unfolding collect_items space_name
collect_modules store pkg_length [] c = c
collect_modules store pkg_length (m ∷ modules) c =
    collect_modules store pkg_length modules
      (collect_items store (space_name pkg_length m) m.items c)

-- `depspace, dep = dep.rsplit(".", 1)`, if there is a dot
unfoldable pub rsplit_dot : Text → Option (Text × Text)
rsplit_dot [] = none
rsplit_dot (c ∷ s) = elim (rsplit_dot s) [
  | some (before, behind) ↦ some (c ∷ before, behind)
  | none ↦ if c == b'.' then some ([], s) else none
]

-- `space[depspace][dep]`; a namespace that is missing is made, and has no task.
unfoldable pub task_at : Text → Text → Space → Option ℕ
unfolding dict_get tasks_in
task_at depspace dep space = dict_get dep (tasks_in depspace space)

unfoldable pub find_task : Text → Text → Option (Text × Text) → Space → Option ℕ
unfolding task_at
find_task name dep none space = task_at name dep space
find_task name dep (some (depspace, last)) space = task_at depspace last space

-- The inner loop of the repair, for `pre` or for `post`; `none` is a `KeyError`.
unfoldable pub resolve_deps : Text → Space → List Dep → Option (List Dep)
unfolding find_task rsplit_dot
resolve_deps name space [] = some []
resolve_deps name space (task t ∷ deps) =
    resolve_deps name space deps >>= λ rest. some (task t ∷ rest)
resolve_deps name space (by_text dep ∷ deps) = find_task name dep (rsplit_dot dep) space >>= λ t.
    resolve_deps name space deps >>= λ rest. some (task t ∷ rest)

unfoldable pub repair_task : Text → Space → Task → Option Task
unfolding resolve_deps
repair_task name space a = resolve_deps name space a.pre >>= λ before.
    resolve_deps name space a.post >>= λ after. some (record a { pre = before; post = after })

-- `setattr` on a task of the store
unfoldable pub repair_at : Text → Space → ℕ → List Task → Option (List Task)
unfolding repair_task
repair_at name space t [] = none
repair_at name space zero (a ∷ store) = repair_task name space a >>= λ b. some (b ∷ store)
repair_at name space (suc t) (a ∷ store) = repair_at name space t store >>= λ rest. some (a ∷ rest)

unfoldable pub repair : Space → List (Text × ℕ) → List Task → Option (List Task)
unfolding repair_at
repair space [] store = some store
repair space ((name, t) ∷ torepair) store =
    repair_at name space t store >>= λ next. repair space torepair next

-- `_TASKS`: the tasks by namespace, and the store behind them.
pub record Tree : Type 0 where
  pub space : Space
  pub store : List Task

unfoldable pub build_tree : ℕ → List Module → List Task → Option Tree
unfolding collect_modules repair
build_tree pkg_length modules store =
    let c = collect_modules store pkg_length modules (record { torepair = []; space = [] }) in
    repair c.space c.torepair store >>= λ repaired.
    some (record { space = c.space; store = repaired })

-- `setup_tasks(env)`, which keeps its first result.
unfoldable pub setup_tasks : ℕ → List Module → List Task → Option Tree → Option Tree
unfolding build_tree
setup_tasks pkg_length modules store (some tree) = some tree
setup_tasks pkg_length modules store none = build_tree pkg_length modules store

-- An argument of `execute`.
pub data Invocation (K : Type 0) : Type 0 where
  bare : Text → Invocation K
  with_kwargs : Text → List K → Invocation K

module _ {K : Type 0} where
  unfoldable pub as_pair : Invocation K → Text × List K
  as_pair (bare name) = (name, [])
  as_pair (with_kwargs name kwargs) = (name, kwargs)

  -- `execute(ctx, *tasks, **kwargs)`: what the executor is given; `none` is an `AssertionError`.
  unfoldable pub several : List (Invocation K) → List K → Option (List (Text × List K))
  unfolding as_pair
  several tasks [] = some (map as_pair tasks)
  several tasks (k ∷ kwargs) = none

  unfoldable pub execute : List (Invocation K) → List K → Option (List (Text × List K))
  unfolding several
  execute (bare name ∷ []) kwargs = some ((name, kwargs) ∷ [])
  execute (with_kwargs name given ∷ []) kwargs = several (with_kwargs name given ∷ []) kwargs
  execute (first ∷ second ∷ tasks) kwargs = several (first ∷ second ∷ tasks) kwargs
  execute [] kwargs = several [] kwargs

-- `optional(collection, featureflag)` on a task of the given name: whether it returns the task, and
-- the collection behind that. A flag is the value that the function returns.
unfoldable pub optional : Option (List Text) → Option Bool → Text → Bool × Option (List Text)
optional none none name = (false, none)
optional (some []) none name = (false, some [])
optional (some (c ∷ collection)) none name = (true, some (c ∷ collection))
optional collection (some false) name = (false, collection)
optional none (some true) name = (true, none)
optional (some collection) (some true) name = (true, some (collection ++ name ∷ []))

-- `[a-zA-Z_]+[a-zA-Z0-9_]*`
unfoldable pub is_identifier : Text → Bool
unfolding is_lower is_upper is_digit
is_identifier [] = false
is_identifier (c ∷ s) =
    (is_lower c || is_upper c || c == b'_')
    && all (λ d. is_lower d || is_upper d || is_digit d || d == b'_') s

-- `$` lets a line break follow.
unfoldable pub without_break : Text → Text
without_break [] = []
without_break (c ∷ s) =
    let rest = without_break s in if c == 10 && text_eq s [] then [] else c ∷ rest

unfoldable pub is_valid_dir : Text → Bool
unfolding is_identifier without_break
is_valid_dir name = is_identifier (without_break name)

-- `path[:-3]`
unfoldable pub stem : Text → Text
unfolding but_last
stem name = but_last (but_last (but_last name))

unfoldable pub is_valid_file : Text → Bool
unfolding is_identifier without_break stem ends_with
is_valid_file name =
    let plain = without_break name in ends_with (codes ".py") plain && is_identifier (stem plain)

-- The loop over the folders of a file, the innermost first; it also asks for the file that makes
-- a package of each folder around, and of the root.
unfoldable pub dirs_ok : (List Text → Bool) → List Text → Bool
unfolding is_valid_dir
dirs_ok has_init [] = true
dirs_ok has_init (d ∷ around) =
    let rest = dirs_ok has_init around in
    if is_valid_dir d then (if has_init (reverse around) then rest else false) else false

-- One file of `_find_modules`, with its folders, the outermost first: the name of its module, if it
-- is imported. `has_init` says which folders have an `__init__.py`.
unfoldable pub module_name : (List Text → Bool) → List Text → Text → Option Text
unfolding dirs_ok is_valid_file stem join
module_name has_init dirs basename =
    let init = text_eq basename (codes "__init__.py") in
    if (init && text_eq (join b'/' dirs) []) || not (is_valid_file basename)
    then none
    else if dirs_ok has_init (reverse dirs)
    then some (join b'.' (if init then dirs else dirs ++ stem basename ∷ []))
    else none
