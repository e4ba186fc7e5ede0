-- ===== src/Tasks.antt =====
-- task_info.go: task groups, the order of tasks, and the lines of TaskTree.
pub mod Order
pub mod Tree
mod Examples
use go_stopper.Prelude.{
  ℕ, zero, suc, Bool, true, false, List, [], ◌∷◌, ◌++◌, Option, none, some, if◌then◌else◌, length,
  ◌+◌, ◌-◌, ◌==◌, ltb,
}
use go_stopper.Prelude.Int.{ℤ, ltb_ℤ}
use go_stopper.Options.{Name}
use go_stopper.Errors.{Error}

-- cmp.Compare, on numbers and on the bytes of texts: -1, 0 and 1.
pub data Cmp : Type 0 where
  less equal greater : Cmp

abbrev pub compare_by : Bool → Bool → Cmp
compare_by true _ = less
compare_by false true = greater
compare_by false false = equal

abbrev pub compare_ℕ : ℕ → ℕ → Cmp
compare_ℕ a b = compare_by (ltb a b) (ltb b a)

-- time.Time.Compare.
abbrev pub compare_time : ℤ → ℤ → Cmp
compare_time a b = compare_by (ltb_ℤ a b) (ltb_ℤ b a)

-- `if c := ...; c != 0 { return c }`.
abbrev pub unless_equal : Cmp → Cmp → Cmp
unless_equal equal d = d
unless_equal less d = less
unless_equal greater d = greater

abbrev pub compare_name : Name → Name → Cmp
compare_name [] [] = equal
compare_name [] (b ∷ bs) = less
compare_name (a ∷ as_) [] = greater
compare_name (a ∷ as_) (b ∷ bs) = unless_equal (compare_ℕ a b) (compare_name as_ bs)

-- TaskInfo.Error is a tri-state value: no pointer while the task is running, then its result.
pub record TaskInfo : Type 0 where
  pub group_name : Name
  pub task_name : Name
  pub started : ℤ
  pub error : Option (Option Error)

-- taskState: running, success, failed.
unfoldable pub task_state : TaskInfo → ℕ
task_state i = elim i.error [ none ↦ 0 | some none ↦ 1 | some (some err) ↦ 2 ]

module _ (message : Error → Name) where
  -- The text of a failed task's error. It is only read if the task has failed.
  abbrev pub failure : TaskInfo → Name
  failure i = elim i.error [ none ↦ [] | some none ↦ [] | some (some err) ↦ message err ]

  -- sortTasks; `message` is Error() of an error.
  unfoldable pub sort_tasks : TaskInfo → TaskInfo → Cmp
  unfolding task_state
  sort_tasks a b = unless_equal (compare_name a.group_name b.group_name) (
      unless_equal (compare_name a.task_name b.task_name) (
        unless_equal (compare_time a.started b.started) (
          unless_equal (compare_ℕ (task_state a) (task_state b))
            (if task_state a == 2 then compare_name (failure a) (failure b) else equal))))

-- A TaskGroup with its tasks and its children, in the order of their sync.Map.
mutual
  pub data TaskGroup : Type 0 where
    group : Name → List TaskInfo → TaskGroups → TaskGroup

  pub data TaskGroups : Type 0 where
    nil : TaskGroups
    cons : TaskGroup → TaskGroups → TaskGroups

-- A line of TaskTree: the prefix of its segments, its marker, and what it is about. The root has
-- neither.
pub data Segment : Type 0 where
  blank : Segment  -- "    "
  bar : Segment  -- "│   "

pub data Marker : Type 0 where
  root : Marker
  tee : Marker  -- "├── "
  corner : Marker  -- "└── "

pub data Content : Type 0 where
  of_group : Name → Content
  of_task : TaskInfo → Content

pub record Line : Type 0 where
  pub prefix : List Segment
  pub marker : Marker
  pub content : Content

abbrev pub length_groups : TaskGroups → ℕ
length_groups nil = 0
length_groups (cons g gs) = suc (length_groups gs)

abbrev pub mark : Bool → Marker
mark is_last = if is_last then corner else tee

-- The loop over the tasks, from index `i` on.
unfoldable pub render_tasks : List Segment → ℕ → ℕ → List TaskInfo → List Line
render_tasks next i total [] = []
render_tasks next i total (t ∷ ts) =
    record { prefix = next; marker = mark (i == total - 1); content = of_task t }
    ∷ render_tasks next (suc i) total ts

-- The loop over the children, from index `i` on; `render` is the recursive call.
unfoldable pub render_children : (Bool → TaskGroup → List Line) → ℕ → ℕ → TaskGroups → List Line
render_children render i total nil = []
render_children render i total (cons g gs) =
    render (i == total - 1) g ++ render_children render (suc i) total gs

-- slices.SortFunc by sortTasks, and by the names of the children.
module _ (sort_by_task : List TaskInfo → List TaskInfo)
    (sort_by_name : TaskGroups → TaskGroups) where
  -- renderTaskTree, with fuel for the depth of the tree.
  unfoldable pub render_task_tree : ℕ → List Segment → Bool → Bool → TaskGroup → List Line
  unfolding render_tasks render_children
  render_task_tree zero prefix is_last is_root g = []
  render_task_tree (suc fuel) prefix is_last is_root (group name ts gs) =
      let next =
        if is_root then [] else if is_last then prefix ++ blank ∷ [] else prefix ++ bar ∷ [] in
      let tasks = sort_by_task ts in
      let children = sort_by_name gs in
      let total = length tasks + length_groups children in
      record {
        prefix = if is_root then [] else prefix;
        marker = if is_root then root else mark is_last;
        content = of_group name;
      }
      ∷ (render_tasks next 0 total tasks
          ++ render_children (λ last g. render_task_tree fuel next last false g) (length tasks)
              total children)

  -- TaskTree, which writes nothing for a nil group.
  unfoldable pub task_tree : ℕ → Option TaskGroup → List Line
  unfolding render_task_tree
  task_tree fuel none = []
  task_tree fuel (some g) = render_task_tree fuel [] true true g
