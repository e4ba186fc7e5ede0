-- ===== src/Tasks/Tree.antt =====
-- The lines of TaskTree (task_info.go).
use go_stopper.Prelude.{
  ℕ, zero, suc, ◌+◌, ◌≤◌, ◌-◌, ◌≡◌, refl, Bool, true, false, List, [], ◌∷◌, ◌++◌, some, arith,
  length, count_if, count_if-append, if◌then◌else◌, ◌==◌,
}
use go_stopper.Tasks.{
  TaskInfo, TaskGroup, TaskGroups, group, nil, cons, Segment, blank, bar, Content, of_group,
  of_task, Line, length_groups, render_tasks, render_children, render_task_tree, task_tree,
}

-- How many groups and tasks of a tree pass a test.
unfoldable mutual
  pub count_group : (Content → Bool) → TaskGroup → ℕ
  count_group p (group name ts gs) =
      (if p (of_group name) then 1 else 0) + count_if (λ t. p (of_task t)) ts + count_groups p gs

  pub count_groups : (Content → Bool) → TaskGroups → ℕ
  count_groups p nil = 0
  count_groups p (cons g gs) = count_group p g + count_groups p gs

-- The number of groups of a tree.
unfoldable mutual
  pub size_of : TaskGroup → ℕ
  size_of (group name ts gs) = suc (size_of_all gs)

  pub size_of_all : TaskGroups → ℕ
  size_of_all nil = 0
  size_of_all (cons g gs) = size_of g + size_of_all gs

abbrev pub count_lines : (Content → Bool) → List Line → ℕ
count_lines p = count_if (λ (l : Line). p l.content)

count-render_tasks :
    (p : Content → Bool) (next : List Segment) (i total : ℕ) (ts : List TaskInfo)
    → count_lines p (render_tasks next i total ts) ≡ count_if (λ t. p (of_task t)) ts
unfolding render_tasks
count-render_tasks p next i total [] = refl
count-render_tasks p next i total (t ∷ ts) =
    omega (arith, count-render_tasks p next (suc i) total ts)

count-render_children :
    (p : Content → Bool) (render : Bool → TaskGroup → List Line) (fuel i total : ℕ)
    (gs : TaskGroups)
    → ((last : Bool) (g : TaskGroup)
        → size_of g ≤ fuel
        → count_lines p (render last g) ≡ count_group p g)
    → size_of_all gs ≤ fuel
    → count_lines p (render_children render i total gs) ≡ count_groups p gs
unfolding render_children size_of size_of_all count_group count_groups
count-render_children p render fuel i total nil h le = refl
count-render_children p render fuel i total (cons g gs) h le = omega (
  arith,
  h (i == total - 1) g (omega (arith, le)),
  count-render_children p render fuel (suc i) total gs h (omega (arith, le)),
  count_if-append (λ (l : Line). p l.content) (render (i == total - 1) g)
      (render_children render (suc i) total gs),
)

module _ (sort_by_task : List TaskInfo → List TaskInfo) (sort_by_name : TaskGroups → TaskGroups)
    (sorts_tasks : (p : TaskInfo → Bool) (ts : List TaskInfo)
      → count_if p (sort_by_task ts) ≡ count_if p ts)
    (sorts_groups : (p : Content → Bool) (gs : TaskGroups)
      → count_groups p (sort_by_name gs) ≡ count_groups p gs)
    (keeps_size : (gs : TaskGroups) → size_of_all (sort_by_name gs) ≡ size_of_all gs) where
  count-render_task_tree :
      (p : Content → Bool) (fuel : ℕ) (prefix : List Segment) (is_last is_root : Bool)
      (g : TaskGroup)
      → size_of g ≤ fuel
      → count_lines p (render_task_tree sort_by_task sort_by_name fuel prefix is_last is_root g)
        ≡ count_group p g
  unfolding render_task_tree count_group count_groups size_of size_of_all
  count-render_task_tree p zero prefix is_last is_root (group name ts gs) le =
      absurd (omega (arith, le))
  count-render_task_tree p (suc fuel) prefix is_last is_root (group name ts gs) le =
      let next : List Segment =
        if is_root then [] else if is_last then prefix ++ blank ∷ [] else prefix ++ bar ∷ [] in
      let tasks = sort_by_task ts in
      let children = sort_by_name gs in
      let total = length tasks + length_groups children in
      let render : Bool → TaskGroup → List Line =
        λ last g. render_task_tree sort_by_task sort_by_name fuel next last false g in
      let each =
        count-render_children p render fuel (length tasks) total children
          (λ last g h. count-render_task_tree p fuel next last false g h)
          (omega (arith, le, keeps_size gs)) in
      omega (
        arith,
        each,
        count-render_tasks p next 0 total tasks,
        sorts_tasks (λ t. p (of_task t)) ts,
        sorts_groups p gs,
        count_if-append (λ (l : Line). p l.content) (render_tasks next 0 total tasks)
            (render_children render (length tasks) total children),
      )

  -- TaskTree writes exactly one line for each group and one for each task of the tree: of those
  -- that pass any test, as many as there are in the tree. The fuel is no less than the number of
  -- groups, and sorting neither adds nor drops anything.
  pub count-task_tree :
      (p : Content → Bool) (fuel : ℕ) (g : TaskGroup)
      → size_of g ≤ fuel
      → count_lines p (task_tree sort_by_task sort_by_name fuel (some g)) ≡ count_group p g
  unfolding task_tree
  count-task_tree p fuel g le = count-render_task_tree p fuel [] true true g le
