-- ===== src/Tasks/Examples.antt =====
-- Runs of task_info.go.
use go_stopper.Prelude.{◌≡◌, refl, [], ◌∷◌, none, some}
use go_stopper.Prelude.Int.{pos}
use go_stopper.Errors.{Error, user_error}
use go_stopper.Options.{Name}
use go_stopper.Tasks.{
  less, TaskInfo, TaskGroup, group, nil, cons, of_group, of_task, sort_tasks, task_tree, blank, tee,
  corner, root,
}
use go_stopper.Tasks.Order.{IsOrder, sort_tasks-IsOrder}

abbrev text : Error → Name
text e = b'e' ∷ []

abbrev running : TaskInfo
running = record { group_name = b'g' ∷ []; task_name = b'a' ∷ []; started = pos 1; error = none }

abbrev failed : TaskInfo
failed = record running { error = some (some (user_error 1)) }

running_first : sort_tasks text running failed ≡ less
unfolding sort_tasks
running_first = refl

sort_tasks-IsOrder_example : IsOrder (sort_tasks text)
sort_tasks-IsOrder_example = sort_tasks-IsOrder text

abbrev tree : TaskGroup
tree =
    group (b'g' ∷ []) (running ∷ failed ∷ [])
      (cons (group (b'h' ∷ []) [] (cons (group (b'i' ∷ []) (running ∷ []) nil) nil)) nil)

tree_lines :
    task_tree (λ ts. ts) (λ gs. gs) 3 (some tree)
    ≡ record { prefix = []; marker = root; content = of_group (b'g' ∷ []) }
      ∷ record { prefix = []; marker = tee; content = of_task running }
      ∷ record { prefix = []; marker = tee; content = of_task failed }
      ∷ record { prefix = []; marker = corner; content = of_group (b'h' ∷ []) }
      ∷ record { prefix = blank ∷ []; marker = corner; content = of_group (b'i' ∷ []) }
      ∷ record { prefix = blank ∷ blank ∷ []; marker = corner; content = of_task running }
      ∷ []
unfolding task_tree
tree_lines = refl
