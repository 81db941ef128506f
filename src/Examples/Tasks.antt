-- ===== src/Examples/Tasks.antt =====
-- A queue of tasks at work, and its theorems at concrete turns.
use lce.Prelude.{ℕ, ◌+◌, ◌≤◌, ◌≡◌, refl, List, [], ◌∷◌, ◌++◌, length, arith}
use lce.Task.{TaskInfo, Task, start, dispatch_task}
use lce.Task.Order.{Turn, dispatches, turns_up, run_turns, run_turns_lem}

abbrev task : ℕ → TaskInfo ℕ
task n = record { task_type = 1; data_of = n }

-- With a maximum of 1, two tasks are accepted and the third is not.
abbrev small_queue : Task ℕ
small_queue = record { tasks = []; max_size = 1 }

small_queue_is : start 1 ≡ small_queue
unfolding start
small_queue_is = refl

abbrev some_turns : List (Turn ℕ)
some_turns = dispatches (task 7) ∷ dispatches (task 8) ∷ dispatches (task 9) ∷ turns_up ∷ []

some_turns_accepted : (run_turns small_queue some_turns).accepted ≡ task 7 ∷ task 8 ∷ []
unfolding run_turns dispatch_task
some_turns_accepted = refl

run_turns_lem_example :
    ((run_turns small_queue some_turns).worked ++ (run_turns small_queue some_turns).queue.tasks
      ≡ [] ++ (run_turns small_queue some_turns).accepted)
    × (length (run_turns small_queue some_turns).queue.tasks ≤ 1 + 1)
run_turns_lem_example = run_turns_lem small_queue some_turns (omega arith)
