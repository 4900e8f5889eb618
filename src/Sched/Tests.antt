-- ===== src/Sched/Tests.antt =====
-- The scheduler of src/sched.c at a small table.
use riscv_baremetal_demo.Base.{◌≤◌, ◌≡◌, refl, some, List, [], ◌∷◌, arith, length}
use riscv_baremetal_demo.Base.Text.{codes}
use riscv_baremetal_demo.Sched.{
  Body, returns, yields, Task, task_ready, task_create, Turn, sched_run, max_tasks,
}
use riscv_baremetal_demo.Sched.Stacks.{IsPlaced, task_create-IsPlaced}
use riscv_baremetal_demo.Sched.RoundRobin.{
  slices, rounds, longest, queues, heads, tails, printed_by, sched_run-rounds, sched_run_complete,
}

abbrev task_of : Body → Task
task_of b = record { sp = 0; body = b; name = []; state = task_ready }

abbrev long_task : Task
long_task = task_of (yields (codes "a") (yields (codes "b") (returns (codes "c"))))

abbrev short_task : Task
short_task = task_of (returns (codes "z"))

abbrev two_tasks : List Task
two_tasks = short_task ∷ long_task ∷ []

abbrev three_tasks : List Task
three_tasks = short_task ∷ long_task ∷ short_task ∷ []

two_tasks_run :
    sched_run 4 two_tasks
    ≡ some ((0, codes "z") ∷ (1, codes "a") ∷ (1, codes "b") ∷ (1, codes "c") ∷ [])
unfolding longest slices rounds heads tails
two_tasks_run = sched_run-rounds 4 two_tasks (refl, (refl, tt)) (omega arith)

sched_run-rounds_example :
    sched_run 9 two_tasks ≡ some (rounds (longest (queues two_tasks)) (queues two_tasks))
unfolding longest slices
sched_run-rounds_example = sched_run-rounds 9 two_tasks (refl, (refl, tt)) (omega arith)

sched_run_complete_example :
    (turns : List Turn) × (sched_run 9 two_tasks ≡ some turns)
    × (printed_by 1 turns ≡ codes "a" ∷ codes "b" ∷ codes "c" ∷ [])
unfolding longest slices
sched_run_complete_example = sched_run_complete 9 1 two_tasks (refl, (refl, tt)) (omega arith)

task_create-IsPlaced_example :
    (length (task_create 0x80010008 (returns []) (codes "t") []) ≤ max_tasks)
    × IsPlaced 0x80010008 0 (task_create 0x80010008 (returns []) (codes "t") [])
task_create-IsPlaced_example =
    task_create-IsPlaced 0x80010008 (returns []) (codes "t") [] (omega arith) tt
