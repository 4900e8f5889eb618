-- ===== src/Tasks.antt =====
-- src/tasks.c, the three workloads of the cooperative scheduler, and src/main.c, which runs them.
pub mod Fibonacci
pub mod Demo
mod Tests
use riscv_baremetal_demo.Base.{
  ℕ, zero, suc, ◌+◌, ◌-◌, ◌/◌, ◌%◌, ◌^◌, Option, none, some, List, [], ◌∷◌, ◌++◌, ◌==◌, get_or,
}
use riscv_baremetal_demo.Base.Text.{codes}
use riscv_baremetal_demo.Uart.Text.{dec}
use riscv_baremetal_demo.Sched.{Body, returns, yields, Task, task_create, Turn, sched_run}

abbrev pub iterations : ℕ
iterations = 5

-- Each loop is a recursion on the rounds left; a round ends with `sched_yield()`.
heartbeat_from : ℕ → ℕ → Body
unfolding dec
heartbeat_from zero i = returns []
heartbeat_from (suc left) i =
    yields (codes "[heartbeat] tick " ++ (dec i ++ codes " (task 1 of 3)\n"))
      (heartbeat_from left (i + 1))

task_heartbeat : Body
unfolding heartbeat_from
task_heartbeat = heartbeat_from iterations 1

pub fibonacci_line : ℕ → ℕ → List ℕ
unfolding dec
fibonacci_line i b =
    codes "[fibonacci] fib(" ++ (dec i ++ (codes ") = " ++ (dec b ++ codes " (task 2 of 3)\n")))

-- `unsigned long` sums wrap.
pub fibonacci_from : ℕ → ℕ → ℕ → ℕ → Body
fibonacci_from zero i a b = returns []
fibonacci_from (suc left) i a b =
    yields (fibonacci_line i b) (fibonacci_from left (i + 1) b ((a + b) % 2 ^ 64))

task_fibonacci : Body
unfolding fibonacci_from fibonacci_line
task_fibonacci = fibonacci_from iterations 1 0 1

abbrev frames : List ℕ
frames = codes "|/-\\"

-- The loop that burns time prints nothing.
spinner_from : ℕ → ℕ → Body
spinner_from zero i = returns []
spinner_from (suc left) i =
    yields (codes "[spinner] working " ++ (get_or frames (i % 4) 0 ∷ codes " (task 3 of 3)\n"))
      (spinner_from left (i + 1))

task_spinner : Body
unfolding spinner_from
task_spinner = spinner_from iterations 0

tasks_register : ℕ → List Task → List Task
unfolding task_heartbeat task_fibonacci task_spinner
tasks_register base tasks = task_create base task_spinner (codes "spinner") (
    task_create base task_fibonacci (codes "fibonacci")
      (task_create base task_heartbeat (codes "heartbeat") tasks))

texts : List Turn → List ℕ
texts [] = []
texts ((i, out) ∷ turns) = out ++ texts turns

abbrev pub banner : List ℕ
banner =
    codes "\n========================================\n"
    ++ (codes "riscv-baremetal-demo: QEMU virt (rv64imac)\n"
        ++ (codes "UART driver + cooperative round-robin scheduler\n"
            ++ codes "========================================\n\n"))

-- What `main` prints around the turns of its tasks.
all_output : Option (List Turn) → Option (List ℕ)
unfolding texts
all_output none = none
all_output (some turns) = some (
    banner
    ++ (codes "scheduler: starting 3 tasks...\n\n"
        ++ (texts turns ++ codes "\nscheduler: all tasks finished. halting.\n")))

-- All that `main` prints before it halts; `none` if the scheduler's fuel runs out. The table of
-- tasks is at `base`.
pub main : ℕ → ℕ → Option (List ℕ)
unfolding tasks_register all_output
main fuel base = all_output (sched_run fuel (tasks_register base []))
