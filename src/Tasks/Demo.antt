-- ===== src/Tasks/Demo.antt =====
-- The whole run of the cooperative demo, src/main.c.
use riscv_baremetal_demo.Base.{
  ℕ, zero, suc, ◌+◌, ◌-◌, ◌%◌, ◌<◌, ◌≡◌, refl, ap, some, List, [], ◌∷◌, ◌++◌, arith, get_or,
}
use riscv_baremetal_demo.Base.Text.{codes}
use riscv_baremetal_demo.Uart.Text.{dec}
use riscv_baremetal_demo.Uart.{uint_chars, fill, drain}
use riscv_baremetal_demo.Sched.{task_create}
use riscv_baremetal_demo.Sched.RoundRobin.{slices, heads, tails, rounds, longest, sched_run-rounds}
use riscv_baremetal_demo.Tasks.{
  main, all_output, banner, tasks_register, task_heartbeat, task_fibonacci, task_spinner, texts,
}
use riscv_baremetal_demo.Tasks.Fibonacci.{fib}

-- What the three tasks print in round `i`, from 1.
round_text : ℕ → List ℕ
unfolding dec fib
round_text i =
    codes "[heartbeat] tick "
    ++ (dec i
        ++ (codes " (task 1 of 3)\n[fibonacci] fib("
            ++ (dec i
                ++ (codes ") = "
                    ++ (dec (fib i)
                        ++ (codes " (task 2 of 3)\n[spinner] working "
                            ++ (get_or (codes "|/-\\") ((i - 1) % 4) 0
                                ∷ codes " (task 3 of 3)\n")))))))

pub rounds_text : ℕ → ℕ → List ℕ
rounds_text zero i = []
rounds_text (suc n) i = round_text i ++ rounds_text n (i + 1)

-- Whatever address the task table has, `main` ends its scheduler and prints the banner, then five
-- rounds in which the three tasks take their turns in order, the `i`th with the `i`th Fibonacci
-- number, and the closing line. Seven rounds of fuel are enough.
pub main-rounds :
    (fuel base : ℕ)
    → 6 < fuel
    → main fuel base
      ≡ some (
          banner
          ++ (codes "scheduler: starting 3 tasks...\n\n"
              ++ (rounds_text 5 1 ++ codes "\nscheduler: all tasks finished. halting.\n")))
unfolding main tasks_register task_create task_heartbeat task_fibonacci task_spinner rounds heads
    tails longest slices texts rounds_text round_text uint_chars fill drain
main-rounds fuel base h =
    ap all_output
      (sched_run-rounds fuel (tasks_register base []) (refl, (refl, (refl, tt))) (omega (arith, h)))
