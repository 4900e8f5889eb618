-- ===== src/Tasks/Tests.antt =====
-- The demo tasks of src/tasks.c and src/main.c at concrete inputs.
use riscv_baremetal_demo.Base.{◌≡◌, some, ◌++◌, arith}
use riscv_baremetal_demo.Base.Text.{codes}
use riscv_baremetal_demo.Tasks.{main, banner}
use riscv_baremetal_demo.Tasks.Demo.{rounds_text, main-rounds}

main-rounds_example :
    main 7 0x80010000
    ≡ some (
        banner
        ++ (codes "scheduler: starting 3 tasks...\n\n"
            ++ (rounds_text 5 1 ++ codes "\nscheduler: all tasks finished. halting.\n")))
main-rounds_example = main-rounds 7 0x80010000 (omega arith)
