-- ===== src/Preempt/Report.antt =====
-- src/preempt/ptasks.c, pmain.c and `preempt_report` of psched.c: what the demo runs and prints.
use riscv_baremetal_demo.Base.{
  ◌-◌, ℕ, zero, suc, ◌+◌, ◌*◌, ◌/◌, ◌%◌, ◌^◌, Option, none, some, List, [], ◌∷◌, ◌==◌,
  if◌then◌else◌,
}
use riscv_baremetal_demo.Base.Text.{codes, joined}
use riscv_baremetal_demo.Uart.Text.{dec, hex}
use riscv_baremetal_demo.Timer.{Clock}
use riscv_baremetal_demo.Preempt.{
  Stats, Sched, power_up, ptask_create, preempt_init, preempt_wait, account_final_switch, Tick,
  Resume,
}

abbrev pub clint_ns_per_tick : ℕ
clint_ns_per_tick = 100

abbrev clint_ticks_per_sec : ℕ
clint_ticks_per_sec = 10000000

-- A task's state and progress counter.
pub record Spin : Type 0 where
  pub state : ℕ
  pub iters : ℕ

-- The body of a task's endless loop, with its multiplier and increment.
unfoldable pub spin : ℕ → ℕ → Spin → Spin
spin a c t = record { state = (t.state * a + c) % 2 ^ 64; iters = (t.iters + 1) % 2 ^ 64 }

unfoldable pub ptask_a : Spin → Spin
unfolding spin
ptask_a = spin 6364136223846793005 1442695040888963407

unfoldable pub ptask_b : Spin → Spin
unfolding spin
ptask_b = spin 2862933555777941757 3037000493

unfoldable pub ptask_c : Spin → Spin
unfolding spin
ptask_c = spin 1597334677 1013904223

-- Where the linker put the table, the trampoline and the bodies.
pub record Link : Type 0 where
  pub base : ℕ
  pub trampoline : ℕ
  pub at_a : ℕ
  pub at_b : ℕ
  pub at_c : ℕ

unfoldable pub ptasks_register : Link → Sched → Sched
unfolding ptask_create
ptasks_register l s = ptask_create l.base l.trampoline l.at_c (codes "spin-c") (
    ptask_create l.base l.trampoline l.at_b (codes "spin-b")
      (ptask_create l.base l.trampoline l.at_a (codes "spin-a") s))

abbrev ptask_count : ℕ
ptask_count = 3

ptask_iters : ℕ × ℕ × ℕ → ℕ → ℕ
ptask_iters iters i = if i == 0 then iters.0 else if i == 1 then iters.1 else iters.2

ptask_name : ℕ → List ℕ
ptask_name i = if i == 0 then codes "spin-a" else if i == 1 then codes "spin-b" else codes "spin-c"

-- The `for` loop of the report from task `i` on.
progress : ℕ × ℕ × ℕ → ℕ → ℕ → List ℕ
unfolding ptask_iters ptask_name dec
progress iters zero i = []
progress iters (suc left) i = joined (
    codes "  "
    ∷ ptask_name i
    ∷ codes ": "
    ∷ dec (ptask_iters iters i)
    ∷ codes " iterations\n"
    ∷ progress iters left (i + 1)
    ∷ [])

-- A number of the report in nanoseconds.
abbrev ns : ℕ → ℕ
ns v = v * clint_ns_per_tick % 2 ^ 64

-- Unsigned division, which RISC-V defines at zero too.
abbrev div64 : ℕ → ℕ → ℕ
div64 a b = if b == 0 then 2 ^ 64 - 1 else a / b

latency_text : Stats → ℕ → List ℕ
unfolding dec
latency_text lat ticks = joined (
    codes "\ninterrupt latency (mtime tick = 100 ns):\n  min "
    ∷ dec lat.least
    ∷ codes " / max "
    ∷ dec lat.most
    ∷ codes " / avg "
    ∷ dec (div64 lat.sum ticks)
    ∷ codes " ticks  ("
    ∷ dec (ns lat.least)
    ∷ codes " / "
    ∷ dec (ns lat.most)
    ∷ codes " / "
    ∷ dec (ns (div64 lat.sum ticks))
    ∷ codes " ns)\n"
    ∷ [])

switch_text : Stats → Stats → ℕ → List ℕ
unfolding dec
switch_text swc swt swn = joined (
    codes "\ncontext-switch cost, entry stamp to exit stamp:\n  min "
    ∷ dec swc.least
    ∷ codes " / max "
    ∷ dec swc.most
    ∷ codes " / avg "
    ∷ dec (div64 swc.sum swn)
    ∷ codes " cycles\n  cross-check via mtime: min "
    ∷ dec swt.least
    ∷ codes " / max "
    ∷ dec swt.most
    ∷ codes " / avg "
    ∷ dec (div64 swt.sum swn)
    ∷ codes " ticks ("
    ∷ dec (ns swt.least)
    ∷ codes " / "
    ∷ dec (ns swt.most)
    ∷ codes " / "
    ∷ dec (ns (div64 swt.sum swn))
    ∷ codes " ns)\n"
    ∷ [])

-- What is printed of the state after the final switch is accounted for.
report_text : ℕ × ℕ × ℕ → Sched → List ℕ
unfolding dec progress latency_text switch_text
report_text iters s = joined (
    codes "\npreempt: done. "
    ∷ dec s.ticks
    ∷ codes " timer ticks, "
    ∷ dec s.swn
    ∷ codes " measured context switches\n\n"
    ∷ codes "task progress (task bodies never yield):\n"
    ∷ progress iters ptask_count 0
    ∷ latency_text s.lat s.ticks
    ∷ switch_text s.swc s.swt s.swn
    ∷ [])

-- The text, from the tasks' progress counters, and the state that `preempt_report` leaves.
unfoldable pub preempt_report : ℕ × ℕ × ℕ → Sched → List ℕ × Sched
unfolding account_final_switch report_text
preempt_report iters s = let s' = account_final_switch s in (report_text iters s', s')

-- `preempt_wait` after `preempt_init`.
unfoldable pub run_from : Clock → ℕ → List Tick → Option Sched → Option (List Resume × Sched)
unfolding preempt_wait
run_from clock fuel ts none = none
run_from clock fuel ts (some s) = preempt_wait clock fuel ts s

-- The scheduling of `main`: the three tasks, the timer, and the wait.
unfoldable pub scheduled : Clock → ℕ → Link → List Tick → Option (List Resume × Sched)
unfolding run_from preempt_init ptasks_register
scheduled clock fuel l ts =
    run_from clock fuel ts (preempt_init clock fuel (ptasks_register l power_up))

banner : List ℕ
unfolding hex dec
banner = joined (
    codes "\n========================================\n"
    ∷ codes "riscv-baremetal-demo: preemptive scheduler\n"
    ∷ codes "CLINT timer interrupt + full-context switch\n"
    ∷ codes "========================================\n\n"
    ∷ codes "clint: mtime@"
    ∷ hex 0x0200bff8
    ∷ codes " mtimecmp@"
    ∷ hex 0x02004000
    ∷ codes " timebase "
    ∷ dec clint_ticks_per_sec
    ∷ codes " Hz (100 ns/tick)\n"
    ∷ codes "quantum 10000 ticks (1 ms), 200 ticks total\n\n"
    ∷ [])

around : ℕ × ℕ × ℕ → Option (List Resume × Sched) → Option (List ℕ)
unfolding banner preempt_report
around iters none = none
around iters (some (_, s)) = some (
    joined (
      banner
      ∷ codes "timer armed, entering wfi wait...\n"
      ∷ (preempt_report iters s).0
      ∷ codes "\npreempt: halting.\n"
      ∷ []))

-- All that `main` prints before it halts, from the timer interrupts and the tasks' counters after
-- them.
unfoldable pub main : Clock → ℕ → Link → List Tick → ℕ × ℕ × ℕ → Option (List ℕ)
unfolding scheduled around
main clock fuel l ts iters = around iters (scheduled clock fuel l ts)
