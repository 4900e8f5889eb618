-- ===== src/Smode/Report.antt =====
-- `sched_report` of src/smode/ssched.c, stasks.c and smain.c: what the demo prints.
use riscv_baremetal_demo.Base.{
  ℕ, zero, suc, ◌+◌, ◌-◌, ◌*◌, ◌/◌, ◌%◌, ◌^◌, Option, none, some, List, [], ◌∷◌, ◌++◌, ◌==◌,
  if◌then◌else◌, take,
}
use riscv_baremetal_demo.Base.Text.{codes, joined}
use riscv_baremetal_demo.Uart.Text.{dec}
use riscv_baremetal_demo.Timer.{Clock}
use riscv_baremetal_demo.Smode.{
  Build, Sched, power_up, stask_create, sched_init, account_final_switch, Trap, Outcome, parked,
  endless, overrun, resumed, trap,
}
use riscv_baremetal_demo.Smode.Sort.{min_of, max_of, median_of}

abbrev stimer_ns_per_tick : ℕ
stimer_ns_per_tick = 100

-- A task's state and progress counter.
pub record Spin : Type 0 where
  pub state : ℕ
  pub iters : ℕ

unfoldable spin : ℕ → ℕ → Spin → Spin
spin a c t = record { state = (t.state * a + c) % 2 ^ 64; iters = (t.iters + 1) % 2 ^ 64 }

unfoldable pub stask_a : Spin → Spin
unfolding spin
stask_a = spin 6364136223846793005 1442695040888963407

unfoldable pub stask_b : Spin → Spin
unfolding spin
stask_b = spin 2862933555777941757 3037000493

unfoldable pub stask_c : Spin → Spin
unfolding spin
stask_c = spin 1597334677 1013904223

unfoldable pub stasks_register : Sched → Sched
unfolding stask_create
stasks_register s =
    stask_create (codes "spin-c") (stask_create (codes "spin-b") (stask_create (codes "spin-a") s))

abbrev stask_count : ℕ
stask_count = 3

abbrev stask_iters : ℕ × ℕ × ℕ → ℕ → ℕ
stask_iters iters i = if i == 0 then iters.0 else if i == 1 then iters.1 else iters.2

abbrev stask_name : ℕ → List ℕ
stask_name i = if i == 0 then codes "spin-a" else if i == 1 then codes "spin-b" else codes "spin-c"

-- The `for` loop of the report from task `i` on.
unfoldable progress : ℕ × ℕ × ℕ → ℕ → ℕ → List ℕ
unfolding dec
progress iters zero i = []
progress iters (suc left) i = joined (
    codes "  "
    ∷ stask_name i
    ∷ codes ": "
    ∷ dec (stask_iters iters i)
    ∷ codes " iterations\n"
    ∷ progress iters left (i + 1)
    ∷ [])

-- The first `n` samples.
abbrev samples : List ℕ → ℕ → List ℕ
samples array n = take n array

abbrev ns : ℕ → ℕ
ns v = v * stimer_ns_per_tick % 2 ^ 64

unfoldable latency_text : List ℕ → List ℕ
unfolding dec min_of median_of max_of
latency_text lat = joined (
    codes "\ninterrupt latency (mtime tick = 100 ns):\n  min "
    ∷ dec (min_of lat)
    ∷ codes " / median "
    ∷ dec (median_of lat)
    ∷ codes " / max "
    ∷ dec (max_of lat)
    ∷ codes " ticks  ("
    ∷ dec (ns (min_of lat))
    ∷ codes " / "
    ∷ dec (ns (median_of lat))
    ∷ codes " / "
    ∷ dec (ns (max_of lat))
    ∷ codes " ns)\n"
    ∷ [])

unfoldable switch_text : List ℕ → List ℕ → List ℕ
unfolding dec min_of median_of max_of
switch_text swc swt = joined (
    codes "\ncontext-switch cost, entry stamp to exit stamp:\n  min "
    ∷ dec (min_of swc)
    ∷ codes " / median "
    ∷ dec (median_of swc)
    ∷ codes " / max "
    ∷ dec (max_of swc)
    ∷ codes " cycles\n  cross-check via mtime: min "
    ∷ dec (min_of swt)
    ∷ codes " / median "
    ∷ dec (median_of swt)
    ∷ codes " / max "
    ∷ dec (max_of swt)
    ∷ codes " ticks ("
    ∷ dec (ns (min_of swt))
    ∷ codes " / "
    ∷ dec (ns (median_of swt))
    ∷ codes " / "
    ∷ dec (ns (max_of swt))
    ∷ codes " ns)\n"
    ∷ codes "\nrdcycle/rdtime ratio at median switch cost: "
    ∷ dec (if median_of swt == 0 then 2 ^ 64 - 1 else median_of swc / median_of swt)
    ∷ codes " cycles per 100 ns tick\n"
    ∷ [])

-- What is printed of the state after the final switch is accounted for. A RISC-V division by zero
-- gives the largest number.
unfoldable report_text : ℕ × ℕ × ℕ → Sched → List ℕ
unfolding dec progress latency_text switch_text
report_text iters s = joined (
    codes "\nsmode: done. "
    ∷ dec s.ticks
    ∷ codes " timer ticks, "
    ∷ dec s.swn
    ∷ codes " measured context switches\n\n"
    ∷ codes "task progress (task bodies never yield):\n"
    ∷ progress iters stask_count 0
    ∷ latency_text (samples s.lat s.ticks)
    ∷ switch_text (samples s.swc s.swn) (samples s.swt s.swn)
    ∷ [])

unfoldable reported : ℕ × ℕ × ℕ → Option Sched → Option (List ℕ)
unfolding report_text
reported iters none = none
reported iters (some s) = some (report_text iters s)

-- The text, from the tasks' progress counters; `none` if the final sample has no room.
unfoldable pub sched_report : ℕ × ℕ × ℕ → Sched → Option (List ℕ)
unfolding account_final_switch reported
sched_report iters s = reported iters (account_final_switch s)

unfoldable pub and_then : Outcome → (Sched → Option Sched) → Option Sched
and_then (parked text) wait = none
and_then endless wait = none
and_then overrun wait = none
and_then (resumed next s) wait = wait s

-- `while (!done)`, over the traps to come; `none` if it never ends.
unfoldable pub sched_wait : Build → Clock → ℕ → List Trap → Sched → Option Sched
unfolding trap and_then
sched_wait b clock fuel [] s = if s.done then some s else none
sched_wait b clock fuel (t ∷ ts) s =
    let going = and_then (trap b clock fuel t s) (sched_wait b clock fuel ts) in
    if s.done then some s else going

unfoldable banner : Build → List ℕ
banner b = joined (
    codes "\n========================================\n"
    ∷ (if b.trap_smode
        then codes
            "riscv-baremetal-demo: S-mode trap delegation\nscheduler on the delegated supervisor timer interrupt\n"
        else codes
            "riscv-baremetal-demo: M-mode baseline\nsame scheduler on the machine timer interrupt\n")
    ∷ codes "========================================\n\n"
    ∷ (if b.trap_smode
        then codes "Sstc (stimecmp): "
          ++ (if b.use_sstc
              then codes "present, pure S-mode timer\n"
              else codes "absent, M-mode ecall rearm\n")
        else [])
    ∷ codes "quantum 10000 ticks (1 ms), 200 ticks total\n\n"
    ∷ [])

unfoldable around : Build → Option (List ℕ) → Option (List ℕ)
unfolding banner
around b none = none
around b (some report) = some (
    joined
      (banner b ∷ codes "timer armed, waiting for ticks...\n" ∷ report ∷ codes "\nhalting.\n" ∷ []))

unfoldable pub bind : {A B : Type 0} → Option A → (A → Option B) → Option B
bind none f = none
bind (some a) f = f a

-- All that `main` prints before it halts, from the traps and the tasks' counters after them.
unfoldable pub main : Build → Clock → ℕ → List Trap → ℕ × ℕ × ℕ → Option (List ℕ)
unfolding stasks_register sched_init sched_wait sched_report around bind
main b clock fuel ts iters = around b (
    bind (bind (sched_init b clock fuel (stasks_register power_up)) (sched_wait b clock fuel ts))
      (sched_report iters))
