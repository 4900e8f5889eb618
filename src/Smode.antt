-- ===== src/Smode.antt =====
-- src/smode/ssched.c and stimer.c: the preemptive scheduler that is built for S-mode and for
-- M-mode, and keeps every sample. The registers that strap.S saves are not modelled.
pub mod Sort
pub mod Sorted
pub mod Extremes
pub mod Arrays
pub mod Bounds
pub mod Report
pub mod Boot
mod Tests
use riscv_baremetal_demo.Base.{
  ℕ, ◌+◌, ◌-◌, ◌%◌, ◌^◌, Bool, true, false, ◌&&◌, Option, none, some, List, [], ◌∷◌, ◌++◌, ltb, leb,
  ◌==◌, if◌then◌else◌, length, set, replicate,
}
use riscv_baremetal_demo.Base.Text.{codes}
use riscv_baremetal_demo.Timer.{Clock, quantum_ticks, next_deadline}

abbrev pub n_ticks : ℕ
n_ticks = 200

abbrev pub stask_max : ℕ
stask_max = 3

-- `a - b` on `unsigned long`
abbrev pub sub64 : ℕ → ℕ → ℕ
sub64 a b = (a + (2 ^ 64 - b)) % 2 ^ 64

-- How the program is built, `TRAP_SMODE`, and whether the hart has Sstc.
pub record Build : Type 0 where
  pub trap_smode : Bool
  pub use_sstc : Bool

abbrev pub cause_timer_irq : Build → ℕ
cause_timer_irq b = if b.trap_smode then 0x8000000000000005 else 0x8000000000000007

-- The statics of ssched.c and stimer.c, and the compare registers. `tasks` holds their names;
-- `current` is `none` for -1; `reads` counts the readings of mtime.
pub record Sched : Type 0 where
  pub tasks : List (List ℕ)
  pub current : Option ℕ
  pub exit_cycles : ℕ
  pub exit_mtime : ℕ
  pub entry_cycles : ℕ
  pub entry_mtime : ℕ
  pub have_prev : Bool
  pub ticks : ℕ
  pub done : Bool
  pub lat : List ℕ
  pub swc : List ℕ
  pub swt : List ℕ
  pub swn : ℕ
  pub deadline : ℕ
  pub stimecmp : ℕ
  pub mtimecmp : ℕ
  pub reads : ℕ

abbrev pub power_up : Sched
power_up = record {
  tasks = [];
  current = none;
  exit_cycles = 0;
  exit_mtime = 0;
  entry_cycles = 0;
  entry_mtime = 0;
  have_prev = false;
  ticks = 0;
  done = false;
  lat = replicate n_ticks 0;
  swc = replicate n_ticks 0;
  swt = replicate n_ticks 0;
  swn = 0;
  deadline = 0;
  stimecmp = 0;
  mtimecmp = 0;
  reads = 0;
}

unfoldable pub stask_create : List ℕ → Sched → Sched
stask_create name s =
    if leb stask_max (length s.tasks) then s else record s { tasks = s.tasks ++ (name ∷ []) }

-- Program the comparator that is in use: without Sstc the S-mode build asks M-mode to write
-- mtimecmp.
unfoldable pub set_comparator : Build → ℕ → Sched → Sched
set_comparator b v s =
    if b.trap_smode && b.use_sstc then record s { stimecmp = v } else record s { mtimecmp = v }

unfoldable pub arm_found : Build → Sched → Option (ℕ × ℕ) → Option Sched
unfolding set_comparator
arm_found b s none = none
arm_found b s (some (deadline, reads)) =
    some (set_comparator b deadline (record s { deadline = deadline; reads = reads }))

unfoldable pub stimer_arm : Build → Clock → ℕ → Sched → Option Sched
unfolding arm_found
stimer_arm b clock fuel s = arm_found b s (next_deadline clock fuel s.reads)

unfoldable pub stimer_disarm : Build → Sched → Sched
unfolding set_comparator
stimer_disarm b s = set_comparator b (2 ^ 64 - 1) (record s { deadline = 2 ^ 64 - 1 })

-- `sched_init`, which also installs the trap vector and enables the interrupt.
unfoldable pub sched_init : Build → Clock → ℕ → Sched → Option Sched
unfolding stimer_arm
sched_init b clock fuel s =
    stimer_arm b clock fuel (record s { ticks = 0; done = false; have_prev = false; swn = 0 })

-- One trap: its cause, the stamps at its entry, and those that the exit path takes.
pub record Trap : Type 0 where
  pub cause : ℕ
  pub mtime_at_entry : ℕ
  pub cycle_at_entry : ℕ
  pub mtime_at_exit : ℕ
  pub cycle_at_exit : ℕ

pub data Resume : Type 0 where
  boot : Resume
  task : ℕ → Resume

-- The handler parks the hart, arms the timer forever, writes past the end of an array, or returns
-- a frame.
pub data Outcome : Type 0 where
  parked : List ℕ → Outcome
  endless : Outcome
  overrun : Outcome
  resumed : Resume → Sched → Outcome

-- `array[i] = v`; `none` outside the array.
unfoldable pub store : List ℕ → ℕ → ℕ → Option (List ℕ)
store array i v = if ltb i (length array) then some (set array i v) else none

-- Two stores at one index.
unfoldable pub with_costs : ℕ → Sched → Option (List ℕ) → Option (List ℕ) → Option Sched
with_costs n s none swt = none
with_costs n s (some swc) none = none
with_costs n s (some swc) (some swt) = some (record s { swc = swc; swt = swt; swn = n + 1 })

unfoldable pub account_final_switch : Sched → Option Sched
unfolding store with_costs
account_final_switch s =
    with_costs s.swn s (store s.swc s.swn (sub64 s.exit_cycles s.entry_cycles))
      (store s.swt s.swn (sub64 s.exit_mtime s.entry_mtime))

-- The `if (have_prev)` block.
unfoldable pub close_previous : Sched → Option Sched
unfolding account_final_switch
close_previous s = if s.have_prev then account_final_switch s else some s

abbrev pub next_task : Option ℕ → ℕ → ℕ
next_task current n_tasks = elim current [ none ↦ 0 % n_tasks | some i ↦ (i + 1) % n_tasks ]

unfoldable pub remember : Trap → Sched → Sched
remember t s = record s {
  entry_cycles = t.cycle_at_entry;
  entry_mtime = t.mtime_at_entry;
  have_prev = true;
}

unfoldable pub go_on : Trap → Option Sched → Outcome
unfolding remember
go_on t none = endless
go_on t (some s) =
    let next = next_task s.current (length s.tasks) in
    resumed (task next) (remember t (record s { current = some next }))

-- From `ticks++` on.
unfoldable pub choose : Build → Clock → ℕ → Trap → Option Sched → Outcome
unfolding stimer_arm stimer_disarm remember go_on
choose b clock fuel t none = overrun
choose b clock fuel t (some s) =
    let counted = record s { ticks = s.ticks + 1 } in
    if leb n_ticks (s.ticks + 1)
    then resumed boot (remember t (stimer_disarm b (record counted { done = true })))
    else go_on t (stimer_arm b clock fuel counted)

unfoldable pub with_latency : Sched → Option (List ℕ) → Option Sched
unfolding close_previous
with_latency s none = none
with_latency s (some lat) = close_previous (record s { lat = lat })

abbrev pub parked_message : List ℕ
parked_message = codes "\nsmode: unexpected trap (not a timer interrupt), halting\n"

unfoldable pub strap_handler : Build → Clock → ℕ → Trap → Sched → Outcome
unfolding stimer_disarm store with_latency choose
strap_handler b clock fuel t s =
    if t.cause == cause_timer_irq b
    then if leb n_ticks s.ticks
      then resumed boot (record (stimer_disarm b s) { done = true })
      else choose b clock fuel t
          (with_latency s (store s.lat s.ticks (sub64 t.mtime_at_entry s.deadline)))
    else parked parked_message

-- The exit path of strap.S.
unfoldable pub leave : Trap → Outcome → Outcome
leave t (parked text) = parked text
leave t endless = endless
leave t overrun = overrun
leave t (resumed next s) =
    resumed next (record s { exit_cycles = t.cycle_at_exit; exit_mtime = t.mtime_at_exit })

unfoldable pub trap : Build → Clock → ℕ → Trap → Sched → Outcome
unfolding strap_handler leave
trap b clock fuel t s = leave t (strap_handler b clock fuel t s)
