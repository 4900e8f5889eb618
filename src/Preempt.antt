-- ===== src/Preempt.antt =====
-- src/preempt/psched.c, clint.c, ptasks.c and pmain.c: the preemptive round-robin scheduler. The
-- registers that trap.S saves for the interrupted task are not modelled.
pub mod Samples
pub mod Rotation
pub mod Report
pub mod Run
mod Tests
use riscv_baremetal_demo.Base.{
  ℕ, ◌+◌, ◌-◌, ◌*◌, ◌%◌, ◌^◌, Bool, true, false, Option, none, some, List, [], ◌∷◌, ◌++◌, ltb, leb,
  ◌==◌, if◌then◌else◌, length, set, replicate,
}
use riscv_baremetal_demo.Base.Text.{codes, joined}
use riscv_baremetal_demo.Uart.Text.{dec, hex}
use riscv_baremetal_demo.Timer.{Clock, quantum_ticks, skip_late, next_deadline}

abbrev pub n_ticks : ℕ
n_ticks = 200

abbrev pub mcause_timer_irq : ℕ
mcause_timer_irq = 0x8000000000000007

abbrev pub ptask_max : ℕ
ptask_max = 3

abbrev pub pstack_size : ℕ
pstack_size = 4096

-- `a - b` on `unsigned long`
abbrev pub sub64 : ℕ → ℕ → ℕ
sub64 a b = (a + (2 ^ 64 - b)) % 2 ^ 64

-- The minimum, maximum and sum of the samples so far.
pub record Stats : Type 0 where
  pub least : ℕ
  pub most : ℕ
  pub sum : ℕ

abbrev pub no_samples : Stats
no_samples = record { least = 2 ^ 64 - 1; most = 0; sum = 0 }

unfoldable pub add_sample : ℕ → Stats → Stats
add_sample v s = record {
  least = if ltb v s.least then v else s.least;
  most = if ltb s.most v then v else s.most;
  sum = (s.sum + v) % 2 ^ 64;
}

-- `ptask_t`: the trapframe that `ptask_create` prepares, the body's address and its name.
pub record Ptask : Type 0 where
  pub regs : List ℕ
  pub mepc : ℕ
  pub mtime_at_entry : ℕ
  pub cycle_at_entry : ℕ
  pub fn : ℕ
  pub name : List ℕ

-- The statics of psched.c and the compare register. `current` is `none` for -1; `reads` counts the
-- readings of mtime.
pub record Sched : Type 0 where
  pub tasks : List Ptask
  pub current : Option ℕ
  pub exit_cycles : ℕ
  pub exit_mtime : ℕ
  pub entry_cycles : ℕ
  pub entry_mtime : ℕ
  pub have_prev : Bool
  pub ticks : ℕ
  pub done : Bool
  pub deadline : ℕ
  pub mtimecmp : ℕ
  pub reads : ℕ
  pub lat : Stats
  pub swc : Stats
  pub swt : Stats
  pub swn : ℕ

-- The statics at power-up.
abbrev pub power_up : Sched
power_up = record {
  tasks = [];
  current = none;
  exit_cycles = 0;
  exit_mtime = 0;
  entry_cycles = 0;
  entry_mtime = 0;
  have_prev = false;
  ticks = 0;
  done = false;
  deadline = 0;
  mtimecmp = 0;
  reads = 0;
  lat = no_samples;
  swc = no_samples;
  swt = no_samples;
  swn = 0;
}

-- `sizeof(ptask_t)` and `sizeof(trapframe_t)`: 35 words; then the stack, aligned to 16 bytes, and
-- two pointers, padded to 16 bytes.
abbrev pub trapframe_size : ℕ
trapframe_size = 8 * 35

abbrev pub stack_offset : ℕ
stack_offset = trapframe_size + 8

abbrev pub ptask_size : ℕ
ptask_size = stack_offset + pstack_size + 8 + 8

-- The initial stack pointer of task `i`, with the table at `base`.
abbrev pub stack_top : ℕ → ℕ → ℕ
stack_top base i = let top = base + i * ptask_size + stack_offset + pstack_size in top - top % 16

-- `trampoline` is the address of `ptask_trampoline`.
unfoldable pub ptask_create : ℕ → ℕ → ℕ → List ℕ → Sched → Sched
ptask_create base trampoline fn name s =
    let created : Ptask = record {
      regs = set (replicate 32 0) 2 (stack_top base (length s.tasks));
      mepc = trampoline;
      mtime_at_entry = 0;
      cycle_at_entry = 0;
      fn = fn;
      name = name;
    } in
    if leb ptask_max (length s.tasks) then s else record s { tasks = s.tasks ++ (created ∷ []) }

abbrev pub clint_set_mtimecmp : ℕ → Sched → Sched
clint_set_mtimecmp v s = record s { mtimecmp = v }

-- Store the deadline that was found, and program it.
unfoldable pub program : Sched → Option (ℕ × ℕ) → Option Sched
program s none = none
program s (some (deadline, reads)) =
    some (clint_set_mtimecmp deadline (record s { deadline = deadline; reads = reads }))

unfoldable pub timer_arm : Clock → ℕ → Sched → Option Sched
unfolding program
timer_arm clock fuel s = program s (next_deadline clock fuel s.reads)

-- `preempt_init`, which also installs the trap vector and enables the interrupt.
unfoldable pub preempt_init : Clock → ℕ → Sched → Option Sched
unfolding timer_arm
preempt_init clock fuel s =
    timer_arm clock fuel (record s { ticks = 0; done = false; have_prev = false })

-- What trap.S and the hart record of one timer interrupt: its cause, the stamps at trap entry, and
-- the stamps that the exit path takes after the handler.
pub record Tick : Type 0 where
  pub mcause : ℕ
  pub mtime_at_entry : ℕ
  pub cycle_at_entry : ℕ
  pub mtime_at_exit : ℕ
  pub cycle_at_exit : ℕ

-- Where the exit path goes on: in `preempt_wait`, or in a task.
pub data Resume : Type 0 where
  boot : Resume
  task : ℕ → Resume

-- The handler parks the hart in an endless loop, does not return, or returns a frame.
pub data Outcome : Type 0 where
  parked : List ℕ → Outcome
  endless : Outcome
  resumed : Resume → Sched → Outcome

-- The interrupt's latency, in the `lat` statistics.
unfoldable pub count_latency : Tick → Sched → Sched
unfolding add_sample
count_latency t s = record s {
  ticks = s.ticks + 1;
  lat = add_sample (sub64 t.mtime_at_entry s.deadline) s.lat;
}

unfoldable pub account_final_switch : Sched → Sched
unfolding add_sample
account_final_switch s = record s {
  swc = add_sample (sub64 s.exit_cycles s.entry_cycles) s.swc;
  swt = add_sample (sub64 s.exit_mtime s.entry_mtime) s.swt;
  swn = s.swn + 1;
}

-- The `if (have_prev)` block, which does what `account_final_switch` does.
unfoldable pub close_previous : Sched → Sched
unfolding account_final_switch
close_previous s = if s.have_prev then account_final_switch s else s

-- `(current + 1) % n_tasks`
abbrev pub next_task : Option ℕ → ℕ → ℕ
next_task current n_tasks = elim current [ none ↦ 0 % n_tasks | some i ↦ (i + 1) % n_tasks ]

unfoldable pub choose : Sched → Resume × Sched
choose s =
    let next = next_task s.current (length s.tasks) in
    if leb n_ticks s.ticks
    then (boot, record s { done = true })
    else (task next, record s { current = some next })

unfoldable pub remember : Tick → Sched → Sched
remember t s = record s {
  entry_cycles = t.cycle_at_entry;
  entry_mtime = t.mtime_at_entry;
  have_prev = true;
}

abbrev pub parked_message : List ℕ
parked_message = codes "\npreempt: unexpected trap (not a timer interrupt), halting\n"

-- The rest of the handler, with the timer armed.
unfoldable pub pick : Tick → Option Sched → Outcome
unfolding choose remember
pick t none = endless
pick t (some s) = let (next, s') = choose s in resumed next (remember t s')

unfoldable pub ptrap_handler : Clock → ℕ → Tick → Sched → Outcome
unfolding count_latency close_previous timer_arm pick
ptrap_handler clock fuel t s =
    if t.mcause == mcause_timer_irq
    then pick t (timer_arm clock fuel (close_previous (count_latency t s)))
    else parked parked_message

-- The exit path of trap.S.
abbrev pub stamp_exit : Tick → Sched → Sched
stamp_exit t s = record s { exit_cycles = t.cycle_at_exit; exit_mtime = t.mtime_at_exit }

unfoldable pub leave : Tick → Outcome → Outcome
leave t (parked text) = parked text
leave t endless = endless
leave t (resumed next s) = resumed next (stamp_exit t s)

-- One interrupt: the handler, then the exit path.
unfoldable pub interrupt : Clock → ℕ → Tick → Sched → Outcome
unfolding ptrap_handler leave
interrupt clock fuel t s = leave t (ptrap_handler clock fuel t s)

unfoldable pub noted : Resume → Option (List Resume × Sched) → Option (List Resume × Sched)
noted next none = none
noted next (some (others, s)) = some (next ∷ others, s)

-- What follows an interrupt that the handler returned from.
unfoldable pub and_then :
    Outcome → (Sched → Option (List Resume × Sched)) → Option (List Resume × Sched)
unfolding noted
and_then (parked text) wait = none
and_then endless wait = none
and_then (resumed next s) wait = noted next (wait s)

-- `while (!done) wfi`, over the interrupts to come: what each resumed, and the state that
-- `preempt_wait` returns in; `none` if it never returns.
unfoldable pub preempt_wait : Clock → ℕ → List Tick → Sched → Option (List Resume × Sched)
unfolding interrupt and_then
preempt_wait clock fuel [] s = if s.done then some ([], s) else none
preempt_wait clock fuel (t ∷ ts) s =
    let going = and_then (interrupt clock fuel t s) (preempt_wait clock fuel ts) in
    if s.done then some ([], s) else going
