-- ===== src/Preempt/Tests.antt =====
-- The preemptive scheduler of src/preempt on a steady machine.
use riscv_baremetal_demo.Base.{
  ℕ, zero, suc, ◌+◌, ◌*◌, ◌≡◌, refl, true, some, List, [], ◌∷◌, ◌++◌, arith, replicate, ◌/◌, ◌%◌,
  length,
}
use Prim.Native.Nat.{min}
use riscv_baremetal_demo.Timer.{Clock, quantum_ticks, Found, next_deadline, next_deadline-Found}
use riscv_baremetal_demo.Preempt.{
  n_ticks, mcause_timer_irq, Sched, Tick, boot, task, ptrap_handler, power_up, parked_message,
  parked,
}
use riscv_baremetal_demo.Preempt.Rotation.{IsPaced, AllTimer, rotation}
use riscv_baremetal_demo.Preempt.Report.{Link, scheduled, ptask_a}
use riscv_baremetal_demo.Preempt.Run.{scheduled-rotates}

-- Every interrupt comes 10050 ticks after the arming before it, up to a million of them, and the
-- second reading of an arming comes 3 ticks after the first.
abbrev steady : Clock
steady r = min (r / 2) 1000000 * 10050 + r % 2 * 3

steady-IsPaced : IsPaced steady
steady-IsPaced = record { is_slow = λ k. omega arith; is_small = λ r. omega arith }

abbrev tick_at : ℕ → Tick
tick_at k = record {
  mcause = mcause_timer_irq;
  mtime_at_entry = steady (2 * k) + 10040;
  cycle_at_entry = 100 + k * 1000;
  mtime_at_exit = steady (2 * k) + 10057;
  cycle_at_exit = 400 + k * 1000;
}

abbrev a_tick : Tick
a_tick = tick_at 0

abbrev a_link : Link
a_link = record { base = 0x80001000; trampoline = 0x80000100; at_a = 1; at_b = 2; at_c = 3 }

-- The interrupts from number `k` on.
ticks_from : ℕ → ℕ → List Tick
ticks_from zero k = []
ticks_from (suc n) k = tick_at k ∷ ticks_from n (k + 1)

abbrev ticks_200 : List Tick
ticks_200 = ticks_from 200 0

all_timer : (n k : ℕ) → AllTimer (ticks_from n k)
unfolding AllTimer ticks_from
all_timer zero k = tt
all_timer (suc n) k = (refl, all_timer n (k + 1))

length-ticks_from : (n k : ℕ) → length (ticks_from n k) ≡ n
unfolding ticks_from
length-ticks_from zero k = refl
length-ticks_from (suc n) k = omega (arith, length-ticks_from n (k + 1))

a_late_clock : Clock
a_late_clock r = min (r * 9000) 90000

next_deadline-Found_example :
    Found a_late_clock (a_late_clock 0 + quantum_ticks) 1 1 (next_deadline a_late_clock 5 0)
unfolding a_late_clock
next_deadline-Found_example =
    next_deadline-Found a_late_clock 5 0 1 (omega arith) (omega arith) (omega arith)

scheduled-rotates_example :
    (s : Sched) × (scheduled steady 1 a_link (ticks_200 ++ []) ≡ some (rotation 0 ticks_200, s))
    × (s.ticks ≡ n_ticks)
    × (s.done ≡ true)
    × (s.mtimecmp ≡ steady (2 * n_ticks) + quantum_ticks)
scheduled-rotates_example =
    scheduled-rotates steady steady-IsPaced 1 (omega arith) a_link ticks_200 []
      (length-ticks_from 200 0) (all_timer 200 0)

first_three : rotation 0 (replicate 3 a_tick) ≡ task 0 ∷ task 1 ∷ task 2 ∷ []
unfolding rotation
first_three = refl

last_two : rotation 198 (replicate 2 a_tick) ≡ task 0 ∷ boot ∷ []
unfolding rotation
last_two = refl

unexpected_trap :
    ptrap_handler steady 1 (record a_tick { mcause = 2 }) power_up ≡ parked parked_message
unfolding ptrap_handler
unexpected_trap = refl

first_spin : (ptask_a (record { state = 1; iters = 0 })).state ≡ 7806831264735756412
unfolding ptask_a
first_spin = refl
