-- ===== src/Preempt/Run.antt =====
-- The whole run of src/preempt: from power-up to the figures of the report.
use riscv_baremetal_demo.Base.{
  ℕ, ◌+◌, ◌*◌, ◌/◌, ◌%◌, ◌^◌, ◌≤◌, ◌<◌, ◌≡◌, refl, ap, ◌∙◌, true, some, List, [], ◌∷◌, ◌++◌, arith,
  length,
}
use mathlib.Core.List.{Mem}
use riscv_baremetal_demo.Timer.{Clock, quantum_ticks, next_deadline-paced}
use riscv_baremetal_demo.Preempt.{
  n_ticks, Sched, power_up, ptask_create, timer_arm, program, preempt_init, preempt_wait, Tick,
  Stats,
}
use riscv_baremetal_demo.Preempt.Samples.{total, Within}
use riscv_baremetal_demo.Preempt.Rotation.{
  IsPaced, AllTimer, rotation, Ready, Returned, preempt_wait-Returned,
}
use riscv_baremetal_demo.Preempt.Report.{Link, ptasks_register, run_from, scheduled}

-- The figures of one series of samples, as the report prints them: every sample lies between the
-- minimum and the maximum, both are samples, and the average lies between them.
pub record Figures (xs : List ℕ) (s : Stats) : Type 0 where
  pub is_within : Within s.least s.most xs
  pub is_least : Mem s.least xs
  pub is_most : Mem s.most xs
  pub is_total : s.sum ≡ total xs % 2 ^ 64
  pub is_between : total xs < 2 ^ 64 → (s.least ≤ s.sum / length xs) × (s.sum / length xs ≤ s.most)

-- Samples are unsigned longs.
abbrev AreSmall : List ℕ → Type 0
AreSmall [] = Unit {0}
AreSmall (x ∷ xs) = (x < 2 ^ 64) × AreSmall xs

module _ (clock : Clock) (paced : IsPaced clock) (fuel : ℕ) (enough : 1 ≤ fuel) (l : Link) where
  -- The state that `preempt_init` leaves.
  started : Sched
  unfolding ptasks_register ptask_create
  started = record (ptasks_register l power_up) {
    deadline = clock 0 + quantum_ticks;
    mtimecmp = clock 0 + quantum_ticks;
    reads = 2;
  }

  started_lem : preempt_init clock fuel (ptasks_register l power_up) ≡ some started
  unfolding started preempt_init timer_arm program ptasks_register ptask_create
  started_lem =
      ap (program (ptasks_register l power_up))
        (next_deadline-paced clock fuel 0 (paced.is_slow 0) (paced.is_small 0) enough)

  started-Ready : Ready clock 0 started
  unfolding started ptasks_register ptask_create
  started-Ready = record {
    is_ticks = refl;
    is_next = λ _. refl;
    is_tasks = refl;
    is_prev = refl;
    is_done = refl;
    is_swn = refl;
    is_reads = refl;
    is_deadline = refl;
    is_armed = refl;
  }

module _ (clock : Clock) (paced : IsPaced clock) (fuel : ℕ) (enough : 1 ≤ fuel) (l : Link)
    (ts more : List Tick) (all : length ts ≡ n_ticks) (timers : AllTimer ts) where
  -- The run of the first 200 interrupts.
  ran :
      Returned clock paced fuel enough 0 ts
        (started clock paced fuel enough l)
        (preempt_wait clock fuel (ts ++ more) (started clock paced fuel enough l))
  ran =
      preempt_wait-Returned clock paced fuel enough 0 ts more (started clock paced fuel enough l)
        (omega (arith, all)) timers (started-Ready clock paced fuel enough l)

  run_lem : scheduled clock fuel l (ts ++ more) ≡ some (rotation 0 ts, ran.last)
  unfolding scheduled run_from
  run_lem =
      ap (run_from clock fuel (ts ++ more)) (started_lem clock paced fuel enough l) ∙ ran.is_out

  -- With a clock that does not jump a quantum within one arming, the scheduler ends whatever
  -- interrupts follow: after exactly 200 timer interrupts `preempt_wait` returns. They resumed the
  -- three tasks in turn, and the last of them `preempt_wait`; the timer is armed once more.
  pub scheduled-rotates :
      (s : Sched) × (scheduled clock fuel l (ts ++ more) ≡ some (rotation 0 ts, s))
      × (s.ticks ≡ n_ticks)
      × (s.done ≡ true)
      × (s.mtimecmp ≡ clock (2 * n_ticks) + quantum_ticks)
  scheduled-rotates = (
    ran.last,
    run_lem,
    ran.is_ready.is_ticks,
    ran.is_ready.is_done,
    ran.is_ready.is_armed ∙ ran.is_ready.is_deadline,
  )
