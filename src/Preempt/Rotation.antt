-- ===== src/Preempt/Rotation.antt =====
-- The run of src/preempt/psched.c: `preempt_wait` over the timer interrupts.
use riscv_baremetal_demo.Base.{
  ℕ, ◌+◌, ◌-◌, ◌*◌, ◌%◌, ◌^◌, ◌≤◌, ◌<◌, ◌≡◌, refl, sym, ap, ap₂, ◌∙◌, inl, inr, true, false, ◌||◌,
  Option, some, List, [], ◌∷◌, ◌++◌, arith, ltb, leb, ◌==◌, if◌then◌else◌, Bool-cases, length,
}
use riscv_baremetal_demo.Timer.{Clock, quantum_ticks, next_deadline-paced}
use riscv_baremetal_demo.Preempt.{
  n_ticks, mcause_timer_irq, sub64, add_sample, Sched, clint_set_mtimecmp, timer_arm, Tick, Resume,
  boot, task, resumed, count_latency, account_final_switch, close_previous, next_task, choose,
  remember, ptrap_handler, stamp_exit, interrupt, preempt_wait, program, pick, leave, noted,
  and_then,
}
use riscv_baremetal_demo.Preempt.Samples.{add_all}

-- Every arming takes two readings of mtime, `2 k` and `2 k + 1`. The clock does not jump a quantum
-- between the two, and it does not come near the end of its 64 bits. Between one arming and the
-- next any time may pass.
pub record IsPaced (clock : Clock) : Type 0 where
  pub is_slow : (k : ℕ) → clock (2 * k + 1) < clock (2 * k) + quantum_ticks
  pub is_small : (r : ℕ) → clock r + quantum_ticks < 2 ^ 64

-- Every interrupt is the timer's.
unfoldable pub AllTimer : List Tick → Type 0
AllTimer [] = Unit {0}
AllTimer (t ∷ ts) = (t.mcause ≡ mcause_timer_irq) × AllTimer ts

-- What the interrupts from number `k` on resume.
unfoldable pub rotation : ℕ → List Tick → List Resume
rotation k [] = []
rotation k (t ∷ ts) = (if leb n_ticks (k + 1) then boot else task (k % 3)) ∷ rotation (k + 1) ts

-- Their latencies: interrupt `k` was armed one quantum after reading `2 k` of mtime.
unfoldable pub latencies : Clock → ℕ → List Tick → List ℕ
latencies clock k [] = []
latencies clock k (t ∷ ts) =
    sub64 t.mtime_at_entry (clock (2 * k) + quantum_ticks) ∷ latencies clock (k + 1) ts

-- What each switch cost, from its entry stamp to its exit stamp, in cycles and in mtime ticks.
unfoldable pub cycle_costs : List Tick → List ℕ
cycle_costs [] = []
cycle_costs (t ∷ ts) = sub64 t.cycle_at_exit t.cycle_at_entry ∷ cycle_costs ts

unfoldable pub time_costs : List Tick → List ℕ
time_costs [] = []
time_costs (t ∷ ts) = sub64 t.mtime_at_exit t.mtime_at_entry ∷ time_costs ts

-- The state in which interrupt `k` finds the scheduler.
pub record Ready (clock : Clock) (k : ℕ) (s : Sched) : Type 0 where
  pub is_ticks : s.ticks ≡ k
  pub is_next : k < n_ticks → next_task s.current 3 ≡ k % 3
  pub is_tasks : length s.tasks ≡ 3
  pub is_prev : s.have_prev ≡ ltb 0 k
  pub is_done : s.done ≡ leb n_ticks k
  pub is_swn : s.swn ≡ k - 1
  pub is_reads : s.reads ≡ 2 * k + 2
  pub is_deadline : s.deadline ≡ clock (2 * k) + quantum_ticks
  pub is_armed : s.mtimecmp ≡ s.deadline

module _ (clock : Clock) (paced : IsPaced clock) (fuel : ℕ) (enough : 1 ≤ fuel) where
  -- A state with the next deadline armed.
  unfoldable pub arm_next : Sched → Sched
  arm_next s =
      clint_set_mtimecmp (clock s.reads + quantum_ticks)
        (record s { deadline = clock s.reads + quantum_ticks; reads = s.reads + 2 })

  unfoldable closed : Tick → Sched → Sched
  unfolding count_latency close_previous
  closed t s = close_previous (count_latency t s)

  unfoldable after : Tick → Sched → Sched
  unfolding closed arm_next choose remember
  after t s = stamp_exit t (remember t (choose (arm_next (closed t s))).1)

  timer_arm_lem : (k : ℕ) (s : Sched) → s.reads ≡ 2 * k → timer_arm clock fuel s ≡ some (arm_next s)
  unfolding timer_arm program arm_next
  timer_arm_lem k s even = ap (program s) (
      next_deadline-paced clock fuel s.reads (rw even (paced.is_slow k)) (paced.is_small s.reads)
        enough)

  -- Closing the previous switch changes its statistics alone.
  closed_kept :
      (t : Tick) (s : Sched)
      → ((closed t s).ticks ≡ s.ticks + 1)
        × ((closed t s).tasks ≡ s.tasks)
        × ((closed t s).current ≡ s.current)
        × ((closed t s).reads ≡ s.reads)
        × ((closed t s).done ≡ s.done)
        × ((closed t s).lat ≡ add_sample (sub64 t.mtime_at_entry s.deadline) s.lat)
        × ((closed t s).swn ≡ (if s.have_prev then s.swn + 1 else s.swn))
        × ((closed t s).swc ≡ (close_previous s).swc)
        × ((closed t s).swt ≡ (close_previous s).swt)
  unfolding closed close_previous account_final_switch count_latency
  closed_kept t s = elim (Bool-cases s.have_prev) [
    | inl e ↦ rw e (refl, refl, refl, refl, refl, refl, refl, refl, refl)
    | inr e ↦ rw e (refl, refl, refl, refl, refl, refl, refl, refl, refl)
  ]

  interrupt_lem :
      (k : ℕ) (t : Tick) (s : Sched)
      → t.mcause ≡ mcause_timer_irq
      → s.reads ≡ 2 * k
      → interrupt clock fuel t s ≡ resumed (choose (arm_next (closed t s))).0 (after t s)
  unfolding interrupt ptrap_handler closed after leave pick
  interrupt_lem k t s e even =
      let test : (t.mcause == mcause_timer_irq) ≡ true = ground (arith, e) in
      rw test
        (ap (λ o. leave t (pick t o)) (timer_arm_lem k (closed t s) ((closed_kept t s).3 ∙ even)))

  -- Choosing the next task changes `current` and `done` alone.
  choose_kept :
      (s : Sched)
      → ((choose s).1.ticks ≡ s.ticks)
        × ((choose s).1.tasks ≡ s.tasks)
        × ((choose s).1.reads ≡ s.reads)
        × ((choose s).1.deadline ≡ s.deadline)
        × ((choose s).1.mtimecmp ≡ s.mtimecmp)
        × ((choose s).1.lat ≡ s.lat)
        × ((choose s).1.swn ≡ s.swn)
        × ((choose s).1.swc ≡ s.swc)
        × ((choose s).1.swt ≡ s.swt)
        × ((choose s).1.done ≡ (leb n_ticks s.ticks || s.done))
        × ((choose s).0
            ≡ (if leb n_ticks s.ticks then boot else task (next_task s.current (length s.tasks))))
        × ((choose s).1.current ≡ (
            if leb n_ticks s.ticks then s.current else some (next_task s.current (length s.tasks))))
  unfolding choose
  choose_kept s = elim (Bool-cases (leb n_ticks s.ticks)) [
    | inl e ↦ rw e (refl, refl, refl, refl, refl, refl, refl, refl, refl, refl, refl, refl)
    | inr e ↦ rw e (refl, refl, refl, refl, refl, refl, refl, refl, refl, refl, refl, refl)
  ]

  module _ (k : ℕ) (t : Tick) (s : Sched) (ready : Ready clock k s) where
    done_later : k < n_ticks → (leb n_ticks (k + 1) || leb n_ticks k) ≡ leb n_ticks (k + 1)
    done_later small = ground arith

    swn_later : (if s.have_prev then s.swn + 1 else s.swn) ≡ k + 1 - 1
    swn_later = let p = ready.is_prev in let n = ready.is_swn in ground (arith, p, n)

    chosen : k < n_ticks → next_task (closed t s).current (length (closed t s).tasks) ≡ k % 3
    chosen small =
        ap₂ next_task ((closed_kept t s).2) (ap length ((closed_kept t s).1) ∙ ready.is_tasks)
        ∙ ready.is_next small

    not_last : k + 1 < n_ticks → leb n_ticks (k + 1) ≡ false
    not_last more = ground arith

    mod_step : (k % 3 + 1) % 3 ≡ (k + 1) % 3
    mod_step = omega arith

    after-Ready : k < n_ticks → Ready clock (k + 1) (after t s)
    unfolding after arm_next remember
    after-Ready small =
        let k1 : (closed t s).ticks ≡ k + 1 =
          (closed_kept t s).0 ∙ ap (λ n. n + 1) ready.is_ticks in
        let (c1, c2, c3, c4, c5, c6, c7, c8, c9) = closed_kept t s in
        let (a1, a2, a3, a4, a5, a6, a7, a8, a9, a10, a11, a12) =
          choose_kept (arm_next (closed t s)) in
        record {
          is_ticks = a1 ∙ k1;
          is_next = λ more.
              ap (λ c. next_task c 3) a12
              ∙ ap₂ (λ b i. next_task (if b then (closed t s).current else some i) 3)
                  (ap (leb n_ticks) k1 ∙ not_last more) (chosen small)
              ∙ mod_step;
          is_tasks = ap length a2 ∙ ap length c2 ∙ ready.is_tasks;
          is_prev = ground arith;
          is_done = a10 ∙ ap₂ ◌||◌ (ap (leb n_ticks) k1) (c5 ∙ ready.is_done) ∙ done_later small;
          is_swn = a7 ∙ c7 ∙ swn_later;
          is_reads = omega (arith, a3, c4, ready.is_reads);
          is_deadline = a4 ∙ ap (λ r. clock r + quantum_ticks) (omega (arith, c4, ready.is_reads));
          is_armed = a5 ∙ sym a4;
        }

    choice :
        k < n_ticks
        → (choose (arm_next (closed t s))).0 ≡ (if leb n_ticks (k + 1) then boot else task (k % 3))
    unfolding arm_next closed
    choice small =
        let k1 : (closed t s).ticks ≡ k + 1 =
          (closed_kept t s).0 ∙ ap (λ n. n + 1) ready.is_ticks in
        (choose_kept (arm_next (closed t s))).10
        ∙ ap₂ (λ b i. if b then boot else task i) (ap (leb n_ticks) k1) (chosen small)

    latency_counted :
        (after t s).lat ≡ add_sample (sub64 t.mtime_at_entry (clock (2 * k) + quantum_ticks)) s.lat
    unfolding after arm_next remember
    latency_counted =
        (choose_kept (arm_next (closed t s))).5
        ∙ (closed_kept t s).5
        ∙ ap (λ d. add_sample (sub64 t.mtime_at_entry d) s.lat) ready.is_deadline

    cycles_counted :
        (close_previous (after t s)).swc
        ≡ add_sample (sub64 t.cycle_at_exit t.cycle_at_entry) (close_previous s).swc
    unfolding after arm_next remember close_previous account_final_switch
    cycles_counted =
        ap (add_sample (sub64 t.cycle_at_exit t.cycle_at_entry))
          ((choose_kept (arm_next (closed t s))).7 ∙ (closed_kept t s).7)

    time_counted :
        (close_previous (after t s)).swt
        ≡ add_sample (sub64 t.mtime_at_exit t.mtime_at_entry) (close_previous s).swt
    unfolding after arm_next remember close_previous account_final_switch
    time_counted =
        ap (add_sample (sub64 t.mtime_at_exit t.mtime_at_entry))
          ((choose_kept (arm_next (closed t s))).8 ∙ (closed_kept t s).8)

  -- What `preempt_wait` returns after the interrupts `ts` from number `k` on.
  pub record Returned (k : ℕ) (ts : List Tick) (s : Sched) (out : Option (List Resume × Sched))
      : Type 0 where
    pub last : Sched
    pub is_out : out ≡ some (rotation k ts, last)
    pub is_ready : Ready clock n_ticks last
    pub is_lat : last.lat ≡ add_all (latencies clock k ts) s.lat
    pub is_swc : (close_previous last).swc ≡ add_all (cycle_costs ts) (close_previous s).swc
    pub is_swt : (close_previous last).swt ≡ add_all (time_costs ts) (close_previous s).swt

  wait_done :
      (more : List Tick) (s : Sched) → s.done ≡ true → preempt_wait clock fuel more s ≡ some ([], s)
  unfolding preempt_wait
  wait_done [] s e = rw e refl
  wait_done (t ∷ more) s e = rw e refl

  going_on : {k : ℕ} → k < n_ticks → leb n_ticks k ≡ false
  going_on small = ground arith

  wait_step :
      (k : ℕ) (t : Tick) (ts : List Tick) (s : Sched)
      → t.mcause ≡ mcause_timer_irq
      → Ready clock k s
      → k < n_ticks
      → preempt_wait clock fuel (t ∷ ts) s
        ≡ noted (choose (arm_next (closed t s))).0 (preempt_wait clock fuel ts (after t s))
  unfolding preempt_wait and_then
  wait_step k t ts s timer ready small =
      let wait = preempt_wait clock fuel ts in
      ap (λ b. if b then some ([], s) else and_then (interrupt clock fuel t s) wait)
        (ready.is_done ∙ going_on small)
      ∙ ap (λ o. and_then o wait) (interrupt_lem (k + 1) t s timer (omega (arith, ready.is_reads)))

  pub preempt_wait-Returned :
      (k : ℕ) (ts more : List Tick) (s : Sched)
      → k + length ts ≡ n_ticks
      → AllTimer ts
      → Ready clock k s
      → Returned k ts s (preempt_wait clock fuel (ts ++ more) s)
  unfolding AllTimer rotation latencies cycle_costs time_costs add_all noted
  preempt_wait-Returned k [] more s all timers ready =
      let e : k ≡ n_ticks = omega arith in
      let there : Ready clock n_ticks s = rw e at ready in
      record {
        last = s;
        is_out = wait_done more s there.is_done;
        is_ready = there;
        is_lat = refl;
        is_swc = refl;
        is_swt = refl;
      }
  preempt_wait-Returned k (t ∷ ts) more s all timers ready =
      let small : k < n_ticks = omega arith in
      let rest =
        preempt_wait-Returned (k + 1) ts more (after t s) (omega arith) timers.1
          (after-Ready k t s ready small) in
      record {
        last = rest.last;
        is_out =
            wait_step k t (ts ++ more) s timers.0 ready small
            ∙ ap₂ noted (choice k t s ready small) rest.is_out;
        is_ready = rest.is_ready;
        is_lat =
            rest.is_lat ∙ ap (add_all (latencies clock (k + 1) ts)) (latency_counted k t s ready);
        is_swc = rest.is_swc ∙ ap (add_all (cycle_costs ts)) (cycles_counted k t s ready);
        is_swt = rest.is_swt ∙ ap (add_all (time_costs ts)) (time_counted k t s ready);
      }
