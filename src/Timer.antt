-- ===== src/Timer.antt =====
-- The deadline that a timer interrupt handler arms: `timer_arm` of src/preempt/psched.c and
-- `stimer_arm` of src/smode/stimer.c compute it alike.
use riscv_baremetal_demo.Base.{
  ℕ, zero, suc, ◌+◌, ◌*◌, ◌%◌, ◌^◌, ◌≤◌, ◌<◌, ◌≡◌, refl, ap, ap₂, ◌∙◌, inl, inr, false, Option,
  none, some, arith, leb, if◌then◌else◌, Bool-cases,
}

-- What each reading of mtime returns, by its number.
abbrev pub Clock : Type 0
Clock = ℕ → ℕ

-- One millisecond at 10 MHz.
abbrev pub quantum_ticks : ℕ
quantum_ticks = 10000

-- `while (deadline <= mtime) deadline += QUANTUM_TICKS`, with fuel and the number of the next
-- reading; the deadline and the next reading's number, or `none` if the fuel runs out.
pub skip_late : Clock → ℕ → ℕ → ℕ → Option (ℕ × ℕ)
skip_late clock zero deadline reads = none
skip_late clock (suc fuel) deadline reads =
    let later = skip_late clock fuel ((deadline + quantum_ticks) % 2 ^ 64) (reads + 1) in
    if leb deadline (clock reads) then later else some (deadline, reads + 1)

-- The deadline that is armed, from reading `reads` on.
pub next_deadline : Clock → ℕ → ℕ → Option (ℕ × ℕ)
unfolding skip_late
next_deadline clock fuel reads =
    skip_late clock fuel ((clock reads + quantum_ticks) % 2 ^ 64) (reads + 1)

-- What the loop finds: the first deadline, some quanta on, that is ahead of the reading it was
-- tested against.
pub record Found (clock : Clock) (from reads most : ℕ) (out : Option (ℕ × ℕ)) : Type 0 where
  pub steps : ℕ
  pub is_out : out ≡ some (from + quantum_ticks * steps, reads + steps + 1)
  pub is_ahead : clock (reads + steps) < from + quantum_ticks * steps
  pub is_first : (j : ℕ) → j < steps → from + quantum_ticks * j ≤ clock (reads + j)
  pub is_soon : steps ≤ most

stop_here :
    (clock : Clock) (from reads most : ℕ)
    → clock reads < from
    → Found clock from reads most (some (from, reads + 1))
stop_here clock from reads most now = record {
  steps = 0;
  is_out = ap some (ap₂ (λ (a b : ℕ). (a, b)) (omega arith) (omega arith));
  is_ahead = let e : reads ≡ reads + 0 = omega arith in let c = ap clock e in omega arith;
  is_first = λ j h. absurd (omega arith);
  is_soon = omega arith;
}

first_later :
    (clock : Clock) (from reads steps : ℕ)
    → from ≤ clock reads
    → ((j : ℕ) → j < steps → from + quantum_ticks + quantum_ticks * j ≤ clock (reads + 1 + j))
    → (j : ℕ) → j < suc steps
    → from + quantum_ticks * j ≤ clock (reads + j)
first_later clock from reads steps late rest zero h =
    let e : reads ≡ reads + 0 = omega arith in let c = ap clock e in omega (arith, late, c)
first_later clock from reads steps late rest (suc j) h =
    let e : reads + 1 + j ≡ reads + suc j = omega arith in
    let c = ap clock e in let r = rest j (omega arith) in omega (arith, r, c)

-- One turn of the loop before a run that found its deadline.
one_quantum_on :
    (clock : Clock) (from reads most : ℕ) (out : Option (ℕ × ℕ))
    → from ≤ clock reads
    → Found clock (from + quantum_ticks) (reads + 1) most out
    → Found clock from reads (suc most) out
one_quantum_on clock from reads most out late f = record {
  steps = suc f.steps;
  is_out = f.is_out ∙ ap some (ap₂ (λ (a b : ℕ). (a, b)) (omega arith) (omega arith));
  is_ahead =
      let e : reads + 1 + f.steps ≡ reads + suc f.steps = omega arith in
      let h = ap clock e in omega (arith, f.is_ahead, h);
  is_first = λ j h. first_later clock from reads f.steps late f.is_first j h;
  is_soon = omega (arith, f.is_soon);
}

skip_late-Found :
    (clock : Clock) (fuel deadline reads k : ℕ)
    → clock (reads + k) < deadline + quantum_ticks * k
    → deadline + quantum_ticks * k < 2 ^ 64
    → k < fuel
    → Found clock deadline reads k (skip_late clock fuel deadline reads)
unfolding skip_late
skip_late-Found clock zero deadline reads k in_time small enough = absurd (omega arith)
skip_late-Found clock (suc fuel) deadline reads zero in_time small enough =
    let e : reads + 0 ≡ reads = omega arith in
    let c = ap clock e in
    let now : clock reads < deadline = omega arith in
    let test : leb deadline (clock reads) ≡ false = ground arith in
    rw test (stop_here clock deadline reads zero now)
skip_late-Found clock (suc fuel) deadline reads (suc k) in_time small enough =
    elim (Bool-cases (leb deadline (clock reads))) [
      | inl late ↦ rw late (
          let e : reads + suc k ≡ reads + 1 + k = omega arith in
          let c = ap clock e in
          let w : (deadline + quantum_ticks) % 2 ^ 64 ≡ deadline + quantum_ticks = omega arith in
          rw w (
            one_quantum_on clock deadline reads k _ (ground arith) (
              skip_late-Found clock fuel (deadline + quantum_ticks) (reads + 1) k (omega arith)
                (omega arith) (omega arith))))
      | inr early ↦ rw early (stop_here clock deadline reads (suc k) (ground arith))
    ]

-- If, some `k` readings after the first, mtime is still less than `k + 1` quanta from the first
-- reading, and no deadline up to there overflows 64 bits, then `k + 1` turns of fuel are enough,
-- and the deadline armed is the first number of whole quanta after the first reading that lies
-- ahead of the reading it was tested against.
pub next_deadline-Found :
    (clock : Clock) (fuel reads k : ℕ)
    → clock (reads + 1 + k) < clock reads + quantum_ticks * (k + 1)
    → clock reads + quantum_ticks * (k + 1) < 2 ^ 64
    → k < fuel
    → Found clock (clock reads + quantum_ticks) (reads + 1) k (next_deadline clock fuel reads)
unfolding next_deadline
next_deadline-Found clock fuel reads k in_time small enough =
    let w : (clock reads + quantum_ticks) % 2 ^ 64 ≡ clock reads + quantum_ticks = omega arith in
    rw w (
      skip_late-Found clock fuel (clock reads + quantum_ticks) (reads + 1) k (omega arith)
        (omega arith) enough)

-- With readings less than a quantum apart the loop never skips.
pub next_deadline-paced :
    (clock : Clock) (fuel reads : ℕ)
    → clock (reads + 1) < clock reads + quantum_ticks
    → clock reads + quantum_ticks < 2 ^ 64
    → 1 ≤ fuel
    → next_deadline clock fuel reads ≡ some (clock reads + quantum_ticks, reads + 2)
unfolding next_deadline skip_late
next_deadline-paced clock zero reads in_time small enough = absurd (omega arith)
next_deadline-paced clock (suc fuel) reads in_time small enough =
    let w : (clock reads + quantum_ticks) % 2 ^ 64 ≡ clock reads + quantum_ticks = omega arith in
    let test : leb (clock reads + quantum_ticks) (clock (reads + 1)) ≡ false = ground arith in
    let e : reads + 1 + 1 ≡ reads + 2 = omega arith in rw w (rw test (rw e refl))
