-- ===== src/Trials/Session.antt =====
-- All trials of src/mtimecmp/mt_main.c.
use riscv_baremetal_demo.Base.{
  ℕ, zero, suc, ◌+◌, ◌*◌, ◌≤◌, ◌<◌, ◌≡◌, refl, sym, ap, ◌∙◌, Bool, true, Option, some, List, arith,
  if◌then◌else◌, length, get_or, length-replicate,
}
use mathlib.Core.Path.{subst}
use native.Mathlib.Decide.{dec_le}
use riscv_baremetal_demo.Base.Text.{codes}
use riscv_baremetal_demo.Probe.{check, perform, Log}
use riscv_baremetal_demo.Trials.{
  mt_ntrials, mt_max_attempts, no_rec, Attempt, State, boot_state, run_one_trial,
}
use riscv_baremetal_demo.Trials.Clean.{IsDelivered, IsClean, Ends, run_one_trial-Ends}
use riscv_baremetal_demo.Trials.Report.{tried, run_trials}

-- The state between two trials.
pub record IsCounted (s : State) : Type 0 where
  pub recs : length s.rec ≡ mt_ntrials
  pub counts : s.trap_count ≡ s.attempts
  pub no_bad : s.bad_seen ≡ 0

-- What the trials from `i` on, `left` of them, leave: the check of a trial fails or its record is
-- clean, and the records ahead of `i` stay.
pub record Leaves (i left : ℕ) (s s' : State) (l l' : Log) : Type 0 where
  pub counted : IsCounted s'
  pub grown : l.fails ≤ l'.fails
  pub bounded : s'.attempts ≤ s.attempts + left * mt_max_attempts
  pub kept : (j : ℕ) → j < i → get_or s'.rec j no_rec ≡ get_or s.rec j no_rec
  pub clean : l'.fails ≡ l.fails → (j : ℕ) → i ≤ j → j < i + left → IsClean (get_or s'.rec j no_rec)

check_fails :
    (ok : Bool) (msg : List ℕ) (l : Log)
    → (perform (check ok msg) l).fails ≡ l.fails + (if ok then 0 else 1)
unfolding perform
check_fails ok msg l = ground arith

run_trials_none :
    (env : ℕ → Attempt) (i : ℕ) (s : State) (l : Log) → run_trials env 0 i s l ≡ some (s, l)
unfolding run_trials
run_trials_none env i s l = refl

run_trials_step :
    (env : ℕ → Attempt) (left i : ℕ) (s : State) (l : Log)
    → run_trials env (suc left) i s l
      ≡ tried (run_trials env left (i + 1)) l (run_one_trial i env s)
unfolding run_trials
run_trials_step env left i s l = refl

abbrev checked : Bool → Log → Log
checked ok l = perform (check ok (codes "arm window stretched 100 times, host too noisy")) l

tried-some :
    (next : State → Log → Option (State × Log)) (l : Log) (s : State) (ok : Bool)
    → tried next l (some (s, ok)) ≡ next s (checked ok l)
unfolding tried
tried-some next l s ok = refl

-- One trial ahead of those that follow.
Leaves-step :
    (left i : ℕ) (s s' s'' : State) (ok : Bool) (l l' : Log)
    → i < mt_ntrials
    → IsCounted s
    → Ends i mt_max_attempts s s' ok
    → Leaves (i + 1) left s' s'' (checked ok l) l'
    → Leaves i (suc left) s s'' l l'
Leaves-step left i s s' s'' ok l l' low counted ends after = record {
  counted = after.counted;
  grown = ground (arith, failed, after.grown);
  bounded = omega (arith, after.bounded, ends.taken);
  kept = λ j below. after.kept j (omega arith) ∙ ends.others j (omega arith);
  clean = λ same j from to. elim (dec_le (i + 1) j) [
    | yes later ↦ after.clean (ground (arith, failed, after.grown)) j later (omega arith)
    | no first ↦
        subst (λ k. IsClean (get_or s''.rec k no_rec)) (at_i j from first)
          (subst IsClean (sym (after.kept i (omega arith))) (ends.clean (was_ok same)))
  ];
}
  where
    failed : (checked ok l).fails ≡ l.fails + (if ok then 0 else 1)
    failed = check_fails ok _ l

    at_i : (j : ℕ) → i ≤ j → ¬ (i + 1 ≤ j) → i ≡ j
    at_i j from first = omega arith

    was_ok : l'.fails ≡ l.fails → ok ≡ true
    was_ok same = ground (arith, failed, after.grown)

run_trials-Leaves :
    (env : ℕ → Attempt) (left i : ℕ) (s : State) (l : Log)
    → ((k : ℕ) → IsDelivered (env k))
    → i + left ≤ mt_ntrials
    → IsCounted s
    → (s' : State) × (l' : Log) × (run_trials env left i s l ≡ some (s', l'))
      × Leaves i left s s' l l'
run_trials-Leaves env zero i s l delivered inside counted = (
  s,
  l,
  run_trials_none env i s l,
  record {
    counted = counted;
    grown = omega arith;
    bounded = omega arith;
    kept = λ j below. refl;
    clean = λ same j from to. absurd (omega arith);
  },
)
run_trials-Leaves env (suc left) i s l delivered inside counted =
    let (s', ok, ran, ends) = run_one_trial-Ends i env s delivered (omega arith) counted.recs in
    let still : IsCounted s' = record {
      recs = ends.recs ∙ counted.recs;
      counts = omega (arith, ends.trapped, counted.counts);
      no_bad = ends.bad ∙ counted.no_bad;
    } in
    let (s'', l', rest, after) =
      run_trials-Leaves env left (i + 1) s' (checked ok l) delivered (omega arith) still in
    (
      s'',
      l',
      run_trials_step env left i s l
          ∙ ap (tried (run_trials env left (i + 1)) l) ran
          ∙ tried-some (run_trials env left (i + 1)) l s' ok
          ∙ rest,
      Leaves-step left i s s' s'' ok l l' (omega arith) counted ends after,
    )

boot-IsCounted : IsCounted boot_state
boot-IsCounted = record { recs = length-replicate mt_ntrials no_rec; counts = refl; no_bad = refl }

-- If in every attempt a timer interrupt is delivered, with mtime below 2 ^ 63, the thousand trials
-- end after at most 100000 attempts, with as many traps counted as attempts and no bad trap. If
-- none of their checks failed, every one of the thousand records was armed before its deadline and
-- delivered at it or at most 1000 ticks later.
pub run_trials-Clean :
    (env : ℕ → Attempt) (l : Log)
    → ((k : ℕ) → IsDelivered (env k))
    → (s : State) × (l' : Log) × (run_trials env mt_ntrials 0 boot_state l ≡ some (s, l'))
      × IsCounted s
      × (s.attempts ≤ 100000)
      × (l'.fails ≡ l.fails → (j : ℕ) → j < mt_ntrials → IsClean (get_or s.rec j no_rec))
run_trials-Clean env l delivered =
    let (s, l', ran, leaves) =
      run_trials-Leaves env mt_ntrials 0 boot_state l delivered (omega arith) boot-IsCounted in
    (
      s,
      l',
      ran,
      leaves.counted,
      omega (arith, leaves.bounded),
      λ same j below. leaves.clean same j (omega arith) (omega arith),
    )
