-- ===== src/Trials/Tests.antt =====
-- Runs of the model of src/mtimecmp/mt_main.c, and the theorems at concrete stamps and values.
use riscv_baremetal_demo.Base.{
  ◌^◌, ◌-◌, ◌<◌, ◌≤◌, none, some, Option, List, ℕ, ◌+◌, ◌*◌, ◌%◌, ◌≡◌, refl, Bool, true, false, [],
  ◌∷◌, arith, length, get_or,
}
use riscv_baremetal_demo.Probe.{Log, power_up}
use riscv_baremetal_demo.Smode.Sort.{place_from, place, shift}
use riscv_baremetal_demo.Trials.{
  mcause_mti, mt_ntrials, no_rec, Attempt, State, boot_state, run_one_trial, attempt_loop, judge,
  is_noisy, mt_trial, spin, stamp_pre, mt_trap_handler, arm_trial,
}
use riscv_baremetal_demo.Trials.Statistics.{
  calc_stats, sort_asc, sum_from, hist_buckets, buckets_from, bucket,
}
use riscv_baremetal_demo.Trials.Quantiles.{IsSummary, calc_stats-IsSummary}
use riscv_baremetal_demo.Trials.Clean.{IsDelivered, IsClean}
use riscv_baremetal_demo.Smode.Sorted.{count}
use riscv_baremetal_demo.Trials.Buckets.{AreBuckets, total, hist_buckets-AreBuckets}
use riscv_baremetal_demo.Trials.Report.{run_trials}
use riscv_baremetal_demo.Trials.Session.{IsCounted, run_trials-Clean}

abbrev values : List ℕ
values = 7 ∷ 3 ∷ 9 ∷ 3 ∷ 5 ∷ []

calc_stats-values : calc_stats values ≡ record { least = 3; p50 = 5; p99 = 9; most = 9; mean = 5 }
unfolding calc_stats sort_asc sum_from place_from place shift
calc_stats-values = refl

hist_buckets-values : hist_buckets values ≡ some ((3, 2) ∷ (5, 1) ∷ (7, 1) ∷ (9, 1) ∷ [])
unfolding hist_buckets buckets_from bucket calc_stats sort_asc sum_from place_from place shift
hist_buckets-values = refl

calc_stats-IsSummary_example : IsSummary values (calc_stats values)
calc_stats-IsSummary_example = calc_stats-IsSummary values (omega arith)

small_values : (x : ℕ) → 1 ≤ count x values → x < 2 ^ 64 - 1
unfolding count
small_values x occurs = ground (arith, occurs)

hist_buckets-AreBuckets_example :
    (bs : List (ℕ × ℕ)) × (hist_buckets values ≡ some bs)
    × AreBuckets (calc_stats values).least values bs
    × (total bs ≡ length values)
hist_buckets-AreBuckets_example = hist_buckets-AreBuckets values (omega arith) small_values

endless_histogram : hist_buckets ((2 ^ 64 - 1) ∷ []) ≡ none
unfolding hist_buckets buckets_from bucket calc_stats sort_asc sum_from place_from place shift
endless_histogram = refl

-- The k-th attempt is delivered k ticks after its deadline.
abbrev attempt : ℕ → Attempt
attempt k = record {
  now = 1000;
  t_pre = 1010;
  c_pre = 2000;
  traps =
      record {
        mcause = mcause_mti;
        mepc = 0x80000400;
        mtime_entry = 6000 + k % 100;
        cycle_entry = 9000;
      }
      ∷ [];
}

-- The first two attempts overshoot the bound.
abbrev noisy_start : ℕ → Attempt
noisy_start k = record {
  now = 1000;
  t_pre = 1010;
  c_pre = 2000;
  traps =
      record {
        mcause = mcause_mti;
        mepc = 0x80000400;
        mtime_entry = 6000 + (2 - k) * 2000;
        cycle_entry = 9000;
      }
      ∷ [];
}

abbrev small_state : State
small_state = record boot_state { rec = no_rec ∷ [] }

abbrev after_noise : Option (State × Bool) → ℕ × ℕ × Bool
after_noise none = (0, 0, false)
after_noise (some (s, ok)) = (s.attempts, s.retries, ok)

retried_twice : after_noise (run_one_trial 0 noisy_start small_state) ≡ (3, 2, true)
unfolding run_one_trial attempt_loop judge is_noisy mt_trial spin stamp_pre mt_trap_handler
    arm_trial
retried_twice = refl

attempt-IsDelivered : (k : ℕ) → IsDelivered (attempt k)
attempt-IsDelivered k = record {
  first = record {
    mcause = mcause_mti;
    mepc = 0x80000400;
    mtime_entry = 6000 + k % 100;
    cycle_entry = 9000;
  };
  others = [];
  is_first = refl;
  is_timer = refl;
  early = omega arith;
  early_entry = omega arith;
}

run_trials-Clean_example :
    (s : State) × (l' : Log) × (run_trials attempt mt_ntrials 0 boot_state power_up ≡ some (s, l'))
    × IsCounted s
    × (s.attempts ≤ 100000)
    × (l'.fails ≡ power_up.fails → (j : ℕ) → j < mt_ntrials → IsClean (get_or s.rec j no_rec))
run_trials-Clean_example = run_trials-Clean attempt power_up attempt-IsDelivered
