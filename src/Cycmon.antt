-- ===== src/Cycmon.antt =====
-- src/cycmon/cyc_main.c: a thousand samples of the cycle counter, their statistics and checks.
use riscv_baremetal_demo.Base.{
  ℕ, ◌+◌, ◌-◌, ◌/◌, ◌%◌, ◌^◌, Bool, true, false, ◌||◌, List, [], ◌∷◌, ltb, leb, ◌==◌, if◌then◌else◌,
  length, get_or,
}
use riscv_baremetal_demo.Base.Text.{codes, joined}
use riscv_baremetal_demo.Uart.Text.{dec, hex}
use riscv_baremetal_demo.Probe.{Statement, says, check, perform, Log, run, power_up}
use riscv_baremetal_demo.Smode.Sort.{place_from}
pub mod Verdict
mod Tests

abbrev pub nsamples : ℕ
nsamples = 1000

abbrev pub outlier_thresh : ℕ
outlier_thresh = 2 ^ 20

abbrev pub max_outliers : ℕ
max_outliers = nsamples / 100

-- Subtraction of unsigned longs.
abbrev pub sub64 : ℕ → ℕ → ℕ
sub64 a b = (a + (2 ^ 64 - b)) % 2 ^ 64

-- `c0[i]` and `delta[i]`.
pub record Sample : Type 0 where
  pub c0 : ℕ
  pub delta : ℕ

-- The two reads of the counter.
unfoldable pub take_sample : ℕ × ℕ → Sample
take_sample (b, a) = record { c0 = b; delta = sub64 a b }

unfoldable pub take_samples : List (ℕ × ℕ) → List Sample
unfolding take_sample
take_samples [] = []
take_samples (r ∷ rs) = take_sample r ∷ take_samples rs

unfoldable pub deltas : List Sample → List ℕ
deltas [] = []
deltas (s ∷ ss) = s.delta ∷ deltas ss

-- `sorted`.
unfoldable pub sort_copy : List ℕ → List ℕ
sort_copy ds = place_from (length ds - 1) 1 ds

unfoldable pub count_outliers : List ℕ → ℕ
count_outliers [] = 0
count_outliers (d ∷ ds) = (if ltb outlier_thresh d then 1 else 0) + count_outliers ds

-- `ok` of check 1.
unfoldable pub all_positive : List ℕ → Bool
all_positive [] = true
all_positive (d ∷ ds) = if (d == 0) || ltb (2 ^ 40) d then false else all_positive ds

-- The test of check 2 on a sample and the one before it.
unfoldable pub is_backward : Sample → Sample → Bool
is_backward before s = ltb (sub64 s.c0 before.c0) before.delta

unfoldable pub count_backward : Sample → List Sample → ℕ
unfolding is_backward
count_backward before [] = 0
count_backward before (s ∷ ss) = (if is_backward before s then 1 else 0) + count_backward s ss

unfoldable pub backward_reads : List Sample → ℕ
unfolding count_backward
backward_reads [] = 0
backward_reads (s ∷ ss) = count_backward s ss

-- The lines and checks of main, for the readings of mtime around the samples.
unfoldable pub statements : ℕ → ℕ → List Sample → List Statement
unfolding deltas sort_copy count_outliers all_positive backward_reads
statements t0 t1 ss =
    let ds = deltas ss in
    let sorted = sort_copy ds in
    let outliers = count_outliers ds in
    says (codes "cycmon: rdcycle monotonicity over 100-nop window\n" ∷ [])
    ∷ says (
        codes "samples: "
        ∷ dec nsamples
        ∷ codes "\nrun window: "
        ∷ dec (sub64 t1 t0)
        ∷ codes " mtime ticks\n"
        ∷ codes "delta (after - before): min="
        ∷ dec (get_or sorted 0 0)
        ∷ codes " median="
        ∷ dec (get_or sorted (nsamples / 2) 0)
        ∷ codes " max="
        ∷ dec (get_or sorted (nsamples - 1) 0)
        ∷ codes " outliers(>2^20)="
        ∷ dec outliers
        ∷ codes "\n"
        ∷ [])
    ∷ check (all_positive ds) (codes "non-positive or borrow-sized delta")
    ∷ says (codes "backward reads across samples: " ∷ dec (backward_reads ss) ∷ codes "\n" ∷ [])
    ∷ check (backward_reads ss == 0) (codes "rdcycle read went backward")
    ∷ check (leb outliers max_outliers) (codes "more than 1% deltas above 2^20")
    ∷ []

-- The verdict line, and whether the finisher then shuts the machine down.
unfoldable pub verdict : Log → Log × Bool
unfolding perform
verdict l =
    let word = if l.fails == 0 then codes "PASS" else codes "FAIL" in
    (perform (says (codes "RESULT: " ∷ word ∷ codes "\n" ∷ [])) l, l.fails == 0)

-- For the pairs of reads that the hardware gives.
unfoldable pub main : ℕ → ℕ → List (ℕ × ℕ) → Log × Bool
unfolding run take_samples statements verdict
main t0 t1 reads = verdict (run (statements t0 t1 (take_samples reads)) power_up)
