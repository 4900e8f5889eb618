-- ===== src/Cycmon/Verdict.antt =====
-- When src/cycmon/cyc_main.c prints PASS.
use riscv_baremetal_demo.Base.{
  ℕ, ◌++◌, ◌==◌, if◌then◌else◌, ltb, Bool, Bool-cases, inl, inr, ◌+◌, ◌^◌, ◌≤◌, ◌<◌, ◌≡◌, refl, ◌↔◌,
  ◌⊎◌, true, false, List, [], ◌∷◌, arith, ==_iff,
}
use mathlib.Core.Path.{subst}
use riscv_baremetal_demo.Base.Text.{codes}
use riscv_baremetal_demo.Probe.{
  Statement, Log, perform, run, power_up, Passes, run-Passes, Passes-of_run,
}
use riscv_baremetal_demo.Cycmon.{
  Sample, take_sample, take_samples, deltas, count_outliers, all_positive, is_backward,
  count_backward, backward_reads, statements, verdict, main, outlier_thresh,
}

-- Reads of a counter that has not passed 2 ^ 63.
abbrev pub AreEarly : List (ℕ × ℕ) → Type 0
AreEarly [] = Unit {0}
AreEarly ((b, a) ∷ rs) = (b < 2 ^ 63) × (a < 2 ^ 63) × AreEarly rs

abbrev pub AreMeasured : List ℕ → Type 0
AreMeasured [] = Unit {0}
AreMeasured (d ∷ ds) = (0 < d) × (d ≤ 2 ^ 40) × AreMeasured ds

-- Each sample starts behind the window of the one before, or ahead of its start.
abbrev pub AreApart : Sample → List Sample → Type 0
AreApart before [] = Unit {0}
AreApart before (s ∷ ss) = ((before.c0 + before.delta ≤ s.c0) ⊎ (s.c0 < before.c0)) × AreApart s ss

abbrev pub AllApart : List Sample → Type 0
AllApart [] = Unit {0}
AllApart (s ∷ ss) = AreApart s ss

all_positive_iff : (ds : List ℕ) → (all_positive ds ≡ true) ↔ AreMeasured ds
unfolding all_positive
all_positive_iff [] = (λ e. tt, λ m. refl)
all_positive_iff (d ∷ ds) =
    let (to, from) = all_positive_iff ds in
    (
      λ e. (ground (arith, e), ground (arith, e), to (ground (arith, e))),
      λ m. let rest = from m.2 in ground (arith, rest, m.0, m.1),
    )

abbrev Small : Sample → Type 0
Small s = (s.c0 < 2 ^ 63) × (s.delta ≤ 2 ^ 40)

test_iff :
    (before s : Sample)
    → Small before
    → s.c0 < 2 ^ 63
    → (is_backward before s ≡ false) ↔ ((before.c0 + before.delta ≤ s.c0) ⊎ (s.c0 < before.c0))
unfolding is_backward
test_iff before s small small' = ground arith

abbrev AreSmall : List Sample → Type 0
AreSmall [] = Unit {0}
AreSmall (s ∷ ss) = Small s × AreSmall ss

count_backward_iff :
    (before : Sample) (ss : List Sample)
    → Small before
    → AreSmall ss
    → (count_backward before ss ≡ 0) ↔ AreApart before ss
unfolding count_backward
count_backward_iff before [] small smalls = (λ e. tt, λ m. refl)
count_backward_iff before (s ∷ ss) small (first, smalls) =
    let (to, from) = count_backward_iff s ss first smalls in
    let (to_apart, from_apart) = test_iff before s small first.0 in
    (
      λ e. (to_apart (ground (arith, e)), to (ground (arith, e))),
      λ m. let rest = from m.1 in let test = from_apart m.0 in ground (arith, rest, test),
    )

backward_reads_iff : (ss : List Sample) → AreSmall ss → (backward_reads ss ≡ 0) ↔ AllApart ss
unfolding backward_reads
backward_reads_iff [] smalls = (λ e. tt, λ m. refl)
backward_reads_iff (s ∷ ss) (first, smalls) = count_backward_iff s ss first smalls

samples-AreSmall :
    (reads : List (ℕ × ℕ))
    → AreEarly reads
    → AreMeasured (deltas (take_samples reads))
    → AreSmall (take_samples reads)
unfolding take_samples deltas take_sample
samples-AreSmall [] early measured = tt
samples-AreSmall ((b, a) ∷ rs) early measured =
    ((early.0, measured.1), samples-AreSmall rs early.2 measured.2)

verdict_iff : (ss : List Statement) → ((verdict (run ss power_up)).1 ≡ true) ↔ Passes ss
unfolding verdict
verdict_iff ss = (
  λ e. Passes-of_run ss power_up ((==_iff _ _).0 e),
  λ p. (==_iff _ _).1 (run-Passes ss power_up p),
)

-- Of the deltas, `n` exceed 2 ^ 20.
pub data Exceed : ℕ → List ℕ → Type 0 where
  over_none : Exceed 0 []
  over_one : {n d : ℕ} {ds : List ℕ} → 2 ^ 20 < d → Exceed n ds → Exceed (1 + n) (d ∷ ds)
  under_one : {n d : ℕ} {ds : List ℕ} → d ≤ 2 ^ 20 → Exceed n ds → Exceed n (d ∷ ds)

count_outliers-Exceed : (ds : List ℕ) → Exceed (count_outliers ds) ds
unfolding count_outliers
count_outliers-Exceed [] = over_none
count_outliers-Exceed (d ∷ ds) = elim (Bool-cases (ltb outlier_thresh d)) [
  | inl over ↦ rw over (over_one (ground (arith, over)) (count_outliers-Exceed ds))
  | inr under ↦ rw under (
      let none_more : count_outliers ds ≡ 0 + count_outliers ds = omega arith in
      subst (λ k. Exceed k (d ∷ ds)) none_more
        (under_one (ground (arith, under)) (count_outliers-Exceed ds)))
]

Exceed-count_outliers : (n : ℕ) (ds : List ℕ) → Exceed n ds → n ≡ count_outliers ds
unfolding count_outliers
Exceed-count_outliers _ _ over_none = refl
Exceed-count_outliers _ (d ∷ ds) (over_one {n} over rest) =
    let e = Exceed-count_outliers n ds rest in ground (arith, over, e)
Exceed-count_outliers n (d ∷ ds) (under_one under rest) =
    let e = Exceed-count_outliers n ds rest in ground (arith, under, e)

-- What the three checks ask of the samples.
pub record IsSteady (ss : List Sample) : Type 0 where
  pub measured : AreMeasured (deltas ss)
  pub apart : AllApart ss
  pub outliers : (n : ℕ) × Exceed n (deltas ss) × (n ≤ 10)

abbrev pub result_line : Bool → List ℕ
result_line pass = if pass then codes "RESULT: PASS\n" else codes "RESULT: FAIL\n"

verdict_line : (l : Log) → (verdict l).0.out ≡ l.out ++ result_line (verdict l).1
unfolding verdict perform
verdict_line l = elim (Bool-cases (l.fails == 0)) [
  | inl none_failed ↦ rw none_failed refl
  | inr failed ↦ rw failed refl
]

-- For reads below 2 ^ 63 the verdict is PASS exactly when every delta is positive and at most
-- 2 ^ 40, at most ten deltas exceed 2 ^ 20, and each sample starts behind the window of the one
-- before it or ahead of that window's start. So a counter that goes backward from one sample to the
-- next passes, unless it goes back into the window itself. The output ends with the line of the
-- verdict.
pub main_iff :
    (t0 t1 : ℕ) (reads : List (ℕ × ℕ))
    → AreEarly reads
    → (((main t0 t1 reads).1 ≡ true) ↔ IsSteady (take_samples reads))
      × ((before : List ℕ) × ((main t0 t1 reads).0.out
            ≡ before ++ result_line (main t0 t1 reads).1))
unfolding main statements
main_iff t0 t1 reads early = (
  (
    λ e.
        let p = (verdict_iff (statements t0 t1 taken)).0 e in
        let measured = (all_positive_iff (deltas taken)).0 p.0 in
        let smalls = samples-AreSmall reads early measured in
        record {
          measured = measured;
          apart = (backward_reads_iff taken smalls).0 ((==_iff _ _).0 p.1.0);
          outliers = (
            count_outliers (deltas taken),
            count_outliers-Exceed (deltas taken),
            ground (arith, p.1.1.0),
          );
        },
    λ m.
        let smalls = samples-AreSmall reads early m.measured in
        let (n, exceed, few) = m.outliers in
        let counted = Exceed-count_outliers n (deltas taken) exceed in
        (verdict_iff (statements t0 t1 taken)).1 (
          (all_positive_iff (deltas taken)).1 m.measured,
          (
            (==_iff _ _).1 ((backward_reads_iff taken smalls).1 m.apart),
            (ground (arith, few, counted), tt),
          ),
        ),
  ),
  (
    (run (statements t0 t1 taken) power_up).out,
    verdict_line (run (statements t0 t1 taken) power_up),
  ),
)
  where
    taken : List Sample
    taken = take_samples reads
