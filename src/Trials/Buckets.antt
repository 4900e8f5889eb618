-- ===== src/Trials/Buckets.antt =====
-- The histogram of src/mtimecmp/mt_main.c shows every value once.
use riscv_baremetal_demo.Base.{
  ℕ, ◌^◌, ◌==◌, some, false, zero, suc, ◌+◌, ◌-◌, ◌≤◌, ◌<◌, ◌≡◌, refl, sym, ◌∙◌, inl, inr, ◌&&◌,
  List, [], ◌∷◌, arith, ltb, leb, if◌then◌else◌, ltb→lt, Bool-cases, length,
}
use riscv_baremetal_demo.Smode.Sorted.{count}
use riscv_baremetal_demo.Trials.Statistics.{Stats, calc_stats, bucket, buckets_from, hist_buckets}
use riscv_baremetal_demo.Trials.Quantiles.{IsSummary, calc_stats-IsSummary}

unfoldable pub total : List (ℕ × ℕ) → ℕ
total [] = 0
total ((v, c) ∷ bs) = c + total bs

-- How many values lie in the range of `left` numbers from `v` on.
unfoldable in_range : ℕ → ℕ → List ℕ → ℕ
in_range left v [] = 0
in_range left v (x ∷ xs) = (if leb v x && ltb x (v + left) then 1 else 0) + in_range left v xs

in_range-none : (v : ℕ) (xs : List ℕ) → in_range 0 v xs ≡ 0
unfolding in_range
in_range-none v [] = refl
in_range-none v (x ∷ xs) = ground (arith, in_range-none v xs)

in_range-step :
    (left v : ℕ) (xs : List ℕ) → in_range (suc left) v xs ≡ bucket v xs + in_range left (v + 1) xs
unfolding in_range bucket
in_range-step left v [] = refl
in_range-step left v (x ∷ xs) = ground (arith, in_range-step left v xs)

in_range_all :
    (left v : ℕ) (xs : List ℕ)
    → ((x : ℕ) → 1 ≤ count x xs → (v ≤ x) × (x < v + left))
    → in_range left v xs ≡ length xs
unfolding in_range count
in_range_all left v [] inside = refl
in_range_all left v (x ∷ xs) inside = ground (
  arith,
  inside x (ground arith),
  in_range_all left v xs (λ y occurs. inside y (ground (arith, occurs))),
)

total-buckets_from :
    (left v : ℕ) (vals : List ℕ) → total (buckets_from left v vals) ≡ in_range left v vals
unfolding total buckets_from
total-buckets_from zero v vals = sym (in_range-none v vals)
total-buckets_from (suc left) v vals =
    ground (arith, in_range-step left v vals, total-buckets_from left (v + 1) vals)

bucket-count : (v : ℕ) (xs : List ℕ) → bucket v xs ≡ count v xs
unfolding bucket count
bucket-count v [] = refl
bucket-count v (x ∷ xs) = ground (arith, bucket-count v xs)

-- Each line is a value that occurs, with the number of its occurrences, and the lines ascend.
unfoldable pub AreBuckets : ℕ → List ℕ → List (ℕ × ℕ) → Type 0
AreBuckets low vals [] = Unit {0}
AreBuckets low vals ((v, c) ∷ bs) =
    (low ≤ v) × (c ≡ count v vals) × (1 ≤ c) × AreBuckets (v + 1) vals bs

AreBuckets-lower :
    (low high : ℕ) (vals : List ℕ) (bs : List (ℕ × ℕ))
    → low ≤ high
    → AreBuckets high vals bs
    → AreBuckets low vals bs
unfolding AreBuckets
AreBuckets-lower low high vals [] le bs = tt
AreBuckets-lower low high vals ((v, c) ∷ rest) le (above, exact, occurs, others) =
    (omega arith, exact, occurs, others)

buckets_from-AreBuckets :
    (left v : ℕ) (vals : List ℕ) → AreBuckets v vals (buckets_from left v vals)
unfolding AreBuckets buckets_from
buckets_from-AreBuckets zero v vals = tt
buckets_from-AreBuckets (suc left) v vals = elim (Bool-cases (ltb 0 (bucket v vals))) [
  | inl shown ↦ rw shown (
    omega arith,
    bucket-count v vals,
    ltb→lt 0 (bucket v vals) shown,
    buckets_from-AreBuckets left (v + 1) vals,
  )
  | inr empty ↦ rw empty (
      AreBuckets-lower v (v + 1) vals (buckets_from left (v + 1) vals) (omega arith)
        (buckets_from-AreBuckets left (v + 1) vals))
]

-- For one value or more, none of them 2 ^ 64 - 1, the loop ends, the printed buckets ascend from
-- the minimum, each shows how often its value occurs, which is at least once, and together they
-- count every value.
pub hist_buckets-AreBuckets :
    (vals : List ℕ)
    → 1 ≤ length vals
    → ((x : ℕ) → 1 ≤ count x vals → x < 2 ^ 64 - 1)
    → (bs : List (ℕ × ℕ)) × (hist_buckets vals ≡ some bs)
      × AreBuckets (calc_stats vals).least vals bs
      × (total bs ≡ length vals)
unfolding hist_buckets
hist_buckets-AreBuckets vals some_values small = (
  buckets_from (s.most + 1 - s.least) s.least vals,
  rw small_most refl,
  buckets_from-AreBuckets (s.most + 1 - s.least) s.least vals,
  total-buckets_from (s.most + 1 - s.least) s.least vals
      ∙ in_range_all (s.most + 1 - s.least) s.least vals
          (λ x occurs. omega (arith, summary.bounds x occurs)),
)
  where
    s : Stats
    s = calc_stats vals

    summary : IsSummary vals s
    summary = calc_stats-IsSummary vals some_values

    most_occurs : 1 ≤ count s.most vals
    most_occurs = summary.occur.3

    small_most : (s.most == 2 ^ 64 - 1) ≡ false
    small_most = ground (arith, small s.most most_occurs)
