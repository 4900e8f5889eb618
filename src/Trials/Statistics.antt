-- ===== src/Trials/Statistics.antt =====
-- The statistics of src/mtimecmp/mt_main.c. `sort_asc` has the loops of `sort_copy` of
-- src/smode/ssched.c; only the first n entries of its array are read.
use riscv_baremetal_demo.Base.{
  Option, none, some, ℕ, zero, suc, ◌+◌, ◌-◌, ◌*◌, ◌/◌, ◌%◌, ◌^◌, List, [], ◌∷◌, ltb, ◌==◌,
  if◌then◌else◌, length, get_or,
}
use riscv_baremetal_demo.Base.Text.{codes}
use riscv_baremetal_demo.Uart.Text.{dec}
use Prim.Native.String.{String}
use riscv_baremetal_demo.Probe.{Statement, says}
use riscv_baremetal_demo.Smode.Sort.{place_from}

-- The first n entries of `sort_tmp`, for the n values of `a`.
unfoldable pub sort_asc : List ℕ → List ℕ
sort_asc a = place_from (length a - 1) 1 a

pub record Stats : Type 0 where
  pub least : ℕ
  pub p50 : ℕ
  pub p99 : ℕ
  pub most : ℕ
  pub mean : ℕ

unfoldable pub sum_from : ℕ → List ℕ → ℕ
sum_from sum [] = sum
sum_from sum (v ∷ vs) = sum_from ((sum + v) % 2 ^ 64) vs

-- The source divides by n and reads entry n - 1: for one value or more.
unfoldable pub calc_stats : List ℕ → Stats
unfolding sort_asc sum_from
calc_stats vals =
    let n = length vals in
    let tmp = sort_asc vals in
    record {
      least = get_or tmp 0 0;
      p50 = get_or tmp (n / 2) 0;
      p99 = get_or tmp (n * 99 / 100) 0;
      most = get_or tmp (n - 1) 0;
      mean = sum_from 0 tmp / n;
    }

unfoldable pub print_stats : String → List ℕ → Statement
unfolding calc_stats
print_stats name vals =
    let s = calc_stats vals in
    says (
      codes name
      ∷ codes ": min="
      ∷ dec s.least
      ∷ codes " p50="
      ∷ dec s.p50
      ∷ codes " p99="
      ∷ dec s.p99
      ∷ codes " max="
      ∷ dec s.most
      ∷ codes " mean="
      ∷ dec s.mean
      ∷ codes "\n"
      ∷ [])

-- How many values are `v`.
unfoldable pub bucket : ℕ → List ℕ → ℕ
bucket v [] = 0
bucket v (x ∷ xs) = (if x == v then 1 else 0) + bucket v xs

-- The buckets from `v` on that are printed, with `left` values to go.
unfoldable pub buckets_from : ℕ → ℕ → List ℕ → List (ℕ × ℕ)
unfolding bucket
buckets_from zero v vals = []
buckets_from (suc left) v vals =
    let rest = buckets_from left (v + 1) vals in
    if ltb 0 (bucket v vals) then (v, bucket v vals) ∷ rest else rest

-- The loop from the minimum to the maximum. A maximum of 2 ^ 64 - 1 is never passed: `v` wraps to
-- 0, and the loop does not end.
unfoldable pub hist_buckets : List ℕ → Option (List (ℕ × ℕ))
unfolding calc_stats buckets_from
hist_buckets vals =
    let s = calc_stats vals in
    if s.most == 2 ^ 64 - 1 then none else some (buckets_from (s.most + 1 - s.least) s.least vals)

unfoldable pub bucket_line : ℕ × ℕ → Statement
bucket_line (v, c) = says (codes "  " ∷ dec v ∷ codes ": " ∷ dec c ∷ codes "\n" ∷ [])

unfoldable pub bucket_lines : List (ℕ × ℕ) → List Statement
unfolding bucket_line
bucket_lines [] = []
bucket_lines (b ∷ bs) = bucket_line b ∷ bucket_lines bs

unfoldable pub hist_ticks : String → List ℕ → Option (List Statement)
unfolding hist_buckets bucket_lines
hist_ticks name vals = elim (hist_buckets vals) [
  | none ↦ none
  | some bs ↦
      some
        (says (codes name ∷ codes " (n=" ∷ dec (length vals) ∷ codes "):\n" ∷ []) ∷ bucket_lines bs)
]
