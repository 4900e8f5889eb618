-- ===== src/Trials/Quantiles.antt =====
-- The statistics of src/mtimecmp/mt_main.c are ordered and bound every value.
use riscv_baremetal_demo.Base.{
  ℕ, zero, suc, ◌+◌, ◌-◌, ◌*◌, ◌/◌, ◌≤◌, ◌<◌, ◌≡◌, refl, sym, ◌∙◌, inl, inr, List, [], ◌∷◌, arith,
  ltb, ◌==◌, ==_iff, Bool-cases, length, get_or, set, length-set,
}
use riscv_baremetal_demo.Smode.Sort.{shift, place, place_from, sort_copy}
use riscv_baremetal_demo.Smode.Sorted.{Ascending, count, sort_copy-Ascending}
use riscv_baremetal_demo.Trials.Statistics.{sort_asc, Stats, calc_stats}

-- In an ascending list a later entry is no smaller.
later-le : (low : ℕ) (xs : List ℕ) (i : ℕ) → Ascending low xs → i < length xs → low ≤ get_or xs i 0
unfolding Ascending
later-le low [] i up inside = absurd (omega arith)
later-le low (x ∷ xs) zero (le, up) inside = le
later-le low (x ∷ xs) (suc i) (le, up) inside = omega (arith, later-le x xs i up (omega arith))

entries-le :
    (low : ℕ) (xs : List ℕ) (i j : ℕ)
    → Ascending low xs
    → i ≤ j
    → j < length xs
    → get_or xs i 0 ≤ get_or xs j 0
unfolding Ascending
entries-le low [] i j up le inside = absurd (omega arith)
entries-le low (x ∷ xs) zero zero up le inside = omega arith
entries-le low (x ∷ xs) zero (suc j) (_, up) le inside = later-le x xs j up (omega arith)
entries-le low (x ∷ xs) (suc i) zero up le inside = absurd (omega arith)
entries-le low (x ∷ xs) (suc i) (suc j) (_, up) le inside =
    entries-le x xs i j up (omega arith) (omega arith)

-- Each value stands at some index.
index_of : (v : ℕ) (xs : List ℕ) → 1 ≤ count v xs → (i : ℕ) × (i < length xs) × (get_or xs i 0 ≡ v)
unfolding count
index_of v [] occurs = absurd (omega arith)
index_of v (x ∷ xs) occurs = elim (Bool-cases (v == x)) [
  | inl same ↦ (0, omega arith, sym ((==_iff v x).0 same))
  | inr other ↦
      let (i, inside, at) = index_of v xs (ground (arith, other)) in (suc i, omega arith, at)
]

occurs_at : (xs : List ℕ) (i : ℕ) → i < length xs → 1 ≤ count (get_or xs i 0) xs
unfolding count
occurs_at [] i inside = absurd (omega arith)
occurs_at (x ∷ xs) zero inside = ground arith
occurs_at (x ∷ xs) (suc i) inside = omega (arith, occurs_at xs i (omega arith))

-- The loops of the sort only store into the array.
length-shift : (j v : ℕ) (dst : List ℕ) → length (shift j v dst).0 ≡ length dst
unfolding shift
length-shift zero v dst = refl
length-shift (suc j) v dst = elim (Bool-cases (ltb v (get_or dst j 0))) [
  | inl less ↦ rw less (
      length-shift j v (set dst (suc j) (get_or dst j 0)) ∙ length-set dst (suc j) (get_or dst j 0))
  | inr more ↦ rw more refl
]

length-place : (i : ℕ) (dst : List ℕ) → length (place i dst) ≡ length dst
unfolding place
length-place i dst =
    length-set (shift i (get_or dst i 0) dst).0 (shift i (get_or dst i 0) dst).1 (get_or dst i 0)
    ∙ length-shift i (get_or dst i 0) dst

length-place_from : (left i : ℕ) (dst : List ℕ) → length (place_from left i dst) ≡ length dst
unfolding place_from
length-place_from zero i dst = refl
length-place_from (suc left) i dst =
    length-place_from left (i + 1) (place i dst) ∙ length-place i dst

module _ (vals : List ℕ) where
  sorted : Ascending 0 (sort_asc vals) × ((x : ℕ) → count x (sort_asc vals) ≡ count x vals)
  unfolding sort_asc sort_copy
  sorted = sort_copy-Ascending vals

  same_length : length (sort_asc vals) ≡ length vals
  unfolding sort_asc
  same_length = length-place_from (length vals - 1) 1 vals

  -- Entries of the sorted array by their indices.
  ordered :
      (i j : ℕ) → i ≤ j → j < length vals → get_or (sort_asc vals) i 0 ≤ get_or (sort_asc vals) j 0
  ordered i j le inside = entries-le 0 (sort_asc vals) i j sorted.0 le (omega (arith, same_length))

  occurring : (i : ℕ) → i < length vals → 1 ≤ count (get_or (sort_asc vals) i 0) vals
  occurring i inside = omega (
    arith,
    sorted.1 (get_or (sort_asc vals) i 0),
    occurs_at (sort_asc vals) i (omega (arith, same_length)),
  )

  between :
      (x : ℕ)
      → 1 ≤ count x vals
      → (get_or (sort_asc vals) 0 0 ≤ x) × (x ≤ get_or (sort_asc vals) (length vals - 1) 0)
  between x occurs =
      let (i, inside, at) = index_of x (sort_asc vals) (omega (arith, sorted.1 x)) in
      (
        omega (arith, at, same_length, ordered 0 i (omega arith) (omega (arith, same_length))),
        omega (
          arith,
          at,
          same_length,
          ordered i (length vals - 1) (omega (arith, same_length)) (omega (arith, same_length)),
        ),
      )

-- The order of the figures, each of them a value, and the bounds on all values.
pub record IsSummary (vals : List ℕ) (s : Stats) : Type 0 where
  pub low : s.least ≤ s.p50
  pub middle : s.p50 ≤ s.p99
  pub high : s.p99 ≤ s.most
  pub occur :
      (1 ≤ count s.least vals)
      × (1 ≤ count s.p50 vals)
      × (1 ≤ count s.p99 vals)
      × (1 ≤ count s.most vals)
  pub bounds : (x : ℕ) → 1 ≤ count x vals → (s.least ≤ x) × (x ≤ s.most)

-- For one value or more, calc_stats reads inside its array: min, p50, p99 and max are values of it,
-- in this order, and every value lies between min and max.
pub calc_stats-IsSummary : (vals : List ℕ) → 1 ≤ length vals → IsSummary vals (calc_stats vals)
unfolding calc_stats
calc_stats-IsSummary vals some_values = record {
  low = ordered vals 0 (length vals / 2) (omega arith) (omega arith);
  middle = ordered vals (length vals / 2) (length vals * 99 / 100) (omega arith) (omega arith);
  high = ordered vals (length vals * 99 / 100) (length vals - 1) (omega arith) (omega arith);
  occur = (
    occurring vals 0 (omega arith),
    occurring vals (length vals / 2) (omega arith),
    occurring vals (length vals * 99 / 100) (omega arith),
    occurring vals (length vals - 1) (omega arith),
  );
  bounds = between vals;
}
