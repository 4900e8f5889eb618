-- ===== src/Smode/Extremes.antt =====
-- What `min_of` and `max_of` of src/smode/ssched.c return.
use riscv_baremetal_demo.Base.{
  ℕ, ◌≤◌, inl, inr, List, [], ◌∷◌, arith, ltb, ◌==◌, if◌then◌else◌, ==_iff, Bool-cases,
}
use riscv_baremetal_demo.Smode.Sort.{least_from, most_from, min_of, max_of}
use riscv_baremetal_demo.Smode.Sorted.{count}

lesser : (y m : ℕ) → ((if ltb y m then y else m) ≤ m) × ((if ltb y m then y else m) ≤ y)
lesser y m = (ground arith, ground arith)

greater : (y m : ℕ) → (m ≤ (if ltb m y then y else m)) × (y ≤ (if ltb m y then y else m))
greater y m = (ground arith, ground arith)

least_lem :
    (m : ℕ) (xs : List ℕ) → (least_from m xs ≤ m) × ((x : ℕ) → 1 ≤ count x xs → least_from m xs ≤ x)
unfolding least_from count
least_lem m [] = (omega arith, λ x h. absurd (omega arith))
least_lem m (y ∷ xs) =
    let (low, others) = least_lem (if ltb y m then y else m) xs in
    (
      omega (arith, low, lesser y m),
      λ x h. elim (Bool-cases (x == y)) [
        | inl e ↦ omega (arith, low, lesser y m, (==_iff x y).0 e)
        | inr e ↦ others x (ground (arith, h, e))
      ],
    )

most_lem :
    (m : ℕ) (xs : List ℕ) → (m ≤ most_from m xs) × ((x : ℕ) → 1 ≤ count x xs → x ≤ most_from m xs)
unfolding most_from count
most_lem m [] = (omega arith, λ x h. absurd (omega arith))
most_lem m (y ∷ xs) =
    let (high, others) = most_lem (if ltb m y then y else m) xs in
    (
      omega (arith, high, greater y m),
      λ x h. elim (Bool-cases (x == y)) [
        | inl e ↦ omega (arith, high, greater y m, (==_iff x y).0 e)
        | inr e ↦ others x (ground (arith, h, e))
      ],
    )

-- Every sample of an array lies between what `min_of` and `max_of` return.
pub min_of-max_of : (a : List ℕ) (x : ℕ) → 1 ≤ count x a → (min_of a ≤ x) × (x ≤ max_of a)
unfolding min_of max_of count
min_of-max_of [] x h = absurd (omega arith)
min_of-max_of (y ∷ a) x h =
    let (low, lows) = least_lem y a in
    let (high, highs) = most_lem y a in
    elim (Bool-cases (x == y)) [
      | inl e ↦ let same = (==_iff x y).0 e in (omega (arith, low, same), omega (arith, high, same))
      | inr e ↦ let there : 1 ≤ count x a = ground (arith, h, e) in (lows x there, highs x there)
    ]
