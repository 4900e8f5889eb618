-- ===== src/Smode/Sort.antt =====
-- `sort_copy`, `median_of`, `min_of` and `max_of` of src/smode/ssched.c.
use riscv_baremetal_demo.Base.{
  ℕ, zero, suc, ◌+◌, ◌-◌, ◌/◌, ◌%◌, ◌^◌, List, [], ◌∷◌, ltb, if◌then◌else◌, length, get_or, set,
}

-- The inner loop for the value `v`, from index `j` down: the array, and the index that `v` is for.
unfoldable pub shift : ℕ → ℕ → List ℕ → List ℕ × ℕ
shift zero v dst = (dst, 0)
shift (suc j) v dst =
    let rest = shift j v (set dst (suc j) (get_or dst j 0)) in
    if ltb v (get_or dst j 0) then rest else (dst, suc j)

-- One turn of the outer loop, at index `i`.
unfoldable pub place : ℕ → List ℕ → List ℕ
unfolding shift
place i dst = let v = get_or dst i 0 in let (dst', j) = shift i v dst in set dst' j v

-- The outer loop from index `i` on, with `left` turns to go.
unfoldable pub place_from : ℕ → ℕ → List ℕ → List ℕ
unfolding place
place_from zero i dst = dst
place_from (suc left) i dst = place_from left (i + 1) (place i dst)

-- The array that `sort_copy` leaves in `dst`.
unfoldable pub sort_copy : List ℕ → List ℕ
unfolding place_from
sort_copy src = place_from (length src - 1) 1 src

-- For two samples or more: with fewer the source indexes before the array.
unfoldable pub median_of : List ℕ → ℕ
unfolding sort_copy
median_of a =
    let n = length a in
    let buf = sort_copy a in (get_or buf (n / 2 - 1) 0 + get_or buf (n / 2) 0) % 2 ^ 64 / 2

unfoldable pub least_from : ℕ → List ℕ → ℕ
least_from m [] = m
least_from m (x ∷ xs) = least_from (if ltb x m then x else m) xs

unfoldable pub most_from : ℕ → List ℕ → ℕ
most_from m [] = m
most_from m (x ∷ xs) = most_from (if ltb m x then x else m) xs

-- `a[0]`, for an array that is not empty, and the loop over the rest.
unfoldable pub min_of : List ℕ → ℕ
unfolding least_from
min_of [] = 0
min_of (x ∷ xs) = least_from x xs

unfoldable pub max_of : List ℕ → ℕ
unfolding most_from
max_of [] = 0
max_of (x ∷ xs) = most_from x xs
