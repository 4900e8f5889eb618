-- ===== src/Smode/Sorted.antt =====
-- What `sort_copy` of src/smode/ssched.c leaves: a sorted permutation.
use riscv_baremetal_demo.Base.{
  ℕ, suc, ◌+◌, ◌-◌, ◌≤◌, ◌≡◌, refl, sym, ap, ap₂, ◌∙◌, inl, inr, Bool, List, [], ◌∷◌, arith, ltb,
  ◌==◌, if◌then◌else◌, Bool-cases, length, get_or, set,
}
use mathlib.Core.Path.{subst}
use riscv_baremetal_demo.Smode.Sort.{shift, place, place_from, sort_copy}

-- Sorted upwards, from a bound on.
unfoldable pub Ascending : ℕ → List ℕ → Type 0
Ascending low [] = Unit {0}
Ascending low (x ∷ xs) = (low ≤ x) × Ascending x xs

-- How often a value occurs.
unfoldable pub count : ℕ → List ℕ → ℕ
count v [] = 0
count v (x ∷ xs) = (if v == x then 1 else 0) + count v xs

-- An array as its part that is sorted, the last entry first, and the rest.
unfoldable joined : List ℕ → List ℕ → List ℕ
joined [] t = t
joined (y ∷ rp) t = joined rp (y ∷ t)

-- The value put into the part that is sorted.
unfoldable inserted : ℕ → List ℕ → List ℕ
inserted v [] = v ∷ []
inserted v (y ∷ rp) = if ltb v y then y ∷ inserted v rp else v ∷ y ∷ rp

get_or-joined : (rp u : List ℕ) (k : ℕ) → get_or (joined rp u) (length rp + k) 0 ≡ get_or u k 0
unfolding joined
get_or-joined [] u k = ap (λ n. get_or u n 0) (omega arith)
get_or-joined (y ∷ rp) u k =
    ap (λ n. get_or (joined rp (y ∷ u)) n 0) (omega arith) ∙ get_or-joined rp (y ∷ u) (suc k)

set-joined : (rp u : List ℕ) (k v : ℕ) → set (joined rp u) (length rp + k) v ≡ joined rp (set u k v)
unfolding joined
set-joined [] u k v = ap (λ n. set u n v) (omega arith)
set-joined (y ∷ rp) u k v =
    ap (λ n. set (joined rp (y ∷ u)) n v) (omega arith) ∙ set-joined rp (y ∷ u) (suc k) v

entry_lem : (rp u : List ℕ) → get_or (joined rp u) (length rp) 0 ≡ get_or u 0 0
entry_lem rp u = ap (λ n. get_or (joined rp u) n 0) (omega arith) ∙ get_or-joined rp u 0

set_lem :
    (rp : List ℕ) (h v : ℕ) (t : List ℕ) → set (joined rp (h ∷ t)) (length rp) v ≡ joined rp (v ∷ t)
set_lem rp h v t = ap (λ n. set (joined rp (h ∷ t)) n v) (omega arith) ∙ set-joined rp (h ∷ t) 0 v

-- The inner loop and the store after it insert the value.
shift_lem :
    (rp : List ℕ) (v h : ℕ) (t : List ℕ)
    → let (dst, j) = shift (length rp) v (joined rp (h ∷ t)) in
      set dst j v ≡ joined (inserted v rp) t
unfolding joined shift inserted
shift_lem [] v h t = refl
shift_lem (y ∷ rp) v h t =
    let whole = joined rp (y ∷ h ∷ t) in
    let finish = λ (out : List ℕ × ℕ). set out.0 out.1 v in
    let turn = λ (q : Bool) (x : ℕ).
      if q then shift (length rp) v (set whole (suc (length rp)) x) else (whole, suc (length rp)) in
    ap (λ x. finish (turn (ltb v x) x)) (entry_lem rp (y ∷ h ∷ t))
    ∙ elim (Bool-cases (ltb v y))
        as (λ _.
          finish (turn (ltb v y) y)
          ≡ joined (if ltb v y then y ∷ inserted v rp else v ∷ y ∷ rp) t) [
            | inl e ↦
                ap (λ q. finish (turn q y)) e
                ∙ ap (λ dst. finish (shift (length rp) v dst)) (set_lem (y ∷ rp) h y t)
                ∙ shift_lem rp v y (y ∷ t)
                ∙ ap (λ q. joined (if q then y ∷ inserted v rp else v ∷ y ∷ rp) t) (sym e)
            | inr e ↦
                ap (λ q. finish (turn q y)) e
                ∙ set_lem (y ∷ rp) h v t
                ∙ ap (λ q. joined (if q then y ∷ inserted v rp else v ∷ y ∷ rp) t) (sym e)
          ]

place_lem :
    (rp : List ℕ) (v : ℕ) (t : List ℕ)
    → place (length rp) (joined rp (v ∷ t)) ≡ joined (inserted v rp) t
unfolding place
place_lem rp v t =
    ap (λ x. let out = shift (length rp) x (joined rp (v ∷ t)) in set out.0 out.1 x)
      (entry_lem rp (v ∷ t))
    ∙ shift_lem rp v v t

length-inserted : (v : ℕ) (rp : List ℕ) → length (inserted v rp) ≡ suc (length rp)
unfolding inserted
length-inserted v [] = refl
length-inserted v (y ∷ rp) = elim (Bool-cases (ltb v y)) [
  | inl e ↦ rw e (ap (λ n. suc n) (length-inserted v rp))
  | inr e ↦ rw e refl
]

-- All insertions.
unfoldable sorted_part : List ℕ → List ℕ → List ℕ
unfolding inserted
sorted_part rp [] = rp
sorted_part rp (v ∷ t) = sorted_part (inserted v rp) t

place_from_lem :
    (rp t : List ℕ) → place_from (length t) (length rp) (joined rp t) ≡ joined (sorted_part rp t) []
unfolding place_from sorted_part
place_from_lem rp [] = refl
place_from_lem rp (v ∷ t) =
    let i : length rp + 1 ≡ length (inserted v rp) = omega (arith, length-inserted v rp) in
    ap₂ (place_from (length t)) i (place_lem rp v t) ∙ place_from_lem (inserted v rp) t

-- Sorted downwards, from a bound on.
unfoldable Descending : ℕ → List ℕ → Type 0
Descending high [] = Unit {0}
Descending high (y ∷ rp) = (y ≤ high) × Descending y rp

inserted-Descending :
    (high v : ℕ) (rp : List ℕ) → v ≤ high → Descending high rp → Descending high (inserted v rp)
unfolding inserted Descending
inserted-Descending high v [] h d = (h, tt)
inserted-Descending high v (y ∷ rp) h d = elim (Bool-cases (ltb v y)) [
  | inl e ↦ rw e (d.0, inserted-Descending y v rp (ground arith) d.1)
  | inr e ↦ rw e (h, (ground arith, d.1))
]

unfoldable Below : ℕ → List ℕ → Type 0
Below high [] = Unit {0}
Below high (x ∷ xs) = (x ≤ high) × Below high xs

sorted_part-Descending :
    (high : ℕ) (rp t : List ℕ)
    → Below high t
    → Descending high rp
    → Descending high (sorted_part rp t)
unfolding sorted_part Below
sorted_part-Descending high rp [] b d = d
sorted_part-Descending high rp (v ∷ t) b d =
    sorted_part-Descending high (inserted v rp) t b.1 (inserted-Descending high v rp b.0 d)

Ascending-weaken : (low low' : ℕ) (xs : List ℕ) → low' ≤ low → Ascending low xs → Ascending low' xs
unfolding Ascending
Ascending-weaken low low' [] h a = tt
Ascending-weaken low low' (x ∷ xs) h a = (omega (arith, a.0), a.1)

joined-Ascending :
    (b : ℕ) (rp t : List ℕ) → Descending b rp → Ascending b t → Ascending 0 (joined rp t)
unfolding joined Descending Ascending
joined-Ascending b [] t d a = Ascending-weaken b 0 t (omega arith) a
joined-Ascending b (y ∷ rp) t d a =
    joined-Ascending y rp (y ∷ t) d.1 (omega arith, Ascending-weaken b y t d.0 a)

count-joined : (x : ℕ) (rp t : List ℕ) → count x (joined rp t) ≡ count x rp + count x t
unfolding joined count
count-joined x [] t = omega arith
count-joined x (y ∷ rp) t = omega (arith, count-joined x rp (y ∷ t))

count-inserted : (x v : ℕ) (rp : List ℕ) → count x (inserted v rp) ≡ count x (v ∷ rp)
unfolding inserted count
count-inserted x v [] = refl
count-inserted x v (y ∷ rp) = elim (Bool-cases (ltb v y)) [
  | inl e ↦ rw e (omega (arith, count-inserted x v rp))
  | inr e ↦ rw e refl
]

count-sorted_part : (x : ℕ) (rp t : List ℕ) → count x (sorted_part rp t) ≡ count x rp + count x t
unfolding sorted_part count
count-sorted_part x rp [] = omega arith
count-sorted_part x rp (v ∷ t) =
    omega (arith, count-sorted_part x (inserted v rp) t, count-inserted x v rp)

Below-weaken : (high high' : ℕ) (xs : List ℕ) → high ≤ high' → Below high xs → Below high' xs
unfolding Below
Below-weaken high high' [] h b = tt
Below-weaken high high' (x ∷ xs) h b = (omega (arith, b.0), Below-weaken high high' xs h b.1)

-- Every list has a bound.
has_bound : (xs : List ℕ) → (high : ℕ) × Below high xs
unfolding Below
has_bound [] = (0, tt)
has_bound (x ∷ xs) =
    let (high, b) = has_bound xs in
    (x + high, (omega arith, Below-weaken high (x + high) xs (omega arith) b))

sort_copy_lem : (x : ℕ) (t : List ℕ) → sort_copy (x ∷ t) ≡ joined (sorted_part (x ∷ []) t) []
unfolding sort_copy joined
sort_copy_lem x t =
    let n : length (x ∷ t) - 1 ≡ length t = omega arith in
    ap (λ left. place_from left 1 (x ∷ t)) n ∙ place_from_lem (x ∷ []) t

-- For an array of any length `sort_copy` leaves the values in ascending order, each as often as in
-- the source.
pub sort_copy-Ascending :
    (src : List ℕ) → Ascending 0 (sort_copy src) × ((x : ℕ) → count x (sort_copy src) ≡ count x src)
unfolding Ascending count sort_copy Descending
sort_copy-Ascending [] = (tt, λ x. refl)
sort_copy-Ascending (v ∷ t) =
    let (high, b) = has_bound t in
    let sorted =
      sorted_part-Descending (v + high) (v ∷ []) t (Below-weaken high (v + high) t (omega arith) b)
        (omega arith, tt) in
    (
      subst (Ascending 0) (sym (sort_copy_lem v t))
          (joined-Ascending (v + high) (sorted_part (v ∷ []) t) [] sorted tt),
      λ x.
          let kept = count-sorted_part x (v ∷ []) t in
          let flat = count-joined x (sorted_part (v ∷ []) t) [] in
          ap (count x) (sort_copy_lem v t) ∙ omega (arith, kept, flat),
    )
