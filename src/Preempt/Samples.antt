-- ===== src/Preempt/Samples.antt =====
-- The running statistics of src/preempt/psched.c against the samples that they were given.
use riscv_baremetal_demo.Base.{
  ℕ, suc, ◌+◌, ◌*◌, ◌/◌, ◌%◌, ◌^◌, ◌≤◌, ◌<◌, ◌≡◌, refl, ◌∙◌, ◌⊎◌, inl, inr, List, [], ◌∷◌, ◌++◌,
  arith, length,
}
use mathlib.Core.List.{Mem, mem-cons_self, mem-cons_of_mem}
use native.Mathlib.Nat.{le-div_iff_mul-le, div-lt_iff_lt-mul}
use riscv_baremetal_demo.Preempt.{Stats, add_sample}

-- Samples in the order that they came.
unfoldable pub add_all : List ℕ → Stats → Stats
unfolding add_sample
add_all [] s = s
add_all (x ∷ xs) s = add_all xs (add_sample x s)

unfoldable pub total : List ℕ → ℕ
total [] = 0
total (x ∷ xs) = x + total xs

-- Every sample lies between two numbers.
unfoldable pub Within : ℕ → ℕ → List ℕ → Type 0
Within low high [] = Unit {0}
Within low high (x ∷ xs) = (low ≤ x) × (x ≤ high) × Within low high xs

-- What statistics say of samples, when added to older statistics.
pub record Summary (old : Stats) (xs : List ℕ) (s : Stats) : Type 0 where
  pub is_sum : s.sum ≡ (old.sum + total xs) % 2 ^ 64
  pub is_within : Within s.least s.most xs
  pub is_wider : (s.least ≤ old.least) × (old.most ≤ s.most)
  pub is_least : (s.least ≡ old.least) ⊎ (Mem s.least xs)
  pub is_most : (s.most ≡ old.most) ⊎ (Mem s.most xs)

add_sample_wider :
    (x : ℕ) (s : Stats)
    → ((add_sample x s).least ≤ s.least)
      × (s.most ≤ (add_sample x s).most)
      × ((add_sample x s).least ≤ x)
      × (x ≤ (add_sample x s).most)
      × (((add_sample x s).least ≡ s.least) ⊎ ((add_sample x s).least ≡ x))
      × (((add_sample x s).most ≡ s.most) ⊎ ((add_sample x s).most ≡ x))
unfolding add_sample
add_sample_wider x s =
    (ground arith, ground arith, ground arith, ground arith, ground arith, ground arith)

Within-wider : {a b c d : ℕ} (xs : List ℕ) → c ≤ a → b ≤ d → Within a b xs → Within c d xs
unfolding Within
Within-wider [] h k w = tt
Within-wider (x ∷ xs) h k w = (omega (arith, w.0), omega (arith, w.1), Within-wider xs h k w.2)

-- The extreme value of the older statistics is itself an older one or the new sample.
newest :
    {a b c : ℕ} (x : ℕ) (xs : List ℕ)
    → (a ≡ b) ⊎ Mem a xs
    → (b ≡ c) ⊎ (b ≡ x)
    → (a ≡ c) ⊎ Mem a (x ∷ xs)
newest x xs (inl e) (inl f) = inl (e ∙ f)
newest {a} x xs (inl e) (inr f) = inr (rw (e ∙ f) mem-cons_self)
newest x xs (inr m) o = inr (mem-cons_of_mem x m)

pub add_all-Summary : (xs : List ℕ) (s : Stats) → s.sum < 2 ^ 64 → Summary s xs (add_all xs s)
unfolding add_all total add_sample Within
add_all-Summary [] s small = record {
  is_sum = omega arith;
  is_within = tt;
  is_wider = (omega arith, omega arith);
  is_least = inl refl;
  is_most = inl refl;
}
add_all-Summary (x ∷ xs) s small =
    let (a, b, c, d, e, f) = add_sample_wider x s in
    let rest = add_all-Summary xs (add_sample x s) (omega arith) in
    record {
      is_sum = omega (arith, rest.is_sum);
      is_within =
          (omega (arith, c, rest.is_wider.0), omega (arith, d, rest.is_wider.1), rest.is_within);
      is_wider = (omega (arith, a, rest.is_wider.0), omega (arith, b, rest.is_wider.1));
      is_least = newest x xs rest.is_least e;
      is_most = newest x xs rest.is_most f;
    }

add_all-append :
    (xs : List ℕ) (x : ℕ) (s : Stats) → add_all (xs ++ (x ∷ [])) s ≡ add_sample x (add_all xs s)
unfolding add_all
add_all-append [] x s = refl
add_all-append (y ∷ xs) x s = add_all-append xs x (add_sample y s)

Within-total :
    (a b : ℕ) (xs : List ℕ)
    → Within a b xs
    → (a * length xs ≤ total xs) × (total xs ≤ b * length xs)
unfolding total Within
Within-total a b [] w = (omega arith, omega arith)
Within-total a b (x ∷ xs) w =
    let (h, k) = Within-total a b xs w.2 in
    let e : a * suc (length xs) ≡ a + a * length xs = omega arith in
    let f : b * suc (length xs) ≡ b + b * length xs = omega arith in
    (omega (arith, h, e, w.0), omega (arith, k, f, w.1))

-- The average of samples lies between their bounds.
pub Within-average :
    (a b : ℕ) (xs : List ℕ)
    → 1 ≤ length xs
    → Within a b xs
    → (a ≤ total xs / length xs) × (total xs / length xs ≤ b)
Within-average a b xs some_there w =
    let (h, k) = Within-total a b xs w in
    let over : total xs < suc b * length xs = omega arith in
    let below = (div-lt_iff_lt-mul some_there).1 over in
    ((le-div_iff_mul-le some_there).1 h, omega (arith, below))
