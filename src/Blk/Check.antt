-- ===== src/Blk/Check.antt =====
-- The check of src/virtio-blk/bmain.c: what its comparison counts, and that it passes.
use riscv_baremetal_demo.Base.{
  ℕ, zero, suc, ◌+◌, ◌≤◌, ◌<◌, ◌≡◌, refl, sym, ap, ap₂, ◌∙◌, ◌≢◌, inl, inr, Bool, false, List, [],
  ◌∷◌, arith, ◌==◌, if◌then◌else◌, Bool-cases, length, get_or,
}
use mathlib.Core.Path.{subst}
use riscv_baremetal_demo.Blk.Main.{compare_from}

-- What a comparison from index `i` on found: nothing, or a first difference `k` bytes on.
pub data Compared (i : ℕ) (rs ws : List ℕ) (counts : ℕ × ℕ) : Type 0 where
  same : counts.0 ≡ 0 → rs ≡ ws → Compared i rs ws counts
  differs :
      (k : ℕ)
      → 1 ≤ counts.0
      → counts.1 ≡ i + k
      → k < length rs
      → get_or rs k 0 ≢ get_or ws k 0
      → ((j : ℕ) → j < k → get_or rs j 0 ≡ get_or ws j 0)
      → Compared i rs ws counts

-- After a first difference, its index is kept and the count stays positive.
compare_later :
    (i : ℕ) (rs ws : List ℕ) (m f : ℕ)
    → 1 ≤ m
    → (1 ≤ (compare_from i rs ws (m, f)).0) × ((compare_from i rs ws (m, f)).1 ≡ f)
unfolding compare_from
compare_later i [] ws m f pos = (pos, refl)
compare_later i (r ∷ rs) [] m f pos = (pos, refl)
compare_later i (r ∷ rs) (w ∷ ws) m f pos = elim (Bool-cases (r == w)) [
  | inl e ↦
      subst (λ c. (1 ≤ c.0) × (c.1 ≡ f)) (sym (by_test e)) (compare_later (i + 1) rs ws m f pos)
  | inr e ↦
      let test : (m == 0) ≡ false = ground arith in
      let kept = ap (λ b. compare_from (i + 1) rs ws (m + 1, if b then i else f)) test in
      subst (λ c. (1 ≤ c.0) × (c.1 ≡ f)) (sym (by_test e ∙ kept))
        (compare_later (i + 1) rs ws (m + 1) f (omega arith))
]
  where
    by_test :
        {t : Bool}
        → (r == w) ≡ t
        → compare_from i (r ∷ rs) (w ∷ ws) (m, f)
          ≡ compare_from (i + 1) rs ws (if t then (m, f) else (m + 1, if m == 0 then i else f))
    by_test e =
        ap
          (λ b. compare_from (i + 1) rs ws (if b then (m, f) else (m + 1, if m == 0 then i else f)))
          e

one_equal :
    {i r w : ℕ} {rs ws : List ℕ} {counts : ℕ × ℕ}
    → r ≡ w
    → Compared (i + 1) rs ws counts
    → Compared i (r ∷ rs) (w ∷ ws) counts
one_equal e (same none_there eq) = same none_there (ap₂ ◌∷◌ e eq)
one_equal {i} {r} {w} {rs} {ws} e (differs k some_there at below bad before) =
    differs (suc k) some_there (omega (arith, at)) (omega (arith, below)) bad (up before)
  where
    up :
        ((j : ℕ) → j < k → get_or rs j 0 ≡ get_or ws j 0)
        → (j : ℕ) → j < suc k
        → get_or (r ∷ rs) j 0 ≡ get_or (w ∷ ws) j 0
    up before zero h = e
    up before (suc j) h = before j (omega arith)

compare_from-Compared :
    (i : ℕ) (rs ws : List ℕ) (f : ℕ)
    → length rs ≡ length ws
    → Compared i rs ws (compare_from i rs ws (0, f))
unfolding compare_from
compare_from-Compared i [] [] f h = same refl refl
compare_from-Compared i [] (w ∷ ws) f h = absurd (omega arith)
compare_from-Compared i (r ∷ rs) [] f h = absurd (omega arith)
compare_from-Compared i (r ∷ rs) (w ∷ ws) f h = elim (Bool-cases (r == w)) [
  | inl e ↦ rw e (one_equal (ground arith) (compare_from-Compared (i + 1) rs ws f (omega arith)))
  | inr e ↦ rw e (
      let later = compare_later (i + 1) rs ws (0 + 1) i (omega arith) in
      differs 0 later.0 (omega (arith, later.1)) (omega arith) (ground arith)
        (λ j q. absurd (omega arith)))
]

-- The comparison of two buffers of one length finds no mismatch if they are equal, and otherwise
-- the first index at which they differ.
pub compare_lem :
    (rs ws : List ℕ) → length rs ≡ length ws → Compared 0 rs ws (compare_from 0 rs ws (0, 0))
compare_lem rs ws h = compare_from-Compared 0 rs ws 0 h
