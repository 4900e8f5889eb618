-- ===== src/Smp/Lock.antt =====
-- Mutual exclusion of src/smp/spinlock.c, and whole lines in the output.
use riscv_baremetal_demo.Base.{ℕ, ◌≡◌, refl, sym, ap, ◌∙◌, List, [], ◌∷◌, ◌++◌, arith}
use mathlib.Core.Path.{subst}
use riscv_baremetal_demo.Base.Text.{joined}
use riscv_baremetal_demo.Smp.{
  Action, swap, put, clear, Call, puts, program, locked_call, Machine, Acts, wins, spins, prints,
  clears, first, second, Reaches, begins, goes_on,
}

-- Two sequences shuffled into one, each in its order.
pub data Shuffle : List Call → List Call → List Call → Type 0 where
  empty : Shuffle [] [] []
  left : (s : Call) (a b m : List Call) → Shuffle a b m → Shuffle (s ∷ a) b (s ∷ m)
  right : (s : Call) (a b m : List Call) → Shuffle a b m → Shuffle a (s ∷ b) (s ∷ m)

Shuffle-sym : {a b m : List Call} → Shuffle a b m → Shuffle b a m
Shuffle-sym empty = empty
Shuffle-sym (left s a b m h) = right s b a m (Shuffle-sym h)
Shuffle-sym (right s a b m h) = left s b a m (Shuffle-sym h)

-- Whatever shuffle of the remaining calls follows, with the rest of a line before it, the output
-- completes to a shuffle of all calls.
unfoldable pub Fits : List Call → List Call → List ℕ → List ℕ → List Call → List Call → Type 0
Fits a0 a1 out rest r0 r1 =
    (r : List Call)
    → Shuffle r0 r1 r
    → (whole : List Call) × Shuffle a0 a1 whole × (joined whole ≡ out ++ (rest ++ joined r))

-- The lock is free and both harts are outside of it, or one hart holds it.
pub data Excludes (a0 a1 : List Call) (l : ℕ) (out : List ℕ) (p0 p1 : List Action) : Type 0 where
  free :
      (r0 r1 : List Call)
      → l ≡ 0
      → p0 ≡ program r0
      → p1 ≡ program r1
      → Fits a0 a1 out [] r0 r1
      → Excludes a0 a1 l out p0 p1
  held0 :
      (rest : List ℕ) (r0 r1 : List Call)
      → l ≡ 1
      → p0 ≡ puts rest (clear ∷ program r0)
      → p1 ≡ program r1
      → Fits a0 a1 out rest r0 r1
      → Excludes a0 a1 l out p0 p1
  held1 :
      (rest : List ℕ) (r0 r1 : List Call)
      → l ≡ 1
      → p0 ≡ program r0
      → p1 ≡ puts rest (clear ∷ program r1)
      → Fits a0 a1 out rest r0 r1
      → Excludes a0 a1 l out p0 p1

Fits-sym :
    (a0 a1 : List Call) (out rest : List ℕ) (r0 r1 : List Call)
    → Fits a0 a1 out rest r0 r1
    → Fits a1 a0 out rest r1 r0
unfolding Fits
Fits-sym a0 a1 out rest r0 r1 fits r h =
    let (whole, s, e) = fits r (Shuffle-sym h) in (whole, Shuffle-sym s, e)

Excludes-sym :
    {a0 a1 : List Call} {l : ℕ} {out : List ℕ} {p0 p1 : List Action}
    → Excludes a0 a1 l out p0 p1
    → Excludes a1 a0 l out p1 p0
Excludes-sym (free r0 r1 e e0 e1 f) = free r1 r0 e e1 e0 (Fits-sym _ _ _ _ _ _ f)
Excludes-sym (held0 rest r0 r1 e e0 e1 f) = held1 rest r1 r0 e e1 e0 (Fits-sym _ _ _ _ _ _ f)
Excludes-sym (held1 rest r0 r1 e e0 e1 f) = held0 rest r1 r0 e e1 e0 (Fits-sym _ _ _ _ _ _ f)

append_nil : (xs : List ℕ) → xs ++ [] ≡ xs
append_nil [] = refl
append_nil (x ∷ xs) = ap (λ ys. x ∷ ys) (append_nil xs)

append_assoc : (xs ys zs : List ℕ) → (xs ++ ys) ++ zs ≡ xs ++ (ys ++ zs)
append_assoc [] ys zs = refl
append_assoc (x ∷ xs) ys zs = ap (λ us. x ∷ us) (append_assoc xs ys zs)

-- A hart outside makes no other action than the swap.
outside_first : (r : List Call) (a : Action) (p : List Action) → a ∷ p ≡ program r → a ≡ swap
unfolding program locked_call
outside_first [] a p e = cc
outside_first (s ∷ r) a p e = cc

outside_swap :
    (r : List Call) (p : List Action)
    → program r ≡ swap ∷ p
    → (s : Call) × (r' : List Call) × (r ≡ s ∷ r') × (p ≡ puts s (clear ∷ program r'))
unfolding program locked_call
outside_swap [] p e = absurd cc
outside_swap (s ∷ r) p e = (s, r, refl, cc)

inside_put :
    (rest : List ℕ) (after p : List Action) (c : ℕ)
    → puts rest (clear ∷ after) ≡ put c ∷ p
    → (rest' : List ℕ) × (rest ≡ c ∷ rest') × (p ≡ puts rest' (clear ∷ after))
unfolding puts
inside_put [] after p c e = absurd cc
inside_put (d ∷ rest) after p c e = (rest, cc, cc)

inside_clear :
    (rest : List ℕ) (after p : List Action)
    → puts rest (clear ∷ after) ≡ clear ∷ p
    → (rest ≡ []) × (p ≡ after)
unfolding puts
inside_clear [] after p e = (refl, cc)
inside_clear (d ∷ rest) after p e = absurd cc

inside_swap : (rest : List ℕ) (after p : List Action) → puts rest (clear ∷ after) ≡ swap ∷ p → ⊥
unfolding puts
inside_swap [] after p e = cc
inside_swap (d ∷ rest) after p e = cc

module _ (a0 a1 : List Call) (out : List ℕ) (r1 : List Call) where
  -- The next line begins with the whole of its text to come.
  Fits-begin :
      (s : Call) (r0 r0' : List Call)
      → r0 ≡ s ∷ r0'
      → Fits a0 a1 out [] r0 r1
      → Fits a0 a1 (out ++ []) s r0' r1
  unfolding Fits
  Fits-begin s r0 r0' e fits r h =
      let (whole, shuffled, j) =
        fits (s ∷ r) (subst (λ r0. Shuffle r0 r1 (s ∷ r)) (sym e) (left s r0' r1 r h)) in
      (whole, shuffled, j ∙ ap (λ o. o ++ (s ++ joined r)) (sym (append_nil out)))

  Fits-put :
      (c : ℕ) (rest rest' : List ℕ) (r0 : List Call)
      → rest ≡ c ∷ rest'
      → Fits a0 a1 out rest r0 r1
      → Fits a0 a1 (out ++ (c ∷ [])) rest' r0 r1
  unfolding Fits
  Fits-put c rest rest' r0 e fits r h =
      let (whole, shuffled, j) = fits r h in
      (
        whole,
        shuffled,
        j
            ∙ ap (λ x. out ++ (x ++ joined r)) e
            ∙ sym (append_assoc out (c ∷ []) (rest' ++ joined r)),
      )

  Fits-same :
      (rest rest' : List ℕ) (r0 : List Call)
      → rest ≡ rest'
      → Fits a0 a1 out rest r0 r1
      → Fits a0 a1 (out ++ []) rest' r0 r1
  Fits-same rest rest' r0 e fits =
      subst (λ o. Fits a0 a1 o rest' r0 r1) (sym (append_nil out))
        (subst (λ x. Fits a0 a1 out x r0 r1) e fits)

-- Every action of the first hart keeps the exclusion.
Acts-Excludes :
    (a0 a1 : List Call) (l l' : ℕ) (out e : List ℕ) (p p' other : List Action)
    → Excludes a0 a1 l out p other
    → Acts l p l' p' e
    → Excludes a0 a1 l' (out ++ e) p' other
Acts-Excludes a0 a1 l l' out e p p' other (free r0 r1 z e0 e1 f) (wins _ pe le ee) =
    let (s, r0', re, pe') = outside_swap r0 p' (sym e0 ∙ pe) in
    rw ee (held0 s r0' r1 le pe' e1 (Fits-begin a0 a1 out r1 s r0 r0' re f))
Acts-Excludes a0 a1 l l' out e p p' other (free r0 r1 z e0 e1 f) (spins rest nz pe le pp ee) =
    absurd (nz z)
Acts-Excludes a0 a1 l l' out e p p' other (free r0 r1 z e0 e1 f) (prints c pe le ee) =
    let bad = outside_first r0 (put c) p' (sym pe ∙ e0) in absurd cc
Acts-Excludes a0 a1 l l' out e p p' other (free r0 r1 z e0 e1 f) (clears pe le ee) =
    let bad = outside_first r0 clear p' (sym pe ∙ e0) in absurd cc
Acts-Excludes a0 a1 l l' out e p p' other (held0 rest r0 r1 z e0 e1 f) (wins nl pe le ee) =
    absurd (omega (arith, z, nl))
Acts-Excludes a0 a1 l l' out e p p' other (held0 rest r0 r1 z e0 e1 f) (spins q nz pe le pp ee) =
    absurd (inside_swap rest (program r0) q (sym e0 ∙ pe))
Acts-Excludes a0 a1 l l' out e p p' other (held0 rest r0 r1 z e0 e1 f) (prints c pe le ee) =
    let (rest', re, pe') = inside_put rest (program r0) p' c (sym e0 ∙ pe) in
    rw ee (held0 rest' r0 r1 (le ∙ z) pe' e1 (Fits-put a0 a1 out r1 c rest rest' r0 re f))
Acts-Excludes a0 a1 l l' out e p p' other (held0 rest r0 r1 z e0 e1 f) (clears pe le ee) =
    let (re, pe') = inside_clear rest (program r0) p' (sym e0 ∙ pe) in
    rw ee (free r0 r1 le pe' e1 (Fits-same a0 a1 out r1 rest [] r0 re f))
Acts-Excludes a0 a1 l l' out e p p' other (held1 rest r0 r1 z e0 e1 f) (wins nl pe le ee) =
    absurd (omega (arith, z, nl))
Acts-Excludes a0 a1 l l' out e p p' other (held1 rest r0 r1 z e0 e1 f) (spins q nz pe le pp ee) =
    rw ee (held1 rest r0 r1 le (pp ∙ e0) e1 (Fits-same a0 a1 out r1 rest rest r0 refl f))
Acts-Excludes a0 a1 l l' out e p p' other (held1 rest r0 r1 z e0 e1 f) (prints c pe le ee) =
    let bad = outside_first r0 (put c) p' (sym pe ∙ e0) in absurd cc
Acts-Excludes a0 a1 l l' out e p p' other (held1 rest r0 r1 z e0 e1 f) (clears pe le ee) =
    let bad = outside_first r0 clear p' (sym pe ∙ e0) in absurd cc

pub Reaches-Excludes :
    {a0 a1 : List Call} {m : Machine}
    → Reaches a0 a1 m
    → Excludes a0 a1 m.locked m.out m.hart0 m.hart1
unfolding Fits
Reaches-Excludes {a0} {a1} begins = free a0 a1 refl refl refl (λ r h. (r, h, refl))
Reaches-Excludes {a0} {a1} (goes_on m m' before (first l l' out e p p' other acts)) =
    Acts-Excludes a0 a1 l l' out e p p' other (Reaches-Excludes before) acts
Reaches-Excludes {a0} {a1} (goes_on m m' before (second l l' out e p p' other acts)) =
    Excludes-sym
      (Acts-Excludes a1 a0 l l' out e p p' other (Excludes-sym (Reaches-Excludes before)) acts)

-- The next action is one that only the holder of the lock makes.
unfoldable pub InCritical : List Action → Type 0
InCritical [] = ⊥
InCritical (swap ∷ p) = ⊥
InCritical (put c ∷ p) = Unit {0}
InCritical (clear ∷ p) = Unit {0}

program_outside : (r : List Call) → InCritical (program r) → ⊥
unfolding program locked_call InCritical
program_outside [] h = h
program_outside (s ∷ r) h = h

-- In every order of their actions, the two harts are never both between `spin_lock` and
-- `spin_unlock`.
pub spin_lock-Excludes :
    (a0 a1 : List Call) (m : Machine)
    → Reaches a0 a1 m
    → ¬ (InCritical m.hart0 × InCritical m.hart1)
spin_lock-Excludes a0 a1 m reached both = elim (Reaches-Excludes reached) [
  | free r0 r1 z e0 e1 f ↦ program_outside r0 (subst InCritical e0 both.0)
  | held0 rest r0 r1 z e0 e1 f ↦ program_outside r1 (subst InCritical e1 both.1)
  | held1 rest r0 r1 z e0 e1 f ↦ program_outside r0 (subst InCritical e0 both.0)
]

program_nil : (r : List Call) → program r ≡ [] → r ≡ []
unfolding program locked_call
program_nil [] e = refl
program_nil (s ∷ r) e = absurd cc

puts_nil : (rest : List ℕ) (after : List Action) → puts rest (clear ∷ after) ≡ [] → ⊥
unfolding puts
puts_nil [] after e = cc
puts_nil (c ∷ rest) after e = cc

-- When both harts have made all their calls, in whatever order their actions came, the output is
-- the texts of the calls one after the other, each of them whole, and the calls of each hart in
-- its own order; and the lock is free.
pub locked_puts-whole :
    (a0 a1 : List Call) (m : Machine)
    → Reaches a0 a1 m
    → m.hart0 ≡ []
    → m.hart1 ≡ []
    → (whole : List Call) × Shuffle a0 a1 whole × (m.out ≡ joined whole) × (m.locked ≡ 0)
unfolding Fits
locked_puts-whole a0 a1 m reached n0 n1 = elim (Reaches-Excludes reached) [
  | free r0 r1 z e0 e1 f ↦
      let none0 = program_nil r0 (sym e0 ∙ n0) in
      let none1 = program_nil r1 (sym e1 ∙ n1) in
      let ends : Shuffle r0 r1 [] = rw none0 (rw none1 empty) in
      let (whole, shuffled, j) = f [] ends in (whole, shuffled, sym (j ∙ append_nil m.out), z)
  | held0 rest r0 r1 z e0 e1 f ↦ absurd (puts_nil rest (program r0) (sym e0 ∙ n0))
  | held1 rest r0 r1 z e0 e1 f ↦ absurd (puts_nil rest (program r1) (sym e1 ∙ n1))
]
