-- ===== src/Smp/Progress.antt =====
-- src/smp/spinlock.c: no deadlock. The harts can always go on until both are done.
use riscv_baremetal_demo.Base.{
  ℕ, zero, suc, ◌+◌, ◌≡◌, refl, ap, ◌⊎◌, inl, inr, List, [], ◌∷◌, ◌++◌, arith, length,
}
use riscv_baremetal_demo.Smp.{
  Action, swap, put, clear, Call, puts, program, locked_call, Machine, Acts, wins, prints, clears,
  Step, first, second, Reaches, goes_on,
}
use riscv_baremetal_demo.Smp.Lock.{Excludes, free, held0, held1, Reaches-Excludes}

abbrev Finished : Machine → Type 0
Finished m = (m.hart0 ≡ []) × (m.hart1 ≡ [])

-- What both harts have still to do.
abbrev pub remaining : Machine → ℕ
remaining m = length m.hart0 + length m.hart1

-- A step that takes one action off.
abbrev Advances : Machine → Type 0
Advances m = (m' : Machine) × Step m m' × (remaining m' + 1 ≡ remaining m)

advance0 :
    (m : Machine) (l' : ℕ) (a : Action) (p' : List Action) (e : List ℕ)
    → m.hart0 ≡ a ∷ p'
    → Acts m.locked m.hart0 l' p' e
    → Advances m
advance0 m l' a p' e shape acts = (
  record { locked = l'; out = m.out ++ e; hart0 = p'; hart1 = m.hart1 },
  first m.locked l' m.out e m.hart0 p' m.hart1 acts,
  omega (arith, ap (λ (p : List Action). length p) shape),
)

advance1 :
    (m : Machine) (l' : ℕ) (a : Action) (p' : List Action) (e : List ℕ)
    → m.hart1 ≡ a ∷ p'
    → Acts m.locked m.hart1 l' p' e
    → Advances m
advance1 m l' a p' e shape acts = (
  record { locked = l'; out = m.out ++ e; hart0 = m.hart0; hart1 = p' },
  second m.locked l' m.out e m.hart1 p' m.hart0 acts,
  omega (arith, ap (λ (p : List Action). length p) shape),
)

-- The holder of the lock prints on, or gives it back.
holder0 :
    (m : Machine) (rest : List ℕ) (after : List Action)
    → m.hart0 ≡ puts rest (clear ∷ after)
    → Advances m
unfolding puts
holder0 m [] after shape = advance0 m 0 clear after [] shape (clears shape refl refl)
holder0 m (c ∷ rest) after shape =
    advance0 m m.locked (put c) (puts rest (clear ∷ after)) (c ∷ []) shape
      (prints c shape refl refl)

holder1 :
    (m : Machine) (rest : List ℕ) (after : List Action)
    → m.hart1 ≡ puts rest (clear ∷ after)
    → Advances m
unfolding puts
holder1 m [] after shape = advance1 m 0 clear after [] shape (clears shape refl refl)
holder1 m (c ∷ rest) after shape =
    advance1 m m.locked (put c) (puts rest (clear ∷ after)) (c ∷ []) shape
      (prints c shape refl refl)

-- With the lock free, a hart with a call left takes it.
taker :
    (m : Machine) (r0 r1 : List Call)
    → m.locked ≡ 0
    → m.hart0 ≡ program r0
    → m.hart1 ≡ program r1
    → Finished m ⊎ Advances m
unfolding program locked_call
taker m [] [] z e0 e1 = inl (e0, e1)
taker m [] (s ∷ r1) z e0 e1 =
    inr (advance1 m 1 swap (puts s (clear ∷ program r1)) [] e1 (wins z e1 refl refl))
taker m (s ∷ r0) r1 z e0 e1 =
    inr (advance0 m 1 swap (puts s (clear ∷ program r0)) [] e0 (wins z e0 refl refl))

progress :
    (a0 a1 : List Call) (m : Machine)
    → Excludes a0 a1 m.locked m.out m.hart0 m.hart1
    → Finished m ⊎ Advances m
progress a0 a1 m (free r0 r1 z e0 e1 f) = taker m r0 r1 z e0 e1
progress a0 a1 m (held0 rest r0 r1 z e0 e1 f) = inr (holder0 m rest (program r0) e0)
progress a0 a1 m (held1 rest r0 r1 z e0 e1 f) = inr (holder1 m rest (program r1) e1)

-- A number of steps one after the other.
pub data Steps : ℕ → Machine → Machine → Type 0 where
  none_left : (m : Machine) → Steps 0 m m
  one_more : (n : ℕ) (m m' m'' : Machine) → Step m m' → Steps n m' m'' → Steps (suc n) m m''

nothing_left : (p : List Action) → length p ≡ 0 → p ≡ []
nothing_left [] e = refl
nothing_left (a ∷ p) e = absurd (omega arith)

runs_out :
    (a0 a1 : List Call) (n : ℕ) (m : Machine)
    → Reaches a0 a1 m
    → remaining m ≡ n
    → (m' : Machine) × Steps n m m' × (m'.hart0 ≡ []) × (m'.hart1 ≡ [])
runs_out a0 a1 zero m reached size =
    (m, none_left m, nothing_left m.hart0 (omega arith), nothing_left m.hart1 (omega arith))
runs_out a0 a1 (suc n) m reached size = elim (progress a0 a1 m (Reaches-Excludes reached)) [
  | inl (over0, over1) ↦ absurd (
      omega
        (arith, ap (λ (p : List Action). length p) over0, ap (λ (p : List Action). length p) over1))
  | inr (m', step, less) ↦
      let (last, steps, end0, end1) =
        runs_out a0 a1 n m' (goes_on m m' reached step) (omega arith) in
      (last, one_more n m m' last step steps, end0, end1)
]

-- From every state that some order of the harts' actions reaches, both harts can finish all their
-- calls, in exactly as many steps as they have actions left; so no order runs into a deadlock.
pub spin_lock-runs_out :
    (a0 a1 : List Call) (m : Machine)
    → Reaches a0 a1 m
    → (m' : Machine) × Steps (remaining m) m m' × (m'.hart0 ≡ []) × (m'.hart1 ≡ [])
spin_lock-runs_out a0 a1 m reached = runs_out a0 a1 (remaining m) m reached refl
