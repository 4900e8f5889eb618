-- ===== src/Sched/Stacks.antt =====
-- Where `task_create` puts the stacks.
use riscv_baremetal_demo.Base.{
  ℕ, suc, ◌+◌, ◌%◌, ◌≤◌, ◌<◌, ◌≡◌, refl, inl, inr, false, List, [], ◌∷◌, ◌++◌, arith, leb,
  Bool-cases, length, length-append,
}
use native.Mathlib.Nat.{add-zero}
use riscv_baremetal_demo.Sched.{
  Body, Task, task_create, max_tasks, stack_size, stack_of, task_ready,
}

-- Every task of the table starts with an aligned stack pointer at the top of its own stack, and
-- is ready.
abbrev pub IsPlaced : ℕ → ℕ → List Task → Type 0
IsPlaced base i [] = Unit {0}
IsPlaced base i (t ∷ ts) =
    (t.sp % 16 ≡ 0)
    × (stack_of base i < t.sp)
    × (t.sp ≤ stack_of base i + stack_size)
    × (stack_of base i + stack_size < t.sp + 16)
    × (t.state ≡ task_ready)
    × IsPlaced base (i + 1) ts

IsPlaced-append :
    (base i : ℕ) (ts : List Task) (t : Task)
    → IsPlaced base i ts
    → IsPlaced base (i + length ts) (t ∷ [])
    → IsPlaced base i (ts ++ (t ∷ []))
IsPlaced-append base i [] t h k = rw add-zero at k
IsPlaced-append base i (u ∷ ts) t h k =
    let rest =
      IsPlaced-append base (i + 1) ts t h.5
        (let e : i + suc (length ts) ≡ i + 1 + length ts = omega arith in rw e at k) in
    (h.0, h.1, h.2, h.3, h.4, rest)

leb→gt : {a b : ℕ} → leb a b ≡ false → b < a
leb→gt h = ground arith

-- Creating a task, whether the table has room or not, keeps the table within its three entries, and
-- every task in it ready, with a 16-byte aligned stack pointer at the top of its own stack.
pub task_create-IsPlaced :
    (base : ℕ) (fn : Body) (name : List ℕ) (ts : List Task)
    → length ts ≤ max_tasks
    → IsPlaced base 0 ts
    → (length (task_create base fn name ts) ≤ max_tasks)
      × IsPlaced base 0 (task_create base fn name ts)
unfolding task_create
task_create-IsPlaced base fn name ts h placed = elim (Bool-cases (leb max_tasks (length ts))) [
  | inl e ↦ rw e (h, placed)
  | inr e ↦ rw e (
    omega (arith, length-append ts (_ ∷ []), leb→gt e),
    IsPlaced-append base 0 ts _ placed
        (omega arith, omega arith, omega arith, omega arith, refl, tt),
  )
]
