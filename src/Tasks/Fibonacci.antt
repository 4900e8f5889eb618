-- ===== src/Tasks/Fibonacci.antt =====
-- The Fibonacci task prints the Fibonacci numbers.
use riscv_baremetal_demo.Base.{
  ℕ, zero, suc, ◌+◌, ◌%◌, ◌^◌, ◌≡◌, refl, ap, ap₂, ◌∙◌, List, [], ◌∷◌, ◌++◌, arith,
}
use riscv_baremetal_demo.Sched.RoundRobin.{slices}
use riscv_baremetal_demo.Tasks.{fibonacci_from, fibonacci_line}

unfoldable pub fib : ℕ → ℕ
fib zero = 0
fib (suc zero) = 1
fib (suc (suc n)) = fib n + fib (suc n)

-- The lines for the `n` numbers from the `i`th on, modulo the word size.
unfoldable pub fib_lines : ℕ → ℕ → List (List ℕ)
fib_lines zero i = []
fib_lines (suc n) i = fibonacci_line i (fib i % 2 ^ 64) ∷ fib_lines n (suc i)

fibonacci_from-lines :
    (n i : ℕ)
    → slices (fibonacci_from n (suc i) (fib i % 2 ^ 64) (fib (suc i) % 2 ^ 64))
      ≡ fib_lines n (suc i) ++ ([] ∷ [])
unfolding fibonacci_from slices fib_lines fib
fibonacci_from-lines zero i = refl
fibonacci_from-lines (suc n) i =
    let next : suc i + 1 ≡ suc (suc i) = omega arith in
    let sum : (fib i % 2 ^ 64 + fib (suc i) % 2 ^ 64) % 2 ^ 64 ≡ fib (suc (suc i)) % 2 ^ 64 =
      omega arith in
    let rest = λ (j s : ℕ). slices (fibonacci_from n j (fib (suc i) % 2 ^ 64) s) in
    ap (λ l. fibonacci_line (suc i) (fib (suc i) % 2 ^ 64) ∷ l)
      (ap₂ rest next sum ∙ fibonacci_from-lines n (suc i))

-- The loop of `task_fibonacci`, for any number of rounds in place of ITERATIONS, prints in its
-- `i`th turn the line of `i` and of the `i`th Fibonacci number modulo 2^64, and then returns
-- without printing more.
pub fibonacci-lines : (n : ℕ) → slices (fibonacci_from n 1 0 1) ≡ fib_lines n 1 ++ ([] ∷ [])
unfolding fib
fibonacci-lines n = fibonacci_from-lines n 0
