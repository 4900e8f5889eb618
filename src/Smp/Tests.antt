-- ===== src/Smp/Tests.antt =====
-- Two harts of src/smp that print a line each.
use riscv_baremetal_demo.Base.{◌≡◌, refl, true, List, [], ◌∷◌}
use riscv_baremetal_demo.Base.Text.{codes, joined}
use riscv_baremetal_demo.Smp.{
  swap, put, clear, Call, program, Machine, wins, prints, clears, first, Reaches, begins, goes_on,
  locked_print_kv,
}
use riscv_baremetal_demo.Uart.{uint_chars, fill, drain}
use riscv_baremetal_demo.Smp.Lock.{Shuffle, InCritical, spin_lock-Excludes, locked_puts-whole}
use riscv_baremetal_demo.Smp.Progress.{Steps, remaining, spin_lock-runs_out}

-- Hart 0 prints one character; hart 1 has nothing to say.
abbrev one_char : List Call
one_char = (65 ∷ []) ∷ []

abbrev waiting : Machine
waiting = record { locked = 0; out = []; hart0 = swap ∷ put 65 ∷ clear ∷ []; hart1 = [] }

abbrev inside : Machine
inside = record { locked = 1; out = []; hart0 = put 65 ∷ clear ∷ []; hart1 = [] }

abbrev printed : Machine
printed = record { locked = 1; out = 65 ∷ []; hart0 = clear ∷ []; hart1 = [] }

abbrev over : Machine
over = record { locked = 0; out = 65 ∷ []; hart0 = []; hart1 = [] }

hart0_in : Reaches one_char [] inside
unfolding program
hart0_in = goes_on waiting inside begins (
    first 0 1 [] [] (swap ∷ put 65 ∷ clear ∷ []) (put 65 ∷ clear ∷ []) []
      (wins refl refl refl refl))

hart0_out : Reaches one_char [] over
hart0_out =
    goes_on printed over
      (goes_on inside printed hart0_in
        (first 1 1 [] (65 ∷ []) (put 65 ∷ clear ∷ []) (clear ∷ []) [] (prints 65 refl refl refl)))
      (first 1 0 (65 ∷ []) [] (clear ∷ []) [] [] (clears refl refl refl))

spin_lock-Excludes_example : ¬ (InCritical inside.hart0 × InCritical inside.hart1)
spin_lock-Excludes_example = spin_lock-Excludes one_char [] inside hart0_in

locked_puts-whole_example :
    (whole : List Call) × Shuffle one_char [] whole × (over.out ≡ joined whole) × (over.locked ≡ 0)
locked_puts-whole_example = locked_puts-whole one_char [] over hart0_out refl refl

spin_lock-runs_out_example :
    (m' : Machine) × Steps (remaining inside) inside m' × (m'.hart0 ≡ []) × (m'.hart1 ≡ [])
spin_lock-runs_out_example = spin_lock-runs_out one_char [] inside hart0_in

kv_line : locked_print_kv (codes "sp") 255 true ≡ codes "sp=0xff\n"
unfolding locked_print_kv uint_chars fill drain
kv_line = refl
