-- ===== src/Smode/Tests.antt =====
-- The scheduler of src/smode at small inputs.
use riscv_baremetal_demo.Base.{
  ◌%◌, ◌^◌, false, ℕ, ◌≡◌, refl, ap, ◌≢◌, true, false, none, some, List, [], ◌∷◌, arith,
  length-replicate,
}
use Prim.Native.Nat.{min}
use riscv_baremetal_demo.Timer.{Clock, quantum_ticks, next_deadline-paced}
use riscv_baremetal_demo.Smode.{
  n_ticks, Build, Sched, power_up, sched_init, Trap, overrun, trap, account_final_switch, arm_found,
  stimer_arm,
}
use riscv_baremetal_demo.Smode.Arrays.{Sized, Sound}
use riscv_baremetal_demo.Smode.Bounds.{starts, Reachable-IsBounded}
use riscv_baremetal_demo.Smode.Sort.{sort_copy, median_of}
use riscv_baremetal_demo.Smode.Boot.{Symbols, Csrs, m_boot, Delegates, m_boot-Delegates}
use riscv_baremetal_demo.Smode.Sorted.{Ascending, count, sort_copy-Ascending}

abbrev a_build : Build
a_build = record { trap_smode = true; use_sstc = false }

abbrev steady : Clock
steady r = min r 1000000

abbrev stray : Trap
stray = record {
  cause = 0x8000000000000005;
  mtime_at_entry = 20000;
  cycle_at_entry = 100;
  mtime_at_exit = 20003;
  cycle_at_exit = 400;
}

power_up-Sized : Sized power_up
power_up-Sized = record {
  is_lat = length-replicate {A = ℕ} n_ticks 0;
  is_swc = length-replicate {A = ℕ} n_ticks 0;
  is_swt = length-replicate {A = ℕ} n_ticks 0;
}

abbrev begun : Sched
begun = record power_up { deadline = quantum_ticks; mtimecmp = quantum_ticks; reads = 2 }

begun_lem : sched_init a_build steady 3 power_up ≡ some begun
unfolding sched_init stimer_arm arm_found
begun_lem =
    ap (arm_found a_build (record power_up { ticks = 0; done = false; have_prev = false; swn = 0 }))
      (next_deadline-paced steady 3 0 (omega arith) (omega arith) (omega arith))

Reachable-IsBounded_example :
    Sound a_build begun
    × (trap a_build steady 3 stray begun ≢ overrun)
    × (account_final_switch begun ≢ none)
Reachable-IsBounded_example =
    Reachable-IsBounded a_build steady 3 stray begun
      (starts power_up begun power_up-Sized begun_lem)

abbrev five : List ℕ
five = 5 ∷ 1 ∷ 4 ∷ 1 ∷ 3 ∷ []

sort_copy-Ascending_example :
    Ascending 0 (sort_copy five) × ((x : ℕ) → count x (sort_copy five) ≡ count x five)
sort_copy-Ascending_example = sort_copy-Ascending five

sorted_five : sort_copy five ≡ 1 ∷ 1 ∷ 3 ∷ 4 ∷ 5 ∷ []
unfolding sort_copy
sorted_five = refl

median_four : median_of (10 ∷ 2 ∷ 4 ∷ 8 ∷ []) ≡ 6
unfolding median_of
median_four = refl

-- A hart without Sstc, with every register zero.
abbrev no_sstc : ℕ → ℕ
no_sstc v = v % 2 ^ 63

abbrev a_link : Symbols
a_link = record { s_entry = 1; strap_entry = 2; m_trap_entry = 3; m_estack_top = 4; sched_tf = 5 }

abbrev cleared : Csrs
cleared = record {
  menvcfg = 0;
  use_sstc = false;
  mtimecmp = 0;
  stimecmp = 0;
  pmpaddr0 = 0;
  pmpcfg0 = 0;
  mcounteren = 0;
  medeleg = 0;
  mideleg = 0;
  mtvec = 0;
  mscratch = 0;
  stvec = 0;
  sscratch = 0;
  sstatus = 0;
  mstatus = 6144;
  sepc = 0;
}

m_boot-Delegates_example : Delegates a_link (m_boot no_sstc a_link cleared)
m_boot-Delegates_example = m_boot-Delegates no_sstc a_link cleared
