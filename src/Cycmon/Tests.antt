-- ===== src/Cycmon/Tests.antt =====
-- Runs of the model of src/cycmon/cyc_main.c, and the theorem on a few samples.
use riscv_baremetal_demo.Base.{◌++◌, ℕ, ◌≡◌, refl, ◌↔◌, true, List, [], ◌∷◌, arith}
use riscv_baremetal_demo.Cycmon.{
  take_sample, take_samples, is_backward, count_backward, backward_reads, main,
}
use riscv_baremetal_demo.Cycmon.Verdict.{IsSteady, result_line, main_iff}

-- The counter runs backward from 5100 to 100 between the two samples.
abbrev back : List (ℕ × ℕ)
back = (5000, 5100) ∷ (100, 200) ∷ []

back_is_not_counted : backward_reads (take_samples back) ≡ 0
unfolding backward_reads count_backward is_backward take_samples take_sample
back_is_not_counted = refl

main_iff_example :
    (((main 0 0 back).1 ≡ true) ↔ IsSteady (take_samples back))
    × ((before : List ℕ) × ((main 0 0 back).0.out ≡ before ++ result_line (main 0 0 back).1))
main_iff_example = main_iff 0 0 back (omega arith)
