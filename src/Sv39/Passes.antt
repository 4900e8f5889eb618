-- ===== src/Sv39/Passes.antt =====
-- Every check of src/sv39/sv39_main.c holds on a hart that translates as the specification says.
use riscv_baremetal_demo.Base.{ℕ, ◌/◌, ◌%◌, ◌^◌, ◌<◌, bit_and, ◌≡◌, ap, true, arith, ◌==◌, lt→ltb}
use riscv_baremetal_demo.Base.Bits.{power, low_mask, bit_and-low_mask, bit_and_12}
use riscv_baremetal_demo.Probe.{Passes}
use riscv_baremetal_demo.Sv39.{uart_base, pte_v, leaf_flags, Image, pte, pte_ppn, print_pte, tables}
use riscv_baremetal_demo.Sv39.Tables.{
  pte-sum, pte_ppn-pte, IsLinked, HoldsTables, tables-HoldsTables,
}
use riscv_baremetal_demo.Sv39.Run.{image_checks, table_checks}

-- The masks of the checks.
bit_and_3 : (x : ℕ) → bit_and x 7 ≡ x % 8
unfolding power low_mask
bit_and_3 x = bit_and-low_mask 3 x (x / 8) (x % 8) (omega arith) (omega arith)

bit_and_4 : (x : ℕ) → bit_and x 15 ≡ x % 16
unfolding power low_mask
bit_and_4 x = bit_and-low_mask 4 x (x / 16) (x % 16) (omega arith) (omega arith)

bit_and_5 : (x : ℕ) → bit_and x 31 ≡ x % 32
unfolding power low_mask
bit_and_5 x = bit_and-low_mask 5 x (x / 32) (x % 32) (omega arith) (omega arith)

pointer_ok : (e p : ℕ) → e ≡ pte p pte_v → p < 2 ^ 44 → (bit_and e 15 == pte_v) ≡ true
pointer_ok e p is fits = ground (arith, bit_and_4 e, pte-sum p pte_v fits (omega arith))

leaf_has : (e p : ℕ) → e ≡ pte p leaf_flags → p < 2 ^ 44 → (bit_and e 7 == 7) ≡ true
leaf_has e p is fits = ground (arith, bit_and_3 e, pte-sum p leaf_flags fits (omega arith))

leaf_lacks : (e p : ℕ) → e ≡ pte p leaf_flags → p < 2 ^ 44 → (bit_and e 31 == 7) ≡ true
leaf_lacks e p is fits = ground (arith, bit_and_5 e, pte-sum p leaf_flags fits (omega arith))

ppn_ok : (e p flags : ℕ) → e ≡ pte p flags → p < 2 ^ 44 → flags < 1024 → (pte_ppn e == p) ≡ true
ppn_ok e p flags is fits small = ground (arith, ap pte_ppn is, pte_ppn-pte p flags fits small)

aligned_ok : (a : ℕ) → a % 4096 ≡ 0 → (bit_and a 0xFFF == 0) ≡ true
aligned_ok a whole = ground (arith, bit_and_12 a)

pub image_checks-Passes : (s : Image) → IsLinked s → Passes (image_checks s)
unfolding image_checks
image_checks-Passes s linked = (
  aligned_ok s.root_pt (omega arith),
  (
    aligned_ok s.l1_test (omega arith),
    (
      aligned_ok s.l0_test (omega arith),
      (
        aligned_ok s.l1_uart (omega arith),
        (
          aligned_ok s.l0_uart (omega arith),
          (aligned_ok s.page (omega arith), (lt→ltb _ _ linked.stack, (ground arith, tt))),
        ),
      ),
    ),
  ),
)

pub table_checks-Passes : (s : Image) → IsLinked s → Passes (table_checks s (tables s))
unfolding table_checks print_pte
table_checks-Passes s linked = (
  pointer_ok _ (s.l1_test / 4096) (holds.root 1 (omega arith)) (omega arith),
  (
    pointer_ok _ (s.l1_uart / 4096) (holds.root 0 (omega arith)) (omega arith),
    (
      pointer_ok _ (s.l0_test / 4096) (holds.l1_test 0 (omega arith)) (omega arith),
      (
        pointer_ok _ (s.l0_uart / 4096) (holds.l1_uart 128 (omega arith)) (omega arith),
        (
          leaf_has _ (s.page / 4096) (holds.l0_test 0 (omega arith)) (omega arith),
          (
            leaf_lacks _ (s.page / 4096) (holds.l0_test 0 (omega arith)) (omega arith),
            (
              ppn_ok _ (s.l1_test / 4096) pte_v (holds.root 1 (omega arith)) (omega arith)
                  (omega arith),
              (
                ppn_ok _ (s.l0_test / 4096) pte_v (holds.l1_test 0 (omega arith)) (omega arith)
                    (omega arith),
                (
                  ppn_ok _ (s.page / 4096) leaf_flags (holds.l0_test 0 (omega arith)) (omega arith)
                      (omega arith),
                  (
                    ppn_ok _ (uart_base / 4096) leaf_flags (holds.l0_uart 0 (omega arith))
                        (omega arith) (omega arith),
                    tt,
                  ),
                ),
              ),
            ),
          ),
        ),
      ),
    ),
  ),
)
  where
    holds : HoldsTables s (tables s)
    holds = tables-HoldsTables s linked
