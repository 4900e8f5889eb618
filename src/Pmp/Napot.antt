-- ===== src/Pmp/Napot.antt =====
-- The NAPOT encodings decode to the regions that the demos under src/pmp-* name.
use riscv_baremetal_demo.Base.{
  ℕ, zero, suc, ◌+◌, ◌*◌, ◌/◌, ◌<◌, bit_or, ◌≡◌, refl, ◌%◌, ap, ◌∙◌, arith,
}
use native.Mathlib.Nat.{mul_assoc, mul_right_comm}
use riscv_baremetal_demo.Base.Bits.{power, low_mask, low_mask-power, bit_or-shifted}
use riscv_baremetal_demo.Pmp.{
  pmpaddr_of, napot_size_4k, napot_size_64k, napot_pat_4k, napot_pat_64k, napot_pat_1m,
}
use riscv_baremetal_demo.Pmp.Priority.{napot_4k_mask}
use riscv_baremetal_demo.Pmp.Matching.{trailing_ones, ones, napot_base, napot_size}

-- A run of k ones below an even number ends there.
trailing_ones-run : (k f m : ℕ) → k < f → trailing_ones f (m * 2 * power k + low_mask k) ≡ k
unfolding trailing_ones power low_mask
trailing_ones-run k zero m less = absurd (omega arith)
trailing_ones-run zero (suc f) m less = ground (arith, alone)
  where
    alone : m * 2 * 1 ≡ m * 2
    alone = omega arith
trailing_ones-run (suc k) (suc f) m less =
    ground (arith, doubled, ap (trailing_ones f) halved, trailing_ones-run k f m (omega arith))
  where
    doubled : m * 2 * (power k * 2) ≡ m * 2 * power k * 2
    doubled = omega (arith, mul_assoc (m * 2) (power k) 2)

    halved : (m * 2 * (power k * 2) + (low_mask k * 2 + 1)) / 2 ≡ m * 2 * power k + low_mask k
    halved = omega (arith, doubled)

module _ (k q : ℕ) (digits : k < 54) where
  abbrev base : ℕ
  base = q * (power k * 8)

  -- The address register of the q-th region of size 8 * 2 ^ k.
  register : pmpaddr_of base (low_mask k) ≡ q * 2 * power k + low_mask k
  unfolding pmpaddr_of
  register =
      ap (λ b. bit_or b (low_mask k)) quarter
      ∙ bit_or-shifted k (q * 2) (low_mask k) (omega (arith, low_mask-power k))
    where
      eightfold : q * (power k * 8) ≡ q * power k * 8
      eightfold = omega (arith, mul_assoc q (power k) 8)

      twofold : q * 2 * power k ≡ q * power k * 2
      twofold = mul_right_comm q 2 (power k)

      quarter : q * (power k * 8) / 4 ≡ q * 2 * power k
      quarter = omega (arith, eightfold, twofold)

  ones_of : ones (pmpaddr_of base (low_mask k)) ≡ k
  ones_of = ap ones register ∙ trailing_ones-run k 54 q digits

-- `(base >> 2)` with a run of ones decodes to that base, a multiple of the size, and to the size.
napot_run :
    (k q : ℕ)
    → k < 54
    → (napot_base (pmpaddr_of (q * (power k * 8)) (low_mask k)) ≡ q * (power k * 8))
      × (napot_size (pmpaddr_of (q * (power k * 8)) (low_mask k)) ≡ power k * 8)
unfolding napot_base napot_size
napot_run k q digits = (
  rw (ones_of k q digits, register k q digits)
      (omega (arith, mul_assoc q (power k) 8, mul_right_comm q 2 (power k))),
  ap (λ n. power n * 8) (ones_of k q digits),
)

-- An address register that decodes to a region.
abbrev pub IsRegion : ℕ → ℕ → ℕ → Type 0
IsRegion register base size = (napot_base register ≡ base) × (napot_size register ≡ size)

run-IsRegion :
    (k base size mask : ℕ)
    → k < 54
    → size ≡ power k * 8
    → mask ≡ low_mask k
    → (q : ℕ) → base ≡ q * size
    → IsRegion (pmpaddr_of base mask) base size
run-IsRegion k base size mask digits sized masked q whole =
    rw (whole, sized, masked) (napot_run k q digits)

-- With the masks of the demos, `(base >> 2) | mask` decodes to 4096 bytes at every `page` that is a
-- multiple of 4096, and to 65536 bytes at every `block` that is a multiple of 65536, and the three
-- constants of the encoding demo decode to 4 KiB at 0x80002000, 64 KiB at 0x80400000 and 1 MiB at
-- 0x88000000.
pub napot_decodes :
    (page block : ℕ)
    → page % 4096 ≡ 0
    → block % 65536 ≡ 0
    → IsRegion (pmpaddr_of page napot_4k_mask) page 4096
      × IsRegion (pmpaddr_of page napot_size_4k) page 4096
      × IsRegion (pmpaddr_of block napot_size_64k) block 65536
      × IsRegion napot_pat_4k 0x80002000 4096
      × IsRegion napot_pat_64k 0x80400000 65536
      × IsRegion napot_pat_1m 0x88000000 0x100000
unfolding napot_base napot_size trailing_ones low_mask power
napot_decodes page block whole_page whole_block =
    let pages : page ≡ page / 4096 * 4096 = omega arith in
    let blocks : block ≡ block / 65536 * 65536 = omega arith in
    let run = run-IsRegion 9 page 4096 0x1FF (omega arith) refl refl (page / 4096) pages in
    (
      run,
      run,
      run-IsRegion 13 block 65536 0x1FFF (omega arith) refl refl (block / 65536) blocks,
      (refl, refl),
      (refl, refl),
      (refl, refl),
    )
