-- ===== src/Virtio/Discovery.antt =====
-- `find_block_device`: the scan of the MMIO slots.
use riscv_baremetal_demo.Base.{
  ℕ, zero, suc, ◌+◌, ◌*◌, ◌≤◌, ◌<◌, ◌≡◌, refl, inl, inr, true, false, ◌&&◌, Option, none, some,
  List, ◌∷◌, arith, ◌==◌, if◌then◌else◌, Bool-cases,
}
use native.Mathlib.Decide.{dec_lt}
use riscv_baremetal_demo.Virtio.Reg
use riscv_baremetal_demo.Virtio.{
  Access, rd, Device, Driver, find_from, find_block_device, mmio_base, mmio_stride, mmio_slots,
  magic_value, id_block,
}

-- The machine's slots, as far as the scan looks: what each magic and device id register reads,
-- whenever it is read.
pub record Answers (dev : Device) (magic id : ℕ → ℕ) : Type 0 where
  pub magics :
      (log : List Access) (i : ℕ) → dev log (mmio_base + i * mmio_stride) Reg.magic ≡ magic i
  pub ids : (log : List Access) (i : ℕ) → dev log (mmio_base + i * mmio_stride) Reg.device_id ≡ id i

-- The first of `left` slots from `i` on that holds a block device.
unfoldable pub first_block : (ℕ → ℕ) → (ℕ → ℕ) → ℕ → ℕ → Option ℕ
first_block magic id zero i = none
first_block magic id (suc left) i =
    if magic i == magic_value && id i == id_block then some i else first_block magic id left (i + 1)

abbrev pub base_of : Option ℕ → ℕ
base_of none = 0
base_of (some i) = mmio_base + i * mmio_stride

find_from-first :
    (dev : Device) (magic id : ℕ → ℕ)
    → Answers dev magic id
    → (left i : ℕ) (d : Driver) → (find_from dev left i d).0 ≡ base_of (first_block magic id left i)
unfolding find_from first_block
find_from-first dev magic id a zero i d = refl
find_from-first dev magic id a (suc left) i d =
    rw (a.magics d.log i, a.ids (rd (mmio_base + i * mmio_stride) Reg.magic (magic i) ∷ d.log) i)
      (elim (Bool-cases (magic i == magic_value && id i == id_block)) [
        | inl here ↦ rw here refl
        | inr not_here ↦ rw not_here (find_from-first dev magic id a left (i + 1) _)
      ])

module _ (magic id : ℕ → ℕ) where
  abbrev pub HoldsBlock : ℕ → Type 0
  HoldsBlock i = (magic i ≡ magic_value) × (id i ≡ id_block)

  -- The scan of `left` slots from `i` on stopped at the first block device, or there is none.
  abbrev pub IsFirst : ℕ → ℕ → Option ℕ → Type 0
  IsFirst left i none = (j : ℕ) → i ≤ j → j < i + left → ¬ HoldsBlock j
  IsFirst left i (some k) =
      (i ≤ k) × (k < i + left) × HoldsBlock k × ((j : ℕ) → i ≤ j → j < k → ¬ HoldsBlock j)

  here_test : (i : ℕ) → (magic i == magic_value && id i == id_block) ≡ true → HoldsBlock i
  here_test i h = ground (arith, h)

  no_test : (i : ℕ) → (magic i == magic_value && id i == id_block) ≡ false → ¬ HoldsBlock i
  no_test i h p = ground (arith, h, p)

  skip : (i j : ℕ) → ¬ HoldsBlock i → (i + 1 ≤ j → ¬ HoldsBlock j) → i ≤ j → ¬ HoldsBlock j
  skip i j not_here later h = elim (dec_lt i j) [
    | yes p ↦ later (omega arith)
    | no q ↦ let e : i ≡ j = omega arith in rw e at not_here
  ]

  IsFirst-next :
      (left i : ℕ) (o : Option ℕ) → ¬ HoldsBlock i → IsFirst left (i + 1) o → IsFirst (suc left) i o
  IsFirst-next left i none not_here h = λ j p q. skip i j not_here (λ r. h j r (omega arith)) p
  IsFirst-next left i (some k) not_here h =
      (omega arith, omega arith, h.2, λ j p q. skip i j not_here (λ r. h.3 j r q) p)

  first_block-IsFirst : (left i : ℕ) → IsFirst left i (first_block magic id left i)
  unfolding first_block
  first_block-IsFirst zero i = λ j p q. absurd (omega arith)
  first_block-IsFirst (suc left) i =
      elim (Bool-cases (magic i == magic_value && id i == id_block)) [
        | inl here ↦
            rw here (omega arith, omega arith, here_test i here, λ j p q. absurd (omega arith))
        | inr not_here ↦ rw not_here (
            IsFirst-next left i (first_block magic id left (i + 1)) (no_test i not_here)
              (first_block-IsFirst left (i + 1)))
      ]

  -- Over a bus whose magic and device id registers do not change, the scan returns the base of the
  -- first of the 32 slots that holds a block device behind the right magic number, and 0 exactly
  -- if no slot does.
  pub find_block_device-IsFirst :
      (dev : Device)
      → Answers dev magic id
      → (d : Driver)
      → (o : Option ℕ) × ((find_block_device dev d).0 ≡ base_of o) × IsFirst mmio_slots 0 o
  unfolding find_block_device
  find_block_device-IsFirst dev a d = (
    first_block magic id mmio_slots 0,
    find_from-first dev magic id a mmio_slots 0 d,
    first_block-IsFirst mmio_slots 0,
  )
