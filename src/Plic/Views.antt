-- ===== src/Plic/Views.antt =====
-- The views of the board between the parts of src/plic/plic_main.c.
use riscv_baremetal_demo.Base.{
  ℕ, ◌/◌, ◌%◌, bit_and, bit_or, ◌≡◌, refl, ap, ◌∙◌, Bool, true, false, Option, none, some, arith,
}
use mathlib.Core.Path.{subst}
use riscv_baremetal_demo.Base.Bits.{bit_or-halves, bit_and-low_mask, low_mask, power}
use riscv_baremetal_demo.Plic.{bit_10}
use riscv_baremetal_demo.Plic.Conforming.{View, line, disturb, transmit, fresh}

halve : (a b h : ℕ) → b / 2 ≡ h → bit_or a b / 2 ≡ bit_or (a / 2) h
halve a b h e = omega (arith, bit_or-halves a b) ∙ ap (bit_or (a / 2)) e

odd : (a : ℕ) → bit_or a 1 % 2 ≡ 1
odd a = omega (arith, bit_or-halves a 1)

tenth_bit : (v : ℕ) → bit_or v 1024 / 1024 ≡ bit_or (v / 2 / 2 / 2 / 2 / 2 / 2 / 2 / 2 / 2 / 2) 1
tenth_bit v = omega (
  arith,
  halve v 1024 512 refl,
  halve (v / 2) 512 256 refl,
  halve (v / 2 / 2) 256 128 refl,
  halve (v / 2 / 2 / 2) 128 64 refl,
  halve (v / 2 / 2 / 2 / 2) 64 32 refl,
  halve (v / 2 / 2 / 2 / 2 / 2) 32 16 refl,
  halve (v / 2 / 2 / 2 / 2 / 2 / 2) 16 8 refl,
  halve (v / 2 / 2 / 2 / 2 / 2 / 2 / 2) 8 4 refl,
  halve (v / 2 / 2 / 2 / 2 / 2 / 2 / 2 / 2) 4 2 refl,
  halve (v / 2 / 2 / 2 / 2 / 2 / 2 / 2 / 2 / 2) 2 1 refl,
)

pub bit_of_or : (v : ℕ) → bit_10 (bit_or v 1024) ≡ 1
unfolding low_mask power
bit_of_or v =
    bit_and-low_mask 1 (bit_or v 1024 / 1024) (bit_or v 1024 / 1024 / 2) 1
      (omega (arith, tenth_bit v, odd (v / 2 / 2 / 2 / 2 / 2 / 2 / 2 / 2 / 2 / 2))) (omega arith)

-- The text leaves the board alone while the line is down.
pub quiet :
    (prio enable thresh : ℕ) (claimed : Bool) (ier : ℕ) (rx : Option ℕ)
    → ((b : ℕ) → rx ≡ some b → bit_and ier 1 ≡ 0)
    → (again : Bool)
    → let v : View = record {
      prio = prio;
      enable = enable;
      thresh = thresh;
      pending = false;
      claimed = claimed;
      mcr = 0;
      ier = ier;
      rx = rx;
    } in
      transmit again b'\n' v ≡ v
unfolding transmit disturb line
quiet prio enable thresh claimed ier none off true = refl
quiet prio enable thresh claimed ier none off false = refl
quiet prio enable thresh claimed ier (some b) off true = rw (off b refl) refl
quiet prio enable thresh claimed ier (some b) off false = refl

pub no_byte : (b : ℕ) → ◌≡◌ {A = Option ℕ} none (some b) → bit_and 1 1 ≡ 0
no_byte b e = subst (λ (o : Option ℕ). elim o [ none ↦ Unit {0} | some c ↦ bit_and 1 1 ≡ 0 ]) e tt

-- The views between the parts of main.
abbrev pub programmed : ℕ → Option ℕ → View
programmed enable rx = record (fresh (bit_or enable 1024) 0 rx) { prio = 1 }

abbrev pub asserted : ℕ → View
asserted enable = record (programmed enable (some b'Q')) { pending = true; ier = 1 }

abbrev pub sent : ℕ → View
sent enable = record (asserted enable) { mcr = 16 }

-- Both bytes of the UART written, before the byte goes out.
abbrev pub armed : ℕ → View
armed enable = record (programmed enable none) { mcr = 16; ier = 1 }

abbrev pub claimed : ℕ → View
claimed enable = record (programmed enable none) { claimed = true; ier = 1 }
