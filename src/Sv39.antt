-- ===== src/Sv39.antt =====
-- src/sv39/sv39_main.c: the page tables that main builds, its checks, and the S-mode test phase.
use riscv_baremetal_demo.Base.{
  ℕ, zero, suc, ◌+◌, ◌-◌, ◌*◌, ◌/◌, ◌%◌, ◌^◌, bit_and, bit_or, List, [], ◌∷◌, ◌==◌, if◌then◌else◌,
}
use Prim.Native.String.{String}
use riscv_baremetal_demo.Base.Text.{codes, joined}
use riscv_baremetal_demo.Uart.Text.{dec, hex}
use riscv_baremetal_demo.Probe.{Statement, says, check, Log, run, power_up}
pub mod Walk
pub mod Granted
pub mod Tables
pub mod Access
pub mod Run
pub mod Bytes
pub mod Passes
pub mod Phase
mod Tests

abbrev pub mapped_va : ℕ
mapped_va = 0x40000000

abbrev pub fault_va_l0 : ℕ
fault_va_l0 = 0x40001000

abbrev pub fault_va_l1 : ℕ
fault_va_l1 = 0x50000000

abbrev pub fault_va_l2 : ℕ
fault_va_l2 = 0xC0000000

abbrev pub ident_base : ℕ
ident_base = 0x80000000

abbrev pub ident_end : ℕ
ident_end = 0xC0000000

abbrev pub uart_base : ℕ
uart_base = 0x10000000

abbrev pub pattern : ℕ
pattern = 0xDEADBEEFCAFEBABE

-- The flags of an entry.
abbrev pub pte_v : ℕ
pte_v = 0x001

abbrev pub pte_r : ℕ
pte_r = 0x002

abbrev pub pte_w : ℕ
pte_w = 0x004

abbrev pub pte_x : ℕ
pte_x = 0x008

abbrev pub pte_u : ℕ
pte_u = 0x010

abbrev pub pte_g : ℕ
pte_g = 0x020

abbrev pub pte_a : ℕ
pte_a = 0x040

abbrev pub pte_d : ℕ
pte_d = 0x080

-- Memory by doublewords, each at its lowest address.
abbrev pub Mem : Type 0
Mem = ℕ → ℕ

unfoldable pub store : ℕ → ℕ → Mem → Mem
store at v mem = λ a. if a == at then v else mem a

-- A byte of the doubleword around an address.
unfoldable pub load_byte : ℕ → Mem → ℕ
load_byte at mem = mem (at - at % 8) / 256 ^ (at % 8) % 256

unfoldable pub store_byte : ℕ → ℕ → Mem → Mem
unfolding store load_byte
store_byte at b mem =
    store (at - at % 8) (mem (at - at % 8) - load_byte at mem * 256 ^ (at % 8) + b * 256 ^ (at % 8))
      mem

-- The addresses that the linker gives to the objects.
pub record Image : Type 0 where
  pub root_pt : ℕ
  pub l1_test : ℕ
  pub l0_test : ℕ
  pub l1_uart : ℕ
  pub l0_uart : ℕ
  pub page : ℕ
  pub stack_top : ℕ
  pub s_mode_tests : ℕ

-- `(ppn << 10) | flags`.
unfoldable pub pte : ℕ → ℕ → ℕ
pte ppn flags = bit_or (ppn * 1024 % 2 ^ 64) flags

unfoldable pub pte_ppn : ℕ → ℕ
pte_ppn e = bit_and (e / 1024) 0xFFFFFFFFFFF

abbrev pub leaf_flags : ℕ
leaf_flags = bit_or pte_v (bit_or pte_r (bit_or pte_w (bit_or pte_a pte_d)))

-- One letter of `print_pte`.
unfoldable pub letter : ℕ → ℕ → String → List ℕ
letter fl flag name = if bit_and fl flag == 0 then [] else codes name

unfoldable pub print_pte : String → ℕ → Statement
unfolding letter pte_ppn
print_pte name e =
    let fl = bit_and e 0xFF in
    says (
      codes name
      ∷ codes "="
      ∷ hex e
      ∷ codes " ppn="
      ∷ hex (pte_ppn e)
      ∷ codes " flags="
      ∷ letter fl pte_v "V"
      ∷ letter fl pte_r "R"
      ∷ letter fl pte_w "W"
      ∷ letter fl pte_x "X"
      ∷ letter fl pte_u "U"
      ∷ letter fl pte_g "G"
      ∷ letter fl pte_a "A"
      ∷ letter fl pte_d "D"
      ∷ (if fl == 0 then codes "0" else [])
      ∷ codes "\n"
      ∷ [])

-- The loops over the first bytes of `page`: the writes from index `i` on, and the checks.
unfoldable pub fill_page : ℕ → ℕ → ℕ → Mem → Mem
unfolding store_byte
fill_page zero i page mem = mem
fill_page (suc left) i page mem =
    fill_page left (i + 1) page (store_byte (page + i) ((0xA5 + i) % 256) mem)

unfoldable pub page_checks : ℕ → ℕ → ℕ → Mem → List Statement
page_checks zero i page mem = []
page_checks (suc left) i page mem =
    check (load_byte (page + i) mem == (0xA5 + i) % 256)
      (codes "page buffer not writable before table setup")
    ∷ page_checks left (i + 1) page mem

-- The seven stores that build the tables.
unfoldable pub build_tables : Image → Mem → Mem
unfolding store pte
build_tables s mem = store (s.l0_uart + 0 * 8) (pte (uart_base / 4096) leaf_flags) (
    store (s.l1_uart + 128 * 8) (pte (s.l0_uart / 4096) pte_v) (
      store (s.l0_test + 0 * 8) (pte (s.page / 4096) leaf_flags) (
        store (s.l1_test + 0 * 8) (pte (s.l0_test / 4096) pte_v) (
          store (s.root_pt + 0 * 8) (pte (s.l1_uart / 4096) pte_v) (
            store (s.root_pt + 1 * 8) (pte (s.l1_test / 4096) pte_v) (
              store (s.root_pt + 2 * 8) (pte (ident_base / 4096) (bit_or leaf_flags pte_x))
                mem))))))

-- Memory when main has built the tables; .bss is zero at boot.
unfoldable pub tables : Image → Mem
unfolding fill_page build_tables
tables s = build_tables s (fill_page 8 0 s.page (λ _. 0))
