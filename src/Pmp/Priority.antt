-- ===== src/Pmp/Priority.antt =====
-- src/pmp-priority/pp_main.c: two entries over one page with opposite permissions, swapped
-- between two S-mode loads; with the trap entry of src/pmp-priority/pp_trap.S.
use riscv_baremetal_demo.Base.{ℕ, ◌+◌, Bool, ◌&&◌, List, ltb, leb}
use riscv_baremetal_demo.Pmp.{pmpaddr_of}
use riscv_baremetal_demo.Pmp.Matching.{Kind, reads, writes}
pub mod Payload
pub mod Outcomes
pub mod Report
pub mod Decides
pub mod Passes
pub mod Verdict
pub mod Conforming

abbrev pub cause_load_access_fault : ℕ
cause_load_access_fault = 5

abbrev pub cause_ecall_from_s : ℕ
cause_ecall_from_s = 9

abbrev pub page_size : ℕ
page_size = 0x1000

abbrev pub napot_4k_mask : ℕ
napot_4k_mask = 0x1FF

abbrev pub pmpaddr2_broad : ℕ
pmpaddr2_broad = 0x2FFFFFFF

abbrev pub broad_base : ℕ
broad_base = 0x80000000

abbrev pub broad_top : ℕ
broad_top = 0x100000000

abbrev pub pmpcfg0_phase_a : ℕ
pmpcfg0_phase_a = 0x001F181B

abbrev pub pmpcfg0_phase_b : ℕ
pmpcfg0_phase_b = 0x001F1B18

-- pmpcfg0 and the address registers of the entries 0, 1 and 2.
pub record Config : Type 0 where
  pub cfg0 : ℕ
  pub addr0 : ℕ
  pub addr1 : ℕ
  pub addr2 : ℕ

-- The hart, which comes out of reset with medeleg 0. `allows` is whether an access of S-mode to a
-- physical address passes under the entries that have been written; a csr reads back what `keeps`
-- makes of the value written.
pub record Hart : Type 0 where
  pub allows : Config → Kind → ℕ → Bool
  pub keeps : Config → Config
  pub keeps_medeleg : ℕ → ℕ
  pub boot : Config
  pub satp : ℕ
  pub trap_mstatus : ℕ

-- medeleg, read at boot. Nothing writes another value to it, so every trap goes to M-mode.
abbrev pub boot_medeleg : ℕ
boot_medeleg = 0

-- Where an instruction stands, and whether it has a second halfword.
pub record Site : Type 0 where
  pub pc : ℕ
  pub is_long : Bool

-- The addresses that the linker gives, and those of the instructions of the payloads: of what the
-- compiler makes to load the registers, each with whether it is the load of the variable
-- `scratch_pa`, and of the instructions of the asm blocks and the loop behind.
pub record Image : Type 0 where
  pub scratch_pa : ℕ
  pub control_byte : ℕ
  pub payload_a : ℕ
  pub payload_b : ℕ
  pub s_regs : ℕ
  pub scratch_var : ℕ
  pub a_canary : ℕ
  pub a_control : ℕ
  pub b_control : ℕ
  pub b_lbu_pc : ℕ
  pub setup_a : List (Site × Bool)
  pub setup_b : List (Site × Bool)
  pub block_a : ℕ → Site
  pub block_b : ℕ → Site

abbrev pub napot_enc : Image → ℕ
napot_enc s = pmpaddr_of s.scratch_pa napot_4k_mask

unfoldable pub in_broad_window : ℕ → Bool
in_broad_window a = leb broad_base a && ltb a broad_top

-- `m_regs`, slots 0, 2, 3, 4 and 8.
pub record Regs : Type 0 where
  pub count : ℕ
  pub mcause : ℕ
  pub mepc : ℕ
  pub mstatus : ℕ
  pub mtval : ℕ

abbrev pub no_trap : Regs
no_trap = record { count = 0; mcause = 0; mepc = 0; mstatus = 0; mtval = 0 }

-- `m_trap_entry` up to the jump to the continuation; the hart has set the cause registers.
unfoldable pub m_trap_entry : Hart → ℕ → ℕ → ℕ → Regs → Regs
m_trap_entry h cause epc tval regs = record {
  count = regs.count + 1;
  mcause = cause;
  mepc = epc;
  mstatus = h.trap_mstatus;
  mtval = tval;
}

abbrev pub config : Image → ℕ → Config
config s cfg0 = record {
  cfg0 = cfg0;
  addr0 = napot_enc s;
  addr1 = napot_enc s;
  addr2 = pmpaddr2_broad;
}

abbrev pub phase_a : Image → Config
phase_a s = config s pmpcfg0_phase_a

abbrev pub phase_b : Image → Config
phase_b s = config s pmpcfg0_phase_b
