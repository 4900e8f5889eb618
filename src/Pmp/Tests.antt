-- ===== src/Pmp/Tests.antt =====
-- Runs of the PMP demos' models, and the theorems at concrete images and sizes.
use riscv_baremetal_demo.Base.{ℕ, ◌+◌, ◌*◌, ◌%◌, refl, true, false, [], ◌∷◌}
use riscv_baremetal_demo.Pmp.{
  pmpaddr_of, napot_size_4k, napot_size_64k, napot_pat_4k, napot_pat_64k, napot_pat_1m,
}
use riscv_baremetal_demo.Pmp.Matching.{s_mode_allows}
use riscv_baremetal_demo.Pmp.Napot.{IsRegion, napot_decodes}
use riscv_baremetal_demo.Pmp.Priority.{Hart, Site, Image, napot_4k_mask}
use riscv_baremetal_demo.Pmp.Priority.Decides.{entries}

napot_decodes_example :
    IsRegion (pmpaddr_of 0x80003000 napot_4k_mask) 0x80003000 4096
    × IsRegion (pmpaddr_of 0x80003000 napot_size_4k) 0x80003000 4096
    × IsRegion (pmpaddr_of 0x80050000 napot_size_64k) 0x80050000 65536
    × IsRegion napot_pat_4k 0x80002000 4096
    × IsRegion napot_pat_64k 0x80400000 65536
    × IsRegion napot_pat_1m 0x88000000 0x100000
napot_decodes_example = napot_decodes 0x80003000 0x80050000 refl refl

abbrev at : ℕ → Site
at pc = record { pc = pc; is_long = true }

abbrev image : Image
image = record {
  scratch_pa = 0x80003000;
  control_byte = 0x80005008;
  payload_a = 0x80000200;
  payload_b = 0x80000300;
  s_regs = 0x80004000;
  scratch_var = 0x80004100;
  a_canary = 0x80004108;
  a_control = 0x80004110;
  b_control = 0x80004118;
  b_lbu_pc = 0x80004120;
  setup_a = (at 0x80000200, false) ∷ (at 0x80000204, true) ∷ [];
  setup_b = (at 0x80000300, true) ∷ [];
  block_a = λ i. at (0x80000220 + i % 16 * 4);
  block_b = λ i. at (0x80000320 + i % 16 * 4);
}

abbrev hart : Hart
hart = record {
  allows = λ c kind pa. s_mode_allows 0 (entries c) kind pa;
  keeps = λ c. c;
  keeps_medeleg = λ v. v;
  boot = record { cfg0 = 0; addr0 = 0; addr1 = 0; addr2 = 0 };
  satp = 0;
  trap_mstatus = 0x800;
}
