-- ===== src/Sv39/Tests.antt =====
-- Runs of the model of src/sv39/sv39_main.c, and the theorems at a linked image.
use riscv_baremetal_demo.Base.{ℕ, ◌+◌, ◌*◌, ◌/◌, ◌%◌, ◌^◌, ◌≡◌, refl, true, false, arith}
use riscv_baremetal_demo.Sv39.{
  Image, mapped_va, pte, tables, build_tables, fill_page, store, store_byte, load_byte,
}
use riscv_baremetal_demo.Sv39.Walk.{walk, walk_from, visit, leaf, resolves}
use riscv_baremetal_demo.Sv39.Tables.{IsLinked}
use riscv_baremetal_demo.Sv39.Access.{address_space, walk-address_space}
use riscv_baremetal_demo.Sv39.Run.{Hart}
use riscv_baremetal_demo.Sv39.Granted.{grants_walk}
use riscv_baremetal_demo.Sv39.Phase.{checked}

abbrev image : Image
image = record {
  root_pt = 0x80005000;
  l1_test = 0x80006000;
  l0_test = 0x80007000;
  l1_uart = 0x80008000;
  l0_uart = 0x80009000;
  page = 0x8000A000;
  stack_top = 0x80080000;
  s_mode_tests = 0x80000400;
}

image-IsLinked : IsLinked image
image-IsLinked = record {
  pages = omega arith;
  apart = omega arith;
  stack = omega arith;
  code = omega arith;
}

abbrev hart : Hart
hart = record {
  access = λ mem satp write va.
      checked (grants_walk mem (satp % 2 ^ 44) va) write (walk mem (satp % 2 ^ 44) write va);
  mhartid = 0;
  read_pmpcfg0 = λ v. v;
  read_satp = λ v. v;
  stval = 0;
  junk = 7;
}

abbrev load_at : ℕ → ℕ
load_at i = 0x80000500 + i % 4 * 64

mapped_walk : walk (tables image) 0x80005 true (mapped_va + 8) ≡ resolves 0x8000A008
unfolding walk walk_from visit leaf tables build_tables fill_page store store_byte load_byte pte
mapped_walk = refl

walk-address_space_example :
    walk (tables image) (0x80005000 / 4096) false 0x50000000 ≡ address_space image 0x50000000
walk-address_space_example = walk-address_space image false 0x50000000 image-IsLinked (omega arith)
