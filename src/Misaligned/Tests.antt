-- ===== src/Misaligned/Tests.antt =====
-- Runs of the model of src/misaligned/mis_main.c, and the theorems on two harts.
use riscv_baremetal_demo.Base.{ℕ, ◌-◌, ◌≡◌, refl, ap, true, false, arith}
use riscv_baremetal_demo.Misaligned.{
  loaded, load_trap, stored, store_trap, Hart, Image, ref_lw4, store_word, sign_extended, main,
  fill, filled,
}
use riscv_baremetal_demo.Misaligned.Verdict.{Completes, main_transparent, main_trapping}

abbrev image : Image
image = record {
  mhartid = 0;
  trap_entry = 0x80000100;
  base = 0x80001000;
  lw_window = 0x80000200;
  sw_window = 0x80000300;
}

abbrev completing : Hart
completing = record {
  lw = λ pc addr bytes. loaded (sign_extended (ref_lw4 bytes (addr - 0x80001000)));
  sw = λ pc addr val bytes. stored (store_word bytes (addr - 0x80001000) val);
  t1 = 0;
}

abbrev trapping : Hart
trapping = record {
  lw = λ pc addr bytes. load_trap 4 pc addr;
  sw = λ pc addr val bytes. store_trap 6 pc addr;
  t1 = 0;
}

misaligned_word : ref_lw4 filled 1 ≡ 0xD5A1B2C3
unfolding ref_lw4 fill store_word
misaligned_word = refl

completing-Completes : Completes image completing
completing-Completes = record {
  loads =
      λ pc i bytes inside. ap (λ (k : ℕ). loaded (sign_extended (ref_lw4 bytes k))) (omega arith);
  stores = λ pc i val bytes inside. ap (λ (k : ℕ). stored (store_word bytes k val)) (omega arith);
}

main_transparent_example : (main image completing).1 ≡ true
main_transparent_example = main_transparent image completing completing-Completes

main_trapping_example : (main image trapping).1 ≡ false
main_trapping_example =
    main_trapping image trapping refl (omega arith)
      (record { loads = λ pc addr bytes off. refl; stores = λ pc addr val bytes off. refl })
