-- ===== src/Sv39/Run.antt =====
-- src/sv39/sv39_main.c, main and the S-mode phase, with the trap entry of src/sv39/sv39_trap.S.
use riscv_baremetal_demo.Base.{
  ℕ, ◌+◌, ◌-◌, ◌*◌, ◌/◌, ◌%◌, ◌^◌, bit_and, bit_or, Bool, true, false, ◌&&◌, List, [], ◌∷◌, ◌++◌,
  ltb, leb, ◌==◌, if◌then◌else◌,
}
use Prim.Native.String.{String}
use riscv_baremetal_demo.Base.Text.{codes}
use riscv_baremetal_demo.Uart.Text.{dec, hex}
use riscv_baremetal_demo.Probe.{Statement, says, check, perform, Log, run, power_up}
use riscv_baremetal_demo.Sv39.{
  mapped_va, fault_va_l0, fault_va_l1, fault_va_l2, ident_base, ident_end, uart_base, pattern,
  pte_v, pte_r, pte_w, pte_x, pte_u, Mem, store, Image, pte_ppn, print_pte, fill_page, page_checks,
  build_tables,
}

-- What an access of S-mode does: it reaches a physical address, or it traps with a cause.
pub data Outcome : Type 0 where
  completes : ℕ → Outcome
  traps : ℕ → Outcome

-- The hart: an access to a virtual address with given memory and satp, what the csr reads return
-- after the writes, and what `got` holds when the asm block that sets it has trapped.
pub record Hart : Type 0 where
  pub access : Mem → ℕ → Bool → ℕ → Outcome
  pub mhartid : ℕ
  pub read_pmpcfg0 : ℕ → ℕ
  pub read_satp : ℕ → ℕ
  pub stval : ℕ
  pub junk : ℕ

-- `sv39_save` without the scratch word for t1.
pub record Save : Type 0 where
  pub mcause : ℕ
  pub mepc : ℕ
  pub mtval : ℕ
  pub resume : ℕ
  pub seen : ℕ
  pub stval : ℕ

abbrev pub no_trap : Save
no_trap = record { mcause = 0; mepc = 0; mtval = 0; resume = 0; seen = 0; stval = 0 }

abbrev pub pmpcfg0_tor : ℕ
pmpcfg0_tor = 0x0F00

abbrev pub satp_value : Image → ℕ
satp_value s = bit_or (8 * 2 ^ 60) (s.root_pt / 4096)

-- The handler; the hart has set mcause, mepc and mtval.
unfoldable pub sv39_trap_entry : Hart → ℕ → ℕ → ℕ → Save → Save
sv39_trap_entry h cause epc tval save = record save {
  mcause = cause;
  mepc = epc;
  mtval = tval;
  stval = h.stval;
  seen = 1;
}

-- The first two instructions of both tests: the resume address, and no trap seen.
unfoldable pub arm : ℕ → Save → Save
arm resume save = record save { resume = resume; seen = 0 }

module _ (h : Hart) (s : Image) where
  -- The `ld` of `test_mapped`, at address `pc + 4`.
  unfoldable pub load_back : ℕ → Mem → Save → Outcome → Mem × Save × ℕ
  unfolding sv39_trap_entry
  load_back pc mem save (completes pa) = (mem, save, mem pa)
  load_back pc mem save (traps cause) =
      (mem, sv39_trap_entry h cause (pc + 4) mapped_va save, h.junk)

  -- The `sd` at address `pc`, and what follows it.
  unfoldable pub store_then_load : ℕ → Mem → Save → Outcome → Mem × Save × ℕ
  unfolding sv39_trap_entry load_back store
  store_then_load pc mem save (completes pa) =
      let mem' = store pa pattern mem in
      load_back pc mem' save (h.access mem' (satp_value s) false mapped_va)
  store_then_load pc mem save (traps cause) =
      (mem, sv39_trap_entry h cause pc mapped_va save, h.junk)

  -- Memory and save area behind the block, and `got`.
  unfoldable pub test_mapped : ℕ → Mem → Save → Mem × Save × ℕ
  unfolding store_then_load arm
  test_mapped pc mem save =
      store_then_load pc mem (arm (pc + 8) save) (h.access mem (satp_value s) true mapped_va)

  -- The save area behind the faulting `ld` at address `pc`.
  unfoldable pub after_load : ℕ → ℕ → Save → Outcome → Save
  unfolding sv39_trap_entry
  after_load pc va save (completes pa) = save
  after_load pc va save (traps cause) = sv39_trap_entry h cause pc va save

  unfoldable pub fault_save : ℕ → Mem → ℕ → Save → Save
  unfolding after_load arm
  fault_save pc mem va save =
      after_load pc va (arm (pc + 4) save) (h.access mem (satp_value s) false va)

-- The line and the checks of `test_fault`.
unfoldable pub test_fault : ℕ → String → Save → List Statement
test_fault va name save =
    says (
      codes name
      ∷ codes ": seen="
      ∷ dec save.seen
      ∷ codes " mcause="
      ∷ hex save.mcause
      ∷ codes " mepc="
      ∷ hex save.mepc
      ∷ codes " mtval="
      ∷ hex save.mtval
      ∷ codes " stval="
      ∷ hex save.stval
      ∷ codes " resume-4="
      ∷ hex ((save.resume + 2 ^ 64 - 4) % 2 ^ 64)
      ∷ codes "\n"
      ∷ [])
    ∷ check (save.seen == 1) (codes "unmapped load did not trap")
    ∷ check (save.mcause == 13) (codes "mcause != 13 (load page fault)")
    ∷ check (save.mtval == va) (codes "mtval != faulting VA")
    ∷ check (save.stval == 0) (codes "stval unexpectedly nonzero")
    ∷ check (save.mepc == (save.resume + 2 ^ 64 - 4) % 2 ^ 64)
        (codes "mepc != address of faulting ld")
    ∷ []

-- `s_mode_tests` up to its verdict. The addresses are those of the `sd` and of the three `ld`.
unfoldable pub s_mode_tests : Hart → Image → (ℕ → ℕ) → Mem → List Statement
unfolding test_mapped store_then_load load_back fault_save after_load arm sv39_trap_entry test_fault
s_mode_tests h s pc mem =
    let (mem', save, got) = test_mapped h s (pc 0) mem no_trap in
    let l0 = fault_save h s (pc 1) mem' fault_va_l0 save in
    let l1 = fault_save h s (pc 2) mem' fault_va_l1 l0 in
    let l2 = fault_save h s (pc 3) mem' fault_va_l2 l1 in
    says (codes "s-mode: entered, translation active\n" ∷ [])
    ∷ says (
        codes "mapped: stored 0xdeadbeefcafebabe via VA 0x40000000, loaded "
        ∷ hex got
        ∷ codes " seen="
        ∷ dec save.seen
        ∷ codes "\n"
        ∷ [])
    ∷ check (save.seen == 0) (codes "mapped access unexpectedly trapped")
    ∷ check (got == pattern) (codes "mapped load returned wrong value")
    ∷ says (codes "mapped: physical page now holds " ∷ hex (mem' s.page) ∷ codes "\n" ∷ [])
    ∷ check (mem' s.page == pattern) (codes "physical page != pattern after mapped store")
    ∷ (test_fault fault_va_l0 "fault-l0" l0
        ++ (test_fault fault_va_l1 "fault-l1" l1 ++ test_fault fault_va_l2 "fault-l2" l2))

unfoldable pub verdict : Log → Log
unfolding perform
verdict l =
    perform
      (says (
        if l.fails == 0
        then codes "RESULT: PASS (mapped round-trip ok, all faults mcause=13)\n"
          ∷ codes "done\n"
          ∷ []
        else codes "RESULT: FAIL ("
          ∷ dec l.fails
          ∷ codes " checks failed)\n"
          ∷ codes "done\n"
          ∷ []))
      l

abbrev is_aligned : ℕ → Bool
is_aligned a = bit_and a 0xFFF == 0

-- The checks of main before it builds the tables.
unfoldable pub image_checks : Image → List Statement
image_checks s =
    check (is_aligned s.root_pt) (codes "root_pt misaligned")
    ∷ check (is_aligned s.l1_test) (codes "l1_test misaligned")
    ∷ check (is_aligned s.l0_test) (codes "l0_test misaligned")
    ∷ check (is_aligned s.l1_uart) (codes "l1_uart misaligned")
    ∷ check (is_aligned s.l0_uart) (codes "l0_uart misaligned")
    ∷ check (is_aligned s.page) (codes "page misaligned")
    ∷ check (ltb s.stack_top ident_end) (codes "stack outside identity window")
    ∷ check (leb ident_base s.s_mode_tests && ltb s.s_mode_tests ident_end)
        (codes "s_mode_tests outside identity window")
    ∷ []

-- Whether an entry is a pointer to a table: of V, R, W and X it has V.
abbrev is_pointer : ℕ → Bool
is_pointer e = bit_and e (bit_or pte_v (bit_or pte_r (bit_or pte_w pte_x))) == pte_v

-- The lines and checks of main on the tables in memory.
unfoldable pub table_checks : Image → Mem → List Statement
unfolding print_pte pte_ppn
table_checks s mem =
    let root0 = mem (s.root_pt + 0 * 8) in
    let root1 = mem (s.root_pt + 1 * 8) in
    let root2 = mem (s.root_pt + 2 * 8) in
    let l1t = mem (s.l1_test + 0 * 8) in
    let l0t = mem (s.l0_test + 0 * 8) in
    let l1u = mem (s.l1_uart + 128 * 8) in
    let l0u = mem (s.l0_uart + 0 * 8) in
    let vrw = bit_or pte_v (bit_or pte_r pte_w) in
    says (codes "table: VA 0x40000000 -> vpn2=1 vpn1=0 vpn0=0\n" ∷ [])
    ∷ print_pte "table: root_pt[1] " root1
    ∷ print_pte "table: l1_test[0] " l1t
    ∷ print_pte "table: l0_test[0] " l0t
    ∷ print_pte "table: root_pt[2] " root2
    ∷ print_pte "table: root_pt[0] " root0
    ∷ print_pte "table: l1_uart[128]" l1u
    ∷ print_pte "table: l0_uart[0] " l0u
    ∷ check (is_pointer root1) (codes "root entry 1 is not a pure pointer (V only)")
    ∷ check (is_pointer root0) (codes "root entry 0 is not a pure pointer (V only)")
    ∷ check (is_pointer l1t) (codes "l1 entry 0 is not a pure pointer (V only)")
    ∷ check (is_pointer l1u) (codes "uart l1 entry 128 is not a pure pointer (V only)")
    ∷ check (bit_and l0t vrw == vrw) (codes "leaf entry missing V/R/W")
    ∷ check (bit_and l0t (bit_or vrw (bit_or pte_x pte_u)) == vrw)
        (codes "leaf entry has unexpected X/U bits")
    ∷ check (pte_ppn root1 == s.l1_test / 4096) (codes "root[1] PPN != l1_test page number")
    ∷ check (pte_ppn l1t == s.l0_test / 4096) (codes "l1_test[0] PPN != l0_test page number")
    ∷ check (pte_ppn l0t == s.page / 4096) (codes "leaf PPN != page number")
    ∷ check (pte_ppn l0u == uart_base / 4096) (codes "uart leaf PPN != 0x10000")
    ∷ []

unfoldable pub csr_checks : Hart → Image → List Statement
csr_checks h s =
    let cfg = h.read_pmpcfg0 pmpcfg0_tor in
    let satp = h.read_satp (satp_value s) in
    says (codes "m-mode: pmpcfg0=" ∷ hex cfg ∷ codes " (entry1: TOR [0, 0x80400000) R|W|X)\n" ∷ [])
    ∷ check (cfg == pmpcfg0_tor) (codes "pmpcfg0 readback != 0x0F00")
    ∷ says (codes "m-mode: satp=" ∷ hex satp ∷ codes " (MODE=8 ASID=0)\n" ∷ [])
    ∷ check (satp / 2 ^ 60 == 8) (codes "satp MODE != 8 (Sv39)")
    ∷ check (bit_and satp 0xFFFFFFFFFFF == s.root_pt / 4096) (codes "satp PPN != root page")
    ∷ says (codes "m-mode: entering S-mode\n" ∷ [])
    ∷ []

-- What main and the S-mode phase print and check, in order.
unfoldable pub statements : Hart → Image → (ℕ → ℕ) → List Statement
unfolding fill_page build_tables page_checks image_checks table_checks csr_checks s_mode_tests
statements h s pc =
    let filled = fill_page 8 0 s.page (λ _. 0) in
    let built = build_tables s filled in
    says (codes "sv39-walk: Sv39 page-table walk and fault path (backlog item 39)\n" ∷ [])
    ∷ says (codes "m-mode: mhartid=" ∷ dec h.mhartid ∷ codes "\n" ∷ [])
    ∷ (page_checks 8 0 s.page filled
        ++ (says (codes "control: data page readable/writable before translation: ok\n" ∷ [])
            ∷ (image_checks s
                ++ (table_checks s built ++ (csr_checks h s ++ s_mode_tests h s pc built)))))

unfoldable pub main : Hart → Image → (ℕ → ℕ) → Log
unfolding run verdict statements
main h s pc = verdict (run (statements h s pc) power_up)
