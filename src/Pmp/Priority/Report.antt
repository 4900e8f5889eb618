-- ===== src/Pmp/Priority/Report.antt =====
-- What src/pmp-priority/pp_main.c prints and checks: main, phase2_mmode and report_mmode.
use riscv_baremetal_demo.Base.{
  ℕ, ◌+◌, ◌-◌, ◌/◌, ◌^◌, bit_and, bit_or, Bool, true, false, ◌&&◌, ◌||◌, Option, none, some, List,
  [], ◌∷◌, ◌++◌, ltb, leb, ◌==◌, if◌then◌else◌,
}
use Prim.Native.String.{String}
use riscv_baremetal_demo.Base.Text.{codes}
use riscv_baremetal_demo.Uart.Text.{dec, hex}
use riscv_baremetal_demo.Probe.{Statement, says, check, perform, Log, run, power_up, checksum}
use riscv_baremetal_demo.Pmp.Priority.{
  Config, Hart, Image, boot_medeleg, in_broad_window, napot_enc, phase_a, phase_b,
  cause_load_access_fault, cause_ecall_from_s, page_size, napot_4k_mask, pmpaddr2_broad, broad_base,
  broad_top, pmpcfg0_phase_a, pmpcfg0_phase_b,
}
use riscv_baremetal_demo.Pmp.Priority.Payload.{Seen, nothing_seen, smode_phase_a, smode_phase_b}

-- A line of named numbers.
unfoldable pub config_line : String → String → Config → Statement
config_line before name0 c = says (
    codes before
    ∷ hex c.cfg0
    ∷ codes name0
    ∷ codes "0="
    ∷ hex c.addr0
    ∷ codes name0
    ∷ codes "1="
    ∷ hex c.addr1
    ∷ codes name0
    ∷ codes "2="
    ∷ hex c.addr2
    ∷ codes "\n"
    ∷ [])

unfoldable pub mpp : ℕ → ℕ
mpp mstatus = bit_and (mstatus / 2 ^ 11) 3

module _ (h : Hart) (s : Image) where
  abbrev read_a : Config
  read_a = h.keeps (phase_a s)

  abbrev read_b : Config
  read_b = h.keeps (phase_b s)

  abbrev restored : Config
  restored = h.keeps h.boot

  -- main, up to the first drop to S-mode, and phase2_mmode.
  unfoldable pub setup : List Statement
  unfolding config_line
  setup =
      says (codes "pmp-priority: PMP entry-priority first-match test\n" ∷ [])
      ∷ says (
          codes "m-mode: boot medeleg="
          ∷ hex boot_medeleg
          ∷ codes " pmpcfg0="
          ∷ hex h.boot.cfg0
          ∷ codes " pmpaddr0="
          ∷ hex h.boot.addr0
          ∷ codes " pmpaddr1="
          ∷ hex h.boot.addr1
          ∷ codes " pmpaddr2="
          ∷ hex h.boot.addr2
          ∷ codes "\n"
          ∷ [])
      ∷ config_line "m-mode: phase-A pmpcfg0=" " pmpaddr" read_a
      ∷ says (codes "m-mode: satp=" ∷ hex h.satp ∷ codes " (Bare)\n" ∷ [])
      ∷ says (codes "m-mode: entering S-mode (phase A, entry 0 allows)\n" ∷ [])
      ∷ config_line "m-mode: phase-B pmpcfg0=" " pmpaddr" read_b
      ∷ []

  module _ (seen p : Seen) where
    -- The lines of measured values.
    unfoldable pub value_lines : List Statement
    unfolding config_line mpp
    value_lines =
        says (codes "pmp-priority: PMP entry-priority first-match test\n" ∷ [])
        ∷ says (
            codes "boot: medeleg="
            ∷ hex boot_medeleg
            ∷ codes " restored readback="
            ∷ hex (h.keeps_medeleg boot_medeleg)
            ∷ codes "\n"
            ∷ [])
        ∷ config_line "boot: pmpcfg0=" " pmpaddr" h.boot
        ∷ config_line "restore: pmpcfg0 readback=" " pmpaddr" restored
        ∷ says (
            codes "scratch: pa="
            ∷ hex s.scratch_pa
            ∷ codes " napot="
            ∷ hex (napot_enc s)
            ∷ codes " control="
            ∷ hex s.control_byte
            ∷ codes "\n"
            ∷ [])
        ∷ config_line "pmpA: cfg0=" " addr" read_a
        ∷ config_line "pmpB: cfg0=" " addr" read_b
        ∷ says (
            codes "pA: s_traps="
            ∷ dec p.s_traps
            ∷ codes " canary="
            ∷ hex p.canary
            ∷ codes " control="
            ∷ hex p.control
            ∷ codes "\n"
            ∷ [])
        ∷ says (
            codes "pA: m_traps="
            ∷ dec seen.regs.count
            ∷ codes " mcause="
            ∷ hex seen.regs.mcause
            ∷ codes " mepc="
            ∷ hex seen.regs.mepc
            ∷ codes " mstatus_mpp="
            ∷ dec (mpp seen.regs.mstatus)
            ∷ codes "\n"
            ∷ [])
        ∷ says (
            codes "pB: m_traps="
            ∷ dec p.regs.count
            ∷ codes " mcause="
            ∷ hex p.regs.mcause
            ∷ codes " mepc="
            ∷ hex p.regs.mepc
            ∷ codes " expected="
            ∷ hex p.lbu_pc
            ∷ codes " mtval="
            ∷ hex p.regs.mtval
            ∷ codes " mstatus_mpp="
            ∷ dec (mpp p.regs.mstatus)
            ∷ codes " control="
            ∷ hex p.control_b
            ∷ codes " s_traps="
            ∷ dec p.s_traps
            ∷ codes "\n"
            ∷ [])
        ∷ []

    unfoldable pub restore_checks : List Statement
    restore_checks =
        check (h.keeps_medeleg boot_medeleg == boot_medeleg)
          (codes "medeleg restore readback != boot medeleg")
        ∷ check (restored.cfg0 == h.boot.cfg0) (codes "pmpcfg0 restore readback != boot pmpcfg0")
        ∷ check (restored.addr0 == h.boot.addr0)
            (codes "pmpaddr0 restore readback != boot pmpaddr0")
        ∷ check (restored.addr1 == h.boot.addr1)
            (codes "pmpaddr1 restore readback != boot pmpaddr1")
        ∷ check (restored.addr2 == h.boot.addr2)
            (codes "pmpaddr2 restore readback != boot pmpaddr2")
        ∷ []

    unfoldable pub layout_checks : List Statement
    unfolding in_broad_window
    layout_checks =
        check (read_a.cfg0 == pmpcfg0_phase_a) (codes "phase-A pmpcfg0 readback != 0x001f181b")
        ∷ check (read_a.addr0 == napot_enc s)
            (codes "phase-A pmpaddr0 readback != computed NAPOT value")
        ∷ check (read_a.addr1 == napot_enc s)
            (codes "phase-A pmpaddr1 readback != computed NAPOT value")
        ∷ check (read_a.addr2 == pmpaddr2_broad)
            (codes "phase-A pmpaddr2 readback != broad-allow NAPOT value")
        ∷ check (bit_and s.scratch_pa (page_size - 1) == 0) (codes "scratch page misaligned")
        ∷ check (napot_enc s == bit_or (s.scratch_pa / 4) napot_4k_mask)
            (codes "NAPOT encoding != (pa >> 2) | 0x1ff")
        ∷ check (leb broad_base s.scratch_pa && leb (s.scratch_pa + page_size) broad_top)
            (codes "scratch page outside the broad-allow window")
        ∷ check (ltb s.control_byte s.scratch_pa || leb (s.scratch_pa + page_size) s.control_byte)
            (codes "control byte sits on the scratch page")
        ∷ check (in_broad_window s.payload_a)
            (codes "phase-A payload outside the broad-allow window")
        ∷ check (in_broad_window s.payload_b)
            (codes "phase-B payload outside the broad-allow window")
        ∷ []

    unfoldable pub phase_a_checks : List Statement
    unfolding mpp
    phase_a_checks =
        check (p.s_traps == 0) (codes "phase-A S-mode trap fired on an allowed load")
        ∷ check (p.canary == 0xA5) (codes "phase-A canary readback != 0xa5")
        ∷ check (p.control == 0x5A) (codes "phase-A control load != 0x5a")
        ∷ check (seen.regs.count == 1) (codes "phase-A M-mode trap did not fire exactly once")
        ∷ check (seen.regs.mcause == cause_ecall_from_s)
            (codes "phase-A M-mode cause != 9 (ecall from S-mode)")
        ∷ check (mpp seen.regs.mstatus == 1)
            (codes "phase-A ecall did not arrive from S-mode (mstatus.MPP)")
        ∷ []

    unfoldable pub phase_b_checks : List Statement
    unfolding mpp
    phase_b_checks =
        check (read_b.cfg0 == pmpcfg0_phase_b) (codes "phase-B pmpcfg0 readback != 0x001f1b18")
        ∷ check (read_b.addr0 == napot_enc s)
            (codes "phase-B pmpaddr0 readback != computed NAPOT value")
        ∷ check (read_b.addr1 == napot_enc s)
            (codes "phase-B pmpaddr1 readback != computed NAPOT value")
        ∷ check (read_b.addr2 == pmpaddr2_broad)
            (codes "phase-B pmpaddr2 readback != broad-allow NAPOT value")
        ∷ check (p.control_b == 0x5A) (codes "phase-B control load != 0x5a")
        ∷ check (p.regs.count == 2) (codes "phase-B M-mode trap did not fire exactly once more")
        ∷ check (p.regs.mcause == cause_load_access_fault)
            (codes "phase-B mcause != 5 (load access fault)")
        ∷ check (p.regs.mepc == p.lbu_pc) (codes "phase-B mepc != faulting load address")
        ∷ check (p.regs.mtval == s.scratch_pa) (codes "phase-B mtval != scratch page address")
        ∷ check (mpp p.regs.mstatus == 1)
            (codes "phase-B trap did not arrive from S-mode (mstatus.MPP)")
        ∷ check (p.s_traps == 0) (codes "S-mode trap fired in phase B")
        ∷ says (
            codes "quiet: m_traps="
            ∷ dec p.regs.count
            ∷ codes " s_traps="
            ∷ dec p.s_traps
            ∷ codes "\n"
            ∷ [])
        ∷ check ((p.regs.count == 2) && (p.s_traps == 0))
            (codes "trap count moved during the quiet window")
        ∷ []

    abbrev verdict_values : List ℕ
    verdict_values =
        read_a.cfg0
        ∷ read_a.addr0
        ∷ read_a.addr1
        ∷ read_a.addr2
        ∷ read_b.cfg0
        ∷ read_b.addr0
        ∷ read_b.addr1
        ∷ read_b.addr2
        ∷ s.scratch_pa
        ∷ napot_enc s
        ∷ p.s_traps
        ∷ p.canary
        ∷ p.control
        ∷ seen.regs.count
        ∷ seen.regs.mcause
        ∷ seen.regs.mepc
        ∷ p.control_b
        ∷ p.regs.count
        ∷ p.regs.mcause
        ∷ p.regs.mepc
        ∷ p.regs.mtval
        ∷ []

    unfoldable pub checksum_line : List Statement
    unfolding checksum
    checksum_line = says (codes "checksum=" ∷ hex (checksum verdict_values) ∷ codes "\n" ∷ []) ∷ []

    -- `report_mmode` up to the verdict.
    unfoldable pub report : List Statement
    unfolding checksum_line value_lines restore_checks layout_checks phase_a_checks phase_b_checks
    report =
        value_lines
        ++ (restore_checks
            ++ (layout_checks ++ (phase_a_checks ++ (phase_b_checks ++ checksum_line))))

-- The verdict, and whether the finisher then shuts the machine down.
unfoldable pub verdict : Log → Log × Bool
unfolding perform
verdict l =
    if l.fails == 0
    then (perform (says (codes "RESULT: PASS (checks=" ∷ dec l.checks ∷ codes ")\n" ∷ [])) l, true)
    else (
      perform
          (says (
            codes "RESULT: FAIL (checks="
            ∷ dec l.checks
            ∷ codes " fails="
            ∷ dec l.fails
            ∷ codes ")\n"
            ∷ codes "done\n"
            ∷ []))
          l,
      false,
    )

module _ (h : Hart) (s : Image) where
  unfoldable pub reported : Seen → Option Seen → Option (Log × Bool)
  unfolding setup report run verdict
  reported seen none = none
  reported seen (some p) = some (verdict (run (setup h s ++ report h s seen p) power_up))

  -- `phase2_mmode` on.
  unfoldable pub second_phase : Option Seen → Option (Log × Bool)
  unfolding reported smode_phase_b
  second_phase none = none
  second_phase (some seen) = reported seen (smode_phase_b h s seen)

  -- The program: nothing when it parks in a payload.
  unfoldable pub main : Option (Log × Bool)
  unfolding second_phase smode_phase_a
  main = second_phase (smode_phase_a h s nothing_seen)
