-- ===== src/Pmp/Priority/Passes.antt =====
-- The verdict of src/pmp-priority/pp_main.c: a conforming hart passes, and a hart that passes has
-- shown first-match priority.
use riscv_baremetal_demo.Base.{
  ℕ, ◌+◌, ◌/◌, ◌%◌, ◌^◌, ◌≤◌, ◌<◌, bit_and, ◌≡◌, refl, ap, ◌∙◌, ◌⊎◌, true, false, some, List, ◌++◌,
  arith, ◌==◌,
}
use riscv_baremetal_demo.Base.Bits.{power, low_mask, bit_and-low_mask, bit_and_12}
use riscv_baremetal_demo.Probe.{Statement, run, power_up, Passes, run-Passes, Passes-append}
use riscv_baremetal_demo.Pmp.{pmpaddr_of}
use riscv_baremetal_demo.Pmp.Matching.{reads, writes}
use riscv_baremetal_demo.Pmp.Priority.{
  Hart, Image, no_trap, m_trap_entry, in_broad_window, phase_a, phase_b, cause_load_access_fault,
  cause_ecall_from_s, page_size, broad_base, broad_top, boot_medeleg,
}
use riscv_baremetal_demo.Pmp.Priority.Payload.{Seen, nothing_seen, smode_phase_a, smode_phase_b}
use riscv_baremetal_demo.Pmp.Priority.Outcomes.{RunsPayloads, smode_phase_a_lem, smode_phase_b_lem}
use riscv_baremetal_demo.Pmp.Priority.Report.{
  config_line, mpp, setup, value_lines, restore_checks, layout_checks, phase_a_checks,
  phase_b_checks, checksum_line, report, verdict, reported, second_phase, main,
}

-- Where the linker puts the objects: the page is aligned and in the window of the broad entry, as
-- are the control byte, outside the page, and the payloads.
pub record IsLinked (s : Image) : Type 0 where
  pub aligned : s.scratch_pa % 4096 ≡ 0
  pub page_low : broad_base ≤ s.scratch_pa
  pub page_high : s.scratch_pa + page_size ≤ broad_top
  pub control_low : broad_base ≤ s.control_byte
  pub control_high : s.control_byte < broad_top
  pub control_apart : (s.control_byte < s.scratch_pa) ⊎ (s.scratch_pa + page_size ≤ s.control_byte)
  pub payload_a : (broad_base ≤ s.payload_a) × (s.payload_a < broad_top)
  pub payload_b : (broad_base ≤ s.payload_b) × (s.payload_b < broad_top)

-- The csrs read back what was written, and traps come from S-mode.
pub record KeepsCsrs (h : Hart) (s : Image) : Type 0 where
  pub first : h.keeps (phase_a s) ≡ phase_a s
  pub second : h.keeps (phase_b s) ≡ phase_b s
  pub back : h.keeps h.boot ≡ h.boot
  pub delegation : h.keeps_medeleg boot_medeleg ≡ boot_medeleg
  pub from_s : h.trap_mstatus / 2 ^ 11 % 4 ≡ 1

-- The accesses of the payloads that first-match priority allows and denies.
pub record ShowsPriority (h : Hart) (s : Image) : Type 0 where
  pub stores : h.allows (phase_a s) writes s.scratch_pa ≡ true
  pub loads : h.allows (phase_a s) reads s.scratch_pa ≡ true
  pub control_a : h.allows (phase_a s) reads s.control_byte ≡ true
  pub control_b : h.allows (phase_b s) reads s.control_byte ≡ true
  pub denied : h.allows (phase_b s) reads s.scratch_pa ≡ false

bit_and_2 : (x : ℕ) → bit_and x 3 ≡ x % 4
unfolding power low_mask
bit_and_2 x = bit_and-low_mask 2 x (x / 4) (x % 4) (omega arith) (omega arith)

==-same : (a : ℕ) → (a == a) ≡ true
==-same a = ground arith

module _ (h : Hart) (s : Image) (linked : IsLinked s) (keeps : KeepsCsrs h s) where
  abbrev pub seen_a : Seen
  seen_a = record {
    t1 = 0x5A;
    s_traps = 0;
    resume = (s.block_a 9).pc;
    scratch = 0xa5;
    canary = 0xa5;
    control = 0x5A;
    control_b = 0;
    lbu_pc = 0;
    regs = m_trap_entry h cause_ecall_from_s (s.block_a 9).pc 0 no_trap;
  }

  abbrev pub probed_b : Seen
  probed_b = record {
    t1 = (s.block_b 5).pc;
    s_traps = 0;
    resume = (s.block_a 9).pc;
    scratch = 0xa5;
    canary = 0xa5;
    control = 0x5A;
    control_b = 0x5A;
    lbu_pc = (s.block_b 5).pc;
    regs = m_trap_entry h cause_load_access_fault (s.block_b 5).pc s.scratch_pa seen_a.regs;
  }

  from_s_mode : (mpp h.trap_mstatus == 1) ≡ true
  unfolding mpp
  from_s_mode = ground (arith, keeps.from_s, bit_and_2 (h.trap_mstatus / 2 ^ 11))

  abbrev pub lines : List Statement
  lines = setup h s ++ report h s seen_a probed_b

  restore-Passes : Passes (restore_checks h s seen_a probed_b)
  unfolding restore_checks
  restore-Passes =
      rw (keeps.back, keeps.delegation)
        (refl, (==-same _, (==-same _, (==-same _, (==-same _, tt)))))

  layout-Passes : Passes (layout_checks h s seen_a probed_b)
  unfolding layout_checks in_broad_window pmpaddr_of
  layout-Passes = rw keeps.first (
    refl,
    (
      ==-same _,
      (
        ==-same _,
        (
          refl,
          (
            ground (arith, linked.aligned, bit_and_12 s.scratch_pa),
            (==-same _, (ground arith, (ground arith, (ground arith, (ground arith, tt))))),
          ),
        ),
      ),
    ),
  )

  phase_a-Passes : Passes (phase_a_checks h s seen_a probed_b)
  unfolding phase_a_checks m_trap_entry
  phase_a-Passes = (refl, (refl, (refl, (refl, (refl, (from_s_mode, tt))))))

  phase_b-Passes : Passes (phase_b_checks h s seen_a probed_b)
  unfolding phase_b_checks m_trap_entry
  phase_b-Passes = rw keeps.second (
    refl,
    (
      ==-same _,
      (
        ==-same _,
        (refl, (refl, (refl, (refl, (==-same _, (==-same _, (from_s_mode, (refl, (refl, tt))))))))),
      ),
    ),
  )

  lines-Passes : Passes lines
  unfolding setup report config_line value_lines checksum_line
  lines-Passes = Passes-append (restore_checks h s seen_a probed_b) behind_restore restore-Passes (
      Passes-append (layout_checks h s seen_a probed_b) behind_layout layout-Passes (
        Passes-append (phase_a_checks h s seen_a probed_b) behind_a phase_a-Passes
          (Passes-append (phase_b_checks h s seen_a probed_b) last phase_b-Passes tt)))
    where
      last : List Statement
      last = checksum_line h s seen_a probed_b

      behind_a : List Statement
      behind_a = phase_b_checks h s seen_a probed_b ++ last

      behind_layout : List Statement
      behind_layout = phase_a_checks h s seen_a probed_b ++ behind_a

      behind_restore : List Statement
      behind_restore = layout_checks h s seen_a probed_b ++ behind_layout

  module _ (runs : RunsPayloads h s) (shows : ShowsPriority h s) where
    seen_of : smode_phase_a h s nothing_seen ≡ some seen_a
    seen_of = smode_phase_a_lem h s runs ∙ rw (shows.stores, shows.loads, shows.control_a) refl

    probed_of : smode_phase_b h s seen_a ≡ some probed_b
    probed_of = smode_phase_b_lem h s runs seen_a ∙ rw (shows.control_b, shows.denied) refl

    pub main_of : main h s ≡ some (verdict (run lines power_up))
    unfolding main second_phase reported
    main_of = ap (second_phase h s) seen_of ∙ ap (reported h s seen_a) probed_of

    pub verdict_of : (verdict (run lines power_up)).1 ≡ true
    unfolding verdict
    verdict_of = rw (run-Passes lines power_up lines-Passes) refl
