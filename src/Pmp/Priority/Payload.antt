-- ===== src/Pmp/Priority/Payload.antt =====
-- src/pmp-priority/pp_main.c, smode_phaseA and smode_phaseB: every instruction is fetched, and
-- every load and store made, under the PMP entries of S-mode.
-- The code and the variables are aligned and the regions are pages or larger, so the address of an
-- access decides for all its bytes.
use riscv_baremetal_demo.Base.{
  ℕ, ◌+◌, Bool, true, ◌&&◌, Option, none, some, List, [], ◌∷◌, ◌++◌, if◌then◌else◌,
}
use riscv_baremetal_demo.Pmp.Matching.{Kind, reads, writes, fetches}
use riscv_baremetal_demo.Pmp.Priority.{
  Config, Hart, Site, Image, Regs, no_trap, m_trap_entry, phase_a, phase_b, cause_ecall_from_s,
}

-- The register t1 and what the payloads leave in memory: `s_regs`, slots 0 and 7, the scratch
-- page's first byte, the recorded values, and the traps.
pub record Seen : Type 0 where
  pub t1 : ℕ
  pub s_traps : ℕ
  pub resume : ℕ
  pub scratch : ℕ
  pub canary : ℕ
  pub control : ℕ
  pub control_b : ℕ
  pub lbu_pc : ℕ
  pub regs : Regs

abbrev pub nothing_seen : Seen
nothing_seen = record {
  t1 = 0;
  s_traps = 0;
  resume = 0;
  scratch = 0;
  canary = 0;
  control = 0;
  control_b = 0;
  lbu_pc = 0;
  regs = no_trap;
}

-- An instruction that touches no memory, a load or a store, each with what it does, or an ecall.
pub data Instr : Type 0 where
  computes : (Seen → Seen) → Instr
  accesses : Kind → ℕ → (Seen → Seen) → Instr
  ecalls : Instr

abbrev pub Code : Type 0
Code = List (Site × Instr)

-- The access faults.
abbrev pub cause_of : Kind → ℕ
cause_of fetches = 1
cause_of reads = 5
cause_of writes = 7

module _ (h : Hart) (c : Config) where
  -- Whether both halfwords of an instruction can be fetched.
  unfoldable pub fetched : Site → Bool
  fetched at =
      h.allows c fetches at.pc && (if at.is_long then h.allows c fetches (at.pc + 2) else true)

  -- The halfword that cannot.
  unfoldable pub unfetched : Site → ℕ
  unfetched at = if h.allows c fetches at.pc then at.pc + 2 else at.pc

  abbrev pub trapped : ℕ → Site → ℕ → Seen → Seen
  trapped cause at tval seen = record seen { regs = m_trap_entry h cause at.pc tval seen.regs }

  -- Up to the first trap, which M-mode handles; nothing when the code ends in its endless loop.
  unfoldable pub run_code : Code → Seen → Option Seen
  unfolding m_trap_entry fetched unfetched
  run_code [] seen = none
  run_code ((at, computes effect) ∷ rest) seen =
      let later = run_code rest (effect seen) in
      if fetched at then later else some (trapped (cause_of fetches) at (unfetched at) seen)
  run_code ((at, accesses kind pa effect) ∷ rest) seen =
      let later = run_code rest (effect seen) in
      if fetched at
      then if h.allows c kind pa then later else some (trapped (cause_of kind) at pa seen)
      else some (trapped (cause_of fetches) at (unfetched at) seen)
  run_code ((at, ecalls) ∷ rest) seen =
      if fetched at
      then some (trapped cause_ecall_from_s at 0 seen)
      else some (trapped (cause_of fetches) at (unfetched at) seen)

abbrev pub same : Seen → Seen
same seen = seen

module _ (s : Image) where
  -- The compiler's code in front of an asm block.
  unfoldable pub setup_code : List (Site × Bool) → Code
  setup_code [] = []
  setup_code ((at, is_load) ∷ rest) =
      (at, (if is_load then accesses reads s.scratch_var same else computes same)) ∷ setup_code rest

  -- The asm block of `smode_phaseA`.
  unfoldable pub asm_a : Code
  asm_a =
      (s.block_a 0, computes same)
      ∷ (s.block_a 1, computes (λ seen. record seen { t1 = (s.block_a 9).pc }))
      ∷ (s.block_a 2, accesses writes (s.s_regs + 56) (λ seen. record seen { resume = seen.t1 }))
      ∷ (s.block_a 3, computes (λ seen. record seen { t1 = 0xa5 }))
      ∷ (s.block_a 4, accesses writes s.scratch_pa (λ seen. record seen { scratch = seen.t1 }))
      ∷ (s.block_a 5, accesses reads s.scratch_pa (λ seen. record seen { t1 = seen.scratch }))
      ∷ (s.block_a 6, accesses writes s.a_canary (λ seen. record seen { canary = seen.t1 }))
      ∷ (s.block_a 7, accesses reads s.control_byte (λ seen. record seen { t1 = 0x5A }))
      ∷ (s.block_a 8, accesses writes s.a_control (λ seen. record seen { control = seen.t1 }))
      ∷ (s.block_a 9, ecalls)
      ∷ []

  -- The asm block of `smode_phaseB`, and the loop behind it.
  unfoldable pub asm_b : Code
  asm_b =
      (s.block_b 0, accesses reads s.control_byte (λ seen. record seen { t1 = 0x5A }))
      ∷ (s.block_b 1, accesses writes s.b_control (λ seen. record seen { control_b = seen.t1 }))
      ∷ (s.block_b 2, computes same)
      ∷ (s.block_b 3, computes (λ seen. record seen { t1 = (s.block_b 5).pc }))
      ∷ (s.block_b 4, accesses writes s.b_lbu_pc (λ seen. record seen { lbu_pc = seen.t1 }))
      ∷ (s.block_b 5, accesses reads s.scratch_pa (λ seen. record seen { t1 = seen.scratch }))
      ∷ (s.block_b 6, computes same)
      ∷ (s.block_b 7, computes same)
      ∷ []

module _ (h : Hart) (s : Image) where
  unfoldable pub smode_phase_a : Seen → Option Seen
  unfolding run_code setup_code asm_a
  smode_phase_a = run_code h (phase_a s) (setup_code s s.setup_a ++ asm_a s)

  -- A probe that does not trap goes on to the parking loop: no report.
  unfoldable pub smode_phase_b : Seen → Option Seen
  unfolding run_code setup_code asm_b
  smode_phase_b = run_code h (phase_b s) (setup_code s s.setup_b ++ asm_b s)
