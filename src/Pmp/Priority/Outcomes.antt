-- ===== src/Pmp/Priority/Outcomes.antt =====
-- What the payloads of src/pmp-priority/pp_main.c leave behind, when S-mode can fetch them and
-- reach their variables.
use riscv_baremetal_demo.Base.{
  ℕ, ◌+◌, ◌<◌, ◌≡◌, refl, ◌∙◌, Bool, true, false, Option, none, some, List, [], ◌∷◌, ◌++◌, arith,
  if◌then◌else◌,
}
use riscv_baremetal_demo.Pmp.Matching.{reads, writes}
use riscv_baremetal_demo.Pmp.Priority.{
  Config, Hart, Site, Image, phase_a, phase_b, cause_load_access_fault, cause_ecall_from_s,
}
use riscv_baremetal_demo.Pmp.Priority.Payload.{
  Seen, nothing_seen, Code, fetched, trapped, run_code, setup_code, asm_a, asm_b, smode_phase_a,
  smode_phase_b,
}

-- Every instruction of the compiler's code is fetched.
abbrev pub AllFetched : Hart → Config → List (Site × Bool) → Type 0
AllFetched h c [] = Unit
AllFetched h c ((at, is_load) ∷ rest) = (fetched h c at ≡ true) × AllFetched h c rest

-- The payloads can be fetched, and reach their own variables.
pub record RunsPayloads (h : Hart) (s : Image) : Type 0 where
  pub setup_a : AllFetched h (phase_a s) s.setup_a
  pub setup_b : AllFetched h (phase_b s) s.setup_b
  pub block_a : (i : ℕ) → i < 10 → fetched h (phase_a s) (s.block_a i) ≡ true
  pub block_b : (i : ℕ) → i < 8 → fetched h (phase_b s) (s.block_b i) ≡ true
  pub loads_a : h.allows (phase_a s) reads s.scratch_var ≡ true
  pub loads_b : h.allows (phase_b s) reads s.scratch_var ≡ true
  pub resume : h.allows (phase_a s) writes (s.s_regs + 56) ≡ true
  pub canary : h.allows (phase_a s) writes s.a_canary ≡ true
  pub control_a : h.allows (phase_a s) writes s.a_control ≡ true
  pub control_b : h.allows (phase_b s) writes s.b_control ≡ true
  pub lbu_pc : h.allows (phase_b s) writes s.b_lbu_pc ≡ true

-- The compiler's code changes nothing that is seen.
setup_lem :
    (h : Hart) (s : Image) (c : Config) (setup : List (Site × Bool)) (rest : Code) (seen : Seen)
    → AllFetched h c setup
    → h.allows c reads s.scratch_var ≡ true
    → run_code h c (setup_code s setup ++ rest) seen ≡ run_code h c rest seen
unfolding run_code setup_code
setup_lem h s c [] rest seen all loads = refl
setup_lem h s c ((at, true) ∷ setup) rest seen (ok, all) loads =
    rw (ok, loads) (setup_lem h s c setup rest seen all loads)
setup_lem h s c ((at, false) ∷ setup) rest seen (ok, all) loads =
    rw ok (setup_lem h s c setup rest seen all loads)

module _ (h : Hart) (s : Image) (runs : RunsPayloads h s) where
  abbrev armed : Seen
  armed = record nothing_seen { t1 = 0xa5; resume = (s.block_a 9).pc }

  abbrev stored : Seen
  stored = record armed { scratch = 0xa5 }

  abbrev loaded : Seen
  loaded = record stored { canary = 0xa5 }

  -- What phase A leaves, by its accesses to the page and to the control byte.
  abbrev pub outcome_a : Option Seen
  outcome_a =
      if h.allows (phase_a s) writes s.scratch_pa
      then if h.allows (phase_a s) reads s.scratch_pa
        then if h.allows (phase_a s) reads s.control_byte
          then some (
              trapped h (phase_a s) cause_ecall_from_s (s.block_a 9) 0
                (record loaded { t1 = 0x5A; control = 0x5A }))
          else some (trapped h (phase_a s) 5 (s.block_a 7) s.control_byte loaded)
        else some (trapped h (phase_a s) 5 (s.block_a 5) s.scratch_pa stored)
      else some (trapped h (phase_a s) 7 (s.block_a 4) s.scratch_pa armed)

  pub smode_phase_a_lem : smode_phase_a h s nothing_seen ≡ outcome_a
  unfolding smode_phase_a run_code asm_a
  smode_phase_a_lem =
      setup_lem h s (phase_a s) s.setup_a (asm_a s) nothing_seen runs.setup_a runs.loads_a
      ∙ rw
          (
            runs.block_a 0 (omega arith),
            runs.block_a 1 (omega arith),
            runs.block_a 2 (omega arith),
            runs.block_a 3 (omega arith),
            runs.block_a 4 (omega arith),
            runs.block_a 5 (omega arith),
            runs.block_a 6 (omega arith),
            runs.block_a 7 (omega arith),
            runs.block_a 8 (omega arith),
            runs.block_a 9 (omega arith),
            runs.resume,
            runs.canary,
            runs.control_a,
          )
          refl

  -- What phase B leaves, by its two loads.
  abbrev pub outcome_b : Seen → Option Seen
  outcome_b seen =
      if h.allows (phase_b s) reads s.control_byte
      then if h.allows (phase_b s) reads s.scratch_pa
        then none
        else some (
            trapped h (phase_b s) cause_load_access_fault (s.block_b 5) s.scratch_pa
              (record seen { t1 = (s.block_b 5).pc; control_b = 0x5A; lbu_pc = (s.block_b 5).pc }))
      else some (trapped h (phase_b s) cause_load_access_fault (s.block_b 0) s.control_byte seen)

  pub smode_phase_b_lem : (seen : Seen) → smode_phase_b h s seen ≡ outcome_b seen
  unfolding smode_phase_b run_code asm_b
  smode_phase_b_lem seen =
      setup_lem h s (phase_b s) s.setup_b (asm_b s) seen runs.setup_b runs.loads_b
      ∙ rw
          (
            runs.block_b 0 (omega arith),
            runs.block_b 1 (omega arith),
            runs.block_b 2 (omega arith),
            runs.block_b 3 (omega arith),
            runs.block_b 4 (omega arith),
            runs.block_b 5 (omega arith),
            runs.block_b 6 (omega arith),
            runs.block_b 7 (omega arith),
            runs.control_b,
            runs.lbu_pc,
          )
          refl
