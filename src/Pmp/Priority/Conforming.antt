-- ===== src/Pmp/Priority/Conforming.antt =====
-- A hart that matches accesses as the privileged specification says passes
-- src/pmp-priority/pp_main.c.
use riscv_baremetal_demo.Base.{ℕ, ◌+◌, ◌≤◌, ◌<◌, ◌≡◌, ◌∙◌, ◌⊎◌, Bool, [], ◌∷◌, true, List, arith}
use riscv_baremetal_demo.Pmp.Matching.{Kind, reads, writes, fetches, s_mode_allows}
use riscv_baremetal_demo.Pmp.Priority.{
  Config, Hart, Site, Image, phase_a, phase_b, page_size, broad_base, broad_top,
}
use riscv_baremetal_demo.Pmp.Priority.Payload.{fetched}
use riscv_baremetal_demo.Pmp.Priority.Outcomes.{AllFetched, RunsPayloads}
use riscv_baremetal_demo.Pmp.Priority.Decides.{entries, phase_a_allows, phase_b_allows}
use riscv_baremetal_demo.Pmp.Priority.Passes.{IsLinked, ShowsPriority}

-- A hart that matches accesses of S-mode as the privileged specification says.
abbrev pub Matches : Hart → Type 0
Matches h =
    (c : Config) (kind : Kind) (pa : ℕ) → h.allows c kind pa ≡ s_mode_allows 0 (entries c) kind pa

-- Addresses in the window of the broad entry and outside the page.
abbrev pub IsApart : Image → ℕ → Type 0
IsApart s a =
    (broad_base ≤ a) × (a < broad_top) × ((a < s.scratch_pa) ⊎ (s.scratch_pa + page_size ≤ a))

abbrev pub CodeIsApart : Image → Site → Type 0
CodeIsApart s at = IsApart s at.pc × IsApart s (at.pc + 2)

abbrev pub AllApart : Image → List (Site × Bool) → Type 0
AllApart s [] = Unit
AllApart s ((at, is_load) ∷ rest) = CodeIsApart s at × AllApart s rest

-- The payloads and their variables stand there.
pub record IsPlaced (s : Image) : Type 0 where
  pub setup_a : AllApart s s.setup_a
  pub setup_b : AllApart s s.setup_b
  pub block_a : (i : ℕ) → i < 10 → CodeIsApart s (s.block_a i)
  pub block_b : (i : ℕ) → i < 8 → CodeIsApart s (s.block_b i)
  pub scratch_var : IsApart s s.scratch_var
  pub resume : IsApart s (s.s_regs + 56)
  pub canary : IsApart s s.a_canary
  pub control_a : IsApart s s.a_control
  pub control_b : IsApart s s.b_control
  pub lbu_pc : IsApart s s.b_lbu_pc

module _ (h : Hart) (s : Image) (spec : Matches h) (linked : IsLinked s) where
  apart_a : (kind : Kind) (a : ℕ) → IsApart s a → h.allows (phase_a s) kind a ≡ true
  apart_a reads a apart =
      spec (phase_a s) reads a ∙ phase_a_allows s reads a linked.aligned ∙ ground arith
  apart_a writes a apart =
      spec (phase_a s) writes a ∙ phase_a_allows s writes a linked.aligned ∙ ground arith
  apart_a fetches a apart =
      spec (phase_a s) fetches a ∙ phase_a_allows s fetches a linked.aligned ∙ ground arith

  apart_b : (kind : Kind) (a : ℕ) → IsApart s a → h.allows (phase_b s) kind a ≡ true
  apart_b reads a apart =
      spec (phase_b s) reads a ∙ phase_b_allows s reads a linked.aligned ∙ ground arith
  apart_b writes a apart =
      spec (phase_b s) writes a ∙ phase_b_allows s writes a linked.aligned ∙ ground arith
  apart_b fetches a apart =
      spec (phase_b s) fetches a ∙ phase_b_allows s fetches a linked.aligned ∙ ground arith

  fetched_a : (at : Site) → CodeIsApart s at → fetched h (phase_a s) at ≡ true
  unfolding fetched
  fetched_a at (low, high) =
      rw (apart_a fetches at.pc low, apart_a fetches (at.pc + 2) high) (ground arith)

  fetched_b : (at : Site) → CodeIsApart s at → fetched h (phase_b s) at ≡ true
  unfolding fetched
  fetched_b at (low, high) =
      rw (apart_b fetches at.pc low, apart_b fetches (at.pc + 2) high) (ground arith)

  setup_fetched_a : (setup : List (Site × Bool)) → AllApart s setup → AllFetched h (phase_a s) setup
  setup_fetched_a [] all = tt
  setup_fetched_a ((at, is_load) ∷ rest) (one, all) = (fetched_a at one, setup_fetched_a rest all)

  setup_fetched_b : (setup : List (Site × Bool)) → AllApart s setup → AllFetched h (phase_b s) setup
  setup_fetched_b [] all = tt
  setup_fetched_b ((at, is_load) ∷ rest) (one, all) = (fetched_b at one, setup_fetched_b rest all)

  pub Matches-RunsPayloads : IsPlaced s → RunsPayloads h s
  Matches-RunsPayloads placed = record {
    setup_a = setup_fetched_a s.setup_a placed.setup_a;
    setup_b = setup_fetched_b s.setup_b placed.setup_b;
    block_a = λ i below. fetched_a (s.block_a i) (placed.block_a i below);
    block_b = λ i below. fetched_b (s.block_b i) (placed.block_b i below);
    loads_a = apart_a reads s.scratch_var placed.scratch_var;
    loads_b = apart_b reads s.scratch_var placed.scratch_var;
    resume = apart_a writes (s.s_regs + 56) placed.resume;
    canary = apart_a writes s.a_canary placed.canary;
    control_a = apart_a writes s.a_control placed.control_a;
    control_b = apart_b writes s.b_control placed.control_b;
    lbu_pc = apart_b writes s.b_lbu_pc placed.lbu_pc;
  }

  control_IsApart : IsApart s s.control_byte
  control_IsApart = (linked.control_low, linked.control_high, linked.control_apart)

  pub Matches-ShowsPriority : ShowsPriority h s
  Matches-ShowsPriority = record {
    stores =
        spec (phase_a s) writes s.scratch_pa
        ∙ phase_a_allows s writes s.scratch_pa linked.aligned
        ∙ ground arith;
    loads =
        spec (phase_a s) reads s.scratch_pa
        ∙ phase_a_allows s reads s.scratch_pa linked.aligned
        ∙ ground arith;
    control_a = apart_a reads s.control_byte control_IsApart;
    control_b = apart_b reads s.control_byte control_IsApart;
    denied =
        spec (phase_b s) reads s.scratch_pa
        ∙ phase_b_allows s reads s.scratch_pa linked.aligned
        ∙ ground arith;
  }
