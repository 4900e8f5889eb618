-- ===== src/Sv39/Phase.antt =====
-- The S-mode phase of src/sv39/sv39_main.c on a hart that translates as the specification says.
use riscv_baremetal_demo.Base.{ℕ, ◌/◌, ◌%◌, ◌^◌, ◌<◌, ◌≡◌, Bool, List, ◌++◌, ltb, if◌then◌else◌}
use Prim.Native.String.{String}
use riscv_baremetal_demo.Base.Text.{codes}
use riscv_baremetal_demo.Probe.{Passes}
use riscv_baremetal_demo.Sv39.{Mem}
use riscv_baremetal_demo.Sv39.Walk.{Translation, resolves, dies, not_canonical, walk}
use riscv_baremetal_demo.Sv39.Granted.{pmp_limit, grants_walk}
use riscv_baremetal_demo.Sv39.Run.{Outcome, completes, traps, Hart, pmpcfg0_tor}

-- What an access does: a page fault, an access fault outside the PMP grant, or success.
unfoldable pub outcome : Bool → Translation → Outcome
outcome write (resolves pa) =
    if ltb pa pmp_limit then completes pa else traps (if write then 7 else 5)
outcome write (dies level) = traps (if write then 15 else 13)
outcome write not_canonical = traps (if write then 15 else 13)

-- The PMP checks each read of a table as well; what it denies is an access fault.
unfoldable pub checked : Bool → Bool → Translation → Outcome
unfolding outcome
checked granted write t = if granted then outcome write t else traps (if write then 7 else 5)

-- A hart of the privileged specification, in mode Sv39 and with the PMP entry of main.
pub record IsConforming (h : Hart) : Type 0 where
  pub accesses :
      (mem : Mem) (satp : ℕ) (write : Bool) (va : ℕ)
      → satp / 2 ^ 60 ≡ 8
      → va < 2 ^ 64
      → h.access mem satp write va
        ≡ checked (grants_walk mem (satp % 2 ^ 44) va) write (walk mem (satp % 2 ^ 44) write va)
  pub keeps_pmpcfg0 : h.read_pmpcfg0 pmpcfg0_tor ≡ pmpcfg0_tor
  pub keeps_satp : (v : ℕ) → v / 2 ^ 60 ≡ 8 → h.read_satp v ≡ v
  pub stval_reset : h.stval ≡ 0

abbrev pub pass_text : List ℕ
pass_text = codes "RESULT: PASS (mapped round-trip ok, all faults mcause=13)\n" ++ codes "done\n"
