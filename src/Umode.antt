-- ===== src/Umode.antt =====
-- src/umode/umode_main.c and umode_trap.S: the drop to U-mode, the trap that ends it, and the
-- report. What the hart gives the trap entry is a parameter.
use riscv_baremetal_demo.Base.{
  ℕ, ◌+◌, ◌-◌, ◌/◌, ◌%◌, ◌^◌, bit_and, Bool, true, false, List, [], ◌∷◌, ◌++◌, ◌==◌, if◌then◌else◌,
}
use riscv_baremetal_demo.Base.Text.{codes, joined}
use riscv_baremetal_demo.Uart.Text.{hex}
pub mod Report
mod Tests

-- The csrs when the trap entry runs.
pub record Csrs : Type 0 where
  pub mcause : ℕ
  pub mepc : ℕ
  pub mtval : ℕ
  pub mstatus : ℕ

-- The globals that the report reads.
pub record Globals : Type 0 where
  pub trap_mcause : ℕ
  pub trap_mepc : ℕ
  pub trap_mtval : ℕ
  pub trap_mstatus : ℕ
  pub trap_seen : ℕ
  pub payload_addr : ℕ

abbrev pub boot_globals : Globals
boot_globals = record {
  trap_mcause = 0;
  trap_mepc = 0;
  trap_mtval = 0;
  trap_mstatus = 0;
  trap_seen = 0;
  payload_addr = 0;
}

-- The dispatcher, on the words that the trap entry saved; it resumes at m_report.
unfoldable pub umode_handle : Csrs → Globals → Globals
umode_handle r g = record g {
  trap_mcause = r.mcause;
  trap_mepc = r.mepc;
  trap_mtval = r.mtval;
  trap_mstatus = r.mstatus;
  trap_seen = (g.trap_seen + 1) % 2 ^ 64;
}

abbrev pub entry_mpp : Globals → ℕ
entry_mpp g = bit_and (g.trap_mstatus / 2 ^ 11) 3

-- A check of the report, with the text and `pass` so far.
unfoldable pub require : Bool → List ℕ → List ℕ × Bool → List ℕ × Bool
require cond msg (out, pass) =
    if cond then (out, pass) else (out ++ (codes "check failed: " ++ (msg ++ codes "\n")), false)

unfoldable pub values : Globals → List ℕ
values g = joined (
    codes "\n--- M-mode to U-mode trap report ---\n"
    ∷ codes "trap: mcause="
    ∷ hex g.trap_mcause
    ∷ codes " mepc="
    ∷ hex g.trap_mepc
    ∷ codes " mtval="
    ∷ hex g.trap_mtval
    ∷ codes "\n"
    ∷ codes "payload ecall at "
    ∷ hex g.payload_addr
    ∷ codes ", mstatus at trap entry "
    ∷ hex g.trap_mstatus
    ∷ codes "\n"
    ∷ [])

-- `m_report`: what it prints, and `pass`.
unfoldable pub m_report : Globals → List ℕ × Bool
unfolding values require
m_report g =
    let (out, pass) = require (entry_mpp g == 0) (codes "mstatus.MPP at trap entry is not U-mode") (
      require (g.trap_mtval == 0) (codes "mtval is not 0") (
        require (g.trap_mepc == g.payload_addr) (codes "mepc is not the payload ecall address") (
          require (g.trap_mcause == 8) (codes "mcause is not 8 (ecall from U-mode)")
            (require (g.trap_seen == 1) (codes "expected exactly 1 trap") (values g, true))))) in
    (out ++ (if pass then codes "RESULT: PASS\n" else codes "RESULT: FAIL\n"), pass)

-- main, for the address of the payload and the csrs of the trap that it takes.
unfoldable pub main : ℕ → Csrs → List ℕ × Bool
unfolding umode_handle m_report
main payload r =
    let (out, pass) = m_report (umode_handle r (record boot_globals { payload_addr = payload })) in
    (
      codes "M-mode to U-mode trap transition\n"
          ++ (codes "dropping to U-mode: one-instruction ecall payload...\n" ++ out),
      pass,
    )
