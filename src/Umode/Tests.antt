-- ===== src/Umode/Tests.antt =====
-- The theorem on the model of src/umode/umode_main.c, at two traps.
use riscv_baremetal_demo.Base.{◌≡◌, ◌↔◌, refl, false}
use riscv_baremetal_demo.Umode.{Csrs, main, m_report, umode_handle, require}
use riscv_baremetal_demo.Umode.Report.{IsCall, EndsWith, pass_line, fail_line, main_iff_IsCall}

-- An ecall from U-mode, with MPIE set in mstatus.
abbrev call : Csrs
call = record { mcause = 8; mepc = 0x80000204; mtval = 0; mstatus = 0x80 }

call-IsCall : IsCall 0x80000204 call
call-IsCall = record { cause = refl; pc = refl; value = refl; from_u = refl }

machine_call_fails : (main 0x80000204 (record call { mcause = 11; mstatus = 0x1880 })).1 ≡ false
unfolding main m_report umode_handle require
machine_call_fails = refl

main_iff_IsCall_example :
    (EndsWith pass_line (main 0x80000204 call).0 ↔ IsCall 0x80000204 call)
    × (EndsWith fail_line (main 0x80000204 call).0 ↔ (¬ (IsCall 0x80000204 call)))
main_iff_IsCall_example = main_iff_IsCall 0x80000204 call
