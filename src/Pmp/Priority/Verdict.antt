-- ===== src/Pmp/Priority/Verdict.antt =====
-- What a PASS of src/pmp-priority/pp_main.c says about the hart.
use riscv_baremetal_demo.Base.{◌≡◌, true, some}
use riscv_baremetal_demo.Probe.{Log, Passes}
use riscv_baremetal_demo.Pmp.Priority.{Hart, Image}
use riscv_baremetal_demo.Pmp.Priority.Report.{main}

-- The program comes to its verdict, prints PASS and shuts the machine down.
abbrev pub Passed : Hart → Image → Type 0
Passed h s = (l : Log) × (main h s ≡ some (l, true))
