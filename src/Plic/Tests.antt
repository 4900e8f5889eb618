-- ===== src/Plic/Tests.antt =====
-- Runs of the model of src/plic/plic_main.c, and the theorem on one board.
use riscv_baremetal_demo.Base.{◌≡◌, refl, true, false, some, [], ◌∷◌}
use riscv_baremetal_demo.Plic.{Board, World, Clock, waited, main, plic_claim}
use riscv_baremetal_demo.Plic.Conforming.{View, answer, replay, fresh, Setup, best, after_read}
use riscv_baremetal_demo.Plic.Trip.{main_passes}

-- A byte waits in the receiver, and source 3 is enabled already.
abbrev used : Setup
used = record { enable = 8; thresh = 7; rx = some 65; again = λ log. true }

abbrev used_board : Board
used_board log addr = answer (replay (fresh used.enable used.thresh used.rx) used.again log) addr

abbrev clock : Clock
clock = record {
  mhartid = 0;
  t0 = 5;
  c0 = 1000;
  polls = 6 ∷ 1000005 ∷ [];
  t1 = 1000006;
  c1 = 150001150;
  claim_start = 150001200;
  claim_end = 150002200;
  complete_start = 150003000;
  complete_end = 150004000;
}

abbrev claimed_view : View
claimed_view = record (fresh 1024 0 (some 81)) { prio = 1; pending = true; ier = 1 }

claim_clears_pending :
    (best claimed_view ≡ 10) × ((after_read plic_claim claimed_view).pending ≡ false)
unfolding best after_read
claim_clears_pending = (refl, refl)

main_passes_example : (w : World) × (main used_board clock 1 ≡ some (true, w))
unfolding waited
main_passes_example =
    main_passes used_board clock 0 (record { setup = used; answers = λ log addr. refl }) refl refl
