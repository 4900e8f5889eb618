-- ===== src/Plic/Trip.antt =====
-- The round trip of src/plic/plic_main.c on a conforming board.
use riscv_baremetal_demo.Base.{ℕ, suc, ◌≡◌, refl, sym, ap, ◌∙◌, Bool, true, ◌&&◌, some, [], leb}
use mathlib.Core.Path.{subst}
use riscv_baremetal_demo.Probe.{power_up}
use riscv_baremetal_demo.Plic.{
  Board, World, M, ◌>>=◌, ◌>>◌, Clock, waited, ratio, control, program, assert_irq, claim, complete,
  verdict, main,
}
use riscv_baremetal_demo.Plic.Conforming.{replay, fresh, Conforms, Setup}
use riscv_baremetal_demo.Plic.Steps.{Ends, Ends-some, Ends-next, reference, At, conforming_board}
use riscv_baremetal_demo.Plic.Views.{programmed, asserted, claimed}
use riscv_baremetal_demo.Plic.Parts.{
  control_lem, program_lem, claim_lem, assert_irq_lem, complete_lem,
}

module _ (s : Setup) where
  main_lem :
      (k : Clock) (turns : ℕ)
      → waited k.t0 k.polls ≡ true
      → (leb 145 (ratio k) && leb (ratio k) 155) ≡ true
      → Ends (main (reference s) k (suc turns)) (λ pass w. pass ≡ true)
  unfolding main verdict replay
  main_lem k turns ends in_range =
      let w0 : World = record { log = []; shown = power_up } in
      let a0 : At s w0 (fresh s.enable s.thresh s.rx) = record { shows = refl; clean = refl } in
      let (_, w1, e1, a1) =
        Ends-some (λ (_ : Unit {0}) w'. At s w' (fresh s.enable s.thresh s.rx))
          (control (reference s) k w0) (control_lem s k w0 a0 ends in_range) in
      let (_, w2, e2, a2) =
        Ends-some (λ (_ : Unit {0}) w'. At s w' (programmed s.enable s.rx))
          (program (reference s) w1) (program_lem s w1 a1) in
      let (ier_save, w3, e3, (_, a3)) =
        Ends-some (λ (ier_save : ℕ) w'. (ier_save ≡ 0) × At s w' (asserted s.enable))
          (assert_irq (reference s) (suc turns) w2) (assert_irq_lem s turns w2 a2) in
      let (_, w4, e4, a4) =
        Ends-some (λ (_ : Unit {0}) w'. At s w' (claimed s.enable)) (claim (reference s) k w3)
          (claim_lem s k w3 a3) in
      let (_, w5, e5, clean) =
        Ends-some (λ (_ : Unit {0}) w'. w'.shown.fails ≡ 0) (complete (reference s) k ier_save w4)
          (complete_lem s k ier_save w4 a4) in
      Ends-next Passing (control (reference s) k) (λ _. behind_control) w0 tt w1 e1
        (Ends-next Passing (program (reference s))
          (λ _. assert_irq (reference s) (suc turns) >>= behind_send) w1 tt w2 e2
          (Ends-next Passing (assert_irq (reference s) (suc turns)) behind_send w2 ier_save w3 e3 (
            Ends-next Passing (claim (reference s) k) (λ _. behind_claim ier_save) w3 tt w4 e4
              (Ends-next Passing (complete (reference s) k ier_save) (λ _. verdict (reference s) k)
                w4 tt w5 e5 (rw clean refl)))))
    where
      Passing : Bool → World → Type 0
      Passing pass w = pass ≡ true

      behind_claim : ℕ → M Bool
      behind_claim ier_save = do complete (reference s) k ier_save; verdict (reference s) k

      behind_send : ℕ → M Bool
      behind_send ier_save = do claim (reference s) k; behind_claim ier_save

      behind_control : M Bool
      behind_control = do
        program (reference s)
        ier_save ← assert_irq (reference s) (suc turns)
        behind_send ier_save

-- On a board whose registers answer as the interrupt controller and the UART are documented to,
-- with a calibration that ends with a ratio between 145 and 155, the program comes to its verdict
-- after one look at the transmitter, and the verdict is PASS, whatever was enabled or waited
-- before.
pub main_passes :
    (board : Board) (k : Clock) (turns : ℕ)
    → Conforms board
    → waited k.t0 k.polls ≡ true
    → (leb 145 (ratio k) && leb (ratio k) 155) ≡ true
    → (w : World) × (main board k (suc turns) ≡ some (true, w))
main_passes board k turns c ends in_range =
    let Passed : Board → Type 0 = λ b. (w : World) × (main b k (suc turns) ≡ some (true, w)) in
    subst Passed (sym (conforming_board board c)) (
      let (pass, w, e, passing) =
        Ends-some (λ (pass : Bool) w. pass ≡ true) (main (reference c.setup) k (suc turns))
          (main_lem c.setup k turns ends in_range) in
      (w, e ∙ ap (λ (p : Bool). some (p, w)) passing))
