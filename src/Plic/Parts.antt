-- ===== src/Plic/Parts.antt =====
-- The parts of the round trip of src/plic/plic_main.c, each from one view of the board to the next.
use riscv_baremetal_demo.Base.{
  ℕ, suc, bit_or, ◌≡◌, refl, inl, inr, Bool, true, false, ◌&&◌, Option, none, some, leb,
  Option-cases,
}
use mathlib.Core.Path.{subst}
use riscv_baremetal_demo.Plic.{
  World, M, ◌>>=◌, ◌>>◌, pure, looked, Clock, waited, ratio, calibration, control, program, drain,
  wait_empty, poll, send, observe, assert_irq, claim, complete, budget, plic_prio, plic_enable,
  plic_thresh, uart_irq, u_thr, u_mcr, u_ier, u_lsr, plic_pending, plic_claim,
}
use riscv_baremetal_demo.Plic.Conforming.{
  View, line, follow, best, answer, disturb, transmit, after_read, after_write, fresh, Setup,
}
use riscv_baremetal_demo.Plic.Steps.{
  Ends, Ends-some, Ends-next, reference, At, At-spoken, spoken_open, At-verified, At-written,
  At-looked, answer_shown,
}
use riscv_baremetal_demo.Plic.Views.{
  bit_of_or, quiet, no_byte, programmed, asserted, armed, sent, claimed,
}

module _ (s : Setup) where
  fresh_quiet :
      (b : Bool) → transmit b b'\n' (fresh s.enable s.thresh s.rx) ≡ fresh s.enable s.thresh s.rx
  fresh_quiet = quiet 0 s.enable s.thresh false 0 s.rx (λ b e. refl)

  programmed_quiet :
      (b : Bool) → transmit b b'\n' (programmed s.enable s.rx) ≡ programmed s.enable s.rx
  programmed_quiet = quiet 1 (bit_or s.enable 1024) 0 false 0 s.rx (λ b e. refl)

  pub control_lem :
      (k : Clock) (w : World)
      → At s w (fresh s.enable s.thresh s.rx)
      → waited k.t0 k.polls ≡ true
      → (leb 145 (ratio k) && leb (ratio k) 155) ≡ true
      → Ends (control (reference s) k w) (λ _ w'. At s w' (fresh s.enable s.thresh s.rx))
  unfolding control calibration after_read best answer
  control_lem k w a0 ends in_range =
      let v = fresh s.enable s.thresh s.rx in
      let a1 = At-spoken s _ w v a0 fresh_quiet in
      let a2 = At-spoken s _ _ v a1 fresh_quiet in
      let a3 = At-verified s _ _ _ v a2 in_range in
      let a4 = At-looked s plic_claim _ v v a3 refl in
      let a5 = At-spoken s _ _ v a4 fresh_quiet in
      rw (ends, Ends) (At-verified s _ _ _ v a5 (rw (answer_shown s plic_claim _ v a3) refl))

  pub program_lem :
      (w : World)
      → At s w (fresh s.enable s.thresh s.rx)
      → Ends (program (reference s) w) (λ _ w'. At s w' (programmed s.enable s.rx))
  unfolding program after_read after_write answer
  program_lem w a0 =
      let v = programmed s.enable s.rx in
      let v1 : View = record (fresh s.enable s.thresh s.rx) { prio = 1 } in
      let a1 =
        At-written s (plic_prio uart_irq) 1 w (fresh s.enable s.thresh s.rx) v1 a0 (λ b. refl) in
      let a2 = At-looked s plic_enable _ v1 v1 a1 refl in
      let v3 : View = record v1 { enable = bit_or s.enable 1024 } in
      let a3 =
        At-written s plic_enable _ _ v1 v3 a2 (λ b. rw (answer_shown s plic_enable _ v1 a1) refl) in
      let a4 = At-written s plic_thresh 0 _ v3 v a3 (λ b. refl) in
      let a5 = At-spoken s _ _ v a4 programmed_quiet in
      let a6 =
        At-spoken s _ _ v (At-looked s (plic_prio uart_irq) _ v v a5 refl) programmed_quiet in
      let a7 = At-spoken s _ _ v (At-looked s plic_enable _ v v a6 refl) programmed_quiet in
      let a8 = At-spoken s _ _ v (At-looked s plic_thresh _ v v a7 refl) programmed_quiet in
      let a9 = At-looked s (plic_prio uart_irq) _ v v a8 refl in
      let a10 = At-verified s _ _ _ v a9 (rw (answer_shown s (plic_prio uart_irq) _ v a8) refl) in
      let a11 = At-looked s plic_enable _ v v a10 refl in
      let a12 =
        At-verified s _ _ _ v a11
          (rw (answer_shown s plic_enable _ v a10, bit_of_or s.enable) refl) in
      let a13 = At-looked s plic_thresh _ v v a12 refl in
      At-verified s _ _ _ v a13 (rw (answer_shown s plic_thresh _ v a12) refl)

  best-asserted : best (asserted s.enable) ≡ 10
  unfolding best
  best-asserted = rw (bit_of_or s.enable) refl

  -- The claim, with the pending bit open while the line is up, and closed when the byte is read.
  pub claim_lem :
      (k : Clock) (w : World)
      → At s w (asserted s.enable)
      → Ends (claim (reference s) k w) (λ _ w'. At s w' (claimed s.enable))
  unfolding claim after_read follow line transmit disturb answer
  claim_lem k w a0 =
      let v1 : View = record (asserted s.enable) { pending = false; claimed = true } in
      let w1 = looked (reference s) plic_claim w in
      let a1 : At s w1 v1 =
        At-looked s plic_claim w (asserted s.enable) v1 a0 (rw best-asserted refl) in
      let w2 = looked (reference s) plic_pending w1 in
      let a2 : At s w2 v1 = At-looked s plic_pending w1 v1 v1 a1 refl in
      let (b, a3) = spoken_open s _ w2 v1 a2 in
      let v3 : View = transmit b b'\n' v1 in
      let a4 =
        At-verified s _ _ _ v3 a3
          (rw (answer_shown s plic_claim w (asserted s.enable) a0, best-asserted) refl) in
      let a5 = At-verified s _ _ _ v3 a4 (rw (answer_shown s plic_pending w1 v1 a1) refl) in
      let a6 = At-looked s u_thr _ v3 (claimed s.enable) a5 refl in
      let a7 = At-looked s plic_pending _ (claimed s.enable) (claimed s.enable) a6 refl in
      let a8 =
        At-spoken s _ _ (claimed s.enable) a7
          (quiet 1 (bit_or s.enable 1024) 0 true 1 none no_byte) in
      let a9 = At-verified s _ _ _ (claimed s.enable) a8 (rw (answer_shown s u_thr _ v3 a5) refl) in
      At-verified s _ _ _ (claimed s.enable) a9
        (rw (answer_shown s plic_pending _ (claimed s.enable) a6) refl)

  drain_lem :
      (w : World)
      → At s w (programmed s.enable s.rx)
      → (w' : World) × (drain (reference s) w ≡ some (tt, w')) × At s w' (programmed s.enable none)
  unfolding drain after_read follow line answer
  drain_lem w a0 = elim (Option-cases s.rx) [
    | inl nothing ↦
        let a : At s w (programmed s.enable none) =
          subst (λ (o : Option ℕ). At s w (programmed s.enable o)) nothing a0 in
        (
          looked (reference s) u_lsr w,
          rw (answer_shown s u_lsr w (programmed s.enable none) a) refl,
          At-looked s u_lsr w _ _ a refl,
        )
    | inr (b, stale) ↦
        let a : At s w (programmed s.enable (some b)) =
          subst (λ (o : Option ℕ). At s w (programmed s.enable o)) stale a0 in
        (
          looked (reference s) u_thr (looked (reference s) u_lsr w),
          rw (answer_shown s u_lsr w (programmed s.enable (some b)) a) refl,
          At-looked s u_thr _ _ _ (At-looked s u_lsr w _ _ a refl) refl,
        )
  ]

  wait_lem :
      (turns : ℕ) (w : World)
      → At s w (armed s.enable)
      → wait_empty (reference s) (suc turns) w ≡ some (tt, looked (reference s) u_lsr w)
  unfolding wait_empty answer
  wait_lem turns w a = rw (answer_shown s u_lsr w (armed s.enable) a) refl

  poll_lem :
      (left spins : ℕ) (w : World)
      → At s w (sent s.enable)
      → (poll (reference s) (suc left) spins w ≡ some (spins, looked (reference s) plic_pending w))
        × At s (looked (reference s) plic_pending w) (sent s.enable)
  unfolding poll answer after_read
  poll_lem left spins w a = (
    rw (answer_shown s plic_pending w (sent s.enable) a) refl,
    At-looked s plic_pending w (sent s.enable) (sent s.enable) a refl,
  )

  send_lem :
      (turns : ℕ) (w : World)
      → At s w (programmed s.enable s.rx)
      → (w' : World) × (send (reference s) (suc turns) w ≡ some ((0, 0), w'))
        × At s w' (sent s.enable)
  unfolding send after_read after_write transmit follow line answer
  send_lem turns w a0 =
      let (w1, drained, a1) = drain_lem w a0 in
      let v1 = programmed s.enable none in
      let mcr0 = answer_shown s u_mcr w1 v1 a1 in
      let a2 = At-looked s u_mcr w1 v1 v1 a1 refl in
      let ier0 = answer_shown s u_ier _ v1 a2 in
      let a3 = At-looked s u_ier _ v1 v1 a2 refl in
      let v4 : View = record v1 { mcr = 16 } in
      let a4 = At-written s u_mcr 16 _ v1 v4 a3 (λ b. refl) in
      let a5 = At-written s u_ier 1 _ v4 (armed s.enable) a4 (λ b. refl) in
      let a6 = At-looked s u_lsr _ (armed s.enable) (armed s.enable) a5 refl in
      let a7 = At-written s u_thr b'Q' _ (armed s.enable) (sent s.enable) a6 (λ b. refl) in
      (_, rw (send, ◌>>◌, drained, mcr0, ier0, wait_lem turns _ a5) (rw (mcr0, ier0) refl), a7)

  observe_lem :
      (w : World)
      → At s w (sent s.enable)
      → Ends (observe (reference s) 0 0 w) (λ _ w'. At s w' (asserted s.enable))
  unfolding observe after_read after_write answer transmit disturb
  observe_lem w a0 =
      let v = asserted s.enable in
      let a1 = At-looked s plic_pending w (sent s.enable) (sent s.enable) a0 refl in
      let a2 = At-written s u_mcr 0 _ (sent s.enable) v a1 (λ b. refl) in
      let a3 = At-spoken s _ _ v a2 (λ b. refl) in
      let a4 = At-verified s _ _ _ v a3 refl in
      At-verified s _ _ _ v a4 (rw (answer_shown s plic_pending w (sent s.enable) a0) refl)

  pub complete_lem :
      (k : Clock) (ier_save : ℕ) (w : World)
      → At s w (claimed s.enable)
      → Ends (complete (reference s) k ier_save w) (λ _ w'. w'.shown.fails ≡ 0)
  unfolding complete after_read after_write follow line answer best
  complete_lem k ier_save w a0 =
      let v : View = record (claimed s.enable) { claimed = false } in
      let still = quiet 1 (bit_or s.enable 1024) 0 false 1 none no_byte in
      let a1 = At-written s plic_claim 10 w (claimed s.enable) v a0 (λ b. refl) in
      let a2 = At-spoken s _ _ v a1 still in
      let a3 = At-looked s plic_claim _ v v a2 refl in
      let a4 = At-spoken s _ _ v a3 still in
      let a5 = At-verified s _ _ _ v a4 (rw (answer_shown s plic_claim _ v a2) refl) in
      let a6 = At-written s u_ier ier_save _ v (record v { ier = ier_save }) a5 (λ b. refl) in
      a6.clean

  pub assert_irq_lem :
      (turns : ℕ) (w : World)
      → At s w (programmed s.enable s.rx)
      → Ends
          (assert_irq (reference s) (suc turns) w)
          (λ ier_save w'. (ier_save ≡ 0) × At s w' (asserted s.enable))
  unfolding assert_irq
  assert_irq_lem turns w a0 =
      let (w1, went, a1) = send_lem turns w a0 in
      let (polled, a2) = poll_lem 999999 0 w1 a1 in
      let (_, w3, seen, a3) =
        Ends-some (λ (_ : Unit {0}) w'. At s w' (asserted s.enable)) _ (observe_lem _ a2) in
      Ends-next Ended (send (reference s) (suc turns))
        (λ saved. poll (reference s) budget 0 >>= observed saved) w (0, 0) w1 went
        (Ends-next Ended (poll (reference s) budget 0) (observed (0, 0)) w1 0 _ polled
          (Ends-next Ended (observe (reference s) 0 0) (λ _. pure 0) _ tt w3 seen (refl, a3)))
    where
      Ended : ℕ → World → Type 0
      Ended ier_save w' = (ier_save ≡ 0) × At s w' (asserted s.enable)

      observed : ℕ × ℕ → ℕ → M ℕ
      observed saved spins = do observe (reference s) saved.0 spins; pure saved.1
