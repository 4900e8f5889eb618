-- ===== src/Plic.antt =====
-- src/plic/plic_main.c: one claim/complete round trip through the interrupt controller, with UART0
-- in loopback as the source. The registers are a parameter: an answer to each read, from the
-- history of accesses and printed texts.
use riscv_baremetal_demo.Base.{
  ℕ, zero, suc, ◌+◌, ◌-◌, ◌*◌, ◌/◌, ◌%◌, ◌^◌, bit_and, bit_or, Bool, true, false, ◌&&◌, Option,
  none, some, List, [], ◌∷◌, ltb, leb, ◌==◌, if◌then◌else◌, set,
}
use riscv_baremetal_demo.Base.Text.{codes}
use riscv_baremetal_demo.Uart.Text.{dec, hex}
use riscv_baremetal_demo.Probe.{Statement, says, check, perform, Log, power_up}
pub mod Conforming
pub mod Steps
pub mod Views
pub mod Parts
pub mod Trip
mod Tests

abbrev pub plic_base : ℕ
plic_base = 0x0c000000

abbrev pub plic_prio : ℕ → ℕ
plic_prio s = plic_base + 4 * s

abbrev pub plic_pending : ℕ
plic_pending = plic_base + 0x1000

abbrev pub plic_enable : ℕ
plic_enable = plic_base + 0x2000

abbrev pub plic_thresh : ℕ
plic_thresh = plic_base + 0x200000

abbrev pub plic_claim : ℕ
plic_claim = plic_base + 0x200004

abbrev pub uart_irq : ℕ
uart_irq = 10

-- `uart_reg` of an offset.
abbrev pub uart_reg : ℕ → ℕ
uart_reg off = 0x10000000 + off

abbrev pub u_thr : ℕ
u_thr = uart_reg 0

abbrev pub u_ier : ℕ
u_ier = uart_reg 1

abbrev pub u_mcr : ℕ
u_mcr = uart_reg 4

abbrev pub u_lsr : ℕ
u_lsr = uart_reg 5

abbrev pub ier_rdi : ℕ
ier_rdi = 0x01

abbrev pub mcr_loop : ℕ
mcr_loop = 0x10

abbrev pub lsr_dr : ℕ
lsr_dr = 0x01

abbrev pub lsr_thre : ℕ
lsr_thre = 0x20

abbrev pub budget : ℕ
budget = 1000000

-- An access to a register, with its address and value, or a text printed.
pub data Access : Type 0 where
  rd : ℕ → ℕ → Access
  wr : ℕ → ℕ → Access
  said : Access

-- What the board answers to a read, after the accesses so far, the latest first.
abbrev pub Board : Type 0
Board = List Access → ℕ → ℕ

pub record World : Type 0 where
  pub log : List Access
  pub shown : Log

-- `none` is a loop that does not end.
abbrev pub M : Type 0 → Type 0
M A = World → Option (A × World)

infixl 4 ◌>>=◌ ◌>>◌
abbrev pub ◌>>=◌ : {Read Then : Type 0} → M Read → (Read → M Then) → M Then
◌>>=◌ first rest w = elim (first w) [ none ↦ none | some (got, w') ↦ rest got w' ]

abbrev pub ◌>>◌ : {Then : Type 0} → M (Unit {0}) → M Then → M Then
◌>>◌ first rest w = elim (first w) [ none ↦ none | some (_, w') ↦ rest w' ]

abbrev pub pure : {A : Type 0} → A → M A
pure a w = some (a, w)

unfoldable pub written : ℕ → ℕ → World → World
written addr v w = record w { log = wr addr v ∷ w.log }

abbrev pub write : ℕ → ℕ → M (Unit {0})
write addr v w = some (tt, written addr v w)

-- A line of texts goes out on the UART that is under test.
unfoldable pub spoken : List (List ℕ) → World → World
unfolding perform
spoken texts w = record { log = said ∷ w.log; shown = perform (says texts) w.shown }

abbrev pub say : List (List ℕ) → M (Unit {0})
say texts w = some (tt, spoken texts w)

-- `check`, which prints only when the condition fails.
unfoldable pub verified : Bool → List ℕ → World → World
unfolding perform
verified cond msg w = record {
  log = if cond then w.log else said ∷ w.log;
  shown = perform (check cond msg) w.shown;
}

abbrev pub verify : Bool → List ℕ → M (Unit {0})
verify cond msg w = some (tt, verified cond msg w)

abbrev pub bit_10 : ℕ → ℕ
bit_10 v = bit_and (v / 2 ^ uart_irq) 1

-- Subtraction of unsigned longs.
abbrev pub sub64 : ℕ → ℕ → ℕ
sub64 a b = (a + (2 ^ 64 - b)) % 2 ^ 64

-- What the hart reads beside the registers: its id, the readings of the calibration, and the
-- stamps around the claim and the complete.
pub record Clock : Type 0 where
  pub mhartid : ℕ
  pub t0 : ℕ
  pub c0 : ℕ
  pub polls : List ℕ
  pub t1 : ℕ
  pub c1 : ℕ
  pub claim_start : ℕ
  pub claim_end : ℕ
  pub complete_start : ℕ
  pub complete_end : ℕ

-- Whether the loop of `calibration` ends within the readings.
unfoldable pub waited : ℕ → List ℕ → Bool
waited t0 [] = false
waited t0 (t ∷ ts) = let rest = waited t0 ts in if ltb (sub64 t t0) 1000000 then rest else true

abbrev pub ratio : Clock → ℕ
ratio k = sub64 k.c1 k.c0 / sub64 k.t1 k.t0

unfoldable pub calibration : Clock → M ℕ
calibration k w =
    if waited k.t0 k.polls
    then (do
      say (
          codes "clock: 1000000 mtime ticks -> rdcycle delta "
          ∷ dec (sub64 k.c1 k.c0)
          ∷ codes " (ratio "
          ∷ dec (ratio k)
          ∷ codes " rdcycle units per tick)\n"
          ∷ [])
      pure (ratio k))
        w
    else none

module _ (board : Board) where
  unfoldable pub looked : ℕ → World → World
  looked addr w = record w { log = rd addr (board w.log addr) ∷ w.log }

  abbrev pub read : ℕ → M ℕ
  read addr w = some (board w.log addr, looked addr w)

  -- The lines of main ahead of the first claim, and that claim.
  unfoldable pub control : Clock → M (Unit {0})
  unfolding calibration
  control k = do
    say (
        codes "plic-claim: PLIC claim/complete round-trip test\n"
        ∷ codes "hart mhartid="
        ∷ dec k.mhartid
        ∷ codes "\n"
        ∷ [])
    r ← calibration k
    verify (leb 145 r && leb r 155) (codes "rdcycle/mtime ratio outside 145..155")
    claimed ← read plic_claim
    say (codes "control: claim before programming=" ∷ dec claimed ∷ codes " (expect 0)\n" ∷ [])
    verify (claimed == 0) (codes "claim with nothing pending != 0")

  -- Priority, enable bit and threshold, read back.
  unfoldable pub program : M (Unit {0})
  program = do
    write (plic_prio uart_irq) 1
    v ← read plic_enable
    write plic_enable (bit_or v (2 ^ uart_irq))
    write plic_thresh 0
    say (codes "config: priority[10]=" ∷ [])
    prio ← read (plic_prio uart_irq)
    say (dec prio ∷ codes " enable10=" ∷ [])
    enable ← read plic_enable
    say (dec (bit_10 enable) ∷ codes " thresh=" ∷ [])
    thresh ← read plic_thresh
    say (dec thresh ∷ codes "\n" ∷ [])
    prio_again ← read (plic_prio uart_irq)
    verify (prio_again == 1) (codes "priority[10] readback != 1")
    enable_again ← read plic_enable
    verify (bit_10 enable_again == 1) (codes "enable bit 10 readback != 1")
    thresh_again ← read plic_thresh
    verify (thresh_again == 0) (codes "threshold readback != 0")

  -- The stale receive byte, if there is one.
  unfoldable pub drain : M (Unit {0})
  drain = do lsr ← read u_lsr; drained lsr
    where
      drained : ℕ → M (Unit {0})
      drained lsr = if bit_and lsr lsr_dr == 0 then pure tt else (do _ ← read u_thr; pure tt)

  -- The loop that waits for an empty transmitter.
  unfoldable pub wait_empty : ℕ → M (Unit {0})
  wait_empty zero w = none
  wait_empty (suc turns) w =
      let more = wait_empty turns (looked u_lsr w) in
      if bit_and (board w.log u_lsr) lsr_thre == 0 then more else some (tt, looked u_lsr w)

  -- The loop that polls the pending bit: `spins`, with `left` of the budget.
  unfoldable pub poll : ℕ → ℕ → M ℕ
  poll zero spins w = (do _ ← read plic_pending; pure spins) w
  poll (suc left) spins w =
      let more = poll left (spins + 1) (looked plic_pending w) in
      if bit_10 (board w.log plic_pending) == 0 then more else some (spins, looked plic_pending w)

  -- The byte goes out in loopback; `mcr_save` and `ier_save` are returned.
  unfoldable pub send : ℕ → M (ℕ × ℕ)
  unfolding drain wait_empty
  send turns = do
    drain
    mcr_save ← read u_mcr
    ier_save ← read u_ier
    write u_mcr (bit_or mcr_save mcr_loop % 2 ^ 8)
    write u_ier (bit_or ier_save ier_rdi % 2 ^ 8)
    wait_empty turns
    write u_thr b'Q'
    pure (mcr_save, ier_save)

  -- Loopback off, and the report on the pending bit.
  unfoldable pub observe : ℕ → ℕ → M (Unit {0})
  observe mcr_save spins = do
    pend_before ← read plic_pending
    write u_mcr mcr_save
    say (
        codes "assert: pending bit 10 after TX byte="
        ∷ dec (bit_10 pend_before)
        ∷ codes " (spins="
        ∷ dec spins
        ∷ codes ")\n"
        ∷ [])
    verify (ltb spins budget) (codes "UART IRQ never showed pending")
    verify (bit_10 pend_before == 1) (codes "pending bit 10 not set after TX byte")

  -- The interrupt is asserted; `ier_save` is returned.
  unfoldable pub assert_irq : ℕ → M ℕ
  unfolding send poll observe
  assert_irq turns = do
    saved ← send turns
    spins ← poll budget 0
    observe saved.0 spins
    pure saved.1

  -- The claim, and the byte that drops the line of the source.
  unfoldable pub claim : Clock → M (Unit {0})
  claim k = do
    claimed ← read plic_claim
    pend_after ← read plic_pending
    say (
        codes "claim: id="
        ∷ dec claimed
        ∷ codes " cycles="
        ∷ dec (sub64 k.claim_end k.claim_start)
        ∷ codes " pending-after="
        ∷ dec (bit_10 pend_after)
        ∷ codes "\n"
        ∷ [])
    verify (claimed == uart_irq) (codes "claim did not return the UART IRQ")
    verify (bit_10 pend_after == 0) (codes "pending bit 10 still set immediately after claim")
    rx ← read u_thr
    pend_idle ← read plic_pending
    say (
        codes "uart: looped-back byte="
        ∷ hex rx
        ∷ codes " (expect 0x51) pending-after-deassert="
        ∷ dec (bit_10 pend_idle)
        ∷ codes "\n"
        ∷ [])
    verify (rx == b'Q') (codes "looped-back byte != 'Q'")
    verify (bit_10 pend_idle == 0) (codes "pending bit 10 still set after source deasserted")

  -- The complete, the second claim, and the UART as it was.
  unfoldable pub complete : Clock → ℕ → M (Unit {0})
  complete k ier_save = do
    write plic_claim uart_irq
    say (codes "complete: cycles=" ∷ dec (sub64 k.complete_end k.complete_start) ∷ codes "\n" ∷ [])
    claimed2 ← read plic_claim
    say (codes "reclaim: id=" ∷ dec claimed2 ∷ codes " (expect 0)\n" ∷ [])
    verify (claimed2 == 0) (codes "claim after complete != 0")
    write u_ier ier_save

  -- The last lines, and whether the verdict is PASS.
  unfoldable pub verdict : Clock → M Bool
  verdict k w =
      (do
        say (
            if w.shown.fails == 0
            then codes "RESULT: PASS (claim=10, claim_cycles="
              ∷ dec (sub64 k.claim_end k.claim_start)
              ∷ codes ", complete_cycles="
              ∷ dec (sub64 k.complete_end k.complete_start)
              ∷ codes ")\n"
              ∷ []
            else codes "RESULT: FAIL (" ∷ dec w.shown.fails ∷ codes " checks failed)\n" ∷ [])
        say (codes "done\n" ∷ [])
        pure (w.shown.fails == 0))
        w

  -- main behind `uart_init`, with `turns` for the loop on the transmitter.
  unfoldable pub main : Clock → ℕ → Option (Bool × World)
  unfolding control program assert_irq claim complete verdict
  main k turns =
      (do control k; program; ier_save ← assert_irq turns; claim k; complete k ier_save; verdict k)
        (record { log = []; shown = power_up })
