-- ===== src/Uart/Input.antt =====
-- `uart_getc`: which byte a call returns, and when it returns at all.
use riscv_baremetal_demo.Base.{
  ℕ, ◌+◌, ◌<◌, bit_and, ◌≡◌, refl, inl, inr, none, List, [], ◌∷◌, arith, ◌==◌, Bool-cases,
}
use riscv_baremetal_demo.Uart.{
  Uart, ok, blocked, lsr_dr, lsr_thre, poll, uart_putc, transmit, uart_getc, wait_dr, read_rbr,
}
use riscv_baremetal_demo.Uart.Output.{ready, poll-some}

poll-none : (mask : ℕ) (vs : List ℕ) → ready mask vs ≡ 0 → poll mask vs ≡ none
unfolding poll ready
poll-none mask [] h = refl
poll-none mask (v ∷ vs) h = elim (Bool-cases (bit_and v mask == 0)) [
  | inl e ↦ rw e (poll-none mask vs (rw e at h))
  | inr e ↦ absurd (ground arith)
]

-- `uart_getc` returns the next byte of the receive buffer, unchanged, uses up exactly one status
-- reading that shows data, and sends nothing, if some coming reading shows data.
pub uart_getc-returns :
    (u : Uart) (c : ℕ) (cs : List ℕ)
    → 0 < ready lsr_dr u.lsr
    → u.rbr ≡ c ∷ cs
    → (v : Uart) × (uart_getc u ≡ ok c v)
      × (v.rbr ≡ cs)
      × (ready lsr_dr v.lsr + 1 ≡ ready lsr_dr u.lsr)
      × (v.sent ≡ u.sent)
      × (v.lcr ≡ u.lcr)
unfolding uart_getc wait_dr read_rbr
uart_getc-returns u c cs h e =
    let (rest, p, n) = poll-some lsr_dr u.lsr h in
    (record u { lsr = rest; rbr = cs }, ground arith, refl, n, refl, refl)

-- Neither side of the driver goes on without the device: `uart_getc` polls for ever if no coming
-- status reading shows data, whatever the receive buffer holds, and `uart_putc` if none shows an
-- empty transmitter.
pub uart-blocked :
    (u : Uart) (c : ℕ)
    → ready lsr_dr u.lsr ≡ 0
    → ready lsr_thre u.lsr ≡ 0
    → (uart_getc u ≡ blocked) × (uart_putc c u ≡ blocked)
unfolding uart_getc wait_dr uart_putc transmit
uart-blocked u c no_data not_empty = (
  ground (arith, poll-none lsr_dr u.lsr no_data),
  ground (arith, poll-none lsr_thre u.lsr not_empty),
)
