-- ===== src/Blk/Timeout.antt =====
-- The timeout of `virtio_kick_wait` in src/virtio-blk/virtio.c.
use riscv_baremetal_demo.Base.{
  ℕ, zero, suc, ◌+◌, ◌-◌, ◌≤◌, ◌≡◌, refl, sym, ap, ◌∙◌, true, false, arith, ◌==◌, if◌then◌else◌,
}
use mathlib.Core.Path.{subst}
use riscv_baremetal_demo.Virtio.{Device}
use riscv_baremetal_demo.Virtio.Queue.{
  Shared, Code, minus, Host, publish, poll, after_poll, timed_out, virtio_kick_wait,
}
use riscv_baremetal_demo.Blk.Conforming.{steps_on}

module _ {D : Type 0} (step : D → Shared → D × Shared) where
  -- The polling of a device that uses nothing.
  poll_never :
      (left seen : ℕ) (s : D × Shared)
      → ((i : ℕ) → i ≤ left → (steps_on step i s).1.used_idx ≡ seen)
      → poll step seen left s ≡ (false, (steps_on step left s).0, (steps_on step left s).1)
  unfolding poll steps_on
  poll_never zero seen s quiet =
      let now = quiet 0 (omega arith) in
      let test : (s.1.used_idx == seen) ≡ true = ground (arith, now) in
      ap (λ b. (if b then false else true, s.0, s.1)) test
  poll_never (suc left) seen s quiet =
      let now = quiet 0 (omega arith) in
      let test : (s.1.used_idx == seen) ≡ true = ground (arith, now) in
      ap (λ b. if b then poll step seen left (step s.0 s.1) else (true, s.0, s.1)) test
      ∙ poll_never left seen (step s.0 s.1) (λ i h. quiet (suc i) (omega arith))

  -- If the device uses nothing at any of the `left + 1` polls, `virtio_kick_wait` returns -1 after
  -- the last of them. The request stays in the available ring, as the device left the shared
  -- memory, and `used_seen` is where it was.
  pub virtio_kick_wait-times_out :
      (regs : Device) (left head : ℕ) (h : Host D)
      → ((i : ℕ)
          → i ≤ left
          → (steps_on step i ((publish head h).dev, (publish head h).shared)).1.used_idx
            ≡ h.used_seen)
      → let (r, h') = virtio_kick_wait regs step (left + 1) head h in
        (r ≡ minus 1)
        × (h'.used_seen ≡ h.used_seen)
        × (h'.shared ≡ (steps_on step left ((publish head h).dev, (publish head h).shared)).1)
  unfolding virtio_kick_wait after_poll timed_out publish
  virtio_kick_wait-times_out regs left head h quiet =
      let asked = publish head h in
      let turns : left + 1 - 1 ≡ left = omega arith in
      let polled =
        ap (λ n. poll step h.used_seen n (asked.dev, asked.shared)) turns
        ∙ poll_never left h.used_seen (asked.dev, asked.shared) quiet in
      let after = steps_on step left (asked.dev, asked.shared) in
      subst
        (λ (o : Code × Host D).
          (o.0 ≡ minus 1) × (o.1.used_seen ≡ h.used_seen) × (o.1.shared ≡ after.1))
        (sym (ap (after_poll regs head asked) polled)) (refl, refl, refl)
