-- ===== src/Virtio/Queue.antt =====
-- The split virtqueue of src/virtio-blk/virtio.c: descriptors, the kick and the polling of the used
-- ring. The device is a parameter: a step that it makes on the shared memory between two polls.
use riscv_baremetal_demo.Base.{
  ℕ, zero, suc, ◌+◌, ◌-◌, ◌*◌, ◌%◌, ◌^◌, Bool, true, false, List, [], ◌∷◌, ◌++◌, ltb, ◌==◌,
  if◌then◌else◌, get_or, set,
}
use riscv_baremetal_demo.Base.Text.{codes, joined}
use riscv_baremetal_demo.Uart.Text.{dec, hex}
use riscv_baremetal_demo.Virtio.Reg
use riscv_baremetal_demo.Virtio.{Device, Driver, reg_read, reg_write}

-- `struct vq_desc`
pub record Desc : Type 0 where
  pub addr : ℕ
  pub len : ℕ
  pub flags : ℕ
  pub next : ℕ

-- An object in memory that a descriptor points to: a request header, a buffer, or a status byte.
pub data Cell : Type 0 where
  header : ℕ → ℕ → ℕ → Cell
  bytes : List ℕ → Cell
  byte : ℕ → Cell

-- The memory that driver and device share: the queue of `qmem`, a used entry as its id and length,
-- and the objects at their addresses.
pub record Shared : Type 0 where
  pub desc : List Desc
  pub avail_idx : ℕ
  pub avail_ring : List ℕ
  pub used_idx : ℕ
  pub used_ring : List (ℕ × ℕ)
  pub mem : ℕ → Cell

abbrev pub no_desc : Desc
no_desc = record { addr = 0; len = 0; flags = 0; next = 0 }

abbrev pub put : {A : Type 0} → ℕ → A → (ℕ → A) → ℕ → A
put at v f x = if x == at then v else f x

-- A C `int`: a number, or minus one.
pub data Code : Type 0 where
  plus : ℕ → Code
  minus : ℕ → Code

-- `(int)len`
abbrev pub to_int : ℕ → Code
to_int len = if ltb len (2 ^ 31) then plus len else minus (2 ^ 32 - len)

-- The statics of virtio.c, the shared memory, and the device behind it.
pub record Host (D : Type 0) : Type 0 where
  pub driver : Driver
  pub shared : Shared
  pub used_seen : ℕ
  pub dev : D

module _ {D : Type 0} where
  unfoldable pub virtio_desc_set : ℕ → ℕ → ℕ → ℕ → ℕ → Host D → Host D
  virtio_desc_set i addr len flags next h =
      let entry : Desc = record { addr = addr; len = len; flags = flags; next = next } in
      record h { shared = record h.shared { desc = set h.shared.desc i entry } }

  -- Put the head into the available ring, move the index, and notify.
  unfoldable pub publish : ℕ → Host D → Host D
  publish head h = record h {
    shared = record h.shared {
      avail_ring = set h.shared.avail_ring (h.shared.avail_idx % h.driver.vq_size) head;
      avail_idx = (h.shared.avail_idx + 1) % 2 ^ 16;
    };
    driver = (reg_write h.driver.vdev_base Reg.queue_notify 0 h.driver).1;
  }

  -- The polls that are left after this one: whether the device has a used entry, and the state
  -- at the last poll.
  unfoldable pub poll : (D → Shared → D × Shared) → ℕ → ℕ → D × Shared → Bool × D × Shared
  poll step seen zero s = (if s.1.used_idx == seen then false else true, s.0, s.1)
  poll step seen (suc left) s =
      let later = poll step seen left (step s.0 s.1) in
      if s.1.used_idx == seen then later else (true, s.0, s.1)

  -- What is printed when the device never completed the request.
  unfoldable pub timed_out : Device → Host D → Code × Host D
  unfolding dec hex
  timed_out regs h =
      let (status, d1) = reg_read regs h.driver.vdev_base Reg.status h.driver in
      let (intr, d2) = reg_read regs h.driver.vdev_base Reg.int_status d1 in
      let text = joined (
        codes "virtio: kick timed out; device status "
        ∷ hex status
        ∷ codes ", intr status "
        ∷ hex intr
        ∷ codes ", used idx "
        ∷ dec h.shared.used_idx
        ∷ codes ", avail idx "
        ∷ dec h.shared.avail_idx
        ∷ codes "\n"
        ∷ []) in
      (minus 1, record h { driver = record d2 { printed = d2.printed ++ text } })

  -- Take the used entry that is next.
  unfoldable pub take_used : ℕ → Host D → Code × Host D
  take_used head h =
      let e = get_or h.shared.used_ring (h.used_seen % h.driver.vq_size) (0, 0) in
      (
        if e.0 == head then to_int e.1 else minus 2,
        record h { used_seen = (h.used_seen + 1) % 2 ^ 16 },
      )

  unfoldable pub after_poll : Device → ℕ → Host D → Bool × D × Shared → Code × Host D
  unfolding timed_out take_used
  after_poll regs head h (true, d, s) = take_used head (record h { dev = d; shared = s })
  after_poll regs head h (false, d, s) = timed_out regs (record h { dev = d; shared = s })

  -- `timeout` polls at most, 100000000 in the source.
  unfoldable pub virtio_kick_wait :
      Device → (D → Shared → D × Shared) → ℕ → ℕ → Host D → Code × Host D
  unfolding publish poll after_poll
  virtio_kick_wait regs step timeout head h =
      let h' = publish head h in
      after_poll regs head h' (poll step h'.used_seen (timeout - 1) (h'.dev, h'.shared))

  unfoldable pub virtio_config64 : Device → ℕ → Host D → ℕ × Host D
  virtio_config64 regs off h =
      let (lo, d1) = reg_read regs h.driver.vdev_base (Reg.config + off) h.driver in
      let (hi, d2) = reg_read regs h.driver.vdev_base (Reg.config + off + 4) d1 in
      (hi * 2 ^ 32 + lo, record h { driver = d2 })

  unfoldable pub virtio_mmio_base : Host D → ℕ
  virtio_mmio_base h = h.driver.vdev_base

abbrev pub poll_limit : ℕ
poll_limit = 100000000
