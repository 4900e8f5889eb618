-- ===== src/Blk.antt =====
-- src/virtio-blk/blk.c: block requests as chains of three descriptors.
pub mod Conforming
pub mod Chain
pub mod Transfer
pub mod Timeout
pub mod Main
pub mod Check
mod Tests
use riscv_baremetal_demo.Base.{ℕ, ◌+◌, bit_or, Bool, true, false, ◌==◌, if◌then◌else◌}
use riscv_baremetal_demo.Virtio.{Device}
use riscv_baremetal_demo.Virtio.Queue.{
  Desc, Cell, header, bytes, byte, Shared, put, Code, plus, minus, Host, virtio_desc_set,
  virtio_kick_wait,
}

abbrev pub blk_t_in : ℕ
blk_t_in = 0

abbrev pub blk_t_out : ℕ
blk_t_out = 1

abbrev pub blk_s_ok : ℕ
blk_s_ok = 0

abbrev pub blk_sector_size : ℕ
blk_sector_size = 512

abbrev pub virtq_desc_f_next : ℕ
virtq_desc_f_next = 1

abbrev pub virtq_desc_f_write : ℕ
virtq_desc_f_write = 2

abbrev pub status_of : Cell → ℕ
status_of c = elim c [ header a b d ↦ 0 | bytes bs ↦ 0 | byte b ↦ b ]

-- Where the linker put `req` and `status_byte`.
pub record Place : Type 0 where
  pub req : ℕ
  pub status_byte : ℕ

module _ {D : Type 0} (regs : Device) (step : D → Shared → D × Shared) (timeout : ℕ)
    (at : Place) where
  abbrev pub set_mem : ℕ → Cell → Host D → Host D
  set_mem a c h = record h { shared = record h.shared { mem = put a c h.shared.mem } }

  -- The header, and the status byte poisoned.
  unfoldable pub fill_request : ℕ → Bool → Host D → Host D
  fill_request sector write h =
      set_mem at.status_byte (byte 0xff)
        (set_mem at.req (header (if write then blk_t_out else blk_t_in) 0 sector) h)

  -- The three descriptors.
  unfoldable pub chain : ℕ → Bool → Host D → Host D
  unfolding virtio_desc_set
  chain buffer write h = virtio_desc_set 2 at.status_byte 1 virtq_desc_f_write 0 (
      virtio_desc_set 1 buffer blk_sector_size
        (bit_or virtq_desc_f_next (if write then 0 else virtq_desc_f_write)) 2
        (virtio_desc_set 0 at.req 16 virtq_desc_f_next 1 h))

  -- The return value, from that of `virtio_kick_wait` and the status byte.
  unfoldable pub verdict : Code → ℕ → Code
  verdict (minus n) status = minus n
  verdict (plus n) status = if status == blk_s_ok then plus 0 else plus (100 + status)

  -- `buffer` is the address of the buffer.
  unfoldable pub blk_op : ℕ → ℕ → Bool → Host D → Code × Host D
  unfolding fill_request chain virtio_kick_wait verdict
  blk_op sector buffer write h =
      let (r, h') =
        virtio_kick_wait regs step timeout 0 (chain buffer write (fill_request sector write h)) in
      (verdict r (status_of (h'.shared.mem at.status_byte)), h')

  unfoldable pub blk_write : ℕ → ℕ → Host D → Code × Host D
  unfolding blk_op
  blk_write sector buffer h = blk_op sector buffer true h

  unfoldable pub blk_read : ℕ → ℕ → Host D → Code × Host D
  unfolding blk_op
  blk_read sector buffer h = blk_op sector buffer false h
