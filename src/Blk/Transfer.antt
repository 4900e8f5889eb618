-- ===== src/Blk/Transfer.antt =====
-- Reads and writes of src/virtio-blk/blk.c against a device that conforms.
use riscv_baremetal_demo.Base.{
  Bool-cases, inl, inr, ℕ, ◌+◌, ◌-◌, ◌%◌, ◌^◌, ◌<◌, bit_or, ◌≡◌, refl, sym, ap, ap₂, ◌∙◌, ◌≢◌, Bool,
  true, false, arith, ltb, ◌==◌, if◌then◌else◌, length, get_or, set, length-set, get_or-set_self,
}
use riscv_baremetal_demo.Virtio.{Device}
use riscv_baremetal_demo.Virtio.Queue.{
  Cell, header, bytes, byte, Shared, put, Code, plus, minus, Host, virtio_desc_set, publish, poll,
  after_poll, take_used, virtio_kick_wait,
}
use riscv_baremetal_demo.Blk.{
  blk_t_in, blk_t_out, Place, fill_request, chain, verdict, blk_op, blk_write, blk_read, status_of,
}
use riscv_baremetal_demo.Blk.Conforming.{
  contents, Disk, transferred, served, steps_on, Serves, Conforms, poll_lem, has_next,
}
use riscv_baremetal_demo.Blk.Chain.{put_self, put_ne, Idle, Apart, second_desc, served_lem}

module _ {D : Type 0} (regs : Device) (step : D → Shared → D × Shared) (timeout : ℕ) (at : Place)
    (size polls : ℕ) (disk : D → Disk) (last : D → ℕ)
    (conforms : Conforms step size polls disk last) (patient : polls < timeout) where
  module _ (sector buffer : ℕ) (write : Bool) (h : Host D) (idle : Idle size last h)
      (apart : Apart at buffer) (whole : length (contents (h.shared.mem buffer)) ≡ 512) where
    -- The state in which the device is notified.
    asked : Host D
    unfolding fill_request chain publish
    asked =
        publish 0 (
          chain regs step timeout at buffer write
            (fill_request regs step timeout at sector write h))

    small_slot : h.shared.used_idx % size < length h.shared.avail_ring
    small_slot =
        let pos = idle.is_positive in
        let room = idle.has_ring in
        let m : h.shared.used_idx % size < size = omega arith in omega arith

    head_lem : get_or asked.shared.avail_ring (asked.shared.used_idx % size) 0 ≡ 0
    unfolding asked publish chain virtio_desc_set fill_request
    head_lem =
        ap₂ (λ i n. get_or (set h.shared.avail_ring (i % n) 0) (h.shared.used_idx % size) 0)
          idle.is_avail idle.is_size
        ∙ get_or-set_self h.shared.avail_ring (h.shared.used_idx % size) 0 0 small_slot

    serving : Serves step size polls disk last (asked.dev, asked.shared)
    unfolding asked publish chain virtio_desc_set fill_request
    serving =
        conforms.serves (asked.dev, asked.shared) idle.is_last
          (ap (λ n. (n + 1) % 2 ^ 16) (idle.is_avail ∙ idle.is_last)) idle.has_used

    answer : D × Shared
    answer = steps_on step serving.steps (asked.dev, asked.shared)

    done : Host D
    unfolding answer
    done = record asked {
      dev = answer.0;
      shared = answer.1;
      used_seen = (asked.used_seen + 1) % 2 ^ 16;
    }

    seen_lem : asked.used_seen ≡ asked.shared.used_idx
    unfolding asked publish chain virtio_desc_set fill_request
    seen_lem = idle.is_seen

    size_lem : asked.driver.vq_size ≡ size
    unfolding asked publish chain virtio_desc_set fill_request
    size_lem = idle.is_size

    small_lem : asked.shared.used_idx < 2 ^ 16
    unfolding asked publish chain virtio_desc_set fill_request
    small_lem = idle.is_small

    polled :
        poll step asked.used_seen (timeout - 1) (asked.dev, asked.shared)
        ≡ (true, answer.0, answer.1)
    unfolding answer
    polled =
        poll_lem step serving.steps (timeout - 1) asked.used_seen (asked.dev, asked.shared)
          (omega (arith, serving.is_soon)) (λ i q. serving.is_quiet i q ∙ sym seen_lem)
          (let used = serving.is_used in omega (arith, used, small_lem, seen_lem))

    entry_lem :
        get_or answer.1.used_ring (asked.used_seen % asked.driver.vq_size) (0, 0) ≡ (0, serving.len)
    unfolding answer
    entry_lem =
        ap₂ (λ i n. get_or answer.1.used_ring (i % n) (0, 0)) seen_lem size_lem
        ∙ serving.is_entry
        ∙ ap (λ head. (head, serving.len)) head_lem

    short_lem : ltb serving.len (2 ^ 31) ≡ true
    short_lem = ground (arith, serving.is_short)

    kick_lem : after_poll regs 0 asked (true, answer.0, answer.1) ≡ (plus serving.len, done)
    unfolding after_poll take_used done
    kick_lem =
        ap
          (λ (e : ℕ × ℕ). (
            if e.0 == 0
                then if ltb e.1 (2 ^ 31) then plus e.1 else minus (2 ^ 32 - e.1)
                else minus 2,
            done,
          ))
          entry_lem
        ∙ ap (λ b. (if b then plus serving.len else minus (2 ^ 32 - serving.len), done)) short_lem

    blk_op_lem : blk_op regs step timeout at sector buffer write h ≡ (
      verdict regs step timeout at (plus serving.len) (status_of (done.shared.mem at.status_byte)),
      done,
    )
    unfolding blk_op virtio_kick_wait asked
    blk_op_lem =
        ap
          (λ (r : Code × Host D).
            (verdict regs step timeout at r.0 (status_of (r.1.shared.mem at.status_byte)), r.1))
          (ap (after_poll regs 0 asked) polled ∙ kick_lem)

    flags : ℕ
    flags = bit_or 1 (if write then 0 else 2)

    type_of : ℕ
    type_of = if write then blk_t_out else blk_t_in

    -- The memory that the device finds.
    before : ℕ → Cell
    unfolding type_of
    before = put at.status_byte (byte 255) (put at.req (header type_of 0 sector) h.shared.mem)

    expected : (ℕ → Cell) × Disk
    unfolding transferred before flags type_of
    expected =
        transferred type_of sector (second_desc buffer flags)
          (record { addr = at.status_byte; len = 1; flags = 2; next = 0 }) before (disk h.dev)

    header_lem : before at.req ≡ header type_of 0 sector
    unfolding before
    header_lem =
        put_ne at.status_byte at.req (byte 255) (put at.req (header type_of 0 sector) h.shared.mem)
          apart.is_req
        ∙ put_self at.req (header type_of 0 sector) h.shared.mem

    -- Everything else in the memory is as it was.
    before_lem : (x : ℕ) → x ≢ at.req → x ≢ at.status_byte → before x ≡ h.shared.mem x
    unfolding before
    before_lem x nr ns =
        put_ne at.status_byte x (byte 255) (put at.req (header type_of 0 sector) h.shared.mem) ns
        ∙ put_ne at.req x (header type_of 0 sector) h.shared.mem nr

    goes_on : has_next (second_desc buffer flags) ≡ true
    unfolding flags
    goes_on = elim (Bool-cases write) [ inl out ↦ rw out refl | inr in_ ↦ rw in_ refl ]

    whole_lem : length (contents (before buffer)) ≡ 512
    whole_lem =
        ap (λ (c : Cell). length (contents c))
          (before_lem buffer apart.is_buffer.0 apart.is_buffer.1)
        ∙ whole

    served-expected :
        served asked.shared.desc
          (get_or asked.shared.avail_ring (asked.shared.used_idx % size) 0)
          asked.shared.mem
          (disk asked.dev)
        ≡ expected
    unfolding expected asked publish chain virtio_desc_set fill_request
    served-expected =
        ap (λ head. served asked.shared.desc head asked.shared.mem (disk asked.dev)) head_lem
        ∙ served_lem h.shared.desc at.req buffer at.status_byte flags type_of sector before
            (disk h.dev) idle.has_table header_lem goes_on whole_lem

    mem_lem : (x : ℕ) → done.shared.mem x ≡ expected.0 x
    unfolding done answer
    mem_lem x = serving.is_mem x ∙ ap (λ (r : (ℕ → Cell) × Disk). r.0 x) served-expected

    disk_lem : (x : ℕ) → disk done.dev x ≡ expected.1 x
    unfolding done answer
    disk_lem x = serving.is_disk x ∙ ap (λ (r : (ℕ → Cell) × Disk). r.1 x) served-expected

    ring_lem : length asked.shared.avail_ring ≡ length h.shared.avail_ring
    unfolding asked publish chain virtio_desc_set fill_request
    ring_lem = length-set h.shared.avail_ring (h.shared.avail_idx % h.driver.vq_size) 0

    table_lem : length asked.shared.desc ≡ length h.shared.desc
    unfolding asked publish chain virtio_desc_set fill_request
    table_lem =
        length-set (set (set h.shared.desc 0 _) 1 _) 2 _
        ∙ length-set (set h.shared.desc 0 _) 1 _
        ∙ length-set h.shared.desc 0 _

    used_lem : length asked.shared.used_ring ≡ length h.shared.used_ring
    unfolding asked publish chain virtio_desc_set fill_request
    used_lem = refl

    avail_lem : asked.shared.avail_idx ≡ (asked.shared.used_idx + 1) % 2 ^ 16
    unfolding asked publish chain virtio_desc_set fill_request
    avail_lem = ap (λ n. (n + 1) % 2 ^ 16) idle.is_avail

    done-Idle : Idle size last done
    unfolding done answer
    done-Idle =
        let (k1, k2, k3, k4) = serving.is_kept in
        record {
          is_size = size_lem;
          is_positive = idle.is_positive;
          has_ring = let r = idle.has_ring in let k = ap length k3 in omega (arith, r, k, ring_lem);
          has_used = let r = idle.has_used in omega (arith, r, k4, used_lem);
          has_table =
              let r = idle.has_table in let k = ap length k1 in omega (arith, r, k, table_lem);
          is_seen = ap (λ n. (n + 1) % 2 ^ 16) seen_lem ∙ sym serving.is_used;
          is_avail = k2 ∙ avail_lem ∙ sym serving.is_used;
          is_last = serving.is_used ∙ sym avail_lem ∙ sym serving.is_last;
          is_small = let used = serving.is_used in omega (arith, used);
        }

  pub record Written (sector buffer : ℕ) (h : Host D) (out : Code × Host D) : Type 0 where
    pub is_ok : out.0 ≡ plus 0
    pub is_idle : Idle size last out.1
    pub is_sector : disk out.1.dev sector ≡ contents (h.shared.mem buffer)
    pub is_other : (x : ℕ) → x ≢ sector → disk out.1.dev x ≡ disk h.dev x
    pub is_mem : (x : ℕ) → x ≢ at.req → x ≢ at.status_byte → out.1.shared.mem x ≡ h.shared.mem x

  pub record Read (sector buffer : ℕ) (h : Host D) (out : Code × Host D) : Type 0 where
    pub is_ok : out.0 ≡ plus 0
    pub is_idle : Idle size last out.1
    pub is_buffer : out.1.shared.mem buffer ≡ bytes (disk h.dev sector)
    pub is_disk : (x : ℕ) → disk out.1.dev x ≡ disk h.dev x
    pub is_mem :
        (x : ℕ) → x ≢ at.req → x ≢ at.status_byte → x ≢ buffer → out.1.shared.mem x ≡ h.shared.mem x

  module _ (sector buffer : ℕ) (h : Host D) (idle : Idle size last h) (apart : Apart at buffer)
      (whole : length (contents (h.shared.mem buffer)) ≡ 512) where
    ok_lem :
        (write : Bool)
        → (expected sector buffer write h idle apart whole).0 at.status_byte ≡ byte 0
        → verdict regs step timeout at
            (plus (serving sector buffer write h idle apart whole).len)
            (status_of ((done sector buffer write h idle apart whole).shared.mem at.status_byte))
          ≡ plus 0
    unfolding verdict
    ok_lem write e =
        ap (λ (c : Cell). if status_of c == 0 then plus 0 else plus (100 + status_of c))
          (mem_lem sector buffer write h idle apart whole at.status_byte ∙ e)

    -- With a device that conforms and is served within the timeout, `blk_write` of a buffer of 512
    -- bytes from a state with nothing outstanding returns 0. Then the sector holds the buffer, no
    -- other sector and nothing in memory but the header and the status byte has changed, and
    -- nothing is outstanding.
    pub blk_write-Written : Written sector buffer h (blk_write regs step timeout at sector buffer h)
    unfolding blk_write expected type_of transferred
    blk_write-Written = rw (blk_op_lem sector buffer true h idle apart whole) (record {
      is_ok =
          ok_lem true
            (put_self at.status_byte (byte 0) (before sector buffer true h idle apart whole));
      is_idle = done-Idle sector buffer true h idle apart whole;
      is_sector =
          disk_lem sector buffer true h idle apart whole sector
          ∙ put_self sector _ (disk h.dev)
          ∙ ap contents (
              before_lem sector buffer true h idle apart whole buffer apart.is_buffer.0
                apart.is_buffer.1);
      is_other = λ x ne.
          disk_lem sector buffer true h idle apart whole x ∙ put_ne sector x _ (disk h.dev) ne;
      is_mem = λ x nr ns.
          mem_lem sector buffer true h idle apart whole x
          ∙ put_ne at.status_byte x (byte 0) (before sector buffer true h idle apart whole) ns
          ∙ before_lem sector buffer true h idle apart whole x nr ns;
    })

    -- Under the same conditions `blk_read` returns 0. Then the buffer holds the sector, and the
    -- disk and everything in memory but the buffer, the header and the status byte are as they
    -- were.
    pub blk_read-Read : Read sector buffer h (blk_read regs step timeout at sector buffer h)
    unfolding blk_read expected type_of flags transferred
    blk_read-Read = rw (blk_op_lem sector buffer false h idle apart whole) (record {
      is_ok = ok_lem false (
          put_self at.status_byte (byte 0) (
            put buffer (bytes (disk h.dev sector))
              (before sector buffer false h idle apart whole)));
      is_idle = done-Idle sector buffer false h idle apart whole;
      is_buffer =
          mem_lem sector buffer false h idle apart whole buffer
          ∙ put_ne at.status_byte buffer (byte 0)
              (put buffer (bytes (disk h.dev sector))
                (before sector buffer false h idle apart whole))
              apart.is_buffer.1
          ∙ put_self buffer (bytes (disk h.dev sector))
              (before sector buffer false h idle apart whole);
      is_disk = λ x. disk_lem sector buffer false h idle apart whole x;
      is_mem = λ x nr ns nb.
          mem_lem sector buffer false h idle apart whole x
          ∙ put_ne at.status_byte x (byte 0)
              (put buffer (bytes (disk h.dev sector))
                (before sector buffer false h idle apart whole))
              ns
          ∙ put_ne buffer x (bytes (disk h.dev sector))
              (before sector buffer false h idle apart whole) nb
          ∙ before_lem sector buffer false h idle apart whole x nr ns;
    })
