-- ===== src/Virtio/Layout.antt =====
-- The queue memory of virtio.c: where its three parts lie.
use riscv_baremetal_demo.Base.{ℕ, ◌+◌, ◌*◌, ◌%◌, ◌≤◌, ◌≡◌, List, [], arith}
use mathlib.Core.Path.{subst}
use riscv_baremetal_demo.Virtio.{Access, vq_num, vq_align, used_offset, Device, Driver, virtio_init}
use riscv_baremetal_demo.Virtio.Status.{
  trace, Ends, absent, refused, no_queue, running, virtio_init-Ends,
}

-- `QMEM_SIZE`
abbrev pub qmem_size : ℕ
qmem_size = vq_align + 8 * vq_num + 8

-- The arithmetic for every queue size that the driver can choose.
layout_fits :
    (qmem n : ℕ)
    → qmem % vq_align ≡ 0
    → 1 ≤ n
    → n ≤ vq_num
    → (16 * n + (4 + 2 * n + 2) ≤ used_offset n)
      × (used_offset n + (4 + 8 * n + 2) ≤ qmem_size)
      × ((qmem + used_offset n) % vq_align ≡ 0)
      × ((qmem + 16 * n) % 2 ≡ 0)
layout_fits qmem n aligned pos small = omega arith

layout_of :
    (qmem : ℕ) {n : ℕ} {d : Driver} {t : List Access}
    → qmem % vq_align ≡ 0
    → Ends qmem n d t
    → 1 ≤ n
    → (16 * n ≤ d.avail_off)
      × (d.avail_off + (4 + 2 * n + 2) ≤ d.used_off)
      × (d.used_off + (4 + 8 * n + 2) ≤ qmem_size)
      × ((qmem + d.used_off) % vq_align ≡ 0)
      × ((qmem + d.avail_off) % 2 ≡ 0)
layout_of qmem aligned (absent e _) pos = absurd (omega arith)
layout_of qmem aligned (refused _ _ _ _ e _ _) pos = absurd (omega arith)
layout_of qmem aligned (no_queue _ _ _ _ e _ _) pos = absurd (omega arith)
layout_of qmem {n} aligned (running _ _ _ _ _ _ _ size _ _ offs _) pos =
    let small : n ≤ vq_num = omega arith in
    let fits = layout_fits qmem n aligned pos small in
    rw (offs.0, offs.1) (omega arith, fits.0, fits.1, fits.2, fits.3)

-- The queue that `virtio_init` sets up, for any device and with `qmem` on a page boundary: the
-- descriptor table of 16-byte entries, the available ring with its flags, index, entries and event
-- field, and the used ring with its 8-byte entries follow one another without overlap, and the
-- last ends inside the queue memory; the used ring begins on a page boundary, the available ring
-- on an even address.
pub virtio_init-layout :
    (dev : Device) (qmem n : ℕ) (d d' : Driver)
    → d.log ≡ []
    → qmem % vq_align ≡ 0
    → virtio_init dev qmem d ≡ (n, d')
    → 1 ≤ n
    → (16 * n ≤ d'.avail_off)
      × (d'.avail_off + (4 + 2 * n + 2) ≤ d'.used_off)
      × (d'.used_off + (4 + 8 * n + 2) ≤ qmem_size)
      × ((qmem + d'.used_off) % vq_align ≡ 0)
      × ((qmem + d'.avail_off) % 2 ≡ 0)
virtio_init-layout dev qmem n d d' fresh aligned e pos =
    let ends = virtio_init-Ends dev qmem d fresh in
    layout_of qmem aligned (subst (λ (r : ℕ × Driver). Ends qmem r.0 r.1 (trace r.1.log)) e ends)
      pos
