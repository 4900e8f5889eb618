-- ===== src/Virtio/Tests.antt =====
-- Bring-up against a small machine: a block device in the second slot.
use riscv_baremetal_demo.Base.{
  ℕ, ◌+◌, ◌-◌, ◌*◌, ◌/◌, ◌%◌, ◌≤◌, ◌≡◌, refl, ap, Option, [], arith, ◌==◌, if◌then◌else◌,
}
use riscv_baremetal_demo.Virtio.Reg
use riscv_baremetal_demo.Virtio.{
  Device, Driver, find_from, find_block_device, virtio_init, magic_value, id_block, mmio_base,
  mmio_stride, mmio_slots, vq_align,
}
use riscv_baremetal_demo.Virtio.Discovery.{Answers, base_of, IsFirst, find_block_device-IsFirst}
use riscv_baremetal_demo.Virtio.Layout.{qmem_size, virtio_init-layout}

abbrev magic_of : ℕ → ℕ
magic_of i = magic_value

abbrev id_of : ℕ → ℕ
id_of i = if i == 1 then id_block else 0

abbrev slot_of : ℕ → ℕ
slot_of base = (base - mmio_base) / mmio_stride

-- A legacy device with a queue of 64 that keeps every status.
abbrev small_bus : Device
small_bus log base off =
    if off == Reg.magic
    then magic_value
    else if off == Reg.device_id
    then id_of (slot_of base)
    else if off == Reg.status
    then 15
    else if off == Reg.queue_max
    then 64
    else 0

abbrev power_up : Driver
power_up = record {
  log = [];
  printed = [];
  vdev_base = 0;
  vq_size = 0;
  avail_off = 0;
  used_off = 0;
}

slot_of_base : (i : ℕ) → slot_of (mmio_base + i * mmio_stride) ≡ i
slot_of_base i = omega arith

small_bus-Answers : Answers small_bus magic_of id_of
small_bus-Answers = record { magics = λ log i. refl; ids = λ log i. ap id_of (slot_of_base i) }

find_block_device-IsFirst_example :
    (o : Option ℕ) × ((find_block_device small_bus power_up).0 ≡ base_of o)
    × IsFirst magic_of id_of mmio_slots 0 o
find_block_device-IsFirst_example =
    find_block_device-IsFirst magic_of id_of small_bus small_bus-Answers power_up

abbrev brought_up : Driver
brought_up = (virtio_init small_bus 0x80020000 power_up).1

brought_up_size : (virtio_init small_bus 0x80020000 power_up).0 ≡ 64
unfolding virtio_init find_from
brought_up_size = refl

virtio_init-layout_example :
    (16 * 64 ≤ brought_up.avail_off)
    × (brought_up.avail_off + (4 + 2 * 64 + 2) ≤ brought_up.used_off)
    × (brought_up.used_off + (4 + 8 * 64 + 2) ≤ qmem_size)
    × ((0x80020000 + brought_up.used_off) % vq_align ≡ 0)
    × ((0x80020000 + brought_up.avail_off) % 2 ≡ 0)
virtio_init-layout_example =
    virtio_init-layout small_bus 0x80020000 64 power_up brought_up refl refl
      (ap (λ n. (n, brought_up)) brought_up_size) (omega arith)
