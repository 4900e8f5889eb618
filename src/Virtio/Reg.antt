-- ===== src/Virtio/Reg.antt =====
-- The virtio-mmio registers, as offsets: src/virtio-blk/virtio.h and the legacy ones of virtio.c.
use Prim.Native.Nat.{ℕ}

abbrev pub magic : ℕ
magic = 0x000

abbrev pub version : ℕ
version = 0x004

abbrev pub device_id : ℕ
device_id = 0x008

abbrev pub device_feat : ℕ
device_feat = 0x010

abbrev pub device_feat_s : ℕ
device_feat_s = 0x014

abbrev pub driver_feat : ℕ
driver_feat = 0x020

abbrev pub driver_feat_s : ℕ
driver_feat_s = 0x024

abbrev pub guest_page_size : ℕ
guest_page_size = 0x028

abbrev pub queue_sel : ℕ
queue_sel = 0x030

abbrev pub queue_max : ℕ
queue_max = 0x034

abbrev pub queue_num : ℕ
queue_num = 0x038

abbrev pub queue_align : ℕ
queue_align = 0x03c

abbrev pub queue_pfn : ℕ
queue_pfn = 0x040

abbrev pub queue_ready : ℕ
queue_ready = 0x044

abbrev pub queue_notify : ℕ
queue_notify = 0x050

abbrev pub int_status : ℕ
int_status = 0x060

abbrev pub status : ℕ
status = 0x070

abbrev pub qdesc_lo : ℕ
qdesc_lo = 0x080

abbrev pub qdesc_hi : ℕ
qdesc_hi = 0x084

abbrev pub qdrv_lo : ℕ
qdrv_lo = 0x090

abbrev pub qdrv_hi : ℕ
qdrv_hi = 0x094

abbrev pub qdev_lo : ℕ
qdev_lo = 0x0a0

abbrev pub qdev_hi : ℕ
qdev_hi = 0x0a4

abbrev pub config : ℕ
config = 0x100
