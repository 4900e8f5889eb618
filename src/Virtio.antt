-- ===== src/Virtio.antt =====
-- src/virtio-blk/virtio.c and virtio.h: the virtio-mmio transport up to DRIVER_OK. The device is a
-- parameter: it answers each register read from the history of accesses.
pub mod Reg
pub mod Layout
pub mod Discovery
pub mod Status
pub mod Queue
mod Tests
use riscv_baremetal_demo.Base.{
  ℕ, zero, suc, ◌+◌, ◌-◌, ◌*◌, ◌/◌, ◌%◌, ◌^◌, bit_and, bit_or, Bool, true, false, ◌&&◌, List, ◌∷◌,
  ◌++◌, ltb, ◌==◌, if◌then◌else◌, set,
}
use Reg
use riscv_baremetal_demo.Base.Text.{codes}
use riscv_baremetal_demo.Uart.Text.{dec, hex}

-- One access to the registers at an MMIO base: base, offset, value.
pub data Access : Type 0 where
  rd : ℕ → ℕ → ℕ → Access
  wr : ℕ → ℕ → ℕ → Access

-- What the machine answers to a read, after the accesses so far, the latest first.
abbrev pub Device : Type 0
Device = List Access → ℕ → ℕ → ℕ

-- The statics of virtio.c that bring-up sets (the queue pointers as offsets into `qmem`), the
-- accesses made, the latest first, and the text printed.
pub record Driver : Type 0 where
  pub log : List Access
  pub printed : List ℕ
  pub vdev_base : ℕ
  pub vq_size : ℕ
  pub avail_off : ℕ
  pub used_off : ℕ

abbrev pub M : Type 0 → Type 0
M A = Driver → A × Driver

infixl 4 ◌>>=◌ ◌>>◌
abbrev pub ◌>>=◌ : {Read Then : Type 0} → M Read → (Read → M Then) → M Then
◌>>=◌ first rest d = let (got, d') = first d in rest got d'

abbrev pub ◌>>◌ : {Then : Type 0} → M (Unit {0}) → M Then → M Then
◌>>◌ first rest d = rest (first d).1

abbrev pub pure : {A : Type 0} → A → M A
pure a d = (a, d)

abbrev pub say : List ℕ → M (Unit {0})
say s d = (tt, record d { printed = d.printed ++ s })

abbrev pub reg_write : ℕ → ℕ → ℕ → M (Unit {0})
reg_write base off v d = (tt, record d { log = wr base off v ∷ d.log })

abbrev pub mmio_base : ℕ
mmio_base = 0x10001000

abbrev pub mmio_stride : ℕ
mmio_stride = 0x1000

abbrev pub mmio_slots : ℕ
mmio_slots = 32

abbrev pub magic_value : ℕ
magic_value = 0x74726976

abbrev pub id_block : ℕ
id_block = 2

abbrev pub status_ack : ℕ
status_ack = 1

abbrev pub status_driver : ℕ
status_driver = 2

abbrev pub status_driver_ok : ℕ
status_driver_ok = 4

abbrev pub status_feat_ok : ℕ
status_feat_ok = 8

abbrev pub status_failed : ℕ
status_failed = 128

abbrev pub vq_num : ℕ
vq_num = 128

abbrev pub vq_align : ℕ
vq_align = 4096

-- `((uint64_t)16 * vq_size + 6 + 2 * vq_size + VQ_ALIGN - 1) & ~((uint64_t)VQ_ALIGN - 1)`
abbrev pub used_offset : ℕ → ℕ
used_offset n = (16 * n + 6 + 2 * n + vq_align - 1) / vq_align * vq_align

abbrev pub features_status : ℕ
features_status = bit_or (bit_or status_ack status_driver) status_feat_ok

yes_no : Bool → List ℕ
yes_no b = if b then codes "yes" else codes "NO"

module _ (dev : Device) where
  abbrev pub reg_read : ℕ → ℕ → M ℕ
  reg_read base off d = let v = dev d.log base off in (v, record d { log = rd base off v ∷ d.log })

  slot_line : ℕ → ℕ → ℕ → ℕ → List ℕ
  unfolding dec hex
  slot_line i base devid ver =
      codes "virtio: mmio slot "
      ++ (dec i
          ++ (codes " ("
              ++ (hex base
                  ++ (codes "): device id "
                      ++ (dec devid ++ (codes ", version " ++ (dec ver ++ codes "\n")))))))

  -- The scan from slot `i` on, with `left` slots to go. 0 is no device.
  pub find_from : ℕ → ℕ → M ℕ
  unfolding slot_line
  find_from zero i d = (0, d)
  find_from (suc left) i d =
      let base = mmio_base + i * mmio_stride in
      let (magic, d1) = reg_read base Reg.magic d in
      let (devid, d2) = reg_read base Reg.device_id d1 in
      let (ver, d3) = reg_read base Reg.version d2 in
      let (_, d4) = say (slot_line i base devid ver) d3 in
      let next = find_from left (i + 1) (if magic == magic_value then d4 else d1) in
      if magic == magic_value && devid == id_block then (base, d4) else next

  pub find_block_device : M ℕ
  find_block_device = find_from mmio_slots 0

  fail : ℕ → List ℕ → M (Unit {0})
  fail base msg = do
    say (codes "virtio: ")
    say msg
    say (codes "\n")
    reg_write base Reg.status status_failed

  -- `fail(...); return 0;`
  give_up : ℕ → List ℕ → M ℕ
  unfolding fail
  give_up base msg = do fail base msg; pure 0

  no_device : M ℕ
  no_device = do say (codes "virtio: no block device on the mmio bus\n"); pure 0

  -- The device status sequence, up to DRIVER.
  start_device : ℕ → M (Unit {0})
  start_device base = do
    reg_write base Reg.status 0
    reg_write base Reg.status status_ack
    reg_write base Reg.status (bit_or status_ack status_driver)

  -- Whether the 1.x interface is offered, and so chosen.
  negotiate : ℕ → M Bool
  unfolding hex
  negotiate base = do
    reg_write base Reg.device_feat_s 0
    feat_lo ← reg_read base Reg.device_feat
    reg_write base Reg.device_feat_s 1
    feat_hi ← reg_read base Reg.device_feat
    say (codes "virtio: device features lo=")
    say (hex feat_lo)
    say (codes " hi=")
    say (hex feat_hi)
    say (codes "\n")
    let modern = if bit_and feat_hi 1 == 0 then false else true
    say (codes "virtio: interface selected: ")
    say (if modern then codes "1.x (VIRTIO_F_VERSION_1)" else codes "legacy")
    say (codes "\n")
    reg_write base Reg.driver_feat_s 0
    reg_write base Reg.driver_feat 0
    reg_write base Reg.driver_feat_s 1
    reg_write base Reg.driver_feat (if modern then 1 else 0)
    pure modern

  -- The three addresses of the 1.x interface, or the page frame of the legacy one.
  hand_over : ℕ → ℕ → Bool → M (Unit {0})
  hand_over qmem base true d =
      (do
        reg_write base Reg.qdesc_lo (qmem % 2 ^ 32)
        reg_write base Reg.qdesc_hi (qmem / 2 ^ 32)
        reg_write base Reg.qdrv_lo ((qmem + d.avail_off) % 2 ^ 32)
        reg_write base Reg.qdrv_hi ((qmem + d.avail_off) / 2 ^ 32)
        reg_write base Reg.qdev_lo ((qmem + d.used_off) % 2 ^ 32)
        reg_write base Reg.qdev_hi ((qmem + d.used_off) / 2 ^ 32)
        reg_write base Reg.queue_ready 1)
        d
  hand_over qmem base false d =
      (do
        reg_write base Reg.guest_page_size vq_align
        reg_write base Reg.queue_align vq_align
        reg_write base Reg.queue_pfn (qmem / 2 ^ 12 % 2 ^ 32))
        d

  queue_lines : ℕ → ℕ → ℕ → ℕ → ℕ → List ℕ
  unfolding dec hex yes_no
  queue_lines qmem qmax size avail_off used_off =
      codes "virtio: queue max size "
      ++ (dec qmax
          ++ (codes ", using "
              ++ (dec size
                  ++ (codes "\nvirtio: desc table at "
                      ++ (hex qmem
                          ++ (codes " (16-byte aligned: "
                              ++ (yes_no (qmem % 16 == 0)
                                  ++ (codes "), avail at "
                                      ++ (hex (qmem + avail_off)
                                          ++ (codes ", used at "
                                              ++ (hex (qmem + used_off)
                                                  ++ (codes " ("
                                                      ++ (dec vq_align
                                                          ++ (codes "-byte aligned: "
                                                            ++ (yes_no
                                                            ((qmem + used_off) % vq_align == 0)
                                                            ++ codes ")\n")))))))))))))))

  -- The layout of the queue, for a size that the device and the driver both allow.
  set_layout : ℕ → M (Unit {0})
  set_layout qmax d =
      let size = if ltb qmax vq_num then qmax else vq_num in
      (tt, record d { vq_size = size; avail_off = 16 * size; used_off = used_offset size })

  get_driver : M Driver
  get_driver d = (d, d)

  set_up_queue : ℕ → ℕ → Bool → ℕ → M ℕ
  unfolding set_layout get_driver queue_lines hand_over hex
  set_up_queue qmem base modern qmax = do
    set_layout qmax
    d ← get_driver
    say (queue_lines qmem qmax d.vq_size d.avail_off d.used_off)
    reg_write base Reg.queue_num d.vq_size
    hand_over qmem base modern
    reg_write base Reg.status (bit_or features_status status_driver_ok)
    say (codes "virtio: device status now ")
    now ← reg_read base Reg.status
    say (hex now)
    say (codes " (DRIVER_OK set)\n")
    pure d.vq_size

  queue_phase : ℕ → ℕ → Bool → M ℕ
  unfolding give_up set_up_queue
  queue_phase qmem base modern = do
    say (codes "virtio: features accepted by device\n")
    reg_write base Reg.queue_sel 0
    qmax ← reg_read base Reg.queue_max
    if qmax == 0
        then give_up base (codes "queue 0 reports size 0")
        else set_up_queue qmem base modern qmax

  feature_phase : ℕ → ℕ → Bool → M ℕ
  unfolding give_up queue_phase
  feature_phase qmem base modern = do
    reg_write base Reg.status features_status
    now ← reg_read base Reg.status
    if bit_and now status_feat_ok == 0
        then give_up base (codes "device rejected the negotiated features")
        else queue_phase qmem base modern

  set_base : ℕ → M (Unit {0})
  set_base base d = (tt, record d { vdev_base = base })

  bring_up : ℕ → ℕ → M ℕ
  unfolding set_base start_device negotiate feature_phase
  bring_up qmem base = do
    set_base base
    start_device base
    modern ← negotiate base
    feature_phase qmem base modern

  -- The queue size in use, or 0 on failure. `qmem` is the address of the queue memory.
  pub virtio_init : ℕ → M ℕ
  unfolding find_block_device bring_up no_device
  virtio_init qmem = do
    base ← find_block_device
    if base == 0 then no_device else bring_up qmem base
