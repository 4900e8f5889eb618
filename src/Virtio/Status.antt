-- ===== src/Virtio/Status.antt =====
-- The device status protocol of `virtio_init`.
use riscv_baremetal_demo.Base.{
  ℕ, zero, suc, ◌+◌, ◌*◌, ◌≤◌, ◌/◌, ◌%◌, ◌^◌, ◌||◌, bit_and, ◌≡◌, refl, sym, ap, ap₂, ◌∙◌, ◌≢◌, inl,
  inr, Bool, true, false, List, [], ◌∷◌, ◌++◌, arith, ◌==◌, if◌then◌else◌, Bool-cases,
}
use Prim.Native.Nat.{min}
use riscv_baremetal_demo.Base.Text.{codes}
use riscv_baremetal_demo.Virtio.Reg
use riscv_baremetal_demo.Virtio.{
  Access, rd, wr, Device, Driver, find_from, find_block_device, give_up, no_device, start_device,
  negotiate, features_status, status_feat_ok, set_up_queue, queue_phase, feature_phase, set_base,
  bring_up, virtio_init, vq_num, used_offset, mmio_base, mmio_stride, magic_value, id_block,
  mmio_slots,
}

-- Whether a read belongs to the protocol: the scan of the bus reads other registers.
abbrev is_told : ℕ → Bool
is_told r = r == Reg.status || r == Reg.device_feat || r == Reg.queue_max

-- The accesses of the protocol, the latest first: all writes, and the reads of the status, of the
-- device features and of the maximal queue size.
unfoldable pub trace : List Access → List Access
trace [] = []
trace (wr base r v ∷ log) = wr base r v ∷ trace log
trace (rd base r v ∷ log) = let rest = trace log in if is_told r then rd base r v ∷ rest else rest

-- The protocol of the virtio specification, the latest access first. The accesses up to the
-- features: a reset, ACKNOWLEDGE, DRIVER, both words of the device features, and both words of the
-- driver's. Bit 0 of word 1 is VERSION_1; it is accepted exactly if it was offered.
abbrev pub negotiated : ℕ → ℕ → ℕ → List Access
negotiated base hi lo =
    wr base 0x020 (if bit_and hi 1 == 0 then 0 else 1)
    ∷ wr base 0x024 1
    ∷ wr base 0x020 0
    ∷ wr base 0x024 0
    ∷ rd base 0x010 hi
    ∷ wr base 0x014 1
    ∷ rd base 0x010 lo
    ∷ wr base 0x014 0
    ∷ wr base 0x070 3
    ∷ wr base 0x070 1
    ∷ wr base 0x070 0
    ∷ []

-- Then FEATURES_OK, and what the device makes of it.
abbrev pub accepted : ℕ → ℕ → ℕ → ℕ → List Access
accepted base hi lo now = rd base 0x070 now ∷ wr base 0x070 11 ∷ negotiated base hi lo

-- Then the selection of queue 0, and its maximal size.
abbrev pub selected : ℕ → ℕ → ℕ → ℕ → ℕ → List Access
selected base hi lo now qmax = rd base 0x034 qmax ∷ wr base 0x030 0 ∷ accepted base hi lo now

-- Then its size `n`, and where it stands in memory: three addresses in two words each, or the page
-- frame of a device without VERSION_1.
abbrev pub placed : Bool → ℕ → ℕ → ℕ → ℕ → ℕ → List Access → List Access
placed true base qmem avail used n before =
    wr base 0x044 1
    ∷ wr base 0x0a4 ((qmem + used) / 2 ^ 32)
    ∷ wr base 0x0a0 ((qmem + used) % 2 ^ 32)
    ∷ wr base 0x094 ((qmem + avail) / 2 ^ 32)
    ∷ wr base 0x090 ((qmem + avail) % 2 ^ 32)
    ∷ wr base 0x084 (qmem / 2 ^ 32)
    ∷ wr base 0x080 (qmem % 2 ^ 32)
    ∷ wr base 0x038 n
    ∷ before
placed false base qmem avail used n before =
    wr base 0x040 (qmem / 2 ^ 12 % 2 ^ 32)
    ∷ wr base 0x03c 4096
    ∷ wr base 0x028 4096
    ∷ wr base 0x038 n
    ∷ before

-- How `virtio_init` ends, from the address of the queue memory, what it returns, the state that it
-- leaves, and the trace.
pub data Ends (qmem n : ℕ) (d : Driver) (t : List Access) : Type 0 where
  absent : n ≡ 0 → t ≡ [] → Ends qmem n d t
  refused :
      (base hi lo now : ℕ)
      → n ≡ 0
      → bit_and now status_feat_ok ≡ 0
      → t ≡ wr base 0x070 128 ∷ accepted base hi lo now
      → Ends qmem n d t
  no_queue :
      (base hi lo now : ℕ)
      → n ≡ 0
      → (bit_and now status_feat_ok ≢ 0)
      → t ≡ wr base 0x070 128 ∷ selected base hi lo now 0
      → Ends qmem n d t
  running :
      (base hi lo now qmax last : ℕ)
      → (bit_and now status_feat_ok ≢ 0)
      → n ≡ min qmax vq_num
      → 1 ≤ n
      → d.vq_size ≡ n
      → (d.avail_off ≡ 16 * n) × (d.used_off ≡ used_offset n)
      → t
        ≡ rd base 0x070 last
          ∷ wr base 0x070 15
          ∷ placed
              (if bit_and hi 1 == 0 then false else true)
              base
              qmem
              d.avail_off
              d.used_off
              n
              (selected base hi lo now qmax)
      → Ends qmem n d t

-- The value of the latest access.
abbrev latest : List Access → ℕ
latest [] = 0
latest (rd base r v ∷ log) = v
latest (wr base r v ∷ log) = v

module _ (dev : Device) (qmem base : ℕ) where
  set_up_queue-Ends :
      (modern : Bool) (qmax hi lo now : ℕ) (d : Driver)
      → qmax ≢ 0
      → bit_and now status_feat_ok ≢ 0
      → modern ≡ (if bit_and hi 1 == 0 then false else true)
      → trace d.log ≡ selected base hi lo now qmax
      → let (n, d') = set_up_queue dev qmem base modern qmax d in Ends qmem n d' (trace d'.log)
  unfolding set_up_queue trace
  set_up_queue-Ends true qmax hi lo now d nz ok chosen t =
      running base hi lo now qmax (latest after.log) ok (ground arith) (ground arith) refl
        (refl, refl) (rw (sym chosen) (ap then_placed t))
    where
      after : Driver
      after = (set_up_queue dev qmem base true qmax d).1

      then_placed : List Access → List Access
      then_placed before =
          rd base 0x070 (latest after.log)
          ∷ wr base 0x070 15
          ∷ placed true base qmem after.avail_off after.used_off after.vq_size before
  set_up_queue-Ends false qmax hi lo now d nz ok chosen t =
      running base hi lo now qmax (latest after.log) ok (ground arith) (ground arith) refl
        (refl, refl) (rw (sym chosen) (ap then_placed t))
    where
      after : Driver
      after = (set_up_queue dev qmem base false qmax d).1

      then_placed : List Access → List Access
      then_placed before =
          rd base 0x070 (latest after.log)
          ∷ wr base 0x070 15
          ∷ placed false base qmem after.avail_off after.used_off after.vq_size before

  queue_phase-Ends :
      (modern : Bool) (hi lo now : ℕ) (d : Driver)
      → bit_and now status_feat_ok ≢ 0
      → modern ≡ (if bit_and hi 1 == 0 then false else true)
      → trace d.log ≡ accepted base hi lo now
      → let (n, d') = queue_phase dev qmem base modern d in Ends qmem n d' (trace d'.log)
  unfolding queue_phase give_up trace
  queue_phase-Ends modern hi lo now d ok chosen t = elim (Bool-cases (qmax == 0)) [
    | inl none_there ↦ rw none_there (
        no_queue base hi lo now refl ok (
          ap₂ (λ (q : ℕ) s. wr base 0x070 128 ∷ rd base 0x034 q ∷ wr base 0x030 0 ∷ s)
            (ground arith) t))
    | inr some_there ↦ rw some_there (
        set_up_queue-Ends modern qmax hi lo now asked (ground arith) ok chosen
          (ap (λ s. rd base 0x034 qmax ∷ wr base 0x030 0 ∷ s) t))
  ]
    where
      qmax : ℕ
      qmax = dev (wr base Reg.queue_sel 0 ∷ d.log) base Reg.queue_max

      asked : Driver
      asked = record d {
        log = rd base Reg.queue_max qmax ∷ wr base Reg.queue_sel 0 ∷ d.log;
        printed = d.printed ++ codes "virtio: features accepted by device\n";
      }

  feature_phase-Ends :
      (modern : Bool) (hi lo : ℕ) (d : Driver)
      → modern ≡ (if bit_and hi 1 == 0 then false else true)
      → trace d.log ≡ negotiated base hi lo
      → let (n, d') = feature_phase dev qmem base modern d in Ends qmem n d' (trace d'.log)
  unfolding feature_phase give_up trace
  feature_phase-Ends modern hi lo d chosen t = elim (Bool-cases (bit_and now status_feat_ok == 0)) [
    | inl bad ↦ rw bad (
        refused base hi lo now refl (ground arith)
          (ap (λ s. wr base 0x070 128 ∷ rd base 0x070 now ∷ wr base 0x070 11 ∷ s) t))
    | inr good ↦ rw good (
        queue_phase-Ends modern hi lo now asked (ground arith) chosen
          (ap (λ s. rd base 0x070 now ∷ wr base 0x070 11 ∷ s) t))
  ]
    where
      now : ℕ
      now = dev (wr base Reg.status features_status ∷ d.log) base Reg.status

      asked : Driver
      asked = record d { log = rd base Reg.status now ∷ wr base Reg.status features_status ∷ d.log }

  modern_bit :
      (b : Bool) → ◌≡◌ {A = ℕ} (if (if b then false else true) then 1 else 0) (if b then 0 else 1)
  modern_bit true = refl
  modern_bit false = refl

  negotiate-trace :
      (d : Driver)
      → trace d.log ≡ []
      → let (modern, d') = negotiate dev base (start_device dev base (set_base dev base d).1).1 in
        (hi : ℕ) × (lo : ℕ) × (modern ≡ (if bit_and hi 1 == 0 then false else true))
        × (trace d'.log ≡ negotiated base hi lo)
  unfolding set_base start_device negotiate trace
  negotiate-trace d t = (
    hi,
    lo,
    refl,
    ap₂
        (λ (bit : ℕ) s.
          wr base 0x020 bit
          ∷ wr base 0x024 1
          ∷ wr base 0x020 0
          ∷ wr base 0x024 0
          ∷ rd base 0x010 hi
          ∷ wr base 0x014 1
          ∷ rd base 0x010 lo
          ∷ wr base 0x014 0
          ∷ wr base 0x070 3
          ∷ wr base 0x070 1
          ∷ wr base 0x070 0
          ∷ s)
        (modern_bit (bit_and hi 1 == 0)) t,
  )
    where
      asked : List Access
      asked =
          wr base Reg.device_feat_s 0
          ∷ wr base Reg.status 3
          ∷ wr base Reg.status 1
          ∷ wr base Reg.status 0
          ∷ d.log

      lo : ℕ
      lo = dev asked base Reg.device_feat

      hi : ℕ
      hi =
          dev (wr base Reg.device_feat_s 1 ∷ rd base Reg.device_feat lo ∷ asked) base
            Reg.device_feat

  bring_up_lem :
      (d : Driver)
      → bring_up dev qmem base d ≡ (
          let (modern, d') = negotiate dev base (start_device dev base (set_base dev base d).1).1 in
          feature_phase dev qmem base modern d')
  unfolding bring_up
  bring_up_lem d = refl

  bring_up-Ends :
      (d : Driver)
      → trace d.log ≡ []
      → let (n, d') = bring_up dev qmem base d in Ends qmem n d' (trace d'.log)
  bring_up-Ends d t =
      let (hi, lo, chosen, e) = negotiate-trace d t in
      rw (bring_up_lem d) (feature_phase-Ends _ hi lo _ chosen e)

-- The scan leaves no trace in the registers of the protocol.
find_from-trace :
    (dev : Device) (left i : ℕ) (d : Driver) → trace (find_from dev left i d).1.log ≡ trace d.log
unfolding find_from trace
find_from-trace dev zero i d = refl
find_from-trace dev (suc left) i d = elim (Bool-cases (magic == magic_value)) [
  | inl right_magic ↦ elim (Bool-cases (devid == id_block)) [
    | inl block ↦ rw (right_magic, block) refl
    | inr other ↦ rw (right_magic, other) (find_from-trace dev left (i + 1) _)
  ]
  | inr wrong_magic ↦ rw wrong_magic (find_from-trace dev left (i + 1) _)
]
  where
    base : ℕ
    base = mmio_base + i * mmio_stride

    magic : ℕ
    magic = dev d.log base Reg.magic

    devid : ℕ
    devid = dev (rd base Reg.magic magic ∷ d.log) base Reg.device_id

pub virtio_init-Ends :
    (dev : Device) (qmem : ℕ) (d : Driver)
    → d.log ≡ []
    → let (n, d') = virtio_init dev qmem d in Ends qmem n d' (trace d'.log)
unfolding virtio_init no_device trace
virtio_init-Ends dev qmem d fresh = elim (Bool-cases (base == 0)) [
  | inl nothing ↦ rw nothing (absent refl quiet)
  | inr found ↦ rw found (bring_up-Ends dev qmem base after quiet)
]
  where
    base : ℕ
    base = (find_block_device dev d).0

    after : Driver
    after = (find_block_device dev d).1

    quiet : trace after.log ≡ []
    quiet = find_from-trace dev mmio_slots 0 d ∙ ap trace fresh
