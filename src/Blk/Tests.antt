-- ===== src/Blk/Tests.antt =====
-- The block driver of src/virtio-blk against a small device.
use riscv_baremetal_demo.Base.{
  ℕ, zero, suc, ◌+◌, ◌%◌, ◌^◌, ◌≡◌, refl, true, List, [], ◌∷◌, ◌==◌, if◌then◌else◌, get_or, set,
  replicate,
}
use riscv_baremetal_demo.Virtio.{Device}
use riscv_baremetal_demo.Virtio.Queue.{no_desc, bytes, byte, Shared, minus, Host}
use riscv_baremetal_demo.Blk.{Place, blk_op}
use riscv_baremetal_demo.Blk.Timeout.{virtio_kick_wait-times_out}
use riscv_baremetal_demo.Virtio.Queue.{virtio_kick_wait, publish}
use riscv_baremetal_demo.Blk.Conforming.{Disk, served, steps_on}
use riscv_baremetal_demo.Blk.Main.{fnv1a, compare_from}

-- A device that stores its disk as a function, with how far it has read the available ring.
abbrev Small : Type 0
Small = ℕ × Disk

abbrev size : ℕ
size = 8

served_now : Small → Shared → Small × Shared
served_now d s =
    let head = get_or s.avail_ring (s.used_idx % size) 0 in
    let out = served s.desc head s.mem d.1 in
    (
      (s.avail_idx, out.1),
      record s {
        used_ring = set s.used_ring (s.used_idx % size) (head, 1);
        used_idx = (s.used_idx + 1) % 2 ^ 16;
        mem = out.0;
      },
    )

small_step : Small → Shared → Small × Shared
unfolding served_now
small_step d s = if s.avail_idx == (d.0 + 1) % 2 ^ 16 then served_now d s else (d, s)

-- 512 bytes.
sector_bytes : List ℕ
sector_bytes = 1 ∷ 2 ∷ 250 ∷ replicate 509 7

abbrev quiet_bus : Device
quiet_bus log base off = 0

abbrev at : Place
at = record { req = 10; status_byte = 11 }

abbrev a_host : Host Small
a_host = record {
  driver = record {
    log = [];
    printed = [];
    vdev_base = 0x10001000;
    vq_size = size;
    avail_off = 128;
    used_off = 4096;
  };
  shared = record {
    desc = replicate 8 no_desc;
    avail_idx = 65535;
    avail_ring = replicate 8 0;
    used_idx = 65535;
    used_ring = replicate 8 (0, 0);
    mem = λ a.
        if a == 20
        then bytes sector_bytes
        else if a == 30
        then bytes (replicate 512 0xaa)
        else byte 0;
  };
  used_seen = 65535;
  dev = (65535, λ x. []);
}

two_mismatches : compare_from 0 (1 ∷ 2 ∷ 3 ∷ 4 ∷ []) (1 ∷ 9 ∷ 3 ∷ 8 ∷ []) (0, 0) ≡ (2, 1)
unfolding compare_from
two_mismatches = refl

-- The published hash of the letter a.
hash_of_a : fnv1a (97 ∷ []) ≡ 0xe40c292c
unfolding fnv1a
hash_of_a = refl

-- A device that does nothing.
never_served : (blk_op quiet_bus (λ d s. (d, s)) 5 at 7 20 true a_host).0 ≡ minus 1
unfolding blk_op
never_served = refl

idle_steps : (i : ℕ) (s : Small × Shared) → (steps_on (λ d s. (d, s)) i s).1.used_idx ≡ s.1.used_idx
unfolding steps_on
idle_steps zero s = refl
idle_steps (suc i) s = idle_steps i s

virtio_kick_wait-times_out_example :
    let (r, h') = virtio_kick_wait quiet_bus (λ d s. (d, s)) (4 + 1) 0 a_host in
    (r ≡ minus 1)
    × (h'.used_seen ≡ a_host.used_seen)
    × (h'.shared
        ≡ (steps_on (λ d s. (d, s)) 4 ((publish 0 a_host).dev, (publish 0 a_host).shared)).1)
unfolding publish
virtio_kick_wait-times_out_example =
    virtio_kick_wait-times_out (λ d s. (d, s)) quiet_bus 4 0 a_host
      (λ i h. idle_steps i ((publish 0 a_host).dev, (publish 0 a_host).shared))
