-- ===== src/Blk/Conforming.antt =====
-- What src/virtio-blk/blk.c relies on of a block device: it completes the one request that is
-- outstanding, as the virtio specification describes it.
use riscv_baremetal_demo.Base.{
  ℕ, zero, suc, ◌+◌, ◌%◌, ◌^◌, ◌≤◌, ◌<◌, bit_and, ◌≡◌, ap, ◌∙◌, ◌≢◌, Bool, true, false, ◌&&◌, List,
  [], arith, ◌==◌, if◌then◌else◌, length, get_or,
}
use riscv_baremetal_demo.Virtio.Queue.{Desc, no_desc, Cell, header, bytes, byte, Shared, put, poll}
use riscv_baremetal_demo.Blk.{blk_t_in, blk_t_out, blk_s_ok, virtq_desc_f_write, virtq_desc_f_next}

-- The bytes of a buffer.
abbrev pub contents : Cell → List ℕ
contents c = elim c [ header a b d ↦ [] | bytes bs ↦ bs | byte b ↦ [] ]

abbrev pub Disk : Type 0
Disk = ℕ → List ℕ

abbrev pub has_next : Desc → Bool
has_next d = if bit_and d.flags virtq_desc_f_next == 0 then false else true

abbrev pub is_writable : Desc → Bool
is_writable d = if bit_and d.flags virtq_desc_f_write == 0 then false else true

-- The memory and the disk after a request of type `ty` for a sector: OUT stores the buffer, IN
-- fills a buffer that the device may write, and both set the status byte.
unfoldable pub transferred : ℕ → ℕ → Desc → Desc → (ℕ → Cell) → Disk → (ℕ → Cell) × Disk
transferred ty sector d1 d2 mem disk =
    if ty == blk_t_out
    then (put d2.addr (byte blk_s_ok) mem, put sector (contents (mem d1.addr)) disk)
    else if ty == blk_t_in && is_writable d1
    then (put d2.addr (byte blk_s_ok) (put d1.addr (bytes (disk sector)) mem), disk)
    else (put d2.addr (byte 2) mem, disk)

-- Whether the three descriptors are the request that the virtio specification describes: a header
-- of 16 bytes to read, a buffer of one sector that is `room` bytes long, and a status byte to
-- write. A descriptor goes on at its `next` only with the NEXT flag.
unfoldable pub is_request : Desc → Desc → Desc → ℕ → Bool
is_request d0 d1 d2 room =
    (has_next d0 && (if is_writable d0 then false else true) && d0.len == 16)
    && (d2.len == 1 && is_writable d2 && (if has_next d2 then false else true))
    && (d1.len == 512 && has_next d1 && room == d1.len)

-- The same, from the chain that begins with a descriptor of the table. Another chain, or a buffer
-- of another length than its descriptor says, is not served.
unfoldable pub served : List Desc → ℕ → (ℕ → Cell) → Disk → (ℕ → Cell) × Disk
unfolding transferred is_request
served table head mem disk =
    let d0 = get_or table head no_desc in
    let d1 = get_or table d0.next no_desc in
    let d2 = get_or table d1.next no_desc in
    elim (mem d0.addr) [
      | header ty reserved sector ↦
          if is_request d0 d1 d2 (length (contents (mem d1.addr)))
          then transferred ty sector d1 d2 mem disk
          else (mem, disk)
      | bytes bs ↦ (mem, disk)
      | byte b ↦ (mem, disk)
    ]

module _ {D : Type 0} (step : D → Shared → D × Shared) where
  -- A number of steps of the device.
  unfoldable pub steps_on : ℕ → D × Shared → D × Shared
  steps_on zero s = s
  steps_on (suc n) s = steps_on n (step s.0 s.1)

  -- The device with the outstanding request: it says nothing for some steps, and then it has used
  -- the head of the request, after the transfer.
  pub record Serves (size polls : ℕ) (disk : D → Disk) (last : D → ℕ) (s : D × Shared)
      : Type 0 where
    pub steps : ℕ
    pub len : ℕ
    pub is_soon : steps ≤ polls
    pub is_quiet : (i : ℕ) → i < steps → (steps_on i s).1.used_idx ≡ s.1.used_idx
    pub is_used : (steps_on steps s).1.used_idx ≡ (s.1.used_idx + 1) % 2 ^ 16
    pub is_entry :
        get_or (steps_on steps s).1.used_ring (s.1.used_idx % size) (0, 0)
        ≡ (get_or s.1.avail_ring (s.1.used_idx % size) 0, len)
    pub is_short : len < 2 ^ 31
    pub is_last : last (steps_on steps s).0 ≡ s.1.avail_idx
    pub is_kept :
        ((steps_on steps s).1.desc ≡ s.1.desc)
        × ((steps_on steps s).1.avail_idx ≡ s.1.avail_idx)
        × ((steps_on steps s).1.avail_ring ≡ s.1.avail_ring)
        × (length (steps_on steps s).1.used_ring ≡ length s.1.used_ring)
    pub is_mem :
        (x : ℕ)
        → (steps_on steps s).1.mem x
          ≡ (served s.1.desc (get_or s.1.avail_ring (s.1.used_idx % size) 0) s.1.mem (disk s.0)).0 x
    pub is_disk :
        (x : ℕ)
        → disk (steps_on steps s).0 x
          ≡ (served s.1.desc (get_or s.1.avail_ring (s.1.used_idx % size) 0) s.1.mem (disk s.0)).1 x

  -- A device with a queue of `size` that serves one outstanding request within `polls` steps.
  -- `last` is how far it has read the available ring, `disk` what it stores.
  pub record Conforms (size polls : ℕ) (disk : D → Disk) (last : D → ℕ) : Type 0 where
    pub serves :
        (s : D × Shared)
        → s.1.used_idx ≡ last s.0
        → s.1.avail_idx ≡ (last s.0 + 1) % 2 ^ 16
        → size ≤ length s.1.used_ring
        → Serves size polls disk last s

  -- The polling finds the used entry.
  pub poll_lem :
      (n left seen : ℕ) (s : D × Shared)
      → n ≤ left
      → ((i : ℕ) → i < n → (steps_on i s).1.used_idx ≡ seen)
      → (steps_on n s).1.used_idx ≢ seen
      → poll step seen left s ≡ (true, (steps_on n s).0, (steps_on n s).1)
  unfolding poll steps_on
  poll_lem zero zero seen s small quiet used =
      let test : (s.1.used_idx == seen) ≡ false = ground (arith, used) in
      ap (λ b. (if b then false else true, s.0, s.1)) test
  poll_lem zero (suc left) seen s small quiet used =
      let test : (s.1.used_idx == seen) ≡ false = ground (arith, used) in
      ap (λ b. if b then poll step seen left (step s.0 s.1) else (true, s.0, s.1)) test
  poll_lem (suc n) zero seen s small quiet used = absurd (omega arith)
  poll_lem (suc n) (suc left) seen s small quiet used =
      let now = quiet 0 (omega arith) in
      let test : (s.1.used_idx == seen) ≡ true = ground (arith, now) in
      ap (λ b. if b then poll step seen left (step s.0 s.1) else (true, s.0, s.1)) test
      ∙ poll_lem n left seen (step s.0 s.1) (omega arith) (λ i h. quiet (suc i) (omega arith)) used
