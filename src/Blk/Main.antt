-- ===== src/Blk/Main.antt =====
-- src/virtio-blk/bmain.c: bring-up and the check of one sector.
use riscv_baremetal_demo.Base.{
  ℕ, zero, suc, ◌+◌, ◌*◌, ◌/◌, ◌%◌, ◌^◌, bit_xor, ◌&&◌, List, [], ◌∷◌, ◌++◌, ltb, ◌==◌,
  if◌then◌else◌, replicate,
}
use riscv_baremetal_demo.Base.Text.{codes, joined}
use riscv_baremetal_demo.Uart.Text.{dec, hex}
use riscv_baremetal_demo.Virtio.{Device, virtio_init}
use riscv_baremetal_demo.Virtio.Queue.{bytes, Shared, Code, plus, minus, Host, virtio_config64}
use riscv_baremetal_demo.Blk.{Place, blk_sector_size, blk_write, blk_read, set_mem}
use riscv_baremetal_demo.Blk.Conforming.{contents}

-- The loop of `fnv1a`, from a hash.
unfoldable fnv1a_from : ℕ → List ℕ → ℕ
fnv1a_from h [] = h
fnv1a_from h (b ∷ bs) = fnv1a_from (bit_xor h b * 16777619 % 2 ^ 32) bs

unfoldable pub fnv1a : List ℕ → ℕ
unfolding fnv1a_from
fnv1a bs = fnv1a_from 2166136261 bs

-- `(uint8_t)(i ^ (i >> 8) ^ 0x5a)`, for `left` bytes from index `i` on.
unfoldable pattern_from : ℕ → ℕ → List ℕ
pattern_from zero i = []
pattern_from (suc left) i = bit_xor (bit_xor i (i / 256)) 0x5a % 256 ∷ pattern_from left (i + 1)

unfoldable pub wbuf_pattern : List ℕ
unfolding pattern_from
wbuf_pattern = pattern_from blk_sector_size 0

-- The comparing loop from index `i` on, over the rest of `rbuf` and `wbuf`: `mismatches` and
-- `first_bad`.
unfoldable pub compare_from : ℕ → List ℕ → List ℕ → ℕ × ℕ → ℕ × ℕ
compare_from i [] ws counts = counts
compare_from i (r ∷ rs) [] counts = counts
compare_from i (r ∷ rs) (w ∷ ws) (mismatches, first_bad) = compare_from (i + 1) rs ws (
    if r == w
    then (mismatches, first_bad)
    else (mismatches + 1, if mismatches == 0 then i else first_bad))

-- `rc < 0 ? -rc : rc`
unfoldable magnitude : Code → ℕ
magnitude (plus n) = n
magnitude (minus n) = n

unfoldable status_note : Code → List ℕ
status_note (plus n) = codes " (device status OK)"
status_note (minus n) = codes " (transport error)"

unfoldable mismatch_note : ℕ × ℕ → List ℕ
unfolding dec
mismatch_note (mismatches, first_bad) =
    if ltb 0 mismatches
    then joined (codes " (first at offset " ∷ dec first_bad ∷ codes ")" ∷ [])
    else []

module _ {D : Type 0} (regs : Device) (step : D → Shared → D × Shared) (timeout : ℕ) (at : Place)
    (wbuf rbuf : ℕ) where
  abbrev print : List ℕ → Host D → Host D
  print text h = record h { driver = record h.driver { printed = h.driver.printed ++ text } }

  -- The lines on the buffer that was read, and the exit status.
  unfoldable pub conclude : ℕ → List ℕ → List ℕ → Host D → ℕ × Host D
  unfolding fnv1a compare_from mismatch_note dec hex
  conclude wsum rs ws h =
      let rsum = fnv1a rs in
      let counts = compare_from 0 rs ws (0, 0) in
      let h' =
        print
          (joined (
            codes "virtio-blk: read checksum 0x"
            ∷ hex rsum
            ∷ codes ", byte mismatches "
            ∷ dec counts.0
            ∷ mismatch_note counts
            ∷ codes "\n\n"
            ∷ []))
          h in
      if counts.0 == 0 && rsum == wsum
      then (
        0,
        print (codes "virtio-blk: halting.\n")
            (print (codes "RESULT: PASS (512/512 bytes round-tripped through sector 0)\n") h'),
      )
      else (1, print (codes "RESULT: FAIL\n") h')

  unfoldable show_capacity : Host D → Host D
  unfolding virtio_config64 dec
  show_capacity h =
      let (capacity, h') = virtio_config64 regs 0 h in
      print
        (joined (
          codes "virtio-blk: device capacity "
          ∷ dec capacity
          ∷ codes " sectors ("
          ∷ dec (capacity / 2048)
          ∷ codes " MiB)\n\n"
          ∷ []))
        h'

  unfoldable pub write_line : ℕ → Code × Host D → Host D
  unfolding magnitude status_note dec hex
  write_line wsum (rc, h) =
      print
        (joined (
          codes "virtio-blk: write sector 0 -> rc="
          ∷ dec (magnitude rc)
          ∷ status_note rc
          ∷ codes ", pattern checksum 0x"
          ∷ hex wsum
          ∷ codes "\n"
          ∷ []))
        h

  unfoldable pub read_line : Code × Host D → Host D
  unfolding magnitude status_note dec
  read_line (rc, h) =
      print
        (joined (
          codes "virtio-blk: read  sector 0 -> rc="
          ∷ dec (magnitude rc)
          ∷ status_note rc
          ∷ codes "\n"
          ∷ []))
        h

  -- Write the pattern, poison the read buffer, read, and compare.
  unfoldable pub check_sector : List ℕ → Host D → ℕ × Host D
  unfolding blk_write blk_read write_line read_line conclude fnv1a
  check_sector ws h =
      let wsum = fnv1a ws in
      let filled = set_mem regs step timeout at wbuf (bytes ws) h in
      let written = write_line wsum (blk_write regs step timeout at 0 wbuf filled) in
      let poisoned =
        set_mem regs step timeout at rbuf (bytes (replicate blk_sector_size 0xaa)) written in
      let was_read = read_line (blk_read regs step timeout at 0 rbuf poisoned) in
      conclude wsum (contents (was_read.shared.mem rbuf)) (contents (was_read.shared.mem wbuf))
        was_read

  abbrev banner : List ℕ
  banner =
      codes "========================================\n"
      ++ (codes "virtio-blk demo: block driver, sector write/read\n"
          ++ codes "========================================\n\n")

  -- The exit status of `main`, with the queue memory at `qmem`.
  unfoldable pub main : ℕ → Host D → ℕ × Host D
  unfolding show_capacity check_sector wbuf_pattern
  main qmem h =
      let greeted = print banner h in
      let (size, driver) = virtio_init regs qmem greeted.driver in
      let up = record greeted { driver = driver } in
      if size == 0
      then (1, print (codes "virtio-blk: init failed, halting.\n") up)
      else check_sector wbuf_pattern (show_capacity up)
