-- ===== src/Sv39/Bytes.antt =====
-- The bytes that main of src/sv39/sv39_main.c writes into its data page.
use riscv_baremetal_demo.Base.{
  ℕ, zero, suc, ◌+◌, ◌-◌, ◌*◌, ◌/◌, ◌%◌, ◌^◌, ◌≤◌, ◌<◌, ◌≡◌, refl, ap, ◌∙◌, true, arith, ◌==◌,
}
use riscv_baremetal_demo.Probe.{Passes}
use riscv_baremetal_demo.Sv39.{Mem, store, load_byte, store_byte, fill_page, page_checks}

module _ (page : ℕ) (aligned : page % 8 ≡ 0) where
  base_of : (i : ℕ) → i < 8 → (page + i) - (page + i) % 8 ≡ page
  base_of i few = omega arith

  lane_of : (i : ℕ) → i < 8 → (page + i) % 8 ≡ i
  lane_of i few = omega arith

  load_byte_at : (i : ℕ) (mem : Mem) → i < 8 → load_byte (page + i) mem ≡ mem page / 256 ^ i % 256
  unfolding load_byte
  load_byte_at i mem few = rw (base_of i few, lane_of i few) refl

  -- The doubleword behind a byte store.
  abbrev with_byte : ℕ → ℕ → ℕ → ℕ
  with_byte i b v = v - v / 256 ^ i % 256 * 256 ^ i + b * 256 ^ i

  store_byte_at :
      (i b : ℕ) (mem : Mem) → i < 8 → store_byte (page + i) b mem page ≡ with_byte i b (mem page)
  unfolding store_byte store load_byte
  store_byte_at i b mem few = rw (base_of i few, lane_of i few) (ground arith)

  filled : ℕ → ℕ → ℕ → ℕ
  filled zero i v = v
  filled (suc left) i v = filled left (i + 1) (with_byte i ((0xA5 + i) % 256) v)

  fill_page_at :
      (left i : ℕ) (mem : Mem)
      → i + left ≤ 8
      → fill_page left i page mem page ≡ filled left i (mem page)
  unfolding fill_page filled
  fill_page_at zero i mem few = refl
  fill_page_at (suc left) i mem few =
      fill_page_at left (i + 1) (store_byte (page + i) ((0xA5 + i) % 256) mem) (omega arith)
      ∙ ap (filled left (i + 1)) (store_byte_at i ((0xA5 + i) % 256) mem (omega arith))

  filled_word : fill_page 8 0 page (λ _. 0) page ≡ 0xACABAAA9A8A7A6A5
  unfolding filled
  filled_word = fill_page_at 8 0 (λ _. 0) (omega arith)

  pub page_checks-Passes : Passes (page_checks 8 0 page (fill_page 8 0 page (λ _. 0)))
  unfolding page_checks
  page_checks-Passes = (
    byte 0 _ (omega arith) refl,
    (
      byte 1 _ (omega arith) refl,
      (
        byte 2 _ (omega arith) refl,
        (
          byte 3 _ (omega arith) refl,
          (
            byte 4 _ (omega arith) refl,
            (
              byte 5 _ (omega arith) refl,
              (byte 6 _ (omega arith) refl, (byte 7 _ (omega arith) refl, tt)),
            ),
          ),
        ),
      ),
    ),
  )
    where
      byte :
          (i b : ℕ)
          → i < 8
          → 0xACABAAA9A8A7A6A5 / 256 ^ i % 256 ≡ b
          → (load_byte (page + i) (fill_page 8 0 page (λ _. 0)) == b) ≡ true
      byte i b few e =
          rw (load_byte_at i (fill_page 8 0 page (λ _. 0)) few, filled_word, e) (ground arith)
