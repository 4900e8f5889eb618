-- ===== src/Blk/Chain.antt =====
-- The state between two requests of src/virtio-blk/blk.c, and a chain as the device reads it.
use riscv_baremetal_demo.Base.{
  ℕ, ◌^◌, ◌≤◌, ◌<◌, ◌≡◌, refl, ap, ◌∙◌, ◌≢◌, true, false, List, [], ◌∷◌, arith, ◌==◌, if◌then◌else◌,
  length, set,
}
use riscv_baremetal_demo.Virtio.Queue.{Desc, Cell, header, bytes, byte, put, Host}
use riscv_baremetal_demo.Blk.{Place}
use riscv_baremetal_demo.Blk.Conforming.{Disk, transferred, served, contents, has_next, is_request}

pub put_self : {A : Type 0} (a : ℕ) (v : A) (f : ℕ → A) → put a v f a ≡ v
put_self a v f = let test : (a == a) ≡ true = ground arith in ap (λ b. if b then v else f a) test

pub put_ne : {A : Type 0} (a x : ℕ) (v : A) (f : ℕ → A) → x ≢ a → put a v f x ≡ f x
put_ne a x v f ne =
    let test : (x == a) ≡ false = ground (arith, ne) in ap (λ b. if b then v else f x) test

-- Nothing is outstanding between driver and device.
pub record Idle {D : Type 0} (size : ℕ) (last : D → ℕ) (h : Host D) : Type 0 where
  pub is_size : h.driver.vq_size ≡ size
  pub is_positive : 1 ≤ size
  pub has_ring : size ≤ length h.shared.avail_ring
  pub has_used : size ≤ length h.shared.used_ring
  pub has_table : 3 ≤ length h.shared.desc
  pub is_seen : h.used_seen ≡ h.shared.used_idx
  pub is_avail : h.shared.avail_idx ≡ h.shared.used_idx
  pub is_last : h.shared.used_idx ≡ last h.dev
  pub is_small : h.shared.used_idx < 2 ^ 16

-- The buffer, the header and the status byte are three objects.
pub record Apart (at : Place) (buffer : ℕ) : Type 0 where
  pub is_req : at.req ≢ at.status_byte
  pub is_buffer : (buffer ≢ at.req) × (buffer ≢ at.status_byte)

abbrev pub first_desc : ℕ → Desc
first_desc at = record { addr = at; len = 16; flags = 1; next = 1 }

abbrev pub second_desc : ℕ → ℕ → Desc
second_desc at flags = record { addr = at; len = 512; flags = flags; next = 2 }

abbrev pub third_desc : ℕ → Desc
third_desc at = record { addr = at; len = 1; flags = 2; next = 0 }

request_lem :
    (req buffer status flags room : ℕ)
    → has_next (second_desc buffer flags) ≡ true
    → room ≡ 512
    → is_request (first_desc req) (second_desc buffer flags) (third_desc status) room ≡ true
unfolding is_request
request_lem req buffer status flags room goes_on whole = rw (goes_on, whole) refl

-- The chain of a request, as the device reads it.
pub served_lem :
    (table : List Desc) (req buffer status flags ty sector : ℕ) (mem : ℕ → Cell) (disk : Disk)
    → 3 ≤ length table
    → mem req ≡ header ty 0 sector
    → has_next (second_desc buffer flags) ≡ true
    → length (contents (mem buffer)) ≡ 512
    → served
        (set
          (set (set table 0 (first_desc req)) 1 (second_desc buffer flags))
          2
          (third_desc status))
        0
        mem
        disk
      ≡ transferred ty sector (second_desc buffer flags) (third_desc status) mem disk
unfolding served
served_lem [] req buffer status flags ty sector mem disk h e goes_on whole = absurd (omega arith)
served_lem (x ∷ []) req buffer status flags ty sector mem disk h e goes_on whole =
    absurd (omega arith)
served_lem (x ∷ y ∷ []) req buffer status flags ty sector mem disk h e goes_on whole =
    absurd (omega arith)
served_lem (x ∷ y ∷ z ∷ table) req buffer status flags ty sector mem disk h e goes_on whole =
    ap
      (λ cell. elim cell as (λ _. (ℕ → Cell) × Disk) [
        | header ty reserved sector ↦
            if is_request (first_desc req) (second_desc buffer flags) (third_desc status)
              (length (contents (mem buffer)))
            then transferred ty sector (second_desc buffer flags) (third_desc status) mem disk
            else (mem, disk)
        | bytes bs ↦ (mem, disk)
        | byte b ↦ (mem, disk)
      ])
      e
    ∙ ap
        (λ b.
          if b
          then transferred ty sector (second_desc buffer flags) (third_desc status) mem disk
          else (mem, disk))
        (request_lem req buffer status flags (length (contents (mem buffer))) goes_on whole)
