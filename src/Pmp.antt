-- ===== src/Pmp.antt =====
-- Physical memory protection: the NAPOT encodings of src/pmp-napot-encode, src/pmp-napot-size and
-- src/pmp-priority, with the matching rules that the privileged specification gives.
use riscv_baremetal_demo.Base.{ℕ, ◌/◌, bit_or}
pub mod Matching
pub mod Napot
pub mod Priority
mod Tests

-- `(base >> 2) | field`
unfoldable pub pmpaddr_of : ℕ → ℕ → ℕ
pmpaddr_of base field = bit_or (base / 4) field

abbrev pub napot_size_4k : ℕ
napot_size_4k = 0x1FF

abbrev pub napot_size_64k : ℕ
napot_size_64k = 0x1FFF

abbrev pub napot_pat_4k : ℕ
napot_pat_4k = 0x200009ff

abbrev pub napot_pat_64k : ℕ
napot_pat_64k = 0x20101fff

abbrev pub napot_pat_1m : ℕ
napot_pat_1m = 0x2201ffff
