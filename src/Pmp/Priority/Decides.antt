-- ===== src/Pmp/Priority/Decides.antt =====
-- What the entries of src/pmp-priority/pp_main.c allow, by the matching rules.
use riscv_baremetal_demo.Base.{
  ℕ, ◌-◌, ◌/◌, ◌%◌, ◌≡◌, refl, ◌&&◌, List, [], ◌∷◌, arith, if◌then◌else◌,
}
use riscv_baremetal_demo.Base.Bits.{power, low_mask}
use riscv_baremetal_demo.Pmp.Matching.{
  Kind, Entry, trailing_ones, napot_base, napot_size, within, matches, permission, s_mode_allows,
}
use riscv_baremetal_demo.Pmp.Napot.{napot_decodes}
use riscv_baremetal_demo.Pmp.Priority.{
  Config, Image, napot_enc, phase_a, phase_b, pmpaddr2_broad, broad_base, broad_top,
}

-- The entries that pmpcfg0 and the three address registers make up; byte 3 and all the others are
-- zero, which is OFF.
abbrev pub entries : Config → List Entry
entries c =
    record { cfg = c.cfg0 % 256; addr = c.addr0 }
    ∷ record { cfg = c.cfg0 / 256 % 256; addr = c.addr1 }
    ∷ record { cfg = c.cfg0 / 65536 % 256; addr = c.addr2 }
    ∷ []

-- The address register of the page decodes to the page.
page_base : (s : Image) → s.scratch_pa % 4096 ≡ 0 → napot_base (napot_enc s) ≡ s.scratch_pa
page_base s whole = (napot_decodes s.scratch_pa 0 whole refl).0.0

page_size_of : (s : Image) → s.scratch_pa % 4096 ≡ 0 → napot_size (napot_enc s) ≡ 4096
page_size_of s whole = (napot_decodes s.scratch_pa 0 whole refl).0.1

broad_base_of : napot_base pmpaddr2_broad ≡ broad_base
unfolding napot_base trailing_ones low_mask
broad_base_of = refl

broad_size_of : napot_size pmpaddr2_broad ≡ broad_top - broad_base
unfolding napot_size trailing_ones power
broad_size_of = refl

-- In phase A the entry that allows reading and writing decides on the page, and the broad entry on
-- the rest of its window.
pub phase_a_allows :
    (s : Image) (kind : Kind) (pa : ℕ)
    → s.scratch_pa % 4096 ≡ 0
    → s_mode_allows 0 (entries (phase_a s)) kind pa ≡ (
        if within s.scratch_pa 4096 pa
        then permission kind 0x1B
        else within broad_base (broad_top - broad_base) pa && permission kind 0x1F)
unfolding s_mode_allows matches
phase_a_allows s kind pa whole =
    rw (page_base s whole, page_size_of s whole, broad_base_of, broad_size_of) (ground arith)

-- In phase B the entry without permissions decides on the page.
pub phase_b_allows :
    (s : Image) (kind : Kind) (pa : ℕ)
    → s.scratch_pa % 4096 ≡ 0
    → s_mode_allows 0 (entries (phase_b s)) kind pa ≡ (
        if within s.scratch_pa 4096 pa
        then permission kind 0x18
        else within broad_base (broad_top - broad_base) pa && permission kind 0x1F)
unfolding s_mode_allows matches
phase_b_allows s kind pa whole =
    rw (page_base s whole, page_size_of s whole, broad_base_of, broad_size_of) (ground arith)
