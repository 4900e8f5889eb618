-- ===== src/Sv39/Walk.antt =====
-- The translation that the privileged specification defines for Sv39, as an independent
-- description of the hardware: src/sv39/sv39_main.c builds tables for it. Entries are read by
-- division, not by the masks of the source. Accesses are made in S-mode, with SUM and MXR clear
-- and with A and D bits that are not set by hardware.
use riscv_baremetal_demo.Base.{
  ℕ, zero, suc, ◌+◌, ◌-◌, ◌*◌, ◌/◌, ◌%◌, ◌^◌, Bool, ◌&&◌, ◌||◌, ltb, leb, ◌==◌, if◌then◌else◌,
}

-- A physical address, or a page fault at the level where the walk ends, or one for an address
-- whose upper bits are no sign extension.
pub data Translation : Type 0 where
  resolves : ℕ → Translation
  dies : ℕ → Translation
  not_canonical : Translation

-- The bytes that a leaf at a level covers.
abbrev pub span : ℕ → ℕ
span zero = 0x1000
span (suc zero) = 0x200000
span (suc (suc n)) = 0x40000000

abbrev pub vpn : ℕ → ℕ → ℕ
vpn level va = va / span level % 512

abbrev pub entry_page : ℕ → ℕ
entry_page e = e / 1024 % 2 ^ 44

abbrev pub is_valid : ℕ → Bool
is_valid e = (e % 2 == 1) && ((e / 2 % 2 == 1) || (e / 4 % 2 == 0))

abbrev pub is_leaf : ℕ → Bool
is_leaf e = (e / 2 % 2 == 1) || (e / 8 % 2 == 1)

-- Read or write permission, no user page, accessed, and dirty for a write.
abbrev permits : Bool → ℕ → Bool
permits write e =
    (if write then (e / 4 % 2 == 1) && (e / 128 % 2 == 1) else e / 2 % 2 == 1)
    && ((e / 16 % 2 == 0) && (e / 64 % 2 == 1))

unfoldable pub leaf : Bool → ℕ → ℕ → ℕ → Translation
leaf write va level e =
    if permits write e && (entry_page e * 4096 % span level == 0)
    then resolves (entry_page e * 4096 + va % span level)
    else dies level

-- The lookup at a level; the next level's lookup is an argument.
unfoldable pub visit : Bool → ℕ → ℕ → ℕ → (ℕ → Translation) → Translation
unfolding leaf
visit write va level e below =
    if is_valid e
    then if is_leaf e then leaf write va level e else below (entry_page e * 4096)
    else dies level

unfoldable pub walk_from : (ℕ → ℕ) → Bool → ℕ → ℕ → ℕ → Translation
unfolding visit
walk_from mem write va zero table =
    visit write va zero (mem (table + vpn zero va * 8)) (λ _. dies zero)
walk_from mem write va (suc level) table =
    visit write va (suc level) (mem (table + vpn (suc level) va * 8)) (walk_from mem write va level)

abbrev pub is_canonical : ℕ → Bool
is_canonical va = ltb va (2 ^ 38) || leb (2 ^ 64 - 2 ^ 38) va

unfoldable pub walk : (ℕ → ℕ) → ℕ → Bool → ℕ → Translation
unfolding walk_from
walk mem root_page write va =
    if is_canonical va then walk_from mem write va 2 (root_page * 4096) else not_canonical
