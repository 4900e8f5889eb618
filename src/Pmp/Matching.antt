-- ===== src/Pmp/Matching.antt =====
-- How the privileged specification matches an access of one byte against the PMP entries, as an
-- independent description of the hardware that the demos under src/pmp-* program.
use riscv_baremetal_demo.Base.{
  ℕ, zero, suc, ◌+◌, ◌-◌, ◌*◌, ◌/◌, ◌%◌, Bool, true, false, ◌&&◌, List, [], ◌∷◌, ltb, leb, ◌==◌,
  if◌then◌else◌,
}
use riscv_baremetal_demo.Base.Bits.{power, low_mask}

pub data Kind : Type 0 where
  reads writes fetches : Kind

-- A configuration byte and an address register.
pub record Entry : Type 0 where
  pub cfg : ℕ
  pub addr : ℕ

-- The ones at the low end of an address register, for at most that many digits.
unfoldable pub trailing_ones : ℕ → ℕ → ℕ
trailing_ones zero a = 0
trailing_ones (suc f) a = let more = suc (trailing_ones f (a / 2)) in if a % 2 == 1 then more else 0

-- An address register has 54 digits.
abbrev pub ones : ℕ → ℕ
ones a = trailing_ones 54 a

unfoldable pub napot_base : ℕ → ℕ
napot_base a = (a - low_mask (ones a)) * 4

unfoldable pub napot_size : ℕ → ℕ
napot_size a = power (ones a) * 8

abbrev pub within : ℕ → ℕ → ℕ → Bool
within base size pa = leb base pa && ltb pa (base + size)

-- Whether an entry matches; the address register below it is the bottom of a TOR range.
unfoldable pub matches : ℕ → Entry → ℕ → Bool
unfolding napot_base napot_size
matches below e pa =
    let mode = e.cfg / 8 % 4 in
    if mode == 0
    then false
    else if mode == 1
    then leb (below * 4) pa && ltb pa (e.addr * 4)
    else if mode == 2
    then within (e.addr * 4) 4 pa
    else within (napot_base e.addr) (napot_size e.addr) pa

abbrev pub permission : Kind → ℕ → Bool
permission reads cfg = cfg % 2 == 1
permission writes cfg = cfg / 2 % 2 == 1
permission fetches cfg = cfg / 4 % 2 == 1

-- The lowest-numbered matching entry decides. Without a match S-mode fails.
unfoldable pub s_mode_allows : ℕ → List Entry → Kind → ℕ → Bool
unfolding matches
s_mode_allows below [] kind pa = false
s_mode_allows below (e ∷ es) kind pa =
    let later = s_mode_allows e.addr es kind pa in
    if matches below e pa then permission kind e.cfg else later

-- M-mode is bound by locked entries, and succeeds without a match.
unfoldable pub m_mode_allows : ℕ → List Entry → Kind → ℕ → Bool
unfolding matches
m_mode_allows below [] kind pa = true
m_mode_allows below (e ∷ es) kind pa =
    let later = m_mode_allows e.addr es kind pa in
    if matches below e pa
    then (if e.cfg / 128 % 2 == 1 then permission kind e.cfg else true)
    else later
