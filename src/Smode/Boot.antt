-- ===== src/Smode/Boot.antt =====
-- `m_boot` of src/smode/msetup.c in the S-mode build, up to its `sret`: what it leaves in the CSRs.
-- In the M-mode build the function is empty.
use riscv_baremetal_demo.Base.{
  ℕ, ◌+◌, ◌-◌, ◌*◌, ◌/◌, ◌%◌, ◌^◌, ◌≡◌, refl, sym, ◌∙◌, ◌<◌, ◌↔◌, ◌⊎◌, inl, inr, Bool, true, false,
  arith, ◌==◌, if◌then◌else◌, ==_iff, Bool-cases, ◌||◌, table_passes, table_passes_at,
}

-- menvcfg.STCE, bit 63
abbrev pub menvcfg_stce : ℕ
menvcfg_stce = 2 ^ 63

abbrev medeleg_mask : ℕ
medeleg_mask = 2 ^ 2 + 2 ^ 3 + 2 ^ 8 + 2 ^ 12 + 2 ^ 13 + 2 ^ 15

abbrev mideleg_mask : ℕ
mideleg_mask = 2 ^ 1 + 2 ^ 5 + 2 ^ 9

-- The registers that `m_boot` writes, and `g_use_sstc`.
pub record Csrs : Type 0 where
  pub menvcfg : ℕ
  pub use_sstc : Bool
  pub mtimecmp : ℕ
  pub stimecmp : ℕ
  pub pmpaddr0 : ℕ
  pub pmpcfg0 : ℕ
  pub mcounteren : ℕ
  pub medeleg : ℕ
  pub mideleg : ℕ
  pub mtvec : ℕ
  pub mscratch : ℕ
  pub stvec : ℕ
  pub sscratch : ℕ
  pub sstatus : ℕ
  pub mstatus : ℕ
  pub sepc : ℕ

-- Where the linker put the vectors, the stack and the boot trapframe.
pub record Symbols : Type 0 where
  pub s_entry : ℕ
  pub strap_entry : ℕ
  pub m_trap_entry : ℕ
  pub m_estack_top : ℕ
  pub sched_tf : ℕ

-- Bit `n` of a register.
abbrev pub bit_of : ℕ → ℕ → ℕ
bit_of v n = v / 2 ^ n % 2

-- `v | (1UL << 8)`
abbrev set_bit : ℕ → ℕ
set_bit v = if bit_of v 8 == 0 then v + 2 ^ 8 else v

-- `(v & ~(3UL << 11)) | (1UL << 11)`
abbrev set_mpp : ℕ → ℕ
set_mpp v = v - v / 2 ^ 11 % 4 * 2 ^ 11 + 2 ^ 11

-- Ask for the Sstc comparator; `warl` is what menvcfg keeps of a value that is written.
unfoldable probe : (ℕ → ℕ) → Csrs → Csrs
probe warl c =
    let kept = warl (if bit_of c.menvcfg 63 == 0 then c.menvcfg + menvcfg_stce else c.menvcfg) in
    record c { menvcfg = kept; use_sstc = if bit_of kept 63 == 0 then false else true }

unfoldable park : Csrs → Csrs
park c =
    if c.use_sstc
    then record c { mtimecmp = 2 ^ 64 - 1; stimecmp = 2 ^ 64 - 1 }
    else record c { mtimecmp = 2 ^ 64 - 1 }

unfoldable open_memory : Csrs → Csrs
open_memory c = record c { pmpaddr0 = 2 ^ 64 - 1; pmpcfg0 = 0x1f }

unfoldable delegate : Csrs → Csrs
delegate c = record c { mcounteren = 7; medeleg = medeleg_mask; mideleg = mideleg_mask }

unfoldable install : Symbols → Csrs → Csrs
install l c = record c {
  mtvec = l.m_trap_entry;
  mscratch = l.m_estack_top;
  stvec = l.strap_entry;
  sscratch = l.sched_tf;
}

unfoldable lower : Symbols → Csrs → Csrs
lower l c = record c { sstatus = set_bit c.sstatus; mstatus = set_mpp c.mstatus; sepc = l.s_entry }

unfoldable pub m_boot : (ℕ → ℕ) → Symbols → Csrs → Csrs
unfolding probe park open_memory delegate install lower
m_boot warl l c = lower l (install l (delegate (open_memory (park (probe warl c)))))

-- What the S-mode scheduler needs of the hart that `sret` enters.
pub record Delegates (l : Symbols) (c : Csrs) : Type 0 where
  pub is_timer : bit_of c.mideleg 5 ≡ 1
  pub is_rearm : bit_of c.medeleg 9 ≡ 0
  pub is_fault :
      (n : ℕ)
      → n < 64
      → (bit_of c.medeleg n ≡ 1) ↔ ((n ≡ 2) ⊎ (n ≡ 3) ⊎ (n ≡ 8) ⊎ (n ≡ 12) ⊎ (n ≡ 13) ⊎ (n ≡ 15))
  pub is_counter : (bit_of c.mcounteren 0 ≡ 1) × (bit_of c.mcounteren 1 ≡ 1)
  pub is_memory : (c.pmpaddr0 ≡ 2 ^ 64 - 1) × (c.pmpcfg0 / 8 % 4 ≡ 3) × (c.pmpcfg0 % 8 ≡ 7)
  pub is_spp : bit_of c.sstatus 8 ≡ 1
  pub is_mpp : c.mstatus / 2 ^ 11 % 4 ≡ 1
  pub is_vector : (c.stvec ≡ l.strap_entry) × (c.sscratch ≡ l.sched_tf) × (c.sepc ≡ l.s_entry)
  pub is_parked : c.mtimecmp ≡ 2 ^ 64 - 1
  pub is_parked_too : c.use_sstc ≡ true → c.stimecmp ≡ 2 ^ 64 - 1
  pub is_sstc : (c.use_sstc ≡ true) ↔ (bit_of c.menvcfg 63 ≡ 1)

-- Both sides at one digit, as a test.
abbrev agrees : ℕ → Bool
agrees n =
    let named = n == 2 || n == 3 || n == 8 || n == 12 || n == 13 || n == 15 in
    if bit_of medeleg_mask n == 1 then named else (if named then false else true)

all_agree : table_passes agrees 64 ≡ true
unfolding table_passes
all_agree = refl

digits : (n : ℕ) → n < 64 → agrees n ≡ true
digits n below = table_passes_at agrees 64 n below all_agree

delegated :
    (n : ℕ)
    → n < 64
    → (bit_of medeleg_mask n ≡ 1) ↔ ((n ≡ 2) ⊎ (n ≡ 3) ⊎ (n ≡ 8) ⊎ (n ≡ 12) ⊎ (n ≡ 13) ⊎ (n ≡ 15))
delegated n below = (λ e. ground (arith, digits n below, e), λ o. ground (arith, digits n below, o))

park_kept :
    (c : Csrs)
    → ((park c).mtimecmp ≡ 2 ^ 64 - 1)
      × (c.use_sstc ≡ true → (park c).stimecmp ≡ 2 ^ 64 - 1)
      × ((park c).menvcfg ≡ c.menvcfg)
      × ((park c).use_sstc ≡ c.use_sstc)
      × ((park c).sstatus ≡ c.sstatus)
      × ((park c).mstatus ≡ c.mstatus)
unfolding park
park_kept c = elim (Bool-cases c.use_sstc) [
  | inl e ↦ rw e (refl, λ _. refl, refl, refl, refl, refl)
  | inr e ↦ rw e (refl, λ bad. absurd cc, refl, refl, refl, refl)
]

spp_set : (v : ℕ) → bit_of (set_bit v) 8 ≡ 1
spp_set v = elim (Bool-cases (bit_of v 8 == 0)) [
  | inl e ↦ rw e (let z = (==_iff (bit_of v 8) 0).0 e in omega arith)
  | inr e ↦ rw e (ground (arith, e))
]

sstc_iff : (v : ℕ) → ((if bit_of v 63 == 0 then false else true) ≡ true) ↔ (bit_of v 63 ≡ 1)
sstc_iff v = elim (Bool-cases (bit_of v 63 == 0)) [
  | inl e ↦ rw e (λ bad. absurd cc, λ one. ground (arith, e, one))
  | inr e ↦ rw e (λ _. ground (arith, e), λ _. refl)
]

-- Whatever menvcfg keeps of the probe and whatever the registers held, `m_boot` enters S-mode with
-- the supervisor timer interrupt delegated, of the exceptions exactly 2, 3, 8, 12, 13 and 15, so
-- not the supervisor ecall of the rearm service, the time and cycle counters readable, all memory
-- open, sstatus.SPP and mstatus.MPP both S-mode, the scheduler's vector and trapframe installed,
-- mtimecmp parked, stimecmp too if `g_use_sstc` is set, and `g_use_sstc` set exactly if the STCE
-- bit was kept.
pub m_boot-Delegates : (warl : ℕ → ℕ) (l : Symbols) (c : Csrs) → Delegates l (m_boot warl l c)
unfolding m_boot probe open_memory delegate install lower
m_boot-Delegates warl l c =
    let (parked, parked_too, menvcfg, sstc, sstatus, mstatus) = park_kept (probe warl c) in
    record {
      is_timer = refl;
      is_rearm = refl;
      is_fault = delegated;
      is_counter = (refl, refl);
      is_memory = (refl, refl, refl);
      is_spp = spp_set (park (probe warl c)).sstatus;
      is_mpp = omega arith;
      is_vector = (refl, refl, refl);
      is_parked = parked;
      is_parked_too = λ on. parked_too (sym sstc ∙ on);
      is_sstc = rw (menvcfg, sstc) (sstc_iff (probe warl c).menvcfg);
    }
