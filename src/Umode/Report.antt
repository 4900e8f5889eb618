-- ===== src/Umode/Report.antt =====
-- When src/umode/umode_main.c prints PASS.
use riscv_baremetal_demo.Base.{
  ℕ, ap, ◌++◌, if◌then◌else◌, Bool-cases, inl, inr, ◌/◌, ◌%◌, ◌^◌, bit_and, ◌≡◌, refl, sym, ◌∙◌,
  ◌↔◌, Bool, true, false, List, [], ◌∷◌, arith, ◌==◌, ==_iff,
}
use mathlib.Core.Path.{subst}
use mathlib.Core.List.{append_assoc, reverse, reverse-append}
use riscv_baremetal_demo.Base.Bits.{bit_and-low_mask, low_mask, power}
use riscv_baremetal_demo.Base.Text.{codes}
use riscv_baremetal_demo.Umode.{
  Csrs, Globals, boot_globals, umode_handle, entry_mpp, require, values, m_report, main,
}

-- The trap of an ecall from U-mode at the payload: MPP, bits 11 and 12 of mstatus, is zero.
pub record IsCall (payload : ℕ) (r : Csrs) : Type 0 where
  pub cause : r.mcause ≡ 8
  pub pc : r.mepc ≡ payload
  pub value : r.mtval ≡ 0
  pub from_u : r.mstatus / 2 ^ 11 % 4 ≡ 0

mpp_field : (v : ℕ) → bit_and v 3 ≡ v % 4
unfolding low_mask power
mpp_field v = bit_and-low_mask 2 v (v / 4) (v % 4) (omega arith) (omega arith)

require_iff :
    (cond : Bool) (msg : List ℕ) (r : List ℕ × Bool)
    → ((require cond msg r).1 ≡ true) ↔ ((cond ≡ true) × (r.1 ≡ true))
unfolding require
require_iff true msg (out, pass) = (λ e. (refl, e), λ h. h.1)
require_iff false msg (out, pass) =
    (λ e. absurd (ground (arith, e)), λ h. absurd (ground (arith, h.0)))

passes_iff : (payload : ℕ) (r : Csrs) → ((main payload r).1 ≡ true) ↔ IsCall payload r
unfolding main m_report umode_handle
passes_iff payload r = (
  λ e.
      let (mpp, e1) = (require_iff (entry_mpp g == 0) from_m r4).0 e in
      let (value, e2) = (require_iff (g.trap_mtval == 0) bad_value r3).0 e1 in
      let (pc, e3) = (require_iff (g.trap_mepc == payload) bad_pc r2).0 e2 in
      let (cause, e4) = (require_iff (g.trap_mcause == 8) bad_cause r1).0 e3 in
      record {
        cause = (==_iff _ _).0 cause;
        pc = (==_iff _ _).0 pc;
        value = (==_iff _ _).0 value;
        from_u = sym (mpp_field (r.mstatus / 2 ^ 11)) ∙ (==_iff _ _).0 mpp;
      },
  λ c. (require_iff (entry_mpp g == 0) from_m r4).1 (
    (==_iff _ _).1 (mpp_field (r.mstatus / 2 ^ 11) ∙ c.from_u),
    (require_iff (g.trap_mtval == 0) bad_value r3).1 (
      (==_iff _ _).1 c.value,
      (require_iff (g.trap_mepc == payload) bad_pc r2).1 (
        (==_iff _ _).1 c.pc,
        (require_iff (g.trap_mcause == 8) bad_cause r1).1 (
          (==_iff _ _).1 c.cause,
          (require_iff (g.trap_seen == 1) bad_count (values g, true)).1 (refl, refl),
        ),
      ),
    ),
  ),
)
  where
    g : Globals
    g = umode_handle r (record boot_globals { payload_addr = payload })

    from_m : List ℕ
    from_m = codes "mstatus.MPP at trap entry is not U-mode"

    bad_value : List ℕ
    bad_value = codes "mtval is not 0"

    bad_pc : List ℕ
    bad_pc = codes "mepc is not the payload ecall address"

    bad_cause : List ℕ
    bad_cause = codes "mcause is not 8 (ecall from U-mode)"

    bad_count : List ℕ
    bad_count = codes "expected exactly 1 trap"

    r1 : List ℕ × Bool
    r1 = require (g.trap_seen == 1) bad_count (values g, true)

    r2 : List ℕ × Bool
    r2 = require (g.trap_mcause == 8) bad_cause r1

    r3 : List ℕ × Bool
    r3 = require (g.trap_mepc == payload) bad_pc r2

    r4 : List ℕ × Bool
    r4 = require (g.trap_mtval == 0) bad_value r3

abbrev pub pass_line : List ℕ
pass_line = codes "RESULT: PASS\n"

abbrev pub fail_line : List ℕ
fail_line = codes "RESULT: FAIL\n"

-- The output ends with a line.
abbrev pub EndsWith : List ℕ → List ℕ → Type 0
EndsWith line out = (before : List ℕ) × (out ≡ before ++ line)

EndsWith-after : (line xs out : List ℕ) → EndsWith line out → EndsWith line (xs ++ out)
EndsWith-after line xs out (before, e) =
    (xs ++ before, ap (λ ys. xs ++ ys) e ∙ sym (append_assoc xs before line))

last_line :
    (payload : ℕ) (r : Csrs)
    → EndsWith (if (main payload r).1 then pass_line else fail_line) (main payload r).0
unfolding main m_report
last_line payload r =
    EndsWith-after _ (codes "M-mode to U-mode trap transition\n") _ (
      EndsWith-after _ (codes "dropping to U-mode: one-instruction ecall payload...\n") _ (_, refl))

-- The second character, of a text in reverse.
abbrev second : List ℕ → ℕ
second [] = 0
second (x ∷ []) = 0
second (x ∷ y ∷ more) = y

-- No output ends with both lines.
one_ending : (out : List ℕ) → EndsWith pass_line out → ¬ (EndsWith fail_line out)
one_ending out (xs, ends_pass) (ys, ends_fail) = absurd (omega (arith, different))
  where
    different : ◌≡◌ {A = ℕ} 83 76
    different =
        ap second (sym (reverse-append xs pass_line))
        ∙ ap (λ ys. second (reverse ys)) (sym ends_pass ∙ ends_fail)
        ∙ ap second (reverse-append ys fail_line)

-- The output ends with the line RESULT: PASS exactly when the trap is that of an ecall from U-mode
-- at the payload, with mtval zero, and with the line RESULT: FAIL exactly when it is not.
pub main_iff_IsCall :
    (payload : ℕ) (r : Csrs)
    → (EndsWith pass_line (main payload r).0 ↔ IsCall payload r)
      × (EndsWith fail_line (main payload r).0 ↔ (¬ (IsCall payload r)))
main_iff_IsCall payload r = elim (Bool-cases (main payload r).1) [
  | inl passes ↦ (
    (λ _. (passes_iff payload r).0 passes, λ _. subst Ending passes (last_line payload r)),
    (
      λ failed.
          absurd (one_ending (main payload r).0 (subst Ending passes (last_line payload r)) failed),
      λ no. absurd (no ((passes_iff payload r).0 passes)),
    ),
  )
  | inr fails ↦ (
    (
      λ passed.
          absurd (one_ending (main payload r).0 passed (subst Ending fails (last_line payload r))),
      λ call. absurd (cc (fails, (passes_iff payload r).1 call)),
    ),
    (
      λ _ call. absurd (cc (fails, (passes_iff payload r).1 call)),
      λ _. subst Ending fails (last_line payload r),
    ),
  )
]
  where
    Ending : Bool → Type 0
    Ending pass = EndsWith (if pass then pass_line else fail_line) (main payload r).0
