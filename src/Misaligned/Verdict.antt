-- ===== src/Misaligned/Verdict.antt =====
-- The verdict of src/misaligned/mis_main.c on a hart that completes misaligned accesses, and on one
-- that traps them.
use riscv_baremetal_demo.Base.{
  ℕ, ◌+◌, ◌%◌, ◌^◌, ◌≤◌, ◌<◌, ◌≡◌, refl, ◌≢◌, ◌↔◌, inl, inr, true, false, List, [], ◌∷◌, ◌++◌,
  arith, ==_iff, Bool-cases,
}
use riscv_baremetal_demo.Base.Text.{codes}
use riscv_baremetal_demo.Uart.Text.{hex}
use riscv_baremetal_demo.Probe.{
  Statement, says, run, power_up, Passes, run-Passes, Passes-of_run, Passes-append, Passes-first,
  Passes-rest,
}
use riscv_baremetal_demo.Misaligned.{
  loaded, load_trap, stored, store_trap, Hart, Image, Save, no_save, mis_trap_entry, ref_lw4,
  store_word, fill, fill_checks, filled, sign_extended, test_lw_impl, test_sw_impl, report,
  lw_statements, sw_statements, opening, statements, verdict, main,
}

-- Little-endian accesses at any offset of `scratch`, the load sign-extended.
pub record Completes (m : Image) (h : Hart) : Type 0 where
  pub loads :
      (pc i : ℕ) (bytes : List ℕ)
      → i + 4 ≤ 64
      → h.lw pc (m.base + i) bytes ≡ loaded (sign_extended (ref_lw4 bytes i))
  pub stores :
      (pc i val : ℕ) (bytes : List ℕ)
      → i + 4 ≤ 64
      → h.sw pc (m.base + i) val bytes ≡ stored (store_word bytes i val)

-- The traps of the privileged specification, with the pc and the address of the access.
pub record Traps (h : Hart) : Type 0 where
  pub loads :
      (pc addr : ℕ) (bytes : List ℕ) → addr % 4 ≢ 0 → h.lw pc addr bytes ≡ load_trap 4 pc addr
  pub stores :
      (pc addr val : ℕ) (bytes : List ℕ)
      → addr % 4 ≢ 0
      → h.sw pc addr val bytes ≡ store_trap 6 pc addr

opening-Passes : (m : Image) → Passes (opening m filled)
unfolding opening fill_checks fill store_word ref_lw4
opening-Passes m = (refl, (refl, (refl, (refl, (refl, (refl, (refl, (refl, tt))))))))

verdict_iff : (ss : List Statement) → ((verdict (run ss power_up)).1 ≡ true) ↔ Passes ss
unfolding verdict
verdict_iff ss = (
  λ e. Passes-of_run ss power_up ((==_iff _ _).0 e),
  λ p. (==_iff _ _).1 (run-Passes ss power_up p),
)

-- What the tests leave: after a load of `v`, and after a trap.
abbrev completed : ℕ → ℕ → Save
completed resume v = record no_save { resume = resume; value = v }

abbrev trapped : ℕ → ℕ → ℕ → ℕ → ℕ → Save
trapped cause pc addr resume t1 = record {
  mcause = cause;
  mepc = pc;
  mtval = addr;
  resume = resume;
  seen = 1;
  value = t1;
}

whole_load :
    (m : Image) (h : Hart)
    → Completes m h
    → test_lw_impl h m.lw_window (m.base + 1) filled no_save
      ≡ completed (m.lw_window + 12) (sign_extended (ref_lw4 filled 1))
unfolding test_lw_impl
whole_load m h c = rw (test_lw_impl, c.loads (m.lw_window + 8) 1 filled (omega arith)) refl

lw_completed-Passes :
    (addr resume : ℕ) (bytes : List ℕ)
    → Passes (lw_statements addr bytes (completed resume (sign_extended (ref_lw4 bytes 1))))
unfolding lw_statements
lw_completed-Passes addr resume bytes = ((==_iff _ _).1 refl, (refl, tt))

whole_store :
    (m : Image) (h : Hart) (s : Save)
    → Completes m h
    → test_sw_impl h m.sw_window (m.base + 2) 0x12345678 filled s
      ≡ (store_word filled 2 0x12345678, record s { resume = m.sw_window + 16; seen = 0 })
unfolding test_sw_impl
whole_store m h s c =
    rw (test_sw_impl, c.stores (m.sw_window + 12) 2 0x12345678 filled (omega arith)) refl

sw_completed-Passes :
    (addr : ℕ) (s : Save)
    → s.seen ≡ 0
    → Passes (sw_statements addr (store_word filled 2 0x12345678) s)
unfolding sw_statements store_word fill
sw_completed-Passes addr s e = rw e (refl, (refl, tt))

-- The statements on the store, and all behind the control.
abbrev store_part : Image → List ℕ → Save → List Statement
store_part m bytes' s' =
    says (
      codes "sw address="
      ∷ hex (m.base + 2)
      ∷ codes " (base+2, not 4-byte aligned) value=0x12345678\n"
      ∷ [])
    ∷ report (codes "sw") s'
    ∷ sw_statements (m.base + 2) bytes' s'

abbrev test_part : Image → Save → List ℕ → Save → List Statement
test_part m s bytes' s' =
    says (codes "lw address=" ∷ hex (m.base + 1) ∷ codes " (base+1, not 4-byte aligned)\n" ∷ [])
    ∷ report (codes "lw") s
    ∷ (lw_statements (m.base + 1) filled s ++ store_part m bytes' s')

statements-Passes :
    (m : Image) (s s' : Save) (bytes' : List ℕ)
    → Passes (lw_statements (m.base + 1) filled s)
    → Passes (sw_statements (m.base + 2) bytes' s')
    → Passes (statements m filled s (bytes', s'))
unfolding statements report
statements-Passes m s s' bytes' lw sw =
    Passes-append (opening m filled) (test_part m s bytes' s') (opening-Passes m)
      (Passes-append (lw_statements (m.base + 1) filled s) (store_part m bytes' s') lw sw)

-- On a hart that completes misaligned accesses the verdict is PASS, wherever the image stands.
pub main_transparent : (m : Image) (h : Hart) → Completes m h → (main m h).1 ≡ true
unfolding main
main_transparent m h c =
    let s = completed (m.lw_window + 12) (sign_extended (ref_lw4 filled 1)) in
    let s' : Save = record s { resume = m.sw_window + 16; seen = 0 } in
    rw (main, whole_load m h c, whole_store m h s c)
      ((verdict_iff (statements m filled s (store_word filled 2 0x12345678, s'))).1 (
        statements-Passes m s s' (store_word filled 2 0x12345678)
          (lw_completed-Passes (m.base + 1) (m.lw_window + 12) filled)
          (sw_completed-Passes (m.base + 2) s' refl)))

caught_load :
    (m : Image) (h : Hart)
    → m.base % 16 ≡ 0
    → Traps h
    → test_lw_impl h m.lw_window (m.base + 1) filled no_save
      ≡ trapped 4 (m.lw_window + 8) (m.base + 1) (m.lw_window + 12) h.t1
unfolding test_lw_impl mis_trap_entry
caught_load m h aligned t =
    rw (test_lw_impl, t.loads (m.lw_window + 8) (m.base + 1) filled (omega arith)) refl

lw_trapped-fails :
    (addr window t1 : ℕ) (bytes : List ℕ)
    → window + 12 < 2 ^ 64
    → Passes (lw_statements addr bytes (trapped 4 (window + 8) addr (window + 12) t1))
    → ⊥
unfolding lw_statements
lw_trapped-fails addr window t1 bytes inside p = absurd (ground (arith, (==_iff _ _).0 p.1.1.0))

statements-lw :
    (m : Image) (s : Save) (after : List ℕ × Save)
    → Passes (statements m filled s after)
    → Passes (lw_statements (m.base + 1) filled s)
unfolding statements report
statements-lw m s (bytes', s') p =
    Passes-first (lw_statements (m.base + 1) filled s) (store_part m bytes' s')
      (Passes-rest (opening m filled) (test_part m s bytes' s') p)

-- On a hart that traps misaligned accesses as the privileged specification says, the verdict is
-- FAIL: the lw stands 4 bytes ahead of the resume pc, and the check asks for 8.
pub main_trapping :
    (m : Image) (h : Hart)
    → m.base % 16 ≡ 0
    → m.lw_window + 12 < 2 ^ 64
    → Traps h
    → (main m h).1 ≡ false
unfolding main
main_trapping m h aligned inside t =
    let s = trapped 4 (m.lw_window + 8) (m.base + 1) (m.lw_window + 12) h.t1 in
    rw (main, caught_load m h aligned t)
      (elim (Bool-cases (verdict (run (statements m filled s (after s)) power_up)).1) [
        | inl passing ↦ absurd (
            lw_trapped-fails (m.base + 1) m.lw_window h.t1 filled inside (
              statements-lw m s (after s)
                ((verdict_iff (statements m filled s (after s))).0 passing)))
        | inr failing ↦ failing
      ])
  where
    after : Save → List ℕ × Save
    after s = test_sw_impl h m.sw_window (m.base + 2) 0x12345678 filled s
