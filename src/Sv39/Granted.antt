-- ===== src/Sv39/Granted.antt =====
-- The PMP check of the table reads that an Sv39 walk makes, for the grant of src/sv39/sv39_main.c.
use riscv_baremetal_demo.Base.{
  ℕ, zero, suc, ◌+◌, ◌*◌, ◌/◌, ◌%◌, ◌^◌, ◌≤◌, ◌<◌, bit_or, ◌≡◌, refl, ap, ◌∙◌, inl, inr, Bool, true,
  false, ◌&&◌, arith, ltb, ◌==◌, if◌then◌else◌, Bool-cases,
}
use riscv_baremetal_demo.Sv39.{Mem, Image, pte, leaf_flags, pte_v, pte_x, ident_base}
use riscv_baremetal_demo.Sv39.Walk.{vpn, entry_page, is_valid, is_leaf, is_canonical}
use riscv_baremetal_demo.Sv39.Tables.{pte-sum, IsLinked, HoldsTables}

-- The end of the range that PMP entry 1 grants.
abbrev pub pmp_limit : ℕ
pmp_limit = 0x80400000

-- What is asked of the next table, if the entry points to one.
unfoldable pub descends : ℕ → (ℕ → Bool) → Bool
descends e below =
    if is_valid e && (if is_leaf e then false else true) then below (entry_page e * 4096) else true

-- Whether every entry that the walk reads from a level on is in the grant.
unfoldable pub grants_from : Mem → ℕ → ℕ → ℕ → Bool
unfolding descends
grants_from mem va zero table = ltb (table + vpn zero va * 8) pmp_limit
grants_from mem va (suc level) table =
    ltb (table + vpn (suc level) va * 8) pmp_limit
    && descends (mem (table + vpn (suc level) va * 8)) (grants_from mem va level)

-- An address that is not canonical reads no table.
unfoldable pub grants_walk : Mem → ℕ → ℕ → Bool
unfolding grants_from
grants_walk mem root_page va =
    if is_canonical va then grants_from mem va 2 (root_page * 4096) else true

-- The tables, the page, the stack and the code stand in the grant.
pub record IsGranted (s : Image) : Type 0 where
  pub root_pt : s.root_pt < pmp_limit
  pub l1_test : s.l1_test < pmp_limit
  pub l0_test : s.l0_test < pmp_limit
  pub l1_uart : s.l1_uart < pmp_limit
  pub l0_uart : s.l0_uart < pmp_limit
  pub page : s.page < pmp_limit
  pub stack : s.stack_top ≤ pmp_limit
  pub code : s.s_mode_tests < pmp_limit

descends_empty : (below : ℕ → Bool) → descends 0 below ≡ true
unfolding descends
descends_empty below = refl

descends_pointer :
    (table : ℕ) (below : ℕ → Bool)
    → table % 4096 ≡ 0
    → table < 2 ^ 44
    → below table ≡ true
    → descends (pte (table / 4096) pte_v) below ≡ true
unfolding descends
descends_pointer table below whole fits granted =
    rw (pte-sum (table / 4096) pte_v (omega arith) (omega arith))
      (ground (arith, at_table, granted))
  where
    at_table : below (entry_page (table / 4096 * 1024 + pte_v) * 4096) ≡ below table
    at_table = ap below (omega arith)

descends_ident :
    (below : ℕ → Bool) → descends (pte (ident_base / 4096) (bit_or leaf_flags pte_x)) below ≡ true
unfolding descends
descends_ident below =
    rw (pte-sum (ident_base / 4096) (bit_or leaf_flags pte_x) (omega arith) (omega arith)) refl

entry_granted :
    (table k : ℕ)
    → table % 4096 ≡ 0
    → table < pmp_limit
    → k < 512
    → ltb (table + k * 8) pmp_limit ≡ true
entry_granted table k whole low few = ground arith

module _ (s : Image) (mem : Mem) (linked : IsLinked s) (granted : IsGranted s)
    (holds : HoldsTables s mem) (va : ℕ) where
  grants_l0 : (table : ℕ) → table % 4096 ≡ 0 → table < pmp_limit → grants_from mem va 0 table ≡ true
  unfolding grants_from
  grants_l0 table whole low = entry_granted table (vpn 0 va) whole low (omega arith)

  grants_l1_test : grants_from mem va 1 s.l1_test ≡ true
  unfolding grants_from
  grants_l1_test =
      rw
        (
          entry_granted s.l1_test (vpn 1 va) (omega arith) granted.l1_test (omega arith),
          holds.l1_test (vpn 1 va) (omega arith),
        )
        (elim (Bool-cases (vpn 1 va == 0)) [
          | inl first ↦ rw first (
              descends_pointer s.l0_test (grants_from mem va 0) (omega arith) (omega arith)
                (grants_l0 s.l0_test (omega arith) granted.l0_test))
          | inr later ↦ rw later (descends_empty (grants_from mem va 0))
        ])

  grants_l1_uart : grants_from mem va 1 s.l1_uart ≡ true
  unfolding grants_from
  grants_l1_uart =
      rw
        (
          entry_granted s.l1_uart (vpn 1 va) (omega arith) granted.l1_uart (omega arith),
          holds.l1_uart (vpn 1 va) (omega arith),
        )
        (elim (Bool-cases (vpn 1 va == 128)) [
          | inl first ↦ rw first (
              descends_pointer s.l0_uart (grants_from mem va 0) (omega arith) (omega arith)
                (grants_l0 s.l0_uart (omega arith) granted.l0_uart))
          | inr later ↦ rw later (descends_empty (grants_from mem va 0))
        ])

  grants_root : grants_from mem va 2 s.root_pt ≡ true
  unfolding grants_from
  grants_root =
      rw
        (
          entry_granted s.root_pt (vpn 2 va) (omega arith) granted.root_pt (omega arith),
          holds.root (vpn 2 va) (omega arith),
        )
        (elim (Bool-cases (vpn 2 va == 0)) [
          | inl uart ↦ rw uart (
              descends_pointer s.l1_uart (grants_from mem va 1) (omega arith) (omega arith)
                grants_l1_uart)
          | inr not_uart ↦ rw not_uart (elim (Bool-cases (vpn 2 va == 1)) [
            | inl test ↦ rw test (
                descends_pointer s.l1_test (grants_from mem va 1) (omega arith) (omega arith)
                  grants_l1_test)
            | inr not_test ↦ rw not_test (elim (Bool-cases (vpn 2 va == 2)) [
              | inl ident ↦ rw ident (descends_ident (grants_from mem va 1))
              | inr free ↦ rw free (descends_empty (grants_from mem va 1))
            ])
          ])
        ])

  pub tables-grants_walk : grants_walk mem (s.root_pt / 4096) va ≡ true
  unfolding grants_walk
  tables-grants_walk = elim (Bool-cases (is_canonical va)) [
    | inr outside ↦ rw outside refl
    | inl inside ↦ rw inside (ap (grants_from mem va 2) whole ∙ grants_root)
  ]
    where
      whole : s.root_pt / 4096 * 4096 ≡ s.root_pt
      whole = omega arith
