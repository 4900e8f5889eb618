-- ===== src/Sv39/Access.antt =====
-- The address space that the tables of src/sv39/sv39_main.c give to S-mode.
use riscv_baremetal_demo.Base.{
  ℕ, ◌+◌, ◌-◌, ◌*◌, ◌/◌, ◌%◌, ◌^◌, ◌≤◌, ◌<◌, bit_or, ◌≡◌, refl, sym, ap, ◌∙◌, inl, inr, Bool, false,
  ◌&&◌, ◌||◌, arith, ltb, leb, ◌==◌, if◌then◌else◌, Bool-cases,
}
use riscv_baremetal_demo.Sv39.{
  Mem, Image, pte, leaf_flags, pte_v, pte_x, tables, ident_base, ident_end, uart_base, mapped_va,
}
use riscv_baremetal_demo.Sv39.Walk.{
  Translation, resolves, dies, not_canonical, vpn, visit, leaf, walk_from, walk, is_canonical,
}
use riscv_baremetal_demo.Sv39.Tables.{pte-sum, IsLinked, HoldsTables, tables-HoldsTables}

-- What one lookup does at each kind of entry.
visit_empty :
    (write : Bool) (va level : ℕ) (below : ℕ → Translation)
    → visit write va level 0 below ≡ dies level
unfolding visit
visit_empty write va level below = refl

visit_pointer :
    (write : Bool) (va level page : ℕ) (below : ℕ → Translation)
    → page < 2 ^ 44
    → visit write va level (pte page pte_v) below ≡ below (page * 4096)
unfolding visit
visit_pointer write va level page below fits =
    rw (pte-sum page pte_v fits (omega arith)) (ground arith)

visit_page :
    (write : Bool) (va page : ℕ) (below : ℕ → Translation)
    → page < 2 ^ 44
    → visit write va 0 (pte page leaf_flags) below ≡ resolves (page * 4096 + va % 4096)
unfolding visit leaf
visit_page write va page below fits = rw (pte-sum page leaf_flags fits (omega arith)) (ground arith)

visit_ident :
    (write : Bool) (va : ℕ) (below : ℕ → Translation)
    → visit write va 2 (pte (ident_base / 4096) (bit_or leaf_flags pte_x)) below
      ≡ resolves (ident_base + va % 2 ^ 30)
unfolding visit leaf
visit_ident write va below =
    rw (pte-sum (ident_base / 4096) (bit_or leaf_flags pte_x) (omega arith) (omega arith))
      (ground arith)

module _ (s : Image) (mem : Mem) (linked : IsLinked s) (holds : HoldsTables s mem)
    (write : Bool) where
  abbrev from : ℕ → ℕ → ℕ → Translation
  from va level table = walk_from mem write va level table

  page_number : (p : ℕ) → p % 4096 ≡ 0 → p / 4096 * 4096 ≡ p
  page_number p whole = omega arith

  from_l0_test :
      (va : ℕ)
      → from va 0 s.l0_test ≡ (if vpn 0 va == 0 then resolves (s.page + va % 4096) else dies 0)
  unfolding walk_from
  from_l0_test va = rw (holds.l0_test (vpn 0 va) (omega arith)) (elim (Bool-cases (vpn 0 va == 0)) [
    | inl first ↦ rw first (
        visit_page write va (s.page / 4096) (λ _. dies 0) (omega arith)
        ∙ ap (λ p. resolves (p + va % 4096)) (page_number s.page (omega arith)))
    | inr later ↦ rw later (visit_empty write va 0 (λ _. dies 0))
  ])

  from_l0_uart :
      (va : ℕ)
      → from va 0 s.l0_uart ≡ (if vpn 0 va == 0 then resolves (uart_base + va % 4096) else dies 0)
  unfolding walk_from
  from_l0_uart va = rw (holds.l0_uart (vpn 0 va) (omega arith)) (elim (Bool-cases (vpn 0 va == 0)) [
    | inl first ↦ rw first (visit_page write va (uart_base / 4096) (λ _. dies 0) (omega arith))
    | inr later ↦ rw later (visit_empty write va 0 (λ _. dies 0))
  ])

  from_l1_test :
      (va : ℕ) → from va 1 s.l1_test ≡ (if vpn 1 va == 0 then from va 0 s.l0_test else dies 1)
  unfolding walk_from
  from_l1_test va = rw (holds.l1_test (vpn 1 va) (omega arith)) (elim (Bool-cases (vpn 1 va == 0)) [
    | inl first ↦ rw first (
        visit_pointer write va 1 (s.l0_test / 4096) (from va 0) (omega arith)
        ∙ ap (from va 0) (page_number s.l0_test (omega arith)))
    | inr later ↦ rw later (visit_empty write va 1 (from va 0))
  ])

  from_l1_uart :
      (va : ℕ) → from va 1 s.l1_uart ≡ (if vpn 1 va == 128 then from va 0 s.l0_uart else dies 1)
  unfolding walk_from
  from_l1_uart va =
      rw (holds.l1_uart (vpn 1 va) (omega arith)) (elim (Bool-cases (vpn 1 va == 128)) [
        | inl first ↦ rw first (
            visit_pointer write va 1 (s.l0_uart / 4096) (from va 0) (omega arith)
            ∙ ap (from va 0) (page_number s.l0_uart (omega arith)))
        | inr later ↦ rw later (visit_empty write va 1 (from va 0))
      ])

  from_root :
      (va : ℕ)
      → from va 2 s.root_pt ≡ (
          if vpn 2 va == 0
          then from va 1 s.l1_uart
          else if vpn 2 va == 1
          then from va 1 s.l1_test
          else if vpn 2 va == 2
          then resolves (ident_base + va % 2 ^ 30)
          else dies 2)
  unfolding walk_from
  from_root va = rw (holds.root (vpn 2 va) (omega arith)) (elim (Bool-cases (vpn 2 va == 0)) [
    | inl uart ↦ rw uart (
        visit_pointer write va 2 (s.l1_uart / 4096) (from va 1) (omega arith)
        ∙ ap (from va 1) (page_number s.l1_uart (omega arith)))
    | inr not_uart ↦ rw not_uart (elim (Bool-cases (vpn 2 va == 1)) [
      | inl test ↦ rw test (
          visit_pointer write va 2 (s.l1_test / 4096) (from va 1) (omega arith)
          ∙ ap (from va 1) (page_number s.l1_test (omega arith)))
      | inr not_test ↦ rw not_test (elim (Bool-cases (vpn 2 va == 2)) [
        | inl ident ↦ rw ident (visit_ident write va (from va 1))
        | inr free ↦ rw free (visit_empty write va 2 (from va 1))
      ])
    ])
  ])

-- The intended address space: the identity window, the test page at `mapped_va`, the UART page,
-- and for every other address the level at which its lookup fails.
unfoldable pub address_space : Image → ℕ → Translation
address_space s va =
    if leb ident_base va && ltb va ident_end
    then resolves va
    else if leb mapped_va va && ltb va (mapped_va + 4096)
    then resolves (s.page + (va - mapped_va))
    else if leb uart_base va && ltb va (uart_base + 4096)
    then resolves va
    else if (leb mapped_va va && ltb va (mapped_va + 0x200000))
        || (leb uart_base va && ltb va (uart_base + 0x200000))
    then dies 0
    else if ltb va ident_base
    then dies 1
    else if is_canonical va
    then dies 2
    else not_canonical

-- The same by the indices of the three lookups.
abbrev by_index : Image → ℕ → Translation
by_index s va =
    if vpn 2 va == 0
    then if vpn 1 va == 128
      then if vpn 0 va == 0 then resolves (uart_base + va % 4096) else dies 0
      else dies 1
    else if vpn 2 va == 1
    then if vpn 1 va == 0
      then if vpn 0 va == 0 then resolves (s.page + va % 4096) else dies 0
      else dies 1
    else if vpn 2 va == 2
    then resolves (ident_base + va % 2 ^ 30)
    else dies 2

low_half : (s : Image) (va : ℕ) → va < 2 ^ 38 → by_index s va ≡ address_space s va
unfolding address_space
low_half s va low = ground arith

high_half :
    (s : Image) (va : ℕ) → 2 ^ 64 - 2 ^ 38 ≤ va → va < 2 ^ 64 → by_index s va ≡ address_space s va
unfolding address_space
high_half s va high word = ground arith

between_halves : (s : Image) (va : ℕ) → is_canonical va ≡ false → address_space s va ≡ not_canonical
unfolding address_space
between_halves s va outside = ground arith

pub walk-address_space_of :
    (s : Image) (mem : Mem) (write : Bool) (va : ℕ)
    → IsLinked s
    → HoldsTables s mem
    → va < 2 ^ 64
    → walk mem (s.root_pt / 4096) write va ≡ address_space s va
unfolding walk
walk-address_space_of s mem write va linked holds word = elim (Bool-cases (is_canonical va)) [
  | inr outside ↦ rw outside (sym (between_halves s va outside))
  | inl inside ↦ rw inside (
      ap (from s mem linked holds write va 2) whole
      ∙ looked_up
      ∙ elim (Bool-cases (ltb va (2 ^ 38))) [
        | inl low ↦ low_half s va (ground arith)
        | inr high ↦ high_half s va (ground arith) word
      ])
]
  where
    whole : s.root_pt / 4096 * 4096 ≡ s.root_pt
    whole = page_number s mem linked holds write s.root_pt (omega arith)

    looked_up : walk_from mem write va 2 s.root_pt ≡ by_index s va
    looked_up = ground (
      arith,
      from_root s mem linked holds write va,
      from_l1_test s mem linked holds write va,
      from_l1_uart s mem linked holds write va,
      from_l0_test s mem linked holds write va,
      from_l0_uart s mem linked holds write va,
    )

-- Under the tables that main builds, the Sv39 walk of every 64-bit address, for a load or a store,
-- is the intended address space: the identity window [0x80000000, 0xC0000000), the page at
-- 0x40000000, the UART page, and a page fault at the stated level everywhere else. The arrays are
-- aligned, apart from each other, and below 0xC0000000.
pub walk-address_space :
    (s : Image) (write : Bool) (va : ℕ)
    → IsLinked s
    → va < 2 ^ 64
    → walk (tables s) (s.root_pt / 4096) write va ≡ address_space s va
walk-address_space s write va linked word =
    walk-address_space_of s (tables s) write va linked (tables-HoldsTables s linked) word
