-- ===== src/Sv39/Tables.antt =====
-- What stands in the tables that main of src/sv39/sv39_main.c builds.
use riscv_baremetal_demo.Base.{
  ℕ, zero, suc, ◌+◌, ◌-◌, ◌*◌, ◌/◌, ◌%◌, ◌^◌, ◌≤◌, ◌<◌, bit_or, ◌≡◌, refl, ap, ◌∙◌, ◌≢◌, Bool, List,
  [], ◌∷◌, arith, ◌==◌, if◌then◌else◌,
}
use riscv_baremetal_demo.Base.Bits.{bit_and_44, bit_or_10}
use riscv_baremetal_demo.Sv39.{
  Mem, store, store_byte, Image, pte, pte_ppn, leaf_flags, pte_v, pte_x, fill_page, build_tables,
  tables, ident_base, ident_end, uart_base,
}

-- A packed entry, as long as the page number fits its field.
pub pte-sum : (ppn flags : ℕ) → ppn < 2 ^ 44 → flags < 1024 → pte ppn flags ≡ ppn * 1024 + flags
unfolding pte
pte-sum ppn flags fits small = ap (λ (t : ℕ). bit_or t flags) whole ∙ bit_or_10 ppn flags small
  where
    whole : ppn * 1024 % 2 ^ 64 ≡ ppn * 1024
    whole = omega arith

pub pte_ppn-pte : (ppn flags : ℕ) → ppn < 2 ^ 44 → flags < 1024 → pte_ppn (pte ppn flags) ≡ ppn
unfolding pte_ppn
pte_ppn-pte ppn flags fits small =
    omega (arith, pte-sum ppn flags fits small, bit_and_44 (pte ppn flags / 1024))

abbrev Differs : ℕ → List ℕ → Type 0
Differs a [] = Unit
Differs a (b ∷ bs) = (a ≢ b) × Differs a bs

abbrev Distinct : List ℕ → Type 0
Distinct [] = Unit
Distinct (a ∷ bs) = Differs a bs × Distinct bs

-- Pages of 4 KiB, aligned and inside the identity window's upper bound.
abbrev ArePages : List ℕ → Type 0
ArePages [] = Unit
ArePages (a ∷ bs) = (a % 4096 ≡ 0) × (a < ident_end) × ArePages bs

abbrev objects : Image → List ℕ
objects s = s.root_pt ∷ s.l1_test ∷ s.l0_test ∷ s.l1_uart ∷ s.l0_uart ∷ s.page ∷ []

-- The six arrays are aligned as the attributes ask and do not overlap; code and stack stand where
-- the linker script puts RAM.
pub record IsLinked (s : Image) : Type 0 where
  pub pages : ArePages (objects s)
  pub apart : Distinct (objects s)
  pub stack : s.stack_top < ident_end
  pub code : (ident_base ≤ s.s_mode_tests) × (s.s_mode_tests < ident_end)

-- The loop over the page's bytes leaves all other doublewords alone.
fill_page-outside :
    (left i page a : ℕ) (mem : Mem)
    → page % 4096 ≡ 0
    → a % 8 ≡ 0
    → i + left ≤ 8
    → a ≢ page
    → fill_page left i page mem a ≡ mem a
unfolding fill_page store_byte store
fill_page-outside zero i page a mem aligned whole few other = refl
fill_page-outside (suc left) i page a mem aligned whole few other =
    fill_page-outside left (i + 1) page a _ aligned whole (omega arith) other
    ∙ ground (arith, first)
  where
    first : (page + i) - (page + i) % 8 ≡ page
    first = omega arith

-- Doublewords of different pages, and of the same page.
elsewhere :
    (mem : Mem) (p q k j v : ℕ)
    → (p % 4096 ≡ 0) × (q % 4096 ≡ 0) × (p ≢ q)
    → k < 512
    → j < 512
    → store (q + j * 8) v mem (p + k * 8) ≡ mem (p + k * 8)
unfolding store
elsewhere mem p q k j v (ap, aq, pq) kb jb = ground arith

page_elsewhere :
    (mem : Mem) (p q k v : ℕ)
    → (p % 4096 ≡ 0) × (q % 4096 ≡ 0) × (p ≢ q)
    → k < 512
    → store q v mem (p + k * 8) ≡ mem (p + k * 8)
unfolding store
page_elsewhere mem p q k v (ap, aq, pq) kb = ground arith

within :
    (mem : Mem) (p k j v : ℕ)
    → store (p + j * 8) v mem (p + k * 8) ≡ (if k == j then v else mem (p + k * 8))
unfolding store
within mem p k j v = ground arith

otherwise : (b : Bool) (v : ℕ) {m n : ℕ} → m ≡ n → (if b then v else m) ≡ (if b then v else n)
otherwise b v e = ap (λ m. if b then v else m) e

module _ (s : Image) where
  -- Memory after each of the stores of `build_tables`.
  abbrev after_page : Mem
  after_page = fill_page 8 0 s.page (λ _. 0)

  abbrev ident_entry : ℕ
  ident_entry = pte (ident_base / 4096) (bit_or leaf_flags pte_x)

  abbrev after_root2 : Mem
  after_root2 = store (s.root_pt + 2 * 8) ident_entry after_page

  abbrev after_root1 : Mem
  after_root1 = store (s.root_pt + 1 * 8) (pte (s.l1_test / 4096) pte_v) after_root2

  abbrev after_root0 : Mem
  after_root0 = store (s.root_pt + 0 * 8) (pte (s.l1_uart / 4096) pte_v) after_root1

  abbrev after_l1_test : Mem
  after_l1_test = store (s.l1_test + 0 * 8) (pte (s.l0_test / 4096) pte_v) after_root0

  abbrev after_l0_test : Mem
  after_l0_test = store (s.l0_test + 0 * 8) (pte (s.page / 4096) leaf_flags) after_l1_test

  abbrev after_l1_uart : Mem
  after_l1_uart = store (s.l1_uart + 128 * 8) (pte (s.l0_uart / 4096) pte_v) after_l0_test

  module _ (linked : IsLinked s) where
    after_page_at : (a : ℕ) → a % 8 ≡ 0 → a ≢ s.page → after_page a ≡ 0
    after_page_at a whole other =
        fill_page-outside 8 0 s.page a (λ _. 0) (omega arith) whole (omega arith) other

    -- A table's own entries, when the stores behind `mem` have been looked at.
    root_entries :
        (k : ℕ)
        → k < 512
        → after_root0 (s.root_pt + k * 8) ≡ (
            if k == 0
            then pte (s.l1_uart / 4096) pte_v
            else if k == 1
            then pte (s.l1_test / 4096) pte_v
            else if k == 2
            then ident_entry
            else 0)
    root_entries k below =
        within after_root1 (s.root_pt) k 0 (pte (s.l1_uart / 4096) pte_v)
        ∙ otherwise (k == 0) (pte (s.l1_uart / 4096) pte_v) (
            within after_root2 (s.root_pt) k 1 (pte (s.l1_test / 4096) pte_v)
            ∙ otherwise (k == 1) (pte (s.l1_test / 4096) pte_v) (
                within after_page (s.root_pt) k 2 ident_entry
                ∙ otherwise (k == 2) ident_entry
                    (after_page_at (s.root_pt + k * 8) (omega arith) (omega arith))))

    root_entry :
        (k : ℕ)
        → k < 512
        → tables s (s.root_pt + k * 8) ≡ (
            if k == 0
            then pte (s.l1_uart / 4096) pte_v
            else if k == 1
            then pte (s.l1_test / 4096) pte_v
            else if k == 2
            then ident_entry
            else 0)
    unfolding tables build_tables
    root_entry k below =
        elsewhere after_l1_uart (s.root_pt) (s.l0_uart) k 0 _ (omega arith) below (omega arith)
        ∙ elsewhere after_l0_test (s.root_pt) (s.l1_uart) k 128 _ (omega arith) below (omega arith)
        ∙ elsewhere after_l1_test (s.root_pt) (s.l0_test) k 0 _ (omega arith) below (omega arith)
        ∙ elsewhere after_root0 (s.root_pt) (s.l1_test) k 0 _ (omega arith) below (omega arith)
        ∙ root_entries k below

    -- Past the three stores into the root table, in another table.
    other_than_root :
        (p k : ℕ)
        → (p % 4096 ≡ 0) × (p ≢ s.root_pt) × (p ≢ s.page)
        → k < 512
        → after_root0 (p + k * 8) ≡ 0
    other_than_root p k (whole, not_root, not_page) below =
        elsewhere after_root1 p (s.root_pt) k 0 _ apart below (omega arith)
        ∙ elsewhere after_root2 p (s.root_pt) k 1 _ apart below (omega arith)
        ∙ elsewhere after_page p (s.root_pt) k 2 _ apart below (omega arith)
        ∙ after_page_at (p + k * 8) (omega arith) (omega arith)
      where
        apart : (p % 4096 ≡ 0) × (s.root_pt % 4096 ≡ 0) × (p ≢ s.root_pt)
        apart = omega arith

    l1_test_entry :
        (k : ℕ)
        → k < 512
        → tables s (s.l1_test + k * 8) ≡ (if k == 0 then pte (s.l0_test / 4096) pte_v else 0)
    unfolding tables build_tables
    l1_test_entry k below =
        elsewhere after_l1_uart (s.l1_test) (s.l0_uart) k 0 _ (omega arith) below (omega arith)
        ∙ elsewhere after_l0_test (s.l1_test) (s.l1_uart) k 128 _ (omega arith) below (omega arith)
        ∙ elsewhere after_l1_test (s.l1_test) (s.l0_test) k 0 _ (omega arith) below (omega arith)
        ∙ within after_root0 (s.l1_test) k 0 _
        ∙ otherwise (k == 0) _ (other_than_root (s.l1_test) k (omega arith) below)

    l0_test_entry :
        (k : ℕ)
        → k < 512
        → tables s (s.l0_test + k * 8) ≡ (if k == 0 then pte (s.page / 4096) leaf_flags else 0)
    unfolding tables build_tables
    l0_test_entry k below =
        elsewhere after_l1_uart (s.l0_test) (s.l0_uart) k 0 _ (omega arith) below (omega arith)
        ∙ elsewhere after_l0_test (s.l0_test) (s.l1_uart) k 128 _ (omega arith) below (omega arith)
        ∙ within after_l1_test (s.l0_test) k 0 _
        ∙ otherwise (k == 0) _ (
            elsewhere after_root0 (s.l0_test) (s.l1_test) k 0 _ (omega arith) below (omega arith)
            ∙ other_than_root (s.l0_test) k (omega arith) below)

    l1_uart_entry :
        (k : ℕ)
        → k < 512
        → tables s (s.l1_uart + k * 8) ≡ (if k == 128 then pte (s.l0_uart / 4096) pte_v else 0)
    unfolding tables build_tables
    l1_uart_entry k below =
        elsewhere after_l1_uart (s.l1_uart) (s.l0_uart) k 0 _ (omega arith) below (omega arith)
        ∙ within after_l0_test (s.l1_uart) k 128 _
        ∙ otherwise (k == 128) _ (
            elsewhere after_l1_test (s.l1_uart) (s.l0_test) k 0 _ (omega arith) below (omega arith)
            ∙ elsewhere after_root0 (s.l1_uart) (s.l1_test) k 0 _ (omega arith) below (omega arith)
            ∙ other_than_root (s.l1_uart) k (omega arith) below)

    l0_uart_entry :
        (k : ℕ)
        → k < 512
        → tables s (s.l0_uart + k * 8) ≡ (if k == 0 then pte (uart_base / 4096) leaf_flags else 0)
    unfolding tables build_tables
    l0_uart_entry k below =
        within after_l1_uart (s.l0_uart) k 0 _
        ∙ otherwise (k == 0) _ (
            elsewhere after_l0_test (s.l0_uart) (s.l1_uart) k 128 _ (omega arith) below
              (omega arith)
            ∙ elsewhere after_l1_test (s.l0_uart) (s.l0_test) k 0 _ (omega arith) below
                (omega arith)
            ∙ elsewhere after_root0 (s.l0_uart) (s.l1_test) k 0 _ (omega arith) below (omega arith)
            ∙ other_than_root (s.l0_uart) k (omega arith) below)

-- A memory with the entries that main writes, whatever stands outside the tables.
pub record HoldsTables (s : Image) (mem : Mem) : Type 0 where
  pub root :
      (k : ℕ)
      → k < 512
      → mem (s.root_pt + k * 8) ≡ (
          if k == 0
          then pte (s.l1_uart / 4096) pte_v
          else if k == 1
          then pte (s.l1_test / 4096) pte_v
          else if k == 2
          then pte (ident_base / 4096) (bit_or leaf_flags pte_x)
          else 0)
  pub l1_test :
      (k : ℕ)
      → k < 512
      → mem (s.l1_test + k * 8) ≡ (if k == 0 then pte (s.l0_test / 4096) pte_v else 0)
  pub l0_test :
      (k : ℕ)
      → k < 512
      → mem (s.l0_test + k * 8) ≡ (if k == 0 then pte (s.page / 4096) leaf_flags else 0)
  pub l1_uart :
      (k : ℕ)
      → k < 512
      → mem (s.l1_uart + k * 8) ≡ (if k == 128 then pte (s.l0_uart / 4096) pte_v else 0)
  pub l0_uart :
      (k : ℕ)
      → k < 512
      → mem (s.l0_uart + k * 8) ≡ (if k == 0 then pte (uart_base / 4096) leaf_flags else 0)

pub tables-HoldsTables : (s : Image) → IsLinked s → HoldsTables s (tables s)
tables-HoldsTables s linked = record {
  root = root_entry s linked;
  l1_test = l1_test_entry s linked;
  l0_test = l0_test_entry s linked;
  l1_uart = l1_uart_entry s linked;
  l0_uart = l0_uart_entry s linked;
}

-- A store into the page leaves the tables alone.
pub store-HoldsTables :
    (s : Image) (mem : Mem) (v : ℕ)
    → IsLinked s
    → HoldsTables s mem
    → HoldsTables s (store s.page v mem)
store-HoldsTables s mem v linked holds = record {
  root = λ k b. page_elsewhere mem s.root_pt s.page k v (omega arith) b ∙ holds.root k b;
  l1_test = λ k b. page_elsewhere mem s.l1_test s.page k v (omega arith) b ∙ holds.l1_test k b;
  l0_test = λ k b. page_elsewhere mem s.l0_test s.page k v (omega arith) b ∙ holds.l0_test k b;
  l1_uart = λ k b. page_elsewhere mem s.l1_uart s.page k v (omega arith) b ∙ holds.l1_uart k b;
  l0_uart = λ k b. page_elsewhere mem s.l0_uart s.page k v (omega arith) b ∙ holds.l0_uart k b;
}
