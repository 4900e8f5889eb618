-- ===== src/Shell/Screen.antt =====
-- What a terminal shows of the echo of `read_line`.
use riscv_baremetal_demo.Base.{
  ℕ, ◌-◌, ◌<◌, ◌≡◌, refl, sym, ap, ◌∙◌, ◌≢◌, inl, inr, true, false, ◌||◌, some, List, [], ◌∷◌, ◌++◌,
  arith, ltb, ◌==◌, if◌then◌else◌, ltb→lt, ==_iff, Bool-cases, length, drop,
}
use mathlib.Core.List.{append_assoc}
use riscv_baremetal_demo.Base.Text.{codes}
use riscv_baremetal_demo.Uart.Output.{c_str}
use riscv_baremetal_demo.Shell.{line_max, Line, read_line}
use riscv_baremetal_demo.Shell.Editing.{is_enter, edit, edit_all, echo_of, echo_all, but_last}
use riscv_baremetal_demo.Shell.Reading.{NoEnter, read_line_lem}

-- One line of a terminal: the cells before the cursor, and those from the cursor on.
pub record Row : Type 0 where
  pub left : List ℕ
  pub right : List ℕ

abbrev pub last_cell : List ℕ → List ℕ
last_cell [] = []
last_cell (c ∷ []) = c ∷ []
last_cell (c ∷ d ∷ s) = last_cell (d ∷ s)

-- A backspace moves the cursor back one cell; any other character overwrites a cell and moves on.
unfoldable pub show_char : ℕ → Row → Row
show_char c r =
    if c == 8
    then record { left = but_last r.left; right = last_cell r.left ++ r.right }
    else record { left = r.left ++ (c ∷ []); right = drop 1 r.right }

unfoldable pub show_all : List ℕ → Row → Row
show_all [] r = r
show_all (c ∷ s) r = show_all s (show_char c r)

abbrev pub AllBlank : List ℕ → Type 0
AllBlank [] = Unit {0}
AllBlank (c ∷ s) = (c ≡ 32) × AllBlank s

-- The row shows `prompt` and then `s`, with the cursor behind it and only blanks after that.
pub record Shows (prompt s : List ℕ) (r : Row) : Type 0 where
  pub shown : r.left ≡ prompt ++ s
  pub blank : AllBlank r.right

but_last-append : (s : List ℕ) (c : ℕ) → but_last (s ++ (c ∷ [])) ≡ s
but_last-append [] c = refl
but_last-append (x ∷ []) c = refl
but_last-append (x ∷ y ∷ s) c = ap (λ t. x ∷ t) (but_last-append (y ∷ s) c)

last_cell-append : (s : List ℕ) (c : ℕ) → last_cell (s ++ (c ∷ [])) ≡ c ∷ []
last_cell-append [] c = refl
last_cell-append (x ∷ []) c = refl
last_cell-append (x ∷ y ∷ s) c = last_cell-append (y ∷ s) c

-- A text that is not empty ends in a character.
snoc_of : (s : List ℕ) → 0 < length s → (c : ℕ) × (s ≡ but_last s ++ (c ∷ []))
snoc_of [] h = absurd (omega arith)
snoc_of (x ∷ []) h = (x, refl)
snoc_of (x ∷ y ∷ s) h = let (c, e) = snoc_of (y ∷ s) (omega arith) in (c, ap (λ t. x ∷ t) e)

but_last_empty : (s : List ℕ) → ltb 0 (length s) ≡ false → but_last s ≡ s
but_last_empty [] h = refl
but_last_empty (x ∷ s) h = absurd (ground arith)

-- Backspace, blank, backspace behind a character clears its cell.
show_erase :
    (q right : List ℕ) (d : ℕ)
    → show_all (codes "\u{8} \u{8}") (record { left = q ++ (d ∷ []); right = right })
      ≡ record { left = q; right = 32 ∷ right }
unfolding show_all show_char
show_erase q right d = simp (but_last-append, last_cell-append)

AllBlank-drop : (s : List ℕ) → AllBlank s → AllBlank (drop 1 s)
AllBlank-drop [] h = tt
AllBlank-drop (c ∷ s) h = h.1

module _ (prompt s : List ℕ) (r : Row) (now : Shows prompt s r) where
  erase-Shows : 0 < length s → Shows prompt (but_last s) (show_all (codes "\u{8} \u{8}") r)
  erase-Shows h =
      let (d, e) = snoc_of s h in
      let split : r.left ≡ (prompt ++ but_last s) ++ (d ∷ []) =
        now.shown ∙ ap (λ t. prompt ++ t) e ∙ sym (append_assoc prompt (but_last s) (d ∷ [])) in
      let row : r ≡ record { left = (prompt ++ but_last s) ++ (d ∷ []); right = r.right } =
        λ i. record { left = split i; right = r.right } in
      rw (row, show_erase (prompt ++ but_last s) r.right d)
        (record { shown = refl; blank = (refl, now.blank) })

  type-Shows : (c : ℕ) → c ≢ 8 → Shows prompt (s ++ (c ∷ [])) (show_char c r)
  unfolding show_char
  type-Shows c ne = elim (Bool-cases (c == 8)) [
    | inl e ↦ absurd (ne ((==_iff c 8).0 e))
    | inr e ↦ rw e (record {
      shown = ap (λ t. t ++ (c ∷ [])) now.shown ∙ append_assoc prompt s (c ∷ []);
      blank = AllBlank-drop r.right now.blank;
    })
  ]

  key-Shows : (c : ℕ) → Shows prompt (edit s c) (show_all (echo_of s c) r)
  key-Shows c = elim (Bool-cases (c == 0x7f || c == 0x08)) [
    | inl del ↦ elim (Bool-cases (ltb 0 (length s))) [
      | inl left ↦ rw (del, left) (erase-Shows (ltb→lt 0 (length s) left))
      | inr empty ↦ rw (del, empty, but_last_empty s empty) (unfold show_all in now)
    ]
    | inr keep ↦ elim (Bool-cases (ltb c 0x20)) [
      | inl control ↦ rw (keep, control) (unfold show_all in now)
      | inr shown ↦ elim (Bool-cases (ltb (length s) (line_max - 1))) [
        | inl fits ↦ rw (keep, shown, fits) (unfold show_all in type-Shows c (ground (arith, keep)))
        | inr full ↦ rw (keep, shown, full) (unfold show_all in now)
      ]
    ]
  ]

show_all-append : (a b : List ℕ) (r : Row) → show_all (a ++ b) r ≡ show_all b (show_all a r)
unfolding show_all
show_all-append [] b r = refl
show_all-append (c ∷ a) b r = show_all-append a b (show_char c r)

echo_all-Shows :
    (keys prompt s : List ℕ) (r : Row)
    → Shows prompt s r
    → Shows prompt (edit_all s keys) (show_all (echo_all s keys) r)
unfolding edit_all echo_all
echo_all-Shows [] prompt s r now = unfold show_all in now
echo_all-Shows (c ∷ keys) prompt s r now =
    rw (show_all-append (echo_of s c) (echo_all (edit s c) keys) r) (
      echo_all-Shows keys prompt (edit s c) (show_all (echo_of s c) r) (key-Shows prompt s r now c))

-- What you see is what is run: when `read_line` returns, what it printed before the final newline
-- makes a terminal row that showed the prompt show the prompt, then exactly the string in `line`,
-- and only blanks behind it, whatever was typed and erased. The row is taken to be wide enough.
pub read_line-Shows :
    (keys : List ℕ) (n : ℕ) (rest prompt : List ℕ) (l : Line) (r : Row)
    → NoEnter keys
    → is_enter n ≡ true
    → length l.buf ≡ line_max
    → Shows prompt [] r
    → (echo : List ℕ) × (l' : Line) × (read_line (keys ++ (n ∷ rest)) l
        ≡ some (echo ++ (10 ∷ []), l', rest))
      × Shows prompt (c_str l'.buf) (show_all echo r)
read_line-Shows keys n rest prompt l r h e size now =
    let (l', returns, string, len, valid) = read_line_lem keys n rest l h e size in
    (echo_all [] keys, l', returns, rw string (echo_all-Shows keys prompt [] r now))
