-- ===== src/Shell/Reading.antt =====
-- `read_line` as a whole: what it leaves in `line` and what it prints.
use riscv_baremetal_demo.Base.{
  ℕ, ◌≡◌, sym, ap, ◌∙◌, inl, inr, true, false, Option, some, List, [], ◌∷◌, ◌++◌, arith, ltb,
  Bool-cases, length, set, length-set,
}
use mathlib.Core.List.{append_assoc}
use riscv_baremetal_demo.Uart.Output.{c_str}
use riscv_baremetal_demo.Shell.{Line, line_max, more, read_key, read_loop, read_line}
use riscv_baremetal_demo.Shell.Editing.{
  IsValid, is_enter, edit, edit_all, echo_of, echo_all, text, NoZero, NoZero-append,
  NoZero-but_last, c_str-set, length-text, read_key-Edited,
}

-- Keys none of which ends the line.
abbrev pub NoEnter : List ℕ → Type 0
NoEnter [] = Unit {0}
NoEnter (c ∷ keys) = (is_enter c ≡ false) × NoEnter keys

edit-NoZero : (s : List ℕ) (c : ℕ) → NoZero s → NoZero (edit s c)
edit-NoZero s c n = elim (Bool-cases (ltb c 0x20)) [
  | inl control ↦ ground (arith, control, n, NoZero-but_last s n)
  | inr shown ↦
      ground (
        arith,
        shown,
        n,
        NoZero-but_last s n,
        NoZero-append s (c ∷ []) n (ground (arith, shown), tt),
      )
]

-- The line and the screen at the end of `read_line`, begun at the text `s`.
record Reads (s keys rest : List ℕ) (r : Option (List ℕ × Line × List ℕ)) : Type 0 where
  line : Line
  returns : r ≡ some (echo_all s keys ++ (10 ∷ []), line, rest)
  valid : IsValid line
  string : c_str line.buf ≡ edit_all s keys
  len : line.len ≡ length (edit_all s keys)

enter-Reads :
    (n : ℕ) (rest : List ℕ) (l : Line)
    → is_enter n ≡ true
    → IsValid l
    → NoZero (text l)
    → Reads (text l) [] rest (read_loop (n ∷ rest) l)
unfolding read_loop read_key edit_all echo_all
enter-Reads n rest l e v z = record {
  line = record l { buf = set l.buf l.len 0 };
  returns = ground (arith, e);
  valid = record { size = length-set l.buf l.len 0 ∙ v.size; room = v.room };
  string = c_str-set l.buf l.len (omega (arith, v.size, v.room)) z;
  len = sym (length-text l v);
}

read_loop-more :
    (c : ℕ) (input : List ℕ) (l : Line) {l' l'' : Line} {out later rest : List ℕ}
    → read_key c l ≡ more out l'
    → read_loop input l' ≡ some (later, l'', rest)
    → read_loop (c ∷ input) l ≡ some (out ++ later, l'', rest)
unfolding read_loop
read_loop-more c input l e h = ground (arith, e, h)

echo-cons :
    (c : ℕ) (keys s : List ℕ) {t : List ℕ}
    → t ≡ edit s c
    → echo_of s c ++ (echo_all t keys ++ (10 ∷ [])) ≡ echo_all s (c ∷ keys) ++ (10 ∷ [])
unfolding echo_all
echo-cons c keys s h = rw h (sym (append_assoc (echo_of s c) (echo_all (edit s c) keys) (10 ∷ [])))

read_loop-Reads :
    (keys : List ℕ) (n : ℕ) (rest : List ℕ) (l : Line)
    → NoEnter keys
    → is_enter n ≡ true
    → IsValid l
    → NoZero (text l)
    → Reads (text l) keys rest (read_loop (keys ++ (n ∷ rest)) l)
read_loop-Reads [] n rest l h e v z = enter-Reads n rest l e v z
read_loop-Reads (c ∷ keys) n rest l h e v z =
    let k = read_key-Edited l v c h.0 in
    let z' : NoZero (text k.line) = rw k.holds (edit-NoZero (text l) c z) in
    let later = read_loop-Reads keys n rest k.line h.1 e k.valid z' in
    record {
      line = later.line;
      returns =
          read_loop-more c (keys ++ (n ∷ rest)) l k.goes_on later.returns
          ∙ ap (λ out. some (out, later.line, rest)) (echo-cons c keys (text l) k.holds);
      valid = later.valid;
      string = later.string ∙ unfold edit_all in ap (λ s. edit_all s keys) k.holds;
      len = later.len ∙ unfold edit_all in ap (λ s. length (edit_all s keys)) k.holds;
    }

-- `read_line`, given keys with no line end among them, a line end and more input, returns at that
-- line end with the rest of the input unread. `line` then holds the text that the keys edit
-- from nothing, ended by a zero; `line_len` is that text's length and below 128, so nothing was
-- written past the end of the array; and each key was echoed, then a newline.
pub read_line_lem :
    (keys : List ℕ) (n : ℕ) (rest : List ℕ) (l : Line)
    → NoEnter keys
    → is_enter n ≡ true
    → length l.buf ≡ line_max
    → (l' : Line) × (read_line (keys ++ (n ∷ rest)) l
        ≡ some (echo_all [] keys ++ (10 ∷ []), l', rest))
      × (c_str l'.buf ≡ edit_all [] keys)
      × (l'.len ≡ length (edit_all [] keys))
      × IsValid l'
unfolding read_line
read_line_lem keys n rest l h e size =
    let fresh : Line = record l { len = 0 } in
    let r = read_loop-Reads keys n rest fresh h e (record { size = size; room = omega arith }) tt in
    (r.line, r.returns, r.string, r.len, r.valid)
