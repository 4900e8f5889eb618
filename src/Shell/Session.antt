-- ===== src/Shell/Session.antt =====
-- The shell's loop over several lines.
use riscv_baremetal_demo.Base.{ℕ, suc, ◌≡◌, refl, true, some, List, [], ◌∷◌, ◌++◌, arith, length}
use riscv_baremetal_demo.Base.Text.{codes}
use riscv_baremetal_demo.Shell.{Line, line_max, Machine, run_command, shell_loop, shell_run}
use riscv_baremetal_demo.Shell.Editing.{is_enter, edit_all, echo_all}
use riscv_baremetal_demo.Shell.Reading.{NoEnter, read_line_lem}

-- A line as it is typed: keys, and the line end that closes them.
pub record Typed : Type 0 where
  pub keys : List ℕ
  pub enter : ℕ

abbrev pub IsTyped : Typed → Type 0
IsTyped t = NoEnter t.keys × (is_enter t.enter ≡ true)

abbrev pub AllTyped : List Typed → Type 0
AllTyped [] = Unit {0}
AllTyped (t ∷ ts) = IsTyped t × AllTyped ts

pub input_of : List Typed → List ℕ → List ℕ
input_of [] rest = rest
input_of (t ∷ ts) rest = t.keys ++ (t.enter ∷ input_of ts rest)

-- What is printed for each line on its own: the prompt, the echo, and the answer to the text that
-- its keys edit from nothing.
pub transcript : (ℕ → Machine) → List Typed → List ℕ
transcript machines [] = []
transcript machines (t ∷ ts) =
    let s = edit_all [] t.keys in
    codes "> "
    ++ ((echo_all [] t.keys ++ (10 ∷ []))
        ++ (run_command (machines 0) s (length s) ++ transcript (λ n. machines (suc n)) ts))

shell_loop-transcript :
    (machines : ℕ → Machine) (ts : List Typed) (rest : List ℕ) (l : Line)
    → AllTyped ts
    → length l.buf ≡ line_max
    → (l' : Line) × (shell_loop (length ts) machines (input_of ts rest) l
        ≡ some (transcript machines ts, l', rest))
unfolding shell_loop input_of transcript
shell_loop-transcript machines [] rest l h size = (l, refl)
shell_loop-transcript machines (t ∷ ts) rest l h size =
    let (l', returns, string, len, valid) =
      read_line_lem t.keys t.enter (input_of ts rest) l h.0.0 h.0.1 size in
    let later = shell_loop-transcript (λ n. machines (suc n)) ts rest l' h.1 valid.size in
    (later.0, ground (arith, returns, string, len, later.1))

-- The shell treats every line alike: over any number of typed lines it prints, after its greeting,
-- the transcript of each line on its own, so nothing of an earlier line is left in a later one.
pub shell_run-transcript :
    (machines : ℕ → Machine) (ts : List Typed) (rest : List ℕ) (l : Line)
    → AllTyped ts
    → length l.buf ≡ line_max
    → shell_run (length ts) machines (input_of ts rest) l
      ≡ some (codes "uart-shell ready\n" ++ transcript machines ts)
unfolding shell_run
shell_run-transcript machines ts rest l h size =
    let (l', e) = shell_loop-transcript machines ts rest l h size in ground (arith, e)
