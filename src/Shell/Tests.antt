-- ===== src/Shell/Tests.antt =====
-- The shell of src/shell/cmds.c at concrete input.
use riscv_baremetal_demo.Base.{ℕ, ◌≡◌, refl, some, List, [], ◌∷◌, ◌++◌, arith, replicate}
use riscv_baremetal_demo.Base.Text.{codes}
use riscv_baremetal_demo.Uart.Output.{c_str}
use riscv_baremetal_demo.Shell.{Line, Machine, read_line, run_command, shell_run}
use riscv_baremetal_demo.Shell.Editing.{IsValid, edit_all, echo_all}
use riscv_baremetal_demo.Shell.Reading.{read_line_lem}
use riscv_baremetal_demo.Shell.Screen.{Shows, show_all, read_line-Shows}
use riscv_baremetal_demo.Shell.Commands.{Command, Names, answer, run_command-answers}
use riscv_baremetal_demo.Shell.Session.{Typed, input_of, transcript, shell_run-transcript}

-- What an earlier line left behind.
abbrev used_line : Line
used_line = record { buf = 104 ∷ 105 ∷ 0 ∷ replicate 125 7; len = 2 }

-- "hx", delete, "i": the line reads "hi".
abbrev typo : List ℕ
typo = b'h' ∷ b'x' ∷ 0x7f ∷ b'i' ∷ []

abbrev idle : ℕ → Machine
idle n = record { trap_bank = []; mtime = n }

read_line_lem_example :
    (l' : Line) × (read_line (typo ++ (13 ∷ b'!' ∷ [])) used_line
      ≡ some (echo_all [] typo ++ (10 ∷ []), l', b'!' ∷ []))
    × (c_str l'.buf ≡ codes "hi")
    × (l'.len ≡ 2)
    × IsValid l'
unfolding edit_all
read_line_lem_example =
    read_line_lem typo 13 (b'!' ∷ []) used_line (refl, (refl, (refl, (refl, tt)))) refl refl

read_line-Shows_example :
    (echo : List ℕ) × (l' : Line) × (read_line (typo ++ (10 ∷ [])) used_line
      ≡ some (echo ++ (10 ∷ []), l', []))
    × Shows (codes "> ") (c_str l'.buf) (show_all echo (record { left = codes "> "; right = [] }))
read_line-Shows_example =
    read_line-Shows typo 10 [] (codes "> ") used_line (record { left = codes "> "; right = [] })
      (refl, (refl, (refl, (refl, tt)))) refl refl (record { shown = refl; blank = tt })

run_command-answers_example :
    (c : Command) × Names (codes "no") c × (run_command (idle 0) (codes "no") 2 ≡ answer (idle 0) c)
run_command-answers_example =
    run_command-answers (idle 0) (codes "no") (omega arith, (omega arith, tt))

abbrev two_lines : List Typed
two_lines = record { keys = typo; enter = 13 } ∷ record { keys = codes "echo a"; enter = 10 } ∷ []

shell_run-transcript_example :
    shell_run 2 idle (input_of two_lines (b'x' ∷ [])) used_line
    ≡ some (codes "uart-shell ready\n" ++ transcript idle two_lines)
shell_run-transcript_example =
    shell_run-transcript idle two_lines (b'x' ∷ []) used_line
      (
        ((refl, (refl, (refl, (refl, tt)))), refl),
        (((refl, (refl, (refl, (refl, (refl, (refl, tt)))))), refl), tt),
      )
      refl
