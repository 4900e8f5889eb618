-- ===== src/Shell.antt =====
-- src/shell/cmds.c: the line editor and the four commands of the UART shell.
pub mod Editing
pub mod Reading
pub mod Screen
pub mod Strings
pub mod Commands
pub mod Session
mod Tests
use riscv_baremetal_demo.Base.{
  ℕ, zero, suc, ◌+◌, ◌-◌, Bool, true, false, ◌&&◌, ◌||◌, Option, none, some, List, [], ◌∷◌, ◌++◌,
  ltb, ◌==◌, if◌then◌else◌, get_or, set, drop,
}
use riscv_baremetal_demo.Base.Text.{codes}
use riscv_baremetal_demo.Uart.Text.{dec, hex}
use riscv_baremetal_demo.Uart.Output.{c_str}

abbrev pub line_max : ℕ
line_max = 128

-- The statics `line` and `line_len`.
pub record Line : Type 0 where
  pub buf : List ℕ
  pub len : ℕ

-- One character of `read_line`: what it prints, and the line to go on with or to return.
pub data Key : Type 0 where
  more : List ℕ → Line → Key
  entered : List ℕ → Line → Key

-- A write past the end of `line` changes nothing here; `Editing` shows that there is none.
unfoldable pub read_key : ℕ → Line → Key
read_key c l =
    if c == 13 || c == 10
    then entered (10 ∷ []) (record l { buf = set l.buf l.len 0 })
    else (if c == 0x7f || c == 0x08
        then (if ltb 0 l.len
            then more (codes "\u{8} \u{8}") (record l { len = l.len - 1 })
            else more [] l)
        else (if ltb c 0x20
            then more [] l
            else (if ltb l.len (line_max - 1)
                then more (c ∷ []) (record { buf = set l.buf l.len c; len = l.len + 1 })
                else more [] l)))

-- The loop of `read_line` over the characters that `uart_getc` returns: what it printed, the line,
-- and the input left; `none` if the input ends before the line does.
pub read_loop : List ℕ → Line → Option (List ℕ × Line × List ℕ)
read_loop [] l = none
read_loop (c ∷ input) l = elim (read_key c l) [
  | entered out l' ↦ some (out, l', input)
  | more out l' ↦ elim (read_loop input l') [
    | none ↦ none
    | some (later, l'', rest) ↦ some (out ++ later, l'', rest)
  ]
]

pub read_line : List ℕ → Line → Option (List ℕ × Line × List ℕ)
read_line input l = read_loop input (record l { len = 0 })

-- `*a == *b` where one of the strings has ended.
-- A string is given by its bytes; its end stands for the terminating zero.
unfoldable pub streq : List ℕ → List ℕ → Bool
streq [] [] = true
streq [] (y ∷ b) = 0 == y
streq (x ∷ a) [] = x == 0
streq (x ∷ a) (y ∷ b) =
    let rest = streq a b in if x == 0 then x == y else if x == y then rest else false

unfoldable pub is_echo : List ℕ → Bool
is_echo s =
    streq s (codes "echo")
    || (get_or s 0 0 == b'e'
        && (get_or s 1 0 == b'c'
            && (get_or s 2 0 == b'h' && (get_or s 3 0 == b'o' && get_or s 4 0 == b' '))))

pub cmd_help : List ℕ
cmd_help =
    codes "commands:\n"
    ++ (codes "  help    list commands\n"
        ++ (codes "  echo    print text back byte-for-byte\n"
            ++ (codes "  regs    dump registers saved by the trap handler\n"
                ++ codes "  uptime  print mtime ticks since reset\n")))

-- `line + 4`, and the skip of one blank.
unfoldable pub cmd_echo : List ℕ → List ℕ
cmd_echo s = (if get_or s 0 0 == b' ' then drop 1 s else s) ++ (10 ∷ [])

abbrev pub reg_names : List (List ℕ)
reg_names =
    codes "ra"
    ∷ codes "sp"
    ∷ codes "gp"
    ∷ codes "tp"
    ∷ codes "t0"
    ∷ codes "t1"
    ∷ codes "t2"
    ∷ codes "s0"
    ∷ codes "s1"
    ∷ codes "a0"
    ∷ codes "a1"
    ∷ codes "a2"
    ∷ codes "a3"
    ∷ codes "a4"
    ∷ codes "a5"
    ∷ codes "a6"
    ∷ codes "a7"
    ∷ codes "s2"
    ∷ codes "s3"
    ∷ codes "s4"
    ∷ codes "s5"
    ∷ codes "s6"
    ∷ codes "s7"
    ∷ codes "s8"
    ∷ codes "s9"
    ∷ codes "s10"
    ∷ codes "s11"
    ∷ codes "t3"
    ∷ codes "t4"
    ∷ codes "t5"
    ∷ codes "t6"
    ∷ []

-- The loop of `cmd_regs` over the registers left, from index `i` of the bank on.
regs_from : List (List ℕ) → ℕ → List ℕ → List ℕ
unfolding hex
regs_from [] i bank = []
regs_from (name ∷ names) i bank =
    name ++ (codes " = " ++ (hex (get_or bank i 0) ++ (10 ∷ regs_from names (i + 1) bank)))

-- `bank` is `trap_bank` as the trap on the `ecall` leaves it.
pub cmd_regs : List ℕ → List ℕ
unfolding regs_from hex
cmd_regs bank =
    regs_from reg_names 0 bank
    ++ (codes "mepc    = "
        ++ (hex (get_or bank 31 0)
            ++ (codes "\nmstatus = "
                ++ (hex (get_or bank 32 0)
                    ++ (codes "\nmcause  = " ++ (hex (get_or bank 33 0) ++ (10 ∷ [])))))))

pub cmd_uptime : ℕ → List ℕ
unfolding dec
cmd_uptime mtime = codes "mtime = " ++ (dec mtime ++ codes " ticks\n")

-- What the commands read of the machine.
pub record Machine : Type 0 where
  pub trap_bank : List ℕ
  pub mtime : ℕ

-- `line` up to its zero, and `line_len`.
pub run_command : Machine → List ℕ → ℕ → List ℕ
run_command m line line_len =
    if line_len == 0
    then []
    else if streq line (codes "help")
    then cmd_help
    else if is_echo line
    then cmd_echo (drop 4 line)
    else if streq line (codes "regs")
    then cmd_regs m.trap_bank
    else if streq line (codes "uptime")
    then cmd_uptime m.mtime
    else codes "unknown command: " ++ (line ++ (10 ∷ []))

-- `rounds` rounds of the endless loop of `shell_run`: what they print, and the state and the input
-- after them; `none` if the input ends within them. `machines` is the machine as each command
-- finds it.
pub shell_loop : ℕ → (ℕ → Machine) → List ℕ → Line → Option (List ℕ × Line × List ℕ)
shell_loop zero machines input l = some ([], l, input)
shell_loop (suc rounds) machines input l = elim (read_line input l) [
  | none ↦ none
  | some (echo, l', rest) ↦ elim (shell_loop rounds (λ n. machines (suc n)) rest l') [
    | none ↦ none
    | some (later, l'', rest') ↦ some (
      codes "> " ++ (echo ++ (run_command (machines 0) (c_str l'.buf) l'.len ++ later)),
      l'',
      rest',
    )
  ]
]

pub shell_run : ℕ → (ℕ → Machine) → List ℕ → Line → Option (List ℕ)
shell_run rounds machines input l = elim (shell_loop rounds machines input l) [
  | none ↦ none
  | some (out, _, _) ↦ some (codes "uart-shell ready\n" ++ out)
]
