-- ===== src/Shell/Commands.antt =====
-- Which command `run_command` runs.
use riscv_baremetal_demo.Base.{
  ℕ, suc, ◌≡◌, refl, sym, ◌≢◌, inl, inr, Bool, true, false, List, [], ◌∷◌, ◌++◌, arith, ◌==◌,
  Bool-cases, length,
}
use mathlib.Core.Path.{subst}
use riscv_baremetal_demo.Base.Text.{codes}
use riscv_baremetal_demo.Shell.{
  Machine, streq, is_echo, cmd_help, cmd_echo, cmd_regs, cmd_uptime, run_command,
}
use riscv_baremetal_demo.Shell.Editing.{NoZero}
use riscv_baremetal_demo.Shell.Strings.{streq_iff, is_echo_iff}

-- The commands as a reader of the help text has them.
pub data Command : Type 0 where
  nothing help regs uptime : Command
  echo unknown : List ℕ → Command

pub data Names : List ℕ → Command → Type 0 where
  empty_line : Names [] nothing
  help_word : Names (codes "help") help
  echo_word : Names (codes "echo") (echo [])
  echo_text : (t : List ℕ) → Names (codes "echo " ++ t) (echo t)
  regs_word : Names (codes "regs") regs
  uptime_word : Names (codes "uptime") uptime
  other :
      (s : List ℕ)
      → s ≢ []
      → s ≢ codes "help"
      → s ≢ codes "echo"
      → ((t : List ℕ) → s ≢ codes "echo " ++ t)
      → s ≢ codes "regs"
      → s ≢ codes "uptime"
      → Names s (unknown s)

abbrev pub answer : Machine → Command → List ℕ
answer m nothing = []
answer m help = cmd_help
answer m regs = cmd_regs m.trap_bank
answer m uptime = cmd_uptime m.mtime
answer m (echo t) = t ++ codes "\n"
answer m (unknown s) = codes "unknown command: " ++ (s ++ codes "\n")

suc-==-zero : (n : ℕ) → (suc n == 0) ≡ false
suc-==-zero n = ground arith

not_true : (b : Bool) → b ≢ true → b ≡ false
not_true true h = absurd (h refl)
not_true false h = refl

true≢ : {b : Bool} → b ≡ true → b ≡ false → ⊥
true≢ p q = cc

help-NoZero : NoZero (codes "help")
help-NoZero = (omega arith, (omega arith, (omega arith, (omega arith, tt))))

regs-NoZero : NoZero (codes "regs")
regs-NoZero = (omega arith, (omega arith, (omega arith, (omega arith, tt))))

uptime-NoZero : NoZero (codes "uptime")
uptime-NoZero =
    (omega arith, (omega arith, (omega arith, (omega arith, (omega arith, (omega arith, tt))))))

run_command-other :
    (m : Machine) (s : List ℕ)
    → NoZero s
    → s ≢ []
    → s ≢ codes "help"
    → s ≢ codes "echo"
    → ((t : List ℕ) → s ≢ codes "echo " ++ t)
    → s ≢ codes "regs"
    → s ≢ codes "uptime"
    → run_command m s (length s) ≡ codes "unknown command: " ++ (s ++ (10 ∷ []))
unfolding run_command
run_command-other m [] z e h w t r u = absurd (e refl)
run_command-other m (c ∷ s) z e h w t r u =
    rw
      (
        not_true (streq (c ∷ s) (codes "help"))
            (λ q. h ((streq_iff (c ∷ s) (codes "help") z help-NoZero).0 q)),
        not_true (is_echo (c ∷ s)) no_echo,
        not_true (streq (c ∷ s) (codes "regs"))
            (λ q. r ((streq_iff (c ∷ s) (codes "regs") z regs-NoZero).0 q)),
        not_true (streq (c ∷ s) (codes "uptime"))
            (λ q. u ((streq_iff (c ∷ s) (codes "uptime") z uptime-NoZero).0 q)),
        suc-==-zero (length s),
      )
      refl
  where
    no_echo : is_echo (c ∷ s) ≢ true
    no_echo q = elim ((is_echo_iff (c ∷ s) z).0 q) [
      | inl word ↦ w word
      | inr tail ↦ t tail.0 tail.1
    ]

run_command-answer :
    (m : Machine) {s : List ℕ} {c : Command}
    → Names s c
    → NoZero s
    → run_command m s (length s) ≡ answer m c
unfolding run_command streq is_echo cmd_echo
run_command-answer m empty_line z = refl
run_command-answer m help_word z = refl
run_command-answer m echo_word z = refl
run_command-answer m (echo_text t) z = rw (suc-==-zero (length (codes "cho " ++ t))) refl
run_command-answer m regs_word z = refl
run_command-answer m uptime_word z = refl
run_command-answer m (other s e h w t r u) z = run_command-other m s z e h w t r u

by_equality : {s t : List ℕ} {c : Command} → s ≡ t → Names t c → Names s c
by_equality {c} e n = subst (λ x. Names x c) (sym e) n

-- Every text is one of the commands, or none of them.
classify : (s : List ℕ) → NoZero s → (c : Command) × Names s c
classify [] z = (nothing, empty_line)
classify (x ∷ s) z =
    let word = λ (t : List ℕ) (nz : NoZero t). streq_iff (x ∷ s) t z nz in
    elim (Bool-cases (streq (x ∷ s) (codes "help"))) [
      | inl h ↦ (help, by_equality ((word (codes "help") help-NoZero).0 h) help_word)
      | inr h ↦ elim (Bool-cases (is_echo (x ∷ s))) [
        | inl e ↦ elim ((is_echo_iff (x ∷ s) z).0 e) [
          | inl alone ↦ (echo [], by_equality alone echo_word)
          | inr rest ↦ (echo rest.0, by_equality rest.1 (echo_text rest.0))
        ]
        | inr e ↦ elim (Bool-cases (streq (x ∷ s) (codes "regs"))) [
          | inl r ↦ (regs, by_equality ((word (codes "regs") regs-NoZero).0 r) regs_word)
          | inr r ↦ elim (Bool-cases (streq (x ∷ s) (codes "uptime"))) [
            | inl u ↦ (uptime, by_equality ((word (codes "uptime") uptime-NoZero).0 u) uptime_word)
            | inr u ↦ (
              unknown (x ∷ s),
              other (x ∷ s) (λ q. cc) (λ q. true≢ ((word (codes "help") help-NoZero).1 q) h)
                  (λ q. true≢ ((is_echo_iff (x ∷ s) z).1 (inl q)) e)
                  (λ t q. true≢ ((is_echo_iff (x ∷ s) z).1 (inr (t, q))) e)
                  (λ q. true≢ ((word (codes "regs") regs-NoZero).1 q) r)
                  (λ q. true≢ ((word (codes "uptime") uptime-NoZero).1 q) u),
            )
          ]
        ]
      ]
    ]

-- Every line without a zero is one of the commands that the help text lists, or empty, or none of
-- them, and `run_command` prints the answer to whichever of these the line is: nothing for an
-- empty line, exactly the text behind `echo ` and a newline, and the unknown line by name.
pub run_command-answers :
    (m : Machine) (s : List ℕ)
    → NoZero s
    → (c : Command) × Names s c × (run_command m s (length s) ≡ answer m c)
run_command-answers m s z = let (c, n) = classify s z in (c, n, run_command-answer m n z)
