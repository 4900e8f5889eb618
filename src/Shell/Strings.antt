-- ===== src/Shell/Strings.antt =====
-- `streq` and `is_echo` against equality of texts.
use riscv_baremetal_demo.Base.{
  ℕ, ◌≡◌, refl, ◌↔◌, ◌⊎◌, inl, inr, Bool, true, ◌&&◌, List, [], ◌∷◌, ◌++◌, arith, ◌==◌, Bool-cases,
  get_or,
}
use riscv_baremetal_demo.Base.Text.{codes}
use riscv_baremetal_demo.Shell.{streq, is_echo}
use riscv_baremetal_demo.Shell.Editing.{NoZero}

-- `streq` returns 1 exactly on equal strings, for texts without a zero in them.
pub streq_iff : (a b : List ℕ) → NoZero a → NoZero b → (streq a b ≡ true) ↔ (a ≡ b)
unfolding streq
streq_iff [] [] ha hb = (λ _. refl, λ _. refl)
streq_iff [] (y ∷ b) ha hb = ground (arith, hb.0)
streq_iff (x ∷ a) [] ha hb = ground (arith, ha.0)
streq_iff (x ∷ a) (y ∷ b) ha hb = ground (arith, ha.0, streq_iff a b ha.1 hb.1)

starts_echo : List ℕ → Bool
starts_echo s =
    get_or s 0 0 == b'e'
    && (get_or s 1 0 == b'c'
        && (get_or s 2 0 == b'h' && (get_or s 3 0 == b'o' && get_or s 4 0 == b' ')))

starts_echo-tail : (s : List ℕ) → starts_echo s ≡ true → (t : List ℕ) × (s ≡ codes "echo " ++ t)
unfolding starts_echo
starts_echo-tail [] h = ground arith
starts_echo-tail (a ∷ []) h = absurd (ground arith)
starts_echo-tail (a ∷ b ∷ []) h = absurd (ground arith)
starts_echo-tail (a ∷ b ∷ c ∷ []) h = absurd (ground arith)
starts_echo-tail (a ∷ b ∷ c ∷ d ∷ []) h = absurd (ground arith)
starts_echo-tail (a ∷ b ∷ c ∷ d ∷ e ∷ t) h = (t, ground arith)

starts_echo-append : (s t : List ℕ) → s ≡ codes "echo " ++ t → starts_echo s ≡ true
unfolding starts_echo
starts_echo-append s t e = rw e refl

-- Which texts count as the echo command: the word alone, or the word and a blank before the rest.
pub is_echo_iff :
    (s : List ℕ)
    → NoZero s
    → (is_echo s ≡ true) ↔ ((s ≡ codes "echo") ⊎ ((t : List ℕ) × (s ≡ codes "echo " ++ t)))
unfolding is_echo starts_echo
is_echo_iff s h =
    let word =
      streq_iff s (codes "echo") h (omega arith, (omega arith, (omega arith, (omega arith, tt)))) in
    (
      λ e. elim (Bool-cases (streq s (codes "echo"))) [
        | inl alone ↦ inl (word.0 alone)
        | inr not_alone ↦ inr (starts_echo-tail s (rw not_alone at e))
      ],
      λ d. elim d [
        | inl alone ↦ rw (word.1 alone) refl
        | inr rest ↦ ground (arith, starts_echo-append s rest.0 rest.1)
      ],
    )
