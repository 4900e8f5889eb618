-- ===== src/Smp.antt =====
-- src/smp: the spinlock, the locked printing, and what the two harts print. A hart is the list of
-- its memory actions that concern the lock and the output; the harts take turns in any order.
pub mod Lock
pub mod Harts
pub mod Progress
mod Tests
use riscv_baremetal_demo.Base.{ℕ, ◌+◌, ◌≡◌, ◌≢◌, Bool, List, [], ◌∷◌, ◌++◌, if◌then◌else◌}
use riscv_baremetal_demo.Base.Text.{codes, joined}
use riscv_baremetal_demo.Uart.Text.{dec, hex}

-- One turn of the `amoswap` loop, a character for the UART, or the store of zero.
pub data Action : Type 0 where
  swap : Action
  put : ℕ → Action
  clear : Action

-- The text of one locked call.
abbrev pub Call : Type 0
Call = List ℕ

unfoldable pub puts : List ℕ → List Action → List Action
puts [] after = after
puts (c ∷ s) after = put c ∷ puts s after

-- `spin_lock`, the printing, `spin_unlock`.
unfoldable pub locked_call : Call → List Action → List Action
unfolding puts
locked_call s after = swap ∷ puts s (clear ∷ after)

-- The actions of a hart that makes calls one after the other.
unfoldable pub program : List Call → List Action
unfolding locked_call
program [] = []
program (s ∷ calls) = locked_call s (program calls)

abbrev pub locked_puts : List ℕ → Call
locked_puts s = s

abbrev number : ℕ → Bool → List ℕ
number v is_hex = if is_hex then hex v else dec v

unfoldable pub locked_print_kv : List ℕ → ℕ → Bool → Call
unfolding hex dec
locked_print_kv label v is_hex = joined (label ∷ codes "=" ∷ number v is_hex ∷ codes "\n" ∷ [])

unfoldable pub locked_print_line2 : List ℕ → ℕ → List ℕ → ℕ → Bool → Call
unfolding hex dec
locked_print_line2 a va b vb is_hex = joined (
    a
    ∷ codes "="
    ∷ number va is_hex
    ∷ codes " "
    ∷ b
    ∷ codes "="
    ∷ number vb is_hex
    ∷ codes "\n"
    ∷ [])

-- The lock word, the output, and what each hart has still to do.
pub record Machine : Type 0 where
  pub locked : ℕ
  pub out : List ℕ
  pub hart0 : List Action
  pub hart1 : List Action

-- The action that a hart makes next: from lock word and actions, to lock word, actions and output.
pub data Acts (l : ℕ) (p : List Action) (l' : ℕ) (p' : List Action) (e : List ℕ) : Type 0 where
  wins : l ≡ 0 → p ≡ swap ∷ p' → l' ≡ 1 → e ≡ [] → Acts l p l' p' e
  spins :
      (rest : List Action) → l ≢ 0 → p ≡ swap ∷ rest → l' ≡ 1 → p' ≡ p → e ≡ [] → Acts l p l' p' e
  prints : (c : ℕ) → p ≡ put c ∷ p' → l' ≡ l → e ≡ c ∷ [] → Acts l p l' p' e
  clears : p ≡ clear ∷ p' → l' ≡ 0 → e ≡ [] → Acts l p l' p' e

pub data Step : Machine → Machine → Type 0 where
  first :
      (l l' : ℕ) (out e : List ℕ) (p p' other : List Action)
      → Acts l p l' p' e
      → Step
          (record { locked = l; out = out; hart0 = p; hart1 = other })
          (record { locked = l'; out = out ++ e; hart0 = p'; hart1 = other })
  second :
      (l l' : ℕ) (out e : List ℕ) (p p' other : List Action)
      → Acts l p l' p' e
      → Step
          (record { locked = l; out = out; hart0 = other; hart1 = p })
          (record { locked = l'; out = out ++ e; hart0 = other; hart1 = p' })

-- What any order of the harts' actions reaches, with the lock free and nothing printed at first.
pub data Reaches (calls0 calls1 : List Call) : Machine → Type 0 where
  begins :
      Reaches calls0 calls1
        (record { locked = 0; out = []; hart0 = program calls0; hart1 = program calls1 })
  goes_on : (m m' : Machine) → Reaches calls0 calls1 m → Step m m' → Reaches calls0 calls1 m'
