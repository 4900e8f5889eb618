-- ===== src/Probe.antt =====
-- What the single-file demos under src/ share: the `check` function with its counters, the FNV-1a
-- checksum over recorded values, and the doubleword memory that their arrays live in.
use riscv_baremetal_demo.Base.{
  ℕ, zero, suc, ◌+◌, ◌*◌, ◌/◌, ◌%◌, ◌^◌, ◌≤◌, bit_xor, ◌≡◌, refl, Bool, true, false, List, [], ◌∷◌,
  ◌++◌, arith, if◌then◌else◌,
}
use riscv_baremetal_demo.Base.Text.{codes, joined}

-- A statement that prints or checks, its values read already.
pub data Statement : Type 0 where
  says : List (List ℕ) → Statement
  check : Bool → List ℕ → Statement

-- `checks` and `fails`, and what the demo has printed.
pub record Log : Type 0 where
  pub out : List ℕ
  pub checks : ℕ
  pub fails : ℕ

abbrev pub power_up : Log
power_up = record { out = []; checks = 0; fails = 0 }

-- One statement. A demo without the counter `checks` prints none.
unfoldable pub perform : Statement → Log → Log
perform (says texts) l = record l { out = l.out ++ joined texts }
perform (check cond msg) l =
    let counted = record l { checks = l.checks + 1 } in
    if cond then counted else record counted {
      out = l.out ++ (codes "  FAIL: " ++ (msg ++ codes "\n"));
      fails = l.fails + 1;
    }

unfoldable pub run : List Statement → Log → Log
run [] l = l
run (s ∷ ss) l = run ss (perform s l)

-- Every check of a list of statements holds.
abbrev pub Passes : List Statement → Type 0
Passes [] = Unit
Passes (says texts ∷ ss) = Passes ss
Passes (check cond msg ∷ ss) = (cond ≡ true) × Passes ss

pub run-Passes : (ss : List Statement) (l : Log) → Passes ss → (run ss l).fails ≡ l.fails
unfolding run perform
run-Passes [] l p = refl
run-Passes (says texts ∷ ss) l p = run-Passes ss _ p
run-Passes (check cond msg ∷ ss) l (holds, p) = rw holds (run-Passes ss _ p)

pub Passes-append : (ss ts : List Statement) → Passes ss → Passes ts → Passes (ss ++ ts)
Passes-append [] ts p q = q
Passes-append (says texts ∷ ss) ts p q = Passes-append ss ts p q
Passes-append (check cond msg ∷ ss) ts (holds, p) q = (holds, Passes-append ss ts p q)

run-grows : (ss : List Statement) (l : Log) → l.fails ≤ (run ss l).fails
unfolding run perform
run-grows [] l = omega arith
run-grows (says texts ∷ ss) l = omega (arith, run-grows ss (perform (says texts) l))
run-grows (check true msg ∷ ss) l = omega (arith, run-grows ss (perform (check true msg) l))
run-grows (check false msg ∷ ss) l = omega (arith, run-grows ss (perform (check false msg) l))

-- No failure was counted, so every check holds.
pub Passes-of_run : (ss : List Statement) (l : Log) → (run ss l).fails ≡ l.fails → Passes ss
unfolding run perform
Passes-of_run [] l e = tt
Passes-of_run (says texts ∷ ss) l e = Passes-of_run ss (perform (says texts) l) e
Passes-of_run (check true msg ∷ ss) l e = (refl, Passes-of_run ss (perform (check true msg) l) e)
Passes-of_run (check false msg ∷ ss) l e =
    absurd (omega (arith, run-grows ss (perform (check false msg) l)))

pub Passes-first : (ss ts : List Statement) → Passes (ss ++ ts) → Passes ss
Passes-first [] ts p = tt
Passes-first (says texts ∷ ss) ts p = Passes-first ss ts p
Passes-first (check cond msg ∷ ss) ts (holds, p) = (holds, Passes-first ss ts p)

pub Passes-rest : (ss ts : List Statement) → Passes (ss ++ ts) → Passes ts
Passes-rest [] ts p = p
Passes-rest (says texts ∷ ss) ts p = Passes-rest ss ts p
Passes-rest (check cond msg ∷ ss) ts (holds, p) = Passes-rest ss ts p

-- The byte loop of `record_checksum`, lowest byte first, for the bytes that are left.
unfoldable hash_bytes : ℕ → ℕ → ℕ → ℕ
hash_bytes zero v h = h
hash_bytes (suc left) v h = hash_bytes left (v / 256) (bit_xor h (v % 256) * 0x100000001b3 % 2 ^ 64)

unfoldable pub hash_words : List ℕ → ℕ → ℕ
unfolding hash_bytes
hash_words [] h = h
hash_words (v ∷ vs) h = hash_words vs (hash_bytes 8 v h)

unfoldable pub checksum : List ℕ → ℕ
unfolding hash_words hash_bytes
checksum vs = hash_words vs 0xcbf29ce484222325
