-- ===== src/Smp/Harts.antt =====
-- src/smp/smp_main.c and hart1.c: the calls of the two harts.
use riscv_baremetal_demo.Base.{
  ℕ, ◌+◌, ◌-◌, ◌*◌, ◌%◌, ◌^◌, ◌≤◌, ◌≡◌, refl, ap, ◌∙◌, ◌↔◌, ◌⊎◌, inl, inr, Bool, true, false, ◌&&◌,
  ◌||◌, Option, none, some, List, [], ◌∷◌, ◌++◌, arith, ltb, leb, if◌then◌else◌, Bool-cases,
}
use riscv_baremetal_demo.Base.Text.{codes}
use riscv_baremetal_demo.Smp.{Call, locked_puts, locked_print_kv, locked_print_line2}

abbrev pub hart_stack_size : ℕ
hart_stack_size = 4096

abbrev hart1_timeout_cycles : ℕ
hart1_timeout_cycles = 15000000000

-- `a - b` on `unsigned long`
abbrev sub64 : ℕ → ℕ → ℕ
sub64 a b = (a + (2 ^ 64 - b)) % 2 ^ 64

-- What a hart measures: its id, its stack pointer, and its stamps of the cycle counter.
pub record Hart : Type 0 where
  pub mhartid : ℕ
  pub sp : ℕ
  pub first_stamp : ℕ
  pub last_stamp : ℕ

-- The address of a hart's stack, with `hart_stacks` at `base`.
abbrev pub stack_base : ℕ → ℕ → ℕ
stack_base base n = base + n * hart_stack_size

unfoldable pub hart1_main : ℕ → Hart → List Call
unfolding locked_print_kv locked_print_line2
hart1_main base h =
    let low = stack_base base 1 in
    locked_puts (codes "hart1: secondary hart alive\n")
    ∷ locked_print_kv (codes "hart1: mhartid") h.mhartid false
    ∷ locked_print_line2 (codes "hart1: stack_base") low (codes "stack_top") (low + hart_stack_size)
        true
    ∷ locked_print_kv (codes "hart1: sp") h.sp true
    ∷ []

-- What hart 0 prints up to the release of hart 1.
unfoldable pub before_wait : ℕ → Hart → List Call
unfolding locked_print_kv locked_print_line2
before_wait base h =
    let low = stack_base base 0 in
    locked_puts (codes "smp: 2-hart bring-up on QEMU virt\n")
    ∷ locked_print_kv (codes "hart0: mhartid") h.mhartid false
    ∷ locked_print_line2 (codes "hart0: stack_base") low (codes "stack_top") (low + hart_stack_size)
        true
    ∷ locked_print_kv (codes "hart0: sp") h.sp true
    ∷ locked_puts (codes "hart0: released hart 1\n")
    ∷ []

-- The two reads that a turn of the waiting loop makes: `hart1_done`, and the cycle counter.
abbrev pub Look : Type 0
Look = Bool × ℕ

-- The flag as it is read once more; unset when there is no further look.
abbrev flag_again : List Look → Bool
flag_again [] = false
flag_again ((done, cycles) ∷ looks) = done

-- `while (!hart1_done && rdcycle() < deadline)`, over the looks to come: the flag as the test after
-- the loop reads it. The flag is never cleared.
unfoldable pub wait_hart1 : ℕ → List Look → Option Bool
wait_hart1 deadline [] = none
wait_hart1 deadline ((done, cycles) ∷ looks) =
    let later = wait_hart1 deadline looks in
    if done then some true else if ltb cycles deadline then later else some (flag_again looks)

abbrev bit : Bool → ℕ
bit b = if b then 1 else 0

unfoldable pub disjoint : ℕ → Bool
disjoint base =
    leb (stack_base base 0 + hart_stack_size) (stack_base base 1)
    || leb (stack_base base 1 + hart_stack_size) (stack_base base 0)

unfoldable pub in_slice : ℕ → ℕ → ℕ → Bool
in_slice base n sp = leb (stack_base base n) sp && leb sp (stack_base base n + hart_stack_size)

-- The report of hart 0; its last stamp is `t_done`.
unfoldable pub report : ℕ → Hart → Hart → List Call
unfolding locked_print_kv disjoint in_slice
report base h0 h1 =
    locked_puts (codes "smp: verification report\n")
    ∷ locked_print_kv (codes "hart0: release_cycles") h0.first_stamp false
    ∷ locked_print_kv (codes "hart1: entry_cycles") h1.first_stamp false
    ∷ locked_print_kv (codes "hart1: printed_cycles") h1.last_stamp false
    ∷ locked_print_kv (codes "hart0: done_cycles") h0.last_stamp false
    ∷ locked_print_kv (codes "bring-up latency (release->hart1 entry), cycles")
        (sub64 h1.first_stamp h0.first_stamp) false
    ∷ locked_print_kv (codes "hart1 entry->print done, cycles") (sub64 h1.last_stamp h1.first_stamp)
        false
    ∷ locked_print_kv (codes "stack slices disjoint (1=yes)") (bit (disjoint base)) false
    ∷ locked_print_kv (codes "hart0 sp in own slice (1=yes)") (bit (in_slice base 0 h0.sp)) false
    ∷ locked_print_kv (codes "hart1 sp in own slice (1=yes)") (bit (in_slice base 1 h1.sp)) false
    ∷ locked_puts (codes "smp: both harts ran, done\n")
    ∷ []

unfoldable pub after_wait : ℕ → Hart → Hart → Option Bool → Option (List Call)
unfolding report
after_wait base h0 h1 none = none
after_wait base h0 h1 (some true) = some (report base h0 h1)
after_wait base h0 h1 (some false) =
    some (locked_puts (codes "hart0: TIMEOUT waiting for hart 1\n") ∷ [])

-- The calls of hart 0 before it halts; `none` if the looks do not let it out of the loop.
unfoldable pub smp_main : ℕ → Hart → Hart → List Look → Option (List Call)
unfolding before_wait wait_hart1 after_wait
smp_main base h0 h1 looks =
    elim (after_wait base h0 h1
      (wait_hart1 ((h0.first_stamp + hart1_timeout_cycles) % 2 ^ 64) looks)) [
        | none ↦ none
        | some calls ↦ some (before_wait base h0 ++ calls)
      ]

-- A look at which the loop stops: the flag is set, or the deadline has come.
unfoldable pub Stops : ℕ → Look → Type 0
Stops deadline look = (look.0 ≡ true) ⊎ (deadline ≤ look.1)

ended_by :
    (deadline : ℕ) (look : Look) (looks : List Look)
    → Stops deadline look
    → (flag : Bool) × (wait_hart1 deadline (look ∷ looks) ≡ some flag)
unfolding wait_hart1 Stops
ended_by deadline (done, cycles) looks (inl e) = (true, rw e refl)
ended_by deadline (true, cycles) looks (inr late) = (true, refl)
ended_by deadline (false, cycles) looks (inr late) =
    let test : ltb cycles deadline ≡ false = ground arith in
    (
      flag_again looks,
      ap (λ q. if q then wait_hart1 deadline looks else some (flag_again looks)) test,
    )

-- The wait for hart 1 ends: once a look finds the flag set, or the cycle counter at or past the
-- deadline, `wait_hart1` has returned, whatever was seen before.
pub wait_hart1-returns :
    (deadline : ℕ) (before after : List Look) (look : Look)
    → Stops deadline look
    → (flag : Bool) × (wait_hart1 deadline (before ++ (look ∷ after)) ≡ some flag)
unfolding wait_hart1
wait_hart1-returns deadline [] after look stops = ended_by deadline look after stops
wait_hart1-returns deadline ((true, cycles) ∷ before) after look stops = (true, refl)
wait_hart1-returns deadline ((false, cycles) ∷ before) after look stops =
    let looks = before ++ (look ∷ after) in
    let branch = λ (q : Bool). if q then wait_hart1 deadline looks else some (flag_again looks) in
    elim (Bool-cases (ltb cycles deadline)) [
      | inl e ↦
          let (flag, r) = wait_hart1-returns deadline before after look stops in
          (flag, ap branch e ∙ r)
      | inr e ↦ (flag_again looks, ap branch e)
    ]

-- The stack check: the slices are disjoint wherever the stacks lie, and a stack pointer passes
-- exactly if it lies within its slice, the address past its end included.
pub stack_check_iff :
    (base n sp : ℕ)
    → (disjoint base ≡ true)
      × ((in_slice base n sp ≡ true)
          ↔ ((stack_base base n ≤ sp) × (sp ≤ stack_base base n + hart_stack_size)))
unfolding disjoint in_slice
stack_check_iff base n sp = (ground arith, ground arith)
