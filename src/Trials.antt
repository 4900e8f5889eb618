-- ===== src/Trials.antt =====
-- src/mtimecmp/mt_main.c: trials of the timer interrupt, with their retries, trap handler and
-- calibration.
use riscv_baremetal_demo.Base.{
  ℕ, zero, suc, ◌+◌, ◌-◌, ◌%◌, ◌^◌, Bool, true, false, ◌&&◌, ◌||◌, Option, none, some, List, [],
  ◌∷◌, ltb, leb, ◌==◌, if◌then◌else◌, get_or, set, replicate,
}
use riscv_baremetal_demo.Base.Text.{codes, joined}
use riscv_baremetal_demo.Uart.Text.{dec, hex}
use riscv_baremetal_demo.Probe.{Statement, says, check, Log, run, power_up}
pub mod Statistics
pub mod Quantiles
pub mod Clean
pub mod Buckets
pub mod Report
pub mod Session
mod Tests

abbrev pub mcause_mti : ℕ
mcause_mti = 0x8000000000000007

abbrev pub mt_ntrials : ℕ
mt_ntrials = 1000

abbrev pub mt_warmup : ℕ
mt_warmup = 8

abbrev pub mt_ahead_ticks : ℕ
mt_ahead_ticks = 5000

abbrev pub mt_offset_bound : ℕ
mt_offset_bound = 1000

abbrev pub mt_max_attempts : ℕ
mt_max_attempts = 100

-- Subtraction of unsigned longs.
abbrev pub sub64 : ℕ → ℕ → ℕ
sub64 a b = (a + (2 ^ 64 - b)) % 2 ^ 64

pub record Rec : Type 0 where
  pub cmp : ℕ
  pub t_pre : ℕ
  pub c_pre : ℕ
  pub mcause : ℕ
  pub mepc_before : ℕ
  pub t_entry : ℕ
  pub c_entry : ℕ

abbrev pub no_rec : Rec
no_rec = record {
  cmp = 0;
  t_pre = 0;
  c_pre = 0;
  mcause = 0;
  mepc_before = 0;
  t_entry = 0;
  c_entry = 0;
}

-- What the trap entry saves.
pub record Trap : Type 0 where
  pub mcause : ℕ
  pub mepc : ℕ
  pub mtime_entry : ℕ
  pub cycle_entry : ℕ

-- The hardware during one attempt: mtime when `cmp` is computed, the stamps ahead of the spin
-- loop, and the traps that are taken in it.
pub record Attempt : Type 0 where
  pub now : ℕ
  pub t_pre : ℕ
  pub c_pre : ℕ
  pub traps : List Trap

pub record State : Type 0 where
  pub rec : List Rec
  pub trial_idx : ℕ
  pub flag : ℕ
  pub trap_count : ℕ
  pub mtimecmp : ℕ
  pub bad_seen : ℕ
  pub bad_mcause : ℕ
  pub bad_mepc : ℕ
  pub retries : ℕ
  pub attempts : ℕ

abbrev pub boot_state : State
boot_state = record {
  rec = replicate mt_ntrials no_rec;
  trial_idx = 0;
  flag = 0;
  trap_count = 0;
  mtimecmp = 2 ^ 64 - 1;
  bad_seen = 0;
  bad_mcause = 0;
  bad_mepc = 0;
  retries = 0;
  attempts = 0;
}

-- Changes to one record of the array.
abbrev pub at_rec : ℕ → (Rec → Rec) → State → State
at_rec i change s = record s { rec = set s.rec i (change (get_or s.rec i no_rec)) }

abbrev pub stamp_entry : Trap → Rec → Rec
stamp_entry t r = record r {
  mcause = t.mcause;
  mepc_before = t.mepc;
  t_entry = t.mtime_entry;
  c_entry = t.cycle_entry;
}

unfoldable pub mt_trap_handler : Trap → State → State
mt_trap_handler t s =
    if (t.mcause == mcause_mti) && ltb s.trial_idx mt_ntrials
    then record (at_rec s.trial_idx (stamp_entry t) s) {
      mtimecmp = 2 ^ 64 - 1;
      flag = 1;
      trap_count = s.trap_count + 1;
    }
    else record s { bad_seen = 1; bad_mcause = t.mcause; bad_mepc = t.mepc; mtimecmp = 2 ^ 64 - 1 }

-- The spin loop: it goes on until the flag is set; nothing when no trap does that.
unfoldable pub spin : List Trap → State → Option State
unfolding mt_trap_handler
spin [] s = if s.flag == 0 then none else some s
spin (t ∷ ts) s = let rest = spin ts (mt_trap_handler t s) in if s.flag == 0 then rest else some s

-- The stores behind the asm block.
unfoldable pub stamp_pre : ℕ → Attempt → Option State → Option State
stamp_pre i a none = none
stamp_pre i a (some s) = some (at_rec i (λ r. record r { t_pre = a.t_pre; c_pre = a.c_pre }) s)

unfoldable pub mt_trial : ℕ → Attempt → State → Option State
unfolding spin stamp_pre
mt_trial i a s = stamp_pre i a (spin a.traps (record s { flag = 0 }))

-- What one attempt does before it is judged.
unfoldable pub arm_trial : ℕ → Attempt → State → State
arm_trial i a s =
    let cmp = (a.now + mt_ahead_ticks) % 2 ^ 64 in
    record (at_rec i (λ r. record r { cmp = cmp }) (record s { trial_idx = i })) { mtimecmp = cmp }

-- Whether the attempt is run again.
unfoldable pub is_noisy : Rec → Bool
is_noisy r = leb r.cmp r.t_pre || ltb mt_offset_bound (sub64 r.t_entry r.cmp)

-- Behind `mt_trial`: the retry goes on by `again`.
unfoldable pub judge : ℕ → (State → Option (State × Bool)) → Option State → Option (State × Bool)
unfolding is_noisy
judge i again none = none
judge i again (some s) =
    let counted = record s { attempts = s.attempts + 1 } in
    let retry = again (record counted { retries = counted.retries + 1 }) in
    if is_noisy (get_or s.rec i no_rec) then retry else some (counted, true)

-- The attempts that are left; the second component is whether one of them was clean, which is the
-- condition that the last check tests.
unfoldable pub attempt_loop : ℕ → ℕ → (ℕ → Attempt) → State → Option (State × Bool)
unfolding judge mt_trial arm_trial
attempt_loop zero i env s = some (s, false)
attempt_loop (suc left) i env s =
    judge i (attempt_loop left i env) (mt_trial i (env s.attempts) (arm_trial i (env s.attempts) s))

unfoldable pub run_one_trial : ℕ → (ℕ → Attempt) → State → Option (State × Bool)
unfolding attempt_loop
run_one_trial i env s = attempt_loop mt_max_attempts i env s
