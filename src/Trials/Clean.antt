-- ===== src/Trials/Clean.antt =====
-- run_one_trial of src/mtimecmp/mt_main.c ends, and leaves a clean record unless every attempt was
-- noisy.
use riscv_baremetal_demo.Base.{
  ℕ, zero, suc, ◌+◌, ◌-◌, ◌%◌, ◌^◌, ◌≤◌, ◌<◌, ◌≡◌, refl, sym, ap, ◌∙◌, ◌≢◌, inl, inr, Bool, true,
  false, Option, some, List, [], ◌∷◌, arith, ◌==◌, if◌then◌else◌, Bool-cases, length, get_or, set,
  length-set, get_or-set_self, get_or-set_ne,
}
use mathlib.Core.Path.{subst}
use riscv_baremetal_demo.Trials.{
  mcause_mti, mt_ntrials, mt_ahead_ticks, mt_offset_bound, mt_max_attempts, Rec, no_rec, Trap,
  Attempt, State, at_rec, stamp_entry, mt_trap_handler, spin, stamp_pre, mt_trial, arm_trial,
  is_noisy, judge, attempt_loop, run_one_trial,
}

-- An attempt in which a timer interrupt is delivered, with stamps below 2 ^ 63.
pub record IsDelivered (a : Attempt) : Type 0 where
  pub first : Trap
  pub others : List Trap
  pub is_first : a.traps ≡ first ∷ others
  pub is_timer : first.mcause ≡ mcause_mti
  pub early : a.now < 2 ^ 63
  pub early_entry : first.mtime_entry < 2 ^ 63

spin-flag : (ts : List Trap) (s : State) → (s.flag == 0) ≡ false → spin ts s ≡ some s
unfolding spin
spin-flag [] s set = rw set refl
spin-flag (t ∷ ts) s set = rw set refl

-- The state behind an attempt.
abbrev attempted : ℕ → Attempt → Trap → State → State
attempted i a t s =
    at_rec i (λ r. record r { t_pre = a.t_pre; c_pre = a.c_pre })
      (record (at_rec i (stamp_entry t) (record (arm_trial i a s) { flag = 0 })) {
        mtimecmp = 2 ^ 64 - 1;
        flag = 1;
        trap_count = s.trap_count + 1;
      })

handled :
    (t : Trap) (s : State)
    → t.mcause ≡ mcause_mti
    → s.trial_idx < mt_ntrials
    → mt_trap_handler t s ≡ record (at_rec s.trial_idx (stamp_entry t) s) {
      mtimecmp = 2 ^ 64 - 1;
      flag = 1;
      trap_count = s.trap_count + 1;
    }
unfolding mt_trap_handler
handled t s timer below = ground arith

mt_trial_lem :
    (i : ℕ) (a : Attempt) (s : State) (d : IsDelivered a)
    → i < mt_ntrials
    → mt_trial i a (arm_trial i a s) ≡ some (attempted i a d.first s)
unfolding mt_trial spin stamp_pre arm_trial
mt_trial_lem i a s d below =
    ap (λ (ts : List Trap). stamp_pre i a (spin ts waiting)) d.is_first
    ∙ ap (λ (next : State). stamp_pre i a (spin d.others next))
        (handled d.first waiting d.is_timer below)
    ∙ ap (stamp_pre i a) (spin-flag d.others _ refl)
  where
    waiting : State
    waiting = record (arm_trial i a s) { flag = 0 }

-- The stamps of the record that an attempt leaves.
pub record IsStamped (a : Attempt) (t : Trap) (r : Rec) : Type 0 where
  pub cmp : r.cmp ≡ (a.now + mt_ahead_ticks) % 2 ^ 64
  pub pre : r.t_pre ≡ a.t_pre
  pub entry : r.t_entry ≡ t.mtime_entry

attempted-IsStamped :
    (i : ℕ) (a : Attempt) (t : Trap) (s : State)
    → i < length s.rec
    → IsStamped a t (get_or (attempted i a t s).rec i no_rec)
unfolding arm_trial
attempted-IsStamped i a t s below =
    subst (IsStamped a t) (sym all) (record { cmp = refl; pre = refl; entry = refl })
  where
    with_cmp : Rec → Rec
    with_cmp r = record r { cmp = (a.now + mt_ahead_ticks) % 2 ^ 64 }

    with_pre : Rec → Rec
    with_pre r = record r { t_pre = a.t_pre; c_pre = a.c_pre }

    first : List Rec
    first = set s.rec i (with_cmp (get_or s.rec i no_rec))

    second : List Rec
    second = set first i (stamp_entry t (get_or first i no_rec))

    length_first : length first ≡ length s.rec
    length_first = length-set s.rec i (with_cmp (get_or s.rec i no_rec))

    length_second : length second ≡ length first
    length_second = length-set first i (stamp_entry t (get_or first i no_rec))

    cmp_in : get_or first i no_rec ≡ with_cmp (get_or s.rec i no_rec)
    cmp_in = get_or-set_self s.rec i (with_cmp (get_or s.rec i no_rec)) no_rec below

    entry_in : get_or second i no_rec ≡ stamp_entry t (get_or first i no_rec)
    entry_in =
        get_or-set_self first i (stamp_entry t (get_or first i no_rec)) no_rec
          (omega (arith, length_first))

    all :
        get_or (attempted i a t s).rec i no_rec
        ≡ with_pre (stamp_entry t (with_cmp (get_or s.rec i no_rec)))
    all =
        get_or-set_self second i (with_pre (get_or second i no_rec)) no_rec
          (omega (arith, length_first, length_second))
        ∙ ap with_pre (entry_in ∙ ap (stamp_entry t) cmp_in)

length-attempted :
    (i : ℕ) (a : Attempt) (t : Trap) (s : State) → length (attempted i a t s).rec ≡ length s.rec
unfolding arm_trial
length-attempted i a t s = length-set _ i _ ∙ (length-set _ i _ ∙ length-set s.rec i _)

attempted-others :
    (i : ℕ) (a : Attempt) (t : Trap) (s : State) (j : ℕ)
    → i ≢ j
    → get_or (attempted i a t s).rec j no_rec ≡ get_or s.rec j no_rec
unfolding arm_trial
attempted-others i a t s j ne =
    get_or-set_ne _ i j _ no_rec ne
    ∙ (get_or-set_ne _ i j _ no_rec ne ∙ get_or-set_ne s.rec i j _ no_rec ne)

-- Taken before the timer was due to expire, delivered at or after the deadline, and in time.
pub record IsClean (r : Rec) : Type 0 where
  pub armed_in_time : r.t_pre < r.cmp
  pub not_early : r.cmp ≤ r.t_entry
  pub in_bound : r.t_entry ≤ r.cmp + mt_offset_bound

quiet-IsClean :
    (a : Attempt) (d : IsDelivered a) (r : Rec)
    → IsStamped a d.first r
    → is_noisy r ≡ false
    → IsClean r
unfolding is_noisy
quiet-IsClean a d r stamped quiet = ground (arith, d.early, d.early_entry)

-- What a call leaves: the counts of this call, and the record.
pub record Ends (i left : ℕ) (s s' : State) (ok : Bool) : Type 0 where
  pub recs : length s'.rec ≡ length s.rec
  pub bad : s'.bad_seen ≡ s.bad_seen
  pub taken : s'.attempts ≤ s.attempts + left
  pub trapped : s'.trap_count + s.attempts ≡ s.trap_count + s'.attempts
  pub retried : s'.retries + s.attempts + (if ok then 1 else 0) ≡ s.retries + s'.attempts
  pub clean : ok ≡ true → IsClean (get_or s'.rec i no_rec)
  pub given_up : ok ≡ false → s'.attempts ≡ s.attempts + left
  pub others : (j : ℕ) → i ≢ j → get_or s'.rec j no_rec ≡ get_or s.rec j no_rec

module _ (i : ℕ) (env : ℕ → Attempt) (delivered : (k : ℕ) → IsDelivered (env k))
    (low : i < mt_ntrials) where
  attempt_loop-Ends :
      (left : ℕ) (s : State)
      → i < length s.rec
      → (s' : State) × (ok : Bool) × (attempt_loop left i env s ≡ some (s', ok))
        × Ends i left s s' ok
  unfolding attempt_loop judge arm_trial
  attempt_loop-Ends zero s inside = (
    s,
    false,
    refl,
    record {
      recs = refl;
      bad = refl;
      taken = omega arith;
      trapped = omega arith;
      retried = omega arith;
      clean = λ h. cc;
      given_up = λ h. omega arith;
      others = λ j ne. refl;
    },
  )
  attempt_loop-Ends (suc left) s inside = elim (Bool-cases (is_noisy latest)) [
    | inr quiet ↦ (
      counted,
      true,
      judged ∙ ap branch quiet,
      record {
        recs = length-attempted i a d.first s;
        bad = refl;
        taken = omega arith;
        trapped = omega arith;
        retried = omega arith;
        clean = λ h. quiet-IsClean a d latest (attempted-IsStamped i a d.first s inside) quiet;
        given_up = λ h. cc;
        others = λ j ne. attempted-others i a d.first s j ne;
      },
    )
    | inl noisy ↦
        let (s', ok, e, ends) =
          attempt_loop-Ends left again_from (omega (arith, length-attempted i a d.first s)) in
        (
          s',
          ok,
          judged ∙ ap branch noisy ∙ e,
          record {
            recs = omega (arith, ends.recs, length-attempted i a d.first s);
            bad = ends.bad;
            taken = omega (arith, ends.taken);
            trapped = omega (arith, ends.trapped);
            retried = omega (arith, ends.retried);
            clean = ends.clean;
            given_up = λ h. omega (arith, ends.given_up h);
            others = λ j ne. ends.others j ne ∙ attempted-others i a d.first s j ne;
          },
        )
  ]
    where
      a : Attempt
      a = env s.attempts

      d : IsDelivered a
      d = delivered s.attempts

      counted : State
      counted = record (attempted i a d.first s) { attempts = s.attempts + 1 }

      again_from : State
      again_from = record counted { retries = s.retries + 1 }

      latest : Rec
      latest = get_or counted.rec i no_rec

      branch : Bool → Option (State × Bool)
      branch b = if b then attempt_loop left i env again_from else some (counted, true)

      judged : attempt_loop (suc left) i env s ≡ branch (is_noisy latest)
      judged = ap (judge i (attempt_loop left i env)) (mt_trial_lem i a s d low)

pub run_one_trial-Ends :
    (i : ℕ) (env : ℕ → Attempt) (s : State)
    → ((k : ℕ) → IsDelivered (env k))
    → i < mt_ntrials
    → length s.rec ≡ mt_ntrials
    → (s' : State) × (ok : Bool) × (run_one_trial i env s ≡ some (s', ok))
      × Ends i mt_max_attempts s s' ok
unfolding run_one_trial
run_one_trial-Ends i env s delivered low whole =
    attempt_loop-Ends i env delivered low mt_max_attempts s (omega (arith, whole))
