-- ===== src/Trials/Report.antt =====
-- src/mtimecmp/mt_main.c: the calibration, the check of the records, the report and main.
use riscv_baremetal_demo.Base.{
  ℕ, zero, suc, ◌+◌, ◌*◌, ◌/◌, ◌%◌, ◌^◌, bit_and, Bool, true, false, ◌&&◌, Option, none, some, List,
  [], ◌∷◌, ◌++◌, ltb, leb, ◌==◌, if◌then◌else◌, get_or, drop,
}
use riscv_baremetal_demo.Base.Text.{codes}
use riscv_baremetal_demo.Uart.Text.{dec, hex}
use riscv_baremetal_demo.Probe.{Statement, says, check, perform, Log, run, power_up}
use riscv_baremetal_demo.Trials.{
  mcause_mti, mt_ntrials, mt_warmup, mt_ahead_ticks, mt_offset_bound, sub64, Rec, no_rec, Attempt,
  State, boot_state, run_one_trial,
}
use riscv_baremetal_demo.Trials.Statistics.{print_stats, hist_ticks}

-- What the machine reads outside the trials: the calibration's readings ahead of its loop, mtime in
-- the loop, the readings behind it, the pairs, and the other csrs.
pub record Machine : Type 0 where
  pub mhartid : ℕ
  pub mtvec : ℕ
  pub mt_save : ℕ
  pub t0 : ℕ
  pub c0 : ℕ
  pub polls : List ℕ
  pub t1 : ℕ
  pub c1 : ℕ
  pub pairs : List (ℕ × ℕ)
  pub mt_loop : ℕ
  pub mt_done : ℕ
  pub env : ℕ → Attempt

-- Whether the loop of `calibration` ends within the readings.
unfoldable pub wait_ticks : ℕ → List ℕ → Bool
wait_ticks t0 [] = false
wait_ticks t0 (t ∷ ts) =
    let rest = wait_ticks t0 ts in if ltb (sub64 t t0) 10000000 then rest else true

abbrev pub ratio : Machine → ℕ
ratio m = sub64 m.c1 m.c0 / sub64 m.t1 m.t0

abbrev in_ratio : ℕ → Bool
in_ratio r = leb 145 r && leb r 155

-- The loop over the pairs, with the last readings.
unfoldable pub pair_checks : ℕ → ℕ → List (ℕ × ℕ) → List Statement
pair_checks lc lt [] = []
pair_checks lc lt ((c, t) ∷ ps) =
    check (leb lc c) (codes "rdcycle went backwards")
    ∷ check (leb lt t) (codes "mtime went backwards")
    ∷ pair_checks c t ps

unfoldable pub calibration : Machine → List Statement
unfolding pair_checks
calibration m =
    says (
      codes "cal: 10000000 mtime ticks -> rdcycle delta "
      ∷ dec (sub64 m.c1 m.c0)
      ∷ codes " (ratio "
      ∷ dec (ratio m)
      ∷ codes " rdcycle units per tick)\n"
      ∷ [])
    ∷ check (in_ratio (ratio m)) (codes "rdcycle/mtime ratio outside 145..155")
    ∷ (pair_checks 0 0 m.pairs
        ++ (says (codes "cal: 64 back-to-back (rdcycle, mtime) pairs monotonic: ok\n" ∷ []) ∷ []))

unfoldable pub print_raw : ℕ → Rec → Statement
print_raw i r = says (
    codes "raw["
    ∷ dec i
    ∷ codes "]: cmp="
    ∷ hex r.cmp
    ∷ codes " t_pre="
    ∷ hex r.t_pre
    ∷ codes " c_pre="
    ∷ hex r.c_pre
    ∷ codes " t_entry="
    ∷ hex r.t_entry
    ∷ codes " c_entry="
    ∷ hex r.c_entry
    ∷ codes " mepc_before="
    ∷ hex r.mepc_before
    ∷ codes " mcause="
    ∷ hex r.mcause
    ∷ codes "\n"
    ∷ [])

-- The checks that `verify` makes on a record.
unfoldable pub record_checks : Machine → Rec → List Statement
record_checks m r =
    check (r.mcause == mcause_mti) (codes "mcause != machine timer interrupt")
    ∷ check (ltb r.t_pre r.cmp) (codes "interrupt already pending at trial start")
    ∷ check (leb r.cmp r.t_entry) (codes "trap entry mtime < mtimecmp")
    ∷ check (leb r.t_pre r.t_entry) (codes "entry tick < pre tick")
    ∷ check (ltb r.c_pre r.c_entry) (codes "entry rdcycle <= pre rdcycle")
    ∷ check (leb m.mt_loop r.mepc_before && ltb r.mepc_before m.mt_done)
        (codes "mepc_before outside the trial spin loop")
    ∷ check (leb (sub64 r.t_entry r.cmp) mt_offset_bound)
        (codes "delivery offset beyond sanity bound")
    ∷ []

unfoldable pub verify_checks : Machine → List Rec → List Statement
unfolding record_checks
verify_checks m [] = []
verify_checks m (r ∷ rs) = record_checks m r ++ verify_checks m rs

-- `m_off_ticks`, over the records behind the warmup.
unfoldable pub offsets : List Rec → List ℕ
offsets [] = []
offsets (r ∷ rs) = sub64 r.t_entry r.cmp ∷ offsets rs

-- `m_off_cyc`.
unfoldable pub scaled : ℕ → List ℕ → List ℕ
scaled k [] = []
scaled k (t ∷ ts) = t * k % 2 ^ 64 ∷ scaled k ts

-- `sum_c` and `sum_t`.
unfoldable pub sum_deltas : List Rec → ℕ × ℕ → ℕ × ℕ
sum_deltas [] sums = sums
sum_deltas (r ∷ rs) (sum_c, sum_t) =
    sum_deltas rs
      ((sum_c + sub64 r.c_entry r.c_pre) % 2 ^ 64, (sum_t + sub64 r.t_entry r.t_pre) % 2 ^ 64)

unfoldable pub slope_lines : Machine → ℕ × ℕ → List Statement
slope_lines m (sum_c, sum_t) =
    says (
      codes "in-trial rdcycle-vs-mtime slope: sum_c="
      ∷ dec sum_c
      ∷ codes " sum_t="
      ∷ dec sum_t
      ∷ codes " slope="
      ∷ dec (if sum_t == 0 then 0 else sum_c / sum_t)
      ∷ codes " (calibration ratio "
      ∷ dec (ratio m)
      ∷ codes ")\n"
      ∷ [])
    ∷ check (ltb 0 sum_t && in_ratio (sum_c / sum_t)) (codes "in-trial slope outside 145..155")
    ∷ []

unfoldable pub verify : Machine → List Rec → List Statement
unfolding verify_checks sum_deltas slope_lines
verify m rs = verify_checks m rs ++ slope_lines m (sum_deltas (drop mt_warmup rs) (0, 0))

unfoldable pub bad_trap_line : State → List Statement
bad_trap_line s =
    if s.bad_seen == 0
    then []
    else says (
        codes "bad trap: mcause="
        ∷ hex s.bad_mcause
        ∷ codes " mepc="
        ∷ hex s.bad_mepc
        ∷ codes "\n"
        ∷ [])
      ∷ []

-- The lines of `report` up to its verdict, with those of the histogram at their end.
unfoldable pub report_lines : Machine → State → List Statement → List Statement
unfolding bad_trap_line print_raw verify offsets scaled print_stats
report_lines m s hist =
    let ticks = offsets (drop mt_warmup s.rec) in
    says (
      codes "trap_count="
      ∷ dec s.trap_count
      ∷ codes " (attempts "
      ∷ dec s.attempts
      ∷ codes ", arm retries "
      ∷ dec s.retries
      ∷ codes ")\n"
      ∷ [])
    ∷ check (s.trap_count == s.attempts) (codes "trap count != attempt count")
    ∷ check (s.bad_seen == 0) (codes "unexpected trap seen")
    ∷ (bad_trap_line s
        ++ (print_raw 0 (get_or s.rec 0 no_rec)
            ∷ print_raw 1 (get_or s.rec 1 no_rec)
            ∷ says (
                codes "trials recorded: "
                ∷ dec mt_ntrials
                ∷ codes " (first "
                ∷ dec mt_warmup
                ∷ codes " discarded from stats)\n"
                ∷ [])
            ∷ (verify m s.rec
                ++ (print_stats "offset_ticks" ticks
                    ∷ print_stats "offset_cyc  " (scaled (ratio m) ticks)
                    ∷ hist))))

-- `report` up to its verdict; `none` if the histogram's loop does not end.
unfoldable pub report : Machine → State → Option (List Statement)
unfolding report_lines offsets hist_ticks
report m s = elim (hist_ticks "hist offset_ticks" (offsets (drop mt_warmup s.rec))) [
  | none ↦ none
  | some hist ↦ some (report_lines m s hist)
]

unfoldable pub verdict : Log → Log
unfolding perform
verdict l =
    perform
      (says (
        if l.fails == 0
        then codes "RESULT: PASS\n" ∷ codes "done\n" ∷ []
        else codes "RESULT: FAIL ("
          ∷ dec l.fails
          ∷ codes " checks failed)\n"
          ∷ codes "done\n"
          ∷ []))
      l

-- The last check of a trial, and the trials that follow by `next`.
unfoldable pub tried :
    (State → Log → Option (State × Log)) → Log → Option (State × Bool) → Option (State × Log)
unfolding perform
tried next l none = none
tried next l (some (s, ok)) =
    next s (perform (check ok (codes "arm window stretched 100 times, host too noisy")) l)

-- The trials from `i` on, with `left` to go.
unfoldable pub run_trials : (ℕ → Attempt) → ℕ → ℕ → State → Log → Option (State × Log)
unfolding tried run_one_trial
run_trials env zero i s l = some (s, l)
run_trials env (suc left) i s l = tried (run_trials env left (i + 1)) l (run_one_trial i env s)

unfoldable pub reported : Machine → Option (State × Log) → Option Log
unfolding run report verdict
reported m none = none
reported m (some (s, l)) = elim (report m s) [
  | none ↦ none
  | some lines ↦ some (verdict (run lines l))
]

-- The lines of main ahead of the trials.
unfoldable pub opening : Machine → List Statement
unfolding calibration
opening m =
    says (codes "mtimecmp: CLINT mtimecmp delivery accuracy (backlog item 36)\n" ∷ [])
    ∷ says (codes "mhartid=" ∷ dec m.mhartid ∷ codes "\n" ∷ [])
    ∷ says (codes "mtvec=" ∷ hex m.mtvec ∷ codes " mscratch=" ∷ hex m.mt_save ∷ codes "\n" ∷ [])
    ∷ check (bit_and m.mtvec 3 == 0) (codes "mtvec not in direct mode")
    ∷ (calibration m
        ++ (says (
              codes "trials: 1000, mtimecmp = mtime+"
              ∷ dec mt_ahead_ticks
              ∷ codes " ticks, offset bound "
              ∷ dec mt_offset_bound
              ∷ codes " ticks\n"
              ∷ [])
            ∷ []))

unfoldable pub main : Machine → Option Log
unfolding wait_ticks run opening run_trials reported
main m =
    let tried_all =
      reported m (run_trials m.env mt_ntrials 0 boot_state (run (opening m) power_up)) in
    if wait_ticks m.t0 m.polls then tried_all else none
