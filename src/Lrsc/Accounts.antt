-- ===== src/Lrsc/Accounts.antt =====
-- The histogram of src/lrsc-histogram/lrsc_main.c accounts for every iteration.
use riscv_baremetal_demo.Base.{
  ℕ, zero, suc, ◌+◌, ◌-◌, ◌%◌, ◌^◌, ◌≤◌, ◌<◌, ◌≡◌, refl, sym, ap, ◌∙◌, ◌↔◌, ◌⊎◌, inl, inr, Bool,
  true, false, some, List, [], ◌∷◌, arith, leb, ◌==◌, if◌then◌else◌, ==_iff, Bool-cases, length,
  get_or, set, replicate, length-set,
}
use riscv_baremetal_demo.Probe.{
  Statement, Log, run, power_up, Passes, run-Passes, Passes-of_run, Passes-append, Passes-rest,
}
use riscv_baremetal_demo.Lrsc.{
  niters, nbins, Iteration, retry, lrsc_store, Tally, no_tally, account, accounted, iterate,
  sum_bins, bin_lines, Save, histogram_sum, report, verdict, reported, opening, main,
}

-- One of the sc.w succeeds.
abbrev pub Succeeds : List ℕ → Type 0
Succeeds [] = ⊥
Succeeds (sc ∷ scs) = (sc ≡ 0) ⊎ Succeeds scs

retry-returns :
    (scs : List ℕ) (attempts : ℕ)
    → Succeeds scs
    → (att : ℕ) × (retry scs attempts ≡ some att) × (attempts < att)
unfolding retry
retry-returns [] attempts s = elim s [ ]
retry-returns (sc ∷ scs) attempts s = elim (Bool-cases (sc == 0)) [
  | inl done ↦ (attempts + 1, rw done refl, omega arith)
  | inr failed ↦
      let (att, e, more) = retry-returns scs (attempts + 1) (later s failed) in
      (att, rw failed e, omega arith)
]
  where
    later : (sc ≡ 0) ⊎ Succeeds scs → (sc == 0) ≡ false → Succeeds scs
    later (inl zero_sc) failed = absurd (ground arith)
    later (inr rest) failed = rest

sum_bins-set :
    (hs : List ℕ) (k : ℕ)
    → k < length hs
    → sum_bins (set hs k (get_or hs k 0 + 1)) ≡ sum_bins hs + 1
unfolding sum_bins
sum_bins-set [] k inside = absurd (omega arith)
sum_bins-set (h ∷ hs) zero inside = omega arith
sum_bins-set (h ∷ hs) (suc k) inside = omega (arith, sum_bins-set hs k (omega arith))

account-sum :
    (i readback att : ℕ) (t : Tally)
    → length t.hist ≡ nbins
    → 0 < att
    → histogram_sum (account i readback att t) ≡ histogram_sum t + 1
unfolding account
account-sum i readback att t whole some_attempt = elim (Bool-cases (leb att nbins)) [
  | inl low ↦ rw low (omega (arith, sum_bins-set t.hist (att - 1) (ground arith)))
  | inr high ↦ rw high (omega arith)
]

length-account :
    (i readback att : ℕ) (t : Tally) → length (account i readback att t).hist ≡ length t.hist
unfolding account
length-account i readback att t = elim (Bool-cases (leb att nbins)) [
  | inl low ↦ rw low (length-set t.hist (att - 1) (get_or t.hist (att - 1) 0 + 1))
  | inr high ↦ rw high refl
]

-- The iterations from `i` on that read back another value than they stored.
unfoldable mismatches : (ℕ → Iteration) → ℕ → ℕ → ℕ
mismatches env zero i = 0
mismatches env (suc left) i =
    (if (env i).readback == i % 2 ^ 32 then 0 else 1) + mismatches env left (i + 1)

errors_step :
    (i readback att : ℕ) (t : Tally)
    → (account i readback att t).value_errors
      ≡ t.value_errors + (if readback == i % 2 ^ 32 then 0 else 1)
unfolding account
errors_step i readback att t = ground arith

record Accounts (env : ℕ → Iteration) (left i : ℕ) (t t' : Tally) : Type 0 where
  whole : length t'.hist ≡ nbins
  total : histogram_sum t' ≡ histogram_sum t + left
  errors : t'.value_errors ≡ t.value_errors + mismatches env left i

iterate-Accounts :
    (env : ℕ → Iteration) (left i : ℕ) (t : Tally)
    → ((k : ℕ) → Succeeds (env k).results)
    → length t.hist ≡ nbins
    → (t' : Tally) × (iterate env left i t ≡ some t') × Accounts env left i t t'
unfolding iterate accounted lrsc_store mismatches
iterate-Accounts env zero i t succeeds whole =
    (t, refl, record { whole = whole; total = omega arith; errors = omega arith })
iterate-Accounts env (suc left) i t succeeds whole =
    let (att, e, some_attempt) = retry-returns (env i).results 0 (succeeds i) in
    let t1 : Tally = account i (env i).readback att t in
    let whole1 : length t1.hist ≡ nbins = length-account i (env i).readback att t ∙ whole in
    let (t', rest, accounts) = iterate-Accounts env left (i + 1) t1 succeeds whole1 in
    (
      t',
      ap (accounted (iterate env left (i + 1)) i (env i).readback t) e ∙ rest,
      record {
        whole = accounts.whole;
        total =
            omega (arith, accounts.total, account-sum i (env i).readback att t whole some_attempt);
        errors = omega (arith, accounts.errors, errors_step i (env i).readback att t);
      },
    )

mismatches_iff :
    (env : ℕ → Iteration) (left i : ℕ)
    → (mismatches env left i ≡ 0) ↔ ((k : ℕ) → i ≤ k → k < i + left → (env k).readback ≡ k % 2 ^ 32)
unfolding mismatches
mismatches_iff env zero i = (λ e k from to. absurd (omega arith), λ h. refl)
mismatches_iff env (suc left) i =
    let (to, from) = mismatches_iff env left (i + 1) in
    (
      λ e k low high. elim (Bool-cases (k == i)) [
        | inl here ↦ ground (arith, e, ap (λ (n : ℕ). (env n).readback) ((==_iff k i).0 here))
        | inr later ↦ to (omega arith) k (ground arith) (omega arith)
      ],
      λ h.
          let rest = from (λ k low high. h k (omega arith) (omega arith)) in
          let here = h i (omega arith) (omega arith) in ground (arith, rest, here),
    )

lines-Passes : (i : ℕ) (hs : List ℕ) → Passes (bin_lines i hs)
unfolding bin_lines
lines-Passes i [] = tt
lines-Passes i (h ∷ hs) = elim (Bool-cases (h == 0)) [
  | inl empty ↦ rw empty (lines-Passes (i + 1) hs)
  | inr shown ↦ rw shown (lines-Passes (i + 1) hs)
]

report_iff :
    (save : Save) (t : Tally)
    → Passes (report save t) ↔ ((histogram_sum t ≡ niters) × (t.value_errors ≡ 0) × (save.seen ≡ 0))
unfolding report
report_iff save t = (
  λ p.
      let checks = Passes-rest (bin_lines 0 t.hist) _ p in
      ((==_iff _ _).0 checks.0, (==_iff _ _).0 checks.1.0, (==_iff _ _).0 checks.1.1.0),
  λ m.
      Passes-append (bin_lines 0 t.hist) _ (lines-Passes 0 t.hist)
        ((==_iff _ _).1 m.0, ((==_iff _ _).1 m.1, ((==_iff _ _).1 m.2, tt))),
)

verdict_iff :
    (ss : List Statement) (l : Log) → l.fails ≡ 0 → ((verdict (run ss l)).1 ≡ true) ↔ Passes ss
unfolding verdict
verdict_iff ss l fresh = (
  λ e. Passes-of_run ss l ((==_iff _ _).0 e ∙ sym fresh),
  λ p. (==_iff _ _).1 (run-Passes ss l p ∙ fresh),
)

no_counts : (n : ℕ) → sum_bins (replicate n 0) ≡ 0
unfolding sum_bins
no_counts zero = refl
no_counts (suc n) = omega (arith, no_counts n)

module _ (mhartid trap_entry : ℕ) (save : Save) (env : ℕ → Iteration) where
  opened : Log
  opened = run (opening mhartid trap_entry) power_up

  opened-fresh : opened.fails ≡ 0
  unfolding opened opening
  opened-fresh = run-Passes (opening mhartid trap_entry) power_up tt

  main_from :
      (t : Tally)
      → iterate env niters 0 no_tally ≡ some t
      → main mhartid trap_entry save env ≡ some (verdict (run (report save t) opened))
  unfolding main reported opened
  main_from t e = ap (reported save opened) e

-- If in every iteration one of the sc.w succeeds, the program comes to its verdict, the histogram
-- accounts for all iterations, and the verdict is PASS exactly when each iteration reads back the
-- value that it stored and no trap was seen.
pub main_accounts :
    (mhartid trap_entry : ℕ) (save : Save) (env : ℕ → Iteration)
    → ((k : ℕ) → Succeeds (env k).results)
    → (t : Tally) × (pass : Bool) × (l : Log) × (iterate env niters 0 no_tally ≡ some t)
      × (histogram_sum t ≡ niters)
      × (main mhartid trap_entry save env ≡ some (l, pass))
      × ((pass ≡ true) ↔ (((k : ℕ) → k < niters → (env k).readback ≡ k % 2 ^ 32) × (save.seen ≡ 0)))
main_accounts mhartid trap_entry save env succeeds =
    let (t, e, accounts) = iterate-Accounts env niters 0 no_tally succeeds refl in
    let ended = verdict (run (report save t) (opened mhartid trap_entry save env)) in
    let passing =
      verdict_iff (report save t) (opened mhartid trap_entry save env)
        (opened-fresh mhartid trap_entry save env) in
    let total : histogram_sum t ≡ niters = omega (arith, accounts.total, no_counts nbins) in
    let read = mismatches_iff env niters 0 in
    (
      t,
      ended.1,
      ended.0,
      e,
      total,
      main_from mhartid trap_entry save env t e,
      (
        λ p.
            let checks = (report_iff save t).0 (passing.0 p) in
            (
              (λ k below.
                  read.0 (omega (arith, accounts.errors, checks.1)) k (omega arith) (omega arith)),
              checks.2,
            ),
        λ m. passing.1 (
            (report_iff save t).1
              (total, omega (arith, accounts.errors, read.1 (λ k low high. m.0 k high)), m.1)),
      ),
    )
