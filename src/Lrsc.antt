-- ===== src/Lrsc.antt =====
-- src/lrsc-histogram/lrsc_main.c: lr.w/sc.w pairs with their retries, and the histogram of
-- attempts.
use riscv_baremetal_demo.Base.{
  ℕ, zero, suc, ◌+◌, ◌-◌, ◌/◌, ◌%◌, ◌^◌, Bool, Option, none, some, List, [], ◌∷◌, ◌++◌, ltb, leb,
  ◌==◌, if◌then◌else◌, get_or, set, replicate,
}
use riscv_baremetal_demo.Base.Text.{codes, joined}
use riscv_baremetal_demo.Uart.Text.{dec, hex}
use riscv_baremetal_demo.Probe.{Statement, says, check, perform, Log, run, power_up}
pub mod Accounts
mod Tests

abbrev pub niters : ℕ
niters = 10000

abbrev pub nbins : ℕ
nbins = 64

-- The hart during an iteration: what the sc.w return, and what the load of `cell` behind them does.
pub record Iteration : Type 0 where
  pub results : List ℕ
  pub readback : ℕ

-- The loop of `lrsc_store`, with the attempts made; nothing when no sc.w succeeds.
unfoldable pub retry : List ℕ → ℕ → Option ℕ
retry [] attempts = none
retry (sc ∷ scs) attempts =
    let more = retry scs (attempts + 1) in if sc == 0 then some (attempts + 1) else more

unfoldable pub lrsc_store : Iteration → Option ℕ
unfolding retry
lrsc_store it = retry it.results 0

pub record Tally : Type 0 where
  pub hist : List ℕ
  pub overflow : ℕ
  pub max_att : ℕ
  pub value_errors : ℕ

abbrev pub no_tally : Tally
no_tally = record { hist = replicate nbins 0; overflow = 0; max_att = 0; value_errors = 0 }

-- The rest of an iteration, number `i`, that took `att` attempts.
unfoldable pub account : ℕ → ℕ → ℕ → Tally → Tally
account i readback att t = record {
  hist = if leb att nbins then set t.hist (att - 1) (get_or t.hist (att - 1) 0 + 1) else t.hist;
  overflow = if leb att nbins then t.overflow else t.overflow + 1;
  max_att = if ltb t.max_att att then att else t.max_att;
  value_errors = if readback == i % 2 ^ 32 then t.value_errors else t.value_errors + 1;
}

unfoldable pub accounted : (Tally → Option Tally) → ℕ → ℕ → Tally → Option ℕ → Option Tally
unfolding account
accounted next i readback t none = none
accounted next i readback t (some att) = next (account i readback att t)

-- The iterations from `i` on, with `left` to go.
unfoldable pub iterate : (ℕ → Iteration) → ℕ → ℕ → Tally → Option Tally
unfolding accounted lrsc_store
iterate env zero i t = some t
iterate env (suc left) i t =
    accounted (iterate env left (i + 1)) i (env i).readback t (lrsc_store (env i))

-- The loop over the bins: `sum`, and the lines of the bins from index `i` on.
unfoldable pub sum_bins : List ℕ → ℕ
sum_bins [] = 0
sum_bins (h ∷ hs) = h + sum_bins hs

unfoldable pub bin_lines : ℕ → List ℕ → List Statement
bin_lines i [] = []
bin_lines i (h ∷ hs) =
    let rest = bin_lines (i + 1) hs in
    if h == 0
    then rest
    else says (codes "  attempts=" ∷ dec (i + 1) ∷ codes " count=" ∷ dec h ∷ codes "\n" ∷ []) ∷ rest

-- `lrsc_save`: mcause, mepc, mtval and the seen flag.
pub record Save : Type 0 where
  pub mcause : ℕ
  pub mepc : ℕ
  pub mtval : ℕ
  pub seen : ℕ

abbrev pub histogram_sum : Tally → ℕ
histogram_sum t = sum_bins t.hist + t.overflow

-- The report of main.
unfoldable pub report : Save → Tally → List Statement
unfolding bin_lines
report save t =
    says (codes "attempts-to-success histogram:\n" ∷ [])
    ∷ (bin_lines 0 t.hist
        ++ (says (
              if t.overflow == 0
              then []
              else codes "  attempts>64 count=" ∷ dec t.overflow ∷ codes "\n" ∷ [])
            ∷ says (
                codes "iterations="
                ∷ dec niters
                ∷ codes " histogram-sum="
                ∷ dec (histogram_sum t)
                ∷ codes " max-attempts="
                ∷ dec t.max_att
                ∷ codes " value-errors="
                ∷ dec t.value_errors
                ∷ codes "\n"
                ∷ [])
            ∷ check (histogram_sum t == niters)
                (codes "histogram does not account for all iterations")
            ∷ check (t.value_errors == 0) (codes "stored value readback mismatch")
            ∷ check (save.seen == 0) (codes "unexpected trap fired during the run")
            ∷ says (
                if save.seen == 0
                then []
                else codes "  trap mcause="
                  ∷ hex save.mcause
                  ∷ codes " mepc="
                  ∷ hex save.mepc
                  ∷ codes " mtval="
                  ∷ hex save.mtval
                  ∷ codes "\n"
                  ∷ [])
            ∷ []))

-- The verdict's lines, and whether it is PASS.
unfoldable pub verdict : Log → Log × Bool
unfolding perform
verdict l = (
  perform
      (says (
        if l.fails == 0
        then codes "RESULT: PASS\n" ∷ codes "done\n" ∷ []
        else codes "RESULT: FAIL ("
          ∷ dec l.fails
          ∷ codes " checks failed)\n"
          ∷ codes "done\n"
          ∷ []))
      l,
  l.fails == 0,
)

unfoldable pub reported : Save → Log → Option Tally → Option (Log × Bool)
unfolding run report verdict
reported save l none = none
reported save l (some t) = some (verdict (run (report save t) l))

-- The lines of main ahead of the iterations.
unfoldable pub opening : ℕ → ℕ → List Statement
opening mhartid trap_entry =
    says (codes "lrsc-histogram: 10000 aligned lr.w/sc.w pairs, single hart\n" ∷ [])
    ∷ says (codes "hart mhartid=" ∷ dec mhartid ∷ codes "\n" ∷ [])
    ∷ says (
        codes "trap vector installed at "
        ∷ hex trap_entry
        ∷ codes " (halts the hart on any trap)\n"
        ∷ [])
    ∷ []

-- main, for the hart id and the address of the trap entry.
unfoldable pub main : ℕ → ℕ → Save → (ℕ → Iteration) → Option (Log × Bool)
unfolding reported run iterate opening
main mhartid trap_entry save env =
    reported save (run (opening mhartid trap_entry) power_up) (iterate env niters 0 no_tally)
