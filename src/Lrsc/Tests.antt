-- ===== src/Lrsc/Tests.antt =====
-- Runs of the model of src/lrsc-histogram/lrsc_main.c, and the theorem on a hart that retries once.
use riscv_baremetal_demo.Base.{
  ℕ, ◌%◌, ◌^◌, ◌<◌, ◌≡◌, refl, ◌↔◌, inl, inr, Bool, true, some, [], ◌∷◌,
}
use riscv_baremetal_demo.Probe.{Log}
use riscv_baremetal_demo.Lrsc.{
  niters, Iteration, retry, lrsc_store, Tally, no_tally, account, iterate, Save, histogram_sum,
  main,
}
use riscv_baremetal_demo.Lrsc.Accounts.{main_accounts}

-- Every second sc.w succeeds.
abbrev second_time : ℕ → Iteration
second_time i = record { results = 1 ∷ 0 ∷ []; readback = i % 2 ^ 32 }

abbrev quiet : Save
quiet = record { mcause = 0; mepc = 0; mtval = 0; seen = 0 }

store_takes_two : lrsc_store (second_time 7) ≡ some 2
unfolding lrsc_store retry
store_takes_two = refl

beyond_the_bins : (account 0 0 65 no_tally).overflow ≡ 1
unfolding account
beyond_the_bins = refl

main_accounts_example :
    (t : Tally) × (pass : Bool) × (l : Log) × (iterate second_time niters 0 no_tally ≡ some t)
    × (histogram_sum t ≡ niters)
    × (main 0 2147483648 quiet second_time ≡ some (l, pass))
    × ((pass ≡ true)
        ↔ (((k : ℕ) → k < niters → (second_time k).readback ≡ k % 2 ^ 32) × (quiet.seen ≡ 0)))
main_accounts_example = main_accounts 0 2147483648 quiet second_time (λ k. inr (inl refl))
