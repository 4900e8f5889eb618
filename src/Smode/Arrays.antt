-- ===== src/Smode/Arrays.antt =====
-- The sample arrays of src/smode/ssched.c: what one round of samples stores, and where.
use riscv_baremetal_demo.Base.{
  ℕ, ◌+◌, ◌-◌, ◌^◌, ◌≤◌, ◌<◌, ◌≡◌, refl, ap, ap₂, ◌∙◌, inl, inr, true, ◌&&◌, Option, none, some,
  List, arith, ltb, leb, if◌then◌else◌, Bool-cases, length, set, length-set,
}
use riscv_baremetal_demo.Smode.{
  n_ticks, sub64, Build, Sched, set_comparator, store, with_costs, account_final_switch,
  close_previous,
}

-- The compare register that is in use.
unfoldable pub comparator : Build → Sched → ℕ
comparator b s = if b.trap_smode && b.use_sstc then s.stimecmp else s.mtimecmp

-- The arrays keep their length.
pub record Sized (s : Sched) : Type 0 where
  pub is_lat : length s.lat ≡ n_ticks
  pub is_swc : length s.swc ≡ n_ticks
  pub is_swt : length s.swt ≡ n_ticks

pub record Sound (b : Build) (s : Sched) : Type 0 where
  pub is_sized : Sized s
  pub is_ticks : s.ticks ≤ n_ticks
  pub is_swn : s.swn ≡ s.ticks - 1
  pub is_prev : s.have_prev ≡ ltb 0 s.ticks
  pub is_done : s.done ≡ leb n_ticks s.ticks
  pub is_armed : comparator b s ≡ s.deadline
  pub is_off : s.ticks ≡ n_ticks → s.deadline ≡ 2 ^ 64 - 1

pub no_value : {v : Sched} → ◌≡◌ {A = Option Sched} none (some v) → ⊥
no_value e = cc

pub store_lem : (a : List ℕ) (i v : ℕ) → i < length a → store a i v ≡ some (set a i v)
unfolding store
store_lem a i v h =
    let test : ltb i (length a) ≡ true = ground arith in
    ap (λ t. if t then some (set a i v) else none) test

pub account_lem :
    (s : Sched)
    → Sized s
    → s.swn < n_ticks
    → account_final_switch s
      ≡ some (record s {
        swc = set s.swc s.swn (sub64 s.exit_cycles s.entry_cycles);
        swt = set s.swt s.swn (sub64 s.exit_mtime s.entry_mtime);
        swn = s.swn + 1;
      })
unfolding account_final_switch with_costs
account_lem s sized h =
    let c = sized.is_swc in
    let t = sized.is_swt in
    ap₂ (with_costs s.swn s)
      (store_lem s.swc s.swn (sub64 s.exit_cycles s.entry_cycles) (omega (arith, c)))
      (store_lem s.swt s.swn (sub64 s.exit_mtime s.entry_mtime) (omega (arith, t)))

-- A state with one more latency and the previous switch accounted for.
pub record Closed (s : Sched) (out : Option Sched) : Type 0 where
  pub after : Sched
  pub is_out : out ≡ some after
  pub is_sized : Sized after
  pub is_swn : after.swn ≡ s.ticks
  pub is_ticks : after.ticks ≡ s.ticks
  pub is_done : after.done ≡ s.done

pub close-Closed :
    (s : Sched) (lat : List ℕ)
    → length lat ≡ n_ticks
    → Sized s
    → s.swn ≡ s.ticks - 1
    → s.have_prev ≡ ltb 0 s.ticks
    → s.ticks < n_ticks
    → Closed s (close_previous (record s { lat = lat }))
unfolding close_previous
close-Closed s lat len sized swn prev small = elim (Bool-cases s.have_prev) [
  | inl e ↦
      let with_lat : Sched = record s { lat = lat } in
      let fits : Sized with_lat = record {
        is_lat = len;
        is_swc = sized.is_swc;
        is_swt = sized.is_swt;
      } in
      record {
        after = record with_lat {
          swc = set s.swc s.swn (sub64 s.exit_cycles s.entry_cycles);
          swt = set s.swt s.swn (sub64 s.exit_mtime s.entry_mtime);
          swn = s.swn + 1;
        };
        is_out =
            ap (λ t. if t then account_final_switch with_lat else some with_lat) e
            ∙ account_lem with_lat fits (omega (arith, swn, small));
        is_sized = record {
          is_lat = len;
          is_swc = length-set s.swc s.swn _ ∙ sized.is_swc;
          is_swt = length-set s.swt s.swn _ ∙ sized.is_swt;
        };
        is_swn = ground (arith, swn, prev, e);
        is_ticks = refl;
        is_done = refl;
      }
  | inr e ↦
      let with_lat : Sched = record s { lat = lat } in
      record {
        after = with_lat;
        is_out = ap (λ t. if t then account_final_switch with_lat else some with_lat) e;
        is_sized = record { is_lat = len; is_swc = sized.is_swc; is_swt = sized.is_swt };
        is_swn = ground (arith, swn, prev, e);
        is_ticks = refl;
        is_done = refl;
      }
]

-- What programming the comparator leaves.
pub set_comparator_kept :
    (b : Build) (v : ℕ) (s : Sched)
    → (comparator b (set_comparator b v s) ≡ v)
      × (Sized s → Sized (set_comparator b v s))
      × ((set_comparator b v s).ticks ≡ s.ticks)
      × ((set_comparator b v s).swn ≡ s.swn)
      × ((set_comparator b v s).have_prev ≡ s.have_prev)
      × ((set_comparator b v s).done ≡ s.done)
      × ((set_comparator b v s).deadline ≡ s.deadline)
unfolding comparator set_comparator
set_comparator_kept b v s = elim (Bool-cases (b.trap_smode && b.use_sstc)) [
  | inl e ↦ rw e (
    refl,
    λ z. record { is_lat = z.is_lat; is_swc = z.is_swc; is_swt = z.is_swt },
    refl,
    refl,
    refl,
    refl,
    refl,
  )
  | inr e ↦ rw e (
    refl,
    λ z. record { is_lat = z.is_lat; is_swc = z.is_swc; is_swt = z.is_swt },
    refl,
    refl,
    refl,
    refl,
    refl,
  )
]
