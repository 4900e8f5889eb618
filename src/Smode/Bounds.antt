-- ===== src/Smode/Bounds.antt =====
-- The sample arrays of src/smode/ssched.c, over every sequence of traps.
use riscv_baremetal_demo.Base.{
  ℕ, ◌+◌, ◌-◌, ◌^◌, ◌≤◌, ◌<◌, ◌≡◌, refl, sym, ap, ◌∙◌, ◌≢◌, inl, inr, Bool, true, false, Option,
  none, some, arith, ltb, leb, ◌==◌, if◌then◌else◌, Bool-cases, length, set, length-set,
}
use mathlib.Core.Path.{subst}
use mathlib.Core.Option.{some_inj}
use riscv_baremetal_demo.Timer.{Clock, next_deadline}
use riscv_baremetal_demo.Smode.{
  n_ticks, sub64, Build, cause_timer_irq, Sched, set_comparator, arm_found, stimer_arm,
  stimer_disarm, sched_init, Trap, Resume, boot, task, Outcome, parked, endless, overrun, resumed,
  store, account_final_switch, next_task, remember, go_on, choose, with_latency, strap_handler,
  leave, trap, parked_message,
}
use riscv_baremetal_demo.Smode.Arrays.{
  comparator, Sized, Sound, store_lem, account_lem, close-Closed, set_comparator_kept, no_value,
}

-- An outcome that overruns no array, and leaves a sound state if the handler returns.
unfoldable pub Safe : Build → Outcome → Type 0
Safe b (parked text) = Unit {0}
Safe b endless = Unit {0}
Safe b overrun = ⊥
Safe b (resumed next s) = Sound b s

module _ (b : Build) (t : Trap) where
  -- The exit path and the stamps touch nothing that soundness reads but `have_prev`.
  left-Sound :
      (next : Resume) (s : Sched)
      → Sized s
      → 1 ≤ s.ticks
      → s.ticks ≤ n_ticks
      → s.swn ≡ s.ticks - 1
      → s.done ≡ leb n_ticks s.ticks
      → comparator b s ≡ s.deadline
      → (s.ticks ≡ n_ticks → s.deadline ≡ 2 ^ 64 - 1)
      → Safe b (leave t (resumed next (remember t s)))
  unfolding Safe leave remember comparator
  left-Sound next s sized pos bound swn done armed off = record {
    is_sized = record { is_lat = sized.is_lat; is_swc = sized.is_swc; is_swt = sized.is_swt };
    is_ticks = bound;
    is_swn = swn;
    is_prev = ground arith;
    is_done = done;
    is_armed = armed;
    is_off = off;
  }

  last-Safe :
      (s : Sched)
      → Sized s
      → s.swn ≡ s.ticks
      → s.ticks + 1 ≡ n_ticks
      → Safe b (
          leave t (
            resumed boot
              (remember t (stimer_disarm b (record s { ticks = s.ticks + 1; done = true })))))
  unfolding stimer_disarm
  last-Safe s sized swn last =
      let quit : Sched = record s { ticks = s.ticks + 1; done = true; deadline = 2 ^ 64 - 1 } in
      let (armed, sizes, ticks, count, prev, done, deadline) =
        set_comparator_kept b (2 ^ 64 - 1) quit in
      left-Sound boot (set_comparator b (2 ^ 64 - 1) quit)
        (sizes (record { is_lat = sized.is_lat; is_swc = sized.is_swc; is_swt = sized.is_swt }))
        (omega (arith, ticks)) (omega (arith, ticks, last)) (omega (arith, ticks, count, swn))
        (done ∙ ap (leb n_ticks) (sym (ticks ∙ last))) (armed ∙ sym deadline) (λ _. deadline)

  current_kept :
      (s : Sched) (c : Option ℕ) → comparator b (record s { current = c }) ≡ comparator b s
  unfolding comparator
  current_kept s c = refl

  armed-Safe :
      (s : Sched) (found : ℕ × ℕ)
      → Sized s
      → s.swn ≡ s.ticks
      → s.ticks + 1 < n_ticks
      → s.done ≡ false
      → Safe b (leave t (go_on t (arm_found b (record s { ticks = s.ticks + 1 }) (some found))))
  unfolding arm_found go_on
  armed-Safe s (d, r) sized swn more going =
      let ready : Sched = record s { ticks = s.ticks + 1; deadline = d; reads = r } in
      let (armed, sizes, ticks, count, prev, done, deadline) = set_comparator_kept b d ready in
      let s' = set_comparator b d ready in
      let z =
        sizes (record { is_lat = sized.is_lat; is_swc = sized.is_swc; is_swt = sized.is_swt }) in
      let next = next_task s'.current (length s'.tasks) in
      left-Sound (task next) (record s' { current = some next })
        (record { is_lat = z.is_lat; is_swc = z.is_swc; is_swt = z.is_swt }) (omega (arith, ticks))
        (omega (arith, ticks, more)) (omega (arith, ticks, count, swn))
        (done ∙ going ∙ not_yet s' ticks) (current_kept s' (some next) ∙ armed ∙ sym deadline)
        (λ e. absurd (omega (arith, e, ticks, more)))
    where
      not_yet : (s' : Sched) → s'.ticks ≡ s.ticks + 1 → false ≡ leb n_ticks s'.ticks
      not_yet s' e = ground arith

  full_done : {n : ℕ} → n ≡ n_ticks → true ≡ leb n_ticks n
  full_done e = ground (arith, e)

  module _ (clock : Clock) (fuel : ℕ) where
    go_on-Safe :
        (s : Sched) (o : Option (ℕ × ℕ))
        → Sized s
        → s.swn ≡ s.ticks
        → s.ticks + 1 < n_ticks
        → s.done ≡ false
        → Safe b (leave t (go_on t (arm_found b (record s { ticks = s.ticks + 1 }) o)))
    unfolding arm_found go_on Safe leave
    go_on-Safe s none sized swn more going = tt
    go_on-Safe s (some found) sized swn more going = armed-Safe s found sized swn more going

    choose-Safe :
        (s : Sched)
        → Sized s
        → s.swn ≡ s.ticks
        → s.ticks < n_ticks
        → s.done ≡ false
        → Safe b (leave t (choose b clock fuel t (some s)))
    unfolding choose stimer_arm
    choose-Safe s sized swn small going =
        let counted : Sched = record s { ticks = s.ticks + 1 } in
        let found = next_deadline clock fuel s.reads in
        let branch = λ (q : Bool). leave t (
          if q
          then resumed boot (remember t (stimer_disarm b (record counted { done = true })))
          else go_on t (arm_found b counted found)) in
        elim (Bool-cases (leb n_ticks (s.ticks + 1))) [
          | inl e ↦ subst (Safe b) (sym (ap branch e)) (last-Safe s sized swn (ground arith))
          | inr e ↦
              subst (Safe b) (sym (ap branch e)) (go_on-Safe s found sized swn (ground arith) going)
        ]

    -- The branch for a stray trap past the quota.
    stray-Safe :
        (s : Sched)
        → Sound b s
        → s.ticks ≡ n_ticks
        → Safe b (leave t (resumed boot (record (stimer_disarm b s) { done = true })))
    unfolding stimer_disarm Safe leave comparator
    stray-Safe s sound full =
        let quit : Sched = record s { deadline = 2 ^ 64 - 1 } in
        let (armed, sizes, ticks, count, prev, done, deadline) =
          set_comparator_kept b (2 ^ 64 - 1) quit in
        let z = sizes (record {
          is_lat = sound.is_sized.is_lat;
          is_swc = sound.is_sized.is_swc;
          is_swt = sound.is_sized.is_swt;
        }) in
        record {
          is_sized = record { is_lat = z.is_lat; is_swc = z.is_swc; is_swt = z.is_swt };
          is_ticks = omega (arith, ticks, full);
          is_swn = count ∙ sound.is_swn ∙ ap (λ n. n - 1) (sym ticks);
          is_prev = prev ∙ sound.is_prev ∙ ap (ltb 0) (sym ticks);
          is_done = full_done full ∙ ap (leb n_ticks) (sym ticks);
          is_armed = armed ∙ sym deadline;
          is_off = λ _. deadline;
        }

    not_done : {n : ℕ} → n < n_ticks → leb n_ticks n ≡ false
    not_done h = ground arith

    -- The branch for a trap within the quota.
    timely-Safe :
        (s : Sched) (v : ℕ)
        → Sound b s
        → s.ticks < n_ticks
        → Safe b (leave t (choose b clock fuel t (with_latency s (store s.lat s.ticks v))))
    unfolding with_latency
    timely-Safe s v sound small =
        let sized = sound.is_sized in
        let lat = sized.is_lat in
        let stored = store_lem s.lat s.ticks v (omega (arith, lat, small)) in
        let closed =
          close-Closed s (set s.lat s.ticks v) (length-set s.lat s.ticks v ∙ lat) sized sound.is_swn
            sound.is_prev small in
        let going = closed.is_done ∙ sound.is_done ∙ not_done small in
        let ticks = closed.is_ticks in
        subst (λ o. Safe b (leave t (choose b clock fuel t o)))
          (sym (ap (with_latency s) stored ∙ closed.is_out))
          (choose-Safe closed.after closed.is_sized (closed.is_swn ∙ sym ticks)
            (omega (arith, ticks, small)) going)

    -- Whatever trap arrives, the handler writes inside its arrays, and keeps the state sound.
    trap-Safe : (s : Sched) → Sound b s → Safe b (trap b clock fuel t s)
    unfolding trap strap_handler Safe leave
    trap-Safe s sound =
        let v = sub64 t.mtime_at_entry s.deadline in
        let stray = resumed boot (record (stimer_disarm b s) { done = true }) in
        let timely = choose b clock fuel t (with_latency s (store s.lat s.ticks v)) in
        let inner = λ (q : Bool). if q then stray else timely in
        let outer = λ (q : Bool).
          leave t (if q then inner (leb n_ticks s.ticks) else parked parked_message) in
        elim (Bool-cases (t.cause == cause_timer_irq b)) [
          | inl timer ↦ elim (Bool-cases (leb n_ticks s.ticks)) [
            | inl full ↦
                subst (Safe b) (sym (ap outer timer ∙ ap (λ q. leave t (inner q)) full))
                  (stray-Safe s sound (let bound = sound.is_ticks in ground arith))
            | inr more ↦
                subst (Safe b) (sym (ap outer timer ∙ ap (λ q. leave t (inner q)) more))
                  (timely-Safe s v sound (ground arith))
          ]
          | inr other ↦ subst (Safe b) (sym (ap outer other)) tt
        ]

-- The states between two traps, from any power-up with the tasks registered.
pub data Reachable (b : Build) (clock : Clock) (fuel : ℕ) : Sched → Type 0 where
  starts :
      (s s' : Sched) → Sized s → sched_init b clock fuel s ≡ some s' → Reachable b clock fuel s'
  runs :
      (t : Trap) (next : Resume) (s s' : Sched)
      → Reachable b clock fuel s
      → trap b clock fuel t s ≡ resumed next s'
      → Reachable b clock fuel s'

init-Sound :
    (b : Build) (s : Sched) (o : Option (ℕ × ℕ)) (s' : Sched)
    → Sized s
    → arm_found b (record s { ticks = 0; done = false; have_prev = false; swn = 0 }) o ≡ some s'
    → Sound b s'
unfolding arm_found
init-Sound b s none s' sized e = absurd (no_value e)
init-Sound b s (some (d, r)) s' sized e =
    let ready : Sched = record s {
      ticks = 0;
      done = false;
      have_prev = false;
      swn = 0;
      deadline = d;
      reads = r;
    } in
    let (armed, sizes, ticks, count, prev, done, deadline) = set_comparator_kept b d ready in
    let sound : Sound b (set_comparator b d ready) = record {
      is_sized =
          sizes (record { is_lat = sized.is_lat; is_swc = sized.is_swc; is_swt = sized.is_swt });
      is_ticks = omega (arith, ticks);
      is_swn = omega (arith, count, ticks);
      is_prev = prev ∙ ap (ltb 0) (sym ticks);
      is_done = done ∙ ap (leb n_ticks) (sym ticks);
      is_armed = armed ∙ sym deadline;
      is_off = λ q. absurd (omega (arith, q, ticks));
    } in
    subst (Sound b) (some_inj.0 e) sound

Reachable-Sound :
    {b : Build} {clock : Clock} {fuel : ℕ} {s : Sched} → Reachable b clock fuel s → Sound b s
unfolding sched_init stimer_arm Safe
Reachable-Sound {b} {clock} {fuel} (starts s s' sized e) =
    init-Sound b s (next_deadline clock fuel s.reads) s' sized e
Reachable-Sound {b} {clock} {fuel} (runs t next s s' before e) =
    subst (Safe b) e (trap-Safe b t clock fuel s (Reachable-Sound before))

-- In every state that a sequence of traps reaches, stray and unexpected ones among them, whatever
-- the clock says: at most 200 ticks are counted and the run is done exactly at the 200th; there is
-- one switch sample less than there are ticks; the arrays have their 200 entries, and neither a
-- further trap nor the final accounting of the report writes outside them. The comparator in use
-- holds the deadline, and from the 200th tick on that is the largest number, so the timer is off.
pub Reachable-IsBounded :
    (b : Build) (clock : Clock) (fuel : ℕ) (t : Trap) (s : Sched)
    → Reachable b clock fuel s
    → Sound b s × (trap b clock fuel t s ≢ overrun) × (account_final_switch s ≢ none)
unfolding Safe
Reachable-IsBounded b clock fuel t s reached =
    let sound = Reachable-Sound reached in
    (
      sound,
      λ e. subst (Safe b) e (trap-Safe b t clock fuel s sound),
      λ e.
          let swn = sound.is_swn in
          let ticks = sound.is_ticks in
          no_value (sym e ∙ account_lem s sound.is_sized (omega (arith, swn, ticks))),
    )
