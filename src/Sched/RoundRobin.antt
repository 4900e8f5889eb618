-- ===== src/Sched/RoundRobin.antt =====
-- `sched_run` takes the tasks in turn, round by round, until every body has returned.
use riscv_baremetal_demo.Base.{
  ℕ, zero, suc, ◌+◌, ◌-◌, ◌≤◌, ◌<◌, ◌≡◌, refl, sym, ap, ap₂, ◌∙◌, ◌↔◌, some, List, [], ◌∷◌, ◌++◌,
  arith, ◌==◌, if◌then◌else◌, length, get_or,
}
use Prim.Native.Nat.{max}
use mathlib.Core.List.{map}
use riscv_baremetal_demo.Sched.{
  task_ready, Body, returns, yields, Task, resume, Turn, is_done, turn, pass, sched_loop, sched_run,
}

-- What a body prints in each of its turns.
unfoldable pub slices : Body → List (List ℕ)
slices (returns out) = out ∷ []
slices (yields out rest) = out ∷ slices rest

abbrev pub slices_of : Task → List (List ℕ)
slices_of t = if is_done t then [] else slices t.body

abbrev Queues : Type 0
Queues = List (List (List ℕ))

-- One round: the next slice of every queue that has one, by index.
unfoldable pub heads : ℕ → List (List (List ℕ)) → List Turn
heads i [] = []
heads i ([] ∷ qs) = heads (i + 1) qs
heads i ((out ∷ q) ∷ qs) = (i, out) ∷ heads (i + 1) qs

unfoldable pub tails : List (List (List ℕ)) → List (List (List ℕ))
tails [] = []
tails ([] ∷ qs) = [] ∷ tails qs
tails ((out ∷ q) ∷ qs) = q ∷ tails qs

unfoldable pub rounds : ℕ → List (List (List ℕ)) → List Turn
rounds zero qs = []
rounds (suc n) qs = heads 0 qs ++ rounds n (tails qs)

unfoldable pub longest : List (List (List ℕ)) → ℕ
longest [] = 0
longest (q ∷ qs) = max (length q) (longest qs)

abbrev live : Task → ℕ
live t = if is_done t then 0 else 1

pending : List Task → ℕ
pending [] = 0
pending (t ∷ ts) = live t + pending ts

-- The bookkeeping of one turn, with `k` tasks live beside this one.
turn_lem :
    (i : ℕ) (t : Task) (r k : ℕ) (qs : Queues)
    → r ≡ live t + k
    → let (now, t', left) = turn i t r in
      (now ++ heads (i + 1) qs ≡ heads i (slices_of t ∷ qs))
      × (slices_of t' ∷ tails qs ≡ tails (slices_of t ∷ qs))
      × (left ≡ live t' + k)
unfolding turn resume heads tails slices
turn_lem i t r k qs e = ground arith

pass_lem :
    (i : ℕ) (ts : List Task) (r k : ℕ)
    → r ≡ pending ts + k
    → let (turns, ts', left) = pass i ts r in
      (turns ≡ heads i (map slices_of ts))
      × (map slices_of ts' ≡ tails (map slices_of ts))
      × (left ≡ pending ts' + k)
unfolding pass heads tails pending
pass_lem i [] r k e = (refl, refl, e)
pass_lem i (t ∷ ts) r k e =
    let (now, after, left) = turn_lem i t r (pending ts + k) (map slices_of ts) (omega arith) in
    let t' = (turn i t r).1 in
    let (later, rest, left') =
      pass_lem (i + 1) ts (turn i t r).2 (live t' + k) (omega (arith, left)) in
    (
      ap (λ l. (turn i t r).0 ++ l) later ∙ now,
      ap (λ q. slices_of t' ∷ q) rest ∙ after,
      omega (arith, left'),
    )

slices-pos : (b : Body) → 0 < length (slices b)
unfolding slices
slices-pos (returns out) = omega arith
slices-pos (yields out rest) = omega arith

-- No task is live exactly when no queue has a slice.
pending-longest : (ts : List Task) → (pending ts ≡ 0) ↔ (longest (map slices_of ts) ≡ 0)
unfolding pending longest
pending-longest [] = (λ _. refl, λ _. refl)
pending-longest (t ∷ ts) = ground (arith, slices-pos t.body, pending-longest ts)

longest-tails : (qs : Queues) → longest (tails qs) ≡ longest qs - 1
unfolding longest tails
longest-tails [] = refl
longest-tails ([] ∷ qs) = omega (arith, longest-tails qs)
longest-tails ((out ∷ q) ∷ qs) = omega (arith, longest-tails qs)

sched_loop_lem :
    (n fuel : ℕ) (ts : List Task)
    → longest (map slices_of ts) ≡ n
    → n < fuel
    → sched_loop fuel ts (pending ts) ≡ some (rounds n (map slices_of ts))
unfolding sched_loop rounds
sched_loop_lem n zero ts e h = absurd (omega arith)
sched_loop_lem zero (suc fuel) ts e h = rw ((pending-longest ts).1 e) refl
sched_loop_lem (suc n) (suc fuel) ts e h =
    let (turns, rest, left) = pass_lem 0 ts (pending ts) 0 (omega arith) in
    let ts' = (pass 0 ts (pending ts)).1 in
    let shorter = ap longest rest ∙ longest-tails (map slices_of ts) in
    let ih = sched_loop_lem n fuel ts' (omega (arith, shorter)) (omega arith) in
    ground (arith, ih, turns, rest, left, pending-longest ts)

-- A table in which no task has run.
abbrev pub AllReady : List Task → Type 0
AllReady [] = Unit {0}
AllReady (t ∷ ts) = (t.state ≡ task_ready) × AllReady ts

abbrev pub queues : List Task → List (List (List ℕ))
queues [] = []
queues (t ∷ ts) = slices t.body ∷ queues ts

queues-slices_of : (ts : List Task) → AllReady ts → map slices_of ts ≡ queues ts
queues-slices_of [] h = refl
queues-slices_of (t ∷ ts) h = ground (arith, queues-slices_of ts h.1)

pending-length : (ts : List Task) → AllReady ts → pending ts ≡ length ts
unfolding pending
pending-length [] h = refl
pending-length (t ∷ ts) h = ground (arith, pending-length ts h.1)

-- `sched_run` over tasks that have not run ends, after as many rounds as the longest body has
-- turns, and its turns are, round by round and in the order of the table, the next slice of every
-- body that has one left.
pub sched_run-rounds :
    (fuel : ℕ) (ts : List Task)
    → AllReady ts
    → longest (queues ts) < fuel
    → sched_run fuel ts ≡ some (rounds (longest (queues ts)) (queues ts))
unfolding sched_run
sched_run-rounds fuel ts ready h =
    let same = queues-slices_of ts ready in
    let loop = sched_loop_lem (longest (queues ts)) fuel ts (ap longest same) h in
    rw (← pending-length ts ready) (loop ∙ ap (λ q. some (rounds (longest (queues ts)) q)) same)

-- The slices that task `k` printed, in the order of the turns.
unfoldable pub printed_by : ℕ → List Turn → List (List ℕ)
printed_by k [] = []
printed_by k ((i, out) ∷ turns) = if i == k then out ∷ printed_by k turns else printed_by k turns

printed_by-append :
    (k : ℕ) (a b : List Turn) → printed_by k (a ++ b) ≡ printed_by k a ++ printed_by k b
unfolding printed_by
printed_by-append k [] b = refl
printed_by-append k ((i, out) ∷ a) b = ground (arith, printed_by-append k a b)

abbrev first_of : List (List ℕ) → List (List ℕ)
first_of [] = []
first_of (out ∷ q) = out ∷ []

heads-above : (k i : ℕ) (qs : Queues) → k < i → printed_by k (heads i qs) ≡ []
unfolding printed_by heads
heads-above k i [] h = refl
heads-above k i ([] ∷ qs) h = heads-above k (i + 1) qs (omega arith)
heads-above k i ((out ∷ q) ∷ qs) h = ground (arith, heads-above k (i + 1) qs)

heads-at :
    (j k i : ℕ) (qs : Queues) → k ≡ i + j → printed_by k (heads i qs) ≡ first_of (get_or qs j [])
unfolding printed_by heads
heads-at j k i [] e = refl
heads-at zero k i ([] ∷ qs) e = heads-above k (i + 1) qs (omega arith)
heads-at zero k i ((out ∷ q) ∷ qs) e = ground (arith, heads-above k (i + 1) qs)
heads-at (suc j) k i ([] ∷ qs) e = heads-at j k (i + 1) qs (omega arith)
heads-at (suc j) k i ((out ∷ q) ∷ qs) e = ground (arith, heads-at j k (i + 1) qs)

tails-at :
    (qs : Queues) (j : ℕ) → first_of (get_or qs j []) ++ get_or (tails qs) j [] ≡ get_or qs j []
unfolding tails
tails-at [] j = refl
tails-at ([] ∷ qs) zero = refl
tails-at ((out ∷ q) ∷ qs) zero = refl
tails-at ([] ∷ qs) (suc j) = tails-at qs j
tails-at ((out ∷ q) ∷ qs) (suc j) = tails-at qs j

longest-zero : (qs : Queues) (j : ℕ) → longest qs ≡ 0 → get_or qs j [] ≡ []
unfolding longest
longest-zero [] j h = refl
longest-zero ([] ∷ qs) zero h = refl
longest-zero ((out ∷ q) ∷ qs) zero h = absurd (omega arith)
longest-zero (q ∷ qs) (suc j) h = longest-zero qs j (omega arith)

rounds-printed :
    (n k : ℕ) (qs : Queues) → longest qs ≤ n → printed_by k (rounds n qs) ≡ get_or qs k []
unfolding rounds printed_by
rounds-printed zero k qs h = sym (longest-zero qs k (omega arith))
rounds-printed (suc n) k qs h =
    printed_by-append k (heads 0 qs) (rounds n (tails qs))
    ∙ ap₂ ◌++◌ (heads-at k k 0 qs (omega arith))
        (rounds-printed n k (tails qs) (omega (arith, longest-tails qs)))
    ∙ tails-at qs k

-- No turn is lost or repeated: what task `k` prints during `sched_run` is its whole body, in order.
pub sched_run_complete :
    (fuel k : ℕ) (ts : List Task)
    → AllReady ts
    → longest (queues ts) < fuel
    → (turns : List Turn) × (sched_run fuel ts ≡ some turns)
      × (printed_by k turns ≡ get_or (queues ts) k [])
sched_run_complete fuel k ts ready h = (
  _,
  sched_run-rounds fuel ts ready h,
  rounds-printed (longest (queues ts)) k (queues ts) (omega arith),
)
