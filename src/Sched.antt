-- ===== src/Sched.antt =====
-- src/sched.c and src/sched.h: the cooperative round-robin scheduler.
pub mod Stacks
pub mod RoundRobin
mod Tests
use riscv_baremetal_demo.Base.{
  ℕ, zero, suc, ◌+◌, ◌-◌, ◌*◌, ◌%◌, Bool, true, false, Option, none, some, List, [], ◌∷◌, ◌++◌, leb,
  ◌==◌, if◌then◌else◌, length,
}

abbrev pub max_tasks : ℕ
max_tasks = 3

abbrev pub stack_size : ℕ
stack_size = 4096

-- `sizeof(context_t)` and `sizeof(task_t)`: fourteen registers; then the stack, two pointers, and
-- the state padded to eight bytes.
abbrev pub context_size : ℕ
context_size = 8 * 14

abbrev pub task_size : ℕ
task_size = context_size + stack_size + 8 + 8 + 8

pub data TaskState : Type 0 where
  task_ready task_done : TaskState

-- What a task body still does: it prints a text, and then gives up the processor or returns.
pub data Body : Type 0 where
  returns : List ℕ → Body
  yields : List ℕ → Body → Body

-- `task_t`. Of the saved context the model keeps the stack pointer that `task_create` sets; the
-- rest of it is where `body` resumes.
pub record Task : Type 0 where
  pub sp : ℕ
  pub body : Body
  pub name : List ℕ
  pub state : TaskState

-- `x & ~15UL`
abbrev pub align16 : ℕ → ℕ
align16 x = x - x % 16

-- The address of `tasks[i].stack`, with the table at `base`.
abbrev pub stack_of : ℕ → ℕ → ℕ
stack_of base i = base + i * task_size + context_size

-- The table holds its first `num_tasks` entries. One that is full ignores the task.
unfoldable pub task_create : ℕ → Body → List ℕ → List Task → List Task
task_create base fn name tasks =
    if leb max_tasks (length tasks)
    then tasks
    else tasks
      ++ (record {
        sp = align16 (stack_of base (length tasks) + stack_size);
        body = fn;
        name = name;
        state = task_ready;
      }
          ∷ [])

-- `swtch` into a task: it runs to its next `sched_yield`. A body that returns leaves its task in
-- the endless loop of `task_trampoline`, which only yields.
pub resume : Task → List ℕ × Task
resume t = elim t.body [
  | yields out rest ↦ (out, record t { body = rest })
  | returns out ↦ (out, record t { body = returns []; state = task_done })
]

-- A turn: which task ran, and what it printed.
abbrev pub Turn : Type 0
Turn = ℕ × List ℕ

abbrev pub is_done : Task → Bool
is_done t = elim t.state [ task_done ↦ true | task_ready ↦ false ]

-- The body of the `for` loop at task `i`: the turn, if there is one, the task, and `remaining`.
turn : ℕ → Task → ℕ → List Turn × Task × ℕ
turn i t remaining =
    let (out, t') = resume t in
    let ran : List Turn × Task × ℕ =
      ((i, out) ∷ [], t', if is_done t' then remaining - 1 else remaining) in
    if is_done t then ([], t, remaining) else ran

-- The `for` loop from index `i` on, over the tasks that are left of it.
pub pass : ℕ → List Task → ℕ → List Turn × List Task × ℕ
pass i [] remaining = ([], [], remaining)
pass i (t ∷ ts) remaining =
    let (now, t', remaining') = turn i t remaining in
    let (later, ts', left) = pass (i + 1) ts remaining' in (now ++ later, t' ∷ ts', left)

-- `while (remaining > 0)`, with fuel.
pub sched_loop : ℕ → List Task → ℕ → Option (List Turn)
sched_loop zero tasks remaining = none
sched_loop (suc fuel) tasks remaining =
    let (turns, tasks', left) = pass 0 tasks remaining in
    let rest = sched_loop fuel tasks' left in
    if remaining == 0
    then some []
    else elim rest [ none ↦ none | some later ↦ some (turns ++ later) ]

pub sched_run : ℕ → List Task → Option (List Turn)
sched_run fuel tasks = sched_loop fuel tasks (length tasks)
