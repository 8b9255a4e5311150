-- ===== src/Scheduler.antt =====
-- kernel/sched/scheduler.c: task tables, run queues and the timer tick of each processor.
-- A processor's table is the list of its slots; `tasks[0..count)` of a run queue is a list. Register
-- frames are opaque numbers. What smp.c, topology.c and the timer say comes in a `Machine`. Each
-- call holds the locks that it takes, so it is one step.
pub mod Placement
pub mod Cpu
pub mod Balance
pub mod Queue
pub mod Pick
pub mod Tick
pub mod Dropped
pub mod Yield
mod Tests
use osai.Prelude.{
  ℕ, zero, suc, ◌+◌, ◌-◌, ◌^◌, Bool, true, false, ◌&&◌, ◌||◌, not, Option, none, some, List, [],
  ◌∷◌, ◌++◌, ltb, leb, ◌==◌, if◌then◌else◌, add32, add64, length, Status, ok, invalid, no_memory,
  update,
}

-- `xaios_task_priority_t`
pub data Priority : Type 0 where
  high normal low : Priority

-- The enumeration's values, which the code compares.
abbrev pub rank : Priority → ℕ
rank high = 0
rank normal = 1
rank low = 2

-- `priority_slice`
pub priority_slice : Priority → ℕ
priority_slice high = 4
priority_slice normal = 2
priority_slice low = 1

-- `xaios_task_state_t`
pub data TaskState : Type 0 where
  unused registered runnable running blocked : TaskState

-- `xaios_sched_task_t`
pub record Task : Type 0 where
  pub pid : ℕ
  pub active : Bool
  pub frame : ℕ
  pub tick_count : ℕ
  pub switch_count : ℕ
  pub priority : Priority
  pub state : TaskState
  pub assigned_cpu : ℕ
  pub remaining_ticks : ℕ

-- A slot of `xaios_cpu_task_table_t` with its bit of `slot_bitmap`.
pub record Slot : Type 0 where
  pub claimed : Bool
  pub task : Task

-- `xaios_runqueue_t`
pub record Runqueue : Type 0 where
  pub tasks : List ℕ
  pub current_pid : ℕ
  pub idle_ticks : ℕ
  pub busy_ticks : ℕ

-- XAIOS_SCHEDULER_PER_CPU_RUNQUEUE, XAIOS_SCHEDULER_MAX_TASKS and XAIOS_MAX_CPUS
abbrev pub runqueue_size : ℕ
runqueue_size = 128

abbrev pub max_tasks : ℕ
max_tasks = 32768

abbrev pub max_cpus : ℕ
max_cpus = 256

-- The test of `find_task_local` at a slot.
abbrev pub holds : ℕ → Slot → Bool
holds pid s = s.claimed && (s.task.active && s.task.pid == pid)

-- `find_task_local` on a processor's table.
pub find_task : List Slot → ℕ → Option Task
find_task [] pid = none
find_task (s ∷ slots) pid =
    let rest = find_task slots pid in if holds pid s then some s.task else rest

-- A write through the pointer that `find_task_local` returns.
pub with_task : List Slot → ℕ → (Task → Task) → List Slot
with_task [] pid f = []
with_task (s ∷ slots) pid f =
    let rest = with_task slots pid f in
    if holds pid s then record s { task = f s.task } ∷ slots else s ∷ rest

-- `alloc_task_slot` with what its caller writes into the slot; `none` for a full table.
pub alloc_slot : List Slot → Task → Option (List Slot)
alloc_slot [] task = none
alloc_slot (s ∷ slots) task =
    let rest = alloc_slot slots task in
    if not s.claimed
    then some (record { claimed = true; task = task } ∷ slots)
    else elim rest [ none ↦ none | some slots' ↦ some (s ∷ slots') ]

-- `task->active = 0; task->state = UNUSED; free_task_slot(cpu, task);`
pub free_slot : List Slot → ℕ → List Slot
free_slot [] pid = []
free_slot (s ∷ slots) pid =
    let rest = free_slot slots pid in
    if holds pid s
    then record { claimed = false; task = record (s.task) { active = false; state = unused } }
      ∷ slots
    else s ∷ rest

-- `rq_index(rq, pid) != 0xffffffff`
pub queued : List ℕ → ℕ → Bool
queued [] pid = false
queued (p ∷ ps) pid = p == pid || queued ps pid

-- `rq_add`
pub rq_add : Runqueue → ℕ → Runqueue
unfolding queued
rq_add rq pid =
    if ltb (length rq.tasks) runqueue_size && not (queued rq.tasks pid)
    then record rq { tasks = rq.tasks ++ pid ∷ [] }
    else rq

-- The shift of `rq_remove`: the first occurrence goes.
pub remove_pid : List ℕ → ℕ → List ℕ
remove_pid [] pid = []
remove_pid (p ∷ ps) pid = if p == pid then ps else p ∷ remove_pid ps pid

-- `rq_remove`
pub rq_remove : Runqueue → ℕ → Runqueue
unfolding remove_pid
rq_remove rq pid = record rq { tasks = remove_pid rq.tasks pid }

-- One round of `rq_pick_best`: the best pid and priority so far, after `pid`.
pub pick_round : List Slot → ℕ → ℕ → Priority → ℕ × Priority
pick_round slots pid best prio = elim (find_task slots pid) [
  | none ↦ (best, prio)
  | some t ↦ if ltb (rank t.priority) (rank prio) then (t.pid, t.priority) else (best, prio)
]

-- The loop of `rq_pick_best` over the pids left; it stops at HIGH.
pub pick_loop : List Slot → List ℕ → ℕ → Priority → ℕ
pick_loop slots [] best prio = best
pick_loop slots (pid ∷ pids) best prio =
    let r = pick_round slots pid best prio in
    let rest = pick_loop slots pids r.0 r.1 in elim r.1 [ high ↦ r.0 | _ ↦ rest ]

-- `rq_pick_best`: 0 for an empty queue.
pub rq_pick_best : List Slot → Runqueue → ℕ × Runqueue
unfolding pick_loop rq_remove
rq_pick_best slots rq = elim rq.tasks [
  | [] ↦ (0, rq)
  | pid ∷ pids ↦ let best = pick_loop slots (pid ∷ pids) pid low in (best, rq_remove rq best)
]

-- The loop of `rq_pick_stealable`: the best pid so far, 0 for none.
pub steal_loop : List Slot → ℕ → List ℕ → ℕ → Priority → ℕ
unfolding find_task
steal_loop slots current [] best prio = best
steal_loop slots current (pid ∷ pids) best prio =
    let (best', prio') : ℕ × Priority =
      if pid == current then (best, prio) else elim (find_task slots pid) [
        | none ↦ (best, prio)
        | some t ↦
            if leb (rank t.priority) (rank prio) && (ltb (rank t.priority) (rank prio) || best == 0)
            then (pid, t.priority)
            else (best, prio)
      ] in
    steal_loop slots current pids best' prio'

-- `rq_pick_stealable`
pub rq_pick_stealable : List Slot → Runqueue → ℕ × Runqueue
unfolding steal_loop rq_remove
rq_pick_stealable slots rq =
    let best = steal_loop slots rq.current_pid rq.tasks 0 low in
    (best, if best == 0 then rq else rq_remove rq best)
