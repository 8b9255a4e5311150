-- ===== src/Scheduler/Tick.antt =====
-- `scheduler_tick` and `scheduler_yield` of scheduler.c, without the switch of address space and frame.
use osai.Prelude.{
  ℕ, ◌-◌, Bool, true, false, ◌||◌, not, none, some, ltb, leb, ◌==◌, if◌then◌else◌, add64,
}
use osai.Scheduler.{
  TaskState, runnable, running, Task, max_cpus, priority_slice, find_task, with_task, rq_add,
  rq_pick_best,
}
use osai.Scheduler.Placement.{Machine}
use osai.Scheduler.Balance.{periodic_load_balance}
use osai.Scheduler.Cpu.{Cpu, Scheduler, set_cpu, change_task, try_steal_hierarchical}

abbrev pub is_runnable : TaskState → Bool
is_runnable runnable = true
is_runnable _ = false

-- "current->frame = *irq_frame", and one tick of its slice.
abbrev pub charge : ℕ → Task → Task
charge frame t = record t {
  frame = frame;
  tick_count = add64 t.tick_count 1;
  remaining_ticks = t.remaining_ticks - 1;
}

-- The current task is charged, if there is one.
unfoldable pub charge_current : Cpu → ℕ → Cpu
charge_current c frame =
    if c.rq.current_pid == 0 then c else change_task c c.rq.current_pid (charge frame)

-- The slice has run out: the task is runnable again, with a new slice, at the end of the queue.
abbrev pub renew : Task → Task
renew t = record t { state = runnable; remaining_ticks = priority_slice t.priority }

-- `need_reschedule`, and the processor after the test that sets it.
unfoldable pub need_reschedule : Cpu → Bool × Cpu
need_reschedule c =
    let pid = c.rq.current_pid in
    let renewed = change_task (record c { rq = rq_add c.rq pid }) pid renew in
    if pid == 0 then (true, c) else elim (find_task c.slots pid) [
      | none ↦ (true, c)
      | some t ↦
          if not (is_runnable t.state)
          then (true, c)
          else (if t.remaining_ticks == 0 then (true, renewed) else (false, c))
    ]

abbrev pub count_busy_stat : Cpu → Cpu
count_busy_stat c = record c {
  rq = record (c.rq) { busy_ticks = add64 c.rq.busy_ticks 1 };
  stats = record (c.stats) { busy_ticks = add64 c.stats.busy_ticks 1 };
}

abbrev pub go_idle : Cpu → Cpu
go_idle c = record c {
  rq = record (c.rq) { current_pid = 0; idle_ticks = add64 c.rq.idle_ticks 1 };
  stats = record (c.stats) { idle_ticks = add64 c.stats.idle_ticks 1 };
}

-- `next_task->state = RUNNING; ++next_task->switch_count`
abbrev pub start : Task → Task
start t = record t { state = running; switch_count = add64 t.switch_count 1 }

abbrev pub switch_to : Cpu → ℕ → Cpu
switch_to c pid = record c {
  slots = with_task c.slots pid start;
  rq = record (c.rq) { current_pid = pid; busy_ticks = add64 c.rq.busy_ticks 1 };
  stats = record (c.stats) { context_switch_count = add64 c.stats.context_switch_count 1 };
}

-- What the tick does with the pid that it has chosen, 0 for none.
unfoldable pub dispatch : Machine → Scheduler → ℕ → ℕ → ℕ → Scheduler
unfolding periodic_load_balance
dispatch m s cpu current next =
    let c = s.cpus cpu in
    if next == 0
    then periodic_load_balance m cpu (set_cpu s cpu (go_idle c))
    else (if next == current
        then set_cpu s cpu (count_busy_stat c)
        else elim (find_task c.slots next) [
          | none ↦ s
          | some t ↦
              let s' = set_cpu s cpu (switch_to c next) in
              record s' { context_switch_count = add64 s'.context_switch_count 1 }
        ])

-- The tick of processor `cpu` past its guards.
unfoldable pub tick_cpu : Machine → Scheduler → ℕ → ℕ → Scheduler
unfolding charge_current need_reschedule
tick_cpu m s cpu frame =
    let current = (s.cpus cpu).rq.current_pid in
    let (needed, c) = need_reschedule (charge_current (s.cpus cpu) frame) in
    let (next, rq) = rq_pick_best c.slots c.rq in
    let picked = set_cpu s cpu (record c { rq = rq }) in
    let (stolen, after) = try_steal_hierarchical m cpu picked in
    if not needed
    then set_cpu s cpu (count_busy_stat c)
    else (if next == 0
        then dispatch m after cpu current stolen
        else dispatch m picked cpu current next)

-- "__sync_fetch_and_add": the tick is counted.
abbrev pub count_tick : Scheduler → ℕ → Scheduler
count_tick s cpu =
    let c = s.cpus cpu in
    let s' =
      set_cpu s cpu
        (record c { stats = record (c.stats) { tick_count = add64 c.stats.tick_count 1 } }) in
    record s' { tick_count = add64 s'.tick_count 1 }

-- `scheduler_tick`; the frame is the interrupted task's.
unfoldable pub scheduler_tick : Machine → Scheduler → ℕ → Scheduler
unfolding tick_cpu
scheduler_tick m s frame =
    if not s.initialized
      || (leb max_cpus m.cpu_id || ltb 0 (s.cpus m.cpu_id).lock_depth)
      || not (m.scheduling_enabled m.cpu_id)
    then s
    else tick_cpu m (count_tick s m.cpu_id) m.cpu_id frame

-- What `scheduler_yield` does to the current task before it picks.
abbrev pub give_up : Task → Task
give_up t = record t { state = runnable; remaining_ticks = 0 }

abbrev pub requeue_current : Cpu → Cpu
requeue_current c =
    let pid = c.rq.current_pid in
    let queued_again = change_task (record c { rq = rq_add c.rq pid }) pid give_up in
    if pid == 0 then c else elim (find_task c.slots pid) [ none ↦ c | some t ↦ queued_again ]

-- The switch of `scheduler_yield`, which is made even to a pid without a task, and is no busy tick.
abbrev pub switch_cpu : Cpu → ℕ → Cpu
switch_cpu c pid = record c {
  slots = with_task c.slots pid start;
  rq = record (c.rq) { current_pid = pid };
  stats = record (c.stats) { context_switch_count = add64 c.stats.context_switch_count 1 };
}

-- Whether the yield switches, and the processor after it.
unfoldable pub pick_after_yield : ℕ → Cpu → Bool × Cpu
pick_after_yield current c =
    let (next, rq) = rq_pick_best c.slots c.rq in
    let picked = record c { rq = rq } in
    if next == 0 || next == current then (false, picked) else (true, switch_cpu picked next)

unfoldable pub yield_cpu : Scheduler → ℕ → Scheduler
yield_cpu s cpu =
    let current = (s.cpus cpu).rq.current_pid in
    let (switched, c) = pick_after_yield current (requeue_current (s.cpus cpu)) in
    let s' = set_cpu s cpu c in
    if switched then record s' { context_switch_count = add64 s'.context_switch_count 1 } else s'

abbrev pub count_yield : Scheduler → ℕ → Scheduler
count_yield s cpu =
    let c = s.cpus cpu in
    set_cpu s cpu
      (record c { stats = record (c.stats) { yield_count = add64 c.stats.yield_count 1 } })

-- `scheduler_yield`, without the switch of the address space.
unfoldable pub scheduler_yield : Machine → Scheduler → Scheduler
unfolding yield_cpu
scheduler_yield m s =
    let counted = record s { yield_count = add64 s.yield_count 1 } in
    if not s.initialized
    then s
    else (if leb max_cpus m.cpu_id
        then counted
        else yield_cpu (count_yield counted m.cpu_id) m.cpu_id)
