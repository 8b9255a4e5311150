-- ===== src/Scheduler/Cpu.antt =====
-- The scheduler's state over all processors, its calls, and work stealing (scheduler.c).
use osai.Prelude.{
  ℕ, zero, suc, Bool, true, ◌&&◌, ◌||◌, not, none, some, List, [], ◌∷◌, ltb, ◌==◌, if◌then◌else◌,
  add64, length, Status, ok, invalid, no_memory, update,
}
use osai.Scheduler.Placement.{Machine, find_least_loaded_cpu}
use osai.Scheduler.{
  Priority, registered, runnable, blocked, Task, Slot, Runqueue, max_tasks, max_cpus,
  priority_slice, find_task, with_task, alloc_slot, free_slot, rq_add, rq_remove, rq_pick_stealable,
}

-- `xaios_sched_stats_t`, less the two that repeat the run queue's counters.
pub record Stats : Type 0 where
  pub tick_count : ℕ
  pub context_switch_count : ℕ
  pub yield_count : ℕ
  pub steal_success_count : ℕ
  pub steal_fail_count : ℕ
  pub load_balance_count : ℕ
  pub idle_ticks : ℕ
  pub busy_ticks : ℕ

-- `g_cpu_tasks[i]`, `g_runqueues[i]`, `g_sched_stats[i]` and `g_lock_depth_per_cpu[i]`.
pub record Cpu : Type 0 where
  pub slots : List Slot
  pub rq : Runqueue
  pub stats : Stats
  pub lock_depth : ℕ

-- The globals of scheduler.c.
pub record Scheduler : Type 0 where
  pub cpus : ℕ → Cpu
  pub tick_count : ℕ
  pub context_switch_count : ℕ
  pub yield_count : ℕ
  pub steal_count : ℕ
  pub balance_counter : ℕ
  pub initialized : Bool

abbrev pub set_cpu : Scheduler → ℕ → Cpu → Scheduler
set_cpu s i c = record s { cpus = update s.cpus i c }

abbrev pub change_task : Cpu → ℕ → (Task → Task) → Cpu
change_task c pid f = record c { slots = with_task c.slots pid f }

-- `task->assigned_cpu = this_cpu; task->remaining_ticks = priority_slice(task->priority);`
abbrev pub reassign : ℕ → Task → Task
reassign cpu t = record t { assigned_cpu = cpu; remaining_ticks = priority_slice t.priority }

-- What `try_steal_domain` does once it has taken a pid from a victim.
pub take_stolen : Scheduler → ℕ → ℕ → ℕ → Scheduler
take_stolen s this victim pid =
    let s₁ = set_cpu s victim (change_task (s.cpus victim) pid (reassign this)) in
    let c = s₁.cpus this in
    let s₂ = set_cpu s₁ this (record c {
      rq = rq_add c.rq pid;
      stats = record (c.stats) { steal_success_count = add64 c.stats.steal_success_count 1 };
    }) in
    record s₂ { steal_count = add64 s₂.steal_count 1 }

-- A victim that is worth a try: another processor, online, scheduling, with more than two tasks.
abbrev pub is_victim : Machine → Scheduler → ℕ → ℕ → Bool
is_victim m s this victim =
    not (victim == this)
    && (m.online victim && m.scheduling_enabled victim)
    && ltb 2 (length (s.cpus victim).rq.tasks)
    && m.trylock victim

-- The loop of `try_steal_domain`, with the attempts left (three at the start).
pub steal_members : Machine → ℕ → ℕ → List ℕ → Scheduler → ℕ × Scheduler
unfolding take_stolen
steal_members m this attempts [] s = (0, s)
steal_members m this zero (victim ∷ victims) s = (0, s)
steal_members m this (suc attempts) (victim ∷ victims) s =
    let c = s.cpus victim in
    let (pid, rq) = rq_pick_stealable c.slots c.rq in
    let s' = set_cpu s victim (record c { rq = rq }) in
    let skip = steal_members m this (suc attempts) victims s in
    let again = steal_members m this attempts victims s' in
    if is_victim m s this victim
    then (if pid == 0 then again else (pid, take_stolen s' this victim pid))
    else skip

-- `try_steal_domain`. A domain that does not exist or has no member returns at once.
pub try_steal_domain : Machine → ℕ → List ℕ → Scheduler → ℕ × Scheduler
unfolding steal_members
try_steal_domain m this [] s = (0, s)
try_steal_domain m this (victim ∷ victims) s =
    let (pid, s') = steal_members m this 3 (victim ∷ victims) s in
    let c = s'.cpus this in
    let failed = set_cpu s' this (record c {
      stats = record (c.stats) { steal_fail_count = add64 c.stats.steal_fail_count 1 };
    }) in
    if pid == 0 then (0, failed) else (pid, s')

-- `try_steal_hierarchical`
pub try_steal_hierarchical : Machine → ℕ → Scheduler → ℕ × Scheduler
unfolding try_steal_domain
try_steal_hierarchical m this s =
    let (p₀, s₀) = try_steal_domain m this m.core_members s in
    let (p₁, s₁) = try_steal_domain m this m.socket_members s₀ in
    let (p₂, s₂) = try_steal_domain m this m.numa_members s₁ in
    if not (p₀ == 0)
    then (p₀, s₀)
    else (if not (p₁ == 0) then (p₁, s₁) else (if m.numa_is_socket then (0, s₁) else (p₂, s₂)))

-- `scheduler_register_with_priority`
pub register_with_priority : Machine → Scheduler → ℕ → Priority → Status × Scheduler
register_with_priority m s pid priority =
    let cpu = find_least_loaded_cpu m in
    let c = s.cpus cpu in
    let task : Task = record {
      pid = pid;
      active = true;
      frame = 0;
      tick_count = 0;
      switch_count = 0;
      priority = priority;
      state = registered;
      assigned_cpu = cpu;
      remaining_ticks = priority_slice priority;
    } in
    if pid == 0 || ltb max_tasks pid then (invalid, s) else elim (alloc_slot c.slots task) [
      | none ↦ (no_memory, s)
      | some slots ↦ (ok, set_cpu s cpu (record c { slots = slots }))
    ]

abbrev pub leave_queue : Runqueue → ℕ → Runqueue
leave_queue rq pid =
    let rq' = rq_remove rq pid in
    record rq' { current_pid = if rq'.current_pid == pid then 0 else rq'.current_pid }

-- `scheduler_unregister`
pub unregister : Machine → Scheduler → ℕ → Scheduler
unregister m s pid = elim (find_task (s.cpus m.cpu_id).slots pid) [
  | none ↦ s
  | some t ↦
      let c = s.cpus m.cpu_id in
      let s₁ = set_cpu s m.cpu_id (record c { slots = free_slot c.slots pid }) in
      let a = s₁.cpus t.assigned_cpu in
      if ltb t.assigned_cpu max_cpus
      then set_cpu s₁ t.assigned_cpu (record a { rq = leave_queue a.rq pid })
      else s₁
]

-- `scheduler_set_runnable`
pub set_runnable : Machine → Scheduler → ℕ → Status × Scheduler
set_runnable m s pid = elim (find_task (s.cpus m.cpu_id).slots pid) [
  | none ↦ (invalid, s)
  | some t ↦
      let s₁ = set_cpu s m.cpu_id (
        change_task (s.cpus m.cpu_id) pid
          (λ u. record u { state = runnable; remaining_ticks = priority_slice u.priority })) in
      let a = s₁.cpus t.assigned_cpu in
      (
        ok,
        if ltb t.assigned_cpu max_cpus
            then set_cpu s₁ t.assigned_cpu (record a { rq = rq_add a.rq pid })
            else s₁,
      )
]

-- `scheduler_set_blocked`
pub set_blocked : Machine → Scheduler → ℕ → Status × Scheduler
set_blocked m s pid = elim (find_task (s.cpus m.cpu_id).slots pid) [
  | none ↦ (invalid, s)
  | some t ↦
      let s₁ =
        set_cpu s m.cpu_id
          (change_task (s.cpus m.cpu_id) pid (λ u. record u { state = blocked })) in
      let a = s₁.cpus t.assigned_cpu in
      (
        ok,
        if ltb t.assigned_cpu max_cpus
            then set_cpu s₁ t.assigned_cpu (record a { rq = rq_remove a.rq pid })
            else s₁,
      )
]
