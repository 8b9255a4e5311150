-- ===== src/Scheduler/Tests.antt =====
-- A processor with two tasks.
use osai.Prelude.{ℕ, ◌≡◌, ◌≢◌, refl, some, subst, arith, true, List, [], ◌∷◌, if◌then◌else◌, ◌==◌}
use osai.Scheduler.{
  Priority, high, low, TaskState, runnable, running, Task, Slot, Runqueue, find_task, queued,
  rq_pick_best,
}
use osai.Scheduler.Placement.{Machine, CpuRole, housekeeping, scheduling, ai_hot}
use osai.Scheduler.Cpu.{Scheduler, Cpu}
use osai.Scheduler.Queue.{IsValid}
use osai.Scheduler.Pick.{IsPick, rq_pick_best_lem}
use osai.Scheduler.Tick.{scheduler_tick, charge}
use osai.Scheduler.Dropped.{HasTasks, IsDropped, scheduler_tick-IsDropped}

abbrev task : ℕ → Priority → TaskState → Task
task pid priority state = record {
  pid = pid;
  active = true;
  frame = 0;
  tick_count = 0;
  switch_count = 0;
  priority = priority;
  state = state;
  assigned_cpu = 0;
  remaining_ticks = 5;
}

abbrev two_tasks : List Slot
two_tasks =
    record { claimed = true; task = task 7 low running }
    ∷ record { claimed = true; task = task 9 high runnable }
    ∷ []

abbrev two_queued : Runqueue
two_queued = record { tasks = 7 ∷ 9 ∷ []; current_pid = 0; idle_ticks = 0; busy_ticks = 0 }

two_queued-IsValid : IsValid two_queued
unfolding queued
two_queued-IsValid = record { distinct = (refl, (refl, tt)); fits = omega arith }

rq_pick_best_lem_example : IsPick two_tasks two_queued (rq_pick_best two_tasks two_queued)
rq_pick_best_lem_example = rq_pick_best_lem two_tasks two_queued (λ e. cc)

abbrev runs_low : Cpu
runs_low = record {
  slots = two_tasks;
  rq = record { tasks = 9 ∷ []; current_pid = 7; idle_ticks = 0; busy_ticks = 0 };
  stats = record {
    tick_count = 0;
    context_switch_count = 0;
    yield_count = 0;
    steal_success_count = 0;
    steal_fail_count = 0;
    load_balance_count = 0;
    idle_ticks = 0;
    busy_ticks = 0;
  };
  lock_depth = 0;
}

-- Four processors, of which the second belongs to another node and the third is leased.
abbrev roles : ℕ → CpuRole
roles i = if i == 0 then housekeeping else (if i == 2 then ai_hot else scheduling)

abbrev four_cpus : Machine
four_cpus = record {
  cpu_id = 3;
  online_count = 4;
  online = λ i. true;
  role = roles;
  scheduling_enabled = λ i. true;
  numa_node = λ i. if i == 1 then 1 else 0;
  timer_counter = 1;
  core_members = [];
  socket_members = [];
  numa_members = [];
  numa_is_socket = true;
  trylock = λ i. true;
}

abbrev runs_low_machine : Scheduler
runs_low_machine = record {
  cpus = λ i. runs_low;
  tick_count = 0;
  context_switch_count = 0;
  yield_count = 0;
  steal_count = 0;
  balance_counter = 0;
  initialized = true;
}

-- The task 9 is queued while the task 7 runs.
runs_low-HasTasks : HasTasks runs_low
unfolding queued find_task
runs_low-HasTasks pid isin =
    let same : 9 ≡ pid = ground arith in
    subst (λ p. (p ≢ 0) × (u : Task) × (find_task two_tasks p ≡ some u)) same
      ((λ e. cc), task 9 high runnable, refl)

scheduler_tick-IsDropped_example :
    IsDropped runs_low
      ((scheduler_tick four_cpus runs_low_machine 1).cpus 3)
      (charge 1 (task 7 low running))
unfolding find_task queued
scheduler_tick-IsDropped_example =
    scheduler_tick-IsDropped four_cpus runs_low_machine 1 {t = task 7 low running} refl
      (omega arith) refl refl
      (record { present = (λ e. cc); found = refl; is_running = refl; unqueued = refl }) (λ e. cc)
      runs_low-HasTasks
