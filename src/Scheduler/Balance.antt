-- ===== src/Scheduler/Balance.antt =====
-- `scheduler_init` and `periodic_load_balance` of scheduler.c: the state that the scheduler starts
-- from, and what an idle tick counts.
use osai.Prelude.{
  ℕ, ◌*◌, ◌%◌, true, false, ◌&&◌, not, Option, none, some, List, [], ◌∷◌, ltb, ◌==◌, if◌then◌else◌,
  add32, add64, length, replicate,
}
use osai.Scheduler.{high, unused, Slot, max_cpus}
use osai.Scheduler.Placement.{Machine}
use osai.Scheduler.Cpu.{Cpu, Scheduler, set_cpu}

-- XAIOS_TASK_SLOTS_PER_CPU
abbrev pub task_slots_per_cpu : ℕ
task_slots_per_cpu = 128

-- A slot whose bytes are 0.
abbrev pub empty_slot : Slot
empty_slot = record {
  claimed = false;
  task = record {
    pid = 0;
    active = false;
    frame = 0;
    tick_count = 0;
    switch_count = 0;
    priority = high;
    state = unused;
    assigned_cpu = 0;
    remaining_ticks = 0;
  };
}

-- `scheduler_init`: the tables and queues of the online processors, then the globals. A lock depth is
-- 0 on each of the 256 processors.
abbrev pub init_cpu : Cpu → Cpu
init_cpu c = record c {
  slots = replicate task_slots_per_cpu empty_slot;
  rq = record { tasks = []; current_pid = 0; idle_ticks = 0; busy_ticks = 0 };
  stats = record {
    tick_count = 0;
    context_switch_count = 0;
    yield_count = 0;
    steal_success_count = 0;
    steal_fail_count = 0;
    load_balance_count = 0;
    idle_ticks = 0;
    busy_ticks = 0;
  };
}

unfoldable pub scheduler_init : Machine → Scheduler → Scheduler
scheduler_init m s = record {
  cpus = λ i.
      let c = if ltb i m.online_count then init_cpu (s.cpus i) else s.cpus i in
      if ltb i max_cpus then record c { lock_depth = 0 } else c;
  tick_count = 0;
  context_switch_count = 0;
  yield_count = 0;
  steal_count = 0;
  balance_counter = 0;
  initialized = true;
}

-- The scan of `periodic_load_balance` for the processor with the longest queue.
unfoldable pub busiest_count : Scheduler → List ℕ → ℕ → Option ℕ → ℕ × Option ℕ
busiest_count s [] most busiest = (most, busiest)
busiest_count s (cpu ∷ cpus) most busiest =
    let count = length (s.cpus cpu).rq.tasks in
    let move = busiest_count s cpus count (some cpu) in
    let stay = busiest_count s cpus most busiest in if ltb most count then move else stay

abbrev pub count_balance : Scheduler → ℕ → Scheduler
count_balance s this =
    let c = s.cpus this in
    set_cpu s this (record c {
      stats = record (c.stats) { load_balance_count = add64 c.stats.load_balance_count 1 };
    })

-- `periodic_load_balance`: every thousandth call counts an imbalance, and moves no task.
unfoldable pub periodic_load_balance : Machine → ℕ → Scheduler → Scheduler
unfolding busiest_count
periodic_load_balance m this s =
    let s' = record s { balance_counter = add32 s.balance_counter 1 } in
    let (most, busiest) = busiest_count s' m.core_members 0 none in
    let imbalanced =
      ltb (length (s'.cpus this).rq.tasks * 2) most
      && (ltb 4 most && elim busiest [ none ↦ false | some cpu ↦ not (cpu == this) ]) in
    if s.balance_counter % 1000 == 0 then (if imbalanced then count_balance s' this else s') else s'
