-- ===== src/Scheduler/Placement.antt =====
-- What the scheduler asks of the rest of the kernel (smp.c, topology.c, the timer), and
-- `find_least_loaded_cpu` of scheduler.c, which chooses the processor of a new task.
use osai.Prelude.{
  ℕ, zero, suc, ◌+◌, ◌%◌, ◌^◌, ◌<◌, ◌≡◌, Bool, true, false, ◌&&◌, ◌||◌, Option, none, some, List,
  ◌==◌, if◌then◌else◌, add32,
}

-- `xaios_cpu_role_t`.
pub data CpuRole : Type 0 where
  offline housekeeping scheduling ai_hot : CpuRole

-- Which processor runs, how many are online, which are and what they are for, the NUMA node of each,
-- the timer's counter, the domains around the processor (`members` of none is the empty list), and
-- whether `xaios_spin_trylock` on a victim's queue succeeds.
pub record Machine : Type 0 where
  pub cpu_id : ℕ
  pub online_count : ℕ
  pub online : ℕ → Bool
  pub role : ℕ → CpuRole
  pub scheduling_enabled : ℕ → Bool
  pub numa_node : ℕ → ℕ
  pub timer_counter : ℕ
  pub core_members : List ℕ
  pub socket_members : List ℕ
  pub numa_members : List ℕ
  pub numa_is_socket : Bool
  pub trylock : ℕ → Bool

abbrev pub uint32_max : ℕ
uint32_max = 4294967295

-- The processors that tasks are placed on: online, for scheduling or housekeeping.
abbrev pub takes_tasks : Machine → ℕ → Bool
takes_tasks m cpu = m.online cpu && elim (m.role cpu) [
  | offline ↦ false
  | housekeeping ↦ true
  | scheduling ↦ true
  | ai_hot ↦ false
]

-- The test of the first loop: on the local node, where that is known.
abbrev pub is_local : Machine → ℕ → Bool
is_local m cpu =
    let node = m.numa_node m.cpu_id in
    takes_tasks m cpu && (node == uint32_max || m.numa_node cpu == node)

-- "start = seed % online", of the low 32 bits of the timer's counter.
abbrev pub start_cpu : Machine → ℕ
start_cpu m = m.timer_counter % 2 ^ 32 % m.online_count

-- Either loop of `find_least_loaded_cpu`, from round `i` on: the first processor that passes its test.
unfoldable pub find_cpu : Machine → (ℕ → Bool) → ℕ → ℕ → Option ℕ
find_cpu m test zero i = none
find_cpu m test (suc rounds) i =
    let cpu = add32 (start_cpu m) i % m.online_count in
    let later = find_cpu m test rounds (i + 1) in if test cpu then some cpu else later

-- `find_least_loaded_cpu`.
unfoldable pub find_least_loaded_cpu : Machine → ℕ
unfolding find_cpu
find_least_loaded_cpu m =
    if m.online_count == 0 then 0 else elim (find_cpu m (is_local m) m.online_count 0) [
      | some cpu ↦ cpu
      | none ↦ elim (find_cpu m (takes_tasks m) m.online_count 0) [ some cpu ↦ cpu | none ↦ 0 ]
    ]

-- Where a new task goes: to a processor that takes tasks, of the local node where one is there and
-- the node is known; or to processor 0, when none takes tasks.
pub data Placed (m : Machine) : ℕ → Type 0 where
  locally : (cpu : ℕ) → is_local m cpu ≡ true → Placed m cpu
  elsewhere :
      (cpu : ℕ)
      → takes_tasks m cpu ≡ true
      → ((other : ℕ) → other < m.online_count → is_local m other ≡ false)
      → Placed m cpu
  nowhere : ((other : ℕ) → other < m.online_count → takes_tasks m other ≡ false) → Placed m 0
