-- ===== src/Scheduler/Yield.antt =====
-- A task that gives up the processor by `scheduler_yield` is not lost.
use osai.Prelude.{ℕ, ◌≡◌, true, ◌⊎◌}
use osai.Scheduler.{Runqueue, queued}
use osai.Scheduler.Cpu.{Cpu, Scheduler}

-- Where the task of a pid still is.
abbrev pub IsKept : Runqueue → ℕ → Type 0
IsKept rq pid = (rq.current_pid ≡ pid) ⊎ (queued rq.tasks pid ≡ true)
