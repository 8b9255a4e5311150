-- ===== src/Scheduler/Dropped.antt =====
-- What a tick does to a task that an earlier tick has switched to: it takes it off the processor.
use osai.Prelude.{
  ℕ, ◌≡◌, ◌≢◌, refl, arith, true, false, some, List, [], ◌∷◌, ==_ne, ==_refl, Bool-cases, inl, inr,
  sym, subst, ap, ◌∙◌, ◌++◌, ◌<◌, leb, ltb,
}
use osai.Scheduler.{
  running, Task, Slot, max_cpus, find_task, with_task, queued, holds, rq_pick_best,
}
use osai.Scheduler.Placement.{Machine}
use osai.Scheduler.Cpu.{Cpu, Scheduler, set_cpu, change_task}
use osai.Scheduler.Queue.{queued-append}
use osai.Scheduler.Pick.{Without, rq_pick_best_lem}
use osai.Scheduler.Tick.{
  charge, charge_current, need_reschedule, start, switch_to, dispatch, tick_cpu, count_tick,
  scheduler_tick,
}

-- A write that keeps the pid and the active flag of a task is found again.
find_task-with_task :
    (slots : List Slot) (pid : ℕ) (f : Task → Task) {t : Task}
    → ((u : Task) → ((f u).pid ≡ u.pid) × ((f u).active ≡ u.active))
    → find_task slots pid ≡ some t
    → find_task (with_task slots pid f) pid ≡ some (f t)
unfolding find_task with_task
find_task-with_task [] pid f {t} keeps h = cc
find_task-with_task (s ∷ slots) pid f {t} keeps h = elim (Bool-cases (holds pid s)) [
  | inl hit ↦ ground (arith, keeps s.task)
  | inr miss ↦ ground (arith, find_task-with_task slots pid f {t = t} keeps)
]

-- Processor state in which the current task is one that a tick has switched to: it is RUNNING, and
-- its pid is not queued.
pub record IsSwitchedTo (c : Cpu) (t : Task) : Type 0 where
  pub present : c.rq.current_pid ≢ 0
  pub found : find_task c.slots c.rq.current_pid ≡ some t
  pub is_running : t.state ≡ running
  pub unqueued : queued c.rq.tasks c.rq.current_pid ≡ false

-- A tick charges such a task and finds that a reschedule is due.
need_reschedule-running :
    (c : Cpu) (frame : ℕ) {t : Task}
    → IsSwitchedTo c t
    → need_reschedule (charge_current c frame) ≡ (true, charge_current c frame)
unfolding need_reschedule charge_current
need_reschedule-running c frame {t} w =
    let current = ==_ne c.rq.current_pid 0 w.present in
    rw current (
      rw
        (find_task-with_task c.slots c.rq.current_pid (charge frame) {t = t} (λ u. (refl, refl))
          w.found)
        (ground arith))

-- A write to the task of another pid is not seen.
find_task-with_task_other :
    (slots : List Slot) (pid other : ℕ) (f : Task → Task)
    → ((u : Task) → ((f u).pid ≡ u.pid) × ((f u).active ≡ u.active))
    → pid ≢ other
    → find_task (with_task slots pid f) other ≡ find_task slots other
unfolding find_task with_task
find_task-with_task_other [] pid other f keeps apart = refl
find_task-with_task_other (s ∷ slots) pid other f keeps apart = elim (Bool-cases (holds pid s)) [
  | inl hit ↦ ground (arith, keeps s.task, apart)
  | inr miss ↦ ground (arith, find_task-with_task_other slots pid other f keeps apart)
]

-- The switch of a tick to a task of the processor's table.
dispatch-switch_to :
    (m : Machine) (s : Scheduler) (cpu current next : ℕ) {u : Task}
    → next ≢ 0
    → next ≢ current
    → find_task (s.cpus cpu).slots next ≡ some u
    → (dispatch m s cpu current next).cpus cpu ≡ switch_to (s.cpus cpu) next
unfolding dispatch
dispatch-switch_to m s cpu current next present apart found =
    rw (==_ne next 0 present, dispatch)
      (rw (==_ne next current apart) (rw found (rw (==_refl cpu) refl)))

-- Every queued pid is that of a task in the processor's table.
abbrev pub HasTasks : Cpu → Type 0
HasTasks c =
    (pid : ℕ)
    → queued c.rq.tasks pid ≡ true
    → (pid ≢ 0) × (u : Task) × (find_task c.slots pid ≡ some u)

-- A processor that has gone on to a task of its queue, with the one it had neither queued nor
-- anything but charged.
pub record IsDropped (c c' : Cpu) (charged : Task) : Type 0 where
  pub moved : queued c.rq.tasks c'.rq.current_pid ≡ true
  pub unqueued : queued c'.rq.tasks c.rq.current_pid ≡ false
  pub still : find_task c'.slots c.rq.current_pid ≡ some charged

charge_current_lem :
    (c : Cpu) (frame : ℕ)
    → c.rq.current_pid ≢ 0
    → charge_current c frame ≡ change_task c c.rq.current_pid (charge frame)
unfolding charge_current
charge_current_lem c frame present = rw (==_ne c.rq.current_pid 0 present) refl

-- What is not queued is not queued after another pid has been taken out.
unqueued-Without :
    (pids : List ℕ) (pid : ℕ) (rest : List ℕ) (p : ℕ)
    → queued pids p ≡ false
    → Without pids pid rest
    → queued rest p ≡ false
unfolding Without queued
unqueued-Without pids pid rest p out (before, after, split, none_before, left) =
    let all : queued (before ++ pid ∷ after) p ≡ false =
      subst (λ ps. queued ps p ≡ false) split out in
    subst (λ ps. queued ps p ≡ false) (sym left)
      (ground (arith, all, queued-append before after p, queued-append before (pid ∷ after) p))

-- The pick and the switch of a tick, on a processor that holds what the tick has charged.
module _ (c : Cpu) (frame : ℕ) {t : Task} (w : IsSwitchedTo c t) (filled : c.rq.tasks ≢ [])
    (known : HasTasks c) where
  abbrev charged : Cpu
  charged = change_task c c.rq.current_pid (charge frame)

  abbrev picked : Cpu
  picked = record charged { rq = (rq_pick_best charged.slots c.rq).1 }

  abbrev next : ℕ
  next = (rq_pick_best charged.slots c.rq).0

  next-queued : queued c.rq.tasks next ≡ true
  next-queued = (rq_pick_best_lem charged.slots c.rq filled).0

  next-present : next ≢ 0
  next-present = (known next next-queued).0

  next-other : next ≢ c.rq.current_pid
  next-other e = clash (sym next-queued ∙ ap (queued c.rq.tasks) e ∙ w.unqueued)
    where
      clash : true ≡ false → ⊥
      clash e = cc

  next-found : (u : Task) × (find_task charged.slots next ≡ some u)
  next-found =
      let (present, u, found) = known next next-queued in
      (
        u,
        find_task-with_task_other c.slots c.rq.current_pid next (charge frame) (λ u. (refl, refl))
              (λ e. next-other (sym e))
            ∙ found,
      )

  switch_to-IsDropped : IsDropped c (switch_to picked next) (charge frame t)
  switch_to-IsDropped = record {
    moved = next-queued;
    unqueued =
        unqueued-Without c.rq.tasks next (rq_pick_best charged.slots c.rq).1.tasks c.rq.current_pid
          w.unqueued (rq_pick_best_lem charged.slots c.rq filled).2;
    still =
        find_task-with_task_other charged.slots next c.rq.current_pid start (λ u. (refl, refl))
          next-other
        ∙ find_task-with_task c.slots c.rq.current_pid (charge frame) {t = t} (λ u. (refl, refl))
            w.found;
  }

tick_cpu-dispatch :
    (m : Machine) (s : Scheduler) (cpu frame : ℕ) {t : Task} (w : IsSwitchedTo (s.cpus cpu) t)
    (filled : (s.cpus cpu).rq.tasks ≢ []) (known : HasTasks (s.cpus cpu))
    → let c = s.cpus cpu in
      tick_cpu m s cpu frame
      ≡ dispatch m
          (set_cpu s cpu (picked c frame w filled known))
          cpu
          c.rq.current_pid
          (next c frame w filled known)
unfolding tick_cpu
tick_cpu-dispatch m s cpu frame {t} w filled known =
    let c = s.cpus cpu in
    let due =
      need_reschedule-running c frame {t = t} w
      ∙ ap (λ x. (true, x)) (charge_current_lem c frame w.present) in
    let some_next = ==_ne (next c frame w filled known) 0 (next-present c frame w filled known) in
    rw (due, tick_cpu) (rw some_next refl)

tick_cpu-IsDropped :
    (m : Machine) (s : Scheduler) (cpu frame : ℕ) {t : Task}
    → IsSwitchedTo (s.cpus cpu) t
    → (s.cpus cpu).rq.tasks ≢ []
    → HasTasks (s.cpus cpu)
    → IsDropped (s.cpus cpu) ((tick_cpu m s cpu frame).cpus cpu) (charge frame t)
tick_cpu-IsDropped m s cpu frame {t} w filled known =
    let c = s.cpus cpu in
    let go = picked c frame w filled known in
    let pid = next c frame w filled known in
    let (u, found) = next-found c frame w filled known in
    let s' = set_cpu s cpu go in
    let here : s'.cpus cpu ≡ go = rw (==_refl cpu) refl in
    let switches : (tick_cpu m s cpu frame).cpus cpu ≡ switch_to go pid =
      ap (λ r. r.cpus cpu) (tick_cpu-dispatch m s cpu frame w filled known)
      ∙ dispatch-switch_to m s' cpu c.rq.current_pid pid {u = u}
          (next-present c frame w filled known) (next-other c frame w filled known)
          (ap (λ x. find_task x.slots pid) here ∙ found)
      ∙ ap (λ x. switch_to x pid) here in
    subst (λ x. IsDropped c x (charge frame t)) (sym switches)
      (switch_to-IsDropped c frame w filled known)

-- A tick past its guards.
scheduler_tick-tick_cpu :
    (m : Machine) (s : Scheduler) (frame : ℕ)
    → s.initialized ≡ true
    → m.cpu_id < max_cpus
    → (s.cpus m.cpu_id).lock_depth ≡ 0
    → m.scheduling_enabled m.cpu_id ≡ true
    → scheduler_tick m s frame ≡ tick_cpu m (count_tick s m.cpu_id) m.cpu_id frame
unfolding scheduler_tick
scheduler_tick-tick_cpu m s frame ready small unlocked enabled =
    let near : leb max_cpus m.cpu_id ≡ false = ground arith in
    let free : ltb 0 (s.cpus m.cpu_id).lock_depth ≡ false = ground arith in
    rw (ready, scheduler_tick) (rw near (rw free (rw enabled refl)))

-- A tick, on an initialised processor that schedules and holds no lock, of which the current task is
-- RUNNING and not queued and the queue holds a pid, and only pids of tasks in its table: the
-- processor goes on to a task of its queue, and the task that it had, whatever was left of its
-- slice, is charged and still RUNNING, and neither current nor queued.
pub scheduler_tick-IsDropped :
    (m : Machine) (s : Scheduler) (frame : ℕ) {t : Task}
    → s.initialized ≡ true
    → m.cpu_id < max_cpus
    → (s.cpus m.cpu_id).lock_depth ≡ 0
    → m.scheduling_enabled m.cpu_id ≡ true
    → IsSwitchedTo (s.cpus m.cpu_id) t
    → (s.cpus m.cpu_id).rq.tasks ≢ []
    → HasTasks (s.cpus m.cpu_id)
    → IsDropped (s.cpus m.cpu_id) ((scheduler_tick m s frame).cpus m.cpu_id) (charge frame t)
scheduler_tick-IsDropped m s frame {t} ready small unlocked enabled w filled known =
    let cpu = m.cpu_id in
    let c = s.cpus cpu in
    let counted = count_tick s cpu in
    let c' : Cpu = record c { stats = (counted.cpus cpu).stats } in
    let here : counted.cpus cpu ≡ c' = rw (==_refl cpu) refl in
    let w' : IsSwitchedTo (counted.cpus cpu) t =
      subst (λ x. IsSwitchedTo x t) (sym here)
        (record {
          present = w.present;
          found = w.found;
          is_running = w.is_running;
          unqueued = w.unqueued;
        }) in
    let dropped =
      tick_cpu-IsDropped m counted cpu frame {t = t} w'
        (subst (λ (x : Cpu). x.rq.tasks ≢ []) (sym here) filled)
        (subst (λ x. HasTasks x) (sym here) known) in
    let d =
      subst (λ x. IsDropped x ((tick_cpu m counted cpu frame).cpus cpu) (charge frame t)) here
        dropped in
    let ticks = scheduler_tick-tick_cpu m s frame ready small unlocked enabled in
    subst (λ (r : Scheduler). IsDropped c (r.cpus cpu) (charge frame t)) (sym ticks)
      (record { moved = d.moved; unqueued = d.unqueued; still = d.still })
