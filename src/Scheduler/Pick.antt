-- ===== src/Scheduler/Pick.antt =====
-- What `rq_pick_best` picks: a pid of the queue, of the most urgent priority there.
use osai.Prelude.{
  ℕ, ◌≤◌, ◌≡◌, ◌≢◌, refl, sym, subst, ap, ◌++◌, false, ◌∙◌, arith, true, ◌||◌, none, some, List, [],
  ◌∷◌, ◌==◌, ltb, Bool-cases, Option-cases, inl, inr, ◌⊎◌,
}
use osai.Scheduler.{
  Priority, high, normal, low, rank, Task, Slot, Runqueue, find_task, queued, pick_round, pick_loop,
  rq_pick_best, rq_remove, remove_pid,
}

-- The task found has the pid asked for.
pub find_task-pid :
    (slots : List Slot) (pid : ℕ) {t : Task} → find_task slots pid ≡ some t → t.pid ≡ pid
unfolding find_task
find_task-pid [] pid {t} h = cc
find_task-pid (s ∷ slots) pid {t} h = ground (arith, find_task-pid slots pid {t = t})

-- The urgency that the table gives a pid: its task's rank, or that of the lowest priority.
abbrev pub urgency : List Slot → ℕ → ℕ
urgency slots pid = elim (find_task slots pid) [ none ↦ 2 | some t ↦ rank t.priority ]

-- The loop ends at a pid that is the best so far or queued, and as urgent as both.
record Picked (slots : List Slot) (pids : List ℕ) (best : ℕ) (prio : Priority) (out : ℕ)
    : Type 0 where
  among : (out ≡ best) ⊎ (queued pids out ≡ true)
  best_of : urgency slots out ≤ rank prio
  best_all : (p : ℕ) → queued pids p ≡ true → urgency slots out ≤ urgency slots p

rank-le : (p : Priority) → rank p ≤ 2
rank-le high = omega arith
rank-le normal = omega arith
rank-le low = omega arith

-- A round that moves on from `best` to `best'`, then stops at HIGH or goes on.
Picked-cons :
    (slots : List Slot) (pid : ℕ) (pids : List ℕ) (best best' rest : ℕ) (prio prio' : Priority)
    → (best' ≡ best) ⊎ (best' ≡ pid)
    → urgency slots best' ≤ rank prio'
    → rank prio' ≤ rank prio
    → rank prio' ≤ urgency slots pid
    → Picked slots pids best' prio' rest
    → Picked slots (pid ∷ pids) best prio (elim prio' [ high ↦ best' | _ ↦ rest ])
unfolding queued
Picked-cons slots pid pids best best' rest prio high from h lower least p = record {
  among = first from;
  best_of = omega arith;
  best_all = λ q _. omega arith;
}
  where
    first :
        (best' ≡ best) ⊎ (best' ≡ pid)
        → (best' ≡ best) ⊎ ((pid == best' || queued pids best') ≡ true)
    first (inl same) = inl same
    first (inr here) = inr (ground arith)
Picked-cons slots pid pids best best' rest prio prio' from h lower least p = record {
  among = later p.among from;
  best_of = omega (arith, p.best_of);
  best_all = λ q isin. ground (arith, p.best_of, p.best_all q);
}
  where
    later :
        (rest ≡ best') ⊎ (queued pids rest ≡ true)
        → (best' ≡ best) ⊎ (best' ≡ pid)
        → (rest ≡ best) ⊎ ((pid == rest || queued pids rest) ≡ true)
    later (inl e) (inl same) = inl (e ∙ same)
    later (inl e) (inr here) = inr (ground arith)
    later (inr isin) f = inr (ground arith)

urgency-le : (slots : List Slot) (pid : ℕ) → urgency slots pid ≤ 2
urgency-le slots pid = elim (Option-cases (find_task slots pid)) [
  | inl missing ↦ rw (missing, urgency) (omega arith)
  | inr (t, found) ↦ rw (found, urgency) (rank-le t.priority)
]

queued_first : (pid : ℕ) (pids : List ℕ) {out : ℕ} → out ≡ pid → queued (pid ∷ pids) out ≡ true
unfolding queued
queued_first pid pids e = ground arith

pick_round_lem :
    (slots : List Slot) (pid best : ℕ) (prio : Priority)
    → urgency slots best ≤ rank prio
    → let r = pick_round slots pid best prio in
      ((r.0 ≡ best) ⊎ (r.0 ≡ pid))
      × (urgency slots r.0 ≤ rank r.1)
      × (rank r.1 ≤ rank prio)
      × (rank r.1 ≤ urgency slots pid)
unfolding pick_round
pick_round_lem slots pid best prio h = elim (Option-cases (find_task slots pid)) [
  | inl missing ↦
      let worth : urgency slots pid ≡ 2 = rw (missing, urgency) in
      rw (missing, pick_round) (inl refl, h, omega arith, rw worth (rank-le prio))
  | inr (t, found) ↦
      let same : t.pid ≡ pid = find_task-pid slots pid found in
      let worth : urgency slots pid ≡ rank t.priority = rw (found, urgency) in
      elim (Bool-cases (ltb (rank t.priority) (rank prio))) [
        | inl better ↦
            rw (found, pick_round)
              (rw better (inr same, rw same (rw worth (omega arith)), ground arith, omega arith))
        | inr worse ↦ rw (found, pick_round) (rw worse (inl refl, h, omega arith, ground arith))
      ]
]

pick_loop-Picked :
    (slots : List Slot) (pids : List ℕ) (best : ℕ) (prio : Priority)
    → urgency slots best ≤ rank prio
    → Picked slots pids best prio (pick_loop slots pids best prio)
unfolding pick_loop queued
pick_loop-Picked slots [] best prio h = record {
  among = inl refl;
  best_of = h;
  best_all = λ p isin. none_queued p isin;
}
  where
    none_queued : (p : ℕ) → queued [] p ≡ true → urgency slots best ≤ urgency slots p
    none_queued p isin = cc
pick_loop-Picked slots (pid ∷ pids) best prio h =
    let r = pick_round slots pid best prio in
    let (from, urgent, lower, least) = pick_round_lem slots pid best prio h in
    Picked-cons slots pid pids best r.0 (pick_loop slots pids r.0 r.1) prio r.1 from urgent lower
      least (pick_loop-Picked slots pids r.0 r.1 urgent)

-- A list without the first occurrence of a pid that it holds.
unfoldable pub Without : List ℕ → ℕ → List ℕ → Type 0
Without pids pid rest =
    (before : List ℕ) × (after : List ℕ) × (pids ≡ before ++ pid ∷ after)
    × (queued before pid ≡ false)
    × (rest ≡ before ++ after)

remove_pid-Without :
    (pids : List ℕ) (pid : ℕ) → queued pids pid ≡ true → Without pids pid (remove_pid pids pid)
unfolding Without queued remove_pid
remove_pid-Without [] pid h = cc
remove_pid-Without (p ∷ pids) pid h = elim (Bool-cases (p == pid)) [
  | inl here ↦
      let same : p ≡ pid = ground arith in rw here ([], pids, ap (λ q. q ∷ pids) same, refl, refl)
  | inr other ↦
      let (before, after, split, none_before, left) = remove_pid-Without pids pid (ground arith) in
      rw other
        (p ∷ before, after, ap (λ ps. p ∷ ps) split, rw other none_before, ap (λ ps. p ∷ ps) left)
]

-- What a pick returns and leaves.
abbrev pub IsPick : List Slot → Runqueue → ℕ × Runqueue → Type 0
IsPick slots rq out =
    (queued rq.tasks out.0 ≡ true)
    × ((p : ℕ) → queued rq.tasks p ≡ true → urgency slots out.0 ≤ urgency slots p)
    × Without rq.tasks out.0 out.1.tasks
    × (out.1 ≡ record rq { tasks = out.1.tasks })

rq_pick_best_cons :
    (slots : List Slot) (rq : Runqueue) (pid : ℕ) (pids : List ℕ)
    → let r : Runqueue = record rq { tasks = pid ∷ pids } in IsPick slots r (rq_pick_best slots r)
unfolding rq_pick_best rq_remove
rq_pick_best_cons slots rq pid pids =
    let r : Runqueue = record rq { tasks = pid ∷ pids } in
    let p = pick_loop-Picked slots (pid ∷ pids) pid low (urgency-le slots pid) in
    let isin = first p.among in
    (isin, p.best_all, remove_pid-Without (pid ∷ pids) (rq_pick_best slots r).0 isin, refl)
  where
    first :
        {out : ℕ} → (out ≡ pid) ⊎ (queued (pid ∷ pids) out ≡ true) → queued (pid ∷ pids) out ≡ true
    first (inl e) = queued_first pid pids e
    first (inr isin) = isin

-- The queue is left as `rq_remove` leaves it.
pub rq_pick_best-rq_remove :
    (slots : List Slot) (rq : Runqueue)
    → rq.tasks ≢ []
    → (rq_pick_best slots rq).1 ≡ rq_remove rq (rq_pick_best slots rq).0
unfolding rq_pick_best
rq_pick_best-rq_remove slots rq some_left = removed rq.tasks refl
  where
    removed :
        (tasks : List ℕ)
        → rq.tasks ≡ tasks
        → (rq_pick_best slots rq).1 ≡ rq_remove rq (rq_pick_best slots rq).0
    removed [] e = absurd (some_left e)
    removed (pid ∷ pids) e =
        subst
          (λ ts.
            let r : Runqueue = record rq { tasks = ts } in
            (rq_pick_best slots r).1 ≡ rq_remove r (rq_pick_best slots r).0)
          (sym e) refl

-- `rq_pick_best` of a queue that is not empty returns a pid of the queue that no queued pid is more
-- urgent than (a pid without a task counts as low). The queue is left without the first occurrence
-- of that pid and with the others in their order.
pub rq_pick_best_lem :
    (slots : List Slot) (rq : Runqueue) → rq.tasks ≢ [] → IsPick slots rq (rq_pick_best slots rq)
rq_pick_best_lem slots rq some_left = picked rq.tasks refl
  where
    picked : (tasks : List ℕ) → rq.tasks ≡ tasks → IsPick slots rq (rq_pick_best slots rq)
    picked [] e = absurd (some_left e)
    picked (pid ∷ pids) e =
        subst
          (λ ts.
            let r : Runqueue = record rq { tasks = ts } in IsPick slots r (rq_pick_best slots r))
          (sym e) (rq_pick_best_cons slots rq pid pids)
