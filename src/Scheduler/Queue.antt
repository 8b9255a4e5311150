-- ===== src/Scheduler/Queue.antt =====
-- A run queue holds no pid twice and never more than 128, and an operation on it changes what it
-- says it does.
use osai.Prelude.{
  ℕ, ◌+◌, ◌≤◌, ◌≡◌, refl, arith, false, ◌&&◌, ◌||◌, not, List, [], ◌∷◌, ◌++◌, length, length-append,
  ltb, ◌==◌, if◌then◌else◌,
}
use osai.Scheduler.{Runqueue, runqueue_size, queued, rq_add, remove_pid, rq_remove}

-- No pid stands twice.
abbrev pub Distinct : List ℕ → Type 0
Distinct [] = Unit {0}
Distinct (p ∷ ps) = (queued ps p ≡ false) × Distinct ps

pub record IsValid (rq : Runqueue) : Type 0 where
  pub distinct : Distinct rq.tasks
  pub fits : length rq.tasks ≤ runqueue_size

pub queued-append : (ps qs : List ℕ) (p : ℕ) → queued (ps ++ qs) p ≡ (queued ps p || queued qs p)
unfolding queued
queued-append [] qs p = refl
queued-append (q ∷ ps) qs p = ground (arith, queued-append ps qs p)

queued_cons : (p q : ℕ) → queued (p ∷ []) q ≡ (p == q)
unfolding queued
queued_cons p q = ground arith

Distinct-append :
    (ps : List ℕ) (p : ℕ) → Distinct ps → queued ps p ≡ false → Distinct (ps ++ p ∷ [])
unfolding queued
Distinct-append [] p d h = (refl, tt)
Distinct-append (q ∷ ps) p d h =
    (ground (arith, queued-append ps (p ∷ []) q), Distinct-append ps p d.1 (ground arith))

-- What is queued after a removal: all but the pid.
pub queued-remove_pid :
    (ps : List ℕ) (p q : ℕ)
    → Distinct ps
    → queued (remove_pid ps p) q ≡ (queued ps q && not (p == q))
unfolding queued remove_pid
queued-remove_pid [] p q d = refl
queued-remove_pid (r ∷ ps) p q d = ground (arith, queued-remove_pid ps p q d.1, d.0)

Distinct-remove_pid : (ps : List ℕ) (p : ℕ) → Distinct ps → Distinct (remove_pid ps p)
unfolding remove_pid
Distinct-remove_pid [] p d = d
Distinct-remove_pid (r ∷ ps) p d =
    ground (arith, queued-remove_pid ps p r d.1, Distinct-remove_pid ps p d.1)

length-remove_pid :
    (ps : List ℕ) (p : ℕ) → length (remove_pid ps p) + (if queued ps p then 1 else 0) ≡ length ps
unfolding queued remove_pid
length-remove_pid [] p = refl
length-remove_pid (r ∷ ps) p = ground (arith, length-remove_pid ps p)

-- `rq_add` keeps a queue valid; afterwards what was queued is queued, and the pid too, unless the
-- queue was full; nothing else is.
pub rq_add_lem :
    (rq : Runqueue) (p q : ℕ)
    → IsValid rq
    → IsValid (rq_add rq p)
      × (queued (rq_add rq p).tasks q
          ≡ (queued rq.tasks q || (p == q && ltb (length rq.tasks) runqueue_size)))
unfolding rq_add
rq_add_lem rq p q v = (
  ground (arith, Distinct-append rq.tasks p v.distinct, length-append rq.tasks (p ∷ []), v),
  ground (arith, queued-append rq.tasks (p ∷ []) q, queued_cons p q),
)

-- `rq_remove` keeps a queue valid; afterwards what was queued is queued, but for the pid, and the
-- queue is one shorter if the pid was in it.
pub rq_remove_lem :
    (rq : Runqueue) (p q : ℕ)
    → IsValid rq
    → IsValid (rq_remove rq p)
      × (queued (rq_remove rq p).tasks q ≡ (queued rq.tasks q && not (p == q)))
      × (length (rq_remove rq p).tasks + (if queued rq.tasks p then 1 else 0) ≡ length rq.tasks)
unfolding rq_remove
rq_remove_lem rq p q v = (
  record {
    distinct = Distinct-remove_pid rq.tasks p v.distinct;
    fits = omega (arith, length-remove_pid rq.tasks p, v.fits);
  },
  queued-remove_pid rq.tasks p q v.distinct,
  length-remove_pid rq.tasks p,
)
