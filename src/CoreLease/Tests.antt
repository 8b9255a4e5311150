-- ===== src/CoreLease/Tests.antt =====
-- Leases on a small machine.
use osai.Prelude.{
  ℕ, ◌≤◌, ◌<◌, ◌≡◌, refl, arith, true, false, ◌||◌, Option, some, none, List, [], ◌∷◌, ◌==◌, Status,
}
use osai.Scheduler.Placement.{scheduling}
use osai.CoreLease.{CpuState, Lease, Leases, no_cores, core_lease_init, core_lease_acquire}
use osai.CoreLease.Exclusive.{holders}
use osai.CoreLease.Runs.{Request, acquire, give_back, run, run-alone}

abbrev idle_cpu : CpuState
idle_cpu = record {
  online = true;
  role = scheduling;
  lease_owner_id = 0;
  irq_routed_away = false;
  tick_suppressed = false;
  scheduling_enabled = true;
  migration_count = 0;
}

abbrev entry : Lease
entry = record { owner_id = 0; core_mask = no_cores; irq_isolated_mask = no_cores; active = false }

abbrev two_entries : List Lease
two_entries = entry ∷ entry ∷ []

abbrev first_state : Leases
first_state = record { leases = core_lease_init two_entries; cpus = λ k. idle_cpu }

-- The second request is for a processor of the first.
abbrev requests : List Request
requests =
    acquire 7 (λ k. (k == 1) || (k == 2))
    ∷ acquire 8 (λ k. k == 2)
    ∷ give_back 7
    ∷ acquire 8 (λ k. k == 2)
    ∷ []

run-alone_example :
    (s : Leases) × (run first_state requests ≡ some s)
    × ((k : ℕ) → 1 ≤ k → k < 32 → holders s.leases k ≤ 1)
run-alone_example =
    run-alone two_entries (λ k. idle_cpu) requests (λ k free. refl)
      (omega arith, (omega arith, (tt, (omega arith, tt))))

abbrev first_status : Option (Status × ℕ)
first_status = elim (core_lease_acquire first_state 7 (λ k. (k == 1) || (k == 2))) [
  | none ↦ none
  | some out ↦ some (out.0, (out.1.cpus 2).lease_owner_id)
]

abbrev after_run : Option (ℕ × ℕ)
after_run = elim (run first_state requests) [
  | none ↦ none
  | some s ↦ some ((s.cpus 1).lease_owner_id, (s.cpus 2).lease_owner_id)
]
