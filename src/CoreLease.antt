-- ===== src/CoreLease.antt =====
-- kernel/runtime/core_lease.c, with `smp_mark_core_leased` and `smp_release_core_lease` of
-- kernel/arch/aarch64/smp.c: exclusive leases of processors. A mask is the function of its bits, and
-- a `kassert` that fails is none.
pub mod Cores
pub mod Exclusive
pub mod Acquired
pub mod Granted
pub mod Requests
pub mod Runs
mod Tests
use osai.Prelude.{
  ℕ, zero, suc, ◌+◌, ◌-◌, ◌^◌, ◌%◌, Bool, true, false, not, ◌&&◌, ◌||◌, Option, none, some, List,
  [], ◌∷◌, ltb, leb, ◌==◌, if◌then◌else◌, update, add32, add64, Status, ok, invalid, busy,
  no_memory,
}
use osai.Scheduler.{max_cpus}
use osai.Scheduler.Placement.{CpuRole, scheduling, ai_hot}

-- The fields of `xaios_cpu_state_t` that leases use.
pub record CpuState : Type 0 where
  pub online : Bool
  pub role : CpuRole
  pub lease_owner_id : ℕ
  pub irq_routed_away : Bool
  pub tick_suppressed : Bool
  pub scheduling_enabled : Bool
  pub migration_count : ℕ

abbrev pub is_scheduling : CpuRole → Bool
is_scheduling scheduling = true
is_scheduling _ = false

abbrev pub is_hot : CpuRole → Bool
is_hot ai_hot = true
is_hot _ = false

-- A processor that an owner has leased.
abbrev pub leased : ℕ → CpuState → CpuState
leased owner c = record c {
  role = ai_hot;
  lease_owner_id = add32 owner 1;
  irq_routed_away = true;
  tick_suppressed = true;
  scheduling_enabled = false;
}

-- `smp_mark_core_leased`
unfoldable pub mark_core : (ℕ → CpuState) → ℕ → ℕ → Status × (ℕ → CpuState)
mark_core cpus cpu owner =
    let c = cpus cpu in
    if (cpu == 0)
      || leb max_cpus cpu
      || (owner == 2 ^ 32 - 1)
      || not c.online
      || not (is_scheduling c.role)
    then (invalid, cpus)
    else if not (c.lease_owner_id == 0) && not (c.lease_owner_id == add32 owner 1)
    then (busy, update cpus cpu (record c { migration_count = add64 c.migration_count 1 }))
    else (ok, update cpus cpu (leased owner c))

-- A processor after its lease.
abbrev pub returned : CpuState → CpuState
returned c = record c {
  role = scheduling;
  lease_owner_id = 0;
  irq_routed_away = false;
  tick_suppressed = false;
  scheduling_enabled = true;
}

-- The guard of `smp_release_core_lease`.
abbrev pub may_return : ℕ → ℕ → CpuState → Bool
may_return cpu owner c =
    not (cpu == 0)
    && not (leb max_cpus cpu)
    && c.online
    && is_hot c.role
    && (c.lease_owner_id == add32 owner 1)

-- `smp_release_core_lease` under `kassert(… == XAIOS_OK)`.
unfoldable pub return_core : (ℕ → CpuState) → ℕ → ℕ → Option (ℕ → CpuState)
return_core cpus cpu owner =
    if may_return cpu owner (cpus cpu) then some (update cpus cpu (returned (cpus cpu))) else none

-- `core_lease_t`
pub record Lease : Type 0 where
  pub owner_id : ℕ
  pub core_mask : ℕ → Bool
  pub irq_isolated_mask : ℕ → Bool
  pub active : Bool

-- `g_leases` and the states of the processors.
pub record Leases : Type 0 where
  pub leases : List Lease
  pub cpus : ℕ → CpuState

abbrev pub no_cores : ℕ → Bool
no_cores cpu = false

-- The bit of a processor in `core_lease_used_mask`.
unfoldable pub used_mask : List Lease → ℕ → Bool
used_mask [] cpu = false
used_mask (l ∷ leases) cpu = (l.active && l.core_mask cpu) || used_mask leases cpu

-- Some bit below `n` passes a test.
unfoldable pub any_core : ℕ → (ℕ → Bool) → Bool
any_core zero test = false
any_core (suc n) test = test n || any_core n test

-- A processor of the mask that may not be leased.
abbrev pub is_unfit : (ℕ → CpuState) → (ℕ → Bool) → ℕ → Bool
is_unfit cpus mask cpu = mask cpu && (not (cpus cpu).online || not (is_scheduling (cpus cpu).role))

-- `validate_core_mask`, true for XAIOS_OK.
unfoldable pub validate_core_mask : (ℕ → CpuState) → (ℕ → Bool) → Bool
unfolding any_core
validate_core_mask cpus mask =
    any_core 32 mask && not (mask 0) && not (any_core 32 (is_unfit cpus mask))

-- `release_marked_cores`, from processor `cpu` on for `n` rounds.
unfoldable pub release_marked : ℕ → ℕ → ℕ → (ℕ → Bool) → (ℕ → CpuState) → Option (ℕ → CpuState)
unfolding return_core
release_marked zero cpu owner mask cpus = some cpus
release_marked (suc n) cpu owner mask cpus =
    let without = release_marked n (suc cpu) owner mask cpus in
    elim (return_core cpus cpu owner) [
      | none ↦ if mask cpu then none else without
      | some cpus' ↦
          let rest = release_marked n (suc cpu) owner mask cpus' in
          if mask cpu then rest else without
    ]

-- The marking loop of `core_lease_acquire`: whether all went well, the states, `marked_mask`.
unfoldable pub mark_cores :
    ℕ → ℕ → ℕ → (ℕ → Bool) → (ℕ → CpuState) → (ℕ → Bool) → Bool × (ℕ → CpuState) × (ℕ → Bool)
unfolding mark_core
mark_cores zero cpu owner mask cpus marked = (true, cpus, marked)
mark_cores (suc n) cpu owner mask cpus marked =
    let (status, cpus') = mark_core cpus cpu owner in
    let without = mark_cores n (suc cpu) owner mask cpus marked in
    let rest = mark_cores n (suc cpu) owner mask cpus' (update marked cpu true) in
    if mask cpu then elim status [ ok ↦ rest | _ ↦ (false, cpus', marked) ] else without

-- The scan for an inactive entry, written; none when there is none.
unfoldable pub take_lease : List Lease → Lease → Option (List Lease)
take_lease [] new = none
take_lease (l ∷ leases) new =
    let later = take_lease leases new in
    if not l.active
    then some (new ∷ leases)
    else elim later [ none ↦ none | some leases' ↦ some (l ∷ leases') ]

-- The guard of `core_lease_acquire`.
unfoldable pub is_refused : Leases → (ℕ → Bool) → Bool
unfolding validate_core_mask used_mask any_core
is_refused s mask =
    not (validate_core_mask s.cpus mask) || any_core 32 (λ cpu. used_mask s.leases cpu && mask cpu)

-- `core_lease_acquire` after the marking loop, with the entries that the lease is written to.
unfoldable pub settle_lease :
    Leases → ℕ → List Lease → Bool × (ℕ → CpuState) × (ℕ → Bool) → Option (Status × Leases)
unfolding release_marked
settle_lease s owner leases' (true, cpus', marked) =
    some (ok, record { leases = leases'; cpus = cpus' })
settle_lease s owner leases' (false, cpus', marked) =
    elim (release_marked 31 1 owner marked cpus') [
      | none ↦ none
      | some cpus'' ↦ some (invalid, record s { cpus = cpus'' })
    ]

-- The scan of `core_lease_acquire`, with what its marking loop gives.
unfoldable pub place_lease :
    Leases → ℕ → (ℕ → Bool) → Bool × (ℕ → CpuState) × (ℕ → Bool) → Option (Status × Leases)
unfolding take_lease settle_lease
place_lease s owner mask marking =
    let new : Lease = record {
      owner_id = owner;
      core_mask = mask;
      irq_isolated_mask = marking.2;
      active = true;
    } in
    elim (take_lease s.leases new) [
      | none ↦ some (no_memory, s)
      | some leases' ↦ settle_lease s owner leases' marking
    ]

-- `core_lease_acquire`
unfoldable pub core_lease_acquire : Leases → ℕ → (ℕ → Bool) → Option (Status × Leases)
unfolding is_refused place_lease mark_cores
core_lease_acquire s owner mask =
    let placed = place_lease s owner mask (mark_cores 31 1 owner mask s.cpus no_cores) in
    if is_refused s mask then some (invalid, s) else placed

-- An entry after `core_lease_release`; its owner stays.
abbrev pub inactive : Lease → Lease
inactive l = record l { core_mask = no_cores; irq_isolated_mask = no_cores; active = false }

-- The loop of `core_lease_release`: `found`, the entries and the processors.
unfoldable pub release_from :
    ℕ → List Lease → (ℕ → CpuState) → Option (Bool × List Lease × (ℕ → CpuState))
unfolding release_marked
release_from owner [] cpus = some (false, [], cpus)
release_from owner (l ∷ leases) cpus =
    let kept = release_from owner leases cpus in
    if l.active && (l.owner_id == owner)
    then elim (release_marked 31 1 owner l.core_mask cpus) [
      | none ↦ none
      | some cpus' ↦ elim (release_from owner leases cpus') [
        | none ↦ none
        | some out ↦ some (true, inactive l ∷ out.1, out.2)
      ]
    ]
    else elim kept [ none ↦ none | some out ↦ some (out.0, l ∷ out.1, out.2) ]

-- `core_lease_release`
unfoldable pub core_lease_release : Leases → ℕ → Option (Status × Leases)
unfolding release_from
core_lease_release s owner = elim (release_from owner s.leases s.cpus) [
  | none ↦ none
  | some out ↦ some (if out.0 then ok else invalid, record { leases = out.1; cpus = out.2 })
]

-- `core_lease_init` on entries that exist.
unfoldable pub core_lease_init : List Lease → List Lease
core_lease_init [] = []
core_lease_init (l ∷ leases) =
    record { owner_id = 0; core_mask = no_cores; irq_isolated_mask = no_cores; active = false }
    ∷ core_lease_init leases
