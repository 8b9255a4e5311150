-- ===== src/CoreLease/Requests.antt =====
-- kernel/runtime/core_lease.c: leases stay exclusive through any requests.
use osai.Prelude.{
  ℕ, ◌-◌, ◌^◌, ◌<◌, ◌≡◌, refl, sym, ap, subst, ◌∙◌, arith, Bool, true, false, ◌&&◌, Option, none,
  some, List, ◌==◌, if◌then◌else◌, Bool-cases, Option-cases, inl, inr, Status, ok, invalid,
  no_memory,
}
use osai.CoreLease.{
  CpuState, leased, Lease, Leases, mark_cores, release_marked, no_cores, any_core,
  validate_core_mask, used_mask, is_refused, settle_lease, place_lease, take_lease,
  core_lease_acquire,
}
use osai.CoreLease.Cores.{inside, Changed, Free, mark_cores-Changed}
use osai.CoreLease.Exclusive.{IsValid}
use osai.CoreLease.Acquired.{validate-Free, mark_cores-refused}
use osai.CoreLease.Granted.{granted-IsValid, first_passes, none_marked, nothing_returned}

refused_not :
    (s : Leases) (mask : ℕ → Bool)
    → is_refused s mask ≡ false
    → validate_core_mask s.cpus mask ≡ true
unfolding is_refused
refused_not s mask good =
    first_passes (validate_core_mask s.cpus mask)
      (any_core 32 (λ cpu. used_mask s.leases cpu && mask cpu)) good

-- How the marking loop may end, for a mask that passes the check.
data Marking (mask : ℕ → Bool) (owner : ℕ) (cpus : ℕ → CpuState)
    (out : Bool × (ℕ → CpuState) × (ℕ → Bool)) : Type 0 where
  all_marked :
      out.0 ≡ true → Changed 31 1 mask (leased owner) cpus out.1 → Marking mask owner cpus out
  stopped : out.0 ≡ false → out.1 ≡ cpus → out.2 ≡ no_cores → Marking mask owner cpus out

mark_cores-Marking :
    (owner : ℕ) (mask : ℕ → Bool) (cpus : ℕ → CpuState)
    → owner < 2 ^ 32
    → ((k : ℕ) → inside 31 1 mask k ≡ true → Free (cpus k))
    → Marking mask owner cpus (mark_cores 31 1 owner mask cpus no_cores)
mark_cores-Marking owner mask cpus word free = elim (Bool-cases (owner == 2 ^ 32 - 1)) [
  | inr other ↦
      let (all, changed) =
        mark_cores-Changed 31 1 owner mask cpus no_cores (ground (arith, other, word)) (omega arith)
          (omega arith) free in
      all_marked all changed
  | inl last ↦
      let e : owner ≡ 2 ^ 32 - 1 = ground (arith, last) in
      subst (λ o. Marking mask o cpus (mark_cores 31 1 o mask cpus no_cores)) (sym e)
        (given (mark_cores 31 1 (2 ^ 32 - 1) mask cpus no_cores)
          (mark_cores-refused 31 1 mask cpus no_cores))
]
  where
    clash : false ≡ true → ⊥
    clash e = cc

    given :
        (out : Bool × (ℕ → CpuState) × (ℕ → Bool))
        → (out.1 ≡ cpus)
          × (out.2 ≡ no_cores)
          × (out.0 ≡ true → (k : ℕ) → inside 31 1 mask k ≡ false)
        → Marking mask (2 ^ 32 - 1) cpus out
    given out (same, none_set, empty) = elim (Bool-cases out.0) [
      | inr off ↦ stopped off same none_set
      | inl on ↦ all_marked on (record {
        at = λ k h. absurd (clash (sym (empty on k) ∙ h));
        off = λ k h. ap (λ (c : ℕ → CpuState). c k) same;
      })
    ]

settle_stopped :
    (s : Leases) (owner : ℕ) (leases' : List Lease) (back : ℕ → CpuState)
    → release_marked 31 1 owner no_cores s.cpus ≡ some back
    → settle_lease s owner leases' (false, s.cpus, no_cores)
      ≡ some (invalid, record s { cpus = back })
unfolding settle_lease
settle_stopped s owner leases' back runs =
    ap
      (λ (o : Option (ℕ → CpuState)). elim o [
        | none ↦ none
        | some cpus'' ↦ some (invalid, record s { cpus = cpus'' })
      ])
      runs

place_lease-IsValid :
    (s : Leases) (owner : ℕ) (mask : ℕ → Bool) (marking : Bool × (ℕ → CpuState) × (ℕ → Bool))
    → IsValid s
    → ((k : ℕ) → inside 31 1 mask k ≡ true → Free (s.cpus k))
    → Marking mask owner s.cpus marking
    → (out : Status × Leases) × (place_lease s owner mask marking ≡ some out) × IsValid out.1
unfolding place_lease settle_lease
place_lease-IsValid s owner mask (flag, cpus', marked) v free m =
    let new : Lease = record {
      owner_id = owner;
      core_mask = mask;
      irq_isolated_mask = marked;
      active = true;
    } in
    elim (Option-cases (take_lease s.leases new)) [
      | inl full ↦ ((no_memory, s), rw (full, place_lease) refl, v)
      | inr got ↦
          let (out, ends, valid) = settled new got.0 got.1 refl refl m in
          (out, rw (got.1, place_lease) ends, valid)
    ]
  where
    settled :
        (new : Lease) (leases' : List Lease)
        → take_lease s.leases new ≡ some leases'
        → new.owner_id ≡ owner
        → new.core_mask ≡ mask
        → Marking mask owner s.cpus (flag, cpus', marked)
        → (out : Status × Leases) × (settle_lease s owner leases' (flag, cpus', marked) ≡ some out)
          × IsValid out.1
    settled new leases' takes owned masked (all_marked on changed) = (
      (ok, record { leases = leases'; cpus = cpus' }),
      rw on refl,
      granted-IsValid s owner mask new leases' cpus' v owned masked free changed takes,
    )
    settled new leases' takes owned masked (stopped off same none_set) =
        let (back, runs, changed) = none_marked owner s.cpus in
        (
          (invalid, record s { cpus = back }),
          ap (λ flag. settle_lease s owner leases' (flag, cpus', marked)) off
              ∙ ap (λ cpus'. settle_lease s owner leases' (false, cpus', marked)) same
              ∙ ap (λ marked. settle_lease s owner leases' (false, s.cpus, marked)) none_set
              ∙ settle_stopped s owner leases' back runs,
          nothing_returned s back changed v,
        )

acquire_if :
    (s : Leases) (owner : ℕ) (mask : ℕ → Bool) (b : Bool)
    → is_refused s mask ≡ b
    → core_lease_acquire s owner mask ≡ (
        if b
        then some (invalid, s)
        else place_lease s owner mask (mark_cores 31 1 owner mask s.cpus no_cores))
unfolding core_lease_acquire
acquire_if s owner mask b e =
    ap
      (λ b.
        if b
        then some (invalid, s)
        else place_lease s owner mask (mark_cores 31 1 owner mask s.cpus no_cores))
      e

-- An acquisition trips no assertion and keeps the state valid.
pub core_lease_acquire-IsValid :
    (s : Leases) (owner : ℕ) (mask : ℕ → Bool)
    → IsValid s
    → owner < 2 ^ 32
    → (out : Status × Leases) × (core_lease_acquire s owner mask ≡ some out) × IsValid out.1
core_lease_acquire-IsValid s owner mask v word = elim (Bool-cases (is_refused s mask)) [
  | inl bad ↦ ((invalid, s), acquire_if s owner mask true bad, v)
  | inr good ↦
      let valid = refused_not s mask good in
      let free : (k : ℕ) → inside 31 1 mask k ≡ true → Free (s.cpus k) =
        λ k h. validate-Free s mask k v.unowned valid h in
      let marking = mark_cores 31 1 owner mask s.cpus no_cores in
      let (out, ends, kept) =
        place_lease-IsValid s owner mask marking v free
          (mark_cores-Marking owner mask s.cpus word free) in
      (out, acquire_if s owner mask false good ∙ ends, kept)
]
