-- ===== src/CoreLease/Granted.antt =====
-- kernel/runtime/core_lease.c: the states after a lease was granted, and after nothing was marked.
use osai.Prelude.{
  ℕ, ◌+◌, ◌≤◌, ◌<◌, ◌≡◌, sym, ap, subst, ◌∙◌, arith, Bool, true, false, not, ◌&&◌, ◌||◌, some, List,
  Bool-cases, inl, inr,
}
use osai.CoreLease.{
  CpuState, is_scheduling, may_return, leased, Lease, Leases, release_marked, no_cores, returned,
  take_lease,
}
use osai.CoreLease.Cores.{inside, Changed, Free, release_marked-Changed}
use osai.CoreLease.Exclusive.{one_if, holders, IsMarked, IsUnowned, IsValid, IsMarked-keep}
use osai.CoreLease.Acquired.{scheduling-holders, take_lease_lem}

leased-may_return :
    (k owner : ℕ) (c : CpuState)
    → 1 ≤ k
    → k < 32
    → c.online ≡ true
    → may_return k owner (leased owner c) ≡ true
leased-may_return k owner c low high on = ground (arith, low, high, on)

leased-IsUnowned :
    (owner : ℕ) (mask : ℕ → Bool) (cpus cpus' : ℕ → CpuState)
    → Changed 31 1 mask (leased owner) cpus cpus'
    → IsUnowned cpus
    → IsUnowned cpus'
leased-IsUnowned owner mask cpus cpus' changed idle k free =
    elim (Bool-cases (inside 31 1 mask k)) [
      | inl hit ↦
          absurd
            (clash (sym (ap (λ (c : CpuState). is_scheduling c.role) (changed.at k hit)) ∙ free))
      | inr miss ↦
          let e = changed.off k miss in
          ap (λ (c : CpuState). c.lease_owner_id) e
          ∙ idle k (ap (λ (c : CpuState). is_scheduling c.role) (sym e) ∙ free)
    ]
  where
    clash : false ≡ true → ⊥
    clash e = cc

-- The state after a lease was granted is valid.
pub granted-IsValid :
    (s : Leases) (owner : ℕ) (mask : ℕ → Bool) (new : Lease) (leases' : List Lease)
    → (cpus' : ℕ → CpuState) → IsValid s
    → new.owner_id ≡ owner
    → new.core_mask ≡ mask
    → ((k : ℕ) → inside 31 1 mask k ≡ true → Free (s.cpus k))
    → Changed 31 1 mask (leased owner) s.cpus cpus'
    → take_lease s.leases new ≡ some leases'
    → IsValid (record { leases = leases'; cpus = cpus' })
granted-IsValid s owner mask new leases' cpus' v owned masked free changed takes =
    let kept =
      IsMarked-keep s.cpus cpus' s.leases (λ k h held. changed.off k (apart k h held)) v.marked in
    let (marked, counts) = take_lease_lem cpus' s.leases leases' new takes kept here in
    record {
      marked = marked;
      alone = λ k low high. alone k low high (counts k);
      unowned = leased-IsUnowned owner mask s.cpus cpus' changed v.unowned;
    }
  where
    apart :
        (k : ℕ)
        → inside 31 1 (λ i. true) k ≡ true
        → 1 ≤ holders s.leases k
        → inside 31 1 mask k ≡ false
    apart k h held = elim (Bool-cases (inside 31 1 mask k)) [
      | inr miss ↦ miss
      | inl hit ↦
          let none_held =
            scheduling-holders s.cpus s.leases k (ground (arith, h)) (ground (arith, h)) v.marked
              (free k hit).scheduling in
          absurd (omega (arith, none_held, held))
    ]

    here : IsMarked cpus' new
    here active k h =
        let hit : inside 31 1 mask k ≡ true =
          subst (λ (m : ℕ → Bool). inside 31 1 m k ≡ true) masked h in
        subst (λ o. may_return k o (cpus' k) ≡ true) (sym owned)
          (subst (λ c. may_return k owner c ≡ true) (sym (changed.at k hit))
            (leased-may_return k owner (s.cpus k) (ground (arith, h)) (ground (arith, h))
              (free k hit).online))

    bit_le : (b : Bool) → one_if b ≤ 1
    bit_le b = ground arith

    off_zero : (a b : Bool) → b ≡ false → one_if (a && b) ≡ 0
    off_zero a b h = ground arith

    alone :
        (k : ℕ)
        → 1 ≤ k
        → k < 32
        → holders leases' k ≡ one_if (new.active && new.core_mask k) + holders s.leases k
        → holders leases' k ≤ 1
    alone k low high count = elim (Bool-cases (mask k)) [
      | inl held ↦
          let hit : inside 31 1 mask k ≡ true = ground (arith, low, high, held) in
          let none_held =
            scheduling-holders s.cpus s.leases k low high v.marked (free k hit).scheduling in
          omega (arith, count, none_held, bit_le (new.active && new.core_mask k))
      | inr out ↦
          let off : new.core_mask k ≡ false = ap (λ (m : ℕ → Bool). m k) masked ∙ out in
          omega (arith, count, off_zero new.active (new.core_mask k) off, v.alone k low high)
    ]

pub first_passes : (a b : Bool) → (not a || b) ≡ false → a ≡ true
first_passes a b h = ground arith

pub none_marked :
    (owner : ℕ) (cpus : ℕ → CpuState)
    → (cpus' : ℕ → CpuState) × (release_marked 31 1 owner no_cores cpus ≡ some cpus')
      × Changed 31 1 no_cores returned cpus cpus'
none_marked owner cpus =
    release_marked-Changed 31 1 owner no_cores cpus (λ k h. absurd (ground (arith, h)))

pub nothing_returned :
    (s : Leases) (cpus' : ℕ → CpuState)
    → Changed 31 1 no_cores returned s.cpus cpus'
    → IsValid s
    → IsValid (record s { cpus = cpus' })
nothing_returned s cpus' changed v =
    let same : (k : ℕ) → cpus' k ≡ s.cpus k = λ k. changed.off k (ground arith) in
    record {
      marked = IsMarked-keep s.cpus cpus' s.leases (λ k h held. same k) v.marked;
      alone = v.alone;
      unowned = λ k free.
          ap (λ (c : CpuState). c.lease_owner_id) (same k)
          ∙ v.unowned k (ap (λ (c : CpuState). is_scheduling c.role) (sym (same k)) ∙ free);
    }
