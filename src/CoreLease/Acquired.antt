-- ===== src/CoreLease/Acquired.antt =====
-- `core_lease_acquire` of kernel/runtime/core_lease.c keeps leases exclusive, through any requests.
use osai.Prelude.{
  ℕ, zero, suc, ◌+◌, ◌-◌, ◌^◌, ◌≤◌, ◌<◌, ◌≡◌, refl, sym, ap, subst, ◌∙◌, arith, Bool, true, false,
  not, ◌&&◌, none, some, List, [], ◌∷◌, ◌==◌, All, Bool-cases, Option-cases, inl, inr, Status, ok,
  invalid, update,
}
use osai.CoreLease.{
  CpuState, is_scheduling, is_hot, Lease, Leases, mark_core, mark_cores, any_core, is_unfit,
  validate_core_mask, take_lease,
}
use osai.CoreLease.Cores.{inside, Free}
use osai.CoreLease.Exclusive.{one_if, holders, IsMarked, IsUnowned}

any_core-false :
    (n : ℕ) (test : ℕ → Bool) (k : ℕ) → any_core n test ≡ false → k < n → test k ≡ false
unfolding any_core
any_core-false zero test k h small = absurd (omega (arith, small))
any_core-false (suc n) test k h small = elim (Bool-cases (k == n)) [
  | inl last ↦ let e : k ≡ n = ground (arith, last) in ap test e ∙ ground (arith, h)
  | inr before ↦ any_core-false n test k (ground (arith, h)) (ground (arith, before, small))
]

third : (a b c : Bool) → (a && b && not c) ≡ true → c ≡ false
third a b c h = ground arith

validate-fit :
    (cpus : ℕ → CpuState) (mask : ℕ → Bool) (k : ℕ)
    → validate_core_mask cpus mask ≡ true
    → k < 32
    → is_unfit cpus mask k ≡ false
unfolding validate_core_mask
validate-fit cpus mask k passes small =
    any_core-false 32 (is_unfit cpus mask) k
      (third (any_core 32 mask) (not (mask 0)) (any_core 32 (is_unfit cpus mask)) passes) small

-- The processors of a mask that passes the check can be leased.
pub validate-Free :
    (s : Leases) (mask : ℕ → Bool) (k : ℕ)
    → IsUnowned s.cpus
    → validate_core_mask s.cpus mask ≡ true
    → inside 31 1 mask k ≡ true
    → Free (s.cpus k)
validate-Free s mask k idle passes h =
    let one = validate-fit s.cpus mask k passes (ground (arith, h)) in
    let held : mask k ≡ true = ground (arith, h) in
    let sched : is_scheduling (s.cpus k).role ≡ true = ground (arith, one, held) in
    record { online = ground (arith, one, held); scheduling = sched; unowned = idle k sched }

-- No lease holds a processor that the scheduler has.
pub scheduling-holders :
    (cpus : ℕ → CpuState) (leases : List Lease) (k : ℕ)
    → 1 ≤ k
    → k < 32
    → All (IsMarked cpus) leases
    → is_scheduling (cpus k).role ≡ true
    → holders leases k ≡ 0
scheduling-holders cpus [] k low high all sched = refl
scheduling-holders cpus (l ∷ leases) k low high all sched =
    let rest = scheduling-holders cpus leases k low high all.1 sched in
    elim (Bool-cases (l.active && l.core_mask k)) [
      | inr free ↦ rw free (omega (arith, rest))
      | inl held ↦
          let active : l.active ≡ true = ground (arith, held) in
          let here : l.core_mask k ≡ true = ground (arith, held) in
          let hot = all.0 active k (ground (arith, low, high, here)) in
          let is_hot : is_hot (cpus k).role ≡ true = ground (arith, hot) in
          absurd (ground (arith, is_hot, sched))
    ]

-- What an entry that is taken changes.
pub take_lease_lem :
    (cpus : ℕ → CpuState) (leases leases' : List Lease) (new : Lease)
    → take_lease leases new ≡ some leases'
    → All (IsMarked cpus) leases
    → IsMarked cpus new
    → All (IsMarked cpus) leases'
      × ((k : ℕ) → holders leases' k ≡ one_if (new.active && new.core_mask k) + holders leases k)
unfolding take_lease
take_lease_lem cpus [] leases' new h all here = absurd (cc)
take_lease_lem cpus (l ∷ leases) leases' new h all here = elim (Bool-cases (not l.active)) [
  | inl free ↦
      let same : leases' ≡ new ∷ leases = injected (sym h ∙ rw free refl) in
      let off : l.active ≡ false = ground (arith, free) in
      (
        subst (All (IsMarked cpus)) (sym same) (here, all.1),
        λ k. ap (λ ls. holders ls k) same ∙ rw off (omega arith),
      )
  | inr taken ↦ elim (Option-cases (take_lease leases new)) [
    | inl full ↦ absurd (clash (sym (rw (taken, take_lease) (rw full refl)) ∙ h))
    | inr got ↦
        let same : leases' ≡ l ∷ got.0 =
          injected (sym h ∙ rw (taken, take_lease) (rw got.1 refl)) in
        let (marked, counts) = take_lease_lem cpus leases got.0 new got.1 all.1 here in
        (
          subst (All (IsMarked cpus)) (sym same) (all.0, marked),
          λ k. ap (λ ls. holders ls k) same ∙ omega (arith, counts k),
        )
  ]
]
  where
    injected : {a b : List Lease} → some a ≡ some b → a ≡ b
    injected e = cc

    clash : {a : List Lease} → none ≡ some a → ⊥
    clash e = cc

mark_core-refused : (cpus : ℕ → CpuState) (c : ℕ) → mark_core cpus c (2 ^ 32 - 1) ≡ (invalid, cpus)
unfolding mark_core
mark_core-refused cpus c = ground arith

inside-skip :
    (n c : ℕ) (mask : ℕ → Bool) (k : ℕ)
    → mask c ≡ false
    → inside n (suc c) mask k ≡ false
    → inside (suc n) c mask k ≡ false
inside-skip n c mask k out h = elim (Bool-cases (k == c)) [
  | inl hit ↦
      let e : k ≡ c = ground (arith, hit) in
      let no : mask k ≡ false = ap mask e ∙ out in ground (arith, no)
  | inr miss ↦ ground (arith, miss, h)
]

-- The marking loop for the one owner that cannot lease: nothing is marked, and when the loop gets to
-- its end the mask holds none of its processors.
pub mark_cores-refused :
    (n c : ℕ) (mask : ℕ → Bool) (cpus : ℕ → CpuState) (marked : ℕ → Bool)
    → let out = mark_cores n c (2 ^ 32 - 1) mask cpus marked in
      (out.1 ≡ cpus) × (out.2 ≡ marked) × (out.0 ≡ true → (k : ℕ) → inside n c mask k ≡ false)
unfolding mark_cores
mark_cores-refused zero c mask cpus marked = (refl, refl, λ e k. ground arith)
mark_cores-refused (suc n) c mask cpus marked = elim (Bool-cases (mask c)) [
  | inl held ↦
      let e = mark_core-refused cpus c in
      (
        rw held (ap (λ w. (after w).1) e),
        rw held (ap (λ w. (after w).2) e),
        λ all. absurd (clash (sym (rw held (ap (λ w. (after w).0) e)) ∙ all)),
      )
  | inr free ↦
      let (same, none_marked, out) = mark_cores-refused n (suc c) mask cpus marked in
      (
        rw free same,
        rw free none_marked,
        λ all k. inside-skip n c mask k free (out (sym (rw free refl) ∙ all) k),
      )
]
  where
    clash : false ≡ true → ⊥
    clash e = cc

    after : Status × (ℕ → CpuState) → Bool × (ℕ → CpuState) × (ℕ → Bool)
    after w = elim w.0 [
      | ok ↦ mark_cores n (suc c) (2 ^ 32 - 1) mask w.1 (update marked c true)
      | _ ↦ (false, w.1, marked)
    ]
