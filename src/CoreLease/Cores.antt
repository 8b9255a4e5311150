-- ===== src/CoreLease/Cores.antt =====
-- kernel/runtime/core_lease.c: what the loops over the processors of a mask do.
use osai.Prelude.{
  ℕ, zero, suc, ◌+◌, ◌-◌, ◌^◌, ◌≤◌, ◌<◌, ◌≡◌, refl, sym, ap, subst, ◌∙◌, arith, Bool, true, false,
  not, ◌&&◌, ◌||◌, some, ltb, leb, ◌==◌, update, update_self, update-ne, add32, Status, ok,
  Bool-cases, Option-cases, inl, inr,
}
use osai.Scheduler.{max_cpus}
use osai.CoreLease.{
  CpuState, is_scheduling, leased, mark_core, returned, may_return, return_core, release_marked,
  mark_cores,
}

-- Processor `k` is in the mask and among the `n` from `c` on.
abbrev pub inside : ℕ → ℕ → (ℕ → Bool) → ℕ → Bool
inside n c mask k = (leb c k && ltb k (c + n)) && mask k

-- Exactly those processors were changed.
pub record Changed (n c : ℕ) (mask : ℕ → Bool) (change : CpuState → CpuState)
    (cpus cpus' : ℕ → CpuState) : Type 0 where
  pub at : (k : ℕ) → inside n c mask k ≡ true → cpus' k ≡ change (cpus k)
  pub off : (k : ℕ) → inside n c mask k ≡ false → cpus' k ≡ cpus k

Changed-nil :
    (c : ℕ) (mask : ℕ → Bool) (change : CpuState → CpuState) (cpus : ℕ → CpuState)
    → Changed 0 c mask change cpus cpus
Changed-nil c mask change cpus = record {
  at = λ k h. absurd (ground (arith, h));
  off = λ k h. refl;
}

Changed-skip :
    (n c : ℕ) (mask : ℕ → Bool) (change : CpuState → CpuState) (cpus cpus' : ℕ → CpuState)
    → mask c ≡ false
    → Changed n (suc c) mask change cpus cpus'
    → Changed (suc n) c mask change cpus cpus'
Changed-skip n c mask change cpus cpus' out rest = record {
  at = λ k h. rest.at k (same k ∙ h);
  off = λ k h. rest.off k (same k ∙ h);
}
  where
    same : (k : ℕ) → inside n (suc c) mask k ≡ inside (suc n) c mask k
    same k = elim (Bool-cases (k == c)) [
      | inl hit ↦
          let e : k ≡ c = ground (arith, hit) in
          let no : mask k ≡ false = ap mask e ∙ out in ground (arith, no)
      | inr miss ↦ ground (arith, miss)
    ]

Changed-take :
    (n c : ℕ) (mask : ℕ → Bool) (change : CpuState → CpuState) (cpus cpus' : ℕ → CpuState)
    → mask c ≡ true
    → Changed n (suc c) mask change (update cpus c (change (cpus c))) cpus'
    → Changed (suc n) c mask change cpus cpus'
Changed-take n c mask change cpus cpus' in_mask rest = record { at = at; off = off }
  where
    one : ℕ → CpuState
    one = update cpus c (change (cpus c))

    at : (k : ℕ) → inside (suc n) c mask k ≡ true → cpus' k ≡ change (cpus k)
    at k h = elim (Bool-cases (k == c)) [
      | inl hit ↦
          let e : k ≡ c = ground (arith, hit) in
          let past : inside n (suc c) mask k ≡ false = ground (arith, e) in
          rest.off k past
          ∙ subst (λ i. one i ≡ change (cpus i)) (sym e) (update_self cpus c (change (cpus c)))
      | inr miss ↦
          rest.at k (ground (arith, miss, h))
          ∙ ap change (update-ne cpus c k (change (cpus c)) (ground (arith, miss)))
    ]

    off : (k : ℕ) → inside (suc n) c mask k ≡ false → cpus' k ≡ cpus k
    off k h = elim (Bool-cases (k == c)) [
      | inl hit ↦
          let e : k ≡ c = ground (arith, hit) in
          let yes : mask k ≡ true = ap mask e ∙ in_mask in absurd (ground (arith, h, e, yes))
      | inr miss ↦
          rest.off k (ground (arith, miss, h))
          ∙ update-ne cpus c k (change (cpus c)) (ground (arith, miss))
    ]

-- A processor that can be leased.
pub record Free (c : CpuState) : Type 0 where
  pub online : c.online ≡ true
  pub scheduling : is_scheduling c.role ≡ true
  pub unowned : c.lease_owner_id ≡ 0

mark_core-ok :
    (cpus : ℕ → CpuState) (cpu owner : ℕ)
    → 1 ≤ cpu
    → cpu < 32
    → owner < 2 ^ 32 - 1
    → Free (cpus cpu)
    → mark_core cpus cpu owner ≡ (ok, update cpus cpu (leased owner (cpus cpu)))
unfolding mark_core
mark_core-ok cpus cpu owner low high fits free =
    let c = cpus cpu in
    let fit : ((cpu == 0)
          || leb max_cpus cpu
          || (owner == 2 ^ 32 - 1)
          || not c.online
          || not (is_scheduling c.role))
        ≡ false =
      rw (free.online, free.scheduling) (ground (arith, low, high, fits)) in
    let calm : (not (c.lease_owner_id == 0) && not (c.lease_owner_id == add32 owner 1)) ≡ false =
      ground (arith, free.unowned) in
    rw (fit, mark_core) (rw calm refl)

mark_cores-step :
    (n c owner : ℕ) (mask : ℕ → Bool) (cpus cpus1 : ℕ → CpuState) (marked : ℕ → Bool)
    → mask c ≡ true
    → mark_core cpus c owner ≡ (ok, cpus1)
    → mark_cores (suc n) c owner mask cpus marked
      ≡ mark_cores n (suc c) owner mask cpus1 (update marked c true)
unfolding mark_cores
mark_cores-step n c owner mask cpus cpus1 marked in_mask marks = rw in_mask (ap after marks)
  where
    after : Status × (ℕ → CpuState) → Bool × (ℕ → CpuState) × (ℕ → Bool)
    after w = elim w.0 [
      | ok ↦ mark_cores n (suc c) owner mask w.1 (update marked c true)
      | _ ↦ (false, w.1, marked)
    ]

-- The loop that marks leases every processor of the mask, when all are free.
pub mark_cores-Changed :
    (n c owner : ℕ) (mask : ℕ → Bool) (cpus : ℕ → CpuState) (marked : ℕ → Bool)
    → owner < 2 ^ 32 - 1
    → 1 ≤ c
    → c + n ≤ 32
    → ((k : ℕ) → inside n c mask k ≡ true → Free (cpus k))
    → let out = mark_cores n c owner mask cpus marked in
      (out.0 ≡ true) × Changed n c mask (leased owner) cpus out.1
unfolding mark_cores
mark_cores-Changed zero c owner mask cpus marked fits low high free =
    (refl, Changed-nil c mask (leased owner) cpus)
mark_cores-Changed (suc n) c owner mask cpus marked fits low high free =
    let cpus1 = update cpus c (leased owner (cpus c)) in
    let marked1 = update marked c true in
    elim (Bool-cases (mask c)) [
      | inl in_mask ↦
          let here : inside (suc n) c mask c ≡ true = ground (arith, in_mask) in
          let marks = mark_core-ok cpus c owner low (omega (arith, high)) fits (free c here) in
          let (all, changed) =
            mark_cores-Changed n (suc c) owner mask cpus1 marked1 fits (omega arith)
              (omega (arith, high))
              (λ k h.
                subst Free (sym (update-ne cpus c k (leased owner (cpus c)) (ground (arith, h))))
                  (free k (ground (arith, h)))) in
          let steps = mark_cores-step n c owner mask cpus cpus1 marked in_mask marks in
          (
            ap (λ (w : Bool × (ℕ → CpuState) × (ℕ → Bool)). w.0) steps ∙ all,
            subst
                (λ (w : Bool × (ℕ → CpuState) × (ℕ → Bool)).
                  Changed (suc n) c mask (leased owner) cpus w.1)
                (sym steps)
                (Changed-take n c mask (leased owner) cpus
                  (mark_cores n (suc c) owner mask cpus1 marked1).1 in_mask changed),
          )
      | inr out ↦
          let (all, changed) =
            mark_cores-Changed n (suc c) owner mask cpus marked fits (omega arith)
              (omega (arith, high)) (λ k h. free k (ground (arith, h))) in
          (
            rw (out, mark_cores) all,
            rw (out, mark_cores)
                (Changed-skip n c mask (leased owner) cpus
                  (mark_cores n (suc c) owner mask cpus marked).1 out changed),
          )
    ]

return_core-ok :
    (cpus : ℕ → CpuState) (cpu owner : ℕ)
    → may_return cpu owner (cpus cpu) ≡ true
    → return_core cpus cpu owner ≡ some (update cpus cpu (returned (cpus cpu)))
unfolding return_core
return_core-ok cpus cpu owner may = rw (may, return_core) refl

-- The loop that releases gives every processor of the mask back and trips no assertion, when the
-- owner holds them all.
pub release_marked-Changed :
    (n c owner : ℕ) (mask : ℕ → Bool) (cpus : ℕ → CpuState)
    → ((k : ℕ) → inside n c mask k ≡ true → may_return k owner (cpus k) ≡ true)
    → (cpus' : ℕ → CpuState) × (release_marked n c owner mask cpus ≡ some cpus')
      × Changed n c mask returned cpus cpus'
unfolding release_marked
release_marked-Changed zero c owner mask cpus may = (cpus, refl, Changed-nil c mask returned cpus)
release_marked-Changed (suc n) c owner mask cpus may =
    let cpus1 = update cpus c (returned (cpus c)) in
    elim (Bool-cases (mask c)) [
      | inl in_mask ↦
          let returns = return_core-ok cpus c owner (may c (ground (arith, in_mask))) in
          let (cpus', runs, changed) = release_marked-Changed n (suc c) owner mask cpus1 (λ k h.
            subst (λ s. may_return k owner s ≡ true)
              (sym (update-ne cpus c k (returned (cpus c)) (ground (arith, h))))
              (may k (ground (arith, h)))) in
          (
            cpus',
            rw (returns, release_marked) (rw in_mask runs),
            Changed-take n c mask returned cpus cpus' in_mask changed,
          )
      | inr out ↦
          let (cpus', runs, changed) =
            release_marked-Changed n (suc c) owner mask cpus (λ k h. may k (ground (arith, h))) in
          (cpus', passed cpus' out runs, Changed-skip n c mask returned cpus cpus' out changed)
    ]
  where
    passed :
        (cpus' : ℕ → CpuState)
        → mask c ≡ false
        → release_marked n (suc c) owner mask cpus ≡ some cpus'
        → release_marked (suc n) c owner mask cpus ≡ some cpus'
    passed cpus' out runs = elim (Option-cases (return_core cpus c owner)) [
      | inl refused ↦ rw (refused, release_marked) (rw out runs)
      | inr back ↦ rw (back.1, release_marked) (rw out runs)
    ]
