-- ===== src/CoreLease/Exclusive.antt =====
-- kernel/runtime/core_lease.c: no processor is leased twice, and no assertion of a release fails.
use osai.Prelude.{
  ℕ, ◌+◌, ◌≤◌, ◌<◌, ◌≡◌, refl, sym, ap, subst, ◌∙◌, arith, Bool, true, false, ◌&&◌, some, List, [],
  ◌∷◌, ◌==◌, if◌then◌else◌, All, Bool-cases, inl, inr, Status, ok, invalid,
}
use osai.CoreLease.{
  CpuState, is_scheduling, may_return, returned, Lease, Leases, inactive, release_from,
  core_lease_release,
}
use osai.CoreLease.Cores.{inside, Changed, release_marked-Changed}

abbrev pub one_if : Bool → ℕ
one_if true = 1
one_if false = 0

-- How many active leases hold a processor.
abbrev pub holders : List Lease → ℕ → ℕ
holders [] k = 0
holders (l ∷ leases) k = one_if (l.active && l.core_mask k) + holders leases k

-- The processors of a lease are leased to its owner.
abbrev pub IsMarked : (ℕ → CpuState) → Lease → Type 0
IsMarked cpus l =
    l.active ≡ true
    → (k : ℕ) → inside 31 1 l.core_mask k ≡ true
    → may_return k l.owner_id (cpus k) ≡ true

-- A processor that the scheduler has belongs to no owner.
abbrev pub IsUnowned : (ℕ → CpuState) → Type 0
IsUnowned cpus = (k : ℕ) → is_scheduling (cpus k).role ≡ true → (cpus k).lease_owner_id ≡ 0

-- At most one active lease holds each of the processors 1 to 31, and the states of the processors
-- say so.
pub record IsValid (s : Leases) : Type 0 where
  pub marked : All (IsMarked s.cpus) s.leases
  pub alone : (k : ℕ) → 1 ≤ k → k < 32 → holders s.leases k ≤ 1
  pub unowned : IsUnowned s.cpus

-- Leases stay marked when the processors that they hold stay.
pub IsMarked-keep :
    (cpus cpus' : ℕ → CpuState) (leases : List Lease)
    → ((k : ℕ) → inside 31 1 (λ i. true) k ≡ true → 1 ≤ holders leases k → cpus' k ≡ cpus k)
    → All (IsMarked cpus) leases
    → All (IsMarked cpus') leases
IsMarked-keep cpus cpus' [] same all = tt
IsMarked-keep cpus cpus' (l ∷ leases) same all = (
  λ active k h.
      let here : l.core_mask k ≡ true = ground (arith, h) in
      let one : one_if (l.active && l.core_mask k) ≡ 1 = rw (active, here) refl in
      let e = same k (ground (arith, h)) (omega (arith, one)) in
      subst (λ c. may_return k l.owner_id c ≡ true) (sym e) (all.0 active k h),
  IsMarked-keep cpus cpus' leases (λ k h more. same k h (omega (arith, more))) all.1,
)

-- How the loop of a release ends.
record Released (leases : List Lease) (cpus : ℕ → CpuState)
    (out : Bool × List Lease × (ℕ → CpuState)) : Type 0 where
  marked : All (IsMarked out.2) out.1
  fewer : (k : ℕ) → holders out.1 k ≤ holders leases k
  frame : (k : ℕ) → holders leases k ≡ 0 → out.2 k ≡ cpus k
  unowned : IsUnowned cpus → IsUnowned out.2

returned-IsUnowned :
    (mask : ℕ → Bool) (cpus cpus' : ℕ → CpuState)
    → Changed 31 1 mask returned cpus cpus'
    → IsUnowned cpus
    → IsUnowned cpus'
returned-IsUnowned mask cpus cpus' changed idle k free = elim (Bool-cases (inside 31 1 mask k)) [
  | inl hit ↦ ap (λ (c : CpuState). c.lease_owner_id) (changed.at k hit)
  | inr miss ↦
      let e = changed.off k miss in
      ap (λ (c : CpuState). c.lease_owner_id) e
      ∙ idle k (ap (λ (c : CpuState). is_scheduling c.role) (sym e) ∙ free)
]

release_from-Released :
    (owner : ℕ) (leases : List Lease) (cpus : ℕ → CpuState)
    → All (IsMarked cpus) leases
    → ((k : ℕ) → 1 ≤ k → k < 32 → holders leases k ≤ 1)
    → (out : Bool × List Lease × (ℕ → CpuState)) × (release_from owner leases cpus ≡ some out)
      × Released leases cpus out
unfolding release_from
release_from-Released owner [] cpus all alone = (
  (false, [], cpus),
  refl,
  record { marked = tt; fewer = λ k. omega arith; frame = λ k h. refl; unowned = λ idle. idle },
)
release_from-Released owner (l ∷ leases) cpus all alone =
    let rest_alone : (k : ℕ) → 1 ≤ k → k < 32 → holders leases k ≤ 1 =
      λ k low high. omega (arith, alone k low high) in
    elim (Bool-cases (l.active && (l.owner_id == owner))) [
      | inl mine ↦
          let active : l.active ≡ true = ground (arith, mine) in
          let same : l.owner_id ≡ owner = ground (arith, mine) in
          let (cpus1, runs, changed) =
            release_marked-Changed 31 1 owner l.core_mask cpus
              (λ k h. subst (λ o. may_return k o (cpus k) ≡ true) same (all.0 active k h)) in
          let others =
            IsMarked-keep cpus cpus1 leases (λ k h held. changed.off k (off k active h held))
              all.1 in
          let (out, ends, done) = release_from-Released owner leases cpus1 others rest_alone in
          (
            (true, inactive l ∷ out.1, out.2),
            rw (mine, release_from) (rw runs (rw ends refl)),
            record {
              marked = (λ never k h. absurd (cc), done.marked);
              fewer = λ k. omega (arith, done.fewer k);
              frame = λ k h.
                  done.frame k (omega (arith, h))
                  ∙ changed.off k (unheld k active (omega (arith, h)));
              unowned =
                  λ idle. done.unowned (returned-IsUnowned l.core_mask cpus cpus1 changed idle);
            },
          )
      | inr not_mine ↦
          let (out, ends, done) = release_from-Released owner leases cpus all.1 rest_alone in
          (
            (out.0, l ∷ out.1, out.2),
            rw (not_mine, release_from) (rw ends refl),
            record {
              marked = (
                λ active k h.
                    let e = done.frame k (none_else k active h) in
                    subst (λ c. may_return k l.owner_id c ≡ true) (sym e) (all.0 active k h),
                done.marked,
              );
              fewer = λ k. omega (arith, done.fewer k);
              frame = λ k h. done.frame k (omega (arith, h));
              unowned = done.unowned;
            },
          )
    ]
  where
    unheld :
        (k : ℕ)
        → l.active ≡ true
        → one_if (l.active && l.core_mask k) ≡ 0
        → inside 31 1 l.core_mask k ≡ false
    unheld k active zero_here = elim (Bool-cases (l.core_mask k)) [
      | inl held ↦ absurd (ground (arith, active, held, zero_here))
      | inr free ↦ ground (arith, free)
    ]

    off :
        (k : ℕ)
        → l.active ≡ true
        → inside 31 1 (λ i. true) k ≡ true
        → 1 ≤ holders leases k
        → inside 31 1 l.core_mask k ≡ false
    off k active h held =
        let low : 1 ≤ k = ground (arith, h) in
        let high : k < 32 = ground (arith, h) in
        unheld k active (omega (arith, alone k low high, held))

    none_else : (k : ℕ) → l.active ≡ true → inside 31 1 l.core_mask k ≡ true → holders leases k ≡ 0
    none_else k active h =
        let here : l.core_mask k ≡ true = ground (arith, h) in
        let one : one_if (l.active && l.core_mask k) ≡ 1 = rw (active, here) refl in
        let low : 1 ≤ k = ground (arith, h) in
        let high : k < 32 = ground (arith, h) in omega (arith, alone k low high, one)

-- A release from a valid state trips no assertion and keeps the state valid.
pub core_lease_release-IsValid :
    (s : Leases) (owner : ℕ)
    → IsValid s
    → (out : Status × Leases) × (core_lease_release s owner ≡ some out) × IsValid out.1
unfolding core_lease_release
core_lease_release-IsValid s owner v =
    let (out, ends, done) = release_from-Released owner s.leases s.cpus v.marked v.alone in
    (
      (if out.0 then ok else invalid, record { leases = out.1; cpus = out.2 }),
      rw (ends, core_lease_release) refl,
      record {
        marked = done.marked;
        alone = λ k low high. omega (arith, v.alone k low high, done.fewer k);
        unowned = done.unowned v.unowned;
      },
    )
