-- ===== src/CoreLease/Runs.antt =====
-- kernel/runtime/core_lease.c: runs of requests.
use osai.Prelude.{
  Status, ℕ, ◌^◌, ◌≤◌, ◌<◌, ◌≡◌, refl, ◌∙◌, ap, arith, Bool, Option, none, some, List, [], ◌∷◌, All,
}
use osai.CoreLease.{
  CpuState, Lease, Leases, core_lease_init, core_lease_acquire, core_lease_release,
}
use osai.CoreLease.Exclusive.{holders, IsMarked, IsUnowned, IsValid, core_lease_release-IsValid}
use osai.CoreLease.Requests.{core_lease_acquire-IsValid}

-- A call of the lease interface.
pub data Request : Type 0 where
  acquire : ℕ → (ℕ → Bool) → Request
  give_back : ℕ → Request

-- The owner of a request is a 32-bit word.
abbrev pub IsWord : Request → Type 0
IsWord (acquire owner mask) = owner < 2 ^ 32
IsWord (give_back owner) = Unit

-- The state after a request; none when an assertion fails.
unfoldable pub serve : Leases → Request → Option Leases
unfolding core_lease_acquire core_lease_release
serve s (acquire owner mask) = elim (core_lease_acquire s owner mask) [
  | none ↦ none
  | some out ↦ some out.1
]
serve s (give_back owner) = elim (core_lease_release s owner) [
  | none ↦ none
  | some out ↦ some out.1
]

unfoldable pub run : Leases → List Request → Option Leases
unfolding serve
run s [] = some s
run s (r ∷ requests) = elim (serve s r) [ none ↦ none | some s' ↦ run s' requests ]

abbrev state_of : Option (Status × Leases) → Option Leases
state_of none = none
state_of (some out) = some out.1

serve-IsValid :
    (s : Leases) (r : Request)
    → IsValid s
    → IsWord r
    → (s' : Leases) × (serve s r ≡ some s') × IsValid s'
unfolding serve
serve-IsValid s (acquire owner mask) v word =
    let (out, ends, valid) = core_lease_acquire-IsValid s owner mask v word in
    (out.1, ap state_of ends, valid)
serve-IsValid s (give_back owner) v word =
    let (out, ends, valid) = core_lease_release-IsValid s owner v in
    (out.1, ap state_of ends, valid)

run-IsValid :
    (s : Leases) (requests : List Request)
    → IsValid s
    → All IsWord requests
    → (s' : Leases) × (run s requests ≡ some s') × IsValid s'
unfolding run
run-IsValid s [] v words = (s, refl, v)
run-IsValid s (r ∷ requests) v words =
    let (s1, serves, valid) = serve-IsValid s r v words.0 in
    let (s', runs, kept) = run-IsValid s1 requests valid words.1 in
    (
      s',
      ap (λ (o : Option Leases). elim o [ none ↦ none | some t ↦ run t requests ]) serves ∙ runs,
      kept,
    )

init-IsMarked :
    (cpus : ℕ → CpuState) (entries : List Lease) → All (IsMarked cpus) (core_lease_init entries)
unfolding core_lease_init
init-IsMarked cpus [] = tt
init-IsMarked cpus (l ∷ entries) = (λ never k h. absurd (cc), init-IsMarked cpus entries)

init-holders : (entries : List Lease) (k : ℕ) → holders (core_lease_init entries) k ≡ 0
unfolding core_lease_init
init-holders [] k = refl
init-holders (l ∷ entries) k = omega (arith, init-holders entries k)

-- From initialised leases, with no processor of the scheduler owned, any requests by owners that are
-- 32-bit words run to their end without a failed assertion, and each of the processors 1 to 31 is
-- then held by at most one active lease.
pub run-alone :
    (entries : List Lease) (cpus : ℕ → CpuState) (requests : List Request)
    → IsUnowned cpus
    → All IsWord requests
    → (s : Leases) × (run (record { leases = core_lease_init entries; cpus = cpus }) requests
        ≡ some s)
      × ((k : ℕ) → 1 ≤ k → k < 32 → holders s.leases k ≤ 1)
run-alone entries cpus requests idle words =
    let (s, runs, v) =
      run-IsValid (record { leases = core_lease_init entries; cpus = cpus }) requests
        (record {
          marked = init-IsMarked cpus entries;
          alone = λ k low high. omega (arith, init-holders entries k);
          unowned = idle;
        })
        words in
    (s, runs, v.alone)
