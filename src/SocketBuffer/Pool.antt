-- ===== src/SocketBuffer/Pool.antt =====
-- The pool of socket buffers: which slots `sockbuf_alloc` hands out, and what `sockbuf_free` gives
-- back.
use osai.Prelude.{
  ℕ, zero, suc, ◌+◌, ◌≡◌, refl, ap, sym, ◌∙◌, ◌≢◌, Bool, true, false, Option, none, some, [], ◌∷◌,
  arith, get_elem?, Bool-cases, inl, inr, if◌then◌else◌,
}
use mathlib.Core.Option
use osai.SocketBuffer.{PoolEntry, BufferPool, reset_entry, alloc_from, alloc, free_at, free}

-- How many slots are not in use.
abbrev pub free_slots : BufferPool → ℕ
free_slots [] = 0
free_slots (e ∷ pool) = (if e.in_use then 0 else 1) + free_slots pool

abbrev pub in_use_at : BufferPool → ℕ → Option Bool
in_use_at pool k = Option.map (λ (e : PoolEntry). e.in_use) (get_elem? pool k)

-- Whichever way the scan of an allocation ends, from entry `i` on.
data Allocated (i : ℕ) (pool : BufferPool) (out : Option ℕ × BufferPool) : Type 0 where
  exhausted : out ≡ (none, pool) → free_slots pool ≡ 0 → Allocated i pool out
  granted :
      (k p : ℕ)
      → out.0 ≡ some p
      → p ≡ i + k
      → in_use_at pool k ≡ some false
      → in_use_at out.1 k ≡ some true
      → ((j : ℕ) → j ≢ k → get_elem? out.1 j ≡ get_elem? pool j)
      → free_slots pool ≡ suc (free_slots out.1)
      → Allocated i pool out

Allocated-cons :
    (i : ℕ) (e : PoolEntry) (pool : BufferPool) (out : Option ℕ × BufferPool)
    → e.in_use ≡ true
    → Allocated (suc i) pool out
    → Allocated i (e ∷ pool) (out.0, e ∷ out.1)
Allocated-cons i e pool out taken (exhausted same full) =
    exhausted (ground arith) (rw taken (omega (arith, full)))
Allocated-cons i e pool out taken (granted k p found at was now others fewer) =
    granted (suc k) p found (omega arith) was now keeps (rw taken (omega (arith, fewer)))
  where
    keeps : (j : ℕ) → j ≢ suc k → get_elem? (e ∷ out.1) j ≡ get_elem? (e ∷ pool) j
    keeps zero ne = refl
    keeps (suc j) ne = others j (λ h. ne (ap suc h))

alloc_from-Allocated : (i : ℕ) (pool : BufferPool) → Allocated i pool (alloc_from i pool)
unfolding alloc_from reset_entry
alloc_from-Allocated i [] = exhausted refl refl
alloc_from-Allocated i (e ∷ pool) = elim (Bool-cases e.in_use) [
  | inl taken ↦
      simp taken (
        Allocated-cons i e pool (alloc_from (suc i) pool) taken (alloc_from-Allocated (suc i) pool))
  | inr idle ↦ simp idle (
      granted 0 i refl (omega arith) (ap some idle) refl
        (elim [ zero ↦ λ ne. absurd (ne refl) | suc j ↦ λ ne. refl ]) (rw idle (omega arith)))
]

-- What the caller of `sockbuf_alloc` learns: either no slot was free and the pool is unchanged, or
-- the slot returned was not in use and now is, no other slot changed, and one slot fewer is free.
pub data AllocReport (pool : BufferPool) (out : Option ℕ × BufferPool) : Type 0 where
  all_taken : out ≡ (none, pool) → free_slots pool ≡ 0 → AllocReport pool out
  took :
      (k : ℕ)
      → out.0 ≡ some k
      → in_use_at pool k ≡ some false
      → in_use_at out.1 k ≡ some true
      → ((j : ℕ) → j ≢ k → get_elem? out.1 j ≡ get_elem? pool j)
      → free_slots pool ≡ suc (free_slots out.1)
      → AllocReport pool out

report :
    {pool : BufferPool} {out : Option ℕ × BufferPool} → Allocated 0 pool out → AllocReport pool out
report (exhausted same full) = all_taken same full
report (granted k p found at was now others fewer) =
    took k (found ∙ ap some (omega arith)) was now others fewer

-- `sockbuf_alloc` returns null exactly when every slot is in use, and then leaves the pool as it
-- was; otherwise the slot that it returns was not in use and now is, every other slot is
-- unchanged, and one slot fewer is free.
pub alloc-AllocReport : (pool : BufferPool) → AllocReport pool (alloc pool)
unfolding alloc
alloc-AllocReport pool = report (alloc_from-Allocated 0 pool)

free_at-slots :
    (pool : BufferPool) (k : ℕ)
    → in_use_at pool k ≡ some true
    → free_slots (free_at pool k) ≡ suc (free_slots pool)
unfolding free_at reset_entry
free_at-slots [] k h = cc
free_at-slots (e ∷ pool) zero h = ground arith
free_at-slots (e ∷ pool) (suc k) h = omega (arith, free_at-slots pool k h)

-- A slot that an allocation returned and that is then freed adds one to the free slots again: the
-- number of free slots is what it was before the allocation.
pub free-alloc :
    (pool : BufferPool) (k : ℕ)
    → (alloc pool).0 ≡ some k
    → free_slots (free (alloc pool).1 (some k)) ≡ free_slots pool
unfolding free
free-alloc pool k h = given (alloc-AllocReport pool)
  where
    given :
        AllocReport pool (alloc pool) → free_slots (free (alloc pool).1 (some k)) ≡ free_slots pool
    given (all_taken same full) = cc
    given (took p found was now others fewer) =
        let same : p ≡ k = ground arith in
        free_at-slots (alloc pool).1 k (rw same at now) ∙ sym fewer
