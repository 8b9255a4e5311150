-- ===== src/Arp/Lru.antt =====
-- The eviction loop of `arp_cache_insert`: the entry it chooses is in the table, and no active entry
-- was used less recently.
use osai.Prelude.{
  ℕ, ◌+◌, ◌-◌, ◌^◌, ◌≤◌, ◌<◌, ◌≡◌, ◌≢◌, refl, arith, true, ◌&&◌, none, some, List, [], ◌∷◌, length,
  ltb, Bool-cases, inl, inr,
}
use osai.Arp.{ArpEntry, lru_loop}

-- Every entry is active, and was used at a time that the clock can give.
pub data AllUsed : List ArpEntry → Type 0 where
  empty : AllUsed []
  used :
      (e : ArpEntry)
      → {cache : List ArpEntry} → e.active ≡ true
      → e.last_use_ns < 2 ^ 64 - 1
      → AllUsed cache
      → AllUsed (e ∷ cache)

-- From a position before `i`, the loop over the entries at `i` and after ends at a position.
lru_loop-some :
    (cache : List ArpEntry) (i oldest s n : ℕ)
    → s < n
    → i + length cache ≤ n
    → (j : ℕ) × (lru_loop cache i oldest (some s) ≡ some j) × (j < n)
unfolding lru_loop
lru_loop-some [] i oldest s n inside fits = (s, refl, inside)
lru_loop-some (e ∷ cache) i oldest s n inside fits =
    elim (Bool-cases (e.active && ltb e.last_use_ns oldest)) [
      | inl move ↦
          let (j, runs, bound) =
            lru_loop-some cache (i + 1) e.last_use_ns i n (omega (arith, fits)) (omega arith) in
          (j, rw move runs, bound)
      | inr stay ↦
          let (j, runs, bound) = lru_loop-some cache (i + 1) oldest s n inside (omega arith) in
          (j, rw stay runs, bound)
    ]

-- The loop of the source finds a position of the table.
pub lru_loop-AllUsed :
    (cache : List ArpEntry)
    → AllUsed cache
    → cache ≢ []
    → (j : ℕ) × (lru_loop cache 0 (2 ^ 64 - 1) none ≡ some j) × (j < length cache)
unfolding lru_loop
lru_loop-AllUsed [] u filled = elim (filled refl) [ ]
lru_loop-AllUsed (e ∷ cache) (used e' active before u) filled =
    let (j, runs, bound) =
      lru_loop-some cache 1 e.last_use_ns 0 (length (e ∷ cache)) (omega arith) (omega arith) in
    (j, rw (first, runs) refl, bound)
  where
    first : (e.active && ltb e.last_use_ns (2 ^ 64 - 1)) ≡ true
    first = ground (arith, active, before)
