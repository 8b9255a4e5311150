-- ===== src/Kheap/Runs.antt =====
-- kernel/mm/kheap.c: runs of allocations and releases.
use osai.Prelude.{
  ℕ, ◌+◌, ◌^◌, ◌≤◌, ◌<◌, ◌≡◌, refl, subst, arith, Bool, Option, none, some, List, [], ◌∷◌, All,
}
use osai.Kheap.{kheap_limit, header_size, Heap, kheap_init, kheap_alloc, kheap_free}
use osai.Kheap.Pairs.{Pairwise, Remove, All-map}
use osai.Kheap.Sound.{Apart, Inside, IsSound, release_block-IsSound}
use osai.Kheap.Alloc.{Outcome, refused, given, kheap_alloc-Outcome}

-- Calls with arguments of 64 bits, from a heap where callers hold some blocks, known by the addresses
-- of their headers. A caller frees only a block that is held.
pub data Runs (h₀ : Heap) : Heap → List ℕ → Type 0 where
  start : Runs h₀ h₀ []
  fails :
      {h h' : Heap} {ls : List ℕ} (maps : ℕ → ℕ → Bool) (size align : ℕ)
      → Runs h₀ h ls
      → size < 2 ^ 64
      → align ≤ 2 ^ 63
      → kheap_alloc maps size align h ≡ some (none, h')
      → Runs h₀ h' ls
  allocates :
      {h h' : Heap} {ls : List ℕ} {b : ℕ} (maps : ℕ → ℕ → Bool) (size align : ℕ)
      → Runs h₀ h ls
      → size < 2 ^ 64
      → align ≤ 2 ^ 63
      → kheap_alloc maps size align h ≡ some (some (b + header_size), h')
      → Runs h₀ h' (b ∷ ls)
  frees :
      {h : Heap} {ls rest : List ℕ} (b : ℕ)
      → Runs h₀ h ls
      → Remove b ls rest
      → Runs h₀ (kheap_free (some (b + header_size)) h) rest

pub kheap_init-IsSound : (h : Heap) → IsSound (kheap_init h) [] []
unfolding kheap_init
kheap_init-IsSound h = record {
  linked = refl;
  free_apart = tt;
  live_apart = tt;
  cross = tt;
  free_inside = tt;
  live_inside = tt;
  mapped = omega arith;
  boundary = record { low = omega arith; high = omega arith; even = refl };
  room = omega arith;
}

-- What an outcome means for a result that is known.
Outcome-none :
    {size align : ℕ} {cs ls : List ℕ} {out : Option ℕ × Heap} {h' : Heap}
    → Outcome size align cs ls out
    → out ≡ (none, h')
    → IsSound h' cs ls
Outcome-none {cs = cs} {ls = ls} (refused e s) same =
    subst (λ (o : Option ℕ × Heap). IsSound o.1 cs ls) same s
Outcome-none (given b rest e a l s) same = absurd cc

Outcome-some :
    {size align : ℕ} {cs ls : List ℕ} {out : Option ℕ × Heap} {h' : Heap} {b : ℕ}
    → Outcome size align cs ls out
    → out ≡ (some (b + header_size), h')
    → (rest : List ℕ) × IsSound h' rest (b ∷ ls)
Outcome-some (refused e s) same = absurd cc
Outcome-some {ls = ls} {out} {h'} {b} (given c rest e a l s) same =
    let equal : c ≡ b = ground (arith, e, same) in
    (
      rest,
      subst (λ x. IsSound h' rest (x ∷ ls)) equal
          (subst (λ (o : Option ℕ × Heap). IsSound o.1 rest (c ∷ ls)) same s),
    )

result : {x y : Option ℕ × Heap} {o : Option (Option ℕ × Heap)} → o ≡ some x → o ≡ some y → x ≡ y
result e f = cc

Runs-IsSound :
    (h₀ : Heap) {h : Heap} {ls : List ℕ}
    → Runs (kheap_init h₀) h ls
    → (cs : List ℕ) × IsSound h cs ls
unfolding kheap_free
Runs-IsSound h₀ start = ([], kheap_init-IsSound h₀)
Runs-IsSound h₀ (fails {h} maps size align r word power e) =
    let (cs, s) = Runs-IsSound h₀ r in
    let (out, runs, outcome) = kheap_alloc-Outcome maps size align h s word power in
    (cs, Outcome-none outcome (result runs e))
Runs-IsSound h₀ (allocates {h} maps size align r word power e) =
    let (cs, s) = Runs-IsSound h₀ r in
    let (out, runs, outcome) = kheap_alloc-Outcome maps size align h s word power in
    Outcome-some outcome (result runs e)
Runs-IsSound h₀ (frees {h} b r gone) =
    let (cs, s) = Runs-IsSound h₀ r in (b ∷ cs, release_block-IsSound b h s gone)

-- After `kheap_init` and any allocations and releases of held blocks, the blocks that callers hold,
-- with their headers, do not overlap and lie between the ends of the heap; and the next allocation
-- of 64-bit size and alignment returns.
pub Runs-kheap_alloc :
    (h₀ : Heap) {h : Heap} {ls : List ℕ} (maps : ℕ → ℕ → Bool) (size align : ℕ)
    → Runs (kheap_init h₀) h ls
    → size < 2 ^ 64
    → align ≤ 2 ^ 63
    → Pairwise (Apart h.size) ls
      × All (Inside h.size kheap_limit) ls
      × ((out : Option ℕ × Heap) × (kheap_alloc maps size align h ≡ some out))
Runs-kheap_alloc h₀ {h} {ls} maps size align r word power =
    let (cs, s) = Runs-IsSound h₀ r in
    let (out, runs, outcome) = kheap_alloc-Outcome maps size align h s word power in
    (
      s.live_apart,
      All-map (Inside h.size h.next) (Inside h.size kheap_limit) ls
          (λ a i. record { low = i.low; high = omega (arith, i.high, s.mapped, s.boundary.high) })
          s.live_inside,
      (out, runs),
    )
