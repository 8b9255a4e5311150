-- ===== src/Arena/Loops.antt =====
-- kernel/mm/arena.c: how many pages the loops commit and give back.
use osai.Prelude.{
  Status, ℕ, zero, suc, ◌+◌, ◌%◌, ◌^◌, ◌≤◌, ◌≡◌, refl, sym, subst, arith, Bool, true, none, some,
  List, [], ◌∷◌, ◌++◌, length, length-append, Option-cases, inl, inr, update, add64, sub64,
}
use osai.Prelude.Status.{ok, no_memory}
use osai.Pmm.{alloc_page, pmm_free_page}
use osai.Kheap.{vm_page_size}
use osai.Arena.{Memory, unmap_loop, create_loop}

-- Each page of an arena that is unmapped is one page less.
pub unmap_loop-committed :
    (k va : ℕ) (pages : List ℕ) (m : Memory)
    → length pages ≤ k
    → ((unmap_loop k va pages m).committed + length pages) % 2 ^ 64 ≡ m.committed % 2 ^ 64
unfolding unmap_loop
unmap_loop-committed zero va [] m h = omega arith
unmap_loop-committed zero va (p ∷ pages) m h = absurd (omega arith)
unmap_loop-committed (suc k) va [] m h =
    unmap_loop-committed k (va + vm_page_size) [] (record m { table = update m.table va none })
      (omega arith)
unmap_loop-committed (suc k) va (p ∷ pages) m h = omega (
  arith,
  unmap_loop-committed k (va + vm_page_size) pages
      (record m {
        heap = record m.heap { pmm = pmm_free_page m.heap.pmm (some p) };
        table = update m.table va none;
        committed = sub64 m.committed 1;
      })
      (omega (arith, h)),
)

-- What the loop of a creation has done.
pub record Filled (k : ℕ) (pages : List ℕ) (m : Memory) (out : Status × List ℕ × Memory)
    : Type 0 where
  pub counted : (out.2.committed + length pages) % 2 ^ 64 ≡ (m.committed + length out.1) % 2 ^ 64
  pub least : length pages ≤ length out.1
  pub most : length out.1 ≤ length pages + k
  pub full : out.0 ≡ ok → length out.1 ≡ length pages + k

-- The memory with a page more at an address.
abbrev pub with_page : ℕ → ℕ → Memory → Memory
with_page va p m = record m {
  heap = record m.heap { pmm = (alloc_page m.heap.pmm).1 };
  table = update m.table va (some p);
  committed = add64 m.committed 1;
}

module _ (maps : ℕ → ℕ → Bool) (k va : ℕ) where
  pub create_loop_ends :
      (pages : List ℕ) (m : Memory)
      → (alloc_page m.heap.pmm).0 ≡ none
      → create_loop maps (suc k) va pages m
        ≡ (no_memory, pages, record m { heap = record m.heap { pmm = (alloc_page m.heap.pmm).1 } })
  unfolding create_loop
  create_loop_ends pages m no_page = rw (no_page, create_loop) refl

  pub create_loop_goes_on :
      (p : ℕ) (pages : List ℕ) (m : Memory)
      → (alloc_page m.heap.pmm).0 ≡ some p
      → maps va p ≡ true
      → create_loop maps (suc k) va pages m
        ≡ create_loop maps k (va + vm_page_size) (pages ++ p ∷ []) (with_page va p m)
  unfolding create_loop
  create_loop_goes_on p pages m got mapped = rw (got, mapped, create_loop) refl

pub create_loop-Filled :
    (maps : ℕ → ℕ → Bool) (k va : ℕ) (pages : List ℕ) (m : Memory)
    → ((v p : ℕ) → maps v p ≡ true)
    → Filled k pages m (create_loop maps k va pages m)
unfolding create_loop
create_loop-Filled maps zero va pages m always = record {
  counted = omega arith;
  least = omega arith;
  most = omega arith;
  full = λ e. omega arith;
}
create_loop-Filled maps (suc k) va pages m always = elim (Option-cases (alloc_page m.heap.pmm).0) [
  | inl no_page ↦
      subst (Filled (suc k) pages m) (sym (create_loop_ends maps k va pages m no_page)) (record {
        counted = omega arith;
        least = omega arith;
        most = omega arith;
        full = λ e. absurd cc;
      })
  | inr (p, got) ↦
      let k' =
        create_loop-Filled maps k (va + vm_page_size) (pages ++ p ∷ []) (with_page va p m) always in
      let longer = length-append pages (p ∷ []) in
      subst (Filled (suc k) pages m)
        (sym (create_loop_goes_on maps k va p pages m got (always va p)))
        (record {
          counted = omega (arith, k'.counted, longer);
          least = omega (arith, k'.least, longer);
          most = omega (arith, k'.most, longer);
          full = λ e. omega (arith, k'.full e, longer);
        })
]
