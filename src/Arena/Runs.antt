-- ===== src/Arena/Runs.antt =====
-- kernel/mm/arena.c: runs of calls.
use osai.Prelude.{
  Status, ℕ, zero, suc, ◌+◌, ◌<◌, ◌≡◌, refl, sym, subst, ap, arith, Bool, true, false, not, ◌||◌,
  ◌==◌, Option, none, some, List, [], ◌∷◌, ◌++◌, leb, mul64, Option-cases, Bool-cases, inl, inr,
}
use osai.Prelude.Status.{ok, invalid}
use osai.Pmm.{Pmm, alloc_page}
use osai.Kheap.{vm_page_size, Heap}
use osai.Kheap.Sound.{IsSound}
use osai.Kheap.Alloc.{Outcome, refused, given, kheap_alloc-Outcome}
use osai.Arena.{
  max_arenas, is_ready, Arena, Memory, Arenas, arena_manager_init, unmap_loop, arena_unmap_pages,
  create_loop, settle_create, create_pages, written_arena, arena_validate_create, create_checked,
  arena_create, arena_acquire, arena_release, arena_destroy, arena_record_fault,
}
use osai.Arena.Loops.{with_page, create_loop_ends, create_loop_goes_on, create_loop-Filled}
use osai.Arena.Counted.{
  Counts, total, arena_acquire-Counts, arena_record_fault-Counts, arena_release-Counts,
  arena_destroy-Counts, settle_create-Counts,
}

-- The heap is sound for some free blocks and some that are held.
pub record HasSound (h : Heap) : Type 0 where
  pub free : List ℕ
  pub held : List ℕ
  pub sound : IsSound h free held

-- The page allocator does not matter to it.
pmm-HasSound : (h : Heap) (p : Pmm) → HasSound h → HasSound (record h { pmm = p })
pmm-HasSound h p k = record {
  free = k.free;
  held = k.held;
  sound = record {
    linked = k.sound.linked;
    free_apart = k.sound.free_apart;
    live_apart = k.sound.live_apart;
    cross = k.sound.cross;
    free_inside = k.sound.free_inside;
    live_inside = k.sound.live_inside;
    mapped = k.sound.mapped;
    boundary = k.sound.boundary;
    room = k.sound.room;
  };
}

unmap_loop-HasSound :
    (k va : ℕ) (pages : List ℕ) (m : Memory)
    → HasSound m.heap
    → HasSound (unmap_loop k va pages m).heap
unfolding unmap_loop
unmap_loop-HasSound zero va pages m s = s
unmap_loop-HasSound (suc k) va [] m s = unmap_loop-HasSound k _ [] _ s
unmap_loop-HasSound (suc k) va (p ∷ pages) m s =
    unmap_loop-HasSound k _ pages _ (pmm-HasSound m.heap _ s)

create_loop-HasSound :
    (maps : ℕ → ℕ → Bool) (k va : ℕ) (pages : List ℕ) (m : Memory)
    → ((v p : ℕ) → maps v p ≡ true)
    → HasSound m.heap
    → HasSound (create_loop maps k va pages m).2.heap
unfolding create_loop
create_loop-HasSound maps zero va pages m always s = s
create_loop-HasSound maps (suc k) va pages m always s =
    let s' = pmm-HasSound m.heap (alloc_page m.heap.pmm).1 s in
    elim (Option-cases (alloc_page m.heap.pmm).0) [
      | inl no_page ↦
          subst (λ (o : Status × List ℕ × Memory). HasSound o.2.heap)
            (sym (create_loop_ends maps k va pages m no_page)) s'
      | inr (p, got) ↦
          subst (λ (o : Status × List ℕ × Memory). HasSound o.2.heap)
            (sym (create_loop_goes_on maps k va p pages m got (always va p)))
            (create_loop-HasSound maps k (va + vm_page_size) (pages ++ p ∷ []) (with_page va p m)
              always s')
    ]

settle_create-HasSound :
    (id : ℕ) (a : Arena) (s : Arenas) (out : Status × List ℕ × Memory)
    → HasSound out.2.heap
    → HasSound (settle_create id a s out).1.memory.heap
unfolding settle_create arena_unmap_pages
settle_create-HasSound id a s (ok, pages, m) k = k
settle_create-HasSound id a s (_, pages, m) k = unmap_loop-HasSound a.page_count a.base pages m k

-- Both counters are right and the heap is sound.
pub record IsCounted (s : Arenas) : Type 0 where
  pub counts : Counts s
  pub heap : HasSound s.memory.heap

create_pages-IsCounted :
    (maps : ℕ → ℕ → Bool) (id : ℕ) (a : Arena) (s : Arenas) (out : Option ℕ × Heap)
    → ((v p : ℕ) → maps v p ≡ true)
    → IsCounted s
    → HasSound out.1
    → id < max_arenas
    → is_ready (s.arenas id).state ≡ false
    → IsCounted (create_pages maps id a s out).1
unfolding create_pages
create_pages-IsCounted maps id a s (none, heap) always c k low off = record {
  counts = record {
    committed = c.counts.committed;
    active = c.counts.active;
    sized = c.counts.sized;
  };
  heap = k;
}
create_pages-IsCounted maps id a s (some array, heap) always c k low off =
    let m : Memory = record s.memory { heap = heap } in
    let out = create_loop maps a.page_count a.base [] m in
    record {
      counts =
          settle_create-Counts id a s m out c.counts low off refl
            (create_loop-Filled maps a.page_count a.base [] m always);
      heap =
          settle_create-HasSound id a s out
            (create_loop-HasSound maps a.page_count a.base [] m always k);
    }

-- What the heap is asked for keeps it sound.
Outcome-HasSound :
    {size align : ℕ} {cs ls : List ℕ} {out : Option ℕ × Heap}
    → Outcome size align cs ls out
    → HasSound out.1
Outcome-HasSound {cs = cs} {ls = ls} (refused e s) = record { free = cs; held = ls; sound = s }
Outcome-HasSound {ls = ls} (given b rest e a l s) = record { free = rest; held = b ∷ ls; sound = s }

valid_create :
    (s : Arenas) (id kind : ℕ) (name : List ℕ) (size : ℕ)
    → arena_validate_create s id kind name size ≡ ok
    → (id < max_arenas) × (is_ready (s.arenas id).state ≡ false)
unfolding arena_validate_create
valid_create s id kind name size h = (ground arith, ground arith)

create_checked-IsCounted :
    (maps : ℕ → ℕ → Bool) (id : ℕ) (a : Arena) (s : Arenas) (e : Status)
    → ((v p : ℕ) → maps v p ≡ true)
    → IsCounted s
    → (e ≡ ok → (id < max_arenas) × (is_ready (s.arenas id).state ≡ false))
    → (out : Status × Arenas) × (create_checked maps id a s e ≡ some out) × IsCounted out.1
unfolding create_checked
create_checked-IsCounted maps id a s ok always c valid =
    let (out, runs, outcome) =
      kheap_alloc-Outcome maps (mul64 8 a.page_count) 16 s.memory.heap c.heap.sound (omega arith)
        (omega arith) in
    let (low, off) = valid refl in
    (
      create_pages maps id a s out,
      ap
          (λ (r : Option (Option ℕ × Heap)). elim r [
            | none ↦ none
            | some o ↦ some (create_pages maps id a s o)
          ])
          runs,
      create_pages-IsCounted maps id a s out always c (Outcome-HasSound outcome) low off,
    )
create_checked-IsCounted maps id a s _ always c valid = ((invalid, s), refl, c)

arena_destroy-HasSound :
    (id : ℕ) (s : Arenas) → HasSound s.memory.heap → HasSound (arena_destroy id s).1.memory.heap
unfolding arena_destroy arena_unmap_pages
arena_destroy-HasSound id s k =
    let a = s.arenas id in
    elim (Bool-cases (leb max_arenas id || not (is_ready a.state) || not (a.ref_count == 0))) [
      | inl unusable ↦ rw unusable k
      | inr fine ↦ rw fine (unmap_loop-HasSound a.page_count a.base a.pages s.memory k)
    ]

-- A call of the arena interface.
pub data Call : Type 0 where
  create : ℕ → ℕ → ℕ → List ℕ → ℕ → ℕ → Call
  acquire release destroy record_fault : ℕ → Call

-- The state after a call; none if it does not return.
unfoldable pub serve : (ℕ → ℕ → Bool) → Call → Arenas → Option Arenas
unfolding arena_create arena_acquire arena_release arena_destroy arena_record_fault
serve maps (create id kind owner name size flags) s =
    elim (arena_create maps id kind owner name size flags s) [ none ↦ none | some out ↦ some out.1 ]
serve maps (acquire id) s = some (arena_acquire id s).1
serve maps (release id) s = some (arena_release id s).1
serve maps (destroy id) s = some (arena_destroy id s).1
serve maps (record_fault id) s = some (arena_record_fault id s).1

unfoldable pub run : (ℕ → ℕ → Bool) → List Call → Arenas → Option Arenas
unfolding serve
run maps [] s = some s
run maps (c ∷ calls) s = elim (serve maps c s) [ none ↦ none | some s' ↦ run maps calls s' ]

module _ (maps : ℕ → ℕ → Bool) (always : (v p : ℕ) → maps v p ≡ true) where
  serve-IsCounted :
      (c : Call) (s : Arenas)
      → IsCounted s
      → (s' : Arenas) × (serve maps c s ≡ some s') × IsCounted s'
  unfolding serve
  serve-IsCounted (create id kind owner name size flags) s c =
      let (out, runs, c') =
        create_checked-IsCounted maps id (written_arena (s.arenas id) id kind owner name size flags)
          s (arena_validate_create s id kind name size) always c
          (valid_create s id kind name size) in
      (
        out.1,
        ap (λ (r : Option (Status × Arenas)). elim r [ none ↦ none | some o ↦ some o.1 ]) runs,
        c',
      )
  serve-IsCounted (acquire id) s c = (
    _,
    refl,
    record { counts = arena_acquire-Counts id s c.counts; heap = ground (arith, c.heap) },
  )
  serve-IsCounted (release id) s c = (
    _,
    refl,
    record { counts = arena_release-Counts id s c.counts; heap = ground (arith, c.heap) },
  )
  serve-IsCounted (destroy id) s c = (
    _,
    refl,
    record {
      counts = arena_destroy-Counts id s c.counts;
      heap = arena_destroy-HasSound id s c.heap;
    },
  )
  serve-IsCounted (record_fault id) s c = (
    _,
    refl,
    record { counts = arena_record_fault-Counts id s c.counts; heap = ground (arith, c.heap) },
  )

  run-IsCounted_from :
      (calls : List Call) (s : Arenas)
      → IsCounted s
      → (s' : Arenas) × (run maps calls s ≡ some s') × IsCounted s'
  unfolding run
  run-IsCounted_from [] s c = (s, refl, c)
  run-IsCounted_from (call ∷ calls) s c =
      let (t, serves, c') = serve-IsCounted call s c in
      let (s', runs, c'') = run-IsCounted_from calls t c' in (s', rw (serves, run) runs, c'')

init-IsCounted : (s : Arenas) → HasSound s.memory.heap → IsCounted (arena_manager_init s)
unfolding arena_manager_init total
init-IsCounted s k = record {
  counts = record { committed = refl; active = refl; sized = λ i e. absurd cc };
  heap = k;
}

-- After `arena_manager_init` on a sound heap, with a page table that takes every page, any calls
-- return. Then, modulo 2^64, the count of committed pages is the sum of the page counts of the ready
-- arenas and the count of active arenas is their number, each of them has all its pages, and the
-- heap is sound; failed creations included.
pub run-IsCounted :
    (maps : ℕ → ℕ → Bool) (calls : List Call) (s : Arenas)
    → ((v p : ℕ) → maps v p ≡ true)
    → HasSound s.memory.heap
    → (s' : Arenas) × (run maps calls (arena_manager_init s) ≡ some s') × IsCounted s'
run-IsCounted maps calls s always k =
    run-IsCounted_from maps always calls (arena_manager_init s) (init-IsCounted s k)
