-- ===== src/Arena.antt =====
-- kernel/mm/arena.c: arenas of mapped pages. The array of pages comes from Kheap, and `pages` lists
-- the entries that are not null, which are filled in order; the pages come from Pmm. `table` is what
-- the page table maps in the range of the arenas, and whether vmm_map_page succeeds is an argument;
-- vmm_unmap_page does not fail at the start of a page.
pub mod Loops
pub mod Counted
pub mod Runs
mod Tests
use osai.Prelude.{
  Status, ℕ, zero, suc, ◌+◌, ◌-◌, ◌*◌, ◌/◌, ◌^◌, Bool, true, false, not, ◌&&◌, ◌||◌, Option, none,
  some, List, [], ◌∷◌, ◌++◌, length, take, ltb, leb, ◌==◌, if◌then◌else◌, update, add32, add64,
  sub64, mul64, bit_or,
}
use osai.Prelude.Status.{ok, invalid, no_memory}
use osai.Pmm.{alloc_page, pmm_free_page}
use osai.Kheap.{vm_page_size, align_up, Heap, kheap_alloc}

-- MAX_ARENAS
abbrev pub max_arenas : ℕ
max_arenas = 32

-- ARENA_VA_BASE
abbrev pub arena_va_base : ℕ
arena_va_base = 0x4c000000

-- ARENA_VA_STRIDE
abbrev pub arena_va_stride : ℕ
arena_va_stride = 0x200000

-- ARENA_VA_LIMIT
abbrev pub arena_va_limit : ℕ
arena_va_limit = 0x50000000

-- `xaios_arena_state_t`
pub data ArenaState : Type 0 where
  empty ready destroyed : ArenaState

abbrev pub is_ready : ArenaState → Bool
is_ready ready = true
is_ready _ = false

-- `xaios_arena_t`; the arena's id is its index.
pub record Arena : Type 0 where
  pub kind : ℕ
  pub state : ArenaState
  pub owner_id : ℕ
  pub name : List ℕ
  pub base : ℕ
  pub size : ℕ
  pub page_count : ℕ
  pub flags : ℕ
  pub ref_count : ℕ
  pub fault_count : ℕ
  pub pages : List ℕ

-- What the loops over pages change: the heap with the page allocator, the page table, and
-- `g_committed_pages`.
pub record Memory : Type 0 where
  pub heap : Heap
  pub table : ℕ → Option ℕ
  pub committed : ℕ

-- `g_arenas` and `g_active_count`, with the memory.
pub record Arenas : Type 0 where
  pub arenas : ℕ → Arena
  pub active_count : ℕ
  pub memory : Memory

-- The arena of `arena_manager_init`.
abbrev pub no_arena : Arena
no_arena = record {
  kind = 0;
  state = empty;
  owner_id = 0;
  name = [];
  base = 0;
  size = 0;
  page_count = 0;
  flags = 0;
  ref_count = 0;
  fault_count = 0;
  pages = [];
}

-- `arena_manager_init`
unfoldable pub arena_manager_init : Arenas → Arenas
arena_manager_init s = record s {
  arenas = λ i. no_arena;
  active_count = 0;
  memory = record s.memory { committed = 0 };
}

-- The start of an arena's range of addresses.
abbrev pub va_of : ℕ → ℕ
va_of id = arena_va_base + id * arena_va_stride

-- `arena_validate_create`
unfoldable pub arena_validate_create : Arenas → ℕ → ℕ → List ℕ → ℕ → Status
arena_validate_create s id kind name size =
    if leb max_arenas id
      || kind == 0
      || length name == 0
      || size == 0
      || is_ready (s.arenas id).state
    then invalid
    else if ltb arena_va_limit (add64 (va_of id) (align_up size vm_page_size))
    then no_memory
    else ok

-- The loop of `arena_unmap_pages` over `k` pages from the address `va`.
unfoldable pub unmap_loop : ℕ → ℕ → List ℕ → Memory → Memory
unmap_loop zero va pages m = m
unmap_loop (suc k) va [] m =
    unmap_loop k (va + vm_page_size) [] (record m { table = update m.table va none })
unmap_loop (suc k) va (p ∷ pages) m = unmap_loop k (va + vm_page_size) pages (record m {
  heap = record m.heap { pmm = pmm_free_page m.heap.pmm (some p) };
  table = update m.table va none;
  committed = sub64 m.committed 1;
})

-- `arena_unmap_pages`
unfoldable pub arena_unmap_pages : Arena → Memory → Memory
unfolding unmap_loop
arena_unmap_pages a m = unmap_loop a.page_count a.base a.pages m

-- The loop of `arena_create` over `k` pages from the address `va`, with the pages so far.
unfoldable pub create_loop : (ℕ → ℕ → Bool) → ℕ → ℕ → List ℕ → Memory → Status × List ℕ × Memory
create_loop maps zero va pages m = (ok, pages, m)
create_loop maps (suc k) va pages m =
    let (page, pmm) = alloc_page m.heap.pmm in
    let m' = record m { heap = record m.heap { pmm = pmm } } in
    elim page [
      | none ↦ (no_memory, pages, m')
      | some p ↦ elim (maps va p) [
        | false ↦ (invalid, pages ++ p ∷ [], m')
        | true ↦
            create_loop maps k (va + vm_page_size) (pages ++ p ∷ [])
              (record m' { table = update m.table va (some p); committed = add64 m.committed 1 })
      ]
    ]

-- `copy_name`, with XAIOS_ARENA_NAME_MAX.
abbrev pub copy_name : List ℕ → List ℕ
copy_name name = take 31 name

-- The fields that `arena_create` writes before the loop; the state stays.
abbrev pub written_arena : Arena → ℕ → ℕ → ℕ → List ℕ → ℕ → ℕ → Arena
written_arena a id kind owner name size flags = record a {
  kind = kind;
  owner_id = owner;
  name = copy_name name;
  base = va_of id;
  size = size;
  page_count = align_up size vm_page_size / vm_page_size;
  flags = bit_or flags 4;
  ref_count = 0;
  fault_count = 0;
  pages = [];
}

-- The end of `arena_create`, after its loop.
unfoldable pub settle_create : ℕ → Arena → Arenas → Status × List ℕ × Memory → Status × Arenas
unfolding arena_unmap_pages
settle_create id a s (ok, pages, m) = (
  ok,
  record s {
    arenas = update s.arenas id (record a { state = ready; pages = pages });
    active_count = add64 s.active_count 1;
    memory = m;
  },
)
settle_create id a s (e, pages, m) = (
  e,
  record s {
    arenas = update s.arenas id (record a { state = empty; pages = [] });
    memory = arena_unmap_pages (record a { pages = pages }) m;
  },
)

-- `arena_create` after the array of pages is allocated, with the heap then.
unfoldable pub create_pages :
    (ℕ → ℕ → Bool) → ℕ → Arena → Arenas → Option ℕ × Heap → Status × Arenas
unfolding create_loop settle_create
create_pages maps id a s (none, heap) =
    (no_memory, record s { memory = record s.memory { heap = heap } })
create_pages maps id a s (some array, heap) =
    settle_create id a s (create_loop maps a.page_count a.base [] (record s.memory { heap = heap }))

-- `arena_create` after its check; none if the heap's search runs out of fuel.
unfoldable pub create_checked :
    (ℕ → ℕ → Bool) → ℕ → Arena → Arenas → Status → Option (Status × Arenas)
unfolding create_pages
create_checked maps id a s ok = elim (kheap_alloc maps (mul64 8 a.page_count) 16 s.memory.heap) [
  | none ↦ none
  | some out ↦ some (create_pages maps id a s out)
]
create_checked maps id a s e = some (invalid, s)

-- `arena_create`
unfoldable pub arena_create :
    (ℕ → ℕ → Bool) → ℕ → ℕ → ℕ → List ℕ → ℕ → ℕ → Arenas → Option (Status × Arenas)
unfolding arena_validate_create create_checked
arena_create maps id kind owner name size flags s =
    create_checked maps id (written_arena (s.arenas id) id kind owner name size flags) s
      (arena_validate_create s id kind name size)

-- "arena_id >= MAX_ARENAS || g_arenas[arena_id].state != XAIOS_ARENA_READY"
abbrev pub is_unusable : ℕ → Arenas → Bool
is_unusable id s = leb max_arenas id || not (is_ready (s.arenas id).state)

abbrev pub set_arena : ℕ → Arena → Arenas → Arenas
set_arena id a s = record s { arenas = update s.arenas id a }

-- `arena_acquire`
unfoldable pub arena_acquire : ℕ → Arenas → Status × Arenas
arena_acquire id s =
    let a = s.arenas id in
    if is_unusable id s
    then (invalid, s)
    else (ok, set_arena id (record a { ref_count = add32 a.ref_count 1 }) s)

-- `arena_release`
unfoldable pub arena_release : ℕ → Arenas → Status × Arenas
arena_release id s =
    let a = s.arenas id in
    if is_unusable id s || a.ref_count == 0
    then (invalid, s)
    else (ok, set_arena id (record a { ref_count = a.ref_count - 1 }) s)

-- The arena that `arena_destroy` leaves.
abbrev pub destroyed_arena : Arena → Arena
destroyed_arena a = record a {
  state = destroyed;
  base = 0;
  size = 0;
  page_count = 0;
  flags = 0;
  pages = [];
}

-- `arena_destroy`
unfoldable pub arena_destroy : ℕ → Arenas → Status × Arenas
unfolding arena_unmap_pages
arena_destroy id s =
    let a = s.arenas id in
    if is_unusable id s || not (a.ref_count == 0) then (invalid, s) else (
      ok,
      record s {
        arenas = update s.arenas id (destroyed_arena a);
        active_count = sub64 s.active_count 1;
        memory = arena_unmap_pages a s.memory;
      },
    )

-- `arena_record_fault`
unfoldable pub arena_record_fault : ℕ → Arenas → Status × Arenas
arena_record_fault id s =
    let a = s.arenas id in
    if is_unusable id s
    then (invalid, s)
    else (ok, set_arena id (record a { fault_count = add64 a.fault_count 1 }) s)
