-- ===== src/Kheap.antt =====
-- kernel/mm/kheap.c: the kernel heap. A header is known by its address; `size` and `next_free` are
-- the two fields of the headers in memory, and 0 is the null pointer. Pages come from Pmm; whether
-- vmm_map_page maps a page at an address is an argument. The lock makes a call one step.
pub mod Chain
pub mod Scan
pub mod Mapped
pub mod Pairs
pub mod Sound
pub mod Alloc
pub mod Runs
pub mod Lost
mod Tests
use osai.Prelude.{
  Status, ℕ, zero, suc, ◌+◌, ◌-◌, ◌*◌, ◌/◌, ◌%◌, ◌^◌, Bool, true, false, not, ◌&&◌, ◌||◌, Option,
  none, some, bit_and, ltb, leb, ◌==◌, if◌then◌else◌, add64, update,
}
use osai.Prelude.Status.{ok, invalid, no_memory}
use osai.Pmm.{Pmm, alloc_page, pmm_free_page}

abbrev pub vm_page_size : ℕ
vm_page_size = 4096

-- KHEAP_BASE
abbrev pub kheap_base : ℕ
kheap_base = 0x4a000000

-- KHEAP_LIMIT
abbrev pub kheap_limit : ℕ
kheap_limit = 0x4b000000

-- KHEAP_HEADER_SIZE
abbrev pub header_size : ℕ
header_size = 16

-- The variables of the file and the headers, with the page allocator.
pub record Heap : Type 0 where
  pub next : ℕ
  pub mapped_end : ℕ
  pub pages : ℕ
  pub bytes_allocated : ℕ
  pub free_list : ℕ
  pub size : ℕ → ℕ
  pub next_free : ℕ → ℕ
  pub pmm : Pmm

-- `align_up` for a power of two: `x & ~(align - 1)` is the multiple of align below x.
abbrev pub align_up : ℕ → ℕ → ℕ
align_up value align = (value + align - 1) % 2 ^ 64 / align * align

-- `kheap_init`
unfoldable pub kheap_init : Heap → Heap
kheap_init h = record h {
  next = kheap_base;
  mapped_end = kheap_base;
  pages = 0;
  bytes_allocated = 0;
  free_list = 0;
}

-- The loop of `ensure_mapped`: the status, `mapped` at the end and the heap; none if the fuel is out.
unfoldable pub map_loop : (ℕ → ℕ → Bool) → ℕ → ℕ → ℕ → Heap → Option (Status × ℕ × Heap)
map_loop maps zero mapped end h = none
map_loop maps (suc fuel) mapped end h =
    let (page, pmm) = alloc_page h.pmm in
    let h' = record h { pmm = pmm } in
    if leb end mapped then some (ok, mapped, h) else elim page [
      | none ↦ some (no_memory, mapped, h')
      | some p ↦ elim (maps mapped p) [
        | false ↦ some (invalid, mapped, record h { pmm = pmm_free_page pmm (some p) })
        | true ↦
            map_loop maps fuel (mapped + vm_page_size) end
              (record h { pmm = pmm; pages = add64 h.pages 1 })
      ]
    ]

-- "g_heap_mapped_end = mapped", if no page was missing.
unfoldable pub settle_mapping : Status × ℕ × Heap → Status × Heap
settle_mapping (ok, mapped, h) = (ok, record h { mapped_end = mapped })
settle_mapping (e, mapped, h) = (e, h)

-- `ensure_mapped`; the heap has 4096 pages: that many rounds, and the last test.
unfoldable pub ensure_mapped : (ℕ → ℕ → Bool) → ℕ → Heap → Option (Status × Heap)
unfolding map_loop settle_mapping
ensure_mapped maps end h = elim (map_loop maps 4097 h.mapped_end end h) [
  | none ↦ none
  | some out ↦ some (settle_mapping out)
]

-- What `prev` points to: the head of the list, or the field of a header.
pub data Link : Type 0 where
  head : Link
  next_of : ℕ → Link

-- `*prev = p`
unfoldable pub write_link : Link → ℕ → Heap → Heap
write_link head p h = record h { free_list = p }
write_link (next_of c) p h = record h { next_free = update h.next_free c p }

-- `best` and `best_prev`.
abbrev pub Best : Type 0
Best = Option (ℕ × Link)

-- "best == 0 || cur->size < best->size"
abbrev pub is_better : Heap → ℕ → Best → Bool
is_better h cur none = true
is_better h cur (some (b, l)) = ltb (h.size cur) (h.size b)

-- "cur->size >= size"
abbrev pub is_large : Heap → ℕ → ℕ → Bool
is_large h size cur = leb size (h.size cur)

-- "(data_addr & (align - 1)) != 0" for a power of two.
abbrev pub is_misaligned : ℕ → ℕ → Bool
is_misaligned align cur = not ((cur + header_size) % align == 0)

-- The search of `kheap_alloc` for a best fit; none if the fuel is out. `continue` skips the
-- statement `prev = &cur->next_free` as well.
unfoldable pub scan : ℕ → ℕ → ℕ → ℕ → Link → Best → Heap → Option Best
scan zero size align cur prev best h = none
scan (suc fuel) size align cur prev best h =
    let next = h.next_free cur in
    let skip = scan fuel size align next prev best h in
    let take = scan fuel size align next (next_of cur) (some (cur, prev)) h in
    let pass = scan fuel size align next (next_of cur) best h in
    if cur == 0
    then some best
    else if is_large h size cur
    then (if is_misaligned align cur then skip else if is_better h cur best then take else pass)
    else pass

-- "Remove from free list"
unfoldable pub reuse : ℕ → ℕ → Link → Heap → Option ℕ × Heap
unfolding write_link
reuse size b l h =
    let h' = write_link l (h.next_free b) h in
    (
      some (b + header_size),
      record h' {
        next_free = update h'.next_free b 0;
        bytes_allocated = add64 h.bytes_allocated size;
      },
    )

-- "Write header", and the statements after it.
unfoldable pub write_header : ℕ → ℕ → Heap → Option ℕ × Heap
write_header size data_start h =
    let header_addr = data_start - header_size in
    (
      some data_start,
      record h {
        size = update h.size header_addr size;
        next_free = update h.next_free header_addr 0;
        next = data_start + size;
        bytes_allocated = add64 h.bytes_allocated size;
      },
    )

-- What follows `ensure_mapped` in `kheap_alloc`.
unfoldable pub finish_bump : ℕ → ℕ → Status × Heap → Option ℕ × Heap
unfolding write_header
finish_bump size data_start (ok, h) = write_header size data_start h
finish_bump size data_start (e, h) = (none, h)

-- "Bump allocate from heap".
unfoldable pub bump : (ℕ → ℕ → Bool) → ℕ → ℕ → Heap → Option (Option ℕ × Heap)
unfolding ensure_mapped finish_bump
bump maps size align h =
    let data_start = align_up (h.next + header_size) align in
    let end = add64 data_start size in
    if ltb end data_start || ltb kheap_limit end
    then some (none, h)
    else elim (ensure_mapped maps (align_up end vm_page_size) h) [
      | none ↦ none
      | some out ↦ some (finish_bump size data_start out)
    ]

-- Fuel for the search: as many headers as the heap has room for, and one.
abbrev pub max_blocks : ℕ
max_blocks = 1048577

-- A block that was found is used again, else a new one is made.
unfoldable pub use_best : (ℕ → ℕ → Bool) → ℕ → ℕ → Heap → Best → Option (Option ℕ × Heap)
unfolding reuse bump
use_best maps size align h none = bump maps size align h
use_best maps size align h (some (b, l)) = some (reuse size b l h)

-- `kheap_alloc` after its checks of the arguments, with `align` raised to the size of a header.
unfoldable pub alloc_block : (ℕ → ℕ → Bool) → ℕ → ℕ → Heap → Option (Option ℕ × Heap)
unfolding scan use_best
alloc_block maps size align h = elim (scan max_blocks size align h.free_list head none h) [
  | none ↦ none
  | some best ↦ use_best maps size align h best
]

-- `kheap_alloc`
unfoldable pub kheap_alloc : (ℕ → ℕ → Bool) → ℕ → ℕ → Heap → Option (Option ℕ × Heap)
unfolding alloc_block
kheap_alloc maps size align h =
    if size == 0 || align == 0 || not (bit_and align (align - 1) == 0)
    then some (none, h)
    else alloc_block maps size (if ltb align header_size then header_size else align) h

-- `kheap_free` of a pointer that is not null.
unfoldable pub release_block : ℕ → Heap → Heap
release_block ptr h =
    let hdr = ptr - header_size in
    record h {
      next_free = update h.next_free hdr h.free_list;
      free_list = hdr;
      bytes_allocated =
          if leb (h.size hdr) h.bytes_allocated
          then h.bytes_allocated - h.size hdr
          else h.bytes_allocated;
    }

-- `kheap_free`; none is a null pointer.
unfoldable pub kheap_free : Option ℕ → Heap → Heap
unfolding release_block
kheap_free none h = h
kheap_free (some ptr) h = release_block ptr h
