-- ===== src/Numa.antt =====
-- kernel/mm/numa.c: the physical pages of each memory node, one bit a page. The bitmap's words are
-- read as the bits that they hold, page by page; a page is its physical address, null is `none`.
-- A node's spinlock makes each call one step.
pub mod Alloc
pub mod Release
mod Tests
use osai.Prelude.{
  ℕ, zero, suc, ◌+◌, ◌-◌, ◌*◌, ◌/◌, ◌%◌, ◌^◌, Bool, true, false, ◌&&◌, ◌||◌, not, Option, none,
  some, List, [], ◌∷◌, ltb, leb, ◌==◌, if◌then◌else◌, update, add64, sub64, get_elem?, set,
}

-- PAGE_SIZE and XAIOS_NUMA_BITMAP_BITS
abbrev pub page_size : ℕ
page_size = 4096

abbrev pub bitmap_bits : ℕ
bitmap_bits = 262144

-- `xaios_numa_node_t`
pub record Node : Type 0 where
  pub phys_start : ℕ
  pub phys_end : ℕ
  pub total_pages : ℕ
  pub free_count : ℕ
  pub alloc_hint : ℕ
  pub is_free : ℕ → Bool

-- `g_numa_nodes`, up to `g_numa_node_count`.
abbrev pub Nodes : Type 0
Nodes = List Node

-- `bitmap_set_free`
pub bitmap_set_free : Node → ℕ → Node
bitmap_set_free n i =
    if leb bitmap_bits i then n else record n { is_free = update n.is_free i true }

-- `bitmap_is_free`
pub bitmap_is_free : Node → ℕ → Bool
bitmap_is_free n i = if leb bitmap_bits i then false else n.is_free i

-- `max_page` and `used_words`
pub max_page : Node → ℕ
max_page n =
    let pages = sub64 n.phys_end n.phys_start / page_size in
    if ltb bitmap_bits pages then bitmap_bits else pages

pub used_words : Node → ℕ
unfolding max_page
used_words n = let words = (max_page n + 63) / 64 in if words == 0 then 1 else words

pub start_word : Node → ℕ
unfolding used_words
start_word n = let word = n.alloc_hint / 64 in if leb (used_words n) word then 0 else word

-- The lowest bit set of a word, from bit `b` on with `k` bits left: `while ((word & mask) == 0)`.
pub lowest_bit : ℕ → ℕ → ℕ → (ℕ → Bool) → Option ℕ
lowest_bit zero b word is_free = none
lowest_bit (suc k) b word is_free =
    let rest = lowest_bit k (b + 1) word is_free in
    if is_free (word * 64 + b) then some (word * 64 + b) else rest

-- One round of the scan of `numa_alloc_page_on_node`: the page of a word that can be taken.
pub page_of_word : Node → ℕ → Option ℕ
unfolding lowest_bit max_page
page_of_word n word = elim (lowest_bit 64 0 word n.is_free) [
  | none ↦ none
  | some i ↦ if leb (max_page n) i then none else some i
]

-- The scan, at round `i` with `k` rounds left.
pub scan_words : ℕ → ℕ → Node → Option ℕ
unfolding page_of_word start_word
scan_words zero i n = none
scan_words (suc k) i n =
    let rest = scan_words k (i + 1) n in
    elim (page_of_word n ((start_word n + i) % used_words n)) [ none ↦ rest | some p ↦ some p ]

abbrev pub take_page : Node → ℕ → Node
take_page n i = record n {
  is_free = update n.is_free i false;
  free_count = sub64 n.free_count 1;
  alloc_hint = i + 1;
}

-- The pointer that is returned for a physical address: that of page 0 is null.
abbrev pub pointer : ℕ → Option ℕ
pointer phys = if phys == 0 then none else some phys

-- `numa_alloc_page_on_node` on the node: the page's physical address, and the node.
pub alloc_on : Node → Option ℕ × Node
unfolding scan_words
alloc_on n = if n.free_count == 0 then (none, n) else elim (scan_words (used_words n) 0 n) [
  | none ↦ (none, n)
  | some i ↦ (pointer (add64 n.phys_start (i * page_size)), take_page n i)
]

-- `numa_alloc_page_on_node`
unfoldable pub alloc_page_on_node : Nodes → ℕ → Option ℕ × Nodes
unfolding alloc_on
alloc_page_on_node [] id = (none, [])
alloc_page_on_node (n ∷ ns) zero = let (page, n') = alloc_on n in (page, n' ∷ ns)
alloc_page_on_node (n ∷ ns) (suc id) = let (page, ns') = alloc_page_on_node ns id in (page, n ∷ ns')

-- `page_index < XAIOS_NUMA_BITMAP_BITS && !bitmap_is_free(node, page_index)`, and what follows.
pub free_on : Node → ℕ → Node
unfolding bitmap_is_free bitmap_set_free
free_on n phys =
    let i = (phys - n.phys_start) / page_size in
    if ltb i bitmap_bits && not (bitmap_is_free n i)
    then record (bitmap_set_free n i) { free_count = add64 n.free_count 1 }
    else n

-- `numa_free_page`: the node is the first that `numa_node_of_phys` finds.
pub free_page : Nodes → ℕ → Nodes
unfolding free_on
free_page [] phys = []
free_page (n ∷ ns) phys =
    let rest = free_page ns phys in
    if leb n.phys_start phys && ltb phys n.phys_end then free_on n phys ∷ ns else n ∷ rest

-- `numa_node_of_phys`; `none` is 0xffffffff.
pub node_of_phys : ℕ → Nodes → ℕ → Option ℕ
node_of_phys i [] phys = none
node_of_phys i (n ∷ ns) phys =
    let rest = node_of_phys (i + 1) ns phys in
    if leb n.phys_start phys && ltb phys n.phys_end then some i else rest

-- `pmm_free_pages`, the sum of the free counts.
pub free_pages : Nodes → ℕ
free_pages [] = 0
free_pages (n ∷ ns) = add64 n.free_count (free_pages ns)
