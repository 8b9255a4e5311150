-- ===== src/Pmm.antt =====
-- kernel/mm/pmm.c: page allocation over the memory nodes, and the table of freed pages that is meant
-- to catch a double free. The lock makes `pmm_free_page` one step.
pub mod Freed
mod Tests
use osai.Prelude.{
  ℕ, zero, suc, ◌+◌, ◌-◌, Bool, true, false, Option, none, some, List, [], ◌∷◌, ◌++◌, ltb, ◌==◌,
  if◌then◌else◌, add64, length,
}
use osai.Numa.{Nodes, alloc_page_on_node, free_page}

-- PMM_MAX_FREED_TRACK
abbrev pub max_freed_track : ℕ
max_freed_track = 64

-- `pmm_freed_entry_t`
pub record FreedEntry : Type 0 where
  pub page_addr : ℕ
  pub freed_count : ℕ

-- The memory nodes with `g_freed_pages[0..g_freed_count)`.
pub record Pmm : Type 0 where
  pub nodes : Nodes
  pub freed : List FreedEntry

-- The fallback loop of `pmm_alloc_page`, at node `i` with `k` nodes left.
pub alloc_from : ℕ → ℕ → Nodes → Option ℕ × Nodes
alloc_from zero i nodes = (none, nodes)
alloc_from (suc k) i nodes =
    let (page, nodes') = alloc_page_on_node nodes i in
    let rest = alloc_from k (i + 1) nodes' in elim page [ none ↦ rest | some p ↦ (some p, nodes') ]

-- `pmm_alloc_page`: node 0 first, then the others.
unfoldable pub alloc_page : Pmm → Option ℕ × Pmm
unfolding alloc_from
alloc_page s =
    let (page, nodes) = alloc_page_on_node s.nodes 0 in
    let (other, nodes') = alloc_from (length nodes - 1) 1 nodes in
    elim page [
      | some p ↦ (some p, record s { nodes = nodes })
      | none ↦ (other, record s { nodes = nodes' })
    ]

-- The fallback loop of `pmm_alloc_page_near`, which skips the preferred node.
pub alloc_others : ℕ → ℕ → ℕ → Nodes → Option ℕ × Nodes
alloc_others zero i preferred nodes = (none, nodes)
alloc_others (suc k) i preferred nodes =
    let (page, nodes') = alloc_page_on_node nodes i in
    let tried = alloc_others k (i + 1) preferred nodes' in
    let skipped = alloc_others k (i + 1) preferred nodes in
    if i == preferred then skipped else elim page [ none ↦ tried | some p ↦ (some p, nodes') ]

-- `pmm_alloc_page_near`
pub alloc_page_near : Pmm → ℕ → Option ℕ × Pmm
unfolding alloc_others
alloc_page_near s preferred =
    let (page, nodes) = alloc_page_on_node s.nodes preferred in
    let (other, nodes') = alloc_others (length nodes) 0 preferred nodes in
    elim page [
      | some p ↦ (some p, record s { nodes = nodes })
      | none ↦ (other, record s { nodes = nodes' })
    ]

-- The check of `pmm_free_page`: the table with the page's entry counted, `none` if it has none.
pub count_freed : List FreedEntry → ℕ → Option (List FreedEntry)
count_freed [] page = none
count_freed (e ∷ es) page =
    let rest = count_freed es page in
    if e.page_addr == page
    then some (record e { freed_count = add64 e.freed_count 1 } ∷ es)
    else elim rest [ none ↦ none | some es' ↦ some (e ∷ es') ]

-- "Track this freed page"
pub track : List FreedEntry → ℕ → List FreedEntry
track es page =
    if ltb (length es) max_freed_track
    then es ++ record { page_addr = page; freed_count = 1 } ∷ []
    else es

-- `pmm_free_page` of a page that is not null. The magic words that it writes into the page are
-- read nowhere and are left out.
pub free_page_of : Pmm → ℕ → Pmm
unfolding count_freed track
free_page_of s page = elim (count_freed s.freed page) [
  | some es ↦ record s { freed = es }
  | none ↦ record s { nodes = free_page s.nodes page; freed = track s.freed page }
]

-- `pmm_free_page`; `none` is a null pointer.
pub pmm_free_page : Pmm → Option ℕ → Pmm
unfolding free_page_of
pmm_free_page s none = s
pmm_free_page s (some page) = free_page_of s page
