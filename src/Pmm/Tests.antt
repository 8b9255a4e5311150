-- ===== src/Pmm/Tests.antt =====
-- A page that is freed, allocated again, and freed again.
use osai.Prelude.{◌≡◌, arith, false, some, [], ◌∷◌}
use osai.Pmm.{Pmm, pmm_free_page}
use osai.Pmm.Freed.{allocs, run, free-free}

abbrev one_node : Pmm
one_node = record {
  nodes =
      record {
        phys_start = 65536;
        phys_end = 81920;
        total_pages = 4;
        free_count = 0;
        alloc_hint = 0;
        is_free = λ i. false;
      }
      ∷ [];
  freed = [];
}

free-free_example :
    let t = run (pmm_free_page one_node (some 65536)) (allocs ∷ []) in
    (pmm_free_page t (some 65536)).nodes ≡ t.nodes
free-free_example = free-free one_node 65536 (allocs ∷ []) (omega arith)
