-- ===== src/Arena/Tests.antt =====
-- An arena on a small machine.
use osai.Prelude.{◌≡◌, refl, true, ltb, none, some, List, [], ◌∷◌}
use osai.Kheap.{Heap, kheap_init}
use osai.Kheap.Runs.{kheap_init-IsSound}
use osai.Arena.{Arenas, no_arena, arena_manager_init}
use osai.Arena.Runs.{IsCounted, Call, create, acquire, release, destroy, run, run-IsCounted}

abbrev boot_heap : Heap
boot_heap = record {
  next = 0;
  mapped_end = 0;
  pages = 0;
  bytes_allocated = 0;
  free_list = 0;
  size = λ p. 0;
  next_free = λ p. 0;
  pmm = record {
    nodes =
        record {
          phys_start = 65536;
          phys_end = 98304;
          total_pages = 8;
          free_count = 8;
          alloc_hint = 0;
          is_free = λ i. ltb i 8;
        }
        ∷ [];
    freed = [];
  };
}

abbrev machine : Arenas
machine = record {
  arenas = λ i. no_arena;
  active_count = 0;
  memory = record { heap = kheap_init boot_heap; table = λ va. none; committed = 0 };
}

-- An arena of two pages that is held while it is to be destroyed, and one beside it.
abbrev calls : List Call
calls =
    create 21 2 7 (b'k' ∷ b'v' ∷ []) 8192 0
    ∷ acquire 21
    ∷ destroy 21
    ∷ create 22 4 7 (b'b' ∷ []) 4096 0
    ∷ release 21
    ∷ destroy 21
    ∷ []

run-IsCounted_example :
    (s : Arenas) × (run (λ va p. true) calls (arena_manager_init machine) ≡ some s) × IsCounted s
run-IsCounted_example =
    run-IsCounted (λ va p. true) calls machine (λ va p. refl)
      (record { free = []; held = []; sound = kheap_init-IsSound boot_heap })
