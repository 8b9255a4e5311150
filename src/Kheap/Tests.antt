-- ===== src/Kheap/Tests.antt =====
-- Two allocations on a heap with one memory node, and a block that is lost.
use osai.Prelude.{
  ℕ, ◌+◌, ◌≡◌, refl, arith, Bool, true, Option, some, List, [], ◌∷◌, All, ◌==◌, ◌||◌, if◌then◌else◌,
  update,
}
use osai.Numa.{alloc_page_on_node}
use osai.Pmm.{Pmm, alloc_page}
use osai.Kheap.{kheap_base, kheap_limit, header_size, Heap, kheap_init, kheap_alloc}
use osai.Kheap.Pairs.{Pairwise}
use osai.Kheap.Sound.{Apart, Inside}
use osai.Kheap.Alloc.{Outcome, raised, kheap_alloc-Outcome}
use osai.Kheap.Runs.{start, allocates, kheap_init-IsSound, Runs-kheap_alloc}
use osai.Kheap.Lost.{kheap_alloc-IsPair}

abbrev four_pages : Pmm
four_pages = record {
  nodes =
      record {
        phys_start = 65536;
        phys_end = 81920;
        total_pages = 4;
        free_count = 4;
        alloc_hint = 0;
        is_free = λ i. (i == 0) || (i == 1) || (i == 2) || (i == 3);
      }
      ∷ [];
  freed = [];
}

abbrev booted : Heap
booted = record {
  next = 0;
  mapped_end = 0;
  pages = 0;
  bytes_allocated = 0;
  free_list = 0;
  size = λ p. 0;
  next_free = λ p. 0;
  pmm = four_pages;
}

-- Every page can be mapped.
abbrev mappable : ℕ → ℕ → Bool
mappable va page = true

-- The heap after `kheap_alloc(24, 8)`.
abbrev one_block : Heap
one_block = record {
  next = kheap_base + 40;
  mapped_end = kheap_base + 4096;
  pages = 1;
  bytes_allocated = 24;
  free_list = 0;
  size = update (λ p. 0) kheap_base 24;
  next_free = update (λ p. 0) kheap_base 0;
  pmm = (alloc_page four_pages).1;
}

-- The first allocation of the self test.
first_alloc :
    kheap_alloc mappable 24 8 (kheap_init booted)
    ≡ some (some (kheap_base + header_size), one_block)
unfolding kheap_alloc kheap_init alloc_page alloc_page_on_node
first_alloc = refl

abbrev held : List ℕ
held = kheap_base ∷ []

Runs-kheap_alloc_example :
    Pairwise (Apart one_block.size) held
    × All (Inside one_block.size kheap_limit) held
    × ((out : Option ℕ × Heap) × (kheap_alloc mappable 128 64 one_block ≡ some out))
Runs-kheap_alloc_example =
    Runs-kheap_alloc booted mappable 128 64
      (allocates mappable 24 8 start (omega arith) (omega arith) first_alloc) (omega arith)
      (omega arith)

kheap_alloc-Outcome_example :
    (out : Option ℕ × Heap) × (kheap_alloc mappable 24 8 (kheap_init booted) ≡ some out)
    × Outcome 24 (raised 8) [] [] out
kheap_alloc-Outcome_example =
    kheap_alloc-Outcome mappable 24 8 (kheap_init booted) (kheap_init-IsSound booted) (omega arith)
      (omega arith)

-- Two free blocks of 64 bytes: the first at 16 modulo 64, the second at 0.
abbrev two_free : Heap
two_free = record booted {
  free_list = kheap_base;
  size = λ p. 64;
  next_free = λ p. if p == kheap_base then kheap_base + 112 else 0;
}

kheap_alloc-IsPair_example :
    (h' : Heap) × (kheap_alloc mappable 40 64 two_free
      ≡ some (some (kheap_base + 112 + header_size), h'))
    × (h'.free_list ≡ 0)
kheap_alloc-IsPair_example =
    kheap_alloc-IsPair mappable 40 64 kheap_base (kheap_base + 112) two_free (ground arith)
      (omega arith) refl
      (record {
        first = refl;
        second = refl;
        last = refl;
        some_a = omega arith;
        some_b = omega arith;
        large_a = omega arith;
        large_b = omega arith;
        misaligned = omega arith;
        aligned = refl;
      })
