-- ===== src/Numa/Tests.antt =====
-- A node of four pages, all free.
use osai.Prelude.{◌≡◌, refl, arith, true, none}
use osai.Numa.{Node, alloc_on}
use osai.Numa.Alloc.{IsValid, Allocation, alloc_on-Allocation}

abbrev four_pages : Node
four_pages = record {
  phys_start = 65536;
  phys_end = 81920;
  total_pages = 4;
  free_count = 4;
  alloc_hint = 0;
  is_free = λ i. true;
}

-- A node that starts at address 0 loses its first page.
abbrev from_zero : Node
from_zero = record four_pages { phys_start = 0; phys_end = 16384 }

first_lost : (alloc_on from_zero).0 ≡ none
unfolding alloc_on
first_lost = refl

first_counted : (alloc_on from_zero).1.free_count ≡ 3
unfolding alloc_on
first_counted = refl

four_pages-IsValid : IsValid four_pages
four_pages-IsValid = record { ordered = omega arith; range = omega arith }

alloc_on-Allocation_example : Allocation four_pages (alloc_on four_pages)
alloc_on-Allocation_example = alloc_on-Allocation four_pages four_pages-IsValid (omega arith)
