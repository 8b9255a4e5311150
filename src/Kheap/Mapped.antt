-- ===== src/Kheap/Mapped.antt =====
-- kernel/mm/kheap.c: mapping pages ends, within the heap, and leaves the blocks as they are.
use osai.Prelude.{
  Status, ℕ, zero, suc, ◌+◌, ◌*◌, ◌%◌, ◌≤◌, ◌<◌, ◌≡◌, ◌≢◌, refl, sym, subst, arith, Bool, some, leb,
  Bool-cases, Option-cases, inl, inr, add64,
}
use osai.Prelude.Status.{ok, invalid, no_memory}
use osai.Pmm.{alloc_page, pmm_free_page}
use osai.Kheap.{
  vm_page_size, kheap_base, kheap_limit, Heap, align_up, map_loop, ensure_mapped, settle_mapping,
}

-- The blocks and the variables of the heap but for its pages.
pub record SameBlocks (h h' : Heap) : Type 0 where
  pub next : h'.next ≡ h.next
  pub free_list : h'.free_list ≡ h.free_list
  pub size : h'.size ≡ h.size
  pub next_free : h'.next_free ≡ h.next_free

-- The end of the mapped part is a page boundary of the heap.
pub record IsBoundary (n : ℕ) : Type 0 where
  pub low : kheap_base ≤ n
  pub high : n ≤ kheap_limit
  pub even : n % 4096 ≡ 0

record Mapped (h : Heap) (end : ℕ) (out : Status × ℕ × Heap) : Type 0 where
  same : SameBlocks h out.2
  kept : out.2.mapped_end ≡ h.mapped_end
  reached : out.0 ≡ ok → (end ≤ out.1) × IsBoundary out.1

map_loop_lem :
    (maps : ℕ → ℕ → Bool) (fuel mapped end : ℕ) (h : Heap)
    → IsBoundary mapped
    → IsBoundary end
    → kheap_limit < mapped + 4096 * fuel
    → (out : Status × ℕ × Heap) × (map_loop maps fuel mapped end h ≡ some out) × Mapped h end out
unfolding map_loop
map_loop_lem maps zero mapped end h m e fueled = absurd (omega (arith, m.high))
map_loop_lem maps (suc fuel) mapped end h m e fueled =
    let page = (alloc_page h.pmm).0 in
    let pmm = (alloc_page h.pmm).1 in
    let h' : Heap = record h { pmm = pmm } in
    elim (Bool-cases (leb end mapped)) [
      | inl done ↦ (
        (ok, mapped, h),
        rw done refl,
        record { same = ground arith; kept = refl; reached = λ _. (ground arith, m) },
      )
      | inr more ↦ elim (Option-cases page) [
        | inl no_page ↦ ((no_memory, mapped, h'), rw (more, no_page) refl, ground arith)
        | inr (p, got) ↦ elim (Bool-cases (maps mapped p)) [
          | inr refused ↦ (
            (invalid, mapped, record h { pmm = pmm_free_page pmm (some p) }),
            rw (more, got, refused) refl,
            ground arith,
          )
          | inl fine ↦
              let h'' : Heap = record h { pmm = pmm; pages = add64 h.pages 1 } in
              let (out, runs, k) =
                map_loop_lem maps fuel (mapped + vm_page_size) end h''
                  (record {
                    low = ground (arith, m.low);
                    high = ground (arith, m.even, e.even, e.high);
                    even = ground (arith, m.even);
                  })
                  e (omega (arith, fueled)) in
              (
                out,
                rw (more, got, fine, map_loop) runs,
                record {
                  same = record {
                    next = k.same.next;
                    free_list = k.same.free_list;
                    size = k.same.size;
                    next_free = k.same.next_free;
                  };
                  kept = k.kept;
                  reached = k.reached;
                },
              )
        ]
      ]
    ]

-- What `ensure_mapped` leaves.
pub record Ensured (h : Heap) (end : ℕ) (out : Status × Heap) : Type 0 where
  pub same : SameBlocks h out.1
  pub boundary : IsBoundary out.1.mapped_end
  pub reached : out.0 ≡ ok → end ≤ out.1.mapped_end
  pub kept : out.0 ≢ ok → out.1.mapped_end ≡ h.mapped_end

settle_mapping-Ensured :
    (end : ℕ) (h : Heap) (out : Status × ℕ × Heap)
    → IsBoundary h.mapped_end
    → Mapped h end out
    → Ensured h end (settle_mapping out)
unfolding settle_mapping
settle_mapping-Ensured end h (ok, mapped, h') m k =
    let (far, boundary) = k.reached refl in
    record {
      same = ground (arith, k.same);
      boundary = boundary;
      reached = λ _. far;
      kept = λ e. absurd (e refl);
    }
settle_mapping-Ensured end h (invalid, mapped, h') m k = record {
  same = k.same;
  boundary = subst IsBoundary (sym k.kept) m;
  reached = λ e. absurd cc;
  kept = λ e. k.kept;
}
settle_mapping-Ensured end h (_, mapped, h') m k = record {
  same = k.same;
  boundary = subst IsBoundary (sym k.kept) m;
  reached = λ e. absurd cc;
  kept = λ e. k.kept;
}

pub ensure_mapped-Ensured :
    (maps : ℕ → ℕ → Bool) (end : ℕ) (h : Heap)
    → IsBoundary h.mapped_end
    → IsBoundary end
    → (out : Status × Heap) × (ensure_mapped maps end h ≡ some out) × Ensured h end out
unfolding ensure_mapped
ensure_mapped-Ensured maps end h m e =
    let (out, runs, k) = map_loop_lem maps 4097 h.mapped_end end h m e (omega (arith, m.low)) in
    (settle_mapping out, rw (runs, ensure_mapped) refl, settle_mapping-Ensured end h out m k)

pub align_up-IsBoundary :
    (end : ℕ) → kheap_base ≤ end → end ≤ kheap_limit → IsBoundary (align_up end vm_page_size)
align_up-IsBoundary end low high = record {
  low = omega arith;
  high = omega arith;
  even = omega arith;
}

pub align_up_le : (end : ℕ) → end ≤ kheap_limit → end ≤ align_up end vm_page_size
align_up_le end high = omega arith
