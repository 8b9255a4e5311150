-- ===== src/Kheap/Alloc.antt =====
-- kernel/mm/kheap.c: what an allocation returns, and what it leaves.
use native.Mathlib.Nat.{div-add-mod', mod-lt, mul-mod_left}
use osai.Prelude.{
  Status, ℕ, ◌+◌, ◌-◌, ◌/◌, ◌%◌, ◌^◌, ◌≤◌, ◌<◌, ◌≡◌, refl, sym, subst, ap, ◌∙◌, arith, inl, inr,
  Bool, not, ◌||◌, ◌==◌, Option, none, some, List, ◌∷◌, update_self, add64, ltb, bit_and,
  Bool-cases, if◌then◌else◌,
}
use osai.Prelude.Status.{ok, invalid}
use osai.Kheap.{
  kheap_base, kheap_limit, header_size, vm_page_size, max_blocks, Heap, Link, head, next_of,
  write_link, Best, align_up, scan, reuse, write_header, finish_bump, bump, alloc_block, use_best,
  kheap_alloc,
}
use osai.Kheap.Scan.{Fits, BestFits, scan_lem}
use osai.Kheap.Mapped.{
  SameBlocks, IsBoundary, Ensured, ensure_mapped-Ensured, align_up-IsBoundary, align_up_le,
}
use osai.Kheap.Sound.{IsSound, reuse-IsSound, write_header-IsSound}

-- The pages and counters of a heap do not matter to its blocks.
SameBlocks-IsSound :
    (h h' : Heap) {cs ls : List ℕ}
    → SameBlocks h h'
    → IsBoundary h'.mapped_end
    → h.next ≤ h'.mapped_end
    → IsSound h cs ls
    → IsSound h' cs ls
SameBlocks-IsSound h h' {cs} {ls} same boundary mapped s =
    let moved : Heap = record h {
      pages = h'.pages;
      mapped_end = h'.mapped_end;
      bytes_allocated = h'.bytes_allocated;
      pmm = h'.pmm;
    } in
    let equal : moved ≡ h' = cc (same.next, same.free_list, same.size, same.next_free) in
    subst (λ g. IsSound g cs ls) equal
      (record {
        linked = s.linked;
        free_apart = s.free_apart;
        live_apart = s.live_apart;
        cross = s.cross;
        free_inside = s.free_inside;
        live_inside = s.live_inside;
        mapped = mapped;
        boundary = boundary;
        room = s.room;
      })

-- The address after alignment: a multiple, not below the value, and above it by less than `align`.
align_up_lem :
    (value align : ℕ)
    → 0 < align
    → value + align < 2 ^ 64
    → (value ≤ align_up value align)
      × (align_up value align < 2 ^ 64)
      × (align_up value align % align ≡ 0)
align_up_lem value align some_align fits =
    let n = value + align - 1 in
    let small : n % 2 ^ 64 ≡ n = omega arith in
    let parts = div-add-mod' n align in
    let rest = mod-lt n some_align in
    rw small (omega (arith, parts, rest), omega (arith, parts), mul-mod_left (n / align) align)

-- An allocation gives nothing, or a block of at least the size at a multiple of the alignment; what
-- remains is sound.
pub data Outcome (size align : ℕ) (cs ls : List ℕ) (out : Option ℕ × Heap) : Type 0 where
  refused : out.0 ≡ none → IsSound out.1 cs ls → Outcome size align cs ls out
  given :
      (b : ℕ) (rest : List ℕ)
      → out.0 ≡ some (b + header_size)
      → (b + header_size) % align ≡ 0
      → size ≤ out.1.size b
      → IsSound out.1 rest (b ∷ ls)
      → Outcome size align cs ls out

-- The sizes and alignments that an allocation is asked for.
pub record IsRequest (size align : ℕ) : Type 0 where
  pub word : size < 2 ^ 64
  pub some_align : 0 < align
  pub power : align ≤ 2 ^ 63

header_size-le :
    (size data_start : ℕ) (h : Heap)
    → size ≤ (write_header size data_start h).1.size (data_start - 16)
unfolding write_header
header_size-le size data_start h = omega (arith, update_self h.size (data_start - 16) size)

-- The block that a new header makes.
write_header-Outcome :
    (size align data_start : ℕ) (h : Heap) {cs ls : List ℕ}
    → IsSound h cs ls
    → h.next + 16 ≤ data_start
    → data_start % align ≡ 0
    → data_start + size ≤ h.mapped_end
    → Outcome size align cs ls (write_header size data_start h)
unfolding write_header
write_header-Outcome size align data_start h {cs} {ls} s after aligned fits =
    let back : data_start - 16 + 16 ≡ data_start = omega arith in
    given (data_start - 16) cs (ap some (sym back)) (ap (λ n. n % align) back ∙ aligned)
      (header_size-le size data_start h) (write_header-IsSound size data_start h s after fits)

finish_bump-Outcome :
    (size align data_start end : ℕ) (h : Heap) {cs ls : List ℕ} (out : Status × Heap)
    → IsSound h cs ls
    → h.next + 16 ≤ data_start
    → data_start % align ≡ 0
    → data_start + size ≤ end
    → Ensured h end out
    → Outcome size align cs ls (finish_bump size data_start out)
unfolding finish_bump
finish_bump-Outcome size align data_start end h (ok, h') s after aligned fits k =
    let reach = k.reached refl in
    write_header-Outcome size align data_start h'
      (SameBlocks-IsSound h h' k.same k.boundary (omega arith) s) (omega (arith, k.same.next))
      aligned (omega arith)
finish_bump-Outcome size align data_start end h (invalid, h') s after aligned fits k =
    refused refl (
      SameBlocks-IsSound h h' k.same k.boundary (omega (arith, k.kept (λ e. absurd cc), s.mapped))
        s)
finish_bump-Outcome size align data_start end h (_, h') s after aligned fits k =
    refused refl (
      SameBlocks-IsSound h h' k.same k.boundary (omega (arith, k.kept (λ e. absurd cc), s.mapped))
        s)

bump-Outcome :
    (maps : ℕ → ℕ → Bool) (size align : ℕ) (h : Heap) {cs ls : List ℕ}
    → IsRequest size align
    → IsSound h cs ls
    → (out : Option ℕ × Heap) × (bump maps size align h ≡ some out) × Outcome size align cs ls out
unfolding bump
bump-Outcome maps size align h {cs} {ls} q s =
    let start = align_up (h.next + header_size) align in
    let end = add64 start size in
    let (above, word, aligned) =
      align_up_lem (h.next + header_size) align q.some_align
        (omega (arith, q.power, s.mapped, s.boundary.high)) in
    elim (Bool-cases (ltb end start || ltb kheap_limit end)) [
      | inl full ↦ ((none, h), rw full refl, refused refl s)
      | inr fine ↦
          let exact : end ≡ start + size = ground (arith, q.word, word) in
          let high : end ≤ kheap_limit = ground arith in
          let low : kheap_base ≤ end = omega (arith, s.room, above, exact) in
          let (out, runs, k) =
            ensure_mapped-Ensured maps (align_up end vm_page_size) h s.boundary
              (align_up-IsBoundary end low high) in
          (
            finish_bump size start out,
            rw (fine, runs) refl,
            finish_bump-Outcome size align start (align_up end vm_page_size) h out s above aligned
                (omega (arith, align_up_le end high, exact)) k,
          )
    ]

reuse-Outcome :
    (size align b : ℕ) (l : Link) (h : Heap) {cs ls : List ℕ}
    → IsSound h cs ls
    → Fits h size align cs b l
    → Outcome size align cs ls (reuse size b l h)
unfolding reuse write_link
reuse-Outcome size align b head h s fits =
    given b fits.rest refl fits.aligned fits.large (reuse-IsSound size b head h s fits.takes)
reuse-Outcome size align b (next_of w) h s fits =
    given b fits.rest refl fits.aligned fits.large (reuse-IsSound size b (next_of w) h s fits.takes)

-- What the search found decides.
use_best-Outcome :
    (maps : ℕ → ℕ → Bool) (size align : ℕ) (h : Heap) {cs ls : List ℕ} (best : Best)
    → IsRequest size align
    → IsSound h cs ls
    → BestFits h size align cs best
    → (out : Option ℕ × Heap) × (use_best maps size align h best ≡ some out)
      × Outcome size align cs ls out
unfolding use_best
use_best-Outcome maps size align h none q s k = bump-Outcome maps size align h q s
use_best-Outcome maps size align h (some (b, l)) q s k =
    (reuse size b l h, refl, reuse-Outcome size align b l h s k)

pub alloc_block-use_best :
    (maps : ℕ → ℕ → Bool) (size align : ℕ) (h : Heap) {best : Best}
    → scan max_blocks size align h.free_list head none h ≡ some best
    → alloc_block maps size align h ≡ use_best maps size align h best
unfolding alloc_block
alloc_block-use_best maps size align h e =
    ap (λ (r : Option Best). elim r [ none ↦ none | some b ↦ use_best maps size align h b ]) e

alloc_block-Outcome :
    (maps : ℕ → ℕ → Bool) (size align : ℕ) (h : Heap) {cs ls : List ℕ}
    → IsRequest size align
    → IsSound h cs ls
    → (out : Option ℕ × Heap) × (alloc_block maps size align h ≡ some out)
      × Outcome size align cs ls out
alloc_block-Outcome maps size align h {cs} q s =
    let (best, e, k) =
      scan_lem h size align max_blocks cs s.linked
        (omega (arith, s.room, s.mapped, s.boundary.high)) in
    let (out, runs, outcome) = use_best-Outcome maps size align h best q s k in
    (out, alloc_block-use_best maps size align h e ∙ runs, outcome)

-- `align` raised to the size of a header.
abbrev pub raised : ℕ → ℕ
raised align = if ltb align header_size then header_size else align

-- Whether the arguments are refused at once.
unfoldable pub is_refused : ℕ → ℕ → Bool
is_refused size align = size == 0 || align == 0 || not (bit_and align (align - 1) == 0)

pub kheap_alloc_cases :
    (maps : ℕ → ℕ → Bool) (size align : ℕ) (h : Heap)
    → kheap_alloc maps size align h
      ≡ (if is_refused size align then some (none, h) else alloc_block maps size (raised align) h)
unfolding kheap_alloc is_refused
kheap_alloc_cases maps size align h = refl

-- On a sound heap an allocation of 64-bit size and alignment returns. It gives nothing, or a block of
-- at least the size at a multiple of the alignment, which is at least 16, and then the blocks that
-- callers hold are those before and this one; either way the heap is sound, so that the new block
-- overlaps no other.
pub kheap_alloc-Outcome :
    (maps : ℕ → ℕ → Bool) (size align : ℕ) (h : Heap) {cs ls : List ℕ}
    → IsSound h cs ls
    → size < 2 ^ 64
    → align ≤ 2 ^ 63
    → (out : Option ℕ × Heap) × (kheap_alloc maps size align h ≡ some out)
      × Outcome size (raised align) cs ls out
kheap_alloc-Outcome maps size align h s word power = elim (Bool-cases (is_refused size align)) [
  | inl bad ↦ ((none, h), kheap_alloc_cases maps size align h ∙ rw bad refl, refused refl s)
  | inr good ↦
      let q : IsRequest size (raised align) = record {
        word = word;
        some_align = ground arith;
        power = ground arith;
      } in
      let (out, runs, outcome) = alloc_block-Outcome maps size (raised align) h q s in
      (out, kheap_alloc_cases maps size align h ∙ rw good runs, outcome)
]
