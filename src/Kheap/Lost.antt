-- ===== src/Kheap/Lost.antt =====
-- kernel/mm/kheap.c: a block that the search skips for its alignment is lost.
use osai.Prelude.{
  ℕ, suc, ◌+◌, ◌-◌, ◌%◌, ◌≤◌, ◌≡◌, ◌≢◌, refl, ap, ◌∙◌, arith, Bool, true, false, ◌==◌, none, some,
  bit_and,
}
use osai.Kheap.{
  header_size, max_blocks, Heap, Link, head, next_of, Best, is_large, is_misaligned, scan, reuse,
  use_best, alloc_block, kheap_alloc, write_link,
}
use osai.Kheap.Alloc.{alloc_block-use_best, is_refused, kheap_alloc_cases, raised}

use_best-some :
    (maps : ℕ → ℕ → Bool) (size align b : ℕ) (l : Link) (h : Heap)
    → use_best maps size align h (some (b, l)) ≡ some (reuse size b l h)
unfolding use_best
use_best-some maps size align b l h = refl

reuse_result :
    (size b : ℕ) (h : Heap)
    → some (reuse size b head h) ≡ some (some (b + header_size), (reuse size b head h).1)
unfolding reuse
reuse_result size b h = refl

reuse_first : (size b : ℕ) (h : Heap) → (reuse size b head h).1.free_list ≡ h.next_free b
unfolding reuse write_link
reuse_first size b h = refl

module _ (fuel size align cur : ℕ) (l : Link) (h : Heap) (some_block : cur ≢ 0)
    (large : size ≤ h.size cur) where
  scan_skips :
      (best : Best)
      → (cur + header_size) % align ≢ 0
      → scan (suc fuel) size align cur l best h ≡ scan fuel size align (h.next_free cur) l best h
  unfolding scan
  scan_skips best off =
      let there : (cur == 0) ≡ false = ground arith in
      let fits : is_large h size cur ≡ true = ground arith in
      let wrong : is_misaligned align cur ≡ true = ground arith in
      rw (there, fits, wrong, scan) refl

  scan_takes :
      (cur + header_size) % align ≡ 0
      → scan (suc fuel) size align cur l none h
        ≡ scan fuel size align (h.next_free cur) (next_of cur) (some (cur, l)) h
  unfolding scan
  scan_takes on =
      let there : (cur == 0) ≡ false = ground arith in
      let fits : is_large h size cur ≡ true = ground arith in
      let right : is_misaligned align cur ≡ false = ground arith in
      rw (there, fits, right, scan) refl

scan_ends :
    (fuel size align : ℕ) (l : Link) (best : Best) (h : Heap)
    → scan (suc fuel) size align 0 l best h ≡ some best
unfolding scan
scan_ends fuel size align l best h = refl

-- A free list of two blocks, both large enough, of which the first is misaligned.
pub record IsPair (size align : ℕ) (h : Heap) (a b : ℕ) : Type 0 where
  pub first : h.free_list ≡ a
  pub second : h.next_free a ≡ b
  pub last : h.next_free b ≡ 0
  pub some_a : a ≢ 0
  pub some_b : b ≢ 0
  pub large_a : size ≤ h.size a
  pub large_b : size ≤ h.size b
  pub misaligned : (a + header_size) % align ≢ 0
  pub aligned : (b + header_size) % align ≡ 0

scan-IsPair :
    (fuel size align a b : ℕ) (h : Heap)
    → IsPair size align h a b
    → scan (suc (suc (suc fuel))) size align h.free_list head none h ≡ some (some (b, head))
scan-IsPair fuel size align a b h k =
    let best : Best = some (b, head) in
    ap (λ c. scan (suc (suc (suc fuel))) size align c head none h) k.first
    ∙ scan_skips (suc (suc fuel)) size align a head h k.some_a k.large_a none k.misaligned
    ∙ ap (λ c. scan (suc (suc fuel)) size align c head none h) k.second
    ∙ scan_takes (suc fuel) size align b head h k.some_b k.large_b k.aligned
    ∙ ap (λ c. scan (suc fuel) size align c (next_of b) best h) k.last
    ∙ scan_ends fuel size align (next_of b) best h

is_refused-wide :
    (size align : ℕ)
    → size ≢ 0
    → 16 ≤ align
    → bit_and align (align - 1) ≡ 0
    → is_refused size align ≡ false
unfolding is_refused
is_refused-wide size align some_size wide power = ground arith

raised-wide : (align : ℕ) → 16 ≤ align → raised align ≡ align
raised-wide align wide = ground arith

-- If the free list has two blocks, both large enough, and the first is not aligned as asked and the
-- second is, then an allocation of some size at an alignment that is a power of two from 16 on hands
-- out the second and leaves the free list empty: the first is lost.
pub kheap_alloc-IsPair :
    (maps : ℕ → ℕ → Bool) (size align a b : ℕ) (h : Heap)
    → size ≢ 0
    → 16 ≤ align
    → bit_and align (align - 1) ≡ 0
    → IsPair size align h a b
    → (h' : Heap) × (kheap_alloc maps size align h ≡ some (some (b + header_size), h'))
      × (h'.free_list ≡ 0)
kheap_alloc-IsPair maps size align a b h some_size wide power k =
    let found : scan max_blocks size align h.free_list head none h ≡ some (some (b, head)) =
      scan-IsPair 1048574 size align a b h k in
    let taken : alloc_block maps size align h ≡ some (reuse size b head h) =
      alloc_block-use_best maps size align h found ∙ use_best-some maps size align b head h in
    let accepted = is_refused-wide size align some_size wide power in
    (
      (reuse size b head h).1,
      kheap_alloc_cases maps size align h
          ∙ rw (accepted, raised-wide align wide) (taken ∙ reuse_result size b h),
      reuse_first size b h ∙ k.last,
    )
