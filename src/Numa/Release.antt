-- ===== src/Numa/Release.antt =====
-- `numa_free_page` on the node that owns the page.
use osai.Prelude.{
  ℕ, ◌+◌, ◌-◌, ◌*◌, ◌/◌, ◌^◌, ◌≤◌, ◌<◌, ◌≡◌, refl, arith, true, false, Option, some, update, Bool,
  ◌⊎◌, inl, inr, ap, sym, ◌∙◌, fun_ext, Bool-cases, ltb, ◌==◌, ==_iff, ◌&&◌, not, add64,
  if◌then◌else◌,
}
use osai.Numa.{Node, page_size, bitmap_bits, bitmap_set_free, bitmap_is_free, free_on, alloc_on}
use osai.Numa.Alloc.{IsValid, Allocation, refused, lost, allocated, alloc_on-Allocation}
use native.Mathlib.Decide.{dec_lt}

-- What `numa_free_page` leaves on the node for its page `i`.
pub data Release (n : Node) (i : ℕ) (n' : Node) : Type 0 where
  released :
      i < bitmap_bits
      → n.is_free i ≡ false
      → n'.is_free ≡ update n.is_free i true
      → n'.free_count ≡ n.free_count + 1
      → Release n i n'
  ignored : ((bitmap_bits ≤ i) ⊎ (n.is_free i ≡ true)) → n' ≡ n → Release n i n'

page_index : (n : Node) (i : ℕ) → (n.phys_start + i * page_size - n.phys_start) / page_size ≡ i
page_index n i = omega arith

free_index : Node → ℕ → Node
unfolding bitmap_is_free bitmap_set_free
free_index n i =
    if ltb i bitmap_bits && not (bitmap_is_free n i)
    then record (bitmap_set_free n i) { free_count = add64 n.free_count 1 }
    else n

free_on-free_index : (n : Node) (i : ℕ) → free_on n (n.phys_start + i * page_size) ≡ free_index n i
unfolding free_on free_index
free_on-free_index n i = ap (free_index n) (page_index n i)

free_index-Release : (n : Node) (i : ℕ) → n.free_count + 1 < 2 ^ 64 → Release n i (free_index n i)
unfolding free_index
free_index-Release n i range = elim (dec_lt i bitmap_bits) [
  | no beyond ↦ ignored (inl (omega arith)) (ground arith)
  | yes inside ↦ elim (Bool-cases (n.is_free i)) [
    | inl free ↦ ignored (inr free) (ground arith)
    | inr used ↦ released inside used (ground arith) (ground arith)
  ]
]

-- Freeing a page of a node that is in use marks it free and adds one to the free count; freeing a
-- page that is free already, or that lies beyond the bitmap, changes nothing.
pub free_on-Release :
    (n : Node) (i : ℕ)
    → n.free_count + 1 < 2 ^ 64
    → Release n i (free_on n (n.phys_start + i * page_size))
free_on-Release n i range = rw (free_on-free_index n i) (free_index-Release n i range)

update-update : (f : ℕ → Bool) (i : ℕ) → f i ≡ true → update (update f i false) i true ≡ f
update-update f i h = fun_ext λ j. again j (Bool-cases (i == j))
  where
    again :
        (j : ℕ) → ((i == j) ≡ true) ⊎ ((i == j) ≡ false) → update (update f i false) i true j ≡ f j
    again j (inl same) = rw same (sym (ap f (sym ((==_iff i j).0 same)) ∙ h))
    again j (inr other) = rw other refl

restored :
    (n : Node) (out : Option ℕ × Node) (p : ℕ)
    → n.free_count < 2 ^ 64
    → out.0 ≡ some p
    → Allocation n out
    → ((free_on out.1 p).is_free ≡ n.is_free) × ((free_on out.1 p).free_count ≡ n.free_count)
restored n out p range h (refused e none_left) = cc
restored n out p range h (lost e start t) = cc
restored n out p range h (allocated i page t) =
    let at : p ≡ out.1.phys_start + i * page_size = ground arith in
    rw at (settled (free_on-Release out.1 i (omega (arith, t.counted))))
  where
    bit : i < bitmap_bits
    bit = t.bit

    was : n.is_free i ≡ true
    was = t.was_free

    now : out.1.is_free ≡ update n.is_free i false
    now = t.used

    fewer : out.1.free_count + 1 ≡ n.free_count
    fewer = t.counted

    cleared : true ≡ update n.is_free i false i → ⊥
    cleared e = ground arith

    settled :
        {n' : Node} → Release out.1 i n' → (n'.is_free ≡ n.is_free) × (n'.free_count ≡ n.free_count)
    settled (released inside used free more) = (
      free ∙ ap (λ f. update f i true) now ∙ update-update n.is_free i was,
      omega (arith, more, fewer),
    )
    settled (ignored (inl beyond) e) = absurd (omega arith)
    settled (ignored (inr free) e) = absurd (cleared (sym free ∙ ap (λ f. f i) now))

-- A page that `numa_alloc_page_on_node` returned and that is then freed is free again: the bitmap
-- and the free count are what they were before the allocation.
pub free_on-alloc_on :
    (n : Node) (p : ℕ)
    → IsValid n
    → n.free_count < 2 ^ 64
    → (alloc_on n).0 ≡ some p
    → ((free_on (alloc_on n).1 p).is_free ≡ n.is_free)
      × ((free_on (alloc_on n).1 p).free_count ≡ n.free_count)
free_on-alloc_on n p v range h = restored n (alloc_on n) p range h (alloc_on-Allocation n v range)
