-- ===== src/Numa/Alloc.antt =====
-- `numa_alloc_page_on_node`: which page it hands out, and that it fails only when no page is left.
use osai.Prelude.{
  ℕ, zero, suc, ◌+◌, ◌*◌, ◌/◌, ◌%◌, ◌^◌, ◌≤◌, ◌<◌, ◌≡◌, refl, arith, Bool, true, false, Option,
  none, some, update, Bool-cases, Option-cases, inl, inr, ◌⊎◌,
}
use mathlib.Core.Path.{subst}
use native.Mathlib.Decide.{ℕ_discrete}
use osai.CircularBuffer.{round_of}
use osai.Numa.{
  Node, page_size, bitmap_bits, max_page, used_words, start_word, lowest_bit, page_of_word,
  scan_words, alloc_on,
}

-- The lowest bit set is set, lies in its word, and below it no bit is set.
lowest_bit-some :
    (k b word i : ℕ) (is_free : ℕ → Bool)
    → lowest_bit k b word is_free ≡ some i
    → (is_free i ≡ true) × (word * 64 + b ≤ i) × (i < word * 64 + b + k)
unfolding lowest_bit
lowest_bit-some zero b word i is_free h = cc
lowest_bit-some (suc k) b word i is_free h =
    ground (arith, lowest_bit-some k (b + 1) word i is_free)

-- If a set bit lies in the word, the lowest bit set is found and is no higher.
lowest_bit-le :
    (k b word j : ℕ) (is_free : ℕ → Bool)
    → is_free j ≡ true
    → word * 64 + b ≤ j
    → j < word * 64 + b + k
    → (i : ℕ) × (lowest_bit k b word is_free ≡ some i) × (i ≤ j)
unfolding lowest_bit
lowest_bit-le zero b word j is_free set lo hi = absurd (omega arith)
lowest_bit-le (suc k) b word j is_free set lo hi = elim (Bool-cases (is_free (word * 64 + b))) [
  | inl here ↦ rw here (word * 64 + b, refl, lo)
  | inr clear ↦ rw clear (lowest_bit-le k (b + 1) word j is_free set (ground arith) (omega arith))
]

-- How many words are in use, and where the scan starts.
words_cover : (n : Node) (j : ℕ) → j < max_page n → j / 64 < used_words n
unfolding used_words
words_cover n j h = ground arith

used_words-pos : (n : Node) → 0 < used_words n
unfolding used_words
used_words-pos n = ground arith

start_word-lt : (n : Node) → start_word n < used_words n
unfolding start_word
start_word-lt n = ground (arith, used_words-pos n)

-- A page that a round of the scan takes is free and in range.
page_of_word-some :
    (n : Node) (word i : ℕ) → page_of_word n word ≡ some i → (n.is_free i ≡ true) × (i < max_page n)
unfolding page_of_word
page_of_word-some n word i h = elim (Option-cases (lowest_bit 64 0 word n.is_free)) [
  | inl missing ↦ ground arith
  | inr (k, found) ↦ ground (arith, lowest_bit-some 64 0 word k n.is_free found)
]

-- A round fails only if no free page of the word is in range.
page_of_word-none :
    (n : Node) (j : ℕ) → page_of_word n (j / 64) ≡ none → n.is_free j ≡ true → max_page n ≤ j
unfolding page_of_word
page_of_word-none n j h set =
    let (i, found, le) = lowest_bit-le 64 0 (j / 64) j n.is_free set (omega arith) (omega arith) in
    ground arith

scan_words-some :
    (k i : ℕ) (n : Node) (p : ℕ)
    → scan_words k i n ≡ some p
    → (n.is_free p ≡ true) × (p < max_page n)
unfolding scan_words
scan_words-some zero i n p h = cc
scan_words-some (suc k) i n p h =
    elim (Option-cases (page_of_word n ((start_word n + i) % used_words n))) [
      | inl missing ↦ ground (arith, scan_words-some k (i + 1) n p)
      | inr (q, found) ↦ ground (arith, page_of_word-some n _ q found)
    ]

or_none :
    (o rest : Option ℕ)
    → elim o [ none ↦ rest | some p ↦ some p ] ≡ none
    → (o ≡ none) × (rest ≡ none)
or_none none rest h = (refl, h)
or_none (some p) rest h = cc

-- A failed scan means that each of its rounds failed.
scan_words-none :
    (k i : ℕ) (n : Node) (r : ℕ)
    → scan_words k i n ≡ none
    → i ≤ r
    → r < i + k
    → page_of_word n ((start_word n + r) % used_words n) ≡ none
unfolding scan_words
scan_words-none zero i n r h lo hi = absurd (omega arith)
scan_words-none (suc k) i n r h lo hi =
    let (now, later) =
      or_none (page_of_word n ((start_word n + i) % used_words n)) (scan_words k (i + 1) n) h in
    elim (ℕ_discrete i r) [
      | yes here ↦ subst (λ q. page_of_word n ((start_word n + q) % used_words n) ≡ none) here now
      | no ne ↦ scan_words-none k (i + 1) n r later (omega arith) (omega arith)
    ]

-- A failed scan means that no page in range is free.
scan_complete :
    (n : Node) (j : ℕ) → scan_words (used_words n) 0 n ≡ none → j < max_page n → n.is_free j ≡ false
scan_complete n j failed inside = elim (Bool-cases (n.is_free j)) [
  | inr clear ↦ clear
  | inl set ↦
      let (r, below, at) =
        round_of (start_word n) (used_words n) (j / 64) (start_word-lt n)
          (words_cover n j inside) in
      absurd (
        omega (
          arith,
          page_of_word-none n j
              (rw at at (scan_words-none (used_words n) 0 n r failed (omega arith) (omega arith)))
              set,
        ))
]

-- `phys_start` to `phys_end` is a range of 64-bit addresses that holds `max_page` pages.
pub record IsValid (n : Node) : Type 0 where
  pub ordered : n.phys_start ≤ n.phys_end
  pub range : n.phys_end < 2 ^ 64

max_page-fits :
    (n : Node) (i : ℕ)
    → IsValid n
    → i < max_page n
    → (n.phys_start + i * page_size + page_size ≤ n.phys_end) × (i < bitmap_bits)
unfolding max_page
max_page-fits n i v h = ground (arith, v)

-- A node of which page `i` has been taken, a free one that lies whole inside the node.
pub record Taken (n : Node) (i : ℕ) (n' : Node) : Type 0 where
  pub fits : n.phys_start + i * page_size + page_size ≤ n.phys_end
  pub bit : i < bitmap_bits
  pub was_free : n.is_free i ≡ true
  pub used : n'.is_free ≡ update n.is_free i false
  pub counted : n'.free_count + 1 ≡ n.free_count
  pub start : n'.phys_start ≡ n.phys_start

-- What `numa_alloc_page_on_node` returns and leaves of a node.
pub data Allocation (n : Node) (out : Option ℕ × Node) : Type 0 where
  refused :
      out ≡ (none, n)
      → ((n.free_count ≡ 0) ⊎ ((j : ℕ) → j < max_page n → n.is_free j ≡ false))
      → Allocation n out
  lost : out.0 ≡ none → n.phys_start ≡ 0 → Taken n 0 out.1 → Allocation n out
  allocated :
      (i : ℕ) → out.0 ≡ some (n.phys_start + i * page_size) → Taken n i out.1 → Allocation n out

-- `numa_alloc_page_on_node` on a valid node either fails and changes nothing, and then the free
-- count is 0 or no page in range is free; or takes a page that was free and lies whole inside the
-- node's address range: marks that page and no other as used, and takes one from the free count. It
-- returns the page it takes, but null for the page at address 0, which is lost.
pub alloc_on-Allocation : (n : Node) → IsValid n → n.free_count < 2 ^ 64 → Allocation n (alloc_on n)
unfolding alloc_on
alloc_on-Allocation n v range = elim (ℕ_discrete n.free_count 0) [
  | yes empty ↦ refused (ground arith) (inl empty)
  | no some_left ↦ elim (Option-cases (scan_words (used_words n) 0 n)) [
    | inl failed ↦ refused (ground arith) (inr (λ j inside. scan_complete n j failed inside))
    | inr (i, found) ↦
        let (free, inside) = scan_words-some (used_words n) 0 n i found in
        let (fits, bit) = max_page-fits n i v inside in
        let taken : Taken n i (alloc_on n).1 = record {
          fits = fits;
          bit = bit;
          was_free = free;
          used = ground arith;
          counted = ground arith;
          start = ground arith;
        } in
        elim (ℕ_discrete (n.phys_start + i * page_size) 0) [
          | no address ↦ allocated i (ground arith) taken
          | yes null ↦
              let first : i ≡ 0 = omega arith in
              lost (ground arith) (omega arith) (subst (λ k. Taken n k (alloc_on n).1) first taken)
        ]
  ]
]
