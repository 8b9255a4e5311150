-- ===== src/Kheap/Sound.antt =====
-- kernel/mm/kheap.c: the blocks of the heap, free ones and those that callers hold.
use osai.Prelude.{
  ℕ, ◌+◌, ◌-◌, ◌*◌, ◌≤◌, ◌≡◌, ◌≢◌, refl, sym, subst, arith, ◌⊎◌, inl, inr, List, [], ◌∷◌, All,
  length, add64, update, update_self, update-ne,
}
use osai.Kheap.{
  kheap_base, header_size, Heap, Link, head, next_of, write_link, reuse, write_header,
  release_block,
}
use osai.Kheap.Chain.{
  Linked, NotIn, Distinct, Linked-update, Takes, at_head, All-Takes, Linked-Drop, Linked-Takes,
}
use osai.Kheap.Mapped.{IsBoundary}
use osai.Kheap.Pairs.{
  Pairwise, Remove, All-map, All-both, All-Remove, length-Takes, length-Remove, Pairwise-Takes,
  Pairwise-Remove, Pairwise-weaken, Cross-weaken,
}

-- Two blocks, each a header and its bytes, do not overlap.
abbrev pub Apart : (ℕ → ℕ) → ℕ → ℕ → Type 0
Apart size a b = (a + 16 + size a ≤ b) ⊎ (b + 16 + size b ≤ a)

Apart-sym : (size : ℕ → ℕ) (a b : ℕ) → Apart size a b → Apart size b a
Apart-sym size a b (inl h) = inr h
Apart-sym size a b (inr h) = inl h

Apart-ne : (size : ℕ → ℕ) (a b : ℕ) → Apart size a b → b ≢ a
Apart-ne size a b (inl h) e = omega arith
Apart-ne size a b (inr h) e = omega arith

-- A block lies in the part of the heap that is in use.
pub record Inside (size : ℕ → ℕ) (next a : ℕ) : Type 0 where
  pub low : kheap_base ≤ a
  pub high : a + 16 + size a ≤ next

-- The free list is the chain `cs`, and callers hold the blocks `ls`: all of them lie apart inside
-- the heap, whose pages are mapped up to its last byte in use.
pub record IsSound (h : Heap) (cs ls : List ℕ) : Type 0 where
  pub linked : Linked h.next_free h.free_list cs
  pub free_apart : Pairwise (Apart h.size) cs
  pub live_apart : Pairwise (Apart h.size) ls
  pub cross : All (λ x. All (Apart h.size x) ls) cs
  pub free_inside : All (Inside h.size h.next) cs
  pub live_inside : All (Inside h.size h.next) ls
  pub mapped : h.next ≤ h.mapped_end
  pub boundary : IsBoundary h.mapped_end
  pub room : kheap_base + 16 * (length cs + length ls) ≤ h.next

All-NotIn : (size : ℕ → ℕ) (b : ℕ) (xs : List ℕ) → All (Apart size b) xs → NotIn b xs
All-NotIn size b xs a = All-map (Apart size b) (λ x. x ≢ b) xs (λ x. Apart-ne size b x) a

Pairwise-Distinct : (size : ℕ → ℕ) (xs : List ℕ) → Pairwise (Apart size) xs → Distinct xs
Pairwise-Distinct size [] p = tt
Pairwise-Distinct size (x ∷ xs) p = (All-NotIn size x xs p.0, Pairwise-Distinct size xs p.1)

-- The chain after a block is taken out through its link.
write_link-Linked :
    (b : ℕ) (l : Link) (h : Heap) {xs ws : List ℕ}
    → Takes b l xs ws
    → Distinct xs
    → Linked h.next_free h.free_list xs
    → let h' = write_link l (h.next_free b) h in Linked h'.next_free h'.free_list ws
unfolding write_link
write_link-Linked b head h (at_head d) distinct l = Linked-Drop h.next_free h.free_list d l
write_link-Linked b (next_of w) h t distinct l = Linked-Takes h.next_free h.free_list t distinct l

-- The blocks after one is taken out of the chain, whatever its fields are linked by.
taken-IsSound :
    (b : ℕ) (l : Link) (h : Heap) {cs ls rest : List ℕ} (next_free : ℕ → ℕ) (first bytes : ℕ)
    → IsSound h cs ls
    → Takes b l cs rest
    → Linked next_free first rest
    → IsSound
        (record h { next_free = update next_free b 0; free_list = first; bytes_allocated = bytes })
        rest
        (b ∷ ls)
taken-IsSound b l h {cs} {ls} {rest} next_free first bytes s t chain =
    let (apart, kept) = Pairwise-Takes (Apart h.size) (Apart-sym h.size) t s.free_apart in
    let (far, cross) = All-Takes (λ x. All (Apart h.size x) ls) t s.cross in
    let (inside, free_inside) = All-Takes (Inside h.size h.next) t s.free_inside in
    let from_b =
      All-map (Apart h.size b) (λ x. Apart h.size x b) rest (λ x. Apart-sym h.size b x) apart in
    record {
      linked = Linked-update next_free b 0 first rest (All-NotIn h.size b rest apart) chain;
      free_apart = kept;
      live_apart = (far, s.live_apart);
      cross =
          All-map (λ x. Apart h.size x b × All (Apart h.size x) ls)
            (λ x. All (Apart h.size x) (b ∷ ls)) rest (λ x p. p)
            (All-both (λ x. Apart h.size x b) (λ x. All (Apart h.size x) ls) rest from_b cross);
      free_inside = free_inside;
      live_inside = (inside, s.live_inside);
      mapped = s.mapped;
      boundary = s.boundary;
      room = omega (arith, s.room, length-Takes t);
    }

pub reuse-IsSound :
    (size b : ℕ) (l : Link) (h : Heap) {cs ls rest : List ℕ}
    → IsSound h cs ls
    → Takes b l cs rest
    → IsSound (reuse size b l h).1 rest (b ∷ ls)
unfolding reuse write_link
reuse-IsSound size b head h {cs} s t =
    taken-IsSound b head h h.next_free (h.next_free b) (add64 h.bytes_allocated size) s t
      (write_link-Linked b head h t (Pairwise-Distinct h.size cs s.free_apart) s.linked)
reuse-IsSound size b (next_of w) h {cs} s t =
    taken-IsSound b (next_of w) h (update h.next_free w (h.next_free b)) h.free_list
      (add64 h.bytes_allocated size) s t
      (write_link-Linked b (next_of w) h t (Pairwise-Distinct h.size cs s.free_apart) s.linked)

-- A write to the size of a new header leaves the blocks before it as they are.
Inside-update :
    (size : ℕ → ℕ) (next hdr n next' a : ℕ)
    → next ≤ hdr
    → hdr ≤ next'
    → Inside size next a
    → Inside (update size hdr n) next' a
Inside-update size next hdr n next' a under above i =
    let same = update-ne size hdr a n (λ e. absurd (omega (arith, i.high, e))) in
    record { low = i.low; high = omega (arith, i.high, same) }

Apart-update :
    (size : ℕ → ℕ) (next hdr n a b : ℕ)
    → next ≤ hdr
    → Inside size next a
    → Inside size next b
    → Apart size a b
    → Apart (update size hdr n) a b
Apart-update size next hdr n a b under i j (inl h) =
    let same = update-ne size hdr a n (λ e. absurd (omega (arith, i.high, e))) in
    inl (omega (arith, same, h))
Apart-update size next hdr n a b under i j (inr h) =
    let same = update-ne size hdr b n (λ e. absurd (omega (arith, j.high, e))) in
    inr (omega (arith, same, h))

Inside-Apart :
    (size : ℕ → ℕ) (next hdr n a : ℕ)
    → next ≤ hdr
    → Inside size next a
    → Apart (update size hdr n) a hdr
Inside-Apart size next hdr n a under i =
    let same = update-ne size hdr a n (λ e. absurd (omega (arith, i.high, e))) in
    inl (omega (arith, same, i.high))

-- A header that is written behind all blocks is one more block.
pub write_header-IsSound :
    (size data_start : ℕ) (h : Heap) {cs ls : List ℕ}
    → IsSound h cs ls
    → h.next + 16 ≤ data_start
    → data_start + size ≤ h.mapped_end
    → IsSound (write_header size data_start h).1 cs ((data_start - 16) ∷ ls)
unfolding write_header
write_header-IsSound size data_start h {cs} {ls} s after fits =
    let hdr = data_start - 16 in
    let under : h.next ≤ hdr = omega arith in
    let size' = update h.size hdr size in
    let old : (a : ℕ) → Inside h.size h.next a → Inside size' (data_start + size) a =
      λ a. Inside-update h.size h.next hdr size (data_start + size) a under (omega arith) in
    let keep : (a b : ℕ)
        → Inside h.size h.next a
        → Inside h.size h.next b
        → Apart h.size a b
        → Apart size' a b =
      λ a b. Apart-update h.size h.next hdr size a b under in
    let far : (a : ℕ) → Inside h.size h.next a → Apart size' a hdr =
      λ a. Inside-Apart h.size h.next hdr size a under in
    let out : NotIn hdr cs =
      All-map (Inside h.size h.next) (λ x. x ≢ hdr) cs (λ x i e. omega (arith, i.high, e))
        s.free_inside in
    record {
      linked = Linked-update h.next_free hdr 0 h.free_list cs out s.linked;
      free_apart =
          Pairwise-weaken (Inside h.size h.next) (Apart h.size) (Apart size') keep cs s.free_inside
            s.free_apart;
      live_apart = (
        All-map (Inside h.size h.next) (Apart size' hdr) ls (λ a i. Apart-sym size' a hdr (far a i))
            s.live_inside,
        Pairwise-weaken (Inside h.size h.next) (Apart h.size) (Apart size') keep ls s.live_inside
            s.live_apart,
      );
      cross =
          All-both (λ x. Apart size' x hdr) (λ x. All (Apart size' x) ls) cs
            (All-map (Inside h.size h.next) (λ x. Apart size' x hdr) cs far s.free_inside)
            (Cross-weaken (Inside h.size h.next) (Apart h.size) (Apart size') keep cs ls
              s.free_inside s.live_inside s.cross);
      free_inside =
          All-map (Inside h.size h.next) (Inside size' (data_start + size)) cs old s.free_inside;
      live_inside = (
        record { low = omega (arith, s.room); high = omega (arith, update_self h.size hdr size) },
        All-map (Inside h.size h.next) (Inside size' (data_start + size)) ls old s.live_inside,
      );
      mapped = fits;
      boundary = s.boundary;
      room = omega (arith, s.room);
    }

-- A block that a caller gives back is the first of the chain.
pub release_block-IsSound :
    (x : ℕ) (h : Heap) {cs ls rest : List ℕ}
    → IsSound h cs ls
    → Remove x ls rest
    → IsSound (release_block (x + header_size) h) (x ∷ cs) rest
unfolding release_block
release_block-IsSound x h {cs} {ls} {rest} s r =
    let hdr : x + 16 - 16 ≡ x = omega arith in
    let bytes = (release_block (x + header_size) h).bytes_allocated in
    let (apart, kept) = Pairwise-Remove (Apart h.size) (Apart-sym h.size) r s.live_apart in
    let (inside, live_inside) = All-Remove (Inside h.size h.next) r s.live_inside in
    let both =
      All-map (λ y. All (Apart h.size y) ls) (λ y. Apart h.size y x × All (Apart h.size y) rest) cs
        (λ y a. All-Remove (Apart h.size y) r a) s.cross in
    let from_x =
      All-map (λ y. Apart h.size y x × All (Apart h.size y) rest) (Apart h.size x) cs
        (λ y p. Apart-sym h.size y x p.0) both in
    let cross =
      All-map (λ y. Apart h.size y x × All (Apart h.size y) rest) (λ y. All (Apart h.size y) rest)
        cs (λ y p. p.1) both in
    let chain : Linked (update h.next_free x h.free_list) h.free_list cs =
      Linked-update h.next_free x h.free_list h.free_list cs (All-NotIn h.size x cs from_x)
        s.linked in
    let given : IsSound
        (record h {
          next_free = update h.next_free x h.free_list;
          free_list = x;
          bytes_allocated = bytes;
        })
        (x ∷ cs) rest =
      record {
        linked = (
          refl,
          ground (arith, inside.low),
          subst (λ q. Linked (update h.next_free x h.free_list) q cs)
              (sym (update_self h.next_free x h.free_list)) chain,
        );
        free_apart = (from_x, s.free_apart);
        live_apart = kept;
        cross = (apart, cross);
        free_inside = (inside, s.free_inside);
        live_inside = live_inside;
        mapped = s.mapped;
        boundary = s.boundary;
        room = omega (arith, s.room, length-Remove r);
      } in
    subst
      (λ z.
        IsSound
          (record h {
            next_free = update h.next_free z h.free_list;
            free_list = z;
            bytes_allocated = bytes;
          })
          (x ∷ cs) rest)
      (sym hdr) given
