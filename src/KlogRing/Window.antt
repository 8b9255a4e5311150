-- ===== src/KlogRing/Window.antt =====
-- The log ring keeps the newest 65536 bytes that were written and not yet read, and counts the
-- others.
use mathlib.Core.List.{append-nil, append_assoc}
use osai.CircularBuffer.{window, window-update, window_step, length-window}
use osai.Prelude.{
  ℕ, suc, ◌+◌, ◌-◌, ◌%◌, ◌^◌, ◌≤◌, ◌<◌, ◌≡◌, refl, ap, ◌∙◌, some, List, [], ◌∷◌, ◌++◌, arith,
  length, length-append, drop, drop-append, drop-drop, length-drop, true, update, add32, sub32, leb,
  Bool-cases, inl, inr, ◌≢◌, sym,
}
use osai.KlogRing.{
  KlogRing, klog_ring_size, drop_oldest, store_byte, put_byte, write_loop, klog_ring_write,
}

pub record IsValid (r : KlogRing) : Type 0 where
  pub write_in : r.write_pos < klog_ring_size
  pub read_in : r.read_pos < klog_ring_size
  pub count_in : r.count ≤ klog_ring_size
  pub write_at : r.write_pos ≡ (r.read_pos + r.count) % klog_ring_size
  pub overflow_in : r.overflow < 2 ^ 32

abbrev pub contents : KlogRing → List ℕ
contents r = window r.buffer klog_ring_size r.read_pos r.count

-- The last `cap` bytes of a list.
abbrev pub newest : ℕ → List ℕ → List ℕ
newest cap bytes = drop (length bytes - cap) bytes

newest-newest :
    (cap : ℕ) (xs ys : List ℕ) → newest cap (newest cap xs ++ ys) ≡ newest cap (xs ++ ys)
newest-newest cap xs ys =
    ap (newest cap) (sym joined)
    ∙ drop-drop (length (drop k (xs ++ ys)) - cap) k (xs ++ ys)
    ∙ ap {A = ℕ} (λ n. drop n (xs ++ ys))
        (omega (arith, length-drop k (xs ++ ys), length-append xs ys))
  where
    k : ℕ
    k = length xs - cap

    joined : drop k (xs ++ ys) ≡ drop k xs ++ ys
    joined = drop-append k xs ys (omega arith)

pub length-contents : (r : KlogRing) → length (contents r) ≡ r.count
length-contents r = length-window r.buffer klog_ring_size r.read_pos r.count

-- Dropping makes room, and takes the first byte of a full ring only.
record Dropped (r r' : KlogRing) : Type 0 where
  valid : IsValid r'
  room : r'.count < klog_ring_size
  left : contents r' ≡ drop (r.count + 1 - klog_ring_size) (contents r)
  counted : r'.overflow ≡ (r.overflow + (r.count + 1 - klog_ring_size)) % 2 ^ 32
  fewer : r'.count ≡ r.count - (r.count + 1 - klog_ring_size)
  kept : r'.initialized ≡ r.initialized

-- Of a ring that is not empty, the first byte and the rest.
contents_step :
    (r : KlogRing)
    → IsValid r
    → r.count ≢ 0
    → drop 1 (contents r)
      ≡ window r.buffer klog_ring_size (add32 r.read_pos 1 % klog_ring_size) (r.count - 1)
contents_step r v ne =
    ap (drop 1) (window_step r.buffer klog_ring_size r.read_pos r.count ne)
    ∙ ap {A = ℕ} (λ h. window r.buffer klog_ring_size h (r.count - 1)) (omega (arith, v.read_in))

drop_oldest-Dropped : (r : KlogRing) → IsValid r → Dropped r (drop_oldest r)
unfolding drop_oldest
drop_oldest-Dropped r v = elim (Bool-cases (leb klog_ring_size r.count)) [
  | inl full ↦
      let one : r.count + 1 - klog_ring_size ≡ 1 = ground arith in
      let less : sub32 r.count 1 ≡ r.count - 1 = ground arith in
      rw full (record {
        valid = ground (arith, v);
        room = ground (arith, v);
        left =
            ap (window r.buffer klog_ring_size (add32 r.read_pos 1 % klog_ring_size)) less
            ∙ sym (contents_step r v (ground arith))
            ∙ ap {A = ℕ} (λ n. drop n (contents r)) (sym one);
        counted = ap {A = ℕ} (λ n. (r.overflow + n) % 2 ^ 32) (sym one);
        fewer = omega (arith, one, less);
        kept = refl;
      })
  | inr space ↦
      let nothing : r.count + 1 - klog_ring_size ≡ 0 = ground arith in
      rw space (record {
        valid = v;
        room = ground arith;
        left = ap {A = ℕ} (λ n. drop n (contents r)) (sym nothing);
        counted = omega (arith, nothing, v.overflow_in);
        fewer = omega (arith, nothing);
        kept = refl;
      })
]

-- What a write of some bytes does to the ring.
pub record Written (r : KlogRing) (bytes : List ℕ) (r' : KlogRing) : Type 0 where
  pub valid : IsValid r'
  pub kept : contents r' ≡ newest klog_ring_size (contents r ++ bytes)
  pub counted : r'.overflow ≡ (r.overflow + (r.count + length bytes - klog_ring_size)) % 2 ^ 32
  pub still : r'.initialized ≡ r.initialized

-- A store into a ring with room.
record Stored (r : KlogRing) (x : ℕ) (r' : KlogRing) : Type 0 where
  valid : IsValid r'
  added : contents r' ≡ contents r ++ x ∷ []
  counted : r'.overflow ≡ r.overflow
  still : r'.initialized ≡ r.initialized

store_byte-Stored :
    (r : KlogRing) (x : ℕ) → IsValid r → r.count < klog_ring_size → Stored r x (store_byte r x)
unfolding store_byte
store_byte-Stored r x v room = record {
  valid = ground (arith, v);
  added =
      ap (window (update r.buffer r.write_pos x) klog_ring_size r.read_pos) {x = add32 r.count 1}
        {y = suc r.count} (omega arith)
      ∙ window-update r.buffer klog_ring_size x r.count r.read_pos r.write_pos v.read_in room
          v.write_at;
  counted = refl;
  still = refl;
}

put_byte-Written : (r : KlogRing) (x : ℕ) → IsValid r → Written r (x ∷ []) (put_byte r x)
unfolding put_byte
put_byte-Written r x v =
    written (drop_oldest-Dropped r v)
      (λ room. store_byte-Stored (drop_oldest r) x (drop_oldest-Dropped r v).valid room)
  where
    k : ℕ
    k = r.count + 1 - klog_ring_size

    after : KlogRing
    after = store_byte (drop_oldest r) x

    dropped : drop k (contents r) ++ x ∷ [] ≡ newest klog_ring_size (contents r ++ x ∷ [])
    dropped =
        sym (drop-append k (contents r) (x ∷ []) (omega (arith, length-contents r, v.count_in)))
        ∙ ap {A = ℕ} (λ n. drop n (contents r ++ x ∷ []))
            (omega (arith, length-append (contents r) (x ∷ []), length-contents r))

    written :
        Dropped r (drop_oldest r)
        → ((drop_oldest r).count < klog_ring_size → Stored (drop_oldest r) x after)
        → Written r (x ∷ []) after
    written d store =
        let s = store d.room in
        record {
          valid = s.valid;
          kept = s.added ∙ ap (λ l. l ++ x ∷ []) d.left ∙ dropped;
          counted = s.counted ∙ d.counted;
          still = s.still ∙ d.kept;
        }

Written-trans :
    (r : KlogRing) (x : ℕ) (bytes : List ℕ) (r₁ r₂ : KlogRing)
    → IsValid r
    → Written r (x ∷ []) r₁
    → Written r₁ bytes r₂
    → Written r (x ∷ bytes) r₂
Written-trans r x bytes r₁ r₂ v one rest = record {
  valid = rest.valid;
  kept =
      rest.kept
      ∙ ap (λ l. newest klog_ring_size (l ++ bytes)) one.kept
      ∙ newest-newest klog_ring_size (contents r ++ x ∷ []) bytes
      ∙ ap (newest klog_ring_size) (append_assoc (contents r) (x ∷ []) bytes);
  counted = omega (
    arith,
    rest.counted,
    one.counted,
    v.count_in,
    length-contents r,
    length-contents r₁,
    ap length one.kept,
    length-append (contents r) (x ∷ []),
    length-drop (length (contents r ++ x ∷ []) - klog_ring_size) (contents r ++ x ∷ []),
  );
  still = rest.still ∙ one.still;
}

write_loop-Written :
    (bytes : List ℕ) (r : KlogRing) → IsValid r → Written r bytes (write_loop bytes r)
unfolding write_loop
write_loop-Written [] r v = record {
  valid = v;
  kept =
      sym (append-nil (contents r))
      ∙ ap {A = ℕ} (λ n. drop n (contents r ++ [])) {x = 0}
          (omega (arith, length-append (contents r) [], length-contents r, v.count_in));
  counted = omega (arith, v.count_in, v.overflow_in);
  still = refl;
}
write_loop-Written (x ∷ bytes) r v =
    let one = put_byte-Written r x v in
    Written-trans r x bytes (put_byte r x) (write_loop bytes (put_byte r x)) v one
      (write_loop-Written bytes (put_byte r x) one.valid)

-- `klog_ring_write` to an initialised ring keeps it valid and leaves in it the newest 65536 bytes
-- of what it held followed by what was written; the overflow count grows, modulo 2^32, by the
-- number of bytes lost.
pub klog_ring_write-Written :
    (r : KlogRing) (bytes : List ℕ)
    → IsValid r
    → r.initialized ≡ true
    → Written r bytes (klog_ring_write r (some bytes))
unfolding klog_ring_write
klog_ring_write-Written r bytes v on = simp on (write_loop-Written bytes r v)
