-- ===== src/SocketBuffer/Fifo.antt =====
-- A socket buffer is a FIFO of at most 4096 bytes: what a write and a read do to its contents.
use mathlib.Core.List.{append-nil, append_assoc}
use osai.CircularBuffer.{window, window-update}
use osai.Prelude.{
  ℕ, zero, suc, ◌+◌, ◌-◌, ◌%◌, ◌≤◌, ◌<◌, ◌≡◌, refl, ap, ◌∙◌, min, some, List, [], ◌∷◌, ◌++◌, arith,
  length, take, drop, true,
}
use osai.SocketBuffer.{
  SocketBuffer, socket_buffer_size, write_loop, write_count, write_bytes, write, read_loop,
  read_count, read_bytes, read, available, used, store_byte, skip_byte,
}

-- The indices stay in the array, and `head` is `count` places on from `tail`.
pub record IsValid (b : SocketBuffer) : Type 0 where
  pub head_in : b.head < socket_buffer_size
  pub tail_in : b.tail < socket_buffer_size
  pub count_in : b.count ≤ socket_buffer_size
  pub head_at : b.head ≡ (b.tail + b.count) % socket_buffer_size

abbrev pub contents : SocketBuffer → List ℕ
contents b = window b.cells socket_buffer_size b.tail b.count

-- During the copy loop of a write `count` is behind: `n` bytes stand from `tail` on.
record Writing (n : ℕ) (b : SocketBuffer) : Type 0 where
  tail_in : b.tail < socket_buffer_size
  head_at : b.head ≡ (b.tail + n) % socket_buffer_size

record Wrote (n m k : ℕ) (bytes : List ℕ) (b b' : SocketBuffer) : Type 0 where
  tail_kept : b'.tail ≡ b.tail
  count_kept : b'.count ≡ b.count
  head_at : b'.head ≡ (b.tail + m) % socket_buffer_size
  stored :
      window b'.cells socket_buffer_size b.tail m
      ≡ window b.cells socket_buffer_size b.tail n ++ take k bytes

store_byte-Wrote :
    (k n m x : ℕ) (bytes : List ℕ) (b : SocketBuffer) {b' : SocketBuffer}
    → Writing n b
    → n < socket_buffer_size
    → Wrote (suc n) m k bytes (store_byte b x) b'
    → Wrote n m (suc k) (x ∷ bytes) b b'
unfolding store_byte
store_byte-Wrote k n m x bytes b w room rest = record {
  tail_kept = rest.tail_kept;
  count_kept = rest.count_kept;
  head_at = rest.head_at;
  stored =
      rest.stored
      ∙ ap (λ l. l ++ take k bytes)
          (window-update b.cells socket_buffer_size x n b.tail b.head w.tail_in room w.head_at)
      ∙ (append_assoc (window b.cells socket_buffer_size b.tail n) (x ∷ []) (take k bytes));
}

write_loop-Wrote :
    (k n m : ℕ) (bytes : List ℕ) (b : SocketBuffer)
    → Writing n b
    → n + k ≡ m
    → m ≤ socket_buffer_size
    → k ≤ length bytes
    → Wrote n m k bytes b (write_loop k bytes b)
unfolding write_loop
write_loop-Wrote zero n m bytes b w e room given =
    let same : n ≡ m = omega arith in
    record {
      tail_kept = refl;
      count_kept = refl;
      head_at = rw (← same) w.head_at;
      stored = rw (← same) (rw append-nil);
    }
write_loop-Wrote (suc k) n m [] b w e room given = absurd (omega arith)
write_loop-Wrote (suc k) n m (x ∷ bytes) b w e room given =
    store_byte-Wrote k n m x bytes b w (omega arith) (
      write_loop-Wrote k (suc n) m bytes (store_byte b x)
        (record { tail_in = w.tail_in; head_at = ground (arith, w.head_at) }) (omega arith) room
        (omega arith))

-- What `sockbuf_write` does once its pointers are checked.
write_bytes_lem :
    (b : SocketBuffer) (bytes : List ℕ) (len : ℕ)
    → IsValid b
    → len ≤ length bytes
    → let (n, b') = write_bytes b bytes len in
      (n ≡ min len (socket_buffer_size - b.count))
      × IsValid b'
      × (contents b' ≡ contents b ++ take n bytes)
      × (b'.count ≡ b.count + n)
unfolding write_bytes
write_bytes_lem b bytes len v given =
    let n : ℕ = write_count b len in
    let fits : b.count + n ≤ socket_buffer_size = ground arith in
    ground (
      arith,
      write_loop-Wrote n b.count (b.count + n) bytes b
          (record { tail_in = v.tail_in; head_at = v.head_at }) refl fits,
    )

skip_byte_lem :
    (b : SocketBuffer)
    → b.tail < socket_buffer_size
    → (skip_byte b).tail ≡ (b.tail + 1) % socket_buffer_size
unfolding skip_byte
skip_byte_lem b inside = omega arith

-- `n` places on: what a read leaves from `tail`, and where.
record Took (n m : ℕ) (b : SocketBuffer) (out : List ℕ × SocketBuffer) : Type 0 where
  bytes : out.0 ≡ take n (window b.cells socket_buffer_size b.tail m)
  left :
      window out.1.cells socket_buffer_size out.1.tail (m - n)
      ≡ drop n (window b.cells socket_buffer_size b.tail m)
  cells_kept : out.1.cells ≡ b.cells
  head_kept : out.1.head ≡ b.head
  count_kept : out.1.count ≡ b.count
  tail_at : out.1.tail ≡ (b.tail + n) % socket_buffer_size

read_loop-Took :
    (n m : ℕ) (b : SocketBuffer) → b.tail < socket_buffer_size → n ≤ m → Took n m b (read_loop n b)
unfolding read_loop skip_byte
read_loop-Took zero m b inside fits = record {
  bytes = refl;
  left = ap (window b.cells socket_buffer_size b.tail) (omega arith);
  cells_kept = refl;
  head_kept = refl;
  count_kept = refl;
  tail_at = omega arith;
}
read_loop-Took (suc n) zero b inside fits = absurd (omega arith)
read_loop-Took (suc n) (suc m) b inside fits =
    ground (arith, skip_byte_lem b inside, read_loop-Took n m (skip_byte b))

read_bytes_lem :
    (b : SocketBuffer) (len : ℕ)
    → IsValid b
    → let (n, out, b') = read_bytes b len in
      (n ≡ min len b.count)
      × (out ≡ take n (contents b))
      × IsValid b'
      × (contents b' ≡ drop n (contents b))
unfolding read_bytes
read_bytes_lem b len v = ground (arith, read_loop-Took (read_count b len) b.count b v.tail_in)

-- `sockbuf_write` of `len` bytes that the caller has takes as many as there is space for, appends
-- exactly those to the contents in order, and keeps the buffer valid; `sockbuf_used` grows by
-- their number.
pub write_appends :
    (b : SocketBuffer) (bytes : List ℕ) (len : ℕ)
    → IsValid b
    → len ≤ length bytes
    → (b' : SocketBuffer) × (write (some b) (some bytes) len
        ≡ (min len (available (some b)), some b'))
      × IsValid b'
      × (contents b' ≡ contents b ++ take (min len (available (some b))) bytes)
      × (used (some b') ≡ used (some b) + min len (available (some b)))
unfolding write available used write_bytes
write_appends b bytes zero v given =
    let nothing : min 0 (available (some b)) ≡ 0 = omega arith in
    rw nothing (b, refl, v, rw append-nil, omega arith)
write_appends b bytes (suc n) v given =
    let room : available (some b) ≡ socket_buffer_size - b.count = omega (arith, v.count_in) in
    let (counted, valid, appended, grown) = write_bytes_lem b bytes (suc n) v given in
    rw room (
      (write_bytes b bytes (suc n)).1,
      ground (arith, counted),
      valid,
      ground (arith, counted, appended),
      ground (arith, counted, grown),
    )

-- `sockbuf_read` of `len` bytes into a caller's buffer stores the oldest `min len used` bytes in
-- order, removes exactly those from the contents, and keeps the buffer valid.
pub read_removes :
    (b : SocketBuffer) (len : ℕ)
    → IsValid b
    → (b' : SocketBuffer) × (read (some b) true len
        ≡ (min len (used (some b)), take (min len (used (some b))) (contents b), some b'))
      × IsValid b'
      × (contents b' ≡ drop (min len (used (some b))) (contents b))
unfolding read used read_bytes
read_removes b zero v =
    let nothing : min 0 (used (some b)) ≡ 0 = omega arith in rw nothing (b, refl, v, refl)
read_removes b (suc n) v =
    let (counted, stored, valid, left) = read_bytes_lem b (suc n) v in
    (
      (read_bytes b (suc n)).2,
      ground (arith, counted, stored),
      valid,
      left ∙ ap (λ k. drop k (contents b)) counted,
    )
