-- ===== src/SocketBuffer.antt =====
-- kernel/net/socket_buffer.c: the ring of one socket direction, and the pool of rings.
-- A pointer that may be null is an option. The spinlock of the pool makes each call one step.
pub mod Fifo
pub mod Pool
mod Tests
use osai.Prelude.{
  ℕ, zero, suc, ◌+◌, ◌-◌, ◌%◌, ◌^◌, Bool, true, false, not, Option, none, some, List, [], ◌∷◌, ltb,
  ◌==◌, if◌then◌else◌, update, add32, sub32,
}

-- SOCKET_BUFFER_SIZE
abbrev pub socket_buffer_size : ℕ
socket_buffer_size = 4096

-- `socket_buffer_t`
pub record SocketBuffer : Type 0 where
  pub cells : ℕ → ℕ
  pub head : ℕ
  pub tail : ℕ
  pub count : ℕ

-- `sockbuf_init` on an existing buffer: the bytes stay.
pub init : SocketBuffer → SocketBuffer
init b = record b { head = 0; tail = 0; count = 0 }

-- One round of the copy loop of `sockbuf_write`.
pub store_byte : SocketBuffer → ℕ → SocketBuffer
store_byte b x = record b {
  cells = update b.cells b.head x;
  head = add32 b.head 1 % socket_buffer_size;
}

-- The copy loop of `sockbuf_write`: the rounds left, and the caller's bytes from `data[i]` on.
unfoldable pub write_loop : ℕ → List ℕ → SocketBuffer → SocketBuffer
unfolding store_byte
write_loop zero bytes b = b
write_loop (suc n) [] b = b
write_loop (suc n) (x ∷ bytes) b = write_loop n bytes (store_byte b x)

-- `to_write`
abbrev pub write_count : SocketBuffer → ℕ → ℕ
write_count b len =
    let space = sub32 socket_buffer_size b.count in if ltb len space then len else space

-- `sockbuf_write` past its null checks.
pub write_bytes : SocketBuffer → List ℕ → ℕ → ℕ × SocketBuffer
write_bytes b bytes len =
    let n = write_count b len in
    let b' = write_loop n bytes b in (n, record b' { count = add32 b'.count n })

-- `sockbuf_write`
unfoldable pub write : Option SocketBuffer → Option (List ℕ) → ℕ → ℕ × Option SocketBuffer
unfolding write_bytes
write none bytes len = (0, none)
write (some b) none len = (0, some b)
write (some b) (some bytes) zero = (0, some b)
write (some b) (some bytes) (suc n) =
    let (written, b') = write_bytes b bytes (suc n) in (written, some b')

-- `buf->tail = (buf->tail + 1U) % SOCKET_BUFFER_SIZE`
pub skip_byte : SocketBuffer → SocketBuffer
skip_byte b = record b { tail = add32 b.tail 1 % socket_buffer_size }

-- The copy loop of `sockbuf_read`: the bytes stored through `data`, and the buffer after it.
pub read_loop : ℕ → SocketBuffer → List ℕ × SocketBuffer
unfolding skip_byte
read_loop zero b = ([], b)
read_loop (suc n) b = let (bytes, b') = read_loop n (skip_byte b) in (b.cells b.tail ∷ bytes, b')

-- `to_read`
abbrev pub read_count : SocketBuffer → ℕ → ℕ
read_count b len = if ltb len b.count then len else b.count

-- `sockbuf_read` past its null checks: the count, the bytes stored, and the buffer.
pub read_bytes : SocketBuffer → ℕ → ℕ × List ℕ × SocketBuffer
read_bytes b len =
    let n = read_count b len in
    let (bytes, b') = read_loop n b in (n, bytes, record b' { count = sub32 b'.count n })

-- `sockbuf_read`; the flag says whether the caller's buffer is not null.
pub read : Option SocketBuffer → Bool → ℕ → ℕ × List ℕ × Option SocketBuffer
unfolding read_bytes
read none given len = (0, [], none)
read (some b) false len = (0, [], some b)
read (some b) true zero = (0, [], some b)
read (some b) true (suc n) = let (got, bytes, b') = read_bytes b (suc n) in (got, bytes, some b')

-- `sockbuf_available`
pub available : Option SocketBuffer → ℕ
available none = 0
available (some b) = sub32 socket_buffer_size b.count

-- `sockbuf_used`
pub used : Option SocketBuffer → ℕ
used none = 0
used (some b) = b.count

-- `sockbuf_pool_entry_t`
pub record PoolEntry : Type 0 where
  pub buf : SocketBuffer
  pub in_use : Bool

-- `g_pool`, of SOCKET_BUFFER_COUNT entries.
abbrev pub BufferPool : Type 0
BufferPool = List PoolEntry

-- SOCKET_BUFFER_COUNT
abbrev pub socket_buffer_count : ℕ
socket_buffer_count = 32

-- `g_pool[i].in_use = used; sockbuf_init(&g_pool[i].buf);`
pub reset_entry : PoolEntry → Bool → PoolEntry
unfolding init
reset_entry e u = record { buf = init e.buf; in_use = u }

-- `sockbuf_pool_init`
pub pool_init : BufferPool → BufferPool
pool_init [] = []
pool_init (e ∷ pool) = reset_entry e false ∷ pool_init pool

-- `sockbuf_alloc`: the index that stands for the pointer returned, `none` for null. The loop is at
-- entry `i`.
pub alloc_from : ℕ → BufferPool → Option ℕ × BufferPool
alloc_from i [] = (none, [])
alloc_from i (e ∷ pool) =
    let (found, pool') = alloc_from (suc i) pool in
    if not e.in_use then (some i, reset_entry e true ∷ pool) else (found, e ∷ pool')

unfoldable pub alloc : BufferPool → Option ℕ × BufferPool
alloc pool = alloc_from 0 pool

-- The loop of `sockbuf_free`. An index past the pool stands for a foreign pointer.
pub free_at : BufferPool → ℕ → BufferPool
free_at [] k = []
free_at (e ∷ pool) zero = reset_entry e false ∷ pool
free_at (e ∷ pool) (suc k) = e ∷ free_at pool k

-- `sockbuf_free`
pub free : BufferPool → Option ℕ → BufferPool
free pool none = pool
free pool (some k) = free_at pool k
