-- ===== src/KlogRing.antt =====
-- kernel/core/klog_ring.c: the kernel log's ring, which drops its oldest bytes when it is full.
-- Rotation and flush, which write the ring to a file, are not modelled.
pub mod Window
pub mod Read
mod Tests
use osai.Prelude.{
  ℕ, zero, suc, ◌+◌, ◌-◌, ◌%◌, ◌^◌, Bool, true, false, ◌||◌, not, Option, none, some, List, [], ◌∷◌,
  leb, ltb, ◌==◌, if◌then◌else◌, update, add32, sub32,
}

-- XAIOS_KLOG_RING_SIZE
abbrev pub klog_ring_size : ℕ
klog_ring_size = 65536

-- `xaios_klog_ring_t` with `g_ring_initialized`, `g_persist_count` and `g_rotate_count`.
pub record KlogRing : Type 0 where
  pub buffer : ℕ → ℕ
  pub write_pos : ℕ
  pub read_pos : ℕ
  pub count : ℕ
  pub overflow : ℕ
  pub initialized : Bool
  pub persist_count : ℕ
  pub rotate_count : ℕ

-- `klog_ring_init`
pub klog_ring_init : KlogRing
klog_ring_init = record {
  buffer = λ i. 0;
  write_pos = 0;
  read_pos = 0;
  count = 0;
  overflow = 0;
  initialized = true;
  persist_count = 0;
  rotate_count = 0;
}

-- "Buffer full: drop oldest byte"
pub drop_oldest : KlogRing → KlogRing
drop_oldest r =
    if leb klog_ring_size r.count
    then record r {
      read_pos = add32 r.read_pos 1 % klog_ring_size;
      count = sub32 r.count 1;
      overflow = add32 r.overflow 1;
    }
    else r

-- The store after it.
pub store_byte : KlogRing → ℕ → KlogRing
store_byte r x = record r {
  buffer = update r.buffer r.write_pos x;
  write_pos = add32 r.write_pos 1 % klog_ring_size;
  count = add32 r.count 1;
}

-- One round of `klog_ring_write`.
pub put_byte : KlogRing → ℕ → KlogRing
put_byte r x = store_byte (drop_oldest r) x

-- The loop of `klog_ring_write` over `data[0..length)`.
pub write_loop : List ℕ → KlogRing → KlogRing
write_loop [] r = r
write_loop (x ∷ bytes) r = write_loop bytes (put_byte r x)

-- `klog_ring_write`; `none` is a null pointer, and the list is `data[0..length)`.
pub klog_ring_write : KlogRing → Option (List ℕ) → KlogRing
klog_ring_write r none = r
klog_ring_write r (some bytes) = if r.initialized then write_loop bytes r else r

-- `g_ring.read_pos = (g_ring.read_pos + 1U) % XAIOS_KLOG_RING_SIZE`
pub skip_byte : KlogRing → KlogRing
skip_byte r = record r { read_pos = add32 r.read_pos 1 % klog_ring_size }

-- The loop of `klog_ring_read`: what is stored through `out`, and the ring.
pub read_loop : ℕ → KlogRing → List ℕ × KlogRing
read_loop zero r = ([], r)
read_loop (suc n) r =
    let (bytes, r') = read_loop n (skip_byte r) in (r.buffer r.read_pos ∷ bytes, r')

-- `to_read`
abbrev pub read_count : KlogRing → ℕ → ℕ
read_count r max_len = if ltb r.count max_len then r.count else max_len

-- `klog_ring_read` into a buffer that is not null: the count, the bytes, and the ring.
pub klog_ring_read : KlogRing → ℕ → ℕ × List ℕ × KlogRing
klog_ring_read r max_len =
    if not r.initialized || max_len == 0
    then (0, [], r)
    else (let n = read_count r max_len in
        let (bytes, r') = read_loop n r in (n, bytes, record r' { count = sub32 r'.count n }))

-- `klog_ring_clear`
pub klog_ring_clear : KlogRing → KlogRing
klog_ring_clear r = record r { write_pos = 0; read_pos = 0; count = 0 }
