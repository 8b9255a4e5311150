-- ===== src/KlogRing/Read.antt =====
-- `klog_ring_read` and `klog_ring_clear`: what they take out of the log ring.
use osai.CircularBuffer.{window}
use osai.Prelude.{
  ℕ, zero, suc, ◌+◌, ◌-◌, ◌%◌, ◌≤◌, ◌<◌, ◌≡◌, refl, ap, min, List, arith, take, drop, true,
}
use osai.KlogRing.{KlogRing, klog_ring_size, skip_byte, read_loop, read_count, klog_ring_read}
use osai.KlogRing.Window.{IsValid, contents}

skip_byte_lem :
    (r : KlogRing)
    → r.read_pos < klog_ring_size
    → (skip_byte r).read_pos ≡ (r.read_pos + 1) % klog_ring_size
unfolding skip_byte
skip_byte_lem r inside = omega arith

-- After `n` rounds of the copy loop on a ring that holds `m` bytes.
record Took (n m : ℕ) (r : KlogRing) (out : List ℕ × KlogRing) : Type 0 where
  bytes : out.0 ≡ take n (window r.buffer klog_ring_size r.read_pos m)
  left :
      window out.1.buffer klog_ring_size out.1.read_pos (m - n)
      ≡ drop n (window r.buffer klog_ring_size r.read_pos m)
  read_at : out.1.read_pos ≡ (r.read_pos + n) % klog_ring_size
  kept : out.1 ≡ record r { read_pos = out.1.read_pos }

read_loop-Took :
    (n m : ℕ) (r : KlogRing) → r.read_pos < klog_ring_size → n ≤ m → Took n m r (read_loop n r)
unfolding read_loop skip_byte
read_loop-Took zero m r inside fits = record {
  bytes = refl;
  left = ap (window r.buffer klog_ring_size r.read_pos) (omega arith);
  read_at = omega arith;
  kept = refl;
}
read_loop-Took (suc n) zero r inside fits = absurd (omega arith)
read_loop-Took (suc n) (suc m) r inside fits =
    ground (arith, skip_byte_lem r inside, read_loop-Took n m (skip_byte r))

-- `klog_ring_read` of an initialised ring returns the oldest `min count max_len` bytes in order,
-- leaves exactly the others, keeps the ring valid and loses nothing (the overflow count stays).
pub klog_ring_read-oldest :
    (r : KlogRing) (max_len : ℕ)
    → IsValid r
    → r.initialized ≡ true
    → let (n, bytes, r') = klog_ring_read r max_len in
      (n ≡ min r.count max_len)
      × (bytes ≡ take n (contents r))
      × (contents r' ≡ drop n (contents r))
      × IsValid r'
      × (r'.overflow ≡ r.overflow)
unfolding klog_ring_read
klog_ring_read-oldest r max_len v on =
    ground (arith, read_loop-Took (read_count r max_len) r.count r v.read_in)
