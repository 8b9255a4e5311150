-- ===== src/Network/Reassembly.antt =====
-- kernel/runtime/network_stack.c: reading and writing the socket buffers of a connection, and the
-- segments that arrive before their turn.
use osai.Prelude.{
  ℕ, zero, suc, ◌%◌, ◌^◌, Bool, true, false, not, ◌&&◌, ◌||◌, Option, none, some, List, [], ◌∷◌,
  length, take, leb, ◌==◌, if◌then◌else◌, set, get_elem?, add32,
}
use osai.SocketBuffer.{SocketBuffer, BufferPool, write, read, available, used}
use osai.Network.Flow.{TcpFlow, OooSegment, tcp_mss}

-- The buffer that a pointer of a connection stands for.
unfoldable pub buffer_at : BufferPool → Option ℕ → Option SocketBuffer
buffer_at pool none = none
buffer_at pool (some k) = elim (get_elem? pool k) [ none ↦ none | some e ↦ some e.buf ]

-- The pool after a call changed that buffer.
unfoldable pub put_buffer : BufferPool → Option ℕ → Option SocketBuffer → BufferPool
put_buffer pool (some k) (some b) = elim (get_elem? pool k) [
  | none ↦ pool
  | some e ↦ set pool k (record e { buf = b })
]
put_buffer pool _ _ = pool

-- `sockbuf_write` through a pointer.
unfoldable pub write_buffer : BufferPool → Option ℕ → List ℕ → ℕ × BufferPool
unfolding buffer_at put_buffer
write_buffer pool p bytes =
    let out = write (buffer_at pool p) (some bytes) (length bytes) in
    (out.0, put_buffer pool p out.1)

-- `sockbuf_read` through a pointer, into a buffer of `n` bytes.
unfoldable pub read_buffer : BufferPool → Option ℕ → ℕ → ℕ × List ℕ × BufferPool
unfolding buffer_at put_buffer
read_buffer pool p n =
    let (got, bytes, b) = read (buffer_at pool p) true n in (got, bytes, put_buffer pool p b)

-- `(uint16_t)sockbuf_available(…)`
unfoldable pub available_at : BufferPool → Option ℕ → ℕ
unfolding buffer_at
available_at pool p = available (buffer_at pool p) % 2 ^ 16

-- "tx_buf == 0 || sockbuf_used(tx_buf) == 0"
unfoldable pub is_drained : BufferPool → Option ℕ → Bool
unfolding buffer_at
is_drained pool p = used (buffer_at pool p) == 0

-- Bytes of a segment in turn go to the receive buffer: the count, the pool and the connection.
unfoldable pub deliver : BufferPool → TcpFlow → List ℕ → ℕ × BufferPool × TcpFlow
unfolding write_buffer available_at
deliver pool f bytes =
    let (written, pool') = write_buffer pool f.rx_buf bytes in
    (
      written,
      pool',
      record f {
        expected_seq = add32 f.expected_seq written;
        pending_ack = true;
        window_size = available_at pool' f.rx_buf;
      },
    )

-- The scan of `ooo_buffer_store` for a slot that is not in use.
unfoldable pub store_in : List OooSegment → OooSegment → List OooSegment
store_in [] new = []
store_in (o ∷ slots) new =
    let rest = store_in slots new in if not o.in_use then new ∷ slots else o ∷ rest

-- `ooo_buffer_store`
unfoldable pub ooo_buffer_store : TcpFlow → ℕ → List ℕ → TcpFlow
unfolding store_in
ooo_buffer_store f seq bytes =
    let new : OooSegment = record { seq = seq; in_use = true; bytes = take tcp_mss bytes } in
    if (length bytes == 0) || leb seq f.expected_seq
    then f
    else record f { ooo_buf = store_in f.ooo_buf new }

-- "in_use && seq == expected_seq"
abbrev pub in_turn : OooSegment → ℕ → Bool
in_turn o expected = o.in_use && (o.seq == expected)

-- The state of the loops of `ooo_buffer_drain`: `progress`, `total`, the pool and the connection.
pub record Draining : Type 0 where
  pub progress : Bool
  pub total : ℕ
  pub pool : BufferPool
  pub flow : TcpFlow

-- The body of the inner loop for slot `i`.
unfoldable pub drain_slot : ℕ → Draining → Draining
unfolding deliver
drain_slot i d = elim (get_elem? d.flow.ooo_buf i) [
  | none ↦ d
  | some o ↦
      let (written, pool', f) = deliver d.pool d.flow o.bytes in
      if in_turn o d.flow.expected_seq
      then record {
        progress = true;
        total = add32 d.total written;
        pool = pool';
        flow = record f { ooo_buf = set f.ooo_buf i (record o { in_use = false }) };
      }
      else d
]

-- One run of the inner loop, over the four slots.
unfoldable pub drain_round : Draining → Draining
unfolding drain_slot
drain_round d =
    drain_slot 3 (drain_slot 2 (drain_slot 1 (drain_slot 0 (record d { progress = false }))))

-- "while (progress)", with at most so many rounds.
unfoldable pub drain_loop : ℕ → Draining → Draining
unfolding drain_round
drain_loop zero d = d
drain_loop (suc fuel) d =
    let rest = drain_loop fuel (drain_round d) in if d.progress then rest else d

-- The rounds that are enough: every round but the last frees a slot.
abbrev pub drain_fuel : ℕ
drain_fuel = 5

-- `ooo_buffer_drain`: `total`, the pool and the connection after it.
unfoldable pub ooo_buffer_drain : BufferPool → TcpFlow → Draining
unfolding drain_loop
ooo_buffer_drain pool f =
    drain_loop drain_fuel (record { progress = true; total = 0; pool = pool; flow = f })
