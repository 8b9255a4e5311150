-- ===== src/Network/Lost.antt =====
-- kernel/runtime/network_stack.c: the data of a segment that also closes the connection.
use osai.Prelude.{
  ◌-◌, ap, ◌∙◌, add64, ℕ, ◌^◌, ◌<◌, ◌≡◌, refl, arith, true, false, not, ◌||◌, length, ltb, ◌==◌,
  add32, Bool-cases, inl, inr,
}
use osai.SocketBuffer.{BufferPool}
use osai.Network.Flow.{TcpFlow, has_buffer}
use osai.Network.Receive.{
  Segment, has_fin, receive_fin, receive_fin_ack, receive_payload, receive_new_ack, receive_dup_ack,
  receive_ack, settle, receive,
}

fin_expects :
    (f : TcpFlow) (g : Segment) (start : ℕ)
    → has_fin g ≡ true
    → (receive_fin f g start).expected_seq ≡ add32 g.seq 1
unfolding receive_fin
fin_expects f g start fin = rw fin refl

fin_ack_keeps :
    (f : TcpFlow) (g : Segment) (start : ℕ)
    → ((receive_fin_ack f g start).expected_seq ≡ f.expected_seq)
      × ((receive_fin_ack f g start).ooo_buf ≡ f.ooo_buf)
unfolding receive_fin_ack
fin_ack_keeps f g start = ground arith

fin_keeps : (f : TcpFlow) (g : Segment) (start : ℕ) → (receive_fin f g start).ooo_buf ≡ f.ooo_buf
unfolding receive_fin
fin_keeps f g start = ground arith

ack_keeps : (f : TcpFlow) (g : Segment) → (receive_ack f g).ooo_buf ≡ f.ooo_buf
unfolding receive_ack receive_new_ack receive_dup_ack
ack_keeps f g = ground arith

-- A connection drops the payload of a segment whose number is behind the one it expects.
old_payload_dropped :
    (pool : BufferPool) (f : TcpFlow) (g : Segment)
    → g.seq < f.expected_seq
    → receive_payload pool f g ≡ (pool, f)
unfolding receive_payload
old_payload_dropped pool f g behind =
    let other : (g.seq == f.expected_seq) ≡ false = ground (arith, behind) in
    let old : ltb f.expected_seq g.seq ≡ false = ground (arith, behind) in
    elim (Bool-cases (length g.payload == 0 || not (has_buffer f))) [
      | inl nothing ↦ rw (nothing, receive_payload) refl
      | inr some_bytes ↦ rw (some_bytes, other, old, receive_payload) refl
    ]

-- Of a segment with FIN whose sequence number is below 2^32 - 1 no byte of the payload reaches a
-- socket buffer, and none is kept for later: the FIN moves the expected sequence number past it.
pub receive-fin :
    (pool : BufferPool) (f : TcpFlow) (g : Segment) (start : ℕ)
    → has_fin g ≡ true
    → g.seq < 2 ^ 32 - 1
    → ((receive pool f g start).0 ≡ pool) × ((receive pool f g start).1.ooo_buf ≡ f.ooo_buf)
unfolding receive settle
receive-fin pool f g start fin low =
    let seen : TcpFlow = record f { last_seen_ns = start; packets_rx = add64 f.packets_rx 1 } in
    let f1 = receive_fin seen g start in
    let f2 = receive_fin_ack f1 g start in
    let next = fin_expects seen g start fin in
    let (expects, stored) = fin_ack_keeps f1 g start in
    let dropped = old_payload_dropped pool f2 g (omega (arith, next, expects, low)) in
    (
      ap (λ (w : BufferPool × TcpFlow). w.0) dropped,
      ack_keeps (receive_payload pool f2 g).1 g
          ∙ ap (λ (w : BufferPool × TcpFlow). w.1.ooo_buf) dropped
          ∙ stored
          ∙ fin_keeps seen g start,
    )
