-- ===== src/Network/Receive.antt =====
-- kernel/runtime/network_stack.c: what an open connection does with a segment, in the order of
-- `network_stack_process_tcp_frame`.
use osai.Prelude.{
  ℕ, ◌-◌, ◌*◌, ◌/◌, ◌%◌, ◌^◌, Bool, true, not, ◌&&◌, ◌||◌, List, length, bit_and, ltb, leb, ◌==◌,
  if◌then◌else◌, add32, sub32, add64,
}
use osai.SocketBuffer.{BufferPool}
use osai.Network.Flow.{
  FlowState, established, close_wait, fin_wait, fin_wait_2, time_wait, TcpFlow, tcp_mss, has_buffer,
}
use osai.Network.Reassembly.{deliver, ooo_buffer_store, ooo_buffer_drain, is_drained}

-- A frame as `parse_tcp` and `parse_tcp_options` read it: the addresses in host order, the payload,
-- and the values of the options, 0 where there is none.
pub record Segment : Type 0 where
  pub frame_len : ℕ
  pub src_port : ℕ
  pub dst_port : ℕ
  pub remote_address : ℕ
  pub local_address : ℕ
  pub seq : ℕ
  pub ack : ℕ
  pub flags : ℕ
  pub payload : List ℕ
  pub mss : ℕ
  pub window_scale : ℕ

abbrev pub has_fin : Segment → Bool
has_fin g = not (bit_and g.flags 1 == 0)

abbrev pub has_syn : Segment → Bool
has_syn g = not (bit_and g.flags 2 == 0)

abbrev pub has_rst : Segment → Bool
has_rst g = not (bit_and g.flags 4 == 0)

abbrev pub has_ack : Segment → Bool
has_ack g = not (bit_and g.flags 16 == 0)

-- The state after a FIN.
abbrev pub after_fin : FlowState → FlowState
after_fin established = close_wait
after_fin fin_wait_2 = time_wait
after_fin state = state

-- "Handle incoming FIN"
unfoldable pub receive_fin : TcpFlow → Segment → ℕ → TcpFlow
receive_fin f g start =
    if has_fin g
    then record f {
      expected_seq = add32 g.seq 1;
      pending_ack = true;
      state = after_fin f.state;
      last_seen_ns = start;
    }
    else f

-- "ACK of our FIN"
unfoldable pub receive_fin_ack : TcpFlow → Segment → ℕ → TcpFlow
receive_fin_ack f g start =
    let moved = record f { state = fin_wait_2; last_seen_ns = start } in
    if has_ack g && ltb f.local_seq g.ack then elim f.state [ fin_wait ↦ moved | _ ↦ f ] else f

-- The payload: in turn it is delivered and the segments behind it with it, ahead of its turn it is
-- stored, and an old one is dropped.
unfoldable pub receive_payload : BufferPool → TcpFlow → Segment → BufferPool × TcpFlow
unfolding deliver ooo_buffer_drain ooo_buffer_store
receive_payload pool f g =
    let (written, pool', f') = deliver pool f g.payload in
    let drained = ooo_buffer_drain pool' f' in
    if length g.payload == 0 || not (has_buffer f)
    then (pool, f)
    else if g.seq == f.expected_seq
    then (drained.pool, drained.flow)
    else if ltb f.expected_seq g.seq
    then (pool, ooo_buffer_store f g.seq g.payload)
    else (pool, f)

-- `mss` of the congestion control.
abbrev pub effective_mss : TcpFlow → ℕ
effective_mss f = if ltb 0 f.peer_mss then f.peer_mss else tcp_mss

-- An acknowledgement of new data.
unfoldable pub receive_new_ack : TcpFlow → ℕ → TcpFlow
receive_new_ack f ack =
    let newly_acked = sub32 ack f.local_seq in
    let mss = effective_mss f in
    record f {
      local_seq = ack;
      in_flight =
          if ltb 0 newly_acked && leb newly_acked f.in_flight then f.in_flight - newly_acked else 0;
      dup_ack_count = 0;
      cwnd =
          if ltb f.cwnd f.ssthresh
          then add32 f.cwnd mss
          else add32 f.cwnd ((mss * mss % 2 ^ 32) / (if ltb 0 f.cwnd then f.cwnd else 1));
    }

-- "(flow->cwnd > 1) ? (flow->cwnd >> 1) : 1"
abbrev pub half_window : TcpFlow → ℕ
half_window f = if ltb 1 f.cwnd then f.cwnd / 2 else 1

-- A duplicate acknowledgement: from the third on, with data in flight, a fast retransmit.
unfoldable pub receive_dup_ack : TcpFlow → TcpFlow
receive_dup_ack f =
    let dups = add32 f.dup_ack_count 1 in
    if leb 3 dups && ltb 0 f.in_flight && not f.in_retransmit
    then record f {
      dup_ack_count = dups;
      ssthresh = half_window f;
      cwnd = add32 (half_window f) (3 * tcp_mss);
      in_retransmit = true;
      in_flight = 0;
    }
    else record f { dup_ack_count = dups }

-- "Handle ACK for our sent data"
unfoldable pub receive_ack : TcpFlow → Segment → TcpFlow
unfolding receive_new_ack receive_dup_ack
receive_ack f g =
    if not (has_ack g)
    then f
    else if ltb f.local_seq g.ack
    then receive_new_ack f g.ack
    else if g.ack == f.local_seq
    then receive_dup_ack f
    else f

-- The keepalive counters are cleared, and a close that waited for the data to leave becomes a FIN.
unfoldable pub settle : BufferPool → TcpFlow → TcpFlow
unfolding is_drained
settle pool f = record f {
  keepalive_last_tx_ns = 0;
  keepalive_probes_sent = 0;
  pending_fin = (f.close_requested && is_drained pool f.tx_buf) || f.pending_fin;
}

-- The branch of an ESTABLISHED or CLOSE_WAIT connection.
unfoldable pub receive : BufferPool → TcpFlow → Segment → ℕ → BufferPool × TcpFlow
unfolding receive_fin receive_fin_ack receive_payload receive_ack settle
receive pool f g start =
    let seen = record f { last_seen_ns = start; packets_rx = add64 f.packets_rx 1 } in
    let closing = receive_fin_ack (receive_fin seen g start) g start in
    let (pool', taken) = receive_payload pool closing g in
    (pool', settle pool' (receive_ack taken g))
