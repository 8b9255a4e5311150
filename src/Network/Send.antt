-- ===== src/Network/Send.antt =====
-- kernel/runtime/network_stack.c: the calls of the sockets, and the segments that leave.
use osai.Prelude.{
  ℕ, suc, Bool, true, false, not, ◌&&◌, ◌||◌, none, some, List, [], ◌∷◌, ◌++◌, ltb, ◌==◌,
  if◌then◌else◌, add32, set, Status, ok, invalid, not_found,
}
use osai.SocketBuffer.{BufferPool}
use osai.Network.Flow.{
  FlowState, unused, closed, established, close_wait, fin_wait, last_ack, is_open, TcpFlow, tcp_mss,
  find_flow_from, has_buffer,
}
use osai.Network.Reassembly.{write_buffer, read_buffer, available_at, is_drained}
use osai.Network.{NetworkStack}

-- `network_stack_tcp_send`: the status, and the count stored through `bytes_written`.
unfoldable pub tcp_send : NetworkStack → ℕ → List ℕ → Status × ℕ × NetworkStack
unfolding find_flow_from write_buffer
tcp_send s id bytes = elim (find_flow_from 0 s.flows (λ f. (f.flow_id == id) && is_open f.state)) [
  | none ↦ (not_found, 0, s)
  | some found ↦ elim found.1.tx_buf [
    | none ↦ (invalid, 0, s)
    | some k ↦
        let (n, pool') = write_buffer s.pool (some k) bytes in (ok, n, record s { pool = pool' })
  ]
]

-- `network_stack_tcp_close_flow`
unfoldable pub tcp_close_flow : NetworkStack → ℕ → Status × NetworkStack
unfolding find_flow_from
tcp_close_flow s id = elim (find_flow_from 0 s.flows (λ f. f.flow_id == id)) [
  | none ↦ (not_found, s)
  | some found ↦ (
    ok,
    record s {
      flows = set s.flows found.0 (record found.1 { close_requested = true; pending_fin = true });
    },
  )
]

-- `network_stack_tcp_recv`: the count, the bytes stored, and the stack.
unfoldable pub tcp_recv : NetworkStack → ℕ → ℕ → ℕ × List ℕ × NetworkStack
unfolding find_flow_from read_buffer available_at
tcp_recv s id size = elim (find_flow_from 0 s.flows (λ f. (f.flow_id == id) && has_buffer f)) [
  | none ↦ (0, [], s)
  | some found ↦
      let (i, f) = found in
      let (n, bytes, pool') = read_buffer s.pool f.rx_buf size in
      (
        n,
        bytes,
        record s {
          pool = pool';
          flows = set s.flows i (record f { window_size = available_at pool' f.rx_buf });
        },
      )
]

-- A segment that is handed to the device.
pub record Sent : Type 0 where
  pub local_port : ℕ
  pub remote_port : ℕ
  pub seq : ℕ
  pub ack : ℕ
  pub flags : ℕ
  pub window : ℕ
  pub payload : List ℕ

-- The arguments that every call of `tcp_build_and_send_segment` takes from the connection.
abbrev pub segment_of : TcpFlow → ℕ → ℕ → List ℕ → Sent
segment_of f seq flags payload = record {
  local_port = f.local_port;
  remote_port = f.remote_port;
  seq = seq;
  ack = f.expected_seq;
  flags = flags;
  window = f.window_size;
  payload = payload;
}

-- The SYN-ACK that is pending.
unfoldable pub send_synack : TcpFlow → List Sent × TcpFlow
send_synack f =
    if f.pending_synack
    then (segment_of f f.local_seq 18 [] ∷ [], record f { pending_synack = false })
    else ([], f)

-- The oldest bytes of the transmit buffer, up to NETWORK_TCP_MSS.
unfoldable pub send_data : BufferPool → TcpFlow → List Sent × BufferPool × TcpFlow
unfolding is_drained read_buffer
send_data pool f =
    let (n, bytes, pool') = read_buffer pool f.tx_buf tcp_mss in
    if not (is_drained pool f.tx_buf) && is_open f.state
    then (if ltb 0 n
        then (
          segment_of f f.next_send_seq 24 bytes ∷ [],
          pool',
          record f { next_send_seq = add32 f.next_send_seq n },
        )
        else ([], pool', f))
    else ([], pool, f)

-- The ACK that is pending, once the transmit buffer is empty.
unfoldable pub send_ack : BufferPool → TcpFlow → List Sent × TcpFlow
unfolding is_drained
send_ack pool f =
    if f.pending_ack && is_drained pool f.tx_buf
    then (segment_of f f.next_send_seq 16 [] ∷ [], record f { pending_ack = false })
    else ([], f)

-- The state after our FIN has left.
abbrev pub after_close : FlowState → FlowState
after_close established = fin_wait
after_close close_wait = last_ack
after_close state = state

-- The FIN that is pending, once the transmit buffer is empty.
unfoldable pub send_fin : BufferPool → TcpFlow → List Sent × TcpFlow
unfolding is_drained
send_fin pool f =
    if f.pending_fin && is_drained pool f.tx_buf
    then (
      segment_of f f.next_send_seq 17 [] ∷ [],
      record f {
        pending_fin = false;
        next_send_seq = add32 f.next_send_seq 1;
        state = after_close f.state;
      },
    )
    else ([], f)

-- The body of `tcp_drain_pending` for a connection whose peer has a known link address.
unfoldable pub send_pending : BufferPool → TcpFlow → List Sent × BufferPool × TcpFlow
unfolding send_synack send_data send_ack send_fin
send_pending pool f =
    let (synack, f1) = send_synack (record f { remote_mac_valid = true }) in
    let (data_out, pool', f2) = send_data pool f1 in
    let (ack_out, f3) = send_ack pool' f2 in
    let (fin_out, f4) = send_fin pool' f3 in (synack ++ data_out ++ ack_out ++ fin_out, pool', f4)

-- "flow->state == FREE || flow->state == CLOSED"
abbrev pub is_idle : FlowState → Bool
is_idle unused = true
is_idle closed = true
is_idle _ = false

-- `tcp_drain_pending` over IPv4: the loop from connection `i` on. `resolves` says of which
-- connections `tcp_resolve_mac` finds the link address.
unfoldable pub drain_pending_from :
    (ℕ → Bool) → ℕ → BufferPool → List TcpFlow → List Sent × BufferPool × List TcpFlow
unfolding send_pending
drain_pending_from resolves i pool [] = ([], pool, [])
drain_pending_from resolves i pool (f ∷ flows) =
    let skip = is_idle f.state || not (f.remote_mac_valid || resolves i) in
    let (sent, pool', f') = if skip then ([], pool, f) else send_pending pool f in
    let (later, pool'', flows') = drain_pending_from resolves (suc i) pool' flows in
    (sent ++ later, pool'', f' ∷ flows')

-- `tcp_drain_pending`
unfoldable pub tcp_drain_pending : NetworkStack → (ℕ → Bool) → List Sent × NetworkStack
unfolding drain_pending_from
tcp_drain_pending s resolves =
    let (sent, pool', flows') = drain_pending_from resolves 0 s.pool s.flows in
    (sent, record s { pool = pool'; flows = flows' })
