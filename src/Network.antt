-- ===== src/Network.antt =====
-- kernel/runtime/network_stack.c: the state of the network stack for TCP over IPv4, and the handler of
-- a frame. What a frame says (`parse_tcp`) and the clock are arguments; counters of latency, UDP and
-- IPv6 are left out.
pub mod Rings
pub mod Packets
pub mod Backlog
pub mod Flow
pub mod Reassembly
pub mod Receive
pub mod Frame
pub mod Timers
pub mod Send
pub mod Slots
pub mod Change
pub mod Quietly
pub mod Accepted
pub mod Expired
pub mod Events
pub mod Reached
pub mod Drained
pub mod Lost
pub mod Accepting
pub mod Handshake
pub mod Idle
pub mod Lifecycle
pub mod Allocated
pub mod Balanced
pub mod Resting
mod Tests
use osai.Prelude.{
  ℕ, zero, suc, ◌+◌, ◌-◌, ◌*◌, ◌/◌, ◌%◌, ◌^◌, Bool, true, false, not, ◌&&◌, ◌||◌, Option, none,
  some, List, [], ◌∷◌, bit_xor, ltb, leb, ◌==◌, if◌then◌else◌, set, get_elem?, add32, add64, Status,
  ok, invalid, no_memory, not_found,
}
use osai.SocketBuffer.{BufferPool, alloc, free, socket_buffer_size}
use osai.Network.Rings.{Queues, Binding, find_binding, flow_hash, select_binding_for_flow}
use osai.Network.Packets.{
  alloc_packet_desc, packet_mark_dropped, packet_mark_tx, packet_mark_complete,
}
use osai.Network.Backlog.{Listener, AcceptEntry, has_listener, enqueue_backlog}
use osai.Network.Flow.{
  FlowState, syn_recv, established, closed, is_syn_recv, is_open, TcpFlow, tcp_mss, allocated,
  find_flow_by_ports, alloc_tcp_flow,
}
use osai.Network.Receive.{Segment, has_rst, has_syn, has_ack, receive}

-- The file's variables.
pub record NetworkStack : Type 0 where
  pub queues : Queues
  pub listeners : List Listener
  pub flows : List TcpFlow
  pub pool : BufferPool
  pub half_open_count : ℕ
  pub next_flow_id : ℕ
  pub handshake_count : ℕ
  pub reset_count : ℕ
  pub timeout_count : ℕ
  pub retransmit_count : ℕ
  pub established_count : ℕ
  pub closed_count : ℕ

abbrev pub count_reset : NetworkStack → NetworkStack
count_reset s = record s { reset_count = add64 s.reset_count 1 }

-- "++g_tcp_reset_count; ++g_packet_drop_count;"
abbrev pub count_bad_frame : NetworkStack → NetworkStack
count_bad_frame s = record s {
  reset_count = add64 s.reset_count 1;
  queues = record s.queues { packet_drop_count = add64 s.queues.packet_drop_count 1 };
}

abbrev pub drop_packet : NetworkStack → ℕ → NetworkStack
drop_packet s p = record s { queues = packet_mark_dropped s.queues p }

-- "packet_mark_tx(packet); packet_mark_complete(packet);"
abbrev pub finish_packet : NetworkStack → ℕ → NetworkStack
finish_packet s p = record s { queues = packet_mark_complete (packet_mark_tx s.queues p) p }

-- "g_half_open_count > 0" and the decrement.
abbrev pub one_less : ℕ → ℕ
one_less n = n - 1

-- The RST branch, with the connection found, if any.
unfoldable pub on_reset : NetworkStack → ℕ → Option (ℕ × TcpFlow) → Status × NetworkStack
on_reset s p none = (invalid, drop_packet s p)
on_reset s p (some found) =
    let (i, f) = found in
    (
      invalid,
      drop_packet
          (record s {
            flows = set s.flows i (record f { state = closed; rx_buf = none; tx_buf = none });
            pool = free (free s.pool f.rx_buf) f.tx_buf;
            reset_count = add64 s.reset_count 1;
            closed_count = add64 s.closed_count 1;
            half_open_count =
                if is_syn_recv f.state then one_less s.half_open_count else s.half_open_count;
          })
          p,
    )

-- "flow->flow_id = (uint32_t)(g_next_flow_id++)", 0 left out: the id, and the next one.
unfoldable pub next_id : ℕ → ℕ × ℕ
next_id n = if n % 2 ^ 32 == 0 then (1, 2) else (n % 2 ^ 32, add64 n 1)

-- The fields that the SYN branch writes into the entry it allocated.
unfoldable pub opened : TcpFlow → Segment → Binding → ℕ → ℕ → ℕ → Option ℕ → Option ℕ → TcpFlow
unfolding allocated
opened f g b id start isn rx tx = record (allocated f) {
  flow_id = id;
  local_port = g.dst_port;
  remote_port = g.src_port;
  queue_id = b.queue_id;
  cell_id = b.cell_id;
  remote_address = g.remote_address;
  local_address = g.local_address;
  remote_seq = g.seq;
  expected_seq = add32 g.seq 1;
  local_seq = isn;
  next_send_seq = add32 isn 1;
  window_size = socket_buffer_size;
  pending_synack = true;
  rx_buf = rx;
  tx_buf = tx;
  last_seen_ns = start;
  packets_rx = 1;
  peer_mss = if ltb 0 g.mss && ltb g.mss tcp_mss then g.mss else tcp_mss;
  mss_parsed = true;
  peer_ws = g.window_scale;
  ws_parsed = ltb 0 g.window_scale;
}

-- The SYN branch of a peer without a connection; `now` is the clock that the sequence number comes
-- from.
unfoldable pub on_syn : NetworkStack → ℕ → Binding → Segment → ℕ → ℕ → Status × NetworkStack
unfolding has_listener alloc_tcp_flow next_id opened
on_syn s p b g start now =
    if not (has_listener s.listeners g.dst_port)
    then (not_found, drop_packet (count_reset s) p)
    else elim (alloc_tcp_flow s.flows s.half_open_count) [
      | none ↦ (no_memory, drop_packet (count_reset s) p)
      | some found ↦
          let (i, f) = found in
          let (id, next) = next_id s.next_flow_id in
          let (rx, pool') = alloc s.pool in
          let (tx, pool'') = alloc pool' in
          let isn = bit_xor now id % 2 ^ 32 in
          (
            ok,
            finish_packet
                (record s {
                  flows = set s.flows i (opened f g b id start isn rx tx);
                  pool = pool'';
                  half_open_count = add32 s.half_open_count 1;
                  next_flow_id = next;
                  handshake_count = add64 s.handshake_count 1;
                })
                p,
          )
    ]

-- `peer_ip_be`: the bytes of an address in the other order.
abbrev pub byte_swap : ℕ → ℕ
byte_swap a =
    a % 256 * 2 ^ 24 + a / 2 ^ 8 % 256 * 2 ^ 16 + a / 2 ^ 16 % 256 * 2 ^ 8 + a / 2 ^ 24 % 256

-- The branch of a connection in SYN_RECV whose handshake an ACK completes.
unfoldable pub on_handshake : NetworkStack → ℕ → ℕ → TcpFlow → Segment → ℕ → Status × NetworkStack
unfolding enqueue_backlog
on_handshake s p i f g start =
    let waiting : AcceptEntry = record {
      flow_id = f.flow_id;
      peer_ip = byte_swap g.remote_address;
      peer_port = g.src_port;
      local_port = g.dst_port;
    } in
    (
      ok,
      finish_packet
          (record s {
            flows = set s.flows i (record f {
              state = established;
              local_seq = g.ack;
              next_send_seq = g.ack;
              last_seen_ns = start;
              packets_rx = add64 f.packets_rx 1;
            });
            handshake_count = add64 s.handshake_count 1;
            established_count = add64 s.established_count 1;
            half_open_count = one_less s.half_open_count;
            listeners = (enqueue_backlog s.listeners waiting).1;
          })
          p,
    )

-- The branch of a connection that is open.
unfoldable pub on_open : NetworkStack → ℕ → ℕ → TcpFlow → Segment → ℕ → Status × NetworkStack
unfolding receive
on_open s p i f g start =
    let (pool', f') = receive s.pool f g start in
    (ok, finish_packet (record s { flows = set s.flows i f'; pool = pool' }) p)

-- The last statements of the handler.
abbrev pub refuse : NetworkStack → ℕ → Status × NetworkStack
refuse s p = (invalid, drop_packet (count_reset s) p)

-- The branches of the handler once the frame has a packet descriptor.
unfoldable pub on_packet :
    NetworkStack → ℕ → Binding → Option (ℕ × TcpFlow) → Segment → ℕ → ℕ → Status × NetworkStack
unfolding on_reset on_syn on_handshake on_open
on_packet s p b found g start now = if has_rst g then on_reset s p found else elim found [
  | none ↦ if has_syn g then on_syn s p b g start now else refuse s p
  | some at ↦
      if is_syn_recv at.1.state && has_ack g
      then on_handshake s p at.0 at.1 g start
      else if is_open at.1.state
      then on_open s p at.0 at.1 g start
      else refuse s p
]
