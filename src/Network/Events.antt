-- ===== src/Network/Events.antt =====
-- kernel/runtime/network_stack.c: the calls that reach the stack, as events, and runs of them from
-- `network_stack_init`.
use osai.Prelude.{
  ℕ, Bool, false, Option, none, some, List, [], ◌∷◌, replicate, map, Status, ok, not_found,
}
use osai.SocketBuffer.{BufferPool}
use osai.Network.Rings.{
  Queues, Ring, Packet, unowned, unbound, bind_queue, release_queue, queue_id_invalid,
}
use osai.Network.Backlog.{
  Listener, AcceptEntry, dequeue_backlog, register_listener, unregister_listener,
}
use osai.Network.Flow.{unused, TcpFlow, empty_segment, reset, tcp_connections}
use osai.Network.Receive.{Segment}
use osai.Network.Frame.{process_tcp_frame}
use osai.Network.Timers.{retransmit_tcp_flows, expire_tcp_flows}
use osai.Network.Send.{tcp_send, tcp_close_flow, tcp_recv, tcp_drain_pending}
use osai.Network.{NetworkStack}

-- The ring that `network_stack_init` gives queue `i`.
abbrev pub empty_ring : ℕ → Ring
empty_ring i = record { queue_id = i; rx_depth = 0; tx_depth = 0; completed = 0; drops = 0 }

-- A descriptor after `network_stack_init`.
abbrev pub empty_packet : Packet
empty_packet = record {
  state = unowned;
  queue_id = queue_id_invalid;
  cell_id = 0;
  src_port = 0;
  dst_port = 0;
  src_address = 0;
  dst_address = 0;
  length = 0;
  created_ns = 0;
}

-- The queues after `network_stack_init`.
abbrev pub empty_queues : Queues
empty_queues = record {
  bindings = replicate 4 unbound;
  rings = empty_ring 0 ∷ empty_ring 1 ∷ empty_ring 2 ∷ empty_ring 3 ∷ [];
  packets = replicate 16 empty_packet;
  binding_count = 0;
  rx_packet_count = 0;
  tx_packet_count = 0;
  packet_drop_count = 0;
  packet_lifecycle_count = 0;
  rx_enqueue_count = 0;
  tx_enqueue_count = 0;
  completion_count = 0;
  backpressure_drop_count = 0;
}

abbrev pub no_listener : Listener
no_listener = record { port = 0; sockfd = 0; active = false; backlog = [] }

-- `network_stack_init`. The number of half-open connections and the socket buffers stay.
unfoldable pub stack_init : NetworkStack → NetworkStack
unfolding reset
stack_init s = record {
  queues = empty_queues;
  listeners = replicate 8 no_listener;
  flows = map reset s.flows;
  pool = s.pool;
  half_open_count = s.half_open_count;
  next_flow_id = 1;
  handshake_count = 0;
  reset_count = 0;
  timeout_count = 0;
  retransmit_count = 0;
  established_count = 0;
  closed_count = 0;
}

-- A connection in memory that is all zero.
abbrev pub zero_flow : TcpFlow
zero_flow = record {
  state = unused;
  flow_id = 0;
  queue_id = 0;
  cell_id = 0;
  local_port = 0;
  remote_port = 0;
  remote_address = 0;
  local_address = 0;
  remote_seq = 0;
  local_seq = 0;
  last_seen_ns = 0;
  retransmits = 0;
  packets_rx = 0;
  packets_tx = 0;
  rx_buf = none;
  tx_buf = none;
  expected_seq = 0;
  next_send_seq = 0;
  window_size = 0;
  pending_synack = false;
  pending_fin = false;
  pending_ack = false;
  close_requested = false;
  remote_mac_valid = false;
  last_tx_ns = 0;
  rto_ns = 0;
  rto_retries = 0;
  in_retransmit = false;
  ooo_buf = replicate 4 empty_segment;
  peer_mss = 0;
  mss_parsed = false;
  ws_parsed = false;
  peer_ws = 0;
  our_ws = 0;
  cwnd = 0;
  ssthresh = 0;
  dup_ack_count = 0;
  highest_acked = 0;
  in_flight = 0;
  keepalive_last_tx_ns = 0;
  keepalive_probes_sent = 0;
}

-- The stack of a kernel that has just started, with its pool of socket buffers.
unfoldable pub booted : BufferPool → NetworkStack
unfolding stack_init
booted pool = stack_init (record {
  queues = empty_queues;
  listeners = replicate 8 no_listener;
  flows = replicate tcp_connections zero_flow;
  pool = pool;
  half_open_count = 0;
  next_flow_id = 1;
  handshake_count = 0;
  reset_count = 0;
  timeout_count = 0;
  retransmit_count = 0;
  established_count = 0;
  closed_count = 0;
})

-- `network_stack_accept_connection`, whose outputs are the entry.
unfoldable pub accept_connection : NetworkStack → ℕ → Status × Option AcceptEntry × NetworkStack
unfolding dequeue_backlog
accept_connection s port =
    let (entry, listeners') = dequeue_backlog s.listeners port in
    (elim entry [ none ↦ not_found | some e ↦ ok ], entry, record s { listeners = listeners' })

-- A call from outside: of the device, of the clock, or of a system call.
pub data Event : Type 0 where
  frame : Option Segment → ℕ → ℕ → Event
  retransmit : ℕ → Event
  expire : ℕ → Event
  drain : (ℕ → Bool) → Event
  send : ℕ → List ℕ → Event
  recv : ℕ → ℕ → Event
  close : ℕ → Event
  listen : ℕ → ℕ → Event
  unlisten : ℕ → Event
  accept : ℕ → Event
  bind : ℕ → ℕ → ℕ → Event
  release : ℕ → ℕ → Event

-- The stack after a call.
unfoldable pub step : NetworkStack → Event → NetworkStack
unfolding process_tcp_frame
step s (frame g start now) = (process_tcp_frame s g start now).1
step s (retransmit now) = (retransmit_tcp_flows s now).1
step s (expire now) = (expire_tcp_flows s now).1
step s (drain resolves) = (tcp_drain_pending s resolves).1
step s (send id bytes) = (tcp_send s id bytes).2
step s (recv id size) = (tcp_recv s id size).2
step s (close id) = (tcp_close_flow s id).1
step s (listen port fd) = record s { listeners = register_listener s.listeners port fd }
step s (unlisten port) = record s { listeners = unregister_listener s.listeners port }
step s (accept port) = (accept_connection s port).2
step s (bind cell queue mask) = record s { queues = (bind_queue s.queues cell queue mask).1 }
step s (release queue cell) = record s { queues = (release_queue s.queues queue cell).1 }

unfoldable pub run : NetworkStack → List Event → NetworkStack
unfolding step
run s [] = s
run s (e ∷ events) = run (step s e) events
