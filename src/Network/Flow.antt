-- ===== src/Network/Flow.antt =====
-- kernel/runtime/network_stack.c: the table of TCP connections. A pointer to an entry is its index;
-- a socket buffer is an index into the pool of socket_buffer.c. Fields that only IPv6 connections
-- use, and the bytes of the peer's link address, are left out.
use osai.Prelude.{
  ℕ, suc, ◌*◌, Bool, true, false, not, ◌&&◌, Option, none, some, List, [], ◌∷◌, leb, ◌==◌,
  if◌then◌else◌, replicate,
}
use osai.Network.Rings.{queue_id_invalid}

-- `xaios_network_flow_state_t`
pub data FlowState : Type 0 where
  unused syn_recv established closed fin_wait fin_wait_2 close_wait last_ack time_wait : FlowState

-- An entry of `ooo_buf`, its data cut to `len`.
pub record OooSegment : Type 0 where
  pub seq : ℕ
  pub in_use : Bool
  pub bytes : List ℕ

-- `network_tcp_flow_t`
pub record TcpFlow : Type 0 where
  pub state : FlowState
  pub flow_id : ℕ
  pub queue_id : ℕ
  pub cell_id : ℕ
  pub local_port : ℕ
  pub remote_port : ℕ
  pub remote_address : ℕ
  pub local_address : ℕ
  pub remote_seq : ℕ
  pub local_seq : ℕ
  pub last_seen_ns : ℕ
  pub retransmits : ℕ
  pub packets_rx : ℕ
  pub packets_tx : ℕ
  pub rx_buf : Option ℕ
  pub tx_buf : Option ℕ
  pub expected_seq : ℕ
  pub next_send_seq : ℕ
  pub window_size : ℕ
  pub pending_synack : Bool
  pub pending_fin : Bool
  pub pending_ack : Bool
  pub close_requested : Bool
  pub remote_mac_valid : Bool
  pub last_tx_ns : ℕ
  pub rto_ns : ℕ
  pub rto_retries : ℕ
  pub in_retransmit : Bool
  pub ooo_buf : List OooSegment
  pub peer_mss : ℕ
  pub mss_parsed : Bool
  pub ws_parsed : Bool
  pub peer_ws : ℕ
  pub our_ws : ℕ
  pub cwnd : ℕ
  pub ssthresh : ℕ
  pub dup_ack_count : ℕ
  pub highest_acked : ℕ
  pub in_flight : ℕ
  pub keepalive_last_tx_ns : ℕ
  pub keepalive_probes_sent : ℕ

-- NETWORK_TCP_CONNECTIONS, NETWORK_TCP_MAX_HALF_OPEN, NETWORK_TCP_MSS, NETWORK_TCP_RETRANSMIT_NS
abbrev pub tcp_connections : ℕ
tcp_connections = 16

abbrev pub max_half_open : ℕ
max_half_open = 8

abbrev pub tcp_mss : ℕ
tcp_mss = 1400

abbrev pub retransmit_ns : ℕ
retransmit_ns = 500000

abbrev pub is_unused : FlowState → Bool
is_unused unused = true
is_unused _ = false

abbrev pub is_syn_recv : FlowState → Bool
is_syn_recv syn_recv = true
is_syn_recv _ = false

-- ESTABLISHED or CLOSE_WAIT
abbrev pub is_open : FlowState → Bool
is_open established = true
is_open close_wait = true
is_open _ = false

-- "rx_buf != 0"
abbrev pub has_buffer : TcpFlow → Bool
has_buffer f = elim f.rx_buf [ none ↦ false | some k ↦ true ]

abbrev pub empty_segment : OooSegment
empty_segment = record { seq = 0; in_use = false; bytes = [] }

-- An entry after `alloc_tcp_flow`: what the function does not write stays.
unfoldable pub allocated : TcpFlow → TcpFlow
allocated f = record f {
  state = syn_recv;
  retransmits = 0;
  packets_rx = 0;
  packets_tx = 0;
  rx_buf = none;
  tx_buf = none;
  expected_seq = 0;
  next_send_seq = 0;
  window_size = 0;
  pending_synack = false;
  pending_fin = false;
  pending_ack = false;
  close_requested = false;
  remote_mac_valid = false;
  last_tx_ns = 0;
  rto_ns = retransmit_ns;
  rto_retries = 0;
  in_retransmit = false;
  ooo_buf = replicate 4 empty_segment;
  peer_mss = 0;
  mss_parsed = false;
  ws_parsed = false;
  peer_ws = 0;
  our_ws = 0;
  cwnd = tcp_mss;
  ssthresh = 16 * tcp_mss;
  dup_ack_count = 0;
  highest_acked = 0;
  in_flight = 0;
  keepalive_last_tx_ns = 0;
  keepalive_probes_sent = 0;
}

-- An entry after `network_stack_init`.
unfoldable pub reset : TcpFlow → TcpFlow
reset f = record f {
  state = unused;
  flow_id = 0;
  queue_id = queue_id_invalid;
  cell_id = 0;
  local_port = 0;
  remote_port = 0;
  remote_address = 0;
  local_address = 0;
  remote_seq = 0;
  local_seq = 0;
  last_seen_ns = 0;
  retransmits = 0;
  packets_rx = 0;
  packets_tx = 0;
}

-- The first entry that passes a test, from index `i` on: its index and what it holds.
unfoldable pub find_flow_from : ℕ → List TcpFlow → (TcpFlow → Bool) → Option (ℕ × TcpFlow)
find_flow_from i [] test = none
find_flow_from i (f ∷ flows) test =
    let later = find_flow_from (suc i) flows test in if test f then some (i, f) else later

-- The test of `find_flow_by_ports`.
abbrev pub is_peer : ℕ → ℕ → ℕ → TcpFlow → Bool
is_peer local_port remote_port remote_address f =
    not (is_unused f.state)
    && (f.local_port == local_port)
    && (f.remote_port == remote_port)
    && (f.remote_address == remote_address)

-- `find_flow_by_ports`
unfoldable pub find_flow_by_ports : List TcpFlow → ℕ → ℕ → ℕ → Option (ℕ × TcpFlow)
unfolding find_flow_from
find_flow_by_ports flows local_port remote_port remote_address =
    find_flow_from 0 flows (is_peer local_port remote_port remote_address)

-- `alloc_tcp_flow`: the entry it returns, before and after its fields are written. The caller stores
-- it and counts one more half-open connection.
unfoldable pub alloc_tcp_flow : List TcpFlow → ℕ → Option (ℕ × TcpFlow)
unfolding find_flow_from
alloc_tcp_flow flows half_open =
    if leb max_half_open half_open then none else find_flow_from 0 flows (λ f. is_unused f.state)
