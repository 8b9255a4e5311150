-- ===== src/Network/Frame.antt =====
-- kernel/runtime/network_stack.c: the handler of a TCP frame over IPv4.
use osai.Prelude.{
  ℕ, Option, none, some, List, set, get_elem?, Status, invalid, no_memory, not_found,
}
use osai.Network.Rings.{Queues, Binding, find_binding, flow_hash, select_binding_for_flow}
use osai.Network.Packets.{alloc_packet_desc}
use osai.Network.Flow.{TcpFlow, find_flow_by_ports}
use osai.Network.Receive.{Segment}
use osai.Network.{NetworkStack, count_bad_frame, count_reset, on_packet}

-- `binding`: that of the connection, or the one that the hash of the addresses selects.
unfoldable pub binding_for : List Binding → Option (ℕ × TcpFlow) → Segment → Option Binding
unfolding find_binding select_binding_for_flow
binding_for bindings none g =
    select_binding_for_flow bindings
      (flow_hash g.dst_port g.src_port g.local_address g.remote_address)
binding_for bindings (some found) g = find_binding bindings found.1.queue_id

-- "packet->src_port = src_port; …"
unfoldable pub describe_packet : Queues → ℕ → Segment → Queues
describe_packet q i g = elim (get_elem? q.packets i) [
  | none ↦ q
  | some p ↦ record q {
    packets = set q.packets i (record p {
      src_port = g.src_port;
      dst_port = g.dst_port;
      src_address = g.remote_address;
      dst_address = g.local_address;
    });
  }
]

-- `network_stack_process_tcp_frame`. A frame that is too short or that `parse_tcp` refuses is none;
-- `start` and `now` are the two readings of the clock.
unfoldable pub process_tcp_frame : NetworkStack → Option Segment → ℕ → ℕ → Status × NetworkStack
unfolding on_packet binding_for describe_packet find_flow_by_ports alloc_packet_desc
process_tcp_frame s none start now = (invalid, count_bad_frame s)
process_tcp_frame s (some g) start now =
    let found = find_flow_by_ports s.flows g.dst_port g.src_port g.remote_address in
    elim (binding_for s.queues.bindings found g) [
      | none ↦ (not_found, count_bad_frame s)
      | some b ↦
          let taken = alloc_packet_desc s.queues b.queue_id g.frame_len start in
          elim taken.0 [
            | none ↦ (no_memory, count_reset (record s { queues = taken.1 }))
            | some p ↦
                on_packet (record s { queues = describe_packet taken.1 p g }) p b found g start now
          ]
    ]
