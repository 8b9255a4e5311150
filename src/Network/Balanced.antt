-- ===== src/Network/Balanced.antt =====
-- kernel/runtime/network_stack.c: between calls no packet is on its way.
use osai.Prelude.{
  ℕ, ◌≡◌, refl, sym, ap, subst, ◌∙◌, ◌&&◌, Option, none, some, Bool-cases, Option-cases, inl, inr,
  set, Status, no_memory,
}
use osai.Network.Rings.{Binding, Packet, Queues}
use osai.Network.Packets.{
  alloc_packet_desc, packet_mark_dropped, packet_mark_tx, packet_mark_complete,
}
use osai.Network.Flow.{TcpFlow, alloc_tcp_flow, find_flow_by_ports, is_syn_recv, is_open}
use osai.Network.Backlog.{has_listener}
use osai.Network.Receive.{Segment, has_rst, has_syn, has_ack}
use osai.Network.Idle.{IsIdle, set-set}
use osai.Network.Lifecycle.{Owned, packet_mark_dropped-IsIdle, mark_complete-IsIdle, Owned-at}
use osai.Network.{NetworkStack, on_reset, on_syn, on_handshake, on_open, on_packet, count_reset}
use osai.Network.Frame.{process_tcp_frame, binding_for, describe_packet}
use osai.Network.Allocated.{Allocated, refused, granted, alloc_packet_desc-Allocated}

describe_packet-Owned :
    (q : Queues) (i : ℕ) (g : Segment) → Owned i q → Owned i (describe_packet q i g)
unfolding describe_packet
describe_packet-Owned q i g o =
    let p : Packet = record o.packet {
      src_port = g.src_port;
      dst_port = g.dst_port;
      src_address = g.remote_address;
      dst_address = g.local_address;
    } in
    rw (Owned-at i q o, describe_packet)
      (record {
        before = o.before;
        idle = o.idle;
        packet = p;
        ring = o.ring;
        is_owned = o.is_owned;
        inside = o.inside;
        packets = ap (λ ps. set ps i p) o.packets ∙ set-set o.before.packets i o.packet p;
        rings = o.rings;
        found = o.found;
      })

-- How a branch of the handler ends.
data Ends (q q' : Queues) (p : ℕ) : Type 0 where
  drops : q' ≡ packet_mark_dropped q p → Ends q q' p
  finishes : q' ≡ packet_mark_complete (packet_mark_tx q p) p → Ends q q' p

on_syn-Ends :
    (s : NetworkStack) (p : ℕ) (b : Binding) (g : Segment) (start now : ℕ)
    → Ends s.queues (on_syn s p b g start now).1.queues p
unfolding on_syn
on_syn-Ends s p b g start now = elim (Bool-cases (has_listener s.listeners g.dst_port)) [
  | inr deaf ↦ rw deaf (drops refl)
  | inl listening ↦ rw listening (elim (Option-cases (alloc_tcp_flow s.flows s.half_open_count)) [
    | inl full ↦ rw full (drops refl)
    | inr got ↦ rw got.1 (finishes refl)
  ])
]

on_packet-Ends :
    (s : NetworkStack) (p : ℕ) (b : Binding) (found : Option (ℕ × TcpFlow)) (g : Segment)
    → (start now : ℕ) → Ends s.queues (on_packet s p b found g start now).1.queues p
unfolding on_packet on_reset on_handshake on_open
on_packet-Ends s p b none g start now = elim (Bool-cases (has_rst g)) [
  | inl rst ↦ rw rst (drops refl)
  | inr no_rst ↦ rw no_rst (elim (Bool-cases (has_syn g)) [
    | inl syn ↦ rw syn (on_syn-Ends s p b g start now)
    | inr no_syn ↦ rw no_syn (drops refl)
  ])
]
on_packet-Ends s p b (some at) g start now = elim (Bool-cases (has_rst g)) [
  | inl rst ↦ rw rst (drops refl)
  | inr no_rst ↦ rw no_rst (elim (Bool-cases (is_syn_recv at.1.state && has_ack g)) [
    | inl acks ↦ rw acks (finishes refl)
    | inr no_ack ↦ rw no_ack (elim (Bool-cases (is_open at.1.state)) [
      | inl opens ↦ rw opens (finishes refl)
      | inr shut ↦ rw shut (drops refl)
    ])
  ])
]

-- When no packet is on its way before a frame is handled, none is after it: whatever the frame and
-- the outcome, every ring is as empty as before and the descriptor that was taken can be taken again.
pub process_tcp_frame-IsIdle :
    (s : NetworkStack) (frame : Option Segment) (start now : ℕ)
    → IsIdle s.queues
    → IsIdle (process_tcp_frame s frame start now).1.queues
unfolding process_tcp_frame
process_tcp_frame-IsIdle s none start now idle = record {
  rings = idle.rings;
  packets = idle.packets;
}
process_tcp_frame-IsIdle s (some g) start now idle =
    let found = find_flow_by_ports s.flows g.dst_port g.src_port g.remote_address in
    elim (Option-cases (binding_for s.queues.bindings found g)) [
      | inl unbound ↦
          rw (unbound, process_tcp_frame) (record { rings = idle.rings; packets = idle.packets })
      | inr bound ↦
          let b = bound.0 in
          let out = alloc_packet_desc s.queues b.queue_id g.frame_len start in
          rw (bound.1, process_tcp_frame)
            (given found b out
              (alloc_packet_desc-Allocated s.queues b.queue_id g.frame_len start idle))
    ]
  where
    ended : (q q' : Queues) (p : ℕ) → Owned p q → Ends q q' p → IsIdle q'
    ended q q' p o (drops e) = subst IsIdle (sym e) (packet_mark_dropped-IsIdle p q o)
    ended q q' p o (finishes e) = subst IsIdle (sym e) (mark_complete-IsIdle p q o)

    given :
        (found : Option (ℕ × TcpFlow)) (b : Binding) (out : Option ℕ × Queues)
        → Allocated out
        → IsIdle
            (elim out.0 as (λ x. Status × NetworkStack) [
              | none ↦ (no_memory, count_reset (record s { queues = out.1 }))
              | some p ↦
                  on_packet (record s { queues = describe_packet out.1 p g }) p b found g start now
            ]).1.queues
    given found b out (refused missing quiet) = rw missing quiet
    given found b out (granted p got o) =
        let q = describe_packet out.1 p g in
        let s' : NetworkStack = record s { queues = q } in
        rw got (
          ended q (on_packet s' p b found g start now).1.queues p
            (describe_packet-Owned out.1 p g o) (on_packet-Ends s' p b found g start now))
