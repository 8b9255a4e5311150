-- ===== src/Network/Accepted.antt =====
-- kernel/runtime/network_stack.c: what the handler of a frame may do to the table of connections.
use osai.Prelude.{
  ℕ, ◌%◌, ◌^◌, ◌<◌, ◌≡◌, refl, sym, ◌∙◌, arith, true, false, ◌&&◌, Option, none, some, List, leb,
  get_elem?, add64, Bool-cases, inl, inr, Option-cases, bit_xor,
}
use osai.SocketBuffer.{alloc}
use osai.Network.Rings.{Binding, Queues}
use osai.Network.Packets.{alloc_packet_desc}
use osai.Network.Backlog.{has_listener}
use osai.Network.Flow.{
  closed, established, is_unused, is_syn_recv, is_open, is_peer, TcpFlow, find_flow_by_ports,
  alloc_tcp_flow,
}
use osai.Network.Receive.{Segment, has_rst, has_syn, has_ack, receive}
use osai.Network.Slots.{find_flow_from-Found}
use osai.Network.Change.{Quiet, Change, same, kept, left, entered}
use osai.Network.Quietly.{receive-Quietly, Quietly-Quiet}
use osai.Network.{NetworkStack, on_reset, on_syn, on_handshake, on_open, on_packet, next_id, opened}
use osai.Network.Frame.{process_tcp_frame, binding_for, describe_packet}

peer_not_unused :
    (lp rp ra : ℕ) (f : TcpFlow) → is_peer lp rp ra f ≡ true → is_unused f.state ≡ false
peer_not_unused lp rp ra f h = ground arith

closed-Quiet :
    (f : TcpFlow) → Quiet f → Quiet (record f { state = closed; rx_buf = none; tx_buf = none })
closed-Quiet f v = record {
  none_in_flight = v.none_in_flight;
  no_timer = v.no_timer;
  no_keepalive = v.no_keepalive;
  not_late = refl;
}

on_reset-Change :
    (s : NetworkStack) (p i : ℕ) (f : TcpFlow)
    → get_elem? s.flows i ≡ some f
    → is_unused f.state ≡ false
    → Change s (on_reset s p (some (i, f))).1
unfolding on_reset
on_reset-Change s p i f at used =
    let f' : TcpFlow = record f { state = closed; rx_buf = none; tx_buf = none } in
    elim (Bool-cases (is_syn_recv f.state)) [
      | inl half ↦ left i f f' at refl (rw half refl) refl half refl (sym used) (closed-Quiet f)
      | inr full ↦ kept i f f' at refl (rw full refl) refl (sym full) (sym used) (closed-Quiet f)
    ]

opened-Quiet :
    (f : TcpFlow) (g : Segment) (b : Binding) (id start isn : ℕ) (rx tx : Option ℕ)
    → Quiet (opened f g b id start isn rx tx)
unfolding opened
opened-Quiet f g b id start isn rx tx = record {
  none_in_flight = refl;
  no_timer = refl;
  no_keepalive = refl;
  not_late = refl;
}

-- What an allocation of a connection that succeeds says.
alloc_tcp_flow_lem :
    (flows : List TcpFlow) (half : ℕ) (at : ℕ × TcpFlow)
    → alloc_tcp_flow flows half ≡ some at
    → (half < 8) × (get_elem? flows at.0 ≡ some at.1) × (is_unused at.1.state ≡ true)
unfolding alloc_tcp_flow
alloc_tcp_flow_lem flows half at h = elim (Bool-cases (leb 8 half)) [
  | inl full ↦ absurd (ground (arith, full, h))
  | inr room ↦
      let found = find_flow_from-Found flows (λ f. is_unused f.state) at (sym (rw room refl) ∙ h) in
      (ground (arith, room), found.held, found.passes)
]

on_syn-Change :
    (s : NetworkStack) (p : ℕ) (b : Binding) (g : Segment) (start now : ℕ)
    → Change s (on_syn s p b g start now).1
unfolding on_syn opened
on_syn-Change s p b g start now = elim (Bool-cases (has_listener s.listeners g.dst_port)) [
  | inr deaf ↦ rw deaf (same refl refl refl)
  | inl listening ↦ rw listening (elim (Option-cases (alloc_tcp_flow s.flows s.half_open_count)) [
    | inl full ↦ rw full (same refl refl refl)
    | inr got ↦
        let at = got.0 in
        let (room, held, unused) = alloc_tcp_flow_lem s.flows s.half_open_count at got.1 in
        let id = (next_id s.next_flow_id).0 in
        let rx = alloc s.pool in
        let tx = alloc rx.1 in
        let isn = bit_xor now id % 2 ^ 32 in
        let f' = opened at.1 g b id start isn rx.0 tx.0 in
        rw got.1 (
          entered at.0 at.1 f' held refl room refl refl unused refl
            (opened-Quiet at.1 g b id start isn rx.0 tx.0))
  ])
]

on_handshake-Change :
    (s : NetworkStack) (p i : ℕ) (f : TcpFlow) (g : Segment) (start : ℕ)
    → get_elem? s.flows i ≡ some f
    → is_syn_recv f.state ≡ true
    → is_unused f.state ≡ false
    → Change s (on_handshake s p i f g start).1
unfolding on_handshake
on_handshake-Change s p i f g start at half used =
    let f' : TcpFlow = record f {
      state = established;
      local_seq = g.ack;
      next_send_seq = g.ack;
      last_seen_ns = start;
      packets_rx = add64 f.packets_rx 1;
    } in
    left i f f' at refl refl refl half refl (sym used) (λ v. record {
      none_in_flight = v.none_in_flight;
      no_timer = v.no_timer;
      no_keepalive = v.no_keepalive;
      not_late = refl;
    })

open_not_syn : (f : TcpFlow) → is_open f.state ≡ true → is_syn_recv f.state ≡ false
open_not_syn f h = ground arith

open_not_unused : (f : TcpFlow) → is_open f.state ≡ true → is_unused f.state ≡ false
open_not_unused f h = ground arith

on_open-Change :
    (s : NetworkStack) (p i : ℕ) (f : TcpFlow) (g : Segment) (start : ℕ)
    → get_elem? s.flows i ≡ some f
    → is_open f.state ≡ true
    → Change s (on_open s p i f g start).1
unfolding on_open
on_open-Change s p i f g start at opens =
    let f' = (receive s.pool f g start).1 in
    let q = receive-Quietly s.pool f g start in
    let still = q.opened opens in
    kept i f f' at refl refl refl (open_not_syn f' still ∙ sym (open_not_syn f opens))
      (open_not_unused f' still ∙ sym (open_not_unused f opens)) (Quietly-Quiet f f' opens q)

-- The branches of the handler, for a connection that the table holds.
on_packet-Change :
    (s : NetworkStack) (p : ℕ) (b : Binding) (found : Option (ℕ × TcpFlow)) (g : Segment)
    → (start now : ℕ)
    → ((at : ℕ × TcpFlow)
        → found ≡ some at
        → (get_elem? s.flows at.0 ≡ some at.1) × (is_unused at.1.state ≡ false))
    → Change s (on_packet s p b found g start now).1
unfolding on_packet on_reset
on_packet-Change s p b none g start now holds = elim (Bool-cases (has_rst g)) [
  | inl rst ↦ rw rst (same refl refl refl)
  | inr no_rst ↦ rw no_rst (elim (Bool-cases (has_syn g)) [
    | inl syn ↦ rw syn (on_syn-Change s p b g start now)
    | inr no_syn ↦ rw no_syn (same refl refl refl)
  ])
]
on_packet-Change s p b (some at) g start now holds =
    let i = at.0 in
    let f = at.1 in
    let (held, used) = holds at refl in
    elim (Bool-cases (has_rst g)) [
      | inl rst ↦ rw rst (on_reset-Change s p i f held used)
      | inr no_rst ↦ rw no_rst (elim (Bool-cases (is_syn_recv f.state && has_ack g)) [
        | inl acks ↦
            let half : is_syn_recv f.state ≡ true = ground (arith, acks) in
            rw acks (on_handshake-Change s p i f g start held half used)
        | inr no_ack ↦ rw no_ack (elim (Bool-cases (is_open f.state)) [
          | inl opens ↦ rw opens (on_open-Change s p i f g start held opens)
          | inr shut ↦ rw shut (same refl refl refl)
        ])
      ])
    ]

with_queues : (s s' : NetworkStack) (q : Queues) → Change (record s { queues = q }) s' → Change s s'
with_queues s s' q (same a b c) = same a b c
with_queues s s' q (kept i f f' at a b c d e h) = kept i f f' at a b c d e h
with_queues s s' q (left i f f' at a b c d e h k) = left i f f' at a b c d e h k
with_queues s s' q (entered i f f' at a b c d e h k) = entered i f f' at a b c d e h k

-- A frame changes the table of connections in one of the ways that `Change` lists.
pub process_tcp_frame-Change :
    (s : NetworkStack) (frame : Option Segment) (start now : ℕ)
    → Change s (process_tcp_frame s frame start now).1
unfolding process_tcp_frame find_flow_by_ports
process_tcp_frame-Change s none start now = same refl refl refl
process_tcp_frame-Change s (some g) start now =
    let test = is_peer g.dst_port g.src_port g.remote_address in
    let found = find_flow_by_ports s.flows g.dst_port g.src_port g.remote_address in
    elim (Option-cases (binding_for s.queues.bindings found g)) [
      | inl unbound ↦ rw (unbound, process_tcp_frame) (same refl refl refl)
      | inr bound ↦
          let b = bound.0 in
          let taken = alloc_packet_desc s.queues b.queue_id g.frame_len start in
          rw (bound.1, process_tcp_frame)
            (elim (Option-cases taken.0) [
              | inl full ↦ rw full (same refl refl refl)
              | inr got ↦
                  let q = describe_packet taken.1 got.0 g in
                  let s' : NetworkStack = record s { queues = q } in
                  rw got.1 (
                    with_queues s (on_packet s' got.0 b found g start now).1 q (
                      on_packet-Change s' got.0 b found g start now (λ at h.
                        let e = find_flow_from-Found s.flows test at h in
                        (
                          e.held,
                          peer_not_unused g.dst_port g.src_port g.remote_address at.1 e.passes,
                        ))))
            ])
    ]
