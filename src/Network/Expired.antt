-- ===== src/Network/Expired.antt =====
-- kernel/runtime/network_stack.c: the loops over the table of connections keep its invariant.
use osai.Prelude.{
  ℕ, suc, ◌+◌, ◌≤◌, ◌≡◌, refl, sym, ap, ◌∙◌, arith, Bool, true, not, ◌||◌, List, [], ◌∷◌, All,
  Bool-cases, inl, inr,
}
use osai.SocketBuffer.{BufferPool}
use osai.Network.Flow.{is_unused, is_syn_recv, TcpFlow}
use osai.Network.Slots.{one_if, count_state}
use osai.Network.Change.{Quiet, IsValid}
use osai.Network.Timers.{
  retransmit_flow, retransmit_loop, retransmit_tcp_flows, Expiry, expire_closing, expire_rto,
  expire_keepalive, expire_flow, expire_loop, expire_tcp_flows,
}
use osai.Network.Send.{
  send_synack, send_data, send_ack, send_fin, send_pending, is_idle, drain_pending_from,
  tcp_drain_pending,
}
use osai.Network.{NetworkStack}

-- One connection's part of the loops: its kind of state and its timers stay.
record Stays (f f' : TcpFlow) : Type 0 where
  syn : is_syn_recv f'.state ≡ is_syn_recv f.state
  unused : is_unused f'.state ≡ is_unused f.state
  quiet : Quiet f → Quiet f'

Stays-refl : (f : TcpFlow) → Stays f f
Stays-refl f = record { syn = refl; unused = refl; quiet = λ v. v }

Stays-trans : (f g h : TcpFlow) → Stays f g → Stays g h → Stays f h
Stays-trans f g h p q = record {
  syn = q.syn ∙ p.syn;
  unused = q.unused ∙ p.unused;
  quiet = λ v. q.quiet (p.quiet v);
}

retransmit_flow-Stays : (now : ℕ) (f : TcpFlow) → Stays f (retransmit_flow now f).1
unfolding retransmit_flow
retransmit_flow-Stays now f = ground arith

-- What a loop over the connections may do to their counts.
record Same (flows flows' : List TcpFlow) : Type 0 where
  syn : count_state is_syn_recv flows' ≡ count_state is_syn_recv flows
  unused : count_state is_unused flows' ≡ count_state is_unused flows
  quiet : All Quiet flows → All Quiet flows'

Same-cons :
    (f f' : TcpFlow) (flows flows' : List TcpFlow)
    → Stays f f'
    → Same flows flows'
    → Same (f ∷ flows) (f' ∷ flows')
Same-cons f f' flows flows' one rest = record {
  syn = omega (arith, ap one_if one.syn, rest.syn);
  unused = omega (arith, ap one_if one.unused, rest.unused);
  quiet = λ v. (one.quiet v.0, rest.quiet v.1);
}

retransmit_loop-Same : (now : ℕ) (flows : List TcpFlow) → Same flows (retransmit_loop now flows).1
unfolding retransmit_loop
retransmit_loop-Same now [] = record { syn = refl; unused = refl; quiet = λ v. v }
retransmit_loop-Same now (f ∷ flows) =
    Same-cons f (retransmit_flow now f).1 flows (retransmit_loop now flows).1
      (retransmit_flow-Stays now f) (retransmit_loop-Same now flows)

pub retransmit_tcp_flows-IsValid :
    (s : NetworkStack) (now : ℕ) → IsValid s → IsValid (retransmit_tcp_flows s now).1
unfolding retransmit_tcp_flows
retransmit_tcp_flows-IsValid s now v =
    let same = retransmit_loop-Same now s.flows in
    record {
      counted = v.counted ∙ sym same.syn;
      bounded = v.bounded;
      held = omega (arith, v.held, same.unused);
      started = v.started;
      quiet = same.quiet v.quiet;
    }

send_synack-Stays : (f : TcpFlow) → Stays f (send_synack f).1
unfolding send_synack
send_synack-Stays f = ground arith

send_data-Stays : (pool : BufferPool) (f : TcpFlow) → Stays f (send_data pool f).2
unfolding send_data
send_data-Stays pool f = ground arith

send_ack-Stays : (pool : BufferPool) (f : TcpFlow) → Stays f (send_ack pool f).1
unfolding send_ack
send_ack-Stays pool f = ground arith

send_fin-Stays : (pool : BufferPool) (f : TcpFlow) → Stays f (send_fin pool f).1
unfolding send_fin
send_fin-Stays pool f = ground arith

send_pending-Stays : (pool : BufferPool) (f : TcpFlow) → Stays f (send_pending pool f).2
unfolding send_pending
send_pending-Stays pool f =
    let f0 : TcpFlow = record f { remote_mac_valid = true } in
    let f1 = (send_synack f0).1 in
    let (sent, pool', f2) = send_data pool f1 in
    let f3 = (send_ack pool' f2).1 in
    let f4 = (send_fin pool' f3).1 in
    Stays-trans f f0 f4
      (record {
        syn = refl;
        unused = refl;
        quiet = λ v. record {
          none_in_flight = v.none_in_flight;
          no_timer = v.no_timer;
          no_keepalive = v.no_keepalive;
          not_late = v.not_late;
        };
      })
      (Stays-trans f0 f1 f4 (send_synack-Stays f0) (
        Stays-trans f1 f2 f4 (send_data-Stays pool f1)
          (Stays-trans f2 f3 f4 (send_ack-Stays pool' f2) (send_fin-Stays pool' f3))))

drain_pending_from-Same :
    (resolves : ℕ → Bool) (i : ℕ) (pool : BufferPool) (flows : List TcpFlow)
    → Same flows (drain_pending_from resolves i pool flows).2
unfolding drain_pending_from
drain_pending_from-Same resolves i pool [] = record { syn = refl; unused = refl; quiet = λ v. v }
drain_pending_from-Same resolves i pool (f ∷ flows) =
    let (sent, pool', f') = send_pending pool f in
    elim (Bool-cases (is_idle f.state || not (f.remote_mac_valid || resolves i))) [
      | inl skip ↦ rw skip (
          Same-cons f f flows (drain_pending_from resolves (suc i) pool flows).2 (Stays-refl f)
            (drain_pending_from-Same resolves (suc i) pool flows))
      | inr takes ↦ rw takes (
          Same-cons f f' flows (drain_pending_from resolves (suc i) pool' flows).2
            (send_pending-Stays pool f) (drain_pending_from-Same resolves (suc i) pool' flows))
    ]

pub tcp_drain_pending-IsValid :
    (s : NetworkStack) (resolves : ℕ → Bool) → IsValid s → IsValid (tcp_drain_pending s resolves).1
unfolding tcp_drain_pending
tcp_drain_pending-IsValid s resolves v =
    let same = drain_pending_from-Same resolves 0 s.pool s.flows in
    record {
      counted = v.counted ∙ sym same.syn;
      bounded = v.bounded;
      held = omega (arith, v.held, same.unused);
      started = v.started;
      quiet = same.quiet v.quiet;
    }

-- One connection's part of the expiry: the counter follows a connection that leaves SYN_RECV.
record Left (c : Expiry) (f : TcpFlow) (out : Expiry × TcpFlow) : Type 0 where
  counted :
      out.0.half_open_count + one_if (is_syn_recv f.state)
      ≡ c.half_open_count + one_if (is_syn_recv out.1.state)
  fewer : one_if (is_syn_recv out.1.state) ≤ one_if (is_syn_recv f.state)
  unused : is_unused out.1.state ≡ is_unused f.state
  quiet : Quiet f → Quiet out.1

expire_flow-Left :
    (now : ℕ) (c : Expiry) (f : TcpFlow)
    → one_if (is_syn_recv f.state) ≤ c.half_open_count
    → Left c f (expire_flow now c f)
unfolding expire_flow expire_closing expire_rto expire_keepalive
expire_flow-Left now c f room = ground arith

-- The loop's part.
record LeftAll (c : Expiry) (flows : List TcpFlow) (out : Expiry × List TcpFlow) : Type 0 where
  counted :
      out.0.half_open_count + count_state is_syn_recv flows
      ≡ c.half_open_count + count_state is_syn_recv out.1
  fewer : count_state is_syn_recv out.1 ≤ count_state is_syn_recv flows
  unused : count_state is_unused out.1 ≡ count_state is_unused flows
  quiet : All Quiet flows → All Quiet out.1

expire_loop-LeftAll :
    (now : ℕ) (c : Expiry) (flows : List TcpFlow)
    → count_state is_syn_recv flows ≤ c.half_open_count
    → LeftAll c flows (expire_loop now c flows)
unfolding expire_loop
expire_loop-LeftAll now c [] room = record {
  counted = refl;
  fewer = omega arith;
  unused = refl;
  quiet = λ v. v;
}
expire_loop-LeftAll now c (f ∷ flows) room =
    let one = expire_flow-Left now c f (omega (arith, room)) in
    let rest =
      expire_loop-LeftAll now (expire_flow now c f).0 flows (omega (arith, room, one.counted)) in
    record {
      counted = omega (arith, one.counted, rest.counted);
      fewer = omega (arith, one.fewer, rest.fewer);
      unused = omega (arith, ap one_if one.unused, rest.unused);
      quiet = λ v. (one.quiet v.0, rest.quiet v.1);
    }

pub expire_tcp_flows-IsValid :
    (s : NetworkStack) (now : ℕ) → IsValid s → IsValid (expire_tcp_flows s now).1
unfolding expire_tcp_flows
expire_tcp_flows-IsValid s now v =
    let start : Expiry = record {
      half_open_count = s.half_open_count;
      closed = 0;
      timeouts = 0;
      retransmitted = 0;
      expired = 0;
    } in
    let all = expire_loop-LeftAll now start s.flows (omega (arith, v.counted)) in
    record {
      counted = omega (arith, v.counted, all.counted);
      bounded = omega (arith, v.counted, v.bounded, all.counted, all.fewer);
      held = omega (arith, v.held, all.unused);
      started = v.started;
      quiet = all.quiet v.quiet;
    }
