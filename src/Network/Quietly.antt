-- ===== src/Network/Quietly.antt =====
-- kernel/runtime/network_stack.c: a segment leaves an open connection open, and starts no timer.
use osai.Prelude.{
  ℕ, zero, suc, ◌≡◌, refl, ◌∙◌, arith, true, false, not, ◌||◌, List, length, ltb, add64, ◌==◌,
  Bool-cases, inl, inr,
}
use osai.SocketBuffer.{BufferPool}
use osai.Network.Flow.{is_open, TcpFlow, has_buffer}
use osai.Network.Reassembly.{
  deliver, ooo_buffer_store, drain_slot, drain_round, drain_loop, Draining, drain_fuel,
  ooo_buffer_drain,
}
use osai.Network.Receive.{
  Segment, receive_fin, receive_fin_ack, receive_payload, receive_new_ack, receive_dup_ack,
  receive_ack, settle, receive,
}
use osai.Network.Change.{Quiet, is_late}

-- A change that keeps a connection open and starts no timer.
pub record Quietly (f f' : TcpFlow) : Type 0 where
  pub opened : is_open f.state ≡ true → is_open f'.state ≡ true
  pub in_flight : f.in_flight ≡ 0 → f'.in_flight ≡ 0
  pub timer : f'.last_tx_ns ≡ f.last_tx_ns
  pub keepalive : f.keepalive_last_tx_ns ≡ 0 → f'.keepalive_last_tx_ns ≡ 0

pub Quietly-refl : (f : TcpFlow) → Quietly f f
Quietly-refl f = record { opened = λ h. h; in_flight = λ h. h; timer = refl; keepalive = λ h. h }

pub Quietly-trans : (f g h : TcpFlow) → Quietly f g → Quietly g h → Quietly f h
Quietly-trans f g h p q = record {
  opened = λ e. q.opened (p.opened e);
  in_flight = λ e. q.in_flight (p.in_flight e);
  timer = q.timer ∙ p.timer;
  keepalive = λ e. q.keepalive (p.keepalive e);
}

open_not_late : (f : TcpFlow) → is_open f.state ≡ true → is_late f.state ≡ false
open_not_late f h = ground arith

pub Quietly-Quiet : (f f' : TcpFlow) → is_open f.state ≡ true → Quietly f f' → Quiet f → Quiet f'
Quietly-Quiet f f' opened q v = record {
  none_in_flight = q.in_flight v.none_in_flight;
  no_timer = q.timer ∙ v.no_timer;
  no_keepalive = q.keepalive v.no_keepalive;
  not_late = open_not_late f' (q.opened opened);
}

receive_fin-Quietly : (f : TcpFlow) (g : Segment) (start : ℕ) → Quietly f (receive_fin f g start)
unfolding receive_fin
receive_fin-Quietly f g start = ground arith

receive_fin_ack-Quietly :
    (f : TcpFlow) (g : Segment) (start : ℕ) → Quietly f (receive_fin_ack f g start)
unfolding receive_fin_ack
receive_fin_ack-Quietly f g start = ground arith

deliver-Quietly :
    (pool : BufferPool) (f : TcpFlow) (bytes : List ℕ) → Quietly f (deliver pool f bytes).2
unfolding deliver
deliver-Quietly pool f bytes = record {
  opened = λ h. h;
  in_flight = λ h. h;
  timer = refl;
  keepalive = λ h. h;
}

store-Quietly : (f : TcpFlow) (seq : ℕ) (bytes : List ℕ) → Quietly f (ooo_buffer_store f seq bytes)
unfolding ooo_buffer_store
store-Quietly f seq bytes = ground arith

drain_slot-Quietly : (i : ℕ) (d : Draining) → Quietly d.flow (drain_slot i d).flow
unfolding drain_slot deliver
drain_slot-Quietly i d = ground arith

drain_round-Quietly : (d : Draining) → Quietly d.flow (drain_round d).flow
unfolding drain_round
drain_round-Quietly d =
    let d0 : Draining = record d { progress = false } in
    let d1 = drain_slot 0 d0 in
    let d2 = drain_slot 1 d1 in
    let d3 = drain_slot 2 d2 in
    Quietly-trans d.flow d3.flow (drain_slot 3 d3).flow
      (Quietly-trans d.flow d2.flow d3.flow
        (Quietly-trans d.flow d1.flow d2.flow (drain_slot-Quietly 0 d0) (drain_slot-Quietly 1 d1))
        (drain_slot-Quietly 2 d2))
      (drain_slot-Quietly 3 d3)

drain_loop-Quietly : (n : ℕ) (d : Draining) → Quietly d.flow (drain_loop n d).flow
unfolding drain_loop
drain_loop-Quietly zero d = Quietly-refl d.flow
drain_loop-Quietly (suc n) d = elim (Bool-cases d.progress) [
  | inl more ↦ rw more (
      Quietly-trans d.flow (drain_round d).flow (drain_loop n (drain_round d)).flow
        (drain_round-Quietly d) (drain_loop-Quietly n (drain_round d)))
  | inr done ↦ rw done (Quietly-refl d.flow)
]

receive_ack-Quietly : (f : TcpFlow) (g : Segment) → Quietly f (receive_ack f g)
unfolding receive_ack receive_new_ack receive_dup_ack
receive_ack-Quietly f g = ground arith

settle-Quietly : (pool : BufferPool) (f : TcpFlow) → Quietly f (settle pool f)
unfolding settle
settle-Quietly pool f = record {
  opened = λ h. h;
  in_flight = λ h. h;
  timer = refl;
  keepalive = λ h. refl;
}

receive_payload-Quietly :
    (pool : BufferPool) (f : TcpFlow) (g : Segment) → Quietly f (receive_payload pool f g).1
unfolding receive_payload ooo_buffer_drain
receive_payload-Quietly pool f g =
    let given = deliver pool f g.payload in
    let start : Draining = record { progress = true; total = 0; pool = given.1; flow = given.2 } in
    let delivered =
      Quietly-trans f given.2 (drain_loop drain_fuel start).flow (deliver-Quietly pool f g.payload)
        (drain_loop-Quietly drain_fuel start) in
    let stored = store-Quietly f g.seq g.payload in
    let still = Quietly-refl f in
    elim (Bool-cases (length g.payload == 0 || not (has_buffer f))) [
      | inl nothing ↦ rw nothing still
      | inr some_bytes ↦ rw some_bytes (elim (Bool-cases (g.seq == f.expected_seq)) [
        | inl next ↦ rw next delivered
        | inr other ↦ rw other (elim (Bool-cases (ltb f.expected_seq g.seq)) [
          | inl ahead ↦ rw ahead stored
          | inr old ↦ rw old still
        ])
      ])
    ]

pub receive-Quietly :
    (pool : BufferPool) (f : TcpFlow) (g : Segment) (start : ℕ)
    → Quietly f (receive pool f g start).1
unfolding receive
receive-Quietly pool f g start =
    let seen : TcpFlow = record f { last_seen_ns = start; packets_rx = add64 f.packets_rx 1 } in
    let fin = receive_fin seen g start in
    let closing = receive_fin_ack fin g start in
    let taken = receive_payload pool closing g in
    let acked = receive_ack taken.1 g in
    Quietly-trans f fin (settle taken.0 acked)
      (Quietly-trans f seen fin
        (record { opened = λ h. h; in_flight = λ h. h; timer = refl; keepalive = λ h. h })
        (receive_fin-Quietly seen g start))
      (Quietly-trans fin closing (settle taken.0 acked) (receive_fin_ack-Quietly fin g start) (
        Quietly-trans closing taken.1 (settle taken.0 acked)
          (receive_payload-Quietly pool closing g)
          (Quietly-trans taken.1 acked (settle taken.0 acked) (receive_ack-Quietly taken.1 g)
            (settle-Quietly taken.0 acked))))
