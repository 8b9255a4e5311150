-- ===== src/Network/Reached.antt =====
-- kernel/runtime/network_stack.c: what holds of the connections after any calls.
use osai.Prelude.{
  ℕ, zero, suc, ◌+◌, ◌≤◌, ◌≡◌, refl, arith, Bool, true, false, ◌&&◌, some, List, [], ◌∷◌, ◌==◌,
  replicate, map, All, get_elem?, Option-cases, inl, inr,
}
use osai.SocketBuffer.{BufferPool}
use osai.Network.Flow.{is_unused, is_syn_recv, is_open, TcpFlow, find_flow_from, has_buffer, reset}
use osai.Network.Reassembly.{available_at, read_buffer}
use osai.Network.Slots.{find_flow_from-Found, count_state, All-get}
use osai.Network.Change.{Quiet, IsValid, is_late, Change, same, kept, change-IsValid}
use osai.Network.Accepted.{process_tcp_frame-Change}
use osai.Network.Timers.{Expiry, expire_rto, expire_keepalive}
use osai.Network.Expired.{
  retransmit_tcp_flows-IsValid, expire_tcp_flows-IsValid, tcp_drain_pending-IsValid,
}
use osai.Network.Send.{tcp_send, tcp_close_flow, tcp_recv}
use osai.Network.Events.{
  booted, zero_flow, Event, frame, retransmit, expire, drain, send, recv, close, listen, unlisten,
  accept, bind, release, step, run, accept_connection,
}
use osai.Network.{NetworkStack}

tcp_close_flow-Change : (s : NetworkStack) (id : ℕ) → Change s (tcp_close_flow s id).1
unfolding tcp_close_flow
tcp_close_flow-Change s id =
    let test : TcpFlow → Bool = λ f. f.flow_id == id in
    elim (Option-cases (find_flow_from 0 s.flows test)) [
      | inl missing ↦ rw (missing, tcp_close_flow) (same refl refl refl)
      | inr got ↦
          let found = got.0 in
          let f' : TcpFlow = record found.1 { close_requested = true; pending_fin = true } in
          rw (got.1, tcp_close_flow)
            (kept found.0 found.1 f' (find_flow_from-Found s.flows test found got.1).held refl refl
              refl refl refl
              (λ v. record {
                none_in_flight = v.none_in_flight;
                no_timer = v.no_timer;
                no_keepalive = v.no_keepalive;
                not_late = v.not_late;
              }))
    ]

tcp_send-Change : (s : NetworkStack) (id : ℕ) (bytes : List ℕ) → Change s (tcp_send s id bytes).2
unfolding tcp_send
tcp_send-Change s id bytes =
    elim (Option-cases (find_flow_from 0 s.flows (λ f. (f.flow_id == id) && is_open f.state))) [
      | inl missing ↦ rw (missing, tcp_send) (same refl refl refl)
      | inr got ↦
          rw (got.1, tcp_send)
            (elim (Option-cases got.0.1.tx_buf) [
              | inl null ↦ rw null (same refl refl refl)
              | inr held ↦ rw held.1 (same refl refl refl)
            ])
    ]

tcp_recv-Change : (s : NetworkStack) (id size : ℕ) → Change s (tcp_recv s id size).2
unfolding tcp_recv
tcp_recv-Change s id size =
    let test : TcpFlow → Bool = λ f. (f.flow_id == id) && has_buffer f in
    elim (Option-cases (find_flow_from 0 s.flows test)) [
      | inl missing ↦ rw (missing, tcp_recv) (same refl refl refl)
      | inr got ↦
          let found = got.0 in
          let f = found.1 in
          let pool' = (read_buffer s.pool f.rx_buf size).2 in
          let f' : TcpFlow = record f { window_size = available_at pool' f.rx_buf } in
          rw (got.1, tcp_recv)
            (kept found.0 f f' (find_flow_from-Found s.flows test found got.1).held refl refl refl
              refl refl
              (λ v. record {
                none_in_flight = v.none_in_flight;
                no_timer = v.no_timer;
                no_keepalive = v.no_keepalive;
                not_late = v.not_late;
              }))
    ]

step-IsValid : (s : NetworkStack) (e : Event) → IsValid s → IsValid (step s e)
unfolding step accept_connection
step-IsValid s (frame g start now) v =
    change-IsValid s (step s (frame g start now)) v (process_tcp_frame-Change s g start now)
step-IsValid s (retransmit now) v = retransmit_tcp_flows-IsValid s now v
step-IsValid s (expire now) v = expire_tcp_flows-IsValid s now v
step-IsValid s (drain resolves) v = tcp_drain_pending-IsValid s resolves v
step-IsValid s (send id bytes) v =
    change-IsValid s (step s (send id bytes)) v (tcp_send-Change s id bytes)
step-IsValid s (recv id size) v =
    change-IsValid s (step s (recv id size)) v (tcp_recv-Change s id size)
step-IsValid s (close id) v = change-IsValid s (step s (close id)) v (tcp_close_flow-Change s id)
step-IsValid s (listen port fd) v =
    change-IsValid s (step s (listen port fd)) v (same refl refl refl)
step-IsValid s (unlisten port) v = change-IsValid s (step s (unlisten port)) v (same refl refl refl)
step-IsValid s (accept port) v = change-IsValid s (step s (accept port)) v (same refl refl refl)
step-IsValid s (bind cell queue mask) v =
    change-IsValid s (step s (bind cell queue mask)) v (same refl refl refl)
step-IsValid s (release queue cell) v =
    change-IsValid s (step s (release queue cell)) v (same refl refl refl)

run-IsValid : (s : NetworkStack) (events : List Event) → IsValid s → IsValid (run s events)
unfolding run
run-IsValid s [] v = v
run-IsValid s (e ∷ events) v = run-IsValid (step s e) events (step-IsValid s e v)

zero-Quiet : Quiet (reset zero_flow)
unfolding reset
zero-Quiet = record { none_in_flight = refl; no_timer = refl; no_keepalive = refl; not_late = refl }

All-zero : (n : ℕ) → All Quiet (map reset (replicate n zero_flow))
All-zero zero = tt
All-zero (suc n) = (zero-Quiet, All-zero n)

booted-IsValid : (pool : BufferPool) → IsValid (booted pool)
unfolding booted
booted-IsValid pool = record {
  counted = refl;
  bounded = omega arith;
  held = refl;
  started = omega arith;
  quiet = All-zero 16;
}

-- After any calls of the stack over IPv4 the counter of half-open connections is the number of
-- connections in SYN_RECV, and that number is at most 8.
pub run-half_open :
    (pool : BufferPool) (events : List Event)
    → let s = run (booted pool) events in
      (s.half_open_count ≡ count_state is_syn_recv s.flows) × (count_state is_syn_recv s.flows ≤ 8)
run-half_open pool events =
    let v = run-IsValid (booted pool) events (booted-IsValid pool) in
    (v.counted, omega (arith, v.counted, v.bounded))

-- An entry of the table of connections that a connection took is never unused again: after any
-- calls of the stack over IPv4, and with UDP, which takes ids from the same counter, left out, the
-- next connection id is one more than the number of entries that are in use, and is at most 17. So
-- at most 16 connections are opened after an initialisation.
pub run-next_flow_id :
    (pool : BufferPool) (events : List Event)
    → let s = run (booted pool) events in
      (s.next_flow_id + count_state is_unused s.flows ≡ 17) × (s.next_flow_id ≤ 17)
run-next_flow_id pool events =
    let v = run-IsValid (booted pool) events (booted-IsValid pool) in
    (v.held, omega (arith, v.held))

Quiet-rto : (now : ℕ) (c : Expiry) (f : TcpFlow) → Quiet f → expire_rto now c f ≡ (c, f)
unfolding expire_rto
Quiet-rto now c f v = ground (arith, v.none_in_flight)

Quiet-keepalive : (now : ℕ) (c : Expiry) (f : TcpFlow) → Quiet f → expire_keepalive now c f ≡ (c, f)
unfolding expire_keepalive
Quiet-keepalive now c f v = ground (arith, v.no_keepalive)

-- After any calls of the stack over IPv4 no connection is in FIN_WAIT_2 or TIME_WAIT, and the parts
-- of the expiry that retransmit data and that send keepalive probes do nothing to any connection, at
-- any time.
pub run-no_timers :
    (pool : BufferPool) (events : List Event) (i : ℕ) (f : TcpFlow)
    → get_elem? (run (booted pool) events).flows i ≡ some f
    → (is_late f.state ≡ false)
      × ((now : ℕ) (c : Expiry)
          → (expire_rto now c f ≡ (c, f)) × (expire_keepalive now c f ≡ (c, f)))
run-no_timers pool events i f at =
    let v = run-IsValid (booted pool) events (booted-IsValid pool) in
    let q = All-get Quiet (run (booted pool) events).flows i f v.quiet at in
    (q.not_late, λ now c. (Quiet-rto now c f q, Quiet-keepalive now c f q))
