-- ===== src/Network/Tests.antt =====
-- Calls of the network stack on small inputs.
use osai.Prelude.{
  ℕ, ◌+◌, ◌≡◌, ◌≤◌, refl, arith, true, false, Option, none, some, List, [], ◌∷◌, replicate, length,
  get_elem?, ok, ◌⊎◌,
}
use osai.SocketBuffer.{SocketBuffer, BufferPool, alloc, write, write_loop}
use osai.Network.Rings.{Binding, bind_queue}
use osai.Network.Backlog.{AcceptEntry, Listener, enqueue_backlog, register_listener}
use osai.Network.Flow.{
  FlowState, established, is_syn_recv, is_unused, TcpFlow, find_flow_from, reset,
  find_flow_by_ports, alloc_tcp_flow,
}
use osai.Network.Reassembly.{Draining, drain_loop, drain_fuel, ooo_buffer_drain}
use osai.Network.Frame.{process_tcp_frame, binding_for}
use osai.Network.Receive.{Segment, receive}
use osai.Network.Slots.{count_state}
use osai.Network.Change.{is_late}
use osai.Network.Timers.{Expiry, expire_rto, expire_keepalive}
use osai.Network.Events.{
  booted, zero_flow, Event, frame, expire, drain, listen, accept, bind, run, no_listener,
}
use osai.Network.Reached.{run-half_open, run-next_flow_id, run-no_timers}
use osai.Network.Drained.{Ended, ooo_buffer_drain-Ended}
use osai.Network.Lost.{receive-fin}
use osai.Network.Accepting.{waiting, accept_many, enqueue_backlog-accept_many}
use osai.Network.Idle.{IsIdle}
use osai.Network.Resting.{run-IsIdle}
use osai.Network.Handshake.{handle, accepted, handle-waiting}
use osai.Network.{NetworkStack, next_id}

-- A pool of two buffers.
abbrev small_pool : BufferPool
small_pool =
    let empty : SocketBuffer = record { cells = λ i. 0; head = 0; tail = 0; count = 0 } in
    replicate 2 (record { buf = empty; in_use = false })

abbrev segment : ℕ → ℕ → ℕ → List ℕ → Segment
segment flags seq ack payload = record {
  frame_len = 54 + length payload;
  src_port = 4000;
  dst_port = 80;
  remote_address = 10;
  local_address = 20;
  seq = seq;
  ack = ack;
  flags = flags;
  payload = payload;
  mss = 1000;
  window_scale = 0;
}

-- A port is opened, a peer connects to it, the clock runs, and the connection is accepted.
abbrev handshake : List Event
handshake =
    bind 1 2 1
    ∷ listen 80 7
    ∷ frame (some (segment 2 100 0 [])) 1000 1000
    ∷ drain (λ i. true)
    ∷ frame (some (segment 16 101 1002 [])) 2000 2000
    ∷ accept 80
    ∷ frame (some (segment 24 101 1002 (5 ∷ 6 ∷ []))) 3000 3000
    ∷ expire 4000
    ∷ []

-- What a test looks at in a connection.
abbrev view : Option TcpFlow → Option (FlowState × ℕ × ℕ × Option ℕ)
view none = none
view (some f) = some (f.state, f.flow_id, f.expected_seq, f.rx_buf)

abbrev after_handshake : NetworkStack
after_handshake = run (booted small_pool) handshake

abbrev first_view : Option (FlowState × ℕ × ℕ × Option ℕ)
first_view = view (get_elem? after_handshake.flows 0)

-- Up to the SYN.
abbrev syn_only : List Event
syn_only = bind 1 2 1 ∷ listen 80 7 ∷ frame (some (segment 2 100 0 [])) 1000 1000 ∷ []

abbrev syn_flow : TcpFlow
syn_flow = elim (get_elem? (run (booted small_pool) syn_only).flows 0) [
  | none ↦ zero_flow
  | some f ↦ f
]

syn_held : get_elem? (run (booted small_pool) syn_only).flows 0 ≡ some syn_flow
unfolding booted run process_tcp_frame bind_queue register_listener find_flow_from reset alloc
    binding_for
syn_held = refl

run-half_open_example :
    (after_handshake.half_open_count ≡ count_state is_syn_recv after_handshake.flows)
    × (count_state is_syn_recv after_handshake.flows ≤ 8)
run-half_open_example = run-half_open small_pool handshake

run-next_flow_id_example :
    (after_handshake.next_flow_id + count_state is_unused after_handshake.flows ≡ 17)
    × (after_handshake.next_flow_id ≤ 17)
run-next_flow_id_example = run-next_flow_id small_pool handshake

run-no_timers_example :
    (is_late syn_flow.state ≡ false)
    × ((now : ℕ) (c : Expiry)
        → (expire_rto now c syn_flow ≡ (c, syn_flow))
          × (expire_keepalive now c syn_flow ≡ (c, syn_flow)))
run-no_timers_example = run-no_timers small_pool syn_only 0 syn_flow syn_held

run-IsIdle_example : IsIdle after_handshake.queues
run-IsIdle_example = run-IsIdle small_pool handshake

-- A connection that waits for byte 10 and holds the segments from 13 and from 12.
abbrev gapped : TcpFlow
gapped = record zero_flow {
  state = established;
  rx_buf = some 0;
  expected_seq = 12;
  ooo_buf =
      record { seq = 13; in_use = true; bytes = 7 ∷ 8 ∷ [] }
      ∷ record { seq = 12; in_use = true; bytes = 6 ∷ [] }
      ∷ [];
}

gap_closes : (ooo_buffer_drain small_pool gapped).flow.expected_seq ≡ 15
unfolding ooo_buffer_drain write write_loop
gap_closes = refl

ooo_buffer_drain-Ended_example :
    let start : Draining = record {
      progress = true;
      total = 0;
      pool = small_pool;
      flow = gapped;
    } in
    Ended (ooo_buffer_drain small_pool gapped)
    × (drain_loop (drain_fuel + 3) start ≡ ooo_buffer_drain small_pool gapped)
ooo_buffer_drain-Ended_example = ooo_buffer_drain-Ended small_pool gapped 3

-- The last segment of a peer: two bytes and FIN.
abbrev last_segment : Segment
last_segment = segment 17 12 0 (1 ∷ 2 ∷ [])

abbrev in_order : TcpFlow
in_order = record gapped { ooo_buf = [] }

receive-fin_example :
    ((receive small_pool in_order last_segment 5).0 ≡ small_pool)
    × ((receive small_pool in_order last_segment 5).1.ooo_buf ≡ [])
receive-fin_example = receive-fin small_pool in_order last_segment 5 refl (omega arith)

abbrev entry : ℕ → AcceptEntry
entry id = record { flow_id = id; peer_ip = 10; peer_port = 4000; local_port = 80 }

abbrev one_waits : List Listener
one_waits =
    no_listener ∷ record { port = 80; sockfd = 7; active = true; backlog = entry 1 ∷ [] } ∷ []

one_waiting : waiting one_waits 80 ≡ some (entry 1 ∷ [])
unfolding waiting
one_waiting = refl

enqueue_backlog-accept_many_example :
    let after = (enqueue_backlog one_waits (entry 2)).1 in
    ((enqueue_backlog one_waits (entry 2)).0 ≡ true)
    × ((true ≡ true) ⊎ (after ≡ one_waits))
    × (accept_many 2 after 80 ≡ entry 1 ∷ entry 2 ∷ [])
enqueue_backlog-accept_many_example =
    enqueue_backlog-accept_many one_waits (entry 2) (entry 1 ∷ []) one_waiting

-- A ninth is refused.
abbrev eight : List AcceptEntry
eight = entry 1 ∷ entry 2 ∷ entry 3 ∷ entry 4 ∷ entry 5 ∷ entry 6 ∷ entry 7 ∷ entry 8 ∷ []

abbrev eight_wait : List Listener
eight_wait = record { port = 80; sockfd = 7; active = true; backlog = eight } ∷ []

ninth_refused : enqueue_backlog eight_wait (entry 9) ≡ (false, eight_wait)
unfolding enqueue_backlog
ninth_refused = refl

-- A port that somebody listens on, and the two frames of a peer.
abbrev listening : NetworkStack
listening = run (booted small_pool) (bind 1 2 1 ∷ listen 80 7 ∷ [])

abbrev first_binding : Binding
first_binding = record { queue_id = 1; cell_id = 1; core_mask = 2; in_use = true }

abbrev free_flow : TcpFlow
free_flow = elim (get_elem? listening.flows 0) [ none ↦ zero_flow | some f ↦ f ]

free_entry : alloc_tcp_flow listening.flows listening.half_open_count ≡ some (0, free_flow)
unfolding booted run bind_queue register_listener find_flow_from reset alloc_tcp_flow
free_entry = refl

no_connection : find_flow_by_ports listening.flows 80 4000 10 ≡ none
unfolding booted run bind_queue register_listener find_flow_from reset find_flow_by_ports
no_connection = refl

nobody_waits : waiting listening.listeners 80 ≡ some []
unfolding booted run bind_queue register_listener find_flow_from reset waiting
nobody_waits = refl

handle-waiting_example :
    let syn = segment 2 100 0 [] in
    let ack = segment 16 101 1002 [] in
    let first = handle listening 0 first_binding syn 1000 1000 in
    let second = handle first.1 1 first_binding ack 2000 2000 in
    (first.0 ≡ ok)
    × (second.0 ≡ ok)
    × (waiting second.1.listeners 80 ≡ some (accepted (next_id listening.next_flow_id).0 syn ∷ []))
handle-waiting_example =
    handle-waiting listening 0 1 first_binding first_binding (segment 2 100 0 [])
      (segment 16 101 1002 []) 1000 1000 2000 2000 (0, free_flow) [] refl refl refl refl refl refl
      refl nobody_waits (omega arith) free_entry no_connection
