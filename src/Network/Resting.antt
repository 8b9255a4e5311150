-- ===== src/Network/Resting.antt =====
-- kernel/runtime/network_stack.c: after any calls no packet is on its way.
use osai.Prelude.{
  ℕ, ◌≡◌, refl, sym, subst, true, List, [], ◌∷◌, Bool-cases, Option-cases, inl, inr, ◌||◌, leb,
  ◌&&◌, ◌==◌, ◌^◌, ◌-◌, All, add64, if◌then◌else◌, replicate, zero, suc,
}
use osai.SocketBuffer.{BufferPool}
use osai.Network.Rings.{
  on_ring, Queues, Binding, Packet, bind_queue, release_queue, bind_free, unbind, is_bound,
  reset_ring, max_queue_bindings,
}
use osai.Network.Packets.{is_reusable}
use osai.Network.Flow.{find_flow_from, is_open, has_buffer}
use osai.Network.Idle.{IsIdle, on_ring-All}
use osai.Network.Balanced.{process_tcp_frame-IsIdle}
use osai.Network.Timers.{retransmit_tcp_flows, expire_tcp_flows}
use osai.Network.Send.{tcp_send, tcp_recv, tcp_close_flow, tcp_drain_pending}
use osai.Network.Events.{
  booted, empty_packet, Event, frame, retransmit, expire, drain, send, recv, close, listen,
  unlisten, accept, bind, release, step, run, accept_connection,
}
use osai.Network.{NetworkStack}

-- The queues after the ring of one was reset.
reset_queue :
    (q : Queues) (bindings : List Binding) (n queue : ℕ)
    → IsIdle q
    → IsIdle (record q {
      bindings = bindings;
      rings = on_ring q.rings queue reset_ring;
      binding_count = n;
    })
reset_queue q bindings n queue idle = record {
  rings = on_ring-All q.rings queue reset_ring idle.rings (λ r empty. (refl, refl));
  packets = idle.packets;
}

bind_queue-IsIdle :
    (q : Queues) (cell queue mask : ℕ) → IsIdle q → IsIdle (bind_queue q cell queue mask).1
unfolding bind_queue
bind_queue-IsIdle q cell queue mask idle =
    let new : Binding = record {
      queue_id = queue;
      cell_id = cell;
      core_mask = mask;
      in_use = true;
    } in
    elim (Bool-cases (leb max_queue_bindings queue || (mask == 0) || (cell == 2 ^ 32 - 1))) [
      | inl bad ↦ rw (bad, bind_queue) idle
      | inr good ↦
          rw (good, bind_queue)
            (elim (Bool-cases (is_bound q.bindings queue)) [
              | inl held ↦ rw held idle
              | inr unheld ↦ rw unheld (elim (Option-cases (bind_free q.bindings new)) [
                | inl full ↦ rw full idle
                | inr got ↦ rw got.1 (reset_queue q got.0 (add64 q.binding_count 1) queue idle)
              ])
            ])
    ]

release_queue-IsIdle :
    (q : Queues) (queue cell : ℕ) → IsIdle q → IsIdle (release_queue q queue cell).1
unfolding release_queue
release_queue-IsIdle q queue cell idle = elim (Option-cases (unbind q.bindings queue cell)) [
  | inl missing ↦ rw (missing, release_queue) idle
  | inr got ↦
      rw (got.1, release_queue)
        (reset_queue q got.0 (if q.binding_count == 0 then 0 else q.binding_count - 1) queue idle)
]

tcp_send-queues :
    (s : NetworkStack) (id : ℕ) (bytes : List ℕ) → (tcp_send s id bytes).2.queues ≡ s.queues
unfolding tcp_send
tcp_send-queues s id bytes =
    elim (Option-cases (find_flow_from 0 s.flows (λ f. (f.flow_id == id) && is_open f.state))) [
      | inl missing ↦ rw (missing, tcp_send) refl
      | inr got ↦
          rw (got.1, tcp_send)
            (elim (Option-cases got.0.1.tx_buf) [
              | inl null ↦ rw null refl
              | inr held ↦ rw held.1 refl
            ])
    ]

tcp_recv-queues : (s : NetworkStack) (id size : ℕ) → (tcp_recv s id size).2.queues ≡ s.queues
unfolding tcp_recv
tcp_recv-queues s id size =
    elim (Option-cases (find_flow_from 0 s.flows (λ f. (f.flow_id == id) && has_buffer f))) [
      | inl missing ↦ rw (missing, tcp_recv) refl
      | inr got ↦ rw (got.1, tcp_recv) refl
    ]

tcp_close_flow-queues : (s : NetworkStack) (id : ℕ) → (tcp_close_flow s id).1.queues ≡ s.queues
unfolding tcp_close_flow
tcp_close_flow-queues s id = elim (Option-cases (find_flow_from 0 s.flows (λ f. f.flow_id == id))) [
  | inl missing ↦ rw (missing, tcp_close_flow) refl
  | inr got ↦ rw (got.1, tcp_close_flow) refl
]

step-IsIdle : (s : NetworkStack) (e : Event) → IsIdle s.queues → IsIdle (step s e).queues
unfolding step retransmit_tcp_flows expire_tcp_flows tcp_drain_pending accept_connection
step-IsIdle s (frame g start now) idle = process_tcp_frame-IsIdle s g start now idle
step-IsIdle s (retransmit now) idle = idle
step-IsIdle s (expire now) idle = record { rings = idle.rings; packets = idle.packets }
step-IsIdle s (drain resolves) idle = idle
step-IsIdle s (send id bytes) idle = subst IsIdle (sym (tcp_send-queues s id bytes)) idle
step-IsIdle s (recv id size) idle = subst IsIdle (sym (tcp_recv-queues s id size)) idle
step-IsIdle s (close id) idle = subst IsIdle (sym (tcp_close_flow-queues s id)) idle
step-IsIdle s (listen port fd) idle = idle
step-IsIdle s (unlisten port) idle = idle
step-IsIdle s (accept port) idle = idle
step-IsIdle s (bind cell queue mask) idle = bind_queue-IsIdle s.queues cell queue mask idle
step-IsIdle s (release queue cell) idle = release_queue-IsIdle s.queues queue cell idle

IsIdle-run :
    (s : NetworkStack) (events : List Event) → IsIdle s.queues → IsIdle (run s events).queues
unfolding run
IsIdle-run s [] idle = idle
IsIdle-run s (e ∷ events) idle = IsIdle-run (step s e) events (step-IsIdle s e idle)

replicate_taken :
    (n : ℕ) → All (λ (p : Packet). is_reusable p.state ≡ true) (replicate n empty_packet)
replicate_taken zero = tt
replicate_taken (suc n) = (refl, replicate_taken n)

booted-IsIdle : (pool : BufferPool) → IsIdle (booted pool).queues
unfolding booted
booted-IsIdle pool = record {
  rings = ((refl, refl), ((refl, refl), ((refl, refl), ((refl, refl), tt))));
  packets = replicate_taken 16;
}

-- After any calls of the stack over IPv4, whatever frames arrived and however each was handled, the
-- receive and transmit depths of every ring are 0 and every packet descriptor can be taken: no call keeps one.
pub run-IsIdle :
    (pool : BufferPool) (events : List Event) → IsIdle (run (booted pool) events).queues
run-IsIdle pool events = IsIdle-run (booted pool) events (booted-IsIdle pool)
