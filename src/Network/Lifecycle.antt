-- ===== src/Network/Lifecycle.antt =====
-- kernel/runtime/network_stack.c: a packet descriptor that a frame takes is given back by the end of
-- the call.
use osai.Prelude.{
  ℕ, ◌+◌, ◌-◌, ◌<◌, ◌≡◌, refl, sym, ap, subst, ◌∙◌, arith, true, false, some, leb, length, All,
  add64, get_elem?, set, get_elem?-set_self,
}
use osai.Network.Rings.{
  Ring, Packet, PacketState, rx_owned, tx_queued, complete, dropped, Queues, find_queue_ring,
  on_ring, queue_ring_size,
}
use osai.Network.Packets.{
  queue_ring_rx_complete, queue_ring_tx_enqueue, queue_ring_tx_complete, packet_mark_dropped,
  packet_mark_tx, packet_mark_complete, is_reusable,
}
use osai.Network.Idle.{
  IsIdle, on_ring-All, on_ring-on_ring, find-on_ring, All-found, All-write, set-set,
}

abbrev pub received : Ring → Ring
received r = record r { rx_depth = r.rx_depth + 1 }

-- The queues while a call holds descriptor `i`: one packet is in the receive ring of its queue.
pub record Owned (i : ℕ) (q : Queues) : Type 0 where
  pub before : Queues
  pub idle : IsIdle before
  pub packet : Packet
  pub ring : Ring
  pub is_owned : packet.state ≡ rx_owned
  pub inside : i < length before.packets
  pub packets : q.packets ≡ set before.packets i packet
  pub rings : q.rings ≡ on_ring before.rings packet.queue_id received
  pub found : find_queue_ring before.rings packet.queue_id ≡ some ring

pub Owned-at : (i : ℕ) (q : Queues) (o : Owned i q) → get_elem? q.packets i ≡ some o.packet
Owned-at i q o =
    ap (λ ps. get_elem? ps i) o.packets ∙ get_elem?-set_self o.before.packets i o.packet o.inside

abbrev with_state : Packet → PacketState → Packet
with_state p state = record p { state = state }

-- Giving the descriptor back in a state that lets it be taken again, with the ring drained.
given_back :
    (i : ℕ) (q q' : Queues) (o : Owned i q) (p : Packet) (change : Ring → Ring)
    → is_reusable p.state ≡ true
    → q'.packets ≡ set o.before.packets i p
    → q'.rings ≡ on_ring o.before.rings o.packet.queue_id change
    → ((r : Ring)
        → (r.rx_depth ≡ 0) × (r.tx_depth ≡ 0)
        → ((change r).rx_depth ≡ 0) × ((change r).tx_depth ≡ 0))
    → IsIdle q'
given_back i q q' o p change again packets rings drains = record {
  rings =
      subst (All (λ (r : Ring). (r.rx_depth ≡ 0) × (r.tx_depth ≡ 0))) (sym rings)
        (on_ring-All o.before.rings o.packet.queue_id change o.idle.rings drains);
  packets =
      subst (All (λ (p : Packet). is_reusable p.state ≡ true)) (sym packets)
        (All-write o.before.packets i p o.idle.packets again);
}

-- The packet of a descriptor that is owned leaves the receive ring.
rx_complete-Owned :
    (i : ℕ) (q : Queues) (o : Owned i q)
    → (queue_ring_rx_complete q o.packet.queue_id).rings
      ≡ on_ring o.before.rings o.packet.queue_id (λ r. record r { rx_depth = r.rx_depth + 1 - 1 })
unfolding queue_ring_rx_complete
rx_complete-Owned i q o =
    ap (λ rs. on_ring rs o.packet.queue_id (λ r. record r { rx_depth = r.rx_depth - 1 })) o.rings
    ∙ on_ring-on_ring o.before.rings o.packet.queue_id received
        (λ r. record r { rx_depth = r.rx_depth - 1 }) (λ r. refl)

-- Dropping the descriptor, by what its state is.
dropped_from :
    (q : Queues) (i : ℕ) (p : Packet)
    → get_elem? q.packets i ≡ some p
    → p.state ≡ rx_owned
    → ((packet_mark_dropped q i).packets ≡ set q.packets i (with_state p dropped))
      × ((packet_mark_dropped q i).rings ≡ (queue_ring_rx_complete q p.queue_id).rings)
unfolding packet_mark_dropped queue_ring_rx_complete
dropped_from q i p at owned =
    (rw (at, packet_mark_dropped) (rw owned refl), rw (at, packet_mark_dropped) (rw owned refl))

pub packet_mark_dropped-IsIdle : (i : ℕ) (q : Queues) → Owned i q → IsIdle (packet_mark_dropped q i)
packet_mark_dropped-IsIdle i q o =
    let p = o.packet in
    let (packets, rings) = dropped_from q i p (Owned-at i q o) o.is_owned in
    given_back i q (packet_mark_dropped q i) o (with_state p dropped)
      (λ r. record r { rx_depth = r.rx_depth + 1 - 1 }) refl
      (packets
        ∙ ap (λ ps. set ps i (with_state p dropped)) o.packets
        ∙ set-set o.before.packets i p (with_state p dropped))
      (rings ∙ rx_complete-Owned i q o) (λ r empty. (omega (arith, empty.0), empty.1))

abbrev sent : Ring → Ring
sent r = record r { tx_depth = r.tx_depth + 1 }

abbrev pub taken : Ring → Ring
taken r = record r { rx_depth = r.rx_depth - 1 }

abbrev finished : Ring → Ring
finished r = record r { tx_depth = r.tx_depth - 1; completed = add64 r.completed 1 }

tx_from :
    (q : Queues) (i : ℕ) (p : Packet) (r : Ring)
    → get_elem? q.packets i ≡ some p
    → p.state ≡ rx_owned
    → find_queue_ring q.rings p.queue_id ≡ some r
    → r.tx_depth < 8
    → ((packet_mark_tx q i).packets ≡ set q.packets i (with_state p tx_queued))
      × ((packet_mark_tx q i).rings ≡ on_ring (on_ring q.rings p.queue_id sent) p.queue_id taken)
unfolding packet_mark_tx queue_ring_tx_enqueue queue_ring_rx_complete
tx_from q i p r at owned found room =
    let fits : leb queue_ring_size r.tx_depth ≡ false = ground (arith, room) in
    (
      rw (at, packet_mark_tx) (rw owned (rw (found, queue_ring_tx_enqueue) (rw fits refl))),
      rw (at, packet_mark_tx) (rw owned (rw (found, queue_ring_tx_enqueue) (rw fits refl))),
    )

complete_from :
    (q : Queues) (i : ℕ) (p : Packet) (r : Ring)
    → get_elem? q.packets i ≡ some p
    → p.state ≡ tx_queued
    → find_queue_ring q.rings p.queue_id ≡ some r
    → ((packet_mark_complete q i).packets ≡ set q.packets i (with_state p complete))
      × ((packet_mark_complete q i).rings ≡ on_ring q.rings p.queue_id finished)
unfolding packet_mark_complete queue_ring_tx_complete
complete_from q i p r at queued found = (
  rw (at, packet_mark_complete) (rw queued (rw (found, queue_ring_tx_complete) refl)),
  rw (at, packet_mark_complete) (rw queued (rw (found, queue_ring_tx_complete) refl)),
)

-- "packet_mark_tx(packet); packet_mark_complete(packet);" gives the descriptor back.
pub mark_complete-IsIdle :
    (i : ℕ) (q : Queues) → Owned i q → IsIdle (packet_mark_complete (packet_mark_tx q i) i)
mark_complete-IsIdle i q o =
    let p = o.packet in
    let queue = p.queue_id in
    let old = o.before.rings in
    let sending = with_state p tx_queued in
    let q1 = packet_mark_tx q i in
    let keeps : (r : Ring) → (received r).queue_id ≡ r.queue_id = λ r. refl in
    let room : o.ring.tx_depth < 8 =
      omega (arith, (All-found old queue o.ring o.idle.rings o.found).1) in
    let held : find_queue_ring q.rings queue ≡ some (received o.ring) =
      ap (λ rs. find_queue_ring rs queue) o.rings
      ∙ find-on_ring old queue received o.ring keeps o.found in
    let (packets, rings) = tx_from q i p (received o.ring) (Owned-at i q o) o.is_owned held room in
    let packets1 : q1.packets ≡ set o.before.packets i sending =
      packets ∙ ap (λ ps. set ps i sending) o.packets ∙ set-set o.before.packets i p sending in
    let rings1 : q1.rings ≡ on_ring old queue (λ r. taken (sent (received r))) =
      rings
      ∙ ap (λ rs. on_ring (on_ring rs queue sent) queue taken) o.rings
      ∙ ap (λ rs. on_ring rs queue taken) (on_ring-on_ring old queue received sent (λ r. refl))
      ∙ on_ring-on_ring old queue (λ r. sent (received r)) taken (λ r. refl) in
    let at : get_elem? q1.packets i ≡ some sending =
      ap (λ ps. get_elem? ps i) packets1 ∙ get_elem?-set_self o.before.packets i sending o.inside in
    let there : find_queue_ring q1.rings queue ≡ some (taken (sent (received o.ring))) =
      ap (λ rs. find_queue_ring rs queue) rings1
      ∙ find-on_ring old queue (λ r. taken (sent (received r))) o.ring (λ r. refl) o.found in
    let (packets2, rings2) =
      complete_from q1 i sending (taken (sent (received o.ring))) at refl there in
    given_back i q (packet_mark_complete q1 i) o (with_state p complete)
      (λ r. finished (taken (sent (received r)))) refl
      (packets2
        ∙ ap (λ ps. set ps i (with_state p complete)) packets1
        ∙ set-set o.before.packets i sending (with_state p complete))
      (rings2
        ∙ ap (λ rs. on_ring rs queue finished) rings1
        ∙ on_ring-on_ring old queue (λ r. taken (sent (received r))) finished (λ r. refl))
      (λ r empty. (omega (arith, empty.0), omega (arith, empty.1)))
