-- ===== src/Network/Packets.antt =====
-- kernel/runtime/network_stack.c: the life of a packet descriptor, from the receive ring of its
-- queue over the transmit ring to complete or dropped. A pointer to a descriptor is its index.
use osai.Prelude.{
  ℕ, suc, ◌+◌, ◌-◌, Bool, true, false, ◌||◌, Option, none, some, List, [], ◌∷◌, ltb, leb, ◌==◌,
  if◌then◌else◌, set, get_elem?, add64,
}
use osai.Network.Rings.{
  Ring, PacketState, unowned, rx_owned, tx_queued, complete, dropped, Packet, Queues, find_binding,
  on_ring, find_queue_ring, queue_ring_size, buffer_size,
}

abbrev pub count_drop : Ring → Ring
count_drop r = record r { drops = add64 r.drops 1 }

-- "if (ring != 0) ++ring->drops" and the counter of full rings.
unfoldable pub refuse_enqueue : Queues → ℕ → Queues
unfolding on_ring
refuse_enqueue q queue = record q {
  rings = on_ring q.rings queue count_drop;
  backpressure_drop_count = add64 q.backpressure_drop_count 1;
}

-- `queue_ring_rx_enqueue`
unfoldable pub queue_ring_rx_enqueue : Queues → ℕ → Bool × Queues
unfolding find_queue_ring refuse_enqueue
queue_ring_rx_enqueue q queue = elim (find_queue_ring q.rings queue) [
  | none ↦ (false, refuse_enqueue q queue)
  | some r ↦ if leb queue_ring_size r.rx_depth then (false, refuse_enqueue q queue) else (
    true,
    record q {
      rings = on_ring q.rings queue (λ r. record r { rx_depth = r.rx_depth + 1 });
      rx_enqueue_count = add64 q.rx_enqueue_count 1;
    },
  )
]

-- `queue_ring_rx_complete`
unfoldable pub queue_ring_rx_complete : Queues → ℕ → Queues
unfolding on_ring
queue_ring_rx_complete q queue = record q {
  rings = on_ring q.rings queue (λ r. record r { rx_depth = r.rx_depth - 1 });
}

-- `queue_ring_tx_enqueue`
unfoldable pub queue_ring_tx_enqueue : Queues → ℕ → Bool × Queues
unfolding find_queue_ring refuse_enqueue
queue_ring_tx_enqueue q queue = elim (find_queue_ring q.rings queue) [
  | none ↦ (false, refuse_enqueue q queue)
  | some r ↦ if leb queue_ring_size r.tx_depth then (false, refuse_enqueue q queue) else (
    true,
    record q {
      rings = on_ring q.rings queue (λ r. record r { tx_depth = r.tx_depth + 1 });
      tx_enqueue_count = add64 q.tx_enqueue_count 1;
    },
  )
]

-- `queue_ring_tx_complete`
unfoldable pub queue_ring_tx_complete : Queues → ℕ → Queues
unfolding find_queue_ring on_ring
queue_ring_tx_complete q queue = elim (find_queue_ring q.rings queue) [
  | none ↦ q
  | some r ↦ record q {
    rings =
        on_ring q.rings queue
          (λ r. record r { tx_depth = r.tx_depth - 1; completed = add64 r.completed 1 });
    completion_count = add64 q.completion_count 1;
  }
]

-- A descriptor that `alloc_packet_desc` may take.
abbrev pub is_reusable : PacketState → Bool
is_reusable unowned = true
is_reusable rx_owned = false
is_reusable tx_queued = false
is_reusable complete = true
is_reusable dropped = true

-- The scan of `alloc_packet_desc`: the first reusable descriptor, written; none when there is none.
unfoldable pub take_desc : ℕ → List Packet → Packet → Option (ℕ × List Packet)
take_desc i [] new = none
take_desc i (p ∷ packets) new =
    let later = take_desc (suc i) packets new in
    if is_reusable p.state
    then some (i, new ∷ packets)
    else elim later [ none ↦ none | some found ↦ some (found.0, p ∷ found.1) ]

abbrev pub count_packet_drop : Queues → Queues
count_packet_drop q = record q { packet_drop_count = add64 q.packet_drop_count 1 }

-- The scan for a descriptor, with what `queue_ring_rx_enqueue` returned.
unfoldable pub place_desc : Bool × Queues → Packet → Option ℕ × Queues
unfolding queue_ring_rx_complete take_desc
place_desc (false, q) new = (none, count_packet_drop q)
place_desc (true, q) new = elim (take_desc 0 q.packets new) [
  | none ↦ (none, count_packet_drop (queue_ring_rx_complete q new.queue_id))
  | some found ↦ (
    some found.0,
    record q {
      packets = found.1;
      rx_packet_count = add64 q.rx_packet_count 1;
      packet_lifecycle_count = add64 q.packet_lifecycle_count 1;
    },
  )
]

-- `alloc_packet_desc` past its guard.
unfoldable pub enqueue_desc : Queues → Packet → Option ℕ × Queues
unfolding place_desc queue_ring_rx_enqueue
enqueue_desc q new = place_desc (queue_ring_rx_enqueue q new.queue_id) new

-- `alloc_packet_desc`
unfoldable pub alloc_packet_desc : Queues → ℕ → ℕ → ℕ → Option ℕ × Queues
unfolding enqueue_desc find_binding
alloc_packet_desc q queue len now = elim (find_binding q.bindings queue) [
  | none ↦ (none, count_packet_drop q)
  | some b ↦
      if (len == 0) || ltb buffer_size len
      then (none, count_packet_drop q)
      else enqueue_desc q (record {
        state = rx_owned;
        queue_id = queue;
        cell_id = b.cell_id;
        src_port = 0;
        dst_port = 0;
        src_address = 0;
        dst_address = 0;
        length = len;
        created_ns = now;
      })
]

-- "packet->state = …" and the counter of steps in the life of packets.
abbrev pub move_packet : Queues → ℕ → Packet → PacketState → Queues
move_packet q i p state = record q {
  packets = set q.packets i (record p { state = state });
  packet_lifecycle_count = add64 q.packet_lifecycle_count 1;
}

-- `packet_mark_dropped`
unfoldable pub packet_mark_dropped : Queues → ℕ → Queues
unfolding queue_ring_rx_complete queue_ring_tx_complete
packet_mark_dropped q i = elim (get_elem? q.packets i) [
  | none ↦ q
  | some p ↦ elim p.state [
    | dropped ↦ q
    | rx_owned ↦ count_packet_drop (move_packet (queue_ring_rx_complete q p.queue_id) i p dropped)
    | tx_queued ↦ count_packet_drop (move_packet (queue_ring_tx_complete q p.queue_id) i p dropped)
    | _ ↦ count_packet_drop (move_packet q i p dropped)
  ]
]

-- `packet_mark_tx`
unfoldable pub packet_mark_tx : Queues → ℕ → Queues
unfolding queue_ring_rx_complete queue_ring_tx_enqueue packet_mark_dropped
packet_mark_tx q i = elim (get_elem? q.packets i) [
  | none ↦ q
  | some p ↦ elim p.state [
    | rx_owned ↦
        let entered = queue_ring_tx_enqueue q p.queue_id in
        let moved = move_packet (queue_ring_rx_complete entered.1 p.queue_id) i p tx_queued in
        if entered.0
        then record moved { tx_packet_count = add64 moved.tx_packet_count 1 }
        else packet_mark_dropped entered.1 i
    | _ ↦ q
  ]
]

-- `packet_mark_complete`
unfoldable pub packet_mark_complete : Queues → ℕ → Queues
unfolding queue_ring_tx_complete
packet_mark_complete q i = elim (get_elem? q.packets i) [
  | none ↦ q
  | some p ↦ elim p.state [
    | tx_queued ↦ move_packet (queue_ring_tx_complete q p.queue_id) i p complete
    | _ ↦ q
  ]
]
