-- ===== src/Network/Allocated.antt =====
-- kernel/runtime/network_stack.c: `alloc_packet_desc` on idle queues.
use osai.Prelude.{
  ℕ, ◌≡◌, refl, sym, ap, subst, ◌∙◌, arith, Bool, true, false, ◌||◌, Option, none, some, leb, ltb,
  ◌==◌, Bool-cases, Option-cases, inl, inr, All, add64,
}
use osai.Network.Rings.{
  Ring, Packet, rx_owned, Queues, find_queue_ring, on_ring, find_binding, queue_ring_size,
  buffer_size,
}
use osai.Network.Packets.{
  queue_ring_rx_enqueue, refuse_enqueue, enqueue_desc, place_desc, alloc_packet_desc, take_desc,
  queue_ring_rx_complete, count_packet_drop, count_drop,
}
use osai.Network.Idle.{IsIdle, take_desc_lem, on_ring-All, on_ring-on_ring, All-found}
use osai.Network.Lifecycle.{Owned, received, taken}

-- How an allocation ends from idle queues.
pub data Allocated (out : Option ℕ × Queues) : Type 0 where
  refused : out.0 ≡ none → IsIdle out.1 → Allocated out
  granted : (i : ℕ) → out.0 ≡ some i → Owned i out.1 → Allocated out

abbrev entered : Queues → ℕ → Queues
entered q queue = record q {
  rings = on_ring q.rings queue received;
  rx_enqueue_count = add64 q.rx_enqueue_count 1;
}

rx_enters :
    (q : Queues) (queue : ℕ) (r : Ring)
    → find_queue_ring q.rings queue ≡ some r
    → r.rx_depth ≡ 0
    → queue_ring_rx_enqueue q queue ≡ (true, entered q queue)
unfolding queue_ring_rx_enqueue
rx_enters q queue r found empty =
    let room : leb queue_ring_size r.rx_depth ≡ false = ground (arith, empty) in
    rw (found, queue_ring_rx_enqueue) (rw room refl)

rx_refuses :
    (q : Queues) (queue : ℕ)
    → find_queue_ring q.rings queue ≡ none
    → queue_ring_rx_enqueue q queue ≡ (false, refuse_enqueue q queue)
unfolding queue_ring_rx_enqueue
rx_refuses q queue missing = rw (missing, queue_ring_rx_enqueue) refl

-- The scan for a descriptor, once the packet is in its ring.
place_desc-Allocated :
    (q : Queues) (new : Packet) (r : Ring)
    → IsIdle q
    → new.state ≡ rx_owned
    → find_queue_ring q.rings new.queue_id ≡ some r
    → Allocated (place_desc (true, entered q new.queue_id) new)
unfolding place_desc queue_ring_rx_complete
place_desc-Allocated q new r idle owned found =
    let queue = new.queue_id in
    elim (Option-cases (take_desc 0 q.packets new)) [
      | inl full ↦
          rw (full, place_desc)
            (refused refl (record {
              rings =
                  subst (All (λ (r : Ring). (r.rx_depth ≡ 0) × (r.tx_depth ≡ 0)))
                    (sym (on_ring-on_ring q.rings queue received taken (λ r. refl)))
                    (on_ring-All q.rings queue (λ r. taken (received r)) idle.rings
                      (λ r empty. (omega (arith, empty.0), empty.1)));
              packets = idle.packets;
            }))
      | inr got ↦
          let (k, index, inside, written) = take_desc_lem 0 q.packets new got.0 got.1 in
          let at : got.0.0 ≡ k = index ∙ omega arith in
          rw (got.1, place_desc)
            (granted k (ap some at) (record {
              before = q;
              idle = idle;
              packet = new;
              ring = r;
              is_owned = owned;
              inside = inside;
              packets = written;
              rings = refl;
              found = found;
            }))
    ]

enqueue_desc-Allocated :
    (q : Queues) (new : Packet) → IsIdle q → new.state ≡ rx_owned → Allocated (enqueue_desc q new)
unfolding enqueue_desc place_desc refuse_enqueue
enqueue_desc-Allocated q new idle owned =
    let queue = new.queue_id in
    let place : Bool × Queues → Type 0 = λ w. Allocated (place_desc w new) in
    elim (Option-cases (find_queue_ring q.rings queue)) [
      | inl missing ↦ subst place (sym (rx_refuses q queue missing)) (
          refused refl (record {
            rings = on_ring-All q.rings queue count_drop idle.rings (λ r empty. empty);
            packets = idle.packets;
          }))
      | inr ring ↦
          let empty = All-found q.rings queue ring.0 idle.rings ring.1 in
          subst place (sym (rx_enters q queue ring.0 ring.1 empty.0))
            (place_desc-Allocated q new ring.0 idle owned ring.1)
    ]

pub alloc_packet_desc-Allocated :
    (q : Queues) (queue len now : ℕ) → IsIdle q → Allocated (alloc_packet_desc q queue len now)
unfolding alloc_packet_desc
alloc_packet_desc-Allocated q queue len now idle =
    let quiet : IsIdle (count_packet_drop q) = record {
      rings = idle.rings;
      packets = idle.packets;
    } in
    elim (Option-cases (find_binding q.bindings queue)) [
      | inl missing ↦ rw (missing, alloc_packet_desc) (refused refl quiet)
      | inr got ↦ elim (Bool-cases ((len == 0) || ltb buffer_size len)) [
        | inl bad ↦ rw (got.1, alloc_packet_desc) (rw bad (refused refl quiet))
        | inr good ↦
            rw (got.1, alloc_packet_desc)
              (rw good (
                enqueue_desc-Allocated q
                  (record {
                    state = rx_owned;
                    queue_id = queue;
                    cell_id = got.0.cell_id;
                    src_port = 0;
                    dst_port = 0;
                    src_address = 0;
                    dst_address = 0;
                    length = len;
                    created_ns = now;
                  })
                  idle refl))
      ]
    ]
