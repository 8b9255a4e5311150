-- ===== src/Network/Rings.antt =====
-- kernel/runtime/network_stack.c: which cell a network queue is bound to, the depth of the rings of
-- the queues, and the packet descriptors. A pointer to a table entry is its index.
use osai.Prelude.{
  ℕ, suc, ◌-◌, ◌*◌, ◌/◌, ◌%◌, ◌^◌, Bool, true, false, not, ◌&&◌, ◌||◌, Option, none, some, List, [],
  ◌∷◌, bit_xor, leb, ◌==◌, if◌then◌else◌, Status, ok, invalid, no_memory, not_found, busy, add64,
}

-- XAIOS_NETWORK_MAX_QUEUE_BINDINGS
abbrev pub max_queue_bindings : ℕ
max_queue_bindings = 4

-- XAIOS_NETWORK_QUEUE_ID_INVALID
abbrev pub queue_id_invalid : ℕ
queue_id_invalid = 2 ^ 32 - 1

-- NETWORK_QUEUE_RING_SIZE
abbrev pub queue_ring_size : ℕ
queue_ring_size = 8

-- NETWORK_BUFFER_SIZE
abbrev pub buffer_size : ℕ
buffer_size = 1520

-- `network_queue_binding_t`
pub record Binding : Type 0 where
  pub queue_id : ℕ
  pub cell_id : ℕ
  pub core_mask : ℕ
  pub in_use : Bool

-- `network_queue_ring_t`
pub record Ring : Type 0 where
  pub queue_id : ℕ
  pub rx_depth : ℕ
  pub tx_depth : ℕ
  pub completed : ℕ
  pub drops : ℕ

-- `network_packet_state_t`
pub data PacketState : Type 0 where
  unowned rx_owned tx_queued complete dropped : PacketState

-- The fields of `network_packet_desc_t` that this file writes.
pub record Packet : Type 0 where
  pub state : PacketState
  pub queue_id : ℕ
  pub cell_id : ℕ
  pub src_port : ℕ
  pub dst_port : ℕ
  pub src_address : ℕ
  pub dst_address : ℕ
  pub length : ℕ
  pub created_ns : ℕ

-- `g_queue_bindings`, `g_queue_rings`, `g_packet_descs` and their counters.
pub record Queues : Type 0 where
  pub bindings : List Binding
  pub rings : List Ring
  pub packets : List Packet
  pub binding_count : ℕ
  pub rx_packet_count : ℕ
  pub tx_packet_count : ℕ
  pub packet_drop_count : ℕ
  pub packet_lifecycle_count : ℕ
  pub rx_enqueue_count : ℕ
  pub tx_enqueue_count : ℕ
  pub completion_count : ℕ
  pub backpressure_drop_count : ℕ

-- `find_binding`
unfoldable pub find_binding : List Binding → ℕ → Option Binding
find_binding [] queue = none
find_binding (b ∷ bindings) queue =
    let rest = find_binding bindings queue in
    if b.in_use && (b.queue_id == queue) then some b else rest

-- A change of the first ring of a queue, the one that `find_queue_ring` returns.
unfoldable pub on_ring : List Ring → ℕ → (Ring → Ring) → List Ring
on_ring [] queue change = []
on_ring (r ∷ rings) queue change =
    let rest = on_ring rings queue change in
    if r.queue_id == queue then change r ∷ rings else r ∷ rest

-- `find_queue_ring`
unfoldable pub find_queue_ring : List Ring → ℕ → Option Ring
find_queue_ring [] queue = none
find_queue_ring (r ∷ rings) queue =
    let rest = find_queue_ring rings queue in if r.queue_id == queue then some r else rest

-- `active_binding_count`
unfoldable pub active_binding_count : List Binding → ℕ
active_binding_count [] = 0
active_binding_count (b ∷ bindings) =
    let rest = active_binding_count bindings in if b.in_use then suc rest else rest

-- `binding_by_active_index`
unfoldable pub binding_by_active_index : List Binding → ℕ → Option Binding
binding_by_active_index [] index = none
binding_by_active_index (b ∷ bindings) index =
    let skipped = binding_by_active_index bindings index in
    let rest = binding_by_active_index bindings (index - 1) in
    if b.in_use then (if index == 0 then some b else rest) else skipped

-- `hash` of `select_binding_for_flow`
abbrev pub flow_hash : ℕ → ℕ → ℕ → ℕ → ℕ
flow_hash local_port remote_port local_address remote_address =
    bit_xor (bit_xor (bit_xor local_port (remote_port * 2 ^ 3 % 2 ^ 32)) local_address)
      (remote_address / 2 ^ 8)

-- `select_binding_for_flow`, with its hash.
unfoldable pub select_binding_for_flow : List Binding → ℕ → Option Binding
unfolding active_binding_count binding_by_active_index
select_binding_for_flow bindings hash =
    let active = active_binding_count bindings in
    if active == 0 then none else binding_by_active_index bindings (hash % active)

-- `queue_ring_reset`
abbrev pub reset_ring : Ring → Ring
reset_ring r = record r { rx_depth = 0; tx_depth = 0; completed = 0; drops = 0 }

-- The scan for a bound entry in `network_stack_bind_queue`.
unfoldable pub is_bound : List Binding → ℕ → Bool
is_bound [] queue = false
is_bound (b ∷ bindings) queue =
    let rest = is_bound bindings queue in if b.in_use && (b.queue_id == queue) then true else rest

-- The scan for an entry that is not in use, written with the binding; none when there is none.
unfoldable pub bind_free : List Binding → Binding → Option (List Binding)
bind_free [] new = none
bind_free (b ∷ bindings) new =
    let rest = bind_free bindings new in
    if not b.in_use
    then some (new ∷ bindings)
    else elim rest [ none ↦ none | some bindings' ↦ some (b ∷ bindings') ]

-- `network_stack_bind_queue`
unfoldable pub bind_queue : Queues → ℕ → ℕ → ℕ → Status × Queues
unfolding is_bound bind_free on_ring
bind_queue q cell queue mask =
    let new : Binding = record {
      queue_id = queue;
      cell_id = cell;
      core_mask = mask;
      in_use = true;
    } in
    if leb max_queue_bindings queue || (mask == 0) || (cell == 2 ^ 32 - 1)
    then (invalid, q)
    else if is_bound q.bindings queue
    then (busy, q)
    else elim (bind_free q.bindings new) [
      | none ↦ (no_memory, q)
      | some bindings' ↦ (
        ok,
        record q {
          bindings = bindings';
          rings = on_ring q.rings queue reset_ring;
          binding_count = add64 q.binding_count 1;
        },
      )
    ]

-- The entry of a queue after `network_stack_release_queue`.
abbrev pub unbound : Binding
unbound = record { queue_id = queue_id_invalid; cell_id = 0; core_mask = 0; in_use = false }

-- The scan of `network_stack_release_queue`; none when no entry matches.
unfoldable pub unbind : List Binding → ℕ → ℕ → Option (List Binding)
unbind [] queue cell = none
unbind (b ∷ bindings) queue cell =
    let rest = unbind bindings queue cell in
    if b.in_use && (b.queue_id == queue) && (b.cell_id == cell)
    then some (unbound ∷ bindings)
    else elim rest [ none ↦ none | some bindings' ↦ some (b ∷ bindings') ]

-- `network_stack_release_queue`
unfoldable pub release_queue : Queues → ℕ → ℕ → Status × Queues
unfolding unbind on_ring
release_queue q queue cell = elim (unbind q.bindings queue cell) [
  | none ↦ (not_found, q)
  | some bindings' ↦ (
    ok,
    record q {
      bindings = bindings';
      rings = on_ring q.rings queue reset_ring;
      binding_count = if q.binding_count == 0 then 0 else q.binding_count - 1;
    },
  )
]
