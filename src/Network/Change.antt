-- ===== src/Network/Change.antt =====
-- kernel/runtime/network_stack.c: the invariant of the table of connections, and the kinds of change
-- that one call may make to it.
use osai.Prelude.{
  ℕ, ◌+◌, ◌-◌, ◌≤◌, ◌<◌, ◌≡◌, sym, ap, subst, ◌∙◌, arith, Bool, true, false, some, List, get_elem?,
  set, All, add32,
}
use osai.Network.Flow.{FlowState, syn_recv, fin_wait_2, time_wait, is_unused, is_syn_recv, TcpFlow}
use osai.Network.Slots.{one_if, count_state, count_state-set, All-get, All-set}
use osai.Network.{NetworkStack, next_id}

-- A state that only a connection over IPv6 can be in.
abbrev pub is_late : FlowState → Bool
is_late fin_wait_2 = true
is_late time_wait = true
is_late _ = false

-- What is so of every connection: nothing counts as in flight, no timer of the data or of keepalive
-- runs, and the handshake of the close has not come past its first step.
pub record Quiet (f : TcpFlow) : Type 0 where
  pub none_in_flight : f.in_flight ≡ 0
  pub no_timer : f.last_tx_ns ≡ 0
  pub no_keepalive : f.keepalive_last_tx_ns ≡ 0
  pub not_late : is_late f.state ≡ false

-- The invariant: the counter of half-open connections is their number and stays within its limit,
-- and every connection that was opened still holds an entry.
pub record IsValid (s : NetworkStack) : Type 0 where
  pub counted : s.half_open_count ≡ count_state is_syn_recv s.flows
  pub bounded : s.half_open_count ≤ 8
  pub held : s.next_flow_id + count_state is_unused s.flows ≡ 17
  pub started : 1 ≤ s.next_flow_id
  pub quiet : All Quiet s.flows

-- How a call may change the table: not at all, an entry that stays in its kind of state, an entry
-- that leaves SYN_RECV, or an unused entry that enters it.
pub data Change (s s' : NetworkStack) : Type 0 where
  same :
      s'.flows ≡ s.flows
      → s'.half_open_count ≡ s.half_open_count
      → s'.next_flow_id ≡ s.next_flow_id
      → Change s s'
  kept :
      (i : ℕ) (f f' : TcpFlow)
      → get_elem? s.flows i ≡ some f
      → s'.flows ≡ set s.flows i f'
      → s'.half_open_count ≡ s.half_open_count
      → s'.next_flow_id ≡ s.next_flow_id
      → is_syn_recv f'.state ≡ is_syn_recv f.state
      → is_unused f'.state ≡ is_unused f.state
      → (Quiet f → Quiet f')
      → Change s s'
  left :
      (i : ℕ) (f f' : TcpFlow)
      → get_elem? s.flows i ≡ some f
      → s'.flows ≡ set s.flows i f'
      → s'.half_open_count ≡ s.half_open_count - 1
      → s'.next_flow_id ≡ s.next_flow_id
      → is_syn_recv f.state ≡ true
      → is_syn_recv f'.state ≡ false
      → is_unused f'.state ≡ is_unused f.state
      → (Quiet f → Quiet f')
      → Change s s'
  entered :
      (i : ℕ) (f f' : TcpFlow)
      → get_elem? s.flows i ≡ some f
      → s'.flows ≡ set s.flows i f'
      → s.half_open_count < 8
      → s'.half_open_count ≡ add32 s.half_open_count 1
      → s'.next_flow_id ≡ (next_id s.next_flow_id).1
      → is_unused f.state ≡ true
      → f'.state ≡ syn_recv
      → Quiet f'
      → Change s s'

next_id-small : (n : ℕ) → 1 ≤ n → n ≤ 17 → (next_id n).1 ≡ n + 1
unfolding next_id
next_id-small n low high = ground arith

syn_not_unused : (f : TcpFlow) → is_unused f.state ≡ true → is_syn_recv f.state ≡ false
syn_not_unused f h = ground arith

count_written :
    (test : FlowState → Bool) (flows flows' : List TcpFlow) (i : ℕ) (f f' : TcpFlow)
    → get_elem? flows i ≡ some f
    → flows' ≡ set flows i f'
    → count_state test flows' + one_if (test f.state)
      ≡ count_state test flows + one_if (test f'.state)
count_written test flows flows' i f f' at written =
    omega (arith, count_state-set test flows i f f' at, ap (count_state test) written)

-- Every kind of change keeps the invariant.
pub change-IsValid : (s s' : NetworkStack) → IsValid s → Change s s' → IsValid s'
change-IsValid s s' v (same flows half next) = record {
  counted = half ∙ v.counted ∙ ap (count_state is_syn_recv) (sym flows);
  bounded = omega (arith, half, v.bounded);
  held = rw (flows, next) v.held;
  started = omega (arith, next, v.started);
  quiet = subst (All Quiet) (sym flows) v.quiet;
}
change-IsValid s s' v (kept i f f' at flows half next syn unused quiet) =
    let syns = count_written is_syn_recv s.flows s'.flows i f f' at flows in
    let unuseds = count_written is_unused s.flows s'.flows i f f' at flows in
    record {
      counted = omega (arith, half, syns, ap one_if syn, v.counted);
      bounded = omega (arith, half, v.bounded);
      held = omega (arith, next, unuseds, ap one_if unused, v.held);
      started = omega (arith, next, v.started);
      quiet =
          subst (All Quiet) (sym flows)
            (All-set Quiet s.flows i f' v.quiet (quiet (All-get Quiet s.flows i f v.quiet at)));
    }
change-IsValid s s' v (left i f f' at flows half next was syn unused quiet) =
    let syns = count_written is_syn_recv s.flows s'.flows i f f' at flows in
    let unuseds = count_written is_unused s.flows s'.flows i f f' at flows in
    record {
      counted = omega (arith, half, syns, ap one_if syn, ap one_if was, v.counted);
      bounded = omega (arith, half, v.bounded);
      held = omega (arith, next, unuseds, ap one_if unused, v.held);
      started = omega (arith, next, v.started);
      quiet =
          subst (All Quiet) (sym flows)
            (All-set Quiet s.flows i f' v.quiet (quiet (All-get Quiet s.flows i f v.quiet at)));
    }
change-IsValid s s' v (entered i f f' at flows room half next was now quiet) =
    let syns = count_written is_syn_recv s.flows s'.flows i f f' at flows in
    let unuseds = count_written is_unused s.flows s'.flows i f f' at flows in
    let idle = syn_not_unused f was in
    let up = next_id-small s.next_flow_id v.started (omega (arith, v.held)) in
    record {
      counted = omega (
        arith,
        half,
        room,
        syns,
        ap one_if idle,
        ap (λ t. one_if (is_syn_recv t)) now,
        v.counted,
      );
      bounded = omega (arith, half, room);
      held =
          omega
            (arith, next, up, unuseds, ap one_if was, ap (λ t. one_if (is_unused t)) now, v.held);
      started = omega (arith, next, up);
      quiet = subst (All Quiet) (sym flows) (All-set Quiet s.flows i f' v.quiet quiet);
    }
