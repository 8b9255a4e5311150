-- ===== src/Network/Timers.antt =====
-- kernel/runtime/network_stack.c: what the clock does to the connections.
use osai.Prelude.{
  ℕ, suc, ◌+◌, ◌-◌, ◌*◌, ◌%◌, ◌^◌, Bool, true, false, ◌&&◌, List, [], ◌∷◌, ltb, leb, if◌then◌else◌,
  add32, add64,
}
use osai.Network.Flow.{
  FlowState, closed, established, fin_wait, time_wait, is_syn_recv, is_open, TcpFlow, tcp_mss,
  retransmit_ns,
}
use osai.Network.Receive.{half_window}
use osai.Network.{NetworkStack, one_less}

-- "now_ns > since && now_ns - since >= limit"
abbrev pub is_due : ℕ → ℕ → ℕ → Bool
is_due now since limit = ltb since now && leb limit (now - since)

-- NETWORK_TCP_MAX_RETRANSMITS
abbrev pub max_retransmits : ℕ
max_retransmits = 2

-- NETWORK_TCP_SYN_TIMEOUT_NS
abbrev pub syn_timeout_ns : ℕ
syn_timeout_ns = 3000000

-- 60 seconds
abbrev pub close_timeout_ns : ℕ
close_timeout_ns = 60000000000

-- TCP_KEEPALIVE_INTERVAL_NS
abbrev pub keepalive_interval_ns : ℕ
keepalive_interval_ns = 10000000000

-- One round of `network_stack_retransmit_tcp_flows`, and whether it counts.
unfoldable pub retransmit_flow : ℕ → TcpFlow → Bool × TcpFlow
retransmit_flow now f =
    if is_syn_recv f.state
      && is_due now f.last_seen_ns retransmit_ns
      && ltb f.retransmits max_retransmits
    then (
      true,
      record f {
        retransmits = add32 f.retransmits 1;
        packets_tx = add64 f.packets_tx 1;
        last_seen_ns = now;
      },
    )
    else (false, f)

-- The loop: how many connections are counted, and the connections.
unfoldable pub retransmit_loop : ℕ → List TcpFlow → ℕ × List TcpFlow
unfolding retransmit_flow
retransmit_loop now [] = (0, [])
retransmit_loop now (f ∷ flows) =
    let (n, flows') = retransmit_loop now flows in
    let (hit, f') = retransmit_flow now f in (if hit then suc n else n, f' ∷ flows')

-- `network_stack_retransmit_tcp_flows`
unfoldable pub retransmit_tcp_flows : NetworkStack → ℕ → ℕ × NetworkStack
unfolding retransmit_loop
retransmit_tcp_flows s now =
    let (n, flows') = retransmit_loop now s.flows in
    (n, record s { flows = flows'; retransmit_count = add64 s.retransmit_count n })

-- The counters that `network_stack_expire_tcp_flows` writes.
pub record Expiry : Type 0 where
  pub half_open_count : ℕ
  pub closed : ℕ
  pub timeouts : ℕ
  pub retransmitted : ℕ
  pub expired : ℕ

abbrev pub count_closed : Expiry → Expiry
count_closed c = record c { closed = c.closed + 1; expired = c.expired + 1 }

-- The timeout of TIME_WAIT and that of FIN_WAIT.
unfoldable pub expire_closing : ℕ → Expiry → TcpFlow → Expiry × TcpFlow
expire_closing now c f =
    if is_due now f.last_seen_ns close_timeout_ns
    then elim f.state [
      | time_wait ↦ (count_closed c, record f { state = closed })
      | fin_wait ↦ (count_closed c, record f { state = closed })
      | _ ↦ (c, f)
    ]
    else (c, f)

-- "if (flow->rto_ns > 60000000000) …" after the doubling.
abbrev pub backed_off : ℕ → ℕ
backed_off rto =
    let doubled = rto * 2 % 2 ^ 64 in
    if ltb close_timeout_ns doubled then close_timeout_ns else doubled

-- "Data retransmission for ESTABLISHED/CLOSE_WAIT flows"
unfoldable pub expire_rto : ℕ → Expiry → TcpFlow → Expiry × TcpFlow
expire_rto now c f =
    if is_open f.state
      && ltb 0 f.last_tx_ns
      && ltb 0 f.in_flight
      && is_due now f.last_tx_ns f.rto_ns
    then (
      record c { retransmitted = c.retransmitted + 1; expired = c.expired + 1 },
      record f {
        retransmits = add32 f.retransmits 1;
        rto_retries = add32 f.rto_retries 1;
        rto_ns = backed_off f.rto_ns;
        in_retransmit = true;
        in_flight = 0;
        ssthresh = half_window f;
        cwnd = tcp_mss;
      },
    )
    else (c, f)

abbrev pub is_established : FlowState → Bool
is_established established = true
is_established _ = false

-- "TCP keepalive for established connections", at most three probes.
unfoldable pub expire_keepalive : ℕ → Expiry → TcpFlow → Expiry × TcpFlow
expire_keepalive now c f =
    if is_established f.state
      && ltb 0 f.keepalive_last_tx_ns
      && is_due now f.keepalive_last_tx_ns keepalive_interval_ns
    then (if ltb f.keepalive_probes_sent 3
        then (
          c,
          record f {
            keepalive_probes_sent = f.keepalive_probes_sent + 1;
            keepalive_last_tx_ns = now;
            pending_ack = true;
          },
        )
        else (count_closed c, record f { state = closed }))
    else (c, f)

-- One round of `network_stack_expire_tcp_flows`.
unfoldable pub expire_flow : ℕ → Expiry → TcpFlow → Expiry × TcpFlow
unfolding expire_closing expire_rto expire_keepalive
expire_flow now c f =
    let (c1, f1) = expire_closing now c f in
    let (c2, f2) = expire_rto now c1 f1 in
    if is_syn_recv f1.state && is_due now f1.last_seen_ns syn_timeout_ns
    then (
      record c1 {
        half_open_count = one_less c1.half_open_count;
        closed = c1.closed + 1;
        timeouts = c1.timeouts + 1;
        expired = c1.expired + 1;
      },
      record f1 { state = closed },
    )
    else expire_keepalive now c2 f2

-- The loop over the connections.
unfoldable pub expire_loop : ℕ → Expiry → List TcpFlow → Expiry × List TcpFlow
unfolding expire_flow
expire_loop now c [] = (c, [])
expire_loop now c (f ∷ flows) =
    let (c', f') = expire_flow now c f in
    let (c'', flows') = expire_loop now c' flows in (c'', f' ∷ flows')

-- `network_stack_expire_tcp_flows`
unfoldable pub expire_tcp_flows : NetworkStack → ℕ → ℕ × NetworkStack
unfolding expire_loop
expire_tcp_flows s now =
    let start : Expiry = record {
      half_open_count = s.half_open_count;
      closed = 0;
      timeouts = 0;
      retransmitted = 0;
      expired = 0;
    } in
    let (c, flows') = expire_loop now start s.flows in
    (
      c.expired,
      record s {
        flows = flows';
        half_open_count = c.half_open_count;
        closed_count = add64 s.closed_count c.closed;
        timeout_count = add64 s.timeout_count c.timeouts;
        retransmit_count = add64 s.retransmit_count c.retransmitted;
        queues = record s.queues {
          packet_drop_count = add64 s.queues.packet_drop_count c.timeouts;
        };
      },
    )
