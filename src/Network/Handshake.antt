-- ===== src/Network/Handshake.antt =====
-- kernel/runtime/network_stack.c: a peer that answers is accepted.
use osai.Prelude.{
  ℕ, suc, ◌-◌, ◌≤◌, ◌<◌, ◌≡◌, refl, sym, subst, ap, ◌∙◌, arith, Bool, true, false, none, some, List,
  [], ◌∷◌, ◌++◌, length, set, bit_xor, ◌%◌, ◌^◌, Status, ok, Bool-cases, Option-cases, inl, inr,
}
use osai.SocketBuffer.{alloc}
use osai.Network.Rings.{Binding}
use osai.Network.Backlog.{AcceptEntry, Listener, find_listener, has_listener}
use osai.Network.Flow.{
  TcpFlow, is_syn_recv, is_unused, is_peer, find_flow_from, find_flow_by_ports, alloc_tcp_flow,
}
use osai.Network.Receive.{Segment, has_rst, has_syn, has_ack}
use osai.Network.{NetworkStack, next_id, opened, on_syn, on_handshake, on_packet, byte_swap}
use osai.Network.Accepting.{waiting, enqueue_backlog-waiting}

-- The entry that is written over the first unused one is what a search finds that found none before.
find_flow_from-set :
    (k : ℕ) (flows : List TcpFlow) (test free : TcpFlow → Bool) (x f : TcpFlow) (i : ℕ)
    → find_flow_from k flows free ≡ some (i, f)
    → find_flow_from k flows test ≡ none
    → test x ≡ true
    → (k ≤ i) × (find_flow_from k (set flows (i - k) x) test ≡ some (i, x))
unfolding find_flow_from
find_flow_from-set k [] test free x f i found missing hit = absurd cc
find_flow_from-set k (y ∷ flows) test free x f i found missing hit = elim (Bool-cases (free y)) [
  | inl here ↦
      let at : k ≡ i = ground arith in
      (
        omega (arith, at),
        subst (λ n. find_flow_from k (set (y ∷ flows) n x) test ≡ some (i, x)) {x = 0}
            (omega (arith, at)) (rw hit (ap (λ n. some (n, x)) at)),
      )
  | inr later ↦
      let other : test y ≡ false = ground arith in
      let (above, finds) =
        find_flow_from-set (suc k) flows test free x f i (ground arith) (ground arith) hit in
      (
        omega (arith, above),
        subst (λ n. find_flow_from k (set (y ∷ flows) n x) test ≡ some (i, x)) {x = suc (i - suc k)}
            (omega (arith, above)) (rw (other, find_flow_from) finds),
      )
]

waiting-has_listener :
    (listeners : List Listener) (port : ℕ) (entries : List AcceptEntry)
    → waiting listeners port ≡ some entries
    → has_listener listeners port ≡ true
unfolding waiting has_listener
waiting-has_listener listeners port entries h = elim (Option-cases (find_listener listeners port)) [
  | inl missing ↦ absurd (ground arith)
  | inr (l, found) ↦ rw (found, has_listener) refl
]

first_unused :
    (flows : List TcpFlow) (half_open : ℕ) (at : ℕ × TcpFlow)
    → alloc_tcp_flow flows half_open ≡ some at
    → find_flow_from 0 flows (λ f. is_unused f.state) ≡ some at
unfolding alloc_tcp_flow
first_unused flows half_open at h = ground arith

-- The entry that a SYN makes of `f`.
answered : NetworkStack → Binding → Segment → ℕ → ℕ → TcpFlow → TcpFlow
answered s b g start now f =
    let id = (next_id s.next_flow_id).0 in
    let (rx, pool) = alloc s.pool in
    let tx = (alloc pool).0 in opened f g b id start (bit_xor now id % 2 ^ 32) rx tx

-- The connection of a SYN: its table entry, and the listeners as they were.
record Answered (s s' : NetworkStack) (i : ℕ) (x : TcpFlow) : Type 0 where
  flows : s'.flows ≡ set s.flows i x
  listeners : s'.listeners ≡ s.listeners

on_syn-Answered :
    (s : NetworkStack) (p : ℕ) (b : Binding) (g : Segment) (start now i : ℕ) (f : TcpFlow)
    → has_listener s.listeners g.dst_port ≡ true
    → alloc_tcp_flow s.flows s.half_open_count ≡ some (i, f)
    → ((on_syn s p b g start now).0 ≡ ok)
      × Answered s (on_syn s p b g start now).1 i (answered s b g start now f)
unfolding on_syn answered
on_syn-Answered s p b g start now i f heard free = (
  rw (heard, free, on_syn) refl,
  record { flows = rw (heard, free, on_syn) refl; listeners = rw (heard, free, on_syn) refl },
)

answered_lem :
    (s : NetworkStack) (b : Binding) (g : Segment) (start now : ℕ) (f : TcpFlow)
    → (is_peer g.dst_port g.src_port g.remote_address (answered s b g start now f) ≡ true)
      × (is_syn_recv (answered s b g start now f).state ≡ true)
      × ((answered s b g start now f).flow_id ≡ (next_id s.next_flow_id).0)
unfolding answered opened
answered_lem s b g start now f = (ground arith, refl, refl)

-- A frame that has its binding `b` and its packet descriptor `p` is handled: the connection of its
-- ports and its peer is looked up, and the branches act on it.
abbrev pub handle : NetworkStack → ℕ → Binding → Segment → ℕ → ℕ → Status × NetworkStack
handle s p b g start now =
    on_packet s p b (find_flow_by_ports s.flows g.dst_port g.src_port g.remote_address) g start now

-- A SYN of a new peer is handled by its branch.
on_packet-on_syn :
    (s : NetworkStack) (p : ℕ) (b : Binding) (g : Segment) (start now : ℕ)
    → has_rst g ≡ false
    → has_syn g ≡ true
    → on_packet s p b none g start now ≡ on_syn s p b g start now
unfolding on_packet
on_packet-on_syn s p b g start now no_rst syn = rw (no_rst, on_packet) (rw syn refl)

-- The ACK of a connection in SYN_RECV is handled by its branch.
on_packet-on_handshake :
    (s : NetworkStack) (p : ℕ) (b : Binding) (g : Segment) (start now i : ℕ) (f : TcpFlow)
    → has_rst g ≡ false
    → has_ack g ≡ true
    → is_syn_recv f.state ≡ true
    → on_packet s p b (some (i, f)) g start now ≡ on_handshake s p i f g start
unfolding on_packet
on_packet-on_handshake s p b g start now i f no_rst ack half =
    rw (no_rst, on_packet) (rw (half, ack) refl)

-- What is queued when the ACK `g` completes the handshake of the connection `id`.
abbrev pub accepted : ℕ → Segment → AcceptEntry
accepted id g = record {
  flow_id = id;
  peer_ip = byte_swap g.remote_address;
  peer_port = g.src_port;
  local_port = g.dst_port;
}

on_handshake-waiting :
    (s : NetworkStack) (p i : ℕ) (f : TcpFlow) (g : Segment) (start : ℕ)
    (entries : List AcceptEntry)
    → waiting s.listeners g.dst_port ≡ some entries
    → length entries < 8
    → ((on_handshake s p i f g start).0 ≡ ok)
      × (waiting (on_handshake s p i f g start).1.listeners g.dst_port
          ≡ some (entries ++ accepted f.flow_id g ∷ []))
unfolding on_handshake
on_handshake-waiting s p i f g start entries h room =
    (refl, (enqueue_backlog-waiting s.listeners (accepted f.flow_id g) entries h room).1)

-- After a SYN, the table holds the connection that its answer opened.
on_syn-find_flow_by_ports :
    (s : NetworkStack) (p : ℕ) (b : Binding) (g : Segment) (start now : ℕ) (at : ℕ × TcpFlow)
    → has_listener s.listeners g.dst_port ≡ true
    → alloc_tcp_flow s.flows s.half_open_count ≡ some at
    → find_flow_by_ports s.flows g.dst_port g.src_port g.remote_address ≡ none
    → find_flow_by_ports (on_syn s p b g start now).1.flows g.dst_port g.src_port g.remote_address
      ≡ some (at.0, answered s b g start now at.1)
unfolding find_flow_by_ports
on_syn-find_flow_by_ports s p b g start now at heard free new =
    let made = on_syn-Answered s p b g start now at.0 at.1 heard free in
    let test = is_peer g.dst_port g.src_port g.remote_address in
    let unused = first_unused s.flows s.half_open_count at free in
    let hit = answered_lem s b g start now at.1 in
    let place : at.0 - 0 ≡ at.0 = omega arith in
    let x = answered s b g start now at.1 in
    ap (λ flows. find_flow_from 0 flows test) made.1.flows
    ∙ ap (λ n. find_flow_from 0 (set s.flows n x) test) (sym place)
    ∙ (find_flow_from-set 0 s.flows test (λ f. is_unused f.state) x at.1 at.0 unused new hit.0).1

-- A peer without a connection that sends a SYN to a port that somebody listens on and where fewer than
-- 8 connections wait, and then an ACK, both without RST, is accepted if the table has an entry for it
-- and the frames have their bindings and packet descriptors: both are taken, and the new connection
-- waits at the port behind the others.
pub handle-waiting :
    (s : NetworkStack) (p p' : ℕ) (b b' : Binding) (syn ack : Segment) (start now start' now' : ℕ)
    → (at : ℕ × TcpFlow) (entries : List AcceptEntry) → has_rst syn ≡ false
    → has_syn syn ≡ true
    → has_rst ack ≡ false
    → has_ack ack ≡ true
    → ack.dst_port ≡ syn.dst_port
    → ack.src_port ≡ syn.src_port
    → ack.remote_address ≡ syn.remote_address
    → waiting s.listeners syn.dst_port ≡ some entries
    → length entries < 8
    → alloc_tcp_flow s.flows s.half_open_count ≡ some at
    → find_flow_by_ports s.flows syn.dst_port syn.src_port syn.remote_address ≡ none
    → let first = handle s p b syn start now in
      let second = handle first.1 p' b' ack start' now' in
      (first.0 ≡ ok)
      × (second.0 ≡ ok)
      × (waiting second.1.listeners syn.dst_port
          ≡ some (entries ++ accepted (next_id s.next_flow_id).0 syn ∷ []))
handle-waiting s p p' b b' syn ack start now start' now' at entries no_rst flag no_rst' flag' to
      port address held room free new =
    let heard = waiting-has_listener s.listeners syn.dst_port entries held in
    let after = (on_syn s p b syn start now).1 in
    let f = answered s b syn start now at.1 in
    let made = on_syn-Answered s p b syn start now at.0 at.1 heard free in
    let opens : handle s p b syn start now ≡ on_syn s p b syn start now =
      ap (λ found. on_packet s p b found syn start now) new
      ∙ on_packet-on_syn s p b syn start now no_rst flag in
    let finds : find_flow_by_ports after.flows ack.dst_port ack.src_port ack.remote_address
        ≡ some (at.0, f) =
      rw (to, port, address) (on_syn-find_flow_by_ports s p b syn start now at heard free new) in
    let (peer, half, id) = answered_lem s b syn start now at.1 in
    let closes : handle after p' b' ack start' now' ≡ on_handshake after p' at.0 f ack start' =
      ap (λ found. on_packet after p' b' found ack start' now') finds
      ∙ on_packet-on_handshake after p' b' ack start' now' at.0 f no_rst' flag' half in
    let queue : waiting after.listeners ack.dst_port ≡ some entries =
      ap (λ ls. waiting ls ack.dst_port) made.1.listeners ∙ rw to held in
    let (taken, queued) = on_handshake-waiting after p' at.0 f ack start' entries queue room in
    let same : accepted f.flow_id ack ≡ accepted (next_id s.next_flow_id).0 syn =
      rw (to, port, address) (rw id refl) in
    let both : handle (handle s p b syn start now).1 p' b' ack start' now'
        ≡ on_handshake after p' at.0 f ack start' =
      ap (λ r. handle r.1 p' b' ack start' now') opens ∙ closes in
    (
      ap (λ r. r.0) opens ∙ made.0,
      ap (λ r. r.0) both ∙ taken,
      ap (λ r. waiting r.1.listeners syn.dst_port) both
          ∙ subst
              (λ n.
                waiting (on_handshake after p' at.0 f ack start').1.listeners n
                ≡ some (entries ++ accepted f.flow_id ack ∷ []))
              to queued
          ∙ ap (λ e. some (entries ++ e ∷ [])) same,
    )
