-- ===== src/Network/Backlog.antt =====
-- kernel/runtime/network_stack.c: the listening ports and the connections that wait at each to be
-- accepted. The entries of a backlog up to `backlog_count` are a list.
use osai.Prelude.{
  ℕ, Bool, true, false, not, ◌&&◌, Option, none, some, List, [], ◌∷◌, ◌++◌, length, leb, ◌==◌,
  if◌then◌else◌,
}

-- NETWORK_LISTENER_BACKLOG
abbrev pub listener_backlog : ℕ
listener_backlog = 8

-- The fields of `listener_accept_entry_t` for a peer over IPv4.
pub record AcceptEntry : Type 0 where
  pub flow_id : ℕ
  pub peer_ip : ℕ
  pub peer_port : ℕ
  pub local_port : ℕ

-- `network_listener_ex_t`
pub record Listener : Type 0 where
  pub port : ℕ
  pub sockfd : ℕ
  pub active : Bool
  pub backlog : List AcceptEntry

-- The test of `find_listener_ex`.
abbrev pub listens : ℕ → Listener → Bool
listens port l = l.active && (l.port == port)

-- `find_listener_ex`
unfoldable pub find_listener : List Listener → ℕ → Option Listener
find_listener [] port = none
find_listener (l ∷ listeners) port =
    let rest = find_listener listeners port in if listens port l then some l else rest

-- A change of the listener that `find_listener_ex` returns.
unfoldable pub on_listener : List Listener → ℕ → (Listener → Listener) → List Listener
on_listener [] port change = []
on_listener (l ∷ listeners) port change =
    let rest = on_listener listeners port change in
    if listens port l then change l ∷ listeners else l ∷ rest

-- `network_stack_has_listener`
unfoldable pub has_listener : List Listener → ℕ → Bool
unfolding find_listener
has_listener listeners port = elim (find_listener listeners port) [ none ↦ false | some l ↦ true ]

-- `listener_enqueue_backlog`
unfoldable pub enqueue_backlog : List Listener → AcceptEntry → Bool × List Listener
unfolding find_listener on_listener
enqueue_backlog listeners e = elim (find_listener listeners e.local_port) [
  | none ↦ (false, listeners)
  | some l ↦ if leb listener_backlog (length l.backlog) then (false, listeners) else (
    true,
    on_listener listeners e.local_port (λ l. record l { backlog = l.backlog ++ e ∷ [] }),
  )
]

-- `listener_dequeue_backlog`
unfoldable pub dequeue_backlog : List Listener → ℕ → Option AcceptEntry × List Listener
unfolding find_listener on_listener
dequeue_backlog listeners port = elim (find_listener listeners port) [
  | none ↦ (none, listeners)
  | some l ↦ elim l.backlog [
    | [] ↦ (none, listeners)
    | e ∷ rest ↦ (some e, on_listener listeners port (λ l. record l { backlog = rest }))
  ]
]

-- `network_stack_register_listener`: the first inactive entry is taken; without one nothing is done.
unfoldable pub register_listener : List Listener → ℕ → ℕ → List Listener
register_listener [] port sockfd = []
register_listener (l ∷ listeners) port sockfd =
    let rest = register_listener listeners port sockfd in
    if not l.active
    then record { port = port; sockfd = sockfd; active = true; backlog = [] } ∷ listeners
    else l ∷ rest

-- `network_stack_unregister_listener`
unfoldable pub unregister_listener : List Listener → ℕ → List Listener
unfolding on_listener
unregister_listener listeners port =
    on_listener listeners port (λ l. record l { active = false; backlog = [] })
