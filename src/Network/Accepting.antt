-- ===== src/Network/Accepting.antt =====
-- kernel/runtime/network_stack.c: the backlog of a listening port is a queue of at most 8 entries.
use osai.Prelude.{
  ℕ, suc, ◌<◌, ◌≡◌, refl, sym, ap, ◌∙◌, arith, true, false, Option, none, some, List, [], ◌∷◌, ◌++◌,
  zero, length, length-append, leb, ltb, if◌then◌else◌, Bool-cases, Option-cases, inl, inr, ◌≤◌,
  ◌⊎◌,
}
use osai.Network.Backlog.{
  AcceptEntry, Listener, listens, find_listener, on_listener, enqueue_backlog, dequeue_backlog,
  listener_backlog,
}

-- The connections that wait at a port, the oldest first; none for a port that nobody listens on.
unfoldable pub waiting : List Listener → ℕ → Option (List AcceptEntry)
unfolding find_listener
waiting listeners port = elim (find_listener listeners port) [
  | none ↦ none
  | some l ↦ some l.backlog
]

abbrev with_backlog : List AcceptEntry → Listener → Listener
with_backlog entries l = record l { backlog = entries }

find-on_listener :
    (listeners : List Listener) (port : ℕ) (l : Listener) (change : Listener → Listener)
    → find_listener listeners port ≡ some l
    → listens port (change l) ≡ true
    → find_listener (on_listener listeners port change) port ≡ some (change l)
unfolding find_listener on_listener
find-on_listener [] port l change h still = absurd (cc)
find-on_listener (m ∷ listeners) port l change h still = elim (Bool-cases (listens port m)) [
  | inl hit ↦
      let same : m ≡ l = injected (sym (rw hit refl) ∙ h) in
      rw (hit, on_listener) (rw same (rw (still, find_listener) refl))
  | inr miss ↦
      rw (miss, on_listener)
        (rw (miss, find_listener)
          (find-on_listener listeners port l change (sym (rw miss refl) ∙ h) still))
]
  where
    injected : some m ≡ some l → m ≡ l
    injected e = cc

find_listener-listens :
    (listeners : List Listener) (port : ℕ) (l : Listener)
    → find_listener listeners port ≡ some l
    → listens port l ≡ true
unfolding find_listener
find_listener-listens [] port l h = absurd (cc)
find_listener-listens (m ∷ listeners) port l h = elim (Bool-cases (listens port m)) [
  | inl hit ↦
      let same : m ≡ l = injected (sym (rw hit refl) ∙ h) in ap (listens port) (sym same) ∙ hit
  | inr miss ↦ find_listener-listens listeners port l (sym (rw miss refl) ∙ h)
]
  where
    injected : some m ≡ some l → m ≡ l
    injected e = cc

waiting_lem :
    (listeners : List Listener) (port : ℕ) (entries : List AcceptEntry)
    → waiting listeners port ≡ some entries
    → (l : Listener) × (find_listener listeners port ≡ some l)
      × (l.backlog ≡ entries)
      × (listens port l ≡ true)
unfolding waiting
waiting_lem listeners port entries h = elim (Option-cases (find_listener listeners port)) [
  | inl missing ↦ absurd (clash (sym (rw (missing, waiting) refl) ∙ h))
  | inr got ↦ (
    got.0,
    got.1,
    injected (sym (rw (got.1, waiting) refl) ∙ h),
    find_listener-listens listeners port got.0 got.1,
  )
]
  where
    clash : none ≡ some entries → ⊥
    clash e = cc

    injected : {a b : List AcceptEntry} → some a ≡ some b → a ≡ b
    injected e = cc

pub enqueue_backlog-waiting :
    (listeners : List Listener) (e : AcceptEntry) (entries : List AcceptEntry)
    → waiting listeners e.local_port ≡ some entries
    → length entries < 8
    → ((enqueue_backlog listeners e).0 ≡ true)
      × (waiting (enqueue_backlog listeners e).1 e.local_port ≡ some (entries ++ e ∷ []))
unfolding enqueue_backlog waiting
enqueue_backlog-waiting listeners e entries h room =
    let (l, found, held, hears) = waiting_lem listeners e.local_port entries h in
    let fits : leb listener_backlog (length l.backlog) ≡ false =
      ground (arith, ap length held, room) in
    let change : Listener → Listener = λ l. record l { backlog = l.backlog ++ e ∷ [] } in
    let after = find-on_listener listeners e.local_port l change found hears in
    (
      rw (found, fits, enqueue_backlog) refl,
      rw (found, fits, enqueue_backlog) (rw (after, waiting) (ap (λ es. some (es ++ e ∷ [])) held)),
    )

dequeue_backlog-waiting :
    (listeners : List Listener) (port : ℕ) (e : AcceptEntry) (rest : List AcceptEntry)
    → waiting listeners port ≡ some (e ∷ rest)
    → ((dequeue_backlog listeners port).0 ≡ some e)
      × (waiting (dequeue_backlog listeners port).1 port ≡ some rest)
unfolding dequeue_backlog waiting
dequeue_backlog-waiting listeners port e rest h =
    let (l, found, held, hears) = waiting_lem listeners port (e ∷ rest) h in
    let after = find-on_listener listeners port l (with_backlog rest) found hears in
    (
      rw (found, dequeue_backlog) (rw held refl),
      rw (found, dequeue_backlog) (rw held (rw (after, waiting) refl)),
    )

-- The entries that `n` calls of `listener_dequeue_backlog` return, up to the first that returns none.
unfoldable pub accept_many : ℕ → List Listener → ℕ → List AcceptEntry
accept_many zero listeners port = []
accept_many (suc n) listeners port =
    let (entry, listeners') = dequeue_backlog listeners port in
    let later = accept_many n listeners' port in elim entry [ none ↦ [] | some e ↦ e ∷ later ]

accept_all :
    (listeners : List Listener) (port : ℕ) (entries : List AcceptEntry)
    → waiting listeners port ≡ some entries
    → accept_many (length entries) listeners port ≡ entries
unfolding accept_many
accept_all listeners port [] h = refl
accept_all listeners port (e ∷ entries) h =
    let (first, left) = dequeue_backlog-waiting listeners port e entries h in
    rw (first, accept_many)
      (ap (λ es. e ∷ es) (accept_all (dequeue_backlog listeners port).1 port entries left))

enqueue_backlog-full :
    (listeners : List Listener) (e : AcceptEntry) (entries : List AcceptEntry)
    → waiting listeners e.local_port ≡ some entries
    → 8 ≤ length entries
    → enqueue_backlog listeners e ≡ (false, listeners)
unfolding enqueue_backlog
enqueue_backlog-full listeners e entries h full =
    let (l, found, held, hears) = waiting_lem listeners e.local_port entries h in
    let over : leb listener_backlog (length l.backlog) ≡ true =
      ground (arith, ap length held, full) in
    rw (found, over, enqueue_backlog) refl

dequeue_backlog-empty :
    (listeners : List Listener) (port : ℕ)
    → waiting listeners port ≡ some []
    → (dequeue_backlog listeners port).0 ≡ none
unfolding dequeue_backlog
dequeue_backlog-empty listeners port h =
    let (l, found, held, hears) = waiting_lem listeners port [] h in
    rw (found, dequeue_backlog) (rw held refl)

-- Accepting once more than connections wait returns those that wait.
accept_again :
    (listeners : List Listener) (port : ℕ) (entries : List AcceptEntry)
    → waiting listeners port ≡ some entries
    → accept_many (suc (length entries)) listeners port ≡ entries
unfolding accept_many
accept_again listeners port [] h = rw (dequeue_backlog-empty listeners port h, accept_many) refl
accept_again listeners port (e ∷ entries) h =
    let (first, left) = dequeue_backlog-waiting listeners port e entries h in
    rw (first, accept_many)
      (ap (λ es. e ∷ es) (accept_again (dequeue_backlog listeners port).1 port entries left))

-- What waits at a port after one more connection came: at most 8 wait.
abbrev pub joined : List AcceptEntry → AcceptEntry → List AcceptEntry
joined entries e = if ltb (length entries) 8 then entries ++ e ∷ [] else entries

-- A new connection at a port is taken exactly if fewer than 8 wait there, and else nothing changes.
-- Accepting once for each of those that waited and once more returns those that waited in their
-- order, and then the new one if it was taken.
pub enqueue_backlog-accept_many :
    (listeners : List Listener) (e : AcceptEntry) (entries : List AcceptEntry)
    → waiting listeners e.local_port ≡ some entries
    → let after = (enqueue_backlog listeners e).1 in
      ((enqueue_backlog listeners e).0 ≡ ltb (length entries) 8)
      × ((ltb (length entries) 8 ≡ true) ⊎ (after ≡ listeners))
      × (accept_many (suc (length entries)) after e.local_port ≡ joined entries e)
enqueue_backlog-accept_many listeners e entries h = elim (Bool-cases (ltb (length entries) 8)) [
  | inl room ↦
      let (taken, after) = enqueue_backlog-waiting listeners e entries h (ground arith) in
      let all = entries ++ e ∷ [] in
      let listeners' = (enqueue_backlog listeners e).1 in
      rw room (
        taken,
        inl refl,
        ap (λ n. accept_many n listeners' e.local_port) {x = suc (length entries)} {y = length all}
              (omega (arith, length-append entries (e ∷ [])))
            ∙ accept_all listeners' e.local_port all after,
      )
  | inr full ↦
      let same = enqueue_backlog-full listeners e entries h (ground arith) in
      rw full (rw same (refl, inr refl, accept_again listeners e.local_port entries h))
]
