-- ===== src/Network/Idle.antt =====
-- kernel/runtime/network_stack.c: a packet that is sent and completed leaves the rings of its queue
-- as deep as they were.
use osai.Prelude.{
  ℕ, zero, suc, ◌+◌, ◌<◌, ◌≡◌, refl, sym, ap, subst, ◌∙◌, arith, true, Option, none, some, List, [],
  ◌∷◌, length, ◌==◌, Bool-cases, Option-cases, inl, inr, All, set,
}
use osai.Network.Rings.{Ring, Packet, Queues, find_queue_ring, on_ring}
use osai.Network.Packets.{take_desc, is_reusable}

-- No packet is on its way: every ring is empty, and every descriptor can be taken again.
pub record IsIdle (q : Queues) : Type 0 where
  pub rings : All (λ (r : Ring). (r.rx_depth ≡ 0) × (r.tx_depth ≡ 0)) q.rings
  pub packets : All (λ (p : Packet). is_reusable p.state ≡ true) q.packets

abbrev IsEmpty : Ring → Type 0
IsEmpty r = (r.rx_depth ≡ 0) × (r.tx_depth ≡ 0)

abbrev CanTake : Packet → Type 0
CanTake p = is_reusable p.state ≡ true

pub on_ring-All :
    (rings : List Ring) (queue : ℕ) (change : Ring → Ring)
    → All IsEmpty rings
    → ((r : Ring) → IsEmpty r → IsEmpty (change r))
    → All IsEmpty (on_ring rings queue change)
unfolding on_ring
on_ring-All [] queue change all keeps = tt
on_ring-All (r ∷ rings) queue change all keeps = elim (Bool-cases (r.queue_id == queue)) [
  | inl hit ↦ rw hit (keeps r all.0, all.1)
  | inr miss ↦ rw miss (all.0, on_ring-All rings queue change all.1 keeps)
]

-- Two changes of the same ring, the first of which keeps its queue, are one.
pub on_ring-on_ring :
    (rings : List Ring) (queue : ℕ) (f g : Ring → Ring)
    → ((r : Ring) → (f r).queue_id ≡ r.queue_id)
    → on_ring (on_ring rings queue f) queue g ≡ on_ring rings queue (λ r. g (f r))
unfolding on_ring
on_ring-on_ring [] queue f g keeps = refl
on_ring-on_ring (r ∷ rings) queue f g keeps = elim (Bool-cases (r.queue_id == queue)) [
  | inl hit ↦
      let again : ((f r).queue_id == queue) ≡ true = ap (λ n. n == queue) (keeps r) ∙ hit in
      rw hit (rw again refl)
  | inr miss ↦ rw miss (rw miss (ap (λ rs. r ∷ rs) (on_ring-on_ring rings queue f g keeps)))
]

pub find-on_ring :
    (rings : List Ring) (queue : ℕ) (f : Ring → Ring) (r : Ring)
    → ((r : Ring) → (f r).queue_id ≡ r.queue_id)
    → find_queue_ring rings queue ≡ some r
    → find_queue_ring (on_ring rings queue f) queue ≡ some (f r)
unfolding on_ring find_queue_ring
find-on_ring [] queue f r keeps h = absurd (cc)
find-on_ring (m ∷ rings) queue f r keeps h = elim (Bool-cases (m.queue_id == queue)) [
  | inl hit ↦
      let again : ((f m).queue_id == queue) ≡ true = ap (λ n. n == queue) (keeps m) ∙ hit in
      let same : some m ≡ some r = sym (rw hit refl) ∙ h in
      rw hit
        (rw again (ap (λ (o : Option Ring). elim o [ none ↦ none | some a ↦ some (f a) ]) same))
  | inr miss ↦ rw miss (rw miss (find-on_ring rings queue f r keeps (sym (rw miss refl) ∙ h)))
]

pub All-found :
    (rings : List Ring) (queue : ℕ) (r : Ring)
    → All IsEmpty rings
    → find_queue_ring rings queue ≡ some r
    → IsEmpty r
unfolding find_queue_ring
All-found [] queue r all h = absurd (cc)
All-found (m ∷ rings) queue r all h = elim (Bool-cases (m.queue_id == queue)) [
  | inl hit ↦
      let same : some m ≡ some r = sym (rw hit refl) ∙ h in
      subst (λ (o : Option Ring). elim o [ none ↦ Unit | some a ↦ IsEmpty a ]) same all.0
  | inr miss ↦ All-found rings queue r all.1 (sym (rw miss refl) ∙ h)
]

pub All-write :
    (packets : List Packet) (i : ℕ) (p : Packet)
    → All CanTake packets
    → CanTake p
    → All CanTake (set packets i p)
All-write [] i p all here = all
All-write (q ∷ packets) zero p all here = (here, all.1)
All-write (q ∷ packets) (suc i) p all here = (all.0, All-write packets i p all.1 here)

pub set-set :
    (packets : List Packet) (i : ℕ) (p q : Packet) → set (set packets i p) i q ≡ set packets i q
set-set [] i p q = refl
set-set (r ∷ packets) zero p q = refl
set-set (r ∷ packets) (suc i) p q = ap (λ ps. r ∷ ps) (set-set packets i p q)

-- The descriptor that a scan takes.
pub take_desc_lem :
    (i : ℕ) (packets : List Packet) (new : Packet) (at : ℕ × List Packet)
    → take_desc i packets new ≡ some at
    → (k : ℕ) × (at.0 ≡ i + k) × (k < length packets) × (at.1 ≡ set packets k new)
unfolding take_desc
take_desc_lem i [] new at h = absurd (cc)
take_desc_lem i (p ∷ packets) new at h = elim (Bool-cases (is_reusable p.state)) [
  | inl hit ↦
      let same : at ≡ (i, new ∷ packets) = injected at (i, new ∷ packets) (sym h ∙ rw hit refl) in
      (
        0,
        ap (λ (a : ℕ × List Packet). a.0) same ∙ omega arith,
        omega arith,
        ap (λ (a : ℕ × List Packet). a.1) same,
      )
  | inr miss ↦ elim (Option-cases (take_desc (suc i) packets new)) [
    | inl over ↦ absurd (clash at (sym (rw (miss, take_desc) (rw over refl)) ∙ h))
    | inr got ↦
        let (k, index, inside, written) = take_desc_lem (suc i) packets new got.0 got.1 in
        let same : at ≡ (got.0.0, p ∷ got.0.1) =
          injected at (got.0.0, p ∷ got.0.1) (sym h ∙ rw (miss, take_desc) (rw got.1 refl)) in
        (
          suc k,
          ap (λ (a : ℕ × List Packet). a.0) same ∙ index ∙ omega arith,
          omega (arith, inside),
          ap (λ (a : ℕ × List Packet). a.1) same ∙ ap (λ ps. p ∷ ps) written,
        )
  ]
]
  where
    injected : (a b : ℕ × List Packet) → some a ≡ some b → a ≡ b
    injected a b e = cc

    clash : (a : ℕ × List Packet) → none ≡ some a → ⊥
    clash a e = cc
