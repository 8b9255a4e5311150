-- ===== src/Network/Drained.antt =====
-- `ooo_buffer_drain` of kernel/runtime/network_stack.c ends, and leaves no segment in turn.
use osai.Prelude.{
  ℕ, zero, suc, ◌+◌, ◌≤◌, ◌<◌, ◌≡◌, refl, sym, ap, subst, ◌∙◌, arith, Bool, true, false, none, some,
  List, [], ◌∷◌, get_elem?, set, ◌==◌, Bool-cases, inl, inr, Option-cases,
}
use osai.SocketBuffer.{BufferPool}
use osai.Network.Flow.{TcpFlow, OooSegment}
use osai.Network.Reassembly.{
  deliver, in_turn, Draining, drain_slot, drain_round, drain_loop, drain_fuel, ooo_buffer_drain,
}
use osai.Network.Slots.{one_if}

-- How many of the first `n` slots are in use.
abbrev used_slots : ℕ → List OooSegment → ℕ
used_slots zero slots = 0
used_slots (suc n) [] = 0
used_slots (suc n) (o ∷ slots) = one_if o.in_use + used_slots n slots

used_slots-le : (n : ℕ) (slots : List OooSegment) → used_slots n slots ≤ n
used_slots-le zero slots = omega arith
used_slots-le (suc n) [] = omega arith
used_slots-le (suc n) (o ∷ slots) = ground (arith, used_slots-le n slots)

used_slots-set :
    (n i : ℕ) (slots : List OooSegment) (o : OooSegment)
    → i < n
    → get_elem? slots i ≡ some o
    → used_slots n (set slots i (record o { in_use = false })) + one_if o.in_use
      ≡ used_slots n slots
used_slots-set zero i slots o small at = absurd (omega (arith, small))
used_slots-set (suc n) i [] o small at = absurd (cc)
used_slots-set (suc n) zero (p ∷ slots) o small at =
    let same : one_if p.in_use ≡ one_if o.in_use = ground (arith, at) in omega (arith, same)
used_slots-set (suc n) (suc i) (p ∷ slots) o small at =
    omega (arith, used_slots-set n i slots o (omega (arith, small)) at)

abbrev used_now : Draining → ℕ
used_now d = used_slots 4 d.flow.ooo_buf

-- SlotStep `i` holds the segment that is next.
abbrev pub turn_at : TcpFlow → ℕ → Bool
turn_at f i = elim (get_elem? f.ooo_buf i) [ none ↦ false | some o ↦ in_turn o f.expected_seq ]

-- What the body of the inner loop does: nothing, or it frees a slot.
data SlotStep (i : ℕ) (d d' : Draining) : Type 0 where
  passed : d' ≡ d → turn_at d.flow i ≡ false → SlotStep i d d'
  freed : d'.progress ≡ true → used_now d' < used_now d → SlotStep i d d'

drain_slot-SlotStep : (i : ℕ) (d : Draining) → i < 4 → SlotStep i d (drain_slot i d)
unfolding drain_slot deliver
drain_slot-SlotStep i d small = elim (Option-cases (get_elem? d.flow.ooo_buf i)) [
  | inl missing ↦ passed (rw (missing, drain_slot) refl) (rw (missing, turn_at) refl)
  | inr held ↦
      let o = held.0 in
      let fewer = used_slots-set 4 i d.flow.ooo_buf o small held.1 in
      elim (Bool-cases (in_turn o d.flow.expected_seq)) [
        | inr waits ↦ passed (rw (held.1, waits, drain_slot) refl) (rw (held.1, turn_at) waits)
        | inl turn ↦
            let busy : one_if o.in_use ≡ 1 = ground (arith, turn) in
            freed (rw (held.1, turn, drain_slot) refl)
              (rw (held.1, turn, drain_slot) (omega (arith, fewer, busy)))
      ]
]

-- The inner loop up to slot `n`: nothing was in turn and nothing was done, or slots were freed.
data Upto (n : ℕ) (d d' : Draining) : Type 0 where
  idle : d' ≡ d → ((i : ℕ) → i < n → turn_at d.flow i ≡ false) → Upto n d d'
  moved : d'.progress ≡ true → used_now d' < used_now d → Upto n d d'

Upto-step : (n : ℕ) (d d1 : Draining) → n < 4 → Upto n d d1 → Upto (suc n) d (drain_slot n d1)
Upto-step n d d1 small (idle still none_before) = given (drain_slot-SlotStep n d1 small)
  where
    given : SlotStep n d1 (drain_slot n d1) → Upto (suc n) d (drain_slot n d1)
    given (passed kept waits) = idle (kept ∙ still) (λ i h. elim (Bool-cases (i == n)) [
      | inl last ↦
          let at : i ≡ n = ground (arith, last) in
          subst (λ k. turn_at d.flow k ≡ false) (sym at)
            (subst (λ (e : Draining). turn_at e.flow n ≡ false) still waits)
      | inr before ↦ none_before i (ground (arith, before, h))
    ])
    given (freed going fewer) =
        moved going (subst (λ (e : Draining). used_now (drain_slot n d1) < used_now e) still fewer)
Upto-step n d d1 small (moved going fewer) = given (drain_slot-SlotStep n d1 small)
  where
    given : SlotStep n d1 (drain_slot n d1) → Upto (suc n) d (drain_slot n d1)
    given (passed kept waits) =
        moved (subst (λ (e : Draining). e.progress ≡ true) (sym kept) going)
          (subst (λ (e : Draining). used_now e < used_now d) (sym kept) fewer)
    given (freed again less) = moved again (omega (arith, fewer, less))

abbrev paused : Draining → Draining
paused d = record d { progress = false }

drain_round-Upto : (d : Draining) → Upto 4 (paused d) (drain_round d)
unfolding drain_round
drain_round-Upto d =
    let d0 = paused d in
    let d1 = drain_slot 0 d0 in
    let d2 = drain_slot 1 d1 in
    let d3 = drain_slot 2 d2 in
    let start : Upto 0 d0 d0 = idle refl (λ i h. absurd (omega (arith, h))) in
    Upto-step 3 d0 d3 (omega arith) (
      Upto-step 2 d0 d2 (omega arith)
        (Upto-step 1 d0 d1 (omega arith) (Upto-step 0 d0 d0 (omega arith) start)))

-- The loop has ended by its own condition, with no slot in turn.
pub record Ended (d : Draining) : Type 0 where
  pub stopped : d.progress ≡ false
  pub none_in_turn : (i : ℕ) → i < 4 → turn_at d.flow i ≡ false

loop_stopped : (n : ℕ) (d : Draining) → d.progress ≡ false → drain_loop n d ≡ d
unfolding drain_loop
loop_stopped zero d h = refl
loop_stopped (suc n) d h = rw h refl

drain_loop-Ended :
    (fuel : ℕ) (d : Draining) → d.progress ≡ true → used_now d < fuel → Ended (drain_loop fuel d)
unfolding drain_loop
drain_loop-Ended zero d going enough = absurd (omega (arith, enough))
drain_loop-Ended (suc fuel) d going enough =
    let d' = drain_round d in
    rw (going, drain_loop)
      (given (drain_round-Upto d)
        (λ again fewer. drain_loop-Ended fuel d' again (omega (arith, fewer, enough))))
  where
    given :
        Upto 4 (paused d) (drain_round d)
        → ((drain_round d).progress ≡ true
            → used_now (drain_round d) < used_now d
            → Ended (drain_loop fuel (drain_round d)))
        → Ended (drain_loop fuel (drain_round d))
    given (moved again fewer) goes = goes again fewer
    given (idle still none_turn) goes =
        let stays =
          loop_stopped fuel (drain_round d) (ap (λ (e : Draining). e.progress) still) ∙ still in
        subst Ended (sym stays) (record { stopped = refl; none_in_turn = none_turn })

loop_more :
    (n k : ℕ) (d : Draining)
    → (drain_loop n d).progress ≡ false
    → drain_loop (n + k) d ≡ drain_loop n d
unfolding drain_loop
loop_more zero k d h = ap (λ m. drain_loop m d) (omega arith) ∙ loop_stopped k d h
loop_more (suc n) k d h = elim (Bool-cases d.progress) [
  | inl going ↦
      ap {A = ℕ} (λ m. drain_loop m d) {x = suc n + k} {y = suc (n + k)} (omega arith)
      ∙ rw (going, drain_loop)
          (loop_more n k (drain_round d) (sym (rw (going, drain_loop) refl) ∙ h))
  | inr stopped ↦ loop_stopped (suc n + k) d stopped ∙ sym (loop_stopped (suc n) d stopped)
]

-- The loop of `ooo_buffer_drain` ends by its own condition within the rounds it is given, none of
-- the slots then holds the segment that is next, and more rounds would change nothing.
pub ooo_buffer_drain-Ended :
    (pool : BufferPool) (f : TcpFlow) (more : ℕ)
    → let start : Draining = record { progress = true; total = 0; pool = pool; flow = f } in
      Ended (ooo_buffer_drain pool f)
      × (drain_loop (drain_fuel + more) start ≡ ooo_buffer_drain pool f)
unfolding ooo_buffer_drain
ooo_buffer_drain-Ended pool f more =
    let start : Draining = record { progress = true; total = 0; pool = pool; flow = f } in
    let ended = drain_loop-Ended drain_fuel start refl (omega (arith, used_slots-le 4 f.ooo_buf)) in
    (ended, loop_more drain_fuel more start ended.stopped)
