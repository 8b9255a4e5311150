-- ===== src/Network/Slots.antt =====
-- kernel/runtime/network_stack.c: counting the connections of the table by state, and what one call
-- may do to an entry.
use osai.Prelude.{
  ℕ, zero, suc, ◌+◌, ◌≡◌, refl, sym, ap, subst, ◌∙◌, arith, Bool, true, false, Option, none, some,
  List, [], ◌∷◌, get_elem?, set, All, Bool-cases, inl, inr,
}
use osai.Network.Flow.{FlowState, TcpFlow, find_flow_from}

abbrev pub one_if : Bool → ℕ
one_if true = 1
one_if false = 0

-- How many connections are in a state of a kind.
abbrev pub count_state : (FlowState → Bool) → List TcpFlow → ℕ
count_state test [] = 0
count_state test (f ∷ flows) = one_if (test f.state) + count_state test flows

pub count_state-set :
    (test : FlowState → Bool) (flows : List TcpFlow) (i : ℕ) (f f' : TcpFlow)
    → get_elem? flows i ≡ some f
    → count_state test (set flows i f') + one_if (test f.state)
      ≡ count_state test flows + one_if (test f'.state)
count_state-set test [] i f f' at = absurd (cc)
count_state-set test (g ∷ flows) zero f f' at =
    let same : test g.state ≡ test f.state =
      ap (λ (o : Option TcpFlow). elim o [ none ↦ false | some h ↦ test h.state ]) at in
    rw same (omega arith)
count_state-set test (g ∷ flows) (suc i) f f' at =
    omega (arith, count_state-set test flows i f f' at)

pub All-get {κ} :
    (P : TcpFlow → Type κ) (flows : List TcpFlow) (i : ℕ) (f : TcpFlow)
    → All P flows
    → get_elem? flows i ≡ some f
    → P f
All-get P [] i f all at = absurd (cc)
All-get P (g ∷ flows) zero f all at =
    subst (λ (o : Option TcpFlow). elim o [ none ↦ P g | some h ↦ P h ]) at all.0
All-get P (g ∷ flows) (suc i) f all at = All-get P flows i f all.1 at

pub All-set {κ} :
    (P : TcpFlow → Type κ) (flows : List TcpFlow) (i : ℕ) (f : TcpFlow)
    → All P flows
    → P f
    → All P (set flows i f)
All-set P [] i f all here = all
All-set P (g ∷ flows) zero f all here = (here, all.1)
All-set P (g ∷ flows) (suc i) f all here = (all.0, All-set P flows i f all.1 here)

-- What a scan of the table that finds an entry says of it.
pub record Found (flows : List TcpFlow) (test : TcpFlow → Bool) (at : ℕ × TcpFlow) : Type 0 where
  pub held : get_elem? flows at.0 ≡ some at.1
  pub passes : test at.1 ≡ true

injected : (a b : ℕ × TcpFlow) → some a ≡ some b → a ≡ b
injected a b h = cc

found_flow_from :
    (i : ℕ) (flows : List TcpFlow) (test : TcpFlow → Bool) (at : ℕ × TcpFlow)
    → find_flow_from i flows test ≡ some at
    → (k : ℕ) × (at.0 ≡ i + k) × (get_elem? flows k ≡ some at.1) × (test at.1 ≡ true)
unfolding find_flow_from
found_flow_from i [] test at h = absurd (cc)
found_flow_from i (f ∷ flows) test at h = elim (Bool-cases (test f)) [
  | inl hit ↦
      let same : at ≡ (i, f) = injected at (i, f) (sym h ∙ rw hit refl) in
      (
        0,
        ap (λ (a : ℕ × TcpFlow). a.0) same ∙ omega arith,
        ap (λ (a : ℕ × TcpFlow). some a.1) (sym same),
        ap (λ (a : ℕ × TcpFlow). test a.1) same ∙ hit,
      )
  | inr miss ↦
      let rest : find_flow_from (suc i) flows test ≡ some at = sym (rw miss refl) ∙ h in
      let (k, index, held, passes) = found_flow_from (suc i) flows test at rest in
      (suc k, omega (arith, index), held, passes)
]

pub find_flow_from-Found :
    (flows : List TcpFlow) (test : TcpFlow → Bool) (at : ℕ × TcpFlow)
    → find_flow_from 0 flows test ≡ some at
    → Found flows test at
find_flow_from-Found flows test at h =
    let (k, index, held, passes) = found_flow_from 0 flows test at h in
    record {
      held = subst (λ n. get_elem? flows n ≡ some at.1) (sym (index ∙ omega arith)) held;
      passes = passes;
    }
