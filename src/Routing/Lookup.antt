-- ===== src/Routing/Lookup.antt =====
-- `routing_lookup` of routing.c: the next hop is that of the longest prefix.
use osai.Prelude.{
  ℕ, ◌≤◌, ◌≡◌, refl, arith, true, false, ◌&&◌, Option, none, some, List, [], ◌∷◌, ◌==◌, ltb,
  if◌then◌else◌, Bool-cases, inl, inr, ◌⊎◌, subst, sym,
}
use osai.Routing.{RoutingEntry, matches, prefix_len, lookup_loop, routing_lookup}

-- An entry is in a table.
pub data IsIn (e : RoutingEntry) : List RoutingEntry → Type 0 where
  here : {table : List RoutingEntry} → IsIn e (e ∷ table)
  there : {o : RoutingEntry} → {table : List RoutingEntry} → IsIn e table → IsIn e (o ∷ table)

-- The loop's answer from a best entry `b`: `b` or an entry of the table, and no prefix is longer.
record Longest (ip : ℕ) (table : List RoutingEntry) (b e : RoutingEntry) : Type 0 where
  from : (e ≡ b) ⊎ IsIn e table
  hit : matches ip e ≡ true
  from_start : prefix_len b ≤ prefix_len e
  of_all : (o : RoutingEntry) → IsIn o table → matches ip o ≡ true → prefix_len o ≤ prefix_len e

-- No prefix of a longer table is longer than `n`, when neither its head's nor its tail's is.
longest-cons :
    (ip : ℕ)
    → {n : ℕ} → {table : List RoutingEntry} → (c : RoutingEntry)
    → (matches ip c ≡ true → prefix_len c ≤ n)
    → ((o : RoutingEntry) → IsIn o table → matches ip o ≡ true → prefix_len o ≤ n)
    → (o : RoutingEntry) → IsIn o (c ∷ table)
    → matches ip o ≡ true
    → prefix_len o ≤ n
longest-cons ip c head tail o here = head
longest-cons ip c head tail o (there i) = tail o i

longest-nil :
    (ip : ℕ) {n : ℕ} (o : RoutingEntry) → IsIn o [] → matches ip o ≡ true → prefix_len o ≤ n
longest-nil ip o i = elim i [ ]

later :
    {b c e : RoutingEntry}
    → {table : List RoutingEntry} → (e ≡ c) ⊎ IsIn e table
    → (e ≡ b) ⊎ IsIn e (c ∷ table)
later {b} {c} {e} {table} (inl same) = inr (subst (λ x. IsIn x (c ∷ table)) (sym same) here)
later (inr i) = inr (there i)

kept :
    {b c e : RoutingEntry}
    → {table : List RoutingEntry} → (e ≡ b) ⊎ IsIn e table
    → (e ≡ b) ⊎ IsIn e (c ∷ table)
kept (inl same) = inl same
kept (inr i) = inr (there i)

lookup_loop-some :
    (ip : ℕ) (table : List RoutingEntry) (b : RoutingEntry)
    → matches ip b ≡ true
    → (e : RoutingEntry) × (lookup_loop ip table (some b) ≡ some e) × Longest ip table b e
unfolding lookup_loop
lookup_loop-some ip [] b hit = (
  b,
  refl,
  record { from = inl refl; hit = hit; from_start = omega arith; of_all = longest-nil ip },
)
lookup_loop-some ip (c ∷ table) b hit =
    elim (Bool-cases (matches ip c && ltb (prefix_len b) (prefix_len c))) [
      | inl move ↦
          let (e, runs, l) = lookup_loop-some ip table c (ground (arith, move)) in
          (
            e,
            rw move runs,
            record {
              from = later l.from;
              hit = l.hit;
              from_start = ground (arith, l.from_start, move);
              of_all = longest-cons ip c (λ m. l.from_start) l.of_all;
            },
          )
      | inr stay ↦
          let (e, runs, l) = lookup_loop-some ip table b hit in
          (
            e,
            rw stay runs,
            record {
              from = kept l.from;
              hit = l.hit;
              from_start = l.from_start;
              of_all = longest-cons ip c (λ m. ground (arith, l.from_start, stay, m)) l.of_all;
            },
          )
    ]

nowhere :
    (ip : ℕ)
    → {table : List RoutingEntry} → (c : RoutingEntry) → matches ip c ≡ false
    → ((o : RoutingEntry) → IsIn o table → matches ip o ≡ false)
    → (o : RoutingEntry) → IsIn o (c ∷ table)
    → matches ip o ≡ false
nowhere ip c head tail o here = head
nowhere ip c head tail o (there i) = tail o i

nowhere-nil : (ip : ℕ) (o : RoutingEntry) → IsIn o [] → matches ip o ≡ false
nowhere-nil ip o i = elim i [ ]

entry :
    {e c : RoutingEntry} → {table : List RoutingEntry} → (e ≡ c) ⊎ IsIn e table → IsIn e (c ∷ table)
entry {e} {c} {table} (inl same) = subst (λ x. IsIn x (c ∷ table)) (sym same) here
entry (inr i) = there i

-- What the loop finds: nothing when no active entry matches, else a matching entry with the longest
-- prefix.
data Found (ip : ℕ) (table : List RoutingEntry) : Option RoutingEntry → Type 0 where
  nothing : ((o : RoutingEntry) → IsIn o table → matches ip o ≡ false) → Found ip table none
  longest :
      (e : RoutingEntry)
      → IsIn e table
      → matches ip e ≡ true
      → ((o : RoutingEntry) → IsIn o table → matches ip o ≡ true → prefix_len o ≤ prefix_len e)
      → Found ip table (some e)

skipped :
    {ip : ℕ}
    → {table : List RoutingEntry} → {found : Option RoutingEntry} → (c : RoutingEntry)
    → matches ip c ≡ false
    → Found ip table found
    → Found ip (c ∷ table) found
skipped {ip} c miss (nothing none_of) = nothing (nowhere ip c miss none_of)
skipped {ip} c miss (longest e isin hit of_all) =
    longest e (there isin) hit (longest-cons ip c (λ m. ground (arith, m, miss)) of_all)

lookup_loop-Found :
    (ip : ℕ) (table : List RoutingEntry) → Found ip table (lookup_loop ip table none)
unfolding lookup_loop
lookup_loop-Found ip [] = nothing (nowhere-nil ip)
lookup_loop-Found ip (c ∷ table) = elim (Bool-cases (matches ip c)) [
  | inl hit ↦
      let (e, runs, l) = lookup_loop-some ip table c hit in
      rw (hit, runs)
        (longest e (entry l.from) l.hit (longest-cons ip c (λ m. l.from_start) l.of_all))
  | inr miss ↦ rw miss (skipped c miss (lookup_loop-Found ip table))
]

-- The next hop of an address: 0 when no active entry matches it, else the gateway of a matching
-- entry with the longest prefix, or the address itself where that gateway is 0.
pub data NextHop (ip : ℕ) (table : List RoutingEntry) : ℕ → Type 0 where
  unreachable : ((o : RoutingEntry) → IsIn o table → matches ip o ≡ false) → NextHop ip table 0
  by_route :
      (e : RoutingEntry)
      → IsIn e table
      → matches ip e ≡ true
      → ((o : RoutingEntry) → IsIn o table → matches ip o ≡ true → prefix_len o ≤ prefix_len e)
      → NextHop ip table (if e.gateway == 0 then ip else e.gateway)

hop :
    {ip : ℕ}
    → {table : List RoutingEntry} → (found : Option RoutingEntry) → Found ip table found
    → NextHop ip table (elim found [ none ↦ 0 | some e ↦ if e.gateway == 0 then ip else e.gateway ])
hop none (nothing none_of) = unreachable none_of
hop (some e) (longest e' isin hit of_all) = by_route e' isin hit of_all

-- `routing_lookup` returns the next hop of the address: 0 when no active entry of the table matches
-- it, else the gateway (the address itself where that is 0) of a matching active entry of which no
-- other matching one has a longer prefix.
pub routing_lookup-NextHop :
    (table : List RoutingEntry) (ip : ℕ) → NextHop ip table (routing_lookup table ip)
unfolding routing_lookup
routing_lookup-NextHop table ip = hop (lookup_loop ip table none) (lookup_loop-Found ip table)
