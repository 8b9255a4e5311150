-- ===== src/Routing/Table.antt =====
-- `routing_add`, `routing_remove` and `routing_clear` of routing.c.
use osai.Prelude.{
  ℕ, zero, suc, ◌+◌, ◌/◌, min, ap, ◌∙◌, ◌≡◌, refl, arith, Bool, true, false, ◌&&◌, List, [], ◌∷◌,
  bit_and, Bool-cases, inl, inr, if◌then◌else◌, Status, ok, no_memory, ◌||◌, ◌++◌, ◌==◌, sym,
  Option, none, some,
}
use mathlib.Core.List.{append-nil}
use Prim.Native.Nat.{digits, bit_and-bitwise}
use osai.Routing.{
  RoutingEntry, route, matches, routing_add, routing_remove, routing_clear, routing_lookup,
  lookup_loop, better,
}

abbrev pub active_bit : RoutingEntry → ℕ
active_bit e = if e.active then 1 else 0

unfoldable pub count_active : List RoutingEntry → ℕ
count_active [] = 0
count_active (e ∷ table) = active_bit e + count_active table

unfoldable pub is_full : List RoutingEntry → Bool
is_full [] = true
is_full (e ∷ table) = e.active && is_full table

-- What an operation on one entry of the table reports, and how many entries are active after it.
pub data AddReport (before after : List RoutingEntry) : Status → Type 0 where
  added :
      is_full before ≡ false
      → count_active after ≡ suc (count_active before)
      → AddReport before after ok
  refused : is_full before ≡ true → after ≡ before → AddReport before after no_memory

-- `routing_add` makes one more entry active, or, when every entry is, reports NO_MEMORY and changes
-- nothing.
pub routing_add-AddReport :
    (table : List RoutingEntry) (network netmask gateway : ℕ)
    → AddReport table
        (routing_add table network netmask gateway).1
        (routing_add table network netmask gateway).0
unfolding routing_add count_active is_full
routing_add-AddReport [] network netmask gateway = refused refl refl
routing_add-AddReport (e ∷ table) network netmask gateway = elim (Bool-cases e.active) [
  | inl taken ↦ simp taken (later taken (routing_add-AddReport table network netmask gateway))
  | inr idle ↦ simp idle (added (ground (arith, idle)) (ground (arith, idle)))
]
  where
    later :
        {after : List RoutingEntry}
        → {status : Status} → e.active ≡ true
        → AddReport table after status
        → AddReport (e ∷ table) (e ∷ after) status
    later taken (added f c) = added (ground (arith, f, taken)) (ground (arith, c, taken))
    later taken (refused f same) = refused (ground (arith, taken, f)) (ap (λ t. e ∷ t) same)

digits-zero : (n a : ℕ) → digits (λ b. 0) min n a 0 ≡ 0
digits-zero zero a = refl
digits-zero (suc n) zero = refl
digits-zero (suc n) (suc a) = omega (arith, digits-zero n (suc a / 2))

bit_and_zero : (a : ℕ) → bit_and a 0 ≡ 0
bit_and_zero a = bit_and-bitwise a 0 ∙ digits-zero a a

-- Whether an active entry of the table matches the address.
unfoldable pub has_match : List RoutingEntry → ℕ → Bool
has_match [] ip = false
has_match (e ∷ table) ip = matches ip e || has_match table ip

-- The part of the table that the address matches no entry of is passed over.
routing_remove-append :
    (before rest : List RoutingEntry) (ip : ℕ)
    → has_match before ip ≡ false
    → routing_remove (before ++ rest) ip
      ≡ ((routing_remove rest ip).0, before ++ (routing_remove rest ip).1)
unfolding routing_remove has_match
routing_remove-append [] rest ip miss = refl
routing_remove-append (e ∷ before) rest ip miss = elim (Bool-cases (matches ip e)) [
  | inl hit ↦ absurd (ground arith)
  | inr other ↦
      let later = routing_remove-append before rest ip (ground arith) in
      rw (other, routing_remove) (rw later refl)
]

lookup_loop-append :
    (before rest : List RoutingEntry) (ip : ℕ) (best : Option RoutingEntry)
    → has_match before ip ≡ false
    → lookup_loop ip (before ++ rest) best ≡ lookup_loop ip rest best
unfolding lookup_loop has_match
lookup_loop-append [] rest ip best miss = refl
lookup_loop-append (e ∷ before) rest ip best miss =
    let other : matches ip e ≡ false = ground arith in
    let skips : better ip best e ≡ best = better_miss best other in
    ap (lookup_loop ip (before ++ rest)) skips
    ∙ lookup_loop-append before rest ip best (ground arith)
  where
    better_miss : (best : Option RoutingEntry) → matches ip e ≡ false → better ip best e ≡ best
    better_miss none other = rw other refl
    better_miss (some b) other = rw other refl

lookup_loop-none :
    (table : List RoutingEntry) (ip : ℕ) (best : Option RoutingEntry)
    → has_match table ip ≡ false
    → lookup_loop ip table best ≡ best
unfolding lookup_loop has_match
lookup_loop-none table ip best miss =
    ap (λ t. lookup_loop ip t best) (sym (append-nil table))
    ∙ lookup_loop-append table [] ip best miss

matches-default : (ip gateway : ℕ) → matches ip (route 0 0 gateway) ≡ true
matches-default ip gateway = rw (bit_and_zero ip) refl

-- The next hop by a default route.
abbrev pub by_default : ℕ → ℕ → ℕ
by_default gateway ip = if gateway == 0 then ip else gateway

-- `routing_remove` of an address that no entry before a default route matches deactivates the default
-- route and changes no other entry, whatever routes to the address stand behind it. An address that
-- only the default route matched then has no next hop, where it had that of the default route.
pub routing_remove-default :
    (before rest : List RoutingEntry) (gateway ip far : ℕ)
    → has_match before ip ≡ false
    → has_match before far ≡ false
    → has_match rest far ≡ false
    → let table = before ++ route 0 0 gateway ∷ rest in
      let left = before ++ record (route 0 0 gateway) { active = false } ∷ rest in
      (routing_remove table ip ≡ (ok, left))
      × (routing_lookup table far ≡ by_default gateway far)
      × (routing_lookup left far ≡ 0)
unfolding routing_remove routing_lookup lookup_loop
routing_remove-default before rest gateway ip far miss far_before far_rest =
    let default = route 0 0 gateway in
    let off : RoutingEntry = record default { active = false } in
    let takes : routing_remove (default ∷ rest) ip ≡ (ok, off ∷ rest) =
      rw (matches-default ip gateway, routing_remove) refl in
    let found : lookup_loop far (before ++ default ∷ rest) none ≡ some default =
      lookup_loop-append before (default ∷ rest) far none far_before
      ∙ ap (lookup_loop far rest) {x = better far none default} {y = some default}
          (rw (matches-default far gateway) refl)
      ∙ lookup_loop-none rest far (some default) far_rest in
    let missing : lookup_loop far (before ++ off ∷ rest) none ≡ none =
      lookup_loop-append before (off ∷ rest) far none far_before
      ∙ lookup_loop-none rest far none far_rest in
    (
      routing_remove-append before (default ∷ rest) ip miss ∙ rw takes refl,
      rw (found, routing_lookup) refl,
      rw (missing, routing_lookup) refl,
    )

-- After `routing_clear` no address has a next hop.
pub routing_clear-lookup :
    (table : List RoutingEntry) (ip : ℕ) → routing_lookup (routing_clear table) ip ≡ 0
unfolding routing_clear routing_lookup lookup_loop
routing_clear-lookup [] ip = refl
routing_clear-lookup (e ∷ table) ip = routing_clear-lookup table ip
