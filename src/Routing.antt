-- ===== src/Routing.antt =====
-- kernel/net/routing.c and kernel/include/xaios/routing.h: the table of IPv4 routes. The table is
-- the list of its 32 entries, in the order of the array; the log lines are left out.
mod Lookup
mod Table
mod Tests
use osai.Prelude.{
  ℕ, zero, suc, ◌+◌, ◌/◌, ◌%◌, bit_and, Bool, true, false, ◌&&◌, ◌||◌, not, Option, none, some,
  List, [], ◌∷◌, ◌==◌, ltb, if◌then◌else◌, Status, ok, no_memory, not_found, replicate, map,
}

-- `routing_entry_t`.
pub record RoutingEntry : Type 0 where
  pub dest_network : ℕ
  pub netmask : ℕ
  pub gateway : ℕ
  pub active : Bool

abbrev pub routing_table_size : ℕ
routing_table_size = 32

abbrev pub no_route : RoutingEntry
no_route = record { dest_network = 0; netmask = 0; gateway = 0; active = false }

-- The entry that `routing_add` writes.
abbrev pub route : ℕ → ℕ → ℕ → RoutingEntry
route dest_network netmask gateway = record {
  dest_network = bit_and dest_network netmask;
  netmask = netmask;
  gateway = gateway;
  active = true;
}

-- `routing_add`: the first entry that is not active.
unfoldable pub routing_add : List RoutingEntry → ℕ → ℕ → ℕ → Status × List RoutingEntry
routing_add [] dest_network netmask gateway = (no_memory, [])
routing_add (e ∷ table) dest_network netmask gateway =
    let (status, rest) = routing_add table dest_network netmask gateway in
    if not e.active then (ok, route dest_network netmask gateway ∷ table) else (status, e ∷ rest)

-- "(ip & netmask) == dest_network", of an active entry.
abbrev pub matches : ℕ → RoutingEntry → Bool
matches ip e = e.active && (bit_and ip e.netmask == e.dest_network)

-- `routing_remove`: the first active entry that the address matches.
unfoldable pub routing_remove : List RoutingEntry → ℕ → Status × List RoutingEntry
routing_remove [] ip = (not_found, [])
routing_remove (e ∷ table) ip =
    let (status, rest) = routing_remove table ip in
    if matches ip e then (ok, record e { active = false } ∷ table) else (status, e ∷ rest)

-- `routing_clear`.
unfoldable pub routing_clear : List RoutingEntry → List RoutingEntry
routing_clear table = map (λ e. no_route) table

abbrev local_net : ℕ
local_net = 167772672

abbrev local_mask : ℕ
local_mask = 4294967040

abbrev ipv4_gateway : ℕ
ipv4_gateway = 167772674

-- `routing_init`.
unfoldable pub routing_init : List RoutingEntry
unfolding routing_add
routing_init =
    let (local_status, with_local) =
      routing_add (replicate routing_table_size no_route) local_net local_mask 0 in
    let (default_status, with_default) = routing_add with_local 0 0 ipv4_gateway in with_default

-- The `while` that counts the ones of a mask; `fuel` is its number of bits.
unfoldable pub count_ones : ℕ → ℕ → ℕ
count_ones zero mask = 0
count_ones (suc fuel) mask = mask % 2 + count_ones fuel (mask / 2)

abbrev pub prefix_len : RoutingEntry → ℕ
prefix_len e = count_ones 32 e.netmask

-- One round of the loop of `routing_lookup`: `best` is the entry at `best_match`, none before the
-- first one is found.
abbrev pub better : ℕ → Option RoutingEntry → RoutingEntry → Option RoutingEntry
better ip none e = if matches ip e then some e else none
better ip (some best) e =
    if matches ip e && ltb (prefix_len best) (prefix_len e) then some e else some best

unfoldable pub lookup_loop : ℕ → List RoutingEntry → Option RoutingEntry → Option RoutingEntry
lookup_loop ip [] best = best
lookup_loop ip (e ∷ table) best = lookup_loop ip table (better ip best e)

-- `routing_lookup`.
unfoldable pub routing_lookup : List RoutingEntry → ℕ → ℕ
unfolding lookup_loop
routing_lookup table dest_ip = elim (lookup_loop dest_ip table none) [
  | none ↦ 0
  | some e ↦ if e.gateway == 0 then dest_ip else e.gateway
]
