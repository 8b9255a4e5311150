-- ===== src/Routing/Tests.antt =====
-- Routing tables with and without a default route.
use osai.Prelude.{◌≡◌, refl, false, List, [], ◌∷◌, ok}
use osai.Routing.{
  RoutingEntry, route, no_route, routing_remove, routing_lookup, lookup_loop, count_ones, local_net,
  local_mask, ipv4_gateway,
}
use osai.Routing.Lookup.{NextHop, routing_lookup-NextHop}
use osai.Routing.Table.{has_match, routing_remove-default}

abbrev small_table : List RoutingEntry
small_table = route local_net local_mask 0 ∷ route 0 0 ipv4_gateway ∷ no_route ∷ []

-- The self test of the source, on a small table: a local address is its own next hop, any other goes
-- to the gateway.
local_hop : routing_lookup small_table 167772677 ≡ 167772677
unfolding routing_lookup lookup_loop count_ones
local_hop = refl

far_hop : routing_lookup small_table 134744072 ≡ ipv4_gateway
unfolding routing_lookup lookup_loop count_ones
far_hop = refl

routing_lookup-NextHop_example :
    NextHop 134744072 small_table (routing_lookup small_table 134744072)
routing_lookup-NextHop_example = routing_lookup-NextHop small_table 134744072

-- A route to 192.168.1.0/24 stands behind the default route; removing it removes the default route,
-- and 8.8.8.8 has no next hop any more.
abbrev behind : List RoutingEntry
behind = route 3232235776 local_mask 167772673 ∷ []

routing_remove-default_example :
    let table = route local_net local_mask 0 ∷ route 0 0 ipv4_gateway ∷ behind in
    let left =
      route local_net local_mask 0 ∷ record (route 0 0 ipv4_gateway) { active = false } ∷ behind in
    (routing_remove table 3232235776 ≡ (ok, left))
    × (routing_lookup table 134744072 ≡ ipv4_gateway)
    × (routing_lookup left 134744072 ≡ 0)
unfolding has_match
routing_remove-default_example =
    routing_remove-default (route local_net local_mask 0 ∷ []) behind ipv4_gateway 3232235776
      134744072 refl refl refl
