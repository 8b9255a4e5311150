-- ===== src/Arp/Tests.antt =====
-- A full cache of two entries, the second used less recently.
use osai.Prelude.{◌≡◌, arith, true, some, List, [], ◌∷◌, ok}
use osai.Arp.{ArpEntry, arp_cache_insert, arp_cache_lookup}
use osai.Arp.Cache.{arp_cache_insert-lookup}

abbrev full_cache : List ArpEntry
full_cache =
    record { ip = 1; mac = 1 ∷ []; active = true; age_ns = 5; last_use_ns = 9 }
    ∷ record { ip = 2; mac = 2 ∷ []; active = true; age_ns = 5; last_use_ns = 6 }
    ∷ []

arp_cache_insert-lookup_example :
    (c : List ArpEntry) × (arp_cache_insert 10 full_cache 3 (3 ∷ []) ≡ some c)
    × ((arp_cache_lookup 11 c 3).0 ≡ ok)
    × ((arp_cache_lookup 11 c 3).1 ≡ some (3 ∷ []))
arp_cache_insert-lookup_example =
    arp_cache_insert-lookup 10 11 full_cache 3 (3 ∷ []) (λ e. cc) (omega arith, (omega arith, tt))
