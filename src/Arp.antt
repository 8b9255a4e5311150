-- ===== src/Arp.antt =====
-- kernel/net/arp.c and kernel/include/xaios/arp.h: the cache of link addresses. The cache is the list
-- of its 32 entries, in the order of the array; a link address is the list of its six bytes, and
-- `now` is what `timer_now_ns` returns. The callers' address pointers are taken not to be null, the log
-- lines are left out, and the frames that arp.c builds and reads are not modelled.
mod Lru
mod Cache
mod Tests
use osai.Prelude.{
  ℕ, ◌+◌, ◌-◌, ◌*◌, ◌^◌, Bool, true, false, ◌&&◌, not, Option, none, some, List, [], ◌∷◌, map, ◌==◌,
  ltb, if◌then◌else◌, Status, ok, invalid, not_found, replicate, sub64, Option-cases,
}

-- `xaios_arp_entry_t`.
pub record ArpEntry : Type 0 where
  pub ip : ℕ
  pub mac : List ℕ
  pub active : Bool
  pub age_ns : ℕ
  pub last_use_ns : ℕ

abbrev pub arp_cache_size : ℕ
arp_cache_size = 32

abbrev pub arp_timeout_sec : ℕ
arp_timeout_sec = 300

abbrev pub empty_entry : ArpEntry
empty_entry = record { ip = 0; mac = replicate 6 0; active = false; age_ns = 0; last_use_ns = 0 }

-- `arp_init`.
abbrev pub arp_init : List ArpEntry
arp_init = replicate arp_cache_size empty_entry

-- "g_arp_cache[i].active != 0 && g_arp_cache[i].ip == ip"
abbrev pub is_for : ℕ → ArpEntry → Bool
is_for ip e = e.active && (e.ip == ip)

-- The first entry for an address, and the table without it: the loop of `arp_cache_lookup` that finds
-- the entry, and the one that shifts those before it.
unfoldable pub pull : ℕ → List ArpEntry → Option (ArpEntry × List ArpEntry)
pull ip [] = none
pull ip (e ∷ cache) =
    let later = pull ip cache in
    if is_for ip e
    then some (e, cache)
    else elim later [ none ↦ none | some found ↦ some (found.0, e ∷ found.1) ]

-- `arp_cache_lookup`: the address found is copied out, and its entry moves to the front.
unfoldable pub arp_cache_lookup : ℕ → List ArpEntry → ℕ → Status × Option (List ℕ) × List ArpEntry
arp_cache_lookup now cache ip = elim (pull ip cache) [
  | none ↦ (not_found, none, cache)
  | some found ↦ (ok, some (found.0).mac, record (found.0) { last_use_ns = now } ∷ found.1)
]

-- What `arp_cache_insert` leaves in the entry it writes.
abbrev pub fresh : ℕ → ℕ → List ℕ → ArpEntry
fresh now ip mac = record { ip = ip; mac = mac; active = true; age_ns = now; last_use_ns = now }

-- The first loop of `arp_cache_insert`: an entry for the address is written again.
unfoldable pub update_existing : ArpEntry → List ArpEntry → Option (List ArpEntry)
update_existing new [] = none
update_existing new (e ∷ cache) =
    let later = update_existing new cache in
    if is_for new.ip e
    then some (new ∷ cache)
    else elim later [ none ↦ none | some rest ↦ some (e ∷ rest) ]

-- The second loop: the first entry that is not active is written.
unfoldable pub fill_free : ArpEntry → List ArpEntry → Option (List ArpEntry)
fill_free new [] = none
fill_free new (e ∷ cache) =
    let later = fill_free new cache in
    if not e.active
    then some (new ∷ cache)
    else elim later [ none ↦ none | some rest ↦ some (e ∷ rest) ]

-- The third loop: the first entry with the least `last_use_ns`, by the value and what stands around
-- it; `oldest` is the least so far, and `slot` the position that has it.
unfoldable pub lru_loop : List ArpEntry → ℕ → ℕ → Option ℕ → Option ℕ
lru_loop [] i oldest slot = slot
lru_loop (e ∷ cache) i oldest slot =
    let stay = lru_loop cache (i + 1) oldest slot in
    let move = lru_loop cache (i + 1) e.last_use_ns (some i) in
    if e.active && ltb e.last_use_ns oldest then move else stay

unfoldable pub write_at : List ArpEntry → ℕ → ArpEntry → List ArpEntry
write_at [] slot new = []
write_at (e ∷ cache) slot new = if slot == 0 then new ∷ cache else e ∷ write_at cache (slot - 1) new

-- The eviction. Where no entry is older than "UINT64_MAX", the C code writes past the array: there
-- the model has none.
unfoldable pub evict_lru : ArpEntry → List ArpEntry → Option (List ArpEntry)
unfolding lru_loop write_at
evict_lru new cache = elim (lru_loop cache 0 (2 ^ 64 - 1) none) [
  | none ↦ none
  | some slot ↦ some (write_at cache slot new)
]

-- `arp_cache_insert`; none for the write past the array.
unfoldable pub arp_cache_insert : ℕ → List ArpEntry → ℕ → List ℕ → Option (List ArpEntry)
arp_cache_insert now cache ip mac =
    let new = fresh now ip mac in
    elim (update_existing new cache) [
      | some updated ↦ some updated
      | none ↦ elim (fill_free new cache) [ some filled ↦ some filled | none ↦ evict_lru new cache ]
    ]

abbrev pub timeout_ns : ℕ
timeout_ns = arp_timeout_sec * 1000000000

-- One round of `arp_cache_age`.
abbrev pub age_entry : ℕ → ArpEntry → ArpEntry
age_entry now e =
    if e.active && ltb timeout_ns (sub64 now e.age_ns) then record e { active = false } else e

-- `arp_cache_age`.
abbrev pub arp_cache_age : ℕ → List ArpEntry → List ArpEntry
arp_cache_age now cache = map (age_entry now) cache

-- `arp_cache_count`.
unfoldable pub arp_cache_count : List ArpEntry → ℕ
arp_cache_count [] = 0
arp_cache_count (e ∷ cache) =
    let rest = arp_cache_count cache in if e.active then rest + 1 else rest
