-- ===== src/Arp/Cache.antt =====
-- `arp_cache_lookup` and `arp_cache_insert` of arp.c against the map that the cache stands for.
use osai.Prelude.{
  ℕ, ◌-◌, ◌<◌, ◌≡◌, ◌≢◌, refl, arith, true, false, ◌&&◌, Option, none, some, List, [], ◌∷◌, All, ap,
  ◌^◌, length, ==_refl, ==_iff, if◌then◌else◌, Bool-cases, Option-cases, inl, inr, ok,
}
use osai.Arp.{
  ArpEntry, is_for, pull, arp_cache_lookup, fresh, update_existing, fill_free, write_at, evict_lru,
  arp_cache_insert,
}
use osai.Arp.Lru.{AllUsed, empty, used, lru_loop-AllUsed}

-- The map that a cache stands for: the link address of the first active entry for an address.
unfoldable pub resolve : ℕ → List ArpEntry → Option (List ℕ)
resolve ip [] = none
resolve ip (e ∷ cache) = if is_for ip e then some e.mac else resolve ip cache

update_existing-some :
    (new : ArpEntry) (cache : List ArpEntry) {c : List ArpEntry}
    → new.active ≡ true
    → update_existing new cache ≡ some c
    → resolve new.ip c ≡ some new.mac
unfolding update_existing resolve
update_existing-some new [] {c} active runs = cc
update_existing-some new (e ∷ cache) {c} active runs = elim (Bool-cases (is_for new.ip e)) [
  | inl hit ↦ ground (arith, active, ==_refl new.ip)
  | inr miss ↦ elim (Option-cases (update_existing new cache)) [
    | inl gone ↦ ground arith
    | inr (c', later) ↦ ground (arith, update_existing-some new cache {c = c'})
  ]
]

update_existing-none :
    (new : ArpEntry) (cache : List ArpEntry)
    → update_existing new cache ≡ none
    → resolve new.ip cache ≡ none
unfolding update_existing resolve
update_existing-none new [] runs = refl
update_existing-none new (e ∷ cache) runs = elim (Option-cases (update_existing new cache)) [
  | inl gone ↦ ground (arith, update_existing-none new cache)
  | inr (c', later) ↦ ground arith
]

fill_free-some :
    (new : ArpEntry) (cache : List ArpEntry) {c : List ArpEntry}
    → new.active ≡ true
    → resolve new.ip cache ≡ none
    → fill_free new cache ≡ some c
    → resolve new.ip c ≡ some new.mac
unfolding fill_free resolve
fill_free-some new [] {c} active none_for runs = cc
fill_free-some new (e ∷ cache) {c} active none_for runs = elim (Bool-cases e.active) [
  | inl taken ↦ elim (Option-cases (fill_free new cache)) [
    | inl gone ↦ ground arith
    | inr (c', later) ↦ ground (arith, fill_free-some new cache {c = c'})
  ]
  | inr idle ↦ ground (arith, active, ==_refl new.ip)
]

write_at-resolve :
    (new : ArpEntry) (cache : List ArpEntry) (slot : ℕ)
    → new.active ≡ true
    → resolve new.ip cache ≡ none
    → slot < length cache
    → resolve new.ip (write_at cache slot new) ≡ some new.mac
unfolding write_at resolve
write_at-resolve new [] slot active none_for inside = absurd (omega (arith, inside))
write_at-resolve new (e ∷ cache) slot active none_for inside =
    ground (arith, active, ==_refl new.ip, write_at-resolve new cache (slot - 1))

pull-some :
    (ip : ℕ) (cache : List ArpEntry) {m : List ℕ}
    → resolve ip cache ≡ some m
    → (found : ArpEntry × List ArpEntry) × (pull ip cache ≡ some found) × ((found.0).mac ≡ m)
unfolding pull resolve
pull-some ip [] {m} known = cc
pull-some ip (e ∷ cache) {m} known = elim (Bool-cases (is_for ip e)) [
  | inl hit ↦ ((e, cache), rw hit refl, ground arith)
  | inr miss ↦
      let (found, runs, same) = pull-some ip cache {m = m} (ground arith) in
      ((found.0, e ∷ found.1), rw (miss, runs) refl, same)
]

-- A table without a free entry has only active ones.
fill_free-AllUsed :
    (new : ArpEntry) (cache : List ArpEntry)
    → fill_free new cache ≡ none
    → All (λ e. e.last_use_ns < 2 ^ 64 - 1) cache
    → AllUsed cache
unfolding fill_free
fill_free-AllUsed new [] runs times = empty
fill_free-AllUsed new (e ∷ cache) runs (before, times) = elim (Option-cases (fill_free new cache)) [
  | inl gone ↦ used e (ground arith) before (fill_free-AllUsed new cache gone times)
  | inr (c', later) ↦ absurd (ground arith)
]

evict_lru-AllUsed :
    (new : ArpEntry) (cache : List ArpEntry)
    → new.active ≡ true
    → AllUsed cache
    → cache ≢ []
    → resolve new.ip cache ≡ none
    → (c : List ArpEntry) × (evict_lru new cache ≡ some c) × (resolve new.ip c ≡ some new.mac)
unfolding evict_lru
evict_lru-AllUsed new cache active u filled unknown =
    let (j, runs, inside) = lru_loop-AllUsed cache u filled in
    (
      write_at cache j new,
      rw (runs, evict_lru) refl,
      write_at-resolve new cache j active unknown inside,
    )

pull-is_for :
    (ip : ℕ) (cache : List ArpEntry) {f : ArpEntry × List ArpEntry}
    → pull ip cache ≡ some f
    → is_for ip f.0 ≡ true
unfolding pull
pull-is_for ip [] {f} runs = cc
pull-is_for ip (e ∷ cache) {f} runs = elim (Bool-cases (is_for ip e)) [
  | inl hit ↦ ground arith
  | inr miss ↦ elim (Option-cases (pull ip cache)) [
    | inl gone ↦ absurd (ground arith)
    | inr (f', later) ↦ ground (arith, pull-is_for ip cache {f = f'})
  ]
]

-- Two entries that no address has in common can change places.
resolve-swap :
    (q : ℕ) (h e : ArpEntry) (rest cache : List ArpEntry)
    → (is_for q h && is_for q e) ≡ false
    → resolve q (h ∷ rest) ≡ resolve q cache
    → resolve q (h ∷ e ∷ rest) ≡ resolve q (e ∷ cache)
unfolding resolve
resolve-swap q h e rest cache apart same = elim (Bool-cases (is_for q h)) [
  | inl first ↦ ground arith
  | inr other ↦ ground arith
]

apart :
    (ip q : ℕ) (h e : ArpEntry)
    → is_for ip h ≡ true
    → is_for ip e ≡ false
    → (is_for q h && is_for q e) ≡ false
apart ip q h e hit miss =
    ground (arith, ==_iff h.ip ip, ==_iff e.ip ip, ==_iff h.ip q, ==_iff e.ip q)

-- Moving the entry found to the front changes no address: those before it are for others.
pull-resolve :
    (ip : ℕ) (cache : List ArpEntry) (q : ℕ) {f : ArpEntry × List ArpEntry}
    → pull ip cache ≡ some f
    → resolve q (f.0 ∷ f.1) ≡ resolve q cache
unfolding pull
pull-resolve ip [] q {f} runs = cc
pull-resolve ip (e ∷ cache) q {f} runs = elim (Bool-cases (is_for ip e)) [
  | inl hit ↦ let same : f ≡ (e, cache) = ground arith in simp same refl
  | inr miss ↦ elim (Option-cases (pull ip cache)) [
    | inl gone ↦ absurd (ground arith)
    | inr (f', later) ↦
        let same : f ≡ (f'.0, e ∷ f'.1) = ground arith in
        simp same (
          resolve-swap q f'.0 e f'.1 cache
            (apart ip q f'.0 e (pull-is_for ip cache {f = f'} later) miss)
            (pull-resolve ip cache q {f = f'} later))
  ]
]

lookup-pull :
    (now : ℕ) (c : List ArpEntry) (ip : ℕ) {mac : List ℕ} {f : ArpEntry × List ArpEntry}
    → pull ip c ≡ some f
    → (f.0).mac ≡ mac
    → ((arp_cache_lookup now c ip).0 ≡ ok) × ((arp_cache_lookup now c ip).1 ≡ some mac)
unfolding arp_cache_lookup
lookup-pull now c ip {mac} {f} runs same =
    (rw (runs, arp_cache_lookup) refl, rw (runs, arp_cache_lookup) (ap (λ m. some m) same))

-- An address that was just inserted is found, and what is found is the link address inserted. The
-- table is not empty, and the times at which its entries were used are below 2^64 - 1, the value the
-- search for a victim starts from; with them, the insertion always has an entry to write.
pub arp_cache_insert-lookup :
    (now later : ℕ) (cache : List ArpEntry) (ip : ℕ) (mac : List ℕ)
    → cache ≢ []
    → All (λ e. e.last_use_ns < 2 ^ 64 - 1) cache
    → (c : List ArpEntry) × (arp_cache_insert now cache ip mac ≡ some c)
      × ((arp_cache_lookup later c ip).0 ≡ ok)
      × ((arp_cache_lookup later c ip).1 ≡ some mac)
unfolding arp_cache_insert
arp_cache_insert-lookup now later cache ip mac filled times =
    let (c, runs, known) = inserted in
    let (f, pulls, same) = pull-some ip c known in
    let (status, answer) = lookup-pull later c ip {f = f} pulls same in (c, runs, status, answer)
  where
    inserted :
        (c : List ArpEntry) × (arp_cache_insert now cache ip mac ≡ some c)
        × (resolve ip c ≡ some mac)
    inserted = elim (Option-cases (update_existing (fresh now ip mac) cache)) [
      | inr (c, updates) ↦ (
        c,
        rw (updates, arp_cache_insert) refl,
        update_existing-some (fresh now ip mac) cache {c = c} refl updates,
      )
      | inl absent ↦ elim (Option-cases (fill_free (fresh now ip mac) cache)) [
        | inr (c, fills) ↦ (
          c,
          rw (absent, fills, arp_cache_insert) refl,
          fill_free-some (fresh now ip mac) cache {c = c} refl
              (update_existing-none (fresh now ip mac) cache absent) fills,
        )
        | inl full ↦
            let (c, evicts, known) =
              evict_lru-AllUsed (fresh now ip mac) cache refl
                (fill_free-AllUsed (fresh now ip mac) cache full times) filled
                (update_existing-none (fresh now ip mac) cache absent) in
            (c, rw (absent, full, arp_cache_insert) evicts, known)
      ]
    ]

touched :
    (now : ℕ) (cache : List ArpEntry) (q : ℕ) (f : ArpEntry × List ArpEntry)
    → resolve q (f.0 ∷ f.1) ≡ resolve q cache
    → resolve q (record (f.0) { last_use_ns = now } ∷ f.1) ≡ resolve q cache
unfolding resolve
touched now cache q f same = same

-- A lookup does not change what any address resolves to, though it moves the entry it finds to the
-- front of the table.
pub arp_cache_lookup-resolve :
    (now : ℕ) (cache : List ArpEntry) (ip q : ℕ)
    → resolve q (arp_cache_lookup now cache ip).2 ≡ resolve q cache
unfolding arp_cache_lookup
arp_cache_lookup-resolve now cache ip q = elim (Option-cases (pull ip cache)) [
  | inl absent ↦ rw (absent, arp_cache_lookup) refl
  | inr (f, runs) ↦
      rw (runs, arp_cache_lookup) (touched now cache q f (pull-resolve ip cache q {f = f} runs))
]
