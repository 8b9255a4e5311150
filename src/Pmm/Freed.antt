-- ===== src/Pmm/Freed.antt =====
-- The table of freed pages: an entry never leaves it, an allocation included.
use osai.Prelude.{
  ℕ, ◌<◌, ◌≡◌, refl, ◌∙◌, arith, Bool, true, false, ◌||◌, Option, none, some, List, [], ◌∷◌, ◌++◌,
  ◌==◌, length, Bool-cases, Option-cases, inl, inr, ==_refl,
}
use osai.Numa.{free_page}
use osai.Pmm.{
  FreedEntry, Pmm, max_freed_track, alloc_page, alloc_page_near, count_freed, track, free_page_of,
  pmm_free_page,
}

-- Whether the table has an entry for the page.
pub tracked : List FreedEntry → ℕ → Bool
tracked [] page = false
tracked (e ∷ es) page = e.page_addr == page || tracked es page

-- The check of `pmm_free_page` passes exactly for a page without an entry, and keeps all entries.
data Counted (es : List FreedEntry) (page : ℕ) : Option (List FreedEntry) → Type 0 where
  missing : tracked es page ≡ false → Counted es page none
  counted :
      {es' : List FreedEntry}
      → tracked es page ≡ true
      → ((q : ℕ) → tracked es' q ≡ tracked es q)
      → Counted es page (some es')

count_freed-Counted : (es : List FreedEntry) (page : ℕ) → Counted es page (count_freed es page)
unfolding count_freed tracked
count_freed-Counted [] page = missing refl
count_freed-Counted (e ∷ es) page = elim (Bool-cases (e.page_addr == page)) [
  | inl hit ↦ rw hit (counted (ground arith) (λ q. refl))
  | inr miss ↦ rw miss (later miss (count_freed-Counted es page))
]
  where
    later :
        {o : Option (List FreedEntry)}
        → (e.page_addr == page) ≡ false
        → Counted es page o
        → Counted (e ∷ es) page (elim o [ none ↦ none | some es' ↦ some (e ∷ es') ])
    later miss (missing h) = missing (ground arith)
    later miss (counted h keeps) = counted (ground arith) (λ q. rw (keeps q))

tracked-append :
    (es fs : List FreedEntry) (q : ℕ) → tracked (es ++ fs) q ≡ (tracked es q || tracked fs q)
unfolding tracked
tracked-append [] fs q = refl
tracked-append (e ∷ es) fs q = ground (arith, tracked-append es fs q)

tracked-track :
    (es : List FreedEntry) (page q : ℕ) → tracked es q ≡ true → tracked (track es page) q ≡ true
unfolding track
tracked-track es page q h =
    ground (arith, tracked-append es (record { page_addr = page; freed_count = 1 } ∷ []) q)

-- Freeing any page keeps every entry.
free_page_of-tracked :
    (s : Pmm) (page q : ℕ) → tracked s.freed q ≡ true → tracked (free_page_of s page).freed q ≡ true
unfolding free_page_of
free_page_of-tracked s page q h = kept (count_freed-Counted s.freed page)
  where
    kept :
        {o : Option (List FreedEntry)}
        → Counted s.freed page o
        → tracked
            (let r : Pmm = elim o [
              | some es ↦ record s { freed = es }
              | none ↦ record s { nodes = free_page s.nodes page; freed = track s.freed page }
            ] in
              r.freed)
            q
          ≡ true
    kept (missing e) = tracked-track s.freed page q h
    kept (counted e keeps) = keeps q ∙ h

-- After it, the page has an entry, if the table had one for it or had room.
free_page_of-tracks :
    (s : Pmm) (page : ℕ)
    → length s.freed < max_freed_track
    → tracked (free_page_of s page).freed page ≡ true
unfolding free_page_of track tracked
free_page_of-tracks s page room = elim (Option-cases (count_freed s.freed page)) [
  | inl none_yet ↦
      rw (none_yet, tracked, free_page_of)
        (ground (
          arith,
          ==_refl page,
          tracked-append s.freed (record { page_addr = page; freed_count = 1 } ∷ []) page,
        ))
  | inr (es, found) ↦
      rw (found, tracked, free_page_of) (recount (count_freed-Counted s.freed page) found)
]
  where
    recount :
        {o : Option (List FreedEntry)} {es : List FreedEntry}
        → Counted s.freed page o
        → o ≡ some es
        → tracked es page ≡ true
    recount (missing h) e = cc
    recount (counted h keeps) e = ground (arith, keeps page)

-- A page that has an entry is never given back: freeing it changes no node.
free_page_of-refuses :
    (s : Pmm) (page : ℕ) → tracked s.freed page ≡ true → (free_page_of s page).nodes ≡ s.nodes
unfolding free_page_of
free_page_of-refuses s page h = elim (Option-cases (count_freed s.freed page)) [
  | inl none_yet ↦ absurd (has_entry (count_freed-Counted s.freed page) none_yet)
  | inr (es, found) ↦ rw (found, free_page_of) refl
]
  where
    has_entry : {o : Option (List FreedEntry)} → Counted s.freed page o → o ≡ none → ⊥
    has_entry (missing e) same = cc
    has_entry (counted e keeps) same = cc

-- The calls of a client, in any order.
pub data Call : Type 0 where
  allocs : Call
  allocs_near : ℕ → Call
  frees : Option ℕ → Call

pub step : Pmm → Call → Pmm
step s allocs = (alloc_page s).1
step s (allocs_near node) = (alloc_page_near s node).1
step s (frees page) = pmm_free_page s page

pub run : Pmm → List Call → Pmm
unfolding step
run s [] = s
run s (call ∷ calls) = run (step s call) calls

step-tracked :
    (s : Pmm) (call : Call) (q : ℕ)
    → tracked s.freed q ≡ true
    → tracked (step s call).freed q ≡ true
unfolding step alloc_page alloc_page_near pmm_free_page
step-tracked s allocs q h = ground arith
step-tracked s (allocs_near node) q h = ground arith
step-tracked s (frees none) q h = h
step-tracked s (frees (some page)) q h = free_page_of-tracked s page q h

run-tracked :
    (s : Pmm) (calls : List Call) (q : ℕ)
    → tracked s.freed q ≡ true
    → tracked (run s calls).freed q ≡ true
unfolding run
run-tracked s [] q h = h
run-tracked s (call ∷ calls) q h = run-tracked (step s call) calls q (step-tracked s call q h)

-- Once a page has been freed while the table of freed pages had room, `pmm_free_page` of that page
-- gives no page back to any node ever again, whatever is allocated and freed in between: also where
-- the page has been allocated again since.
pub free-free :
    (s : Pmm) (page : ℕ) (calls : List Call)
    → length s.freed < max_freed_track
    → let t = run (pmm_free_page s (some page)) calls in
      (pmm_free_page t (some page)).nodes ≡ t.nodes
unfolding pmm_free_page
free-free s page calls room =
    free_page_of-refuses (run (free_page_of s page) calls) page
      (run-tracked (free_page_of s page) calls page (free_page_of-tracks s page room))
