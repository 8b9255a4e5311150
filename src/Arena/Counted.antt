-- ===== src/Arena/Counted.antt =====
-- kernel/mm/arena.c: the two counters over any calls.
use osai.Prelude.{
  Status, ℕ, zero, suc, ◌+◌, ◌-◌, ◌%◌, ◌^◌, ◌≤◌, ◌<◌, ◌≡◌, ◌≢◌, refl, sym, ap, ◌∙◌, arith, Bool,
  true, false, not, ◌||◌, ◌==◌, List, [], length, update, update-ne, update_self, if◌then◌else◌,
  add32, add64, sub64, leb, Bool-cases, inl, inr,
}
use osai.Prelude.Status.{ok}
use osai.Arena.{
  max_arenas, is_ready, ready, empty, Arena, Memory, Arenas, unmap_loop, arena_unmap_pages,
  settle_create, arena_acquire, arena_release, arena_destroy, arena_record_fault, destroyed_arena,
}
use osai.Arena.Loops.{unmap_loop-committed, Filled}

-- The pages and the one unit that an arena counts for.
abbrev pub pages_of : Arena → ℕ
pages_of a = if is_ready a.state then a.page_count else 0

abbrev pub unit_of : Arena → ℕ
unit_of a = if is_ready a.state then 1 else 0

-- A sum over the first arenas.
unfoldable pub total : (Arena → ℕ) → (ℕ → Arena) → ℕ → ℕ
total f arenas zero = 0
total f arenas (suc n) = f (arenas n) + total f arenas n

module _ (f : Arena → ℕ) (arenas : ℕ → Arena) (id : ℕ) (a : Arena) where
  total-update_above : (n : ℕ) → n ≤ id → total f (update arenas id a) n ≡ total f arenas n
  unfolding total
  total-update_above zero h = refl
  total-update_above (suc n) h =
      let same : f (update arenas id a n) ≡ f (arenas n) =
        ap f (update-ne arenas id n a (λ e. absurd (omega arith))) in
      omega (arith, same, total-update_above n (omega (arith, h)))

  total-update :
      (n : ℕ) → id < n → total f (update arenas id a) n + f (arenas id) ≡ total f arenas n + f a
  unfolding total
  total-update zero h = absurd (omega arith)
  total-update (suc n) h = elim (Bool-cases (id == n)) [
    | inl last ↦
        let at : id ≡ n = ground arith in
        let new : f (update arenas id a n) ≡ f a =
          ap f (ap (update arenas id a) (sym at) ∙ update_self arenas id a) in
        let old : f (arenas id) ≡ f (arenas n) = ap (λ i. f (arenas i)) at in
        omega (arith, new, old, total-update_above n (omega (arith, at)))
    | inr other ↦
        let apart : id ≢ n = λ e. ground arith in
        let same : f (update arenas id a n) ≡ f (arenas n) = ap f (update-ne arenas id n a apart) in
        omega (arith, same, total-update n (ground (arith, other)))
  ]

-- A ready arena has all its pages.
abbrev pub Sized : Arena → Type 0
Sized a = is_ready a.state ≡ true → length a.pages ≡ a.page_count

if-Sized : (b : Bool) (x y : Arena) → Sized x → Sized y → Sized (if b then x else y)
if-Sized true x y p q = p
if-Sized false x y p q = q

-- The counters agree with the arenas that are ready, modulo 2^64, and these have all their pages.
pub record Counts (s : Arenas) : Type 0 where
  pub committed : s.memory.committed % 2 ^ 64 ≡ total pages_of s.arenas max_arenas % 2 ^ 64
  pub active : s.active_count % 2 ^ 64 ≡ total unit_of s.arenas max_arenas % 2 ^ 64
  pub sized :
      (i : ℕ)
      → is_ready (s.arenas i).state ≡ true
      → length (s.arenas i).pages ≡ (s.arenas i).page_count

-- A counter and a sum that change by the same amount.
sums :
    (new old f g t t' : ℕ)
    → (new + f) % 2 ^ 64 ≡ (old + g) % 2 ^ 64
    → old % 2 ^ 64 ≡ t % 2 ^ 64
    → t' + f ≡ t + g
    → new % 2 ^ 64 ≡ t' % 2 ^ 64
sums new old f g t t' p q r = omega (arith, p, q, r)

-- A change of one arena that the counters follow.
placed-Counts :
    (s : Arenas) (id count : ℕ) (a : Arena) (m : Memory)
    → Counts s
    → id < max_arenas
    → (m.committed + pages_of (s.arenas id)) % 2 ^ 64 ≡ (s.memory.committed + pages_of a) % 2 ^ 64
    → (count + unit_of (s.arenas id)) % 2 ^ 64 ≡ (s.active_count + unit_of a) % 2 ^ 64
    → (is_ready a.state ≡ true → length a.pages ≡ a.page_count)
    → Counts (record { arenas = update s.arenas id a; active_count = count; memory = m })
placed-Counts s id count a m c low pages units sized = record {
  committed =
      sums m.committed s.memory.committed (pages_of (s.arenas id)) (pages_of a)
        (total pages_of s.arenas max_arenas) _ pages c.committed
        (total-update pages_of s.arenas id a max_arenas low);
  active =
      sums count s.active_count (unit_of (s.arenas id)) (unit_of a)
        (total unit_of s.arenas max_arenas) _ units c.active
        (total-update unit_of s.arenas id a max_arenas low);
  sized = λ i. if-Sized (id == i) a (s.arenas i) sized (c.sized i);
}

-- An arena whose pages and state stay.
same-Counts :
    (s : Arenas) (id : ℕ) (a : Arena)
    → Counts s
    → id < max_arenas
    → a.state ≡ (s.arenas id).state
    → a.page_count ≡ (s.arenas id).page_count
    → a.pages ≡ (s.arenas id).pages
    → Counts (record s { arenas = update s.arenas id a })
same-Counts s id a c low state count pages =
    placed-Counts s id s.active_count a s.memory c low (ground arith) (ground arith)
      (λ e. ground (arith, c.sized id))

pub arena_acquire-Counts : (id : ℕ) (s : Arenas) → Counts s → Counts (arena_acquire id s).1
unfolding arena_acquire
arena_acquire-Counts id s c =
    elim (Bool-cases (leb max_arenas id || not (is_ready (s.arenas id).state))) [
      | inl refused ↦ rw refused c
      | inr fine ↦ rw fine (
          same-Counts s id (record (s.arenas id) { ref_count = add32 (s.arenas id).ref_count 1 }) c
            (ground arith) refl refl refl)
    ]

pub arena_record_fault-Counts :
    (id : ℕ) (s : Arenas) → Counts s → Counts (arena_record_fault id s).1
unfolding arena_record_fault
arena_record_fault-Counts id s c =
    elim (Bool-cases (leb max_arenas id || not (is_ready (s.arenas id).state))) [
      | inl refused ↦ rw refused c
      | inr fine ↦ rw fine (
          same-Counts s id
            (record (s.arenas id) { fault_count = add64 (s.arenas id).fault_count 1 }) c
            (ground arith) refl refl refl)
    ]

pub arena_release-Counts : (id : ℕ) (s : Arenas) → Counts s → Counts (arena_release id s).1
unfolding arena_release
arena_release-Counts id s c =
    elim (Bool-cases
      (leb max_arenas id || not (is_ready (s.arenas id).state) || (s.arenas id).ref_count == 0)) [
        | inl refused ↦ rw refused c
        | inr fine ↦ rw fine (
            same-Counts s id (record (s.arenas id) { ref_count = (s.arenas id).ref_count - 1 }) c
              (ground arith) refl refl refl)
      ]

pub arena_destroy-Counts : (id : ℕ) (s : Arenas) → Counts s → Counts (arena_destroy id s).1
unfolding arena_destroy arena_unmap_pages
arena_destroy-Counts id s c =
    elim (Bool-cases (
      leb max_arenas id
      || not (is_ready (s.arenas id).state)
      || not ((s.arenas id).ref_count == 0))) [
        | inl refused ↦ rw refused c
        | inr fine ↦
            let a = s.arenas id in
            let is_on : is_ready a.state ≡ true = ground arith in
            let all = c.sized id is_on in
            let freed =
              unmap_loop-committed a.page_count a.base a.pages s.memory (omega (arith, all)) in
            rw fine (
              placed-Counts s id (sub64 s.active_count 1) (destroyed_arena a)
                (unmap_loop a.page_count a.base a.pages s.memory) c (ground arith)
                (rw is_on (omega (arith, freed, all))) (rw is_on (omega arith)) (λ e. absurd cc))
      ]

pub settle_create-Counts :
    (id : ℕ) (a : Arena) (s : Arenas) (m : Memory) (out : Status × List ℕ × Memory)
    → Counts s
    → id < max_arenas
    → is_ready (s.arenas id).state ≡ false
    → m.committed ≡ s.memory.committed
    → Filled a.page_count [] m out
    → Counts (settle_create id a s out).1
unfolding settle_create arena_unmap_pages
settle_create-Counts id a s m (ok, pages, m') c low off same k =
    placed-Counts s id (add64 s.active_count 1) (record a { state = ready; pages = pages }) m' c low
      (rw off (omega (arith, k.counted, k.full refl, same))) (rw off (omega arith))
      (λ e. omega (arith, k.full refl))
settle_create-Counts id a s m (_, pages, m') c low off same k =
    let freed = unmap_loop-committed a.page_count a.base pages m' (omega (arith, k.most)) in
    placed-Counts s id s.active_count (record a { state = empty; pages = [] })
      (unmap_loop a.page_count a.base pages m') c low
      (rw off (omega (arith, k.counted, freed, same))) (rw off refl) (λ e. absurd cc)
