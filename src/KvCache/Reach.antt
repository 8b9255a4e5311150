-- ===== src/KvCache/Reach.antt =====
-- Which caches the operations of paged_kv_cache.c reach after an initialisation: a sequence gets its
-- first block from an append only, and an append finds only sequences that have a block.
use osai.Prelude.{
  ℕ, zero, suc, ◌+◌, ◌<◌, ◌≡◌, refl, arith, Bool, Option, none, some, List, [], ◌∷◌, ok, invalid,
}
use osai.KvCache.{
  Sequence, Cache, max_sequences, find_from, find_sequence, empty_from, create_sequence,
  destroy_sequence, get_block_table, get_token_count, open_sequence,
}
use osai.KvCache.Append.{append_tokens}
use osai.KvCache.Init.{init}

-- No sequence has a block.
pub record HasNoBlocks (c : Cache) : Type 0 where
  pub none_of : (i : ℕ) → i < max_sequences → (c.sequences i).num_blocks ≡ 0

find_from-none :
    (n i id : ℕ) (seqs : ℕ → Sequence)
    → ((j : ℕ) → j < i + n → (seqs j).num_blocks ≡ 0)
    → find_from n i seqs id ≡ none
unfolding find_from
find_from-none zero i id seqs h = refl
find_from-none (suc n) i id seqs h =
    ground
      (arith, h i (omega arith), find_from-none n (i + 1) id seqs (λ j below. h j (omega arith)))

find_sequence-none : (c : Cache) (id : ℕ) → HasNoBlocks c → find_sequence c id ≡ none
unfolding find_sequence
find_sequence-none c id h =
    find_from-none max_sequences 0 id c.sequences (λ j below. h.none_of j (omega arith))

-- On a cache in which no sequence has a block, every operation that takes a sequence id fails:
-- append and destroy report INVALID and change nothing, there is no block table, and the token
-- count reads 0.
pub ids_refused :
    (c : Cache) (id n : ℕ) (keys values : ℕ → ℕ)
    → HasNoBlocks c
    → (append_tokens c id keys values n ≡ some (invalid, c))
      × (destroy_sequence c id ≡ (invalid, c))
      × (get_block_table c id ≡ (invalid, none))
      × (get_token_count c id ≡ 0)
unfolding append_tokens destroy_sequence get_block_table get_token_count
ids_refused c id n keys values h =
    let missing = find_sequence-none c id h in
    (
      rw (missing, append_tokens),
      rw (missing, destroy_sequence),
      rw (missing, get_block_table),
      rw (missing, get_token_count),
    )

-- `create_sequence` hands out sequence 0 on such a cache, and leaves one.
create_sequence-first :
    (c : Cache) → HasNoBlocks c → create_sequence c ≡ (ok, some 0, open_sequence c 0)
unfolding create_sequence empty_from
create_sequence-first c h = ground (arith, h.none_of 0 (omega arith))

open_sequence-HasNoBlocks : (c : Cache) → HasNoBlocks c → HasNoBlocks (open_sequence c 0)
open_sequence-HasNoBlocks c h = record { none_of = λ i below. ground (arith, h.none_of i below) }

-- The calls of a client.
pub data Call : Type 0 where
  creates : Call
  appends : ℕ → (ℕ → ℕ) → (ℕ → ℕ) → ℕ → Call
  destroys : ℕ → Call

-- `none`: an append ran out of fuel.
pub step : Cache → Call → Option Cache
step c creates = some (create_sequence c).2
step c (appends id keys values n) = elim (append_tokens c id keys values n) [
  | none ↦ none
  | some (status, c') ↦ some c'
]
step c (destroys id) = some (destroy_sequence c id).1

pub run : Cache → List Call → Option Cache
unfolding step
run c [] = some c
run c (call ∷ calls) = elim (step c call) [ none ↦ none | some c' ↦ run c' calls ]

abbrev pub Ends : Option Cache → Type 0
Ends none = ⊥
Ends (some c) = HasNoBlocks c

run-HasNoBlocks : (c : Cache) (calls : List Call) → HasNoBlocks c → Ends (run c calls)
unfolding run step
run-HasNoBlocks c [] h = h
run-HasNoBlocks c (creates ∷ calls) h =
    rw (create_sequence-first c h)
      (run-HasNoBlocks (open_sequence c 0) calls (open_sequence-HasNoBlocks c h))
run-HasNoBlocks c (appends id keys values n ∷ calls) h =
    rw ((ids_refused c id n keys values h).0, Ends, run, step) (run-HasNoBlocks c calls h)
run-HasNoBlocks c (destroys id ∷ calls) h =
    rw ((ids_refused c id 0 (λ _. 0) (λ _. 0) h).1, Ends, run, step) (run-HasNoBlocks c calls h)

init-HasNoBlocks :
    (c : Cache) (id blocks dim heads size : ℕ) (array : Bool) (got : ℕ → Bool) {c' : Cache}
    → init c id blocks dim heads size array got ≡ some (ok, c')
    → HasNoBlocks c'
unfolding init
init-HasNoBlocks c id blocks dim heads size array got h = record {
  none_of = λ i below. ground arith;
}

-- After a successful initialisation, whatever sequences are created, appended to and destroyed,
-- every run ends and no sequence ever holds a block.
pub run-init-HasNoBlocks :
    (c : Cache) (id blocks dim heads size : ℕ) (array : Bool) (got : ℕ → Bool) {c' : Cache}
    (calls : List Call)
    → init c id blocks dim heads size array got ≡ some (ok, c')
    → Ends (run c' calls)
run-init-HasNoBlocks c id blocks dim heads size array got {c'} calls h =
    run-HasNoBlocks c' calls (init-HasNoBlocks c id blocks dim heads size array got h)
