-- ===== src/KvCache.antt =====
-- kernel/runtime/paged_kv_cache.c: fixed-size blocks of an attention cache, a stack of free block
-- indices, and sequences that map their tokens to blocks. Arrays are functions of the index; the
-- results of `kheap_alloc` are arguments of `init`.
pub mod Append
pub mod Init
pub mod Reach
mod Tests
use osai.Prelude.{
  ℕ, zero, suc, ◌+◌, ◌-◌, ◌*◌, ◌/◌, ◌%◌, ◌^◌, Bool, true, false, ◌&&◌, Option, none, some, ltb, leb,
  ◌==◌, if◌then◌else◌, update, add32, sub32, add64, mul64, Status, ok, invalid, no_memory,
}

-- `xaios_kv_block_t`
pub record Block : Type 0 where
  pub block_id : ℕ
  pub key_cache : ℕ → ℕ
  pub value_cache : ℕ → ℕ
  pub ref_count : ℕ
  pub token_count : ℕ

-- `xaios_kv_sequence_t`
pub record Sequence : Type 0 where
  pub seq_id : ℕ
  pub num_blocks : ℕ
  pub block_indices : ℕ → ℕ
  pub total_tokens : ℕ
  pub head_dim : ℕ
  pub num_heads : ℕ
  pub kv_bytes_allocated : ℕ

-- `xaios_paged_kv_cache_t`
pub record Cache : Type 0 where
  pub cache_id : ℕ
  pub num_blocks_total : ℕ
  pub num_blocks_free : ℕ
  pub block_size : ℕ
  pub head_dim : ℕ
  pub num_heads : ℕ
  pub bytes_per_block : ℕ
  pub blocks : ℕ → Block
  pub free_block_count : ℕ
  pub free_block_indices : ℕ → ℕ
  pub sequences : ℕ → Sequence
  pub num_sequences : ℕ
  pub allocation_count : ℕ
  pub eviction_count : ℕ
  pub hit_count : ℕ
  pub miss_count : ℕ

-- XAIOS_KV_MAX_SEQUENCES, XAIOS_KV_MAX_BLOCKS_PER_SEQ and UINT32_MAX
abbrev pub max_sequences : ℕ
max_sequences = 64

abbrev pub max_blocks_per_seq : ℕ
max_blocks_per_seq = 8192

abbrev pub uint32_max : ℕ
uint32_max = 0xffff_ffff

-- `find_sequence` from entry `i`, with `n` entries left.
pub find_from : ℕ → ℕ → (ℕ → Sequence) → ℕ → Option ℕ
find_from zero i seqs id = none
find_from (suc n) i seqs id =
    let rest = find_from n (i + 1) seqs id in
    if (seqs i).seq_id == id && ltb 0 (seqs i).num_blocks then some i else rest

pub find_sequence : Cache → ℕ → Option ℕ
unfolding find_from
find_sequence c id = find_from max_sequences 0 c.sequences id

-- `allocate_block`; `none` is UINT32_MAX.
pub allocate_block : Cache → Option ℕ × Cache
allocate_block c =
    let idx = c.free_block_indices (c.free_block_count - 1) in
    if c.free_block_count == 0 then (none, c) else (
      some idx,
      record c {
        free_block_count = c.free_block_count - 1;
        blocks = update c.blocks idx (record (c.blocks idx) { ref_count = 1 });
        allocation_count = add64 c.allocation_count 1;
      },
    )

-- `free_block`
pub free_block : Cache → ℕ → Cache
free_block c idx = record c {
  blocks = update c.blocks idx (record (c.blocks idx) { ref_count = 0; token_count = 0 });
  free_block_indices = update c.free_block_indices c.free_block_count idx;
  free_block_count = add32 c.free_block_count 1;
}

-- The scan of `paged_kv_cache_create_sequence` for an empty slot.
pub empty_from : ℕ → ℕ → (ℕ → Sequence) → Option ℕ
empty_from zero i seqs = none
empty_from (suc n) i seqs =
    let rest = empty_from n (i + 1) seqs in if (seqs i).num_blocks == 0 then some i else rest

abbrev pub open_sequence : Cache → ℕ → Cache
open_sequence c slot = record c {
  sequences = update c.sequences slot (record (c.sequences slot) {
    seq_id = slot;
    num_blocks = 0;
    total_tokens = 0;
    kv_bytes_allocated = 0;
  });
  num_sequences = add32 c.num_sequences 1;
}

-- `paged_kv_cache_create_sequence`: the status, `*seq_id_out`, and the cache.
pub create_sequence : Cache → Status × Option ℕ × Cache
unfolding empty_from
create_sequence c = elim (empty_from max_sequences 0 c.sequences) [
  | none ↦ (no_memory, none, c)
  | some slot ↦ (ok, some slot, open_sequence c slot)
]

-- One round of the loop of `paged_kv_cache_destroy_sequence`.
pub drop_ref : Cache → ℕ → Cache
unfolding free_block
drop_ref c idx =
    let b = c.blocks idx in
    let c' = record c {
      blocks = update c.blocks idx (record b { ref_count = sub32 b.ref_count 1 });
    } in
    if sub32 b.ref_count 1 == 0 then free_block c' idx else c'

pub drop_refs : ℕ → ℕ → Sequence → Cache → Cache
unfolding drop_ref
drop_refs zero i s c = c
drop_refs (suc n) i s c = drop_refs n (i + 1) s (drop_ref c (s.block_indices i))

abbrev pub close_sequence : Cache → ℕ → Cache
close_sequence c slot = record c {
  sequences =
      update c.sequences slot
        (record (c.sequences slot) { num_blocks = 0; total_tokens = 0; kv_bytes_allocated = 0 });
  num_sequences = sub32 c.num_sequences 1;
  eviction_count = add64 c.eviction_count 1;
}

-- `paged_kv_cache_destroy_sequence`
pub destroy_sequence : Cache → ℕ → Status × Cache
unfolding find_sequence drop_refs
destroy_sequence c id = elim (find_sequence c id) [
  | none ↦ (invalid, c)
  | some slot ↦ let s = c.sequences slot in (ok, close_sequence (drop_refs s.num_blocks 0 s c) slot)
]

-- `paged_kv_cache_get_block_table`: the status, the table and its length.
pub get_block_table : Cache → ℕ → Status × Option ((ℕ → ℕ) × ℕ)
unfolding find_sequence
get_block_table c id = elim (find_sequence c id) [
  | none ↦ (invalid, none)
  | some slot ↦ (ok, some ((c.sequences slot).block_indices, (c.sequences slot).num_blocks))
]

-- `paged_kv_cache_get_token_count`
pub get_token_count : Cache → ℕ → ℕ
unfolding find_sequence
get_token_count c id = elim (find_sequence c id) [
  | none ↦ 0
  | some slot ↦ (c.sequences slot).total_tokens
]
