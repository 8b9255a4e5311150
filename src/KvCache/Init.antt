-- ===== src/KvCache/Init.antt =====
-- `paged_kv_cache_init` and `paged_kv_cache_destroy`.
use osai.Prelude.{
  ℕ, zero, suc, ◌+◌, ◌*◌, ◌/◌, Bool, true, false, ◌&&◌, ◌||◌, not, Option, none, some, ltb, ◌==◌,
  if◌then◌else◌, add64, mul64, Status, ok, no_memory,
}
use osai.KvCache.{Block, Cache, max_sequences, max_blocks_per_seq}

-- The header fields, set before anything is allocated.
abbrev pub header : Cache → ℕ → ℕ → ℕ → ℕ → ℕ → Cache
header c cache_id num_blocks head_dim num_heads block_size = record c {
  cache_id = cache_id;
  num_blocks_total = num_blocks;
  num_blocks_free = num_blocks;
  block_size = block_size;
  head_dim = head_dim;
  num_heads = num_heads;
  bytes_per_block = add64 (mul64 (mul64 (mul64 2 head_dim) block_size) 4) 4095 / 4096 * 4096;
}

-- A block whose two halves have been allocated and cleared.
abbrev pub fresh_block : ℕ → Block
fresh_block i = record {
  block_id = i;
  key_cache = λ _. 0;
  value_cache = λ _. 0;
  ref_count = 0;
  token_count = 0;
}

-- Whether the two allocations succeed for each of the blocks from `i` on.
unfoldable pub all_allocated : ℕ → ℕ → (ℕ → Bool) → Bool
all_allocated zero i got = true
all_allocated (suc n) i got = if got i then all_allocated n (i + 1) got else false

-- What is set once all memory has been allocated.
abbrev pub filled : Cache → Cache
filled c = record c {
  blocks = λ i. if ltb i c.num_blocks_total then fresh_block i else c.blocks i;
  free_block_count = c.num_blocks_total;
  free_block_indices = λ i. if ltb i c.num_blocks_total then i else c.free_block_indices i;
  num_sequences = 0;
  sequences = λ i.
      if ltb i max_sequences
      then record (c.sequences i) {
        seq_id = i;
        num_blocks = 0;
        total_tokens = 0;
        head_dim = c.head_dim;
        num_heads = c.num_heads;
        kv_bytes_allocated = 0;
      }
      else c.sequences i;
  allocation_count = 0;
  eviction_count = 0;
  hit_count = 0;
  miss_count = 0;
}

-- `paged_kv_cache_init`: `none` is a failed `kassert`, or a write past the 8192 entries of
-- `free_block_indices`, which the code does not prevent. The results of `kheap_alloc` come in: for the
-- block array, and for the two halves of each block. Of a cache whose initialisation fails only the
-- header fields are modelled, not the half-filled block array.
unfoldable pub init :
    Cache → ℕ → ℕ → ℕ → ℕ → ℕ → (array_allocated : Bool) → (ℕ → Bool) → Option (Status × Cache)
unfolding all_allocated
init c cache_id num_blocks head_dim num_heads block_size array_allocated got =
    let h = header c cache_id num_blocks head_dim num_heads block_size in
    if num_blocks == 0 || head_dim == 0
    then none
    else if not (array_allocated && all_allocated num_blocks 0 got)
    then some (no_memory, h)
    else if ltb max_blocks_per_seq num_blocks
    then none
    else some (ok, filled h)

-- `paged_kv_cache_destroy`
pub destroy : Cache → Cache
destroy c = record c {
  sequences = λ i.
      if ltb i c.num_sequences
      then record (c.sequences i) { num_blocks = 0; total_tokens = 0 }
      else c.sequences i;
  num_sequences = 0;
  free_block_count = c.num_blocks_total;
  free_block_indices = λ i. if ltb i c.num_blocks_total then i else c.free_block_indices i;
  blocks = λ i.
      if ltb i c.num_blocks_total
      then record (c.blocks i) { ref_count = 0; token_count = 0 }
      else c.blocks i;
}
