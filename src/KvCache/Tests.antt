-- ===== src/KvCache/Tests.antt =====
-- A cache of two blocks that has just been initialised.
use osai.Prelude.{◌≢◌, refl, arith, true, none, [], ◌∷◌, update}
use osai.KvCache.{Cache}
use osai.KvCache.Append.{append_tokens, append_tokens-ne-none}
use osai.KvCache.Init.{init, all_allocated, header, filled, fresh_block}
use osai.KvCache.Reach.{creates, appends, run, Ends, run-init-HasNoBlocks}

-- Memory that has been zeroed.
abbrev zeroed : Cache
zeroed = record {
  cache_id = 0;
  num_blocks_total = 0;
  num_blocks_free = 0;
  block_size = 0;
  head_dim = 0;
  num_heads = 0;
  bytes_per_block = 0;
  blocks = λ i. fresh_block 0;
  free_block_count = 0;
  free_block_indices = λ i. 0;
  sequences = λ i. record {
    seq_id = 0;
    num_blocks = 0;
    block_indices = λ j. 0;
    total_tokens = 0;
    head_dim = 0;
    num_heads = 0;
    kv_bytes_allocated = 0;
  };
  num_sequences = 0;
  allocation_count = 0;
  eviction_count = 0;
  hit_count = 0;
  miss_count = 0;
}

abbrev two_blocks : Cache
two_blocks = filled (header zeroed 1 2 64 8 16)

-- Its first block holds three tokens of sequence 0.
abbrev with_tokens : Cache
with_tokens = record two_blocks {
  blocks = update two_blocks.blocks 0 (record (fresh_block 0) { ref_count = 1; token_count = 3 });
  free_block_count = 1;
  free_block_indices = λ i. 1;
  sequences =
      update two_blocks.sequences 0
        (record (two_blocks.sequences 0) { num_blocks = 1; total_tokens = 3 });
}

-- Forty tokens fill the rest of it and the second, and find no third.
append_tokens-ne-none_example : append_tokens with_tokens 0 (λ i. i) (λ i. i) 40 ≢ none
append_tokens-ne-none_example =
    append_tokens-ne-none with_tokens 0 40 (λ i. i) (λ i. i) (omega arith)

run-init-HasNoBlocks_example : Ends (run two_blocks (creates ∷ appends 0 (λ i. i) (λ i. i) 4 ∷ []))
unfolding init all_allocated
run-init-HasNoBlocks_example =
    run-init-HasNoBlocks zeroed 1 2 64 8 16 true (λ i. true) {c' = two_blocks}
      (creates ∷ appends 0 (λ i. i) (λ i. i) 4 ∷ []) refl
