-- ===== src/KvCache/Append.antt =====
-- `paged_kv_cache_append_tokens`: its loop, on fuel, and that enough fuel gives a result.
use osai.Prelude.{
  ℕ, zero, suc, ◌+◌, ◌-◌, ◌^◌, ◌<◌, ◌≡◌, ◌≢◌, refl, arith, ◌&&◌, Option, none, some, ltb, leb, ◌==◌,
  if◌then◌else◌, update, add32, sub32, add64, mul64, Status, ok, invalid, no_memory, Bool-cases,
  Option-cases, inl, inr,
}
use osai.KvCache.{Cache, max_blocks_per_seq, uint32_max, find_sequence, allocate_block, free_block}

-- `current_block_idx`, and `tokens_in_current_block`.
abbrev pub current_block : Cache → ℕ → ℕ
current_block c slot =
    let s = c.sequences slot in
    if ltb 0 s.num_blocks then s.block_indices (s.num_blocks - 1) else uint32_max

abbrev pub tokens_in_current : Cache → ℕ → ℕ
tokens_in_current c slot =
    let idx = current_block c slot in
    if idx == uint32_max then c.block_size else (c.blocks idx).token_count

-- A block that was allocated becomes the last one of the sequence.
abbrev pub attach_block : Cache → ℕ → ℕ → Cache
attach_block c slot idx =
    let s = c.sequences slot in
    record c {
      sequences = update c.sequences slot (record s {
        block_indices = update s.block_indices s.num_blocks idx;
        num_blocks = add32 s.num_blocks 1;
      });
      blocks = update c.blocks idx (record (c.blocks idx) { token_count = 0 });
    }

-- "Allocate new block if current is full": the block to copy to, `none` for ERR_NO_MEMORY.
pub open_block : Cache → ℕ → Option ℕ × Cache
open_block c slot =
    if leb c.block_size (tokens_in_current c slot)
    then (let (found, c') = allocate_block c in
        elim found [
          | none ↦ (none, c')
          | some idx ↦
              if leb max_blocks_per_seq (c'.sequences slot).num_blocks
              then (none, free_block c' idx)
              else (some idx, attach_block c' slot idx)
        ])
    else (some (current_block c slot), c)

-- `bytes_per_token`, and the bytes of `copy` tokens put at `at` in a block's memory.
abbrev pub bytes_per_token : Cache → ℕ
bytes_per_token c = mul64 c.head_dim 4

abbrev pub copy_bytes : (ℕ → ℕ) → ℕ → (ℕ → ℕ) → ℕ → ℕ → ℕ → ℕ
copy_bytes dest at source from n i =
    if leb at i && ltb i (at + n) then source (from + (i - at)) else dest i

-- `tokens_to_copy`
abbrev pub copy_count : Cache → ℕ → ℕ → ℕ
copy_count c idx remaining =
    let space = sub32 c.block_size (c.blocks idx).token_count in
    if ltb remaining space then remaining else space

-- "Copy tokens into current block"; `from` is `key_offset`, which equals `value_offset`.
pub copy_tokens : Cache → ℕ → ℕ → ℕ → ℕ → (ℕ → ℕ) → (ℕ → ℕ) → Cache
copy_tokens c slot idx n from keys values =
    let b = c.blocks idx in
    let s = c.sequences slot in
    let at = mul64 b.token_count (bytes_per_token c) in
    let size = mul64 n (bytes_per_token c) in
    record c {
      blocks = update c.blocks idx (record b {
        key_cache = copy_bytes b.key_cache at keys from size;
        value_cache = copy_bytes b.value_cache at values from size;
        token_count = add32 b.token_count n;
      });
      sequences = update c.sequences slot (record s { total_tokens = add32 s.total_tokens n });
    }

-- `while (tokens_remaining > 0)`: `none` means that the fuel ran out.
pub append_loop : ℕ → Cache → ℕ → ℕ → ℕ → (ℕ → ℕ) → (ℕ → ℕ) → Option (Status × Cache)
append_loop zero c slot remaining from keys values = none
append_loop (suc fuel) c slot remaining from keys values =
    let (found, c₁) = open_block c slot in
    let after : Option (Status × Cache) = elim found [
      | none ↦ some (no_memory, c₁)
      | some idx ↦
          let n = copy_count c₁ idx remaining in
          append_loop fuel (copy_tokens c₁ slot idx n from keys values) slot (remaining - n)
            (add64 from (mul64 n (bytes_per_token c₁))) keys values
    ] in
    if remaining == 0 then some (ok, c) else after

-- What is set after the loop.
abbrev pub count_bytes : Cache → ℕ → Cache
count_bytes c slot =
    let s = c.sequences slot in
    record c {
      sequences =
          update c.sequences slot
            (record s { kv_bytes_allocated = mul64 s.num_blocks c.bytes_per_block });
    }

abbrev pub finish : ℕ → Status × Cache → Status × Cache
finish slot (ok, c) = (ok, count_bytes c slot)
finish slot (s, c) = (s, c)

-- `paged_kv_cache_append_tokens`; the fuel is one round for each token and for each free block.
unfoldable pub append_tokens : Cache → ℕ → (ℕ → ℕ) → (ℕ → ℕ) → ℕ → Option (Status × Cache)
append_tokens c id keys values num_tokens = elim (find_sequence c id) [
  | none ↦ some (invalid, c)
  | some slot ↦
      elim (append_loop (num_tokens + c.free_block_count + 1) c slot num_tokens 0 keys values) [
        | none ↦ none
        | some out ↦ some (finish slot out)
      ]
]

-- A round with tokens left copies at least one of them, or takes a block from the free list.
open_block-progress :
    (c : Cache) (slot remaining idx : ℕ)
    → c.block_size < 2 ^ 32
    → remaining ≢ 0
    → (open_block c slot).0 ≡ some idx
    → let c₁ = (open_block c slot).1 in
      (remaining - copy_count c₁ idx remaining + c₁.free_block_count
        < remaining + c.free_block_count)
      × (c₁.block_size ≡ c.block_size)
unfolding open_block allocate_block
open_block-progress c slot remaining idx range more opened = ground arith

copy_tokens-keeps :
    (c : Cache) (slot idx n from : ℕ) (keys values : ℕ → ℕ)
    → ((copy_tokens c slot idx n from keys values).free_block_count ≡ c.free_block_count)
      × ((copy_tokens c slot idx n from keys values).block_size ≡ c.block_size)
unfolding copy_tokens
copy_tokens-keeps c slot idx n from keys values = (refl, refl)

-- With fuel for a round for each token and each free block, the loop returns.
pub append_loop-ne-none :
    (fuel : ℕ) (c : Cache) (slot remaining from : ℕ) (keys values : ℕ → ℕ)
    → c.block_size < 2 ^ 32
    → remaining + c.free_block_count < fuel
    → append_loop fuel c slot remaining from keys values ≢ none
unfolding append_loop
append_loop-ne-none zero c slot remaining from keys values range enough = absurd (omega arith)
append_loop-ne-none (suc fuel) c slot remaining from keys values range enough =
    elim (Bool-cases (remaining == 0)) [
      | inl done ↦ rw done (λ h. cc)
      | inr more ↦ rw more (elim (Option-cases (open_block c slot).0) [
        | inl failed ↦ rw failed (λ h. cc)
        | inr (idx, opened) ↦
            let c₁ = (open_block c slot).1 in
            let n = copy_count c₁ idx remaining in
            let next = copy_tokens c₁ slot idx n from keys values in
            let p = open_block-progress c slot remaining idx range (ground arith) opened in
            let keeps = copy_tokens-keeps c₁ slot idx n from keys values in
            rw opened (
              append_loop-ne-none fuel next slot (remaining - n)
                (add64 from (mul64 n (bytes_per_token c₁))) keys values
                (omega (arith, p.1, keeps.1)) (omega (arith, p.0, keeps.0)))
      ])
    ]

-- `paged_kv_cache_append_tokens` always returns: on a cache whose block size is a 32-bit number its
-- loop ends within one round for each token and each free block.
pub append_tokens-ne-none :
    (c : Cache) (id n : ℕ) (keys values : ℕ → ℕ)
    → c.block_size < 2 ^ 32
    → append_tokens c id keys values n ≢ none
unfolding append_tokens
append_tokens-ne-none c id n keys values range = elim (Option-cases (find_sequence c id)) [
  | inl missing ↦ rw (missing, append_tokens) (λ h. cc)
  | inr (slot, found) ↦
      rw (found, append_tokens)
        (λ h.
          append_loop-ne-none (n + c.free_block_count + 1) c slot n 0 keys values range
            (omega arith) (ground arith))
]
