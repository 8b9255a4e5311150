-- ===== src/Sha256.antt =====
-- kernel/runtime/sha256.c and kernel/include/xaios/sha256.h: the streaming hash. Words are 32-bit
-- numbers, bytes are numbers, and `data` with its length is a list of bytes; pointers are taken not
-- to be null.
pub mod Compress
pub mod Stream
pub mod Absorb
pub mod Digest
mod Tests
use osai.Prelude.{
  ℕ, zero, suc, ◌+◌, ◌-◌, ◌*◌, ◌/◌, ◌%◌, ◌^◌, Bool, true, false, Option, none, some, List, [], ◌∷◌,
  ◌++◌, map, length, take, drop, ltb, ◌==◌, if◌then◌else◌, add64, mul64, update,
}
use osai.Sha256.Compress.{Hash, sha256_compress, initial_hash, store_be32}

-- `xaios_sha256_ctx_t`.
pub record Context : Type 0 where
  pub state : Hash
  pub bit_count : ℕ
  pub buffer : ℕ → ℕ
  pub buffer_len : ℕ

-- `xaios_sha256_init`.
abbrev pub sha256_init : Context
sha256_init = record { state = initial_hash; bit_count = 0; buffer = λ i. 0; buffer_len = 0 }

-- "buffer[at + i] = bytes[i]", for each of the bytes.
unfoldable pub copy_into : (ℕ → ℕ) → ℕ → List ℕ → (ℕ → ℕ)
copy_into buffer at [] = buffer
copy_into buffer at (b ∷ bytes) = copy_into (update buffer at b) (at + 1) bytes

-- The first `n` bytes of an array.
unfoldable pub prefix : (ℕ → ℕ) → ℕ → List ℕ
prefix buffer zero = []
prefix buffer (suc n) = prefix buffer n ++ buffer n ∷ []

-- "if (ctx->buffer_len == 64U)".
unfoldable pub flush : Context → Context
unfolding prefix
flush c =
    if c.buffer_len == 64
    then record c { state = sha256_compress c.state (prefix c.buffer 64); buffer_len = 0 }
    else c

-- `to_copy` of the part of `xaios_sha256_update` that fills the buffer.
abbrev pub to_copy : Context → ℕ → ℕ
to_copy c len = let space = 64 - c.buffer_len in if ltb len space then len else space

-- That part, and the bytes left after it.
unfoldable pub fill : Context → List ℕ → Context × List ℕ
unfolding copy_into flush
fill c bytes =
    let n = to_copy c (length bytes) in
    let c' = record c {
      buffer = copy_into c.buffer c.buffer_len (take n bytes);
      buffer_len = c.buffer_len + n;
    } in
    if ltb 0 c.buffer_len then (flush c', drop n bytes) else (c, bytes)

-- "while (len >= 64U)", with one round for each block: the state, and the bytes left.
unfoldable pub whole_blocks : ℕ → Hash → List ℕ → Hash × List ℕ
whole_blocks zero state bytes = (state, bytes)
whole_blocks (suc rounds) state bytes =
    whole_blocks rounds (sha256_compress state (take 64 bytes)) (drop 64 bytes)

-- "Buffer remaining bytes".
unfoldable pub keep_rest : Context → List ℕ → Context
unfolding copy_into
keep_rest c bytes =
    if ltb 0 (length bytes)
    then record c { buffer = copy_into c.buffer 0 bytes; buffer_len = length bytes }
    else c

-- `xaios_sha256_update` past its guard.
unfoldable pub absorb : Context → List ℕ → Context
unfolding fill whole_blocks keep_rest
absorb c bytes =
    let counted = record c { bit_count = add64 c.bit_count (mul64 (length bytes) 8) } in
    let (filled, left) = fill counted bytes in
    let (state, rest) = whole_blocks (length left / 64) filled.state left in
    keep_rest (record filled { state = state }) rest

-- `xaios_sha256_update`.
unfoldable pub sha256_update : Context → List ℕ → Context
unfolding absorb
sha256_update c bytes = if length bytes == 0 then c else absorb c bytes

-- "while (ctx->buffer_len != 56U)" of `xaios_sha256_final`; none when the fuel runs out.
unfoldable pub pad_loop : ℕ → Context → Option Context
pad_loop zero c = none
pad_loop (suc fuel) c =
    let rest = pad_loop fuel (sha256_update c (0 ∷ [])) in
    if c.buffer_len == 56 then some c else rest

-- The bytes of a 64-bit number, the highest first.
abbrev pub count_bytes : ℕ → List ℕ
count_bytes n =
    (n / 2 ^ 56 % 256)
    ∷ (n / 2 ^ 48 % 256)
    ∷ (n / 2 ^ 40 % 256)
    ∷ (n / 2 ^ 32 % 256)
    ∷ (n / 2 ^ 24 % 256)
    ∷ (n / 2 ^ 16 % 256)
    ∷ (n / 2 ^ 8 % 256)
    ∷ (n % 256)
    ∷ []

abbrev pub output : Hash → List ℕ
output h =
    store_be32 h.h0
    ++ store_be32 h.h1
    ++ store_be32 h.h2
    ++ store_be32 h.h3
    ++ store_be32 h.h4
    ++ store_be32 h.h5
    ++ store_be32 h.h6
    ++ store_be32 h.h7

-- `xaios_sha256_final`: the 32 bytes of the hash. The padding takes at most 63 zeros: 64 rounds.
unfoldable pub sha256_final : Context → Option (List ℕ)
unfolding pad_loop
sha256_final c = elim (pad_loop 64 (sha256_update c (128 ∷ []))) [
  | none ↦ none
  | some padded ↦ some (output (sha256_update padded (count_bytes padded.bit_count)).state)
]

-- `xaios_sha256`.
unfoldable pub sha256 : List ℕ → Option (List ℕ)
unfolding sha256_final
sha256 bytes = sha256_final (sha256_update sha256_init bytes)
