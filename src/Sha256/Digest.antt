-- ===== src/Sha256/Digest.antt =====
-- `xaios_sha256`: the padding loop ends, and which bytes are hashed.
use osai.Prelude.{
  ℕ, zero, suc, ◌+◌, ◌-◌, ◌*◌, ◌/◌, ◌%◌, ◌^◌, ◌<◌, ◌≡◌, refl, sym, ap, ◌∙◌, arith, true, false,
  some, List, [], ◌∷◌, ◌++◌, length, replicate, ap₂, length-append, ◌==◌, Bool-cases, inl, inr,
}
use osai.Sha256.Compress.{Hash, initial_hash}
use osai.Sha256.{
  Context, sha256_init, prefix, sha256_update, pad_loop, count_bytes, output, sha256_final, sha256,
}
use osai.Sha256.Stream.{feed, feed_byte, view, feed-append, length-prefix, IsValid}
use osai.Sha256.Absorb.{sha256_update_lem}

-- One byte moves the fill of the buffer on by one, and starts again at 64.
length-feed :
    (h : Hash) (p : List ℕ) (b : ℕ)
    → length p < 64
    → length (feed (h, p) (b ∷ [])).1 ≡ (length p + 1) % 64
unfolding feed
length-feed h p b short =
    let longer : length (p ++ b ∷ []) ≡ length p + 1 = length-append p (b ∷ []) ∙ omega arith in
    elim (Bool-cases (length (p ++ b ∷ []) == 64)) [
      | inl closed ↦ rw closed (ground (arith, longer, closed))
      | inr stays ↦ rw stays (ground (arith, longer, stays))
    ]

buffer_len-sha256_update :
    (c : Context) (b : ℕ)
    → IsValid c
    → (sha256_update c (b ∷ [])).buffer_len ≡ (c.buffer_len + 1) % 64
buffer_len-sha256_update c b v =
    let c' = sha256_update c (b ∷ []) in
    let p = prefix c.buffer c.buffer_len in
    let held : length p ≡ c.buffer_len = length-prefix c.buffer c.buffer_len in
    sym (length-prefix c'.buffer c'.buffer_len)
    ∙ ap (λ (w : Hash × List ℕ). length w.1) (sha256_update_lem c (b ∷ []) v).0
    ∙ length-feed c.state p b (omega (arith, held, v.short))
    ∙ ap (λ k. (k + 1) % 64) held

-- With `d` zeros to go to a fill of 56 bytes, and fuel for them, the loop feeds exactly those.
pad_loop_lem :
    (fuel d : ℕ) (c : Context)
    → IsValid c
    → d < fuel
    → d < 64
    → (c.buffer_len + d) % 64 ≡ 56
    → (c' : Context) × (pad_loop fuel c ≡ some c')
      × IsValid c'
      × (view c' ≡ feed (view c) (replicate d 0))
      × (c'.bit_count % 2 ^ 64 ≡ (c.bit_count + 8 * d) % 2 ^ 64)
unfolding pad_loop feed
pad_loop_lem zero d c v fueled small goal = absurd (omega (arith, fueled))
pad_loop_lem (suc fuel) zero c v fueled small goal =
    let there : (c.buffer_len == 56) ≡ true = ground (arith, goal, v.short) in
    (c, rw there refl, v, refl, omega arith)
pad_loop_lem (suc fuel) (suc d) c v fueled small goal =
    let not_yet : (c.buffer_len == 56) ≡ false = ground (arith, goal, v.short, small) in
    let (fed, valid, count) = sha256_update_lem c (0 ∷ []) v in
    let moved = buffer_len-sha256_update c 0 v in
    let (c', runs, valid', fed', count') =
      pad_loop_lem fuel d (sha256_update c (0 ∷ [])) valid (omega (arith, fueled))
        (omega (arith, small)) (omega (arith, moved, goal)) in
    (
      c',
      rw not_yet runs,
      valid',
      fed' ∙ ap (λ w. feed w (replicate d 0)) fed,
      omega (arith, count, count'),
    )

count_bytes_mod : (n : ℕ) → count_bytes n ≡ count_bytes (n % 2 ^ 64)
count_bytes_mod n =
    ap₂ (λ a l. a ∷ l) {x = n / 2 ^ 56 % 256} (omega arith)
      (ap₂ (λ a l. a ∷ l) {x = n / 2 ^ 48 % 256} (omega arith)
        (ap₂ (λ a l. a ∷ l) {x = n / 2 ^ 40 % 256} (omega arith)
          (ap₂ (λ a l. a ∷ l) {x = n / 2 ^ 32 % 256} (omega arith)
            (ap₂ (λ a l. a ∷ l) {x = n / 2 ^ 24 % 256} (omega arith)
              (ap₂ (λ a l. a ∷ l) {x = n / 2 ^ 16 % 256} (omega arith)
                (ap₂ (λ a l. a ∷ l) {x = n / 2 ^ 8 % 256} (omega arith)
                  (ap (λ a. a ∷ []) {x = n % 256} (omega arith))))))))

-- How many zeros bring a fill of `n` bytes to 56, modulo 64.
abbrev pub zeros : ℕ → ℕ
zeros n = (120 - n % 64) % 64

-- The bytes that the code hashes for a message: the message, 128, zeros up to 56 modulo 64, and the
-- bit count, which also counts the padding.
abbrev pub padded : List ℕ → List ℕ
padded m =
    let n = length m + 1 in
    m ++ (128 ∷ replicate (zeros n) 0 ++ count_bytes (8 * (n + zeros n) % 2 ^ 64))

sha256_final_lem :
    (c : Context)
    → IsValid c
    → let n = c.buffer_len + 1 in
      sha256_final c
      ≡ some (
          output
            (feed (view c) (
              128 ∷ replicate (zeros n) 0
              ++ count_bytes ((c.bit_count + 8 * (1 + zeros n)) % 2 ^ 64))).0)
unfolding sha256_final
sha256_final_lem c v =
    let d = zeros (c.buffer_len + 1) in
    let (fed, valid, count) = sha256_update_lem c (128 ∷ []) v in
    let moved = buffer_len-sha256_update c 128 v in
    let (p, runs, valid', zeros_fed, count') =
      pad_loop_lem 64 d (sha256_update c (128 ∷ [])) valid (omega arith) (omega arith)
        (omega (arith, moved)) in
    let counted : count_bytes p.bit_count ≡ count_bytes ((c.bit_count + 8 * (1 + d)) % 2 ^ 64) =
      count_bytes_mod p.bit_count ∙ ap count_bytes (omega (arith, count, count')) in
    let (last, valid_last, count_last) = sha256_update_lem p (count_bytes p.bit_count) valid' in
    let bytes = count_bytes ((c.bit_count + 8 * (1 + d)) % 2 ^ 64) in
    rw (runs, sha256_final)
      (ap (λ (w : Hash × List ℕ). some (output w.0))
        (last
          ∙ ap (feed (view p)) counted
          ∙ ap (λ w. feed w bytes) (zeros_fed ∙ ap (λ w. feed w (replicate d 0)) fed)
          ∙ sym (feed-append (feed (view c) (128 ∷ [])) (replicate d 0) bytes)
          ∙ sym (feed-append (view c) (128 ∷ []) (replicate d 0 ++ bytes))))

start_view : view sha256_init ≡ (initial_hash, [])
unfolding prefix
start_view = refl

length-feed_all :
    (h : Hash) (p bytes : List ℕ)
    → length p < 64
    → length (feed (h, p) bytes).1 ≡ (length p + length bytes) % 64
unfolding feed
length-feed_all h p [] short = omega (arith, short)
length-feed_all h p (b ∷ bytes) short =
    let one = length-feed h p b short in
    let v = feed_byte (h, p) b in
    length-feed_all v.0 v.1 bytes (omega (arith, one)) ∙ omega (arith, one)

-- The digest depends on the hash state, the pending bytes and the bit count modulo 2^64 only.
pub sha256_final-view :
    (c d : Context)
    → IsValid c
    → IsValid d
    → view c ≡ view d
    → c.bit_count % 2 ^ 64 ≡ d.bit_count % 2 ^ 64
    → (digest : List ℕ) × (sha256_final c ≡ some digest) × (sha256_final d ≡ some digest)
sha256_final-view c d valid valid' same count =
    let held : c.buffer_len ≡ d.buffer_len =
      sym (length-prefix c.buffer c.buffer_len)
      ∙ ap (λ (w : Hash × List ℕ). length w.1) same
      ∙ length-prefix d.buffer d.buffer_len in
    let fill : zeros (c.buffer_len + 1) ≡ zeros (d.buffer_len + 1) = omega (arith, held) in
    let counts : (c.bit_count + 8 * (1 + zeros (c.buffer_len + 1))) % 2 ^ 64
        ≡ (d.bit_count + 8 * (1 + zeros (d.buffer_len + 1))) % 2 ^ 64 =
      omega (arith, count, fill) in
    (
      _,
      sha256_final_lem c valid
          ∙ ap₂
              (λ (a b : ℕ). some (output (feed (view c) (128 ∷ replicate a 0 ++ count_bytes b)).0))
              fill counts
          ∙ ap
              (λ w. some (
                output
                  (feed w (
                    128 ∷ replicate (zeros (d.buffer_len + 1)) 0
                    ++ count_bytes
                        ((d.bit_count + 8 * (1 + zeros (d.buffer_len + 1))) % 2 ^ 64))).0))
              same,
      sha256_final_lem d valid',
    )

-- `xaios_sha256` ends, and its digest is that of the byte-wise hash of the message followed by 128,
-- zeros up to 56 modulo 64 and eight bytes of a bit count: of the message, of the 128 and of the
-- zeros, where the standard counts the message only.
pub sha256_lem : (m : List ℕ) → sha256 m ≡ some (output (feed (initial_hash, []) (padded m)).0)
unfolding sha256
sha256_lem m =
    let c = sha256_update sha256_init m in
    let empty : IsValid sha256_init = record { short = omega arith } in
    let (fed, valid, count) = sha256_update_lem sha256_init m empty in
    let start : view sha256_init ≡ (initial_hash, []) = start_view in
    let hashed : view c ≡ feed (initial_hash, []) m = fed ∙ ap (λ v. feed v m) start in
    let held : c.buffer_len ≡ length m % 64 =
      sym (length-prefix c.buffer c.buffer_len)
      ∙ ap (λ (w : Hash × List ℕ). length w.1) hashed
      ∙ length-feed_all initial_hash [] m (omega arith)
      ∙ omega arith in
    let same : zeros (c.buffer_len + 1) ≡ zeros (length m + 1) = omega (arith, held) in
    let counts : (c.bit_count + 8 * (1 + zeros (c.buffer_len + 1))) % 2 ^ 64
        ≡ 8 * (length m + 1 + zeros (length m + 1)) % 2 ^ 64 =
      omega (arith, count, same) in
    let tail : List ℕ =
      128 ∷ replicate (zeros (length m + 1)) 0
      ++ count_bytes (8 * (length m + 1 + zeros (length m + 1)) % 2 ^ 64) in
    sha256_final_lem c valid
    ∙ ap₂ (λ (a b : ℕ). some (output (feed (view c) (128 ∷ replicate a 0 ++ count_bytes b)).0)) same
        counts
    ∙ ap (λ w. some (output (feed w tail).0)) hashed
    ∙ ap (λ (w : Hash × List ℕ). some (output w.0))
        (sym (
          feed-append (initial_hash, []) m
            (128 ∷ replicate (zeros (length m + 1)) 0
              ++ count_bytes (8 * (length m + 1 + zeros (length m + 1)) % 2 ^ 64))))
