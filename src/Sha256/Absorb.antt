-- ===== src/Sha256/Absorb.antt =====
-- A whole call of `xaios_sha256_update`: it feeds its bytes.
use osai.Prelude.{
  ℕ, zero, suc, ◌+◌, ◌-◌, ◌*◌, ◌/◌, ◌%◌, ◌^◌, ◌≤◌, ◌<◌, ◌≡◌, refl, sym, ap, subst, ◌∙◌, arith,
  false, List, [], ◌∷◌, ◌++◌, length, take, drop, append-take-drop, length-take, length-drop,
  length-append, ltb, ◌==◌, add64, mul64, Bool-cases, inl, inr, ◌⊎◌,
}
use osai.Sha256.Compress.{Hash, sha256_compress}
use osai.Sha256.{Context, copy_into, prefix, fill, whole_blocks, keep_rest, absorb, sha256_update}
use osai.Sha256.Stream.{
  feed, view, feed-append, feed_short, feed_full, prefix-copy_into, IsValid, Filled, fill_lem,
}

-- Whole blocks, from an empty buffer.
whole_blocks_lem :
    (rounds : ℕ) (h : Hash) (bytes : List ℕ)
    → rounds * 64 ≤ length bytes
    → (feed (h, []) bytes
        ≡ feed ((whole_blocks rounds h bytes).0, []) (whole_blocks rounds h bytes).1)
      × (length (whole_blocks rounds h bytes).1 ≡ length bytes - rounds * 64)
unfolding whole_blocks
whole_blocks_lem zero h bytes enough = (refl, omega arith)
whole_blocks_lem (suc rounds) h bytes enough =
    let taken : length (take 64 bytes) ≡ 64 = length-take 64 bytes ∙ omega (arith, enough) in
    let left : length (drop 64 bytes) ≡ length bytes - 64 = length-drop 64 bytes in
    let (fed, rest) =
      whole_blocks_lem rounds (sha256_compress h (take 64 bytes)) (drop 64 bytes)
        (omega (arith, left, enough)) in
    let block : feed (h, []) (take 64 bytes) ≡ (sha256_compress h (take 64 bytes), []) =
      feed_full h [] (take 64 bytes) (omega arith) (omega (arith, taken)) in
    (
      ap (feed (h, [])) (sym (append-take-drop 64 bytes))
          ∙ feed-append (h, []) (take 64 bytes) (drop 64 bytes)
          ∙ ap (λ v. feed v (drop 64 bytes)) block
          ∙ fed,
      rest ∙ omega (arith, left),
    )

length-zero : (bytes : List ℕ) → length bytes ≡ 0 → bytes ≡ []
length-zero [] h = refl
length-zero (b ∷ bytes) h = absurd (omega (arith, h))

-- The bytes that are left, less than a block, go to an empty buffer.
keep_rest_lem :
    (c : Context) (bytes : List ℕ)
    → (bytes ≡ []) ⊎ (c.buffer_len ≡ 0)
    → c.buffer_len < 64
    → length bytes < 64
    → (view (keep_rest c bytes) ≡ feed (view c) bytes)
      × IsValid (keep_rest c bytes)
      × ((keep_rest c bytes).bit_count ≡ c.bit_count)
unfolding keep_rest prefix feed
keep_rest_lem c bytes how short few = elim (Bool-cases (ltb 0 (length bytes))) [
  | inr none_left ↦
      let nil : bytes ≡ [] = length-zero bytes (ground (arith, none_left)) in
      rw none_left (ap (feed (view c)) (sym nil), record { short = short }, refl)
  | inl some_left ↦
      let empty : c.buffer_len ≡ 0 = emptied_by how (ground (arith, some_left)) in
      let alone : view c ≡ (c.state, []) = ap (λ k. (c.state, prefix c.buffer k)) empty in
      let kept : prefix (copy_into c.buffer 0 bytes) (length bytes) ≡ bytes =
        ap {A = ℕ} (prefix (copy_into c.buffer 0 bytes)) {x = length bytes} {y = 0 + length bytes}
          (omega arith)
        ∙ prefix-copy_into c.buffer 0 bytes in
      rw some_left (
        ap (λ p. (c.state, p)) kept
            ∙ sym (ap (λ v. feed v bytes) alone ∙ feed_short c.state [] bytes (omega (arith, few))),
        record { short = few },
        refl,
      )
]
  where
    emptied_by : (bytes ≡ []) ⊎ (c.buffer_len ≡ 0) → 0 < length bytes → c.buffer_len ≡ 0
    emptied_by (inl nil) some_bytes = absurd (omega (arith, ap length nil, some_bytes))
    emptied_by (inr empty) some_bytes = empty

no_blocks :
    (f : Context)
    → let w = whole_blocks (length {A = ℕ} [] / 64) f.state [] in
      (feed (view f) [] ≡ feed (w.0, prefix f.buffer f.buffer_len) w.1)
      × ((w.1 ≡ []) ⊎ (f.buffer_len ≡ 0))
      × (length w.1 < 64)
unfolding whole_blocks
no_blocks f = (refl, inl refl, omega arith)

-- What the blocks leave, when nothing is left of the bytes or the buffer is empty.
blocks_lem :
    (f : Context) (left : List ℕ)
    → (left ≡ []) ⊎ (f.buffer_len ≡ 0)
    → let w = whole_blocks (length left / 64) f.state left in
      (feed (view f) left ≡ feed (w.0, prefix f.buffer f.buffer_len) w.1)
      × ((w.1 ≡ []) ⊎ (f.buffer_len ≡ 0))
      × (length w.1 < 64)
unfolding prefix
blocks_lem f left (inl nil) =
    subst
      (λ l.
        let w = whole_blocks (length l / 64) f.state l in
        (feed (view f) l ≡ feed (w.0, prefix f.buffer f.buffer_len) w.1)
        × ((w.1 ≡ []) ⊎ (f.buffer_len ≡ 0))
        × (length w.1 < 64))
      (sym nil) (no_blocks f)
blocks_lem f left (inr empty) =
    let (fed, rest) = whole_blocks_lem (length left / 64) f.state left (omega arith) in
    (
      ap (λ k. feed (f.state, prefix f.buffer k) left) empty
          ∙ fed
          ∙ sym (
              ap
                (λ k.
                  let w = whole_blocks (length left / 64) f.state left in
                  feed (w.0, prefix f.buffer k) w.1)
                empty),
      inr empty,
      omega (arith, rest),
    )

absorb_lem :
    (c : Context) (bytes : List ℕ)
    → IsValid c
    → (view (absorb c bytes) ≡ feed (view c) bytes)
      × IsValid (absorb c bytes)
      × ((absorb c bytes).bit_count ≡ add64 c.bit_count (mul64 (length bytes) 8))
unfolding absorb
absorb_lem c bytes v =
    let counted : Context = record c { bit_count = add64 c.bit_count (mul64 (length bytes) 8) } in
    let filled : Filled counted bytes (fill counted bytes) =
      fill_lem counted bytes (record { short = v.short }) in
    let f = (fill counted bytes).0 in
    let left = (fill counted bytes).1 in
    let w = whole_blocks (length left / 64) f.state left in
    let (fed, how, few) = blocks_lem f left filled.emptied in
    let c' : Context = record f { state = w.0 } in
    let (kept, valid, count) = keep_rest_lem c' w.1 how filled.short few in
    (kept ∙ sym fed ∙ sym filled.fed, valid, count ∙ filled.counted)

-- `xaios_sha256_update` of a valid context feeds its bytes to the hash in order, whatever the call's
-- length and wherever its blocks fall; it keeps the context valid and adds the number of bits to
-- the count, modulo 2^64.
pub sha256_update_lem :
    (c : Context) (bytes : List ℕ)
    → IsValid c
    → (view (sha256_update c bytes) ≡ feed (view c) bytes)
      × IsValid (sha256_update c bytes)
      × ((sha256_update c bytes).bit_count % 2 ^ 64 ≡ (c.bit_count + 8 * length bytes) % 2 ^ 64)
unfolding sha256_update feed
sha256_update_lem c [] v = (refl, v, omega arith)
sha256_update_lem c (b ∷ bytes) v =
    let (fed, valid, count) = absorb_lem c (b ∷ bytes) v in
    let some_bytes : (length (b ∷ bytes) == 0) ≡ false = ground arith in
    simp some_bytes (fed, valid, omega (arith, count))

-- Splitting a message over two calls changes neither the hash state nor the pending bytes, and the
-- bit count is the same modulo 2^64.
pub sha256_update-append :
    (c : Context) (xs ys : List ℕ)
    → IsValid c
    → let once = sha256_update c (xs ++ ys) in
      let twice = sha256_update (sha256_update c xs) ys in
      (view twice ≡ view once) × (twice.bit_count % 2 ^ 64 ≡ once.bit_count % 2 ^ 64)
sha256_update-append c xs ys v =
    let (fed, valid, count) = sha256_update_lem c xs v in
    let (fed', valid', count') = sha256_update_lem (sha256_update c xs) ys valid in
    let (all, valid_all, count_all) = sha256_update_lem c (xs ++ ys) v in
    (
      fed' ∙ ap (λ w. feed w ys) fed ∙ sym (feed-append (view c) xs ys) ∙ sym all,
      omega (arith, count, count', count_all, length-append xs ys),
    )
