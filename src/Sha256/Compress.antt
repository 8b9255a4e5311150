-- ===== src/Sha256/Compress.antt =====
-- The compression function of sha256.c: round constants, message schedule and rounds, on 32-bit words.
use osai.Prelude.{
  ℕ, zero, suc, ◌-◌, ◌*◌, ◌/◌, ◌%◌, ◌^◌, bit_and, bit_or, bit_xor, none, some, List, [], ◌∷◌,
  get_elem?, add32,
}

-- `ctx->state`.
pub record Hash : Type 0 where
  pub h0 : ℕ
  pub h1 : ℕ
  pub h2 : ℕ
  pub h3 : ℕ
  pub h4 : ℕ
  pub h5 : ℕ
  pub h6 : ℕ
  pub h7 : ℕ

abbrev pub initial_hash : Hash
initial_hash = record {
  h0 = 1779033703;
  h1 = 3144134277;
  h2 = 1013904242;
  h3 = 2773480762;
  h4 = 1359893119;
  h5 = 2600822924;
  h6 = 528734635;
  h7 = 1541459225;
}

-- `K`.
abbrev pub round_constants : List ℕ
round_constants =
    1116352408 ∷ 1899447441 ∷ 3049323471 ∷ 3921009573 ∷ 961987163 ∷ 1508970993 ∷ 2453635748
    ∷ 2870763221 ∷ 3624381080 ∷ 310598401 ∷ 607225278 ∷ 1426881987 ∷ 1925078388 ∷ 2162078206
    ∷ 2614888103 ∷ 3248222580 ∷ 3835390401 ∷ 4022224774 ∷ 264347078 ∷ 604807628 ∷ 770255983
    ∷ 1249150122 ∷ 1555081692 ∷ 1996064986 ∷ 2554220882 ∷ 2821834349 ∷ 2952996808 ∷ 3210313671
    ∷ 3336571891 ∷ 3584528711 ∷ 113926993 ∷ 338241895 ∷ 666307205 ∷ 773529912 ∷ 1294757372
    ∷ 1396182291 ∷ 1695183700 ∷ 1986661051 ∷ 2177026350 ∷ 2456956037 ∷ 2730485921 ∷ 2820302411
    ∷ 3259730800 ∷ 3345764771 ∷ 3516065817 ∷ 3600352804 ∷ 4094571909 ∷ 275423344 ∷ 430227734
    ∷ 506948616 ∷ 659060556 ∷ 883997877 ∷ 958139571 ∷ 1322822218 ∷ 1537002063 ∷ 1747873779
    ∷ 1955562222 ∷ 2024104815 ∷ 2227730452 ∷ 2361852424 ∷ 2428436474 ∷ 2756734187 ∷ 3204031479
    ∷ 3329325298 ∷ []

abbrev pub rotr : ℕ → ℕ → ℕ
rotr x n = bit_or (x / 2 ^ n) (x * 2 ^ (32 - n) % 2 ^ 32)

-- `~x`, of 32 bits.
abbrev pub bit_not : ℕ → ℕ
bit_not x = 2 ^ 32 - 1 - x

abbrev pub ch : ℕ → ℕ → ℕ → ℕ
ch x y z = bit_xor (bit_and x y) (bit_and (bit_not x) z)

abbrev pub maj : ℕ → ℕ → ℕ → ℕ
maj x y z = bit_xor (bit_xor (bit_and x y) (bit_and x z)) (bit_and y z)

abbrev pub sigma0 : ℕ → ℕ
sigma0 x = bit_xor (bit_xor (rotr x 2) (rotr x 13)) (rotr x 22)

abbrev pub sigma1 : ℕ → ℕ
sigma1 x = bit_xor (bit_xor (rotr x 6) (rotr x 11)) (rotr x 25)

abbrev pub gamma0 : ℕ → ℕ
gamma0 x = bit_xor (bit_xor (rotr x 7) (rotr x 18)) (x / 2 ^ 3)

abbrev pub gamma1 : ℕ → ℕ
gamma1 x = bit_xor (bit_xor (rotr x 17) (rotr x 19)) (x / 2 ^ 10)

-- `load_be32` of each four bytes, in order; the newest word comes first.
unfoldable pub load_words : List ℕ → List ℕ → List ℕ
load_words (a ∷ b ∷ c ∷ d ∷ bytes) words =
    load_words bytes (bit_or (bit_or (a * 2 ^ 24) (b * 2 ^ 16)) (bit_or (c * 2 ^ 8) d) ∷ words)
load_words _ words = words

abbrev pub store_be32 : ℕ → List ℕ
store_be32 v = (v / 2 ^ 24 % 256) ∷ (v / 2 ^ 16 % 256) ∷ (v / 2 ^ 8 % 256) ∷ (v % 256) ∷ []

-- "W[i - k]", of a schedule whose newest word comes first.
abbrev pub back : List ℕ → ℕ → ℕ
back words k = elim (get_elem? words (k - 1)) [ none ↦ 0 | some w ↦ w ]

-- The words from 16 on.
unfoldable pub extend : ℕ → List ℕ → List ℕ
extend zero words = words
extend (suc n) words = extend n (
    add32 (add32 (add32 (gamma1 (back words 2)) (back words 7)) (gamma0 (back words 15)))
      (back words 16)
    ∷ words)

unfoldable pub reverse_onto : List ℕ → List ℕ → List ℕ
reverse_onto [] words = words
reverse_onto (w ∷ rest) words = reverse_onto rest (w ∷ words)

-- One of the 64 rounds, with its constant and its word.
unfoldable pub round : Hash → ℕ → ℕ → Hash
round s k w =
    let t1 = add32 (add32 (add32 (add32 s.h7 (sigma1 s.h4)) (ch s.h4 s.h5 s.h6)) k) w in
    let t2 = add32 (sigma0 s.h0) (maj s.h0 s.h1 s.h2) in
    record {
      h0 = add32 t1 t2;
      h1 = s.h0;
      h2 = s.h1;
      h3 = s.h2;
      h4 = add32 s.h3 t1;
      h5 = s.h4;
      h6 = s.h5;
      h7 = s.h6;
    }

unfoldable pub rounds : Hash → List ℕ → List ℕ → Hash
unfolding round
rounds s (k ∷ ks) (w ∷ ws) = rounds (round s k w) ks ws
rounds s _ _ = s

abbrev pub add_hash : Hash → Hash → Hash
add_hash s t = record {
  h0 = add32 s.h0 t.h0;
  h1 = add32 s.h1 t.h1;
  h2 = add32 s.h2 t.h2;
  h3 = add32 s.h3 t.h3;
  h4 = add32 s.h4 t.h4;
  h5 = add32 s.h5 t.h5;
  h6 = add32 s.h6 t.h6;
  h7 = add32 s.h7 t.h7;
}

-- `sha256_compress`.
unfoldable pub sha256_compress : Hash → List ℕ → Hash
unfolding load_words extend reverse_onto rounds
sha256_compress s block =
    add_hash s (rounds s round_constants (reverse_onto (extend 48 (load_words block [])) []))
