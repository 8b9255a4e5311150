-- ===== src/Sha256/Stream.antt =====
-- `xaios_sha256_update` against a hash that takes its bytes one by one.
use osai.Prelude.{
  ℕ, zero, suc, ◌+◌, ◌-◌, ◌≤◌, ◌<◌, ◌≡◌, refl, sym, ap, ap₂, ◌∙◌, arith, true, false, List, [], ◌∷◌,
  ◌++◌, length, take, drop, take-all, drop-all, append-take-drop, length-take, length-append, ltb,
  ◌==◌, if◌then◌else◌, update, update_self, update-ne, Bool-cases, inl, inr, ◌⊎◌,
}
use mathlib.Core.List.{append_assoc, append-nil}
use osai.Sha256.Compress.{Hash, sha256_compress}
use osai.Sha256.{Context, copy_into, prefix, flush, fill}

-- A byte goes to the pending ones; the 64th of them completes a block.
abbrev pub feed_byte : Hash × List ℕ → ℕ → Hash × List ℕ
feed_byte (h, pending) b =
    let p = pending ++ b ∷ [] in if length p == 64 then (sha256_compress h p, []) else (h, p)

unfoldable pub feed : Hash × List ℕ → List ℕ → Hash × List ℕ
feed v [] = v
feed v (b ∷ bytes) = feed (feed_byte v b) bytes

-- What a context stands for.
abbrev pub view : Context → Hash × List ℕ
view c = (c.state, prefix c.buffer c.buffer_len)

pub feed-append : (v : Hash × List ℕ) (xs ys : List ℕ) → feed v (xs ++ ys) ≡ feed (feed v xs) ys
unfolding feed
feed-append v [] ys = refl
feed-append v (x ∷ xs) ys = feed-append (feed_byte v x) xs ys

-- Bytes that complete no block are appended.
pub feed_short :
    (h : Hash) (p bytes : List ℕ)
    → length p + length bytes < 64
    → feed (h, p) bytes ≡ (h, p ++ bytes)
unfolding feed
feed_short h p [] few = ap (λ q. (h, q)) (sym (append-nil p))
feed_short h p (b ∷ bytes) few =
    let longer : length (p ++ b ∷ []) ≡ length p + 1 = length-append p (b ∷ []) ∙ omega arith in
    let open_block : (length (p ++ b ∷ []) == 64) ≡ false = ground (arith, longer, few) in
    rw open_block (
      feed_short h (p ++ b ∷ []) bytes (omega (arith, longer, few))
      ∙ ap (λ q. (h, q)) (append_assoc p (b ∷ []) bytes))

-- Bytes that fill the block up complete it.
pub feed_full :
    (h : Hash) (p bytes : List ℕ)
    → length p < 64
    → length p + length bytes ≡ 64
    → feed (h, p) bytes ≡ (sha256_compress h (p ++ bytes), [])
unfolding feed
feed_full h p [] some_room full = absurd (omega (arith, full))
feed_full h p (b ∷ []) some_room full =
    let longer : length (p ++ b ∷ []) ≡ length p + 1 = length-append p (b ∷ []) ∙ omega arith in
    let closed : (length (p ++ b ∷ []) == 64) ≡ true = ground (arith, longer, full) in
    rw closed refl
feed_full h p (b ∷ b' ∷ bytes) some_room full =
    let longer : length (p ++ b ∷ []) ≡ length p + 1 = length-append p (b ∷ []) ∙ omega arith in
    let open_block : (length (p ++ b ∷ []) == 64) ≡ false = ground (arith, longer, full) in
    rw open_block (
      feed_full h (p ++ b ∷ []) (b' ∷ bytes) (omega (arith, longer, full))
        (omega (arith, longer, full))
      ∙ ap (λ q. (sha256_compress h q, [])) (append_assoc p (b ∷ []) (b' ∷ bytes)))

prefix-update :
    (buffer : ℕ → ℕ) (i b n : ℕ) → n ≤ i → prefix (update buffer i b) n ≡ prefix buffer n
unfolding prefix
prefix-update buffer i b zero below = refl
prefix-update buffer i b (suc n) below =
    ap₂ (λ p x. p ++ x ∷ []) (prefix-update buffer i b n (omega (arith, below)))
      (update-ne buffer i n b (λ e. omega (arith, below, e)))

pub prefix-copy_into :
    (buffer : ℕ → ℕ) (n : ℕ) (bytes : List ℕ)
    → prefix (copy_into buffer n bytes) (n + length bytes) ≡ prefix buffer n ++ bytes
unfolding prefix copy_into
prefix-copy_into buffer n [] =
    ap {A = ℕ} (prefix buffer) {x = n + 0} {y = n} (omega arith)
    ∙ sym (append-nil (prefix buffer n))
prefix-copy_into buffer n (b ∷ bytes) =
    ap {A = ℕ} (prefix (copy_into (update buffer n b) (n + 1) bytes)) {x = n + suc (length bytes)}
      {y = n + 1 + length bytes} (omega arith)
    ∙ prefix-copy_into (update buffer n b) (n + 1) bytes
    ∙ ap (λ p. p ++ bytes)
        (ap {A = ℕ} (prefix (update buffer n b)) {x = n + 1} {y = suc n} (omega arith)
          ∙ ap₂ (λ p x. p ++ x ∷ []) (prefix-update buffer n b n (omega arith))
              (update_self buffer n b))
    ∙ append_assoc (prefix buffer n) (b ∷ []) bytes

pub length-prefix : (buffer : ℕ → ℕ) (n : ℕ) → length (prefix buffer n) ≡ n
unfolding prefix
length-prefix buffer zero = refl
length-prefix buffer (suc n) =
    length-append (prefix buffer n) (buffer n ∷ []) ∙ omega (arith, length-prefix buffer n)

-- Between calls the buffer holds less than a block.
pub record IsValid (c : Context) : Type 0 where
  pub short : c.buffer_len < 64

-- Filling the buffer takes the first bytes, as far as they go or up to a block.
pub record Filled (c : Context) (bytes : List ℕ) (out : Context × List ℕ) : Type 0 where
  pub fed : feed (view c) bytes ≡ feed (view out.0) out.1
  pub short : out.0.buffer_len < 64
  pub counted : out.0.bit_count ≡ c.bit_count
  pub emptied : (out.1 ≡ []) ⊎ (out.0.buffer_len ≡ 0)

-- The bytes all fit into the buffer.
fill_some :
    (c : Context) (bytes : List ℕ) (n : ℕ)
    → n ≡ length bytes
    → c.buffer_len + n < 64
    → let c' : Context = record c {
      buffer = copy_into c.buffer c.buffer_len (take n bytes);
      buffer_len = c.buffer_len + n;
    } in
      Filled c bytes (flush c', drop n bytes)
unfolding flush feed
fill_some c bytes n all few =
    let taken : take n bytes ≡ bytes = take-all n bytes (omega (arith, all)) in
    let left : drop n bytes ≡ [] = drop-all n bytes (omega (arith, all)) in
    let stays : (c.buffer_len + n == 64) ≡ false = ground (arith, few) in
    let appended : prefix (copy_into c.buffer c.buffer_len bytes) (c.buffer_len + n)
        ≡ prefix c.buffer c.buffer_len ++ bytes =
      ap {A = ℕ} (λ k. prefix (copy_into c.buffer c.buffer_len bytes) (c.buffer_len + k)) all
      ∙ prefix-copy_into c.buffer c.buffer_len bytes in
    let fits : length (prefix c.buffer c.buffer_len) + length bytes < 64 =
      omega (arith, length-prefix c.buffer c.buffer_len, all, few) in
    rw (taken, left, stays)
      (record {
        fed =
            feed_short c.state (prefix c.buffer c.buffer_len) bytes fits
            ∙ ap (λ p. (c.state, p)) (sym appended);
        short = few;
        counted = refl;
        emptied = inl refl;
      })

-- The bytes fill the block up.
fill_block :
    (c : Context) (bytes : List ℕ) (n : ℕ)
    → c.buffer_len < 64
    → n ≤ length bytes
    → c.buffer_len + n ≡ 64
    → let c' : Context = record c {
      buffer = copy_into c.buffer c.buffer_len (take n bytes);
      buffer_len = c.buffer_len + n;
    } in
      Filled c bytes (flush c', drop n bytes)
unfolding flush
fill_block c bytes n short enough full =
    let closed : (c.buffer_len + n == 64) ≡ true = ground (arith, full) in
    let taken : length (take n bytes) ≡ n = length-take n bytes ∙ omega (arith, enough) in
    let pending = prefix c.buffer c.buffer_len in
    let appended : prefix (copy_into c.buffer c.buffer_len (take n bytes)) 64
        ≡ pending ++ take n bytes =
      ap {A = ℕ} (prefix (copy_into c.buffer c.buffer_len (take n bytes))) {x = 64}
        {y = c.buffer_len + length (take n bytes)} (omega (arith, taken, full))
      ∙ prefix-copy_into c.buffer c.buffer_len (take n bytes) in
    let room : length pending < 64 = omega (arith, length-prefix c.buffer c.buffer_len, short) in
    let fits : length pending + length (take n bytes) ≡ 64 =
      omega (arith, length-prefix c.buffer c.buffer_len, taken, full) in
    let whole : feed (view c) (take n bytes)
        ≡ (sha256_compress c.state (pending ++ take n bytes), []) =
      feed_full c.state pending (take n bytes) room fits in
    rw closed (record {
      fed =
          ap (feed (view c)) (sym (append-take-drop n bytes))
          ∙ feed-append (view c) (take n bytes) (drop n bytes)
          ∙ ap (λ v. feed v (drop n bytes))
              (whole ∙ ap (λ b. (sha256_compress c.state b, [])) (sym appended));
      short = omega arith;
      counted = refl;
      emptied = inr refl;
    })

pub fill_lem : (c : Context) (bytes : List ℕ) → IsValid c → Filled c bytes (fill c bytes)
unfolding fill
fill_lem c bytes v = elim (Bool-cases (ltb 0 c.buffer_len)) [
  | inr empty ↦ rw empty (record {
    fed = refl;
    short = v.short;
    counted = refl;
    emptied = inr (ground (arith, empty));
  })
  | inl some_bytes ↦ elim (Bool-cases (ltb (length bytes) (64 - c.buffer_len))) [
    | inl all ↦
        rw (some_bytes, all) (fill_some c bytes (length bytes) refl (ground (arith, all, v.short)))
    | inr more ↦
        rw (some_bytes, more)
          (fill_block c bytes (64 - c.buffer_len) v.short (ground (arith, more))
            (omega (arith, v.short)))
  ]
]
