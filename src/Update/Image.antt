-- ===== src/Update/Image.antt =====
-- kernel/runtime/update.c: which bytes the delivered chunks are verified by, and which bytes the
-- staging file holds.
use mathlib.Core.List.{flatten, append_assoc, append-nil}
use osai.Prelude.{
  Status, ℕ, ◌*◌, ◌%◌, ◌^◌, ◌≤◌, ◌≡◌, refl, sym, ap, ◌∙◌, arith, true, false, Option, none, some,
  List, [], ◌∷◌, ◌++◌, length, length-append, length-drop, drop, if◌then◌else◌, subst,
}
use osai.Prelude.Status.{ok}
use osai.Sha256.{sha256_init, sha256_update, sha256_final, sha256}
use osai.Sha256.Stream.{feed, view, feed-append, IsValid}
use osai.Sha256.Absorb.{sha256_update_lem}
use osai.Sha256.Digest.{sha256_final-view}
use osai.Update.{staged, failed, Updates, Answers}
use osai.Update.Chunks.{
  chunk_max, write_at_start, start_staging, count_chunk, stage_bytes, update_stage_chunk,
  update_verify_hash, same_bytes, compare_hash,
}

-- The state and the staging file after chunks that are all accepted; none if one is refused.
unfoldable pub stage_all : Answers → List (List ℕ) → Updates → List ℕ → Option (Updates × List ℕ)
unfolding update_stage_chunk
stage_all a [] u file = some (u, file)
stage_all a (c ∷ chunks) u file =
    let (e, u', file') = update_stage_chunk a (some c) u file in
    let rest = stage_all a chunks u' file' in elim e [ ok ↦ rest | _ ↦ none ]

-- What an accepted chunk does.
record Accepted (a : Answers) (c : List ℕ) (u : Updates) (file : List ℕ) : Type 0 where
  is_open : u.transaction.active ≡ true
  small : length c ≤ chunk_max
  result : stage_bytes a c u file ≡ (ok, count_chunk c (start_staging u), write_at_start c file)

-- A chunk is refused or accepted.
stage_bytes-Accepted :
    (a : Answers) (c : List ℕ) (u : Updates) (file : List ℕ)
    → (stage_bytes a c u file).0 ≡ ok
    → Accepted a c u file
unfolding stage_bytes
stage_bytes-Accepted a c u file h = record {
  is_open = ground arith;
  small = ground arith;
  result = ground arith;
}

stage_all-Accepted :
    (a : Answers) (c : List ℕ) (chunks : List (List ℕ)) (u : Updates) (file : List ℕ)
    {out : Updates × List ℕ}
    → stage_all a (c ∷ chunks) u file ≡ some out
    → Accepted a c u file
      × (stage_all a chunks (count_chunk c (start_staging u)) (write_at_start c file) ≡ some out)
unfolding stage_all
stage_all-Accepted a c chunks u file h =
    let accepted : Accepted a c u file = stage_bytes-Accepted a c u file (ground arith) in
    (accepted, ground (arith, accepted.result))

-- The hash that is under way is that of the bytes `m`.
record Hashes (m : List ℕ) (u : Updates) : Type 0 where
  is_open : u.transaction.active ≡ true
  hashing : u.chunk_staging_active ≡ true
  valid : IsValid u.chunk_hash
  seen : view u.chunk_hash ≡ feed (view sha256_init) m
  count : u.chunk_hash.bit_count % 2 ^ 64 ≡ 8 * length m % 2 ^ 64

Hashes-count_chunk : (m c : List ℕ) (u : Updates) → Hashes m u → Hashes (m ++ c) (count_chunk c u)
unfolding count_chunk
Hashes-count_chunk m c u k =
    let (fed, valid', count') = sha256_update_lem u.chunk_hash c k.valid in
    let joined : feed (view u.chunk_hash) c ≡ feed (view sha256_init) (m ++ c) =
      ap (λ w. feed w c) k.seen ∙ sym (feed-append (view sha256_init) m c) in
    record {
      is_open = k.is_open;
      hashing = k.hashing;
      valid = valid';
      seen = fed ∙ joined;
      count = omega (arith, count', k.count, length-append m c);
    }

start_staging_on : (u : Updates) → u.chunk_staging_active ≡ true → start_staging u ≡ u
unfolding start_staging
start_staging_on u h = rw h refl

start_staging-Hashes :
    (u : Updates)
    → u.transaction.active ≡ true
    → u.chunk_staging_active ≡ false
    → Hashes [] (start_staging u)
unfolding start_staging feed
start_staging-Hashes u on off = rw off (record {
  is_open = on;
  hashing = refl;
  valid = record { short = omega arith };
  seen = refl;
  count = refl;
})

-- Further chunks carry the hash on, and the file never grows past a chunk.
stage_all-Hashes :
    (a : Answers) (chunks : List (List ℕ)) (m : List ℕ) (u : Updates) (file : List ℕ)
    {out : Updates × List ℕ}
    → Hashes m u
    → stage_all a chunks u file ≡ some out
    → Hashes (m ++ flatten chunks) out.0
unfolding flatten stage_all
stage_all-Hashes a [] m u file {out} k h =
    let same : (u, file) ≡ out = cc in
    subst (λ (o : Updates × List ℕ). Hashes (m ++ []) o.0) same
      (subst (λ x. Hashes x u) (sym (append-nil m)) k)
stage_all-Hashes a (c ∷ chunks) m u file {out} k h =
    let (accepted, rest) = stage_all-Accepted a c chunks u file h in
    let same = start_staging_on u k.hashing in
    subst (λ x. Hashes x out.0) (append_assoc m c (flatten chunks))
      (stage_all-Hashes a chunks (m ++ c) (count_chunk c (start_staging u)) (write_at_start c file)
        (subst (λ v. Hashes (m ++ c) (count_chunk c v)) (sym same) (Hashes-count_chunk m c u k))
        rest)

-- The digest that is compared in the end.
Hashes-digest :
    (m : List ℕ) (u : Updates)
    → Hashes m u
    → (digest : List ℕ) × (sha256_final u.chunk_hash ≡ some digest) × (sha256 m ≡ some digest)
unfolding sha256
Hashes-digest m u k =
    let (fed, valid, count) = sha256_update_lem sha256_init m (record { short = omega arith }) in
    sha256_final-view u.chunk_hash (sha256_update sha256_init m) k.valid valid (k.seen ∙ sym fed)
      (omega (arith, k.count, count))

update_verify_hash-Hashes :
    (b : Answers) (expected m : List ℕ) (u : Updates)
    → Hashes m u
    → (digest : List ℕ) × (out : Status × Updates) × (sha256 m ≡ some digest)
      × (update_verify_hash b (some expected) u ≡ some out)
      × (out.1.transaction.state ≡ (if same_bytes digest expected then staged else failed))
      × (out.1.delivery.hash_verified ≡ same_bytes digest expected)
unfolding update_verify_hash compare_hash
update_verify_hash-Hashes b expected m u k =
    let (digest, final, whole) = Hashes-digest m u k in
    (
      digest,
      compare_hash b expected u digest,
      whole,
      ground (arith, k.is_open, k.hashing, final),
      ground arith,
      ground arith,
    )

-- If no hash is under way and chunks, one at least, are all accepted, then the verification of a
-- hash returns: it compares what `xaios_sha256` gives for all their bytes in turn, the transaction is
-- STAGED if that is the expected digest and FAILED if not, and the delivery is marked accordingly.
pub stage_all-update_verify_hash :
    (a b : Answers) (c : List ℕ) (chunks : List (List ℕ)) (u : Updates) (file expected : List ℕ)
    {u' : Updates} {file' : List ℕ}
    → u.chunk_staging_active ≡ false
    → stage_all a (c ∷ chunks) u file ≡ some (u', file')
    → (digest : List ℕ) × (out : Status × Updates) × (sha256 (flatten (c ∷ chunks)) ≡ some digest)
      × (update_verify_hash b (some expected) u' ≡ some out)
      × (out.1.transaction.state ≡ (if same_bytes digest expected then staged else failed))
      × (out.1.delivery.hash_verified ≡ same_bytes digest expected)
unfolding flatten
stage_all-update_verify_hash a b c chunks u file expected {u'} off h =
    let (accepted, rest) = stage_all-Accepted a c chunks u file h in
    let first =
      Hashes-count_chunk [] c (start_staging u) (start_staging-Hashes u accepted.is_open off) in
    update_verify_hash-Hashes b expected (c ++ flatten chunks) u' (
      stage_all-Hashes a chunks c (count_chunk c (start_staging u)) (write_at_start c file) first
        rest)

length-write_at_start :
    (c file : List ℕ)
    → length c ≤ chunk_max
    → length file ≤ chunk_max
    → length (write_at_start c file) ≤ chunk_max
unfolding write_at_start
length-write_at_start c file small short =
    omega (arith, length-append c (drop (length c) file), length-drop (length c) file)

-- Whatever is delivered, a staging file of at most one chunk, 4096 bytes, does not grow beyond that:
-- each chunk is written over the start of the file.
pub length-stage_all :
    (a : Answers) (chunks : List (List ℕ)) (u : Updates) (file : List ℕ) {u' : Updates}
    {file' : List ℕ}
    → length file ≤ chunk_max
    → stage_all a chunks u file ≡ some (u', file')
    → length file' ≤ chunk_max
unfolding stage_all
length-stage_all a [] u file {u'} {file'} short h =
    let same : file ≡ file' = cc in subst (λ (l : List ℕ). length l ≤ chunk_max) same short
length-stage_all a (c ∷ chunks) u file short h =
    let (accepted, rest) = stage_all-Accepted a c chunks u file h in
    length-stage_all a chunks (count_chunk c (start_staging u)) (write_at_start c file)
      (length-write_at_start c file accepted.small short) rest
