-- ===== src/Update/Chunks.antt =====
-- kernel/runtime/update.c: the delivery of the new image in chunks, and the comparison of its hash.
use osai.Prelude.{
  Status, ℕ, Bool, true, false, not, ◌&&◌, ◌||◌, Option, none, some, List, [], ◌∷◌, ◌++◌, length,
  drop, ltb, ◌==◌, if◌then◌else◌, add32, add64,
}
use osai.Prelude.Status.{ok, invalid, io}
use osai.Sha256.{sha256_init, sha256_update, sha256_final}
use osai.Update.{
  failed, staged, is_pending, Updates, Answers, reject, set_state, set_error, persist_update_state,
}

-- XAIOS_UPDATE_CHUNK_MAX
abbrev pub chunk_max : ℕ
chunk_max = 4096

-- `mutable_fs_write_fd` through a handle that `mutable_fs_open` has just made: the cursor is 0, the
-- bytes go over the start of the file, and what lies behind them stays.
unfoldable pub write_at_start : List ℕ → List ℕ → List ℕ
write_at_start bytes file = bytes ++ drop (length bytes) file

-- "++g_rejects; g_delivery.last_error = e; return e", with the file as it is.
abbrev pub fail_chunk : Status → Updates → List ℕ → Status × Updates × List ℕ
fail_chunk e u file = (e, reject (set_error e u), file)

-- "Initialize hash context on first chunk"
unfoldable pub start_staging : Updates → Updates
start_staging u =
    if u.chunk_staging_active
    then u
    else record u { chunk_hash = sha256_init; chunk_staging_active = true }

-- "Update running hash"
unfoldable pub count_chunk : List ℕ → Updates → Updates
count_chunk bytes u = record u {
  chunk_hash = sha256_update u.chunk_hash bytes;
  delivery = record u.delivery {
    bytes_received = add64 u.delivery.bytes_received (length bytes);
    chunks_written = add32 u.delivery.chunks_written 1;
  };
}

-- `update_stage_chunk` of a chunk that is not null, with the staging file before and after it.
unfoldable pub stage_bytes : Answers → List ℕ → Updates → List ℕ → Status × Updates × List ℕ
unfolding start_staging count_chunk write_at_start
stage_bytes a bytes u file =
    let size = length bytes in
    let d = u.delivery in
    let u' = start_staging u in
    if not u.transaction.active || not (is_pending u.transaction.state)
    then fail_chunk invalid u file
    else if size == 0 || ltb chunk_max size
    then fail_chunk invalid u file
    else if ltb 0 d.bytes_expected && ltb d.bytes_expected (add64 d.bytes_received size)
    then fail_chunk invalid u file
    else if not a.opened || not a.written
    then fail_chunk io u' file
    else (ok, count_chunk bytes u', write_at_start bytes file)

-- `update_stage_chunk`; none is a null pointer.
unfoldable pub update_stage_chunk :
    Answers → Option (List ℕ) → Updates → List ℕ → Status × Updates × List ℕ
unfolding stage_bytes
update_stage_chunk a none u file = fail_chunk invalid u file
update_stage_chunk a (some bytes) u file = stage_bytes a bytes u file

-- The loop that compares the two hashes, up to 32 bytes.
unfoldable pub same_bytes : List ℕ → List ℕ → Bool
same_bytes [] [] = true
same_bytes (x ∷ xs) (y ∷ ys) = x == y && same_bytes xs ys
same_bytes _ _ = false

-- "g_delivery.hash_verified = v"
abbrev pub set_verified : Bool → Updates → Updates
set_verified v u = record u { delivery = record u.delivery { hash_verified = v } }

-- The end of `update_verify_hash` for a hash that does not match.
unfoldable pub hash_refused : Answers → Updates → Status × Updates
unfolding persist_update_state
hash_refused a u =
    let bad = set_state failed (set_error invalid (set_verified false u)) in
    let (kept, u') = persist_update_state a bad in (invalid, reject u')

-- The end of `update_verify_hash` for a hash that matches.
unfoldable pub hash_accepted : Answers → Updates → Status × Updates
unfolding persist_update_state
hash_accepted a u =
    let good = set_state staged (set_verified true u) in
    let (kept, u') = persist_update_state a good in
    if not kept || not a.fs_committed
    then (io, reject (set_error io u'))
    else (ok, record u' { stages = add64 u'.stages 1 })

-- `update_verify_hash` after the hash is computed.
unfoldable pub compare_hash : Answers → List ℕ → Updates → List ℕ → Status × Updates
unfolding same_bytes hash_refused hash_accepted
compare_hash a expected u computed =
    let closed = record u { chunk_staging_active = false } in
    if same_bytes computed expected then hash_accepted a closed else hash_refused a closed

-- `update_verify_hash` of a hash that is not null; none if the padding of the hash did not end.
unfoldable pub verify_bytes : Answers → List ℕ → Updates → Option (Status × Updates)
unfolding compare_hash
verify_bytes a expected u =
    if not u.transaction.active || not u.chunk_staging_active
    then some (invalid, reject (set_error invalid u))
    else elim (sha256_final u.chunk_hash) [
      | none ↦ none
      | some computed ↦ some (compare_hash a expected u computed)
    ]

-- `update_verify_hash`; the inner none is a null pointer.
unfoldable pub update_verify_hash : Answers → Option (List ℕ) → Updates → Option (Status × Updates)
unfolding verify_bytes
update_verify_hash a none u = some (invalid, reject (set_error invalid u))
update_verify_hash a (some expected) u = verify_bytes a expected u
