-- ===== src/Update/Tests.antt =====
-- An update from its beginning to its end, and the manifest of the self test.
use mathlib.Core.List.{flatten}
use osai.Prelude.{
  Status, ℕ, ◌≤◌, ◌≡◌, refl, arith, true, false, some, List, [], ◌∷◌, length, replicate, inl, add64,
  if◌then◌else◌,
}
use osai.Prelude.Status.{ok, invalid, io}
use osai.Sha256.{sha256_init, sha256}
use osai.Update.{
  UpdateState, pending, staged, committed, failed, Updates, Answers, no_transaction, no_delivery,
  update_runtime_init, update_begin, update_stage, update_commit, update_recover_boot,
}
use osai.Update.Target.{target_valid}
use osai.Update.Chunks.{
  count_chunk, start_staging, chunk_max, update_stage_chunk, update_verify_hash, same_bytes,
}
use osai.Update.Diagram.{Call, begin, stage, fail, recover, commit, Move, phase, serve, serve-Move}
use osai.Update.Runs.{run}
use osai.Update.Balance.{Balanced, run-Balanced}
use osai.Update.Stuck.{
  willing, ending, IsStuck, update_recover_boot-IsStuck, update_stage-update_commit,
  ending-update_begin,
}
use osai.Update.Image.{stage_all, stage_all-update_verify_hash, length-stage_all}
use osai.Update.Delivered.{run-update_stage_chunk}
use osai.Update.Manifest.{Manifest, update_parse_manifest}
use osai.Update.RoundTrip.{render, update_parse_manifest-render}

abbrev booted : Updates
booted = record {
  transaction = no_transaction;
  transactions = 0;
  stages = 0;
  commits = 0;
  failures = 0;
  recoveries = 0;
  rollbacks = 0;
  boot_fallbacks = 0;
  records_persisted = 0;
  rollback_points = 0;
  rejects = 0;
  delivery = no_delivery;
  chunk_hash = sha256_init;
  chunk_staging_active = false;
}

-- "/system/xaios"
abbrev xaios : List ℕ
xaios =
    b'/' ∷ b's' ∷ b'y' ∷ b's' ∷ b't' ∷ b'e' ∷ b'm' ∷ b'/' ∷ b'x' ∷ b'a' ∷ b'i' ∷ b'o' ∷ b's' ∷ []

xaios_valid : target_valid xaios ≡ true
unfolding target_valid
xaios_valid = refl

root_refused : target_valid (b'/' ∷ []) ≡ false
unfolding target_valid
root_refused = refl

parent_refused : target_valid (b'/' ∷ b'a' ∷ b'/' ∷ b'.' ∷ b'.' ∷ []) ≡ false
unfolding target_valid
parent_refused = refl

abbrev in_state : UpdateState → Updates
in_state s = record booted {
  transaction = record no_transaction { active = true; generation = 2; state = s; target = xaios };
}

-- The calls of update_self_test up to the recovery.
abbrev self_test : List (Answers × Call)
self_test = (willing, begin 2 xaios) ∷ (willing, stage) ∷ (willing, fail) ∷ (willing, recover) ∷ []

abbrev unrecorded : Answers
unrecorded = record willing { recorded = false }

serve-Move_example :
    Move (phase (in_state staged)) (phase (update_commit willing (in_state staged)).1)
unfolding serve
serve-Move_example =
    serve-Move willing (in_state staged) commit {out = update_commit willing (in_state staged)} refl

run-Balanced_example :
    (u : Updates) × (run (update_runtime_init booted) self_test ≡ some u) × Balanced u
run-Balanced_example = run-Balanced booted self_test (record { short = omega arith })

update_recover_boot-IsStuck_example :
    ((update_recover_boot unrecorded (in_state failed)).0 ≡ io)
    × ((calls : List (Answers × Call)) (b : Answers) (c : Call)
        → (u' : Updates) × (u'' : Updates) × (run
              (update_recover_boot unrecorded (in_state failed)).1
              calls
            ≡ some u')
          × (serve b c u' ≡ some (invalid, u''))
          × IsStuck u'')
update_recover_boot-IsStuck_example =
    update_recover_boot-IsStuck unrecorded (in_state failed) refl refl refl refl refl refl

update_stage-update_commit_example :
    let (e, u') = update_stage unrecorded (in_state pending) in
    let (e', u'') = update_commit willing u' in
    (e ≡ io)
    × (e' ≡ ok)
    × (u''.transaction.state ≡ committed)
    × (u''.stages ≡ 0)
    × (u''.commits ≡ add64 0 1)
update_stage-update_commit_example =
    update_stage-update_commit unrecorded willing (in_state pending) refl refl refl refl refl

ending-update_begin_example :
    (u' : Updates) × (run (in_state pending) (ending pending) ≡ some u')
    × ((update_begin willing 3 xaios u').0 ≡ ok)
ending-update_begin_example =
    ending-update_begin (in_state pending) 3 xaios refl (inl refl) (ground arith) xaios_valid

-- Two chunks that differ.
abbrev chunks : List (List ℕ)
chunks = (b'c' ∷ []) ∷ []

abbrev first_chunk : List ℕ
first_chunk = b'a' ∷ b'b' ∷ []

-- The state after both.
abbrev delivered : Updates
delivered = count_chunk (b'c' ∷ []) (count_chunk first_chunk (start_staging (in_state pending)))

-- The staging file after them: the second chunk went over the start of the first.
overwritten :
    stage_all willing (first_chunk ∷ chunks) (in_state pending) []
    ≡ some (delivered, b'c' ∷ b'b' ∷ [])
unfolding stage_all count_chunk start_staging
overwritten = refl

stage_all-update_verify_hash_example :
    (digest : List ℕ) × (out : Status × Updates) × (sha256 (flatten (first_chunk ∷ chunks))
      ≡ some digest)
    × (update_verify_hash willing (some (replicate 32 0)) delivered ≡ some out)
    × (out.1.transaction.state ≡ (if same_bytes digest (replicate 32 0) then staged else failed))
    × (out.1.delivery.hash_verified ≡ same_bytes digest (replicate 32 0))
stage_all-update_verify_hash_example =
    stage_all-update_verify_hash willing willing first_chunk chunks (in_state pending) []
      (replicate 32 0) refl overwritten

length-stage_all_example : length {A = ℕ} (b'c' ∷ b'b' ∷ []) ≤ chunk_max
length-stage_all_example =
    length-stage_all willing (first_chunk ∷ chunks) (in_state pending) [] (omega arith) overwritten

-- A delivery of three bytes that are all there.
abbrev received : Updates
received = record booted {
  delivery = record no_delivery { bytes_received = 3; bytes_expected = 3; chunks_written = 1 };
}

run-update_stage_chunk_example :
    (u' : Updates) × (run received self_test ≡ some u')
    × ((update_stage_chunk willing (some first_chunk) u' []).0 ≡ invalid)
run-update_stage_chunk_example =
    run-update_stage_chunk received self_test willing (some first_chunk) []
      (record { short = omega arith })
      (record { announced = omega arith; complete = refl; bounded = omega arith })

-- The manifest of update_delivery_self_test, with another hash.
abbrev self_test_manifest : Manifest
self_test_manifest = record {
  version = 1;
  target = xaios;
  payload_size = 1024;
  payload_hash = replicate 32 186;
  generation = 42;
}

update_parse_manifest-render_example :
    update_parse_manifest (some (render self_test_manifest)) booted
    ≡ some (
      ok,
      some self_test_manifest,
      record booted { delivery = record no_delivery { bytes_expected = 1024 } },
    )
update_parse_manifest-render_example =
    update_parse_manifest-render self_test_manifest
      (record {
        version = omega arith;
        target = omega arith;
        on_a_line = ground arith;
        size = omega arith;
        hash = refl;
        bytes = ground arith;
        generation = omega arith;
      })
      booted
