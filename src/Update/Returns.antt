-- ===== src/Update/Returns.antt =====
-- kernel/runtime/update.c: every run of calls returns, since the padding of the hash ends.
use osai.Prelude.{
  Status, ℕ, ◌<◌, ◌≡◌, refl, arith, not, ◌||◌, Option, none, some, List, [], ◌∷◌, Bool-cases, inl,
  inr,
}
use osai.Prelude.Status.{invalid}
use osai.Sha256.Stream.{IsValid}
use osai.Sha256.Absorb.{sha256_update_lem}
use osai.Sha256.Digest.{sha256_final-view}
use osai.Update.{
  Updates, Answers, update_begin, update_stage, update_commit, update_fail, update_recover_boot,
  update_rollback, reject, set_error,
}
use osai.Update.Chunks.{start_staging, count_chunk, stage_bytes, update_verify_hash, compare_hash}
use osai.Update.Diagram.{
  Call, begin, stage, commit, fail, recover, roll_back, stage_chunk, verify_hash, serve,
}
use osai.Update.Runs.{run, Keeps, serve-keeps}

-- The buffer of the hash is not full.
pub record IsShort (u : Updates) : Type 0 where
  pub short : u.chunk_hash.buffer_len < 64

chunk_hash-IsValid : (u : Updates) → IsShort u → IsValid u.chunk_hash
chunk_hash-IsValid u v = record { short = v.short }

start_staging-IsShort : (u : Updates) → IsShort u → IsShort (start_staging u)
unfolding start_staging
start_staging-IsShort u v = ground arith

count_chunk-IsShort : (c : List ℕ) (u : Updates) → IsShort u → IsShort (count_chunk c u)
unfolding count_chunk
count_chunk-IsShort c u v =
    let (fed, valid, count) = sha256_update_lem u.chunk_hash c (chunk_hash-IsValid u v) in
    record { short = valid.short }

module _ (a : Answers) {u : Updates} (v : IsShort u) where
  begin-IsShort : (g : ℕ) (t : List ℕ) → IsShort (update_begin a g t u).1
  unfolding update_begin
  begin-IsShort g t = ground arith

  stage-IsShort : IsShort (update_stage a u).1
  unfolding update_stage
  stage-IsShort = ground arith

  commit-IsShort : IsShort (update_commit a u).1
  unfolding update_commit
  commit-IsShort = ground arith

  fail-IsShort : IsShort (update_fail a u).1
  unfolding update_fail
  fail-IsShort = ground arith

  recover-IsShort : IsShort (update_recover_boot a u).1
  unfolding update_recover_boot
  recover-IsShort = ground arith

  roll_back-IsShort : IsShort (update_rollback a u).1
  unfolding update_rollback
  roll_back-IsShort = ground arith

  stage_bytes-IsShort : (bytes file : List ℕ) → IsShort (stage_bytes a bytes u file).1
  unfolding stage_bytes
  stage_bytes-IsShort bytes file =
      let started = start_staging-IsShort u v in
      ground (arith, started, count_chunk-IsShort bytes (start_staging u) started)

  compare_hash-IsShort :
      (expected computed : List ℕ) → IsShort (compare_hash a expected u computed).1
  unfolding compare_hash
  compare_hash-IsShort expected computed = ground arith

keeps-IsShort : Keeps IsShort
keeps-IsShort = record {
  begins = λ a g t v. begin-IsShort a v g t;
  stages = λ a v. stage-IsShort a v;
  commits = λ a v. commit-IsShort a v;
  fails = λ a v. fail-IsShort a v;
  recovers = λ a v. recover-IsShort a v;
  rolls_back = λ a v. roll_back-IsShort a v;
  delivers = λ a bytes file v. stage_bytes-IsShort a v bytes file;
  compares = λ a expected computed v. compare_hash-IsShort a v expected computed;
  refuses = λ v. record { short = v.short };
}

update_verify_hash_returns :
    (a : Answers) (expected : Option (List ℕ)) (u : Updates)
    → IsShort u
    → (out : Status × Updates) × (update_verify_hash a expected u ≡ some out)
unfolding update_verify_hash
update_verify_hash_returns a none u v = (_, refl)
update_verify_hash_returns a (some expected) u v =
    let (digest, ends, same) =
      sha256_final-view u.chunk_hash u.chunk_hash (chunk_hash-IsValid u v) (chunk_hash-IsValid u v)
        refl refl in
    elim (Bool-cases (not u.transaction.active || not u.chunk_staging_active)) [
      | inl refused ↦ ((invalid, reject (set_error invalid u)), rw refused refl)
      | inr fine ↦ (compare_hash a expected u digest, rw (fine, ends) refl)
    ]

serve_returns :
    (a : Answers) (c : Call) (u : Updates)
    → IsShort u
    → (out : Status × Updates) × (serve a c u ≡ some out)
unfolding serve
serve_returns a (begin g t) u v = (_, refl)
serve_returns a stage u v = (_, refl)
serve_returns a commit u v = (_, refl)
serve_returns a fail u v = (_, refl)
serve_returns a recover u v = (_, refl)
serve_returns a roll_back u v = (_, refl)
serve_returns a (stage_chunk bytes file) u v = (_, refl)
serve_returns a (verify_hash expected) u v = update_verify_hash_returns a expected u v

-- Calls that start with a hash buffer that is not full, as after boot, all return.
pub run_returns :
    (u : Updates) (calls : List (Answers × Call))
    → IsShort u
    → (u' : Updates) × (run u calls ≡ some u')
unfolding run
run_returns u [] v = (u, refl)
run_returns u ((a, c) ∷ calls) v =
    let (out, serves) = serve_returns a c u v in
    let (u', runs) = run_returns out.1 calls (serve-keeps keeps-IsShort a c v serves) in
    (u', rw (serves, run) runs)
