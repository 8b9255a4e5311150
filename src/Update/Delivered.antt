-- ===== src/Update/Delivered.antt =====
-- kernel/runtime/update.c: what is left of a delivery when the next transaction begins.
use osai.Prelude.{ℕ, ◌+◌, ◌^◌, ◌<◌, ◌≡◌, refl, arith, Option, none, some, List}
use osai.Prelude.Status.{invalid}
use osai.Update.{
  Updates, Answers, update_begin, update_stage, update_commit, update_fail, update_recover_boot,
  update_rollback, reject, set_error,
}
use osai.Update.Chunks.{chunk_max, stage_bytes, update_stage_chunk, compare_hash}
use osai.Update.Diagram.{Call}
use osai.Update.Returns.{IsShort, run_returns}
use osai.Update.Runs.{run, Keeps, run-keeps}

-- The image that the manifest announced has been received.
pub record IsComplete (u : Updates) : Type 0 where
  pub announced : 0 < u.delivery.bytes_expected
  pub complete : u.delivery.bytes_received ≡ u.delivery.bytes_expected
  pub bounded : u.delivery.bytes_expected + chunk_max < 2 ^ 64

module _ (a : Answers) {u : Updates} (k : IsComplete u) where
  begin-IsComplete : (g : ℕ) (t : List ℕ) → IsComplete (update_begin a g t u).1
  unfolding update_begin
  begin-IsComplete g t = ground arith

  stage-IsComplete : IsComplete (update_stage a u).1
  unfolding update_stage
  stage-IsComplete = ground arith

  commit-IsComplete : IsComplete (update_commit a u).1
  unfolding update_commit
  commit-IsComplete = ground arith

  fail-IsComplete : IsComplete (update_fail a u).1
  unfolding update_fail
  fail-IsComplete = ground arith

  recover-IsComplete : IsComplete (update_recover_boot a u).1
  unfolding update_recover_boot
  recover-IsComplete = ground arith

  roll_back-IsComplete : IsComplete (update_rollback a u).1
  unfolding update_rollback
  roll_back-IsComplete = ground arith

  stage_bytes-IsComplete : (bytes file : List ℕ) → IsComplete (stage_bytes a bytes u file).1
  unfolding stage_bytes
  stage_bytes-IsComplete bytes file = ground arith

  compare_hash-IsComplete :
      (expected computed : List ℕ) → IsComplete (compare_hash a expected u computed).1
  unfolding compare_hash
  compare_hash-IsComplete expected computed = ground arith

  stage_bytes-invalid : (bytes file : List ℕ) → (stage_bytes a bytes u file).0 ≡ invalid
  unfolding stage_bytes
  stage_bytes-invalid bytes file = ground arith

reject-IsComplete : {u : Updates} → IsComplete u → IsComplete (reject (set_error invalid u))
reject-IsComplete k = ground arith

keeps-IsComplete : Keeps IsComplete
keeps-IsComplete = record {
  begins = λ a g t k. begin-IsComplete a k g t;
  stages = λ a k. stage-IsComplete a k;
  commits = λ a k. commit-IsComplete a k;
  fails = λ a k. fail-IsComplete a k;
  recovers = λ a k. recover-IsComplete a k;
  rolls_back = λ a k. roll_back-IsComplete a k;
  delivers = λ a bytes file k. stage_bytes-IsComplete a k bytes file;
  compares = λ a expected computed k. compare_hash-IsComplete a k expected computed;
  refuses = reject-IsComplete;
}

-- Once all bytes that a manifest announced have been received, any calls on the transaction return, a
-- rollback or a recovery and the beginning of another transaction among them, and every chunk after them is
-- refused with ERR_INVALID, until another manifest is read or the runtime is initialised: the count
-- of the bytes received is never reset. The announced size is taken to be below 2^64 - 4096.
pub run-update_stage_chunk :
    (u : Updates) (calls : List (Answers × Call)) (a : Answers) (bytes : Option (List ℕ))
    (file : List ℕ)
    → IsShort u
    → IsComplete u
    → (u' : Updates) × (run u calls ≡ some u') × ((update_stage_chunk a bytes u' file).0 ≡ invalid)
unfolding update_stage_chunk
run-update_stage_chunk u calls a none file short k =
    let (u', runs) = run_returns u calls short in (u', runs, refl)
run-update_stage_chunk u calls a (some bytes) file short k =
    let (u', runs) = run_returns u calls short in
    (u', runs, stage_bytes-invalid a (run-keeps keeps-IsComplete u calls k runs) bytes file)
