-- ===== src/Update/Balance.antt =====
-- kernel/runtime/update.c: the counters of transactions over runs of calls.
use osai.Prelude.{ℕ, ◌+◌, ◌%◌, ◌^◌, ◌≡◌, arith, some, List, if◌then◌else◌}
use osai.Prelude.Status.{invalid}
use osai.Update.{
  Updates, Answers, update_runtime_init, update_begin, update_stage, update_commit, update_fail,
  update_recover_boot, update_rollback, reject, set_error,
}
use osai.Update.Chunks.{stage_bytes, compare_hash}
use osai.Update.Diagram.{Call}
use osai.Update.Returns.{IsShort, run_returns}
use osai.Update.Runs.{run, Keeps, run-keeps}

-- One for an open transaction.
abbrev pub open_count : Updates → ℕ
open_count u = if u.transaction.active then 1 else 0

-- The transactions that were begun are those that were recovered or rolled back, and an open one;
-- each has a rollback point. Counters count modulo 2^64.
pub record Balanced (u : Updates) : Type 0 where
  pub begun : u.transactions ≡ (u.recoveries + u.rollbacks + open_count u) % 2 ^ 64
  pub points : u.rollback_points ≡ u.transactions
  pub fallbacks : u.boot_fallbacks ≡ u.recoveries

module _ (a : Answers) {u : Updates} (k : Balanced u) where
  begin-Balanced : (g : ℕ) (t : List ℕ) → Balanced (update_begin a g t u).1
  unfolding update_begin
  begin-Balanced g t = ground arith

  stage-Balanced : Balanced (update_stage a u).1
  unfolding update_stage
  stage-Balanced = ground arith

  commit-Balanced : Balanced (update_commit a u).1
  unfolding update_commit
  commit-Balanced = ground arith

  fail-Balanced : Balanced (update_fail a u).1
  unfolding update_fail
  fail-Balanced = ground arith

  recover-Balanced : Balanced (update_recover_boot a u).1
  unfolding update_recover_boot
  recover-Balanced = ground arith

  roll_back-Balanced : Balanced (update_rollback a u).1
  unfolding update_rollback
  roll_back-Balanced = ground arith

  stage_bytes-Balanced : (bytes file : List ℕ) → Balanced (stage_bytes a bytes u file).1
  unfolding stage_bytes
  stage_bytes-Balanced bytes file = ground arith

  compare_hash-Balanced :
      (expected computed : List ℕ) → Balanced (compare_hash a expected u computed).1
  unfolding compare_hash
  compare_hash-Balanced expected computed = ground arith

reject-Balanced : {u : Updates} → Balanced u → Balanced (reject (set_error invalid u))
reject-Balanced k = ground arith

keeps-Balanced : Keeps Balanced
keeps-Balanced = record {
  begins = λ a g t k. begin-Balanced a k g t;
  stages = λ a k. stage-Balanced a k;
  commits = λ a k. commit-Balanced a k;
  fails = λ a k. fail-Balanced a k;
  recovers = λ a k. recover-Balanced a k;
  rolls_back = λ a k. roll_back-Balanced a k;
  delivers = λ a bytes file k. stage_bytes-Balanced a k bytes file;
  compares = λ a expected computed k. compare_hash-Balanced a k expected computed;
  refuses = reject-Balanced;
}

init-Balanced : (u : Updates) → Balanced (update_runtime_init u)
unfolding update_runtime_init
init-Balanced u = ground arith

-- After an initialisation, with a hash buffer that is not full, all calls on the transaction return,
-- whatever the other files answer, and then: the number of transactions begun is the number of those recovered or
-- rolled back, plus one if one is open, all modulo 2^64; there is a rollback point for each, and a
-- boot fallback for each recovery.
pub run-Balanced :
    (u : Updates) (calls : List (Answers × Call))
    → IsShort u
    → (u' : Updates) × (run (update_runtime_init u) calls ≡ some u') × Balanced u'
unfolding update_runtime_init
run-Balanced u calls short =
    let (u', runs) = run_returns (update_runtime_init u) calls (record { short = short.short }) in
    (u', runs, run-keeps keeps-Balanced (update_runtime_init u) calls (init-Balanced u) runs)
