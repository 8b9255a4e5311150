-- ===== src/Update/Diagram.antt =====
-- kernel/runtime/update.c: which states a call leads from and to.
use osai.Prelude.{
  Status, ℕ, ◌≡◌, refl, arith, Bool, true, false, not, ◌||◌, ◌&&◌, ◌==◌, Option, none, some, List,
  Bool-cases, Option-cases, subst, inl, inr,
}
use osai.Sha256.{sha256_final}
use osai.Update.{
  UpdateState, idle, pending, staged, committed, failed, recovered, rolled_back, Updates, Answers,
  update_begin, update_stage, update_commit, update_fail, update_recover_boot, update_rollback,
  is_pending, is_staged, is_failed, is_committed,
}
use osai.Update.Target.{target_valid}
use osai.Update.Chunks.{
  stage_bytes, compare_hash, same_bytes, update_stage_chunk, update_verify_hash,
}

-- A call on a transaction: a chunk with the staging file as it is found, and the hash that is
-- expected. `update_runtime_init`, which clears the transaction, and `update_parse_manifest`, which
-- does not touch it, are not among these calls.
pub data Call : Type 0 where
  begin : ℕ → List ℕ → Call
  stage commit fail recover roll_back : Call
  stage_chunk : Option (List ℕ) → List ℕ → Call
  verify_hash : Option (List ℕ) → Call

-- One call: its result and the state after it.
unfoldable pub serve : Answers → Call → Updates → Option (Status × Updates)
unfolding update_begin update_stage update_commit update_fail update_recover_boot update_rollback
    update_stage_chunk update_verify_hash
serve a (begin generation target) u = some (update_begin a generation target u)
serve a stage u = some (update_stage a u)
serve a commit u = some (update_commit a u)
serve a fail u = some (update_fail a u)
serve a recover u = some (update_recover_boot a u)
serve a roll_back u = some (update_rollback a u)
serve a (stage_chunk bytes file) u =
    let (e, u', file') = update_stage_chunk a bytes u file in some (e, u')
serve a (verify_hash expected) u = update_verify_hash a expected u

-- Whether the transaction is open, its state, and whether a hash is being computed.
pub record Phase : Type 0 where
  pub active : Bool
  pub state : UpdateState
  pub hashing : Bool

abbrev pub phase : Updates → Phase
phase u = record {
  active = u.transaction.active;
  state = u.transaction.state;
  hashing = u.chunk_staging_active;
}

abbrev phase_hashing : Updates → Bool
phase_hashing u = u.chunk_staging_active

abbrev pub at : Bool → UpdateState → Bool → Phase
at a s h = record { active = a; state = s; hashing = h }

-- The moves of a transaction.
pub data Move (p q : Phase) : Type 0 where
  stays : q ≡ p → Move p q
  begins : p.active ≡ false → q ≡ at true pending p.hashing → Move p q
  aborts : p.active ≡ false → q ≡ at false idle p.hashing → Move p q
  stages : p.active ≡ true → p.state ≡ pending → q ≡ at true staged p.hashing → Move p q
  commits : p.active ≡ true → p.state ≡ staged → q ≡ at true committed p.hashing → Move p q
  fails : p.active ≡ true → p.state ≡ staged → q ≡ at true failed p.hashing → Move p q
  recovers :
      (a : Bool) → p.active ≡ true → p.state ≡ failed → q ≡ at a recovered p.hashing → Move p q
  rolls_back :
      (a : Bool) → p.active ≡ true → p.state ≡ committed → q ≡ at a rolled_back p.hashing → Move p q
  hashes : p.active ≡ true → p.state ≡ pending → q ≡ at true pending true → Move p q
  matches : p.active ≡ true → p.hashing ≡ true → q ≡ at true staged false → Move p q
  differs : p.active ≡ true → p.hashing ≡ true → q ≡ at true failed false → Move p q

module _ (a : Answers) (u : Updates) where
  begin-Move : (g : ℕ) (t : List ℕ) → Move (phase u) (phase (update_begin a g t u).1)
  unfolding update_begin
  begin-Move g t =
      elim (Bool-cases
        (u.transaction.active || g == 0 || not (target_valid t) || not a.signature_authorized)) [
          | inl refused ↦ stays (ground arith)
          | inr fine ↦ elim (Bool-cases (not a.snapshot || not a.recorded)) [
            | inl broken ↦ aborts (ground arith) (ground arith)
            | inr done ↦ begins (ground arith) (ground arith)
          ]
        ]

  stage-Move : Move (phase u) (phase (update_stage a u).1)
  unfolding update_stage
  stage-Move = elim (Bool-cases (u.transaction.active && is_pending u.transaction.state)) [
    | inr refused ↦ stays (ground arith)
    | inl fine ↦ stages (ground arith) (ground arith) (ground arith)
  ]

  commit-Move : Move (phase u) (phase (update_commit a u).1)
  unfolding update_commit
  commit-Move = elim (Bool-cases (u.transaction.active && is_staged u.transaction.state)) [
    | inr refused ↦ stays (ground arith)
    | inl fine ↦ commits (ground arith) (ground arith) (ground arith)
  ]

  fail-Move : Move (phase u) (phase (update_fail a u).1)
  unfolding update_fail
  fail-Move = elim (Bool-cases (u.transaction.active && is_staged u.transaction.state)) [
    | inr refused ↦ stays (ground arith)
    | inl fine ↦ fails (ground arith) (ground arith) (ground arith)
  ]

  recover-Move : Move (phase u) (phase (update_recover_boot a u).1)
  unfolding update_recover_boot
  recover-Move =
      elim (Bool-cases
        (u.transaction.active && is_failed u.transaction.state && a.restored && a.fs_rolled_back)) [
          | inr refused ↦ stays (ground arith)
          | inl fine ↦ recovers (not a.recorded) (ground arith) (ground arith) (ground arith)
        ]

  roll_back-Move : Move (phase u) (phase (update_rollback a u).1)
  unfolding update_rollback
  roll_back-Move =
      elim (Bool-cases (
        u.transaction.active
        && is_committed u.transaction.state
        && a.rollback_authorized
        && a.restored
        && a.fs_rolled_back)) [
          | inr refused ↦ stays (ground arith)
          | inl fine ↦ rolls_back (not a.recorded) (ground arith) (ground arith) (ground arith)
        ]

  stage_bytes-Move : (bytes file : List ℕ) → Move (phase u) (phase (stage_bytes a bytes u file).1)
  unfolding stage_bytes
  stage_bytes-Move bytes file =
      elim (Bool-cases (u.transaction.active && is_pending u.transaction.state)) [
        | inr refused ↦ stays (ground arith)
        | inl fine ↦ elim (Bool-cases (phase_hashing (stage_bytes a bytes u file).1)) [
          | inl on ↦ hashes (ground arith) (ground arith) (ground arith)
          | inr off ↦ stays (ground arith)
        ]
      ]

  compare-Move :
      (expected computed : List ℕ)
      → u.transaction.active ≡ true
      → u.chunk_staging_active ≡ true
      → Move (phase u) (phase (compare_hash a expected u computed).1)
  unfolding compare_hash
  compare-Move expected computed on hashing = elim (Bool-cases (same_bytes computed expected)) [
    | inl same ↦ matches on hashing (ground arith)
    | inr other ↦ differs on hashing (ground arith)
  ]

  update_verify_hash-Move :
      (expected : Option (List ℕ)) {out : Status × Updates}
      → update_verify_hash a expected u ≡ some out
      → Move (phase u) (phase out.1)
  unfolding update_verify_hash
  update_verify_hash-Move none h = stays (ground arith)
  update_verify_hash-Move (some expected) {out} h =
      elim (Bool-cases (u.transaction.active && u.chunk_staging_active)) [
        | inr refused ↦ stays (ground arith)
        | inl fine ↦ elim (Option-cases (sha256_final u.chunk_hash)) [
          | inl stuck ↦ absurd (ground arith)
          | inr (computed, ends) ↦
              let result : compare_hash a expected u computed ≡ out = ground arith in
              subst (λ (r : Status × Updates). Move (phase u) (phase r.1)) result
                (compare-Move expected computed (ground arith) (ground arith))
        ]
      ]

  -- What a call that returns `x` does to the phase, by its result.
  by_result :
      {x out : Status × Updates}
      → some x ≡ some out
      → Move (phase u) (phase x.1)
      → Move (phase u) (phase out.1)
  by_result {x} {out} h m =
      let same : x ≡ out = cc in subst (λ (r : Status × Updates). Move (phase u) (phase r.1)) same m

  -- Every call on a transaction (beginning, staging, commit, failure, recovery, rollback, chunk and
  -- verification) that returns leaves it as it is, or moves it along the diagram `Move`; this holds
  -- whatever the other files answer.
  pub serve-Move :
      (c : Call) {out : Status × Updates} → serve a c u ≡ some out → Move (phase u) (phase out.1)
  unfolding serve
  serve-Move (begin g t) h = by_result h (begin-Move g t)
  serve-Move stage h = by_result h stage-Move
  serve-Move commit h = by_result h commit-Move
  serve-Move fail h = by_result h fail-Move
  serve-Move recover h = by_result h recover-Move
  serve-Move roll_back h = by_result h roll_back-Move
  serve-Move (stage_chunk none file) h = by_result h (stays refl)
  serve-Move (stage_chunk (some bytes) file) h = by_result h (stage_bytes-Move bytes file)
  serve-Move (verify_hash expected) h = update_verify_hash-Move expected h
