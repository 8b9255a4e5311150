-- ===== src/Update/Runs.antt =====
-- kernel/runtime/update.c: runs of calls, each with its answers, and what they preserve.
use osai.Prelude.{
  Status, ℕ, ◌≡◌, arith, ◌&&◌, Option, none, some, List, [], ◌∷◌, Bool-cases, Option-cases, inl,
  inr, subst,
}
use osai.Prelude.Status.{invalid}
use osai.Sha256.{sha256_final}
use osai.Update.{
  Updates, Answers, update_begin, update_stage, update_commit, update_fail, update_recover_boot,
  update_rollback, reject, set_error,
}
use osai.Update.Chunks.{stage_bytes, update_verify_hash, compare_hash}
use osai.Update.Diagram.{
  Call, begin, stage, commit, fail, recover, roll_back, stage_chunk, verify_hash, serve,
}

-- The state after some calls; none if one of them does not return.
unfoldable pub run : Updates → List (Answers × Call) → Option Updates
unfolding serve
run u [] = some u
run u ((a, c) ∷ calls) = elim (serve a c u) [ none ↦ none | some out ↦ run out.1 calls ]

-- A property that each operation preserves.
pub record Keeps (P : Updates → Type 0) : Type 0 where
  pub begins : (a : Answers) (g : ℕ) (t : List ℕ) {u : Updates} → P u → P (update_begin a g t u).1
  pub stages : (a : Answers) {u : Updates} → P u → P (update_stage a u).1
  pub commits : (a : Answers) {u : Updates} → P u → P (update_commit a u).1
  pub fails : (a : Answers) {u : Updates} → P u → P (update_fail a u).1
  pub recovers : (a : Answers) {u : Updates} → P u → P (update_recover_boot a u).1
  pub rolls_back : (a : Answers) {u : Updates} → P u → P (update_rollback a u).1
  pub delivers :
      (a : Answers) (bytes file : List ℕ) {u : Updates} → P u → P (stage_bytes a bytes u file).1
  pub compares :
      (a : Answers) (expected computed : List ℕ) {u : Updates}
      → P u
      → P (compare_hash a expected u computed).1
  pub refuses : {u : Updates} → P u → P (reject (set_error invalid u))

module _ {P : Updates → Type 0} (k : Keeps P) where
  by_result : {x out : Status × Updates} → some x ≡ some out → P x.1 → P out.1
  by_result {x} {out} h m =
      let same : x ≡ out = cc in subst (λ (r : Status × Updates). P r.1) same m

  update_verify_hash-keeps :
      (a : Answers) (expected : Option (List ℕ)) {u : Updates} {out : Status × Updates}
      → P u
      → update_verify_hash a expected u ≡ some out
      → P out.1
  unfolding update_verify_hash
  update_verify_hash-keeps a none p h = by_result h (k.refuses p)
  update_verify_hash-keeps a (some expected) {u} {out} p h =
      elim (Bool-cases (u.transaction.active && u.chunk_staging_active)) [
        | inr refused ↦
            let result : reject (set_error invalid u) ≡ out.1 = ground arith in
            subst P result (k.refuses p)
        | inl fine ↦ elim (Option-cases (sha256_final u.chunk_hash)) [
          | inl stuck ↦ absurd (ground arith)
          | inr (computed, ends) ↦
              let result : compare_hash a expected u computed ≡ out = ground arith in
              subst (λ (r : Status × Updates). P r.1) result (k.compares a expected computed p)
        ]
      ]

  pub serve-keeps :
      (a : Answers) (c : Call) {u : Updates} {out : Status × Updates}
      → P u
      → serve a c u ≡ some out
      → P out.1
  unfolding serve
  serve-keeps a (begin g t) p h = by_result h (k.begins a g t p)
  serve-keeps a stage p h = by_result h (k.stages a p)
  serve-keeps a commit p h = by_result h (k.commits a p)
  serve-keeps a fail p h = by_result h (k.fails a p)
  serve-keeps a recover p h = by_result h (k.recovers a p)
  serve-keeps a roll_back p h = by_result h (k.rolls_back a p)
  serve-keeps a (stage_chunk none file) p h = by_result h (k.refuses p)
  serve-keeps a (stage_chunk (some bytes) file) p h = by_result h (k.delivers a bytes file p)
  serve-keeps a (verify_hash expected) p h = update_verify_hash-keeps a expected p h

  pub run-keeps :
      (u : Updates) (calls : List (Answers × Call)) {u' : Updates}
      → P u
      → run u calls ≡ some u'
      → P u'
  unfolding run
  run-keeps u [] p h = let same : u ≡ _ = cc in subst P same p
  run-keeps u ((a, c) ∷ calls) p h = elim (Option-cases (serve a c u)) [
    | inl stops ↦ absurd (ground arith)
    | inr (out, serves) ↦ run-keeps out.1 calls (serve-keeps a c p serves) (ground arith)
  ]
