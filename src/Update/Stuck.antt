-- ===== src/Update/Stuck.antt =====
-- kernel/runtime/update.c: which transactions can come to an end, and which cannot.
use osai.Prelude.{
  add64, subst, sym, ℕ, ◌≡◌, ◌≢◌, refl, arith, true, false, ◌&&◌, none, some, List, [], ◌∷◌, ◌⊎◌,
  inl, inr,
}
use osai.Prelude.Status.{ok, invalid, io}
use osai.Update.{
  UpdateState, pending, staged, committed, failed, recovered, Updates, Answers, update_begin,
  update_stage, update_commit, update_fail, update_recover_boot, update_rollback, reject, set_error,
}
use osai.Update.Target.{target_valid}
use osai.Update.Chunks.{update_stage_chunk}
use osai.Update.Diagram.{
  Call, begin, stage, commit, fail, recover, roll_back, stage_chunk, verify_hash, serve,
}
use osai.Update.Runs.{run}

-- An open transaction that the recovery has already undone, with no hash under way.
pub record IsStuck (u : Updates) : Type 0 where
  pub active : u.transaction.active ≡ true
  pub state : u.transaction.state ≡ recovered
  pub hashing : u.chunk_staging_active ≡ false

-- No call gets it further.
serve-IsStuck :
    (a : Answers) (c : Call) (u : Updates)
    → IsStuck u
    → (u' : Updates) × (serve a c u ≡ some (invalid, u')) × IsStuck u'
unfolding serve
serve-IsStuck a (begin g t) u k = ((update_begin a g t u).1, ground arith, ground arith)
serve-IsStuck a stage u k = ((update_stage a u).1, ground arith, ground arith)
serve-IsStuck a commit u k = ((update_commit a u).1, ground arith, ground arith)
serve-IsStuck a fail u k = ((update_fail a u).1, ground arith, ground arith)
serve-IsStuck a recover u k = ((update_recover_boot a u).1, ground arith, ground arith)
serve-IsStuck a roll_back u k = ((update_rollback a u).1, ground arith, ground arith)
serve-IsStuck a (stage_chunk none file) u k =
    ((update_stage_chunk a none u file).1, ground arith, ground arith)
serve-IsStuck a (stage_chunk (some bytes) file) u k =
    ((update_stage_chunk a (some bytes) u file).1, ground arith, ground arith)
serve-IsStuck a (verify_hash none) u k = (reject (set_error invalid u), ground arith, ground arith)
serve-IsStuck a (verify_hash (some expected)) u k =
    (reject (set_error invalid u), ground arith, ground arith)

run-IsStuck :
    (u : Updates) (calls : List (Answers × Call))
    → IsStuck u
    → (u' : Updates) × (run u calls ≡ some u') × IsStuck u'
unfolding run
run-IsStuck u [] k = (u, refl, k)
run-IsStuck u ((a, c) ∷ calls) k =
    let (v, serves, k') = serve-IsStuck a c u k in
    let (u', runs, k'') = run-IsStuck v calls k' in (u', rw (serves, run) runs, k'')

-- A recovery at boot of a failed transaction, with no hash under way, that restores the checkpoint and
-- the file system but cannot write its record returns ERR_IO and leaves the transaction open as
-- RECOVERED. From there, after any calls on the transaction with any answers, each such call, a
-- beginning included, returns ERR_INVALID, and the transaction is open and RECOVERED still.
pub update_recover_boot-IsStuck :
    (a : Answers) (u : Updates)
    → u.transaction.active ≡ true
    → u.transaction.state ≡ failed
    → u.chunk_staging_active ≡ false
    → a.restored ≡ true
    → a.fs_rolled_back ≡ true
    → a.recorded ≡ false
    → ((update_recover_boot a u).0 ≡ io)
      × ((calls : List (Answers × Call)) (b : Answers) (c : Call)
          → (u' : Updates) × (u'' : Updates) × (run (update_recover_boot a u).1 calls ≡ some u')
            × (serve b c u' ≡ some (invalid, u''))
            × IsStuck u'')
unfolding update_recover_boot
update_recover_boot-IsStuck a u on bad hash restored back lost = (
  ground arith,
  λ calls b c.
      let (u', runs, k) = run-IsStuck (update_recover_boot a u).1 calls (ground arith) in
      let (u'', serves, k') = serve-IsStuck b c u' k in (u', u'', runs, serves, k'),
)

-- Staging that cannot write its record or commit the file system returns ERR_IO and counts no stage,
-- but the next commit goes through if its own writes do.
pub update_stage-update_commit :
    (a b : Answers) (u : Updates)
    → u.transaction.active ≡ true
    → u.transaction.state ≡ pending
    → (a.recorded && a.fs_committed) ≡ false
    → b.recorded ≡ true
    → b.fs_committed ≡ true
    → let (e, u') = update_stage a u in
      let (e', u'') = update_commit b u' in
      (e ≡ io)
      × (e' ≡ ok)
      × (u''.transaction.state ≡ committed)
      × (u''.stages ≡ u.stages)
      × (u''.commits ≡ add64 u.commits 1)
unfolding update_stage update_commit
update_stage-update_commit a b u on waits lost kept done = ground arith

-- Other files that refuse nothing.
abbrev pub willing : Answers
willing = record {
  signature_authorized = true;
  rollback_authorized = true;
  recorded = true;
  snapshot = true;
  restored = true;
  fs_committed = true;
  fs_rolled_back = true;
  opened = true;
  written = true;
}

-- The calls that end a transaction in a state.
abbrev pub ending : UpdateState → List (Answers × Call)
ending pending = (willing, stage) ∷ (willing, fail) ∷ (willing, recover) ∷ []
ending staged = (willing, fail) ∷ (willing, recover) ∷ []
ending failed = (willing, recover) ∷ []
ending committed = (willing, roll_back) ∷ []
ending _ = []

-- The states from which a transaction can be ended.
abbrev pub CanEnd : UpdateState → Type 0
CanEnd s = (s ≡ pending) ⊎ (s ≡ staged) ⊎ (s ≡ failed) ⊎ (s ≡ committed)

-- What ends a transaction that is open and failed.
abbrev recovering : Updates → Updates
recovering u = (update_recover_boot willing u).1

abbrev failing : Updates → Updates
failing u = recovering (update_fail willing u).1

-- A state in which an authorised update begins.
Ready : ℕ → List ℕ → UpdateState → Updates → Type 0
Ready g t s u =
    (u' : Updates) × (run u (ending s) ≡ some u') × ((update_begin willing g t u').0 ≡ ok)

module _ (u : Updates) (g : ℕ) (t : List ℕ) (on : u.transaction.active ≡ true) (some_g : g ≢ 0)
    (valid : target_valid t ≡ true) where
  failed-Ready : u.transaction.state ≡ failed → Ready g t failed u
  unfolding Ready run serve update_recover_boot update_begin
  failed-Ready e = (recovering u, ground arith, ground arith)

  staged-Ready : u.transaction.state ≡ staged → Ready g t staged u
  unfolding Ready run serve update_fail update_recover_boot update_begin
  staged-Ready e = (failing u, ground arith, ground arith)

  pending-Ready : u.transaction.state ≡ pending → Ready g t pending u
  unfolding Ready run serve update_stage update_fail update_recover_boot update_begin
  pending-Ready e = (failing (update_stage willing u).1, ground arith, ground arith)

  committed-Ready : u.transaction.state ≡ committed → Ready g t committed u
  unfolding Ready run serve update_rollback update_begin
  committed-Ready e = ((update_rollback willing u).1, ground arith, ground arith)

-- An open transaction that is pending, staged, failed or committed is ended by at most three calls,
-- if the other files refuse nothing; then an authorised update with a generation and a valid target
-- begins.
pub ending-update_begin :
    (u : Updates) (g : ℕ) (t : List ℕ)
    → u.transaction.active ≡ true
    → CanEnd u.transaction.state
    → g ≢ 0
    → target_valid t ≡ true
    → (u' : Updates) × (run u (ending u.transaction.state) ≡ some u')
      × ((update_begin willing g t u').0 ≡ ok)
unfolding Ready
ending-update_begin u g t on (inl e) some_g valid =
    subst (λ s. Ready g t s u) (sym e) (pending-Ready u g t on some_g valid e)
ending-update_begin u g t on (inr (inl e)) some_g valid =
    subst (λ s. Ready g t s u) (sym e) (staged-Ready u g t on some_g valid e)
ending-update_begin u g t on (inr (inr (inl e))) some_g valid =
    subst (λ s. Ready g t s u) (sym e) (failed-Ready u g t on some_g valid e)
ending-update_begin u g t on (inr (inr (inr e))) some_g valid =
    subst (λ s. Ready g t s u) (sym e) (committed-Ready u g t on some_g valid e)
