-- ===== src/Update.antt =====
-- kernel/runtime/update.c: the transaction of a system update, its states and counters, and the
-- delivery of the new image in chunks. What the calls into mutable_fs.c, persistence.c and
-- security.c return is an argument, `Answers`.
pub mod Target
pub mod Chunks
pub mod Diagram
pub mod Runs
pub mod Stuck
pub mod Image
pub mod Delivered
pub mod Balance
pub mod Manifest
pub mod Render
pub mod RoundTrip
pub mod Parsed
pub mod Returns
mod Tests
use osai.Prelude.{
  Status, ℕ, ◌+◌, ◌^◌, Bool, true, false, not, ◌&&◌, ◌||◌, Option, none, some, List, [], ◌∷◌,
  length, ltb, ◌==◌, if◌then◌else◌, add32, add64,
}
use osai.Prelude.Status.{ok, invalid, io}
use osai.Sha256.{Context, sha256_init, sha256_update, sha256_final}
use osai.Update.Target.{target_valid, copy_token}

-- `xaios_update_state_t`
pub data UpdateState : Type 0 where
  idle pending staged committed failed recovered rolled_back : UpdateState

abbrev pub is_pending : UpdateState → Bool
is_pending pending = true
is_pending _ = false

abbrev pub is_staged : UpdateState → Bool
is_staged staged = true
is_staged _ = false

abbrev pub is_committed : UpdateState → Bool
is_committed committed = true
is_committed _ = false

abbrev pub is_failed : UpdateState → Bool
is_failed failed = true
is_failed _ = false

-- `xaios_update_transaction_t`
pub record Transaction : Type 0 where
  pub active : Bool
  pub generation : ℕ
  pub state : UpdateState
  pub target : List ℕ
  pub rollback_label : List ℕ

-- `xaios_update_delivery_status_t`
pub record Delivery : Type 0 where
  pub bytes_received : ℕ
  pub bytes_expected : ℕ
  pub chunks_written : ℕ
  pub hash_verified : Bool
  pub last_error : Status

-- The variables of the file.
pub record Updates : Type 0 where
  pub transaction : Transaction
  pub transactions : ℕ
  pub stages : ℕ
  pub commits : ℕ
  pub failures : ℕ
  pub recoveries : ℕ
  pub rollbacks : ℕ
  pub boot_fallbacks : ℕ
  pub records_persisted : ℕ
  pub rollback_points : ℕ
  pub rejects : ℕ
  pub delivery : Delivery
  pub chunk_hash : Context
  pub chunk_staging_active : Bool

-- What the other files answer during one call: `recorded` is mutable_fs_record_update_transaction,
-- `snapshot` is persistence_snapshot_create, `restored` is persistence_rollback, the two after it
-- are mutable_fs_commit and mutable_fs_rollback, `opened` is mutable_fs_open and `written` is
-- mutable_fs_write_fd.
pub record Answers : Type 0 where
  pub signature_authorized : Bool
  pub rollback_authorized : Bool
  pub recorded : Bool
  pub snapshot : Bool
  pub restored : Bool
  pub fs_committed : Bool
  pub fs_rolled_back : Bool
  pub opened : Bool
  pub written : Bool

-- "++g_rejects"
abbrev pub reject : Updates → Updates
reject u = record u { rejects = add64 u.rejects 1 }

abbrev pub set_state : UpdateState → Updates → Updates
set_state s u = record u { transaction = record u.transaction { state = s } }

-- "g_update.active = 0"
abbrev pub end_transaction : Updates → Updates
end_transaction u = record u { transaction = record u.transaction { active = false } }

-- "g_delivery.last_error = e"
abbrev pub set_error : Status → Updates → Updates
set_error e u = record u { delivery = record u.delivery { last_error = e } }

-- The zeros of `bytes_zero`.
abbrev pub no_transaction : Transaction
no_transaction = record {
  active = false;
  generation = 0;
  state = idle;
  target = [];
  rollback_label = [];
}

abbrev pub no_delivery : Delivery
no_delivery = record {
  bytes_received = 0;
  bytes_expected = 0;
  chunks_written = 0;
  hash_verified = false;
  last_error = ok;
}

-- "update-rp"
abbrev pub update_rp : List ℕ
update_rp = b'u' ∷ b'p' ∷ b'd' ∷ b'a' ∷ b't' ∷ b'e' ∷ b'-' ∷ b'r' ∷ b'p' ∷ []

-- `reset_transaction`
abbrev pub reset_transaction : Updates → Updates
reset_transaction u = record u { transaction = no_transaction }

-- `persist_update_state`
unfoldable pub persist_update_state : Answers → Updates → Bool × Updates
persist_update_state a u =
    if a.recorded
    then (true, record u { records_persisted = add64 u.records_persisted 1 })
    else (false, reject u)

-- `update_runtime_init`; the context of the hash keeps its value.
unfoldable pub update_runtime_init : Updates → Updates
update_runtime_init u = record u {
  transaction = no_transaction;
  transactions = 0;
  stages = 0;
  commits = 0;
  failures = 0;
  recoveries = 0;
  rollbacks = 0;
  boot_fallbacks = 0;
  records_persisted = 0;
  rollback_points = 0;
  rejects = 0;
  delivery = no_delivery;
  chunk_staging_active = false;
}

-- The transaction that `update_begin` writes.
abbrev pub opened_transaction : ℕ → List ℕ → Transaction
opened_transaction generation target = record {
  active = true;
  generation = generation;
  state = pending;
  target = copy_token 32 target;
  rollback_label = copy_token 32 update_rp;
}

-- `update_begin`. A null target is refused like an empty one.
unfoldable pub update_begin : Answers → ℕ → List ℕ → Updates → Status × Updates
unfolding persist_update_state
update_begin a generation target u =
    let opened = record u { transaction = opened_transaction generation target } in
    let (kept, u') = persist_update_state a opened in
    if u.transaction.active
      || generation == 0
      || not (target_valid target)
      || not a.signature_authorized
    then (invalid, reject u)
    else if not a.snapshot
    then (io, reject (reset_transaction opened))
    else if not kept
    then (io, reset_transaction u')
    else (
      ok,
      record u' {
        transactions = add64 u'.transactions 1;
        rollback_points = add64 u'.rollback_points 1;
      },
    )

-- `update_stage`
unfoldable pub update_stage : Answers → Updates → Status × Updates
unfolding persist_update_state
update_stage a u =
    let (kept, u') = persist_update_state a (set_state staged u) in
    if not u.transaction.active || not (is_pending u.transaction.state)
    then (invalid, reject u)
    else if not kept || not a.fs_committed
    then (io, reject u')
    else (ok, record u' { stages = add64 u'.stages 1 })

-- `update_commit`
unfoldable pub update_commit : Answers → Updates → Status × Updates
unfolding persist_update_state
update_commit a u =
    let (kept, u') = persist_update_state a (set_state committed u) in
    if not u.transaction.active || not (is_staged u.transaction.state)
    then (invalid, reject u)
    else if not kept || not a.fs_committed
    then (io, reject u')
    else (ok, record u' { commits = add64 u'.commits 1 })

-- `update_fail`
unfoldable pub update_fail : Answers → Updates → Status × Updates
unfolding persist_update_state
update_fail a u =
    let (kept, u') = persist_update_state a (set_state failed u) in
    if not u.transaction.active || not (is_staged u.transaction.state)
    then (invalid, reject u)
    else if not kept
    then (io, reject u')
    else (ok, record u' { failures = add64 u'.failures 1 })

-- `update_recover_boot`
unfoldable pub update_recover_boot : Answers → Updates → Status × Updates
unfolding persist_update_state
update_recover_boot a u =
    let (kept, u') = persist_update_state a (set_state recovered u) in
    if not u.transaction.active || not (is_failed u.transaction.state)
    then (invalid, reject u)
    else if not a.restored || not a.fs_rolled_back
    then (io, reject u)
    else if not kept
    then (io, reject u')
    else (
      ok,
      end_transaction (record u' {
        recoveries = add64 u'.recoveries 1;
        boot_fallbacks = add64 u'.boot_fallbacks 1;
      }),
    )

-- `update_rollback`
unfoldable pub update_rollback : Answers → Updates → Status × Updates
unfolding persist_update_state
update_rollback a u =
    let (kept, u') = persist_update_state a (set_state rolled_back u) in
    if not u.transaction.active
      || not (is_committed u.transaction.state)
      || not a.rollback_authorized
    then (invalid, reject u)
    else if not a.restored || not a.fs_rolled_back
    then (io, reject u)
    else if not kept
    then (io, reject u')
    else (ok, end_transaction (record u' { rollbacks = add64 u'.rollbacks 1 }))
