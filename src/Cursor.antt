-- ===== src/Cursor.antt =====
-- elastic_data_cursor_ledger.py: the prepare/commit/abort ledger of the global data cursor. The two
-- SQLite tables are lists of rows; a row holds the values that the source stores as JSON text and
-- reads back. The columns with times are written and never read, and are left out.
pub mod Types
pub mod Storage
pub mod Steps
pub mod Schedule
pub mod Ranges
pub mod Kept
pub mod Fences
pub mod ExactlyOnce
mod Tests
use acvjepa_project.Prelude.{
  if◌then◌else◌, string_eq, nat_eq, ◌==◌, length, any, same_set, Result, ok, err, Exec, pure, gets,
  lift, or_raise, transaction, ◌>>=◌, ◌>>◌, raise_if, modify, check, ℕ, ◌+◌, String, Bool, true,
  false, not, ◌&&◌, ◌||◌, Option, none, some, List, [], ◌∷◌, ◌++◌,
}
use acvjepa_project.Prelude.Int.{ℤ, pos, int_eq}
use acvjepa_project.Prelude.Json.{str, int, obj, end, field}
use acvjepa_project.Prelude.Text.{is_blank, prefix, concat}
use acvjepa_project.Prelude.Table.{select_one, update}
use acvjepa_project.Prelude.Hashing.{Hashing, digest_of}
use acvjepa_project.Cursor.Types.{
  CursorError, blank_reason, unknown_run_key, unknown_attempt, integrity_error, manifest_collision,
  already_prepared, wrong_work_range, not_abortable, stale_identity, not_prepared, identity_changed,
  cursor_moved, different_manifest, world_size_differs, stale_topology, manifest_hash_differs,
  GlobalWorkManifest, work_ids, validate_manifest, manifest_digest, slice, ElasticIdentity,
  validate_identity, identity_beq, identity_json, CursorBoundPlan, all_work_ids, validate_plan,
  CheckpointArtifact, validate_checkpoint, checkpoint_json,
}
use acvjepa_project.Cursor.Storage.{Files, checkpoint_bytes_match}

pub record CommittedCursor : Type 0 where
  pub commit_id : String
  pub committed_step : ℕ
  pub next_offset : ℕ
  pub checkpoint : CheckpointArtifact
  pub dataset_commit : String
  pub manifest_digest : String
  pub committed_world_size : ℤ
  pub committed_topology_epoch : String
  pub committed_work_manifest_digest : String

pub data AttemptStatus : Type 0 where
  prepared aborted committed : AttemptStatus

abbrev pub is_prepared : AttemptStatus → Bool
is_prepared prepared = true
is_prepared _ = false

-- A row of `committed_cursors`.
pub record CursorRow : Type 0 where
  pub run_key : String
  pub cursor : CommittedCursor

-- A row of `update_attempts`.
pub record AttemptRow : Type 0 where
  pub attempt_id : String
  pub run_key : String
  pub parent_commit_id : String
  pub start_offset : ℕ
  pub end_offset : ℕ
  pub plan : CursorBoundPlan
  pub identity : ElasticIdentity
  pub global_work_ids : List String
  pub status : AttemptStatus
  pub checkpoint : Option CheckpointArtifact
  pub reason : Option String

pub record Ledger : Type 0 where
  pub cursors : List CursorRow
  pub attempts : List AttemptRow

pub record UpdateReservation : Type 0 where
  pub attempt_id : String
  pub parent_commit_id : String
  pub start_offset : ℕ
  pub end_offset : ℕ
  pub plan : CursorBoundPlan
  pub reserved_global_work_ids : List String
  pub elastic_identity : ElasticIdentity

abbrev pub Action : Type 0 → Type 0
Action = Exec CursorError Ledger

abbrev pub empty : Ledger
empty = record { cursors = []; attempts = [] }

abbrev pub cursor_of : String → Ledger → Option CursorRow
cursor_of key l = select_one (λ r. r.run_key == key) l.cursors

abbrev pub attempt_of : String → Ledger → Option AttemptRow
attempt_of id l = select_one (λ r. r.attempt_id == id) l.attempts

-- `WHERE run_key=? AND status='PREPARED'`
abbrev pub prepared_for : String → AttemptRow → Bool
prepared_for key r = r.run_key == key && is_prepared r.status

unfoldable pub latest_committed : String → Action CommittedCursor
latest_committed key = do row ← or_raise (← gets (cursor_of key)) unknown_run_key; pure row.cursor

module _ (h : Hashing) where
  -- `_validate_cursor_manifest`
  unfoldable pub validate_cursor_manifest :
      CommittedCursor → GlobalWorkManifest → Result CursorError (Unit {0})
  validate_cursor_manifest c m = elim (manifest_digest h m) [
    | err e ↦ err e
    | ok d ↦
        check (c.dataset_commit == m.dataset_commit && c.manifest_digest == d) different_manifest
  ]

  -- `_validate_plan_identity`
  unfoldable pub validate_plan_identity :
      CursorBoundPlan → ElasticIdentity → GlobalWorkManifest → Result CursorError (Unit {0})
  validate_plan_identity p i m =
      if not (p.world_size == i.world_size)
      then err world_size_differs
      else if not (p.topology_epoch == i.topology_epoch && p.topology_digest == i.topology_digest)
      then err stale_topology
      else elim (manifest_digest h m) [
        | err e ↦ err e
        | ok d ↦ check (p.work_manifest_digest == d) manifest_hash_differs
      ]

  unfoldable pub genesis_id : String → CheckpointArtifact → String → String
  genesis_id key c d = concat "genesis-" (
      prefix 16 (
        digest_of h (
          obj (
            field "run_key" (str key)
              (field "checkpoint" (checkpoint_json c) (field "manifest" (str d) end))))))

  unfoldable pub commit_id_of : String → String → CheckpointArtifact → ℕ → ElasticIdentity → String
  commit_id_of parent attempt c stop i = concat "commit-" (
      prefix 16 (
        digest_of h (
          obj (
            field "parent" (str parent) (
              field "attempt" (str attempt) (
                field "checkpoint" (checkpoint_json c) (
                  field "end_offset" (int (pos stop))
                    (field "identity" (identity_json i) end))))))))

  abbrev pub genesis :
      String → GlobalWorkManifest → CheckpointArtifact → ElasticIdentity → String → CommittedCursor
  genesis key m c i d = record {
    commit_id = genesis_id key c d;
    committed_step = 0;
    next_offset = 0;
    checkpoint = c;
    dataset_commit = m.dataset_commit;
    manifest_digest = d;
    committed_world_size = i.world_size;
    committed_topology_epoch = i.topology_epoch;
    committed_work_manifest_digest = d;
  }

  -- The body of `bootstrap`'s transaction, on the row that is there.
  abbrev insert_or_check :
      String → GlobalWorkManifest → CommittedCursor → Option CursorRow → Action CommittedCursor
  insert_or_check key m initial none l = (
    ok initial,
    record l { cursors = l.cursors ++ record { run_key = key; cursor = initial } ∷ [] },
  )
  insert_or_check key m initial (some old) l =
      if old.cursor.dataset_commit == m.dataset_commit
        && old.cursor.manifest_digest == initial.manifest_digest
      then (ok old.cursor, l)
      else (err manifest_collision, l)

  unfoldable pub bootstrap :
      String → GlobalWorkManifest → CheckpointArtifact → ElasticIdentity → Action CommittedCursor
  unfolding genesis_id
  bootstrap key m c i = do
    lift (validate_manifest m)
    lift (validate_checkpoint c)
    lift (validate_identity i)
    d ← lift (manifest_digest h m)
    transaction (do old ← gets (cursor_of key); insert_or_check key m (genesis key m c i d) old)

  -- `uuid` is the fresh `uuid4().hex`.
  unfoldable pub prepare_next_update :
      String
      → String
      → GlobalWorkManifest
      → CursorBoundPlan
      → ElasticIdentity
      → Action UpdateReservation
  unfolding latest_committed
  prepare_next_update uuid key m p i = do
    lift (validate_manifest m)
    lift (validate_plan p)
    lift (validate_identity i)
    lift (validate_plan_identity p i m)
    transaction (do
      cursor ← latest_committed key
      lift (validate_cursor_manifest cursor m)
      raise_if (← gets (λ l. any (prepared_for key) l.attempts)) already_prepared
      let start = cursor.next_offset
      let stop = start + length (all_work_ids p)
      expected ← lift (slice m start stop)
      let ids = work_ids expected
      raise_if (not (same_set (all_work_ids p) ids) || not (length (all_work_ids p) == length ids))
          wrong_work_range
      let id = concat "attempt-" uuid
      raise_if (← gets (λ l. any (λ r. r.attempt_id == id) l.attempts)) integrity_error
      modify (λ l. record l {
        attempts =
            l.attempts
            ++ record {
              attempt_id = id;
              run_key = key;
              parent_commit_id = cursor.commit_id;
              start_offset = start;
              end_offset = stop;
              plan = p;
              identity = i;
              global_work_ids = ids;
              status = prepared;
              checkpoint = none;
              reason = none;
            }
              ∷ [];
      })
      pure (record {
        attempt_id = id;
        parent_commit_id = cursor.commit_id;
        start_offset = start;
        end_offset = stop;
        plan = p;
        reserved_global_work_ids = ids;
        elastic_identity = i;
      }))

abbrev pub set_aborted : String → AttemptRow → AttemptRow
set_aborted why r = record r { status = aborted; reason = some why }

unfoldable pub abort_uncommitted : String → String → Action (Unit {0})
abort_uncommitted id reason = do
  raise_if (is_blank reason) blank_reason
  transaction (do
    row ← or_raise (← gets (attempt_of id)) unknown_attempt
    raise_if (not (is_prepared row.status)) not_abortable
    modify (λ l. record l {
      attempts = update (λ r. r.attempt_id == id) (set_aborted reason) l.attempts;
    }))

unfoldable pub recover_after_rendezvous :
    Hashing → String → GlobalWorkManifest → ElasticIdentity → String → Action CommittedCursor
unfolding latest_committed
recover_after_rendezvous h key m i reason = do
  lift (validate_manifest m)
  lift (validate_identity i)
  transaction (do
    cursor ← latest_committed key
    lift (validate_cursor_manifest h cursor m)
    modify (λ l. record l {
      attempts =
          update (prepared_for key) (set_aborted (concat "rendezvous_rebuild:" reason)) l.attempts;
    })
    raise_if (i.topology_epoch == cursor.committed_topology_epoch && i.restart_count == pos 0)
        stale_identity
    pure cursor)

module _ (h : Hashing) (fs : Files) where
  abbrev pub advance :
      CommittedCursor → AttemptRow → CheckpointArtifact → ElasticIdentity → CommittedCursor
  advance cursor row c i = record cursor {
    commit_id = commit_id_of h cursor.commit_id row.attempt_id c row.end_offset i;
    committed_step = cursor.committed_step + 1;
    next_offset = row.end_offset;
    checkpoint = c;
    committed_world_size = i.world_size;
    committed_topology_epoch = i.topology_epoch;
    committed_work_manifest_digest = row.plan.work_manifest_digest;
  }

  unfoldable pub commit_update :
      String → GlobalWorkManifest → CheckpointArtifact → ElasticIdentity → Action CommittedCursor
  unfolding latest_committed commit_id_of
  commit_update id m c i = do
    lift (validate_manifest m)
    lift (validate_checkpoint c)
    lift (validate_identity i)
    transaction (do
      row ← or_raise (← gets (attempt_of id)) not_prepared
      raise_if (not (is_prepared row.status)) not_prepared
      raise_if (not (identity_beq row.identity i)) identity_changed
      lift (validate_plan_identity h row.plan i m)
      cursor ← latest_committed row.run_key
      raise_if
          (not (cursor.commit_id == row.parent_commit_id)
            || not (cursor.next_offset == row.start_offset))
          cursor_moved
      lift (checkpoint_bytes_match h fs c)
      modify (λ l. record {
        cursors =
            update (λ r. r.run_key == row.run_key)
              (λ r. record r { cursor = advance cursor row c i }) l.cursors;
        attempts =
            update (λ r. r.attempt_id == id)
              (λ r. record r { status = committed; checkpoint = some c }) l.attempts;
      })
      latest_committed row.run_key)
