-- ===== src/Cursor/Tests.antt =====
-- A failed update that is replayed after a rendezvous, as in `run_smoke_test`, and each theorem at it.
use acvjepa_project.Prelude.Int.{pos}
use acvjepa_project.Prelude.Text.{is_sha256_hex, is_blank, prefix}
use acvjepa_project.Prelude.Table.{count}
use acvjepa_project.Prelude.Hashing.{digest_of, transparent}
use mathlib.Core.List.{flatten}
use acvjepa_project.Prelude.{
  ok, err, ◌≤◌, String, ◌≡◌, refl, false, none, some, List, [], ◌∷◌, arith,
}
use acvjepa_project.Cursor.{
  CommittedCursor, prepared, AttemptRow, Ledger, empty, attempt_of, prepared_for, latest_committed,
  validate_cursor_manifest, validate_plan_identity, genesis, bootstrap, prepare_next_update,
  abort_uncommitted, recover_after_rendezvous, commit_update,
}
use acvjepa_project.Cursor.Types.{
  CursorError, unknown_attempt, WorkWindow, GlobalWorkManifest, validate_manifest, manifest_json,
  manifest_digest, slice, ElasticIdentity, validate_identity, CursorBoundPlan, validate_plan,
  CheckpointArtifact, validate_checkpoint,
}
use acvjepa_project.Cursor.Storage.{Files, checkpoint_bytes_match}
use acvjepa_project.Cursor.Schedule.{
  Op, prepare, abort, recover, commit, step, outcome, consumes, run, consumed, performed, times_in,
  IsConsistent,
}
use acvjepa_project.Cursor.Fences.{recover_fences, failed_changes_nothing, run_one_prepared}
use acvjepa_project.Cursor.ExactlyOnce.{run-IsConsistent}

abbrev hash_a : String
hash_a = "0123456789abcdef0123456789abcdef0123456789abcdef0123456789abcdef"

abbrev window : String → WorkWindow
window id = record { work_id = id; provenance_hash = "source"; cost_units = pos 1 }

abbrev manifest : GlobalWorkManifest
manifest = record {
  dataset_commit = "dataset-commit-demo";
  ordered_windows = window "work-0" ∷ window "work-1" ∷ window "work-2" ∷ [];
}

abbrev digest : String
digest = digest_of transparent (manifest_json manifest)

abbrev checkpoint : CheckpointArtifact
checkpoint = record {
  uri = "file:///genesis.pt";
  sha256 = hash_a;
  model_state_hash = hash_a;
  ema_state_hash = hash_a;
  optimizer_state_hash = hash_a;
  validation_hash = hash_a;
}

-- Every file has the bytes `hash_a`, whose transparent digest is `hash_a`.
abbrev files : Files
files = record { windows = false; uri_path = λ u. "/genesis.pt"; read = λ p. some hash_a }

abbrev identity0 : ElasticIdentity
identity0 = record {
  run_id = "run-demo";
  restart_count = pos 0;
  world_size = pos 2;
  topology_epoch = "epoch-initial";
  topology_digest = "topology-initial";
}

abbrev identity1 : ElasticIdentity
identity1 = record identity0 {
  restart_count = pos 1;
  topology_epoch = "epoch-after";
  topology_digest = "topology-after";
}

abbrev plan : ElasticIdentity → CursorBoundPlan
plan i = record {
  plan_version = pos 1;
  topology_epoch = i.topology_epoch;
  topology_digest = i.topology_digest;
  work_manifest_digest = digest;
  world_size = pos 2;
  rank_work_ids = ("work-1" ∷ []) ∷ ("work-0" ∷ []) ∷ [];
}

abbrev base : Ledger
base = record {
  cursors =
      record {
        run_key = "run-demo";
        cursor = genesis transparent "run-demo" manifest checkpoint identity0 digest;
      }
      ∷ [];
  attempts = [];
}

abbrev schedule : List Op
schedule =
    prepare "a" "run-demo" manifest (plan identity0) identity0
    ∷ abort "attempt-a" "node_lost_during_final_allreduce"
    ∷ recover "run-demo" manifest identity1 "node-a-replaced"
    ∷ prepare "b" "run-demo" manifest (plan identity1) identity1
    ∷ commit "attempt-a" manifest checkpoint identity0
    ∷ commit "attempt-b" manifest checkpoint identity1
    ∷ []

bootstraps : (bootstrap transparent "run-demo" manifest checkpoint identity0 empty).1 ≡ base
unfolding bootstrap validate_manifest validate_checkpoint validate_identity manifest_digest
    is_sha256_hex
bootstraps = refl

replayed : consumed transparent files "run-demo" schedule base ≡ "work-0" ∷ "work-1" ∷ []
unfolding consumed step consumes bootstrap prepare_next_update abort_uncommitted
    recover_after_rendezvous commit_update validate_manifest validate_checkpoint validate_identity
    validate_plan validate_plan_identity validate_cursor_manifest manifest_digest slice
    checkpoint_bytes_match is_sha256_hex is_blank flatten transparent prefix
replayed = refl

abbrev order : List String
order = "work-0" ∷ "work-1" ∷ "work-2" ∷ []

base-IsConsistent : IsConsistent "run-demo" digest order base []
base-IsConsistent = record {
  rows = tt;
  row = record {
    run_key = "run-demo";
    cursor = genesis transparent "run-demo" manifest checkpoint identity0 digest;
  };
  found = refl;
  digest = refl;
  inside = omega arith;
  done = refl;
}

run-IsConsistent_example :
    IsConsistent "run-demo" digest order
      (run transparent files schedule base)
      (consumed transparent files "run-demo" schedule base)
    × ((id : String)
        → times_in id (performed transparent files "run-demo" schedule base)
          ≡ times_in id (consumed transparent files "run-demo" schedule base))
run-IsConsistent_example =
    run-IsConsistent transparent files "run-demo" digest order schedule base []
      (λ _. refl, (tt, (tt, (λ _. refl, (tt, (tt, tt)))))) base-IsConsistent

run_one_prepared_example :
    count (prepared_for "run-demo") (run transparent files schedule base).attempts ≤ 1
run_one_prepared_example = run_one_prepared transparent files "run-demo" schedule base (omega arith)

unknown_fails : outcome transparent files (abort "attempt-z" "gone") base ≡ err unknown_attempt
unfolding outcome abort_uncommitted is_blank
unknown_fails = refl

failed_changes_nothing_example : step transparent files (abort "attempt-z" "gone") base ≡ base
failed_changes_nothing_example =
    failed_changes_nothing transparent files (abort "attempt-z" "gone") base unknown_attempt
      unknown_fails

abbrev waiting : Ledger
waiting = record base {
  attempts =
      record {
        attempt_id = "attempt-a";
        run_key = "run-demo";
        parent_commit_id = "genesis";
        start_offset = 0;
        end_offset = 2;
        plan = plan identity0;
        identity = identity0;
        global_work_ids = "work-0" ∷ "work-1" ∷ [];
        status = prepared;
        checkpoint = none;
        reason = none;
      }
      ∷ [];
}

abbrev start : CommittedCursor
start = genesis transparent "run-demo" manifest checkpoint identity0 digest

recovers :
    (recover_after_rendezvous transparent "run-demo" manifest identity1 "lost" waiting).0 ≡ ok start
unfolding recover_after_rendezvous validate_manifest validate_identity validate_cursor_manifest
    manifest_digest transparent
recovers = refl

recover_fences_example :
    let l' =
      (recover_after_rendezvous transparent "run-demo" manifest identity1 "lost" waiting).1 in
    (l'.cursors ≡ waiting.cursors)
    × ((latest_committed "run-demo" l').0 ≡ ok start)
    × ((id : String) (m' : GlobalWorkManifest) (k : CheckpointArtifact) (i' : ElasticIdentity)
          (r : AttemptRow)
        → attempt_of id l' ≡ some r
        → r.run_key ≡ "run-demo"
        → (e : CursorError) × ((commit_update transparent files id m' k i' l').0 ≡ err e))
recover_fences_example =
    recover_fences transparent files "run-demo" manifest identity1 "lost" waiting start recovers
