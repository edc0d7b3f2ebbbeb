-- ===== src/Cursor/Types.antt =====
-- The values of elastic_data_cursor_ledger.py: work windows and manifests, elastic identities, plans
-- and checkpoints, with their validation. A window's cost is a whole number of units (the source has
-- a float), which only its sign and its digest use.
use acvjepa_project.Prelude.{
  leb, if◌then◌else◌, string_eq, nat_eq, ◌==◌, length, take, drop, is_empty, all, distinct, Result,
  ok, err, check, ℕ, ◌-◌, String, Bool, not, ◌&&◌, ◌||◌, List, [], ◌∷◌,
}
use acvjepa_project.Prelude.Int.{ℤ, pos, ltb_ℤ, leb_ℤ, int_eq}
use acvjepa_project.Prelude.Json.{Json, str, int, arr, obj, Items, nil, cons, end, field}
use acvjepa_project.Prelude.Text.{is_sha256_hex}
use acvjepa_project.Prelude.Hashing.{Hashing, digest_of}
use mathlib.Core.List.{flatten}

-- `ValueError`, `KeyError`, the messages of `CursorContractError`, and the two library errors that a
-- call can meet: `sqlite3.IntegrityError` and the `OSError` of a checkpoint that cannot be read.
pub data CursorError : Type 0 where
  invalid_manifest invalid_window duplicate_work_id : CursorError
  identity_facts_missing invalid_identity : CursorError
  invalid_plan plan_binding_missing plan_not_exact : CursorError
  invalid_checkpoint blank_reason : CursorError
  unknown_run_key unknown_attempt integrity_error unreadable_checkpoint : CursorError
  outside_manifest manifest_collision already_prepared wrong_work_range : CursorError
  not_abortable stale_identity not_prepared identity_changed cursor_moved : CursorError
  checkpoint_mismatch different_manifest world_size_differs stale_topology : CursorError
  manifest_hash_differs : CursorError

pub record WorkWindow : Type 0 where
  pub work_id : String
  pub provenance_hash : String
  pub cost_units : ℤ

pub record GlobalWorkManifest : Type 0 where
  pub dataset_commit : String
  pub ordered_windows : List WorkWindow

abbrev pub work_ids : List WorkWindow → List String
work_ids [] = []
work_ids (w ∷ ws) = w.work_id ∷ work_ids ws

window_is_valid : WorkWindow → Bool
window_is_valid w = not (w.work_id == "" || w.provenance_hash == "" || leb_ℤ w.cost_units (pos 0))

-- `GlobalWorkManifest.validate`
unfoldable pub validate_manifest : GlobalWorkManifest → Result CursorError (Unit {0})
unfolding window_is_valid
validate_manifest m =
    if m.dataset_commit == "" || is_empty m.ordered_windows
    then err invalid_manifest
    else if not (all window_is_valid m.ordered_windows)
    then err invalid_window
    else check (distinct (work_ids m.ordered_windows)) duplicate_work_id

abbrev pub windows_json : List WorkWindow → Items
windows_json [] = nil
windows_json (w ∷ ws) =
    cons
      (obj (
        field "work_id" (str w.work_id) (
          field "provenance_hash" (str w.provenance_hash)
            (field "cost_units" (int w.cost_units) end))))
      (windows_json ws)

abbrev pub manifest_json : GlobalWorkManifest → Json
manifest_json m = obj (
    field "dataset_commit" (str m.dataset_commit)
      (field "ordered_windows" (arr (windows_json m.ordered_windows)) end))

-- `GlobalWorkManifest.digest`
unfoldable pub manifest_digest : Hashing → GlobalWorkManifest → Result CursorError String
manifest_digest h m = elim (validate_manifest m) [
  | err e ↦ err e
  | ok _ ↦ ok (digest_of h (manifest_json m))
]

-- `ordered_windows[start:end]`
abbrev pub between {ℓ} : {A : Type ℓ} → ℕ → ℕ → List A → List A
between start stop xs = take (stop - start) (drop start xs)

-- `GlobalWorkManifest.slice`
unfoldable pub slice : GlobalWorkManifest → ℕ → ℕ → Result CursorError (List WorkWindow)
slice m start stop =
    if leb start stop && leb stop (length m.ordered_windows)
    then ok (between start stop m.ordered_windows)
    else err outside_manifest

pub record ElasticIdentity : Type 0 where
  pub run_id : String
  pub restart_count : ℤ
  pub world_size : ℤ
  pub topology_epoch : String
  pub topology_digest : String

-- `ElasticIdentity.validate`
unfoldable pub validate_identity : ElasticIdentity → Result CursorError (Unit {0})
validate_identity i =
    if i.run_id == "" || i.topology_epoch == "" || i.topology_digest == ""
    then err identity_facts_missing
    else check (not (ltb_ℤ i.restart_count (pos 0) || leb_ℤ i.world_size (pos 0))) invalid_identity

abbrev pub identity_beq : ElasticIdentity → ElasticIdentity → Bool
identity_beq i j =
    i.run_id == j.run_id
    && i.restart_count == j.restart_count
    && i.world_size == j.world_size
    && i.topology_epoch == j.topology_epoch
    && i.topology_digest == j.topology_digest

abbrev pub identity_json : ElasticIdentity → Json
identity_json i = obj (
    field "run_id" (str i.run_id) (
      field "restart_count" (int i.restart_count) (
        field "world_size" (int i.world_size) (
          field "topology_epoch" (str i.topology_epoch)
            (field "topology_digest" (str i.topology_digest) end)))))

pub record CursorBoundPlan : Type 0 where
  pub plan_version : ℤ
  pub topology_epoch : String
  pub topology_digest : String
  pub work_manifest_digest : String
  pub world_size : ℤ
  pub rank_work_ids : List (List String)

-- `CursorBoundPlan.all_work_ids`
abbrev pub all_work_ids : CursorBoundPlan → List String
all_work_ids p = flatten p.rank_work_ids

-- `CursorBoundPlan.validate`
unfoldable pub validate_plan : CursorBoundPlan → Result CursorError (Unit {0})
validate_plan p =
    if ltb_ℤ p.plan_version (pos 1)
      || leb_ℤ p.world_size (pos 0)
      || not (pos (length p.rank_work_ids) == p.world_size)
    then err invalid_plan
    else if p.topology_epoch == "" || p.topology_digest == "" || p.work_manifest_digest == ""
    then err plan_binding_missing
    else check (not (is_empty (all_work_ids p)) && distinct (all_work_ids p)) plan_not_exact

pub record CheckpointArtifact : Type 0 where
  pub uri : String
  pub sha256 : String
  pub model_state_hash : String
  pub ema_state_hash : String
  pub optimizer_state_hash : String
  pub validation_hash : String

-- `CheckpointArtifact.validate`
unfoldable pub validate_checkpoint : CheckpointArtifact → Result CursorError (Unit {0})
validate_checkpoint c =
    check
      (not (c.uri == "")
        && all is_sha256_hex (
            c.sha256 ∷ c.model_state_hash ∷ c.ema_state_hash ∷ c.optimizer_state_hash
            ∷ c.validation_hash ∷ []))
      invalid_checkpoint

abbrev pub checkpoint_json : CheckpointArtifact → Json
checkpoint_json c = obj (
    field "uri" (str c.uri) (
      field "sha256" (str c.sha256) (
        field "model_state_hash" (str c.model_state_hash) (
          field "ema_state_hash" (str c.ema_state_hash) (
            field "optimizer_state_hash" (str c.optimizer_state_hash)
              (field "validation_hash" (str c.validation_hash) end))))))
