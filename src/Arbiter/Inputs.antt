-- ===== src/Arbiter/Inputs.antt =====
-- `RecoveryInputs` of recovery_deployment_arbiter.py, and the errors of the module.
use acvjepa_project.Prelude.{
  String, ◌||◌, [], ◌∷◌, if◌then◌else◌, ◌==◌, nat_eq, string_eq, all, Result, ok, err, check,
}
use acvjepa_project.Prelude.Json.{Json, str, obj, field, end}
use acvjepa_project.Prelude.Text.{is_sha256_hex}
use acvjepa_project.Prelude.Hashing.{Hashing, digest_of}

-- One constructor for each message of `ArbitrationError`.
pub data ArbitrationError : Type 0 where
  bindings_required not_sha256 : ArbitrationError
  not_recovery_controller recovery_lease_active not_ready_recovering : ArbitrationError
  input_binding_changed not_gitops_controller not_armable git_revision_drifted : ArbitrationError
  inputs_differ not_freezer not_drifted stale_generation : ArbitrationError

pub record RecoveryInputs : Type 0 where
  pub checkpoint_hash : String
  pub cursor_commit_id : String
  pub precision_contract_hash : String
  pub topology_epoch : String
  pub plan_digest : String
  pub work_manifest_digest : String
  pub git_revision : String

-- `RecoveryInputs.validate`
unfoldable pub validate : RecoveryInputs → Result ArbitrationError (Unit {0})
validate i =
    if i.cursor_commit_id == "" || i.topology_epoch == "" || i.git_revision == ""
    then err bindings_required
    else check
        (all is_sha256_hex (
          i.checkpoint_hash ∷ i.precision_contract_hash ∷ i.plan_digest ∷ i.work_manifest_digest
          ∷ []))
        not_sha256

-- `asdict`
abbrev pub to_json : RecoveryInputs → Json
to_json i = obj (
    field "checkpoint_hash" (str i.checkpoint_hash) (
      field "cursor_commit_id" (str i.cursor_commit_id) (
        field "precision_contract_hash" (str i.precision_contract_hash) (
          field "topology_epoch" (str i.topology_epoch) (
            field "plan_digest" (str i.plan_digest) (
              field "work_manifest_digest" (str i.work_manifest_digest)
                (field "git_revision" (str i.git_revision) end)))))))

-- `RecoveryInputs.digest`
unfoldable pub digest : Hashing → RecoveryInputs → Result ArbitrationError String
digest h i = elim (validate i) [ err e ↦ err e | ok _ ↦ ok (digest_of h (to_json i)) ]
