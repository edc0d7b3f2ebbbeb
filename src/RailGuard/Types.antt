-- ===== src/RailGuard/Types.antt =====
-- rdma_rail_chaos_guard.py: approvals with their signatures, the evidence that a request brings, and
-- the policy. The digest, the JSON encoding and HMAC-SHA256 are parameters.
use acvjepa_project.Prelude.Int.{ℤ, pos, leb_ℤ, int_eq}
use acvjepa_project.Prelude.Json.{Json, str, int, obj, end, field}
use acvjepa_project.Prelude.Hashing.{Hashing, digest_of}
use acvjepa_project.Prelude.{
  if◌then◌else◌, string_eq, nat_eq, ◌==◌, Result, err, check, ℕ, String, Bool, not, ◌&&◌, ◌||◌,
  List, [], ◌∷◌,
}

-- Every message of `GuardRejected`, the `ValueError` of a short secret, and what an observer or an
-- executor of other people raises.
pub data GuardError : Type 0 where
  weak_secret approval_invalid approval_expired signature_invalid : GuardError
  interlock_absent group_not_allowed profile_unknown ttl_out_of_range : GuardError
  restarts_out_of_range not_isolated inventory_mismatch epoch_missing : GuardError
  precondition_failed topology_differs manifest_differs checkpoint_malformed : GuardError
  two_approvals_required approvers_not_distinct : GuardError
  receipt_unknown rollback_unconfirmed : GuardError
  raised : String → GuardError

-- `bytes`, one number for each byte.
abbrev pub Bytes : Type 0
Bytes = List ℕ

pub record Signing : Type 0 where
  pub values : Hashing
  -- `hmac.new(secret, text.encode(), hashlib.sha256).hexdigest()`
  pub hmac_sha256 : Bytes → String → String

-- `_mac`
abbrev pub mac : Signing → Bytes → Json → String
mac s secret payload = s.hmac_sha256 secret (s.values.dumps payload)

pub data ChaosMode : Type 0 where
  dry_run execute : ChaosMode

pub data ChaosPhase : Type 0 where
  prepared injected rolled_back : ChaosPhase

pub record Approval : Type 0 where
  pub role : String
  pub principal : String
  pub issued_ns : ℤ
  pub expires_ns : ℤ
  pub signature : String

-- The payload that an approval signs.
abbrev pub approval_payload : String → String → String → ℤ → ℤ → Json
approval_payload role principal digest issued expires = obj (
    field "role" (str role) (
      field "principal" (str principal) (
        field "experiment_digest" (str digest)
          (field "issued_ns" (int issued) (field "expires_ns" (int expires) end)))))

-- `Approval.sign`
unfoldable pub sign : Signing → String → String → String → ℤ → ℤ → Bytes → Approval
sign s role principal digest issued expires secret = record {
  role = role;
  principal = principal;
  issued_ns = issued;
  expires_ns = expires;
  signature = mac s secret (approval_payload role principal digest issued expires);
}

-- `role in {"training_owner", "infrastructure_owner"}`
abbrev pub is_owner : String → Bool
is_owner role = role == "training_owner" || role == "infrastructure_owner"

-- `Approval.verify`
unfoldable pub verify : Signing → String → Bytes → ℤ → Approval → Result GuardError (Unit {0})
verify s digest secret now a =
    if not (is_owner a.role) || a.principal == ""
    then err approval_invalid
    else if not (leb_ℤ a.issued_ns now && leb_ℤ now a.expires_ns)
    then err approval_expired
    else check
        (mac s secret (approval_payload a.role a.principal digest a.issued_ns a.expires_ns)
          == a.signature)
        signature_invalid

pub record IsolationEvidence : Type 0 where
  pub environment : String
  pub dedicated_test_pool : Bool
  pub shared_fabric : Bool
  pub robot_control_active : Bool
  pub production : Bool
  pub target_group : String
  pub allowed_rails : List String
  pub inventory_epoch : String

pub record RuntimePreconditions : Type 0 where
  pub latest_checkpoint_committed : Bool
  pub checkpoint_hash : String
  pub topology_epoch : String
  pub work_manifest_digest : String
  pub no_active_fault : Bool
  pub gpu_health_green : Bool
  pub nic_health_green : Bool
  pub trace_sink_writable : Bool

pub record RailFaultExperiment : Type 0 where
  pub experiment_id : String
  pub mode : ChaosMode
  pub target_group : String
  pub rail_id : String
  pub fault_profile : String
  pub ttl_seconds : ℤ
  pub max_restarts : ℤ
  pub expected_topology_epoch : String
  pub expected_work_manifest_digest : String
  pub nonce : String

abbrev pub mode_value : ChaosMode → String
mode_value dry_run = "dry_run"
mode_value execute = "execute"

-- `RailFaultExperiment.unsigned_payload`
abbrev pub unsigned_payload : RailFaultExperiment → Json
unsigned_payload x = obj (
    field "experiment_id" (str x.experiment_id) (
      field "mode" (str (mode_value x.mode)) (
        field "target_group" (str x.target_group) (
          field "rail_id" (str x.rail_id) (
            field "fault_profile" (str x.fault_profile) (
              field "ttl_seconds" (int x.ttl_seconds) (
                field "max_restarts" (int x.max_restarts) (
                  field "expected_topology_epoch" (str x.expected_topology_epoch) (
                    field "expected_work_manifest_digest" (str x.expected_work_manifest_digest)
                      (field "nonce" (str x.nonce) end))))))))))

-- `RailFaultExperiment.digest`
unfoldable pub experiment_digest : Signing → RailFaultExperiment → String
experiment_digest s x = digest_of s.values (unsigned_payload x)

pub record GuardPolicy : Type 0 where
  pub required_environment : String
  pub allowed_target_groups : List String
  pub allowed_fault_profiles : List String
  pub max_ttl_seconds : ℤ
  pub max_restarts : ℤ
  pub required_execution_phrase : String

-- The defaults of the dataclass.
abbrev pub default_policy : GuardPolicy
default_policy = record {
  required_environment = "isolated-preproduction";
  allowed_target_groups = "chaos-gpu-pool-a" ∷ [];
  allowed_fault_profiles = "rdma_rail_blackhole_test_profile" ∷ "rdma_rail_delay_test_profile" ∷ [];
  max_ttl_seconds = pos 120;
  max_restarts = pos 2;
  required_execution_phrase = "AUTHORIZED_ISOLATED_CHAOS_ONLY";
}

pub record FaultReceipt : Type 0 where
  pub experiment_id : String
  pub phase : ChaosPhase
  pub executor_receipt_id : String
  pub expires_ns : ℤ
  pub request_digest : String
