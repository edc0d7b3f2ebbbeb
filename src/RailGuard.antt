-- ===== src/RailGuard.antt =====
-- rdma_rail_chaos_guard.py: the guard that checks every precondition before the trusted executor is
-- asked for a fault, and the recording executor of the tests. The clock, the environment variable of
-- the interlock and the name from uuid4 are arguments.
pub mod Types
pub mod Authorization
pub mod Rollback
mod Tests
use acvjepa_project.Prelude.Int.{ℤ, pos, pos_part, neg_part, sub_ℕ, ◌+ℤ◌, leb_ℤ, int_eq}
use acvjepa_project.Prelude.Text.{code_points, concat}
use acvjepa_project.Prelude.Dict.{Dict, lookup, insert}
use acvjepa_project.Prelude.{
  ltb, if◌then◌else◌, string_eq, nat_eq, ◌==◌, length, contains, set_size, same_set, Result, ok,
  err, Exec, pure, gets, lift, ◌>>=◌, ◌>>◌, raise_if, modify, ◌*◌, String, Bool, true, false, not,
  ◌&&◌, ◌||◌, Option, none, some, List, [], ◌∷◌, ◌++◌,
}
use acvjepa_project.RailGuard.Types.{
  GuardError, weak_secret, interlock_absent, group_not_allowed, profile_unknown, ttl_out_of_range,
  restarts_out_of_range, not_isolated, inventory_mismatch, epoch_missing, precondition_failed,
  topology_differs, manifest_differs, checkpoint_malformed, two_approvals_required,
  approvers_not_distinct, receipt_unknown, rollback_unconfirmed, Bytes, Signing, ChaosMode, dry_run,
  execute, ChaosPhase, injected, rolled_back, Approval, verify, IsolationEvidence,
  RuntimePreconditions, RailFaultExperiment, experiment_digest, GuardPolicy, FaultReceipt,
}

-- `TrustedRailExecutor`, over a state of the executor's own.
pub record Executor (S : Type 0) : Type 0 where
  pub inject : RailFaultExperiment → List Approval → Exec GuardError S FaultReceipt
  pub rollback : FaultReceipt → String → Exec GuardError S FaultReceipt

pub data ExecutorEvent : Type 0 where
  mock_inject : FaultReceipt → List String → ExecutorEvent
  mock_rollback : FaultReceipt → String → ExecutorEvent

pub record RecordingExecutor : Type 0 where
  pub receipts : Dict String FaultReceipt
  pub events : List ExecutorEvent

abbrev pub no_receipts : RecordingExecutor
no_receipts = record { receipts = []; events = [] }

abbrev pub record_receipt : FaultReceipt → ExecutorEvent → RecordingExecutor → RecordingExecutor
record_receipt r e s = record {
  receipts = insert r.executor_receipt_id r s.receipts;
  events = s.events ++ e ∷ [];
}

abbrev pub roles_of : List Approval → List String
roles_of [] = []
roles_of (a ∷ l) = a.role ∷ roles_of l

abbrev pub principals_of : List Approval → List String
principals_of [] = []
principals_of (a ∷ l) = a.principal ∷ principals_of l

-- Seconds in nanoseconds.
abbrev pub in_ns : ℤ → ℤ
in_ns t = sub_ℕ (pos_part t * 1000000000) (neg_part t * 1000000000)

-- `RecordingExecutor.inject`, with the hexadecimal name from uuid4 and the time.
unfoldable pub record_inject :
    Signing
    → String
    → ℤ
    → RailFaultExperiment
    → List Approval
    → Exec GuardError RecordingExecutor FaultReceipt
record_inject h hex now x approvals = do
  let receipt : FaultReceipt = record {
    experiment_id = x.experiment_id;
    phase = injected;
    executor_receipt_id = concat "mock-" hex;
    expires_ns = now +ℤ in_ns x.ttl_seconds;
    request_digest = experiment_digest h x;
  }
  modify (record_receipt receipt (mock_inject receipt (roles_of approvals)))
  pure receipt

abbrev pub is_known : Option FaultReceipt → Bool
is_known none = false
is_known (some r) = true

-- `RecordingExecutor.rollback`
unfoldable pub record_rollback :
    FaultReceipt → String → Exec GuardError RecordingExecutor FaultReceipt
record_rollback receipt reason = do
  known ← gets (λ s. is_known (lookup receipt.executor_receipt_id s.receipts))
  raise_if (not known) receipt_unknown
  let done : FaultReceipt = record receipt { phase = rolled_back }
  modify (record_receipt done (mock_rollback done reason))
  pure done

abbrev pub recording : Signing → String → ℤ → Executor RecordingExecutor
recording h hex now = record { inject = record_inject h hex now; rollback = record_rollback }

pub record RailChaosGuard : Type 0 where
  pub policy : GuardPolicy
  pub approval_secret : Bytes

-- `RailChaosGuard.__init__`
unfoldable pub create : GuardPolicy → Bytes → Result GuardError RailChaosGuard
create policy secret =
    if ltb (length secret) 16
    then err weak_secret
    else ok (record { policy = policy; approval_secret = secret })

abbrev pub verify_all : Signing → String → Bytes → ℤ → List Approval → Result GuardError (Unit {0})
verify_all s digest secret now [] = ok tt
verify_all s digest secret now (a ∷ l) =
    let rest = verify_all s digest secret now l in
    elim (verify s digest secret now a) [ err e ↦ err e | ok _ ↦ rest ]

-- `_validate_dual_approvals`
unfoldable pub validate_dual_approvals :
    Signing → RailChaosGuard → List Approval → String → ℤ → Result GuardError (Unit {0})
validate_dual_approvals s g approvals digest now =
    if not (length approvals == 2)
    then err two_approvals_required
    else if not (same_set (roles_of approvals) ("training_owner" ∷ "infrastructure_owner" ∷ []))
        || not (set_size (principals_of approvals) == 2)
    then err approvers_not_distinct
    else verify_all s digest g.approval_secret now approvals

abbrev pub is_execute : ChaosMode → Bool
is_execute dry_run = false
is_execute execute = true

-- `os.environ.get("CHAOS_EXECUTION_INTERLOCK") == phrase`
abbrev pub is_phrase : String → Option String → Bool
is_phrase phrase none = false
is_phrase phrase (some text) = text == phrase

-- The arguments that the guard's methods share.
pub record Request : Type 0 where
  pub experiment : RailFaultExperiment
  pub approvals : List Approval
  pub isolation : IsolationEvidence
  pub runtime : RuntimePreconditions

-- `validate`, its guards from first to last, with the value of the interlock variable and the time.
unfoldable pub validate :
    Signing → RailChaosGuard → Option String → ℤ → Request → Result GuardError (Unit {0})
validate s g interlock now q =
    if is_execute q.experiment.mode && not (is_phrase g.policy.required_execution_phrase interlock)
    then err interlock_absent
    else if not (contains g.policy.allowed_target_groups q.experiment.target_group)
    then err group_not_allowed
    else if not (contains g.policy.allowed_fault_profiles q.experiment.fault_profile)
    then err profile_unknown
    else if not (
        leb_ℤ (pos 1) q.experiment.ttl_seconds
        && leb_ℤ q.experiment.ttl_seconds g.policy.max_ttl_seconds)
    then err ttl_out_of_range
    else if not (
        leb_ℤ (pos 0) q.experiment.max_restarts
        && leb_ℤ q.experiment.max_restarts g.policy.max_restarts)
    then err restarts_out_of_range
    else if not (q.isolation.environment == g.policy.required_environment)
        || q.isolation.production
        || not q.isolation.dedicated_test_pool
        || q.isolation.shared_fabric
        || q.isolation.robot_control_active
    then err not_isolated
    else if not (q.isolation.target_group == q.experiment.target_group)
        || not (contains q.isolation.allowed_rails q.experiment.rail_id)
    then err inventory_mismatch
    else if q.isolation.inventory_epoch == ""
    then err epoch_missing
    else if not q.runtime.latest_checkpoint_committed
        || not q.runtime.no_active_fault
        || not q.runtime.gpu_health_green
        || not q.runtime.nic_health_green
        || not q.runtime.trace_sink_writable
    then err precondition_failed
    else if not (q.runtime.topology_epoch == q.experiment.expected_topology_epoch)
    then err topology_differs
    else if not (q.runtime.work_manifest_digest == q.experiment.expected_work_manifest_digest)
    then err manifest_differs
    else if not (length (code_points q.runtime.checkpoint_hash) == 64)
    then err checkpoint_malformed
    else validate_dual_approvals s g q.approvals (experiment_digest s q.experiment) now

abbrev pub is_rolled_back : ChaosPhase → Bool
is_rolled_back rolled_back = true
is_rolled_back _ = false

module _ {S : Type 0} (h : Signing) (g : RailChaosGuard) (executor : Executor S) where
  -- `inject`
  unfoldable pub inject : Option String → ℤ → Request → Exec GuardError S FaultReceipt
  inject interlock now q = do
    lift (validate h g interlock now q)
    executor.inject q.experiment q.approvals

  -- `try: observe(receipt)`, `finally: receipt = executor.rollback(…)`: the request for a rollback
  -- comes whatever the observer does, and an exception of its own replaces the observer's.
  abbrev pub observe_and_rollback :
      (FaultReceipt → Exec GuardError S (Unit {0})) → FaultReceipt → Exec GuardError S FaultReceipt
  observe_and_rollback observe receipt s =
      let (seen, s') = observe receipt s in
      let (back, s'') = executor.rollback receipt "bounded_experiment_complete_or_exception" s' in
      elim seen [
        | ok _ ↦ (back, s'')
        | err e ↦ elim back [ ok _ ↦ (err e, s'') | err e' ↦ (err e', s'') ]
      ]

  -- `run_with_rollback`
  unfoldable pub run_with_rollback :
      Option String
      → ℤ
      → Request
      → (FaultReceipt → Exec GuardError S (Unit {0}))
      → Exec GuardError S FaultReceipt
  unfolding inject
  run_with_rollback interlock now q observe = do
    armed ← inject interlock now q
    receipt ← observe_and_rollback observe armed
    raise_if (not (is_rolled_back receipt.phase)) rollback_unconfirmed
    pure receipt
