-- ===== src/RailGuard/Rollback.antt =====
-- Whole experiments against the recording executor: each asks for its fault and takes it back.
use acvjepa_project.Prelude.Int.{ℤ, ◌+ℤ◌, int_eq}
use acvjepa_project.Prelude.Text.{concat}
use acvjepa_project.Prelude.{
  string_eq, nat_eq, All, Result, Exec, lift, String, ◌≡◌, Option, List, [], ◌∷◌, ◌++◌,
}
use acvjepa_project.RailGuard.Types.{
  GuardError, Signing, injected, rolled_back, experiment_digest, FaultReceipt,
}
use acvjepa_project.RailGuard.{
  ExecutorEvent, mock_inject, mock_rollback, RecordingExecutor, record_receipt, roles_of, in_ns,
  recording, RailChaosGuard, Request, run_with_rollback,
}
use acvjepa_project.RailGuard.Authorization.{IsAuthorized}

-- One call of run_with_rollback: the value of the interlock variable, the time, the name from uuid4,
-- the request, and what the observer makes of the receipt.
pub record Experiment : Type 0 where
  pub interlock : Option String
  pub now : ℤ
  pub hex : String
  pub request : Request
  pub observe : FaultReceipt → Result GuardError (Unit {0})

abbrev pub IsRolledBack : String × FaultReceipt → Type 0
IsRolledBack (k, r) = r.phase ≡ rolled_back

abbrev pub done_of : FaultReceipt → FaultReceipt
done_of r = record r { phase = rolled_back }

module _ (h : Signing) (g : RailChaosGuard) where
  unfoldable pub perform : Experiment → Exec GuardError RecordingExecutor FaultReceipt
  perform x =
      run_with_rollback h g (recording h x.hex x.now) x.interlock x.now x.request
        (λ r. lift (x.observe r))

  unfoldable pub perform_all : List Experiment → RecordingExecutor → RecordingExecutor
  perform_all [] s = s
  perform_all (x ∷ xs) s = perform_all xs (perform x s).1

  abbrev pub armed_by : Experiment → FaultReceipt
  armed_by x = record {
    experiment_id = x.request.experiment.experiment_id;
    phase = injected;
    executor_receipt_id = concat "mock-" x.hex;
    expires_ns = x.now +ℤ in_ns x.request.experiment.ttl_seconds;
    request_digest = experiment_digest h x.request.experiment;
  }

  -- The events of an executor that has run these experiments: of a refused one nothing, of one that is
  -- authorized by its own interlock, time and request its fault, and at once the rollback of it.
  pub data IsAuditOf : List Experiment → List ExecutorEvent → Type 0 where
    nothing : IsAuditOf [] []
    refused :
        (x : Experiment) (xs : List Experiment) (l : List ExecutorEvent)
        → ¬ IsAuthorized h g x.interlock x.now x.request
        → IsAuditOf xs l
        → IsAuditOf (x ∷ xs) l
    faulted :
        (x : Experiment) (xs : List Experiment) (l : List ExecutorEvent)
        → IsAuthorized h g x.interlock x.now x.request
        → IsAuditOf xs l
        → IsAuditOf (x ∷ xs) (
            mock_inject (armed_by x) (roles_of x.request.approvals)
            ∷ mock_rollback (done_of (armed_by x)) "bounded_experiment_complete_or_exception"
            ∷ l)

  abbrev after : Experiment → RecordingExecutor → RecordingExecutor
  after x s =
      let armed = armed_by x in
      record_receipt (done_of armed)
        (mock_rollback (done_of armed) "bounded_experiment_complete_or_exception")
        (record_receipt armed (mock_inject armed (roles_of x.request.approvals)) s)

  -- What a run adds to an executor: receipts that are rolled back, and the audit of its experiments.
  abbrev pub IsSettled : List Experiment → RecordingExecutor → RecordingExecutor → Type 0
  IsSettled xs s s' =
      All IsRolledBack s'.receipts
      × ((l : List ExecutorEvent) × (s'.events ≡ s.events ++ l) × IsAuditOf xs l)
