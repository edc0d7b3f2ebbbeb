-- ===== src/RailGuard/Tests.antt =====
-- An authorized dry run, one that its observer breaks off, refused requests, and each theorem at them.
use acvjepa_project.Prelude.Int.{ℤ, pos, ◌≤ℤ◌}
use acvjepa_project.Prelude.Hashing.{transparent}
use acvjepa_project.Prelude.Text.{code_points}
use acvjepa_project.Prelude.{
  length, Result, ok, err, String, ◌≡◌, refl, ◌≢◌, ◌↔◌, inl, true, false, none, List, [], ◌∷◌,
  arith, eq_iff,
}
use acvjepa_project.RailGuard.Types.{
  GuardError, weak_secret, approval_expired, raised, Signing, dry_run, Approval, sign, verify,
  RailFaultExperiment, experiment_digest, default_policy,
}
use acvjepa_project.RailGuard.{
  no_receipts, record_inject, record_rollback, RailChaosGuard, create, validate_dual_approvals,
  Request, validate, inject, run_with_rollback,
}
use acvjepa_project.RailGuard.Authorization.{IsAuthorized, verify-sign, validate-ok_iff}
use acvjepa_project.RailGuard.Rollback.{Experiment, perform, perform_all}

-- The tag of a text is the text.
abbrev signing : Signing
signing = record { values = transparent; hmac_sha256 = λ secret t. t }

abbrev guard : RailChaosGuard
guard = record { policy = default_policy; approval_secret = [] }

abbrev experiment : RailFaultExperiment
experiment = record {
  experiment_id = "e";
  mode = dry_run;
  target_group = "chaos-gpu-pool-a";
  rail_id = "rail-0";
  fault_profile = "rdma_rail_delay_test_profile";
  ttl_seconds = pos 1;
  max_restarts = pos 1;
  expected_topology_epoch = "t";
  expected_work_manifest_digest = "w";
  nonce = "n";
}

abbrev approved : String → String → Approval
approved role principal =
    sign signing role principal (experiment_digest signing experiment) (pos 0) (pos 9) []

abbrev request : Request
request = record {
  experiment = experiment;
  approvals = approved "training_owner" "p" ∷ approved "infrastructure_owner" "q" ∷ [];
  isolation = record {
    environment = "isolated-preproduction";
    dedicated_test_pool = true;
    shared_fabric = false;
    robot_control_active = false;
    production = false;
    target_group = "chaos-gpu-pool-a";
    allowed_rails = "rail-0" ∷ [];
    inventory_epoch = "i";
  };
  runtime = record {
    latest_checkpoint_committed = true;
    checkpoint_hash = "0123456789abcdef0123456789abcdef0123456789abcdef0123456789abcdef";
    topology_epoch = "t";
    work_manifest_digest = "w";
    no_active_fault = true;
    gpu_health_green = true;
    nic_health_green = true;
    trace_sink_writable = true;
  };
}

abbrev at_time : ℤ → String → Result GuardError (Unit {0}) → Experiment
at_time now hex seen = record {
  interlock = none;
  now = now;
  hex = hex;
  request = request;
  observe = λ r. seen;
}

-- One that is observed, one whose observer fails, and one after the approvals have expired.
abbrev experiments : List Experiment
experiments =
    at_time (pos 1) "a" (ok tt)
    ∷ at_time (pos 2) "b" (err (raised "timeout"))
    ∷ at_time (pos 10) "c" (ok tt)
    ∷ []

test_validate : validate signing guard none (pos 5) request ≡ ok tt
unfolding validate validate_dual_approvals verify sign experiment_digest code_points transparent
test_validate = refl

test_expired : validate signing guard none (pos 10) request ≡ err approval_expired
unfolding validate validate_dual_approvals verify sign experiment_digest code_points transparent
test_expired = refl

test_weak_secret : create default_policy (1 ∷ []) ≡ err weak_secret
unfolding create
test_weak_secret = refl

test_events : length (perform_all signing guard experiments no_receipts).events ≡ 4
unfolding perform_all perform run_with_rollback inject record_inject record_rollback validate
    validate_dual_approvals verify sign experiment_digest code_points transparent
test_events = refl

validate-ok_iff_example :
    (validate signing guard none (pos 5) request ≡ ok tt)
    ↔ IsAuthorized signing guard none (pos 5) request
validate-ok_iff_example = validate-ok_iff signing guard none (pos 5) request

abbrev principal : String
principal = "p"

named : principal ≢ ""
named e = ground (arith, eq_iff principal "")

verify-sign_example :
    (verify signing "d" [] (pos 3) (sign signing "training_owner" principal "d" (pos 1) (pos 4) [])
      ≡ ok tt)
    ↔ ((pos 1 ≤ℤ pos 3) × (pos 3 ≤ℤ pos 4))
verify-sign_example =
    verify-sign signing "training_owner" principal "d" (pos 1) (pos 4) (pos 3) [] (inl refl) named
