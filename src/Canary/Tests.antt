-- ===== src/Canary/Tests.antt =====
-- A release from SHADOW to a canary, one that its first report carries to PRODUCTION, a stopped one, and
-- each theorem at them.
use acvjepa_project.Prelude.Int.{pos}
use acvjepa_project.Prelude.Float.{thousandths}
use acvjepa_project.Prelude.{
  ok, ℕ, String, ◌≡◌, refl, ◌≢◌, inr, true, false, none, some, List, [], ◌∷◌, ◌++◌, arith, eq_iff,
}
use acvjepa_project.Canary.Types.{
  candidate, canary_low_risk, production, rolled_back, ModelOutcome, ShadowRecord, GatePolicy,
  default_policy, Gate,
}
use acvjepa_project.Canary.{
  percentile, create, evaluate, enter_shadow, record_outcome, apply, Router, choose,
}
use acvjepa_project.Canary.Schedule.{Op, enter, measure, observe, act, Console, step, run, console}
use acvjepa_project.Canary.Authority.{stopped_gate-routes_baseline}
use acvjepa_project.Canary.Evidence.{HasEvidence, candidate_in_use-HasEvidence}

abbrev policy : GatePolicy ℕ
policy = record (default_policy thousandths) {
  min_shadow_records = pos 2;
  min_canary_records = pos 1;
}

abbrev outcome : String → ℕ → ModelOutcome ℕ
outcome model latency = record {
  model_id = model;
  correlation_id = "r";
  state_id = "s";
  latency_ms = latency;
  invalid_output = false;
  requested_local_hold = false;
  mean_uncertainty = 300;
  recommended_candidate_id = none;
}

abbrev outcomes : ℕ → ShadowRecord ℕ
outcomes latency = record {
  robot_id = "robot-01";
  shift_id = "shift";
  task_template = "soft_object_observe";
  baseline = outcome "b" 10000;
  candidate = outcome "c" latency;
  observed = record {
    correlation_id = "r";
    hard_safety_event = false;
    environment_risk_observed = false;
    task_event_success = some true;
  };
  recorded_ns = pos 1;
}

abbrev gate : Gate ℕ
gate = record {
  baseline_model_id = "b";
  candidate_model_id = "c";
  policy = policy;
  stage = candidate;
  max_records = 10;
  records = [];
}

abbrev router : Router ℕ
router = record { baseline_model_id = "b"; candidate_model_id = "c"; policy = policy; salt = "x" }

-- The bucket of every identity is the first.
abbrev bucket : String → ℕ
bucket t = 0

abbrev calls : List (Op ℕ)
calls = enter ∷ observe (outcomes 10500) ∷ observe (outcomes 9000) ∷ measure ∷ act 0 true ∷ []

test_percentile : percentile thousandths (3000 ∷ 1000 ∷ 2000 ∷ []) 990 ≡ ok (some 2980)
unfolding percentile
test_percentile = refl

test_slow :
    (run thousandths
      (enter ∷ observe (outcomes 40000) ∷ measure ∷ act 0 false ∷ [])
      (console gate)).gate.stage
    ≡ rolled_back
unfolding run step enter_shadow record_outcome evaluate percentile apply
test_slow = refl

-- One report, made in SHADOW, is applied three times: no record of a canary stage is asked for.
test_one_report :
    (run thousandths (calls ++ act 0 true ∷ act 0 true ∷ []) (console gate)).gate.stage ≡ production
unfolding run step enter_shadow record_outcome evaluate percentile apply
test_one_report = refl

-- A report made before SHADOW counts only the records that a canary asks for, and is applied in SHADOW.
test_early_report :
    (run thousandths
      (observe (outcomes 9000) ∷ measure ∷ enter ∷ act 0 true ∷ [])
      (console gate)).gate.stage
    ≡ canary_low_risk
unfolding run step enter_shadow record_outcome evaluate percentile apply
test_early_report = refl

made : create thousandths "b" "c" policy (pos 10) ≡ ok gate
unfolding create
made = refl

abbrev model : String
model = "c"

used :
    (choose thousandths bucket router
      (run thousandths calls (console gate)).gate.stage
      "robot-01"
      "shift"
      "soft_object_observe").selected_model_id
    ≢ router.baseline_model_id
unfolding run step enter_shadow record_outcome evaluate percentile apply choose
used e = ground (arith, eq_iff model router.baseline_model_id)

candidate_in_use-HasEvidence_example : HasEvidence thousandths calls gate
candidate_in_use-HasEvidence_example =
    candidate_in_use-HasEvidence thousandths bucket router "b" "c" policy (pos 10) gate calls
      "robot-01" "shift" "soft_object_observe" made used

abbrev stopped : Console ℕ
stopped = console (record gate { stage = rolled_back })

stopped_gate-routes_baseline_example :
    (choose thousandths bucket router
      (run thousandths calls stopped).gate.stage
      "robot-01"
      "shift"
      "soft_object_observe").selected_model_id
    ≡ "b"
stopped_gate-routes_baseline_example =
    stopped_gate-routes_baseline thousandths bucket router calls stopped "robot-01" "shift"
      "soft_object_observe" (inr refl)
