-- ===== src/Canary/Types.antt =====
-- The values of shadow_canary_gate.py: stages, outcomes, the policy, reports and the gate.
use acvjepa_project.Prelude.Int.{ℤ, pos}
use acvjepa_project.Prelude.Float.{Floats, of_int}
use acvjepa_project.Prelude.{ℕ, String, Bool, Option, List, [], ◌∷◌}

pub data ReleaseStage : Type 0 where
  candidate shadow canary_low_risk canary_expanded production paused rolled_back : ReleaseStage

pub data GateDecision : Type 0 where
  await_evidence promote hold rollback : GateDecision

-- The exceptions, one for each message; `bad_index` and `bad_length` are Python's own.
pub data GateError : Type 0 where
  not_candidate baseline_mismatch candidate_mismatch pair_mismatch observed_mismatch : GateError
  cannot_promote bad_index bad_length : GateError

pub record ModelOutcome (F : Type 0) : Type 0 where
  pub model_id : String
  pub correlation_id : String
  pub state_id : String
  pub latency_ms : F
  pub invalid_output : Bool
  pub requested_local_hold : Bool
  pub mean_uncertainty : F
  pub recommended_candidate_id : Option String

pub record ObservedOutcome : Type 0 where
  pub correlation_id : String
  pub hard_safety_event : Bool
  pub environment_risk_observed : Bool
  pub task_event_success : Option Bool

pub record ShadowRecord (F : Type 0) : Type 0 where
  pub robot_id : String
  pub shift_id : String
  pub task_template : String
  pub baseline : ModelOutcome F
  pub candidate : ModelOutcome F
  pub observed : ObservedOutcome
  pub recorded_ns : ℤ

pub record GatePolicy (F : Type 0) : Type 0 where
  pub min_shadow_records : ℤ
  pub min_canary_records : ℤ
  pub max_candidate_p99_ms : F
  pub max_latency_regression_ratio : F
  pub max_invalid_rate : F
  pub max_hold_miss_rate : F
  pub max_hard_safety_events : ℤ
  pub max_task_success_regression : F
  pub low_risk_canary_percent : F
  pub expanded_canary_percent : F
  pub allowed_low_risk_tasks : List String

pub record GateReport (F : Type 0) : Type 0 where
  pub stage : ReleaseStage
  pub decision : GateDecision
  pub reason : String
  pub records : ℕ
  pub candidate_p99_ms : Option F
  pub baseline_p99_ms : Option F
  pub candidate_invalid_rate : F
  pub candidate_hold_miss_rate : F
  pub hard_safety_events : ℕ
  pub candidate_success_rate : Option F
  pub baseline_success_rate : Option F

pub record RouteDecision : Type 0 where
  pub selected_model_id : String
  pub stage : ReleaseStage
  pub reason : String

-- The defaults of the dataclass.
abbrev pub default_policy : {F : Type 0} → Floats F → GatePolicy F
default_policy fl = record {
  min_shadow_records = pos 100;
  min_canary_records = pos 30;
  max_candidate_p99_ms = of_int fl (pos 30);
  max_latency_regression_ratio = fl.ratio (pos 11) 10;
  max_invalid_rate = of_int fl (pos 0);
  max_hold_miss_rate = of_int fl (pos 0);
  max_hard_safety_events = pos 0;
  max_task_success_regression = fl.ratio (pos 1) 50;
  low_risk_canary_percent = fl.ratio (pos 1) 20;
  expanded_canary_percent = fl.ratio (pos 1) 5;
  allowed_low_risk_tasks =
      "soft_object_observe" ∷ "soft_object_regrasp_low_force" ∷ "soft_object_reposition_low_speed"
      ∷ [];
}

pub record Gate (F : Type 0) : Type 0 where
  pub baseline_model_id : String
  pub candidate_model_id : String
  pub policy : GatePolicy F
  pub stage : ReleaseStage
  pub max_records : ℕ
  pub records : List (ShadowRecord F)
