-- ===== src/Pipeline/Workers.antt =====
-- The safety latch of spsc_robot_pipeline.py and one round of each of its four workers. The packets, the
-- preparation of a state (numpy) and the prediction (the model) are parameters; the clock is read where
-- the source reads it, as an argument in nanoseconds, and so are the two limits that the source
-- compares in milliseconds. A round is one step: a hold that the source can set between the control
-- worker's look at the latch and the end of that round counts from the next round on.
use acvjepa_project.Prelude.Int.{ℤ, ◌+ℤ◌, ◌-ℤ◌, ltb_ℤ}
use acvjepa_project.Prelude.{
  if◌then◌else◌, ℕ, ◌+◌, String, Bool, true, false, ◌&&◌, Option, none, some,
}
use acvjepa_project.Pipeline.{SpscRing, push, drain_latest}

pub data SafetyMode : Type 0 where
  normal local_hold hard_stopped : SafetyMode

pub record SafetyLatch : Type 0 where
  pub mode : SafetyMode
  pub reason : String

-- `SafetyLatch.request_hold`
abbrev pub hold_mode : SafetyMode → String → SafetyLatch → SafetyLatch
hold_mode hard_stopped reason l = l
hold_mode _ reason l = record { mode = local_hold; reason = reason }

unfoldable pub request_hold : String → SafetyLatch → SafetyLatch
request_hold reason l = hold_mode l.mode reason l

-- `SafetyLatch.hard_stop`
unfoldable pub hard_stop : String → SafetyLatch → SafetyLatch
hard_stop reason l = record { mode = hard_stopped; reason = reason }

abbrev pub is_normal : SafetyMode → Bool
is_normal normal = true
is_normal _ = false

pub record Metrics : Type 0 where
  pub captured : ℕ
  pub prepared : ℕ
  pub inferred : ℕ
  pub published_windows : ℕ
  pub control_accepted : ℕ
  pub control_holds : ℕ
  pub deadline_misses : ℕ
  pub high_uncertainty : ℕ
  pub stale_states : ℕ

-- The array `features` is left out: a prediction that reads it is another one in each round.
pub record StateEstimate : Type 0 where
  pub state_id : String
  pub source_packet_id : String
  pub capture_ns : ℤ
  pub prepared_ns : ℤ
  pub state_age : ℤ

-- An uncertainty is a whole number of a unit.
pub record PredictionReport : Type 0 where
  pub state_id : String
  pub predicted_ns : ℤ
  pub uncertainty : ℤ
  pub planning_latency : ℤ
  pub safe_candidate_id : Option String

pub record ControlWindow : Type 0 where
  pub window_id : String
  pub source_state_id : String
  pub created_ns : ℤ
  pub expires_ns : ℤ
  pub candidate_id : String

pub record Limits : Type 0 where
  pub max_state_age : ℤ
  pub plan_deadline : ℤ
  pub max_uncertainty : ℤ
  pub control_window_ns : ℤ

-- The shared objects, and the local `active_window` of the control worker.
pub record Pipeline (P : Type 0) : Type 0 where
  pub sensor_ring : SpscRing P
  pub state_ring : SpscRing StateEstimate
  pub window_ring : SpscRing ControlWindow
  pub safety : SafetyLatch
  pub metrics : Metrics
  pub active_window : Option ControlWindow

abbrev pub drained : {T : Type 0} → SpscRing T → Option T × SpscRing T
drained r = elim (drain_latest r) [ none ↦ (none, r) | some out ↦ out ]

abbrev pub newer : Option ControlWindow → Option ControlWindow → Option ControlWindow
newer none old = old
newer (some w) old = some w

-- `active_window is not None and now_ns() < active_window.expires_ns`
abbrev pub is_valid_at : ℤ → Option ControlWindow → Bool
is_valid_at now none = false
is_valid_at now (some w) = ltb_ℤ now w.expires_ns

module _ {P : Type 0} where
  -- `_sensor_worker`
  unfoldable pub sensor_round : P → Pipeline P → Pipeline P
  sensor_round packet s = record s {
    sensor_ring = (push packet s.sensor_ring).1;
    metrics = record s.metrics { captured = s.metrics.captured + 1 };
  }

  -- `_state_worker`
  unfoldable pub state_round : (P → StateEstimate) → Pipeline P → Pipeline P
  state_round prepare s =
      let (newest, ring) = drained s.sensor_ring in
      elim newest [
        | none ↦ record s { sensor_ring = ring }
        | some packet ↦ record s {
          sensor_ring = ring;
          state_ring = (push (prepare packet) s.state_ring).1;
          metrics = record s.metrics { prepared = s.metrics.prepared + 1 };
        }
      ]

  abbrev pub hold : String → Pipeline P → Pipeline P
  hold reason s = record s { safety = request_hold reason s.safety }

  abbrev pub publish : ControlWindow → Pipeline P → Pipeline P
  publish w s = record s {
    window_ring = (push w s.window_ring).1;
    metrics = record s.metrics { published_windows = s.metrics.published_windows + 1 };
  }

  -- What a report leads to; `created` and `expires_from` are two readings of the clock.
  abbrev pub judge :
      Limits → StateEstimate → PredictionReport → String → ℤ → ℤ → Pipeline P → Pipeline P
  judge limits state report uuid created expires_from s =
      if ltb_ℤ limits.plan_deadline report.planning_latency
      then hold "model_deadline_miss" (record s {
        metrics = record s.metrics { deadline_misses = s.metrics.deadline_misses + 1 };
      })
      else if ltb_ℤ limits.max_uncertainty report.uncertainty
      then hold "model_high_uncertainty" (record s {
        metrics = record s.metrics { high_uncertainty = s.metrics.high_uncertainty + 1 };
      })
      else elim report.safe_candidate_id [
        | none ↦ hold "no_safe_candidate" s
        | some candidate ↦
            publish
              (record {
                window_id = uuid;
                source_state_id = state.state_id;
                created_ns = created;
                expires_ns = expires_from +ℤ limits.control_window_ns;
                candidate_id = candidate;
              })
              s
      ]

  -- `_inference_worker`
  unfoldable pub inference_round :
      Limits → (StateEstimate → PredictionReport) → String → ℤ → ℤ → ℤ → Pipeline P → Pipeline P
  unfolding request_hold
  inference_round limits predict uuid now created expires_from s =
      let (newest, ring) = drained s.state_ring in
      let s' : Pipeline P = record s { state_ring = ring } in
      elim newest [
        | none ↦ s'
        | some state ↦
            if ltb_ℤ limits.max_state_age (now -ℤ state.capture_ns)
            then hold "state_too_old" (record s' {
              metrics = record s'.metrics { stale_states = s'.metrics.stale_states + 1 };
            })
            else judge limits state (predict state) uuid created expires_from
                (record s' { metrics = record s'.metrics { inferred = s'.metrics.inferred + 1 } })
      ]

  -- `_control_worker`
  unfoldable pub control_round : ℤ → Pipeline P → Pipeline P
  control_round now s =
      let (newest, ring) = drained s.window_ring in
      let window = newer newest s.active_window in
      if is_normal s.safety.mode && is_valid_at now window
      then record s {
        window_ring = ring;
        active_window = window;
        metrics = record s.metrics { control_accepted = s.metrics.control_accepted + 1 };
      }
      else record s {
        window_ring = ring;
        active_window = none;
        metrics = record s.metrics { control_holds = s.metrics.control_holds + 1 };
      }
