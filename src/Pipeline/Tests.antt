-- ===== src/Pipeline/Tests.antt =====
-- A ring of two slots that overflows, a pipeline that is put on hold, and the theorems at them.
use acvjepa_project.Prelude.Int.{pos, ◌+ℤ◌, ◌-ℤ◌}
use acvjepa_project.Prelude.{ℕ, ◌≡◌, refl, false, Option, none, some, List, [], ◌∷◌}
use acvjepa_project.Pipeline.{SpscRing, create, push, pop, drain_loop, drain_latest}
use acvjepa_project.Pipeline.Race.{pop_take}
use acvjepa_project.Pipeline.Workers.{
  normal, hard_stop, is_normal, StateEstimate, PredictionReport, ControlWindow, Limits, Pipeline,
  sensor_round, state_round, inference_round, control_round,
}
use acvjepa_project.Pipeline.Safety.{
  Round, sense, estimate, infer, control, stop, play, play_all, no_control_after_hold,
}
use acvjepa_project.Pipeline.Refinement.{
  Op, put, take_oldest, take_latest, answers, spec_answers, ring_refines_queue,
}

abbrev small_ring : SpscRing ℕ
small_ring = record {
  capacity = 2;
  slots = none ∷ none ∷ [];
  head = 0;
  tail = 0;
  dropped = 0;
  closed = false;
}

abbrev schedule : List (Op ℕ)
schedule = put 7 ∷ put 8 ∷ put 9 ∷ take_oldest ∷ put 10 ∷ take_latest ∷ take_oldest ∷ []

queue_answers :
    spec_answers 2 schedule [] ≡ none ∷ none ∷ none ∷ some 8 ∷ none ∷ some 10 ∷ none ∷ []
queue_answers = refl

too_small : create {T = ℕ} 1 ≡ none
unfolding create
too_small = refl

ring_refines_queue_example : answers schedule small_ring ≡ some (spec_answers 2 schedule [])
unfolding create
ring_refines_queue_example = ring_refines_queue 2 small_ring schedule refl

abbrev ring_of : (T : Type 0) → SpscRing T
ring_of T = record {
  capacity = 2;
  slots = none ∷ none ∷ [];
  head = 0;
  tail = 0;
  dropped = 0;
  closed = false;
}

abbrev started : Pipeline ℕ
started = record {
  sensor_ring = ring_of ℕ;
  state_ring = ring_of StateEstimate;
  window_ring = ring_of ControlWindow;
  safety = record { mode = normal; reason = "" };
  metrics = record {
    captured = 0;
    prepared = 0;
    inferred = 0;
    published_windows = 0;
    control_accepted = 0;
    control_holds = 0;
    deadline_misses = 0;
    high_uncertainty = 0;
    stale_states = 0;
  };
  active_window = none;
}

abbrev limits : Limits
limits = record {
  max_state_age = pos 120;
  plan_deadline = pos 30;
  max_uncertainty = pos 12;
  control_window_ns = pos 80;
}

abbrev confident : StateEstimate → PredictionReport
confident state = record {
  state_id = state.state_id;
  predicted_ns = pos 22;
  uncertainty = pos 3;
  planning_latency = pos 4;
  safe_candidate_id = some "skill";
}

-- One packet goes through all four workers.
abbrev one_packet : List (Round ℕ)
one_packet =
    sense 5
    ∷ estimate (λ n. record {
      state_id = "s";
      source_packet_id = "p";
      capture_ns = pos n;
      prepared_ns = pos n;
      state_age = pos 0;
    })
    ∷ infer limits confident "w" (pos 20) (pos 24) (pos 25)
    ∷ control (pos 100)
    ∷ []

accepts_once : (play_all one_packet started).metrics.control_accepted ≡ 1
unfolding play_all play sensor_round state_round inference_round control_round push pop drain_latest
    drain_loop ◌+ℤ◌ ◌-ℤ◌
accepts_once = refl

no_control_after_hold_example :
    (is_normal (play_all one_packet (play (stop "operator") started)).safety.mode ≡ false)
    × ((play_all one_packet (play (stop "operator") started)).metrics.control_accepted ≡ 0)
unfolding play hard_stop
no_control_after_hold_example =
    no_control_after_hold one_packet (play (stop "operator") started) refl

-- Between the halves of a pop from a full ring with 7 and 8, 9 is pushed: the pop takes 9, and the next
-- one finds nothing where 9 was.
abbrev torn_ring : Option ℕ × SpscRing ℕ
torn_ring = pop_take 0 (push 9 (record small_ring { slots = some 7 ∷ some 8 ∷ []; head = 2 })).1

test_torn : (torn_ring.0 ≡ some 9) × ((pop torn_ring.1).0 ≡ none)
unfolding push pop pop_take
test_torn = (refl, refl)
