-- ===== src/Topology/Tests.antt =====
-- Two ranks of one node, an update of three items, and each theorem at them.
use acvjepa_project.Prelude.Table.{count}
use acvjepa_project.Prelude.Int.{ℤ, pos, ◌+ℤ◌}
use acvjepa_project.Prelude.Float.{thousandths}
use acvjepa_project.Prelude.Dict.{Dict}
use acvjepa_project.Prelude.Hashing.{Hashing, transparent}
use acvjepa_project.Prelude.{
  Result, ok, err, ℕ, ◌<◌, String, ◌≡◌, refl, ◌↔◌, true, none, some, List, [], ◌∷◌, arith,
}
use acvjepa_project.Topology.Check.{validate_update_plan}
use acvjepa_project.Topology.Accepted.{IsAccepted, validate_update_plan-IsAccepted}
use acvjepa_project.Topology.Types.{
  PlanError, not_convertible, wrong_item_count, LocalTopologyRecord, TopologyManifest,
  RankTelemetry, WorkItem, TopologyAwareUpdatePlan, validate_record, validate_manifest,
  topology_digest_of, validate_telemetry, validate_work, digest_work,
}
use acvjepa_project.Topology.Assign.{Planner, RankShare, Bin, micro_batches_in, assign_work}
use acvjepa_project.Topology.{create_planner, plan_of, plan}
use acvjepa_project.Topology.Complete.{IsAdmitted}
use acvjepa_project.Topology.Outcome.{IsPlanned, plan-IsPlanned}

abbrev topology_of : ℤ → LocalTopologyRecord ℕ
topology_of n = record {
  rank = n;
  node_id = "node-a";
  local_rank = n;
  gpu_id = "gpu";
  numa_node = pos 0;
  nic_id = "nic";
  rail_id = "rail";
  gpu_nic_distance = n;
  expected_collective_floor_ms = 5000;
  inventory_epoch = "e";
}

abbrev manifest : TopologyManifest ℕ
manifest = record {
  topology_epoch = "epoch";
  world_size = pos 2;
  ranks = topology_of (pos 0) ∷ topology_of (pos 1) ∷ [];
}

abbrev telemetry_of : ℤ → RankTelemetry ℕ
telemetry_of n = record {
  rank = n;
  samples_per_second = 40000;
  p95_data_ms = 10000;
  p95_allreduce_ms = 4000;
  free_memory_gb = 8000;
  healthy = true;
}

abbrev telemetry : List (RankTelemetry ℕ)
telemetry = telemetry_of (pos 0) ∷ telemetry_of (pos 1) ∷ []

abbrev sizes : Dict ℤ ℤ
sizes = (pos 0, pos 4) ∷ (pos 1, pos 2) ∷ []

abbrev item : String → ℕ → WorkItem ℕ
item id cost = record {
  work_id = id;
  cost_units = cost;
  preferred_nodes = "node-a" ∷ [];
  provenance_hash = "h";
}

abbrev items : List (WorkItem ℕ)
items = item "a" 1000 ∷ item "b" 3000 ∷ item "c" 2000 ∷ []

abbrev planner : Planner ℕ
planner = record {
  target_update_ms = 100000;
  min_micro_batches = pos 1;
  max_micro_batches = pos 8;
  safety_jitter_ms = 0;
  remote_work_penalty_ms = 5000;
  distance_penalty_ms = 1000;
  version = pos 0;
}

created : create_planner thousandths 100000 (pos 1) (pos 8) 0 5000 1000 ≡ ok planner
unfolding create_planner
created = refl

abbrev share : ℤ → ℤ → ℤ → RankShare ℕ
share rank size count = record {
  topo = topology_of rank;
  samples_per_second = 40000;
  batch_size = size;
  count = count;
  guard = 5000;
  budget = 85000;
}

abbrev shares : List (RankShare ℕ)
shares = share (pos 0) (pos 4) (pos 1) ∷ share (pos 1) (pos 2) (pos 2) ∷ []

admitted : IsAdmitted thousandths manifest telemetry sizes items planner shares
unfolding validate_manifest validate_record validate_telemetry validate_work micro_batches_in ◌+ℤ◌
admitted = record {
  manifest_valid = refl;
  telemetry_complete = refl;
  sizes_complete = refl;
  healthy = refl;
  sizes_positive = refl;
  telemetry_valid = refl;
  items_valid = refl;
  ids_differ = refl;
  shared = refl;
  distances_fit = refl;
  item_count = refl;
}

close_to_itself :
    (n : ℤ) (d : ℕ)
    → 0 < d
    → thousandths.is_close
        (thousandths.ratio (pos 1) 1000000000000)
        (thousandths.ratio n d)
        (thousandths.ratio n d)
      ≡ true
close_to_itself n d above = ground arith

plan-IsPlanned_example :
    IsPlanned thousandths transparent manifest telemetry sizes items planner shares
      (plan thousandths transparent (pos 2) manifest telemetry sizes items planner)
plan-IsPlanned_example =
    plan-IsPlanned thousandths transparent manifest telemetry sizes items planner shares
      (record { some_micro_batches = omega arith; counted = omega arith; finite_target = refl })
      admitted close_to_itself

-- Another item has no slot, and none too few leaves one free.
test_item_count :
    (plan thousandths transparent
      (pos 2)
      manifest
      telemetry
      sizes
      (item "d" 1000 ∷ items)
      planner).0
    ≡ err wrong_item_count
unfolding plan validate_manifest validate_record validate_telemetry validate_work micro_batches_in
    ◌+ℤ◌
test_item_count = refl

-- A quotient that is infinite is rounded to no number of micro-batches, and the plan is refused.
test_infinite :
    (plan
      (record thousandths { nearest = λ a. none })
      transparent
      (pos 2)
      manifest
      telemetry
      sizes
      items
      planner).0
    ≡ err not_convertible
unfolding plan validate_manifest validate_record validate_telemetry validate_work micro_batches_in
    ◌+ℤ◌
test_infinite = refl

-- The assignment of the three items, and the plan made of it.
abbrev bins : List (Bin ℕ)
bins =
    record { share = share (pos 0) (pos 4) (pos 1); items = item "b" 3000 ∷ []; cost = 3000 }
    ∷ record {
      share = share (pos 1) (pos 2) (pos 2);
      items = item "c" 2000 ∷ item "a" 1000 ∷ [];
      cost = 3000;
    }
    ∷ []

test_assigned : assign_work thousandths planner shares items ≡ some bins
unfolding assign_work
test_assigned = refl

abbrev text_of : Result PlanError String → String
text_of (ok t) = t
text_of (err e) = ""

-- A hashing whose digests are all the same.
abbrev blank : Hashing
blank = record { sha256 = λ t. t; dumps = λ j. "" }

abbrev planned : TopologyAwareUpdatePlan ℕ
planned =
    plan_of thousandths blank planner manifest (text_of (digest_work thousandths blank items))
      shares bins

test_passes : validate_update_plan thousandths blank (pos 2) planned manifest items ≡ ok tt
unfolding validate_update_plan validate_manifest validate_record topology_digest_of digest_work
    validate_work ◌+ℤ◌
test_passes = refl

validate_update_plan-IsAccepted_example :
    (validate_update_plan thousandths blank (pos 2) planned manifest items ≡ ok tt)
    ↔ IsAccepted thousandths blank (pos 2) planned manifest items
validate_update_plan-IsAccepted_example =
    validate_update_plan-IsAccepted thousandths blank (pos 2) planned manifest items
