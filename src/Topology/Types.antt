-- ===== src/Topology/Types.antt =====
-- The values of topology_aware_update_plan.py with their validation, encodings and digests. Floats are
-- a parameter.
use acvjepa_project.Prelude.Int.{ℤ, pos, pos_part, ltb_ℤ, leb_ℤ, int_eq}
use acvjepa_project.Prelude.Float.{Floats, of_int}
use acvjepa_project.Prelude.Json.{Json, str, int, num, arr, obj, Items, nil, cons, end, field}
use acvjepa_project.Prelude.Text.{string_leb}
use acvjepa_project.Prelude.Hashing.{Hashing, digest_of}
use acvjepa_project.Prelude.{
  if◌then◌else◌, Eq, string_eq, nat_eq, ◌==◌, length, sort_by, set_size, Result, ok, err, check, ℕ,
  zero, suc, ◌+◌, String, ◌≡◌, ◌↔◌, Bool, true, false, not, ◌&&◌, ◌||◌, List, [], ◌∷◌, arith,
  eq_iff,
}

-- The exceptions, one for each message.
pub data PlanError : Type 0 where
  negative_topology identity_missing bad_floor : PlanError
  size_mismatch ranks_not_contiguous duplicate_local_rank : PlanError
  bad_telemetry telemetry_not_finite bad_work duplicate_nodes : PlanError
  bad_bounds incomplete_ranks unhealthy_rank bad_batch_size duplicate_work : PlanError
  no_budget not_convertible wrong_item_count no_slot unknown_rank : PlanError
  world_size_differs topology_differs work_differs bad_metadata : PlanError
  bad_rank_entries bad_assignment bad_total : PlanError
  facts_differ bad_micro_batches bad_local_samples bad_scale : PlanError

pub record LocalTopologyRecord (F : Type 0) : Type 0 where
  pub rank : ℤ
  pub node_id : String
  pub local_rank : ℤ
  pub gpu_id : String
  pub numa_node : ℤ
  pub nic_id : String
  pub rail_id : String
  pub gpu_nic_distance : ℤ
  pub expected_collective_floor_ms : F
  pub inventory_epoch : String

pub record TopologyManifest (F : Type 0) : Type 0 where
  pub topology_epoch : String
  pub world_size : ℤ
  pub ranks : List (LocalTopologyRecord F)

pub record RankTelemetry (F : Type 0) : Type 0 where
  pub rank : ℤ
  pub samples_per_second : F
  pub p95_data_ms : F
  pub p95_allreduce_ms : F
  pub free_memory_gb : F
  pub healthy : Bool

pub record WorkItem (F : Type 0) : Type 0 where
  pub work_id : String
  pub cost_units : F
  pub preferred_nodes : List String
  pub provenance_hash : String

pub record TopologyRankUpdatePlan (F : Type 0) : Type 0 where
  pub rank : ℤ
  pub node_id : String
  pub local_rank : ℤ
  pub nic_id : String
  pub rail_id : String
  pub micro_batches : ℤ
  pub samples_per_micro_batch : ℤ
  pub local_samples : ℤ
  pub loss_sum_scale : F
  pub compute_budget_ms : F
  pub network_guard_ms : F
  pub work_item_ids : List String

pub record TopologyAwareUpdatePlan (F : Type 0) : Type 0 where
  pub plan_version : ℤ
  pub topology_epoch : String
  pub topology_digest : String
  pub work_manifest_digest : String
  pub target_update_ms : F
  pub world_size : ℤ
  pub global_samples : ℤ
  pub ranks : List (TopologyRankUpdatePlan F)

abbrev pub node_beq : String × ℤ → String × ℤ → Bool
node_beq (a, i) (b, j) = a == b && i == j

pub node_beq_iff : (x y : String × ℤ) → (node_beq x y ≡ true) ↔ (x ≡ y)
node_beq_iff (a, i) (b, j) = ground (arith, eq_iff a b, int_eq.same_iff i j)

instance abbrev pub node_eq : Eq (String × ℤ)
node_eq = record { same = node_beq; same_iff = node_beq_iff }

-- `range(n)`, from a first number on.
abbrev pub range_from : ℕ → ℕ → List ℤ
range_from start zero = []
range_from start (suc n) = pos start ∷ range_from (start + 1) n

abbrev pub list_beq : List ℤ → List ℤ → Bool
list_beq [] [] = true
list_beq [] (y ∷ ys) = false
list_beq (x ∷ xs) [] = false
list_beq (x ∷ xs) (y ∷ ys) = x == y && list_beq xs ys

-- `validate()` of each item, up to the first that raises.
abbrev pub validate_each :
    {A : Type 0} → (A → Result PlanError (Unit {0})) → List A → Result PlanError (Unit {0})
validate_each check_one [] = ok tt
validate_each check_one (x ∷ xs) =
    let rest = validate_each check_one xs in elim (check_one x) [ err e ↦ err e | ok _ ↦ rest ]

module _ {F : Type 0} where
  abbrev pub record_ranks : List (LocalTopologyRecord F) → List ℤ
  record_ranks [] = []
  record_ranks (r ∷ rs) = r.rank ∷ record_ranks rs

  abbrev pub local_ranks : List (LocalTopologyRecord F) → List (String × ℤ)
  local_ranks [] = []
  local_ranks (r ∷ rs) = (r.node_id, r.local_rank) ∷ local_ranks rs

  abbrev pub work_ids : List (WorkItem F) → List String
  work_ids [] = []
  work_ids (w ∷ ws) = w.work_id ∷ work_ids ws

module _ {F : Type 0} (fl : Floats F) where
  abbrev pub is_negative : F → Bool
  is_negative a = fl.less a (of_int fl (pos 0))

  -- `a <= 0`
  abbrev pub is_not_positive : F → Bool
  is_not_positive a = fl.less a (of_int fl (pos 0)) || fl.equal a (of_int fl (pos 0))

  -- `LocalTopologyRecord.validate`
  unfoldable pub validate_record : LocalTopologyRecord F → Result PlanError (Unit {0})
  validate_record r =
      if ltb_ℤ r.rank (pos 0)
        || ltb_ℤ r.local_rank (pos 0)
        || ltb_ℤ r.numa_node (pos 0)
        || ltb_ℤ r.gpu_nic_distance (pos 0)
      then err negative_topology
      else if r.node_id == ""
          || r.gpu_id == ""
          || r.nic_id == ""
          || r.rail_id == ""
          || r.inventory_epoch == ""
      then err identity_missing
      else check
          (fl.is_finite r.expected_collective_floor_ms
            && not (is_negative r.expected_collective_floor_ms))
          bad_floor

  -- `TopologyManifest.validate`
  unfoldable pub validate_manifest : TopologyManifest F → Result PlanError (Unit {0})
  validate_manifest m =
      if leb_ℤ m.world_size (pos 0) || not (pos (length m.ranks) == m.world_size)
      then err size_mismatch
      else if not (list_beq (record_ranks m.ranks) (range_from 0 (pos_part m.world_size)))
      then err ranks_not_contiguous
      else if not (pos (set_size (local_ranks m.ranks)) == m.world_size)
      then err duplicate_local_rank
      else validate_each validate_record m.ranks

  abbrev pub record_json : LocalTopologyRecord F → Json
  record_json r = obj (
      field "rank" (int r.rank) (
        field "node_id" (str r.node_id) (
          field "local_rank" (int r.local_rank) (
            field "gpu_id" (str r.gpu_id) (
              field "numa_node" (int r.numa_node) (
                field "nic_id" (str r.nic_id) (
                  field "rail_id" (str r.rail_id) (
                    field "gpu_nic_distance" (int r.gpu_nic_distance) (
                      field "expected_collective_floor_ms"
                        (num (fl.repr r.expected_collective_floor_ms))
                        (field "inventory_epoch" (str r.inventory_epoch) end))))))))))

  abbrev pub records_json : List (LocalTopologyRecord F) → Items
  records_json [] = nil
  records_json (r ∷ rs) = cons (record_json r) (records_json rs)

  -- `TopologyManifest.digest`, of a manifest that is valid.
  unfoldable pub topology_digest_of : Hashing → TopologyManifest F → String
  topology_digest_of h m = digest_of h (
      obj (
        field "topology_epoch" (str m.topology_epoch)
          (field "world_size" (int m.world_size) (field "ranks" (arr (records_json m.ranks)) end))))

  -- `_build_epoch`, with the run and the restart count of the environment.
  unfoldable pub build_epoch : Hashing → String → String → List (LocalTopologyRecord F) → String
  build_epoch h run_id restart_count records = digest_of h (
      obj (
        field "torchelastic_run_id" (str run_id) (
          field "restart_count" (str restart_count) (
            field "world_size" (int (pos (length records))) (
              field "records" (arr (records_json (sort_by (λ a b. leb_ℤ a.rank b.rank) records)))
                end)))))

  -- `RankTelemetry.validate`
  unfoldable pub validate_telemetry : RankTelemetry F → Result PlanError (Unit {0})
  validate_telemetry t =
      if ltb_ℤ t.rank (pos 0)
        || is_not_positive t.samples_per_second
        || is_negative t.p95_data_ms
        || is_negative t.p95_allreduce_ms
        || is_negative t.free_memory_gb
      then err bad_telemetry
      else check
          (fl.is_finite t.samples_per_second
            && fl.is_finite t.p95_data_ms
            && fl.is_finite t.p95_allreduce_ms
            && fl.is_finite t.free_memory_gb)
          telemetry_not_finite

  -- `WorkItem.validate`
  unfoldable pub validate_work : WorkItem F → Result PlanError (Unit {0})
  validate_work w =
      if w.work_id == "" || not (fl.is_finite w.cost_units) || is_not_positive w.cost_units
      then err bad_work
      else check (set_size w.preferred_nodes == length w.preferred_nodes) duplicate_nodes

  abbrev pub texts_json : List String → Items
  texts_json [] = nil
  texts_json (t ∷ ts) = cons (str t) (texts_json ts)

  abbrev pub works_json : List (WorkItem F) → Items
  works_json [] = nil
  works_json (w ∷ ws) =
      cons
        (obj (
          field "work_id" (str w.work_id) (
            field "cost_units" (num (fl.repr w.cost_units)) (
              field "preferred_nodes" (arr (texts_json w.preferred_nodes))
                (field "provenance_hash" (str w.provenance_hash) end)))))
        (works_json ws)

  -- `work_manifest_digest`
  unfoldable pub digest_work : Hashing → List (WorkItem F) → Result PlanError String
  digest_work h ws = elim (validate_each validate_work ws) [
    | err e ↦ err e
    | ok _ ↦ ok (
        digest_of h (
          obj (
            field "work_items"
              (arr (works_json (sort_by (λ a b. string_leb a.work_id b.work_id) ws))) end)))
  ]
