-- ===== src/Topology.antt =====
-- topology_aware_update_plan.py: the planner of one synchronous update. The size of the process group is
-- an argument; the tensors that carry a plan between the ranks are torch's.
pub mod Types
pub mod Assign
pub mod Check
pub mod Bins
pub mod Assignment
pub mod Shares
pub mod Empty
pub mod Planned
pub mod Complete
pub mod Outcome
pub mod Entries
pub mod Accepted
mod Tests
use acvjepa_project.Prelude.Int.{ℤ, pos, pos_part, ◌+ℤ◌, ltb_ℤ, leb_ℤ, int_eq}
use acvjepa_project.Prelude.Float.{Floats}
use acvjepa_project.Prelude.Dict.{Dict, insert}
use acvjepa_project.Prelude.Table.{count}
use acvjepa_project.Prelude.Hashing.{Hashing}
use acvjepa_project.Prelude.{
  if◌then◌else◌, string_eq, nat_eq, ◌==◌, length, any, sort_by, set_size, same_set, Result, ok, err,
  Exec, pure, gets, lift, or_raise, ◌>>=◌, ◌>>◌, raise_if, modify, String, Bool, not, ◌||◌, List,
  [], ◌∷◌,
}
use acvjepa_project.Topology.Types.{
  PlanError, bad_bounds, incomplete_ranks, unhealthy_rank, bad_batch_size, duplicate_work,
  not_convertible, wrong_item_count, no_slot, TopologyManifest, RankTelemetry, WorkItem,
  TopologyRankUpdatePlan, TopologyAwareUpdatePlan, node_eq, validate_each, record_ranks, work_ids,
  is_not_positive, validate_manifest, topology_digest_of, validate_telemetry, validate_work,
  digest_work,
}
use acvjepa_project.Topology.Assign.{Planner, RankShare, Bin, shares_of, comes_first, assign_work}
use acvjepa_project.Topology.Check.{sum_ℤ, times_ℤ, validate_update_plan}

abbrev pub keys : {V : Type 0} → Dict ℤ V → List ℤ
keys [] = []
keys ((k, v) ∷ d) = k ∷ keys d

abbrev pub values : {V : Type 0} → Dict ℤ V → List V
values [] = []
values ((k, v) ∷ d) = v ∷ values d

module _ {F : Type 0} where
  -- `{item.rank: item for item in telemetry}`
  abbrev pub by_rank : List (RankTelemetry F) → Dict ℤ (RankTelemetry F) → Dict ℤ (RankTelemetry F)
  by_rank [] d = d
  by_rank (t ∷ ts) d = by_rank ts (insert t.rank t d)

module _ {F : Type 0} (fl : Floats F) where
  -- `TopologyAwarePlanner.__init__`
  unfoldable pub create_planner : F → ℤ → ℤ → F → F → F → Result PlanError (Planner F)
  create_planner target low high jitter remote distance =
      if is_not_positive fl target || ltb_ℤ low (pos 1) || ltb_ℤ high low
      then err bad_bounds
      else ok (record {
        target_update_ms = target;
        min_micro_batches = low;
        max_micro_batches = high;
        safety_jitter_ms = jitter;
        remote_work_penalty_ms = remote;
        distance_penalty_ms = distance;
        version = pos 0;
      })

  -- A distance that is not converted to a float.
  abbrev pub distance_too_large : RankShare F → Bool
  distance_too_large s = not (fl.fits s.topo.gpu_nic_distance)

  abbrev pub shared_counts : List (RankShare F) → List ℤ
  shared_counts [] = []
  shared_counts (s ∷ ss) = s.count ∷ shared_counts ss

  abbrev pub shared_samples : List (RankShare F) → List ℤ
  shared_samples [] = []
  shared_samples (s ∷ ss) = times_ℤ s.count s.batch_size ∷ shared_samples ss

  abbrev pub rank_plan : F → Bin F → TopologyRankUpdatePlan F
  rank_plan scale b = record {
    rank = b.share.topo.rank;
    node_id = b.share.topo.node_id;
    local_rank = b.share.topo.local_rank;
    nic_id = b.share.topo.nic_id;
    rail_id = b.share.topo.rail_id;
    micro_batches = b.share.count;
    samples_per_micro_batch = b.share.batch_size;
    local_samples = times_ℤ b.share.count b.share.batch_size;
    loss_sum_scale = scale;
    compute_budget_ms = b.share.budget;
    network_guard_ms = b.share.guard;
    work_item_ids = work_ids (sort_by (comes_first fl) b.items);
  }

  abbrev pub rank_plans : F → List (Bin F) → List (TopologyRankUpdatePlan F)
  rank_plans scale [] = []
  rank_plans scale (b ∷ bs) = rank_plan scale b ∷ rank_plans scale bs

  -- The plan that the planner's next version makes of an assignment.
  abbrev pub plan_of :
      Hashing
      → Planner F
      → TopologyManifest F
      → String
      → List (RankShare F)
      → List (Bin F)
      → TopologyAwareUpdatePlan F
  plan_of h p m work_digest shares bins =
      let total = sum_ℤ (shared_samples shares) in
      record {
        plan_version = p.version +ℤ pos 1;
        topology_epoch = m.topology_epoch;
        topology_digest = topology_digest_of fl h m;
        work_manifest_digest = work_digest;
        target_update_ms = p.target_update_ms;
        world_size = m.world_size;
        global_samples = total;
        ranks = rank_plans (fl.ratio m.world_size (pos_part total)) bins;
      }

  -- `plan`, with the telemetry and the micro-batch sizes of the ranks and the items of the update.
  unfoldable pub plan :
      Hashing
      → ℤ
      → TopologyManifest F
      → List (RankTelemetry F)
      → Dict ℤ ℤ
      → List (WorkItem F)
      → Exec PlanError (Planner F) (TopologyAwareUpdatePlan F)
  plan h group m telemetry sizes items = do
    lift (validate_manifest fl m)
    let ts = by_rank telemetry []
    let ranks = record_ranks m.ranks
    raise_if (not (same_set (keys ts) ranks) || not (same_set (keys sizes) ranks)) incomplete_ranks
    raise_if (any (λ t. not t.healthy) (values ts)) unhealthy_rank
    raise_if (any (λ n. leb_ℤ n (pos 0)) (values sizes)) bad_batch_size
    lift (validate_each (validate_telemetry fl) (values ts))
    lift (validate_each (validate_work fl) items)
    raise_if (not (set_size (work_ids items) == length items)) duplicate_work
    p ← gets (λ p. p)
    shares ← lift (shares_of fl p ts sizes m.ranks)
    raise_if (not (pos (length items) == sum_ℤ (shared_counts shares))) wrong_item_count
    -- `estimated_finish` multiplies the distance of every rank by a float, for the first item.
    raise_if (any distance_too_large shares) not_convertible
    bins ← or_raise (assign_work fl p shares items) no_slot
    modify (λ p. record p { version = p.version +ℤ pos 1 })
    work_digest ← lift (digest_work fl h items)
    let result = plan_of h p m work_digest shares bins
    lift (validate_update_plan fl h group result m items)
    pure result
