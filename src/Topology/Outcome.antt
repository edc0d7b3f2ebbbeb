-- ===== src/Topology/Outcome.antt =====
-- `plan` on inputs that its guards let through.
use acvjepa_project.Prelude.Dict.{Dict, beq_refl}
use acvjepa_project.Prelude.Int.{ℤ, pos, pos_part, ◌+ℤ◌, int_eq}
use acvjepa_project.Prelude.Float.{Floats}
use acvjepa_project.Prelude.Hashing.{Hashing}
use acvjepa_project.Topology.Accepted.{IsAccepted, validate_update_plan-IsAccepted}
use acvjepa_project.Prelude.{
  string_eq, nat_eq, ◌==◌, length, Result, ok, Result-cases, ℕ, ◌<◌, String, ◌≡◌, refl, inl, inr,
  true, some, List, [], arith,
}
use acvjepa_project.Topology.Types.{
  PlanError, TopologyManifest, RankTelemetry, WorkItem, TopologyAwareUpdatePlan, node_eq,
  range_from, list_beq, validate_each, record_ranks, validate_manifest, topology_digest_of,
  validate_work, digest_work,
}
use acvjepa_project.Topology.Check.{sum_ℤ, check_plan, validate_update_plan}
use acvjepa_project.Topology.Assign.{Planner, RankShare, Bin, assign_work}
use acvjepa_project.Topology.{by_rank, shared_counts, plan_of, plan}
use acvjepa_project.Topology.Shares.{topos, shares_of-facts}
use acvjepa_project.Topology.Empty.{share_slots, sum-shared_counts}
use acvjepa_project.Topology.Complete.{
  IsPlanner, IsAdmitted, validate_manifest-HasRanks, IsFullFor, assign_work-IsFullFor,
  check_plan-made,
}

module _ {F : Type 0} (fl : Floats F) (h : Hashing) (m : TopologyManifest F)
    (telemetry : List (RankTelemetry F)) (sizes : Dict ℤ ℤ) (items : List (WorkItem F))
    (p : Planner F) (shares : List (RankShare F)) where
  -- What `plan` returns and leaves: the plan of an assignment, and a planner of the next version.
  pub record IsPlanned (result : Result PlanError (TopologyAwareUpdatePlan F) × Planner F)
      : Type 0 where
    pub bins : List (Bin F)
    pub digest : String
    pub assigned : assign_work fl p shares items ≡ some bins
    pub filled : IsFullFor items shares bins
    pub digested : digest_work fl h items ≡ ok digest
    pub accepted : IsAccepted fl h m.world_size (plan_of fl h p m digest shares bins) m items
    pub returned :
        result
        ≡ (ok (plan_of fl h p m digest shares bins), record p { version = p.version +ℤ pos 1 })

  digest_of_valid :
      validate_each (validate_work fl) items ≡ ok tt
      → (d : String) × (digest_work fl h items ≡ ok d)
  unfolding digest_work
  digest_of_valid valid = elim (Result-cases (digest_work fl h items)) [
    | inl (d, e) ↦ (d, e)
    | inr (e, bad) ↦ absurd (ground (arith, valid))
  ]

  validate_update_plan-made :
      (result : TopologyAwareUpdatePlan F)
      → validate_manifest fl m ≡ ok tt
      → result.world_size ≡ m.world_size
      → result.topology_epoch ≡ m.topology_epoch
      → result.topology_digest ≡ topology_digest_of fl h m
      → digest_work fl h items ≡ ok result.work_manifest_digest
      → check_plan fl result m items ≡ ok tt
      → validate_update_plan fl h m.world_size result m items ≡ ok tt
  unfolding validate_update_plan
  validate_update_plan-made result valid size epoch topology digest checked = ground (
    arith,
    valid,
    size,
    beq_refl m.world_size,
    epoch,
    beq_refl m.topology_epoch,
    topology,
    beq_refl (topology_digest_of fl h m),
    digest,
    beq_refl result.work_manifest_digest,
    checked,
  )

  -- On inputs that pass the guards of `plan`, the conversions between integers and floats being among
  -- them, in a process group of the manifest's size, the planner returns a plan and counts its version: the greedy assignment ends with every micro-batch of every
  -- rank filled and every item given as often as it is listed, so that the assertion in _assign_work
  -- never fails, and validate_update_plan, with which the planner ends, never rejects its plan,
  -- which has all that this check asks for. The planner has at least one micro-batch for each rank, a
  -- version from 0 on and a finite target, and the float of a fraction is close to itself.
  pub plan-IsPlanned :
      IsPlanner fl p
      → IsAdmitted fl m telemetry sizes items p shares
      → ((n : ℤ) (d : ℕ)
          → 0 < d
          → fl.is_close (fl.ratio (pos 1) 1000000000000) (fl.ratio n d) (fl.ratio n d) ≡ true)
      → IsPlanned (plan fl h m.world_size m telemetry sizes items p)
  unfolding plan
  plan-IsPlanned is admitted close =
      let has = validate_manifest-HasRanks fl m admitted.manifest_valid in
      let (same, positive) =
        shares_of-facts fl p (by_rank telemetry []) sizes m.ranks shares is.some_micro_batches
          admitted.sizes_positive admitted.shared in
      let counts = sum-shared_counts fl shares positive in
      let enough : share_slots shares ≡ length items =
        ground (arith, admitted.item_count, counts) in
      let ranks : list_beq (record_ranks (topos shares)) (range_from 0 (pos_part m.world_size))
          ≡ true =
        rw same has.in_order in
      let (bins, assigned, filled) =
        assign_work-IsFullFor fl p items shares (pos_part m.world_size) ranks enough in
      let (d, digested) = digest_of_valid admitted.items_valid in
      let checked =
        check_plan-made fl p h m items shares bins d is has same positive filled admitted.ids_differ
          close in
      let accepted =
        validate_update_plan-made (plan_of fl h p m d shares bins) admitted.manifest_valid refl refl
          refl digested checked in
      let same_length : (length items == length items) ≡ true = beq_refl (length items) in
      let same_count : (pos (length items) == sum_ℤ (shared_counts fl shares)) ≡ true =
        ground (arith, admitted.item_count) in
      record {
        bins = bins;
        digest = d;
        assigned = assigned;
        filled = filled;
        digested = digested;
        accepted =
            (validate_update_plan-IsAccepted fl h m.world_size (plan_of fl h p m d shares bins) m
                items).0
              accepted;
        returned =
            rw
              (
                admitted.manifest_valid, admitted.telemetry_complete, admitted.sizes_complete,
                admitted.healthy, admitted.sizes_positive, admitted.telemetry_valid,
                admitted.items_valid, admitted.ids_differ, same_length, admitted.shared, same_count,
                admitted.distances_fit, assigned, digested, accepted,
              )
              refl;
      }
