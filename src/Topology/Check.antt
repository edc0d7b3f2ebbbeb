-- ===== src/Topology/Check.antt =====
-- topology_aware_update_plan.py: validate_update_plan, the check that every rank makes of a plan. The
-- size of the process group is an argument.
use acvjepa_project.Prelude.Int.{ℤ, pos, pos_part, neg_part, sub_ℕ, ◌+ℤ◌, ltb_ℤ, leb_ℤ, int_eq}
use acvjepa_project.Prelude.Float.{Floats}
use acvjepa_project.Prelude.Hashing.{Hashing}
use acvjepa_project.Prelude.{
  if◌then◌else◌, string_eq, nat_eq, ◌==◌, length, set_size, same_set, Result, ok, err, check, ◌+◌,
  ◌*◌, String, Bool, not, ◌&&◌, ◌||◌, List, [], ◌∷◌, ◌++◌,
}
use acvjepa_project.Topology.Types.{
  PlanError, world_size_differs, topology_differs, work_differs, bad_metadata, bad_rank_entries,
  bad_assignment, bad_total, facts_differ, bad_micro_batches, bad_local_samples, bad_scale,
  LocalTopologyRecord, TopologyManifest, WorkItem, TopologyRankUpdatePlan, TopologyAwareUpdatePlan,
  node_eq, range_from, list_beq, work_ids, validate_manifest, topology_digest_of, digest_work,
}

abbrev pub sum_ℤ : List ℤ → ℤ
sum_ℤ [] = pos 0
sum_ℤ (n ∷ ns) = n +ℤ sum_ℤ ns

-- `a * b` on integers.
abbrev pub times_ℤ : ℤ → ℤ → ℤ
times_ℤ a b =
    sub_ℕ (pos_part a * pos_part b + neg_part a * neg_part b)
      (pos_part a * neg_part b + neg_part a * pos_part b)

module _ {F : Type 0} where
  abbrev pub planned_ids : List (TopologyRankUpdatePlan F) → List String
  planned_ids [] = []
  planned_ids (r ∷ rs) = r.work_item_ids ++ planned_ids rs

  abbrev pub planned_ranks : List (TopologyRankUpdatePlan F) → List ℤ
  planned_ranks [] = []
  planned_ranks (r ∷ rs) = r.rank ∷ planned_ranks rs

  abbrev pub planned_samples : List (TopologyRankUpdatePlan F) → List ℤ
  planned_samples [] = []
  planned_samples (r ∷ rs) = r.local_samples ∷ planned_samples rs

  abbrev pub has_facts : TopologyRankUpdatePlan F → LocalTopologyRecord F → Bool
  has_facts r topo =
      r.node_id == topo.node_id
      && r.local_rank == topo.local_rank
      && r.nic_id == topo.nic_id
      && r.rail_id == topo.rail_id

module _ {F : Type 0} (fl : Floats F) where
  -- The body of the loop of validate_update_plan.
  abbrev pub check_rank :
      F → TopologyRankUpdatePlan F → LocalTopologyRecord F → Result PlanError (Unit {0})
  check_rank expected r topo =
      if not (has_facts r topo)
      then err facts_differ
      else if ltb_ℤ r.micro_batches (pos 1) || not (pos (length r.work_item_ids) == r.micro_batches)
      then err bad_micro_batches
      else if not (r.local_samples == times_ℤ r.micro_batches r.samples_per_micro_batch)
      then err bad_local_samples
      else check (fl.is_close (fl.ratio (pos 1) 1000000000000) r.loss_sum_scale expected) bad_scale

  -- `for rank_plan, topo in zip(plan.ranks, manifest.ranks)`
  abbrev pub check_ranks :
      F
      → List (TopologyRankUpdatePlan F)
      → List (LocalTopologyRecord F)
      → Result PlanError (Unit {0})
  check_ranks expected [] topos = ok tt
  check_ranks expected (r ∷ rs) [] = ok tt
  check_ranks expected (r ∷ rs) (topo ∷ topos) =
      let rest = check_ranks expected rs topos in
      elim (check_rank expected r topo) [ err e ↦ err e | ok _ ↦ rest ]

  -- The guards of validate_update_plan after the digest of the work.
  abbrev pub check_plan :
      TopologyAwareUpdatePlan F
      → TopologyManifest F
      → List (WorkItem F)
      → Result PlanError (Unit {0})
  check_plan plan m items =
      let planned = planned_ids plan.ranks in
      if ltb_ℤ plan.plan_version (pos 1)
        || leb_ℤ plan.global_samples (pos 0)
        || not (fl.is_finite plan.target_update_ms)
      then err bad_metadata
      else if not (list_beq (planned_ranks plan.ranks) (range_from 0 (pos_part plan.world_size)))
      then err bad_rank_entries
      else if not (same_set planned (work_ids items))
          || not (length planned == set_size (work_ids items))
      then err bad_assignment
      else if not (plan.global_samples == sum_ℤ (planned_samples plan.ranks))
      then err bad_total
      else check_ranks (fl.ratio plan.world_size (pos_part plan.global_samples)) plan.ranks m.ranks

  abbrev pub check_digest :
      String → Result PlanError String → Result PlanError (Unit {0}) → Result PlanError (Unit {0})
  check_digest expected (err e) rest = err e
  check_digest expected (ok d) rest = if not (expected == d) then err work_differs else rest

  -- `validate_update_plan`, in a process group of a size.
  unfoldable pub validate_update_plan :
      Hashing
      → ℤ
      → TopologyAwareUpdatePlan F
      → TopologyManifest F
      → List (WorkItem F)
      → Result PlanError (Unit {0})
  validate_update_plan h group plan m items = elim (validate_manifest fl m) [
    | err e ↦ err e
    | ok _ ↦
        if not (plan.world_size == group) || not (plan.world_size == m.world_size)
        then err world_size_differs
        else if not (plan.topology_epoch == m.topology_epoch)
            || not (plan.topology_digest == topology_digest_of fl h m)
        then err topology_differs
        else check_digest plan.work_manifest_digest (digest_work fl h items)
            (check_plan plan m items)
  ]
