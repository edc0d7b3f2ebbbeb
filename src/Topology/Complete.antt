-- ===== src/Topology/Complete.antt =====
-- The planner never stops after its guards: the greedy assignment ends, and the plan passes the check
-- that every rank makes of it.
use acvjepa_project.Prelude.Hashing.{Hashing}
use acvjepa_project.Topology.Shares.{topos, IsPositive}
use acvjepa_project.Topology.Empty.{
  share_slots, total-slots, samples_positive, bin_shares-empty_bins, empty_bins-Fits, none_used,
  none_held, empty_bins-AllDiffer,
}
use acvjepa_project.Prelude.Dict.{Dict, beq_refl}
use acvjepa_project.Prelude.Int.{ℤ, pos, pos_part, ◌+ℤ◌, ◌≤ℤ◌, ltb_ℤ, leb_ℤ, int_eq, +ℤ_parts}
use acvjepa_project.Prelude.Float.{Floats}
use acvjepa_project.Prelude.Sorting.{length-sort_by, count-sort_by}
use acvjepa_project.Prelude.Sets.{all_of_contains}
use acvjepa_project.Prelude.{
  string_eq, nat_eq, ◌==◌, length, any, sort_by, set_size, same_set, All, ok, ℕ, ◌<◌, String, ◌≡◌,
  refl, sym, ap, ◌∙◌, subst, true, false, not, ◌||◌, some, List, [], ◌∷◌, arith,
}
use acvjepa_project.Topology.Types.{
  LocalTopologyRecord, TopologyManifest, RankTelemetry, WorkItem, TopologyAwareUpdatePlan, node_eq,
  range_from, list_beq, validate_each, record_ranks, work_ids, validate_manifest,
  validate_telemetry, validate_work,
}
use acvjepa_project.Topology.Check.{
  sum_ℤ, planned_ids, planned_ranks, planned_samples, check_ranks, check_plan,
}
use acvjepa_project.Topology.Assign.{
  Planner, RankShare, Bin, shares_of, comes_first, empty_bins, assign_work,
}
use acvjepa_project.Topology.{
  keys, values, by_rank, distance_too_large, shared_counts, shared_samples, rank_plans, plan_of,
}
use acvjepa_project.Topology.Bins.{total, used, slots, holds, bin_shares}
use acvjepa_project.Topology.Assignment.{occurrences, All-full, assign_items-IsAssigned}
use acvjepa_project.Topology.Planned.{
  contains-occurrences, contains-planned_ids, length-planned_ids, planned_ranks-topos,
  planned_samples-shared, check_ranks-planned,
}

-- A planner that create_planner makes, or that has planned since.
pub record IsPlanner {F : Type 0} (fl : Floats F) (p : Planner F) : Type 0 where
  pub some_micro_batches : pos 1 ≤ℤ p.min_micro_batches
  pub counted : pos 0 ≤ℤ p.version
  pub finite_target : fl.is_finite p.target_update_ms ≡ true

-- Inputs that the guards of `plan` let through, with the shares that the ranks have.
pub record IsAdmitted {F : Type 0} (fl : Floats F) (m : TopologyManifest F)
    (telemetry : List (RankTelemetry F)) (sizes : Dict ℤ ℤ) (items : List (WorkItem F))
    (p : Planner F) (shares : List (RankShare F)) : Type 0 where
  pub manifest_valid : validate_manifest fl m ≡ ok tt
  pub telemetry_complete : same_set (keys (by_rank telemetry [])) (record_ranks m.ranks) ≡ true
  pub sizes_complete : same_set (keys sizes) (record_ranks m.ranks) ≡ true
  pub healthy : any (λ t. not t.healthy) (values (by_rank telemetry [])) ≡ false
  pub sizes_positive : any (λ n. leb_ℤ n (pos 0)) (values sizes) ≡ false
  pub telemetry_valid :
      validate_each (validate_telemetry fl) (values (by_rank telemetry [])) ≡ ok tt
  pub items_valid : validate_each (validate_work fl) items ≡ ok tt
  pub ids_differ : set_size (work_ids items) ≡ length items
  pub shared : shares_of fl p (by_rank telemetry []) sizes m.ranks ≡ ok shares
  pub distances_fit : any (distance_too_large fl) shares ≡ false
  pub item_count : pos (length items) ≡ sum_ℤ (shared_counts fl shares)

-- A valid manifest has a rank, and its ranks count up from 0.
pub record HasRanks {F : Type 0} (m : TopologyManifest F) : Type 0 where
  pub some_rank : pos 1 ≤ℤ m.world_size
  pub as_many : pos (length m.ranks) ≡ m.world_size
  pub in_order : list_beq (record_ranks m.ranks) (range_from 0 (pos_part m.world_size)) ≡ true

module _ {F : Type 0} (fl : Floats F) where
  pub validate_manifest-HasRanks :
      (m : TopologyManifest F) → validate_manifest fl m ≡ ok tt → HasRanks m
  unfolding validate_manifest
  validate_manifest-HasRanks m valid =
      let size : (leb_ℤ m.world_size (pos 0) || not (pos (length m.ranks) == m.world_size))
          ≡ false =
        ground arith in
      record {
        some_rank = ground arith;
        as_many = (int_eq.same_iff (pos (length m.ranks)) m.world_size).0 (ground arith);
        in_order = ground arith;
      }

  module _ (scale : F) (items : List (WorkItem F)) (bins' : List (Bin F)) where
    -- The planned ids are those of the items.
    pub same_set-planned :
        ((id : String) → total (holds id) bins' ≡ occurrences id items)
        → same_set (planned_ids (rank_plans fl scale bins')) (work_ids items) ≡ true
    same_set-planned often =
        let planned = planned_ids (rank_plans fl scale bins') in
        rw
          (
            all_of_contains planned (work_ids items) (λ id e. ground (
              arith,
              often id,
              contains-planned_ids fl scale id bins',
              contains-occurrences id items,
              e,
            )),
            all_of_contains (work_ids items) planned (λ id e. ground (
              arith,
              often id,
              contains-planned_ids fl scale id bins',
              contains-occurrences id items,
              e,
            )),
          )
          refl

-- The planned assignment: the bins of the shares, full, with every item as often as it was given.
pub record IsFullFor {F : Type 0} (items : List (WorkItem F)) (shares : List (RankShare F))
    (bins : List (Bin F)) : Type 0 where
  pub of_shares : bin_shares bins ≡ shares
  pub full : All (λ b. used b ≡ slots b) bins
  pub often : (id : String) → total (holds id) bins ≡ occurrences id items
  pub as_many : total used bins ≡ length items

module _ {F : Type 0} (fl : Floats F) (p : Planner F) where
  -- The assignment of as many items as there are micro-batches.
  pub assign_work-IsFullFor :
      (items : List (WorkItem F)) (shares : List (RankShare F)) (n : ℕ)
      → list_beq (record_ranks (topos shares)) (range_from 0 n) ≡ true
      → share_slots shares ≡ length items
      → (bins : List (Bin F)) × (assign_work fl p shares items ≡ some bins)
        × IsFullFor items shares bins
  unfolding assign_work
  assign_work-IsFullFor items shares n ranks enough =
      let start = empty_bins fl shares in
      let of_start = bin_shares-empty_bins fl shares in
      let sorted = length-sort_by (comes_first fl) items in
      let slots_start = total-slots start ∙ ap share_slots of_start in
      let (bins, done) =
        assign_items-IsAssigned fl p (sort_by (comes_first fl) items) start
          (empty_bins-AllDiffer fl shares 0 n ranks) (empty_bins-Fits fl shares)
          (omega (arith, none_used fl shares, sorted, slots_start, enough)) in
      let of_shares = done.same_shares ∙ of_start in
      let slots_bins = total-slots bins ∙ ap share_slots of_shares in
      (
        bins,
        done.ends,
        record {
          of_shares = of_shares;
          full = All-full bins done.fits done.all_used;
          often = λ id. omega (
            arith,
            done.given id,
            none_held fl id shares,
            count-sort_by (comes_first fl) (λ w. w.work_id == id) items,
          );
          as_many = omega (arith, done.all_used, slots_bins, enough);
        },
      )

  -- The samples of one update.
  abbrev pub samples : List (RankShare F) → ℤ
  samples shares = sum_ℤ (shared_samples fl shares)

  -- Positive shares of at least one rank have samples.
  samples-positive :
      (m : TopologyManifest F) (shares : List (RankShare F))
      → HasRanks m
      → topos shares ≡ m.ranks
      → All IsPositive shares
      → pos 1 ≤ℤ samples shares
  samples-positive m [] has same positive =
      let none : length m.ranks ≡ 0 = ap (length {A = LocalTopologyRecord F}) (sym same) in
      absurd (ground (arith, has.some_rank, has.as_many, none))
  samples-positive m (s ∷ ss) has same positive = samples_positive fl s ss positive

  module _ (h : Hashing) (m : TopologyManifest F) (items : List (WorkItem F))
      (shares : List (RankShare F)) (bins : List (Bin F)) (digest : String) where
    abbrev pub made : TopologyAwareUpdatePlan F
    made = plan_of fl h p m digest shares bins

    pub check_plan-made :
        IsPlanner fl p
        → HasRanks m
        → topos shares ≡ m.ranks
        → All IsPositive shares
        → IsFullFor items shares bins
        → set_size (work_ids items) ≡ length items
        → ((n : ℤ) (d : ℕ)
            → 0 < d
            → fl.is_close (fl.ratio (pos 1) 1000000000000) (fl.ratio n d) (fl.ratio n d) ≡ true)
        → check_plan fl made m items ≡ ok tt
    check_plan-made is has same positive filled ids_differ close =
        let total_samples = samples shares in
        let scale = fl.ratio m.world_size (pos_part total_samples) in
        let some_samples = samples-positive m shares has same positive in
        let version = +ℤ_parts p.version (pos 1) in
        let metadata : (ltb_ℤ (p.version +ℤ pos 1) (pos 1)
              || leb_ℤ total_samples (pos 0)
              || not (fl.is_finite p.target_update_ms))
            ≡ false =
          ground (arith, version, is.counted, some_samples, is.finite_target) in
        let topos_bins : topos (bin_shares bins) ≡ m.ranks = ap topos filled.of_shares ∙ same in
        let ranks : planned_ranks (rank_plans fl scale bins) ≡ record_ranks m.ranks =
          planned_ranks-topos fl scale bins ∙ ap record_ranks topos_bins in
        let ids = same_set-planned fl scale items bins filled.often in
        let as_many : length (planned_ids (rank_plans fl scale bins)) ≡ set_size (work_ids items) =
          length-planned_ids fl scale bins ∙ filled.as_many ∙ sym ids_differ in
        let sums : planned_samples (rank_plans fl scale bins) ≡ shared_samples fl shares =
          planned_samples-shared fl scale bins ∙ ap (shared_samples fl) filled.of_shares in
        let near = close m.world_size (pos_part total_samples) (omega (arith, some_samples)) in
        let checked : check_ranks fl scale (rank_plans fl scale bins) m.ranks ≡ ok tt =
          subst (λ rs. check_ranks fl scale (rank_plans fl scale bins) rs ≡ ok tt) topos_bins
            (check_ranks-planned fl scale bins near filled.full
              (subst (λ ss. All IsPositive ss) (sym filled.of_shares) positive)) in
        rw
          (
            metadata,
            ranks,
            has.in_order,
            ids,
            as_many,
            beq_refl (set_size (work_ids items)),
            sums,
            beq_refl total_samples,
            checked,
          )
          refl
