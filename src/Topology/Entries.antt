-- ===== src/Topology/Entries.antt =====
-- The entries of the ranks in a plan, as the loop of validate_update_plan reads them.
use acvjepa_project.Prelude.Int.{int_eq, ℤ, pos, ◌≤ℤ◌}
use acvjepa_project.Prelude.Float.{Floats}
use acvjepa_project.Prelude.{
  length, ok, Result-cases, ◌≡◌, refl, ap, ◌∙◌, inl, inr, true, List, [], ◌∷◌, arith, eq_iff,
}
use acvjepa_project.Topology.Types.{LocalTopologyRecord, TopologyRankUpdatePlan, record_ranks}
use acvjepa_project.Topology.Check.{times_ℤ, planned_ranks, has_facts, check_rank, check_ranks}

module _ {F : Type 0} (fl : Floats F) where
  -- The entry of a rank: the facts of its place, one item for each micro-batch, its samples, and the
  -- scale that DDP's average over ranks needs.
  pub record IsEntryOf (expected : F) (r : TopologyRankUpdatePlan F) (topo : LocalTopologyRecord F)
      : Type 0 where
    pub same_node : r.node_id ≡ topo.node_id
    pub same_local_rank : r.local_rank ≡ topo.local_rank
    pub same_nic : r.nic_id ≡ topo.nic_id
    pub same_rail : r.rail_id ≡ topo.rail_id
    pub some_work : pos 1 ≤ℤ r.micro_batches
    pub item_each : pos (length r.work_item_ids) ≡ r.micro_batches
    pub local_total : r.local_samples ≡ times_ℤ r.micro_batches r.samples_per_micro_batch
    pub scaled : fl.is_close (fl.ratio (pos 1) 1000000000000) r.loss_sum_scale expected ≡ true

  -- One entry for each record of the manifest, in its order.
  abbrev pub AreEntriesOf :
      F → List (TopologyRankUpdatePlan F) → List (LocalTopologyRecord F) → Type 0
  AreEntriesOf expected [] [] = Unit
  AreEntriesOf expected [] (topo ∷ topos) = ⊥
  AreEntriesOf expected (r ∷ rs) [] = ⊥
  AreEntriesOf expected (r ∷ rs) (topo ∷ topos) =
      (r.rank ≡ topo.rank) × IsEntryOf expected r topo × AreEntriesOf expected rs topos

  check_rank-IsEntryOf :
      (expected : F) (r : TopologyRankUpdatePlan F) (topo : LocalTopologyRecord F)
      → check_rank fl expected r topo ≡ ok tt
      → IsEntryOf expected r topo
  check_rank-IsEntryOf expected r topo passed =
      let facts : has_facts r topo ≡ true = ground arith in
      record {
        same_node = (eq_iff r.node_id topo.node_id).0 (ground arith);
        same_local_rank = (int_eq.same_iff r.local_rank topo.local_rank).0 (ground arith);
        same_nic = (eq_iff r.nic_id topo.nic_id).0 (ground arith);
        same_rail = (eq_iff r.rail_id topo.rail_id).0 (ground arith);
        some_work = ground arith;
        item_each =
            (int_eq.same_iff (pos (length r.work_item_ids)) r.micro_batches).0 (ground arith);
        local_total =
            (int_eq.same_iff r.local_samples (times_ℤ r.micro_batches r.samples_per_micro_batch)).0
              (ground arith);
        scaled = ground arith;
      }

  pub check_ranks-AreEntriesOf :
      (expected : F) (rs : List (TopologyRankUpdatePlan F)) (topos : List (LocalTopologyRecord F))
      → planned_ranks rs ≡ record_ranks topos
      → check_ranks fl expected rs topos ≡ ok tt
      → AreEntriesOf expected rs topos
  check_ranks-AreEntriesOf expected [] [] same passed = tt
  check_ranks-AreEntriesOf expected [] (topo ∷ topos) same passed = absurd (ground arith)
  check_ranks-AreEntriesOf expected (r ∷ rs) [] same passed = absurd (ground arith)
  check_ranks-AreEntriesOf expected (r ∷ rs) (topo ∷ topos) same passed =
      elim (Result-cases (check_rank fl expected r topo)) [
        | inr (e, bad) ↦ absurd (ground arith)
        | inl (u, one) ↦ (
          ground arith,
          check_rank-IsEntryOf expected r topo one,
          check_ranks-AreEntriesOf expected rs topos (ground arith)
              (rw (check_ranks, one) at passed),
        )
      ]

  pub AreEntriesOf-planned_ranks :
      (expected : F) (rs : List (TopologyRankUpdatePlan F)) (topos : List (LocalTopologyRecord F))
      → AreEntriesOf expected rs topos
      → planned_ranks rs ≡ record_ranks topos
  AreEntriesOf-planned_ranks expected [] [] a = refl
  AreEntriesOf-planned_ranks expected [] (topo ∷ topos) a = absurd a
  AreEntriesOf-planned_ranks expected (r ∷ rs) [] a = absurd a
  AreEntriesOf-planned_ranks expected (r ∷ rs) (topo ∷ topos) (same, entry, rest) =
      ap (λ (n : ℤ). n ∷ planned_ranks rs) same
      ∙ ap (λ (l : List ℤ). topo.rank ∷ l) (AreEntriesOf-planned_ranks expected rs topos rest)

  check_rank_of_entry :
      (expected : F) (r : TopologyRankUpdatePlan F) (topo : LocalTopologyRecord F)
      → IsEntryOf expected r topo
      → check_rank fl expected r topo ≡ ok tt
  check_rank_of_entry expected r topo i = ground (
    arith,
    (eq_iff r.node_id topo.node_id).1 i.same_node,
    (int_eq.same_iff r.local_rank topo.local_rank).1 i.same_local_rank,
    (eq_iff r.nic_id topo.nic_id).1 i.same_nic,
    (eq_iff r.rail_id topo.rail_id).1 i.same_rail,
    i.some_work,
    (int_eq.same_iff (pos (length r.work_item_ids)) r.micro_batches).1 i.item_each,
    (int_eq.same_iff r.local_samples (times_ℤ r.micro_batches r.samples_per_micro_batch)).1
        i.local_total,
    i.scaled,
  )

  pub check_ranks_of_entries :
      (expected : F) (rs : List (TopologyRankUpdatePlan F)) (topos : List (LocalTopologyRecord F))
      → AreEntriesOf expected rs topos
      → check_ranks fl expected rs topos ≡ ok tt
  check_ranks_of_entries expected [] topos a = refl
  check_ranks_of_entries expected (r ∷ rs) [] a = refl
  check_ranks_of_entries expected (r ∷ rs) (topo ∷ topos) (same, entry, rest) =
      rw (check_ranks, check_rank_of_entry expected r topo entry)
        (check_ranks_of_entries expected rs topos rest)
