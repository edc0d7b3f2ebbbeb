-- ===== src/Topology/Planned.antt =====
-- A plan made of a full assignment passes the check that every rank makes.
use acvjepa_project.Prelude.Dict.{beq_refl}
use acvjepa_project.Prelude.Int.{ℤ, pos, pos_part, ◌≤ℤ◌, ltb_ℤ, int_eq}
use acvjepa_project.Prelude.Float.{Floats}
use acvjepa_project.Prelude.Sorting.{length-sort_by, count-sort_by}
use acvjepa_project.Prelude.{
  string_eq, nat_eq, ◌==◌, length, sort_by, length-append, contains, All, ok, ℕ, suc, ◌<◌, String,
  ◌≡◌, refl, ap, ◌∙◌, ◌↔◌, true, false, ◌||◌, List, [], ◌∷◌, ◌++◌, arith, eq_iff,
}
use acvjepa_project.Topology.Types.{WorkItem, node_eq, record_ranks, work_ids}
use acvjepa_project.Topology.Check.{
  times_ℤ, planned_ids, planned_ranks, planned_samples, check_rank, check_ranks,
}
use acvjepa_project.Topology.Assign.{Bin, comes_first}
use acvjepa_project.Topology.{shared_samples, rank_plan, rank_plans}
use acvjepa_project.Topology.Bins.{total, used, slots, holds, bin_shares}
use acvjepa_project.Topology.Assignment.{occurrences}
use acvjepa_project.Topology.Shares.{topos, IsPositive}

module _ {F : Type 0} where
  pub contains-occurrences :
      (id : String) (items : List (WorkItem F))
      → (contains (work_ids items) id ≡ true) ↔ (0 < occurrences id items)
  contains-occurrences id [] = ground arith
  contains-occurrences id (w ∷ ws) =
      ground (arith, contains-occurrences id ws, eq_iff id w.work_id, eq_iff w.work_id id)

  pub length-work_ids : (items : List (WorkItem F)) → length (work_ids items) ≡ length items
  length-work_ids [] = refl
  length-work_ids (w ∷ ws) = ap suc (length-work_ids ws)

contains-append :
    (xs ys : List String) (id : String)
    → contains (xs ++ ys) id ≡ (contains xs id || contains ys id)
contains-append [] ys id = refl
contains-append (x ∷ xs) ys id = ground (arith, contains-append xs ys id)

pos-pos_part : (c : ℤ) (n : ℕ) → pos 1 ≤ℤ c → n ≡ pos_part c → (pos n == c) ≡ true
pos-pos_part c n low e = ground (arith, low, e)

module _ {F : Type 0} (fl : Floats F) (scale : F) where
  -- The planned ids are the ids that the bins hold.
  pub contains-planned_ids :
      (id : String) (bs : List (Bin F))
      → (contains (planned_ids (rank_plans fl scale bs)) id ≡ true) ↔ (0 < total (holds id) bs)
  contains-planned_ids id [] = ground arith
  contains-planned_ids id (b ∷ bs) =
      let mine = work_ids (sort_by (comes_first fl) b.items) in
      let others = planned_ids (rank_plans fl scale bs) in
      let here = contains-occurrences id (sort_by (comes_first fl) b.items) in
      let same : occurrences id (sort_by (comes_first fl) b.items) ≡ holds id b =
        count-sort_by (comes_first fl) (λ w. w.work_id == id) b.items in
      let joined : contains (mine ++ others) id ≡ (contains mine id || contains others id) =
        contains-append mine others id in
      ground (arith, here, same, joined, contains-planned_ids id bs)

  pub length-planned_ids :
      (bs : List (Bin F)) → length (planned_ids (rank_plans fl scale bs)) ≡ total used bs
  length-planned_ids [] = refl
  length-planned_ids (b ∷ bs) =
      let joined =
        length-append (work_ids (sort_by (comes_first fl) b.items))
          (planned_ids (rank_plans fl scale bs)) in
      let mine =
        length-work_ids (sort_by (comes_first fl) b.items)
        ∙ length-sort_by (comes_first fl) b.items in
      omega (arith, joined, mine, length-planned_ids bs)

  pub planned_ranks-topos :
      (bs : List (Bin F))
      → planned_ranks (rank_plans fl scale bs) ≡ record_ranks (topos (bin_shares bs))
  planned_ranks-topos [] = refl
  planned_ranks-topos (b ∷ bs) = ap (λ (l : List ℤ). b.share.topo.rank ∷ l) (planned_ranks-topos bs)

  pub planned_samples-shared :
      (bs : List (Bin F))
      → planned_samples (rank_plans fl scale bs) ≡ shared_samples fl (bin_shares bs)
  planned_samples-shared [] = refl
  planned_samples-shared (b ∷ bs) =
      ap (λ (l : List ℤ). times_ℤ b.share.count b.share.batch_size ∷ l) (planned_samples-shared bs)

  check_rank-planned :
      (b : Bin F)
      → fl.is_close (fl.ratio (pos 1) 1000000000000) scale scale ≡ true
      → used b ≡ slots b
      → pos 1 ≤ℤ b.share.count
      → check_rank fl scale (rank_plan fl scale b) b.share.topo ≡ ok tt
  check_rank-planned b close full counted =
      let topo = b.share.topo in
      let ids = work_ids (sort_by (comes_first fl) b.items) in
      let many : length ids ≡ slots b =
        length-work_ids (sort_by (comes_first fl) b.items)
        ∙ length-sort_by (comes_first fl) b.items
        ∙ full in
      let same : (pos (length ids) == b.share.count) ≡ true =
        pos-pos_part b.share.count (length ids) counted many in
      let some_work : ltb_ℤ b.share.count (pos 1) ≡ false = ground arith in
      rw
        (
          beq_refl topo.node_id,
          beq_refl topo.local_rank,
          beq_refl topo.nic_id,
          beq_refl topo.rail_id,
          some_work,
          same,
          beq_refl (times_ℤ b.share.count b.share.batch_size),
          close,
        )
        refl

  pub check_ranks-planned :
      (bs : List (Bin F))
      → fl.is_close (fl.ratio (pos 1) 1000000000000) scale scale ≡ true
      → All (λ b. used b ≡ slots b) bs
      → All IsPositive (bin_shares bs)
      → check_ranks fl scale (rank_plans fl scale bs) (topos (bin_shares bs)) ≡ ok tt
  check_ranks-planned [] close full positive = refl
  check_ranks-planned (b ∷ bs) close (one, full) ((counted, sized), positive) =
      rw (check_ranks, check_rank-planned b close one counted)
        (check_ranks-planned bs close full positive)
