-- ===== src/Topology/Assign.antt =====
-- topology_aware_update_plan.py: the micro-batches of each rank and the greedy assignment of the work.
use mathlib.Core.Option
use acvjepa_project.Prelude.Int.{ℤ, pos, ltb_ℤ, leb_ℤ, max_ℤ, int_eq}
use acvjepa_project.Prelude.Float.{Floats, of_int, max_float}
use acvjepa_project.Prelude.Text.{string_leb}
use acvjepa_project.Prelude.Dict.{Dict, lookup}
use acvjepa_project.Prelude.Table.{update}
use acvjepa_project.Prelude.{
  if◌then◌else◌, string_eq, nat_eq, ◌==◌, length, is_empty, sort_by, contains, Result, ok, err,
  Bool, ◌&&◌, ◌||◌, Option, none, some, List, [], ◌∷◌, ◌++◌,
}
use acvjepa_project.Topology.Types.{
  PlanError, no_budget, not_convertible, unknown_rank, LocalTopologyRecord, RankTelemetry, WorkItem,
  node_eq, is_not_positive,
}

pub record Planner (F : Type 0) : Type 0 where
  pub target_update_ms : F
  pub min_micro_batches : ℤ
  pub max_micro_batches : ℤ
  pub safety_jitter_ms : F
  pub remote_work_penalty_ms : F
  pub distance_penalty_ms : F
  pub version : ℤ

-- What the planner knows of one rank: its topology, its samples per second, the size of its micro-batch,
-- their number, and the network guard and compute budget.
pub record RankShare (F : Type 0) : Type 0 where
  pub topo : LocalTopologyRecord F
  pub samples_per_second : F
  pub batch_size : ℤ
  pub count : ℤ
  pub guard : F
  pub budget : F

-- A rank with the work that it has been given.
pub record Bin (F : Type 0) : Type 0 where
  pub share : RankShare F
  pub items : List (WorkItem F)
  pub cost : F

-- `max(a, min(b, n))`
abbrev pub clamp : ℤ → ℤ → ℤ → ℤ
clamp a b n = max_ℤ a (if leb_ℤ n b then n else b)

module _ {F : Type 0} where
  abbrev pub has_slot : Bin F → Bool
  has_slot b = ltb_ℤ (pos (length b.items)) b.share.count

  abbrev pub is_rank : ℤ → Bin F → Bool
  is_rank r b = b.share.topo.rank == r

module _ {F : Type 0} (fl : Floats F) where
  -- `k`: the micro-batches that fit a compute budget, within the planner's bounds. There are none when
  -- the size is too large for a float, or the quotient is infinite or not a number, and Python raises.
  unfoldable pub micro_batches_in : Planner F → F → F → ℤ → Option ℤ
  micro_batches_in p samples_per_second budget size =
      let raw =
        fl.over (fl.times samples_per_second (fl.over budget (of_int fl (pos 1000))))
          (of_int fl size) in
      if fl.fits size
      then Option.map (clamp p.min_micro_batches p.max_micro_batches) (fl.nearest raw)
      else none

  -- The network guard, the compute budget and the number of micro-batches of one rank.
  abbrev pub share_of :
      Planner F → LocalTopologyRecord F → RankTelemetry F → ℤ → Result PlanError (RankShare F)
  share_of p topo t size =
      let network_guard = max_float fl t.p95_allreduce_ms topo.expected_collective_floor_ms in
      let guard = fl.plus (fl.plus t.p95_data_ms network_guard) p.safety_jitter_ms in
      let budget = fl.minus p.target_update_ms guard in
      if is_not_positive fl budget
      then err no_budget
      else elim (micro_batches_in p t.samples_per_second budget size) [
        | none ↦ err not_convertible
        | some k ↦ ok (record {
          topo = topo;
          samples_per_second = t.samples_per_second;
          batch_size = size;
          count = k;
          guard = network_guard;
          budget = budget;
        })
      ]

  -- `telemetries[rank]` and `samples_per_micro_batch[rank]`, which are there for every rank.
  abbrev pub share_found :
      Planner F
      → LocalTopologyRecord F
      → Option (RankTelemetry F)
      → Option ℤ
      → Result PlanError (RankShare F)
  share_found p topo none size = err unknown_rank
  share_found p topo (some t) none = err unknown_rank
  share_found p topo (some t) (some size) = share_of p topo t size

  abbrev pub shares_of :
      Planner F
      → Dict ℤ (RankTelemetry F)
      → Dict ℤ ℤ
      → List (LocalTopologyRecord F)
      → Result PlanError (List (RankShare F))
  shares_of p ts sizes [] = ok []
  shares_of p ts sizes (r ∷ rs) =
      let rest = shares_of p ts sizes rs in
      elim (share_found p r (lookup r.rank ts) (lookup r.rank sizes)) [
        | err e ↦ err e
        | ok s ↦ elim rest [ err e ↦ err e | ok l ↦ ok (s ∷ l) ]
      ]

  -- `sorted(…, key=lambda value: (-value.cost_units, value.work_id))`: expensive work first.
  abbrev pub comes_first : WorkItem F → WorkItem F → Bool
  comes_first a b =
      if fl.equal a.cost_units b.cost_units
      then string_leb a.work_id b.work_id
      else fl.less b.cost_units a.cost_units

  -- `estimated_finish`, without the rank.
  abbrev pub estimated_finish : Planner F → WorkItem F → Bin F → F
  estimated_finish p item bin =
      let topo = bin.share.topo in
      let remote =
        if is_empty item.preferred_nodes || contains item.preferred_nodes topo.node_id
        then of_int fl (pos 0)
        else p.remote_work_penalty_ms in
      let distance = fl.times (of_int fl topo.gpu_nic_distance) p.distance_penalty_ms in
      let compute =
        fl.over (fl.times (of_int fl (pos 1000)) (fl.plus bin.cost item.cost_units))
          bin.share.samples_per_second in
      fl.plus (fl.plus compute remote) distance

  -- `(finish, rank) < (finish, rank)`
  abbrev pub finishes_before : Planner F → WorkItem F → Bin F → Bin F → Bool
  finishes_before p item a b =
      if fl.equal (estimated_finish p item a) (estimated_finish p item b)
      then ltb_ℤ a.share.topo.rank b.share.topo.rank
      else fl.less (estimated_finish p item a) (estimated_finish p item b)

  -- `min(candidates, key=estimated_finish)`: the first of those that no other finishes before.
  abbrev pub choose_bin : Planner F → WorkItem F → Option (Bin F) → List (Bin F) → Option (Bin F)
  choose_bin p item best [] = best
  choose_bin p item none (b ∷ bs) = choose_bin p item (if has_slot b then some b else none) bs
  choose_bin p item (some a) (b ∷ bs) =
      choose_bin p item (if has_slot b && finishes_before p item b a then some b else some a) bs

  abbrev pub give : WorkItem F → Bin F → Bin F
  give item b = record b { items = b.items ++ item ∷ []; cost = fl.plus b.cost item.cost_units }

  abbrev pub put_item : WorkItem F → Option (Bin F) → List (Bin F) → Option (List (Bin F))
  put_item item none bins = none
  put_item item (some b) bins = some (update (is_rank b.share.topo.rank) (give item) bins)

  -- The loop of `_assign_work`; none is its AssertionError.
  abbrev pub assign_items : Planner F → List (WorkItem F) → List (Bin F) → Option (List (Bin F))
  assign_items p [] bins = some bins
  assign_items p (item ∷ items) bins = elim (put_item item (choose_bin p item none bins) bins) [
    | none ↦ none
    | some bins' ↦ assign_items p items bins'
  ]

  abbrev pub empty_bins : List (RankShare F) → List (Bin F)
  empty_bins [] = []
  empty_bins (s ∷ ss) = record { share = s; items = []; cost = of_int fl (pos 0) } ∷ empty_bins ss

  -- `_assign_work`, with the items of each rank still to be sorted.
  unfoldable pub assign_work :
      Planner F → List (RankShare F) → List (WorkItem F) → Option (List (Bin F))
  assign_work p shares items = assign_items p (sort_by comes_first items) (empty_bins shares)
