-- ===== src/Cache/LoadPlan.antt =====
-- `bounded_parallel_load_plan`: the reads of a manifest's shards over a bounded number of slots.
use acvjepa_project.Prelude.Int.{ℤ, pos_part}
use native.Mathlib.Nat.{mod-lt}
use acvjepa_project.Pipeline.Slots.{mod_differs}
use acvjepa_project.Prelude.{
  take, All, ok, ℕ, zero, suc, ◌+◌, ◌-◌, ◌%◌, ◌≤◌, ◌<◌, ◌≡◌, refl, ap, ◌≢◌, List, [], ◌∷◌, arith,
}
use acvjepa_project.Cache.{assign_slots, bounded_parallel_load_plan}
use acvjepa_project.Cache.Types.{ShardDescriptor, CheckpointManifest, validate_checkpoint_manifest}

abbrev pub planned_shards : List (ℕ × ShardDescriptor) → List ShardDescriptor
planned_shards [] = []
planned_shards ((slot, d) ∷ plan) = d ∷ planned_shards plan

planned_shards-assign_slots :
    (slots index : ℕ) (ds : List ShardDescriptor)
    → planned_shards (assign_slots slots index ds) ≡ ds
planned_shards-assign_slots slots index [] = refl
planned_shards-assign_slots slots index (d ∷ ds) =
    ap (λ x. d ∷ x) (planned_shards-assign_slots slots (index + 1) ds)

slots_bounded :
    (slots index : ℕ) (ds : List ShardDescriptor)
    → 0 < slots
    → All (λ a. a.0 < slots) (assign_slots slots index ds)
slots_bounded slots index [] some_slot = tt
slots_bounded slots index (d ∷ ds) some_slot =
    (mod-lt index some_slot, slots_bounded slots (index + 1) ds some_slot)

-- No read is given the slot of one of the next reads, so many of them.
abbrev pub AreSpread : ℕ → List (ℕ × ShardDescriptor) → Type 0
AreSpread k [] = Unit {0}
AreSpread k (a ∷ plan) = All (λ b. a.0 ≢ b.0) (take k plan) × AreSpread k plan

-- The reads from `index` on differ in their slots from the one at `i`, as long as they are near to it.
next_differ :
    (slots i index k : ℕ) (ds : List ShardDescriptor)
    → i < index
    → index + k ≤ i + slots
    → All (λ b. i % slots ≢ b.0) (take k (assign_slots slots index ds))
next_differ slots i index zero ds before near = tt
next_differ slots i index (suc k) [] before near = tt
next_differ slots i index (suc k) (d ∷ ds) before near = (
  mod_differs i index slots before (omega arith),
  next_differ slots i (index + 1) k ds (omega arith) (omega arith),
)

assign_slots-AreSpread :
    (slots k index : ℕ) (ds : List ShardDescriptor)
    → k < slots
    → AreSpread k (assign_slots slots index ds)
assign_slots-AreSpread slots k index [] below = tt
assign_slots-AreSpread slots k index (d ∷ ds) below = (
  next_differ slots index (index + 1) k ds (omega arith) (omega arith),
  assign_slots-AreSpread slots k (index + 1) ds below,
)

-- A plan that is given reads every shard of a valid manifest once, in the manifest's order, uses no slot
-- outside the given number, and spreads the reads: the slots of as many reads in a row as there are
-- slots all differ.
pub complete_plan :
    (m : CheckpointManifest) (max_inflight : ℤ) (plan : List (ℕ × ShardDescriptor))
    → bounded_parallel_load_plan m max_inflight ≡ ok plan
    → (validate_checkpoint_manifest m ≡ ok tt)
      × (planned_shards plan ≡ m.shards)
      × All (λ a. a.0 < pos_part max_inflight) plan
      × AreSpread (pos_part max_inflight - 1) plan
unfolding bounded_parallel_load_plan
complete_plan m n plan e =
    let made : plan ≡ assign_slots (pos_part n) 0 m.shards = ground arith in
    let some_slot : 0 < pos_part n = ground arith in
    (
      ground arith,
      rw made (planned_shards-assign_slots (pos_part n) 0 m.shards),
      rw made (slots_bounded (pos_part n) 0 m.shards some_slot),
      rw made (assign_slots-AreSpread (pos_part n) (pos_part n - 1) 0 m.shards (omega arith)),
    )
