-- ===== src/Topology/Empty.antt =====
-- The bins before the assignment: one for each share, all empty.
use acvjepa_project.Prelude.Int.{ℤ, pos, negsuc, pos_part, ◌+ℤ◌, ◌≤ℤ◌, ◌<ℤ◌, +ℤ_parts}
use acvjepa_project.Prelude.Float.{Floats, of_int}
use acvjepa_project.Prelude.{
  All, ℕ, zero, suc, ◌+◌, ◌*◌, ◌≤◌, String, ◌≡◌, refl, ap, true, List, [], ◌∷◌, arith,
}
use acvjepa_project.Topology.Types.{range_from, list_beq, record_ranks}
use acvjepa_project.Topology.Check.{sum_ℤ, times_ℤ}
use acvjepa_project.Topology.Assign.{RankShare, Bin, empty_bins}
use acvjepa_project.Topology.{shared_counts, shared_samples}
use acvjepa_project.Topology.Bins.{total, used, slots, holds, bin_shares, Differ, AllDiffer}
use acvjepa_project.Topology.Assignment.{Fits}
use acvjepa_project.Topology.Shares.{topos, IsPositive}

module _ {F : Type 0} where
  abbrev pub share_slots : List (RankShare F) → ℕ
  share_slots [] = 0
  share_slots (s ∷ ss) = pos_part s.count + share_slots ss

  pub total-slots : (bs : List (Bin F)) → total slots bs ≡ share_slots (bin_shares bs)
  total-slots [] = refl
  total-slots (b ∷ bs) = omega (arith, total-slots bs)

sum_step : (c s : ℤ) (n : ℕ) → pos 1 ≤ℤ c → s ≡ pos n → c +ℤ s ≡ pos (pos_part c + n)
unfolding ◌+ℤ◌
sum_step c s n low e = ground arith

times-positive : (a b : ℤ) → pos 1 ≤ℤ a → pos 1 ≤ℤ b → pos 1 ≤ℤ times_ℤ a b
times-positive (pos zero) b low_a low_b = absurd (omega (arith, low_a))
times-positive (pos (suc m)) (pos zero) low_a low_b = absurd (omega (arith, low_b))
times-positive (pos (suc m)) (pos (suc n)) low_a low_b =
    let some_of : 1 ≤ suc m * suc n = ground arith in ground (arith, some_of)
times-positive (pos (suc m)) (negsuc n) low_a low_b = absurd (omega (arith, low_b))
times-positive (negsuc m) b low_a low_b = absurd (omega (arith, low_a))

plus-positive : (a b : ℤ) → pos 1 ≤ℤ a → pos 0 ≤ℤ b → pos 1 ≤ℤ a +ℤ b
plus-positive a b low_a low_b = omega (arith, low_a, low_b, +ℤ_parts a b)

module _ {F : Type 0} (fl : Floats F) where
  pub sum-shared_counts :
      (ss : List (RankShare F))
      → All IsPositive ss
      → sum_ℤ (shared_counts fl ss) ≡ pos (share_slots ss)
  sum-shared_counts [] a = refl
  sum-shared_counts (s ∷ ss) (one, a) =
      sum_step s.count (sum_ℤ (shared_counts fl ss)) (share_slots ss) one.0 (sum-shared_counts ss a)

  samples_not_negative :
      (ss : List (RankShare F)) → All IsPositive ss → pos 0 ≤ℤ sum_ℤ (shared_samples fl ss)
  samples_not_negative [] a = omega arith
  samples_not_negative (s ∷ ss) (one, a) =
      let here = times-positive s.count s.batch_size one.0 one.1 in
      let parts = +ℤ_parts (times_ℤ s.count s.batch_size) (sum_ℤ (shared_samples fl ss)) in
      omega (arith, here, parts, samples_not_negative ss a)

  pub samples_positive :
      (s : RankShare F) (ss : List (RankShare F))
      → All IsPositive (s ∷ ss)
      → pos 1 ≤ℤ sum_ℤ (shared_samples fl (s ∷ ss))
  samples_positive s ss (one, a) =
      plus-positive (times_ℤ s.count s.batch_size) (sum_ℤ (shared_samples fl ss))
        (times-positive s.count s.batch_size one.0 one.1) (samples_not_negative ss a)

  pub bin_shares-empty_bins : (ss : List (RankShare F)) → bin_shares (empty_bins fl ss) ≡ ss
  bin_shares-empty_bins [] = refl
  bin_shares-empty_bins (s ∷ ss) = ap (λ (l : List (RankShare F)). s ∷ l) (bin_shares-empty_bins ss)

  pub empty_bins-Fits : (ss : List (RankShare F)) → All Fits (empty_bins fl ss)
  empty_bins-Fits [] = tt
  empty_bins-Fits (s ∷ ss) = (omega arith, empty_bins-Fits ss)

  pub none_used : (ss : List (RankShare F)) → total used (empty_bins fl ss) ≡ 0
  none_used [] = refl
  none_used (s ∷ ss) = omega (arith, none_used ss)

  pub none_held : (id : String) (ss : List (RankShare F)) → total (holds id) (empty_bins fl ss) ≡ 0
  none_held id [] = refl
  none_held id (s ∷ ss) = omega (arith, none_held id ss)

  -- Ranks that count up from `k` differ from one below `k`.
  above_Differ :
      (b : Bin F) (ss : List (RankShare F)) (k n : ℕ)
      → b.share.topo.rank <ℤ pos k
      → list_beq (record_ranks (topos ss)) (range_from k n) ≡ true
      → All (Differ b) (empty_bins fl ss)
  above_Differ b [] k n low e = tt
  above_Differ b (s ∷ ss) k zero low e = absurd (ground arith)
  above_Differ b (s ∷ ss) k (suc n) low e =
      (ground arith, above_Differ b ss (k + 1) n (omega (arith, low)) (ground arith))

  pub empty_bins-AllDiffer :
      (ss : List (RankShare F)) (k n : ℕ)
      → list_beq (record_ranks (topos ss)) (range_from k n) ≡ true
      → AllDiffer (empty_bins fl ss)
  empty_bins-AllDiffer [] k n e = tt
  empty_bins-AllDiffer (s ∷ ss) k zero e = absurd (ground arith)
  empty_bins-AllDiffer (s ∷ ss) k (suc n) e = (
    above_Differ (record { share = s; items = []; cost = of_int fl (pos 0) }) ss (k + 1) n
        (ground arith) (ground arith),
    empty_bins-AllDiffer ss (k + 1) n (ground arith),
  )
