-- ===== src/Topology/Bins.antt =====
-- The bins of the greedy assignment: the one that is chosen has a free slot, and only it changes.
use acvjepa_project.Prelude.Dict.{beq_refl}
use acvjepa_project.Prelude.Int.{ℤ, pos_part, int_eq}
use acvjepa_project.Prelude.Float.{Floats}
use acvjepa_project.Prelude.Table.{update, count}
use acvjepa_project.Prelude.{
  Bool-cases, some_inj, string_eq, nat_eq, ◌==◌, length, All, ℕ, ◌+◌, String, ◌≡◌, refl, ap, subst,
  ◌≢◌, ◌⊎◌, inl, inr, true, false, ◌&&◌, Option, none, some, List, [], ◌∷◌, ◌++◌, arith,
}
use acvjepa_project.Topology.Types.{WorkItem, node_eq}
use acvjepa_project.Topology.Assign.{
  Planner, RankShare, Bin, has_slot, is_rank, finishes_before, choose_bin,
}

module _ {F : Type 0} where
  -- The sum of a measure over the bins.
  abbrev pub total : (Bin F → ℕ) → List (Bin F) → ℕ
  total w [] = 0
  total w (b ∷ bs) = w b + total w bs

  pub total-split :
      (w : Bin F → ℕ) (pre post : List (Bin F)) (b : Bin F)
      → total w (pre ++ b ∷ post) ≡ total w pre + w b + total w post
  total-split w [] post b = omega arith
  total-split w (q ∷ pre) post b = omega (arith, total-split w pre post b)

  abbrev pub used : Bin F → ℕ
  used b = length b.items

  abbrev pub slots : Bin F → ℕ
  slots b = pos_part b.share.count

  -- How often a work id is among the items.
  abbrev pub holds : String → Bin F → ℕ
  holds id b = count (λ w. w.work_id == id) b.items

  abbrev pub bin_ranks : List (Bin F) → List ℤ
  bin_ranks [] = []
  bin_ranks (b ∷ bs) = b.share.topo.rank ∷ bin_ranks bs

  abbrev pub bin_shares : List (Bin F) → List (RankShare F)
  bin_shares [] = []
  bin_shares (b ∷ bs) = b.share ∷ bin_shares bs

  abbrev pub Differ : Bin F → Bin F → Type 0
  Differ b c = (c.share.topo.rank == b.share.topo.rank) ≡ false

  abbrev pub AllDiffer : List (Bin F) → Type 0
  AllDiffer [] = Unit
  AllDiffer (b ∷ bs) = All (Differ b) bs × AllDiffer bs

  All-middle :
      (P : Bin F → Type 0) (pre post : List (Bin F)) (b : Bin F) → All P (pre ++ b ∷ post) → P b
  All-middle P [] post b a = a.0
  All-middle P (q ∷ pre) post b a = All-middle P pre post b a.1

  update_others :
      (b : Bin F) (f : Bin F → Bin F) (bs : List (Bin F))
      → All (Differ b) bs
      → update (is_rank b.share.topo.rank) f bs ≡ bs
  update_others b f [] a = refl
  update_others b f (c ∷ cs) a = rw (a.0, update_others b f cs a.1) refl

  -- An update by the rank of a bin changes that bin alone.
  pub update-split :
      (f : Bin F → Bin F) (pre post : List (Bin F)) (b : Bin F)
      → AllDiffer (pre ++ b ∷ post)
      → update (is_rank b.share.topo.rank) f (pre ++ b ∷ post) ≡ pre ++ f b ∷ post
  update-split f [] post b d = rw (beq_refl b.share.topo.rank, update_others b f post d.0) refl
  update-split f (q ∷ pre) post b d =
      let apart = All-middle (Differ q) pre post b d.0 in
      let other : (q.share.topo.rank == b.share.topo.rank) ≡ false = ground (
        arith,
        int_eq.same_iff q.share.topo.rank b.share.topo.rank,
        int_eq.same_iff b.share.topo.rank q.share.topo.rank,
      ) in
      rw (other, update-split f pre post b d.1) refl

  -- A bin of the list that has a free slot.
  pub record IsOpenIn (b : Bin F) (bs : List (Bin F)) : Type 0 where
    pub before : List (Bin F)
    pub later : List (Bin F)
    pub at : bs ≡ before ++ b ∷ later
    pub open_slot : has_slot b ≡ true

  next_to : (q b : Bin F) (bs : List (Bin F)) → IsOpenIn b bs → IsOpenIn b (q ∷ bs)
  next_to q b bs o = record {
    before = q ∷ o.before;
    later = o.later;
    at = ap (λ (l : List (Bin F)). q ∷ l) o.at;
    open_slot = o.open_slot;
  }

  first_open : (b : Bin F) (bs : List (Bin F)) → has_slot b ≡ true → IsOpenIn b (b ∷ bs)
  first_open b bs e = record { before = []; later = bs; at = refl; open_slot = e }

  taken :
      (c b : Bin F) (cs : List (Bin F))
      → has_slot c ≡ true
      → (some c ≡ some b) ⊎ IsOpenIn b cs
      → IsOpenIn b (c ∷ cs)
  taken c b cs slot (inl e) = subst (λ x. IsOpenIn x (c ∷ cs)) (some_inj e) (first_open c cs slot)
  taken c b cs slot (inr o) = next_to c b cs o

module _ {F : Type 0} (fl : Floats F) (p : Planner F) (item : WorkItem F) where
  -- The chosen bin is the one to beat, or one of the list with a free slot.
  pub choose_bin-IsOpenIn :
      (best : Option (Bin F)) (bs : List (Bin F)) (b : Bin F)
      → choose_bin fl p item best bs ≡ some b
      → (best ≡ some b) ⊎ IsOpenIn b bs
  choose_bin-IsOpenIn best [] b h = inl h
  choose_bin-IsOpenIn none (c ∷ cs) b h = elim (Bool-cases (has_slot c)) [
    | inl e ↦ inr (taken c b cs e (choose_bin-IsOpenIn (some c) cs b (rw e at h)))
    | inr e ↦ elim (choose_bin-IsOpenIn none cs b (rw e at h)) [
      | inl bad ↦ inl bad
      | inr o ↦ inr (next_to c b cs o)
    ]
  ]
  choose_bin-IsOpenIn (some a) (c ∷ cs) b h =
      elim (Bool-cases (has_slot c && finishes_before fl p item c a)) [
        | inl e ↦
            let slot : has_slot c ≡ true = ground arith in
            inr (taken c b cs slot (choose_bin-IsOpenIn (some c) cs b (rw e at h)))
        | inr e ↦ elim (choose_bin-IsOpenIn (some a) cs b (rw e at h)) [
          | inl same ↦ inl same
          | inr o ↦ inr (next_to c b cs o)
        ]
      ]

  choose_bin-some : (a : Bin F) (bs : List (Bin F)) → choose_bin fl p item (some a) bs ≢ none
  choose_bin-some a [] h = ground arith
  choose_bin-some a (c ∷ cs) h = elim (Bool-cases (has_slot c && finishes_before fl p item c a)) [
    | inl e ↦ choose_bin-some c cs (rw e at h)
    | inr e ↦ choose_bin-some a cs (rw e at h)
  ]

  -- No bin is chosen only where all are full.
  pub choose_bin-none :
      (bs : List (Bin F)) → choose_bin fl p item none bs ≡ none → All (λ b. has_slot b ≡ false) bs
  choose_bin-none [] h = tt
  choose_bin-none (c ∷ cs) h = elim (Bool-cases (has_slot c)) [
    | inl e ↦ absurd (choose_bin-some c cs (rw e at h))
    | inr e ↦ (e, choose_bin-none cs (rw e at h))
  ]
