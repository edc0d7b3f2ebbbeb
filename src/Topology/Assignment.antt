-- ===== src/Topology/Assignment.antt =====
-- The greedy assignment ends with every slot used and every item given once.
use acvjepa_project.Prelude.Int.{int_eq}
use acvjepa_project.Prelude.Float.{Floats}
use acvjepa_project.Prelude.Table.{update, count, count-append}
use acvjepa_project.Prelude.{
  Option-cases, string_eq, nat_eq, ◌==◌, length, length-append, All, ℕ, ◌+◌, ◌≤◌, ◌<◌, String, ◌≡◌,
  refl, sym, ap, ◌∙◌, inl, inr, true, false, none, some, List, [], ◌∷◌, ◌++◌, arith,
}
use acvjepa_project.Topology.Types.{WorkItem, node_eq}
use acvjepa_project.Topology.Assign.{
  Planner, RankShare, Bin, has_slot, is_rank, choose_bin, give, assign_items,
}
use acvjepa_project.Topology.Bins.{
  total, total-split, used, slots, holds, bin_shares, Differ, AllDiffer, update-split, IsOpenIn,
  choose_bin-IsOpenIn, choose_bin-none,
}

module _ {F : Type 0} where
  abbrev pub Fits : Bin F → Type 0
  Fits b = used b ≤ slots b

  -- How often a work id is among items.
  abbrev pub occurrences : String → List (WorkItem F) → ℕ
  occurrences id items = count (λ w. w.work_id == id) items

  All-swap :
      (P : Bin F → Type 0) (b c : Bin F)
      → (P b → P c)
      → (pre post : List (Bin F)) → All P (pre ++ b ∷ post)
      → All P (pre ++ c ∷ post)
  All-swap P b c f [] post (a, rest) = (f a, rest)
  All-swap P b c f (q ∷ pre) post (a, rest) = (a, All-swap P b c f pre post rest)

  -- Bins that are full have no slot to give.
  full-total :
      (bs : List (Bin F)) → All (λ b. has_slot b ≡ false) bs → total slots bs ≤ total used bs
  full-total [] a = omega arith
  full-total (b ∷ bs) (e, a) =
      let one : slots b ≤ used b = ground arith in omega (arith, one, full-total bs a)

  total-Fits : (bs : List (Bin F)) → All Fits bs → total used bs ≤ total slots bs
  total-Fits [] a = omega arith
  total-Fits (b ∷ bs) (one, a) = omega (arith, one, total-Fits bs a)

  -- Bins that fit, and use as much as they have, are all full.
  pub All-full :
      (bs : List (Bin F))
      → All Fits bs
      → total used bs ≡ total slots bs
      → All (λ b. used b ≡ slots b) bs
  All-full [] a e = tt
  All-full (b ∷ bs) (one, a) e =
      let rest = total-Fits bs a in
      (omega (arith, one, rest, e), All-full bs a (omega (arith, one, rest, e)))

  shares-swap :
      (b c : Bin F)
      → c.share ≡ b.share
      → (pre post : List (Bin F)) → bin_shares (pre ++ c ∷ post) ≡ bin_shares (pre ++ b ∷ post)
  shares-swap b c e [] post = ap (λ (s : RankShare F). s ∷ bin_shares post) e
  shares-swap b c e (q ∷ pre) post =
      ap (λ (l : List (RankShare F)). q.share ∷ l) (shares-swap b c e pre post)

module _ {F : Type 0} (fl : Floats F) (p : Planner F) where
  AllDiffer-swap :
      (item : WorkItem F) (b : Bin F) (pre post : List (Bin F))
      → AllDiffer (pre ++ b ∷ post)
      → AllDiffer (pre ++ give fl item b ∷ post)
  AllDiffer-swap item b [] post d = d
  AllDiffer-swap item b (q ∷ pre) post (one, d) = (
    All-swap (Differ q) b (give fl item b) (λ e. e) pre post one,
    AllDiffer-swap item b pre post d,
  )

  -- The bins that an assignment of items leads to.
  pub record IsAssigned (items : List (WorkItem F)) (bins bins' : List (Bin F)) : Type 0 where
    pub ends : assign_items fl p items bins ≡ some bins'
    pub same_shares : bin_shares bins' ≡ bin_shares bins
    pub fits : All Fits bins'
    pub all_used : total used bins' ≡ total slots bins'
    pub given :
        (id : String) → total (holds id) bins' ≡ total (holds id) bins + occurrences id items

  -- One more item, to a bin with a free slot.
  assign_next :
      (item : WorkItem F) (items : List (WorkItem F)) (bins bins' : List (Bin F)) (b : Bin F)
      (o : IsOpenIn b bins)
      → choose_bin fl p item none bins ≡ some b
      → AllDiffer bins
      → IsAssigned items (o.before ++ give fl item b ∷ o.later) bins'
      → IsAssigned (item ∷ items) bins bins'
  assign_next item items bins bins' b o chosen differ done =
      let pre = o.before in
      let post = o.later in
      let moved : update (is_rank b.share.topo.rank) (give fl item) bins
          ≡ pre ++ give fl item b ∷ post =
        rw (o.at) (update-split (give fl item) pre post b (rw (o.at) at differ)) in
      record {
        ends = rw (assign_items, chosen, moved) done.ends;
        same_shares =
            done.same_shares
            ∙ shares-swap b (give fl item b) refl pre post
            ∙ ap bin_shares (sym o.at);
        fits = done.fits;
        all_used = done.all_used;
        given = λ id.
            let after = done.given id in
            let there = total-split (holds id) pre post (give fl item b) in
            let here = total-split (holds id) pre post b in
            let one = count-append (λ w. w.work_id == id) b.items (item ∷ []) in
            let start = ap (total (holds id)) o.at in omega (arith, after, there, here, one, start);
      }

  -- A bin with a free slot has room.
  give-Fits : (item : WorkItem F) (b : Bin F) → has_slot b ≡ true → Fits (give fl item b)
  give-Fits item b e =
      let more = length-append b.items (item ∷ []) in
      let room : used b < slots b = ground arith in omega (arith, more, room)

  -- With as many items as there are free slots, the assignment ends, uses every slot, and gives every
  -- item once.
  pub assign_items-IsAssigned :
      (items : List (WorkItem F)) (bins : List (Bin F))
      → AllDiffer bins
      → All Fits bins
      → total used bins + length items ≡ total slots bins
      → (bins' : List (Bin F)) × IsAssigned items bins bins'
  assign_items-IsAssigned [] bins differ fits enough = (
    bins,
    record {
      ends = refl;
      same_shares = refl;
      fits = fits;
      all_used = omega (arith, enough);
      given = λ id. omega arith;
    },
  )
  assign_items-IsAssigned (item ∷ items) bins differ fits enough =
      elim (Option-cases (choose_bin fl p item none bins)) [
        | inl e ↦
            let full = full-total bins (choose_bin-none fl p item bins e) in
            absurd (omega (arith, full, enough))
        | inr (b, e) ↦ elim (choose_bin-IsOpenIn fl p item none bins b e) [
          | inl bad ↦ absurd (ground arith)
          | inr o ↦
              let pre = o.before in
              let post = o.later in
              let next = pre ++ give fl item b ∷ post in
              let differ' = AllDiffer-swap item b pre post (rw (o.at) at differ) in
              let fits' =
                All-swap Fits b (give fl item b) (λ f. give-Fits item b o.open_slot) pre post
                  (rw (o.at) at fits) in
              let start_used = ap (total used) o.at ∙ total-split used pre post b in
              let next_used = total-split used pre post (give fl item b) in
              let start_slots = ap (total slots) o.at ∙ total-split slots pre post b in
              let next_slots = total-split slots pre post (give fl item b) in
              let more = length-append b.items (item ∷ []) in
              let (bins', done) =
                assign_items-IsAssigned items next differ' fits'
                  (omega (arith, start_used, next_used, start_slots, next_slots, more, enough)) in
              (bins', assign_next item items bins bins' b o e differ done)
        ]
      ]
