-- ===== src/Topology/Shares.antt =====
-- The shares of the ranks: one for each record of the manifest, with at least one micro-batch.
use acvjepa_project.Prelude.Int.{ℤ, pos, ◌≤ℤ◌, leb_ℤ, int_eq}
use acvjepa_project.Prelude.Float.{Floats, of_int, max_float}
use acvjepa_project.Prelude.Dict.{Dict, lookup}
use acvjepa_project.Prelude.{
  Bool-cases, Option-cases, some_inj, string_eq, nat_eq, ◌==◌, any, All, ok, Result-cases, ok_inj,
  ◌≡◌, refl, sym, ap, ◌∙◌, subst, inl, inr, Bool, false, Option, none, some, List, [], ◌∷◌, arith,
}
use acvjepa_project.Topology.Types.{LocalTopologyRecord, RankTelemetry, node_eq, is_not_positive}
use acvjepa_project.Topology.Assign.{
  Planner, RankShare, clamp, micro_batches_in, share_of, share_found, shares_of,
}
use acvjepa_project.Topology.{values}

module _ {F : Type 0} where
  abbrev pub topos : List (RankShare F) → List (LocalTopologyRecord F)
  topos [] = []
  topos (s ∷ ss) = s.topo ∷ topos ss

  -- At least one micro-batch of at least one sample.
  abbrev pub IsPositive : RankShare F → Type 0
  IsPositive s = (pos 1 ≤ℤ s.count) × (pos 1 ≤ℤ s.batch_size)

-- A value that is looked up is no exception to what no value has.
lookup-any :
    {V : Type 0} (bad : V → Bool) (d : Dict ℤ V) (k : ℤ) (v : V)
    → any bad (values d) ≡ false
    → lookup k d ≡ some v
    → bad v ≡ false
lookup-any bad [] k v none_bad found = absurd (ground arith)
lookup-any bad ((j, w) ∷ d) k v none_bad found = elim (Bool-cases (j == k)) [
  | inl here ↦
      let same : w ≡ v = some_inj (rw here at found) in
      subst (λ x. bad x ≡ false) same (ground arith)
  | inr there ↦ lookup-any bad d k v (ground arith) (rw there at found)
]

at_least : (a b n : ℤ) → pos 1 ≤ℤ a → pos 1 ≤ℤ clamp a b n
at_least a b n low = ground arith

module _ {F : Type 0} (fl : Floats F) (p : Planner F) where
  micro_batches_in-positive :
      (sps budget : F) (size k : ℤ)
      → pos 1 ≤ℤ p.min_micro_batches
      → micro_batches_in fl p sps budget size ≡ some k
      → pos 1 ≤ℤ k
  unfolding micro_batches_in
  micro_batches_in-positive sps budget size k low found = elim (Bool-cases (fl.fits size)) [
    | inr wide ↦ absurd (ground (arith, wide, found))
    | inl fits ↦
        elim (Option-cases (
          fl.nearest
            (fl.over (fl.times sps (fl.over budget (of_int fl (pos 1000)))) (of_int fl size)))) [
              | inl none_near ↦ absurd (ground (arith, fits, none_near, found))
              | inr (n, near) ↦
                  let same : clamp p.min_micro_batches p.max_micro_batches n ≡ k =
                    some_inj (rw (fits, near) at found) in
                  subst (λ x. pos 1 ≤ℤ x) same
                    (at_least p.min_micro_batches p.max_micro_batches n low)
            ]
  ]

  abbrev IsShareOf : LocalTopologyRecord F → RankShare F → Type 0
  IsShareOf topo s = (s.topo ≡ topo) × (pos 1 ≤ℤ s.count) × (pos 1 ≤ℤ s.batch_size)

  abbrev budget_of : LocalTopologyRecord F → RankTelemetry F → F
  budget_of topo t = fl.minus p.target_update_ms (
      fl.plus
        (fl.plus t.p95_data_ms (max_float fl t.p95_allreduce_ms topo.expected_collective_floor_ms))
        p.safety_jitter_ms)

  share_of-IsShareOf :
      (topo : LocalTopologyRecord F) (t : RankTelemetry F) (size : ℤ) (s : RankShare F)
      → pos 1 ≤ℤ p.min_micro_batches
      → leb_ℤ size (pos 0) ≡ false
      → share_of fl p topo t size ≡ ok s
      → IsShareOf topo s
  share_of-IsShareOf topo t size s low big made =
      let big' : pos 1 ≤ℤ size = ground arith in
      let budget = budget_of topo t in
      elim (Bool-cases (is_not_positive fl budget)) [
        | inl none_left ↦ absurd (ground (arith, none_left, made))
        | inr some_left ↦
            elim (Option-cases (micro_batches_in fl p t.samples_per_second budget size)) [
              | inl none_fit ↦ absurd (ground (arith, some_left, none_fit, made))
              | inr (k, counted) ↦
                  subst (IsShareOf topo) (ok_inj (rw (some_left, counted) at made)) (
                    refl,
                    micro_batches_in-positive t.samples_per_second budget size k low counted,
                    big',
                  )
            ]
      ]

  share_found-IsShareOf :
      (topo : LocalTopologyRecord F) (t : Option (RankTelemetry F)) (size : Option ℤ)
      (s : RankShare F)
      → pos 1 ≤ℤ p.min_micro_batches
      → ((n : ℤ) → size ≡ some n → leb_ℤ n (pos 0) ≡ false)
      → share_found fl p topo t size ≡ ok s
      → IsShareOf topo s
  share_found-IsShareOf topo none size s low big made = absurd (ground arith)
  share_found-IsShareOf topo (some t) none s low big made = absurd (ground arith)
  share_found-IsShareOf topo (some t) (some n) s low big made =
      share_of-IsShareOf topo t n s low (big n refl) made

  pub shares_of-facts :
      (ts : Dict ℤ (RankTelemetry F)) (sizes : Dict ℤ ℤ) (rs : List (LocalTopologyRecord F))
      (ss : List (RankShare F))
      → pos 1 ≤ℤ p.min_micro_batches
      → any (λ n. leb_ℤ n (pos 0)) (values sizes) ≡ false
      → shares_of fl p ts sizes rs ≡ ok ss
      → (topos ss ≡ rs) × All IsPositive ss
  shares_of-facts ts sizes [] ss low big made = rw (sym (ok_inj made)) (refl, tt)
  shares_of-facts ts sizes (r ∷ rs) ss low big made =
      elim (Result-cases (share_found fl p r (lookup r.rank ts) (lookup r.rank sizes))) [
        | inr (e, bad) ↦ absurd (ground arith)
        | inl (s, one) ↦ elim (Result-cases (shares_of fl p ts sizes rs)) [
          | inr (e, bad) ↦ absurd (ground arith)
          | inl (l, more) ↦
              let same : s ∷ l ≡ ss = ok_inj (rw (shares_of, one, more) at made) in
              let (is, counted, sized) =
                share_found-IsShareOf r _ _ s low
                  (λ n. lookup-any (λ k. leb_ℤ k (pos 0)) sizes r.rank n big) one in
              let (topos_l, positive_l) = shares_of-facts ts sizes rs l low big more in
              subst (λ k. (topos k ≡ r ∷ rs) × All IsPositive k) same
                (
                  ap (λ (x : LocalTopologyRecord F). x ∷ topos l) is
                      ∙ ap (λ (k : List (LocalTopologyRecord F)). r ∷ k) topos_l,
                  ((counted, sized), positive_l),
                )
        ]
      ]
