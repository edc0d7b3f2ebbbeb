-- ===== src/Topology/Accepted.antt =====
-- What a rank knows of a plan that validate_update_plan lets through.
use acvjepa_project.Prelude.Int.{ℤ, pos, pos_part, ◌≤ℤ◌, ltb_ℤ, leb_ℤ, int_eq}
use acvjepa_project.Prelude.Float.{Floats}
use acvjepa_project.Prelude.Table.{count}
use acvjepa_project.Prelude.Hashing.{Hashing}
use acvjepa_project.Prelude.Sets.{set_size-all, count_once, same_set-contains, length_of_once}
use acvjepa_project.Prelude.{
  if◌then◌else◌, string_eq, nat_eq, ◌==◌, length, contains, set_size, same_set, Result, ok, err,
  Result-cases, String, ◌≡◌, refl, sym, ap, ◌∙◌, ◌↔◌, inl, inr, true, false, not, ◌||◌, List, [],
  ◌∷◌, arith, eq_iff,
}
use acvjepa_project.Topology.Types.{
  PlanError, TopologyManifest, WorkItem, TopologyAwareUpdatePlan, node_eq, range_from, list_beq,
  record_ranks, work_ids, validate_manifest, topology_digest_of, digest_work,
}
use acvjepa_project.Topology.Check.{
  sum_ℤ, planned_ids, planned_ranks, planned_samples, check_ranks, check_plan, check_digest,
  validate_update_plan,
}
use acvjepa_project.Topology.Complete.{validate_manifest-HasRanks}
use acvjepa_project.Topology.Entries.{
  AreEntriesOf, check_ranks-AreEntriesOf, AreEntriesOf-planned_ranks, check_ranks_of_entries,
}

list_beq_eq : (xs ys : List ℤ) → list_beq xs ys ≡ true → xs ≡ ys
list_beq_eq [] [] h = refl
list_beq_eq [] (y ∷ ys) h = absurd (ground arith)
list_beq_eq (x ∷ xs) [] h = absurd (ground arith)
list_beq_eq (x ∷ xs) (y ∷ ys) h =
    let one : x ≡ y = (int_eq.same_iff x y).0 (ground arith) in
    let rest : xs ≡ ys = list_beq_eq xs ys (ground arith) in
    ap (λ (a : ℤ). a ∷ xs) one ∙ ap (λ (l : List ℤ). y ∷ l) rest

module _ {F : Type 0} (fl : Floats F) where
  -- A plan that every rank may follow: it is of this group, topology and work; its ranks are those of
  -- the manifest; every item of the work is planned once and no other is; and the samples add up.
  pub record IsAccepted (h : Hashing) (group : ℤ) (plan : TopologyAwareUpdatePlan F)
      (m : TopologyManifest F) (items : List (WorkItem F)) : Type 0 where
    pub manifest_valid : validate_manifest fl m ≡ ok tt
    pub same_group : plan.world_size ≡ group
    pub same_size : plan.world_size ≡ m.world_size
    pub same_epoch : plan.topology_epoch ≡ m.topology_epoch
    pub same_topology : plan.topology_digest ≡ topology_digest_of fl h m
    pub same_work : digest_work fl h items ≡ ok plan.work_manifest_digest
    pub counted : pos 1 ≤ℤ plan.plan_version
    pub some_samples : pos 1 ≤ℤ plan.global_samples
    pub finite_target : fl.is_finite plan.target_update_ms ≡ true
    pub planned_once :
        (id : String)
        → count (λ x. x == id) (planned_ids plan.ranks)
          ≡ (if contains (work_ids items) id then 1 else 0)
    pub samples_add_up : plan.global_samples ≡ sum_ℤ (planned_samples plan.ranks)
    pub entries :
        AreEntriesOf fl (fl.ratio plan.world_size (pos_part plan.global_samples)) plan.ranks m.ranks

  -- What the last guards say.
  record IsChecked (plan : TopologyAwareUpdatePlan F) (m : TopologyManifest F)
      (items : List (WorkItem F)) : Type 0 where
    counted : pos 1 ≤ℤ plan.plan_version
    some_samples : pos 1 ≤ℤ plan.global_samples
    finite_target : fl.is_finite plan.target_update_ms ≡ true
    in_order : list_beq (planned_ranks plan.ranks) (range_from 0 (pos_part plan.world_size)) ≡ true
    same_ids : same_set (planned_ids plan.ranks) (work_ids items) ≡ true
    as_many : length (planned_ids plan.ranks) ≡ set_size (work_ids items)
    samples_add_up : plan.global_samples ≡ sum_ℤ (planned_samples plan.ranks)
    passed :
        check_ranks fl (fl.ratio plan.world_size (pos_part plan.global_samples)) plan.ranks m.ranks
        ≡ ok tt

  check_plan-IsChecked :
      (plan : TopologyAwareUpdatePlan F) (m : TopologyManifest F) (items : List (WorkItem F))
      → check_plan fl plan m items ≡ ok tt
      → IsChecked plan m items
  check_plan-IsChecked plan m items passed = record {
    counted = ground arith;
    some_samples = ground arith;
    finite_target = ground arith;
    in_order = ground arith;
    same_ids = ground arith;
    as_many = ground arith;
    samples_add_up =
        (int_eq.same_iff plan.global_samples (sum_ℤ (planned_samples plan.ranks))).0 (ground arith);
    passed = ground arith;
  }

  -- The digest that the plan was made with is that of the items.
  digest-same :
      (expected : String) (d : Result PlanError String) (rest : Result PlanError (Unit {0}))
      → check_digest fl expected d rest ≡ ok tt
      → (d ≡ ok expected) × (rest ≡ ok tt)
  digest-same expected (err e) rest passed = absurd (ground arith)
  digest-same expected (ok d) rest passed = ground (arith, eq_iff expected d)

  validate-IsAccepted :
      (h : Hashing) (group : ℤ) (plan : TopologyAwareUpdatePlan F) (m : TopologyManifest F)
      (items : List (WorkItem F))
      → validate_update_plan fl h group plan m items ≡ ok tt
      → IsAccepted h group plan m items
  unfolding validate_update_plan
  validate-IsAccepted h group plan m items passed = elim (Result-cases (validate_manifest fl m)) [
    | inr (e, bad) ↦ absurd (ground arith)
    | inl (u, valid) ↦
        let has = validate_manifest-HasRanks fl m (valid ∙ ap ok refl) in
        let (work, guards) =
          digest-same plan.work_manifest_digest (digest_work fl h items)
            (check_plan fl plan m items) (ground arith) in
        let checked = check_plan-IsChecked plan m items guards in
        let size : plan.world_size ≡ m.world_size =
          (int_eq.same_iff plan.world_size m.world_size).0 (ground arith) in
        let ranks : planned_ranks plan.ranks ≡ record_ranks m.ranks =
          list_beq_eq _ _ checked.in_order
          ∙ ap (λ n. range_from 0 (pos_part n)) size
          ∙ sym (list_beq_eq _ _ has.in_order) in
        let smaller =
          set_size-all (work_ids items) (planned_ids plan.ranks)
            (ground (arith, checked.same_ids)) in
        record {
          manifest_valid = valid ∙ ap ok refl;
          same_group = (int_eq.same_iff plan.world_size group).0 (ground arith);
          same_size = size;
          same_epoch = (eq_iff plan.topology_epoch m.topology_epoch).0 (ground arith);
          same_topology =
              (eq_iff plan.topology_digest (topology_digest_of fl h m)).0 (ground arith);
          same_work = work;
          counted = checked.counted;
          some_samples = checked.some_samples;
          finite_target = checked.finite_target;
          planned_once = λ id.
              count_once id (planned_ids plan.ranks) (omega (arith, checked.as_many, smaller))
              ∙ ap (λ c. if c then 1 else 0)
                  (same_set-contains id (planned_ids plan.ranks) (work_ids items) checked.same_ids);
          samples_add_up = checked.samples_add_up;
          entries = check_ranks-AreEntriesOf fl _ plan.ranks m.ranks ranks checked.passed;
        }
  ]

  -- An accepted plan passes.
  accepted_passes :
      (h : Hashing) (group : ℤ) (plan : TopologyAwareUpdatePlan F) (m : TopologyManifest F)
      (items : List (WorkItem F))
      → IsAccepted h group plan m items
      → validate_update_plan fl h group plan m items ≡ ok tt
  unfolding validate_update_plan
  accepted_passes h group plan m items a =
      let has = validate_manifest-HasRanks fl m a.manifest_valid in
      let ranks : planned_ranks plan.ranks ≡ record_ranks m.ranks =
        AreEntriesOf-planned_ranks fl _ plan.ranks m.ranks a.entries in
      let in_order : list_beq (planned_ranks plan.ranks) (range_from 0 (pos_part plan.world_size))
          ≡ true =
        rw (ranks, a.same_size) has.in_order in
      let (same_ids, as_many) =
        length_of_once (planned_ids plan.ranks) (work_ids items) a.planned_once in
      let many : (length (planned_ids plan.ranks) == set_size (work_ids items)) ≡ true =
        ground (arith, as_many) in
      let metadata : (ltb_ℤ plan.plan_version (pos 1)
            || leb_ℤ plan.global_samples (pos 0)
            || not (fl.is_finite plan.target_update_ms))
          ≡ false =
        ground (arith, a.counted, a.some_samples, a.finite_target) in
      let checked : check_plan fl plan m items ≡ ok tt =
        rw
          (
            metadata,
            in_order,
            same_ids,
            many,
            (int_eq.same_iff plan.global_samples (sum_ℤ (planned_samples plan.ranks))).1
                a.samples_add_up,
            check_ranks_of_entries fl _ plan.ranks m.ranks a.entries,
          )
          refl in
      ground (
        arith,
        a.manifest_valid,
        (int_eq.same_iff plan.world_size group).1 a.same_group,
        (int_eq.same_iff plan.world_size m.world_size).1 a.same_size,
        (eq_iff plan.topology_epoch m.topology_epoch).1 a.same_epoch,
        (eq_iff plan.topology_digest (topology_digest_of fl h m)).1 a.same_topology,
        a.same_work,
        (eq_iff plan.work_manifest_digest plan.work_manifest_digest).1 refl,
        checked,
      )

  -- validate_update_plan lets a plan through exactly when it is for this process group, topology and
  -- work, under a valid manifest; its ranks are the manifest's, each with an entry that has its place,
  -- one item for each of at least one micro-batch, its samples and the scale of the loss; every listed
  -- work id is planned exactly once, over all ranks, and no other id is; the version and the number of
  -- samples are positive and the target is finite; and the samples of the ranks add up to the plan's.
  pub validate_update_plan-IsAccepted :
      (h : Hashing) (group : ℤ) (plan : TopologyAwareUpdatePlan F) (m : TopologyManifest F)
      (items : List (WorkItem F))
      → (validate_update_plan fl h group plan m items ≡ ok tt) ↔ IsAccepted h group plan m items
  validate_update_plan-IsAccepted h group plan m items =
      (validate-IsAccepted h group plan m items, accepted_passes h group plan m items)
