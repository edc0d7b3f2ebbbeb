-- ===== src/Canary/Kept.antt =====
-- What no call of the gate changes, and what every record of it has.
use acvjepa_project.Prelude.Float.{Floats}
use acvjepa_project.Prelude.Int.{int_eq}
use acvjepa_project.Prelude.{
  Bool-cases, string_eq, nat_eq, ◌==◌, get_elem?, drop, All, All-append, ℕ, zero, suc, ◌≡◌, refl,
  ◌∙◌, ◌⊎◌, inl, inr, Bool, true, false, Option, none, some, List, [], ◌∷◌, eq_iff,
}
use acvjepa_project.Canary.Types.{
  ReleaseStage, shadow, paused, rolled_back, GateDecision, await_evidence, promote, hold, rollback,
  ShadowRecord, GateReport, Gate,
}
use acvjepa_project.Canary.{
  is_candidate, append_bounded, next_stage, enter_shadow, record_outcome, promote_to, act_on, apply,
}
use acvjepa_project.Canary.Schedule.{
  Op, enter, measure, observe, act, Console, apply_found, step, run,
}

-- A record that pairs the two models of the gate on one request.
pub record IsPaired {F : Type 0} (g : Gate F) (r : ShadowRecord F) : Type 0 where
  pub of_baseline : r.baseline.model_id ≡ g.baseline_model_id
  pub of_candidate : r.candidate.model_id ≡ g.candidate_model_id
  pub same_request : r.baseline.correlation_id ≡ r.candidate.correlation_id
  pub same_outcome : r.observed.correlation_id ≡ r.candidate.correlation_id

-- The gate that was created, with other records and stage: its names and policy never change, and every
-- record pairs its two models.
pub record IsKept {F : Type 0} (g g' : Gate F) : Type 0 where
  pub same_baseline : g'.baseline_model_id ≡ g.baseline_model_id
  pub same_candidate : g'.candidate_model_id ≡ g.candidate_model_id
  pub same_policy : g'.policy ≡ g.policy
  pub paired : All (IsPaired g) g'.records

module _ {F : Type 0} (g : Gate F) where
  All-drop :
      (n : ℕ) (rs : List (ShadowRecord F)) → All (IsPaired g) rs → All (IsPaired g) (drop n rs)
  All-drop zero rs a = a
  All-drop (suc n) [] a = tt
  All-drop (suc n) (r ∷ rs) a = All-drop n rs a.1

  -- Only the stage changes.
  staged : (h : Gate F) (stage : ReleaseStage) → IsKept g h → IsKept g (record h { stage = stage })
  staged h stage k = record {
    same_baseline = k.same_baseline;
    same_candidate = k.same_candidate;
    same_policy = k.same_policy;
    paired = k.paired;
  }

  promote_to-IsKept :
      (s : Option ReleaseStage) (h : Gate F) → IsKept g h → IsKept g (promote_to s h).1
  promote_to-IsKept none h k = k
  promote_to-IsKept (some s) h k = staged h s k

  act_on-IsKept :
      (d : GateDecision) (authorized : Bool) (h : Gate F)
      → IsKept g h
      → IsKept g (act_on d authorized h).1
  act_on-IsKept rollback authorized h k = staged h rolled_back k
  act_on-IsKept await_evidence authorized h k = k
  act_on-IsKept hold authorized h k = staged h paused k
  act_on-IsKept promote false h k = staged h paused k
  act_on-IsKept promote true h k = promote_to-IsKept (next_stage h.stage) h k

  apply_found-IsKept :
      (r : Option (GateReport F)) (authorized : Bool) (h : Gate F)
      → IsKept g h
      → IsKept g (apply_found r authorized h)
  unfolding apply
  apply_found-IsKept none authorized h k = k
  apply_found-IsKept (some r) authorized h k = act_on-IsKept r.decision authorized h k

  enter_shadow-IsKept : (h : Gate F) → IsKept g h → IsKept g (enter_shadow h).1
  unfolding enter_shadow
  enter_shadow-IsKept h k = elim (Bool-cases (is_candidate h.stage)) [
    | inl e ↦ rw e (staged h shadow k)
    | inr e ↦ rw e k
  ]

  -- A record is taken only when it pairs the models of the gate.
  record_outcome-cases :
      (r : ShadowRecord F) (h : Gate F)
      → ((record_outcome r h).1 ≡ h)
        ⊎ (IsPaired h r
            × ((record_outcome r h).1
                ≡ record h { records = append_bounded h.max_records h.records r }))
  unfolding record_outcome
  record_outcome-cases r h = elim (Bool-cases (r.baseline.model_id == h.baseline_model_id)) [
    | inr a ↦ inl (rw a refl)
    | inl a ↦ elim (Bool-cases (r.candidate.model_id == h.candidate_model_id)) [
      | inr b ↦ inl (rw (a, b) refl)
      | inl b ↦ elim (Bool-cases (r.baseline.correlation_id == r.candidate.correlation_id)) [
        | inr c ↦ inl (rw (a, b, c) refl)
        | inl c ↦ elim (Bool-cases (r.observed.correlation_id == r.candidate.correlation_id)) [
          | inr d ↦ inl (rw (a, b, c, d) refl)
          | inl d ↦ inr (
            record {
              of_baseline = (eq_iff r.baseline.model_id h.baseline_model_id).0 a;
              of_candidate = (eq_iff r.candidate.model_id h.candidate_model_id).0 b;
              same_request = (eq_iff r.baseline.correlation_id r.candidate.correlation_id).0 c;
              same_outcome = (eq_iff r.observed.correlation_id r.candidate.correlation_id).0 d;
            },
            rw (a, b, c, d) refl,
          )
        ]
      ]
    ]
  ]

  record_outcome-IsKept :
      (r : ShadowRecord F) (h : Gate F) → IsKept g h → IsKept g (record_outcome r h).1
  record_outcome-IsKept r h k = elim (record_outcome-cases r h) [
    | inl e ↦ rw e k
    | inr (p, e) ↦
        let one : IsPaired g r = record {
          of_baseline = p.of_baseline ∙ k.same_baseline;
          of_candidate = p.of_candidate ∙ k.same_candidate;
          same_request = p.same_request;
          same_outcome = p.same_outcome;
        } in
        rw e (record {
          same_baseline = k.same_baseline;
          same_candidate = k.same_candidate;
          same_policy = k.same_policy;
          paired = All-drop _ _ (All-append (IsPaired g) h.records (r ∷ []) k.paired (one, tt));
        })
  ]

  step-IsKept :
      (fl : Floats F) (o : Op F) (c : Console F) → IsKept g c.gate → IsKept g (step fl o c).gate
  unfolding step
  step-IsKept fl enter c k = enter_shadow-IsKept c.gate k
  step-IsKept fl measure c k = k
  step-IsKept fl (observe r) c k = record_outcome-IsKept r c.gate k
  step-IsKept fl (act i authorized) c k =
      apply_found-IsKept (get_elem? c.reports i) authorized c.gate k

  pub run-IsKept :
      (fl : Floats F) (os : List (Op F)) (c : Console F)
      → IsKept g c.gate
      → IsKept g (run fl os c).gate
  unfolding run
  run-IsKept fl [] c k = k
  run-IsKept fl (o ∷ os) c k = run-IsKept fl os (step fl o c) (step-IsKept fl o c k)
