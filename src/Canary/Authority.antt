-- ===== src/Canary/Authority.antt =====
-- Which stages give a candidate authority, and how a gate comes to them.
use acvjepa_project.Canary.Schedule.{
  Op, enter, measure, observe, act, Console, apply_found, step, run,
}
use acvjepa_project.Prelude.Float.{Floats}
use acvjepa_project.Prelude.{
  Bool-cases, Option-cases, get_elem?, ℕ, String, ◌≡◌, refl, sym, subst, ◌⊎◌, inl, inr, Bool, true,
  false, Option, none, some, List, [], ◌∷◌, arith,
}
use acvjepa_project.Canary.Types.{
  ReleaseStage, candidate, shadow, paused, rolled_back, GateDecision, await_evidence, promote, hold,
  rollback, ShadowRecord, GateReport, Gate,
}
use acvjepa_project.Canary.{
  is_candidate, next_stage, has_no_authority, enter_shadow, record_outcome, act_on, apply, Router,
  choose,
}

abbrev pub IsStopped : ReleaseStage → Type 0
IsStopped stage = (stage ≡ paused) ⊎ (stage ≡ rolled_back)

module _ {F : Type 0} (fl : Floats F) where
  pub enter_shadow-stage :
      (g : Gate F)
      → ((enter_shadow g).1.stage ≡ g.stage)
        ⊎ ((g.stage ≡ candidate) × ((enter_shadow g).1.stage ≡ shadow))
  unfolding enter_shadow
  enter_shadow-stage g = elim (Bool-cases (is_candidate g.stage)) [
    | inl e ↦ inr (ground arith, ground arith)
    | inr e ↦ inl (ground arith)
  ]

  pub record_outcome-stage :
      (r : ShadowRecord F) (g : Gate F) → (record_outcome r g).1.stage ≡ g.stage
  unfolding record_outcome
  record_outcome-stage r g = ground arith

  -- What an applied decision makes of the stage.
  pub act_on-stage :
      (d : GateDecision) (authorized : Bool) (g : Gate F)
      → ((act_on d authorized g).1.stage ≡ g.stage)
        ⊎ IsStopped (act_on d authorized g).1.stage
        ⊎ ((d ≡ promote)
            × (authorized ≡ true)
            × (some (act_on d authorized g).1.stage ≡ next_stage g.stage))
  act_on-stage rollback authorized g = inr (inl (inr refl))
  act_on-stage await_evidence authorized g = inl refl
  act_on-stage hold authorized g = inr (inl (inl refl))
  act_on-stage promote false g = inr (inl (inl refl))
  act_on-stage promote true g = elim (Option-cases (next_stage g.stage)) [
    | inl e ↦ inl (rw e refl)
    | inr (stage, e) ↦ inr (inr (refl, refl, rw e refl))
  ]

  -- A stopped gate stays stopped under every call.
  next_stage-stopped : (stage : ReleaseStage) → IsStopped stage → next_stage stage ≡ none
  next_stage-stopped stage (inl e) = rw e refl
  next_stage-stopped stage (inr e) = rw e refl

  IsStopped-stays :
      (before after : ReleaseStage) → after ≡ before → IsStopped before → IsStopped after
  IsStopped-stays before after e stopped = subst IsStopped (sym e) stopped

  apply_found-IsStopped :
      (report : Option (GateReport F)) (authorized : Bool) (g : Gate F)
      → IsStopped g.stage
      → IsStopped (apply_found report authorized g).stage
  unfolding apply
  apply_found-IsStopped none authorized g stopped = stopped
  apply_found-IsStopped (some r) authorized g stopped =
      elim (act_on-stage r.decision authorized g) [
        | inl e ↦ IsStopped-stays g.stage _ e stopped
        | inr (inl h) ↦ h
        | inr (inr (d, a, e)) ↦ let no = next_stage-stopped g.stage stopped in absurd (ground arith)
      ]

  step-IsStopped :
      (o : Op F) (c : Console F) → IsStopped c.gate.stage → IsStopped (step fl o c).gate.stage
  unfolding step
  step-IsStopped enter c stopped = elim (enter_shadow-stage c.gate) [
    | inl e ↦ IsStopped-stays c.gate.stage _ e stopped
    | inr (e, f) ↦ absurd (ground arith)
  ]
  step-IsStopped measure c stopped = stopped
  step-IsStopped (observe r) c stopped =
      IsStopped-stays c.gate.stage _ (record_outcome-stage r c.gate) stopped
  step-IsStopped (act k authorized) c stopped =
      apply_found-IsStopped (get_elem? c.reports k) authorized c.gate stopped

  pub run-IsStopped :
      (os : List (Op F)) (c : Console F)
      → IsStopped c.gate.stage
      → IsStopped (run fl os c).gate.stage
  unfolding run
  run-IsStopped [] c stopped = stopped
  run-IsStopped (o ∷ os) c stopped = run-IsStopped os (step fl o c) (step-IsStopped o c stopped)

  pub choose-baseline :
      (bucket : String → ℕ) (router : Router F) (stage : ReleaseStage) (robot shift task : String)
      → has_no_authority stage ≡ true
      → (choose fl bucket router stage robot shift task).selected_model_id
        ≡ router.baseline_model_id
  unfolding choose
  choose-baseline bucket router stage robot shift task e = rw e refl

-- Once the gate is paused or rolled back, the router gives every robot, shift and task the baseline
-- model, whatever is recorded, evaluated, entered or applied after it, with any reports and
-- authorizations.
pub stopped_gate-routes_baseline :
    {F : Type 0} (fl : Floats F) (bucket : String → ℕ) (router : Router F) (os : List (Op F))
    (c : Console F) (robot shift task : String)
    → (c.gate.stage ≡ paused) ⊎ (c.gate.stage ≡ rolled_back)
    → (choose fl bucket router (run fl os c).gate.stage robot shift task).selected_model_id
      ≡ router.baseline_model_id
stopped_gate-routes_baseline fl bucket router os c robot shift task stopped =
    choose-baseline fl bucket router (run fl os c).gate.stage robot shift task
      (elim (run-IsStopped fl os c stopped) [ inl e ↦ rw e refl | inr e ↦ rw e refl ])
