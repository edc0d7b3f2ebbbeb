-- ===== src/Canary.antt =====
-- shadow_canary_gate.py: the release gate of a candidate model and the router that follows its stage.
-- Floats are a parameter, and so are the first eight bytes of a digest. The identifier of the release
-- is written and never read, and is left out.
pub mod Types
pub mod Schedule
pub mod Authority
pub mod Kept
pub mod Evidence
mod Tests
use acvjepa_project.Prelude.Int.{ℤ, pos, pos_part, ltb_ℤ, int_eq}
use acvjepa_project.Prelude.Float.{Floats, of_int, at_most}
use acvjepa_project.Prelude.Text.{concat}
use acvjepa_project.Prelude.Table.{count}
use acvjepa_project.Prelude.{
  leb, if◌then◌else◌, string_eq, nat_eq, ◌==◌, length, get_elem?, drop, all, sort_by, contains,
  Result, ok, err, Exec, raise, gets, ◌>>=◌, ◌>>◌, raise_if, modify, ℕ, ◌+◌, ◌-◌, ◌^◌, String, Bool,
  true, false, not, ◌&&◌, Option, none, some, List, [], ◌∷◌, ◌++◌,
}
use acvjepa_project.Canary.Types.{
  ReleaseStage, candidate, shadow, canary_low_risk, canary_expanded, production, paused,
  rolled_back, GateDecision, await_evidence, promote, hold, rollback, GateError, not_candidate,
  baseline_mismatch, candidate_mismatch, pair_mismatch, observed_mismatch, cannot_promote,
  bad_index, bad_length, ModelOutcome, ShadowRecord, GatePolicy, GateReport, RouteDecision, Gate,
}

abbrev pub is_shadow : ReleaseStage → Bool
is_shadow shadow = true
is_shadow _ = false

abbrev pub is_known : Option Bool → Bool
is_known none = false
is_known (some b) = true

abbrev pub is_success : Option Bool → Bool
is_success none = false
is_success (some b) = b

module _ {F : Type 0} where
  -- How many records a stage asks for.
  abbrev pub required_records : GatePolicy F → ReleaseStage → ℤ
  required_records p stage = if is_shadow stage then p.min_shadow_records else p.min_canary_records

  abbrev pub latencies : (ShadowRecord F → ModelOutcome F) → List (ShadowRecord F) → List F
  latencies side [] = []
  latencies side (r ∷ rs) = (side r).latency_ms ∷ latencies side rs

  abbrev pub is_invalid : ShadowRecord F → Bool
  is_invalid r = r.candidate.invalid_output

  -- A risk that the environment showed and the candidate did not hold for.
  abbrev pub is_hold_miss : ShadowRecord F → Bool
  is_hold_miss r = r.observed.environment_risk_observed && not r.candidate.requested_local_hold

  abbrev pub is_hard_event : ShadowRecord F → Bool
  is_hard_event r = r.observed.hard_safety_event

module _ {F : Type 0} (fl : Floats F) where
  -- `ordered[lower] * (1.0 - weight) + ordered[upper] * weight`, with Python's exception for an index
  -- that is out of range.
  abbrev pub interpolate : F → Option F → Option F → Result GateError (Option F)
  interpolate weight none b = err bad_index
  interpolate weight (some a) none = err bad_index
  interpolate weight (some a) (some b) =
      ok (some (fl.plus (fl.times a (fl.minus (of_int fl (pos 1)) weight)) (fl.times b weight)))

  -- `percentile`, at a fraction that is not negative.
  unfoldable pub percentile : List F → F → Result GateError (Option F)
  percentile [] q = ok none
  percentile (x ∷ xs) q =
      let ordered = sort_by (at_most fl) (x ∷ xs) in
      let last_index = length ordered - 1 in
      let position = fl.times (of_int fl (pos last_index)) q in
      let lower = pos_part (fl.truncate position) in
      let upper = if leb (lower + 1) last_index then lower + 1 else last_index in
      interpolate (fl.minus position (of_int fl (pos lower))) (get_elem? ordered lower)
        (get_elem? ordered upper)

  -- `rate`
  abbrev pub rate : ℕ → ℕ → F
  rate n d = if d == 0 then of_int fl (pos 0) else fl.ratio (pos n) d

  -- `ShadowCanaryGate.__init__`: a negative length is no length of a `deque`.
  unfoldable pub create : String → String → GatePolicy F → ℤ → Result GateError (Gate F)
  create baseline candidate_id policy max_records =
      if ltb_ℤ max_records (pos 0)
      then err bad_length
      else ok (record {
        baseline_model_id = baseline;
        candidate_model_id = candidate_id;
        policy = policy;
        stage = candidate;
        max_records = pos_part max_records;
        records = [];
      })

  abbrev pub success_rate : List (ShadowRecord F) → Option F
  success_rate rs =
      let told = count (λ r. is_known r.observed.task_event_success) rs in
      let good = count (λ r. is_success r.observed.task_event_success) rs in
      if told == 0 then none else some (rate good told)

  -- `candidate_p99 is not None and candidate_p99 > limit`
  abbrev pub exceeds : Option F → F → Bool
  exceeds none limit = false
  exceeds (some p99) limit = fl.less limit p99

  -- The candidate's latency against the baseline's.
  abbrev pub regresses : Option F → Option F → F → Bool
  regresses none b ratio = false
  regresses (some a) none ratio = false
  regresses (some a) (some b) ratio = fl.less (fl.times b ratio) a

  -- The decision of evaluate with its reason, from the summary of the records.
  abbrev pub decide : Gate F → Option F → Option F → GateDecision × String
  decide g candidate_p99 baseline_p99 =
      let n = length g.records in
      if ltb_ℤ g.policy.max_hard_safety_events (pos (count is_hard_event g.records))
      then (rollback, "hard_safety_event_observed")
      else if fl.less g.policy.max_invalid_rate (rate (count is_invalid g.records) n)
      then (rollback, "candidate_invalid_output_rate_exceeded")
      else if fl.less g.policy.max_hold_miss_rate (rate (count is_hold_miss g.records) n)
      then (rollback, "candidate_missed_conservative_hold")
      else if exceeds candidate_p99 g.policy.max_candidate_p99_ms
      then (rollback, "candidate_p99_deadline_exceeded")
      else if regresses candidate_p99 baseline_p99 g.policy.max_latency_regression_ratio
      then (rollback, "candidate_latency_regression_exceeded")
      else if ltb_ℤ (pos n) (required_records g.policy g.stage)
      then (await_evidence, "insufficient_coverage_or_samples")
      else (promote, "all_automatic_gates_passed")

  abbrev pub report_of : Gate F → Option F → Option F → GateReport F
  report_of g candidate_p99 baseline_p99 =
      let n = length g.records in
      record {
        stage = g.stage;
        decision = (decide g candidate_p99 baseline_p99).0;
        reason = (decide g candidate_p99 baseline_p99).1;
        records = n;
        candidate_p99_ms = candidate_p99;
        baseline_p99_ms = baseline_p99;
        candidate_invalid_rate = rate (count is_invalid g.records) n;
        candidate_hold_miss_rate = rate (count is_hold_miss g.records) n;
        hard_safety_events = count is_hard_event g.records;
        candidate_success_rate = success_rate g.records;
        baseline_success_rate = none;
      }

  abbrev pub p99 : (ShadowRecord F → ModelOutcome F) → Gate F → Result GateError (Option F)
  p99 side g = percentile (latencies side g.records) (fl.ratio (pos 99) 100)

  abbrev pub report_from :
      Gate F
      → Result GateError (Option F)
      → Result GateError (Option F)
      → Result GateError (GateReport F)
  report_from g (err e) b = err e
  report_from g (ok a) (err e) = err e
  report_from g (ok a) (ok b) = ok (report_of g a b)

  -- `evaluate`, with `_summary`
  unfoldable pub evaluate : Gate F → Result GateError (GateReport F)
  evaluate g = report_from g (p99 (λ r. r.candidate) g) (p99 (λ r. r.baseline) g)

abbrev pub is_candidate : ReleaseStage → Bool
is_candidate candidate = true
is_candidate _ = false

-- `deque.append`: a full queue drops its oldest item.
abbrev pub append_bounded : {A : Type 0} → ℕ → List A → A → List A
append_bounded n xs x = let all = xs ++ x ∷ [] in drop (length all - n) all

-- `transitions`
abbrev pub next_stage : ReleaseStage → Option ReleaseStage
next_stage shadow = some canary_low_risk
next_stage canary_low_risk = some canary_expanded
next_stage canary_expanded = some production
next_stage _ = none

abbrev pub has_no_authority : ReleaseStage → Bool
has_no_authority candidate = true
has_no_authority shadow = true
has_no_authority paused = true
has_no_authority rolled_back = true
has_no_authority _ = false

module _ {F : Type 0} where
  -- `enter_shadow`
  unfoldable pub enter_shadow : Exec GateError (Gate F) (Unit {0})
  enter_shadow = do
    stage ← gets (λ g. g.stage)
    raise_if (not (is_candidate stage)) not_candidate
    modify (λ g. record g { stage = shadow })

  -- `record`
  unfoldable pub record_outcome : ShadowRecord F → Exec GateError (Gate F) (Unit {0})
  record_outcome item = do
    g ← gets (λ g. g)
    raise_if (not (item.baseline.model_id == g.baseline_model_id)) baseline_mismatch
    raise_if (not (item.candidate.model_id == g.candidate_model_id)) candidate_mismatch
    raise_if (not (item.baseline.correlation_id == item.candidate.correlation_id)) pair_mismatch
    raise_if (not (item.observed.correlation_id == item.candidate.correlation_id)) observed_mismatch
    modify (λ g. record g { records = append_bounded g.max_records g.records item })

  abbrev pub move_to : ReleaseStage → Exec GateError (Gate F) ReleaseStage
  move_to stage g = (ok stage, record g { stage = stage })

  abbrev pub promote_to : Option ReleaseStage → Exec GateError (Gate F) ReleaseStage
  promote_to none = raise cannot_promote
  promote_to (some stage) = move_to stage

  abbrev pub act_on : GateDecision → Bool → Exec GateError (Gate F) ReleaseStage
  act_on rollback authorized g = move_to rolled_back g
  act_on await_evidence authorized g = (ok g.stage, g)
  act_on hold authorized g = move_to paused g
  act_on promote authorized g =
      if authorized then promote_to (next_stage g.stage) g else move_to paused g

  -- `apply`
  unfoldable pub apply : GateReport F → Bool → Exec GateError (Gate F) ReleaseStage
  apply report authorized = act_on report.decision authorized

  -- The share of identities that a stage routes to the candidate; no other stage gets so far.
  abbrev pub percentage : Floats F → GatePolicy F → ReleaseStage → Option F
  percentage fl p canary_low_risk = some p.low_risk_canary_percent
  percentage fl p canary_expanded = some p.expanded_canary_percent
  percentage fl p production = some (of_int fl (pos 1))
  percentage fl p _ = none

-- `IdentityStableRouter`
pub record Router (F : Type 0) : Type 0 where
  pub baseline_model_id : String
  pub candidate_model_id : String
  pub policy : GatePolicy F
  pub salt : String

module _ {F : Type 0} (fl : Floats F) (bucket : String → ℕ) where
  -- The text `salt|robot|shift|task`. `bucket` reads the first eight bytes of its digest as a number.
  abbrev pub identity : Router F → String → String → String → String
  identity r robot shift task =
      concat r.salt (concat "|" (concat robot (concat "|" (concat shift (concat "|" task)))))

  abbrev pub route : Router F → ReleaseStage → ℕ → Option F → RouteDecision
  route r stage b none = record {
    selected_model_id = r.baseline_model_id;
    stage = stage;
    reason = "unknown_release_stage";
  }
  route r stage b (some share) =
      if fl.less (fl.ratio (pos b) (2 ^ 64)) share
      then record {
        selected_model_id = r.candidate_model_id;
        stage = stage;
        reason = "identity_in_canary_cohort";
      }
      else record {
        selected_model_id = r.baseline_model_id;
        stage = stage;
        reason = "identity_outside_canary_cohort";
      }

  -- `choose`
  unfoldable pub choose : Router F → ReleaseStage → String → String → String → RouteDecision
  choose r stage robot shift task =
      if has_no_authority stage
      then record {
        selected_model_id = r.baseline_model_id;
        stage = stage;
        reason = "candidate_has_no_control_authority";
      }
      else if not (contains r.policy.allowed_low_risk_tasks task)
      then record {
        selected_model_id = r.baseline_model_id;
        stage = stage;
        reason = "task_not_in_canary_allowlist";
      }
      else route r stage (bucket (identity r robot shift task)) (percentage fl r.policy stage)
