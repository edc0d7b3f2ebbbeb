-- ===== src/Canary/Evidence.antt =====
-- What a candidate with authority rests on: an authorized report of the gate itself.
use acvjepa_project.Canary.Schedule.{
  Op, enter, measure, observe, act, Console, note, step, run, console,
}
use acvjepa_project.Prelude.Int.{ℤ, pos, ◌≤ℤ◌, ltb_ℤ}
use acvjepa_project.Prelude.Float.{Floats}
use acvjepa_project.Prelude.Table.{count}
use acvjepa_project.Prelude.{
  Bool-cases, Option-cases, some_inj, length, get_elem?, Result, ok, err, ok_inj, ℕ, zero, suc,
  String, ◌≡◌, refl, sym, ap, ◌∙◌, ◌≢◌, ◌⊎◌, inl, inr, Bool, true, false, Option, some, List, [],
  ◌∷◌, ◌++◌, arith,
}
use acvjepa_project.Canary.Types.{
  ReleaseStage, candidate, shadow, promote, GateError, GatePolicy, GateReport, Gate,
}
use acvjepa_project.Canary.Kept.{IsKept, run-IsKept}
use acvjepa_project.Canary.Authority.{
  IsStopped, enter_shadow-stage, record_outcome-stage, act_on-stage, choose-baseline,
}
use acvjepa_project.Canary.{
  required_records, is_invalid, is_hold_miss, is_hard_event, rate, create, exceeds, regresses,
  decide, report_of, p99, report_from, evaluate, next_stage, has_no_authority, act_on, apply,
  Router, choose,
}

-- The records of a gate that pass every automatic condition, with the two latencies that were compared.
pub record IsFit {F : Type 0} (fl : Floats F) (g : Gate F) : Type 0 where
  pub candidate_p99 : Option F
  pub baseline_p99 : Option F
  pub candidate_at : p99 fl (λ r. r.candidate) g ≡ ok candidate_p99
  pub baseline_at : p99 fl (λ r. r.baseline) g ≡ ok baseline_p99
  pub few_hard_events : pos (count is_hard_event g.records) ≤ℤ g.policy.max_hard_safety_events
  pub few_invalid :
      fl.less g.policy.max_invalid_rate (rate fl (count is_invalid g.records) (length g.records))
      ≡ false
  pub few_misses :
      fl.less g.policy.max_hold_miss_rate
        (rate fl (count is_hold_miss g.records) (length g.records))
      ≡ false
  pub in_time : exceeds fl candidate_p99 g.policy.max_candidate_p99_ms ≡ false
  pub no_regression :
      regresses fl candidate_p99 baseline_p99 g.policy.max_latency_regression_ratio ≡ false
  pub enough : required_records g.policy g.stage ≤ℤ pos (length g.records)

module _ {F : Type 0} (fl : Floats F) where
  -- The two latencies of a report that was made.
  report_from-ok :
      (g : Gate F) (a b : Result GateError (Option F)) (r : GateReport F)
      → report_from fl g a b ≡ ok r
      → (x : Option F) × (y : Option F) × (a ≡ ok x) × (b ≡ ok y) × (report_of fl g x y ≡ r)
  report_from-ok g (err e) b r h = absurd (ground arith)
  report_from-ok g (ok x) (err e) r h = absurd (ground arith)
  report_from-ok g (ok x) (ok y) r h = (x, y, refl, refl, ok_inj h)

  promote-IsFit :
      (g : Gate F) (r : GateReport F) → evaluate fl g ≡ ok r → r.decision ≡ promote → IsFit fl g
  unfolding evaluate
  promote-IsFit g r e d =
      let (a, b, at_a, at_b, same) = report_from-ok g _ _ r e in
      let it : (decide fl g a b).0 ≡ promote = ap (λ (x : GateReport F). x.decision) same ∙ d in
      record {
        candidate_p99 = a;
        baseline_p99 = b;
        candidate_at = at_a;
        baseline_at = at_b;
        few_hard_events = ground arith;
        few_invalid = ground arith;
        few_misses = ground arith;
        in_time = ground arith;
        no_regression = ground arith;
        enough = ground arith;
      }

  -- The report was made by evaluating the gate after a first part of the calls.
  pub record IsMade (os : List (Op F)) (c : Console F) (r : GateReport F) : Type 0 where
    pub before : List (Op F)
    pub rest : List (Op F)
    pub at : os ≡ before ++ measure ∷ rest
    pub made : evaluate fl (run fl before c).gate ≡ ok r

  get-note :
      (e : Result GateError (GateReport F)) (rs : List (GateReport F)) (k : ℕ) (r : GateReport F)
      → get_elem? (note e rs) k ≡ some r
      → (get_elem? rs k ≡ some r) ⊎ (e ≡ ok r)
  get-note (err e) rs k r h = inl h
  get-note (ok x) [] zero r h = inr (ap (λ (y : GateReport F). ok y) (some_inj h))
  get-note (ok x) [] (suc k) r h = absurd (ground arith)
  get-note (ok x) (y ∷ rs) zero r h = inl h
  get-note (ok x) (y ∷ rs) (suc k) r h = get-note (ok x) rs k r h

  step-reports :
      (o : Op F) (c : Console F) (k : ℕ) (r : GateReport F)
      → get_elem? (step fl o c).reports k ≡ some r
      → (get_elem? c.reports k ≡ some r) ⊎ ((o ≡ measure) × (evaluate fl c.gate ≡ ok r))
  unfolding step
  step-reports enter c k r h = inl h
  step-reports (observe x) c k r h = inl h
  step-reports (act i a) c k r h = inl h
  step-reports measure c k r h = elim (get-note (evaluate fl c.gate) c.reports k r h) [
    | inl e ↦ inl e
    | inr e ↦ inr (refl, e)
  ]

  run-reports :
      (os : List (Op F)) (c : Console F) (k : ℕ) (r : GateReport F)
      → get_elem? (run fl os c).reports k ≡ some r
      → (get_elem? c.reports k ≡ some r) ⊎ IsMade os c r
  unfolding run
  run-reports [] c k r h = inl h
  run-reports (o ∷ os) c k r h = elim (run-reports os (step fl o c) k r h) [
    | inr m ↦ inr (record {
      before = o ∷ m.before;
      rest = m.rest;
      at = ap (λ (l : List (Op F)). o ∷ l) m.at;
      made = m.made;
    })
    | inl e ↦ elim (step-reports o c k r e) [
      | inl e' ↦ inl e'
      | inr (is, made) ↦
          inr (record { before = []; rest = os; at = ap (λ (x : Op F). x ∷ os) is; made = made })
    ]
  ]

  -- A first part of the calls left the gate in SHADOW with a promoting report, which the next call
  -- applied with authorization.
  pub record IsPromoted (os : List (Op F)) (c : Console F) : Type 0 where
    pub before : List (Op F)
    pub rest : List (Op F)
    pub number : ℕ
    pub report : GateReport F
    pub at : os ≡ before ++ act number true ∷ rest
    pub in_shadow : (run fl before c).gate.stage ≡ shadow
    pub applied : get_elem? (run fl before c).reports number ≡ some report
    pub promotes : report.decision ≡ promote

  into_authority :
      (s t : ReleaseStage) → some t ≡ next_stage s → (has_no_authority s ≡ false) ⊎ (s ≡ shadow)
  into_authority s t e = ground arith

  no_authority : (s : ReleaseStage) → IsStopped s → has_no_authority s ≡ true
  no_authority s (inl e) = rw e refl
  no_authority s (inr e) = rw e refl

  -- The only step into authority.
  step-authority :
      (o : Op F) (c : Console F)
      → has_no_authority (step fl o c).gate.stage ≡ false
      → (has_no_authority c.gate.stage ≡ false)
        ⊎ ((k : ℕ) × (r : GateReport F) × (o ≡ act k true)
            × (c.gate.stage ≡ shadow)
            × (get_elem? c.reports k ≡ some r)
            × (r.decision ≡ promote))
  unfolding step apply
  step-authority enter c h = elim (enter_shadow-stage fl c.gate) [
    | inl e ↦ inl (rw e at h)
    | inr (e, f) ↦ absurd (ground arith)
  ]
  step-authority measure c h = inl h
  step-authority (observe r) c h = inl (rw (record_outcome-stage fl r c.gate) at h)
  step-authority (act k authorized) c h = elim (Option-cases (get_elem? c.reports k)) [
    | inl e ↦ inl (rw e at h)
    | inr (r, e) ↦
        let now = act_on-stage fl r.decision authorized c.gate in
        let after : has_no_authority (act_on r.decision authorized c.gate).1.stage ≡ false =
          rw e at h in
        elim now [
          | inl same ↦ inl (rw same at after)
          | inr (inl stopped) ↦ let no_more = no_authority _ stopped in absurd (ground arith)
          | inr (inr (d, a, next)) ↦ elim (into_authority c.gate.stage _ next) [
            | inl had ↦ inl had
            | inr in_shadow ↦ inr (k, r, ap (λ (x : Bool). act k x) a, in_shadow, e, d)
          ]
        ]
  ]

  run-authority :
      (os : List (Op F)) (c : Console F)
      → has_no_authority (run fl os c).gate.stage ≡ false
      → (has_no_authority c.gate.stage ≡ false) ⊎ IsPromoted os c
  unfolding run
  run-authority [] c h = inl h
  run-authority (o ∷ os) c h = elim (run-authority os (step fl o c) h) [
    | inr p ↦ inr (record {
      before = o ∷ p.before;
      rest = p.rest;
      number = p.number;
      report = p.report;
      at = ap (λ (l : List (Op F)). o ∷ l) p.at;
      in_shadow = p.in_shadow;
      applied = p.applied;
      promotes = p.promotes;
    })
    | inl had ↦ elim (step-authority o c had) [
      | inl e ↦ inl e
      | inr (k, r, is, in_shadow, e, d) ↦ inr (record {
        before = [];
        rest = os;
        number = k;
        report = r;
        at = ap (λ (x : Op F). x ∷ os) is;
        in_shadow = in_shadow;
        applied = e;
        promotes = d;
      })
    ]
  ]

created :
    {F : Type 0} (fl : Floats F) (baseline candidate_id : String) (policy : GatePolicy F) (n : ℤ)
    (g : Gate F)
    → create fl baseline candidate_id policy n ≡ ok g
    → (g.stage ≡ candidate) × (g.records ≡ [])
unfolding create
created {F} fl baseline candidate_id policy n g e = elim (Bool-cases (ltb_ℤ n (pos 0))) [
  | inl bad ↦ absurd (ground arith)
  | inr good ↦
      let same = ok_inj (rw good at e) in
      (ap (λ (x : Gate F). x.stage) (sym same), ap (λ (x : Gate F). x.records) (sym same))
]

-- What a candidate in use rests on: the gate was in SHADOW when an authorized call applied one of its
-- own reports, and that report was made by an evaluation at which the records passed every automatic
-- condition. The gate then had the names and policy of its creation, and its records paired its two models.
pub record HasEvidence {F : Type 0} (fl : Floats F) (os : List (Op F)) (g : Gate F) : Type 0 where
  pub promotion : IsPromoted fl os (console g)
  pub evaluation : IsMade fl promotion.before (console g) promotion.report
  pub fit : IsFit fl (run fl evaluation.before (console g)).gate
  pub kept : IsKept g (run fl evaluation.before (console g)).gate

-- If the router gives the candidate to any robot after any calls of a new gate, then an authorized call
-- applied, in SHADOW, a report that the gate had made from records that passed every automatic
-- condition of the policy: hard safety events, invalid outputs, missed holds, the two latencies, and
-- the number of records that the stage of the evaluation asks for.
pub candidate_in_use-HasEvidence :
    {F : Type 0} (fl : Floats F) (bucket : String → ℕ) (router : Router F)
    (baseline candidate_id : String) (policy : GatePolicy F) (n : ℤ) (g : Gate F) (os : List (Op F))
    (robot shift task : String)
    → create fl baseline candidate_id policy n ≡ ok g
    → (choose fl bucket router
        (run fl os (console g)).gate.stage
        robot
        shift
        task).selected_model_id
      ≢ router.baseline_model_id
    → HasEvidence fl os g
candidate_in_use-HasEvidence fl bucket router baseline candidate_id policy n g os robot shift task
      made used =
    let (fresh, none_yet) = created fl baseline candidate_id policy n g made in
    let c = console g in
    elim (Bool-cases (has_no_authority (run fl os c).gate.stage)) [
      | inl e ↦
          absurd
            (used (choose-baseline fl bucket router (run fl os c).gate.stage robot shift task e))
      | inr e ↦ elim (run-authority fl os c e) [
        | inl had ↦
            let no_more : has_no_authority g.stage ≡ true = rw fresh refl in absurd (ground arith)
        | inr p ↦ elim (run-reports fl p.before c p.number p.report p.applied) [
          | inl h ↦ absurd (ground arith)
          | inr m ↦
              let start : IsKept g g = record {
                same_baseline = refl;
                same_candidate = refl;
                same_policy = refl;
                paired = rw none_yet tt;
              } in
              record {
                promotion = p;
                evaluation = m;
                fit = promote-IsFit fl (run fl m.before c).gate p.report m.made p.promotes;
                kept = run-IsKept g fl m.before c start;
              }
        ]
      ]
    ]
