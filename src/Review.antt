-- ===== src/Review.antt =====
-- hitl_quarantine_review.py: the two-reviewer ledger of quarantined cases. The table `cases` is a
-- list of rows that hold the values which the source stores as JSON text; the two texts that are
-- hashed are encoded again. The time of the last change is written and never read, and is left out.
pub mod Records
pub mod Steps
pub mod Approval
mod Tests
use acvjepa_project.Prelude.Int.{int_eq}
use acvjepa_project.Prelude.Text.{is_blank, concat}
use acvjepa_project.Prelude.Table.{select_one, update}
use acvjepa_project.Prelude.Hashing.{Hashing}
use acvjepa_project.Prelude.{
  if◌then◌else◌, string_eq, nat_eq, ◌==◌, ok, err, Exec, pure, gets, or_raise, transaction, ◌>>=◌,
  ◌>>◌, raise_if, modify, String, Bool, true, false, not, ◌||◌, Option, none, some, List, [], ◌∷◌,
  ◌++◌,
}
use acvjepa_project.Review.Records.{QuarantinedCase, CorrectionPatch, case_beq, patch_json}

pub data ReviewStatus : Type 0 where
  pending claimed needs_second_review approved_for_data rejected escalated : ReviewStatus

-- A row of `cases`.
pub record CaseRow : Type 0 where
  pub payload : QuarantinedCase
  pub status : ReviewStatus
  pub first_reviewer : Option String
  pub first_patch : Option CorrectionPatch
  pub second_reviewer : Option String
  pub second_patch : Option CorrectionPatch

-- The exceptions of the ledger, one for each message. `missing_patch` is the `TypeError` of reading
-- back a review that was never written.
pub data ReviewError : Type 0 where
  evidence_collision unknown_case not_reviewable rationale_required : ReviewError
  not_awaiting_second not_independent not_approved missing_patch : ReviewError

abbrev pub Cases : Type 0
Cases = List CaseRow

abbrev pub Action : Type 0 → Type 0
Action = Exec ReviewError Cases

abbrev pub has_id : String → CaseRow → Bool
has_id id r = r.payload.case_id == id

abbrev pub case_of : String → Cases → Option CaseRow
case_of id rows = select_one (has_id id) rows

abbrev pub new_row : QuarantinedCase → CaseRow
new_row c = record {
  payload = c;
  status = pending;
  first_reviewer = none;
  first_patch = none;
  second_reviewer = none;
  second_patch = none;
}

abbrev pub insert_or_check : QuarantinedCase → Option CaseRow → Action (Unit {0})
insert_or_check c none rows = (ok tt, rows ++ new_row c ∷ [])
insert_or_check c (some old) rows =
    (if case_beq old.payload c then ok tt else err evidence_collision, rows)

unfoldable pub register : QuarantinedCase → Action (Unit {0})
register c = transaction (do old ← gets (case_of c.case_id); insert_or_check c old)

abbrev pub is_reviewable : ReviewStatus → Bool
is_reviewable pending = true
is_reviewable claimed = true
is_reviewable _ = false

-- `case["reason"] in {"hardware_fault", "sensor_contract_violation"}`
abbrev pub is_safety_issue : QuarantinedCase → Bool
is_safety_issue c = c.reason == "hardware_fault" || c.reason == "sensor_contract_violation"

abbrev pub first_verdict : QuarantinedCase → ReviewStatus
first_verdict c = if is_safety_issue c then escalated else needs_second_review

unfoldable pub submit_first_review : CorrectionPatch → Action ReviewStatus
submit_first_review p = do
  row ← or_raise (← gets (case_of p.case_id)) unknown_case
  raise_if (not (is_reviewable row.status)) not_reviewable
  raise_if (is_blank p.rationale) rationale_required
  let status = first_verdict row.payload
  modify (
      update (has_id p.case_id) (λ r. record r {
        status = status;
        first_reviewer = some p.reviewer_id;
        first_patch = some p;
      }))
  pure status

abbrev pub awaits_second : ReviewStatus → Bool
awaits_second needs_second_review = true
awaits_second _ = false

abbrev pub is_approved : ReviewStatus → Bool
is_approved approved_for_data = true
is_approved _ = false

-- `patch.reviewer_id == row["first_reviewer"]`
abbrev pub is_reviewer : String → Option String → Bool
is_reviewer id none = false
is_reviewer id (some first) = id == first

unfoldable pub submit_second_review : CorrectionPatch → Bool → Action ReviewStatus
submit_second_review p approve = do
  row ← or_raise (← gets (case_of p.case_id)) not_awaiting_second
  raise_if (not (awaits_second row.status)) not_awaiting_second
  raise_if (is_reviewer p.reviewer_id row.first_reviewer) not_independent
  let status = if approve then approved_for_data else rejected
  modify (
      update (has_id p.case_id) (λ r. record r {
        status = status;
        second_reviewer = some p.reviewer_id;
        second_patch = some p;
      }))
  pure status

-- The dictionary that `approved_data_patch` returns.
pub record DataPatch : Type 0 where
  pub patch_version : String
  pub case_id : String
  pub source_evidence : QuarantinedCase
  pub first_review : CorrectionPatch
  pub second_review : CorrectionPatch
  pub review_hash : String
  pub allowed_downstream : List String
  pub forbidden_downstream : List String

unfoldable pub approved_data_patch : Hashing → String → Action DataPatch
approved_data_patch h id = do
  row ← or_raise (← gets (case_of id)) not_approved
  raise_if (not (is_approved row.status)) not_approved
  first ← or_raise row.first_patch missing_patch
  second ← or_raise row.second_patch missing_patch
  pure (record {
    patch_version = "hitl-soft-grasp-v1";
    case_id = id;
    source_evidence = row.payload;
    first_review = first;
    second_review = second;
    review_hash = h.sha256 (concat (h.dumps (patch_json first)) (h.dumps (patch_json second)));
    allowed_downstream = "simjob_compiler" ∷ "curated_dataset_manifest" ∷ [];
    forbidden_downstream =
        "robot_control" ∷ "safety_threshold_change" ∷ "direct_production_deploy" ∷ [];
  })

-- The calls that change the table.
pub data Op : Type 0 where
  add : QuarantinedCase → Op
  first : CorrectionPatch → Op
  second : CorrectionPatch → Bool → Op

unfoldable pub step : Op → Cases → Cases
step (add c) rows = (register c rows).1
step (first p) rows = (submit_first_review p rows).1
step (second p approve) rows = (submit_second_review p approve rows).1

unfoldable pub run : List Op → Cases → Cases
run [] rows = rows
run (o ∷ os) rows = run os (step o rows)
