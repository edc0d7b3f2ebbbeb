-- ===== src/Review/Tests.antt =====
-- A case that two reviewers approve, one that is escalated, and each theorem at them.
use acvjepa_project.Prelude.Int.{pos}
use acvjepa_project.Prelude.Text.{is_blank}
use acvjepa_project.Prelude.Hashing.{transparent}
use acvjepa_project.Prelude.{ok, err, String, ◌≡◌, refl, ◌≢◌, ◌⊎◌, true, some, List, [], ◌∷◌, ◌++◌}
use acvjepa_project.Review.{
  needs_second_review, approved_for_data, escalated, CaseRow, evidence_collision, not_independent,
  not_approved, case_of, new_row, register, submit_first_review, submit_second_review, DataPatch,
  approved_data_patch, Op, add, first, second, step, run,
}
use acvjepa_project.Review.Steps.{first_reviewed, second_reviewed}
use acvjepa_project.Review.Records.{QuarantinedCase, CorrectionPatch}
use acvjepa_project.Review.Approval.{
  HasBothReviews, approved-HasBothReviews, patch_iff_approved, run-IsFinal,
}

abbrev soft_case : QuarantinedCase
soft_case = record {
  case_id = "case-001";
  episode_commit_uri = "file://episode-commit";
  evidence_sha256 = "evidence-hash";
  reason = "soft_physics_gap";
  risk_level = "high";
  object_class = "cloth";
  task_template = "reposition";
}

abbrev faulty_case : QuarantinedCase
faulty_case = record soft_case { case_id = "case-002"; reason = "hardware_fault" }

abbrev patch_by : String → String → CorrectionPatch
patch_by id reviewer = record {
  case_id = id;
  reviewer_id = reviewer;
  action = "confirm";
  corrected_events = ("slip_onset", pos 7) ∷ [];
  physics_prior_patch = [];
  simulation_focus = [];
  rationale = "Contact onset was late.";
}

abbrev opened : List Op
opened = add soft_case ∷ add faulty_case ∷ first (patch_by "case-001" "reviewer-a") ∷ []

abbrev reviews : List Op
reviews =
    first (patch_by "case-002" "reviewer-a")
    ∷ second (patch_by "case-001" "reviewer-a") true
    ∷ second (patch_by "case-001" "reviewer-b") true
    ∷ []

abbrev approved_row : CaseRow
approved_row =
    second_reviewed (patch_by "case-001" "reviewer-b") true
      (first_reviewed (patch_by "case-001" "reviewer-a") needs_second_review (new_row soft_case))

abbrev escalated_row : CaseRow
escalated_row = first_reviewed (patch_by "case-002" "reviewer-a") escalated (new_row faulty_case)

ends_approved : run (opened ++ reviews) [] ≡ approved_row ∷ escalated_row ∷ []
unfolding run step register submit_first_review submit_second_review is_blank
ends_approved = refl

same_reviewer_refused :
    (submit_second_review (patch_by "case-001" "reviewer-a") true (run opened [])).0
    ≡ err not_independent
unfolding run step register submit_first_review submit_second_review is_blank
same_reviewer_refused = refl

other_evidence_refused :
    (register (record soft_case { evidence_sha256 = "other" }) (run opened [])).0
    ≡ err evidence_collision
unfolding run step register submit_first_review is_blank
other_evidence_refused = refl

approved-HasBothReviews_example : HasBothReviews approved_row
unfolding run step register submit_first_review submit_second_review is_blank
approved-HasBothReviews_example =
    approved-HasBothReviews (opened ++ reviews) "case-001" approved_row refl refl

patch_iff_approved_example :
    ((d : DataPatch) × (r : CaseRow) × (case_of "case-001" (run (opened ++ reviews) []) ≡ some r)
      × (r.status ≡ approved_for_data)
      × (approved_data_patch transparent "case-001" (run (opened ++ reviews) [])
          ≡ (ok d, run (opened ++ reviews) []))
      × (d.source_evidence ≡ r.payload)
      × (d.second_review.reviewer_id ≢ d.first_review.reviewer_id))
    ⊎ (((r : CaseRow)
          → case_of "case-001" (run (opened ++ reviews) []) ≡ some r
          → r.status ≢ approved_for_data)
        × (approved_data_patch transparent "case-001" (run (opened ++ reviews) [])
            ≡ (err not_approved, run (opened ++ reviews) [])))
patch_iff_approved_example = patch_iff_approved transparent (opened ++ reviews) "case-001"

run-IsFinal_example :
    case_of "case-002" (run reviews (approved_row ∷ escalated_row ∷ [])) ≡ some escalated_row
run-IsFinal_example =
    run-IsFinal reviews (approved_row ∷ escalated_row ∷ []) "case-002" escalated_row refl refl refl
