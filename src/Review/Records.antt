-- ===== src/Review/Records.antt =====
-- The evidence and the patches of hitl_quarantine_review.py. A value of a physics prior is a whole
-- number of some unit (the source has a float); it is only stored and encoded.
use acvjepa_project.Prelude.Int.{ℤ, int_eq}
use acvjepa_project.Prelude.Json.{Json, str, int, obj, Fields, end, field}
use acvjepa_project.Prelude.Dict.{Dict}
use acvjepa_project.Prelude.{string_eq, nat_eq, ◌==◌, String, Bool, ◌&&◌, [], ◌∷◌}

pub record QuarantinedCase : Type 0 where
  pub case_id : String
  pub episode_commit_uri : String
  pub evidence_sha256 : String
  pub reason : String
  pub risk_level : String
  pub object_class : String
  pub task_template : String

pub record CorrectionPatch : Type 0 where
  pub case_id : String
  pub reviewer_id : String
  pub action : String
  pub corrected_events : Dict String ℤ
  pub physics_prior_patch : Dict String ℤ
  pub simulation_focus : Dict String String
  pub rationale : String

-- Equality of the encodings with sorted keys, field by field.
abbrev pub case_beq : QuarantinedCase → QuarantinedCase → Bool
case_beq a b =
    a.case_id == b.case_id
    && a.episode_commit_uri == b.episode_commit_uri
    && a.evidence_sha256 == b.evidence_sha256
    && a.reason == b.reason
    && a.risk_level == b.risk_level
    && a.object_class == b.object_class
    && a.task_template == b.task_template

abbrev pub numbers_json : Dict String ℤ → Fields
numbers_json [] = end
numbers_json ((k, v) ∷ d) = field k (int v) (numbers_json d)

abbrev pub texts_json : Dict String String → Fields
texts_json [] = end
texts_json ((k, v) ∷ d) = field k (str v) (texts_json d)

-- `asdict` of a patch
abbrev pub patch_json : CorrectionPatch → Json
patch_json p = obj (
    field "case_id" (str p.case_id) (
      field "reviewer_id" (str p.reviewer_id) (
        field "action" (str p.action) (
          field "corrected_events" (obj (numbers_json p.corrected_events)) (
            field "physics_prior_patch" (obj (numbers_json p.physics_prior_patch)) (
              field "simulation_focus" (obj (texts_json p.simulation_focus))
                (field "rationale" (str p.rationale) end)))))))
