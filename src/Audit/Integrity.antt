-- ===== src/Audit/Integrity.antt =====
-- The readers of MultimodalAuditLedger: eligible_patch_for_data, verify_integrity with its three
-- loops, and the check of local artifacts with the manifest that is built from them.
use acvjepa_project.Prelude.Int.{ℤ, pos, int_eq}
use acvjepa_project.Prelude.Json.{Json, str, Fields, end, field}
use acvjepa_project.Prelude.Dict.{Dict, lookup}
use acvjepa_project.Prelude.Table.{select_one}
use acvjepa_project.Prelude.{
  leb, if◌then◌else◌, string_eq, nat_eq, ◌==◌, length, any, contains, set_size, Result, ok, err,
  check, ℕ, ◌+◌, String, Bool, false, not, ◌&&◌, ◌||◌, Option, none, some, List, [], ◌∷◌,
}
use acvjepa_project.Audit.Types.{
  AuditError, evidence_altered, chain_broken, signer_unauthorized, root_unbound, event_altered,
  anchor_invalid, unknown_case, unreadable, artifact_changed, Crypto, content_hash, genesis_hash,
  EvidenceArtifact, evidence_root,
}
use acvjepa_project.Audit.{
  Identity, Evidence, EventRow, AnchorRow, AuditLedger, may_append, unsigned_json, anchor_message,
  is_anchor,
}
use acvjepa_project.Cursor.Storage.{strip_drive_slash}

-- `payload.get(key)`
abbrev pub get : String → Fields → Option Json
get key end = none
get key (field k v fs) = if k == key then some v else get key fs

abbrev pub is_text : String → Option Json → Bool
is_text t (some (str s)) = s == t
is_text t _ = false

abbrev pub is_attestation : String → EventRow → Bool
is_attestation case_id r = r.case_id == case_id && r.event_type == "VALIDATION_ATTESTED"

-- A review of the case that approves the patch.
abbrev pub is_approval : String → String → EventRow → Bool
is_approval case_id patch r =
    r.case_id == case_id
    && contains ("REVIEW_SUBMITTED" ∷ "REVIEW_CONFIRMED" ∷ []) r.event_type
    && is_text patch (get "patch_sha256" r.payload)
    && is_text "approve_for_data" (get "decision" r.payload)

abbrev pub approvers : String → String → List EventRow → List String
approvers case_id patch [] = []
approvers case_id patch (r ∷ rs) =
    let rest = approvers case_id patch rs in
    if is_approval case_id patch r then r.signer_id ∷ rest else rest

-- `eligible_patch_for_data`
unfoldable pub eligible_patch_for_data : String → String → AuditLedger → Bool
eligible_patch_for_data case_id patch s =
    any (is_attestation case_id) s.events && leb 2 (set_size (approvers case_id patch s.events))

abbrev pub check_root : String → Result AuditError String → Result AuditError (Unit {0})
check_root root (err e) = err e
check_root root (ok computed) = check (computed == root) evidence_altered

-- The loop of verify_integrity over the evidence.
abbrev pub verify_evidence : Crypto → Dict String Evidence → Result AuditError (Unit {0})
verify_evidence c [] = ok tt
verify_evidence c ((case_id, row) ∷ rest) =
    let later = verify_evidence c rest in
    if not (row.manifest.case_id == case_id)
    then err evidence_altered
    else elim (check_root row.root (evidence_root c row.manifest)) [ err e ↦ err e | ok _ ↦ later ]

abbrev pub role_allows : String → Option Identity → Bool
role_allows event_type none = false
role_allows event_type (some i) = may_append i.role event_type

abbrev pub has_root : String → Option Evidence → Bool
has_root root none = false
has_root root (some e) = e.root == root

abbrev pub signed_by : Crypto → String → String → Option Identity → Bool
signed_by c message signature none = false
signed_by c message signature (some i) = c.verify_signature i.public_key message signature

-- What is hashed of a stored event.
abbrev pub row_hash : Crypto → EventRow → String
row_hash c r = content_hash c (
    unsigned_json c r.sequence r.case_id r.event_type r.payload r.root r.signer_id r.created_ns
      r.previous_event_hash)

-- The body of the loop over the events.
abbrev pub verify_event :
    Crypto → AuditLedger → ℕ → String → EventRow → Result AuditError (Unit {0})
verify_event c s expected previous r =
    let identity = lookup r.signer_id s.identities in
    if not (r.sequence == expected) || not (r.previous_event_hash == previous)
    then err chain_broken
    else if not (role_allows r.event_type identity)
    then err signer_unauthorized
    else if not (has_root r.root (lookup r.case_id s.evidence))
    then err root_unbound
    else check
        (row_hash c r == r.event_hash
          && signed_by c (c.from_hex (row_hash c r)) r.signature identity)
        event_altered

abbrev pub verify_events :
    Crypto → AuditLedger → ℕ → String → List EventRow → Result AuditError (Unit {0})
verify_events c s expected previous [] = ok tt
verify_events c s expected previous (r ∷ rs) =
    let later = verify_events c s (expected + 1) r.event_hash rs in
    elim (verify_event c s expected previous r) [ err e ↦ err e | ok _ ↦ later ]

abbrev pub is_at : ℕ → EventRow → Bool
is_at sequence r = r.sequence == sequence

abbrev pub is_anchor_role : Option Identity → Bool
is_anchor_role none = false
is_anchor_role (some i) = is_anchor i

abbrev pub has_event_hash : String → Option EventRow → Bool
has_event_hash hash none = false
has_event_hash hash (some r) = r.event_hash == hash

abbrev pub verify_anchor : Crypto → AuditLedger → AnchorRow → Result AuditError (Unit {0})
verify_anchor c s r =
    let identity = lookup r.signer_id s.identities in
    check
      (is_anchor_role identity
        && has_event_hash r.event_hash (select_one (is_at r.sequence) s.events)
        && signed_by c (anchor_message c r.sequence r.event_hash r.created_ns) r.signature identity)
      anchor_invalid

abbrev pub verify_anchors : Crypto → AuditLedger → List AnchorRow → Result AuditError (Unit {0})
verify_anchors c s [] = ok tt
verify_anchors c s (r ∷ rs) =
    let later = verify_anchors c s rs in elim (verify_anchor c s r) [ err e ↦ err e | ok _ ↦ later ]

pub record Counts : Type 0 where
  pub events : ℕ
  pub evidence_cases : ℕ
  pub anchors : ℕ

-- `verify_integrity`
unfoldable pub verify_integrity : Crypto → AuditLedger → Result AuditError Counts
verify_integrity c s = elim (verify_evidence c s.evidence) [
  | err e ↦ err e
  | ok _ ↦ elim (verify_events c s 1 genesis_hash s.events) [
    | err e ↦ err e
    | ok _ ↦ elim (verify_anchors c s s.anchors) [
      | err e ↦ err e
      | ok _ ↦ ok (record {
        events = length s.events;
        evidence_cases = length s.evidence;
        anchors = length s.anchors;
      })
    ]
  ]
]

-- What `pathlib`, `urllib` and the disk answer.
pub record Disk : Type 0 where
  pub windows : Bool
  -- `urlparse(uri).scheme` and `unquote(urlparse(uri).path)`
  pub scheme : String → String
  pub uri_path : String → String
  -- `path.resolve().as_uri()`
  pub as_uri : String → String
  -- the digest and the length of a file's bytes, or none where it cannot be read
  pub read : String → Option (String × ℕ)

abbrev pub check_file : EvidenceArtifact → Option (String × ℕ) → Result AuditError (Unit {0})
check_file a none = err unreadable
check_file a (some (digest, size)) =
    check (digest == a.content_sha256 && pos size == a.byte_length) artifact_changed

abbrev pub file_path : Disk → EvidenceArtifact → String
file_path d a = if d.windows then strip_drive_slash (d.uri_path a.uri) else d.uri_path a.uri

abbrev pub verify_artifacts : Disk → List EvidenceArtifact → Result AuditError ℕ
verify_artifacts d [] = ok 0
verify_artifacts d (a ∷ l) =
    let rest = verify_artifacts d l in
    if not (d.scheme a.uri == "file") then rest else elim (check_file a (d.read (file_path d a))) [
      | err e ↦ err e
      | ok _ ↦ elim rest [ err e ↦ err e | ok n ↦ ok (n + 1) ]
    ]

abbrev pub verify_case : Disk → Option Evidence → Result AuditError ℕ
verify_case d none = err unknown_case
verify_case d (some row) = verify_artifacts d row.manifest.artifacts

-- `verify_local_artifacts`
unfoldable pub verify_local_artifacts : Disk → String → AuditLedger → Result AuditError ℕ
verify_local_artifacts d case_id s = verify_case d (lookup case_id s.evidence)

abbrev pub artifact_of :
    Disk
    → ℤ
    → ℤ
    → String
    → String
    → String × String
    → Option (String × ℕ)
    → Result AuditError EvidenceArtifact
artifact_of d start finish producer schema (modality, path) none = err unreadable
artifact_of d start finish producer schema (modality, path) (some (digest, size)) = ok (record {
  modality = modality;
  uri = d.as_uri path;
  content_sha256 = digest;
  byte_length = pos size;
  start_ns = start;
  end_ns = finish;
  schema_version = schema;
  producer_id = producer;
})

abbrev pub artifacts_of :
    Disk
    → ℤ
    → ℤ
    → String
    → String
    → List (String × String)
    → Result AuditError (List EvidenceArtifact)
artifacts_of d start finish producer schema [] = ok []
artifacts_of d start finish producer schema (p ∷ ps) =
    let rest = artifacts_of d start finish producer schema ps in
    elim (artifact_of d start finish producer schema p (d.read p.1)) [
      | err e ↦ err e
      | ok a ↦ elim rest [ err e ↦ err e | ok l ↦ ok (a ∷ l) ]
    ]
