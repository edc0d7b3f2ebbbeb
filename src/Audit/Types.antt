-- ===== src/Audit/Types.antt =====
-- multimodal_hitl_tamper_evident_ledger.py: evidence artifacts and manifests, their contract, the Merkle
-- root, and what the code takes from hashlib, json, cryptography and the file system.
use acvjepa_project.Prelude.Int.{ℤ, pos, ◌+ℤ◌, ltb_ℤ, leb_ℤ, max_ℤ, int_eq}
use acvjepa_project.Prelude.Json.{Json, str, int, arr, obj, Items, nil, cons, end, field}
use acvjepa_project.Prelude.Text.{is_sha256_hex, concat, string_leb}
use acvjepa_project.Prelude.Hashing.{Hashing, digest_of}
use acvjepa_project.Prelude.{
  if◌then◌else◌, string_eq, nat_eq, ◌==◌, length, is_empty, all, sort_by, contains, set_size,
  Result, ok, err, check, ℕ, zero, suc, String, Bool, not, ◌||◌, Option, none, some, List, [], ◌∷◌,
  map,
}

-- The exceptions of the module, one for each message; `constraint_failed` is SQLite's refusal of a row
-- that a UNIQUE column has already, and `no_interval` Python's of the maximum of nothing.
pub data AuditError : Type 0 where
  no_leaves leaf_not_hex unfinished_root artifact_incomplete invalid_digest invalid_extent :
      AuditError
  manifest_incomplete versions_missing modality_mismatch no_interval no_overlap : AuditError
  unknown_role invalid_key identity_collision evidence_collision : AuditError
  attestation_incomplete validation_failed decision_unknown : AuditError
  evidence_missing not_enrolled role_forbidden key_mismatch : AuditError
  not_anchor empty_chain constraint_failed : AuditError
  evidence_altered chain_broken signer_unauthorized root_unbound event_altered : AuditError
  anchor_invalid unknown_case unreadable artifact_changed : AuditError

abbrev pub PrivateKey : Type 0
PrivateKey = String

-- Bytes are texts here. Ed25519 keys and signatures are in Base64, as in the source.
pub record Crypto : Type 0 where
  pub values : Hashing
  -- whether `bytes.fromhex` accepts a text, and what it gives for one that it accepts; `bytes.hex` and
  -- `hashlib.sha256(data).digest()`
  pub valid_hex : String → Bool
  pub from_hex : String → String
  pub to_hex : String → String
  pub digest : String → String
  -- whether `Ed25519PublicKey.from_public_bytes` accepts the decoded key
  pub valid_key : String → Bool
  -- `Ed25519Signer.public_key_b64`, `Ed25519Signer.sign` and `_verify_signature`
  pub public_key_b64 : PrivateKey → String
  pub sign : PrivateKey → String → String
  pub verify_signature : String → String → String → Bool

-- `sha256_bytes(canonical_bytes(value))`
abbrev pub content_hash : Crypto → Json → String
content_hash c j = digest_of c.values j

abbrev pub genesis_hash : String
genesis_hash = "0000000000000000000000000000000000000000000000000000000000000000"

abbrev pub schema_version : String
schema_version = "multimodal-hitl-ledger-v1"

abbrev pub required_modalities : List String
required_modalities =
    "rgbd_video" ∷ "pointcloud" ∷ "robot_proprio" ∷ "executed_actions" ∷ "contact_events"
    ∷ "calibration" ∷ []

-- One round of the loop: nodes are hashed in pairs, an odd last one with itself.
abbrev pub hash_pairs : (String → String) → List String → List String
hash_pairs digest [] = []
hash_pairs digest (a ∷ []) = digest (concat a a) ∷ []
hash_pairs digest (a ∷ b ∷ l) = digest (concat a b) ∷ hash_pairs digest l

-- `while len(nodes) > 1`, for at most so many rounds.
abbrev pub merkle_rounds : (String → String) → ℕ → List String → Option String
merkle_rounds digest n [] = none
merkle_rounds digest n (a ∷ []) = some a
merkle_rounds digest zero (a ∷ b ∷ l) = none
merkle_rounds digest (suc n) (a ∷ b ∷ l) = merkle_rounds digest n (hash_pairs digest (a ∷ b ∷ l))

abbrev pub hex_root : Crypto → Option String → Result AuditError String
hex_root c none = err unfinished_root
hex_root c (some root) = ok (c.to_hex root)

-- `merkle_root`. The loop has as many rounds as there are leaves.
unfoldable pub merkle_root : Crypto → List String → Result AuditError String
merkle_root c leaves =
    if is_empty leaves
    then err no_leaves
    else if not (all c.valid_hex leaves)
    then err leaf_not_hex
    else hex_root c
        (merkle_rounds c.digest (length leaves) (map c.from_hex (sort_by string_leb leaves)))

pub record EvidenceArtifact : Type 0 where
  pub modality : String
  pub uri : String
  pub content_sha256 : String
  pub byte_length : ℤ
  pub start_ns : ℤ
  pub end_ns : ℤ
  pub schema_version : String
  pub producer_id : String

-- `asdict(artifact)`
abbrev pub artifact_json : EvidenceArtifact → Json
artifact_json a = obj (
    field "modality" (str a.modality) (
      field "uri" (str a.uri) (
        field "content_sha256" (str a.content_sha256) (
          field "byte_length" (int a.byte_length) (
            field "start_ns" (int a.start_ns) (
              field "end_ns" (int a.end_ns) (
                field "schema_version" (str a.schema_version)
                  (field "producer_id" (str a.producer_id) end))))))))

-- `leaf_hash`
unfoldable pub leaf_hash : Crypto → EvidenceArtifact → String
leaf_hash c a = content_hash c (artifact_json a)

-- `EvidenceArtifact.validate`
unfoldable pub validate_artifact : EvidenceArtifact → Result AuditError (Unit {0})
validate_artifact a =
    if a.modality == "" || a.uri == "" || a.producer_id == "" || a.schema_version == ""
    then err artifact_incomplete
    else if not (is_sha256_hex a.content_sha256)
    then err invalid_digest
    else check (not (ltb_ℤ a.byte_length (pos 0) || ltb_ℤ a.end_ns a.start_ns)) invalid_extent

abbrev pub validate_artifacts : List EvidenceArtifact → Result AuditError (Unit {0})
validate_artifacts [] = ok tt
validate_artifacts (a ∷ l) =
    let rest = validate_artifacts l in elim (validate_artifact a) [ ok _ ↦ rest | err e ↦ err e ]

pub record EvidenceManifest : Type 0 where
  pub case_id : String
  pub episode_commit_uri : String
  pub capture_session_id : String
  pub action_schema_version : String
  pub preprocess_version : String
  pub artifacts : List EvidenceArtifact

abbrev pub modalities : List EvidenceArtifact → List String
modalities [] = []
modalities (a ∷ l) = a.modality ∷ modalities l

abbrev pub timed : List EvidenceArtifact → List EvidenceArtifact
timed [] = []
timed (a ∷ l) = let rest = timed l in if a.modality == "calibration" then rest else a ∷ rest

-- `max(artifact.start_ns …)` and `min(artifact.end_ns …)`
abbrev pub latest_start : ℤ → List EvidenceArtifact → ℤ
latest_start t [] = t
latest_start t (a ∷ l) = latest_start (max_ℤ t a.start_ns) l

abbrev pub earliest_end : ℤ → List EvidenceArtifact → ℤ
earliest_end t [] = t
earliest_end t (a ∷ l) = earliest_end (if leb_ℤ t a.end_ns then t else a.end_ns) l

abbrev pub check_overlap : ℤ → List EvidenceArtifact → Result AuditError (Unit {0})
check_overlap tolerance [] = err no_interval
check_overlap tolerance (a ∷ l) =
    check (leb_ℤ (latest_start a.start_ns l) (earliest_end a.end_ns l +ℤ tolerance)) no_overlap

abbrev pub tolerance_ns : ℤ
tolerance_ns = pos 1000000000

-- `validate_multimodal_contract`, with the default tolerance.
unfoldable pub validate_multimodal_contract : EvidenceManifest → Result AuditError (Unit {0})
validate_multimodal_contract m =
    let seen = modalities m.artifacts in
    if m.case_id == "" || m.capture_session_id == "" || m.episode_commit_uri == ""
    then err manifest_incomplete
    else if m.action_schema_version == "" || m.preprocess_version == ""
    then err versions_missing
    else if not (all (contains seen) required_modalities)
        || not (set_size seen == length m.artifacts)
    then err modality_mismatch
    else elim (validate_artifacts m.artifacts) [
      | err e ↦ err e
      | ok _ ↦ check_overlap tolerance_ns (timed m.artifacts)
    ]

abbrev pub leaf_hashes : Crypto → List EvidenceArtifact → List String
leaf_hashes c [] = []
leaf_hashes c (a ∷ l) = leaf_hash c a ∷ leaf_hashes c l

-- `evidence_root`
unfoldable pub evidence_root : Crypto → EvidenceManifest → Result AuditError String
evidence_root c m = elim (validate_multimodal_contract m) [
  | err e ↦ err e
  | ok _ ↦ merkle_root c (leaf_hashes c m.artifacts)
]

abbrev pub below_modality : EvidenceArtifact → EvidenceArtifact → Bool
below_modality a b = string_leb a.modality b.modality

-- The manifest as `canonical_payload` stores it: with its artifacts sorted by modality.
abbrev pub canonical : EvidenceManifest → EvidenceManifest
canonical m = record m { artifacts = sort_by below_modality m.artifacts }

abbrev pub artifacts_json : List EvidenceArtifact → Items
artifacts_json [] = nil
artifacts_json (a ∷ l) = cons (artifact_json a) (artifacts_json l)

-- `canonical_payload`, of a manifest that is already sorted.
unfoldable pub manifest_json : EvidenceManifest → Json
manifest_json m = obj (
    field "schema_version" (str schema_version) (
      field "case_id" (str m.case_id) (
        field "episode_commit_uri" (str m.episode_commit_uri) (
          field "capture_session_id" (str m.capture_session_id) (
            field "action_schema_version" (str m.action_schema_version) (
              field "preprocess_version" (str m.preprocess_version)
                (field "artifacts" (arr (artifacts_json m.artifacts)) end)))))))
