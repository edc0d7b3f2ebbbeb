-- ===== src/Audit.antt =====
-- multimodal_hitl_tamper_evident_ledger.py: the tables of MultimodalAuditLedger and its methods. The
-- columns with JSON text hold the values which it encodes; what is hashed is encoded again. The events
-- and the anchors stand in the order of their keys. The times of enrolling and registering are written
-- and never read, and are left out.
pub mod Types
pub mod Integrity
pub mod Chain
pub mod Calls
pub mod Steps
pub mod History
pub mod Verified
pub mod Eligibility
pub mod Merkle
pub mod Unordered
pub mod Intact
pub mod Contents
pub mod Tamper
mod Tests
use acvjepa_project.Prelude.Int.{ℤ, pos, int_eq}
use acvjepa_project.Prelude.Json.{Json, str, int, bool, obj, Fields, end, field}
use acvjepa_project.Prelude.Text.{code_points, is_sha256_hex, string_leb}
use acvjepa_project.Prelude.Dict.{Dict, lookup, insert}
use acvjepa_project.Prelude.{
  if◌then◌else◌, string_eq, nat_eq, ◌==◌, length, is_empty, all, any, sort_by, last, contains, ok,
  err, Exec, pure, gets, lift, or_raise, transaction, ◌>>=◌, ◌>>◌, raise_if, modify, ℕ, ◌+◌, String,
  Bool, true, false, not, ◌&&◌, ◌||◌, Option, none, some, List, [], ◌∷◌, ◌++◌,
}
use acvjepa_project.Audit.Types.{
  AuditError, invalid_digest, unknown_role, invalid_key, identity_collision, evidence_collision,
  attestation_incomplete, validation_failed, decision_unknown, evidence_missing, not_enrolled,
  role_forbidden, key_mismatch, not_anchor, empty_chain, constraint_failed, PrivateKey, Crypto,
  content_hash, genesis_hash, schema_version, EvidenceManifest, validate_multimodal_contract,
  evidence_root, canonical, manifest_json,
}

pub record Identity : Type 0 where
  pub role : String
  pub public_key : String

pub record Evidence : Type 0 where
  pub manifest : EvidenceManifest
  pub root : String

pub record EventRow : Type 0 where
  pub sequence : ℕ
  pub case_id : String
  pub event_type : String
  pub payload : Fields
  pub root : String
  pub signer_id : String
  pub created_ns : ℤ
  pub previous_event_hash : String
  pub event_hash : String
  pub signature : String

pub record AnchorRow : Type 0 where
  pub sequence : ℕ
  pub event_hash : String
  pub signer_id : String
  pub created_ns : ℤ
  pub signature : String

pub record AuditLedger : Type 0 where
  pub identities : Dict String Identity
  pub evidence : Dict String Evidence
  pub events : List EventRow
  pub anchors : List AnchorRow

abbrev pub empty_ledger : AuditLedger
empty_ledger = record { identities = []; evidence = []; events = []; anchors = [] }

abbrev pub Action : Type 0 → Type 0
Action = Exec AuditError AuditLedger

-- `ROLE_ALLOWED_EVENTS[role]`
abbrev pub allowed_events : String → Option (List String)
allowed_events role =
    if role == "capture_gateway"
    then some ("EVIDENCE_REGISTERED" ∷ [])
    else if role == "validator"
    then some ("VALIDATION_ATTESTED" ∷ [])
    else if role == "reviewer"
    then some ("REVIEW_SUBMITTED" ∷ "REVIEW_CONFIRMED" ∷ "REVIEW_REJECTED" ∷ [])
    else if role == "anchor"
    then some []
    else none

abbrev pub is_some : {A : Type 0} → Option A → Bool
is_some none = false
is_some (some a) = true

-- `event_type in ROLE_ALLOWED_EVENTS[role]`; the look-up raises for an unknown role, which is no role of
-- an enrolled identity.
abbrev pub listed : String → Option (List String) → Bool
listed event_type none = false
listed event_type (some types) = contains types event_type

abbrev pub may_append : String → String → Bool
may_append role event_type = listed event_type (allowed_events role)

abbrev pub enroll_or_check : String → String → String → Option Identity → Action (Unit {0})
enroll_or_check id role key none s = (
  ok tt,
  record s { identities = insert id (record { role = role; public_key = key }) s.identities },
)
enroll_or_check id role key (some old) s =
    (if old.role == role && old.public_key == key then ok tt else err identity_collision, s)

unfoldable pub enroll_identity : Crypto → String → String → String → Action (Unit {0})
enroll_identity c id role key = do
  raise_if (not (is_some (allowed_events role))) unknown_role
  raise_if (not (c.valid_key key)) invalid_key
  old ← gets (λ s. lookup id s.identities)
  enroll_or_check id role key old

abbrev pub next_sequence : Option EventRow → ℕ
next_sequence none = 1
next_sequence (some r) = r.sequence + 1

abbrev pub head_hash : Option EventRow → String
head_hash none = genesis_hash
head_hash (some r) = r.event_hash

-- The dictionary `unsigned` of an event.
abbrev pub unsigned_json :
    Crypto → ℕ → String → String → Fields → String → String → ℤ → String → Json
unsigned_json c sequence case_id event_type payload root signer_id created previous = obj (
    field "schema_version" (str schema_version) (
      field "sequence" (int (pos sequence)) (
        field "case_id" (str case_id) (
          field "event_type" (str event_type) (
            field "payload_json" (str (c.values.dumps (obj payload))) (
              field "evidence_root" (str root) (
                field "signer_id" (str signer_id) (
                  field "created_ns" (int created)
                    (field "previous_event_hash" (str previous) end)))))))))

abbrev pub has_hash : String → EventRow → Bool
has_hash hash r = r.event_hash == hash

-- `_append_event_in_tx`, with the time.
unfoldable pub append_event_in_tx :
    Crypto → String → String → Fields → String → String → PrivateKey → ℤ → Action String
append_event_in_tx c case_id event_type payload root signer_id key now = do
  identity ← or_raise (← gets (λ s. lookup signer_id s.identities)) not_enrolled
  raise_if (not (may_append identity.role event_type)) role_forbidden
  raise_if (not (identity.public_key == c.public_key_b64 key)) key_mismatch
  latest ← gets (λ s. last s.events)
  let sequence = next_sequence latest
  let previous = head_hash latest
  let hash =
      content_hash c
        (unsigned_json c sequence case_id event_type payload root signer_id now previous)
  taken ← gets (λ s. any (has_hash hash) s.events)
  raise_if taken constraint_failed
  let row : EventRow = record {
    sequence = sequence;
    case_id = case_id;
    event_type = event_type;
    payload = payload;
    root = root;
    signer_id = signer_id;
    created_ns = now;
    previous_event_hash = previous;
    event_hash = hash;
    signature = c.sign key (c.from_hex hash);
  }
  modify (λ s. record s { events = s.events ++ row ∷ [] })
  pure hash

-- `append_event`
unfoldable pub append_event :
    Crypto → String → String → Fields → String → PrivateKey → ℤ → Action String
append_event c case_id event_type payload signer_id key now = transaction (do
  evidence ← or_raise (← gets (λ s. lookup case_id s.evidence)) evidence_missing
  append_event_in_tx c case_id event_type payload evidence.root signer_id key now)

abbrev pub store_or_check : Crypto → EvidenceManifest → String → Option Evidence → Action (Unit {0})
store_or_check c m root none s = (
  ok tt,
  record s {
    evidence = insert m.case_id (record { manifest = canonical m; root = root }) s.evidence;
  },
)
store_or_check c m root (some old) s = (
  if c.values.dumps (manifest_json old.manifest) == c.values.dumps (manifest_json (canonical m))
        && old.root == root
      then ok tt
      else err evidence_collision,
  s,
)

-- `register_evidence`
unfoldable pub register_evidence :
    Crypto → EvidenceManifest → String → PrivateKey → ℤ → Action String
register_evidence c m signer_id key now = do
  lift (validate_multimodal_contract m)
  root ← lift (evidence_root c m)
  transaction (do
    old ← gets (λ s. lookup m.case_id s.evidence)
    store_or_check c m root old
    append_event_in_tx c m.case_id "EVIDENCE_REGISTERED"
        (field "manifest_sha256" (str (content_hash c (manifest_json (canonical m)))) end) root
        signer_id key now)

abbrev pub Checks : Type 0
Checks = List (String × Bool)

abbrev pub checks_json : Checks → Fields
checks_json [] = end
checks_json ((name, passed) ∷ l) = field name (bool passed) (checks_json l)

abbrev pub passes : String × Bool → Bool
passes (name, passed) = passed

abbrev pub below_name : String × Bool → String × Bool → Bool
below_name (a, p) (b, q) = string_leb a b

-- `attest_validation`
unfoldable pub attest_validation :
    Crypto → String → String → PrivateKey → String → String → Checks → ℤ → Action String
attest_validation c case_id signer_id key version report checks now = do
  raise_if (version == "" || not (length (code_points report) == 64)) attestation_incomplete
  raise_if (is_empty checks || not (all passes checks)) validation_failed
  append_event c case_id "VALIDATION_ATTESTED"
      (field "validator_version" (str version) (
        field "report_sha256" (str report)
          (field "checks" (obj (checks_json (sort_by below_name checks))) end)))
      signer_id key now

-- `submit_review`, where `confirms` tells a confirmation of an existing review.
unfoldable pub submit_review :
    Crypto → String → String → PrivateKey → String → String → String → Bool → ℤ → Action String
submit_review c case_id signer_id key patch decision rationale confirms now = do
  raise_if (not (contains ("approve_for_data" ∷ "reject" ∷ "escalate" ∷ []) decision))
      decision_unknown
  raise_if (not (is_sha256_hex patch && is_sha256_hex rationale)) invalid_digest
  append_event c case_id (if confirms then "REVIEW_CONFIRMED" else "REVIEW_SUBMITTED")
      (field "patch_sha256" (str patch)
        (field "decision" (str decision) (field "rationale_sha256" (str rationale) end)))
      signer_id key now

-- The message that an anchor signs.
abbrev pub anchor_message : Crypto → ℕ → String → ℤ → String
anchor_message c sequence hash created = c.values.dumps (
    obj (
      field "schema_version" (str schema_version) (
        field "sequence" (int (pos sequence))
          (field "event_hash" (str hash) (field "created_ns" (int created) end)))))

abbrev pub is_same_anchor : ℕ → String → String → AnchorRow → Bool
is_same_anchor sequence hash signer_id r =
    r.sequence == sequence && r.event_hash == hash && r.signer_id == signer_id

-- `identity is None or identity["role"] != "anchor"`, negated.
abbrev pub is_anchor : Identity → Bool
is_anchor i = i.role == "anchor"

-- `create_anchor`, which returns the row's fields but for the signer.
unfoldable pub create_anchor : Crypto → String → PrivateKey → ℤ → Action AnchorRow
create_anchor c signer_id key now = transaction (do
  identity ← or_raise (← gets (λ s. lookup signer_id s.identities)) not_anchor
  raise_if (not (is_anchor identity)) not_anchor
  raise_if (not (identity.public_key == c.public_key_b64 key)) key_mismatch
  latest ← or_raise (← gets (λ s. last s.events)) empty_chain
  let row : AnchorRow = record {
    sequence = latest.sequence;
    event_hash = latest.event_hash;
    signer_id = signer_id;
    created_ns = now;
    signature = c.sign key (anchor_message c latest.sequence latest.event_hash now);
  }
  taken ← gets (λ s. any (is_same_anchor row.sequence row.event_hash signer_id) s.anchors)
  raise_if taken constraint_failed
  modify (λ s. record s { anchors = s.anchors ++ row ∷ [] })
  pure row)
