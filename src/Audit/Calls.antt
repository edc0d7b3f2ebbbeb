-- ===== src/Audit/Calls.antt =====
-- The calls of the ledger as values, their runs, and what one of them can do to it: nothing, one more
-- identity, one more event in its place, with or without its evidence, or one more anchor of the head.
use acvjepa_project.Prelude.Int.{ℤ, int_eq}
use acvjepa_project.Prelude.Json.{Fields}
use acvjepa_project.Prelude.Dict.{lookup, insert}
use acvjepa_project.Prelude.{
  string_eq, nat_eq, last, ok, String, ◌≡◌, Bool, true, none, some, List, [], ◌∷◌, ◌++◌,
}
use acvjepa_project.Audit.Types.{PrivateKey, Crypto, EvidenceManifest, evidence_root, canonical}
use acvjepa_project.Audit.{
  Identity, Evidence, EventRow, AnchorRow, AuditLedger, enroll_identity, next_sequence, head_hash,
  append_event, register_evidence, Checks, attest_validation, submit_review, anchor_message,
  create_anchor,
}
use acvjepa_project.Audit.Integrity.{role_allows, has_root, signed_by, row_hash, is_anchor_role}

-- The calls that change the ledger, each with its arguments and the time.
pub data Op : Type 0 where
  enroll : String → String → String → Op
  register : EvidenceManifest → String → PrivateKey → ℤ → Op
  append : String → String → Fields → String → PrivateKey → ℤ → Op
  attest : String → String → PrivateKey → String → String → Checks → ℤ → Op
  review : String → String → PrivateKey → String → String → String → Bool → ℤ → Op
  anchor : String → PrivateKey → ℤ → Op

unfoldable pub step : Crypto → Op → AuditLedger → AuditLedger
step c (enroll id role key) s = (enroll_identity c id role key s).1
step c (register m id key now) s = (register_evidence c m id key now s).1
step c (append case_id event_type payload id key now) s =
    (append_event c case_id event_type payload id key now s).1
step c (attest case_id id key version report checks now) s =
    (attest_validation c case_id id key version report checks now s).1
step c (review case_id id key patch decision rationale confirms now) s =
    (submit_review c case_id id key patch decision rationale confirms now s).1
step c (anchor id key now) s = (create_anchor c id key now s).1

unfoldable pub run : Crypto → List Op → AuditLedger → AuditLedger
run c [] s = s
run c (o ∷ os) s = run c os (step c o s)

-- Ed25519: a signature is verified by the public key of the key that made it.
abbrev pub IsSound : Crypto → Type 0
IsSound c =
    (k : PrivateKey) (m : String) → c.verify_signature (c.public_key_b64 k) m (c.sign k m) ≡ true

-- A new event at the end of the chain.
pub record IsNext (c : Crypto) (s : AuditLedger) (r : EventRow) : Type 0 where
  pub in_order : r.sequence ≡ next_sequence (last s.events)
  pub linked : r.previous_event_hash ≡ head_hash (last s.events)
  pub allowed : role_allows r.event_type (lookup r.signer_id s.identities) ≡ true
  pub hashed : row_hash c r ≡ r.event_hash
  pub signed :
      signed_by c (c.from_hex r.event_hash) r.signature (lookup r.signer_id s.identities) ≡ true

pub record IsAnchored (c : Crypto) (s : AuditLedger) (a : AnchorRow) : Type 0 where
  pub row : EventRow
  pub at_head : last s.events ≡ some row
  pub same_sequence : a.sequence ≡ row.sequence
  pub same_hash : a.event_hash ≡ row.event_hash
  pub by_anchor : is_anchor_role (lookup a.signer_id s.identities) ≡ true
  pub signed :
      signed_by c
        (anchor_message c a.sequence a.event_hash a.created_ns)
        a.signature
        (lookup a.signer_id s.identities)
      ≡ true

abbrev pub with_event : EventRow → AuditLedger → AuditLedger
with_event r s = record s { events = s.events ++ r ∷ [] }

abbrev pub with_evidence : String → Evidence → AuditLedger → AuditLedger
with_evidence k e s = record s { evidence = insert k e s.evidence }

pub data Change (c : Crypto) (s s' : AuditLedger) : Type 0 where
  stays : s' ≡ s → Change c s s'
  enrolled :
      (k : String) (i : Identity)
      → lookup k s.identities ≡ none
      → s' ≡ record s { identities = insert k i s.identities }
      → Change c s s'
  appended :
      (r : EventRow)
      → IsNext c s r
      → has_root r.root (lookup r.case_id s.evidence) ≡ true
      → s' ≡ with_event r s
      → Change c s s'
  registered :
      (m : EvidenceManifest) (e : Evidence) (r : EventRow)
      → lookup m.case_id s.evidence ≡ none
      → evidence_root c m ≡ ok e.root
      → e.manifest ≡ canonical m
      → IsNext c s r
      → r.case_id ≡ m.case_id
      → r.root ≡ e.root
      → s' ≡ with_event r (with_evidence m.case_id e s)
      → Change c s s'
  anchored :
      (a : AnchorRow)
      → IsAnchored c s a
      → s' ≡ record s { anchors = s.anchors ++ a ∷ [] }
      → Change c s s'
