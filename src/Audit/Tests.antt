-- ===== src/Audit/Tests.antt =====
-- A case with its evidence, an attestation, two reviews and an anchor, and each theorem at them.
use acvjepa_project.Audit.Chain.{Grows}
use acvjepa_project.Audit.Intact.{run-intact}
use acvjepa_project.Audit.Verified.{run-Grows, run-verified}
use acvjepa_project.Audit.Eligibility.{Attests, Approves, eligible-HasApprovals}
use acvjepa_project.Audit.Contents.{HaveNoCollision, AvoidGenesis}
use acvjepa_project.Audit.Tamper.{facts, head_hash-binds}
use acvjepa_project.Audit.Merkle.{IsTree, nodes_of, merkle_root-total}
use acvjepa_project.Prelude.Int.{pos, ◌+ℤ◌, int_eq}
use acvjepa_project.Prelude.Hashing.{transparent}
use acvjepa_project.Prelude.Text.{code_points, is_hex_digit, is_sha256_hex, concat}
use acvjepa_project.Prelude.Dict.{beq_refl}
use acvjepa_project.Prelude.{
  string_eq, nat_eq, ◌==◌, length, all, last, ok, err, ◌<◌, String, ◌≡◌, refl, ◌≢◌, ◌⊎◌, true,
  false, not, List, [], ◌∷◌, ◌++◌, map, arith, eq_iff,
}
use acvjepa_project.Audit.Types.{
  no_leaves, leaf_not_hex, Crypto, genesis_hash, required_modalities, merkle_root, EvidenceArtifact,
  leaf_hash, validate_artifact, EvidenceManifest, validate_multimodal_contract, evidence_root,
  manifest_json,
}
use acvjepa_project.Audit.{
  EventRow, empty_ledger, enroll_identity, head_hash, append_event_in_tx, append_event,
  register_evidence, attest_validation, submit_review, create_anchor,
}
use acvjepa_project.Audit.Integrity.{eligible_patch_for_data, Counts, verify_integrity}
use acvjepa_project.Audit.Calls.{Op, enroll, register, attest, review, anchor, step, run, IsSound}

-- A signature is the key before the message.
abbrev crypto : Crypto
crypto = record {
  values = transparent;
  valid_hex = λ x. not (x == "z");
  from_hex = λ x. x;
  to_hex = λ x. x;
  digest = λ x. x;
  valid_key = λ k. true;
  public_key_b64 = λ k. k;
  sign = λ k m. concat k m;
  verify_signature = λ p m x. x == concat p m;
}

sound : IsSound crypto
sound k m = beq_refl (concat k m)

abbrev sha : String
sha = "0123456789abcdef0123456789abcdef0123456789abcdef0123456789abcdef"

abbrev artifact : String → EvidenceArtifact
artifact modality = record {
  modality = modality;
  uri = "u";
  content_sha256 = sha;
  byte_length = pos 1;
  start_ns = pos 1;
  end_ns = pos 2;
  schema_version = "v";
  producer_id = "p";
}

abbrev manifest : EvidenceManifest
manifest = record {
  case_id = "case";
  episode_commit_uri = "e";
  capture_session_id = "s";
  action_schema_version = "a";
  preprocess_version = "p";
  artifacts = map artifact required_modalities;
}

abbrev calls : List Op
calls =
    enroll "capture-1" "capture_gateway" "c"
    ∷ enroll "validator-1" "validator" "v"
    ∷ enroll "reviewer-a" "reviewer" "a"
    ∷ enroll "reviewer-b" "reviewer" "b"
    ∷ enroll "anchor-1" "anchor" "n"
    ∷ register manifest "capture-1" "c" (pos 1)
    ∷ attest "case" "validator-1" "v" "1" sha (("sync", true) ∷ []) (pos 2)
    ∷ review "case" "reviewer-a" "a" sha "approve_for_data" sha false (pos 3)
    ∷ review "case" "reviewer-b" "b" sha "approve_for_data" sha true (pos 4)
    ∷ anchor "anchor-1" "n" (pos 5)
    ∷ []

abbrev counts : Counts
counts = record { events = 4; evidence_cases = 1; anchors = 1 }

test_integrity : verify_integrity crypto (run crypto calls empty_ledger) ≡ ok counts
unfolding verify_integrity run step enroll_identity register_evidence attest_validation
    submit_review append_event append_event_in_tx create_anchor validate_multimodal_contract
    validate_artifact evidence_root merkle_root leaf_hash manifest_json is_sha256_hex is_hex_digit
    code_points transparent ◌+ℤ◌
test_integrity = refl

eligible_now : eligible_patch_for_data "case" sha (run crypto calls empty_ledger) ≡ true
unfolding eligible_patch_for_data run step enroll_identity register_evidence attest_validation
    submit_review append_event append_event_in_tx create_anchor validate_multimodal_contract
    validate_artifact evidence_root merkle_root leaf_hash manifest_json is_sha256_hex is_hex_digit
    code_points transparent ◌+ℤ◌
eligible_now = refl

run-intact_example :
    verify_integrity crypto (run crypto calls empty_ledger)
    ≡ ok (record {
      events = length (run crypto calls empty_ledger).events;
      evidence_cases = length (run crypto calls empty_ledger).evidence;
      anchors = length (run crypto calls empty_ledger).anchors;
    })
run-intact_example = run-intact crypto calls sound

eligible-HasApprovals_example :
    ((v : EventRow) × Attests crypto (run crypto calls empty_ledger) "case" v)
    × ((a : EventRow) × (b : EventRow) × (a.signer_id ≢ b.signer_id)
        × Approves crypto (run crypto calls empty_ledger) "case" sha a
        × Approves crypto (run crypto calls empty_ledger) "case" sha b)
eligible-HasApprovals_example = eligible-HasApprovals crypto calls "case" sha sound eligible_now

run-Grows_example :
    (tail : List EventRow) × ((run crypto calls empty_ledger).events ≡ [] ++ tail)
    × Grows empty_ledger (run crypto calls empty_ledger)
run-Grows_example = run-Grows crypto sound calls empty_ledger

abbrev leaves : List String
leaves = "c" ∷ "a" ∷ "b" ∷ []

merkle_root-total_example :
    ((leaves ≡ []) × (merkle_root crypto leaves ≡ err no_leaves))
    ⊎ (((0 < length leaves)
          × (all crypto.valid_hex leaves ≡ false)
          × (merkle_root crypto leaves ≡ err leaf_not_hex))
        ⊎ ((0 < length leaves)
            × (all crypto.valid_hex leaves ≡ true)
            × ((root : String) × IsTree crypto.digest (nodes_of crypto leaves) root
                × (merkle_root crypto leaves ≡ ok (crypto.to_hex root)))))
merkle_root-total_example = merkle_root-total crypto leaves

-- A ledger with one event, and the same ledger with an anchor of it.
abbrev first_calls : List Op
first_calls =
    enroll "capture-1" "capture_gateway" "c" ∷ register manifest "capture-1" "c" (pos 1) ∷ []

abbrev more_calls : List Op
more_calls = first_calls ++ enroll "anchor-1" "anchor" "n" ∷ anchor "anchor-1" "n" (pos 5) ∷ []

same_head :
    head_hash (last (run crypto first_calls empty_ledger).events)
    ≡ head_hash (last (run crypto more_calls empty_ledger).events)
unfolding run step enroll_identity register_evidence append_event_in_tx create_anchor
    validate_multimodal_contract validate_artifact evidence_root merkle_root leaf_hash manifest_json
    is_sha256_hex is_hex_digit code_points transparent ◌+ℤ◌
same_head = refl

differs_from_genesis : (x : String) → (x == genesis_hash) ≡ false → x ≢ genesis_hash
differs_from_genesis x differ e = ground (arith, eq_iff x genesis_hash)

first_avoids : AvoidGenesis crypto (run crypto first_calls empty_ledger).events
unfolding run step enroll_identity register_evidence append_event_in_tx create_anchor
    validate_multimodal_contract validate_artifact evidence_root merkle_root leaf_hash manifest_json
    is_sha256_hex is_hex_digit code_points transparent ◌+ℤ◌
first_avoids = (differs_from_genesis _ refl, tt)

more_avoids : AvoidGenesis crypto (run crypto more_calls empty_ledger).events
unfolding run step enroll_identity register_evidence append_event_in_tx create_anchor
    validate_multimodal_contract validate_artifact evidence_root merkle_root leaf_hash manifest_json
    is_sha256_hex is_hex_digit code_points transparent ◌+ℤ◌
more_avoids = (differs_from_genesis _ refl, tt)

no_collision :
    HaveNoCollision crypto
      (run crypto first_calls empty_ledger).events
      (run crypto more_calls empty_ledger).events
unfolding run step enroll_identity register_evidence append_event_in_tx create_anchor
    validate_multimodal_contract validate_artifact evidence_root merkle_root leaf_hash manifest_json
    is_sha256_hex is_hex_digit code_points transparent ◌+ℤ◌
no_collision = ((λ e. refl, tt), tt)

head_hash-binds_example :
    map (facts crypto) (run crypto first_calls empty_ledger).events
    ≡ map (facts crypto) (run crypto more_calls empty_ledger).events
head_hash-binds_example =
    head_hash-binds crypto (run crypto first_calls empty_ledger)
      (run crypto more_calls empty_ledger) (run-verified crypto first_calls sound).0
      (run-verified crypto more_calls sound).0 same_head first_avoids more_avoids no_collision
