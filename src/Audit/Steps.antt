-- ===== src/Audit/Steps.antt =====
-- Each call of the ledger makes one of the changes of Audit/Calls.
use acvjepa_project.Prelude.Int.{ℤ, int_eq}
use acvjepa_project.Prelude.Json.{str, Fields, end, field}
use acvjepa_project.Prelude.Text.{code_points, is_sha256_hex}
use acvjepa_project.Prelude.Dict.{lookup, beq_refl}
use acvjepa_project.Prelude.{
  if◌then◌else◌, Bool-cases, Option-cases, string_eq, nat_eq, ◌==◌, length, is_empty, all, any,
  last, contains, ok, err, Result-cases, String, ◌≡◌, refl, ◌⊎◌, inl, inr, Bool, true, not, ◌&&◌,
  ◌||◌, [], ◌∷◌, arith, eq_iff,
}
use acvjepa_project.Audit.Types.{
  AuditError, not_enrolled, role_forbidden, key_mismatch, constraint_failed, PrivateKey, Crypto,
  content_hash, EvidenceManifest, validate_multimodal_contract, evidence_root, canonical,
  manifest_json,
}
use acvjepa_project.Audit.{
  Evidence, EventRow, AnchorRow, AuditLedger, allowed_events, is_some, may_append, enroll_identity,
  next_sequence, head_hash, unsigned_json, has_hash, append_event_in_tx, append_event,
  register_evidence, Checks, passes, attest_validation, submit_review, anchor_message,
  is_same_anchor, is_anchor, create_anchor,
}
use acvjepa_project.Audit.Calls.{
  Op, enroll, register, append, attest, review, anchor, step, IsSound, IsNext, with_event,
  with_evidence, Change, stays, enrolled, appended, registered, anchored,
}

-- The row that an append writes.
abbrev event_of :
    Crypto → String → String → Fields → String → String → PrivateKey → ℤ → AuditLedger → EventRow
event_of c case_id event_type payload root signer_id key now s =
    let hash = content_hash c (
      unsigned_json c (next_sequence (last s.events)) case_id event_type payload root signer_id now
        (head_hash (last s.events))) in
    record {
      sequence = next_sequence (last s.events);
      case_id = case_id;
      event_type = event_type;
      payload = payload;
      root = root;
      signer_id = signer_id;
      created_ns = now;
      previous_event_hash = head_hash (last s.events);
      event_hash = hash;
      signature = c.sign key (c.from_hex hash);
    }

module _ (c : Crypto) (sound : IsSound c) (case_id event_type : String) (payload : Fields)
    (root signer_id : String) (key : PrivateKey) (now : ℤ) (s : AuditLedger) where
  append-cases :
      ((e : AuditError) × (append_event_in_tx c case_id event_type payload root signer_id key now s
          ≡ (err e, s)))
      ⊎ (IsNext c s (event_of c case_id event_type payload root signer_id key now s)
          × (append_event_in_tx c case_id event_type payload root signer_id key now s ≡ (
            ok (event_of c case_id event_type payload root signer_id key now s).event_hash,
            with_event (event_of c case_id event_type payload root signer_id key now s) s,
          )))
  unfolding append_event_in_tx
  append-cases =
      let r = event_of c case_id event_type payload root signer_id key now s in
      elim (Option-cases (lookup signer_id s.identities)) [
        | inl missing ↦ inl (not_enrolled, rw missing refl)
        | inr (i, found) ↦ elim (Bool-cases (may_append i.role event_type)) [
          | inr forbidden ↦ inl (role_forbidden, rw (found, forbidden) refl)
          | inl allowed ↦ elim (Bool-cases (i.public_key == c.public_key_b64 key)) [
            | inr other ↦ inl (key_mismatch, rw (found, allowed, other) refl)
            | inl mine ↦ elim (Bool-cases (any (has_hash r.event_hash) s.events)) [
              | inl taken ↦ inl (constraint_failed, rw (found, allowed, mine, taken) refl)
              | inr free ↦ inr (
                record {
                  in_order = refl;
                  linked = refl;
                  allowed = rw found allowed;
                  hashed = refl;
                  signed =
                      rw (found, (eq_iff i.public_key (c.public_key_b64 key)).0 mine)
                        (sound key (c.from_hex r.event_hash));
                },
                rw (found, allowed, mine, free) refl,
              )
            ]
          ]
        ]
      ]

module _ (c : Crypto) (sound : IsSound c) where
  append_event-Change :
      (case_id event_type : String) (payload : Fields) (id : String) (key : PrivateKey) (now : ℤ)
      (s : AuditLedger)
      → Change c s (append_event c case_id event_type payload id key now s).1
  unfolding append_event
  append_event-Change case_id event_type payload id key now s =
      elim (Option-cases (lookup case_id s.evidence)) [
        | inl missing ↦ stays (ground arith)
        | inr (e, found) ↦
            elim (append-cases c sound case_id event_type payload e.root id key now s) [
              | inl (x, failed) ↦ stays (ground arith)
              | inr (next, done) ↦
                  appended (event_of c case_id event_type payload e.root id key now s) next
                    (rw found (beq_refl e.root)) (ground arith)
            ]
      ]

  create_anchor-Change :
      (id : String) (key : PrivateKey) (now : ℤ) (s : AuditLedger)
      → Change c s (create_anchor c id key now s).1
  unfolding create_anchor
  create_anchor-Change id key now s = elim (Option-cases (lookup id s.identities)) [
    | inl missing ↦ stays (ground arith)
    | inr (i, found) ↦ elim (Bool-cases (is_anchor i)) [
      | inr other ↦ stays (ground arith)
      | inl is ↦ elim (Bool-cases (i.public_key == c.public_key_b64 key)) [
        | inr other ↦ stays (ground arith)
        | inl mine ↦ elim (Option-cases (last s.events)) [
          | inl none_yet ↦ stays (ground arith)
          | inr (r, latest) ↦
              elim (Bool-cases (any (is_same_anchor r.sequence r.event_hash id) s.anchors)) [
                | inl taken ↦ stays (ground arith)
                | inr free ↦
                    let message = anchor_message c r.sequence r.event_hash now in
                    let a : AnchorRow = record {
                      sequence = r.sequence;
                      event_hash = r.event_hash;
                      signer_id = id;
                      created_ns = now;
                      signature = c.sign key message;
                    } in
                    anchored a
                      (record {
                        row = r;
                        at_head = latest;
                        same_sequence = refl;
                        same_hash = refl;
                        by_anchor = rw found is;
                        signed =
                            rw (found, (eq_iff i.public_key (c.public_key_b64 key)).0 mine)
                              (sound key message);
                      })
                      (ground arith)
              ]
        ]
      ]
    ]
  ]

  register_evidence-Change :
      (m : EvidenceManifest) (id : String) (key : PrivateKey) (now : ℤ) (s : AuditLedger)
      → Change c s (register_evidence c m id key now s).1
  unfolding register_evidence
  register_evidence-Change m id key now s =
      let payload =
        field "manifest_sha256" (str (content_hash c (manifest_json (canonical m)))) end in
      elim (Result-cases (validate_multimodal_contract m)) [
        | inr (x, bad) ↦ stays (ground arith)
        | inl (u, good) ↦ elim (Result-cases (evidence_root c m)) [
          | inr (x, bad) ↦ stays (ground arith)
          | inl (root, rooted) ↦ elim (Option-cases (lookup m.case_id s.evidence)) [
            | inl new ↦
                let e : Evidence = record { manifest = canonical m; root = root } in
                let t = with_evidence m.case_id e s in
                elim (append-cases c sound m.case_id "EVIDENCE_REGISTERED" payload root id key now
                  t) [
                    | inl (x, failed) ↦ stays (ground arith)
                    | inr (next, done) ↦
                        let r =
                          event_of c m.case_id "EVIDENCE_REGISTERED" payload root id key now t in
                        registered m e r new rooted refl
                          (record {
                            in_order = next.in_order;
                            linked = next.linked;
                            allowed = next.allowed;
                            hashed = next.hashed;
                            signed = next.signed;
                          })
                          refl refl (ground arith)
                  ]
            | inr (old, found) ↦
                let same =
                  c.values.dumps (manifest_json old.manifest)
                    == c.values.dumps (manifest_json (canonical m))
                  && old.root == root in
                elim (Bool-cases same) [
                  | inr differs ↦ stays (ground arith)
                  | inl agrees ↦
                      elim (append-cases c sound m.case_id "EVIDENCE_REGISTERED" payload root id key
                        now s) [
                          | inl (x, failed) ↦ stays (ground arith)
                          | inr (next, done) ↦
                              let bound : (old.root == root) ≡ true = ground arith in
                              appended
                                (event_of c m.case_id "EVIDENCE_REGISTERED" payload root id key now
                                  s)
                                next (rw found bound) (ground arith)
                        ]
                ]
          ]
        ]
      ]

  enroll_identity-Change :
      (id role key : String) (s : AuditLedger) → Change c s (enroll_identity c id role key s).1
  unfolding enroll_identity
  enroll_identity-Change id role key s = elim (Bool-cases (is_some (allowed_events role))) [
    | inr unknown ↦ stays (ground arith)
    | inl known ↦ elim (Bool-cases (c.valid_key key)) [
      | inr invalid ↦ stays (ground arith)
      | inl valid ↦ elim (Option-cases (lookup id s.identities)) [
        | inr (old, found) ↦ stays (ground arith)
        | inl new ↦
            enrolled id (record { role = role; public_key = key }) new (rw (known, valid, new) refl)
      ]
    ]
  ]

  attest_validation-Change :
      (case_id id : String) (key : PrivateKey) (version report : String) (checks : Checks) (now : ℤ)
      (s : AuditLedger)
      → Change c s (attest_validation c case_id id key version report checks now s).1
  unfolding attest_validation
  attest_validation-Change case_id id key version report checks now s =
      elim (Bool-cases (version == "" || not (length (code_points report) == 64))) [
        | inl incomplete ↦ stays (rw incomplete refl)
        | inr complete ↦ elim (Bool-cases (is_empty checks || not (all passes checks))) [
          | inl failed ↦ stays (rw (complete, failed) refl)
          | inr passed ↦
              rw (complete, passed)
                (append_event-Change case_id "VALIDATION_ATTESTED" _ id key now s)
        ]
      ]

  submit_review-Change :
      (case_id id : String) (key : PrivateKey) (patch decision rationale : String) (confirms : Bool)
      (now : ℤ) (s : AuditLedger)
      → Change c s (submit_review c case_id id key patch decision rationale confirms now s).1
  unfolding submit_review
  submit_review-Change case_id id key patch decision rationale confirms now s =
      elim (Bool-cases (contains ("approve_for_data" ∷ "reject" ∷ "escalate" ∷ []) decision)) [
        | inr unknown ↦ stays (rw unknown refl)
        | inl known ↦ elim (Bool-cases (is_sha256_hex patch && is_sha256_hex rationale)) [
          | inr invalid ↦ stays (rw (known, invalid) refl)
          | inl valid ↦
              rw (known, valid)
                (append_event-Change case_id
                  (if confirms then "REVIEW_CONFIRMED" else "REVIEW_SUBMITTED") _ id key now s)
        ]
      ]

  pub step-Change : (o : Op) (s : AuditLedger) → Change c s (step c o s)
  unfolding step
  step-Change (enroll id role key) s = enroll_identity-Change id role key s
  step-Change (register m id key now) s = register_evidence-Change m id key now s
  step-Change (append case_id event_type payload id key now) s =
      append_event-Change case_id event_type payload id key now s
  step-Change (attest case_id id key version report checks now) s =
      attest_validation-Change case_id id key version report checks now s
  step-Change (review case_id id key patch decision rationale confirms now) s =
      submit_review-Change case_id id key patch decision rationale confirms now s
  step-Change (anchor id key now) s = create_anchor-Change id key now s
