-- ===== src/Audit/Intact.antt =====
-- verify_integrity after any history: its three loops. A registered manifest is stored with its artifacts
-- in another order.
use acvjepa_project.Prelude.Int.{int_eq}
use acvjepa_project.Prelude.Dict.{Dict, insert-All, beq_refl}
use acvjepa_project.Prelude.Reordered.{sort_by-Reordered}
use acvjepa_project.Prelude.{
  string_eq, nat_eq, length, sort_by, All, ok, String, ◌≡◌, refl, ap, ◌∙◌, List, [], ◌∷◌, arith,
  eq_iff,
}
use acvjepa_project.Audit.Types.{
  Crypto, genesis_hash, EvidenceManifest, evidence_root, below_modality, canonical,
}
use acvjepa_project.Audit.{Evidence, AuditLedger, empty_ledger}
use acvjepa_project.Audit.Integrity.{
  verify_evidence, verify_events, verify_anchors, verify_integrity,
}
use acvjepa_project.Audit.Calls.{
  Op, step, run, IsSound, Change, stays, enrolled, appended, registered, anchored,
}
use acvjepa_project.Audit.Steps.{step-Change}
use acvjepa_project.Audit.Unordered.{evidence_root-unordered}
use acvjepa_project.Audit.Verified.{run-verified}

-- A registered case: its manifest is its own and has the stored root.
abbrev IsRooted : Crypto → String × Evidence → Type 0
IsRooted c (k, e) = (e.manifest.case_id ≡ k) × (evidence_root c e.manifest ≡ ok e.root)

module _ (c : Crypto) where
  canonical-IsRooted :
      (m : EvidenceManifest) (e : Evidence)
      → evidence_root c m ≡ ok e.root
      → e.manifest ≡ canonical m
      → IsRooted c (m.case_id, e)
  canonical-IsRooted m e rooted same = (
    ap (λ (x : EvidenceManifest). x.case_id) same,
    ap (evidence_root c) same
        ∙ evidence_root-unordered m (sort_by below_modality m.artifacts)
            (sort_by-Reordered below_modality m.artifacts) c e.root rooted,
  )

  Change-AreRooted :
      (s s' : AuditLedger)
      → Change c s s'
      → All (IsRooted c) s.evidence
      → All (IsRooted c) s'.evidence
  Change-AreRooted s s' (stays e) a = rw e a
  Change-AreRooted s s' (enrolled k i new e) a = rw e a
  Change-AreRooted s s' (appended r next bound e) a = rw e a
  Change-AreRooted s s' (registered m x r new rooted same next here root e) a =
      rw e (insert-All (IsRooted c) m.case_id x s.evidence (canonical-IsRooted m x rooted same) a)
  Change-AreRooted s s' (anchored x at e) a = rw e a

  run-AreRooted :
      (sound : IsSound c) (os : List Op) (s : AuditLedger)
      → All (IsRooted c) s.evidence
      → All (IsRooted c) (run c os s).evidence
  unfolding run
  run-AreRooted sound [] s a = a
  run-AreRooted sound (o ∷ os) s a =
      run-AreRooted sound os (step c o s)
        (Change-AreRooted s (step c o s) (step-Change c sound o s) a)

  verify_evidence-rooted :
      (d : Dict String Evidence) → All (IsRooted c) d → verify_evidence c d ≡ ok tt
  verify_evidence-rooted [] a = refl
  verify_evidence-rooted ((k, e) ∷ d) ((own, rooted), rest) =
      let later = verify_evidence-rooted d rest in
      ground (arith, own, rooted, later, eq_iff e.manifest.case_id k, beq_refl e.root)

  verify_integrity-loops :
      (s : AuditLedger)
      → verify_evidence c s.evidence ≡ ok tt
      → verify_events c s 1 genesis_hash s.events ≡ ok tt
      → verify_anchors c s s.anchors ≡ ok tt
      → verify_integrity c s
        ≡ ok (record {
          events = length s.events;
          evidence_cases = length s.evidence;
          anchors = length s.anchors;
        })
  unfolding verify_integrity
  verify_integrity-loops s evidence events anchors = ground (arith, evidence, events, anchors)

-- Whatever calls are made on a new ledger, failing or not, with any payloads, manifests, keys and times:
-- verify_integrity finds nothing wrong and counts the events, cases and anchors of the ledger, provided
-- that the signature scheme verifies what it signs.
pub run-intact :
    (c : Crypto) (os : List Op)
    → IsSound c
    → verify_integrity c (run c os empty_ledger)
      ≡ ok (record {
        events = length (run c os empty_ledger).events;
        evidence_cases = length (run c os empty_ledger).evidence;
        anchors = length (run c os empty_ledger).anchors;
      })
run-intact c os sound =
    let (events, anchors) = run-verified c os sound in
    verify_integrity-loops c (run c os empty_ledger)
      (verify_evidence-rooted c (run c os empty_ledger).evidence
        (run-AreRooted c sound os empty_ledger tt))
      events anchors
