-- ===== src/Audit/Verified.antt =====
-- Every history of calls keeps the ledger intact, and only adds to it.
use acvjepa_project.Prelude.Int.{int_eq}
use acvjepa_project.Prelude.Dict.{lookup, insert, lookup-insert, beq_refl}
use acvjepa_project.Prelude.{
  string_eq, nat_eq, All-append, ok, ◌≡◌, refl, sym, ap, ◌∙◌, subst, true, some, List, [], ◌∷◌,
  ◌++◌,
}
use mathlib.Core.List.{append-nil}
use mathlib.Core.List.{append_assoc}
use acvjepa_project.Audit.Types.{Crypto, genesis_hash}
use acvjepa_project.Audit.{EventRow, AnchorRow, AuditLedger, empty_ledger}
use acvjepa_project.Audit.Integrity.{has_root, verify_events, verify_anchors}
use acvjepa_project.Audit.Chain.{IsChained-verify_events, Grows, Grows-refl}
use acvjepa_project.Audit.Calls.{
  Op, step, run, IsSound, IsAnchored, with_evidence, Change, stays, enrolled, appended, registered,
  anchored,
}
use acvjepa_project.Audit.Steps.{step-Change}
use acvjepa_project.Audit.History.{
  insert-keeps, Change-Grows, select-last, IsGoodAnchor, AreGoodAnchors, IsIntact,
  IsGoodAnchor-Grows, AreGoodAnchors-Grows, with_event-IsIntact, grown-IsIntact,
}

module _ (c : Crypto) where
  -- The anchor of the head is one of an event of the chain.
  new_anchor-IsGood :
      (s : AuditLedger) (a : AnchorRow) → IsIntact c s → IsAnchored c s a → IsGoodAnchor c s a
  new_anchor-IsGood s a intact at =
      let found = select-last c s 1 genesis_hash s.events at.row intact.chain at.at_head in
      record {
        by_anchor = at.by_anchor;
        at_event = rw (at.same_sequence, found, at.same_hash) (beq_refl at.row.event_hash);
        signed = at.signed;
      }

  Change-IsIntact : (s s' : AuditLedger) → Change c s s' → IsIntact c s → IsIntact c s'
  Change-IsIntact s s' (stays e) intact = subst (IsIntact c) (sym e) intact
  Change-IsIntact s s' (enrolled k i new e) intact =
      let t : AuditLedger = record s { identities = insert k i s.identities } in
      let g = Change-Grows c s t (enrolled k i new refl) in
      subst (IsIntact c) (sym e) (
        grown-IsIntact c s intact t g refl
          (AreGoodAnchors-Grows c s t [] s.anchors g (sym (append-nil s.events)) intact.anchors))
  Change-IsIntact s s' (appended r next bound e) intact =
      subst (IsIntact c) (sym e)
        (with_event-IsIntact c s intact s r (Grows-refl s) refl refl next bound)
  Change-IsIntact s s' (registered m x r new rooted same next here root e) intact =
      let t = with_evidence m.case_id x s in
      let g : Grows s t = record {
        keeps_identity = λ j w h. h;
        keeps_evidence = λ j w h. insert-keeps m.case_id x s.evidence j w new h;
      } in
      let stored : lookup m.case_id t.evidence ≡ some x =
        lookup-insert m.case_id m.case_id x s.evidence ∙ rw (beq_refl m.case_id) refl in
      let bound : has_root r.root (lookup r.case_id t.evidence) ≡ true =
        rw (here, stored, root) (beq_refl x.root) in
      subst (IsIntact c) (sym e) (
        with_event-IsIntact c s intact t r g refl refl
          (record {
            in_order = next.in_order;
            linked = next.linked;
            allowed = next.allowed;
            hashed = next.hashed;
            signed = next.signed;
          })
          bound)
  Change-IsIntact s s' (anchored a at e) intact =
      let t : AuditLedger = record s { anchors = s.anchors ++ a ∷ [] } in
      let g : Grows s t = record { keeps_identity = λ j w h. h; keeps_evidence = λ j w h. h } in
      let same = sym (append-nil s.events) in
      let old = AreGoodAnchors-Grows c s t [] s.anchors g same intact.anchors in
      let one = IsGoodAnchor-Grows c s t [] a g same (new_anchor-IsGood s a intact at) in
      subst (IsIntact c) (sym e) (
        grown-IsIntact c s intact t g refl
          (All-append (IsGoodAnchor c t) s.anchors (a ∷ []) old (one, tt)))

  run-IsIntact :
      (sound : IsSound c) (os : List Op) (s : AuditLedger) → IsIntact c s → IsIntact c (run c os s)
  unfolding run
  run-IsIntact sound [] s intact = intact
  run-IsIntact sound (o ∷ os) s intact =
      run-IsIntact sound os (step c o s)
        (Change-IsIntact s (step c o s) (step-Change c sound o s) intact)

  anchors_verified :
      (s : AuditLedger) (l : List AnchorRow) → AreGoodAnchors c s l → verify_anchors c s l ≡ ok tt
  anchors_verified s [] good = refl
  anchors_verified s (a ∷ l) (g, gs) =
      rw (verify_anchors, g.by_anchor, g.at_event, g.signed) (anchors_verified s l gs)

  -- The events after a call are those before it, and at most one more.
  Change-events :
      (s s' : AuditLedger) → Change c s s' → (tail : List EventRow) × (s'.events ≡ s.events ++ tail)
  Change-events s s' (stays e) = ([], rw e (sym (append-nil s.events)))
  Change-events s s' (enrolled k i new e) = ([], rw e (sym (append-nil s.events)))
  Change-events s s' (appended r next bound e) = (r ∷ [], rw e refl)
  Change-events s s' (registered m x r new rooted same next here root e) = (r ∷ [], rw e refl)
  Change-events s s' (anchored a at e) = ([], rw e (sym (append-nil s.events)))

  Grows-trans : (s t u : AuditLedger) → Grows s t → Grows t u → Grows s u
  Grows-trans s t u g h = record {
    keeps_identity = λ k i e. h.keeps_identity k i (g.keeps_identity k i e);
    keeps_evidence = λ k x e. h.keeps_evidence k x (g.keeps_evidence k x e);
  }

-- The ledger only grows, whatever calls are made on it, failing or not: its events stay the first
-- events, in their order and unchanged, every identity keeps its role and key, and every case its
-- manifest and root; provided that the signature scheme verifies what it signs.
pub run-Grows :
    (c : Crypto) (sound : IsSound c) (os : List Op) (s : AuditLedger)
    → (tail : List EventRow) × ((run c os s).events ≡ s.events ++ tail) × Grows s (run c os s)
unfolding run
run-Grows c sound [] s = ([], sym (append-nil s.events), Grows-refl s)
run-Grows c sound (o ∷ os) s =
    let change = step-Change c sound o s in
    let (one, first) = Change-events c s (step c o s) change in
    let (more, rest, grows) = run-Grows c sound os (step c o s) in
    (
      one ++ more,
      rest ∙ ap (λ (l : List EventRow). l ++ more) first ∙ append_assoc s.events one more,
      Grows-trans c s (step c o s) (run c os (step c o s)) (Change-Grows c s (step c o s) change)
          grows,
    )

-- Whatever calls are made on a new ledger, failing or not, with any payloads, keys and times: the
-- loops of verify_integrity over the events and over the anchors find nothing wrong, provided that the
-- signature scheme verifies what it signs.
pub run-verified :
    (c : Crypto) (os : List Op)
    → IsSound c
    → (verify_events c (run c os empty_ledger) 1 genesis_hash (run c os empty_ledger).events
        ≡ ok tt)
      × (verify_anchors c (run c os empty_ledger) (run c os empty_ledger).anchors ≡ ok tt)
run-verified c os sound =
    let s = run c os empty_ledger in
    let intact = run-IsIntact c sound os empty_ledger (record { chain = tt; anchors = tt }) in
    (
      IsChained-verify_events c s 1 genesis_hash s.events intact.chain,
      anchors_verified c s s.anchors intact.anchors,
    )
