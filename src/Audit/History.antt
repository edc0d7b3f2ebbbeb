-- ===== src/Audit/History.antt =====
-- The history of a ledger: it only grows, and its chain of events and its anchors stay what
-- verify_integrity accepts.
use acvjepa_project.Prelude.Int.{int_eq}
use acvjepa_project.Prelude.Dict.{Dict, lookup, insert, lookup-insert, beq_refl}
use acvjepa_project.Prelude.Table.{select_one, select_one-append}
use acvjepa_project.Prelude.{
  Bool-cases, Option-cases, some_inj, string_eq, nat_eq, ◌==◌, length, last, All, ℕ, ◌+◌, String,
  ◌≡◌, refl, sym, ◌∙◌, subst, ◌≢◌, inl, inr, true, false, none, some, List, [], ◌∷◌, ◌++◌, arith,
  eq_iff,
}
use mathlib.Core.List.{append-nil}
use acvjepa_project.Audit.Types.{Crypto, genesis_hash}
use acvjepa_project.Audit.{
  EventRow, AnchorRow, AuditLedger, next_sequence, head_hash, anchor_message,
}
use acvjepa_project.Audit.Integrity.{has_root, signed_by, is_at, is_anchor_role, has_event_hash}
use acvjepa_project.Audit.Chain.{
  IsGoodEvent, IsChained, end_hash, IsChained-append, Grows, Grows-refl, kept, identity-kept,
  IsGoodEvent-Grows, IsChained-Grows,
}
use acvjepa_project.Audit.Calls.{
  IsNext, with_event, Change, stays, enrolled, appended, registered, anchored,
}

-- A row under a new key leaves the others.
pub insert-keeps :
    {V : Type 0} (k : String) (v : V) (d : Dict String V) (j : String) (w : V)
    → lookup k d ≡ none
    → lookup j d ≡ some w
    → lookup j (insert k v d) ≡ some w
insert-keeps k v d j w new found = elim (Bool-cases (k == j)) [
  | inl same ↦
      let e : k ≡ j = (eq_iff k j).0 same in
      absurd (let h : lookup j d ≡ none = subst (λ x. lookup x d ≡ none) e new in ground arith)
  | inr other ↦ lookup-insert k j v d ∙ rw other found
]

pub Change-Grows : (c : Crypto) (s s' : AuditLedger) → Change c s s' → Grows s s'
Change-Grows c s s' (stays e) = subst (Grows s) (sym e) (Grows-refl s)
Change-Grows c s s' (enrolled k i new e) = subst (Grows s) (sym e) (record {
  keeps_identity = λ j w h. insert-keeps k i s.identities j w new h;
  keeps_evidence = λ j w h. h;
})
Change-Grows c s s' (appended r next bound e) =
    subst (Grows s) (sym e) (record { keeps_identity = λ j w h. h; keeps_evidence = λ j w h. h })
Change-Grows c s s' (registered m x r new rooted same next here root e) =
    subst (Grows s) (sym e) (record {
      keeps_identity = λ j w h. h;
      keeps_evidence = λ j w h. insert-keeps m.case_id x s.evidence j w new h;
    })
Change-Grows c s s' (anchored a at e) =
    subst (Grows s) (sym e) (record { keeps_identity = λ j w h. h; keeps_evidence = λ j w h. h })

last_some : (q : EventRow) (rs : List EventRow) → last (q ∷ rs) ≢ none
last_some q [] h = ground arith
last_some q (x ∷ rs) h = last_some x rs h

module _ (c : Crypto) (s : AuditLedger) where
  chain_last :
      (n : ℕ) (p : String) (rs : List EventRow) (r : EventRow)
      → IsChained c s n p rs
      → last rs ≡ some r
      → (r.sequence + 1 ≡ n + length rs) × (r.event_hash ≡ end_hash p rs)
  chain_last n p [] r g h = absurd (ground arith)
  chain_last n p (q ∷ []) r (g, gs) h =
      let same : q ≡ r = some_inj h in
      let order = g.in_order in
      subst (λ x. (x.sequence + 1 ≡ n + 1) × (x.event_hash ≡ q.event_hash)) same
        (omega (arith, order), refl)
  chain_last n p (q ∷ x ∷ rs) r (g, gs) h =
      let (order, hash) = chain_last (n + 1) q.event_hash (x ∷ rs) r gs h in
      (omega (arith, order), hash)

  -- The last event is found by its sequence number.
  pub select-last :
      (n : ℕ) (p : String) (rs : List EventRow) (r : EventRow)
      → IsChained c s n p rs
      → last rs ≡ some r
      → select_one (is_at r.sequence) rs ≡ some r
  select-last n p [] r g h = absurd (ground arith)
  select-last n p (q ∷ []) r g h =
      let same : q ≡ r = some_inj h in
      let here : (q.sequence == r.sequence) ≡ true =
        subst (λ (x : EventRow). (q.sequence == x.sequence) ≡ true) same (beq_refl q.sequence) in
      rw here h
  select-last n p (q ∷ x ∷ rs) r (g, gs) h =
      let (order, hash) = chain_last (n + 1) q.event_hash (x ∷ rs) r gs h in
      let first = g.in_order in
      let differs : (q.sequence == r.sequence) ≡ false = ground (arith, order, first) in
      rw differs (select-last (n + 1) q.event_hash (x ∷ rs) r gs h)

  pub chain_ends :
      (rs : List EventRow)
      → IsChained c s 1 genesis_hash rs
      → (next_sequence (last rs) ≡ 1 + length rs) × (head_hash (last rs) ≡ end_hash genesis_hash rs)
  chain_ends [] g = (refl, refl)
  chain_ends (q ∷ rs) g = elim (Option-cases (last (q ∷ rs))) [
    | inl missing ↦ absurd (last_some q rs missing)
    | inr (r, found) ↦ rw found (chain_last 1 genesis_hash (q ∷ rs) r g found)
  ]

  next_event-IsGood :
      (r : EventRow)
      → IsChained c s 1 genesis_hash s.events
      → IsNext c s r
      → has_root r.root (lookup r.case_id s.evidence) ≡ true
      → IsGoodEvent c s (1 + length s.events) (end_hash genesis_hash s.events) r
  next_event-IsGood r chain next bound =
      let (order, link) = chain_ends s.events chain in
      record {
        in_order = next.in_order ∙ order;
        linked = next.linked ∙ link;
        allowed = next.allowed;
        bound = bound;
        hashed = next.hashed;
        signed = next.signed;
      }

-- An anchor of an event that the chain has, by an anchor identity that signed it.
pub record IsGoodAnchor (c : Crypto) (s : AuditLedger) (a : AnchorRow) : Type 0 where
  pub by_anchor : is_anchor_role (lookup a.signer_id s.identities) ≡ true
  pub at_event : has_event_hash a.event_hash (select_one (is_at a.sequence) s.events) ≡ true
  pub signed :
      signed_by c
        (anchor_message c a.sequence a.event_hash a.created_ns)
        a.signature
        (lookup a.signer_id s.identities)
      ≡ true

abbrev pub AreGoodAnchors : Crypto → AuditLedger → List AnchorRow → Type 0
AreGoodAnchors c s l = All (IsGoodAnchor c s) l

pub record IsIntact (c : Crypto) (s : AuditLedger) : Type 0 where
  pub chain : IsChained c s 1 genesis_hash s.events
  pub anchors : AreGoodAnchors c s s.anchors

pub IsGoodAnchor-Grows :
    (c : Crypto) (s s' : AuditLedger) (tail : List EventRow) (a : AnchorRow)
    → Grows s s'
    → s'.events ≡ s.events ++ tail
    → IsGoodAnchor c s a
    → IsGoodAnchor c s' a
IsGoodAnchor-Grows c s s' tail a g more good = record {
  by_anchor = identity-kept c s s' g is_anchor_role a.signer_id refl good.by_anchor;
  at_event =
      kept (has_event_hash a.event_hash) (select_one (is_at a.sequence) s.events)
        (select_one (is_at a.sequence) s'.events) refl
        (λ r found. rw more (select_one-append (is_at a.sequence) s.events tail r found))
        good.at_event;
  signed =
      identity-kept c s s' g
        (signed_by c (anchor_message c a.sequence a.event_hash a.created_ns) a.signature)
        a.signer_id refl good.signed;
}

pub AreGoodAnchors-Grows :
    (c : Crypto) (s s' : AuditLedger) (tail : List EventRow) (l : List AnchorRow)
    → Grows s s'
    → s'.events ≡ s.events ++ tail
    → AreGoodAnchors c s l
    → AreGoodAnchors c s' l
AreGoodAnchors-Grows c s s' tail [] g more good = tt
AreGoodAnchors-Grows c s s' tail (a ∷ l) g more (one, rest) =
    (IsGoodAnchor-Grows c s s' tail a g more one, AreGoodAnchors-Grows c s s' tail l g more rest)

module _ (c : Crypto) (s : AuditLedger) (intact : IsIntact c s) where
  -- What grows and gains one event in its place stays intact.
  pub with_event-IsIntact :
      (t : AuditLedger) (r : EventRow)
      → Grows s t
      → t.events ≡ s.events
      → t.anchors ≡ s.anchors
      → IsNext c t r
      → has_root r.root (lookup r.case_id t.evidence) ≡ true
      → IsIntact c (with_event r t)
  with_event-IsIntact t r g same_events same_anchors next bound =
      let t' = with_event r t in
      let grown : Grows t t' = record {
        keeps_identity = λ k i h. h;
        keeps_evidence = λ k e h. h;
      } in
      let chained : IsChained c t 1 genesis_hash t.events =
        subst (IsChained c t 1 genesis_hash) (sym same_events)
          (IsChained-Grows c s t g 1 genesis_hash s.events intact.chain) in
      let good = next_event-IsGood c t r chained next bound in
      let anchored_t : AreGoodAnchors c t t.anchors =
        subst (AreGoodAnchors c t) (sym same_anchors) (
          AreGoodAnchors-Grows c s t [] s.anchors g (same_events ∙ sym (append-nil s.events))
            intact.anchors) in
      record {
        chain =
            IsChained-append c t' 1 genesis_hash t.events r
              (IsChained-Grows c t t' grown 1 genesis_hash t.events chained)
              (IsGoodEvent-Grows c t t' grown (1 + length t.events) (end_hash genesis_hash t.events)
                r good);
        anchors = AreGoodAnchors-Grows c t t' (r ∷ []) t.anchors grown refl anchored_t;
      }

  pub grown-IsIntact :
      (t : AuditLedger)
      → Grows s t
      → t.events ≡ s.events
      → AreGoodAnchors c t t.anchors
      → IsIntact c t
  grown-IsIntact t g same_events good = record {
    chain =
        subst (IsChained c t 1 genesis_hash) (sym same_events)
          (IsChained-Grows c s t g 1 genesis_hash s.events intact.chain);
    anchors = good;
  }
