-- ===== src/Audit/Eligibility.antt =====
-- What eligible_patch_for_data promises of a ledger: who attested and who approved.
use acvjepa_project.Audit.Chain.{IsGoodEvent, IsChained, verify_events-IsChained}
use acvjepa_project.Audit.Calls.{Op, run, IsSound}
use acvjepa_project.Audit.Verified.{run-verified}
use acvjepa_project.Prelude.Int.{int_eq}
use acvjepa_project.Prelude.Json.{Json, null, str, int, bool, num, arr, obj}
use acvjepa_project.Prelude.Dict.{lookup, beq_refl}
use acvjepa_project.Prelude.{
  leb, Bool-cases, Option-cases, some_inj, string_eq, nat_eq, ◌==◌, get_elem?, any, contains,
  set_size, ℕ, zero, suc, ◌+◌, String, ◌≡◌, refl, sym, ap, ◌∙◌, subst, ◌≢◌, ◌⊎◌, inl, inr, Bool,
  true, false, Option, none, some, List, [], ◌∷◌, arith, eq_iff,
}
use acvjepa_project.Audit.Types.{Crypto, genesis_hash}
use acvjepa_project.Audit.{Identity, EventRow, AuditLedger, empty_ledger, may_append}
use acvjepa_project.Audit.Integrity.{
  get, is_text, is_attestation, is_approval, approvers, eligible_patch_for_data,
}

-- A stored event, signed by an enrolled identity of a role.
pub record IsSignedBy (c : Crypto) (s : AuditLedger) (role : String) (r : EventRow) : Type 0 where
  pub index : ℕ
  pub stored : get_elem? s.events index ≡ some r
  pub identity : Identity
  pub found : lookup r.signer_id s.identities ≡ some identity
  pub has_role : identity.role ≡ role
  pub signed : c.verify_signature identity.public_key (c.from_hex r.event_hash) r.signature ≡ true

pub record Attests (c : Crypto) (s : AuditLedger) (case_id : String) (r : EventRow) : Type 0 where
  pub by_validator : IsSignedBy c s "validator" r
  pub of_case : r.case_id ≡ case_id
  pub is_attestation : r.event_type ≡ "VALIDATION_ATTESTED"

pub record Approves (c : Crypto) (s : AuditLedger) (case_id patch : String) (r : EventRow)
    : Type 0 where
  pub by_reviewer : IsSignedBy c s "reviewer" r
  pub of_case : r.case_id ≡ case_id
  pub of_patch : get "patch_sha256" r.payload ≡ some (str patch)
  pub decision : get "decision" r.payload ≡ some (str "approve_for_data")

any-get :
    {A : Type 0} (p : A → Bool) (l : List A)
    → any p l ≡ true
    → (k : ℕ) × (x : A) × (get_elem? l k ≡ some x) × (p x ≡ true)
any-get p [] h = absurd (ground arith)
any-get p (x ∷ l) h = elim (Bool-cases (p x)) [
  | inl e ↦ (0, x, refl, e)
  | inr e ↦ let (k, y, at, py) = any-get p l (ground arith) in (suc k, y, at, py)
]

one_member : (l : List String) → leb 1 (set_size l) ≡ true → (b : String) × (contains l b ≡ true)
one_member [] h = absurd (ground arith)
one_member (x ∷ l) h = (x, rw (beq_refl x) refl)

-- Two members that differ.
two_members :
    (l : List String)
    → leb 2 (set_size l) ≡ true
    → (a : String) × (b : String) × (a ≢ b) × (contains l a ≡ true) × (contains l b ≡ true)
two_members [] h = absurd (ground arith)
two_members (x ∷ l) h = elim (Bool-cases (contains l x)) [
  | inl e ↦
      let (a, b, differ, here, there) = two_members l (ground arith) in
      (a, b, differ, ground arith, ground arith)
  | inr e ↦
      let (b, there) = one_member l (ground arith) in
      (
        x,
        b,
        (λ same. absurd (let h' = subst (λ y. contains l y ≡ false) same e in ground arith)),
        rw (beq_refl x) refl,
        ground arith,
      )
]

module _ (case_id patch : String) where
  approver-event :
      (rs : List EventRow) (a : String)
      → contains (approvers case_id patch rs) a ≡ true
      → (k : ℕ) × (r : EventRow) × (get_elem? rs k ≡ some r)
        × (is_approval case_id patch r ≡ true)
        × (a ≡ r.signer_id)
  approver-event [] a h = absurd (ground arith)
  approver-event (r ∷ rs) a h = elim (Bool-cases (is_approval case_id patch r)) [
    | inr e ↦ let (k, q, at, is, same) = approver-event rs a (rw e at h) in (suc k, q, at, is, same)
    | inl e ↦ elim (Bool-cases (a == r.signer_id)) [
      | inl same ↦ (0, r, refl, e, (eq_iff a r.signer_id).0 same)
      | inr other ↦
          let (k, q, at, is, same) = approver-event rs a (ground arith) in (suc k, q, at, is, same)
    ]
  ]

-- Which role may append which events.
may_append-cases :
    (role t : String)
    → may_append role t ≡ true
    → ((role ≡ "capture_gateway") × (t ≡ "EVIDENCE_REGISTERED"))
      ⊎ ((role ≡ "validator") × (t ≡ "VALIDATION_ATTESTED"))
      ⊎ ((role ≡ "reviewer")
          × (contains ("REVIEW_SUBMITTED" ∷ "REVIEW_CONFIRMED" ∷ "REVIEW_REJECTED" ∷ []) t ≡ true))
may_append-cases role t h = ground (
  arith,
  eq_iff role "capture_gateway",
  eq_iff role "validator",
  eq_iff role "reviewer",
  eq_iff t "EVIDENCE_REGISTERED",
  eq_iff t "VALIDATION_ATTESTED",
)

abbrev is_review : String → Bool
is_review t = contains ("REVIEW_SUBMITTED" ∷ "REVIEW_CONFIRMED" ∷ []) t

validator_only : (role : String) → may_append role "VALIDATION_ATTESTED" ≡ true → role ≡ "validator"
validator_only role h = elim (may_append-cases role "VALIDATION_ATTESTED" h) [
  | inl (is, kind) ↦ absurd (ground (arith, eq_iff "VALIDATION_ATTESTED" "EVIDENCE_REGISTERED"))
  | inr (inl (is, kind)) ↦ is
  | inr (inr (is, kind)) ↦ absurd (ground arith)
]

reviewer_only :
    (role t : String) → is_review t ≡ true → may_append role t ≡ true → role ≡ "reviewer"
reviewer_only role t asked h = elim (may_append-cases role t h) [
  | inl (is, kind) ↦
      let no : is_review "EVIDENCE_REGISTERED" ≡ true =
        subst (λ x. is_review x ≡ true) kind asked in
      absurd (ground arith)
  | inr (inl (is, kind)) ↦
      let no : is_review "VALIDATION_ATTESTED" ≡ true =
        subst (λ x. is_review x ≡ true) kind asked in
      absurd (ground arith)
  | inr (inr (is, kind)) ↦ is
]

module _ (c : Crypto) (s : AuditLedger) where
  chain-get :
      (n : ℕ) (p : String) (rs : List EventRow) (k : ℕ) (r : EventRow)
      → IsChained c s n p rs
      → get_elem? rs k ≡ some r
      → (m : ℕ) × (q : String) × IsGoodEvent c s m q r
  chain-get n p [] k r g at = absurd (ground arith)
  chain-get n p (x ∷ rs) zero r (g, gs) at = (n, p, subst (IsGoodEvent c s n p) (some_inj at) g)
  chain-get n p (x ∷ rs) (suc k) r (g, gs) at = chain-get (n + 1) x.event_hash rs k r gs at

  -- The signer of an event of the chain, whose role allows it.
  event_signer :
      (k : ℕ) (r : EventRow) (role : String)
      → IsChained c s 1 genesis_hash s.events
      → get_elem? s.events k ≡ some r
      → ((x : String) → may_append x r.event_type ≡ true → x ≡ role)
      → IsSignedBy c s role r
  event_signer k r role chain at only =
      let (m, q, good) = chain-get 1 genesis_hash s.events k r chain at in
      let allowed = good.allowed in
      let signed = good.signed in
      elim (Option-cases (lookup r.signer_id s.identities)) [
        | inl e ↦ absurd (ground arith)
        | inr (i, e) ↦ record {
          index = k;
          stored = at;
          identity = i;
          found = e;
          has_role = only i.role (rw e at allowed);
          signed = rw e at signed;
        }
      ]

  attestation-Attests :
      (case_id : String) (k : ℕ) (r : EventRow)
      → IsChained c s 1 genesis_hash s.events
      → get_elem? s.events k ≡ some r
      → is_attestation case_id r ≡ true
      → Attests c s case_id r
  attestation-Attests case_id k r chain at is =
      let kind : r.event_type ≡ "VALIDATION_ATTESTED" =
        (eq_iff r.event_type "VALIDATION_ATTESTED").0 (ground arith) in
      record {
        by_validator =
            event_signer k r "validator" chain at
              (λ x h. validator_only x (subst (λ t. may_append x t ≡ true) kind h));
        of_case = (eq_iff r.case_id case_id).0 (ground arith);
        is_attestation = kind;
      }

  is_text-some : (t : String) (v : Option Json) → is_text t v ≡ true → v ≡ some (str t)
  is_text-some t none h = absurd (ground arith)
  is_text-some t (some (str x)) h = ap (λ (y : String). some (str y)) ((eq_iff x t).0 h)
  is_text-some t (some null) h = absurd (ground arith)
  is_text-some t (some (int z)) h = absurd (ground arith)
  is_text-some t (some (bool b)) h = absurd (ground arith)
  is_text-some t (some (num x)) h = absurd (ground arith)
  is_text-some t (some (arr l)) h = absurd (ground arith)
  is_text-some t (some (obj l)) h = absurd (ground arith)

  approval-Approves :
      (case_id patch : String) (k : ℕ) (r : EventRow)
      → IsChained c s 1 genesis_hash s.events
      → get_elem? s.events k ≡ some r
      → is_approval case_id patch r ≡ true
      → Approves c s case_id patch r
  approval-Approves case_id patch k r chain at is =
      let kind : contains ("REVIEW_SUBMITTED" ∷ "REVIEW_CONFIRMED" ∷ []) r.event_type ≡ true =
        ground arith in
      record {
        by_reviewer =
            event_signer k r "reviewer" chain at (λ x h. reviewer_only x r.event_type kind h);
        of_case = (eq_iff r.case_id case_id).0 (ground arith);
        of_patch = is_text-some patch (get "patch_sha256" r.payload) (ground arith);
        decision = is_text-some "approve_for_data" (get "decision" r.payload) (ground arith);
      }

-- Whatever calls were made on a new ledger: a patch is eligible only when a validator's signed event
-- attests its case, and two signed events of different reviewers approve that very patch for the
-- case; provided that the signature scheme verifies what it signs.
pub eligible-HasApprovals :
    (c : Crypto) (os : List Op) (case_id patch : String)
    → IsSound c
    → eligible_patch_for_data case_id patch (run c os empty_ledger) ≡ true
    → ((v : EventRow) × Attests c (run c os empty_ledger) case_id v)
      × ((a : EventRow) × (b : EventRow) × (a.signer_id ≢ b.signer_id)
          × Approves c (run c os empty_ledger) case_id patch a
          × Approves c (run c os empty_ledger) case_id patch b)
unfolding eligible_patch_for_data
eligible-HasApprovals c os case_id patch sound eligible =
    let s = run c os empty_ledger in
    let chain = verify_events-IsChained c s 1 genesis_hash s.events (run-verified c os sound).0 in
    let (i, v, at_v, attested) = any-get (is_attestation case_id) s.events (ground arith) in
    let (x, y, differ, here, there) =
      two_members (approvers case_id patch s.events) (ground arith) in
    let (j, a, at_a, is_a, same_a) = approver-event case_id patch s.events x here in
    let (k, b, at_b, is_b, same_b) = approver-event case_id patch s.events y there in
    (
      (v, attestation-Attests c s case_id i v chain at_v attested),
      (
        a,
        b,
        (λ same. differ (same_a ∙ same ∙ sym same_b)),
        approval-Approves c s case_id patch j a chain at_a is_a,
        approval-Approves c s case_id patch k b chain at_b is_b,
      ),
    )
