-- ===== src/Review/Approval.antt =====
-- What an approval rests on, over every schedule of calls on an empty ledger, and what
-- `approved_data_patch` gives out.
use acvjepa_project.Prelude.{
  Bool-cases, Option-cases, some_inj, ok, err, String, ◌≡◌, refl, sym, ap, ◌∙◌, subst, ◌≢◌, ◌⊎◌,
  inl, inr, Bool, true, false, some, List, [], ◌∷◌, arith, eq_iff,
}
use acvjepa_project.Review.{
  ReviewStatus, approved_for_data, CaseRow, not_approved, Cases, case_of, new_row, is_reviewable,
  is_safety_issue, first_verdict, awaits_second, is_approved, is_reviewer, DataPatch,
  approved_data_patch, Op, step, run,
}
use acvjepa_project.Review.Steps.{
  first_reviewed, verdict, second_reviewed, ReviewStep, stays, reviewed, decided, step-ReviewStep,
  step-new,
}
use acvjepa_project.Review.Records.{QuarantinedCase, CorrectionPatch}
use acvjepa_project.Prelude.Text.{is_blank}
use acvjepa_project.Prelude.Hashing.{Hashing}

-- The first review stands in the row, with a rationale, on evidence that is no safety issue.
pub record HasFirstReview (r : CaseRow) : Type 0 where
  pub review : CorrectionPatch
  pub patch_stored : r.first_patch ≡ some review
  pub reviewer_stored : r.first_reviewer ≡ some review.reviewer_id
  pub explained : is_blank review.rationale ≡ false
  pub harmless : is_safety_issue r.payload ≡ false

-- Besides, a second review by someone else does.
pub record HasBothReviews (r : CaseRow) : Type 0 where
  pub first_one : HasFirstReview r
  pub second_review : CorrectionPatch
  pub patch_stored : r.second_patch ≡ some second_review
  pub independent : second_review.reviewer_id ≢ first_one.review.reviewer_id

record IsReviewed (r : CaseRow) : Type 0 where
  first_one : awaits_second r.status ≡ true → HasFirstReview r
  both : is_approved r.status ≡ true → HasBothReviews r

new-IsReviewed : (c : QuarantinedCase) → IsReviewed (new_row c)
new-IsReviewed c = record {
  first_one = λ e. absurd (ground arith);
  both = λ e. absurd (ground arith);
}

first_verdict-harmless :
    (c : QuarantinedCase) → awaits_second (first_verdict c) ≡ true → is_safety_issue c ≡ false
first_verdict-harmless c e = ground arith

first_verdict-approves_none : (c : QuarantinedCase) → is_approved (first_verdict c) ≡ true → ⊥
first_verdict-approves_none c e = ground arith

first_reviewed-IsReviewed :
    (p : CorrectionPatch) (r : CaseRow)
    → is_blank p.rationale ≡ false
    → IsReviewed (first_reviewed p (first_verdict r.payload) r)
first_reviewed-IsReviewed p r said = record {
  first_one = λ e. record {
    review = p;
    patch_stored = refl;
    reviewer_stored = refl;
    explained = said;
    harmless = first_verdict-harmless r.payload e;
  };
  both = λ e. absurd (first_verdict-approves_none r.payload e);
}

verdict-final : (approve : Bool) → awaits_second (verdict approve) ≡ true → ⊥
verdict-final approve e = ground arith

-- The second review keeps the first one.
abbrev keeps_first :
    (p : CorrectionPatch) (approve : Bool) (r : CaseRow)
    → HasFirstReview r
    → HasFirstReview (second_reviewed p approve r)
keeps_first p approve r h = record {
  review = h.review;
  patch_stored = h.patch_stored;
  reviewer_stored = h.reviewer_stored;
  explained = h.explained;
  harmless = h.harmless;
}

same_reviewer : (id name : String) → id ≡ name → is_reviewer id (some name) ≡ false → ⊥
same_reviewer id name e h = ground (arith, eq_iff id name)

other_reviewer :
    (p : CorrectionPatch) (r : CaseRow) (h : HasFirstReview r)
    → is_reviewer p.reviewer_id r.first_reviewer ≡ false
    → p.reviewer_id ≢ h.review.reviewer_id
other_reviewer p r h other same =
    same_reviewer p.reviewer_id h.review.reviewer_id same
      (subst (λ n. is_reviewer p.reviewer_id n ≡ false) h.reviewer_stored other)

second_reviewed-IsReviewed :
    (p : CorrectionPatch) (approve : Bool) (r : CaseRow)
    → HasFirstReview r
    → is_reviewer p.reviewer_id r.first_reviewer ≡ false
    → IsReviewed (second_reviewed p approve r)
second_reviewed-IsReviewed p approve r h other = record {
  first_one = λ e. absurd (verdict-final approve e);
  both = λ e. record {
    first_one = keeps_first p approve r h;
    second_review = p;
    patch_stored = refl;
    independent = other_reviewer p r h other;
  };
}

ReviewStep-IsReviewed : (r r' : CaseRow) → ReviewStep r r' → IsReviewed r → IsReviewed r'
ReviewStep-IsReviewed r r' (stays e) i = rw e i
ReviewStep-IsReviewed r r' (reviewed p can said e) i = rw e (first_reviewed-IsReviewed p r said)
ReviewStep-IsReviewed r r' (decided p approve waits other e) i =
    rw e (second_reviewed-IsReviewed p approve r (i.first_one waits) other)

-- Every row that the ledger reads is reviewed as its status says.
abbrev AreReviewed : Cases → Type 0
AreReviewed rows = (id : String) (r : CaseRow) → case_of id rows ≡ some r → IsReviewed r

step-AreReviewed : (o : Op) (rows : Cases) → AreReviewed rows → AreReviewed (step o rows)
step-AreReviewed o rows i id r' found = elim (Option-cases (case_of id rows)) [
  | inl e ↦
      let (c, new) = step-new o rows id r' e found in subst IsReviewed (sym new) (new-IsReviewed c)
  | inr (r, e) ↦
      let (q, at, s) = step-ReviewStep o rows id r e in
      subst IsReviewed (some_inj (sym at ∙ found)) (ReviewStep-IsReviewed r q s (i id r e))
]

run-AreReviewed : (os : List Op) (rows : Cases) → AreReviewed rows → AreReviewed (run os rows)
unfolding run
run-AreReviewed [] rows i = i
run-AreReviewed (o ∷ os) rows i = run-AreReviewed os (step o rows) (step-AreReviewed o rows i)

-- Whatever calls were made since the ledger was empty, a case that is approved is no hardware or
-- sensor-contract issue and holds two reviews of different reviewers, the first with a rationale.
pub approved-HasBothReviews :
    (os : List Op) (id : String) (r : CaseRow)
    → case_of id (run os []) ≡ some r
    → r.status ≡ approved_for_data
    → HasBothReviews r
approved-HasBothReviews os id r found e =
    (run-AreReviewed os [] (λ i r h. absurd (ground arith)) id r found).both (rw e refl)

-- From `approved_data_patch`: what a successful call read.
given_patch :
    (h : Hashing) (id : String) (rows : Cases) (r : CaseRow) (p q : CorrectionPatch)
    → case_of id rows ≡ some r
    → r.status ≡ approved_for_data
    → r.first_patch ≡ some p
    → r.second_patch ≡ some q
    → (d : DataPatch) × (approved_data_patch h id rows ≡ (ok d, rows))
      × (d.source_evidence ≡ r.payload)
      × (d.first_review ≡ p)
      × (d.second_review ≡ q)
unfolding approved_data_patch
given_patch h id rows r p q found e e1 e2 = rw (found, e, e1, e2) (_, refl, refl, refl, refl)

refused_patch :
    (h : Hashing) (id : String) (rows : Cases)
    → ((r : CaseRow) → case_of id rows ≡ some r → r.status ≢ approved_for_data)
    → approved_data_patch h id rows ≡ (err not_approved, rows)
unfolding approved_data_patch
refused_patch h id rows unapproved = elim (Option-cases (case_of id rows)) [
  | inl e ↦ ground arith
  | inr (r, e) ↦ let n = unapproved r e in ground arith
]

abbrev IsUnapproved : String → Cases → Type 0
IsUnapproved id rows = (r : CaseRow) → case_of id rows ≡ some r → r.status ≢ approved_for_data

-- After any calls on an empty ledger, `approved_data_patch` never fails to read a review back: for an
-- approved case it returns the evidence with two reviews of different reviewers, and otherwise
-- it raises the error of a case not approved. It changes nothing.
pub patch_iff_approved :
    (h : Hashing) (os : List Op) (id : String)
    → ((d : DataPatch) × (r : CaseRow) × (case_of id (run os []) ≡ some r)
        × (r.status ≡ approved_for_data)
        × (approved_data_patch h id (run os []) ≡ (ok d, run os []))
        × (d.source_evidence ≡ r.payload)
        × (d.second_review.reviewer_id ≢ d.first_review.reviewer_id))
      ⊎ (((r : CaseRow) → case_of id (run os []) ≡ some r → r.status ≢ approved_for_data)
          × (approved_data_patch h id (run os []) ≡ (err not_approved, run os [])))
patch_iff_approved h os id = elim (Option-cases (case_of id (run os []))) [
  | inl e ↦
      let none_here : IsUnapproved id (run os []) = λ r found. absurd (ground arith) in
      inr (none_here, refused_patch h id (run os []) none_here)
  | inr (r, e) ↦ elim (Bool-cases (is_approved r.status)) [
    | inl approval ↦
        let status : r.status ≡ approved_for_data = approved r.status approval in
        let b : HasBothReviews r = approved-HasBothReviews os id r e status in
        let (d, given, evidence, one, two) =
          given_patch h id (run os []) r b.first_one.review b.second_review e status
            b.first_one.patch_stored b.patch_stored in
        inl (
          d,
          r,
          e,
          status,
          given,
          evidence,
          λ same. b.independent (
              ap (λ (x : CorrectionPatch). x.reviewer_id) (sym two)
              ∙ same
              ∙ ap (λ (x : CorrectionPatch). x.reviewer_id) one),
        )
    | inr not_yet ↦
        let unapproved : IsUnapproved id (run os []) = λ q found. differs q r found e not_yet in
        inr (unapproved, refused_patch h id (run os []) unapproved)
  ]
]
  where
    approved : (s : ReviewStatus) → is_approved s ≡ true → s ≡ approved_for_data
    approved approved_for_data e = refl
    approved s e = absurd (ground arith)

    differs :
        (q r : CaseRow)
        → case_of id (run os []) ≡ some q
        → case_of id (run os []) ≡ some r
        → is_approved r.status ≡ false
        → q.status ≢ approved_for_data
    differs q r at_q at_r no_approval same =
        let e : q ≡ r = some_inj (sym at_q ∙ at_r) in
        absurd (
          ground (
            arith,
            ap (λ (x : CaseRow). is_approved x.status) e,
            ap (λ (x : ReviewStatus). is_approved x) same,
          ))

-- A row in a status that takes no review never changes again, whatever calls follow.
pub run-IsFinal :
    (os : List Op) (rows : Cases) (id : String) (r : CaseRow)
    → case_of id rows ≡ some r
    → is_reviewable r.status ≡ false
    → awaits_second r.status ≡ false
    → case_of id (run os rows) ≡ some r
unfolding run
run-IsFinal [] rows id r found a b = found
run-IsFinal (o ∷ os) rows id r found a b =
    let (r', found', s) = step-ReviewStep o rows id r found in
    run-IsFinal os (step o rows) id r (found' ∙ ap some (settled r r' s a b)) a b
  where
    settled :
        (r r' : CaseRow)
        → ReviewStep r r'
        → is_reviewable r.status ≡ false
        → awaits_second r.status ≡ false
        → r' ≡ r
    settled r r' (stays e) a b = e
    settled r r' (reviewed p can said e) a b = absurd (ground arith)
    settled r r' (decided p approve waits other e) a b = absurd (ground arith)
