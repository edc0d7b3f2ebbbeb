-- ===== src/Review/Steps.antt =====
-- What each call of the review ledger does to the row of a case, seen from that row: it stays, or it
-- takes one of the two reviews.
use acvjepa_project.Prelude.Int.{int_eq}
use acvjepa_project.Prelude.Text.{is_blank}
use acvjepa_project.Prelude.Table.{
  update, select_one-holds, select_one-append, select_one-append_none, apply_if, select_one-update,
}
use mathlib.Core.Option
use acvjepa_project.Prelude.{
  if◌then◌else◌, Bool-cases, Option-cases, some_inj, string_eq, nat_eq, ◌==◌, String, ◌≡◌, refl,
  sym, ap, ◌∙◌, subst, ◌⊎◌, inl, inr, Bool, true, false, none, some, [], ◌∷◌, ◌++◌, arith, eq_iff,
}
use acvjepa_project.Review.{
  ReviewStatus, approved_for_data, rejected, CaseRow, Cases, has_id, case_of, new_row, register,
  is_reviewable, first_verdict, submit_first_review, awaits_second, is_reviewer,
  submit_second_review, Op, add, first, second, step,
}
use acvjepa_project.Review.Records.{QuarantinedCase, CorrectionPatch}

abbrev pub first_reviewed : CorrectionPatch → ReviewStatus → CaseRow → CaseRow
first_reviewed p status r = record r {
  status = status;
  first_reviewer = some p.reviewer_id;
  first_patch = some p;
}

abbrev pub verdict : Bool → ReviewStatus
verdict approve = if approve then approved_for_data else rejected

abbrev pub second_reviewed : CorrectionPatch → Bool → CaseRow → CaseRow
second_reviewed p approve r = record r {
  status = verdict approve;
  second_reviewer = some p.reviewer_id;
  second_patch = some p;
}

pub data ReviewStep (r r' : CaseRow) : Type 0 where
  stays : r' ≡ r → ReviewStep r r'
  reviewed :
      (p : CorrectionPatch)
      → is_reviewable r.status ≡ true
      → is_blank p.rationale ≡ false
      → r' ≡ first_reviewed p (first_verdict r.payload) r
      → ReviewStep r r'
  decided :
      (p : CorrectionPatch) (approve : Bool)
      → awaits_second r.status ≡ true
      → is_reviewer p.reviewer_id r.first_reviewer ≡ false
      → r' ≡ second_reviewed p approve r
      → ReviewStep r r'

register-state :
    (c : QuarantinedCase) (rows : Cases)
    → ((register c rows).1 ≡ rows)
      ⊎ ((case_of c.case_id rows ≡ none) × ((register c rows).1 ≡ rows ++ new_row c ∷ []))
unfolding register
register-state c rows = elim (Option-cases (case_of c.case_id rows)) [
  | inl e ↦ inr (e, ground arith)
  | inr (r, e) ↦ inl (ground arith)
]

first-state :
    (p : CorrectionPatch) (rows : Cases)
    → ((submit_first_review p rows).1 ≡ rows)
      ⊎ ((r : CaseRow) × (case_of p.case_id rows ≡ some r)
          × (is_reviewable r.status ≡ true)
          × (is_blank p.rationale ≡ false)
          × ((submit_first_review p rows).1
              ≡ update (has_id p.case_id) (first_reviewed p (first_verdict r.payload)) rows))
unfolding submit_first_review
first-state p rows = elim (Option-cases (case_of p.case_id rows)) [
  | inl e ↦ inl (ground arith)
  | inr (r, e) ↦ elim (Bool-cases (is_reviewable r.status)) [
    | inl can ↦ elim (Bool-cases (is_blank p.rationale)) [
      | inl blank ↦ inl (ground arith)
      | inr said ↦ inr (r, e, can, said, ground arith)
    ]
    | inr cannot ↦ inl (ground arith)
  ]
]

second-state :
    (p : CorrectionPatch) (approve : Bool) (rows : Cases)
    → ((submit_second_review p approve rows).1 ≡ rows)
      ⊎ ((r : CaseRow) × (case_of p.case_id rows ≡ some r)
          × (awaits_second r.status ≡ true)
          × (is_reviewer p.reviewer_id r.first_reviewer ≡ false)
          × ((submit_second_review p approve rows).1
              ≡ update (has_id p.case_id) (second_reviewed p approve) rows))
unfolding submit_second_review
second-state p approve rows = elim (Option-cases (case_of p.case_id rows)) [
  | inl e ↦ inl (ground arith)
  | inr (r, e) ↦ elim (Bool-cases (awaits_second r.status)) [
    | inl waits ↦ elim (Bool-cases (is_reviewer p.reviewer_id r.first_reviewer)) [
      | inl same ↦ inl (ground arith)
      | inr other ↦ inr (r, e, waits, other, ground arith)
    ]
    | inr done ↦ inl (ground arith)
  ]
]

-- An update of one case, seen from the row of any case.
case_of-update :
    (key id : String) (f : CaseRow → CaseRow) (rows : Cases) (k r : CaseRow)
    → ((x : CaseRow) → (f x).payload ≡ x.payload)
    → case_of key rows ≡ some k
    → case_of id rows ≡ some r
    → (ReviewStep k (f k))
    → (r' : CaseRow) × (case_of id (update (has_id key) f rows) ≡ some r') × ReviewStep r r'
case_of-update key id f rows k r keep at_key at_id go =
    let moved : case_of id (update (has_id key) f rows) ≡ some (apply_if (has_id key) f r) =
      select_one-update (has_id id) (has_id key) f
        (λ x. ap (λ (c : QuarantinedCase). c.case_id == id) (keep x)) rows
      ∙ ap (Option.map (apply_if (has_id key) f)) at_id in
    elim (Bool-cases (r.payload.case_id == key)) [
      | inl here ↦
          let mine : r.payload.case_id ≡ id =
            (eq_iff r.payload.case_id id).0 (select_one-holds (has_id id) rows r at_id) in
          let keys : key ≡ id = sym ((eq_iff r.payload.case_id key).0 here) ∙ mine in
          let same : k ≡ r =
            some_inj (sym at_key ∙ ap (λ (x : String). case_of x rows) keys ∙ at_id) in
          (f r, rw here at moved, subst (λ x. ReviewStep x (f x)) same go)
      | inr there ↦ (r, rw there at moved, stays refl)
    ]

pub step-ReviewStep :
    (o : Op) (rows : Cases) (id : String) (r : CaseRow)
    → case_of id rows ≡ some r
    → (r' : CaseRow) × (case_of id (step o rows) ≡ some r') × ReviewStep r r'
unfolding step
step-ReviewStep (add c) rows id r found = elim (register-state c rows) [
  | inl e ↦ rw e (r, found, stays refl)
  | inr (new, e) ↦ rw e (r, select_one-append (has_id id) rows _ r found, stays refl)
]
step-ReviewStep (first p) rows id r found = elim (first-state p rows) [
  | inl e ↦ rw e (r, found, stays refl)
  | inr (k, at_key, can, said, e) ↦
      rw e
        (case_of-update p.case_id id _ rows k r (λ x. refl) at_key found (reviewed p can said refl))
]
step-ReviewStep (second p approve) rows id r found = elim (second-state p approve rows) [
  | inl e ↦ rw e (r, found, stays refl)
  | inr (k, at_key, waits, other, e) ↦ rw e (
      case_of-update p.case_id id _ rows k r (λ x. refl) at_key found
        (decided p approve waits other refl))
]

-- A case that a call brings in is new.
pub step-new :
    (o : Op) (rows : Cases) (id : String) (r : CaseRow)
    → case_of id rows ≡ none
    → case_of id (step o rows) ≡ some r
    → (c : QuarantinedCase) × (r ≡ new_row c)
unfolding step
step-new (add c) rows id r missing found = elim (register-state c rows) [
  | inl e ↦ absurd (ground arith)
  | inr (new, e) ↦
      (c, let h = select_one-append_none (has_id id) rows (new_row c ∷ []) missing in ground arith)
]
step-new (first p) rows id r missing found = elim (first-state p rows) [
  | inl e ↦ absurd (ground arith)
  | inr (k, at_key, can, said, e) ↦
      let h =
        select_one-update (has_id id) (has_id p.case_id)
          (first_reviewed p (first_verdict k.payload)) (λ x. refl) rows in
      absurd (ground arith)
]
step-new (second p approve) rows id r missing found = elim (second-state p approve rows) [
  | inl e ↦ absurd (ground arith)
  | inr (k, at_key, waits, other, e) ↦
      let h =
        select_one-update (has_id id) (has_id p.case_id) (second_reviewed p approve) (λ x. refl)
          rows in
      absurd (ground arith)
]
