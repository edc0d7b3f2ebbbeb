-- ===== src/Cursor/Fences.antt =====
-- Failures, recovery after a rendezvous, and the one prepared attempt of a run.
use acvjepa_project.Prelude.Int.{int_eq}
use acvjepa_project.Prelude.Text.{concat}
use native.Mathlib.Nat.{le_trans}
use acvjepa_project.Prelude.Table.{
  update, count, count-append, select_one-All, count_zero, count-update-le,
}
use acvjepa_project.Prelude.Hashing.{Hashing}
use acvjepa_project.Prelude.{
  Bool-cases, some_inj, string_eq, nat_eq, ◌==◌, any, All, ok, err, Result-cases, ◌≤◌, String, ◌≡◌,
  refl, sym, ap, ◌∙◌, subst, inl, inr, true, false, some, List, [], ◌∷◌, ◌++◌, arith, eq_iff,
}
use acvjepa_project.Cursor.{
  CommittedCursor, prepared, committed, AttemptRow, Ledger, attempt_of, prepared_for,
  latest_committed, bootstrap, prepare_next_update, set_aborted, abort_uncommitted,
  recover_after_rendezvous, commit_update,
}
use acvjepa_project.Cursor.Types.{
  CursorError, GlobalWorkManifest, ElasticIdentity, CheckpointArtifact,
}
use acvjepa_project.Cursor.Storage.{Files}
use acvjepa_project.Cursor.Steps.{
  prepare-err, prepare-ok, commit-err, commit-ok, abort-err, abort-ok, recover-err, recover-ok,
  bootstrap-err, bootstrap-ok,
}
use acvjepa_project.Cursor.Schedule.{
  Op, boot, prepare, abort, recover, commit, step, err_of_forget, outcome, run,
}

aborting_clears :
    (key why : String) (rs : List AttemptRow)
    → All (λ r. prepared_for key r ≡ false) (update (prepared_for key) (set_aborted why) rs)
aborting_clears key why [] = tt
aborting_clears key why (r ∷ rs) = elim (Bool-cases (prepared_for key r)) [
  | inl e ↦ rw e (ground arith, aborting_clears key why rs)
  | inr e ↦ rw e (e, aborting_clears key why rs)
]

not_both :
    (key : String) (r : AttemptRow)
    → r.run_key ≡ key
    → r.status ≡ prepared
    → prepared_for key r ≡ false
    → ⊥
not_both key r e p f = ground (arith, eq_iff r.run_key key)

nothing_prepared :
    (h : Hashing) (fs : Files) (key id : String) (m : GlobalWorkManifest) (k : CheckpointArtifact)
    (i : ElasticIdentity) (r : AttemptRow) (l : Ledger)
    → All (λ x. prepared_for key x ≡ false) l.attempts
    → attempt_of id l ≡ some r
    → r.run_key ≡ key
    → (e : CursorError) × ((commit_update h fs id m k i l).0 ≡ err e)
nothing_prepared h fs key id m k i r l clear found mine =
    elim (Result-cases (commit_update h fs id m k i l).0) [
      | inr failed ↦ failed
      | inl (c', q) ↦
          let (r', c, s) = commit-ok h fs id m k i l c' q in
          let same : r' ≡ r = some_inj (sym s.attempt ∙ found) in
          absurd (
            not_both key r mine (sym (ap (λ (x : AttemptRow). x.status) same) ∙ s.was_prepared) (
              select_one-All (λ x. prepared_for key x ≡ false) (λ x. x.attempt_id == id) l.attempts
                r clear found))
    ]

-- A recovery that succeeds returns the committed cursor, moves no cursor, and fences the run: no
-- attempt of the run that is in the ledger then can be committed.
pub recover_fences :
    (h : Hashing) (fs : Files) (key : String) (m : GlobalWorkManifest) (i : ElasticIdentity)
    (reason : String) (l : Ledger) (c : CommittedCursor)
    → (recover_after_rendezvous h key m i reason l).0 ≡ ok c
    → let l' = (recover_after_rendezvous h key m i reason l).1 in
      (l'.cursors ≡ l.cursors)
      × ((latest_committed key l').0 ≡ ok c)
      × ((id : String) (m' : GlobalWorkManifest) (k : CheckpointArtifact) (i' : ElasticIdentity)
            (r : AttemptRow)
          → attempt_of id l' ≡ some r
          → r.run_key ≡ key
          → (e : CursorError) × (commit_update h fs id m' k i' l').0 ≡ err e)
unfolding latest_committed
recover_fences h fs key m i reason l c q =
    let (row, found, same, grown) = recover-ok h key m i reason l c q in
    (
      rw grown refl,
      rw grown (rw found (rw same refl)),
      λ id m' k i' r at mine.
          nothing_prepared h fs key id m' k i' r (recover_after_rendezvous h key m i reason l).1
            (rw grown (aborting_clears key (concat "rendezvous_rebuild:" reason) l.attempts)) at
            mine,
    )

module _ (key : String) where
  aborted_is_out :
      (why : String) (r : AttemptRow)
      → prepared_for key (set_aborted why r) ≡ true
      → prepared_for key r ≡ true
  aborted_is_out why r e = ground arith

  committed_is_out :
      (k : CheckpointArtifact) (r : AttemptRow)
      → prepared_for key (record r { status = committed; checkpoint = some k }) ≡ true
      → prepared_for key r ≡ true
  committed_is_out k r e = ground arith

  one_more :
      (k : String) (rs : List AttemptRow) (r : AttemptRow)
      → any (prepared_for k) rs ≡ false
      → r.run_key ≡ k
      → count (prepared_for key) rs ≤ 1
      → count (prepared_for key) (rs ++ r ∷ []) ≤ 1
  one_more k rs r none_before mine v = elim (Bool-cases (k == key)) [
    | inl e ↦
        let empty_before : count (prepared_for key) rs ≡ 0 =
          subst (λ x. count (prepared_for x) rs ≡ 0) ((eq_iff k key).0 e)
            (count_zero (prepared_for k) rs none_before) in
        rw count-append (rw empty_before (ground arith))
    | inr e ↦ rw count-append (rw (mine, e) (omega (arith, v)))
  ]

-- A call that fails, at whatever check, leaves every cursor and every attempt as it was.
pub failed_changes_nothing :
    (h : Hashing) (fs : Files) (o : Op) (l : Ledger) (e : CursorError)
    → outcome h fs o l ≡ err e
    → step h fs o l ≡ l
unfolding step outcome
failed_changes_nothing h fs (boot key m c i) l e q =
    bootstrap-err h key m c i l e (err_of_forget _ e q)
failed_changes_nothing h fs (prepare uuid key m p i) l e q =
    prepare-err h uuid key m p i l e (err_of_forget _ e q)
failed_changes_nothing h fs (abort id reason) l e q = abort-err id reason l e (err_of_forget _ e q)
failed_changes_nothing h fs (recover key m i reason) l e q =
    recover-err h key m i reason l e (err_of_forget _ e q)
failed_changes_nothing h fs (commit id m c i) l e q =
    commit-err h fs id m c i l e (err_of_forget _ e q)

count-step-le :
    (h : Hashing) (fs : Files) (key : String) (o : Op) (l : Ledger)
    → count (prepared_for key) l.attempts ≤ 1
    → count (prepared_for key) (step h fs o l).attempts ≤ 1
unfolding step
count-step-le h fs key (boot k m c i) l v = elim (Result-cases (bootstrap h k m c i l).0) [
  | inr (e, q) ↦ rw (bootstrap-err h k m c i l e q) v
  | inl (c', q) ↦ elim (bootstrap-ok h k m c i l c' q) [
    | inl (row, found, same, kept) ↦ rw kept v
    | inr (missing, zero_offset, bound, grown) ↦ rw grown v
  ]
]
count-step-le h fs key (prepare uuid k m p i) l v =
    elim (Result-cases (prepare_next_update h uuid k m p i l).0) [
      | inr (e, q) ↦ rw (prepare-err h uuid k m p i l e q) v
      | inl (r, q) ↦
          let (c, s, bound) = prepare-ok h uuid k m p i l r q in
          rw s.attempts (one_more key k l.attempts _ s.none_before refl v)
    ]
count-step-le h fs key (abort id reason) l v =
    elim (Result-cases (abort_uncommitted id reason l).0) [
      | inr (e, q) ↦ rw (abort-err id reason l e q) v
      | inl (u, q) ↦ rw (abort-ok id reason l q).3 (
          le_trans
            (count-update-le (prepared_for key) (λ x. x.attempt_id == id) (set_aborted reason)
              l.attempts (aborted_is_out key reason))
            v)
    ]
count-step-le h fs key (recover k m i reason) l v =
    elim (Result-cases (recover_after_rendezvous h k m i reason l).0) [
      | inr (e, q) ↦ rw (recover-err h k m i reason l e q) v
      | inl (c, q) ↦ rw (recover-ok h k m i reason l c q).3 (
          le_trans
            (count-update-le (prepared_for key) (prepared_for k)
              (set_aborted (concat "rendezvous_rebuild:" reason)) l.attempts
              (aborted_is_out key (concat "rendezvous_rebuild:" reason)))
            v)
    ]
count-step-le h fs key (commit id m c i) l v =
    elim (Result-cases (commit_update h fs id m c i l).0) [
      | inr (e, q) ↦ rw (commit-err h fs id m c i l e q) v
      | inl (c', q) ↦
          let (r, c0, s) = commit-ok h fs id m c i l c' q in
          rw s.attempts (
            le_trans
              (count-update-le (prepared_for key) (λ x. x.attempt_id == id)
                (λ x. record x { status = committed; checkpoint = some c }) l.attempts
                (committed_is_out key c))
              v)
    ]

-- Whatever the calls, a run never has two prepared attempts.
pub run_one_prepared :
    (h : Hashing) (fs : Files) (key : String) (os : List Op) (l : Ledger)
    → count (prepared_for key) l.attempts ≤ 1
    → count (prepared_for key) (run h fs os l).attempts ≤ 1
unfolding run
run_one_prepared h fs key [] l v = v
run_one_prepared h fs key (o ∷ os) l v =
    run_one_prepared h fs key os (step h fs o l) (count-step-le h fs key o l v)
