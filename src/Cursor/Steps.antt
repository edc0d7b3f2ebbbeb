-- ===== src/Cursor/Steps.antt =====
-- What each method of the cursor ledger does on success and on failure.
use acvjepa_project.Prelude.{
  Option-cases, string_eq, nat_eq, ◌==◌, length, any, distinct, same_set, ok, err, Result-cases,
  ◌+◌, ◌≤◌, String, ◌≡◌, ◌⊎◌, inl, inr, true, false, none, some, [], ◌∷◌, ◌++◌, arith, eq_iff,
}
use acvjepa_project.Prelude.Hashing.{Hashing}
use acvjepa_project.Cursor.Storage.{Files, checkpoint_bytes_match}
use acvjepa_project.Cursor.Types.{
  CursorError, GlobalWorkManifest, work_ids, validate_manifest, manifest_digest, between, slice,
  ElasticIdentity, identity_beq, CursorBoundPlan, all_work_ids, validate_plan, CheckpointArtifact,
}
use acvjepa_project.Cursor.{
  CommittedCursor, prepared, committed, CursorRow, AttemptRow, Ledger, UpdateReservation, cursor_of,
  attempt_of, prepared_for, validate_cursor_manifest, validate_plan_identity, bootstrap,
  prepare_next_update, set_aborted, abort_uncommitted, recover_after_rendezvous, advance,
  commit_update,
}
use acvjepa_project.Prelude.Int.{int_eq}
use acvjepa_project.Prelude.Text.{concat}
use acvjepa_project.Prelude.Table.{update}

-- The new row and the reservation of a successful `prepare_next_update`, on the cursor `c`.
pub record IsReserved (l l' : Ledger) (key : String) (m : GlobalWorkManifest) (p : CursorBoundPlan)
    (i : ElasticIdentity) (r : UpdateReservation) (c : CursorRow) : Type 0 where
  pub found : cursor_of key l ≡ some c
  pub from_cursor : r.start_offset ≡ c.cursor.next_offset
  pub by_count : r.end_offset ≡ r.start_offset + length (all_work_ids p)
  pub inside : r.end_offset ≤ length m.ordered_windows
  pub ids :
      r.reserved_global_work_ids ≡ work_ids (between r.start_offset r.end_offset m.ordered_windows)
  pub exact : same_set (all_work_ids p) r.reserved_global_work_ids ≡ true
  pub as_many : length (all_work_ids p) ≡ length r.reserved_global_work_ids
  pub none_before : any (prepared_for key) l.attempts ≡ false
  pub cursors : l'.cursors ≡ l.cursors
  pub attempts :
      l'.attempts
      ≡ l.attempts
        ++ record {
          attempt_id = r.attempt_id;
          run_key = key;
          parent_commit_id = c.cursor.commit_id;
          start_offset = r.start_offset;
          end_offset = r.end_offset;
          plan = p;
          identity = i;
          global_work_ids = r.reserved_global_work_ids;
          status = prepared;
          checkpoint = none;
          reason = none;
        }
          ∷ []

module _ (h : Hashing) (uuid key : String) (m : GlobalWorkManifest) (p : CursorBoundPlan)
    (i : ElasticIdentity) (l : Ledger) where
  pub prepare-err :
      (e : CursorError)
      → (prepare_next_update h uuid key m p i l).0 ≡ err e
      → (prepare_next_update h uuid key m p i l).1 ≡ l
  unfolding prepare_next_update
  prepare-err e q = ground arith

  pub prepare-ok :
      (r : UpdateReservation)
      → (prepare_next_update h uuid key m p i l).0 ≡ ok r
      → (c : CursorRow) × IsReserved l (prepare_next_update h uuid key m p i l).1 key m p i r c
        × (validate_cursor_manifest h c.cursor m ≡ ok tt)
  unfolding prepare_next_update slice
  prepare-ok r q = elim (Option-cases (cursor_of key l)) [
    | inl missing ↦ absurd (ground arith)
    | inr (c, found) ↦ (c, ground arith, ground arith)
  ]

plan_without_repetition :
    (p : CursorBoundPlan) → validate_plan p ≡ ok tt → distinct (all_work_ids p) ≡ true
unfolding validate_plan
plan_without_repetition p valid = ground arith

module _ (h : Hashing) (uuid key : String) (m : GlobalWorkManifest) (p : CursorBoundPlan)
    (i : ElasticIdentity) (l : Ledger) where
  -- A plan that is reserved repeats no work id.
  pub prepare-distinct :
      (r : UpdateReservation)
      → (prepare_next_update h uuid key m p i l).0 ≡ ok r
      → distinct (all_work_ids p) ≡ true
  unfolding prepare_next_update
  prepare-distinct r q = elim (Result-cases (validate_manifest m)) [
    | inr (e, bad) ↦ absurd (ground arith)
    | inl (u, good) ↦ elim (Result-cases (validate_plan p)) [
      | inr (e, bad) ↦ absurd (ground arith)
      | inl (v, valid) ↦ plan_without_repetition p valid
    ]
  ]

-- What a successful `commit_update` has found and written, on the attempt `r` and the cursor `c`.
pub record IsCommitted (h : Hashing) (fs : Files) (l l' : Ledger) (id : String)
    (m : GlobalWorkManifest) (k : CheckpointArtifact) (i : ElasticIdentity) (r : AttemptRow)
    (c : CursorRow) (c' : CommittedCursor) : Type 0 where
  pub attempt : attempt_of id l ≡ some r
  pub was_prepared : r.status ≡ prepared
  pub same_identity : identity_beq r.identity i ≡ true
  pub found : cursor_of r.run_key l ≡ some c
  pub at_start : c.cursor.next_offset ≡ r.start_offset
  pub at_parent : c.cursor.commit_id ≡ r.parent_commit_id
  pub verified : checkpoint_bytes_match h fs k ≡ ok tt
  pub planned : validate_plan_identity h r.plan i m ≡ ok tt
  pub cursors :
      l'.cursors
      ≡ update
          (λ x. x.run_key == r.run_key)
          (λ x. record x { cursor = advance h fs c.cursor r k i })
          l.cursors
  pub attempts :
      l'.attempts
      ≡ update
          (λ x. x.attempt_id == id)
          (λ x. record x { status = committed; checkpoint = some k })
          l.attempts

module _ (h : Hashing) (fs : Files) (id : String) (m : GlobalWorkManifest) (k : CheckpointArtifact)
    (i : ElasticIdentity) (l : Ledger) where
  pub commit-err :
      (e : CursorError)
      → (commit_update h fs id m k i l).0 ≡ err e
      → (commit_update h fs id m k i l).1 ≡ l
  unfolding commit_update
  commit-err e q = ground arith

  pub commit-ok :
      (c' : CommittedCursor)
      → (commit_update h fs id m k i l).0 ≡ ok c'
      → (r : AttemptRow) × (c : CursorRow) × IsCommitted h fs l
          (commit_update h fs id m k i l).1
          id
          m
          k
          i
          r
          c
          c'
  unfolding commit_update
  commit-ok c' q = elim (Option-cases (attempt_of id l)) [
    | inl missing ↦ absurd (ground arith)
    | inr (r, attempt) ↦ elim (Option-cases (cursor_of r.run_key l)) [
      | inl missing ↦ absurd (ground arith)
      | inr (c, found) ↦ (
        r,
        c,
        record {
          attempt = attempt;
          was_prepared = ground arith;
          same_identity = ground arith;
          found = found;
          at_start = ground arith;
          at_parent = ground (arith, eq_iff c.cursor.commit_id r.parent_commit_id);
          verified = ground arith;
          planned = ground arith;
          cursors = ground arith;
          attempts = ground arith;
        },
      )
    ]
  ]

module _ (id reason : String) (l : Ledger) where
  pub abort-err :
      (e : CursorError)
      → (abort_uncommitted id reason l).0 ≡ err e
      → (abort_uncommitted id reason l).1 ≡ l
  unfolding abort_uncommitted
  abort-err e q = ground arith

  -- Only a prepared attempt can be aborted.
  pub abort-ok :
      (abort_uncommitted id reason l).0 ≡ ok tt
      → (r : AttemptRow) × (attempt_of id l ≡ some r)
        × (r.status ≡ prepared)
        × ((abort_uncommitted id reason l).1 ≡ record l {
          attempts = update (λ x. x.attempt_id == id) (set_aborted reason) l.attempts;
        })
  unfolding abort_uncommitted
  abort-ok q = elim (Option-cases (attempt_of id l)) [
    | inl missing ↦ absurd (ground arith)
    | inr (r, attempt) ↦ (r, attempt, ground arith, ground arith)
  ]

module _ (h : Hashing) (key : String) (m : GlobalWorkManifest) (i : ElasticIdentity)
    (reason : String) (l : Ledger) where
  pub recover-err :
      (e : CursorError)
      → (recover_after_rendezvous h key m i reason l).0 ≡ err e
      → (recover_after_rendezvous h key m i reason l).1 ≡ l
  unfolding recover_after_rendezvous
  recover-err e q = ground arith

  pub recover-ok :
      (c : CommittedCursor)
      → (recover_after_rendezvous h key m i reason l).0 ≡ ok c
      → (row : CursorRow) × (cursor_of key l ≡ some row)
        × (c ≡ row.cursor)
        × ((recover_after_rendezvous h key m i reason l).1 ≡ record l {
          attempts =
              update
                (prepared_for key)
                (set_aborted (concat "rendezvous_rebuild:" reason))
                l.attempts;
        })
  unfolding recover_after_rendezvous
  recover-ok c q = elim (Option-cases (cursor_of key l)) [
    | inl missing ↦ absurd (ground arith)
    | inr (row, found) ↦ (row, found, ground arith, ground arith)
  ]

module _ (h : Hashing) (key : String) (m : GlobalWorkManifest) (k : CheckpointArtifact)
    (i : ElasticIdentity) (l : Ledger) where
  pub bootstrap-err :
      (e : CursorError) → (bootstrap h key m k i l).0 ≡ err e → (bootstrap h key m k i l).1 ≡ l
  unfolding bootstrap
  bootstrap-err e q = ground arith

  -- An existing cursor is returned as it is; a new one starts at the first window.
  pub bootstrap-ok :
      (c : CommittedCursor)
      → (bootstrap h key m k i l).0 ≡ ok c
      → ((row : CursorRow) × (cursor_of key l ≡ some row)
          × (c ≡ row.cursor)
          × ((bootstrap h key m k i l).1 ≡ l))
        ⊎ ((cursor_of key l ≡ none)
            × (c.next_offset ≡ 0)
            × (manifest_digest h m ≡ ok c.manifest_digest)
            × ((bootstrap h key m k i l).1
                ≡ record l { cursors = l.cursors ++ record { run_key = key; cursor = c } ∷ [] }))
  unfolding bootstrap
  bootstrap-ok c q = elim (Option-cases (cursor_of key l)) [
    | inl missing ↦ inr (missing, ground arith, ground arith, ground arith)
    | inr (row, found) ↦ inl (row, found, ground arith, ground arith)
  ]
