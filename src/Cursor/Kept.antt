-- ===== src/Cursor/Kept.antt =====
-- Each call keeps the run consistent with the work that it has consumed.
use acvjepa_project.Prelude.Int.{int_eq}
use acvjepa_project.Prelude.Text.{concat}
use acvjepa_project.Prelude.Table.{update, select_one-append, select_one-All, update-All}
use acvjepa_project.Prelude.Hashing.{Hashing}
use mathlib.Core.List.{append-nil}
use mathlib.Core.Path.{ap₂}
use acvjepa_project.Prelude.Sets.{count-same_set}
use acvjepa_project.Prelude.{
  Bool-cases, some_inj, string_eq, nat_eq, ◌==◌, length, take, take-append-between, All, All-append,
  ok, Result-cases, ℕ, ◌≤◌, String, ◌≡◌, refl, sym, ap, ◌∙◌, inl, inr, Bool, some, List, [], ◌++◌,
  arith, eq_iff,
}
use acvjepa_project.Cursor.{
  CommittedCursor, committed, CursorRow, AttemptRow, Ledger, UpdateReservation, cursor_of,
  prepared_for, validate_cursor_manifest, bootstrap, prepare_next_update, set_aborted,
  abort_uncommitted, recover_after_rendezvous, advance, commit_update,
}
use acvjepa_project.Cursor.Types.{
  GlobalWorkManifest, work_ids, manifest_digest, between, ElasticIdentity, CursorBoundPlan,
  all_work_ids, CheckpointArtifact,
}
use acvjepa_project.Cursor.Storage.{Files}
use acvjepa_project.Cursor.Steps.{
  IsReserved, prepare-err, prepare-ok, prepare-distinct, IsCommitted, commit-err, commit-ok,
  abort-err, abort-ok, recover-err, recover-ok, bootstrap-err, bootstrap-ok,
}
use acvjepa_project.Cursor.Ranges.{work_ids-between, length-work_ids, cursor_of-update}
use acvjepa_project.Cursor.Schedule.{
  Op, boot, prepare, abort, recover, commit, step, ids_of_run, consumes, performs, times_in,
  RowFits, IsConsistent, HasOneOrder,
}

module _ (h : Hashing) (fs : Files) (key d : String) (ids : List String) where
  abbrev pub Kept : Op → Ledger → List String → Type 0
  Kept o l xs = IsConsistent key d ids (step h fs o l) (xs ++ consumes h fs key o l)

  set_aborted-RowFits :
      (why : String) (r : AttemptRow) → RowFits key ids r → RowFits key ids (set_aborted why r)
  set_aborted-RowFits why r f e = record {
    ordered = (f e).ordered;
    inside = (f e).inside;
    range = (f e).range;
    shared_out = (f e).shared_out;
  }

  cursor_binds :
      (c : CommittedCursor) (m : GlobalWorkManifest)
      → validate_cursor_manifest h c m ≡ ok tt
      → manifest_digest h m ≡ ok c.manifest_digest
  unfolding validate_cursor_manifest
  cursor_binds c m v = elim (Result-cases (manifest_digest h m)) [
    | inl (x, p) ↦ ground (arith, eq_iff c.manifest_digest x)
    | inr (e, p) ↦ absurd (ground arith)
  ]

  kept_same :
      {l l' : Ledger} {xs : List String}
      → l' ≡ l
      → IsConsistent key d ids l xs
      → IsConsistent key d ids l' (xs ++ [])
  kept_same e v = rw (e, append-nil) v

  kept_aborting :
      (q : AttemptRow → Bool) (why : String) (l l' : Ledger) (xs : List String)
      → l' ≡ record l { attempts = update q (set_aborted why) l.attempts }
      → IsConsistent key d ids l xs
      → IsConsistent key d ids l' (xs ++ [])
  kept_aborting q why l l' xs e v =
      rw (e, append-nil)
        (record {
          rows =
              update-All (RowFits key ids) q (set_aborted why) l.attempts (set_aborted-RowFits why)
                v.rows;
          row = v.row;
          found = v.found;
          digest = v.digest;
          inside = v.inside;
          done = v.done;
        })

  abort-Kept :
      (id reason : String) (l : Ledger) (xs : List String)
      → IsConsistent key d ids l xs
      → Kept (abort id reason) l xs
  unfolding step consumes
  abort-Kept id reason l xs v = elim (Result-cases (abort_uncommitted id reason l).0) [
    | inr (e, q) ↦ kept_same (abort-err id reason l e q) v
    | inl (u, q) ↦
        kept_aborting (λ x. x.attempt_id == id) reason l _ xs (abort-ok id reason l q).3 v
  ]

  recover-Kept :
      (k : String) (m : GlobalWorkManifest) (i : ElasticIdentity) (reason : String) (l : Ledger)
      (xs : List String)
      → IsConsistent key d ids l xs
      → Kept (recover k m i reason) l xs
  unfolding step consumes
  recover-Kept k m i reason l xs v =
      elim (Result-cases (recover_after_rendezvous h k m i reason l).0) [
        | inr (e, q) ↦ kept_same (recover-err h k m i reason l e q) v
        | inl (c, q) ↦
            kept_aborting (prepared_for k) (concat "rendezvous_rebuild:" reason) l _ xs
              (recover-ok h k m i reason l c q).3 v
      ]

  boot-Kept :
      (k : String) (m : GlobalWorkManifest) (c : CheckpointArtifact) (i : ElasticIdentity)
      (l : Ledger) (xs : List String)
      → IsConsistent key d ids l xs
      → Kept (boot k m c i) l xs
  unfolding step consumes
  boot-Kept k m c i l xs v = elim (Result-cases (bootstrap h k m c i l).0) [
    | inr (e, q) ↦ kept_same (bootstrap-err h k m c i l e q) v
    | inl (c', q) ↦ elim (bootstrap-ok h k m c i l c' q) [
      | inl (row, found, same, kept) ↦ kept_same kept v
      | inr (missing, zero_offset, bound, grown) ↦
          rw (grown, append-nil)
            (record {
              rows = v.rows;
              row = v.row;
              found = select_one-append (λ r. r.run_key == key) l.cursors _ v.row v.found;
              digest = v.digest;
              inside = v.inside;
              done = v.done;
            })
    ]
  ]

  same_row :
      (k : String) (l : Ledger) (c r : CursorRow)
      → k ≡ key
      → cursor_of k l ≡ some c
      → cursor_of key l ≡ some r
      → c ≡ r
  same_row k l c r e p q = some_inj (sym (rw e at p) ∙ q)

  reserved_Fits :
      (k : String) (m : GlobalWorkManifest) (p : CursorBoundPlan) (i : ElasticIdentity)
      (l l' : Ledger) (xs : List String) (r : UpdateReservation) (c : CursorRow)
      → (manifest_digest h m ≡ ok d → work_ids m.ordered_windows ≡ ids)
      → IsConsistent key d ids l xs
      → IsReserved l l' k m p i r c
      → validate_cursor_manifest h c.cursor m ≡ ok tt
      → k ≡ key
      → (r.start_offset ≤ r.end_offset)
        × (r.end_offset ≤ length ids)
        × (r.reserved_global_work_ids ≡ between r.start_offset r.end_offset ids)
  reserved_Fits k m p i l l' xs r c one v s bound e =
      let same : c ≡ v.row = same_row k l c v.row e s.found v.found in
      let order : work_ids m.ordered_windows ≡ ids = one (
        cursor_binds c.cursor m bound
        ∙ ap (λ (x : String). ok x)
            (ap (λ (x : CursorRow). x.cursor.manifest_digest) same ∙ v.digest)) in
      (
        omega (arith, s.by_count),
        omega (arith, s.inside, length-work_ids m.ordered_windows, ap length order),
        s.ids
            ∙ work_ids-between r.start_offset r.end_offset m.ordered_windows
            ∙ ap (between r.start_offset r.end_offset) order,
      )

  prepare-Kept :
      (uuid k : String) (m : GlobalWorkManifest) (p : CursorBoundPlan) (i : ElasticIdentity)
      (l : Ledger) (xs : List String)
      → HasOneOrder h d ids (prepare uuid k m p i)
      → IsConsistent key d ids l xs
      → Kept (prepare uuid k m p i) l xs
  unfolding step consumes
  prepare-Kept uuid k m p i l xs one v =
      elim (Result-cases (prepare_next_update h uuid k m p i l).0) [
        | inr (e, q) ↦ kept_same (prepare-err h uuid k m p i l e q) v
        | inl (r, q) ↦
            let (c, s, bound) = prepare-ok h uuid k m p i l r q in
            rw append-nil (record {
              rows = rw s.attempts (
                  All-append (RowFits key ids) l.attempts _ v.rows (
                    (λ e.
                        let (a, b, g) = reserved_Fits k m p i l _ xs r c one v s bound e in
                        record {
                          ordered = a;
                          inside = b;
                          range = g;
                          shared_out =
                              count-same_set (all_work_ids p) r.reserved_global_work_ids
                                (prepare-distinct h uuid k m p i l r q) s.exact s.as_many;
                        }),
                    tt,
                  ));
              row = v.row;
              found = rw s.cursors v.found;
              digest = v.digest;
              inside = v.inside;
              done = v.done;
            })
      ]

  committed_RowFits :
      (k : CheckpointArtifact) (r : AttemptRow)
      → RowFits key ids r
      → RowFits key ids (record r { status = committed; checkpoint = some k })
  committed_RowFits k r f e = record {
    ordered = (f e).ordered;
    inside = (f e).inside;
    range = (f e).range;
    shared_out = (f e).shared_out;
  }

  committed_keeps :
      (id : String) (m : GlobalWorkManifest) (k : CheckpointArtifact) (i : ElasticIdentity)
      (l l' : Ledger) (xs : List String) (r : AttemptRow) (c : CursorRow) (c' : CommittedCursor)
      → IsConsistent key d ids l xs
      → IsCommitted h fs l l' id m k i r c c'
      → IsConsistent key d ids l' (xs ++ ids_of_run key (some r))
  committed_keeps id m k i l l' xs r c c' v s = elim (Bool-cases (r.run_key == key)) [
    | inr other ↦
        rw (other, append-nil)
          (record {
            rows = rows';
            row = v.row;
            found = rw s.cursors (
                cursor_of-update key r.run_key (advance h fs c.cursor r k i) l.cursors
                ∙ rw other v.found);
            digest = v.digest;
            inside = v.inside;
            done = v.done;
          })
    | inl mine ↦ rw mine (
        let e : r.run_key ≡ key = (eq_iff r.run_key key).0 mine in
        let fits =
          select_one-All (RowFits key ids) (λ x. x.attempt_id == id) l.attempts r v.rows s.attempt
            e in
        let same : c ≡ v.row = same_row r.run_key l c v.row e s.found v.found in
        let start : v.row.cursor.next_offset ≡ r.start_offset =
          sym (ap (λ (x : CursorRow). x.cursor.next_offset) same) ∙ s.at_start in
        record {
          rows = rows';
          row = record v.row { cursor = advance h fs c.cursor r k i };
          found = rw s.cursors (
              cursor_of-update key r.run_key (advance h fs c.cursor r k i) l.cursors
              ∙ rw (mine, v.found));
          digest = ap (λ (x : CursorRow). x.cursor.manifest_digest) same ∙ v.digest;
          inside = fits.inside;
          done =
              ap₂ (λ (x y : List String). x ++ y) (v.done ∙ ap (λ (n : ℕ). take n ids) start)
                fits.range
              ∙ take-append-between r.start_offset r.end_offset ids fits.ordered;
        })
  ]
    where
      rows' : All (RowFits key ids) l'.attempts
      rows' = rw s.attempts (
          update-All (RowFits key ids) (λ x. x.attempt_id == id)
            (λ x. record x { status = committed; checkpoint = some k }) l.attempts
            (committed_RowFits k) v.rows)

  commit-Kept :
      (id : String) (m : GlobalWorkManifest) (k : CheckpointArtifact) (i : ElasticIdentity)
      (l : Ledger) (xs : List String)
      → IsConsistent key d ids l xs
      → Kept (commit id m k i) l xs
  unfolding step consumes
  commit-Kept id m k i l xs v = elim (Result-cases (commit_update h fs id m k i l).0) [
    | inr (e, q) ↦ rw q (kept_same (commit-err h fs id m k i l e q) v)
    | inl (c', q) ↦
        let (r, c, s) = commit-ok h fs id m k i l c' q in
        rw (q, s.attempt) (committed_keeps id m k i l _ xs r c c' v s)
  ]

  -- What the ranks of a committed plan do is what the run consumes.
  pub performs-consumes :
      (o : Op) (l : Ledger) (xs : List String) (id : String)
      → IsConsistent key d ids l xs
      → times_in id (performs h fs key o l) ≡ times_in id (consumes h fs key o l)
  unfolding performs consumes
  performs-consumes (boot k m c i) l xs id v = refl
  performs-consumes (prepare uuid k m p i) l xs id v = refl
  performs-consumes (abort x reason) l xs id v = refl
  performs-consumes (recover k m i reason) l xs id v = refl
  performs-consumes (commit x m k i) l xs id v =
      elim (Result-cases (commit_update h fs x m k i l).0) [
        | inr (e, q) ↦ rw q refl
        | inl (c', q) ↦
            let (r, c, s) = commit-ok h fs x m k i l c' q in
            elim (Bool-cases (r.run_key == key)) [
              | inr other ↦ rw (q, s.attempt, other) refl
              | inl mine ↦
                  let fits =
                    select_one-All (RowFits key ids) (λ y. y.attempt_id == x) l.attempts r v.rows
                      s.attempt ((eq_iff r.run_key key).0 mine) in
                  rw (q, s.attempt, mine) (fits.shared_out id)
            ]
      ]

  pub step-Kept :
      (o : Op) (l : Ledger) (xs : List String)
      → HasOneOrder h d ids o
      → IsConsistent key d ids l xs
      → Kept o l xs
  step-Kept (boot k m c i) l xs one v = boot-Kept k m c i l xs v
  step-Kept (prepare uuid k m p i) l xs one v = prepare-Kept uuid k m p i l xs one v
  step-Kept (abort id reason) l xs one v = abort-Kept id reason l xs v
  step-Kept (recover k m i reason) l xs one v = recover-Kept k m i reason l xs v
  step-Kept (commit id m c i) l xs one v = commit-Kept id m c i l xs v
