-- ===== src/Cursor/Schedule.antt =====
-- Schedules of calls of the cursor ledger, and what they consume of one run's work.
use acvjepa_project.Prelude.Table.{count}
use acvjepa_project.Prelude.{
  if◌then◌else◌, string_eq, nat_eq, ◌==◌, length, take, All, Result, ok, err, ℕ, ◌≤◌, String, ◌≡◌,
  Option, none, some, List, [], ◌∷◌, ◌++◌, arith,
}
use acvjepa_project.Cursor.{
  CursorRow, AttemptRow, Ledger, cursor_of, attempt_of, bootstrap, prepare_next_update,
  abort_uncommitted, recover_after_rendezvous, commit_update,
}
use acvjepa_project.Cursor.Types.{
  CursorError, GlobalWorkManifest, work_ids, manifest_digest, between, ElasticIdentity,
  CursorBoundPlan, all_work_ids, CheckpointArtifact,
}
use acvjepa_project.Cursor.Storage.{Files}
use acvjepa_project.Prelude.Int.{int_eq}
use acvjepa_project.Prelude.Hashing.{Hashing}

-- The calls that change the ledger, with the fresh text of `uuid4` where one is drawn.
pub data Op : Type 0 where
  boot : String → GlobalWorkManifest → CheckpointArtifact → ElasticIdentity → Op
  prepare : String → String → GlobalWorkManifest → CursorBoundPlan → ElasticIdentity → Op
  abort : String → String → Op
  recover : String → GlobalWorkManifest → ElasticIdentity → String → Op
  commit : String → GlobalWorkManifest → CheckpointArtifact → ElasticIdentity → Op

unfoldable pub step : Hashing → Files → Op → Ledger → Ledger
step h fs (boot key m c i) l = (bootstrap h key m c i l).1
step h fs (prepare uuid key m p i) l = (prepare_next_update h uuid key m p i l).1
step h fs (abort id reason) l = (abort_uncommitted id reason l).1
step h fs (recover key m i reason) l = (recover_after_rendezvous h key m i reason l).1
step h fs (commit id m c i) l = (commit_update h fs id m c i l).1

abbrev pub forget : {A : Type 0} → Result CursorError A → Result CursorError (Unit {0})
forget (ok _) = ok tt
forget (err e) = err e

pub err_of_forget :
    {A : Type 0} (r : Result CursorError A) (e : CursorError) → forget r ≡ err e → r ≡ err e
err_of_forget (ok a) e q = ground arith
err_of_forget (err x) e q = ground arith

-- Whether a call succeeds, and with which error it fails.
unfoldable pub outcome : Hashing → Files → Op → Ledger → Result CursorError (Unit {0})
outcome h fs (boot key m c i) l = forget (bootstrap h key m c i l).0
outcome h fs (prepare uuid key m p i) l = forget (prepare_next_update h uuid key m p i l).0
outcome h fs (abort id reason) l = forget (abort_uncommitted id reason l).0
outcome h fs (recover key m i reason) l = forget (recover_after_rendezvous h key m i reason l).0
outcome h fs (commit id m c i) l = forget (commit_update h fs id m c i l).0

abbrev pub ids_of_run : String → Option AttemptRow → List String
ids_of_run key none = []
ids_of_run key (some r) = if r.run_key == key then r.global_work_ids else []

abbrev pub if_ok : {A : Type 0} → Result CursorError A → List String → List String
if_ok (ok _) ids = ids
if_ok (err _) ids = []

-- The work that a call consumes for a run: that of the attempt which it commits.
unfoldable pub consumes : Hashing → Files → String → Op → Ledger → List String
consumes h fs key (commit id m c i) l =
    if_ok (commit_update h fs id m c i l).0 (ids_of_run key (attempt_of id l))
consumes h fs key _ l = []

-- A schedule of calls: the ledger at its end, and the work consumed for the run, in order.
unfoldable pub run : Hashing → Files → List Op → Ledger → Ledger
run h fs [] l = l
run h fs (o ∷ os) l = run h fs os (step h fs o l)

-- The work of the ranks in a plan that a call commits for a run, rank after rank.
abbrev pub plan_of_run : String → Option AttemptRow → List String
plan_of_run key none = []
plan_of_run key (some r) = if r.run_key == key then all_work_ids r.plan else []

unfoldable pub performs : Hashing → Files → String → Op → Ledger → List String
performs h fs key (commit id m c i) l =
    if_ok (commit_update h fs id m c i l).0 (plan_of_run key (attempt_of id l))
performs h fs key _ l = []

unfoldable pub consumed : Hashing → Files → String → List Op → Ledger → List String
consumed h fs key [] l = []
consumed h fs key (o ∷ os) l = consumes h fs key o l ++ consumed h fs key os (step h fs o l)

-- The work of the ranks in all the plans that a schedule commits for the run.
unfoldable pub performed : Hashing → Files → String → List Op → Ledger → List String
performed h fs key [] l = []
performed h fs key (o ∷ os) l = performs h fs key o l ++ performed h fs key os (step h fs o l)

-- How often a work id is in a list.
abbrev pub times_in : String → List String → ℕ
times_in id xs = count (λ x. x == id) xs

-- The reserved range of a row, inside the order of work `ids`, and the work of its ranks, which is
-- that range in some order.
pub record Fits (ids : List String) (r : AttemptRow) : Type 0 where
  pub ordered : r.start_offset ≤ r.end_offset
  pub inside : r.end_offset ≤ length ids
  pub range : r.global_work_ids ≡ between r.start_offset r.end_offset ids
  pub shared_out : (id : String) → times_in id (all_work_ids r.plan) ≡ times_in id r.global_work_ids

abbrev pub RowFits : String → List String → AttemptRow → Type 0
RowFits key ids r = r.run_key ≡ key → Fits ids r

-- The run `key`, on the manifest of digest `d` and order `ids`, has consumed `xs`: the manifest's
-- first windows, up to the run's cursor.
pub record IsConsistent (key d : String) (ids : List String) (l : Ledger) (xs : List String)
    : Type 0 where
  pub rows : All (RowFits key ids) l.attempts
  pub row : CursorRow
  pub found : cursor_of key l ≡ some row
  pub digest : row.cursor.manifest_digest ≡ d
  pub inside : row.cursor.next_offset ≤ length ids
  pub done : xs ≡ take row.cursor.next_offset ids

-- No other order of work that a call reserves from has the digest `d`.
abbrev pub HasOneOrder : Hashing → String → List String → Op → Type 0
HasOneOrder h d ids (prepare _ _ m _ _) =
    manifest_digest h m ≡ ok d → work_ids m.ordered_windows ≡ ids
HasOneOrder h d ids _ = Unit
