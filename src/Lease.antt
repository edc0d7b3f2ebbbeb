-- ===== src/Lease.antt =====
-- resumable_simjob_ledger.py: the lease ledger of simulation jobs. The table `sim_jobs` is a list of
-- rows. The clock is an argument, in nanoseconds; `lease_ns` is `int(lease_seconds * 1e9)`. A payload
-- is its JSON text with sorted keys.
pub mod Queue
pub mod Effects
pub mod Ownership
pub mod Leases
pub mod Keys
pub mod Retry
mod Tests
use acvjepa_project.Prelude.Int.{ℤ, pos, ◌+ℤ◌, ltb_ℤ, int_eq}
use acvjepa_project.Prelude.Text.{prefix}
use acvjepa_project.Prelude.Table.{select_one, update, count}
use Prim.Native.Nat.{Ordering}
use Prim.Native.String.{compare}
use acvjepa_project.Prelude.{
  if◌then◌else◌, string_eq, nat_eq, ◌==◌, ok, err, Exec, pure, gets, transaction, ◌>>=◌, ◌>>◌,
  raise_if, ℕ, ◌+◌, String, Bool, true, false, ◌&&◌, ◌||◌, Option, none, some, List, [], ◌∷◌, ◌++◌,
  map,
}

pub data JobStatus : Type 0 where
  pending retry_later leased complete quarantined : JobStatus

-- A row of `sim_jobs`.
pub record Job : Type 0 where
  pub job_key : String
  pub payload : String
  pub status : JobStatus
  pub attempt : ℕ
  pub worker_id : Option String
  pub lease_until : Option ℤ
  pub artifact_sha256 : Option String
  pub metadata_sha256 : Option String
  pub remote_commit_uri : Option String
  pub error : Option String
  pub updated_ns : ℤ

pub record Lease : Type 0 where
  pub job_key : String
  pub worker_id : String
  pub attempt : ℕ
  pub lease_until : ℤ
  pub payload : String

-- `RuntimeError` with its messages, and the `ValueError` of `complete`.
pub data LeaseError : Type 0 where
  payload_conflict lease_lost cannot_complete cannot_retry hashes_required : LeaseError

abbrev pub Jobs : Type 0
Jobs = List Job

abbrev pub Action : Type 0 → Type 0
Action = Exec LeaseError Jobs

abbrev pub job_of : String → Jobs → Option Job
job_of key jobs = select_one (λ j. j.job_key == key) jobs

abbrev pub pending_job : String → String → ℤ → Job
pending_job key payload now = record {
  job_key = key;
  payload = payload;
  status = pending;
  attempt = 0;
  worker_id = none;
  lease_until = none;
  artifact_sha256 = none;
  metadata_sha256 = none;
  remote_commit_uri = none;
  error = none;
  updated_ns = now;
}

abbrev pub insert_or_check : String → String → ℤ → Option Job → Action (Unit {0})
insert_or_check key payload now none jobs = (ok tt, jobs ++ pending_job key payload now ∷ [])
insert_or_check key payload now (some old) jobs =
    (if old.payload == payload then ok tt else err payload_conflict, jobs)

unfoldable pub register : String → String → ℤ → Action (Unit {0})
register key payload now =
    transaction (do old ← gets (job_of key); insert_or_check key payload now old)

-- `status IN ('PENDING','RETRY') OR (status='LEASED' AND lease_until_ns < ?)`; an order with NULL is
-- not true.
abbrev pub expired_at : ℤ → Option ℤ → Bool
expired_at now none = false
expired_at now (some t) = ltb_ℤ t now

abbrev pub claimable_status : JobStatus → ℤ → Option ℤ → Bool
claimable_status pending now until = true
claimable_status retry_later now until = true
claimable_status leased now until = expired_at now until
claimable_status _ now until = false

abbrev pub claimable : ℤ → Job → Bool
claimable now j = claimable_status j.status now j.lease_until

abbrev pub text_before : String → String → Bool
text_before a b = elim (compare a b) [ Ordering.lt ↦ true | _ ↦ false ]

-- `ORDER BY updated_ns, job_key`; texts are ordered by their bytes.
abbrev pub before : Job → Job → Bool
before a b =
    ltb_ℤ a.updated_ns b.updated_ns
    || a.updated_ns == b.updated_ns && text_before a.job_key b.job_key

abbrev pub earlier : Job → Option Job → Job
earlier j none = j
earlier j (some k) = if before k j then k else j

-- `LIMIT 1` over the claimable rows in that order.
unfoldable pub next_claimable : ℤ → Jobs → Option Job
next_claimable now [] = none
next_claimable now (j ∷ js) =
    let rest = next_claimable now js in if claimable now j then some (earlier j rest) else rest

abbrev pub grant : String → ℤ → ℤ → ℕ → Job → Job
grant worker now until attempt j = record j {
  status = leased;
  attempt = attempt;
  worker_id = some worker;
  lease_until = some until;
  error = none;
  updated_ns = now;
}

abbrev pub claim : String → ℤ → ℤ → Option Job → Action (Option Lease)
claim worker now until none jobs = (ok none, jobs)
claim worker now until (some j) jobs = (
  ok (
      some (record {
        job_key = j.job_key;
        worker_id = worker;
        attempt = j.attempt + 1;
        lease_until = until;
        payload = j.payload;
      })),
  update (λ x. x.job_key == j.job_key) (grant worker now until (j.attempt + 1)) jobs,
)

unfoldable pub acquire : String → ℤ → ℤ → Action (Option Lease)
acquire worker lease_ns now =
    transaction (do row ← gets (next_claimable now); claim worker now (now +ℤ lease_ns) row)

abbrev pub is_leased : JobStatus → Bool
is_leased leased = true
is_leased _ = false

abbrev pub holds : Option String → String → Bool
holds none worker = false
holds (some w) worker = w == worker

-- `job_key=? AND status='LEASED' AND worker_id=? AND attempt=?`
abbrev pub owned : Lease → Job → Bool
owned lease j =
    j.job_key == lease.job_key
    && is_leased j.status
    && holds j.worker_id lease.worker_id
    && j.attempt == lease.attempt

-- An `UPDATE` of the owned row, and `RuntimeError` where it has changed no row.
abbrev pub update_owned : Lease → (Job → Job) → LeaseError → Action (Unit {0})
update_owned lease f e jobs =
    (if count (owned lease) jobs == 1 then ok tt else err e, update (owned lease) f jobs)

unfoldable pub heartbeat : Lease → ℤ → ℤ → Action Lease
heartbeat lease lease_ns now = do
  update_owned lease (λ j. record j { lease_until = some (now +ℤ lease_ns); updated_ns = now })
      lease_lost
  pure (record lease { lease_until = now +ℤ lease_ns })

abbrev pub completed : String → String → String → ℤ → Job → Job
completed artifact metadata uri now j = record j {
  status = complete;
  artifact_sha256 = some artifact;
  metadata_sha256 = some metadata;
  remote_commit_uri = some uri;
  lease_until = none;
  updated_ns = now;
}

unfoldable pub complete_job : Lease → String → String → String → ℤ → Action (Unit {0})
complete_job lease artifact metadata uri now = do
  raise_if (artifact == "" || metadata == "" || uri == "") hashes_required
  update_owned lease (completed artifact metadata uri now) cannot_complete

abbrev pub next_status : ℕ → ℤ → JobStatus
next_status attempt max_attempts =
    if ltb_ℤ (pos attempt) max_attempts then retry_later else quarantined

unfoldable pub retry : Lease → String → ℤ → ℤ → Action (Unit {0})
retry lease error max_attempts now =
    update_owned lease
      (λ j. record j {
        status = next_status lease.attempt max_attempts;
        lease_until = none;
        error = some (prefix 2048 error);
        updated_ns = now;
      })
      cannot_retry

-- `summary`: the statuses that occur, with the number of their jobs.
abbrev pub status_code : JobStatus → ℕ
status_code complete = 0
status_code leased = 1
status_code pending = 2
status_code quarantined = 3
status_code retry_later = 4

unfoldable pub count_status : JobStatus → Jobs → ℕ
count_status s jobs = count (λ j. status_code j.status == status_code s) jobs

abbrev occurring : List (JobStatus × ℕ) → List (JobStatus × ℕ)
occurring [] = []
occurring ((s, n) ∷ l) = if n == 0 then occurring l else (s, n) ∷ occurring l

unfoldable pub summary : Jobs → List (JobStatus × ℕ)
unfolding count_status
summary jobs = occurring (
    map (λ s. (s, count_status s jobs))
      (complete ∷ leased ∷ pending ∷ quarantined ∷ retry_later ∷ []))

-- The calls that change the table.
pub data Op : Type 0 where
  add : String → String → ℤ → Op
  take_one : String → ℤ → ℤ → Op
  beat : Lease → ℤ → ℤ → Op
  finish : Lease → String → String → String → ℤ → Op
  again : Lease → String → ℤ → ℤ → Op

unfoldable pub step : Op → Jobs → Jobs
step (add key payload now) jobs = (register key payload now jobs).1
step (take_one worker lease_ns now) jobs = (acquire worker lease_ns now jobs).1
step (beat lease lease_ns now) jobs = (heartbeat lease lease_ns now jobs).1
step (finish lease artifact metadata uri now) jobs =
    (complete_job lease artifact metadata uri now jobs).1
step (again lease error max_attempts now) jobs = (retry lease error max_attempts now jobs).1

unfoldable pub run : List Op → Jobs → Jobs
run [] jobs = jobs
run (o ∷ os) jobs = run os (step o jobs)
