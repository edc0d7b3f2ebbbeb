-- ===== src/Lease/Leases.antt =====
-- What a lease is good for: the current one is accepted, one from an earlier attempt never again.
use mathlib.Core.Option
use acvjepa_project.Prelude.{
  Bool-cases, Option-cases, string_eq, nat_eq, ◌==◌, last, ok, err, ◌+◌, ◌<◌, String, ◌≡◌, refl,
  sym, ap, ◌∙◌, subst, inl, inr, Bool, true, false, ◌||◌, none, some, List, arith, eq_iff, eq_refl,
}
use acvjepa_project.Lease.{
  complete, Job, Lease, LeaseError, lease_lost, cannot_complete, cannot_retry, hashes_required,
  Jobs, job_of, next_claimable, grant, acquire, owned, heartbeat, completed, complete_job, retry,
  Op, run,
}
use acvjepa_project.Lease.Keys.{
  HasUniqueKeys, job_of-update, update-HasUniqueKeys, owned_row, count-owned,
}
use acvjepa_project.Lease.Ownership.{run-Later, run-HasUniqueKeys}
use acvjepa_project.Lease.Queue.{IsNext, next_claimable-IsNext}
use acvjepa_project.Lease.Effects.{acquire-state, retried}
use acvjepa_project.Prelude.Int.{ℤ, ◌+ℤ◌, int_eq}
use acvjepa_project.Prelude.Table.{update, count, select_one-holds, apply_if, update_none}

-- The three calls of a worker that present a lease change nothing and fail.
pub record IsLost (lease : Lease) (js : Jobs) : Type 0 where
  pub no_heartbeat : (ns now : ℤ) → heartbeat lease ns now js ≡ (err lease_lost, js)
  pub no_completion :
      (artifact metadata uri : String) (now : ℤ)
      → (e : LeaseError) × (complete_job lease artifact metadata uri now js ≡ (err e, js))
  pub no_retry :
      (error : String) (max_attempts now : ℤ)
      → retry lease error max_attempts now js ≡ (err cannot_retry, js)

none_owned : (lease : Lease) (js : Jobs) → count (owned lease) js ≡ 0 → IsLost lease js
unfolding heartbeat complete_job retry
none_owned lease js z = record {
  no_heartbeat = λ ns now. ground (
    arith,
    update_none (owned lease) (λ j. record j { lease_until = some (now +ℤ ns); updated_ns = now })
        js z,
  );
  no_completion = λ artifact metadata uri now.
      elim (Bool-cases (artifact == "" || metadata == "" || uri == "")) [
        | inl e ↦ (hashes_required, ground arith)
        | inr e ↦ (
          cannot_complete,
          ground (arith, update_none (owned lease) (completed artifact metadata uri now) js z),
        )
      ];
  no_retry = λ error max_attempts now.
      ground (arith, update_none (owned lease) (retried lease error max_attempts now) js z);
}

outdated : (lease : Lease) (j : Job) → lease.attempt < j.attempt → owned lease j ≡ false
outdated lease j h = ground arith

-- Once a job has been claimed again, a lease from an earlier attempt is lost for good: after any
-- further calls the worker's heartbeat, completion and retry fail and change nothing.
pub stale_lease-IsLost :
    (lease : Lease) (js : Jobs) (j : Job) (os : List Op)
    → HasUniqueKeys js
    → job_of lease.job_key js ≡ some j
    → lease.attempt < j.attempt
    → IsLost lease (run os js)
stale_lease-IsLost lease js j os u found older =
    let key =
      (eq_iff j.job_key lease.job_key).0
        (select_one-holds (λ x. x.job_key == lease.job_key) js j found) in
    let (j', last, later) =
      run-Later os js j u (subst (λ x. job_of x js ≡ some j) (sym key) found) in
    let older' : lease.attempt < j'.attempt = omega (arith, older, later.attempts) in
    none_owned lease (run os js) (
      count-owned lease (run os js) (run-HasUniqueKeys os js u)
      ∙ ap (owned_row lease) (subst (λ x. job_of x (run os js) ≡ some j') key last)
      ∙ rw (outdated lease j' older'))

-- What `acquire` hands out for the claimed row.
abbrev pub lease_of : Job → String → ℤ → Lease
lease_of j worker until = record {
  job_key = j.job_key;
  worker_id = worker;
  attempt = j.attempt + 1;
  lease_until = until;
  payload = j.payload;
}

acquired :
    (worker : String) (ns now : ℤ) (js : Jobs) (lease : Lease)
    → (acquire worker ns now js).0 ≡ ok (some lease)
    → (j : Job) × (next_claimable now js ≡ some j) × (lease ≡ lease_of j worker (now +ℤ ns))
unfolding acquire
acquired worker ns now js lease e = elim (Option-cases (next_claimable now js)) [
  | inl nothing ↦ absurd (ground arith)
  | inr (j, found) ↦ (j, found, ground arith)
]

owned_self :
    (j : Job) (worker : String) (now until : ℤ)
    → owned (lease_of j worker until) (grant worker now until (j.attempt + 1) j) ≡ true
owned_self j worker now until = ground (arith, eq_refl j.job_key, eq_refl worker)

granted_row :
    (worker : String) (now until : ℤ) (js : Jobs) (j : Job)
    → job_of j.job_key js ≡ some j
    → job_of j.job_key
        (update (λ x. x.job_key == j.job_key) (grant worker now until (j.attempt + 1)) js)
      ≡ some (grant worker now until (j.attempt + 1) j)
granted_row worker now until js j found =
    job_of-update (λ x. x.job_key == j.job_key) (grant worker now until (j.attempt + 1)) (λ x. refl)
      j.job_key js
    ∙ rw (found, eq_refl j.job_key)

complete_owned :
    (lease : Lease) (artifact metadata uri : String) (now : ℤ) (js : Jobs)
    → (artifact == "" || metadata == "" || uri == "") ≡ false
    → count (owned lease) js ≡ 1
    → complete_job lease artifact metadata uri now js
      ≡ (ok tt, update (owned lease) (completed artifact metadata uri now) js)
unfolding complete_job
complete_owned lease artifact metadata uri now js e one = ground arith

completes :
    (worker : String) (ns now later : ℤ) (artifact metadata uri : String) (js : Jobs)
    (lease : Lease) (j : Job)
    → HasUniqueKeys js
    → (artifact == "" || metadata == "" || uri == "") ≡ false
    → next_claimable now js ≡ some j
    → lease ≡ lease_of j worker (now +ℤ ns)
    → IsNext now js j
    → let (r, done) = complete_job lease artifact metadata uri later (acquire worker ns now js).1 in
      (r ≡ ok tt)
      × (job_of lease.job_key done
          ≡ some (
              completed artifact metadata uri later
                (grant worker now (now +ℤ ns) (j.attempt + 1) j)))
completes worker ns now later artifact metadata uri js lease j u full found same n =
    let until = now +ℤ ns in
    let p : Job → Bool = λ x. x.job_key == j.job_key in
    let g = grant worker now until (j.attempt + 1) in
    let mine = lease_of j worker until in
    let f = completed artifact metadata uri later in
    let row = granted_row worker now until js j n.in_table in
    let one : count (owned mine) (update p g js) ≡ 1 =
      count-owned mine (update p g js) (update-HasUniqueKeys p g (λ x. refl) js u)
      ∙ ap (owned_row mine) row
      ∙ rw (owned_self j worker now until) in
    let done = complete_owned mine artifact metadata uri later (update p g js) full one in
    rw (same, acquire-state worker ns now js j found)
      (rw done (
        refl,
        job_of-update (owned mine) f (λ x. refl) j.job_key (update p g js)
            ∙ ap (Option.map (apply_if (owned mine) f)) row
            ∙ rw (owned_self j worker now until),
      ))

-- A job that was claimed was claimable and none claimable was updated before it; and if the worker
-- completes it with its lease and three non-empty references before another call, at any time and thus
-- also after the lease has run out, the completion succeeds, and the job's row is the claimed one, with
-- the worker and the next attempt, COMPLETE with those references, and free of a lease and an error.
pub acquire_then_complete :
    (worker : String) (ns now later : ℤ) (artifact metadata uri : String) (js : Jobs)
    (lease : Lease)
    → HasUniqueKeys js
    → (artifact == "" || metadata == "" || uri == "") ≡ false
    → (acquire worker ns now js).0 ≡ ok (some lease)
    → (j : Job) × IsNext now js j
      × (let (r, done) =
            complete_job lease artifact metadata uri later (acquire worker ns now js).1 in
          (r ≡ ok tt)
          × (job_of lease.job_key done
              ≡ some (record j {
                status = complete;
                attempt = j.attempt + 1;
                worker_id = some worker;
                lease_until = none;
                artifact_sha256 = some artifact;
                metadata_sha256 = some metadata;
                remote_commit_uri = some uri;
                error = none;
                updated_ns = later;
              })))
acquire_then_complete worker ns now later artifact metadata uri js lease u full e =
    let (j, found, same) = acquired worker ns now js lease e in
    let n = next_claimable-IsNext now js j u found in
    (j, n, completes worker ns now later artifact metadata uri js lease j u full found same n)
