-- ===== src/Lease/Tests.antt =====
-- A job that two workers claim in turn, and each theorem at it.
use acvjepa_project.Prelude.Int.{pos, ◌+ℤ◌}
use acvjepa_project.Prelude.{
  ltb, if◌then◌else◌, Result, ok, err, ℕ, ◌+◌, ◌<◌, String, ◌≡◌, refl, none, some, List, [], ◌∷◌,
  arith,
}
use acvjepa_project.Lease.{
  pending, leased, complete, Job, Lease, Jobs, job_of, pending_job, next_claimable, grant, acquire,
  completed, complete_job, summary, Op, take_one, finish, again, step, run,
}
use acvjepa_project.Lease.Keys.{HasUniqueKeys}
use acvjepa_project.Lease.Queue.{IsNext}
use acvjepa_project.Lease.Ownership.{Later, run-Later}
use acvjepa_project.Lease.Leases.{IsLost, stale_lease-IsLost, acquire_then_complete}
use acvjepa_project.Lease.Retry.{returned, raised, retry_with_backoff, world_before, retry_outcome}

abbrev fresh : Jobs
fresh = pending_job "job-1" "{}" (pos 5) ∷ pending_job "job-2" "{}" (pos 3) ∷ []

abbrev lease_a : Lease
lease_a = record {
  job_key = "job-2";
  worker_id = "worker-a";
  attempt = 1;
  lease_until = pos 110;
  payload = "{}";
}

abbrev expired_job : Job
expired_job = grant "worker-b" (pos 200) (pos 300) 2 (pending_job "job-2" "{}" (pos 3))

abbrev reclaimed : Jobs
reclaimed = pending_job "job-1" "{}" (pos 500) ∷ expired_job ∷ []

fresh-HasUniqueKeys : HasUniqueKeys fresh
fresh-HasUniqueKeys = (refl, (refl, tt))

claims_oldest : (acquire "worker-a" (pos 100) (pos 10) fresh).0 ≡ ok (some lease_a)
unfolding acquire next_claimable ◌+ℤ◌
claims_oldest = refl

claims_expired :
    run (take_one "worker-a" (pos 100) (pos 10) ∷ take_one "worker-b" (pos 100) (pos 20) ∷ []) fresh
    ≡ grant "worker-b" (pos 20) (pos 120) 1 (pending_job "job-1" "{}" (pos 5))
      ∷ grant "worker-a" (pos 10) (pos 110) 1 (pending_job "job-2" "{}" (pos 3))
      ∷ []
unfolding run step acquire next_claimable ◌+ℤ◌
claims_expired = refl

occurring_statuses : summary reclaimed ≡ (leased, 1) ∷ (pending, 1) ∷ []
unfolding summary
occurring_statuses = refl

acquire_then_complete_example :
    (j : Job) × IsNext (pos 10) fresh j
    × (let (r, done) =
          complete_job lease_a "a" "m" "uri"
            (pos 50)
            (acquire "worker-a" (pos 100) (pos 10) fresh).1 in
        (r ≡ ok tt)
        × (job_of "job-2" done
            ≡ some (record j {
              status = complete;
              attempt = j.attempt + 1;
              worker_id = some "worker-a";
              lease_until = none;
              artifact_sha256 = some "a";
              metadata_sha256 = some "m";
              remote_commit_uri = some "uri";
              error = none;
              updated_ns = pos 50;
            })))
acquire_then_complete_example =
    acquire_then_complete "worker-a" (pos 100) (pos 10) (pos 50) "a" "m" "uri" fresh lease_a
      fresh-HasUniqueKeys refl claims_oldest

abbrev later_calls : List Op
later_calls =
    finish lease_a "a" "m" "uri" (pos 210)
    ∷ again lease_a "lost" (pos 3) (pos 220)
    ∷ take_one "worker-c" (pos 100) (pos 400)
    ∷ []

stale_lease-IsLost_example : IsLost lease_a (run later_calls reclaimed)
stale_lease-IsLost_example =
    stale_lease-IsLost lease_a reclaimed expired_job later_calls (refl, (refl, tt)) refl
      (omega arith)

abbrev finished : Job
finished = completed "a" "m" "uri" (pos 60) expired_job

run-Later_example :
    (j' : Job) × (job_of "job-2" (run later_calls (finished ∷ [])) ≡ some j') × Later finished j'
run-Later_example = run-Later later_calls (finished ∷ []) finished (refl, tt) refl

-- An operation that counts its calls and succeeds from the third on.
abbrev flaky : ℕ → Result String ℕ × ℕ
flaky n = (if ltb n 2 then err "busy" else ok n, n + 1)

retry_outcome_example :
    ((attempts a : ℕ)
      → 2 < attempts
      → (flaky (world_before flaky (λ i w. w) 0 2 0)).0 ≡ ok a
      → retry_with_backoff flaky (λ i w. w) attempts 0
        ≡ (returned a, (flaky (world_before flaky (λ i w. w) 0 2 0)).1))
    × ((e : String)
        → (flaky (world_before flaky (λ i w. w) 0 2 0)).0 ≡ err e
        → retry_with_backoff flaky (λ i w. w) 3 0
          ≡ (raised e, (flaky (world_before flaky (λ i w. w) 0 2 0)).1))
retry_outcome_example = retry_outcome flaky (λ i w. w) 2 0 (("busy", refl), (("busy", refl), tt))
