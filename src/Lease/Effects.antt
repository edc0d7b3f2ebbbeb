-- ===== src/Lease/Effects.antt =====
-- What each call writes to the table of jobs.
use acvjepa_project.Prelude.Int.{ℤ, ◌+ℤ◌, int_eq}
use acvjepa_project.Prelude.Text.{prefix}
use acvjepa_project.Prelude.Table.{update}
use acvjepa_project.Prelude.{
  Bool-cases, Option-cases, string_eq, nat_eq, ◌==◌, ◌+◌, String, ◌≡◌, refl, ◌⊎◌, inl, inr, ◌||◌,
  none, some, [], ◌∷◌, ◌++◌, arith,
}
use acvjepa_project.Lease.{
  Job, Lease, Jobs, job_of, pending_job, register, next_claimable, grant, acquire, owned, heartbeat,
  completed, complete_job, next_status, retry,
}

pub register-state :
    (key payload : String) (now : ℤ) (js : Jobs)
    → ((register key payload now js).1 ≡ js)
      ⊎ ((job_of key js ≡ none)
          × ((register key payload now js).1 ≡ js ++ pending_job key payload now ∷ []))
unfolding register
register-state key payload now js = elim (Option-cases (job_of key js)) [
  | inl e ↦ inr (e, ground arith)
  | inr (j, e) ↦ inl (ground arith)
]

pub acquire-state :
    (worker : String) (ns now : ℤ) (js : Jobs) (j : Job)
    → next_claimable now js ≡ some j
    → (acquire worker ns now js).1
      ≡ update (λ x. x.job_key == j.job_key) (grant worker now (now +ℤ ns) (j.attempt + 1)) js
unfolding acquire
acquire-state worker ns now js j e = ground arith

pub acquire_nothing :
    (worker : String) (ns now : ℤ) (js : Jobs)
    → next_claimable now js ≡ none
    → (acquire worker ns now js).1 ≡ js
unfolding acquire
acquire_nothing worker ns now js e = ground arith

pub heartbeat-state :
    (lease : Lease) (ns now : ℤ) (js : Jobs)
    → (heartbeat lease ns now js).1
      ≡ update (owned lease) (λ j. record j { lease_until = some (now +ℤ ns); updated_ns = now }) js
unfolding heartbeat
heartbeat-state lease ns now js = ground arith

pub complete-state :
    (lease : Lease) (artifact metadata uri : String) (now : ℤ) (js : Jobs)
    → ((complete_job lease artifact metadata uri now js).1 ≡ js)
      ⊎ ((complete_job lease artifact metadata uri now js).1
          ≡ update (owned lease) (completed artifact metadata uri now) js)
unfolding complete_job
complete-state lease artifact metadata uri now js =
    elim (Bool-cases (artifact == "" || metadata == "" || uri == "")) [
      | inl e ↦ inl (rw e)
      | inr e ↦ inr (rw e)
    ]

abbrev pub retried : Lease → String → ℤ → ℤ → Job → Job
retried lease error max_attempts now j = record j {
  status = next_status lease.attempt max_attempts;
  lease_until = none;
  error = some (prefix 2048 error);
  updated_ns = now;
}

pub retry-state :
    (lease : Lease) (error : String) (max_attempts now : ℤ) (js : Jobs)
    → (retry lease error max_attempts now js).1
      ≡ update (owned lease) (retried lease error max_attempts now) js
unfolding retry
retry-state lease error max_attempts now js = refl
