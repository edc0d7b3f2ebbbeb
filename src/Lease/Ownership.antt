-- ===== src/Lease/Ownership.antt =====
-- What a call can do to a job: attempts never fall, a finished job never changes, and a lease from an
-- earlier attempt is lost for good.
use mathlib.Core.Option
use acvjepa_project.Prelude.{
  Bool-cases, Option-cases, some_inj, string_eq, nat_eq, ◌==◌, ◌+◌, ◌≤◌, String, ◌≡◌, refl, sym, ap,
  ◌∙◌, subst, inl, inr, Bool, true, false, some, List, [], ◌∷◌, arith, eq_iff,
}
use acvjepa_project.Lease.{
  JobStatus, complete, quarantined, Job, Lease, Jobs, job_of, pending_job, claimable,
  next_claimable, grant, owned, completed, Op, add, take_one, beat, finish, again, step, run,
}
use acvjepa_project.Lease.Effects.{
  register-state, acquire-state, acquire_nothing, heartbeat-state, complete-state, retry-state,
}
use acvjepa_project.Lease.Keys.{
  HasUniqueKeys, job_of-update, update-HasUniqueKeys, append-HasUniqueKeys,
}
use acvjepa_project.Prelude.Int.{ℤ, ◌+ℤ◌, int_eq}
use acvjepa_project.Lease.Queue.{IsNext, next_claimable-IsNext}
use acvjepa_project.Prelude.Table.{update, select_one-append, apply_if}

-- COMPLETE and QUARANTINED.
abbrev pub is_final : JobStatus → Bool
is_final complete = true
is_final quarantined = true
is_final _ = false

-- `j'` is the job of `j`, later on.
pub record Later (j j' : Job) : Type 0 where
  pub same_key : j'.job_key ≡ j.job_key
  pub same_payload : j'.payload ≡ j.payload
  pub attempts : j.attempt ≤ j'.attempt
  pub settled : is_final j.status ≡ true → j' ≡ j

Later-refl : (j : Job) → Later j j
Later-refl j = record {
  same_key = refl;
  same_payload = refl;
  attempts = omega arith;
  settled = λ _. refl;
}

Later-trans : (i j k : Job) → Later i j → Later j k → Later i k
Later-trans i j k a b = record {
  same_key = b.same_key ∙ a.same_key;
  same_payload = b.same_payload ∙ a.same_payload;
  attempts = omega (arith, a.attempts, b.attempts);
  settled = λ f. let e = a.settled f in b.settled (rw e f) ∙ e;
}

abbrev LaterIn : Jobs → Job → Type 0
LaterIn js j = (j' : Job) × (job_of j.job_key js ≡ some j') × Later j j'

-- An update that keeps keys makes of each job a later one, if it does so where it applies.
update-Later :
    (p : Job → Bool) (f : Job → Job) (js : Jobs) (j : Job)
    → ((x : Job) → (f x).job_key ≡ x.job_key)
    → job_of j.job_key js ≡ some j
    → (p j ≡ true → Later j (f j))
    → LaterIn (update p f js) j
update-Later p f js j keep found step = (
  apply_if p f j,
  job_of-update p f keep j.job_key js ∙ ap (Option.map (apply_if p f)) found,
  elim (Bool-cases (p j)) [ inl e ↦ rw e (step e) | inr e ↦ rw e (Later-refl j) ],
)

-- What is owned is leased, so not final.
owned-leased : (lease : Lease) (j : Job) → owned lease j ≡ true → is_final j.status ≡ true → ⊥
owned-leased lease j e f = ground arith

claimable-not_final : (now : ℤ) (j : Job) → claimable now j ≡ true → is_final j.status ≡ true → ⊥
claimable-not_final now j e f = ground arith

update-owned-Later :
    (lease : Lease) (f : Job → Job) (js : Jobs) (j : Job)
    → ((x : Job)
        → ((f x).job_key ≡ x.job_key) × ((f x).payload ≡ x.payload) × ((f x).attempt ≡ x.attempt))
    → job_of j.job_key js ≡ some j
    → LaterIn (update (owned lease) f js) j
update-owned-Later lease f js j keep found =
    update-Later (owned lease) f js j (λ x. (keep x).0) found
      (λ e. record {
        same_key = (keep j).0;
        same_payload = (keep j).1;
        attempts = let q = (keep j).2 in omega arith;
        settled = λ final. absurd (owned-leased lease j e final);
      })

grant-Later :
    (worker : String) (now until : ℤ) (js : Jobs) (j k : Job)
    → IsNext now js k
    → job_of j.job_key js ≡ some j
    → (j.job_key == k.job_key) ≡ true
    → Later j (grant worker now until (k.attempt + 1) j)
grant-Later worker now until js j k n found e =
    let keys = (eq_iff j.job_key k.job_key).0 e in
    let same : j ≡ k = some_inj (sym found ∙ ap (λ (x : String). job_of x js) keys ∙ n.in_table) in
    let more : j.attempt ≤ k.attempt + 1 = rw same (omega arith) in
    record {
      same_key = refl;
      same_payload = refl;
      attempts = more;
      settled = λ final. absurd (
          claimable-not_final now k n.can_claim (subst (λ x. is_final x.status ≡ true) same final));
    }

step-Later :
    (o : Op) (js : Jobs) (j : Job)
    → HasUniqueKeys js
    → job_of j.job_key js ≡ some j
    → LaterIn (step o js) j
unfolding step
step-Later (add key payload now) js j u found = elim (register-state key payload now js) [
  | inl e ↦ rw e (j, found, Later-refl j)
  | inr (a, e) ↦
      rw e (j, select_one-append (λ x. x.job_key == j.job_key) js _ j found, Later-refl j)
]
step-Later (take_one worker ns now) js j u found = elim (Option-cases (next_claimable now js)) [
  | inl e ↦ rw (acquire_nothing worker ns now js e) (j, found, Later-refl j)
  | inr (k, e) ↦ rw (acquire-state worker ns now js k e) (
      update-Later (λ x. x.job_key == k.job_key) (grant worker now (now +ℤ ns) (k.attempt + 1)) js j
        (λ x. refl) found
        (grant-Later worker now (now +ℤ ns) js j k (next_claimable-IsNext now js k u e) found))
]
step-Later (beat lease ns now) js j u found =
    rw heartbeat-state (update-owned-Later lease _ js j (λ x. (refl, refl, refl)) found)
step-Later (finish lease artifact metadata uri now) js j u found =
    elim (complete-state lease artifact metadata uri now js) [
      | inl e ↦ rw e (j, found, Later-refl j)
      | inr e ↦ rw e (
          update-owned-Later lease (completed artifact metadata uri now) js j
            (λ x. (refl, refl, refl)) found)
    ]
step-Later (again lease error max_attempts now) js j u found =
    rw retry-state (update-owned-Later lease _ js j (λ x. (refl, refl, refl)) found)

pub step-HasUniqueKeys : (o : Op) (js : Jobs) → HasUniqueKeys js → HasUniqueKeys (step o js)
unfolding step
step-HasUniqueKeys (add key payload now) js u = elim (register-state key payload now js) [
  | inl e ↦ rw e u
  | inr (a, e) ↦ rw e (append-HasUniqueKeys js (pending_job key payload now) u a)
]
step-HasUniqueKeys (take_one worker ns now) js u = elim (Option-cases (next_claimable now js)) [
  | inl e ↦ rw (acquire_nothing worker ns now js e) u
  | inr (k, e) ↦ rw (acquire-state worker ns now js k e) (update-HasUniqueKeys _ _ (λ x. refl) js u)
]
step-HasUniqueKeys (beat lease ns now) js u =
    rw heartbeat-state (update-HasUniqueKeys _ _ (λ x. refl) js u)
step-HasUniqueKeys (finish lease artifact metadata uri now) js u =
    elim (complete-state lease artifact metadata uri now js) [
      | inl e ↦ rw e u
      | inr e ↦ rw e (update-HasUniqueKeys _ _ (λ x. refl) js u)
    ]
step-HasUniqueKeys (again lease error max_attempts now) js u =
    rw retry-state (update-HasUniqueKeys _ _ (λ x. refl) js u)

-- Over any schedule a job keeps its key and payload, its attempts never fall, and once it is COMPLETE
-- or QUARANTINED its row never changes.
pub run-Later :
    (os : List Op) (js : Jobs) (j : Job)
    → HasUniqueKeys js
    → job_of j.job_key js ≡ some j
    → (j' : Job) × (job_of j.job_key (run os js) ≡ some j') × Later j j'
unfolding run
run-Later [] js j u found = (j, found, Later-refl j)
run-Later (o ∷ os) js j u found =
    let (k, found', a) = step-Later o js j u found in
    let (k', last, b) =
      run-Later os (step o js) k (step-HasUniqueKeys o js u) (rw a.same_key found') in
    (k', rw (← a.same_key) last, Later-trans j k k' a b)

pub run-HasUniqueKeys : (os : List Op) (js : Jobs) → HasUniqueKeys js → HasUniqueKeys (run os js)
unfolding run
run-HasUniqueKeys [] js u = u
run-HasUniqueKeys (o ∷ os) js u = run-HasUniqueKeys os (step o js) (step-HasUniqueKeys o js u)
