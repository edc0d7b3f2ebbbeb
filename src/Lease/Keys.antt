-- ===== src/Lease/Keys.antt =====
-- The primary key of `sim_jobs`: lookups by key, and what updates do to them.
use mathlib.Core.Option
use acvjepa_project.Prelude.{
  if◌then◌else◌, Bool-cases, string_eq, nat_eq, ◌==◌, ℕ, String, ◌≡◌, refl, ap, ◌∙◌, inl, inr, Bool,
  false, Option, none, some, [], ◌∷◌, ◌++◌, arith, eq_iff,
}
use acvjepa_project.Lease.{Job, Lease, Jobs, job_of, owned}
use acvjepa_project.Prelude.Int.{int_eq}
use acvjepa_project.Prelude.Table.{update, count, apply_if, select_one-update}

-- No key stands in two rows.
abbrev pub HasUniqueKeys : Jobs → Type 0
HasUniqueKeys [] = Unit
HasUniqueKeys (j ∷ js) = (job_of j.job_key js ≡ none) × HasUniqueKeys js

module _ (p : Job → Bool) (f : Job → Job) (keep : (j : Job) → (f j).job_key ≡ j.job_key) where
  pub job_of-update :
      (key : String) (js : Jobs)
      → job_of key (update p f js) ≡ Option.map (apply_if p f) (job_of key js)
  job_of-update key js =
      select_one-update (λ j. j.job_key == key) p f (λ j. ap (λ k. k == key) (keep j)) js

  pub update-HasUniqueKeys : (js : Jobs) → HasUniqueKeys js → HasUniqueKeys (update p f js)
  update-HasUniqueKeys [] u = tt
  update-HasUniqueKeys (j ∷ js) u = elim (Bool-cases (p j)) [
    | inl e ↦ rw e (
        rw (keep j) (
          job_of-update j.job_key js ∙ ap (Option.map (apply_if p f)) u.0,
          update-HasUniqueKeys js u.1,
        ))
    | inr e ↦ rw e (
      job_of-update j.job_key js ∙ ap (Option.map (apply_if p f)) u.0,
      update-HasUniqueKeys js u.1,
    )
  ]

absent-append :
    (key : String) (js : Jobs) (j : Job)
    → job_of key js ≡ none
    → j.job_key == key ≡ false
    → job_of key (js ++ j ∷ []) ≡ none
absent-append key [] j a b = rw b
absent-append key (x ∷ js) j a b = ground (arith, absent-append key js j)

pub append-HasUniqueKeys :
    (js : Jobs) (j : Job)
    → HasUniqueKeys js
    → job_of j.job_key js ≡ none
    → HasUniqueKeys (js ++ j ∷ [])
append-HasUniqueKeys [] j u a = (refl, tt)
append-HasUniqueKeys (x ∷ js) j u a = (
  absent-append x.job_key js j u.0
      (ground (arith, eq_iff x.job_key j.job_key, eq_iff j.job_key x.job_key)),
  append-HasUniqueKeys js j u.1 (ground arith),
)

no_owner : (lease : Lease) (js : Jobs) → job_of lease.job_key js ≡ none → count (owned lease) js ≡ 0
no_owner lease [] a = refl
no_owner lease (j ∷ js) a = ground (arith, no_owner lease js)

abbrev pub owned_row : Lease → Option Job → ℕ
owned_row lease none = 0
owned_row lease (some j) = if owned lease j then 1 else 0

-- The `rowcount` of an update of the owned row says whether the job's row is owned.
pub count-owned :
    (lease : Lease) (js : Jobs)
    → HasUniqueKeys js
    → count (owned lease) js ≡ owned_row lease (job_of lease.job_key js)
count-owned lease [] u = refl
count-owned lease (j ∷ js) u = elim (Bool-cases (j.job_key == lease.job_key)) [
  | inl here ↦
      let e : j.job_key ≡ lease.job_key = (eq_iff j.job_key lease.job_key).0 here in
      let rest : count (owned lease) js ≡ 0 = no_owner lease js (rw (← e) u.0) in
      ground (arith, rest)
  | inr there ↦ let rest = count-owned lease js u.1 in ground (arith, rest)
]
