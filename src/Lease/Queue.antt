-- ===== src/Lease/Queue.antt =====
-- `acquire`: which job is claimed, and that the lease which it hands out is good.
use acvjepa_project.Prelude.{
  if◌then◌else◌, Bool-cases, Option-cases, string_eq, nat_eq, ◌==◌, All, ◌≡◌, subst, ◌⊎◌, inl, inr,
  Bool, true, false, none, some, [], ◌∷◌, arith, eq_iff, eq_refl,
}
use acvjepa_project.Lease.{Job, Jobs, job_of, claimable, before, earlier, next_claimable}
use acvjepa_project.Lease.Keys.{HasUniqueKeys}
use acvjepa_project.Prelude.Int.{ℤ, ◌≤ℤ◌, int_eq}

-- The claimed job is in the table under its key, could be claimed, and none that could be claimed was
-- updated before it.
pub record IsNext (now : ℤ) (js : Jobs) (j : Job) : Type 0 where
  pub in_table : job_of j.job_key js ≡ some j
  pub can_claim : claimable now j ≡ true
  pub oldest : All (λ x. claimable now x ≡ true → j.updated_ns ≤ℤ x.updated_ns) js

nothing_to_claim :
    (now : ℤ) (js : Jobs) → next_claimable now js ≡ none → All (λ x. claimable now x ≡ false) js
unfolding next_claimable
nothing_to_claim now [] h = tt
nothing_to_claim now (j ∷ js) h = (ground arith, nothing_to_claim now js (ground arith))

not_claimable_older :
    (now t : ℤ) (js : Jobs)
    → All (λ x. claimable now x ≡ false) js
    → All (λ x. claimable now x ≡ true → t ≤ℤ x.updated_ns) js
not_claimable_older now t [] a = tt
not_claimable_older now t (j ∷ js) a =
    ((λ e. absurd (ground arith)), not_claimable_older now t js a.1)

older_than :
    (now s t : ℤ) (js : Jobs)
    → s ≤ℤ t
    → All (λ x. claimable now x ≡ true → t ≤ℤ x.updated_ns) js
    → All (λ x. claimable now x ≡ true → s ≤ℤ x.updated_ns) js
older_than now s t [] le a = tt
older_than now s t (j ∷ js) le a =
    ((λ e. let m = a.0 e in omega arith), older_than now s t js le a.1)

-- The choice between the first row and the best of the rest.
abbrev choice : ℤ → Job → Job → Job
choice now x k = if claimable now x then earlier x (some k) else k

choice-oldest :
    (now : ℤ) (x k : Job)
    → ((choice now x k).updated_ns ≤ℤ k.updated_ns)
      × (claimable now x ≡ true → (choice now x k).updated_ns ≤ℤ x.updated_ns)
choice-oldest now x k = ground arith

later_in_table :
    (x k : Job) (js : Jobs)
    → job_of x.job_key js ≡ none
    → job_of k.job_key js ≡ some k
    → job_of k.job_key (x ∷ js) ≡ some k
later_in_table x k js u f = elim (Bool-cases (x.job_key == k.job_key)) [
  | inl e ↦
      let same = (eq_iff x.job_key k.job_key).0 e in
      let clash : job_of k.job_key js ≡ none = rw same at u in absurd (ground arith)
  | inr e ↦ rw e f
]

choice-IsNext :
    (now : ℤ) (x : Job) (js : Jobs) (k : Job)
    → HasUniqueKeys (x ∷ js)
    → IsNext now js k
    → IsNext now (x ∷ js) (choice now x k)
choice-IsNext now x js k u n = record {
  in_table = in_table' (claimable now x) (before k x);
  can_claim = can_claim' (Bool-cases (claimable now x)) (Bool-cases (before k x));
  oldest = (
    (choice-oldest now x k).1,
    older_than now (choice now x k).updated_ns k.updated_ns js (choice-oldest now x k).0 n.oldest,
  );
}
  where
    in_table' :
        (b c : Bool)
        → job_of (if b then (if c then k else x) else k).job_key (x ∷ js)
          ≡ some (if b then (if c then k else x) else k)
    in_table' true true = later_in_table x k js u.0 n.in_table
    in_table' true false = rw (eq_refl x.job_key)
    in_table' false c = later_in_table x k js u.0 n.in_table

    can_claim' :
        (claimable now x ≡ true) ⊎ (claimable now x ≡ false)
        → (before k x ≡ true) ⊎ (before k x ≡ false)
        → claimable now (choice now x k) ≡ true
    can_claim' (inl e) (inl b) = rw e (rw b n.can_claim)
    can_claim' (inl e) (inr b) = rw e (rw b e)
    can_claim' (inr e) b = rw e n.can_claim

pub next_claimable-IsNext :
    (now : ℤ) (js : Jobs) (j : Job)
    → HasUniqueKeys js
    → next_claimable now js ≡ some j
    → IsNext now js j
unfolding next_claimable
next_claimable-IsNext now [] j u h = ground arith
next_claimable-IsNext now (x ∷ js) j u h = elim (Option-cases (next_claimable now js)) [
  | inl nothing ↦
      let a = nothing_to_claim now js nothing in
      let e : x ≡ j = ground arith in
      let c : claimable now x ≡ true = ground arith in
      subst (IsNext now (x ∷ js)) e (record {
        in_table = rw (eq_refl x.job_key);
        can_claim = c;
        oldest = (λ _. omega arith, not_claimable_older now x.updated_ns js a);
      })
  | inr (k, found) ↦
      let e : choice now x k ≡ j = ground arith in
      subst (IsNext now (x ∷ js)) e
        (choice-IsNext now x js k u (next_claimable-IsNext now js k u.1 found))
]
